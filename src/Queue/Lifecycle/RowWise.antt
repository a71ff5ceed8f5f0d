-- ===== src/Queue/Lifecycle/RowWise.antt =====
-- What holds of every row after a message has been added or forwarded: a property that every new
-- message has, and that a link to a copy keeps.
use nodestack.Prelude.{
  ℕ, ◌≡◌, refl, String, Bool, true, false, List, [], ◌∷◌, Option, none, some, ◌=ₜ◌, All, All-append,
  find, subst, is_some, Bool-cases, Option-cases, inl, inr, Ensures, ok-Ensures, throw-Ensures,
  bind-Ensures, bind-any-Ensures,
}
use nodestack.Sql.{update_where}
use nodestack.Sql.Laws.{All-delete_where, All-update_where}
use nodestack.Queue.Types.{Message, EnqueueMessage, Db}
use nodestack.Queue.Driver.Conditions.{find_message, find_queue}
use nodestack.Queue.Driver.Insert.{
  ensure_queue, find_duplicate, due_time, new_row, insert_row, insert_message,
}
use nodestack.Queue.Driver.Fail.{forwarded_as, forward, forward_if_configured}

-- An UPDATE where both what it changes and what it keeps turn one predicate into another.
pub update-All {ℓ κ μ} :
    {A : Type ℓ} (P : A → Type κ) (Q : A → Type μ) (p : A → Bool) (f : A → A)
    → ((x : A) → p x ≡ true → P x → Q (f x))
    → ((x : A) → p x ≡ false → P x → Q x)
    → (xs : List A) → All P xs
    → All Q (update_where p f xs)
unfolding update_where
update-All P Q p f change keep [] h = tt
update-All P Q p f change keep (x ∷ xs) (q, h) = elim (Bool-cases (p x)) [
  | inl e ↦ rw e (change x e q, update-All P Q p f change keep xs h)
  | inr e ↦ rw e (keep x e q, update-All P Q p f change keep xs h)
]

-- Two conditions that agree on the rows give the same UPDATE.
pub update_where-same {ℓ} :
    {A : Type ℓ} (p q : A → Bool) (f : A → A) (xs : List A)
    → All (λ x. p x ≡ q x) xs
    → update_where p f xs ≡ update_where q f xs
unfolding update_where
update_where-same p q f [] h = refl
update_where-same p q f (x ∷ xs) (e, h) = rw (e, update_where-same p q f xs h)

-- What a search finds is a row of the table.
pub find-All {ℓ κ} :
    {A : Type ℓ} (P : A → Type κ) (p : A → Bool) (xs : List A) {x : A}
    → All P xs
    → find p xs ≡ some x
    → P x
find-All P p [] h e = absurd (cc e)
find-All P p (y ∷ ys) {x = x} (k, h) e = elim (Bool-cases (p y)) [
  | inl t ↦ (let same : y ≡ x = cc (rw t at e) in subst P same k)
  | inr t ↦ find-All P p ys h (rw t at e)
]

pub ensure_queue-messages :
    (now : ℕ) (name : String) (db : Db) → (ensure_queue now name db).messages ≡ db.messages
unfolding ensure_queue
ensure_queue-messages now name db = elim (Bool-cases (is_some (find_queue name db.queues))) [
  | inl e ↦ rw e
  | inr e ↦ rw e
]

module _ (P : Message → Type 0)
    (added : (now : ℕ) (fresh : String) (at most : ℕ) (dto : EnqueueMessage)
      → P (new_row now fresh at most dto))
    (linked : (copy : String) (n : Message) → P n → P (forwarded_as copy n)) where
  insert_row-All :
      (row : Message) (db : Db)
      → P row
      → All P db.messages
      → Ensures (λ r. All P r.messages) (insert_row row db)
  unfolding insert_row
  insert_row-All row db new h = elim (Bool-cases (is_some (find_message row.id db.messages))) [
    | inl e ↦ rw e throw-Ensures
    | inr e ↦ rw e (ok-Ensures (All-append P db.messages (row ∷ []) h (new, tt)))
  ]

  pub insert_message-All :
      (now : ℕ) (fresh : String) (dto : EnqueueMessage) (db : Db)
      → All P db.messages
      → Ensures (λ r. All P r.1.messages) (insert_message now fresh dto db)
  unfolding insert_message
  insert_message-All now fresh dto db h =
      let kept : All P (ensure_queue now dto.queue db).messages =
        rw (ensure_queue-messages now dto.queue db) h in
      elim (Option-cases (find_duplicate dto db.messages)) [
        | inl e ↦
            rw (e, insert_message)
              (bind-any-Ensures (due_time now dto.delay_seconds) λ at.
                bind-Ensures (insert_row-All _ _ (added now fresh at _ dto) kept)
                  λ db' h'. ok-Ensures h')
        | inr (dup, e) ↦ rw (e, insert_message) (ok-Ensures kept)
      ]

  pub forward_if_configured-All :
      (now : ℕ) (fresh : String) (dlq : Option String) (error : String) (attempts : ℕ)
      (row : Message) (db : Db)
      → All P db.messages
      → Ensures (λ r. All P r.messages) (forward_if_configured now fresh dlq error attempts row db)
  unfolding forward_if_configured forward
  forward_if_configured-All now fresh none error attempts row db h = ok-Ensures h
  forward_if_configured-All now fresh (some dlq) error attempts row db h =
      bind-Ensures (insert_message-All now fresh _ _ (All-delete_where P _ db.messages h)) λ r h'.
        ok-Ensures (
          All-update_where P (λ n. n.id =ₜ row.id) (forwarded_as r.0.id)
            (λ n _ k. linked r.0.id n k) r.1.messages h')
