-- ===== src/Queue/Lookup.antt =====
-- The row that a statement leaves behind an id.
use nodestack.Prelude.{
  false, none, some, ◌++◌, if◌then◌else◌, ◌≡◌, refl, String, Bool, true, List, [], ◌∷◌, some, ◌=ₜ◌,
  arith, ltb, find, Bool-cases, inl, inr, if◌then◌else◌,
}
use mathlib.Core.Option
use nodestack.Sql.{update_where, delete_where, changes}
use nodestack.Queue.Types.{Message, Db}
use nodestack.Queue.Driver.Conditions.{find_message}
use nodestack.Queue.Driver.Lease.{update_messages}

-- An UPDATE that keeps the keys changes the row of a key where its condition holds.
pub find-update_where {ℓ} :
    {A : Type ℓ} (key : A → String) (p : A → Bool) (f : A → A)
    → ((x : A) → key (f x) ≡ key x)
    → (k : String) (xs : List A)
    → find (λ x. key x =ₜ k) (update_where p f xs)
      ≡ Option.map (λ x. if p x then f x else x) (find (λ x. key x =ₜ k) xs)
unfolding update_where
find-update_where key p f same k [] = refl
find-update_where key p f same k (x ∷ xs) = elim (Bool-cases (p x)) [
  | inl e ↦ elim (Bool-cases (key x =ₜ k)) [
    | inl h ↦ rw (e, same x, h) (rw e)
    | inr h ↦ rw (e, same x, h) (find-update_where key p f same k xs)
  ]
  | inr e ↦ elim (Bool-cases (key x =ₜ k)) [
    | inl h ↦ rw (e, h) (rw e)
    | inr h ↦ rw (e, h) (find-update_where key p f same k xs)
  ]
]

-- Where the row of a search meets the condition, the UPDATE changes a row.
pub changes-pos {ℓ} :
    {A : Type ℓ} (q p : A → Bool) (xs : List A) (x : A)
    → find q xs ≡ some x
    → p x ≡ true
    → ltb 0 (changes p xs) ≡ true
unfolding changes
changes-pos q p [] x e h = cc
changes-pos q p (y ∷ ys) x e h = elim (Bool-cases (q y)) [
  | inl k ↦ (let same : y ≡ x = cc (rw k at e) in rw (same, h) (ground arith))
  | inr k ↦ elim (Bool-cases (p y)) [
    | inl j ↦ rw j (ground arith)
    | inr j ↦ rw j (changes-pos q p ys x (rw k at e) h)
  ]
]

-- Both for the row of an id: what `update_messages` answers, and the row that is there then.
pub update_messages-row :
    (p : Message → Bool) (f : Message → Message) (id : String) (m : Message) (db : Db)
    → ((n : Message) → (f n).id ≡ n.id)
    → find_message id db.messages ≡ some m
    → p m ≡ true
    → ((update_messages p f db).0 ≡ true)
      × (find_message id (update_messages p f db).1.messages ≡ some (f m))
unfolding update_messages
update_messages-row p f id m db same found h = (
  changes-pos (λ n. n.id =ₜ id) p db.messages m found h,
  rw (find-update_where (λ n. n.id) p f same id db.messages, found) (rw h),
)

-- A row that meets a wider condition and the condition itself is found by both.
pub find-narrow {ℓ} :
    {A : Type ℓ} (q p : A → Bool) (xs : List A) (x : A)
    → ((y : A) → p y ≡ true → q y ≡ true)
    → find q xs ≡ some x
    → p x ≡ true
    → find p xs ≡ some x
find-narrow q p [] x sub e h = cc
find-narrow q p (y ∷ ys) x sub e h = elim (Bool-cases (q y)) [
  | inl k ↦ (let same : y ≡ x = cc (rw k at e) in rw (same, h))
  | inr k ↦ elim (Bool-cases (p y)) [
    | inl j ↦ cc (sub y j)
    | inr j ↦ rw j (find-narrow q p ys x sub (rw k at e) h)
  ]
]

-- A row that a DELETE spares is still found.
pub find-delete_where {ℓ} :
    {A : Type ℓ} (q p : A → Bool) (xs : List A) (x : A)
    → find q xs ≡ some x
    → p x ≡ false
    → find q (delete_where p xs) ≡ some x
unfolding delete_where
find-delete_where q p [] x e h = cc
find-delete_where q p (y ∷ ys) x e h = elim (Bool-cases (q y)) [
  | inl k ↦ (let same : y ≡ x = cc (rw k at e) in rw (same, h) (rw (rw same at k)))
  | inr k ↦ elim (Bool-cases (p y)) [
    | inl j ↦ rw j (find-delete_where q p ys x (rw k at e) h)
    | inr j ↦ rw (j, k) (find-delete_where q p ys x (rw k at e) h)
  ]
]

-- What is not in a table is not in what a DELETE leaves.
pub find-delete_where-none {ℓ} :
    {A : Type ℓ} (q p : A → Bool) (xs : List A)
    → find q xs ≡ none
    → find q (delete_where p xs) ≡ none
unfolding delete_where
find-delete_where-none q p [] e = refl
find-delete_where-none q p (y ∷ ys) e = elim (Bool-cases (q y)) [
  | inl k ↦ cc (rw k at e)
  | inr k ↦ elim (Bool-cases (p y)) [
    | inl j ↦ rw j (find-delete_where-none q p ys (rw k at e))
    | inr j ↦ rw (j, k) (find-delete_where-none q p ys (rw k at e))
  ]
]

-- A search in a table with a row more at the end.
pub find-append {ℓ} :
    {A : Type ℓ} (q : A → Bool) (xs : List A) (y : A)
    → find q (xs ++ y ∷ [])
      ≡ elim (find q xs) [ some x ↦ some x | none ↦ if q y then some y else none ]
find-append q [] y = refl
find-append q (x ∷ xs) y = elim (Bool-cases (q x)) [
  | inl k ↦ rw k
  | inr k ↦ rw k (find-append q xs y)
]

-- An UPDATE adds no id.
pub update_messages-none :
    (p : Message → Bool) (f : Message → Message) (id : String) (db : Db)
    → ((n : Message) → (f n).id ≡ n.id)
    → find_message id db.messages ≡ none
    → find_message id (update_messages p f db).1.messages ≡ none
unfolding update_messages
update_messages-none p f id db same absent =
    rw (find-update_where (λ n. n.id) p f same id db.messages, absent)
