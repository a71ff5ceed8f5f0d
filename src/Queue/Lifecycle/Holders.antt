-- ===== src/Queue/Lifecycle/Holders.antt =====
-- What holders and operators do to a message keeps the invariant: `touch`, `complete`, `defer`,
-- `fail`, `forceDeadLetter`.
use nodestack.Prelude.{
  ℕ, ◌+◌, ◌≡◌, refl, String, Bool, true, Option, none, some, ◌=ₜ◌, arith, Bool-cases, Option-cases,
  inl, inr, find, All, All-map, &&-eq-true, ◌&&◌, eq_iff, find_unique, find_self, Ensures,
  ok-Ensures, bind-Ensures, bind-any-Ensures,
}
use nodestack.Prelude.Int.{ℤ}
use nodestack.Json.{Json}
use nodestack.Time.{to_iso}
use nodestack.Queue.Types.{dead_letter, is_processing, Message, Db}
use nodestack.Queue.Driver.Conditions.{find_message, held}
use nodestack.Queue.Driver.Lease.{update_messages, touch, complete, finished, deferred, defer}
use nodestack.Queue.Driver.Fail.{
  may_retry, requeued, retry_later, bury, fail, is_closed, force_dead_letter,
}
use nodestack.Queue.Lifecycle.Row.{
  touched-IsValid, completed_with-IsValid, buried-IsValid, deferred-IsValid, requeued-IsValid,
}
use nodestack.Queue.Lifecycle.Table.{IsConsistent, KeepsRow, update_where-IsConsistent}
use nodestack.Sql.{update_where}
use nodestack.Queue.Lifecycle.RowWise.{update_where-same, find-All}
use nodestack.Queue.Lifecycle.Inserts.{forward_if_configured-IsConsistent}

pub held-processing :
    (id : String) (token : Option String) (m : Message)
    → held id token m ≡ true
    → is_processing m.status ≡ true
held-processing id token m h = ground arith

pub update_messages-IsConsistent :
    {p : Message → Bool} {f : Message → Message}
    → KeepsRow p f
    → (db : Db) → IsConsistent db
    → IsConsistent (update_messages p f db).1
unfolding update_messages
update_messages-IsConsistent k db c = update_where-IsConsistent k db c

pub touch-IsConsistent :
    (now : ℕ) (id : String) (extension : ℕ) (token : Option String) (db : Db)
    → IsConsistent db
    → Ensures (λ r. IsConsistent r.1) (touch now id extension token db)
unfolding touch
touch-IsConsistent now id extension token db c = bind-any-Ensures (to_iso _) λ expires. ok-Ensures (
    update_messages-IsConsistent
      (record {
        valid = λ m h v. touched-IsValid m v now expires (held-processing id token m h);
        same_id = λ m. refl;
        same_queue = λ m. refl;
      })
      db c)

pub complete-IsConsistent :
    (now : ℕ) (id : String) (result : Option Json) (token : Option String) (db : Db)
    → IsConsistent db
    → IsConsistent (complete now id result token db).1
unfolding complete
complete-IsConsistent now id result token db c =
    update_messages-IsConsistent
      (record {
        valid = λ m h v. completed_with-IsValid m v now result;
        same_id = λ m. refl;
        same_queue = λ m. refl;
      })
      db c

pub deferred-KeepsRow :
    (id : String) (now at : ℕ) (reason : Option String)
    → KeepsRow (held id none) (deferred now at reason)
deferred-KeepsRow id now at reason = record {
  valid = λ m h v. deferred-IsValid m v now at reason (held-processing id none m h);
  same_id = λ m. refl;
  same_queue = λ m. refl;
}

pub defer-IsConsistent :
    (now : ℕ) (id : String) (delay : ℤ) (reason : Option String) (db : Db)
    → IsConsistent db
    → Ensures (λ r. IsConsistent r.1) (defer now id delay reason db)
unfolding defer
defer-IsConsistent now id delay reason db c =
    bind-any-Ensures (to_iso _)
      λ at. ok-Ensures (update_messages-IsConsistent (deferred-KeepsRow id now at reason) db c)

buried-KeepsRow :
    (p : Message → Bool) (now : ℕ) (error : String)
    → KeepsRow p (finished dead_letter now (some error))
buried-KeepsRow p now error = record {
  valid = λ m _ v. buried-IsValid m v now error;
  same_id = λ m. refl;
  same_queue = λ m. refl;
}

requeued-KeepsRow :
    (id : String) (token : Option String) (now at : ℕ) (error : String)
    → KeepsRow (λ m. held id token m && may_retry m) (requeued now at error)
requeued-KeepsRow id token now at error = record {
  valid = λ m h v.
      (let (held_m, left) = &&-eq-true (held id token m) (may_retry m) h in
        requeued-IsValid m v now at error (held-processing id token m held_m) left);
  same_id = λ m. refl;
  same_queue = λ m. refl;
}

-- The message may be tried again wherever the condition for it holds.
IsRetriable : Message → Option String → Db → Type 0
IsRetriable row token db =
    All (λ m. held row.id token m ≡ (held row.id token m && may_retry m)) db.messages

-- The row that a search with the condition finds is the only one with its id.
found-IsRetriable :
    (id : String) (token : Option String) (row : Message) (db : Db)
    → IsConsistent db
    → find (held id token) db.messages ≡ some row
    → may_retry row ≡ true
    → IsRetriable row token db
unfolding IsRetriable
found-IsRetriable id token row db c e left =
    All-map _ _ (λ m only. at_row m only) db.messages
      (find_unique (λ n. n.id) row.id db.messages row
        (find-All (λ n. find_message n.id db.messages ≡ some n) (held id token) db.messages
          (find_self (λ n. n.id) db.messages c.ids) e)
        c.ids)
  where
    at_row :
        (m : Message)
        → (m.id ≡ row.id → m ≡ row)
        → held row.id token m ≡ (held row.id token m && may_retry m)
    at_row m only = elim (Bool-cases (m.id =ₜ row.id)) [
      | inr d ↦ ground (arith, d)
      | inl k ↦
          let same : m ≡ row = only ((eq_iff m.id row.id).0 k) in
          let left_m : may_retry m ≡ true = rw same left in ground (arith, left_m)
    ]

retry_later-IsConsistent :
    (now : ℕ) (error : String) (delay : ℕ) (token : Option String) (row : Message) (db : Db)
    → IsConsistent db
    → IsRetriable row token db
    → Ensures (λ r. IsConsistent r.1) (retry_later now error delay token row db)
unfolding retry_later IsRetriable update_messages
retry_later-IsConsistent now error delay token row db c left =
    bind-any-Ensures (to_iso (now + delay)) λ at.
      elim (Bool-cases (update_messages (held row.id token) (requeued now at error) db).0) [
        | inl e ↦ rw e (ok-Ensures (after at))
        | inr e ↦ rw e (ok-Ensures c)
      ]
  where
    after :
        (at : ℕ)
        → IsConsistent (record db {
          messages = update_where (held row.id token) (requeued now at error) db.messages;
        })
    after at =
        rw
          (update_where-same (held row.id token) (λ m. held row.id token m && may_retry m)
            (requeued now at error) db.messages left)
          (update_where-IsConsistent (requeued-KeepsRow row.id token now at error) db c)

bury-IsConsistent :
    (now : ℕ) (fresh error : String) (token : Option String) (row : Message) (db : Db)
    → IsConsistent db
    → Ensures (λ r. IsConsistent r.1) (bury now fresh error token row db)
unfolding bury
bury-IsConsistent now fresh error token row db c =
    elim (Bool-cases
      (update_messages (held row.id token) (finished dead_letter now (some error)) db).0) [
        | inl e ↦
            rw (e, bury)
              (bind-Ensures
                (forward_if_configured-IsConsistent now fresh _ error _ row _ (
                  update_messages-IsConsistent (buried-KeepsRow (held row.id token) now error) db
                    c))
                λ db' c'. ok-Ensures c')
        | inr e ↦ rw (e, bury) (ok-Ensures c)
      ]

pub fail-IsConsistent :
    (now : ℕ) (fresh id error : String) (delay : Option ℤ) (token : Option String) (db : Db)
    → IsConsistent db
    → Ensures (λ r. IsConsistent r.1) (fail now fresh id error delay token db)
unfolding fail
fail-IsConsistent now fresh id error delay token db c =
    elim (Option-cases (find (held id token) db.messages)) [
      | inl e ↦ rw (e, fail) (ok-Ensures c)
      | inr (row, e) ↦ elim (Bool-cases (may_retry row)) [
        | inl r ↦
            rw (e, fail, r)
              (retry_later-IsConsistent now error _ token row db c
                (found-IsRetriable id token row db c e r))
        | inr r ↦ rw (e, fail, r) (bury-IsConsistent now fresh error token row db c)
      ]
    ]

pub force_dead_letter-IsConsistent :
    (now : ℕ) (fresh id reason : String) (db : Db)
    → IsConsistent db
    → Ensures (λ r. IsConsistent r.1) (force_dead_letter now fresh id reason db)
unfolding force_dead_letter
force_dead_letter-IsConsistent now fresh id reason db c =
    elim (Option-cases (find_message id db.messages)) [
      | inl e ↦ rw (e, force_dead_letter) (ok-Ensures c)
      | inr (row, e) ↦ elim (Bool-cases (is_closed row.status)) [
        | inl r ↦ rw (e, force_dead_letter, r) (ok-Ensures c)
        | inr r ↦ elim (Bool-cases (update_messages (λ m. m.id =ₜ id) (buried) db).0) [
          | inl u ↦
              rw (e, force_dead_letter, r, u)
                (bind-Ensures
                  (forward_if_configured-IsConsistent now fresh _ reason row.attempts row _
                    (update_messages-IsConsistent (buried-KeepsRow _ now reason) db c))
                  λ db' c'. ok-Ensures c')
          | inr u ↦ rw (e, force_dead_letter, r, u) (ok-Ensures c)
        ]
      ]
    ]
  where
    buried : Message → Message
    buried = finished dead_letter now (some reason)
