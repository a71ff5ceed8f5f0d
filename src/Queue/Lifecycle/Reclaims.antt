-- ===== src/Queue/Lifecycle/Reclaims.antt =====
-- `reclaimOrphaned` keeps the invariant.
use nodestack.Prelude.{
  ℕ, suc, ◌≡◌, refl, String, Bool, true, false, List, [], ◌∷◌, Option, none, some, ◌&&◌, ◌=ₜ◌,
  arith, All, All-map, All-filter, eq_iff, find_unique, find_self, &&-eq-true, Bool-cases, inl, inr,
  Ensures, ok-Ensures, bind-Ensures, both-Ensures, All-Ensures,
}
use nodestack.Sql.{update_where}
use nodestack.Queue.Types.{is_processing, Message, EnqueueMessage, Db}
use nodestack.Queue.Driver.Insert.{new_row}
use nodestack.Queue.Driver.Conditions.{find_message, held}
use nodestack.Queue.Driver.Lease.{update_messages}
use nodestack.Queue.Driver.Fail.{may_retry, forwarded_as}
use nodestack.Queue.Driver.Reclaim.{
  Scope, returned, timed_out, reclaim_one, reclaim_each, reclaim_orphaned,
}
use nodestack.Queue.Lifecycle.Row.{returned-IsValid, timed_out-IsValid}
use nodestack.Queue.Lifecycle.Table.{IsConsistent, KeepsRow, update_where-IsConsistent}
use nodestack.Queue.Lifecycle.RowWise.{update-All, update_where-same, forward_if_configured-All}
use nodestack.Queue.Lifecycle.Inserts.{forward_if_configured-IsConsistent}
use nodestack.Queue.Lifecycle.Holders.{held-processing}

-- The row of this id, while it is in process, may be tried again just if the selected row may.
IsSame : Message → Message → Type 0
IsSame row n = (n.id =ₜ row.id && is_processing n.status) ≡ true → may_retry n ≡ may_retry row

idle-IsSame : (row n : Message) → is_processing n.status ≡ false → IsSame row n
unfolding IsSame
idle-IsSame row n idle h = absurd (ground (arith, h, idle))

added-IsSame :
    (row : Message) (now : ℕ) (fresh : String) (at most : ℕ) (dto : EnqueueMessage)
    → IsSame row (new_row now fresh at most dto)
unfolding new_row
added-IsSame row now fresh at most dto = idle-IsSame row (new_row now fresh at most dto) refl

forwarded_as-IsSame :
    (row : Message) (copy : String) (n : Message) → IsSame row n → IsSame row (forwarded_as copy n)
unfolding IsSame
forwarded_as-IsSame row copy n h = h

-- A round for one row keeps this for another.
reclaim_one-IsSame :
    (now : ℕ) (fresh : String) (row other : Message) (db : Db)
    → All (IsSame other) db.messages
    → Ensures (λ r. All (IsSame other) r.1.messages) (reclaim_one now fresh row db)
unfolding reclaim_one update_messages
reclaim_one-IsSame now fresh row other db h = elim (Bool-cases (may_retry row)) [
  | inl e ↦ rw e (
      ok-Ensures (
        update-All (IsSame other) (IsSame other) (held row.id none) (returned now)
          (λ n _ _. idle-IsSame other (returned now n) refl) (λ n _ k. k) db.messages h))
  | inr e ↦ rw e (
      bind-Ensures
        (forward_if_configured-All (IsSame other) (added-IsSame other) (forwarded_as-IsSame other)
          now fresh _ _ _ row _
          (update-All (IsSame other) (IsSame other) (held row.id none) (timed_out now)
            (λ n _ _. idle-IsSame other (timed_out now n) refl) (λ n _ k. k) db.messages h))
        λ db' h'. ok-Ensures h')
]

returned-KeepsRow :
    (id : String) (now : ℕ) → KeepsRow (λ m. held id none m && may_retry m) (returned now)
returned-KeepsRow id now = record {
  valid = λ m h v.
      (let (held_m, left) = &&-eq-true (held id none m) (may_retry m) h in
        returned-IsValid m v now (held-processing id none m held_m) left);
  same_id = λ m. refl;
  same_queue = λ m. refl;
}

timed_out-KeepsRow : (p : Message → Bool) (now : ℕ) → KeepsRow p (timed_out now)
timed_out-KeepsRow p now = record {
  valid = λ m _ v. timed_out-IsValid m v now;
  same_id = λ m. refl;
  same_queue = λ m. refl;
}

reclaim_one-IsConsistent :
    (now : ℕ) (fresh : String) (row : Message) (db : Db)
    → IsConsistent db
    → All (IsSame row) db.messages
    → Ensures (λ r. IsConsistent r.1) (reclaim_one now fresh row db)
unfolding reclaim_one update_messages IsSame
reclaim_one-IsConsistent now fresh row db c same = elim (Bool-cases (may_retry row)) [
  | inl e ↦ rw e (ok-Ensures (back e))
  | inr e ↦ rw e (
      bind-Ensures
        (forward_if_configured-IsConsistent now fresh _ _ _ row _
          (update_where-IsConsistent (timed_out-KeepsRow (held row.id none) now) db c))
        λ db' c'. ok-Ensures c')
]
  where
    agree :
        may_retry row ≡ true
        → All (λ n. held row.id none n ≡ (held row.id none n && may_retry n)) db.messages
    agree e = All-map _ _ (λ n h. at_row n h) db.messages same
      where
        at_row :
            (n : Message)
            → ((n.id =ₜ row.id && is_processing n.status) ≡ true → may_retry n ≡ may_retry row)
            → held row.id none n ≡ (held row.id none n && may_retry n)
        at_row n h = elim (Bool-cases (n.id =ₜ row.id && is_processing n.status)) [
          | inl k ↦ (let left : may_retry n ≡ true = rw e at h k in ground (arith, left))
          | inr k ↦ ground (arith, k)
        ]

    back :
        may_retry row ≡ true
        → IsConsistent
            (record db { messages = update_where (held row.id none) (returned now) db.messages })
    back e =
        rw
          (update_where-same (held row.id none) (λ n. held row.id none n && may_retry n)
            (returned now) db.messages (agree e))
          (update_where-IsConsistent (returned-KeepsRow row.id now) db c)

reclaim_each-IsConsistent :
    (now : ℕ) (ids : ℕ → String) (k : ℕ) (rows : List Message) (db : Db)
    → IsConsistent db
    → All (λ r. All (IsSame r) db.messages) rows
    → Ensures (λ r. IsConsistent r.2) (reclaim_each now ids k rows db)
unfolding reclaim_each
reclaim_each-IsConsistent now ids k [] db c same = ok-Ensures c
reclaim_each-IsConsistent now ids k (r ∷ rs) db c (this, others) =
    bind-Ensures
      (both-Ensures (reclaim_one now (ids k) r db)
        (reclaim_one-IsConsistent now (ids k) r db c this)
        (All-Ensures (λ o s. All (IsSame o) s.1.messages) (reclaim_one now (ids k) r db) rs
          (All-map _ _ (λ o h. reclaim_one-IsSame now (ids k) r o db h) rs others)))
      λ s (c1, same1).
        bind-Ensures (reclaim_each-IsConsistent now ids (suc k) rs s.1 c1 same1)
          λ u c2. ok-Ensures c2

-- Every row is the only one with its id.
rows-IsSame : (db : Db) → IsConsistent db → All (λ r. All (IsSame r) db.messages) db.messages
unfolding IsSame
rows-IsSame db c =
    All-map _ _ (λ r found. at_row r found) db.messages (find_self (λ n. n.id) db.messages c.ids)
  where
    at_row : (r : Message) → find_message r.id db.messages ≡ some r → All (IsSame r) db.messages
    at_row r found =
        All-map _ _ (λ n only. alike n only) db.messages
          (find_unique (λ n. n.id) r.id db.messages r found c.ids)
      where
        alike :
            (n : Message)
            → (n.id ≡ r.id → n ≡ r)
            → (n.id =ₜ r.id && is_processing n.status) ≡ true
            → may_retry n ≡ may_retry r
        alike n only h =
            let (k, _) = &&-eq-true (n.id =ₜ r.id) (is_processing n.status) h in
            let same : n ≡ r = only ((eq_iff n.id r.id).0 k) in rw same

pub reclaim_orphaned-IsConsistent :
    (now : ℕ) (ids : ℕ → String) (queue : Option String) (scope : Scope) (db : Db)
    → IsConsistent db
    → Ensures (λ r. IsConsistent r.2) (reclaim_orphaned now ids queue scope db)
unfolding reclaim_orphaned
reclaim_orphaned-IsConsistent now ids queue scope db c =
    reclaim_each-IsConsistent now ids 0 _ db c (All-filter _ _ db.messages (rows-IsSame db c))
