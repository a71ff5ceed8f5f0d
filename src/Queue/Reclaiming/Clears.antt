-- ===== src/Queue/Reclaiming/Clears.antt =====
-- What `reclaimOrphaned` leaves behind when it is to take all messages in process.
use nodestack.Prelude.{
  ℕ, suc, ◌≡◌, refl, sym, String, Bool, true, false, List, [], ◌∷◌, Option, none, some, ◌&&◌, ◌=ₜ◌,
  arith, any, filter, All, All-map, Bool-cases, inl, inr, eq_iff, eq_refl, ok, Ensures, returns,
  throws, ok-Ensures, bind-Ensures, ok-injective,
}
use nodestack.Queue.Types.{is_processing, Message, EnqueueMessage, Db}
use nodestack.Queue.Driver.Insert.{new_row}
use nodestack.Queue.Driver.Conditions.{held}
use nodestack.Queue.Driver.Lease.{update_messages}
use nodestack.Queue.Driver.Fail.{may_retry, forwarded_as}
use nodestack.Queue.Driver.Reclaim.{
  Scope, is_orphaned, in_queue, returned, timed_out, reclaim_one, reclaim_each, reclaim_orphaned,
}
use nodestack.Queue.Lifecycle.RowWise.{update-All, forward_if_configured-All}

-- A message of the queue that is in process has its id among the rows.
IsLeft : Option String → List Message → Message → Type 0
IsLeft queue rows n =
    (in_queue queue n && is_processing n.status) ≡ true → any (λ r. r.id =ₜ n.id) rows ≡ true

-- A link to a copy changes nothing of that.
forwarded_as-IsLeft :
    (queue : Option String) (rows : List Message) (copy : String) (n : Message)
    → IsLeft queue rows n
    → IsLeft queue rows (forwarded_as copy n)
unfolding IsLeft
forwarded_as-IsLeft none rows copy n h = h
forwarded_as-IsLeft (some q) rows copy n h = h

-- All messages are such.
AllLeft : Option String → List Message → Db → Type 0
AllLeft queue rows db = All (IsLeft queue rows) db.messages

-- A message that is not in process is left over by nobody.
idle-IsLeft :
    (queue : Option String) (rows : List Message) (n : Message)
    → is_processing n.status ≡ false
    → IsLeft queue rows n
unfolding IsLeft
idle-IsLeft queue rows n idle h = absurd (ground (arith, h, idle))

added-IsLeft :
    (queue : Option String) (rows : List Message) (now : ℕ) (fresh : String) (at most : ℕ)
    (dto : EnqueueMessage)
    → IsLeft queue rows (new_row now fresh at most dto)
unfolding new_row
added-IsLeft queue rows now fresh at most dto =
    idle-IsLeft queue rows (new_row now fresh at most dto) refl

-- What the statement for a row does not change is in the rest of the rows.
kept-IsLeft :
    (queue : Option String) (row : Message) (rows : List Message) (n : Message)
    → held row.id none n ≡ false
    → IsLeft queue (row ∷ rows) n
    → IsLeft queue rows n
unfolding IsLeft
kept-IsLeft queue row rows n out left h =
    let listed = left h in
    elim (Bool-cases (row.id =ₜ n.id)) [
      | inr d ↦ ground (arith, listed, d)
      | inl e ↦
          let same : n.id ≡ row.id = sym ((eq_iff row.id n.id).0 e) in
          let equal : (n.id =ₜ row.id) ≡ true = (eq_iff n.id row.id).1 same in
          absurd (ground (arith, out, h, equal))
    ]

-- The row that is dealt with is in process no more.
reclaim_one-AllLeft :
    (queue : Option String) (now : ℕ) (fresh : String) (row : Message) (rows : List Message)
    (db : Db)
    → AllLeft queue (row ∷ rows) db
    → Ensures (λ r. AllLeft queue rows r.1) (reclaim_one now fresh row db)
unfolding reclaim_one update_messages AllLeft
reclaim_one-AllLeft queue now fresh row rows db h = elim (Bool-cases (may_retry row)) [
  | inl e ↦ rw e (
      ok-Ensures (
        update-All (IsLeft queue (row ∷ rows)) (IsLeft queue rows) (held row.id none) (returned now)
          (λ n _ _. idle-IsLeft queue rows (returned now n) refl) (kept-IsLeft queue row rows)
          db.messages h))
  | inr e ↦ rw e (
      bind-Ensures
        (forward_if_configured-All (IsLeft queue rows) (added-IsLeft queue rows)
          (forwarded_as-IsLeft queue rows) now fresh _ _ _ row _
          (update-All (IsLeft queue (row ∷ rows)) (IsLeft queue rows) (held row.id none)
            (timed_out now) (λ n _ _. idle-IsLeft queue rows (timed_out now n) refl)
            (kept-IsLeft queue row rows) db.messages h))
        λ db' h'. ok-Ensures h')
]

reclaim_each-AllLeft :
    (queue : Option String) (now : ℕ) (ids : ℕ → String) (k : ℕ) (rows : List Message) (db : Db)
    → AllLeft queue rows db
    → Ensures (λ r. AllLeft queue [] r.2) (reclaim_each now ids k rows db)
unfolding reclaim_each
reclaim_each-AllLeft queue now ids k [] db h = ok-Ensures h
reclaim_each-AllLeft queue now ids k (r ∷ rs) db h =
    bind-Ensures (reclaim_one-AllLeft queue now (ids k) r rs db h) λ s h1.
      bind-Ensures (reclaim_each-AllLeft queue now ids (suc k) rs s.1 h1) λ u h2. ok-Ensures h2

-- The id is among those of the rows.
abbrev is_among : List Message → String → Bool
is_among rows id = any (λ r. r.id =ₜ id) rows

filter_self :
    (p : Message → Bool) (x : Message) (xs : List Message)
    → p x ≡ true
    → is_among (filter p (x ∷ xs)) x.id ≡ true
filter_self p x xs h = rw h (ground (arith, eq_refl x.id))

filter-more :
    (p : Message → Bool) (x : Message) (xs : List Message) (id : String)
    → is_among (filter p xs) id ≡ true
    → is_among (filter p (x ∷ xs)) id ≡ true
filter-more p x xs id h = elim (Bool-cases (p x)) [
  | inl e ↦ rw e (ground (arith, h))
  | inr e ↦ rw e h
]

-- Every message that passes a test is among those that a filter keeps.
filter_among :
    (p : Message → Bool) (xs kept : List Message)
    → ((id : String) → is_among (filter p xs) id ≡ true → is_among kept id ≡ true)
    → All (λ n. p n ≡ true → is_among kept n.id ≡ true) xs
filter_among p [] kept sub = tt
filter_among p (x ∷ xs) kept sub = (
  λ h. sub x.id (filter_self p x xs h),
  filter_among p xs kept (λ id h. sub id (filter-more p x xs id h)),
)

-- After a reclaim of all messages in process, of a queue or of all queues, none of them is in process:
-- each has been queued again or has become a dead letter.
pub reclaim_clears :
    (now : ℕ) (ids : ℕ → String) (queue : Option String) (db db' : Db) (count : ℕ)
    (told : List String)
    → reclaim_orphaned now ids queue Scope.force_all db ≡ ok (count, told, db')
    → All (λ n. (in_queue queue n && is_processing n.status) ≡ false) db'.messages
unfolding reclaim_orphaned is_orphaned AllLeft IsLeft
reclaim_clears now ids queue db db' count told e = result (
    reclaim_each-AllLeft queue now ids 0
      (filter (λ n. in_queue queue n && is_processing n.status) db.messages) db
      (filter_among (λ n. in_queue queue n && is_processing n.status) db.messages
        (filter (λ n. in_queue queue n && is_processing n.status) db.messages) (λ id h. h)))
  where
    none_left :
        (n : Message)
        → ((in_queue queue n && is_processing n.status) ≡ true → false ≡ true)
        → (in_queue queue n && is_processing n.status) ≡ false
    none_left n h = elim (Bool-cases (in_queue queue n && is_processing n.status)) [
      | inl k ↦ absurd (cc (h k))
      | inr k ↦ k
    ]

    result :
        Ensures
          (λ r. AllLeft queue [] r.2)
          (reclaim_each now ids 0
            (filter (λ n. in_queue queue n && is_processing n.status) db.messages)
            db)
        → All (λ n. (in_queue queue n && is_processing n.status) ≡ false) db'.messages
    result (throws x q) = absurd (cc (q, e))
    result (returns a q h) =
        let same : a ≡ (count, told, db') = ok-injective (cc (q, e)) in
        All-map _ _ none_left db'.messages (rw same at h)
