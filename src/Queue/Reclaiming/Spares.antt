-- ===== src/Queue/Reclaiming/Spares.antt =====
-- What `reclaimOrphaned` leaves alone.
use nodestack.Prelude.{
  ℕ, suc, ◌≡◌, refl, String, Bool, true, false, List, [], ◌∷◌, Option, none, some, ◌&&◌, ◌=ₜ◌,
  arith, filter, All, All-filter, filter-All, All-zip, find_unique, find-key, is_some, Bool-cases,
  Option-cases, inl, inr, eq_iff, ok, Ensures, returns, throws, ok-Ensures, throw-Ensures,
  bind-Ensures, bind-any-Ensures, ok-injective,
}
use nodestack.Sql.{update_where}
use nodestack.Queue.Types.{is_queued, is_processing, Message, EnqueueMessage, Db}
use nodestack.Queue.Driver.Conditions.{find_message, held}
use nodestack.Queue.Driver.Insert.{
  ensure_queue, find_duplicate, due_time, insert_row, insert_message,
}
use nodestack.Queue.Driver.Lease.{update_messages}
use nodestack.Queue.Driver.Fail.{may_retry, forwarded_as, forward, forward_if_configured}
use nodestack.Queue.Driver.Reclaim.{
  Scope, is_orphaned, in_queue, returned, timed_out, reclaim_one, reclaim_each, reclaim_orphaned,
}
use nodestack.Queue.Lookup.{find-update_where, find-delete_where, find-append}
use nodestack.Queue.Lifecycle.Table.{IsConsistent}
use nodestack.Queue.Lifecycle.RowWise.{ensure_queue-messages}

module _ (id : String) (m : Message) (busy : is_queued m.status ≡ false) (own : m.id ≡ id) where
  -- The message is in the table, as it was.
  IsThere : Db → Type 0
  IsThere db = find_message id db.messages ≡ some m

  -- An UPDATE whose condition fails for it keeps it.
  update-IsThere :
      (p : Message → Bool) (f : Message → Message) (db : Db)
      → ((n : Message) → (f n).id ≡ n.id)
      → p m ≡ false
      → IsThere db
      → IsThere (record db { messages = update_where p f db.messages })
  unfolding IsThere
  update-IsThere p f db same out h =
      rw (find-update_where (λ n. n.id) p f same id db.messages, h) (rw out refl)

  insert_row-IsThere : (row : Message) (db : Db) → IsThere db → Ensures IsThere (insert_row row db)
  unfolding IsThere insert_row
  insert_row-IsThere row db h = elim (Bool-cases (is_some (find_message row.id db.messages))) [
    | inl e ↦ rw e throw-Ensures
    | inr e ↦ rw e (ok-Ensures (rw (find-append (λ n. n.id =ₜ id) db.messages row, h) refl))
  ]

  ensure_queue-IsThere :
      (now : ℕ) (name : String) (db : Db) → IsThere db → IsThere (ensure_queue now name db)
  unfolding IsThere
  ensure_queue-IsThere now name db h = rw (ensure_queue-messages now name db) h

  insert_message-IsThere :
      (now : ℕ) (fresh : String) (dto : EnqueueMessage) (db : Db)
      → IsThere db
      → Ensures (λ r. IsThere r.1) (insert_message now fresh dto db)
  unfolding insert_message IsThere
  insert_message-IsThere now fresh dto db h = elim (Option-cases (find_duplicate dto db.messages)) [
    | inl e ↦
        rw (e, insert_message)
          (bind-any-Ensures (due_time now dto.delay_seconds) λ at.
            bind-Ensures (insert_row-IsThere _ _ (ensure_queue-IsThere now dto.queue db h))
              λ db' h'. ok-Ensures h')
    | inr (dup, e) ↦ rw (e, insert_message) (ok-Ensures (ensure_queue-IsThere now dto.queue db h))
  ]

  forward-IsThere :
      (now : ℕ) (fresh dlq error : String) (attempts : ℕ) (row : Message) (db : Db)
      → (m.id =ₜ row.id) ≡ false
      → IsThere db
      → Ensures IsThere (forward now fresh dlq error attempts row db)
  unfolding forward IsThere
  forward-IsThere now fresh dlq error attempts row db other h =
      bind-Ensures
        (insert_message-IsThere now fresh _ _
          (find-delete_where (λ n. n.id =ₜ id) _ db.messages m h (ground (arith, busy))))
        λ r h'.
          ok-Ensures
            (update-IsThere (λ n. n.id =ₜ row.id) (forwarded_as r.0.id) r.1 (λ n. refl) other h')

  forward_if_configured-IsThere :
      (now : ℕ) (fresh : String) (dlq : Option String) (error : String) (attempts : ℕ)
      (row : Message) (db : Db)
      → (m.id =ₜ row.id) ≡ false
      → IsThere db
      → Ensures IsThere (forward_if_configured now fresh dlq error attempts row db)
  unfolding forward_if_configured
  forward_if_configured-IsThere now fresh none error attempts row db other h = ok-Ensures h
  forward_if_configured-IsThere now fresh (some dlq) error attempts row db other h =
      forward-IsThere now fresh dlq error attempts row db other h

  reclaim_one-IsThere :
      (now : ℕ) (fresh : String) (row : Message) (db : Db)
      → (m.id =ₜ row.id) ≡ false
      → IsThere db
      → Ensures (λ r. IsThere r.1) (reclaim_one now fresh row db)
  unfolding reclaim_one update_messages
  reclaim_one-IsThere now fresh row db other h =
      let out : held row.id none m ≡ false = ground (arith, other) in
      elim (Bool-cases (may_retry row)) [
        | inl e ↦
            rw e
              (ok-Ensures (update-IsThere (held row.id none) (returned now) db (λ n. refl) out h))
        | inr e ↦ rw e (
            bind-Ensures
              (forward_if_configured-IsThere now fresh _ _ _ row _ other
                (update-IsThere (held row.id none) (timed_out now) db (λ n. refl) out h))
              λ db' h'. ok-Ensures h')
      ]

  reclaim_each-IsThere :
      (now : ℕ) (ids : ℕ → String) (k : ℕ) (rows : List Message) (db : Db)
      → All (λ r. (m.id =ₜ r.id) ≡ false) rows
      → IsThere db
      → Ensures (λ r. IsThere r.2) (reclaim_each now ids k rows db)
  unfolding reclaim_each
  reclaim_each-IsThere now ids k [] db others h = ok-Ensures h
  reclaim_each-IsThere now ids k (r ∷ rs) db (other, others) h =
      bind-Ensures (reclaim_one-IsThere now (ids k) r db other h) λ s h1.
        bind-Ensures (reclaim_each-IsThere now ids (suc k) rs s.1 others h1) λ u h2. ok-Ensures h2

-- Reclaiming leaves alone every message in process that is not an orphan of the kind that is asked for,
-- such as one whose lease has not run out, and every message in process of another queue: after it the
-- row is what it was.
pub reclaim_spares :
    (now : ℕ) (ids : ℕ → String) (queue : Option String) (scope : Scope) (db db' : Db) (count : ℕ)
    (told : List String) (id : String) (m : Message)
    → IsConsistent db
    → find_message id db.messages ≡ some m
    → is_processing m.status ≡ true
    → (in_queue queue m && is_orphaned scope now m) ≡ false
    → reclaim_orphaned now ids queue scope db ≡ ok (count, told, db')
    → find_message id db'.messages ≡ some m
unfolding reclaim_orphaned IsThere
reclaim_spares now ids queue scope db db' count told id m c found busy spared e =
    let own = find-key (λ n. n.id) id db.messages m found in
    let orphans = filter (λ n. in_queue queue n && is_orphaned scope now n) db.messages in
    let only =
      All-filter _ (λ n. in_queue queue n && is_orphaned scope now n) db.messages
        (find_unique (λ n. n.id) id db.messages m found c.ids) in
    let others : All (λ r. (m.id =ₜ r.id) ≡ false) orphans =
      All-zip _ _ _ (λ r same k. apart r own same k) orphans only
        (filter-All (λ n. in_queue queue n && is_orphaned scope now n) db.messages) in
    result (reclaim_each-IsThere id m (ground (arith, busy)) own now ids 0 orphans db others found)
  where
    apart :
        (r : Message)
        → m.id ≡ id
        → (r.id ≡ id → r ≡ m)
        → (in_queue queue r && is_orphaned scope now r) ≡ true
        → (m.id =ₜ r.id) ≡ false
    apart r own same k = elim (Bool-cases (m.id =ₜ r.id)) [
      | inr d ↦ d
      | inl j ↦
          let here : m.id ≡ r.id = (eq_iff m.id r.id).0 j in
          let equal : r ≡ m = same (cc (here, own)) in absurd (cc (rw equal at k, spared))
    ]

    result :
        Ensures
          (λ r. find_message id r.2.messages ≡ some m)
          (reclaim_each now ids 0
            (filter (λ n. in_queue queue n && is_orphaned scope now n) db.messages)
            db)
        → find_message id db'.messages ≡ some m
    result (returns a q h) =
        (let same : a ≡ (count, told, db') = ok-injective (cc (q, e)) in rw same at h)
    result (throws x q) = absurd (cc (q, e))
