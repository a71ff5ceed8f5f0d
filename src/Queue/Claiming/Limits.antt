-- ===== src/Queue/Claiming/Limits.antt =====
-- A claim keeps to its limit and to the concurrency of the queue.
use nodestack.Prelude.{
  ◌⊎◌, ℕ, suc, ◌+◌, ◌*◌, ◌≤◌, ◌≡◌, min, max, if◌then◌else◌, Option-cases, String, List, [], ◌∷◌,
  Option, none, some, ◌==◌, arith, length, length-take-le, eq_iff, Bool-cases, inl, inr, ok,
  bind-ok,
}
use nodestack.Prelude.Int.{ℤ, at_least}
use nodestack.Time.{to_iso}
use nodestack.Sql.{update_where}
use nodestack.Sql.Counts.{changes-update_where, changes-le-one}
use nodestack.Queue.Types.{Queue, Message, Db}
use nodestack.Queue.Driver.Conditions.{find_queue, find_message}
use nodestack.Queue.Driver.Claim.{
  Lease, is_active, active_count, effective_limit, candidates, strict_candidates,
  priority_candidates, claimed, still_queued, prepend_row, claim_each, timeout_seconds, claim,
}
use nodestack.Queue.Lifecycle.Table.{IsConsistent, update_where-IsConsistent}
use nodestack.Queue.Lifecycle.Claims.{claimed-KeepsRow}

length-prepend_row :
    (o : Option Message) (ms : List Message) → length (prepend_row o ms) ≤ length ms + 1
length-prepend_row none ms = omega arith
length-prepend_row (some m) ms = omega arith

module _ (now : ℕ) (worker : String) (expires : ℕ) (tokens : ℕ → String) where
  length-claim_each :
      (k : ℕ) (cs ms : List Message)
      → length (claim_each now worker expires tokens k cs ms).0 ≤ length cs
  unfolding claim_each
  length-claim_each k [] ms = omega arith
  length-claim_each k (c ∷ cs) ms = ground (
    arith,
    length-claim_each (suc k) cs ms',
    length-prepend_row (find_message c.id ms')
        (claim_each now worker expires tokens (suc k) cs ms').0,
  )
    where
      ms' : List Message
      ms' =
          update_where (still_queued c.id)
            (claimed now (record { claimed_by = worker; expires_at = expires; token = tokens k }))
            ms

  -- Each candidate makes at most one more message active.
  active-claim_each :
      (queue : String) (k : ℕ) (cs : List Message) (db : Db)
      → IsConsistent db
      → active_count queue now (claim_each now worker expires tokens k cs db.messages).1
        ≤ active_count queue now db.messages + length cs
  unfolding claim_each active_count
  active-claim_each queue k [] db c = omega arith
  active-claim_each queue k (x ∷ cs) db c = omega (
    arith,
    active-claim_each queue (suc k) cs db'
        (update_where-IsConsistent (claimed-KeepsRow x.id now lease) db c),
    changes-update_where (is_active queue now) (still_queued x.id) (claimed now lease) db.messages,
    changes-le-one (λ m. m.id) x.id (still_queued x.id) (λ m h. ground (arith, eq_iff m.id x.id))
        db.messages c.ids,
  )
    where
      lease : Lease
      lease = record { claimed_by = worker; expires_at = expires; token = tokens k }

      db' : Db
      db' = record db {
        messages = update_where (still_queued x.id) (claimed now lease) db.messages;
      }

length-candidates :
    (queue : String) (now limit : ℕ) (db : Db) → length (candidates queue now limit db) ≤ limit
unfolding candidates
length-candidates queue now limit db = ground (
  arith,
  length-take-le limit (strict_candidates queue now db.messages),
  length-take-le limit (priority_candidates queue now db.messages),
)

-- The most messages that may be active after a claim of `limit`, where `active` were so before: the
-- queue's concurrency is a limit unless it is 0, and does not end what is active already.
abbrev pub most_active : Option Queue → ℕ → ℕ → ℕ
most_active none limit active = active + limit
most_active (some q) limit active =
    if q.concurrency == 0 then active + limit else min (active + limit) (max q.concurrency active)

effective_limit_bounds :
    (limit : ℕ) (queue : String) (now : ℕ) (db : Db)
    → effective_limit limit queue now db + active_count queue now db.messages
      ≤ most_active (find_queue queue db.queues) limit (active_count queue now db.messages)
unfolding effective_limit
effective_limit_bounds limit queue now db = elim (Option-cases (find_queue queue db.queues)) [
  | inl e ↦ rw (e, effective_limit) (omega arith)
  | inr (q, e) ↦ rw (e, effective_limit) (ground arith)
]

-- Where nothing is claimed, what is active is still no more than may be.
active-most_active : (q : Option Queue) (limit active : ℕ) → active ≤ most_active q limit active
active-most_active none limit active = omega arith
active-most_active (some q) limit active = ground arith

effective_limit-le :
    (limit : ℕ) (queue : String) (now : ℕ) (db : Db) → effective_limit limit queue now db ≤ limit
unfolding effective_limit
effective_limit-le limit queue now db = ground arith

ok-injective {ℓ} : {A : Type ℓ} {a b : A} → ok a ≡ ok b → a ≡ b
ok-injective e = cc

-- The candidates that there is room for.
abbrev pub chosen : ℤ → String → ℕ → Db → List Message
chosen limit queue now db =
    candidates queue now (effective_limit (at_least 1 limit) queue now db) db

-- What a claim that does not throw gives.
module _ (now : ℕ) (tokens : ℕ → String) (queue worker : String) (visibility limit : ℤ)
    (db db' : Db) (taken : List Message)
    (e : claim now tokens queue worker visibility limit db ≡ ok (taken, db')) where
  -- Nothing, where there is no room, and else what the loop over the candidates gives.
  pub claim_cases :
      ((taken ≡ []) × (db' ≡ db))
      ⊎ ((expires : ℕ) × (taken
            ≡ (claim_each now worker expires tokens 0 (chosen limit queue now db) db.messages).0)
          × (db' ≡ record db {
            messages =
                (claim_each now worker expires tokens 0 (chosen limit queue now db) db.messages).1;
          }))
  unfolding claim
  claim_cases =
      let (expires, _, h) = bind-ok _ (to_iso (now + timeout_seconds visibility * 1000)) e in
      elim (Bool-cases (effective_limit (at_least 1 limit) queue now db == 0)) [
        | inl z ↦ (let same = ok-injective (rw z at h) in inl (cc, cc))
        | inr z ↦ (let same = ok-injective (rw z at h) in inr (expires, cc, cc))
      ]

  -- With consistent tables, a claim that does not throw returns at most `limit` messages, or one
  -- where the limit is below 1. The messages of the queue that are in process under a lease that has
  -- not run out become at most that many more; and where the queue's record has a concurrency other
  -- than 0, no more than the concurrency, or than they were before where that was more.
  pub claim_limits :
      IsConsistent db
      → (length taken ≤ at_least 1 limit)
        × (active_count queue now db'.messages
            ≤ most_active
                (find_queue queue db.queues)
                (at_least 1 limit)
                (active_count queue now db.messages))
  claim_limits c = elim claim_cases [
    | inl (none_taken, same) ↦ (
      rw none_taken (omega arith),
      rw same (
          active-most_active (find_queue queue db.queues) (at_least 1 limit)
            (active_count queue now db.messages)),
    )
    | inr (expires, got, same) ↦
        let bound =
          length-candidates queue now (effective_limit (at_least 1 limit) queue now db) db in
        (
          rw got (
              omega (
                arith,
                bound,
                effective_limit-le (at_least 1 limit) queue now db,
                length-claim_each now worker expires tokens 0 (chosen limit queue now db)
                    db.messages,
              )),
          rw same (
              omega (
                arith,
                bound,
                effective_limit_bounds (at_least 1 limit) queue now db,
                active-claim_each now worker expires tokens queue 0 (chosen limit queue now db) db
                    c,
              )),
        )
  ]
