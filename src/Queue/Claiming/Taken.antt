-- ===== src/Queue/Claiming/Taken.antt =====
-- The messages that a claim returns.
use nodestack.Prelude.{
  ℕ, suc, ◌≡◌, refl, sym, ap, String, Bool, true, false, List, [], ◌∷◌, some, ◌=ₜ◌, ◌&&◌, arith,
  All, All-map, All-zip, All-filter, All-take, find_unique, filter-All, find_self, filter, ltb,
  eq_iff, Bool-cases, Option-cases, inl, inr, ok, if◌then◌else◌,
}
use mathlib.Core.Option
use nodestack.Prelude.Int.{ℤ}
use nodestack.Sql.{update_where, changes, order_by}
use nodestack.Sql.Laws.{All-order_by, changes_none}
use nodestack.Queue.Types.{is_queued, is_unfinished, Message, Db}
use nodestack.Queue.Driver.Conditions.{find_message, map_row_to_message}
use nodestack.Queue.Driver.Claim.{
  Lease, is_due, is_strict, partition, by_created, by_priority, heads_of_line, strict_candidates,
  priority_candidates, candidates, claimed, still_queued, prepend_row, claim_each, claim,
}
use nodestack.Queue.Lookup.{find-update_where}
use nodestack.Queue.Lifecycle.Table.{IsConsistent, update_where-IsConsistent}
use nodestack.Queue.Lifecycle.Claims.{claimed-KeepsRow}
use nodestack.Queue.Claiming.Limits.{chosen, claim_cases}

All-heads_of_line {ℓ} :
    (P : Message → Type ℓ) (seen : List String) (ms : List Message)
    → All P ms
    → All P (heads_of_line seen ms)
unfolding heads_of_line
All-heads_of_line P seen [] h = tt
All-heads_of_line P seen (m ∷ ms) (p, h) =
    ground (arith, All-heads_of_line P seen ms h, All-heads_of_line P (partition m ∷ seen) ms h)

-- A row of the table that may be claimed for the queue.
pub record IsCandidate (queue : String) (now : ℕ) (messages : List Message) (m : Message)
    : Type 0 where
  pub there : find_message m.id messages ≡ some m
  pub of_queue : m.queue ≡ queue
  pub due : is_due now m ≡ true

pub candidates-All :
    (queue : String) (now limit : ℕ) (db : Db)
    → IsConsistent db
    → All (IsCandidate queue now db.messages) (candidates queue now limit db)
unfolding candidates strict_candidates priority_candidates
candidates-All queue now limit db c = elim (Bool-cases (is_strict queue db)) [
  | inl e ↦ rw e (All-take _ limit _ strict)
  | inr e ↦ rw e (All-take _ limit _ plain)
]
  where
    there : All (λ m. find_message m.id db.messages ≡ some m) db.messages
    there = find_self (λ m. m.id) db.messages c.ids

    unfinished : Message → Bool
    unfinished m = m.queue =ₜ queue && is_unfinished m.status

    line : List Message
    line = heads_of_line [] (order_by by_created (filter unfinished db.messages))

    in_line : (P : Message → Type 0) → All P (filter unfinished db.messages) → All P line
    in_line P h = All-heads_of_line P [] _ (All-order_by P by_created _ h)

    listed : All (λ m. (find_message m.id db.messages ≡ some m) × (unfinished m ≡ true)) line
    listed =
        All-zip _ _ _ (λ m p q. (p, q)) line (in_line _ (All-filter _ unfinished _ there))
          (in_line _ (filter-All unfinished db.messages))

    strict : All (IsCandidate queue now db.messages) (filter (is_due now) line)
    strict =
        All-zip _ _ _
          (λ m p q. record {
            there = p.0;
            of_queue = ground (arith, eq_iff m.queue queue, p.1);
            due = q;
          })
          _ (All-filter _ (is_due now) line listed) (filter-All (is_due now) line)

    ready : Message → Bool
    ready m = m.queue =ₜ queue && is_due now m

    plain :
        All (IsCandidate queue now db.messages) (order_by by_priority (filter ready db.messages))
    plain = All-order_by _ by_priority _ (
        All-zip _ _ _
          (λ m p q. record {
            there = p;
            of_queue = ground (arith, eq_iff m.queue queue, q);
            due = ground (arith, q);
          })
          _ (All-filter _ ready _ there) (filter-All ready db.messages))

-- What a claim of a worker makes of a row `old` that meets `P`.
pub record IsTaken (P : Message → Type 0) (worker : String) (now : ℕ) (m : Message) : Type 0 where
  pub old : Message
  pub was : P old
  pub lease : Lease
  pub by_worker : lease.claimed_by ≡ worker
  pub row : m ≡ map_row_to_message (claimed now lease old)

-- The queued rows of a table are those of another.
abbrev QueuedOf : List Message → List Message → Type 0
QueuedOf start rows =
    (id : String) (m : Message)
    → find_message id rows ≡ some m
    → is_queued m.status ≡ true
    → find_message id start ≡ some m

module _ (now : ℕ) (lease : Lease) (c : Message) (rows : List Message) where
  after : List Message
  after = update_where (still_queued c.id) (claimed now lease) rows

  row_after :
      (id : String)
      → find_message id after
        ≡ Option.map
            (λ m. if still_queued c.id m then claimed now lease m else m)
            (find_message id rows)
  unfolding after
  row_after id =
      find-update_where (λ m. m.id) (still_queued c.id) (claimed now lease) (λ m. refl) id rows

  QueuedOf-after : (start : List Message) → QueuedOf start rows → QueuedOf start after
  QueuedOf-after start q id m found queued = elim (Option-cases (find_message id rows)) [
    | inl e ↦ cc (found, rw e at (row_after id))
    | inr (r, e) ↦
        let same = rw e at (row_after id) in
        elim (Bool-cases (still_queued c.id r)) [
          | inl s ↦ absurd (clash r (cc (found, rw s at same)) queued)
          | inr s ↦
              (let same_row : r ≡ m = cc (found, rw s at same) in q id m (rw (← same_row) e) queued)
        ]
  ]
    where
      clash : (r : Message) → claimed now lease r ≡ m → is_queued m.status ≡ true → ⊥
      clash r e k = ground arith

-- Where the row of an id is not queued, no row of that id is.
still_queued_none :
    (id : String) (r : Message) (db : Db)
    → IsConsistent db
    → find_message id db.messages ≡ some r
    → still_queued id r ≡ false
    → changes (still_queued id) db.messages ≡ 0
still_queued_none id r db c found no_match = changes_none (still_queued id) db.messages (
    All-map _ _ (λ m only. at_row m only) db.messages
      (find_unique (λ m. m.id) id db.messages r found c.ids))
  where
    at_row : (m : Message) → (m.id ≡ id → m ≡ r) → still_queued id m ≡ false
    at_row m only = elim (Bool-cases (m.id =ₜ id)) [
      | inl e ↦ (let same : m ≡ r = only ((eq_iff m.id id).0 e) in rw same no_match)
      | inr e ↦ rw e
    ]

module _ (P : Message → Type 0) (worker : String) (now expires : ℕ) (tokens : ℕ → String)
    (start : List Message) (there : (c : Message) → P c → find_message c.id start ≡ some c) where
  lease_for : ℕ → Lease
  lease_for k = record { claimed_by = worker; expires_at = expires; token = tokens k }

  -- The row that the loop reads back after a candidate's update.
  prepended :
      (k : ℕ) (x : Message) (db : Db) (later : List Message)
      → IsConsistent db
      → QueuedOf start db.messages
      → P x
      → All (IsTaken P worker now) later
      → ltb 0 (changes (still_queued x.id) db.messages) ≡ true
      → All
          (IsTaken P worker now)
          (prepend_row (find_message x.id (after now (lease_for k) x db.messages)) later)
  unfolding lease_for
  prepended k x db later c q cand h changed = elim (Option-cases (find_message x.id db.messages)) [
    | inl e ↦ rw (row_after now (lease_for k) x db.messages x.id) (rw e h)
    | inr (r, e) ↦ elim (Bool-cases (still_queued x.id r)) [
      | inl s ↦
          let same : x ≡ r = cc (q x.id r e (ground arith), there x cand) in
          rw (row_after now (lease_for k) x db.messages x.id) (
            rw (e, s)
              (
                record {
                  old = x;
                  was = cand;
                  lease = lease_for k;
                  by_worker = refl;
                  row = ap (λ m. map_row_to_message (claimed now (lease_for k) m)) (sym same);
                },
                h,
              ))
      | inr s ↦ cc (rw (still_queued_none x.id r db c e s) at changed)
    ]
  ]

  pub claim_each-All :
      (k : ℕ) (cs : List Message) (db : Db)
      → IsConsistent db
      → QueuedOf start db.messages
      → All P cs
      → All (IsTaken P worker now) (claim_each now worker expires tokens k cs db.messages).0
  unfolding claim_each after lease_for
  claim_each-All k [] db c q h = tt
  claim_each-All k (x ∷ cs) db c q (cand, h) =
      let later =
        claim_each-All (suc k) cs (record db { messages = after now (lease_for k) x db.messages })
          (update_where-IsConsistent (claimed-KeepsRow x.id now (lease_for k)) db c)
          (QueuedOf-after now (lease_for k) x db.messages start q) h in
      elim (Bool-cases (ltb 0 (changes (still_queued x.id) db.messages))) [
        | inl e ↦ rw e (prepended k x db _ c q cand later e)
        | inr e ↦ rw e later
      ]

-- What holds of the candidates holds of the rows that a claim takes.
pub claim-All :
    (P : Message → Type 0) (now : ℕ) (tokens : ℕ → String) (queue worker : String)
    (visibility limit : ℤ) (db db' : Db) (taken : List Message)
    → IsConsistent db
    → ((c : Message) → P c → find_message c.id db.messages ≡ some c)
    → All P (chosen limit queue now db)
    → claim now tokens queue worker visibility limit db ≡ ok (taken, db')
    → All (IsTaken P worker now) taken
claim-All P now tokens queue worker visibility limit db db' taken c there h e =
    elim (claim_cases now tokens queue worker visibility limit db db' taken e) [
      | inl (none_taken, _) ↦ rw none_taken tt
      | inr (expires, got, _) ↦ rw got (
          claim_each-All P worker now expires tokens db.messages there 0 (chosen limit queue now db)
            db c (λ id m found _. found) h)
    ]

-- Every message that a claim returns was in the table with the queue that was asked for, queued and
-- due, and is that row with the status 'processing', a lease of the worker that asked, one more
-- attempt and the time of the claim, as a result shows it.
pub claim-IsTaken :
    (now : ℕ) (tokens : ℕ → String) (queue worker : String) (visibility limit : ℤ) (db db' : Db)
    (taken : List Message)
    → IsConsistent db
    → claim now tokens queue worker visibility limit db ≡ ok (taken, db')
    → All (IsTaken (IsCandidate queue now db.messages) worker now) taken
claim-IsTaken now tokens queue worker visibility limit db db' taken c =
    claim-All _ now tokens queue worker visibility limit db db' taken c (λ m k. k.there)
      (candidates-All queue now _ db c)
