-- ===== src/Queue/Failing/Backoff.antt =====
-- A failed message with attempts left goes back to its queue, to be tried again later.
use nodestack.Prelude.{
  ◌⊎◌, inl, inr, ℕ, ◌+◌, ◌-◌, ◌*◌, ◌^◌, ◌≤◌, ◌<◌, ◌≡◌, refl, String, true, false, Option, none,
  some, ◌=ₜ◌, ltb, Bool-cases, arith, find, find-key, ok, throw, invalid_time,
}
use nodestack.Prelude.Int.{ℤ, pos, at_least}
use nodestack.Time.{to_iso, iso_le, latest, year_10000}
use nodestack.Queue.Types.{Status, Queue, Message, FailResult, Db}
use nodestack.Queue.Driver.Conditions.{find_queue, find_message, held}
use nodestack.Queue.Driver.Claim.{is_due}
use nodestack.Queue.Driver.Lease.{update_messages}
use nodestack.Queue.Driver.Fail.{
  attempts_of, backoff, base_backoff, may_retry, requeued, retry_later, fail,
}
use nodestack.Queue.Lookup.{update_messages-row, find-narrow}

pub held-id :
    (id : String) (token : Option String) (m : Message)
    → held id token m ≡ true
    → (m.id =ₜ id) ≡ true
held-id id token m h = ground arith

-- The row that `fail` selects.
pub find-held :
    (id : String) (token : Option String) (m : Message) (db : Db)
    → find_message id db.messages ≡ some m
    → held id token m ≡ true
    → find (held id token) db.messages ≡ some m
find-held id token m db found h =
    find-narrow (λ n. n.id =ₜ id) (held id token) db.messages m (held-id id token) found h

module _ (db : Db) (id : String) (token : Option String) (m : Message) (delay : Option ℤ)
    (found : find_message id db.messages ≡ some m) (mine : held id token m ≡ true)
    (left : may_retry m ≡ true) (now : ℕ) (fresh error : String) where
  -- The time at which the message is to be tried again.
  abbrev pub retry_time : ℕ
  retry_time = now + backoff (base_backoff delay (find_queue m.queue db.queues)) (attempts_of m)

  reported : FailResult
  reported = record { retried = true; dead_lettered = false; attempts = attempts_of m }

  fails_by :
      fail now fresh id error delay token db
      ≡ retry_later now error
          (backoff (base_backoff delay (find_queue m.queue db.queues)) (attempts_of m))
          token
          m
          db
  unfolding fail
  fails_by = rw (find-held id token m db found mine, fail) (rw left)

  -- Where the next try is at a time that a date can hold, the message is queued again until then.
  fails_until :
      retry_time ≤ latest
      → (db' : Db) × (fail now fresh id error delay token db
          ≡ ok (record { retried = true; dead_lettered = false; attempts = attempts_of m }, db'))
        × (find_message id db'.messages ≡ some (requeued now retry_time error m))
  unfolding retry_later to_iso
  fails_until range =
      let same : m.id ≡ id = find-key (λ n. n.id) id db.messages m found in
      let (changed, row) =
        update_messages-row (held id token) (requeued now retry_time error) id m db (λ n. refl)
          found mine in
      (
        (update_messages (held id token) (requeued now retry_time error) db).1,
        rw (fails_by, same) (ground (arith, changed)),
        row,
      )

  -- Where the next try would lie past the year 9999, the message is due at once instead: at every
  -- reading of the clock before the year 10000, however long the backoff is.
  pub fail_due_at_once :
      year_10000 ≤ retry_time
      → retry_time ≤ latest
      → (reading : ℕ) → reading < year_10000
      → (db' : Db) × (m' : Message) × (fail now fresh id error delay token db
          ≡ ok (record { retried = true; dead_lettered = false; attempts = attempts_of m }, db'))
        × (find_message id db'.messages ≡ some m')
        × (is_due reading m' ≡ true)
  unfolding iso_le
  fail_due_at_once far range reading before =
      let (db', done, row) = fails_until range in
      (db', requeued now retry_time error m, done, row, ground arith)

-- A message that is tried again only later: queued, without worker, lease and token, with the same
-- attempts.
unfoldable pub IsWaiting : ℕ → String → Message → Message → Type 0
IsWaiting due error m m' =
    (m'.status ≡ Status.queued)
    × (m'.available_at ≡ due)
    × (m'.claimed_by ≡ none)
    × (m'.lease_expires_at ≡ none)
    × (m'.claim_token ≡ none)
    × (m'.attempts ≡ m.attempts)
    × (m'.error ≡ some error)

-- `base * 2 ^ (attempts - 1)` milliseconds after `now`, where the base is the delay that is given, or
-- that of the queue's record, or 1000; a base below 0 counts as 0.
abbrev pub next_try : ℕ → Option ℤ → Option Queue → ℕ → ℕ
next_try now (some delay) q attempts = now + at_least 0 delay * 2 ^ (attempts - 1)
next_try now none (some q) attempts = now + q.backoff_delay_ms * 2 ^ (attempts - 1)
next_try now none none attempts = now + 1_000 * 2 ^ (attempts - 1)

retry_time-next_try :
    (now : ℕ) (delay : Option ℤ) (q : Option Queue) (attempts : ℕ)
    → now + backoff (base_backoff delay q) attempts ≡ next_try now delay q attempts
unfolding backoff
retry_time-next_try now (some delay) q attempts = refl
retry_time-next_try now none (some q) attempts =
    let same : at_least 0 (pos q.backoff_delay_ms) ≡ q.backoff_delay_ms = ground arith in
    rw same refl
retry_time-next_try now none none attempts = refl

may_retry_again :
    (m : Message) → (m.max_attempts ≡ 0) ⊎ (attempts_of m < m.max_attempts) → may_retry m ≡ true
may_retry_again m h = ground arith

-- A message that its holder fails, and whose limit of attempts is 0 or not reached (where no attempt
-- counts as one), is queued again with the error, without its worker, lease and token and with a number
-- of attempts that stays; it is due again `base * 2 ^ (attempts - 1)` milliseconds later. If no date
-- can hold that time, `fail` throws.
pub fail_retries :
    (db : Db) (id : String) (token : Option String) (m : Message) (delay : Option ℤ)
    → find_message id db.messages ≡ some m
    → held id token m ≡ true
    → (m.max_attempts ≡ 0) ⊎ (attempts_of m < m.max_attempts)
    → (now : ℕ) (fresh error : String)
    → ((db' : Db) × (m' : Message) × (fail now fresh id error delay token db
          ≡ ok (record { retried = true; dead_lettered = false; attempts = attempts_of m }, db'))
        × (find_message id db'.messages ≡ some m')
        × IsWaiting (next_try now delay (find_queue m.queue db.queues) (attempts_of m)) error m m')
      ⊎ ((latest < next_try now delay (find_queue m.queue db.queues) (attempts_of m))
          × (fail now fresh id error delay token db ≡ throw invalid_time))
unfolding retry_later to_iso IsWaiting
fail_retries db id token m delay found mine left now fresh error =
    let again = may_retry_again m left in
    let due = retry_time db id token m delay found mine again now fresh error in
    let same = retry_time-next_try now delay (find_queue m.queue db.queues) (attempts_of m) in
    elim (Bool-cases (ltb latest due)) [
      | inl past ↦ inr (
        rw (← same) (ground arith),
        rw (fails_by db id token m delay found mine again now fresh error) (ground arith),
      )
      | inr within ↦
          let (db', done, row) =
            fails_until db id token m delay found mine again now fresh error (ground arith) in
          inl (db', requeued now due error m, done, row, (refl, same, refl, refl, refl, refl, refl))
    ]
