-- ===== src/Queue/Driver/Claim.antt =====
-- `claim`: the queue's messages that are due pass to a worker, under a lease.
use nodestack.Prelude.{
  Option, ℕ, zero, suc, ◌+◌, ◌-◌, ◌*◌, min, String, Bool, true, false, List, [], ◌∷◌, none, some,
  ◌&&◌, ◌||◌, ◌=ₜ◌, ◌==◌, ltb, if◌then◌else◌, filter, any, take, or_default, Outcome, ok, ◌>>=◌,
}
use nodestack.Prelude.Int.{ℤ, at_least, ltb_ℤ, leb_ℤ}
use nodestack.Time.{to_iso, iso_le, iso_lt}
use nodestack.Sql.{update_where, changes, order_by}
use nodestack.Queue.Types.{Status, is_queued, is_processing, is_unfinished, Message, Db}
use nodestack.Queue.Driver.Conditions.{find_queue, find_message, map_row_to_message}

-- A message that a worker holds, and whose lease has not run out.
abbrev pub is_active : String → ℕ → Message → Bool
is_active queue now m =
    m.queue =ₜ queue
    && is_processing m.status
    && elim m.lease_expires_at [ none ↦ true | some t ↦ iso_lt now t ]

-- COUNT(*) of those
unfoldable pub active_count : String → ℕ → List Message → ℕ
active_count queue now messages = changes (is_active queue now) messages

-- The slots that the queue's concurrency leaves; 0 stands for no limit.
unfoldable pub effective_limit : ℕ → String → ℕ → Db → ℕ
effective_limit safe_limit queue now db = elim (find_queue queue db.queues) [
  | none ↦ safe_limit
  | some q ↦
      if q.concurrency == 0
      then safe_limit
      else min safe_limit (q.concurrency - active_count queue now db.messages)
]

-- `status = 'queued' AND availableAt <= now`
abbrev pub is_due : ℕ → Message → Bool
is_due now m = is_queued m.status && iso_le m.available_at now

-- COALESCE(groupKey, '')
abbrev pub partition : Message → String
partition m = or_default m.group_key ""

-- The rows with rn = 1: the first of each partition.
unfoldable pub heads_of_line : List String → List Message → List Message
heads_of_line seen [] = []
heads_of_line seen (m ∷ ms) =
    let first = m ∷ heads_of_line (partition m ∷ seen) ms in
    let later = heads_of_line seen ms in if any (λ g. g =ₜ partition m) seen then later else first

abbrev pub by_created : Message → Message → Bool
by_created a b = iso_le a.created b.created

-- ORDER BY priority DESC, availableAt ASC, rowid ASC
abbrev pub by_priority : Message → Message → Bool
by_priority a b =
    ltb_ℤ b.priority a.priority
    || (leb_ℤ b.priority a.priority && iso_le a.available_at b.available_at)

abbrev pub is_strict : String → Db → Bool
is_strict queue db = elim (find_queue queue db.queues) [ none ↦ false | some q ↦ q.strict_order ]

-- In a strict queue only the earliest unfinished message of a partition is a candidate, and only
-- if it is due.
unfoldable pub strict_candidates : String → ℕ → List Message → List Message
strict_candidates queue now messages = filter (is_due now) (
    heads_of_line []
      (order_by by_created (filter (λ m. m.queue =ₜ queue && is_unfinished m.status) messages)))

unfoldable pub priority_candidates : String → ℕ → List Message → List Message
priority_candidates queue now messages =
    order_by by_priority (filter (λ m. m.queue =ₜ queue && is_due now m) messages)

unfoldable pub candidates : String → ℕ → ℕ → Db → List Message
candidates queue now limit db =
    if is_strict queue db
    then take limit (strict_candidates queue now db.messages)
    else take limit (priority_candidates queue now db.messages)

-- What a claim gives to a row.
pub record Lease : Type 0 where
  pub claimed_by : String
  pub expires_at : ℕ
  pub token : String

abbrev pub claimed : ℕ → Lease → Message → Message
claimed now lease m = record m {
  status = Status.processing;
  claimed_by = some lease.claimed_by;
  lease_expires_at = some lease.expires_at;
  claim_token = some lease.token;
  attempts = m.attempts + 1;
  updated = now;
}

-- `id = ? AND status = 'queued'`
abbrev pub still_queued : String → Message → Bool
still_queued id m = m.id =ₜ id && is_queued m.status

abbrev pub prepend_row : Option Message → List Message → List Message
prepend_row none ms = ms
prepend_row (some row) ms = map_row_to_message row ∷ ms

-- The loop over the candidates; `tokens k` is the k-th random UUID.
unfoldable pub claim_each :
    ℕ → String → ℕ → (ℕ → String) → ℕ → List Message → List Message → List Message × List Message
claim_each now worker expires tokens k [] messages = ([], messages)
claim_each now worker expires tokens k (c ∷ cs) messages =
    let lease : Lease = record { claimed_by = worker; expires_at = expires; token = tokens k } in
    let messages' = update_where (still_queued c.id) (claimed now lease) messages in
    let later = claim_each now worker expires tokens (suc k) cs messages' in
    (
      if ltb 0 (changes (still_queued c.id) messages)
          then prepend_row (find_message c.id messages') later.0
          else later.0,
      later.1,
    )

-- `visibilityTimeoutSeconds || 30`
abbrev pub timeout_seconds : ℤ → ℕ
timeout_seconds (ℤ.pos zero) = 30
timeout_seconds (ℤ.pos (suc n)) = suc n
timeout_seconds (ℤ.negsuc n) = 1

unfoldable pub claim : ℕ → (ℕ → String) → String → String → ℤ → ℤ → Db → Outcome (List Message × Db)
claim now tokens queue worker visibility limit db = do
  expires ← to_iso (now + timeout_seconds visibility * 1000)
  let room = effective_limit (at_least 1 limit) queue now db
  let (taken, messages) =
      claim_each now worker expires tokens 0 (candidates queue now room db) db.messages
  ok (if room == 0 then ([], db) else (taken, record db { messages = messages }))
