-- ===== src/Queue/Driver/Fail.antt =====
-- `fail` and `forceDeadLetter`: retry with backoff, or the dead letter queue.
use nodestack.Prelude.{
  ℕ, ◌+◌, ◌-◌, ◌*◌, ◌^◌, String, Bool, true, false, Option, none, some, ◌&&◌, ◌||◌, ◌=ₜ◌, ◌==◌, ltb,
  if◌then◌else◌, find, or_default, Outcome, ok, ◌>>=◌,
}
use nodestack.Prelude.Int.{ℤ, pos, at_least}
use nodestack.Json.{Json, null, num, text, time, obj, end, field}
use nodestack.Time.{to_iso}
use nodestack.Sql.{update_where, delete_where}
use nodestack.Queue.Types.{
  Status, queued, completed, dead_letter, Queue, Message, EnqueueMessage, FailResult, Db, or_null,
  or_empty,
}
use nodestack.Queue.Driver.Conditions.{find_queue, find_message, held, pending_copy}
use nodestack.Queue.Driver.Insert.{insert_message}
use nodestack.Queue.Driver.Lease.{update_messages, released, finished}

-- `Number(row.attempts) || 1`
abbrev pub attempts_of : Message → ℕ
attempts_of m = if m.attempts == 0 then 1 else m.attempts

-- `Math.max(0, base * Math.pow(2, Math.max(0, attempts - 1)))`
unfoldable pub backoff : ℤ → ℕ → ℕ
backoff base attempts = at_least 0 base * 2 ^ (attempts - 1)

abbrev pub base_backoff : Option ℤ → Option Queue → ℤ
base_backoff (some given) q = given
base_backoff none none = pos 1000
base_backoff none (some q) = pos q.backoff_delay_ms

-- The payload of a copy in a dead letter queue.
unfoldable pub envelope : ℕ → String → ℕ → Message → Json
envelope now error attempts row = obj (
    field "originalMessageId" (text row.id) (
      field "originalJobId" (text row.id) (
        field "originalQueue" (text row.queue) (
          field "error" (text error) (
            field "attempts" (num (pos attempts))
              (field "failedAt" (time now) (field "payload" (or_default row.payload null) end)))))))

unfoldable pub dlq_message : ℕ → String → String → ℕ → Message → EnqueueMessage
dlq_message now dlq error attempts row = record {
  id = none;
  queue = dlq;
  payload = some (envelope now error attempts row);
  group_key = row.group_key;
  delay_seconds = none;
  priority = some row.priority;
  max_attempts = none;
  deduplication_id = none;
  original_message_id = some row.id;
}

abbrev pub forwarded_as : String → Message → Message
forwarded_as copy m = record m { forwarded_to_message_id = some copy }

-- Earlier pending copies go, a new one is inserted, and the row is linked to it.
unfoldable pub forward : ℕ → String → String → String → ℕ → Message → Db → Outcome Db
forward now fresh dlq error attempts row db = do
  let stale = λ (m : Message).
      m.queue =ₜ dlq && pending_copy (or_empty row.forwarded_to_message_id) row.id m
  let cleaned : Db = record db { messages = delete_where stale db.messages }
  (copy, db') ← insert_message now fresh (dlq_message now dlq error attempts row) cleaned
  ok (record db' {
    messages = update_where (λ m. m.id =ₜ row.id) (forwarded_as copy.id) db'.messages;
  })

-- `deadLetterQueue`, if it is another queue than the message's own
unfoldable pub dlq_of : Message → Option Queue → Option String
dlq_of row none = none
dlq_of row (some q) = elim (or_null q.dead_letter_queue) [
  | none ↦ none
  | some dlq ↦ if dlq =ₜ row.queue then none else some dlq
]

unfoldable pub forward_if_configured :
    ℕ → String → Option String → String → ℕ → Message → Db → Outcome Db
forward_if_configured now fresh none error attempts row db = ok db
forward_if_configured now fresh (some dlq) error attempts row db =
    forward now fresh dlq error attempts row db

-- `maxAttempts === 0 || attempts < maxAttempts`
abbrev pub may_retry : Message → Bool
may_retry m = m.max_attempts == 0 || ltb (attempts_of m) m.max_attempts

abbrev pub requeued : ℕ → ℕ → String → Message → Message
requeued now available_at error m = record (released m) {
  status = queued;
  error = some error;
  available_at = available_at;
  updated = now;
}

abbrev pub no_effect : FailResult
no_effect = record { retried = false; dead_lettered = false; attempts = 0 }

unfoldable pub retry_later :
    ℕ → String → ℕ → Option String → Message → Db → Outcome (FailResult × Db)
retry_later now error delay token row db = do
  available_at ← to_iso (now + delay)
  let (changed, db') = update_messages (held row.id token) (requeued now available_at error) db
  ok (
      if changed
      then (record { retried = true; dead_lettered = false; attempts = attempts_of row }, db')
      else (no_effect, db))

unfoldable pub bury : ℕ → String → String → Option String → Message → Db → Outcome (FailResult × Db)
bury now fresh error token row db =
    let (changed, db1) =
      update_messages (held row.id token) (finished dead_letter now (some error)) db in
    let buried : Outcome (FailResult × Db) = (do
      db2 ←
          forward_if_configured now fresh (dlq_of row (find_queue row.queue db.queues)) error
            (attempts_of row) row db1
      ok (record { retried = false; dead_lettered = true; attempts = attempts_of row }, db2)) in
    if changed then buried else ok (no_effect, db)

unfoldable pub fail :
    ℕ → String → String → String → Option ℤ → Option String → Db → Outcome (FailResult × Db)
fail now fresh id error delay token db = elim (find (held id token) db.messages) [
  | none ↦ ok (no_effect, db)
  | some row ↦
      let base = base_backoff delay (find_queue row.queue db.queues) in
      if may_retry row
      then retry_later now error (backoff base (attempts_of row)) token row db
      else bury now fresh error token row db
]

-- `status === 'completed' || status === 'dead_letter'`
abbrev pub is_closed : Status → Bool
is_closed completed = true
is_closed dead_letter = true
is_closed _ = false

unfoldable pub force_dead_letter : ℕ → String → String → String → Db → Outcome (Bool × Db)
force_dead_letter now fresh id reason db = elim (find_message id db.messages) [
  | none ↦ ok (false, db)
  | some row ↦
      let (changed, db1) =
        update_messages (λ m. m.id =ₜ id) (finished dead_letter now (some reason)) db in
      let forwarded : Outcome (Bool × Db) = (do
        db2 ←
            forward_if_configured now fresh (dlq_of row (find_queue row.queue db.queues)) reason
              row.attempts row db1
        ok (true, db2)) in
      if is_closed row.status then ok (false, db) else if changed then forwarded else ok (false, db)
]
