-- ===== src/Queue/Driver/Retry.antt =====
-- `retryMessage` and `retryDeadLetterMessages`: messages go back to their queue, and copies in a
-- dead letter queue to the queue that they came from. The callback `onMessageRequeued` is the list
-- of the queues that it is called with.
use nodestack.Prelude.{
  ℕ, suc, ◌+◌, ◌-◌, String, Bool, true, false, List, [], ◌∷◌, ◌++◌, Option, none, some, not, ◌&&◌,
  ◌||◌, ◌=ₜ◌, ltb, if◌then◌else◌, codes, like_folded, filter, take, is_some, or_default, Outcome,
  ok, throw, ◌>>=◌, cannot_bind, type_error,
}
use nodestack.Prelude.Int.{ℤ, at_least}
use nodestack.Json.{
  Json, null, bool, num, text, time, arr, obj, property, truthy, decimal, stringify,
}
use nodestack.Time.{iso_le}
use nodestack.Sql.{update_where, delete_where, changes, order_by}
use nodestack.Queue.Types.{
  Status, queued, failed, dead_letter, is_queued, is_processing, Message, EnqueueMessage, Db,
  or_null, or_empty,
}
use nodestack.Queue.Driver.Conditions.{
  column_is, find_message, mentions, mentions_codes, pending_copy,
}
use nodestack.Queue.Driver.Insert.{insert_message}
use nodestack.Queue.Driver.Lease.{released}

-- A message that starts again from nothing.
abbrev pub restarted : ℕ → Message → Message
restarted now m = record (released m) {
  status = queued;
  attempts = 0;
  error = none;
  available_at = now;
  updated = now;
  finished_at = none;
  forwarded_to_message_id = none;
}

unfoldable pub restart : ℕ → String → Db → Db
restart now id db = record db {
  messages = update_where (λ m. m.id =ₜ id) (restarted now) db.messages;
}

unfoldable pub delete_messages : (Message → Bool) → Db → Db
delete_messages p db = record db { messages = delete_where p db.messages }

abbrev pub payload_of : Message → Json
payload_of m = or_default m.payload null

-- `row.originalMessageId || parsed?.originalMessageId`
abbrev pub original_id : Message → Option Json
original_id m = elim (or_null m.original_message_id) [
  | some s ↦ some (text s)
  | none ↦ property "originalMessageId" (payload_of m)
]

-- A value as the parameter of `id = ?`. node:sqlite refuses what is no text and no number. A number
-- is compared as the text of a REAL, such as "5.0", which is taken to be no id; nor is the time of
-- an envelope.
unfoldable pub row_by_id : Json → List Message → Outcome (Option Message)
row_by_id (text s) messages = ok (find_message s messages)
row_by_id (num n) messages = ok none
row_by_id (time t) messages = ok none
row_by_id null messages = ok none
row_by_id (bool b) messages = throw cannot_bind
row_by_id (arr xs) messages = throw cannot_bind
row_by_id (obj fs) messages = throw cannot_bind

-- `originalMessageId = ? OR payload LIKE ?` for such a value
unfoldable pub copy_of : Json → Message → Bool
copy_of (text s) m = column_is m.original_message_id s || mentions s m
copy_of (num n) m = mentions_codes (decimal n) m
copy_of _ m = false

-- The queue name of an envelope, as `insertMessageSync` takes it. A number has no `startsWith`.
unfoldable pub queue_name : Json → Outcome String
queue_name (text s) = ok s
queue_name (num n) = throw type_error
queue_name (time t) = throw type_error
queue_name null = throw type_error
queue_name (bool b) = throw cannot_bind
queue_name (arr xs) = throw cannot_bind
queue_name (obj fs) = throw cannot_bind

-- The message of an envelope, for the queue that it came from.
abbrev pub unwrapped : String → Message → EnqueueMessage
unwrapped queue row = record {
  id = none;
  queue = queue;
  payload = some (or_default (property "payload" (payload_of row)) (payload_of row));
  group_key = row.group_key;
  delay_seconds = none;
  priority = some row.priority;
  max_attempts = none;
  deduplication_id = none;
  original_message_id = none;
}

-- The message is made anew in the queue that it came from, if the envelope names one: whether it
-- was, the queue that was woken, and the database.
unfoldable pub make_again :
    ℕ → String → Message → Db → Option Json → Outcome (Bool × List String × Db)
make_again now fresh row db none = ok (false, [], db)
make_again now fresh row db (some name) =
    let again : Outcome (Bool × List String × Db) = (do
      queue ← queue_name name
      (_, db') ← insert_message now fresh (unwrapped queue row) db
      ok (true, queue ∷ [], db')) in
    if truthy name then again else ok (false, [], db)

-- The original starts again, or is made anew where it is gone.
unfoldable pub restart_or_make :
    ℕ → String → Message → Db → Option Message → Outcome (Bool × List String × Db)
restart_or_make now fresh row db (some m) = ok (true, m.queue ∷ [], restart now m.id db)
restart_or_make now fresh row db none =
    make_again now fresh row db (property "originalQueue" (payload_of row))

unfoldable pub send_back : ℕ → String → Json → Message → Db → Outcome (Bool × List String × Db)
send_back now fresh id row db = do
  original ← row_by_id id db.messages
  restart_or_make now fresh row db original

-- A forwarded copy: it goes, with the other pending copies of its original in its queue.
unfoldable pub retry_copy : ℕ → String → Json → Message → Db → Outcome (Bool × List String × Db)
retry_copy now fresh id row db = do
  (_, woken, db1) ← send_back now fresh id row db
  let db2 = delete_messages (λ m. m.id =ₜ row.id) db1
  let stale = λ (m : Message). m.queue =ₜ row.queue && is_queued m.status && copy_of id m
  ok (true, woken, delete_messages stale db2)

-- A message that is no copy: its pending copies go.
unfoldable pub retry_original : ℕ → Message → Db → Bool × List String × Db
retry_original now row db = (
  true,
  row.queue ∷ [],
  delete_messages (pending_copy (or_empty row.forwarded_to_message_id) row.id)
      (restart now row.id db),
)

-- `row.queue !== originalQueue || row.originalMessageId`
abbrev pub is_elsewhere : Message → Bool
is_elsewhere m = elim (property "originalQueue" (payload_of m)) [
  | some (text q) ↦ not (m.queue =ₜ q) || is_some (or_null m.original_message_id)
  | _ ↦ true
]

unfoldable pub retry_message : ℕ → String → String → Db → Outcome (Bool × List String × Db)
retry_message now fresh id db = elim (find_message id db.messages) [
  | none ↦ ok (false, [], db)
  | some row ↦ elim (is_processing row.status) [
    | true ↦ ok (false, [], db)
    | false ↦ elim (original_id row) [
      | none ↦ ok (retry_original now row db)
      | some origin ↦
          if truthy origin && is_elsewhere row
          then retry_copy now fresh origin row db
          else ok (retry_original now row db)
    ]
  ]
]

abbrev pub by_updated : Message → Message → Bool
by_updated a b = iso_le a.updated b.updated

-- `status IN ('dead_letter', 'failed')`
abbrev pub is_dead : Status → Bool
is_dead dead_letter = true
is_dead failed = true
is_dead _ = false

-- The first loop of `retryDeadLetterMessages`, with the number of the messages that it restarted.
unfoldable pub restart_each : ℕ → List Message → Db → ℕ × Db
restart_each now [] db = (0, db)
restart_each now (r ∷ rs) db =
    let found = ltb 0 (changes (λ m. m.id =ₜ r.id) db.messages) in
    let cleaned =
      delete_messages (pending_copy (or_empty r.forwarded_to_message_id) r.id)
        (restart now r.id db) in
    let (count, db') = restart_each now rs (if found then cleaned else db) in
    (if found then count + 1 else count, db')

-- `originalMessageId IS NOT NULL OR payload LIKE '%"originalMessageId"%'`
unfoldable pub is_copy : Message → Bool
is_copy m = is_some m.original_message_id || in_payload m.payload
  where
    pattern : List ℕ
    pattern = (b'%' ∷ 34 ∷ codes "originalMessageId") ++ 34 ∷ b'%' ∷ []

    in_payload : Option Json → Bool
    in_payload none = false
    in_payload (some v) = like_folded pattern (stringify v)

-- The second loop: `ids k` is the id that is generated for the k-th row.
unfoldable pub send_back_each :
    ℕ → (ℕ → String) → ℕ → List Message → Db → Outcome (ℕ × List String × Db)
send_back_each now ids k [] db = ok (0, [], db)
send_back_each now ids k (r ∷ rs) db =
    let moved : Json → Outcome (ℕ × List String × Db) = λ id. (do
      (done, woken, db1) ← send_back now (ids k) id r db
      (count, more, db2) ←
          send_back_each now ids (suc k) rs (delete_messages (λ m. m.id =ₜ r.id) db1)
      ok (if done then count + 1 else count, woken ++ more, db2)) in
    let skipped = send_back_each now ids (suc k) rs db in
    elim (original_id r) [ none ↦ skipped | some id ↦ if truthy id then moved id else skipped ]

unfoldable pub retry_dead_letter_messages :
    ℕ → (ℕ → String) → String → ℤ → Db → Outcome (ℕ × List String × Db)
retry_dead_letter_messages now ids queue limit db =
    let safe_limit = at_least 1 limit in
    let dead =
      take safe_limit
        (order_by by_updated (filter (λ m. m.queue =ₜ queue && is_dead m.status) db.messages)) in
    let (count, db1) = restart_each now dead db in
    let copies = take (safe_limit - count) (
      order_by by_updated (
        filter (λ m. m.queue =ₜ queue && (is_queued m.status || is_dead m.status) && is_copy m)
          db1.messages)) in
    do
      (moved, woken, db2) ← send_back_each now ids 0 copies db1
      ok (count + moved, (if ltb 0 count then queue ∷ woken else woken), db2)
