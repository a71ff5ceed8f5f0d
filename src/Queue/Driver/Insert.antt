-- ===== src/Queue/Driver/Insert.antt =====
-- Adding messages: `insertMessageSync`, `send`, `sendBatch`.
use nodestack.Prelude.{
  ℕ, suc, ◌+◌, ◌*◌, String, false, List, [], ◌∷◌, ◌++◌, Option, none, some, ◌&&◌, ◌=ₜ◌, ltb,
  if◌then◌else◌, find, is_some, or_default, Outcome, ok, throw, ◌>>=◌, unique_constraint,
}
use nodestack.Prelude.Int.{ℤ, pos, pos_part, at_least}
use nodestack.Time.{to_iso}
use nodestack.Queue.Types.{Status, is_unfinished, Queue, Message, EnqueueMessage, Db, or_null}
use nodestack.Queue.Driver.Conditions.{
  column_is, find_queue, find_message, has_system_prefix, map_row_to_message,
}

-- The record of a queue that was not registered before its first message.
unfoldable pub default_queue : ℕ → String → Queue
default_queue now name = record {
  name = name;
  concurrency = 0;
  visibility_timeout_seconds = 30;
  max_attempts = 3;
  backoff_delay_ms = 1000;
  dead_letter_queue = none;
  target_function = none;
  is_system = has_system_prefix name;
  strict_order = false;
  created = now;
  updated = now;
}

unfoldable pub ensure_queue : ℕ → String → Db → Db
ensure_queue now name db =
    if is_some (find_queue name db.queues)
    then db
    else record db { queues = db.queues ++ default_queue now name ∷ [] }

-- The unfinished message of the queue with the same deduplication id.
unfoldable pub find_duplicate : EnqueueMessage → List Message → Option Message
find_duplicate dto messages = elim (or_null dto.deduplication_id) [
  | none ↦ none
  | some d ↦
      find (λ m. m.queue =ₜ dto.queue && column_is m.deduplication_id d && is_unfinished m.status)
        messages
]

-- `delaySeconds > 0 ? … : now`
unfoldable pub due_time : ℕ → Option ℤ → Outcome ℕ
due_time now none = ok now
due_time now (some z) = if ltb 0 (pos_part z) then to_iso (now + pos_part z * 1000) else ok now

-- The row of a new message.
unfoldable pub new_row : ℕ → String → ℕ → ℕ → EnqueueMessage → Message
new_row now fresh available_at default_max_attempts dto = record {
  id = or_default (or_null dto.id) fresh;
  queue = dto.queue;
  group_key = dto.group_key;
  status = Status.queued;
  payload = dto.payload;
  result = none;
  error = none;
  attempts = 0;
  max_attempts = elim dto.max_attempts [ none ↦ default_max_attempts | some z ↦ at_least 0 z ];
  priority = or_default dto.priority (pos 0);
  available_at = available_at;
  claimed_by = none;
  lease_expires_at = none;
  claim_token = none;
  deduplication_id = dto.deduplication_id;
  original_message_id = dto.original_message_id;
  forwarded_to_message_id = none;
  created = now;
  updated = now;
  finished_at = none;
}

-- INSERT INTO _queue_messages: the id is the primary key.
unfoldable pub insert_row : Message → Db → Outcome Db
insert_row row db =
    if is_some (find_message row.id db.messages)
    then throw unique_constraint
    else ok (record db { messages = db.messages ++ row ∷ [] })

-- `fresh` is the id that is generated where the caller gives none.
unfoldable pub insert_message : ℕ → String → EnqueueMessage → Db → Outcome (Message × Db)
insert_message now fresh dto db =
    let db1 = ensure_queue now dto.queue db in
    let max_attempts : ℕ = elim (find_queue dto.queue db.queues) [
      | none ↦ 3
      | some q ↦ q.max_attempts
    ] in
    elim (find_duplicate dto db.messages) [
      | some dup ↦ ok (map_row_to_message dup, db1)
      | none ↦ do
        available_at ← due_time now dto.delay_seconds
        let row = new_row now fresh available_at max_attempts dto
        db2 ← insert_row row db1
        ok (map_row_to_message row, db2)
    ]

unfoldable pub send : ℕ → String → EnqueueMessage → Db → Outcome (Message × Db)
send now fresh dto db = insert_message now fresh dto db

-- One transaction: a message that cannot be inserted undoes those before it. `ids k` is the id
-- that is generated for the k-th message.
unfoldable pub send_batch :
    ℕ → (ℕ → String) → ℕ → List EnqueueMessage → Db → Outcome (List Message × Db)
send_batch now ids k [] db = ok ([], db)
send_batch now ids k (dto ∷ dtos) db = do
  (m, db1) ← insert_message now (ids k) dto db
  (ms, db2) ← send_batch now ids (suc k) dtos db1
  ok (m ∷ ms, db2)
