-- ===== src/Queue/Types.antt =====
-- src/queue/types.ts, and the two tables of src/queue/drivers/SqliteQueueDriver.ts.
use nodestack.Prelude.{
  ℕ, String, Bool, true, false, List, [], Option, none, some, ◌=ₜ◌, if◌then◌else◌,
}
use nodestack.Prelude.Int.{ℤ}
use nodestack.Json.{Json}

pub data Status : Type 0 where
  queued processing completed failed dead_letter : Status

abbrev pub status_text : Status → String
status_text queued = "queued"
status_text processing = "processing"
status_text completed = "completed"
status_text failed = "failed"
status_text dead_letter = "dead_letter"

-- `status = 'queued'` and the like
abbrev pub is_queued : Status → Bool
is_queued queued = true
is_queued _ = false

abbrev pub is_processing : Status → Bool
is_processing processing = true
is_processing _ = false

-- `status IN ('queued', 'processing')`
abbrev pub is_unfinished : Status → Bool
is_unfinished queued = true
is_unfinished processing = true
is_unfinished _ = false

-- A row of `_queues`, which is a `QueueConfig` too.
pub record Queue : Type 0 where
  pub name : String
  pub concurrency : ℕ
  pub visibility_timeout_seconds : ℕ
  pub max_attempts : ℕ
  pub backoff_delay_ms : ℕ
  pub dead_letter_queue : Option String
  pub target_function : Option String
  pub is_system : Bool
  pub strict_order : Bool
  pub created : ℕ
  pub updated : ℕ

-- An absent field is `undefined`. The two texts may be `null` as well.
pub record CreateQueue : Type 0 where
  pub name : String
  pub concurrency : Option ℤ
  pub visibility_timeout_seconds : Option ℤ
  pub max_attempts : Option ℤ
  pub backoff_delay_ms : Option ℤ
  pub dead_letter_queue : Option (Option String)
  pub target_function : Option (Option String)
  pub is_system : Bool
  pub strict_order : Option Bool

-- A row of `_queue_messages`, which is a `QueueMessage` too.
pub record Message : Type 0 where
  pub id : String
  pub queue : String
  pub group_key : Option String
  pub status : Status
  pub payload : Option Json
  pub result : Option Json
  pub error : Option String
  pub attempts : ℕ
  pub max_attempts : ℕ
  pub priority : ℤ
  pub available_at : ℕ
  pub claimed_by : Option String
  pub lease_expires_at : Option ℕ
  pub claim_token : Option String
  pub deduplication_id : Option String
  pub original_message_id : Option String
  pub forwarded_to_message_id : Option String
  pub created : ℕ
  pub updated : ℕ
  pub finished_at : Option ℕ

pub record EnqueueMessage : Type 0 where
  pub id : Option String
  pub queue : String
  pub payload : Option Json
  pub group_key : Option String
  pub delay_seconds : Option ℤ
  pub priority : Option ℤ
  pub max_attempts : Option ℤ
  pub deduplication_id : Option String
  pub original_message_id : Option String

pub record FailResult : Type 0 where
  pub retried : Bool
  pub dead_lettered : Bool
  pub attempts : ℕ

pub record Stats : Type 0 where
  pub queued : ℕ
  pub processing : ℕ
  pub completed : ℕ
  pub failed : ℕ
  pub dead_letter : ℕ
  pub total : ℕ

-- The database: both tables, each in the order of its rowids.
pub record Db : Type 0 where
  pub queues : List Queue
  pub messages : List Message

abbrev pub empty_db : Db
empty_db = record { queues = []; messages = [] }

-- `text || null`
abbrev pub or_null : Option String → Option String
or_null none = none
or_null (some s) = if s =ₜ "" then none else some s

-- `text || ''`
abbrev pub or_empty : Option String → String
or_empty none = ""
or_empty (some s) = s
