-- ===== src/Queue/Moves.antt =====
-- The life of a message as a state machine: the status type of src/queue/types.ts, and which calls of
-- src/queue/drivers/SqliteQueueDriver.ts move a message from one status to another.
use nodestack.Prelude.{ℕ, ◌≡◌, String, Bool, true, false, List, Option}
use mathlib.Core.List.{Mem}
use nodestack.Prelude.Int.{ℤ}
use nodestack.Json.{Json}
use nodestack.Queue.Types.{Status, queued, processing, completed, failed, dead_letter, Message}
use nodestack.Queue.Lifecycle.History.{
  Call, upserts, deletes_queue, sends, sends_batch, claims, touches, completes, fails, force_skips,
  cancels, defers, retries, retries_dead, reclaims, cleans, purges,
}
pub mod Rows
pub mod Table
pub mod Calls
pub mod Refined
pub mod Never

-- The calls, by what they may do to a message.
pub data Kind : Type 0 where
  passive adding claiming completing failing skipping deferring retrying reclaiming : Kind

unfoldable pub kind : Call → Kind
kind (upserts now dto) = passive
kind (deletes_queue name) = passive
kind (sends now fresh dto) = adding
kind (sends_batch now ids dtos) = adding
kind (claims now tokens queue worker visibility limit) = claiming
kind (touches now id extension token) = passive
kind (completes now id result token) = completing
kind (fails now fresh id error delay token) = failing
kind (force_skips now fresh id reason) = skipping
kind (cancels id) = passive
kind (defers now id delay reason) = deferring
kind (retries now fresh id) = retrying
kind (retries_dead now ids queue limit) = retrying
kind (reclaims now ids queue scope) = reclaiming
kind (cleans now days queue) = passive
kind (purges queue status) = passive

-- One move of a message.
pub data Move : Kind → Status → Status → Type 0 where
  to_worker : Move claiming queued processing
  done_queued : Move completing queued completed
  done_processing : Move completing processing completed
  to_retry : Move failing processing queued
  to_grave : Move failing processing dead_letter
  skip_queued : Move skipping queued dead_letter
  skip_processing : Move skipping processing dead_letter
  skip_failed : Move skipping failed dead_letter
  put_back : Move deferring processing queued
  start_again : {s : Status} → Move retrying s queued
  take_back : Move reclaiming processing queued
  time_out : Move reclaiming processing dead_letter

-- The moves of a message in one call, the last one outermost.
pub data Moves (k : Kind) : Status → Status → Type 0 where
  stays : {s : Status} → Moves k s s
  then : {s t u : Status} → Moves k s t → Move k t u → Moves k s u

-- The calls that may add messages.
abbrev pub adds : Kind → Bool
adds passive = false
adds claiming = false
adds completing = false
adds deferring = false
adds _ = true

-- What no call changes of a message.
pub record Job : Type 0 where
  pub id : String
  pub queue : String
  pub group_key : Option String
  pub payload : Option Json
  pub max_attempts : ℕ
  pub priority : ℤ
  pub deduplication_id : Option String
  pub original_message_id : Option String
  pub created : ℕ

abbrev pub job_of : Message → Job
job_of m = record {
  id = m.id;
  queue = m.queue;
  group_key = m.group_key;
  payload = m.payload;
  max_attempts = m.max_attempts;
  priority = m.priority;
  deduplication_id = m.deduplication_id;
  original_message_id = m.original_message_id;
  created = m.created;
}

-- A message after a call is one from before it that has made moves of the call, or a new one.
pub data Stems (k : Kind) (old : List Message) (m : Message) : Type 0 where
  kept : (o : Message) → Mem o old → job_of m ≡ job_of o → Moves k o.status m.status → Stems k old m
  added : adds k ≡ true → m.status ≡ queued → m.attempts ≡ 0 → Stems k old m
