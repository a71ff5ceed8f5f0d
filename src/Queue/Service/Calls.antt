-- ===== src/Queue/Service/Calls.antt =====
-- The public calls of src/queue/QueueService.ts that go to the driver: what they check, what they
-- ask of the driver, and which queues they wake. `available` is what `isDbAvailable()` gives while
-- the service is not disposed.
use nodestack.Prelude.{
  remove, add, ℕ, String, Bool, true, false, List, [], ◌∷◌, Option, none, some, not, ◌&&◌, ◌||◌,
  ◌=ₜ◌, ltb, leb, if◌then◌else◌, any, find, is_some, starts_with, codes, trim, Outcome, ok, throw,
  ◌>>=◌, app_error,
}
use nodestack.Prelude.Int.{ℤ, pos, pos_part, leb_ℤ}
use nodestack.Json.{Json}
use nodestack.Queue.Types.{Queue, CreateQueue, Message, EnqueueMessage, FailResult, Db, or_null}
use nodestack.Queue.Driver.Registry.{get_queue, upsert_queue, delete_queue}
use nodestack.Queue.Driver.Insert.{send, send_batch}
use nodestack.Queue.Driver.Lease.{complete}
use nodestack.Queue.Driver.Fail.{no_effect, fail, force_dead_letter}
use nodestack.Queue.Driver.Retry.{retry_message, retry_dead_letter_messages}
use nodestack.Queue.Driver.Reclaim.{Scope, reclaim_orphaned}
use nodestack.Queue.Driver.Reads.{
  get_message, get_queues_with_pending_messages, get_next_delayed_timestamp,
}
use nodestack.Queue.Service.Wakes.{
  Wakes, wake_worker, forget_queue, schedule_delayed_at, timer_fired,
}

-- The service: the database behind its driver, its transient state, and the names that handlers are
-- registered under, those for a queue and those for a prefix.
pub record Service : Type 0 where
  pub db : Db
  pub wakes : Wakes
  pub handlers : List String
  pub prefixes : List String

-- `resolveMemoryHandler`: the name that the handler is registered under.
unfoldable pub resolve_memory_handler : String → Service → Option String
resolve_memory_handler queue s =
    if any (λ h. h =ₜ queue) s.handlers
    then some queue
    else find (λ p. starts_with (codes queue) (codes p)) s.prefixes

unfoldable pub is_db_available : Bool → Service → Bool
is_db_available available s = not s.wakes.disposed && available

abbrev pub waking : String → Service → Service
waking q s = record s { wakes = wake_worker q s.wakes }

unfoldable pub wake_each : List String → Wakes → Wakes
wake_each [] w = w
wake_each (q ∷ qs) w = wake_each qs (wake_worker q w)

abbrev pub scheduling : ℕ → Service → Service
scheduling t s = record s { wakes = schedule_delayed_at t s.wakes }

-- A setting that is given is at least `low`.
abbrev pub is_allowed : ℤ → Option ℤ → Bool
is_allowed low none = true
is_allowed low (some z) = leb_ℤ low z

unfoldable pub upsert_queue_call : ℕ → CreateQueue → Service → Outcome (Option Queue × Service)
upsert_queue_call now dto s =
    let name = trim dto.name in
    let (config, db) = upsert_queue now (record dto { name = name }) s.db in
    let target : Option String = elim config [ none ↦ none | some q ↦ or_null q.target_function ] in
    let s' : Service = record s { db = db } in
    if name =ₜ ""
    then throw (app_error "Queue name is required")
    else if not (is_allowed (pos 0) dto.concurrency)
    then throw (app_error "Queue concurrency must be an integer >= 0 (0 or blank for unbounded)")
    else if not (is_allowed (pos 0) dto.max_attempts)
    then throw (app_error "Queue maxAttempts must be an integer >= 0 (0 for unlimited retries)")
    else if not (is_allowed (pos 1) dto.visibility_timeout_seconds)
    then throw (app_error "Queue visibilityTimeoutSeconds must be an integer >= 1")
    else if not (is_allowed (pos 0) dto.backoff_delay_ms)
    then throw (app_error "Queue backoffDelayMs must be an integer >= 0")
    else ok (
      config,
      if is_some target || is_some (resolve_memory_handler name s) then waking name s' else s',
    )

unfoldable pub delete_queue_call : String → Service → Bool × Service
delete_queue_call name s =
    let (gone, db) = delete_queue name s.db in
    (
      gone,
      record s { handlers = remove name s.handlers; wakes = forget_queue name s.wakes; db = db },
    )

-- `dto.delaySeconds && dto.delaySeconds > 0`
abbrev pub is_delayed_dto : EnqueueMessage → Bool
is_delayed_dto dto = elim dto.delay_seconds [ none ↦ false | some z ↦ ltb 0 (pos_part z) ]

unfoldable pub send_call : ℕ → String → EnqueueMessage → Service → Outcome (Message × Service)
send_call now fresh dto s =
    let queue = trim dto.queue in
    let sent : Outcome (Message × Service) = (do
      (job, db) ← send now fresh (record dto { queue = queue }) s.db
      let s' : Service = record s { db = db }
      ok (job, if is_delayed_dto dto then scheduling job.available_at s' else waking queue s')) in
    if queue =ₜ "" then throw (app_error "Queue name is required") else sent

-- The loop of `sendBatch` over the messages and what was asked for: the queues to wake, and the
-- earliest time of the delayed ones.
unfoldable pub batch_wakes :
    List Message → List EnqueueMessage → List String → Option ℕ → List String × Option ℕ
batch_wakes [] dtos touched earliest = (touched, earliest)
batch_wakes (job ∷ jobs) [] touched earliest = batch_wakes jobs [] (add job.queue touched) earliest
batch_wakes (job ∷ jobs) (dto ∷ dtos) touched earliest =
    let sooner : Bool = elim earliest [ none ↦ true | some t ↦ ltb job.available_at t ] in
    let delayed =
      batch_wakes jobs dtos touched (if sooner then some job.available_at else earliest) in
    let at_once = batch_wakes jobs dtos (add job.queue touched) earliest in
    if is_delayed_dto dto then delayed else at_once

unfoldable pub send_batch_call :
    ℕ → (ℕ → String) → List EnqueueMessage → Service → Outcome (List Message × Service)
send_batch_call now ids dtos s = do
  (created, db) ← send_batch now ids 0 dtos s.db
  let (touched, earliest) = batch_wakes created dtos [] none
  let woken = wake_each touched s.wakes
  let wakes : Wakes = elim earliest [ none ↦ woken | some t ↦ schedule_delayed_at t woken ]
  ok (created, record s { db = db; wakes = wakes })

unfoldable pub wake_pending_queues_from_storage : Bool → ℕ → Service → Service
wake_pending_queues_from_storage available now s =
    if is_db_available available s
    then record s { wakes = wake_each (get_queues_with_pending_messages now s.db) s.wakes }
    else s

unfoldable pub schedule_next_delayed_wake : Bool → ℕ → Option String → Service → Service
schedule_next_delayed_wake available now queue s =
    if is_db_available available s
    then elim (get_next_delayed_timestamp now queue s.db) [ none ↦ s | some t ↦ scheduling t s ]
    else s

-- The callback of the timer.
unfoldable pub timer_callback : Bool → ℕ → Service → Service
timer_callback available now s =
    let fired : Service = record s { wakes = timer_fired s.wakes } in
    if is_db_available available fired
    then schedule_next_delayed_wake available now none
        (wake_pending_queues_from_storage available now fired)
    else fired

unfoldable pub complete_call :
    Bool → ℕ → String → Option Json → Option String → Service → Bool × Service
complete_call available now id result token s =
    let (done, db) = complete now id result token s.db in
    let s' : Service = record s { db = db } in
    if not (is_db_available available s) then (false, s) else (
      done,
      elim (get_message id s.db) [
        | none ↦ s'
        | some job ↦ if done then waking job.queue s' else s'
      ],
    )

-- What `fail` wakes after the driver has retried or buried the message.
unfoldable pub wake_after_fail : ℕ → String → Option Message → FailResult → Service → Service
wake_after_fail now id job result s =
    let retried : Service = elim (get_message id s.db) [
      | none ↦ s
      | some m ↦ if leb m.available_at now then waking m.queue s else scheduling m.available_at s
    ] in
    let buried : Service = elim job [
      | none ↦ s
      | some m ↦ elim (get_queue m.queue s.db) [
        | none ↦ s
        | some q ↦ elim (or_null q.dead_letter_queue) [ none ↦ s | some dlq ↦ waking dlq s ]
      ]
    ] in
    if result.retried then retried else if result.dead_lettered then buried else s

unfoldable pub fail_call :
    Bool
    → ℕ
    → String
    → String
    → String
    → Option ℤ
    → Option String
    → Service
    → Outcome (FailResult × Service)
fail_call available now fresh id error delay token s =
    let failed : Outcome (FailResult × Service) = (do
      (result, db) ← fail now fresh id error delay token s.db
      ok (result, wake_after_fail now id (get_message id s.db) result (record s { db = db }))) in
    if is_db_available available s then failed else ok (no_effect, s)

unfoldable pub force_skip_message :
    Bool → ℕ → String → String → String → Service → Outcome (Bool × Service)
force_skip_message available now fresh id reason s = elim (get_message id s.db) [
  | none ↦ ok (false, s)
  | some m ↦
      let skipped : Outcome (Bool × Service) = (do
        (done, db) ← force_dead_letter now fresh id reason s.db
        let s' : Service = record s { db = db }
        let woken = waking m.queue s'
        let dlq : Option String = elim (get_queue m.queue db) [
          | none ↦ none
          | some q ↦ or_null q.dead_letter_queue
        ]
        let told : Service = elim dlq [ none ↦ woken | some d ↦ waking d woken ]
        ok (done, if done then told else s')) in
      if is_db_available available s then skipped else ok (false, s)
]

-- `new Set([first, …])` of the names that a callback was called with
unfoldable pub as_set : List String → List String → List String
as_set set [] = set
as_set set (q ∷ qs) = as_set (add q set) qs

unfoldable pub retry_dead_letter_messages_call :
    ℕ → (ℕ → String) → String → ℤ → Service → Outcome (ℕ × Service)
retry_dead_letter_messages_call now ids queue limit s = do
  (count, woken, db) ← retry_dead_letter_messages now ids queue limit s.db
  let s' : Service = record s { db = db }
  ok (
    count,
    if ltb 0 count then record s' { wakes = wake_each (as_set (queue ∷ []) woken) s.wakes } else s',
  )

unfoldable pub retry_message_call : Bool → ℕ → String → String → Service → Outcome (Bool × Service)
retry_message_call available now fresh id s =
    let retried : Outcome (Bool × Service) = (do
      (done, woken, db) ← retry_message now fresh id s.db
      let s' : Service = record s { db = db }
      ok (done, if done then record s' { wakes = wake_each (as_set [] woken) s.wakes } else s')) in
    if is_db_available available s then retried else ok (false, s)

unfoldable pub reclaim_orphaned_call :
    Bool → ℕ → (ℕ → String) → Option String → Scope → Service → Outcome (ℕ × Service)
reclaim_orphaned_call available now ids queue scope s =
    let reclaimed : Outcome (ℕ × Service) = (do
      (count, dlqs, db) ← reclaim_orphaned now ids queue scope s.db
      let s' : Service = record s { db = db }
      let woken : Service = elim (or_null queue) [
        | some q ↦ waking q s'
        | none ↦ wake_pending_queues_from_storage available now s'
      ]
      let told : Service = if ltb 0 count then woken else s'
      ok (count, record told { wakes = wake_each (as_set [] dlqs) told.wakes })) in
    if is_db_available available s then reclaimed else ok (0, s)
