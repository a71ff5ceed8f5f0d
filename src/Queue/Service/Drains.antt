-- ===== src/Queue/Service/Drains.antt =====
-- The work of src/queue/QueueService.ts: `drainQueue` claims messages, and `executeClaimedMessage`
-- runs one and settles it. What a handler or a function does is not modelled: its result is an
-- argument.
use nodestack.Prelude.{
  ℕ, ◌+◌, String, Bool, false, List, [], ◌∷◌, Option, none, some, not, ◌||◌, ◌==◌, leb, min,
  if◌then◌else◌, like, is_some, or_default, Outcome, ok, throw, ◌>>=◌,
}
use nodestack.Prelude.Int.{ℤ, pos}
use nodestack.Json.{Json}
use nodestack.Queue.Types.{Queue, Message, or_null}
use nodestack.Queue.Driver.Registry.{get_queue}
use nodestack.Queue.Driver.Claim.{claim}
use nodestack.Queue.Driver.Lease.{complete, defer}
use nodestack.Queue.Service.Wakes.{end_drain}
use nodestack.Queue.Service.Calls.{
  Service, resolve_memory_handler, is_db_available, waking, scheduling, schedule_next_delayed_wake,
  fail_call,
}

-- A queue has a worker: a handler, or a function to run.
unfoldable pub has_worker : String → Service → Bool
has_worker queue s =
    is_some (resolve_memory_handler queue s)
    || elim (get_queue queue s.db) [ none ↦ false | some q ↦ is_some (or_null q.target_function) ]

-- The number of messages that a drain asks for: the concurrency of the queue, and where functions run
-- its messages, at most what the function service has room for (`capacity`, none if there is no
-- function service).
unfoldable pub drain_limit : Option ℕ → Option Queue → ℕ
drain_limit capacity none = 25
drain_limit capacity (some q) =
    let concurrency = (if q.concurrency == 0 then 25 else q.concurrency) in
    elim capacity [
      | none ↦ concurrency
      | some room ↦
          if is_some (or_null q.target_function) then min concurrency room else concurrency
    ]

-- The body of `drainQueue` between `drainingQueues.add` and `finally`.
unfoldable pub drain_body :
    Bool
    → ℕ
    → (ℕ → String)
    → String
    → Option ℕ
    → String
    → Service
    → Outcome (List Message × Service)
drain_body available now tokens worker capacity queue s =
    let config = get_queue queue s.db in
    let limit = drain_limit capacity config in
    let timeout : ℕ = elim config [ none ↦ 30 | some q ↦ q.visibility_timeout_seconds ] in
    let claimed : Outcome (List Message × Service) = (do
      (jobs, db) ← claim now tokens queue worker (pos timeout) (pos limit) s.db
      let s' : Service = record s { db = db }
      ok (
        jobs,
        elim jobs [ [] ↦ schedule_next_delayed_wake available now (some queue) s' | _ ∷ _ ↦ s' ],
      )) in
    if not (has_worker queue s)
    then ok ([], s)
    else if limit == 0
    then ok ([], scheduling (now + 100) s)
    else claimed

-- An error of the body is only logged, and the drain ends either way.
unfoldable pub drain :
    Bool → ℕ → (ℕ → String) → String → Option ℕ → String → Service → List Message × Service
drain available now tokens worker capacity queue s =
    elim (drain_body available now tokens worker capacity queue s) [
      | ok (jobs, s') ↦ (jobs, record s' { wakes = end_drain queue s'.wakes })
      | throw e ↦ ([], record s { wakes = end_drain queue s.wakes })
    ]

-- What `executeQueueMessage` of the function service gives; `body_error` is the text of `body.error`.
pub record FunctionResult : Type 0 where
  pub success : Bool
  pub status_code : ℕ
  pub error : Option String
  pub body : Option Json
  pub body_error : Option String

-- How a message's handler or function ended: with a result, or with an error, which has a status code
-- 429, is a `FunctionConcurrencyLimitError`, or neither.
pub data Run : Type 0 where
  returned : Option Json → Run
  rejected : Bool → String → Run

-- `fallback` is the text that names the function and its status.
unfoldable pub run_of : String → FunctionResult → Run
run_of fallback r =
    let message : String = elim (or_null r.error) [
      | some e ↦ e
      | none ↦ or_default (or_null r.body_error) fallback
    ] in
    if not r.success || leb 400 r.status_code
    then Run.rejected (r.status_code == 429) message
    else Run.returned r.body

-- `isCapacityLimit`
unfoldable pub is_capacity_limit : Bool → String → Bool
is_capacity_limit flagged message = flagged || like message "%concurrency limit reached%"

-- `Math.max(50, Math.min(backoffDelayMs ?? 200, 200))`
unfoldable pub defer_delay : Option Queue → ℕ
defer_delay config =
    let wanted : ℕ = elim config [ none ↦ 200 | some q ↦ min q.backoff_delay_ms 200 ] in
    if leb wanted 50 then 50 else wanted

abbrev pub capacity_note : String
capacity_note = "Serverless function concurrency limit reached (deferred)"

-- What `executeClaimedMessage` does with the outcome, but for the last wake. `config` is the record
-- of the queue as the drain read it. The message's claim token goes with a completion and a failure.
unfoldable pub settle_body :
    Bool → ℕ → String → Message → Option Queue → Run → Service → Outcome Service
settle_body available now fresh job config (Run.returned result) s =
    let (_, db) = complete now job.id result (or_null job.claim_token) s.db in
    ok (if is_db_available available s then record s { db = db } else s)
settle_body available now fresh job config (Run.rejected flagged message) s =
    let delay = defer_delay config in
    let deferred : Outcome Service = (do
      (_, db) ←
          defer now job.id (pos delay) (some (or_default (or_null (some message)) capacity_note))
            s.db
      ok (scheduling (now + delay) (record s { db = db }))) in
    let backoff : Option ℤ = elim config [ none ↦ none | some q ↦ some (pos q.backoff_delay_ms) ] in
    let failed : Outcome Service = (do
      (_, s') ← fail_call available now fresh job.id message backoff (or_null job.claim_token) s
      ok s') in
    if not (is_db_available available s)
    then ok s
    else if is_capacity_limit flagged message
    then deferred
    else failed

-- The queue is woken whether that has thrown or not.
unfoldable pub settle :
    Bool → ℕ → String → String → Message → Option Queue → Run → Service → Service
settle available now fresh queue job config run s =
    let after : Service = elim (settle_body available now fresh job config run s) [
      | ok s' ↦ s'
      | throw e ↦ s
    ] in
    if is_db_available available after then waking queue after else after
