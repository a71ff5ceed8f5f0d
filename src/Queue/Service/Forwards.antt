-- ===== src/Queue/Service/Forwards.antt =====
-- The calls of src/queue/QueueService.ts that only pass on to the driver what they are asked, some of
-- them while the database is there, and the rounds of the two sweepers.
use nodestack.Prelude.{
  ℕ, String, Bool, false, List, Option, none, some, map, or_default, if◌then◌else◌, Outcome, ok,
  throw, ◌>>=◌,
}
use nodestack.Prelude.Int.{ℤ}
use nodestack.Queue.Types.{Queue, CreateQueue, Message, Stats, Db}
use nodestack.Queue.Driver.Registry.{get_all_queues}
use nodestack.Queue.Driver.Claim.{claim}
use nodestack.Queue.Driver.Lease.{touch, defer}
use nodestack.Queue.Driver.Reclaim.{Scope}
use nodestack.Queue.Driver.Remove.{cancel, cleanup, purge}
use nodestack.Queue.Driver.Reads.{get_stats}
use nodestack.Queue.Service.Calls.{
  Service, is_db_available, reclaim_orphaned_call, upsert_queue_call, force_skip_message,
  retry_dead_letter_messages_call, retry_message_call,
}

-- The database that a call leaves, with its result.
abbrev pub storing {ℓ} : {A : Type ℓ} → Service → A × Db → A × Service
storing s (a, db) = (a, record s { db = db })

-- `getAllQueues`, each with its statistics.
unfoldable pub get_all_queues_call : Bool → Service → List (Queue × Stats)
get_all_queues_call include_system s =
    map (λ q. (q, get_stats (some q.name) false s.db)) (get_all_queues include_system s.db)

unfoldable pub claim_call :
    ℕ → (ℕ → String) → String → String → ℤ → ℤ → Service → Outcome (List Message × Service)
claim_call now tokens queue worker visibility limit s = do
  r ← claim now tokens queue worker visibility limit s.db
  ok (storing s r)

unfoldable pub touch_call :
    Bool → ℕ → String → ℕ → Option String → Service → Outcome (Bool × Service)
touch_call available now id extension token s =
    let touched : Outcome (Bool × Service) = (do
      r ← touch now id extension token s.db
      ok (storing s r)) in
    if is_db_available available s then touched else ok (false, s)

unfoldable pub cancel_call : Bool → String → Service → Bool × Service
cancel_call available id s =
    if is_db_available available s then storing s (cancel id s.db) else (false, s)

unfoldable pub defer_call :
    Bool → ℕ → String → ℤ → Option String → Service → Outcome (Bool × Service)
defer_call available now id delay reason s =
    let deferred : Outcome (Bool × Service) = (do
      r ← defer now id delay reason s.db
      ok (storing s r)) in
    if is_db_available available s then deferred else ok (false, s)

-- `retention` is the number of days of the configuration, or 7.
unfoldable pub cleanup_call :
    Bool → ℕ → ℤ → Option ℤ → Option String → Service → Outcome (ℕ × Service)
cleanup_call available now retention days queue s =
    let cleaned : Outcome (ℕ × Service) = (do
      r ← cleanup now (or_default days retention) queue s.db
      ok (storing s r)) in
    if is_db_available available s then cleaned else ok (0, s)

unfoldable pub purge_call : Bool → String → Option String → Service → ℕ × Service
purge_call available queue status s =
    if is_db_available available s then storing s (purge queue status s.db) else (0, s)

-- A round of a sweeper, whose errors are ignored.
abbrev pub quietly {ℓ} : {A : Type ℓ} → Service → Outcome (A × Service) → Service
quietly s (ok (a, s')) = s'
quietly s (throw e) = s

unfoldable pub reclaim_sweep : Bool → ℕ → (ℕ → String) → Service → Service
reclaim_sweep available now ids s =
    let swept = quietly s (reclaim_orphaned_call available now ids none Scope.expired_only s) in
    if is_db_available available s then swept else s

unfoldable pub cleanup_sweep : Bool → ℕ → ℤ → Service → Service
cleanup_sweep available now retention s =
    let swept = quietly s (cleanup_call available now retention (some retention) none s) in
    if is_db_available available s then swept else s

-- Second names of calls: `createQueue`, `deleteMessage`, `forceDeadLetter`, `retryDeadLetterJobs` and
-- `retryJob`.
abbrev create_queue : ℕ → CreateQueue → Service → Outcome (Option Queue × Service)
create_queue now dto s = upsert_queue_call now dto s

abbrev delete_message : Bool → String → Service → Bool × Service
delete_message available id s = cancel_call available id s

abbrev force_dead_letter_message :
    Bool → ℕ → String → String → String → Service → Outcome (Bool × Service)
force_dead_letter_message available now fresh id reason s =
    force_skip_message available now fresh id reason s

abbrev retry_dead_letter_jobs : ℕ → (ℕ → String) → String → ℤ → Service → Outcome (ℕ × Service)
retry_dead_letter_jobs now ids queue limit s = retry_dead_letter_messages_call now ids queue limit s

abbrev retry_job : Bool → ℕ → String → String → Service → Outcome (Bool × Service)
retry_job available now fresh id s = retry_message_call available now fresh id s
