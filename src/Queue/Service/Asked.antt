-- ===== src/Queue/Service/Asked.antt =====
-- Which calls of the driver each request to src/queue/QueueService.ts is for, with their arguments: a
-- settled message is completed and failed under its claim token, and a sweep reclaims only messages
-- whose lease has run out.
use nodestack.Prelude.{
  ℕ, ◌≡◌, ◌=ₜ◌, String, Bool, true, false, List, [], ◌∷◌, ◌++◌, Option, none, some, All, trim,
  or_default,
}
use nodestack.Prelude.Int.{ℤ, pos}
use nodestack.Json.{Json}
use nodestack.Queue.Types.{Queue, CreateQueue, Message, EnqueueMessage, or_null}
use nodestack.Queue.Lifecycle.History.{
  Call, upserts, deletes_queue, sends, sends_batch, claims, touches, completes, fails, force_skips,
  cancels, defers, retries, retries_dead, reclaims, cleans, purges,
}
use nodestack.Queue.Driver.Reclaim.{Scope}
use nodestack.Queue.Service.Start.{is_flow_queue}
use nodestack.Queue.Service.Drains.{returned, rejected, is_capacity_limit, defer_delay}
use nodestack.Queue.Service.Requests.{
  Request, on_upsert, on_delete, on_register, on_send, on_send_batch, on_claim, on_touch,
  on_complete, on_fail, on_skip, on_cancel, on_defer, on_retry_dead, on_retry, on_reclaim,
  on_cleanup, on_purge, on_start, on_reset, on_drain, on_settle, on_reclaim_sweep, on_cleanup_sweep,
}

-- The delay of a queue whose record was read, for the retry of a message.
abbrev pub own_delay : Option Queue → Option ℤ
own_delay none = none
own_delay (some q) = some (pos q.backoff_delay_ms)

-- Most calls are made only while the database is there. The reasons of deferred messages, and the
-- limits of the claims of a drain, are left open.
pub data Asked (available : Bool) : Request → Call → Type 0 where
  upsert :
      (now : ℕ) (dto : CreateQueue)
      → Asked available (on_upsert now dto) (upserts now (record dto { name = trim dto.name }))
  delete : (name : String) → Asked available (on_delete name) (deletes_queue name)
  register :
      (now : ℕ) (name : String) (dto : CreateQueue)
      → available ≡ true
      → Asked available (on_register now name (some dto)) (upserts now (record dto { name = name }))
  send_one :
      (now : ℕ) (fresh : String) (dto : EnqueueMessage)
      → (trim dto.queue =ₜ "") ≡ false
      → Asked available
          (on_send now fresh dto)
          (sends now fresh (record dto { queue = trim dto.queue }))
  send_all :
      (now : ℕ) (ids : ℕ → String) (dtos : List EnqueueMessage)
      → Asked available (on_send_batch now ids dtos) (sends_batch now ids dtos)
  claim :
      (now : ℕ) (tokens : ℕ → String) (queue worker : String) (visibility limit : ℤ)
      → Asked available
          (on_claim now tokens queue worker visibility limit)
          (claims now tokens queue worker visibility limit)
  touch :
      (now : ℕ) (id : String) (extension : ℕ) (token : Option String)
      → available ≡ true
      → Asked available (on_touch now id extension token) (touches now id extension token)
  complete :
      (now : ℕ) (id : String) (result : Option Json) (token : Option String)
      → available ≡ true
      → Asked available (on_complete now id result token) (completes now id result token)
  fail :
      (now : ℕ) (fresh id error : String) (delay : Option ℤ) (token : Option String)
      → available ≡ true
      → Asked available
          (on_fail now fresh id error delay token)
          (fails now fresh id error delay token)
  skip :
      (now : ℕ) (fresh id reason : String)
      → available ≡ true
      → Asked available (on_skip now fresh id reason) (force_skips now fresh id reason)
  cancel : (id : String) → available ≡ true → Asked available (on_cancel id) (cancels id)
  defer :
      (now : ℕ) (id : String) (delay : ℤ) (reason : Option String)
      → available ≡ true
      → Asked available (on_defer now id delay reason) (defers now id delay reason)
  retry_dead :
      (now : ℕ) (ids : ℕ → String) (queue : String) (limit : ℤ)
      → Asked available (on_retry_dead now ids queue limit) (retries_dead now ids queue limit)
  retry :
      (now : ℕ) (fresh id : String)
      → available ≡ true
      → Asked available (on_retry now fresh id) (retries now fresh id)
  reclaim :
      (now : ℕ) (ids : ℕ → String) (queue : Option String) (scope : Scope)
      → available ≡ true
      → Asked available (on_reclaim now ids queue scope) (reclaims now ids queue scope)
  cleanup :
      (now : ℕ) (retention : ℤ) (days : Option ℤ) (queue : Option String)
      → available ≡ true
      → Asked available
          (on_cleanup now retention days queue)
          (cleans now (or_default days retention) queue)
  purge :
      (queue : String) (status : Option String)
      → available ≡ true
      → Asked available (on_purge queue status) (purges queue status)
  start_reclaims :
      (now : ℕ) (ids : String → ℕ → String) (days : ℤ) (queue : String)
      → available ≡ true
      → is_flow_queue queue ≡ false
      → Asked available
          (on_start now ids days)
          (reclaims now (ids queue) (some queue) Scope.dead_workers)
  start_cleans :
      (now : ℕ) (ids : String → ℕ → String) (days : ℤ)
      → available ≡ true
      → Asked available (on_start now ids days) (cleans now days none)
  reset_reclaims :
      (now : ℕ) (ids : ℕ → String)
      → available ≡ true
      → Asked available (on_reset now ids) (reclaims now ids none Scope.force_all)
  drain_claims :
      (now : ℕ) (tokens : ℕ → String) (worker : String) (capacity : Option ℕ) (queue : String)
      (timeout limit : ℕ)
      → Asked available
          (on_drain now tokens worker capacity queue)
          (claims now tokens queue worker (pos timeout) (pos limit))
  settle_completes :
      (now : ℕ) (fresh queue : String) (job : Message) (config : Option Queue)
      (result : Option Json)
      → available ≡ true
      → Asked available
          (on_settle now fresh queue job config (returned result))
          (completes now job.id result (or_null job.claim_token))
  settle_defers :
      (now : ℕ) (fresh queue : String) (job : Message) (config : Option Queue) (flagged : Bool)
      (message : String) (reason : Option String)
      → available ≡ true
      → is_capacity_limit flagged message ≡ true
      → Asked available
          (on_settle now fresh queue job config (rejected flagged message))
          (defers now job.id (pos (defer_delay config)) reason)
  settle_fails :
      (now : ℕ) (fresh queue : String) (job : Message) (config : Option Queue) (flagged : Bool)
      (message : String)
      → available ≡ true
      → is_capacity_limit flagged message ≡ false
      → Asked available
          (on_settle now fresh queue job config (rejected flagged message))
          (fails now fresh job.id message (own_delay config) (or_null job.claim_token))
  sweep_reclaims :
      (now : ℕ) (ids : ℕ → String)
      → available ≡ true
      → Asked available (on_reclaim_sweep now ids) (reclaims now ids none Scope.expired_only)
  sweep_cleans :
      (now : ℕ) (retention : ℤ)
      → available ≡ true
      → Asked available (on_cleanup_sweep now retention) (cleans now retention none)

-- The calls of the driver that some requests are for: those of each request behind those of the one
-- before it.
pub data Answers : List (Bool × Request) → List Call → Type 0 where
  no_more : Answers [] []
  first :
      {available : Bool} {r : Request} {rs : List (Bool × Request)} (cs ds : List Call)
      → All (Asked available r) cs
      → Answers rs ds
      → Answers ((available, r) ∷ rs) (cs ++ ds)
