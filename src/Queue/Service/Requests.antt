-- ===== src/Queue/Service/Requests.antt =====
-- All that src/queue/QueueService.ts does: its public calls, the drains and what becomes of their
-- messages, and the sweepers, as requests that are served one after another. The clock, the random
-- source and the outcomes of handlers are part of a request. A call that throws changes nothing.
use nodestack.Prelude.{ℕ, String, Bool, List, [], ◌∷◌, Option}
use nodestack.Prelude.Int.{ℤ}
use nodestack.Json.{Json}
use nodestack.Queue.Types.{Queue, CreateQueue, Message, EnqueueMessage}
use nodestack.Queue.Driver.Reclaim.{Scope}
use nodestack.Queue.Service.Wakes
use nodestack.Queue.Service.Wakes.{Event}
use nodestack.Queue.Service.Calls.{
  Service, upsert_queue_call, delete_queue_call, send_call, send_batch_call, complete_call,
  fail_call, force_skip_message, retry_dead_letter_messages_call, retry_message_call,
  reclaim_orphaned_call, timer_callback,
}
use nodestack.Queue.Service.Drains.{Run, drain, settle}
use nodestack.Queue.Service.Start.{start, reset_after_restore}
use nodestack.Queue.Service.Workers.{
  register_worker, register_prefix_worker, unregister_worker, unregister_prefix_worker,
  wake_all_workers,
}
use nodestack.Queue.Service.Forwards.{
  claim_call, touch_call, cancel_call, defer_call, cleanup_call, purge_call, quietly, reclaim_sweep,
  cleanup_sweep,
}

pub data Request : Type 0 where
  on_upsert : ℕ → CreateQueue → Request
  on_delete : String → Request
  on_register : ℕ → String → Option CreateQueue → Request
  on_register_prefix : String → Request
  on_unregister : String → Request
  on_unregister_prefix : String → Request
  on_send : ℕ → String → EnqueueMessage → Request
  on_send_batch : ℕ → (ℕ → String) → List EnqueueMessage → Request
  on_claim : ℕ → (ℕ → String) → (queue worker : String) → (visibility limit : ℤ) → Request
  on_touch : ℕ → String → ℕ → Option String → Request
  on_complete : ℕ → String → Option Json → Option String → Request
  on_fail : ℕ → (fresh id error : String) → Option ℤ → Option String → Request
  on_skip : ℕ → (fresh id reason : String) → Request
  on_cancel : String → Request
  on_defer : ℕ → String → ℤ → Option String → Request
  on_retry_dead : ℕ → (ℕ → String) → String → ℤ → Request
  on_retry : ℕ → (fresh id : String) → Request
  on_reclaim : ℕ → (ℕ → String) → Option String → Scope → Request
  on_cleanup : ℕ → ℤ → Option ℤ → Option String → Request
  on_purge : String → Option String → Request
  on_wake_all : ℕ → Request
  on_start : ℕ → (String → ℕ → String) → ℤ → Request
  on_reset : ℕ → (ℕ → String) → Request
  on_drain : ℕ → (ℕ → String) → String → Option ℕ → String → Request
  on_settle : ℕ → (fresh queue : String) → Message → Option Queue → Run → Request
  on_reclaim_sweep : ℕ → (ℕ → String) → Request
  on_cleanup_sweep : ℕ → ℤ → Request
  on_timer : ℕ → Request
  on_event : Event → Request

-- `available` is what `isDbAvailable()` gives while the service is not disposed.
unfoldable pub serve : Bool → Request → Service → Service
serve available (on_upsert now dto) s = quietly s (upsert_queue_call now dto s)
serve available (on_delete name) s = (delete_queue_call name s).1
serve available (on_register now name options) s = register_worker available now name options s
serve available (on_register_prefix prefix) s = register_prefix_worker prefix s
serve available (on_unregister name) s = unregister_worker name s
serve available (on_unregister_prefix prefix) s = unregister_prefix_worker prefix s
serve available (on_send now fresh dto) s = quietly s (send_call now fresh dto s)
serve available (on_send_batch now ids dtos) s = quietly s (send_batch_call now ids dtos s)
serve available (on_claim now tokens queue worker visibility limit) s =
    quietly s (claim_call now tokens queue worker visibility limit s)
serve available (on_touch now id extension token) s =
    quietly s (touch_call available now id extension token s)
serve available (on_complete now id result token) s =
    (complete_call available now id result token s).1
serve available (on_fail now fresh id error delay token) s =
    quietly s (fail_call available now fresh id error delay token s)
serve available (on_skip now fresh id reason) s =
    quietly s (force_skip_message available now fresh id reason s)
serve available (on_cancel id) s = (cancel_call available id s).1
serve available (on_defer now id delay reason) s =
    quietly s (defer_call available now id delay reason s)
serve available (on_retry_dead now ids queue limit) s =
    quietly s (retry_dead_letter_messages_call now ids queue limit s)
serve available (on_retry now fresh id) s = quietly s (retry_message_call available now fresh id s)
serve available (on_reclaim now ids queue scope) s =
    quietly s (reclaim_orphaned_call available now ids queue scope s)
serve available (on_cleanup now retention days queue) s =
    quietly s (cleanup_call available now retention days queue s)
serve available (on_purge queue status) s = (purge_call available queue status s).1
serve available (on_wake_all now) s = wake_all_workers available now s
serve available (on_start now ids days) s = start available now ids days s
serve available (on_reset now ids) s = reset_after_restore available now ids s
serve available (on_drain now tokens worker capacity queue) s =
    (drain available now tokens worker capacity queue s).1
serve available (on_settle now fresh queue job config run) s =
    settle available now fresh queue job config run s
serve available (on_reclaim_sweep now ids) s = reclaim_sweep available now ids s
serve available (on_cleanup_sweep now retention) s = cleanup_sweep available now retention s
serve available (on_timer now) s = timer_callback available now s
serve available (on_event e) s = record s { wakes = Wakes.step available e s.wakes }

unfoldable pub serve_all : List (Bool × Request) → Service → Service
serve_all [] s = s
serve_all ((available, r) ∷ rs) s = serve_all rs (serve available r s)
