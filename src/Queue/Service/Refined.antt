-- ===== src/Queue/Service/Refined.antt =====
-- src/queue/QueueService.ts refines the driver: every history of requests is one of calls of the
-- driver.
use nodestack.Prelude.{◌≡◌, refl, sym, ap, ◌∙◌, ◌++◌, Bool, List, [], ◌∷◌, none, some, subst}
use nodestack.Queue.Types.{empty_db}
use nodestack.Queue.Lifecycle.Table.{IsConsistent}
use nodestack.Queue.Lifecycle.History.{Call, run, upserts, run-IsConsistent}
use nodestack.Queue.Driver.Reclaim.{Scope}
use nodestack.Queue.Service.Calls.{Service, reclaim_orphaned_call, wake_pending_queues_from_storage}
use nodestack.Queue.Service.Forwards.{quietly, cleanup_call, reclaim_sweep, cleanup_sweep}
use nodestack.Queue.Service.Requests.{
  Request, serve, serve_all, on_upsert, on_delete, on_register, on_register_prefix, on_unregister,
  on_unregister_prefix, on_send, on_send_batch, on_claim, on_touch, on_complete, on_fail, on_skip,
  on_cancel, on_defer, on_retry_dead, on_retry, on_reclaim, on_cleanup, on_purge, on_wake_all,
  on_start, on_reset, on_drain, on_settle, on_reclaim_sweep, on_cleanup_sweep, on_timer, on_event,
}
use nodestack.Queue.Service.Stored.{run-append, Reaches, Reaches-none, wake_pending-SameDb}
use nodestack.Queue.Service.Served.{
  upsert_queue-IsServed, delete_queue-Reaches, register_worker-Reaches, send-IsServed,
  send_batch-IsServed, claim-IsServed, touch-IsServed, complete-Reaches, fail-IsServed,
  skip-IsServed, cancel-Reaches, defer-IsServed, retry_dead-IsServed, retry-IsServed,
  reclaim-IsServed, cleanup-IsServed, purge-Reaches,
}
use nodestack.Queue.Service.Asked.{Asked, Answers}
use nodestack.Queue.Service.Worked.{Comes, then_same, drain-Comes, settle-Comes}
use nodestack.Queue.Service.Started.{start-Comes, reset-Comes, timer-Comes, swept-Comes}

-- Each request makes only the calls of the driver that it is for.
pub serve-Comes :
    (available : Bool) (r : Request) (s : Service)
    → Comes (Asked available r) s (serve available r s)
unfolding serve Comes reclaim_sweep cleanup_sweep
serve-Comes available (on_upsert now dto) s =
    upsert_queue-IsServed _ now dto s (Asked.upsert now dto)
serve-Comes available (on_delete name) s = delete_queue-Reaches _ name s (Asked.delete name)
serve-Comes available (on_register now name options) s =
    register_worker-Reaches _ available now name options s (λ dto e on.
      subst
        (λ o. Asked available (on_register now name o) (upserts now (record dto { name = name })))
        (sym e) (Asked.register now name dto on))
serve-Comes available (on_register_prefix prefix) s = Reaches-none _ s.db
serve-Comes available (on_unregister name) s = Reaches-none _ s.db
serve-Comes available (on_unregister_prefix prefix) s = Reaches-none _ s.db
serve-Comes available (on_send now fresh dto) s =
    send-IsServed _ now fresh dto s (Asked.send_one now fresh dto)
serve-Comes available (on_send_batch now ids dtos) s =
    send_batch-IsServed _ now ids dtos s (Asked.send_all now ids dtos)
serve-Comes available (on_claim now tokens queue worker visibility limit) s =
    claim-IsServed _ now tokens queue worker visibility limit s
      (Asked.claim now tokens queue worker visibility limit)
serve-Comes available (on_touch now id extension token) s =
    touch-IsServed _ available now id extension token s (Asked.touch now id extension token)
serve-Comes available (on_complete now id result token) s =
    complete-Reaches _ available now id result token s (Asked.complete now id result token)
serve-Comes available (on_fail now fresh id error delay token) s =
    fail-IsServed _ available now fresh id error delay token s
      (Asked.fail now fresh id error delay token)
serve-Comes available (on_skip now fresh id reason) s =
    skip-IsServed _ available now fresh id reason s (Asked.skip now fresh id reason)
serve-Comes available (on_cancel id) s = cancel-Reaches _ available id s (Asked.cancel id)
serve-Comes available (on_defer now id delay reason) s =
    defer-IsServed _ available now id delay reason s (Asked.defer now id delay reason)
serve-Comes available (on_retry_dead now ids queue limit) s =
    retry_dead-IsServed _ now ids queue limit s (Asked.retry_dead now ids queue limit)
serve-Comes available (on_retry now fresh id) s =
    retry-IsServed _ available now fresh id s (Asked.retry now fresh id)
serve-Comes available (on_reclaim now ids queue scope) s =
    reclaim-IsServed _ available now ids queue scope s (Asked.reclaim now ids queue scope)
serve-Comes available (on_cleanup now retention days queue) s =
    cleanup-IsServed _ available now retention days queue s (Asked.cleanup now retention days queue)
serve-Comes available (on_purge queue status) s =
    purge-Reaches _ available queue status s (Asked.purge queue status)
serve-Comes available (on_wake_all now) s =
    then_same _ s s (wake_pending_queues_from_storage available now s) (Reaches-none _ s.db)
      (wake_pending-SameDb available now s)
serve-Comes available (on_start now ids days) s =
    start-Comes _ available now ids days s (Asked.start_reclaims now ids days)
      (Asked.start_cleans now ids days)
serve-Comes available (on_reset now ids) s =
    reset-Comes _ available now ids s (Asked.reset_reclaims now ids)
serve-Comes available (on_drain now tokens worker capacity queue) s =
    drain-Comes _ available now tokens worker capacity queue s
      (Asked.drain_claims now tokens worker capacity queue)
serve-Comes available (on_settle now fresh queue job config result) s =
    settle-Comes _ available now fresh queue job config result s (λ c a. a)
serve-Comes available (on_reclaim_sweep now ids) s =
    swept-Comes _ s available
      (quietly s (reclaim_orphaned_call available now ids none Scope.expired_only s))
      (λ _.
        reclaim-IsServed _ available now ids none Scope.expired_only s
          (Asked.sweep_reclaims now ids))
serve-Comes available (on_cleanup_sweep now retention) s =
    swept-Comes _ s available
      (quietly s (cleanup_call available now retention (some retention) none s))
      (λ _.
        cleanup-IsServed _ available now retention (some retention) none s
          (Asked.sweep_cleans now retention))
serve-Comes available (on_timer now) s = timer-Comes _ available now s
serve-Comes available (on_event e) s = Reaches-none _ s.db

-- Whatever the service is asked, what it does to the database is what some calls of the driver do, one
-- after another, each of which is one that its request is for: with the arguments of the request, but for
-- the visibility and limit of a drain's claim and the reason of a deferral, which are left open; and
-- for most requests only while the database is there. What becomes of a message is reported under
-- the message's claim token, and the sweeper reclaims only what has an expired lease.
pub serve_all-refines :
    (rs : List (Bool × Request)) (s : Service)
    → (cs : List Call) × Answers rs cs × (run s.db cs ≡ (serve_all rs s).db)
unfolding serve_all Comes Reaches run
serve_all-refines [] s = ([], Answers.no_more, refl)
serve_all-refines ((available, r) ∷ rs) s =
    let (cs, asked, e) = serve-Comes available r s in
    let (ds, answers, f) = serve_all-refines rs (serve available r s) in
    (cs ++ ds, Answers.first cs ds asked answers, run-append s.db cs ds ∙ ap (λ x. run x ds) e ∙ f)

-- Whatever a service that begins with empty tables is asked and does, the tables are consistent.
serve_all-IsConsistent :
    (rs : List (Bool × Request)) (s : Service) → s.db ≡ empty_db → IsConsistent (serve_all rs s).db
serve_all-IsConsistent rs s e =
    let (cs, _, f) = serve_all-refines rs s in subst IsConsistent (rw (← e) f) (run-IsConsistent cs)
