-- ===== src/Queue/Service/Start.antt =====
-- `start` and `resetAfterRestore` of src/queue/QueueService.ts. The driver's `init` only makes tables
-- and indexes that are not there, and the sweepers are timers that make the calls of Calls.antt again.
use nodestack.Prelude.{
  ℕ, String, Bool, true, List, [], ◌∷◌, none, some, if◌then◌else◌, codes, starts_with, ok, throw,
}
use nodestack.Prelude.Int.{ℤ}
use nodestack.Queue.Types.{Queue}
use nodestack.Queue.Driver.Registry.{get_all_queues}
use nodestack.Queue.Driver.Reclaim.{Scope}
use nodestack.Queue.Driver.Remove.{cleanup}
use nodestack.Queue.Service.Wakes.{started, restored}
use nodestack.Queue.Service.Calls.{
  Service, reclaim_orphaned_call, wake_pending_queues_from_storage, schedule_next_delayed_wake,
}

-- `_system:flow:` queues are left to the flow service.
unfoldable pub is_flow_queue : String → Bool
is_flow_queue name = starts_with (codes name) (codes "_system:flow:")

-- The loop of `start` over the queues, up to the first error. `ids k` gives the ids that are
-- generated for the k-th of them.
unfoldable pub reclaim_queues : Bool → ℕ → (String → ℕ → String) → List Queue → Service → Service
reclaim_queues available now ids [] s = s
reclaim_queues available now ids (q ∷ qs) s =
    let skipped = reclaim_queues available now ids qs s in
    let reclaimed : Service =
      elim (reclaim_orphaned_call available now (ids q.name) (some q.name) Scope.dead_workers s) [
        | ok (_, s') ↦ reclaim_queues available now ids qs s'
        | throw e ↦ s
      ] in
    if is_flow_queue q.name then skipped else reclaimed

-- The start-up cleanup, an error of which is ignored.
unfoldable pub start_cleanup : ℕ → ℤ → Service → Service
start_cleanup now days s = elim (cleanup now days none s.db) [
  | ok (_, db) ↦ record s { db = db }
  | throw e ↦ s
]

unfoldable pub start : Bool → ℕ → (String → ℕ → String) → ℤ → Service → Service
start available now ids days s =
    let awake : Service = record s { wakes = started s.wakes } in
    let swept =
      start_cleanup now days
        (reclaim_queues available now ids (get_all_queues true awake.db) awake) in
    let ready : Service = if available then swept else awake in
    schedule_next_delayed_wake available now none
      (wake_pending_queues_from_storage available now ready)

unfoldable pub reset_after_restore : Bool → ℕ → (ℕ → String) → Service → Service
reset_after_restore available now ids s =
    let awake : Service = record s { wakes = restored s.wakes } in
    let reclaimed : Service =
      elim (reclaim_orphaned_call available now ids none Scope.force_all awake) [
        | ok (_, s') ↦ s'
        | throw e ↦ awake
      ] in
    if available
    then schedule_next_delayed_wake available now none
        (wake_pending_queues_from_storage available now reclaimed)
    else awake
