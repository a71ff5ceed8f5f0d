-- ===== src/Queue/Service/Settling.antt =====
-- What becomes of a message that src/queue/QueueService.ts could not run for want of capacity.
use nodestack.Prelude.{
  ℕ, ◌+◌, ◌≤◌, ◌≡◌, refl, String, Bool, true, false, Option, none, some, arith, has, or_default, ok,
}
use nodestack.Time.{to_iso, latest}
use nodestack.Queue.Types.{Queue, Message, or_null}
use nodestack.Queue.Driver.Conditions.{find_message, held}
use nodestack.Queue.Driver.Lease.{update_messages, deferred, defer}
use nodestack.Queue.Lookup.{update_messages-row}
use nodestack.Queue.Service.Wakes.{schedule_delayed_at}
use nodestack.Queue.Service.Calls.{Service, is_db_available, waking, scheduling}
use nodestack.Queue.Service.Drains.{
  rejected, is_capacity_limit, defer_delay, capacity_note, settle_body, settle,
}
use nodestack.Queue.Service.Waking.{
  IsTimedBy, schedule-IsTimedBy, wake_worker-pending, wake_worker-timer, schedule-live,
}

module _ (available : Bool) (now : ℕ) (fresh queue message : String) (job m : Message)
    (config : Option Queue) (flagged : Bool) (s : Service)
    (there : is_db_available available s ≡ true) (live : s.wakes.disposed ≡ false)
    (full : is_capacity_limit flagged message ≡ true)
    (found : find_message job.id s.db.messages ≡ some m) (mine : held job.id none m ≡ true)
    (range : now + defer_delay config ≤ latest) where
  abbrev pub again_at : ℕ
  again_at = now + defer_delay config

  abbrev pub note : Option String
  note = some (or_default (or_null (some message)) capacity_note)

  put_back : Service
  put_back =
      scheduling again_at
        (record s { db = (update_messages (held job.id none) (deferred now again_at note) s.db).1 })

  settles : settle_body available now fresh job config (rejected flagged message) s ≡ ok put_back
  unfolding settle_body defer to_iso put_back
  settles = rw (there, full) (ground (arith, range))

  still_there : is_db_available available put_back ≡ true
  unfolding is_db_available put_back
  still_there = let alive = schedule-live again_at s.wakes live in ground (arith, there, alive)

  settle_lem :
      settle available now fresh queue job config (rejected flagged message) s
      ≡ waking queue put_back
  unfolding settle
  settle_lem = rw (settles, still_there) refl

  pub settle_defers :
      let s' = settle available now fresh queue job config (rejected flagged message) s in
      (find_message job.id s'.db.messages ≡ some (deferred now again_at note m))
      × IsTimedBy again_at s'.wakes.timer
      × (has queue s'.wakes.pending ≡ true)
  unfolding put_back
  settle_defers =
      let set = schedule_delayed_at again_at s.wakes in
      rw settle_lem (
        (update_messages-row (held job.id none) (deferred now again_at note) job.id m s.db
            (λ n. refl) found mine).1,
        rw (wake_worker-timer queue set) (schedule-IsTimedBy again_at s.wakes live),
        wake_worker-pending queue set (schedule-live again_at s.wakes live),
      )

-- The delay is between 50 and 200 milliseconds.
pub defer_delay_bounds :
    (config : Option Queue) → (50 ≤ defer_delay config) × (defer_delay config ≤ 200)
unfolding defer_delay
defer_delay_bounds none = (omega arith, omega arith)
defer_delay_bounds (some q) = (ground arith, ground arith)
