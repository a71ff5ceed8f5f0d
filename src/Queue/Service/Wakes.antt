-- ===== src/Queue/Service/Wakes.antt =====
-- The transient state of src/queue/QueueService.ts: which queues are to be drained, which are being
-- drained, and the timer. The callbacks that `setImmediate` has taken and the drains that have begun
-- and not ended are the list `immediates`, oldest first, and the list `running`.
use nodestack.Prelude.{
  has, add, remove, remove_one, ℕ, String, Bool, true, false, List, [], ◌∷◌, ◌++◌, Option, none,
  some, not, ◌&&◌, ◌||◌, if◌then◌else◌, leb,
}

pub record Wakes : Type 0 where
  pub pending : List String
  pub draining : List String
  pub immediates : List String
  pub running : List String
  pub timer : Option ℕ
  pub disposed : Bool

abbrev pub no_wakes : Wakes
no_wakes = record {
  pending = [];
  draining = [];
  immediates = [];
  running = [];
  timer = none;
  disposed = false;
}

unfoldable pub wake_worker : String → Wakes → Wakes
wake_worker q s =
    if s.disposed
    then s
    else if has q s.pending
    then s
    else record s { pending = add q s.pending; immediates = s.immediates ++ q ∷ [] }

-- The start of `drainQueue`, up to the first `await`. `available` is `isDbAvailable()` of a service
-- that is not disposed.
unfoldable pub begin_drain : Bool → String → Wakes → Wakes
begin_drain available q s =
    if s.disposed || not available
    then s
    else if has q s.draining
    then record s { pending = add q s.pending }
    else record s { draining = add q s.draining; running = s.running ++ q ∷ [] }

-- A drain of the queue begins.
abbrev pub begins : Bool → String → Wakes → Bool
begins available q s = not (s.disposed || not available || has q s.draining)

-- The callback of `setImmediate` in `wakeWorker`, for the oldest of them.
unfoldable pub fire_immediate : Bool → Wakes → Wakes
fire_immediate available s = elim s.immediates [
  | [] ↦ s
  | q ∷ later ↦
      begin_drain available q (record s { pending = remove q s.pending; immediates = later })
]

-- The `finally` of `drainQueue`, for a drain that is running.
unfoldable pub end_drain : String → Wakes → Wakes
end_drain q s =
    let ended = record s { running = remove_one q s.running; draining = remove q s.draining } in
    if not (has q s.running)
    then s
    else if has q s.pending && not s.disposed
    then wake_worker q (record ended { pending = remove q s.pending })
    else ended

-- What `deleteQueue` does to the two sets.
unfoldable pub forget_queue : String → Wakes → Wakes
forget_queue q s = record s { pending = remove q s.pending; draining = remove q s.draining }

-- `scheduleDelayedAt`: the timer is moved only to an earlier time.
unfoldable pub schedule_delayed_at : ℕ → Wakes → Wakes
schedule_delayed_at target s =
    let set = record s { timer = some target } in
    if s.disposed then s else elim s.timer [ none ↦ set | some t ↦ if leb t target then s else set ]

-- What the callback of the timer does to it first.
unfoldable pub timer_fired : Wakes → Wakes
timer_fired s = record s { timer = none }

-- What `start` does to this state.
unfoldable pub started : Wakes → Wakes
started s = record s { disposed = false }

-- What `resetAfterRestore` does to it before its first `await`.
unfoldable pub restored : Wakes → Wakes
restored s = record s { pending = []; draining = []; timer = none; disposed = false }

-- What `dispose` does to it. The target of the timer stays, but no timer does.
unfoldable pub disposed_of : Wakes → Wakes
disposed_of s = record s { pending = []; draining = []; timer = none; disposed = true }

-- All that happens to the two sets.
pub data Event : Type 0 where
  wake : String → Event
  fire : Event
  drain_ends : String → Event
  delete : String → Event
  schedule : ℕ → Event
  timer_fires start restore dispose : Event

-- `available` is what `isDbAvailable()` gives at that time.
unfoldable pub step : Bool → Event → Wakes → Wakes
step available (wake q) s = wake_worker q s
step available fire s = fire_immediate available s
step available (drain_ends q) s = end_drain q s
step available (delete q) s = forget_queue q s
step available (schedule t) s = schedule_delayed_at t s
step available timer_fires s = timer_fired s
step available start s = started s
step available restore s = restored s
step available dispose s = disposed_of s

unfoldable pub run : List (Bool × Event) → Wakes → Wakes
run [] s = s
run ((available, e) ∷ es) s = run es (step available e s)
