-- ===== src/Maintenance/Gate.antt =====
-- src/core/maintenance/MaintenanceGate.ts. What happens between two `await`s is one step. A request is
-- its id.
use nodestack.Prelude.{
  ℕ, zero, suc, String, Bool, true, false, List, [], ◌∷◌, ◌++◌, map, ◌&&◌, if◌then◌else◌, has, add,
  remove, remove_one, Outcome, ok, throw, app_error,
}

-- How far a call of `executeExclusive` has come: it waits for the active requests, or its action runs.
-- The action runs `in_time` unless the wait was given up.
pub data Phase : Type 0 where
  draining : Phase
  acting : (in_time : Bool) → Phase

-- The gate. `released` are the requests whose wait is over and that go on at the next turn, oldest
-- first, and `runs` are the calls of `executeExclusive` that are not over.
pub record Gate : Type 0 where
  pub is_gated : Bool
  pub is_executing : Bool
  pub active : List String
  pub waiting : List String
  pub released : List String
  pub runs : List Phase

abbrev pub new_gate : Gate
new_gate = record {
  is_gated = false;
  is_executing = false;
  active = [];
  waiting = [];
  released = [];
  runs = [];
}

abbrev pub is_empty {ℓ} : {A : Type ℓ} → List A → Bool
is_empty [] = true
is_empty (x ∷ xs) = false

-- A wait for the active requests is over.
abbrev pub drained : Phase → Phase
drained draining = acting true
drained (acting t) = acting t

-- `notifyDrain`
abbrev pub notify_drain : Gate → Gate
notify_drain g = record g { runs = map drained g.runs }

-- `flushWaitingQueue`
abbrev pub flush_waiting_queue : Gate → Gate
flush_waiting_queue g = record g { waiting = []; released = g.released ++ g.waiting }

-- `trackRequestStart` up to its `await`
unfoldable pub track_request_start : String → Bool → Gate → Gate
track_request_start id is_exempt g =
    if is_exempt
    then g
    else if g.is_gated
    then record g { waiting = g.waiting ++ id ∷ [] }
    else record g { active = add id g.active }

-- The rest of `trackRequestStart`, for the oldest request whose wait is over.
unfoldable pub resume_request : Gate → Gate
resume_request g = elim g.released [
  | [] ↦ g
  | id ∷ later ↦ record g { released = later; active = add id g.active }
]

-- The timer of a waiting request: it is rejected.
unfoldable pub wait_times_out : String → Gate → Gate
wait_times_out id g = record g { waiting = remove_one id g.waiting }

unfoldable pub track_request_end : String → Gate → Gate
track_request_end id g =
    let g' = record g { active = remove id g.active } in
    if has id g.active
    then (if g.is_gated && is_empty g'.active then notify_drain g' else g')
    else g

-- `executeExclusive` up to its first `await`
unfoldable pub execute_exclusive : Gate → Outcome Gate
execute_exclusive g =
    if g.is_executing
    then throw (app_error "A demo reset or maintenance operation is already in progress.")
    else ok (record g {
      is_executing = true;
      is_gated = true;
      runs = g.runs ++ (if is_empty g.active then acting true else draining) ∷ [];
    })

-- The timer of `drainInFlightRequests`, for the k-th call.
unfoldable pub give_up : ℕ → List Phase → List Phase
give_up k [] = []
give_up zero (draining ∷ ps) = acting false ∷ ps
give_up zero (acting t ∷ ps) = acting t ∷ ps
give_up (suc k) (p ∷ ps) = p ∷ give_up k ps

unfoldable pub drain_times_out : ℕ → Gate → Gate
drain_times_out k g = record g { runs = give_up k g.runs }

-- The k-th call is acting.
unfoldable pub is_acting : ℕ → List Phase → Bool
is_acting k [] = false
is_acting zero (draining ∷ ps) = false
is_acting zero (acting t ∷ ps) = true
is_acting (suc k) (p ∷ ps) = is_acting k ps

unfoldable pub drop_run : ℕ → List Phase → List Phase
drop_run k [] = []
drop_run zero (p ∷ ps) = ps
drop_run (suc k) (p ∷ ps) = p ∷ drop_run k ps

-- The action of the k-th call has returned or thrown: the `finally` of `executeExclusive`.
unfoldable pub action_ends : ℕ → Gate → Gate
action_ends k g =
    if is_acting k g.runs
    then flush_waiting_queue
        (record g { is_gated = false; is_executing = false; runs = drop_run k g.runs })
    else g

unfoldable pub reset : Gate → Gate
reset g =
    notify_drain
      (flush_waiting_queue (record g { is_gated = false; is_executing = false; active = [] }))

pub data GateEvent : Type 0 where
  starts : String → Bool → GateEvent
  resumes : GateEvent
  rejects : String → GateEvent
  ends : String → GateEvent
  executes : GateEvent
  gives_up : ℕ → GateEvent
  finishes : ℕ → GateEvent
  resets : GateEvent

-- A call that throws leaves the gate as it was.
unfoldable pub gate_step : GateEvent → Gate → Gate
gate_step (starts id is_exempt) g = track_request_start id is_exempt g
gate_step resumes g = resume_request g
gate_step (rejects id) g = wait_times_out id g
gate_step (ends id) g = track_request_end id g
gate_step executes g = elim (execute_exclusive g) [ ok g' ↦ g' | throw e ↦ g ]
gate_step (gives_up k) g = drain_times_out k g
gate_step (finishes k) g = action_ends k g
gate_step resets g = reset g

unfoldable pub gate_run : List GateEvent → Gate → Gate
gate_run [] g = g
gate_run (e ∷ es) g = gate_run es (gate_step e g)
