-- ===== src/Flows/Recovery.antt =====
-- src/flows/FlowService.ts, `resolveResumeState`: where an execution that was stored goes on.
pub mod Resumed
use nodestack.Prelude.{
  ℕ, zero, suc, String, Bool, true, List, [], ◌∷◌, Option, none, some, if◌then◌else◌, is_some,
  length, or_default,
}
use nodestack.Prelude.Int.{ℤ}
use nodestack.Json.{Json, null, obj, end}
use nodestack.Flows.Types.{
  FlowState, flow_state, task, choice, map_items, loop, parallel, pass, wait, succeed, fail,
  FlowDefinition,
}
use nodestack.Flows.Choices.{find_next_state}
use nodestack.Flows.Handlers.{Counters}
use nodestack.Flows.Runs.{Run, StepLog, Resume, named, or_empty_object, checkpoint}
use nodestack.Flows.Engine.{find_state}

-- `FlowCheckpoint`
pub record Checkpoint : Type 0 where
  pub checkpoint_state : Option String
  pub checkpoint_payload : Option Json
  pub checkpoint_count : Option ℕ
  pub checkpoint_counters : Counters

-- What is stored of an execution.
pub record Stored : Type 0 where
  pub saved : Option Checkpoint
  pub stored_logs : List StepLog
  pub stored_input : Option Json
  pub stored_output : Option Json

-- Why the execution is aborted, and an error thrown.
pub data Reason : Type 0 where
  no_choice no_longer_there no_next state_unknown : Reason

pub data Resolution : Type 0 where
  is_completed : Resolution
  resumes : Resume → Resolution
  is_aborted : Reason → Resolution

abbrev pub no_counters : Counters
no_counters k = 0

abbrev pub counters_of : Option Checkpoint → Counters
counters_of none = no_counters
counters_of (some c) = c.checkpoint_counters

abbrev pub count_of : Option Checkpoint → ℕ
count_of none = 0
count_of (some c) = or_default c.checkpoint_count 0

-- `exec.checkpoint?.stepCount || exec.stepLogs.length`
abbrev pub count_or_logs : ℕ → List StepLog → ℕ
count_or_logs zero logs = length logs
count_or_logs (suc n) logs = suc n

-- The state is looked up, and the options to resume are put together.
unfoldable pub resume_at : Stored → FlowDefinition → Option String → Option Json → Resolution
unfolding find_state
resume_at e definition none payload = is_aborted state_unknown
resume_at e definition (some name) payload =
    if is_some (find_state name definition.all_states)
    then resumes (record {
      state_name = name;
      resumed_payload = payload;
      resumed_count = some (count_or_logs (count_of e.saved) e.stored_logs);
      resumed_counters = counters_of e.saved;
      resumed_logs = e.stored_logs;
    })
    else is_aborted state_unknown

abbrev pub last_log : StepLog → List StepLog → StepLog
last_log l [] = l
last_log l (m ∷ ms) = last_log m ms

abbrev pub or_value : Option Json → Option Json → Option Json
or_value none other = other
or_value (some v) other = some v

-- `value ?? other`
abbrev pub or_other : Option Json → Option Json → Option Json
or_other none other = other
or_other (some null) other = other
or_other (some v) other = some v

abbrev pub empty_object : Option Json
empty_object = some (obj end)

abbrev pub is_terminal : FlowState → Bool
is_terminal (flow_state b succeed) = true
is_terminal (flow_state b (task f e r retry catch)) = b.is_end
is_terminal (flow_state b (choice cs d)) = b.is_end
is_terminal (flow_state b (map_items p m s i retry catch)) = b.is_end
is_terminal (flow_state b (loop t c m)) = b.is_end
is_terminal (flow_state b (parallel bs retry catch)) = b.is_end
is_terminal (flow_state b (pass r)) = b.is_end
is_terminal (flow_state b (wait s)) = b.is_end
is_terminal (flow_state b (fail e c)) = b.is_end

-- The state and the payload that a checkpoint gives. An undefined payload is that of the execution.
abbrev pub saved_state : Option Checkpoint → Option String
saved_state none = none
saved_state (some c) = named c.checkpoint_state

abbrev pub saved_payload : Stored → Option Json
saved_payload e =
    or_value (elim e.saved [ none ↦ none | some c ↦ c.checkpoint_payload ])
      (or_other e.stored_output (or_other e.stored_input empty_object))

module _ (parse_number : Json → Option ℤ) where
  -- A static next state, or nothing to go on with.
  abbrev pub resume_static : Stored → FlowDefinition → StepLog → Option String → Resolution
  resume_static e definition l none = is_aborted no_next
  resume_static e definition l (some next) =
      resume_at e definition (some next) (or_empty_object l.output)

  abbrev pub resume_branch : Stored → FlowDefinition → Option Json → Option String → Resolution
  resume_branch e definition payload none = is_aborted no_choice
  resume_branch e definition payload (some next) = resume_at e definition (some next) payload

  -- The last step succeeded, and its log names no next state.
  unfoldable pub resume_after : Stored → FlowDefinition → StepLog → Option FlowState → Resolution
  unfolding resume_at find_next_state
  resume_after e definition l none = is_aborted no_longer_there
  resume_after e definition l (some (flow_state b kind)) =
      let payload = or_value l.output (or_other l.input empty_object) in
      if is_terminal (flow_state b kind) then is_completed else elim kind [
        | choice rs default ↦
            resume_branch e definition payload
              (named (find_next_state parse_number rs default payload))
        | task f el r retry catch ↦ resume_static e definition l (named b.next)
        | map_items p m s i retry catch ↦ resume_static e definition l (named b.next)
        | loop t c m ↦ resume_static e definition l (named b.next)
        | parallel bs retry catch ↦ resume_static e definition l (named b.next)
        | pass r ↦ resume_static e definition l (named b.next)
        | wait s ↦ resume_static e definition l (named b.next)
        | succeed ↦ resume_static e definition l (named b.next)
        | fail er c ↦ resume_static e definition l (named b.next)
      ]

  abbrev pub resume_logged : Stored → FlowDefinition → StepLog → Option String → Resolution
  resume_logged e definition l (some next) =
      resume_at e definition (some next) (or_empty_object l.output)
  resume_logged e definition l none =
      resume_after e definition l (find_state l.step definition.all_states)

  abbrev pub resume_by_logs : Stored → FlowDefinition → List StepLog → Resolution
  resume_by_logs e definition [] =
      resume_at e definition (named (some definition.start_at)) (or_empty_object e.stored_input)
  resume_by_logs e definition (l ∷ ls) =
      let last = last_log l ls in
      if last.is_failed
      then resume_at e definition (named (some last.step)) (or_empty_object last.input)
      else resume_logged e definition last (named last.next_state)

  abbrev pub resume_from : Stored → FlowDefinition → Option String → Resolution
  resume_from e definition (some name) = resume_at e definition (some name) (saved_payload e)
  resume_from e definition none = resume_by_logs e definition e.stored_logs

  unfoldable pub resolve_resume_state : Stored → FlowDefinition → Resolution
  unfolding resume_at resume_after find_state
  resolve_resume_state e definition = resume_from e definition (saved_state e.saved)

abbrev pub saved_checkpoint : Option (String × Option Json × ℕ × Counters) → Option Checkpoint
saved_checkpoint none = none
saved_checkpoint (some (name, payload, n, counters)) = some (record {
  checkpoint_state = some name;
  checkpoint_payload = payload;
  checkpoint_count = some n;
  checkpoint_counters = counters;
})

-- An execution that threw, as `execute` gives it back.
abbrev pub stored_run : Option Json → Run → Stored
stored_run input r = record {
  saved = saved_checkpoint (checkpoint r);
  stored_logs = r.logs;
  stored_input = input;
  stored_output = r.payload;
}
