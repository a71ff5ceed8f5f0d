-- ===== src/Flows/Runs.antt =====
-- src/flows/FlowEngine.ts: the variables of `execute`, and what it gives in the end.
use nodestack.Prelude.{
  length, ℕ, String, Bool, true, false, List, [], ◌∷◌, ◌++◌, Option, none, some, ◌||◌, ◌==◌, ◌=ₜ◌,
  if◌then◌else◌, or_default, codes, ◌*◌,
}
use nodestack.Json.{Json, obj, end}
use nodestack.Flows.Types.{FlowDefinition}
use nodestack.Flows.Errors.{
  FlowError, no_tag, timeout_tag, cancelled_tag, app_error, concat, error_name, includes_text,
}
use nodestack.Flows.Handlers.{Counters, SubResult, output, rejected}
use nodestack.Flows.Retries.{Try}

pub data FlowStatus : Type 0 where
  running succeeded failed timed_out cancelled : FlowStatus

pub record StepLog : Type 0 where
  pub step : String
  pub input : Option Json
  pub output : Option Json
  pub is_failed : Bool
  pub next_state : Option String

-- The variables of `execute`. `snapshot` is the payload before the last step. When it has returned, `status` is that of the execution.
pub record Run : Type 0 where
  pub current : Option String
  pub payload : Option Json
  pub snapshot : Option Json
  pub step_count : ℕ
  pub counters : Counters
  pub logs : List StepLog
  pub status : FlowStatus
  pub error : Option FlowError

-- What one round of the loop meets. `abort_reason` is the reason of a signal that is aborted, empty if
-- it gives none. `shared_count` is the count of the shared step tracker, which
-- sub-flows raise too; `timer_wins` says that the timer of the step ends the race, and `callback`
-- what the callback of the transition throws.
pub record Turn : Type 0 where
  pub abort_reason : Option String
  pub is_late : Bool
  pub shared_count : ℕ
  pub tries : ℕ → Try
  pub timer_wins : Bool
  pub is_late_in_catch : Bool
  pub is_late_after : Bool
  pub callback : Option FlowError
  pub is_late_at_end : Bool

abbrev pub max_step_transitions : ℕ
max_step_transitions = 500

abbrev pub has_status_code : ℕ → FlowError → Bool
has_status_code n e = elim e.status_code [ none ↦ false | some m ↦ m == n ]

unfoldable pub is_timeout : FlowError → Bool
is_timeout e =
    has_status_code 408 e
    || elim e.tag [ timeout_tag ↦ true | no_tag ↦ false | cancelled_tag ↦ false ]

unfoldable pub is_cancelled : FlowError → Bool
is_cancelled e =
    elim e.tag [ cancelled_tag ↦ true | no_tag ↦ false | timeout_tag ↦ false ]
    || has_status_code 499 e

-- The `catch` of `execute`.
unfoldable pub throw_out : FlowError → Run → Run
unfolding is_timeout is_cancelled
throw_out e r = record r {
  status = if is_timeout e then timed_out else if is_cancelled e then cancelled else failed;
  error = some e;
}

abbrev pub is_running : FlowStatus → Bool
is_running running = true
is_running succeeded = false
is_running failed = false
is_running timed_out = false
is_running cancelled = false

abbrev pub log : StepLog → Run → Run
log l r = record r { logs = r.logs ++ l ∷ [] }

-- The callback of a transition, where one is given, may throw.
abbrev pub after_callback : Option FlowError → Run → Run → Run
after_callback none r next = next
after_callback (some e) r next = throw_out e r

-- An empty name is no state.
abbrev pub named : Option String → Option String
named none = none
named (some n) = if n =ₜ "" then none else some n

-- `input !== undefined ? input : {}`
abbrev pub or_empty_object : Option Json → Option Json
or_empty_object none = some (obj end)
or_empty_object (some v) = some v

-- The variables at the first round of an execution that is not resumed.
abbrev pub start_run : FlowDefinition → Option Json → Run
start_run definition input = record {
  current = some definition.start_at;
  payload = or_empty_object input;
  snapshot = or_empty_object input;
  step_count = 0;
  counters = λ _. 0;
  logs = [];
  status = running;
  error = none;
}

-- `FlowResumeOptions`: where a resumed execution goes on.
pub record Resume : Type 0 where
  pub state_name : String
  pub resumed_payload : Option Json
  pub resumed_count : Option ℕ
  pub resumed_counters : Counters
  pub resumed_logs : List StepLog

abbrev pub or_input : Option Json → Option Json → Option Json
or_input none input = or_empty_object input
or_input (some v) input = some v

-- The variables at the first round of an execution that is resumed.
abbrev pub resume_run : Resume → Option Json → Run
resume_run resume input = record {
  current = some resume.state_name;
  payload = or_input resume.resumed_payload input;
  snapshot = or_input resume.resumed_payload input;
  step_count =
      if or_default resume.resumed_count 0 == 0
      then length resume.resumed_logs
      else or_default resume.resumed_count 0;
  counters = resume.resumed_counters;
  logs = resume.resumed_logs;
  status = running;
  error = none;
}

abbrev pub is_lost : Option FlowError → Bool
is_lost none = false
is_lost (some e) = includes_text (codes e.message) (codes "Failed to persist checkpoint")

abbrev pub checkpoint_at : Run → Option String → Option (String × Option Json × ℕ × Counters)
checkpoint_at r none = none
checkpoint_at r (some name) =
    if (name =ₜ "") || is_lost r.error
    then none
    else some (name, r.snapshot, r.step_count, r.counters)

-- The checkpoint of an execution that threw.
unfoldable pub checkpoint : Run → Option (String × Option Json × ℕ × Counters)
unfolding includes_text
checkpoint r = checkpoint_at r r.current

-- `timeoutMs`
unfoldable pub timeout_ms_of : Option ℕ → FlowDefinition → ℕ
timeout_ms_of given definition =
    if or_default given 0 == 0
    then if or_default definition.timeout_seconds 0 == 0
      then 30000
      else or_default definition.timeout_seconds 0 * 1000
    else or_default given 0

abbrev or_text : String → String → String
or_text s fallback = if s =ₜ "" then fallback else s

abbrev sub_error : Option FlowError → FlowError
sub_error (some e) = e
sub_error none = app_error "" 400

-- What the execution of a sub-flow is to its handler.
unfoldable pub sub_result : String → Run → SubResult
unfolding throw_out
sub_result flow_name r = elim r.status [
  | succeeded ↦ output r.payload
  | timed_out ↦
      rejected
        (record (app_error
          (or_text (sub_error r.error).message
            (concat ("Sub-flow in '" ∷ flow_name ∷ "' timed out" ∷ [])))
          408) { tag = timeout_tag })
  | cancelled ↦
      rejected
        (record (app_error
          (or_text (sub_error r.error).message
            (concat ("Sub-flow in '" ∷ flow_name ∷ "' was cancelled" ∷ [])))
          499) { tag = cancelled_tag })
  | failed ↦ rejected (failure "failed" (sub_error r.error))
  | running ↦ rejected (failure "running" (sub_error r.error))
]
  where
    failure : String → FlowError → FlowError
    failure status e = record {
      name = error_name e;
      error_code = e.error_code;
      message = or_text e.message (concat ("Sub-flow execution " ∷ status ∷ []));
      status_code = none;
      tag = no_tag;
    }
