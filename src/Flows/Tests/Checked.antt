-- ===== src/Flows/Tests/Checked.antt =====
-- The validator on a small flow and on two patterns, where the flow comes to, and where it goes on.
use nodestack.Prelude.{
  ◌↔◌, is_some, arith, ℕ, ◌≡◌, refl, List, [], ◌∷◌, none, some, map, trim, true, false, has, any,
  codes, trim_codes, starts_with,
}
use nodestack.Flows.Types.{
  flow_state, task, fail, succeed, States, states, no_states, FlowDefinition,
}
use nodestack.Json.{null}
use nodestack.Flows.Errors.{app_error, includes_text}
use nodestack.Flows.Recovery.{resumes, stored_run, resolve_resume_state}
use nodestack.Flows.Recovery.Resumed.{resume-checkpoint}
use nodestack.Flows.Runs.{start_run, Run, Resume, failed, is_lost, resume_run}
use nodestack.Flows.Engine.{rounds, find_state}
use nodestack.Flows.Paths.{is_unsafe_path, parse_path}
use nodestack.Flows.Validator.{
  validate, validate_state, validate_start, validate_base, validate_path,
}
use nodestack.Flows.Validator.Targets.{Placed}
use nodestack.Flows.Validator.Sound.{catches_exist}
use nodestack.Flows.Validator.Reached.{rounds-validated}
use nodestack.Flows.Validator.References.{extract_referenced_functions, rename_referenced_function}
use nodestack.Flows.Validator.Renaming.{
  functions, refers, renamed, is_old, extract-functions, rename-functions,
}
use nodestack.Flows.Validator.Triggers.{validate_event_pattern}
use nodestack.Flows.Validator.Patterns.{IsPattern, validate_event_pattern_iff}
use nodestack.Flows.Tests.{no_numbers, base_state, turns}

-- A task that fails, whose error is caught.
abbrev checkout : States
checkout =
    states "Charge"
      (flow_state (base_state (some "Done")) (
        task "charge" false false [] (
          record { error_equals = some ("AppError" ∷ []); next = "Sorry"; result_path = none }
          ∷ [])))
      (states "Sorry" (flow_state (base_state none) (fail (some "declined") none))
        (states "Done" (flow_state (base_state none) succeed) no_states))

abbrev checkout_flow : FlowDefinition
checkout_flow = record { start_at = "Charge"; timeout_seconds = none; all_states = checkout }

checkout_is_valid : validate checkout_flow ≡ none
unfolding validate validate_state validate_start validate_base validate_path is_unsafe_path
    parse_path find_state trim
checkout_is_valid = refl

catches_are_placed : catches_exist checkout checkout ≡ true
unfolding catches_exist find_state
catches_are_placed = refl

rounds-validated_example :
    Placed checkout
      (rounds "checkout" 30000 no_numbers checkout_flow
        (turns 2)
        (start_run checkout_flow none)).current
rounds-validated_example =
    rounds-validated "checkout" 30000 no_numbers checkout_flow none (turns 2) checkout_is_valid
      catches_are_placed

extract-functions_example :
    has "charge" (extract_referenced_functions checkout)
    ≡ any (refers "charge") (functions checkout)
extract-functions_example = extract-functions "charge" checkout

rename-functions_example :
    (functions (rename_referenced_function "charge" "bill" checkout).0
      ≡ map (renamed "charge" "bill") (functions checkout))
    × ((rename_referenced_function "charge" "bill" checkout).1
        ≡ any (is_old "charge") (functions checkout))
rename-functions_example = rename-functions "charge" "bill" checkout

-- The deletions of any collection, with a space in front.
abbrev deletions : List ℕ
deletions = codes " *:delete"

deletions_pass : validate_event_pattern deletions ≡ none
unfolding validate_event_pattern trim_codes starts_with
deletions_pass = refl

validate_event_pattern_iff_example :
    (validate_event_pattern deletions ≡ none) ↔ IsPattern (trim_codes deletions)
validate_event_pattern_iff_example = validate_event_pattern_iff deletions

-- An execution that a task's error has ended at its first step.
abbrev stopped_run : Run
stopped_run = record {
  current = some "Charge";
  payload = some null;
  snapshot = some null;
  step_count = 1;
  counters = λ _. 0;
  logs = [];
  status = failed;
  error = some (app_error "no" 403);
}

charge_is_there : is_some (find_state "Charge" checkout_flow.all_states) ≡ true
unfolding find_state
charge_is_there = refl

checkpoint_is_kept : is_lost stopped_run.error ≡ false
unfolding includes_text starts_with
checkpoint_is_kept = refl

resume-checkpoint_example :
    (resume : Resume) × (resolve_resume_state no_numbers (stored_run none stopped_run) checkout_flow
      ≡ resumes resume)
    × ((resume_run resume none).current ≡ some "Charge")
    × ((resume_run resume none).payload ≡ some null)
    × ((resume_run resume none).step_count ≡ 1)
    × ((resume_run resume none).counters ≡ stopped_run.counters)
    × ((resume_run resume none).logs ≡ [])
resume-checkpoint_example =
    resume-checkpoint no_numbers checkout_flow stopped_run "Charge" null none refl refl
      charge_is_there refl checkpoint_is_kept (omega arith)
