-- ===== src/Flows/Tests.antt =====
-- The pool on three items, with two workers; the engine on a flow that
-- never comes to its end; and a payload that is written.
mod Checked
use nodestack.Prelude.{
  arith, ℕ, zero, suc, ◌+◌, ◌*◌, ◌≤◌, max, ◌≡◌, refl, false, List, [], ◌∷◌, none, some, length, map,
  String, Option,
}
use nodestack.Prelude.Int.{ℤ, pos}
use nodestack.Json.{Json, null, obj, end, text}
use nodestack.Flows.Payload.{get, set, member}
use nodestack.Flows.Payload.Written.{get-set, fits}
use nodestack.Flows.Types.{
  BaseState, FlowState, flow_state, task, pass, RetryPolicy, states, no_states, FlowDefinition,
}
use nodestack.Flows.Errors.{app_error}
use nodestack.Flows.Handlers.{Handled, Counters, denied, output}
use nodestack.Flows.Retries.{Try, retry_of, retry_limit, execute_with_retry}
use nodestack.Flows.Retries.Limits.{execute_with_retry_ends}
use nodestack.Flows.Runs.{Turn, start_run, is_running as is_running_status}
use nodestack.Flows.Engine.{rounds}
use nodestack.Flows.Paths.{key, index, parse_path}
use nodestack.Flows.Engine.Ends.{rounds_end}
use nodestack.Flows.Pool.{
  indices, is_running, end_call, resolves, start_pool, take_next, pool_step, pool_run,
}
use nodestack.Flows.Pool.Results.{pool_run-results}
use nodestack.Flows.Pool.Ends.{left_over, is_schedule, pool_run-length}

abbrev numbers : List ℕ
numbers = 5 ∷ 6 ∷ 7 ∷ []

abbrev with_index : ℕ → ℕ → ℕ
with_index x i = x * 10 + i

-- The second call ends first, then the third, then the first.
abbrev order : List ℕ
order = 1 ∷ 2 ∷ 0 ∷ []

pool_run-results_example :
    (pool_run numbers with_index (map resolves order) (start_pool numbers with_index 2)).results 2
    ≡ some 72
unfolding pool_run pool_step take_next start_pool is_running end_call indices
pool_run-results_example =
    pool_run-results numbers with_index 2 (map resolves order) 2 7 refl refl refl

pool_run-length_example :
    length
      (pool_run numbers with_index (map resolves order) (start_pool numbers with_index 2)).running
    ≤ max 1 2
pool_run-length_example = pool_run-length numbers with_index 2 (map resolves order)

-- No text is a number.
abbrev pub no_numbers : Json → Option ℤ
no_numbers v = none

abbrev pub base_state : Option String → BaseState
base_state next = record {
  input_path = none;
  result_path = none;
  output_path = none;
  next = next;
  is_end = false;
}

-- A task whose function fails twice and may be tried five times.
abbrev policy : RetryPolicy
policy = record {
  error_equals = none;
  interval_seconds = none;
  max_attempts = some (pos 5);
  backoff_rate = none;
}

abbrev stubborn : FlowState
stubborn = flow_state (base_state (some "Again")) (task "charge" false false (policy ∷ []) [])

abbrev failing_try : Try
failing_try = record {
  aborted_before = false;
  attempt = record {
    call = λ f e input. denied (app_error "no" 403);
    sub_flow = λ inner start input. output input;
    first_rejection = 0;
    aborted_in_wait = false;
  };
  aborted_after = false;
}

execute_with_retry_ends_example :
    (h : Handled) × (c : Counters) × (n : ℕ) × (execute_with_retry no_numbers "Charge" stubborn
        (some null)
        (λ _. failing_try)
        (suc (retry_limit (retry_of stubborn)))
        0
        (λ _. 0)
      ≡ some (h, c, n))
    × (n ≤ max 1 (retry_limit (retry_of stubborn)))
execute_with_retry_ends_example =
    execute_with_retry_ends no_numbers "Charge" stubborn (some null) (λ _. failing_try) (λ _. 0)

-- A flow with one state, which comes after itself.
abbrev circle : FlowDefinition
circle = record {
  start_at = "Again";
  timeout_seconds = none;
  all_states = states "Again" (flow_state (base_state (some "Again")) (pass none)) no_states;
}

abbrev quiet : Turn
quiet = record {
  abort_reason = none;
  is_late = false;
  shared_count = 0;
  tries = λ _. failing_try;
  timer_wins = false;
  is_late_in_catch = false;
  is_late_after = false;
  callback = none;
  is_late_at_end = false;
}

unfoldable pub turns : ℕ → List Turn
turns zero = []
turns (suc n) = quiet ∷ turns n

length-turns : (n : ℕ) → length (turns n) ≡ n
unfolding turns
length-turns zero = refl
length-turns (suc n) = rw (length-turns n) refl

rounds_end_example :
    is_running_status
      (rounds "circle" 30000 no_numbers circle (turns 501) (start_run circle none)).status
    ≡ false
rounds_end_example =
    rounds_end "circle" 30000 no_numbers circle (start_run circle none) (turns 501)
      (omega (arith, length-turns 501))

-- The first item of a list that is not there yet.
get-set_example :
    get (set (some (obj end)) (some "$.items[0].id") (some (text "a"))) (some "$.items[0].id") none
    ≡ some (text "a")
unfolding fits member parse_path
get-set_example =
    get-set (some (obj end)) "$.items[0].id" (key "items" ∷ index 0 ∷ key "id" ∷ []) (text "a") none
      refl refl
