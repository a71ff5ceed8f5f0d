-- ===== src/Flows/Engine.antt =====
-- src/flows/FlowEngine.ts: `execute` with its loop. Each round of the loop
-- takes what the round meets (the clock, the signal, the calls of the handler, the callback) as a
-- `Turn`.
pub mod Ends
use nodestack.Prelude.{
  ℕ, suc, ◌+◌, String, true, not, List, [], ◌∷◌, Option, none, some, ◌||◌, ◌=ₜ◌, ltb, if◌then◌else◌,
  or_default, is_some,
}
use nodestack.Prelude.Int.{ℤ}
use nodestack.Json.{Json}
use nodestack.Flows.Types.{FlowState, States, no_states, states, FlowDefinition}
use nodestack.Flows.Errors.{
  FlowError, no_tag, timeout_tag, app_error, cancel_error, concat, try_catch_transition,
}
use nodestack.Flows.Payload.{index_text}
use nodestack.Flows.Handlers.{StepResult, Handled, handled, thrown, Counters, output}
use nodestack.Flows.Retries.{execute_with_retry, retry_limit, retry_of, catch_of}
use nodestack.Flows.Runs.{
  succeeded, failed, cancelled, Run, Turn, max_step_transitions, is_timeout, is_cancelled,
  throw_out, is_running, log, after_callback, named,
}

-- `definition.states[name]`
unfoldable pub find_state : String → States → Option FlowState
find_state name no_states = none
find_state name (states k s rest) = if k =ₜ name then some s else find_state name rest

-- The run with the log of a step that threw.
abbrev pub failed_run : String → Run → Run
failed_run name r =
    log
      (record {
        step = name;
        input = r.payload;
        output = none;
        is_failed = true;
        next_state = none;
      })
      r

-- The run in the state that catches the error.
abbrev pub caught_run : String → String → Option Json → Run → Run
caught_run name next payload r =
    log
      (record {
        step = name;
        input = r.payload;
        output = payload;
        is_failed = true;
        next_state = some next;
      })
      (record r { current = some next; payload = payload })

-- `isEnd ? undefined : stepResult.nextState`
abbrev pub following : StepResult → Option String
following result = if result.is_end then none else named result.next_state

-- The run with the log of a step that gave a result.
abbrev pub logged_run : String → StepResult → Run → Run
logged_run name result r =
    log
      (record {
        step = name;
        input = r.payload;
        output = result.payload;
        is_failed = is_some result.failure;
        next_state = following result;
      })
      r

abbrev pub moved_run : StepResult → Run → Run
moved_run result r = record r { payload = result.payload }

abbrev pub step_error : String → String → FlowError
step_error name message = record {
  name = "Error";
  error_code = none;
  message = if message =ₜ "" then concat ("Step '" ∷ name ∷ "' failed" ∷ []) else message;
  status_code = none;
  tag = no_tag;
}

module _ (flow_name : String) (timeout_ms : ℕ) where
  abbrev pub timeout_error : FlowError
  timeout_error =
      app_error
        (concat (
          "Flow '"
          ∷ flow_name
          ∷ "' execution timed out after "
          ∷ index_text timeout_ms
          ∷ "ms"
          ∷ []))
        408

  abbrev pub abort_error : String → FlowError
  abort_error reason = cancel_error (
      if reason =ₜ ""
      then concat ("Flow '" ∷ flow_name ∷ "' execution was cancelled" ∷ [])
      else reason)

  abbrev pub not_found_error : String → FlowError
  not_found_error name =
      app_error (concat ("State '" ∷ name ∷ "' not found in flow '" ∷ flow_name ∷ "'" ∷ [])) 400

  abbrev pub limit_error : FlowError
  limit_error =
      app_error (concat ("Flow '" ∷ flow_name ∷ "' exceeded maximum step transitions (500)" ∷ []))
        400

  -- The end of the loop: the last look at the clock, and the result.
  unfoldable pub succeed_run : Turn → Run → Run
  unfolding throw_out
  succeed_run t r =
      if t.is_late_at_end then throw_out timeout_error r else record r { status = succeeded }

  -- A catch policy takes the error, or it leaves the loop.
  unfoldable pub catch_step : Turn → String → FlowError → Run → Option (String × Option Json) → Run
  unfolding throw_out
  catch_step t name e r none =
      after_callback t.callback (failed_run name r) (throw_out e (failed_run name r))
  catch_step t name e r (some (next, payload)) =
      after_callback t.callback (caught_run name next payload r) (caught_run name next payload r)

  -- The `catch` around the handler.
  unfoldable pub handler_throws : Turn → String → FlowState → FlowError → Run → Run
  unfolding catch_step try_catch_transition is_timeout is_cancelled
  handler_throws t name state e r = catch_step t name e r (
      if is_timeout e || t.is_late_in_catch || is_cancelled e
      then none
      else try_catch_transition (catch_of state) e r.payload)

  -- The step is logged; one with the status 'failed' leaves the loop.
  unfoldable pub settle_step :
      Turn → String → StepResult → Option String → Run → Option String → Run
  unfolding throw_out succeed_run
  settle_step t name result next logged (some message) =
      after_callback t.callback logged (throw_out (step_error name message) logged)
  settle_step t name result next logged none =
      if t.is_late_after
      then throw_out timeout_error logged
      else after_callback t.callback (moved_run result logged) (
          if is_some next
          then record (moved_run result logged) { current = next }
          else succeed_run t (moved_run result logged))

  -- The handler has given a result.
  unfoldable pub step_done : Turn → String → StepResult → Run → Run
  unfolding settle_step
  step_done t name result r =
      settle_step t name result (following result) (logged_run name result r) result.failure

  unfoldable pub after_handler :
      Turn → String → FlowState → Run → Option (Handled × Counters × ℕ) → Run
  unfolding handler_throws step_done
  after_handler t name state r none = r
  after_handler t name state r (some (handled result, counters, calls)) =
      step_done t name result (record r { counters = counters })
  after_handler t name state r (some (thrown e, counters, calls)) =
      handler_throws t name state e (record r { counters = counters })

  module _ (parse_number : Json → Option ℤ) (definition : FlowDefinition) where
    -- `executeWithRetry` for the state, with fuel enough.
    abbrev pub retried : Turn → String → FlowState → Run → Option (Handled × Counters × ℕ)
    retried t name state r =
        execute_with_retry parse_number name state r.payload t.tries
          (suc (retry_limit (retry_of state))) 0 r.counters

    -- The handler of the state is called, against the timer.
    unfoldable pub run_state : Turn → String → Run → Option FlowState → Run
    unfolding after_handler execute_with_retry retry_limit throw_out
    run_state t name r none = throw_out (not_found_error name) r
    run_state t name r (some state) =
        let before = record r { snapshot = r.payload } in
        if t.timer_wins
        then handler_throws t name state (record timeout_error { tag = timeout_tag }) before
        else after_handler t name state before (retried t name state r)

    -- One round of the loop.
    unfoldable pub turn : Turn → String → Run → Run
    unfolding throw_out run_state find_state
    turn t name r =
        let counted = record r { step_count = r.step_count + 1 } in
        if is_some t.abort_reason
        then throw_out (abort_error (or_default t.abort_reason "")) r
        else if t.is_late
        then throw_out timeout_error r
        else if ltb max_step_transitions counted.step_count
            || ltb max_step_transitions t.shared_count
        then throw_out limit_error counted
        else run_state t name counted (find_state name definition.all_states)

    abbrev pub round_at : Turn → Run → Option String → Run
    round_at t r none = succeed_run t r
    round_at t r (some name) = turn t name r

    -- `while (currentStateName)`
    unfoldable pub round : Turn → Run → Run
    unfolding turn succeed_run
    round t r = if is_running r.status then round_at t r (named r.current) else r

    unfoldable pub rounds : List Turn → Run → Run
    unfolding round
    rounds [] r = r
    rounds (t ∷ ts) r = rounds ts (round t r)
