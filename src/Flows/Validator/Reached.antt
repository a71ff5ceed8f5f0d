-- ===== src/Flows/Validator/Reached.antt =====
-- The states that an execution of a validated flow comes to. The validator does not look at the
-- policies that catch errors, so that their targets are a condition of their own.
use nodestack.Prelude.{
  ℕ, suc, ◌+◌, String, true, not, List, [], ◌∷◌, Option, none, some, ◌||◌, ◌≡◌, ◌=ₜ◌, refl, inl,
  inr, trim, Bool-cases, if-both, is_some, ltb,
}
use nodestack.Prelude.Int.{ℤ}
use nodestack.Json.{Json}
use nodestack.Flows.Types.{FlowState, States, FlowDefinition}
use nodestack.Flows.Errors.{FlowError, timeout_tag}
use nodestack.Flows.Handlers.{StepResult, Handled, handled, thrown, Counters}
use nodestack.Flows.Retries.{retry_of, catch_of, retry_limit}
use nodestack.Flows.Runs.{
  Run, Turn, is_running, throw_out, is_timeout, is_cancelled, after_callback, max_step_transitions,
  named, start_run,
}
use nodestack.Flows.Engine.{
  find_state, following, logged_run, failed_run, caught_run, moved_run, step_error, succeed_run,
  catch_step, handler_throws, settle_step, step_done, after_handler, run_state, turn, round,
  round_at, rounds, timeout_error,
}
use nodestack.Flows.Validator.{
  validate_states, validate_start, validate, has_key, has_states, require, start_missing,
  states_missing, start_unknown,
}
use nodestack.Flows.Validator.Targets.{orelse-none, require-none, Placed}
use nodestack.Flows.Validator.Sound.{
  catches_exist, IsSound, IsSoundState, CaughtPlaced, ResultLeads, following-Placed, found-IsSound,
  transition-Placed, retry-Leads,
}

key-Placed : (all : States) (n : String) → has_key n all ≡ true → Placed all (some n)
key-Placed all n h = elim (Bool-cases (n =ₜ "")) [ inl e ↦ rw e refl | inr e ↦ rw e h ]

module _ (all : States) where
  callback-Placed :
      (c : Option FlowError) (r next : Run)
      → Placed all r.current
      → Placed all next.current
      → Placed all (after_callback c r next).current
  unfolding throw_out
  callback-Placed none r next h k = k
  callback-Placed (some e) r next h k = h

  module _ (flow_name : String) (timeout_ms : ℕ) where
    succeed-Placed :
        (t : Turn) (r : Run)
        → Placed all r.current
        → Placed all (succeed_run flow_name timeout_ms t r).current
    unfolding succeed_run throw_out
    succeed-Placed t r h =
        if-both (λ (x : Run). Placed all x.current) t.is_late_at_end (λ _. h) (λ _. h)

    catch-Placed :
        (t : Turn) (name : String) (e : FlowError) (r : Run) (c : Option (String × Option Json))
        → Placed all r.current
        → CaughtPlaced all c
        → Placed all (catch_step flow_name timeout_ms t name e r c).current
    unfolding catch_step throw_out
    catch-Placed t name e r none h k =
        callback-Placed t.callback (failed_run name r) (throw_out e (failed_run name r)) h h
    catch-Placed t name e r (some (next, payload)) h k =
        callback-Placed t.callback (caught_run name next payload r) (caught_run name next payload r)
          k k

    throws-Placed :
        (t : Turn) (name : String) (s : FlowState) (e : FlowError) (r : Run)
        → Placed all r.current
        → IsSound all s
        → Placed all (handler_throws flow_name timeout_ms t name s e r).current
    unfolding handler_throws
    throws-Placed t name s e r h (k, ok, caught) = catch-Placed t name e r _ h (
        if-both (CaughtPlaced all) (is_timeout e || t.is_late_in_catch || is_cancelled e) (λ _. tt)
          (λ _. transition-Placed all (catch_of s) e r.payload caught))

    settle-Placed :
        (t : Turn) (name : String) (result : StepResult) (next : Option String) (r : Run)
        (f : Option String)
        → Placed all r.current
        → Placed all next
        → Placed all (settle_step flow_name timeout_ms t name result next r f).current
    unfolding settle_step throw_out
    settle-Placed t name result next r (some m) h k =
        callback-Placed t.callback r (throw_out (step_error name m) r) h h
    settle-Placed t name result next r none h k =
        if-both (λ (x : Run). Placed all x.current) t.is_late_after (λ _. h)
          (λ _. callback-Placed t.callback (moved_run result r) _ h (
            if-both (λ (x : Run). Placed all x.current) (is_some next) (λ _. k)
              (λ _. succeed-Placed t (moved_run result r) h)))

    after_handler-Placed :
        (t : Turn) (name : String) (s : FlowState) (r : Run) (o : Option (Handled × Counters × ℕ))
        → Placed all r.current
        → IsSound all s
        → ResultLeads all o
        → Placed all (after_handler flow_name timeout_ms t name s r o).current
    unfolding after_handler step_done
    after_handler-Placed t name s r none h sound k = h
    after_handler-Placed t name s r (some (handled result, c, n)) h sound k =
        settle-Placed t name result (following result)
          (logged_run name result (record r { counters = c })) result.failure h
          (following-Placed all result k)
    after_handler-Placed t name s r (some (thrown e, c, n)) h sound k =
        throws-Placed t name s e (record r { counters = c }) h sound

    run_state-Placed :
        (parse_number : Json → Option ℤ) (definition : FlowDefinition) (t : Turn) (name : String)
        (r : Run) (s : Option FlowState)
        → Placed all r.current
        → IsSoundState all s
        → Placed all (run_state flow_name timeout_ms parse_number definition t name r s).current
    unfolding run_state throw_out
    run_state-Placed f definition t name r none h k = h
    run_state-Placed f definition t name r (some s) h k =
        if-both (λ (x : Run). Placed all x.current) t.timer_wins
          (λ _.
            throws-Placed t name s
              (record (timeout_error flow_name timeout_ms) { tag = timeout_tag })
              (record r { snapshot = r.payload }) h k)
          (λ _.
            after_handler-Placed t name s (record r { snapshot = r.payload }) _ h k
              (retry-Leads all f name s r.payload t.tries (suc (retry_limit (retry_of s))) 0
                r.counters k))

module _ (flow_name : String) (timeout_ms : ℕ) (parse_number : Json → Option ℤ)
    (definition : FlowDefinition) where
  turn-Placed :
      (t : Turn) (name : String) (r : Run)
      → validate_states definition.all_states definition.all_states ≡ none
      → catches_exist definition.all_states definition.all_states ≡ true
      → Placed definition.all_states r.current
      → Placed definition.all_states
          (turn flow_name timeout_ms parse_number definition t name r).current
  unfolding turn throw_out
  turn-Placed t name r ok caught h =
      let At = λ (x : Run). Placed definition.all_states x.current in
      if-both At (is_some t.abort_reason) (λ _. h)
        (λ _.
          if-both At t.is_late (λ _. h)
            (λ _.
              if-both At
                (ltb max_step_transitions (r.step_count + 1)
                  || ltb max_step_transitions t.shared_count)
                (λ _. h)
                (λ _.
                  run_state-Placed definition.all_states flow_name timeout_ms parse_number
                    definition t name (record r { step_count = r.step_count + 1 })
                    (find_state name definition.all_states) h
                    (found-IsSound definition.all_states name definition.all_states ok caught))))

  round_at-Placed :
      (t : Turn) (r : Run) (o : Option String)
      → validate_states definition.all_states definition.all_states ≡ none
      → catches_exist definition.all_states definition.all_states ≡ true
      → Placed definition.all_states r.current
      → Placed definition.all_states
          (round_at flow_name timeout_ms parse_number definition t r o).current
  round_at-Placed t r none ok caught h =
      succeed-Placed definition.all_states flow_name timeout_ms t r h
  round_at-Placed t r (some name) ok caught h = turn-Placed t name r ok caught h

  rounds-Placed :
      (ts : List Turn) (r : Run)
      → validate_states definition.all_states definition.all_states ≡ none
      → catches_exist definition.all_states definition.all_states ≡ true
      → Placed definition.all_states r.current
      → Placed definition.all_states
          (rounds flow_name timeout_ms parse_number definition ts r).current
  unfolding rounds round
  rounds-Placed [] r ok caught h = h
  rounds-Placed (t ∷ ts) r ok caught h =
      rounds-Placed ts (round flow_name timeout_ms parse_number definition t r) ok caught (
        if-both (λ (x : Run). Placed definition.all_states x.current) (is_running r.status)
          (λ _. round_at-Placed t r (named r.current) ok caught h) (λ _. h))

  -- An execution of a validated flow, whose policies catch errors into states that are there, is at a
  -- state that is there after any number of rounds, or names none.
  pub rounds-validated :
      (input : Option Json) (ts : List Turn)
      → validate definition ≡ none
      → catches_exist definition.all_states definition.all_states ≡ true
      → Placed definition.all_states
          (rounds flow_name timeout_ms parse_number definition ts
            (start_run definition input)).current
  unfolding validate validate_start
  rounds-validated input ts ok caught =
      let (_, h₁) =
        orelse-none (require (not (trim definition.start_at =ₜ "")) start_missing) _ ok in
      let (_, h₂) = orelse-none (require (has_states definition.all_states) states_missing) _ h₁ in
      let (start_ok, states_ok) =
        orelse-none (require (has_key definition.start_at definition.all_states) start_unknown) _
          h₂ in
      rounds-Placed ts (start_run definition input) states_ok caught (
        key-Placed definition.all_states definition.start_at
          (require-none _ start_unknown start_ok))
