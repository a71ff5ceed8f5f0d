-- ===== src/Flows/Engine/Ends.antt =====
-- The loop of `execute` ends: each round that leaves it running counts a step.
use nodestack.Prelude.{
  ℕ, suc, ◌+◌, ◌≤◌, ◌<◌, String, false, List, [], ◌∷◌, Option, none, some, inl, inr, ◌⊎◌, ◌||◌, ◌≡◌,
  refl, arith, ltb, if◌then◌else◌, or_default, is_some, length, Bool-cases, subst, sym, if-both,
}
use nodestack.Prelude.Int.{ℤ}
use nodestack.Json.{Json}
use nodestack.Flows.Types.{FlowState, FlowDefinition}
use nodestack.Flows.Errors.{FlowError, timeout_tag, try_catch_transition}
use nodestack.Flows.Handlers.{StepResult, Handled, Counters, handled, thrown}
use nodestack.Flows.Retries.{catch_of}
use nodestack.Flows.Runs.{
  Run, Turn, is_running, throw_out, is_timeout, is_cancelled, after_callback, max_step_transitions,
  named,
}
use nodestack.Flows.Engine.{
  retried, following, logged_run, failed_run, caught_run, moved_run, step_error, find_state,
  succeed_run, catch_step, handler_throws, settle_step, step_done, after_handler, run_state, turn,
  round, round_at, rounds, timeout_error, not_found_error, limit_error, abort_error,
}

-- The run has ended, or has counted `n` steps.
abbrev pub Counts : ℕ → Run → Type 0
Counts n r = (is_running r.status ≡ false) ⊎ (r.step_count ≡ n)

pub throw_out_ends : (e : FlowError) (r : Run) → is_running (throw_out e r).status ≡ false
unfolding throw_out
throw_out_ends e r =
    if-both (λ s. is_running s ≡ false) (is_timeout e) (λ _. refl)
      (λ _. if-both (λ s. is_running s ≡ false) (is_cancelled e) (λ _. refl) (λ _. refl))

callback-Counts :
    (n : ℕ) (c : Option FlowError) (r next : Run)
    → Counts n next
    → Counts n (after_callback c r next)
callback-Counts n none r next h = h
callback-Counts n (some e) r next h = inl (throw_out_ends e r)

-- What the policies of a state make of an error.
abbrev caught : Turn → FlowState → FlowError → Run → Option (String × Option Json)
caught t state e r =
    if is_timeout e || t.is_late_in_catch || is_cancelled e
    then none
    else try_catch_transition (catch_of state) e r.payload

module _ (flow_name : String) (timeout_ms : ℕ) where
  succeed_run_ends :
      (t : Turn) (r : Run) → is_running (succeed_run flow_name timeout_ms t r).status ≡ false
  unfolding succeed_run
  succeed_run_ends t r =
      if-both (λ (x : Run). is_running x.status ≡ false) t.is_late_at_end
        (λ _. throw_out_ends (timeout_error flow_name timeout_ms) r) (λ _. refl)

  catch-Counts :
      (n : ℕ) (t : Turn) (name : String) (e : FlowError) (r : Run)
      (c : Option (String × Option Json))
      → r.step_count ≡ n
      → Counts n (catch_step flow_name timeout_ms t name e r c)
  unfolding catch_step
  catch-Counts n t name e r none h =
      callback-Counts n t.callback (failed_run name r) _
        (inl (throw_out_ends e (failed_run name r)))
  catch-Counts n t name e r (some (next, payload)) h =
      callback-Counts n t.callback (caught_run name next payload r) (caught_run name next payload r)
        (inr h)

  settle-Counts :
      (n : ℕ) (t : Turn) (name : String) (result : StepResult) (next : Option String) (r : Run)
      (f : Option String)
      → r.step_count ≡ n
      → Counts n (settle_step flow_name timeout_ms t name result next r f)
  unfolding settle_step
  settle-Counts n t name result next r (some m) h =
      callback-Counts n t.callback r _ (inl (throw_out_ends (step_error name m) r))
  settle-Counts n t name result next r none h =
      if-both (Counts n) t.is_late_after
        (λ _. inl (throw_out_ends (timeout_error flow_name timeout_ms) r))
        (λ _. callback-Counts n t.callback (moved_run result r) _ (
          if-both (Counts n) (is_some next) (λ _. inr h)
            (λ _. inl (succeed_run_ends t (moved_run result r)))))

  handler-Counts :
      (n : ℕ) (t : Turn) (name : String) (state : FlowState) (r : Run)
      (o : Option (Handled × Counters × ℕ))
      → r.step_count ≡ n
      → Counts n (after_handler flow_name timeout_ms t name state r o)
  unfolding after_handler step_done handler_throws
  handler-Counts n t name state r none h = inr h
  handler-Counts n t name state r (some (handled result, c, k)) h =
      settle-Counts n t name result (following result)
        (logged_run name result (record r { counters = c })) result.failure h
  handler-Counts n t name state r (some (thrown e, c, k)) h =
      catch-Counts n t name e (record r { counters = c }) (caught t state e r) h

  module _ (parse_number : Json → Option ℤ) (definition : FlowDefinition) where
    state-Counts :
        (n : ℕ) (t : Turn) (name : String) (r : Run) (s : Option FlowState)
        → r.step_count ≡ n
        → Counts n (run_state flow_name timeout_ms parse_number definition t name r s)
    unfolding run_state handler_throws
    state-Counts n t name r none h =
        inl (throw_out_ends (not_found_error flow_name timeout_ms name) r)
    state-Counts n t name r (some state) h =
        if-both (Counts n) t.timer_wins
          (λ _.
            catch-Counts n t name
              (record (timeout_error flow_name timeout_ms) { tag = timeout_tag })
              (record r { snapshot = r.payload })
              (caught t state (record (timeout_error flow_name timeout_ms) { tag = timeout_tag }) r)
              h)
          (λ _.
            handler-Counts n t name state (record r { snapshot = r.payload })
              (retried flow_name timeout_ms parse_number definition t name state r) h)

    -- A round that leaves the loop running counts one more step, of 500 at most.
    Progress : ℕ → Run → Type 0
    Progress n r = (is_running r.status ≡ false) ⊎ ((r.step_count ≡ suc n) × (suc n ≤ 500))

    turn-Progress :
        (t : Turn) (name : String) (r : Run)
        → Progress r.step_count (turn flow_name timeout_ms parse_number definition t name r)
    unfolding turn Progress
    turn-Progress t name r =
        if-both (Progress r.step_count) (is_some t.abort_reason)
          (λ _.
            inl
              (throw_out_ends (abort_error flow_name timeout_ms (or_default t.abort_reason "")) r))
          (λ _.
            if-both (Progress r.step_count) t.is_late
              (λ _. inl (throw_out_ends (timeout_error flow_name timeout_ms) r))
              (λ _.
                if-both (Progress r.step_count)
                  (ltb max_step_transitions (r.step_count + 1)
                    || ltb max_step_transitions t.shared_count)
                  (λ _. inl (throw_out_ends (limit_error flow_name timeout_ms) counted))
                  (λ within. progressed within (
                    state-Counts (r.step_count + 1) t name counted
                      (find_state name definition.all_states) refl))))
      where
        counted : Run
        counted = record r { step_count = r.step_count + 1 }

        progressed :
            (ltb max_step_transitions (r.step_count + 1) || ltb max_step_transitions t.shared_count)
              ≡ false
            → Counts (r.step_count + 1) (
                run_state flow_name timeout_ms parse_number definition t name counted
                  (find_state name definition.all_states))
            → Progress r.step_count (
                run_state flow_name timeout_ms parse_number definition t name counted
                  (find_state name definition.all_states))
        progressed within (inl ended) = inl ended
        progressed within (inr same) = inr (omega (arith, same), ground arith)

    round-Progress :
        (t : Turn) (r : Run)
        → Progress r.step_count (round flow_name timeout_ms parse_number definition t r)
    unfolding round Progress
    round-Progress t r = elim (Bool-cases (is_running r.status)) [
      | inl e ↦ rw e (at_name (named r.current))
      | inr e ↦ rw e (inl e)
    ]
      where
        at_name :
            (o : Option String)
            → Progress r.step_count (round_at flow_name timeout_ms parse_number definition t r o)
        at_name none = inl (succeed_run_ends t r)
        at_name (some name) = turn-Progress t name r

    stopped :
        (t : Turn) (r : Run)
        → is_running r.status ≡ false
        → round flow_name timeout_ms parse_number definition t r ≡ r
    unfolding round
    stopped t r h = rw h

    ended_stays :
        (ts : List Turn) (r : Run)
        → is_running r.status ≡ false
        → is_running (rounds flow_name timeout_ms parse_number definition ts r).status ≡ false
    unfolding rounds round
    ended_stays [] r h = h
    ended_stays (t ∷ ts) r h =
        ended_stays ts (round flow_name timeout_ms parse_number definition t r)
          (subst (λ (x : Run). is_running x.status ≡ false) (sym (stopped t r h)) h)

    rounds_end_from :
        (ts : List Turn) (r : Run)
        → 500 < r.step_count + length ts
        → r.step_count ≤ 500
        → is_running (rounds flow_name timeout_ms parse_number definition ts r).status ≡ false
    unfolding rounds Progress
    rounds_end_from [] r h k = absurd (omega arith)
    rounds_end_from (t ∷ ts) r h k =
        after_round (rounds_end_from ts (round flow_name timeout_ms parse_number definition t r))
          (round-Progress t r)
      where
        after_round :
            (500 < (round flow_name timeout_ms parse_number definition t r).step_count + length ts
              → (round flow_name timeout_ms parse_number definition t r).step_count ≤ 500
              → is_running
                  (rounds flow_name timeout_ms parse_number definition ts
                    (round flow_name timeout_ms parse_number definition t r)).status
                ≡ false)
            → Progress r.step_count (round flow_name timeout_ms parse_number definition t r)
            → is_running
                (rounds flow_name timeout_ms parse_number definition ts
                  (round flow_name timeout_ms parse_number definition t r)).status
              ≡ false
        after_round rest (inl ended) = ended_stays ts _ ended
        after_round rest (inr (same, le)) = rest (omega arith) (omega arith)

    -- Whatever an execution starts with, afresh or resumed, it has ended after 501 rounds, whatever they
    -- meet.
    pub rounds_end :
        (r : Run) (ts : List Turn)
        → 500 < length ts
        → is_running (rounds flow_name timeout_ms parse_number definition ts r).status ≡ false
    unfolding rounds Progress
    rounds_end r [] h = absurd (omega arith)
    rounds_end r (t ∷ ts) h = after_first (round-Progress t r)
      where
        after_first :
            Progress r.step_count (round flow_name timeout_ms parse_number definition t r)
            → is_running
                (rounds flow_name timeout_ms parse_number definition ts
                  (round flow_name timeout_ms parse_number definition t r)).status
              ≡ false
        after_first (inl ended) = ended_stays ts _ ended
        after_first (inr (same, le)) =
            rounds_end_from ts (round flow_name timeout_ms parse_number definition t r)
              (omega arith) (omega arith)
