-- ===== src/Maintenance/Tests.antt =====
-- The gate in a run where a request is active, another waits, and a third comes after.
use nodestack.Prelude.{◌≡◌, refl, true, false, List, [], ◌∷◌, has, add, remove, remove_one}
use nodestack.Maintenance.Gate.{
  acting, new_gate, track_request_start, resume_request, wait_times_out, track_request_end,
  execute_exclusive, is_acting, drop_run, action_ends, GateEvent, starts, resumes, rejects, ends,
  executes, finishes, gate_step, gate_run,
}
use nodestack.Maintenance.Opening.{IsOpenable, gate_run-IsOpenable}
use nodestack.Maintenance.Exclusion.{IsExclusive, is_orderly, is_orderly_run, gate_run-IsExclusive}

-- The request "a" is active when the exclusive call begins, "b" waits, and "c" is rejected.
abbrev events : List GateEvent
events =
    starts "a" false ∷ executes ∷ starts "b" false ∷ starts "c" false ∷ rejects "c" ∷ ends "a" ∷ []

acting_alone : gate_run events new_gate ≡ record {
  is_gated = true;
  is_executing = true;
  active = [];
  waiting = "b" ∷ [];
  released = [];
  runs = acting true ∷ [];
}
unfolding gate_run gate_step track_request_start wait_times_out track_request_end execute_exclusive
    has add remove remove_one
acting_alone = refl

gate_run-IsOpenable_example : IsOpenable (gate_run events new_gate)
gate_run-IsOpenable_example = gate_run-IsOpenable events

gate_run-IsExclusive_example : IsExclusive (gate_run events new_gate)
unfolding gate_run gate_step track_request_start wait_times_out track_request_end execute_exclusive
    has add remove remove_one is_orderly is_orderly_run
gate_run-IsExclusive_example = gate_run-IsExclusive events refl

-- The request that waited is active once the action has ended.
abbrev all_events : List GateEvent
all_events = starts "a" false ∷ executes ∷ starts "b" false ∷ ends "a" ∷ finishes 0 ∷ resumes ∷ []

back_to_work : gate_run all_events new_gate ≡ record {
  is_gated = false;
  is_executing = false;
  active = "b" ∷ [];
  waiting = [];
  released = [];
  runs = [];
}
unfolding gate_run gate_step track_request_start track_request_end execute_exclusive has add remove
    is_acting drop_run action_ends resume_request
back_to_work = refl
