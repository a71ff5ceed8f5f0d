-- ===== src/Flows/Handlers.antt =====
-- src/flows/runtime/StateHandlers.ts. What a handler asks of the functions, of its sub-flows and of
-- the abort signal is an argument.
use nodestack.Prelude.{
  ℕ, zero, suc, ◌+◌, min, String, Bool, true, not, List, [], ◌∷◌, ◌++◌, Option, none, some, ◌&&◌,
  ◌||◌, ◌=ₜ◌, ltb, if◌then◌else◌, or_default,
}
use nodestack.Prelude.Int.{ℤ}
use nodestack.Json.{Json, null, arr, Items, nil, cons}
use nodestack.Flows.Types.{
  ChoiceRule, BaseState, FlowState, flow_state, task, choice, map_items, loop, parallel, pass, wait,
  succeed, fail, States, Branches, no_branches, branches,
}
use nodestack.Flows.Payload.{get, resolve_input, apply_result, resolve_output, index_text}
use nodestack.Flows.Choices.{evaluate, find_next_state}
use nodestack.Flows.Errors.{FlowError, app_error, cancel_error, concat, no_tag}

-- `StateExecutionResult`: `failure` is the error of one with the status 'failed'.
pub record StepResult : Type 0 where
  pub next_state : Option String
  pub payload : Option Json
  pub is_end : Bool
  pub failure : Option String

pub data Handled : Type 0 where
  handled : StepResult → Handled
  thrown : FlowError → Handled

-- What the function service does for a task: it is not there, does not know the function, denies
-- the actor, or runs it and gives the body, or the status code and the error.
pub data TaskCall : Type 0 where
  unavailable not_found : TaskCall
  denied : FlowError → TaskCall
  succeeded_with : Option Json → TaskCall
  failed_with : ℕ → Option String → TaskCall

pub data SubResult : Type 0 where
  output : Option Json → SubResult
  rejected : FlowError → SubResult

-- One call of a handler: the task's function for its name, whether it is elevated and its input; the
-- sub-flows; which of several rejections came first; and whether the signal ends a wait.
pub record Attempt : Type 0 where
  pub call : String → Bool → Option Json → TaskCall
  pub sub_flow : States → String → Option Json → SubResult
  pub first_rejection : ℕ
  pub aborted_in_wait : Bool

-- `loopCounters`
abbrev pub Counters : Type 0
Counters = String → ℕ

abbrev pub set_counter : String → ℕ → Counters → Counters
set_counter k n counters j = if j =ₜ k then n else counters j

-- The results in their order, or the rejections.
pub data Settled : Type 0 where
  all_done : Items → Settled
  some_failed : FlowError → List FlowError → Settled

abbrev pub or_null_item : Option Json → Json
or_null_item none = null
or_null_item (some v) = v

abbrev pub settle_next : SubResult → Settled → Settled
settle_next (output v) (all_done xs) = all_done (cons (or_null_item v) xs)
settle_next (output v) (some_failed e es) = some_failed e es
settle_next (rejected e) (all_done xs) = some_failed e []
settle_next (rejected e) (some_failed f fs) = some_failed e (f ∷ fs)

abbrev pub pick_error : ℕ → FlowError → List FlowError → FlowError
pick_error zero e es = e
pick_error (suc n) e [] = e
pick_error (suc n) e (f ∷ fs) = pick_error n f fs

unfoldable pub settle_items : (Option Json → SubResult) → Items → Settled
settle_items call nil = all_done nil
settle_items call (cons x xs) = settle_next (call (some x)) (settle_items call xs)

unfoldable pub settle_branches : (States → String → SubResult) → Branches → Settled
settle_branches call no_branches = all_done nil
settle_branches call (branches start inner rest) =
    settle_next (call inner start) (settle_branches call rest)

abbrev pub items_of : Option Json → Items
items_of (some (arr xs)) = xs
items_of v = nil

abbrev pub non_empty : Option String → List String
non_empty none = []
non_empty (some s) = if s =ₜ "" then [] else s ∷ []

-- `[state.error, state.cause].filter(Boolean).join(': ')`, and the message without them.
unfoldable pub fail_message : String → List String → String
fail_message name [] = concat ("State machine failed at step '" ∷ name ∷ "'" ∷ [])
fail_message name (a ∷ []) = a
fail_message name (a ∷ b ∷ rest) = concat (a ∷ ": " ∷ b ∷ [])

-- `applyResult` and `resolveOutput`, and the transition of the state.
unfoldable pub finish : BaseState → Option Json → Option Json → Handled
unfolding apply_result resolve_output
finish b payload result = handled (record {
  next_state = b.next;
  payload = resolve_output (apply_result payload result b.result_path) b.output_path;
  is_end = b.is_end;
  failure = none;
})

unfoldable pub finish_settled : BaseState → Option Json → ℕ → Settled → Handled
unfolding finish
finish_settled b payload n (all_done xs) = finish b payload (some (arr xs))
finish_settled b payload n (some_failed e es) = thrown (pick_error n e es)

unfoldable pub finish_task : String → BaseState → Option Json → TaskCall → Handled
unfolding finish
finish_task function b payload unavailable =
    thrown (app_error "FunctionService is unavailable for task execution" 400)
finish_task function b payload not_found =
    thrown (record (app_error (concat ("Function '" ∷ function ∷ "' not found" ∷ [])) 404) {
      name = "NotFoundError";
    })
finish_task function b payload (denied e) = thrown e
finish_task function b payload (succeeded_with body) = finish b payload body
finish_task function b payload (failed_with code error) = thrown (record {
  name = "Error";
  error_code = none;
  message = elim (non_empty error) [
    | [] ↦ concat ("Task function '" ∷ function ∷ "' returned status " ∷ index_text code ∷ [])
    | m ∷ ms ↦ m
  ];
  status_code = some code;
  tag = no_tag;
})

-- The choice's `throw`, where there is no next state.
unfoldable pub finish_choice : String → BaseState → Option Json → Option String → Handled
finish_choice name b payload next = elim (non_empty next) [
  | [] ↦ thrown (
      app_error (concat ("Choice state '" ∷ name ∷ "' had no matching branch and no default" ∷ []))
        400)
  | n ∷ ns ↦
      handled (record { next_state = some n; payload = payload; is_end = b.is_end; failure = none })
]

-- `state.maxIterations || 100`
abbrev pub max_iterations_of : Option ℕ → ℕ
max_iterations_of none = 100
max_iterations_of (some zero) = 100
max_iterations_of (some (suc n)) = suc n

module _ (parse_number : Json → Option ℤ) where
  unfoldable pub finish_loop :
      String → BaseState → String → ChoiceRule → ℕ → ℕ → Option Json → Handled
  unfolding evaluate
  finish_loop name b target condition limit count payload =
      let again = evaluate parse_number condition payload in
      if ltb limit count
      then thrown (
          app_error
            (concat (
              "Loop state '"
              ∷ name
              ∷ "' exceeded max iterations limit of "
              ∷ index_text limit
              ∷ []))
            400)
      else handled (record {
        next_state = if again then some target else b.next;
        payload = payload;
        is_end = not again && b.is_end;
        failure = none;
      })

  -- `handler.execute(state, context)`, with the loop counters.
  unfoldable pub execute_handler :
      String → FlowState → Option Json → Attempt → Counters → Handled × Counters
  unfolding finish finish_settled finish_task finish_choice finish_loop fail_message find_next_state
      settle_items settle_branches resolve_input get
  execute_handler name (flow_state b (task function elevated service_role retry catch)) payload a
        counters =
      (
        finish_task function b payload
            (a.call function (elevated || service_role) (resolve_input payload b.input_path)),
        counters,
      )
  execute_handler name (flow_state b (choice choices default)) payload a counters = (
    finish_choice name b payload (find_next_state parse_number choices default payload),
    counters,
  )
  execute_handler name (flow_state b (map_items items_path limit start inner retry catch)) payload a
        counters =
      (
        finish_settled b payload a.first_rejection
            (settle_items (a.sub_flow inner start) (items_of (get payload (some items_path) none))),
        counters,
      )
  execute_handler name (flow_state b (loop target condition max)) payload a counters =
      let count = counters name + 1 in
      (
        finish_loop name b target condition (max_iterations_of max) count payload,
        set_counter name count counters,
      )
  execute_handler name (flow_state b (parallel bs retry catch)) payload a counters = (
    finish_settled b payload a.first_rejection
        (settle_branches (λ inner start. a.sub_flow inner start payload) bs),
    counters,
  )
  execute_handler name (flow_state b (pass result)) payload a counters =
      (finish b payload (pass_result result (resolve_input payload b.input_path)), counters)
    where
      pass_result : Option Json → Option Json → Option Json
      pass_result none input = input
      pass_result (some v) input = some v
  execute_handler name (flow_state b (wait seconds)) payload a counters = (
    (if ltb 0 (min (or_default seconds 1) 60) && a.aborted_in_wait
        then thrown (cancel_error "Wait state aborted")
        else handled
            (record { next_state = b.next; payload = payload; is_end = b.is_end; failure = none })),
    counters,
  )
  execute_handler name (flow_state b succeed) payload a counters = (
    handled (record { next_state = none; payload = payload; is_end = true; failure = none }),
    counters,
  )
  execute_handler name (flow_state b (fail error cause)) payload a counters = (
    handled (record {
      next_state = none;
      payload = payload;
      is_end = true;
      failure = some (fail_message name (non_empty error ++ non_empty cause));
    }),
    counters,
  )
