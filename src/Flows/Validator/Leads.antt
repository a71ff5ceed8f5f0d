-- ===== src/Flows/Validator/Leads.antt =====
-- What the handlers of a validated state lead to: a state that is there, or none.
use nodestack.Prelude.{
  ℕ, ◌+◌, min, String, true, Option, none, some, inl, inr, ◌&&◌, ◌||◌, ◌≡◌, ◌=ₜ◌, refl, ltb,
  or_default, Bool-cases, if-both,
}
use nodestack.Prelude.Int.{ℤ}
use nodestack.Json.{Json}
use nodestack.Flows.Types.{
  ChoiceRule, rule, Rules, no_rules, rules, BaseState, FlowState, flow_state, Kind, task, choice,
  map_items, loop, parallel, pass, wait, succeed, fail, States,
}
use nodestack.Flows.Choices.{evaluate, find_next_state, next_of}
use nodestack.Flows.Handlers.{
  Handled, handled, thrown, Attempt, Counters, TaskCall, unavailable, not_found, denied,
  succeeded_with, failed_with, Settled, all_done, some_failed, max_iterations_of, settle_items,
  settle_branches, items_of, execute_handler, finish_task, finish_settled, finish_choice,
  finish_loop, finish, non_empty,
}
use nodestack.Flows.Validator.{
  require, key_exists, validate_base, validate_kind, validate_state, validate_rules, has_rules,
  choices_missing, default_unknown, target_unknown, validate_choice_rule,
}
use nodestack.Flows.Payload.{get, resolve_input}
use nodestack.Flows.Validator.Targets.{
  orelse-none, require-none, Placed, if_given-Placed, exists-Placed, base-Placed,
}

-- The result of a handler leads to a state that is there.
abbrev pub Leads : States → Handled → Type 0
Leads all (handled r) = Placed all r.next_state
Leads all (thrown e) = Unit

module _ (all : States) where
  finish_task-Leads :
      (function : String) (b : BaseState) (payload : Option Json) (c : TaskCall)
      → Placed all b.next
      → Leads all (finish_task function b payload c)
  unfolding finish_task finish
  finish_task-Leads f b p unavailable h = tt
  finish_task-Leads f b p not_found h = tt
  finish_task-Leads f b p (denied e) h = tt
  finish_task-Leads f b p (succeeded_with body) h = h
  finish_task-Leads f b p (failed_with code e) h = tt

  finish_settled-Leads :
      (b : BaseState) (payload : Option Json) (n : ℕ) (s : Settled)
      → Placed all b.next
      → Leads all (finish_settled b payload n s)
  unfolding finish_settled finish
  finish_settled-Leads b p n (all_done xs) h = h
  finish_settled-Leads b p n (some_failed e es) h = tt

  finish_choice-Leads :
      (name : String) (b : BaseState) (payload : Option Json) (o : Option String)
      → Placed all o
      → Leads all (finish_choice name b payload o)
  unfolding finish_choice
  finish_choice-Leads name b p none h = tt
  finish_choice-Leads name b p (some n) h = elim (Bool-cases (n =ₜ "")) [
    | inl e ↦ rw (e, finish_choice, non_empty) tt
    | inr e ↦ rw (e, finish_choice, non_empty) h
  ]

  rule-Placed :
      (name : String) (r : ChoiceRule)
      → validate_choice_rule name all true r ≡ none
      → Placed all (next_of r)
  unfolding validate_choice_rule
  rule-Placed name (rule c a o n next) h =
      exists-Placed all next (require-none _ _ (orelse-none _ _ h).0)

  choices-Placed :
      (parse_number : Json → Option ℤ) (name : String) (rs : Rules) (default : Option String)
      (payload : Option Json)
      → validate_rules name all true rs ≡ none
      → Placed all default
      → Placed all (find_next_state parse_number rs default payload)
  unfolding validate_choice_rule find_next_state
  choices-Placed f name no_rules default payload h k = k
  choices-Placed f name (rules r rs) default payload h k =
      let (first_ok, rest_ok) = orelse-none _ _ h in
      if-both (Placed all) (evaluate f r payload) (λ _. rule-Placed name r first_ok)
        (λ _. choices-Placed f name rs default payload rest_ok k)

  choice-Placed :
      (parse_number : Json → Option ℤ) (k : String) (b : BaseState) (rs : Rules)
      (default : Option String) (payload : Option Json)
      → validate_kind k all b (choice rs default) ≡ none
      → Placed all (find_next_state parse_number rs default payload)
  unfolding validate_kind
  choice-Placed f k b rs default payload h =
      let (_, h₁) = orelse-none (require (has_rules rs) (choices_missing k)) _ h in
      let (rules_ok, default_ok) = orelse-none (validate_rules k all true rs) _ h₁ in
      choices-Placed f k rs default payload rules_ok
        (if_given-Placed all default (require-none _ (default_unknown k) default_ok))

  loop-Leads :
      (parse_number : Json → Option ℤ) (name k : String) (b : BaseState) (target : String)
      (condition : ChoiceRule) (max : Option ℕ) (count : ℕ) (payload : Option Json)
      → Placed all b.next
      → validate_kind k all b (loop target condition max) ≡ none
      → Leads all
          (finish_loop parse_number name b target condition (max_iterations_of max) count payload)
  unfolding validate_kind finish_loop
  loop-Leads f name k b target condition max count payload next_ok h =
      let (target_ok, _) =
        orelse-none (require (key_exists (some target) all) (target_unknown k)) _ h in
      if-both (Leads all) (ltb (max_iterations_of max) count) (λ _. tt)
        (λ _.
          if-both (Placed all) (evaluate f condition payload)
            (λ _. exists-Placed all (some target) (require-none _ (target_unknown k) target_ok))
            (λ _. next_ok))

  handler-Leads :
      (parse_number : Json → Option ℤ) (name k : String) (b : BaseState) (kind : Kind)
      (payload : Option Json) (a : Attempt) (counters : Counters)
      → Placed all b.next
      → validate_kind k all b kind ≡ none
      → Leads all (execute_handler parse_number name (flow_state b kind) payload a counters).0
  unfolding execute_handler finish
  handler-Leads f name k b (task function e r retry catch) payload a c next_ok h =
      finish_task-Leads function b payload
        (a.call function (e || r) (resolve_input payload b.input_path)) next_ok
  handler-Leads f name k b (choice rs default) payload a c next_ok h =
      finish_choice-Leads name b payload (find_next_state f rs default payload)
        (choice-Placed f k b rs default payload h)
  handler-Leads f name k b (map_items path limit start inner retry catch) payload a c next_ok h =
      finish_settled-Leads b payload a.first_rejection
        (settle_items (a.sub_flow inner start) (items_of (get payload (some path) none))) next_ok
  handler-Leads f name k b (loop target condition max) payload a c next_ok h =
      loop-Leads f name k b target condition max (c name + 1) payload next_ok h
  handler-Leads f name k b (parallel bs retry catch) payload a c next_ok h =
      finish_settled-Leads b payload a.first_rejection
        (settle_branches (λ inner start. a.sub_flow inner start payload) bs) next_ok
  handler-Leads f name k b (pass result) payload a c next_ok h = next_ok
  handler-Leads f name k b (wait seconds) payload a c next_ok h =
      if-both (Leads all) (ltb 0 (min (or_default seconds 1) 60) && a.aborted_in_wait) (λ _. tt)
        (λ _. next_ok)
  handler-Leads f name k b succeed payload a c next_ok h = refl
  handler-Leads f name k b (fail error cause) payload a c next_ok h = refl

  pub execute_handler-Leads :
      (parse_number : Json → Option ℤ) (name k : String) (s : FlowState) (payload : Option Json)
      (a : Attempt) (counters : Counters)
      → validate_state k all s ≡ none
      → Leads all (execute_handler parse_number name s payload a counters).0
  unfolding validate_state
  execute_handler-Leads f name k (flow_state b kind) payload a counters h =
      let (base_ok, kind_ok) = orelse-none (validate_base k all b) _ h in
      handler-Leads f name k b kind payload a counters (base-Placed k all b base_ok) kind_ok
