-- ===== src/Flows/Validator.antt =====
-- src/flows/FlowValidator.ts. A definition has the types of src/flows/types.ts here, so that the tests
-- of `typeof` and of finite numbers pass; what is left is modelled in its order. A `Problem` stands for
-- the `throw` that is met first, with the name of the state.

pub mod Targets
pub mod Leads
pub mod Sound
pub mod References
pub mod Renaming
pub mod Triggers
pub mod Patterns
pub mod Reached
use nodestack.Prelude.{
  ℕ, zero, suc, String, Bool, true, false, not, Option, none, some, ◌&&◌, ◌||◌, ◌==◌, ◌=ₜ◌, is_some,
  trim,
}
use Prim.Native.Char.{code}
use nodestack.Flows.Types.{
  Comparisons, ChoiceRule, rule, Group, no_group, group, Rules, no_rules, rules, Negation,
  no_negation, negation, BaseState, FlowState, flow_state, Kind, task, choice, map_items, loop,
  parallel, pass, wait, succeed, fail, States, no_states, states, Branches, no_branches, branches,
  FlowDefinition,
}
use nodestack.Flows.Paths.{is_unsafe_path}
use nodestack.Flows.Choices.{has_comparison, has_group, has_negation}
use nodestack.Flows.Engine.{find_state}

pub data Problem : Type 0 where
  start_missing states_missing start_unknown : Problem
  path_invalid path_unsafe next_unknown next_and_end function_missing no_transition :
      String → Problem
  choices_missing rule_next_unknown operator_missing variable_invalid variable_unsafe group_empty
        default_unknown :
      String → Problem
  items_path_invalid concurrency_invalid target_unknown iterations_invalid branches_missing :
      String → Problem

infixr 20 ◌orelse◌
abbrev pub ◌orelse◌ : Option Problem → Option Problem → Option Problem
none orelse q = q
some p orelse q = some p

abbrev pub require : Bool → Problem → Option Problem
require true p = none
require false p = some p

-- `allKeys.includes(name)`
abbrev pub has_key : String → States → Bool
has_key name all = is_some (find_state name all)

abbrev pub starts_with_dollar : String → Bool
starts_with_dollar String.[] = false
starts_with_dollar (String.◌∷◌ c s) = code c == b'$'

-- The text is given and not empty.
abbrev pub is_given : Option String → Bool
is_given none = false
is_given (some s) = not (s =ₜ "")

abbrev pub key_exists : Option String → States → Bool
key_exists none all = false
key_exists (some s) all = not (s =ₜ "") && has_key s all

unfoldable pub validate_path : String → Option String → Option Problem
validate_path name none = none
validate_path name (some p) =
    require (p =ₜ "" || starts_with_dollar p) (path_invalid name)
    orelse require (not (is_unsafe_path (some p))) (path_unsafe name)

abbrev pub or_undefined : Option (Option String) → Option String
or_undefined none = none
or_undefined (some p) = p

-- The checks of `validateChoiceRule` before the nested rules.
unfoldable pub validate_comparisons : String → Comparisons → Bool → Option Problem
unfolding has_comparison
validate_comparisons name c has_logical_op =
    require (has_comparison c || has_logical_op) (operator_missing name)
    orelse require (variable_ok c.variable (has_comparison c)) (variable_invalid name)
    orelse require (not (is_unsafe_path c.variable)) (variable_unsafe name)
  where
    variable_ok : Option String → Bool → Bool
    variable_ok none needed = not needed
    variable_ok (some v) needed = starts_with_dollar v

unfoldable mutual
  unfolding validate_comparisons

  pub validate_choice_rule : String → States → Bool → ChoiceRule → Option Problem
  validate_choice_rule name all needs_next (rule c and_rules or_rules negated next) =
      require (not needs_next || key_exists next all) (rule_next_unknown name)
      orelse validate_comparisons name c
          (has_group and_rules || has_group or_rules || has_negation negated)
      orelse validate_group name all and_rules
      orelse validate_group name all or_rules
      orelse validate_negation name all negated

  pub validate_group : String → States → Group → Option Problem
  validate_group name all no_group = none
  validate_group name all (group no_rules) = some (group_empty name)
  validate_group name all (group (rules r rs)) =
      validate_choice_rule name all false r orelse validate_rules name all false rs

  pub validate_rules : String → States → Bool → Rules → Option Problem
  validate_rules name all needs_next no_rules = none
  validate_rules name all needs_next (rules r rs) =
      validate_choice_rule name all needs_next r orelse validate_rules name all needs_next rs

  pub validate_negation : String → States → Negation → Option Problem
  validate_negation name all no_negation = none
  validate_negation name all (negation r) = validate_choice_rule name all false r

abbrev pub is_positive : Option ℕ → Bool
is_positive none = true
is_positive (some zero) = false
is_positive (some (suc n)) = true

abbrev pub has_rules : Rules → Bool
has_rules no_rules = false
has_rules (rules r rs) = true

abbrev pub has_branches : Branches → Bool
has_branches no_branches = false
has_branches (branches start inner rest) = true

abbrev pub has_states : States → Bool
has_states no_states = false
has_states (states k s rest) = true

abbrev pub must_go_on : String → BaseState → Option Problem
must_go_on name b = require (is_given b.next || b.is_end) (no_transition name)

-- The checks that all states have.
unfoldable pub validate_base : String → States → BaseState → Option Problem
unfolding validate_path
validate_base name all b =
    validate_path name b.input_path
    orelse validate_path name (or_undefined b.result_path)
    orelse validate_path name b.output_path
    orelse require (not (is_given b.next) || key_exists b.next all) (next_unknown name)
    orelse require (not (is_given b.next) || not b.is_end) (next_and_end name)

-- The checks of a flow before those of its states.
unfoldable pub validate_start : String → States → Option Problem → Option Problem
unfolding find_state
validate_start start all checked =
    require (not (trim start =ₜ "")) start_missing
    orelse require (has_states all) states_missing
    orelse require (has_key start all) start_unknown
    orelse checked

unfoldable mutual
  unfolding validate_start validate_base validate_rules validate_path find_state trim

  pub validate_state : String → States → FlowState → Option Problem
  validate_state name all (flow_state b kind) =
      validate_base name all b orelse validate_kind name all b kind

  pub validate_kind : String → States → BaseState → Kind → Option Problem
  validate_kind name all b (task function elevated service_role retry catch) =
      require (not (trim function =ₜ "")) (function_missing name) orelse must_go_on name b
  validate_kind name all b (choice choices default) =
      require (has_rules choices) (choices_missing name)
      orelse validate_rules name all true choices
      orelse require (not (is_given default) || key_exists default all) (default_unknown name)
  validate_kind name all b (map_items items_path limit start inner retry catch) =
      validate_path name (some items_path)
      orelse require (starts_with_dollar items_path) (items_path_invalid name)
      orelse require (is_positive limit) (concurrency_invalid name)
      orelse validate_start start inner (validate_states inner inner)
      orelse must_go_on name b
  validate_kind name all b (loop target condition max) =
      require (key_exists (some target) all) (target_unknown name)
      orelse require (is_positive max) (iterations_invalid name)
      orelse validate_choice_rule name all false condition
      orelse must_go_on name b
  validate_kind name all b (parallel bs retry catch) =
      require (has_branches bs) (branches_missing name)
      orelse validate_branches bs
      orelse must_go_on name b
  validate_kind name all b (pass result) = must_go_on name b
  validate_kind name all b (wait seconds) = must_go_on name b
  validate_kind name all b succeed = none
  validate_kind name all b (fail error cause) = none

  pub validate_states : States → States → Option Problem
  validate_states all no_states = none
  validate_states all (states k s rest) = validate_state k all s orelse validate_states all rest

  pub validate_branches : Branches → Option Problem
  validate_branches no_branches = none
  validate_branches (branches start inner rest) =
      validate_start start inner (validate_states inner inner) orelse validate_branches rest

unfoldable pub validate : FlowDefinition → Option Problem
unfolding validate_state
validate definition =
    validate_start definition.start_at definition.all_states
      (validate_states definition.all_states definition.all_states)
