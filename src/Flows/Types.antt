-- ===== src/Flows/Types.antt =====
-- src/flows/types.ts: the definition of a flow. What may be undefined is an option, or has a
-- constructor for it where the definition nests.
use nodestack.Prelude.{ℕ, String, Bool, List, Option}
use nodestack.Prelude.Int.{ℤ}
use nodestack.Json.{Json}

pub record RetryPolicy : Type 0 where
  pub error_equals : Option (List String)
  pub interval_seconds : Option ℕ
  pub max_attempts : Option ℤ
  pub backoff_rate : Option ℕ

pub record CatchPolicy : Type 0 where
  pub error_equals : Option (List String)
  pub next : String
  pub result_path : Option (Option String)

-- The comparisons of a choice rule.
pub record Comparisons : Type 0 where
  pub variable : Option String
  pub string_equals : Option String
  pub numeric_equals : Option ℤ
  pub numeric_greater_than : Option ℤ
  pub numeric_less_than : Option ℤ
  pub numeric_greater_than_equals : Option ℤ
  pub numeric_less_than_equals : Option ℤ
  pub boolean_equals : Option Bool
  pub is_present : Option Bool

-- A choice rule: its comparisons, `and`, `or`, `not` and `next`.
mutual
  pub data ChoiceRule : Type 0 where
    rule : Comparisons → Group → Group → Negation → Option String → ChoiceRule

  pub data Group : Type 0 where
    no_group : Group
    group : Rules → Group

  pub data Rules : Type 0 where
    no_rules : Rules
    rules : ChoiceRule → Rules → Rules

  pub data Negation : Type 0 where
    no_negation : Negation
    negation : ChoiceRule → Negation

-- The fields that all states have.
pub record BaseState : Type 0 where
  pub input_path : Option String
  pub result_path : Option (Option String)
  pub output_path : Option String
  pub next : Option String
  pub is_end : Bool

-- A state: the common fields and those of its type. `States` is the record of the states.
mutual
  pub data FlowState : Type 0 where
    flow_state : BaseState → Kind → FlowState

  pub data Kind : Type 0 where
    -- the function, whether it runs elevated or by a service role, and the retries and catches
    task : String → Bool → Bool → List RetryPolicy → List CatchPolicy → Kind
    choice : Rules → Option String → Kind
    -- the path of the items, the limit of calls, the iterator, and the retries and catches
    map_items : String → Option ℕ → String → States → List RetryPolicy → List CatchPolicy → Kind
    -- the target, the condition and the limit of iterations
    loop : String → ChoiceRule → Option ℕ → Kind
    parallel : Branches → List RetryPolicy → List CatchPolicy → Kind
    pass : Option Json → Kind
    wait : Option ℕ → Kind
    succeed : Kind
    fail : Option String → Option String → Kind

  pub data States : Type 0 where
    no_states : States
    states : String → FlowState → States → States

  pub data Branches : Type 0 where
    no_branches : Branches
    branches : String → States → Branches → Branches

pub record FlowDefinition : Type 0 where
  pub start_at : String
  pub timeout_seconds : Option ℕ
  pub all_states : States
