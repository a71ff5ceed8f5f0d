-- ===== src/Flows/Choices.antt =====
-- src/flows/runtime/ChoiceEvaluator.ts. Numbers are integers. What `Number` makes of a text, an array
-- or an object is the parameter `parse_number`, where `none` stands for NaN.
use nodestack.Prelude.{
  ℕ, String, Bool, true, false, not, List, [], ◌∷◌, ◌++◌, Option, none, some, ◌&&◌, ◌||◌, ◌=ₜ◌,
  if◌then◌else◌, codes, is_some, same_codes,
}
use nodestack.Prelude.Int.{ℤ, pos, ltb_ℤ, leb_ℤ}
use nodestack.Json.{Json, null, bool, num, text, time, arr, obj, Items, nil, cons, decimal, truthy}
use nodestack.Time.Iso.{iso_codes}
use nodestack.Flows.Types.{
  ChoiceRule, rule, Group, no_group, group, Rules, no_rules, rules, Negation, no_negation, negation,
  Comparisons,
}
use nodestack.Flows.Payload.{get}

abbrev pub is_null : Json → Bool
is_null null = true
is_null v = false

-- `String(value)`
unfoldable mutual
  unfolding decimal iso_codes

  pub json_text : Json → List ℕ
  json_text null = codes "null"
  json_text (bool true) = codes "true"
  json_text (bool false) = codes "false"
  json_text (num n) = decimal n
  json_text (text s) = codes s
  json_text (time t) = iso_codes t
  json_text (arr xs) = items_text xs
  json_text (obj fs) = codes "[object Object]"

  pub items_text : Items → List ℕ
  items_text nil = []
  items_text (cons x nil) = let x_text = json_text x in if is_null x then [] else x_text
  items_text (cons x (cons y ys)) =
      let x_text = json_text x in
      let rest = items_text (cons y ys) in (if is_null x then [] else x_text) ++ (b',' ∷ rest)

-- The test of one comparison: it passes where it is not given.
abbrev pub if_given {ℓ} : {A : Type ℓ} → Option A → (A → Bool) → Bool
if_given none test = true
if_given (some a) test = test a

-- `value !== undefined && value !== null`
abbrev pub is_there : Option Json → Bool
is_there none = false
is_there (some v) = not (is_null v)

abbrev pub with_value : Option Json → (Json → Bool) → Bool
with_value none test = false
with_value (some v) test = if is_null v then false else test v

abbrev pub eq_Bool : Bool → Bool → Bool
eq_Bool true b = b
eq_Bool false b = not b

abbrev pub eq_ℤ : ℤ → ℤ → Bool
eq_ℤ a b = leb_ℤ a b && leb_ℤ b a

-- The comparison that `booleanEquals` makes: a text is true or false by its words.
abbrev pub as_boolean : Json → Bool
as_boolean (bool b) = b
as_boolean (text s) = if s =ₜ "true" then true else if s =ₜ "false" then false else truthy (text s)
as_boolean null = truthy null
as_boolean (num n) = truthy (num n)
as_boolean (time t) = truthy (time t)
as_boolean (arr xs) = truthy (arr xs)
as_boolean (obj fs) = truthy (obj fs)

-- Something is given to evaluate.
unfoldable pub has_comparison : Comparisons → Bool
has_comparison c =
    is_some c.is_present
    || is_some c.string_equals
    || is_some c.numeric_equals
    || is_some c.numeric_greater_than
    || is_some c.numeric_less_than
    || is_some c.numeric_greater_than_equals
    || is_some c.numeric_less_than_equals
    || is_some c.boolean_equals

abbrev pub has_group : Group → Bool
has_group no_group = false
has_group (group rs) = true

abbrev pub has_negation : Negation → Bool
has_negation no_negation = false
has_negation (negation r) = true

abbrev pub next_of : ChoiceRule → Option String
next_of (rule c a o n next) = next

module _ (parse_number : Json → Option ℤ) where
  -- `typeof val === 'number' ? val : Number(val)`
  unfoldable pub number_of : Json → Option ℤ
  number_of null = some (pos 0)
  number_of (num n) = some n
  number_of (bool true) = some (pos 1)
  number_of (bool false) = some (pos 0)
  number_of (text s) = parse_number (text s)
  number_of (time t) = parse_number (time t)
  number_of (arr xs) = parse_number (arr xs)
  number_of (obj fs) = parse_number (obj fs)

  -- A comparison with the number of a value, which fails for null, undefined and NaN.
  unfoldable pub compares : Option Json → (ℤ → Bool) → Bool
  unfolding number_of
  compares val test = with_value val (λ v. number_test (number_of v))
    where
      number_test : Option ℤ → Bool
      number_test none = false
      number_test (some n) = test n

  unfoldable pub passes : Comparisons → Option Json → Bool
  unfolding compares json_text
  passes c val =
      if_given c.is_present (λ b. eq_Bool (is_there val) b)
      && if_given c.string_equals (λ s. with_value val (λ v. same_codes (json_text v) (codes s)))
      && if_given c.numeric_equals (λ n. compares val (λ m. eq_ℤ m n))
      && if_given c.numeric_greater_than (λ n. compares val (λ m. ltb_ℤ n m))
      && if_given c.numeric_less_than (λ n. compares val (λ m. ltb_ℤ m n))
      && if_given c.numeric_greater_than_equals (λ n. compares val (λ m. leb_ℤ n m))
      && if_given c.numeric_less_than_equals (λ n. compares val (λ m. leb_ℤ m n))
      && if_given c.boolean_equals (λ b. with_value val (λ v. eq_Bool (as_boolean v) b))

  -- The value that the comparisons are about.
  unfoldable pub variable_value : Comparisons → Option Json → Option Json
  unfolding get
  variable_value c payload = elim c.variable [
    | none ↦ none
    | some v ↦ if v =ₜ "" then none else get payload (some v) none
  ]

  unfoldable mutual
    unfolding passes variable_value has_comparison

    pub evaluate : ChoiceRule → Option Json → Bool
    evaluate (rule c and_rules or_rules negated next) payload =
        passes c (variable_value c payload)
        && evaluate_and and_rules payload
        && evaluate_or or_rules payload
        && evaluate_not negated payload
        && (has_comparison c || has_group and_rules || has_group or_rules || has_negation negated)

    pub evaluate_and : Group → Option Json → Bool
    evaluate_and no_group payload = true
    evaluate_and (group no_rules) payload = false
    evaluate_and (group (rules r rs)) payload = evaluate r payload && every rs payload

    pub evaluate_or : Group → Option Json → Bool
    evaluate_or no_group payload = true
    evaluate_or (group no_rules) payload = false
    evaluate_or (group (rules r rs)) payload = evaluate r payload || some_rule rs payload

    pub evaluate_not : Negation → Option Json → Bool
    evaluate_not no_negation payload = true
    evaluate_not (negation r) payload = not (evaluate r payload)

    pub every : Rules → Option Json → Bool
    every no_rules payload = true
    every (rules r rs) payload = evaluate r payload && every rs payload

    pub some_rule : Rules → Option Json → Bool
    some_rule no_rules payload = false
    some_rule (rules r rs) payload = evaluate r payload || some_rule rs payload

  unfoldable pub find_next_state : Rules → Option String → Option Json → Option String
  unfolding evaluate
  find_next_state no_rules default_branch payload = default_branch
  find_next_state (rules r rs) default_branch payload =
      if evaluate r payload then next_of r else find_next_state rs default_branch payload
