-- ===== src/Rules/Values.antt =====
-- src/rules/RuleEngine.ts: the values of a rule's tokens, and their comparison. Numbers are integers,
-- and letters outside ASCII keep their case. What `Number` makes of a text is the parameter
-- `parse_number`, where `none` stands for NaN. The properties that values inherit are undefined here.
use nodestack.Prelude.{
  ℕ, ◌+◌, Bool, true, false, not, List, [], ◌∷◌, Option, none, some, ◌&&◌, ◌||◌, ◌==◌, leb,
  if◌then◌else◌, codes, starts_with, trim_codes, same_codes, first_is, last_is, drop, map,
}
use nodestack.Prelude.Int.{ℤ, pos, negsuc, leb_ℤ}
use nodestack.Json.{Json, null, bool, num, text, time, arr, obj, Fields, end, field, decimal}
use nodestack.Time.Iso.{iso_codes}
use nodestack.Flows.Choices.{json_text, eq_Bool}
use nodestack.Flows.Errors.{includes_text}
use nodestack.Records.Codec.{decode}

-- `other` is the text of an object or an array.
pub data RuleValue : Type 0 where
  undefined nothing : RuleValue
  boolean : Bool → RuleValue
  number : ℤ → RuleValue
  string other : List ℕ → RuleValue

abbrev pub value_of : Option Json → RuleValue
value_of none = undefined
value_of (some null) = nothing
value_of (some (bool b)) = boolean b
value_of (some (num n)) = number n
value_of (some (text s)) = string (codes s)
value_of (some (time t)) = string (iso_codes t)
value_of (some (arr xs)) = other (json_text (arr xs))
value_of (some (obj fs)) = other (json_text (obj fs))

-- `RuleEvaluationContext`
pub record Context : Type 0 where
  pub auth : Option Fields
  pub record_fields : Option Fields
  pub data_fields : Option Fields
  pub query_fields : Option Fields

unfoldable pub field_of : List ℕ → Fields → Option Json
field_of k end = none
field_of k (field j v fs) = if same_codes (codes j) k then some v else field_of k fs

unfoldable pub property_of : List ℕ → Option Fields → Option Json
unfolding field_of
property_of k none = none
property_of k (some fs) = field_of k fs

abbrev pub lower : ℕ → ℕ
lower c = if leb b'A' c && leb c b'Z' then c + 32 else c

-- `text.toLowerCase()`
abbrev pub lower_text : List ℕ → List ℕ
lower_text s = map lower s

abbrev pub auth_prefix : List ℕ
auth_prefix = codes "@request.auth."

abbrev pub data_prefix : List ℕ
data_prefix = codes "@request.data."

abbrev pub query_prefix : List ℕ
query_prefix = codes "@request.query."

abbrev pub is_quoted_token : List ℕ → Bool
is_quoted_token t = (first_is 34 t && last_is 34 t) || (first_is 39 t && last_is 39 t)

-- A field of the record, or of the data where the record has none.
abbrev pub own_field : Option Json → Option Json → Option Json
own_field none data_value = data_value
own_field (some v) data_value = some v

-- `String(value ?? '')`
abbrev pub text_of : RuleValue → List ℕ
text_of undefined = []
text_of nothing = []
text_of (boolean true) = codes "true"
text_of (boolean false) = codes "false"
text_of (number n) = decimal n
text_of (string s) = s
text_of (other s) = s

abbrev pub is_boolean : RuleValue → Bool
is_boolean (boolean b) = true
is_boolean v = false

abbrev pub is_null_value : RuleValue → Bool
is_null_value nothing = true
is_null_value v = false

abbrev pub is_missing : RuleValue → Bool
is_missing nothing = true
is_missing undefined = true
is_missing v = false

abbrev pub is_bool_like : RuleValue → Bool
is_bool_like (boolean b) = true
is_bool_like (number (pos n)) = n == 0 || n == 1
is_bool_like (string s) =
    same_codes s (codes "true")
    || same_codes s (codes "false")
    || same_codes s (codes "1")
    || same_codes s (codes "0")
is_bool_like v = false

abbrev pub to_bool : RuleValue → Bool
to_bool (boolean b) = b
to_bool (number (pos n)) = n == 1
to_bool (string s) = same_codes s (codes "1") || same_codes s (codes "true")
to_bool v = false

-- `Boolean(value)`
abbrev pub is_truthy : RuleValue → Bool
is_truthy undefined = false
is_truthy nothing = false
is_truthy (boolean b) = b
is_truthy (number (pos n)) = not (n == 0)
is_truthy (number (negsuc n)) = true
is_truthy (string []) = false
is_truthy (string (c ∷ s)) = true
is_truthy (other s) = true

pub data RuleOperator : Type 0 where
  ne same ge le eq gt lt not_like like : RuleOperator

-- One case of the `switch` that compares two numbers, with NaN.
abbrev pub both_numbers : Option ℤ → Option ℤ → (ℤ → ℤ → Bool) → Bool
both_numbers none b test = false
both_numbers (some a) none test = false
both_numbers (some a) (some b) test = test a b

module _ (parse_number : List ℕ → Option ℤ) where
  unfoldable pub resolve_value : List ℕ → Context → RuleValue
  unfolding property_of
  resolve_value token context =
      let t = trim_codes token in
      if is_quoted_token t then string (decode t) else literal t (parse_number t)
    where
      path_value : List ℕ → RuleValue
      path_value t =
          if starts_with t auth_prefix
          then value_of (property_of (drop 14 t) context.auth)
          else if starts_with t data_prefix
          then value_of (property_of (drop 14 t) context.data_fields)
          else if starts_with t query_prefix
          then value_of (property_of (drop 15 t) context.query_fields)
          else value_of
              (own_field (property_of t context.record_fields) (property_of t context.data_fields))

      word : List ℕ → RuleValue
      word t =
          if same_codes (lower_text t) (codes "true")
          then boolean true
          else if same_codes (lower_text t) (codes "false")
          then boolean false
          else if same_codes (lower_text t) (codes "null")
          then nothing
          else path_value t

      literal : List ℕ → Option ℤ → RuleValue
      literal [] n = word []
      literal (c ∷ t) none = word (c ∷ t)
      literal (c ∷ t) (some n) = number n

  -- `Number(value)`
  abbrev pub rule_number : RuleValue → Option ℤ
  rule_number undefined = none
  rule_number nothing = some (pos 0)
  rule_number (boolean true) = some (pos 1)
  rule_number (boolean false) = some (pos 0)
  rule_number (number n) = some n
  rule_number (string s) = parse_number s
  rule_number (other s) = parse_number s

  -- The `switch` over the operators. `!~` is none of its cases, nor of those before it.
  unfoldable pub compare_texts : RuleOperator → RuleValue → RuleValue → Bool
  unfolding includes_text
  compare_texts eq l r = same_codes (text_of l) (text_of r)
  compare_texts same l r = same_codes (text_of l) (text_of r)
  compare_texts ne l r = not (same_codes (text_of l) (text_of r))
  compare_texts gt l r = both_numbers (rule_number l) (rule_number r) (λ a b. not (leb_ℤ a b))
  compare_texts ge l r = both_numbers (rule_number l) (rule_number r) (λ a b. leb_ℤ b a)
  compare_texts lt l r = both_numbers (rule_number l) (rule_number r) (λ a b. not (leb_ℤ b a))
  compare_texts le l r = both_numbers (rule_number l) (rule_number r) (λ a b. leb_ℤ a b)
  compare_texts like l r = includes_text (lower_text (text_of l)) (lower_text (text_of r))
  compare_texts not_like l r = false

  abbrev pub as_equality : RuleOperator → Bool → Bool → Bool
  as_equality eq equal otherwise = equal
  as_equality same equal otherwise = equal
  as_equality ne equal otherwise = not equal
  as_equality gt equal otherwise = otherwise
  as_equality ge equal otherwise = otherwise
  as_equality lt equal otherwise = otherwise
  as_equality le equal otherwise = otherwise
  as_equality like equal otherwise = otherwise
  as_equality not_like equal otherwise = otherwise

  -- The comparison of two values that were found.
  unfoldable pub compare_values : RuleOperator → RuleValue → RuleValue → Bool
  unfolding compare_texts
  compare_values op l r =
      let by_text = compare_texts op l r in
      let by_null =
        if is_null_value l || is_null_value r
        then as_equality op (eq_Bool (is_missing l) (is_missing r) && is_missing l) by_text
        else by_text in
      if (is_boolean l || is_boolean r)
        && not (is_missing l)
        && not (is_missing r)
        && is_bool_like l
        && is_bool_like r
      then as_equality op (eq_Bool (to_bool l) (to_bool r)) by_null
      else by_null
