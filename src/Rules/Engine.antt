-- ===== src/Rules/Engine.antt =====
-- src/rules/RuleEngine.ts: the evaluation of an access rule, and the filter that it makes of a rule for
-- a list of records. Rules are lists of code points. `splitTopLevel` is that of
-- src/records/QueryFilterParser.ts, character by character. The two recursions take an expression apart
-- alike, so that `walk` is both, with what each does with the parts.
use nodestack.Prelude.{
  ℕ, zero, suc, ◌+◌, Bool, true, false, not, List, [], ◌∷◌, ◌++◌, Option, none, some, ◌&&◌, ◌||◌,
  ◌==◌, ltb, if◌then◌else◌, codes, starts_with, trim_codes, first_is, last_is, drop_last, drop,
  take, length, is_blank, any, all, join, same_codes,
}
use mathlib.Core.Option
use nodestack.Prelude.Int.{ℤ, pos}
use nodestack.Json.{truthy, decimal}
use nodestack.Records.Codec.{encode}
use nodestack.Records.Filter.Scan.{
  Seen, Scan, scan_start, scan_step, is_top, is_zero, increase, decrease, split_top_level,
}
use nodestack.Rules.Values.{
  RuleOperator, ne, same, ge, le, eq, gt, lt, not_like, like, RuleValue, undefined, nothing,
  boolean, number, string, other, Context, property_of, value_of, auth_prefix, query_prefix,
  resolve_value, compare_values, is_truthy,
}

abbrev pub rule_operator_text : RuleOperator → List ℕ
rule_operator_text ne = codes "!="
rule_operator_text same = codes "=="
rule_operator_text ge = codes ">="
rule_operator_text le = codes "<="
rule_operator_text eq = codes "="
rule_operator_text gt = codes ">"
rule_operator_text lt = codes "<"
rule_operator_text not_like = codes "!~"
rule_operator_text like = codes "~"

-- The operators before `!~`, in the order in which they are tried.
abbrev pub first_operators : List RuleOperator
first_operators = ne ∷ same ∷ ge ∷ le ∷ eq ∷ gt ∷ lt ∷ []

-- `!`, `<` or `>` stands before `=`.
abbrev pub is_longer : RuleOperator → Seen → Bool
is_longer eq (c ∷ seen) = c == b'!' || c == b'<' || c == b'>'
is_longer op seen = false

unfoldable pub find_operator : RuleOperator → ℕ → List ℕ → Scan → Option ℕ
unfolding scan_step is_top
find_operator op i [] s = none
find_operator op i (c ∷ cs) s =
    let rest = find_operator op (i + 1) cs (scan_step c s) in
    if is_top c s && starts_with (c ∷ cs) (rule_operator_text op) && not (is_longer op s.seen)
    then some i
    else rest

-- An operator that is found is taken with its index, and the rest is looked at if it is not.
abbrev pub found_or :
    RuleOperator → Option ℕ → Option (RuleOperator × ℕ) → Option (RuleOperator × ℕ)
found_or op (some i) rest = some (op, i)
found_or op none rest = rest

-- The loop over the operators: the first that is found.
unfoldable pub first_operator : List RuleOperator → List ℕ → Option (RuleOperator × ℕ)
unfolding find_operator
first_operator [] str = none
first_operator (op ∷ ops) str =
    found_or op (find_operator op 0 str scan_start) (first_operator ops str)

abbrev pub left_of : List ℕ → ℕ → List ℕ
left_of str i = trim_codes (take i str)

abbrev pub right_of : List ℕ → RuleOperator → ℕ → List ℕ
right_of str op i = trim_codes (drop (i + length (rule_operator_text op)) str)

-- `isFullyEnclosed`, which does not look at quotes.
unfoldable pub is_enclosed_from : List ℕ → ℤ → Bool
is_enclosed_from [] depth = is_zero depth
is_enclosed_from (c ∷ cs) depth =
    let depth' =
      if c == b'(' then increase depth else if c == b')' then decrease depth else depth in
    let rest = is_enclosed_from cs depth' in
    if is_zero depth' && not (is_blank cs) then false else rest

abbrev pub is_wrapped : List ℕ → Bool
is_wrapped t = first_is b'(' t && last_is b')' t && is_enclosed_from t (pos 0)

unfoldable pub each {ℓ} : {A : Type ℓ} → (List ℕ → Option A) → List (List ℕ) → Option (List A)
each f [] = some []
each f (p ∷ ps) = Option.bind (f (trim_codes p)) (λ a. Option.map (λ xs. a ∷ xs) (each f ps))

module _ {ℓ} {A : Type ℓ} (disjunction conjunction : List A → A) (wrap : A → A)
    (leaf : List ℕ → A) where
  -- `none` says that the fuel ran out.
  unfoldable pub walk : ℕ → List ℕ → Option A
  unfolding each is_enclosed_from
  walk zero expr = none
  walk (suc fuel) expr =
      let or_parts = split_top_level b'|' expr in
      let and_parts = split_top_level b'&' expr in
      let trimmed = trim_codes expr in
      let some_part = Option.map disjunction (each (walk fuel) or_parts) in
      let every_part = Option.map conjunction (each (walk fuel) and_parts) in
      let inner = Option.map wrap (walk fuel (trim_codes (drop_last (drop 1 trimmed)))) in
      if ltb 1 (length or_parts)
      then some_part
      else if ltb 1 (length and_parts)
      then every_part
      else if is_wrapped trimmed
      then inner
      else some (leaf trimmed)

-- `allowed: false`, `allowed: true`, and `allowed: true` with a filter.
pub data Verdict : Type 0 where
  refused allowed : Verdict
  filtered : List ℕ → Verdict

abbrev pub filters_of : List Verdict → List (List ℕ)
filters_of [] = []
filters_of (refused ∷ vs) = filters_of vs
filters_of (allowed ∷ vs) = filters_of vs
filters_of (filtered f ∷ vs) = f ∷ filters_of vs

abbrev pub is_allowed_verdict : Verdict → Bool
is_allowed_verdict allowed = true
is_allowed_verdict refused = false
is_allowed_verdict (filtered f) = false

abbrev pub is_refused : Verdict → Bool
is_refused refused = true
is_refused allowed = false
is_refused (filtered f) = false

abbrev pub either_filter : List (List ℕ) → Verdict
either_filter [] = refused
either_filter (f ∷ []) = filtered f
either_filter (f ∷ g ∷ fs) = filtered (b'(' ∷ (join (codes " || ") (f ∷ g ∷ fs) ++ b')' ∷ []))

-- The loop of the `||` branch.
unfoldable pub either_verdict : List Verdict → Verdict
unfolding join
either_verdict vs = if any is_allowed_verdict vs then allowed else either_filter (filters_of vs)

abbrev pub every_filter : List (List ℕ) → Verdict
every_filter [] = allowed
every_filter (f ∷ fs) = filtered (join (codes " && ") (f ∷ fs))

-- The loop of the `&&` branch.
unfoldable pub every_verdict : List Verdict → Verdict
unfolding join
every_verdict vs = if any is_refused vs then refused else every_filter (filters_of vs)

abbrev pub wrapped_verdict : Verdict → Verdict
wrapped_verdict refused = refused
wrapped_verdict allowed = allowed
wrapped_verdict (filtered f) = filtered (b'(' ∷ (f ++ b')' ∷ []))

abbrev pub verdict_of : Bool → Verdict
verdict_of true = allowed
verdict_of false = refused

-- The text of a value that replaces a variable of the request.
abbrev pub substituted : RuleValue → List ℕ
substituted undefined = codes "''"
substituted nothing = codes "''"
substituted (boolean true) = codes "true"
substituted (boolean false) = codes "false"
substituted (number n) = decimal n
substituted (string s) = encode (some s)
substituted (other s) = encode (some s)

unfoldable pub substitute_variables : List ℕ → Context → List ℕ
unfolding property_of encode
substitute_variables token context =
    let t = trim_codes token in
    if starts_with t auth_prefix
    then substituted (value_of (property_of (drop 14 t) context.auth))
    else if starts_with t query_prefix
    then substituted (value_of (property_of (drop 15 t) context.query_fields))
    else t

abbrev pub normalized_text : RuleOperator → List ℕ
normalized_text same = codes "="
normalized_text ne = codes "!="
normalized_text ge = codes ">="
normalized_text le = codes "<="
normalized_text eq = codes "="
normalized_text gt = codes ">"
normalized_text lt = codes "<"
normalized_text not_like = codes "!~"
normalized_text like = codes "~"

abbrev pub has_field : List (List ℕ) → List ℕ → Bool
has_field fields t = any (λ f. same_codes f t) fields

-- `context.auth?.isAdmin`
abbrev pub is_admin : Context → Bool
is_admin context = elim (property_of (codes "isAdmin") context.auth) [
  | none ↦ false
  | some v ↦ truthy v
]

module _ (parse_number : List ℕ → Option ℤ) (context : Context) where
  abbrev pub compare_found : List ℕ → Option (RuleOperator × ℕ) → Bool
  compare_found str none = is_truthy (resolve_value parse_number str context)
  compare_found str (some (op, i)) =
      compare_values parse_number op (resolve_value parse_number (left_of str i) context)
        (resolve_value parse_number (right_of str op i) context)

  unfoldable pub evaluate_comparison : List ℕ → Bool
  unfolding first_operator compare_values resolve_value
  evaluate_comparison str = compare_found str (first_operator (first_operators ++ like ∷ []) str)

  -- `evaluateExpression`
  unfoldable pub evaluate_expression : ℕ → List ℕ → Option Bool
  unfolding walk evaluate_comparison
  evaluate_expression = walk (any (λ b. b)) (all (λ b. b)) (λ b. b) evaluate_comparison

  unfoldable pub evaluate_rule : Option (List ℕ) → Option Bool
  unfolding evaluate_expression property_of
  evaluate_rule none = some (is_admin context)
  evaluate_rule (some rule) =
      let t = trim_codes rule in
      let found = evaluate_expression (suc (length t)) t in
      if is_admin context || is_blank t then some true else found

  module _ (schema_fields : List (List ℕ)) where
    -- The body of the loop over the operators, and what follows it.
    abbrev pub list_found : List ℕ → Option (RuleOperator × ℕ) → Verdict
    list_found t none =
        if has_field schema_fields t
        then filtered (t ++ codes " = true")
        else verdict_of (is_truthy (resolve_value parse_number t context))
    list_found t (some (op, i)) =
        if has_field schema_fields (left_of t i) || has_field schema_fields (right_of t op i)
        then filtered (
            substitute_variables (left_of t i) context
            ++ (b' '
                ∷ (normalized_text op ++ (b' ' ∷ substitute_variables (right_of t op i) context))))
        else verdict_of (evaluate_comparison t)

    unfoldable pub list_comparison : List ℕ → Verdict
    unfolding first_operator evaluate_comparison substitute_variables resolve_value
    list_comparison t = list_found t (first_operator (first_operators ++ not_like ∷ like ∷ []) t)

    -- `resolveListExpression`
    unfoldable pub resolve_list_expression : ℕ → List ℕ → Option Verdict
    unfolding walk list_comparison either_verdict every_verdict
    resolve_list_expression = walk either_verdict every_verdict wrapped_verdict list_comparison

    unfoldable pub build_list_filter : Option (List ℕ) → Option Verdict
    unfolding resolve_list_expression property_of
    build_list_filter none = some (verdict_of (is_admin context))
    build_list_filter (some rule) =
        let t = trim_codes rule in
        let found = resolve_list_expression (suc (length t)) t in
        if is_admin context || is_blank t then some allowed else found
