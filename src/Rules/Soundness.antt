-- ===== src/Rules/Soundness.antt =====
-- The filter that a rule makes for a list is sound: a list is refused, or permitted without a filter,
-- as a single record is.
use nodestack.Prelude.{
  ℕ, zero, suc, ◌<◌, Bool, true, false, List, [], ◌∷◌, ◌++◌, Option, none, some, ◌≡◌, refl, arith,
  ◌||◌, ltb, if◌then◌else◌, trim_codes, trim_codes-le, first_is, drop_last, drop, length, is_blank,
  any, all, All, All-map, if-both, &&-eq-true,
}
use mathlib.Core.Option
use nodestack.Prelude.Int.{ℤ}
use nodestack.Records.Filter.Scan.{split_top_level, scan_start}
use nodestack.Records.Filter.Ending.{parts-lt, unwrapped-lt}
use nodestack.Rules.Values.{RuleOperator, not_like, like, Context, resolve_value, is_truthy}
use nodestack.Rules.Engine.{
  first_operators, find_operator, found_or, first_operator, is_wrapped, left_of, right_of, each,
  walk, Verdict, allowed, either_verdict, every_verdict, wrapped_verdict, verdict_of, has_field,
  is_admin, evaluate_comparison, evaluate_expression, evaluate_rule, list_found, list_comparison,
  resolve_list_expression, build_list_filter,
}
use nodestack.Rules.Agreement.{
  Agrees, Pairs, verdicts, passed, AllAgree, verdict_of-Agrees, wrapped-Agrees, either-Agrees,
  every-Agrees,
}

-- Both come to an end, and agree.
abbrev pub Agreeing : Option Verdict → Option Bool → Type 0
Agreeing o p = (v : Verdict) × (b : Bool) × (o ≡ some v) × (p ≡ some b) × Agrees v b

each-Agreeing :
    (f : List ℕ → Option Verdict) (g : List ℕ → Option Bool) (parts : List (List ℕ))
    → All (λ p. Agreeing (f (trim_codes p)) (g (trim_codes p))) parts
    → (ps : Pairs) × (each f parts ≡ some (verdicts ps))
      × (each g parts ≡ some (passed ps))
      × AllAgree ps
unfolding each Option.bind
each-Agreeing f g [] h = ([], refl, refl, tt)
each-Agreeing f g (p ∷ parts) ((v, b, e, d, r), hs) =
    let (ps, es, ds, rs) = each-Agreeing f g parts hs in
    ((v, b) ∷ ps, rw (e, es) refl, rw (d, ds) refl, (r, rs))

-- Both take the same branch.
either_branch :
    (t : Bool) (a b : Option Verdict) (c d : Option Bool)
    → (t ≡ true → Agreeing a c)
    → (t ≡ false → Agreeing b d)
    → Agreeing (if t then a else b) (if t then c else d)
either_branch true a b c d h k = h refl
either_branch false a b c d h k = k refl

module _ (list_leaf : List ℕ → Verdict) (leaf : List ℕ → Bool)
    (leaves : (t : List ℕ) → Agrees (list_leaf t) (leaf t)) where
  abbrev list_walk : ℕ → List ℕ → Option Verdict
  list_walk = walk either_verdict every_verdict wrapped_verdict list_leaf

  abbrev record_walk : ℕ → List ℕ → Option Bool
  record_walk = walk (any (λ b. b)) (all (λ b. b)) (λ b. b) leaf

  opens : (t : List ℕ) → is_wrapped t ≡ true → first_is b'(' t ≡ true
  opens t h = (&&-eq-true _ _ (&&-eq-true _ _ h).0).0

  some_part-Agreeing :
      (o : Option (List Verdict)) (p : Option (List Bool))
      → (ps : Pairs) × (o ≡ some (verdicts ps)) × (p ≡ some (passed ps)) × AllAgree ps
      → Agreeing (Option.map either_verdict o) (Option.map (any (λ b. b)) p)
  some_part-Agreeing o p (ps, e, d, h) = (
    either_verdict (verdicts ps),
    any (λ b. b) (passed ps),
    rw e refl,
    rw d refl,
    either-Agrees ps h,
  )

  every_part-Agreeing :
      (o : Option (List Verdict)) (p : Option (List Bool))
      → (ps : Pairs) × (o ≡ some (verdicts ps)) × (p ≡ some (passed ps)) × AllAgree ps
      → Agreeing (Option.map every_verdict o) (Option.map (all (λ b. b)) p)
  every_part-Agreeing o p (ps, e, d, h) = (
    every_verdict (verdicts ps),
    all (λ b. b) (passed ps),
    rw e refl,
    rw d refl,
    every-Agrees ps h,
  )

  inner-Agreeing :
      (o : Option Verdict) (p : Option Bool)
      → Agreeing o p
      → Agreeing (Option.map wrapped_verdict o) (Option.map (λ b. b) p)
  inner-Agreeing o p (v, b, e, d, h) =
      (wrapped_verdict v, b, rw e refl, rw d refl, wrapped-Agrees v b h)

  walk-Agreeing :
      (fuel : ℕ) (expr : List ℕ)
      → length expr < fuel
      → Agreeing (list_walk fuel expr) (record_walk fuel expr)
  unfolding walk
  walk-Agreeing zero expr h = elim h [ ]
  walk-Agreeing (suc fuel) expr h =
      let parts : (k : ℕ)
          → ltb 1 (length (split_top_level k expr)) ≡ true
          → All (λ p. Agreeing (list_walk fuel (trim_codes p)) (record_walk fuel (trim_codes p)))
              (split_top_level k expr) =
        λ k many.
          All-map _ _ (λ p le. walk-Agreeing fuel (trim_codes p) (omega (arith, trim_codes-le p)))
            (split_top_level k expr) (parts-lt k expr fuel h many) in
      either_branch (ltb 1 (length (split_top_level b'|' expr))) _ _ _ _
        (λ many. some_part-Agreeing _ _ (
          each-Agreeing (list_walk fuel) (record_walk fuel) (split_top_level b'|' expr)
            (parts b'|' many)))
        (λ _.
          either_branch (ltb 1 (length (split_top_level b'&' expr))) _ _ _ _
            (λ many. every_part-Agreeing _ _ (
              each-Agreeing (list_walk fuel) (record_walk fuel) (split_top_level b'&' expr)
                (parts b'&' many)))
            (λ _.
              either_branch (is_wrapped (trim_codes expr)) _ _ _ _
                (λ t. inner-Agreeing _ _ (
                  walk-Agreeing fuel (trim_codes (drop_last (drop 1 (trim_codes expr))))
                    (omega (arith, unwrapped-lt expr (opens (trim_codes expr) t)))))
                (λ _. (
                  list_leaf (trim_codes expr),
                  leaf (trim_codes expr),
                  refl,
                  refl,
                  leaves (trim_codes expr),
                ))))

found_or-none :
    (op : RuleOperator) (o : Option ℕ) (rest : Option (RuleOperator × ℕ))
    → found_or op o rest ≡ none
    → (o ≡ none) × (rest ≡ none)
found_or-none op none rest h = (refl, h)
found_or-none op (some i) rest h = absurd (cc h)

-- A search with one operator more that finds nothing finds nothing without it.
unfound_without :
    (xs ys : List RuleOperator) (op : RuleOperator) (str : List ℕ)
    → first_operator (xs ++ op ∷ ys) str ≡ none
    → first_operator (xs ++ ys) str ≡ none
unfolding first_operator
unfound_without [] ys op str h =
    (found_or-none op (find_operator op 0 str scan_start) (first_operator ys str) h).1
unfound_without (x ∷ xs) ys op str h =
    let (e, k) =
      found_or-none x (find_operator x 0 str scan_start) (first_operator (xs ++ op ∷ ys) str) h in
    rw e (unfound_without xs ys op str k)

module _ (parse_number : List ℕ → Option ℤ) (context : Context) (fields : List (List ℕ)) where
  found-Agrees :
      (t : List ℕ) (o : Option (RuleOperator × ℕ))
      → (o ≡ none → first_operator (first_operators ++ like ∷ []) t ≡ none)
      → Agrees
          (list_found parse_number context fields t o)
          (evaluate_comparison parse_number context t)
  unfolding evaluate_comparison
  found-Agrees t none h =
      if-both (λ v. Agrees v (evaluate_comparison parse_number context t)) (has_field fields t)
        (λ _. tt)
        (λ _. rw (h refl) (verdict_of-Agrees (is_truthy (resolve_value parse_number t context))))
  found-Agrees t (some (op, i)) h =
      if-both (λ v. Agrees v (evaluate_comparison parse_number context t))
        (has_field fields (left_of t i) || has_field fields (right_of t op i)) (λ _. tt)
        (λ _. verdict_of-Agrees (evaluate_comparison parse_number context t))

  list_comparison-Agrees :
      (t : List ℕ)
      → Agrees
          (list_comparison parse_number context fields t)
          (evaluate_comparison parse_number context t)
  unfolding list_comparison
  list_comparison-Agrees t =
      found-Agrees t (first_operator (first_operators ++ not_like ∷ like ∷ []) t)
        (unfound_without first_operators (like ∷ []) not_like t)

  -- For every rule and context, both calls give a result. If the list is refused, the rule is false in
  -- the same context, and if it is permitted without a filter, the rule is true.
  pub build_list_filter-Agrees :
      (rule : Option (List ℕ))
      → (v : Verdict) × (b : Bool) × (build_list_filter parse_number context fields rule ≡ some v)
        × (evaluate_rule parse_number context rule ≡ some b)
        × Agrees v b
  unfolding build_list_filter evaluate_rule resolve_list_expression evaluate_expression
  build_list_filter-Agrees none = (
    verdict_of (is_admin context),
    is_admin context,
    refl,
    refl,
    verdict_of-Agrees (is_admin context),
  )
  build_list_filter-Agrees (some rule) =
      either_branch (is_admin context || is_blank (trim_codes rule)) _ _ _ _
        (λ _. (allowed, true, refl, refl, refl))
        (λ _.
          walk-Agreeing (list_comparison parse_number context fields)
            (evaluate_comparison parse_number context) list_comparison-Agrees
            (suc (length (trim_codes rule))) (trim_codes rule) (omega arith))
