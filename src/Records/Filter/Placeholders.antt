-- ===== src/Records/Filter/Placeholders.antt =====
-- The clause that `parseFilter` makes has a placeholder for each of its parameters.
use nodestack.Prelude.{
  ℕ, zero, suc, ◌+◌, Bool, true, false, not, List, [], ◌∷◌, ◌++◌, Option, none, some, inl, inr,
  ◌&&◌, ◌||◌, ◌==◌, if◌then◌else◌, ◌≡◌, subst, refl, arith, Option-cases, &&-eq-true, All, all, map,
  filter, join, if-both, length, length-append, take, ltb, is_blank, first_is, last_is, trim_codes,
  codes,
}
use mathlib.Core.Option
use nodestack.Records.Filter.Scan.{
  Operator, ne, ge, le, eq, gt, lt, not_like, like, operators, find_operator_index, split_top_level,
  is_fully_enclosed,
}
use nodestack.Records.Filter.Literals.{
  Value, text, number, flag, null, is_word, is_allowed, is_word_char,
}
use nodestack.Records.Filter.{
  Parsed, prefix_text, column, comparison, compare_at, parse_with, combine, pushed, convert_each,
  wrapped, where_clause, parse_single_comparison, convert, parse_filter,
}

-- The placeholders of a clause.
abbrev pub marks : List ℕ → ℕ
marks [] = 0
marks (c ∷ cs) = (if c == b'?' then 1 else 0) + marks cs

marks-append : (xs ys : List ℕ) → marks (xs ++ ys) ≡ marks xs + marks ys
marks-append [] ys = omega arith
marks-append (x ∷ xs) ys = omega (arith, marks-append xs ys)

abbrev pub IsBalanced : Parsed → Type 0
IsBalanced r = marks r.0 ≡ length r.1

marks-word : (name : List ℕ) → all is_word_char name ≡ true → marks name ≡ 0
marks-word [] h = refl
marks-word (c ∷ name) h =
    let (p, q) = &&-eq-true (is_word_char c) _ h in
    let other : (c == b'?') ≡ false = word-ne-mark c p in
    rw other (omega (arith, marks-word name q))
  where
    word-ne-mark : (c : ℕ) → is_word_char c ≡ true → (c == b'?') ≡ false
    word-ne-mark c p = ground arith

comparison-IsBalanced :
    (number_text : List ℕ → List ℕ) (op : Operator) (col : List ℕ) (v : Value)
    → marks col ≡ 0
    → IsBalanced (comparison number_text op col v)
unfolding comparison
comparison-IsBalanced f eq col null h = omega (arith, marks-append col (codes " IS NULL"))
comparison-IsBalanced f eq col (text s) h = omega (arith, marks-append col (codes " = ?"))
comparison-IsBalanced f eq col (number s) h = omega (arith, marks-append col (codes " = ?"))
comparison-IsBalanced f eq col (flag s) h = omega (arith, marks-append col (codes " = ?"))
comparison-IsBalanced f ne col null h = omega (arith, marks-append col (codes " IS NOT NULL"))
comparison-IsBalanced f ne col (text s) h = omega (arith, marks-append col (codes " != ?"))
comparison-IsBalanced f ne col (number s) h = omega (arith, marks-append col (codes " != ?"))
comparison-IsBalanced f ne col (flag s) h = omega (arith, marks-append col (codes " != ?"))
comparison-IsBalanced f gt col v h = omega (arith, marks-append col (codes " > ?"))
comparison-IsBalanced f ge col v h = omega (arith, marks-append col (codes " >= ?"))
comparison-IsBalanced f lt col v h = omega (arith, marks-append col (codes " < ?"))
comparison-IsBalanced f le col v h = omega (arith, marks-append col (codes " <= ?"))
comparison-IsBalanced f like col v h = omega (arith, marks-append col (codes " LIKE ? ESCAPE '\\'"))
comparison-IsBalanced f not_like col v h =
    omega (arith, marks-append col (codes " NOT LIKE ? ESCAPE '\\'"))

marks-column :
    (table_prefix : Option (List ℕ)) (name : List ℕ)
    → marks (prefix_text table_prefix) ≡ 0
    → all is_word_char name ≡ true
    → marks (column table_prefix name) ≡ 0
unfolding column
marks-column p name h hn = omega (
  arith,
  marks-append (prefix_text p) (34 ∷ (name ++ 34 ∷ [])),
  marks-append name (34 ∷ []),
  marks-word name hn,
)

word-of :
    (name : List ℕ) (a : Bool)
    → (not (is_word name) || not a) ≡ false
    → all is_word_char name ≡ true
unfolding is_word
word-of name a h = ground arith

total : List (List ℕ) → ℕ
total [] = 0
total (x ∷ xs) = marks x + total xs

marks-join : (word : List ℕ) (xs : List (List ℕ)) → marks word ≡ 0 → marks (join word xs) ≡ total xs
unfolding join total
marks-join word [] h = refl
marks-join word (x ∷ []) h = omega arith
marks-join word (x ∷ y ∷ ys) h = omega (
  arith,
  marks-append x (word ++ join word (y ∷ ys)),
  marks-append word (join word (y ∷ ys)),
  marks-join word (y ∷ ys) h,
)

-- A clause that is left out has no placeholder.
total-kept :
    (results : List Parsed)
    → All IsBalanced results
    → total (filter (λ c. not (is_blank c)) (map (λ r. r.0) results)) ≡ length (pushed results)
unfolding total
total-kept [] h = refl
total-kept (([], ps) ∷ rs) (e, h) = omega (arith, total-kept rs h, length-append ps (pushed rs))
total-kept ((c ∷ cs, ps) ∷ rs) (e, h) = omega (arith, total-kept rs h, length-append ps (pushed rs))

combine-IsBalanced :
    (word : List ℕ) (results : List Parsed)
    → marks word ≡ 0
    → All IsBalanced results
    → IsBalanced (combine word results)
unfolding combine total
combine-IsBalanced word results hw h =
    wrap (filter (λ c. not (is_blank c)) (map (λ r. r.0) results)) (total-kept results h)
  where
    wrap :
        (clauses : List (List ℕ))
        → total clauses ≡ length (pushed results)
        → marks (if is_blank clauses then [] else b'(' ∷ (join word clauses ++ b')' ∷ []))
          ≡ length (pushed results)
    wrap [] k = k
    wrap (x ∷ xs) k =
        omega (arith, marks-join word (x ∷ xs) hw, marks-append (join word (x ∷ xs)) (b')' ∷ []))

wrapped-IsBalanced : (r : Parsed) → IsBalanced r → IsBalanced (wrapped r)
wrapped-IsBalanced ([], ps) h = h
wrapped-IsBalanced (c ∷ cs, ps) h = omega (arith, marks-append (c ∷ cs) (b')' ∷ []))

where-IsBalanced : (r : Parsed) → IsBalanced r → IsBalanced (where_clause r)
where-IsBalanced ([], ps) h = h
where-IsBalanced (c ∷ cs, ps) h = omega (arith, marks-append (codes "WHERE ") (c ∷ cs))

-- What holds of the value of an option, if it has one.
Given : {A : Type 0} → (A → Type 0) → Option A → Type 0
Given P none = Unit
Given P (some a) = P a

Given-map :
    {A B : Type 0} (P : A → Type 0) (Q : B → Type 0) (f : A → B)
    → ((a : A) → P a → Q (f a))
    → (o : Option A) → Given P o
    → Given Q (Option.map f o)
unfolding Given
Given-map P Q f k none h = tt
Given-map P Q f k (some a) h = k a h

each-IsBalanced :
    (f : List ℕ → Option Parsed) (parts : List (List ℕ))
    → ((p : List ℕ) → Given IsBalanced (f p))
    → Given (All IsBalanced) (convert_each f parts)
unfolding convert_each Given
each-IsBalanced f [] h = tt
each-IsBalanced f (p ∷ ps) h = elim (Option-cases (f (trim_codes p))) [
  | inl e ↦ rw (e, convert_each) tt
  | inr (r, e) ↦
      rw (e, convert_each)
        (Given-map (All IsBalanced) (All IsBalanced) (λ rs. r ∷ rs)
          (λ rs k. (subst (Given IsBalanced) e (h (trim_codes p)), k)) (convert_each f ps)
          (each-IsBalanced f ps h))
]

module _ (number_text : List ℕ → List ℕ) (allowed : Option (List (List ℕ)))
    (table_prefix : Option (List ℕ)) (plain : marks (prefix_text table_prefix) ≡ 0) where
  compare-IsBalanced :
      (op : Operator) (str : List ℕ) (i : ℕ)
      → IsBalanced (compare_at number_text allowed table_prefix op str i)
  unfolding compare_at
  compare-IsBalanced op str i =
      let name = trim_codes (take i str) in
      if-both IsBalanced (not (is_word name) || not (is_allowed allowed name)) (λ _. refl)
        (λ t.
          comparison-IsBalanced number_text op (column table_prefix name) _
            (marks-column table_prefix name plain (word-of name (is_allowed allowed name) t)))

  single-IsBalanced :
      (ops : List Operator) (str : List ℕ)
      → IsBalanced (parse_with number_text allowed table_prefix ops str)
  unfolding parse_with
  single-IsBalanced [] str = refl
  single-IsBalanced (op ∷ ops) str = elim (Option-cases (find_operator_index str op)) [
    | inl e ↦ rw (e, parse_with) (single-IsBalanced ops str)
    | inr (i, e) ↦ rw (e, parse_with) (compare-IsBalanced op str i)
  ]

  convert-IsBalanced :
      (fuel : ℕ) (expr : List ℕ)
      → Given IsBalanced (convert number_text allowed table_prefix fuel expr)
  unfolding convert Given parse_single_comparison
  convert-IsBalanced zero expr = tt
  convert-IsBalanced (suc fuel) expr =
      let joined : (word : List ℕ) (k : ℕ)
          → marks word ≡ 0
          → Given IsBalanced (
              Option.map (combine word) (
                convert_each (convert number_text allowed table_prefix fuel)
                  (split_top_level k expr))) =
        λ word k h.
          Given-map (All IsBalanced) IsBalanced (combine word) (λ rs. combine-IsBalanced word rs h)
            _ (each-IsBalanced _ (split_top_level k expr) (convert-IsBalanced fuel)) in
      if-both (Given IsBalanced) (ltb 1 (length (split_top_level b'|' expr)))
        (λ _. joined (codes " OR ") b'|' refl)
        (λ _.
          if-both (Given IsBalanced) (ltb 1 (length (split_top_level b'&' expr)))
            (λ _. joined (codes " AND ") b'&' refl)
            (λ _.
              if-both (Given IsBalanced)
                (first_is b'(' (trim_codes expr)
                  && last_is b')' (trim_codes expr)
                  && is_fully_enclosed (trim_codes expr))
                (λ _.
                  Given-map IsBalanced IsBalanced wrapped wrapped-IsBalanced _
                    (convert-IsBalanced fuel _))
                (λ _. single-IsBalanced operators (trim_codes expr))))

  -- There are as many placeholders in the clause as parameters.
  pub parse_filter-IsBalanced :
      (filter_str : Option (List ℕ)) (parsed : Parsed)
      → parse_filter number_text allowed table_prefix filter_str ≡ some parsed
      → marks parsed.0 ≡ length parsed.1
  unfolding parse_filter Given
  parse_filter-IsBalanced none parsed h = subst (Given IsBalanced) h refl
  parse_filter-IsBalanced (some f) parsed h =
      let balanced : Given IsBalanced (parse_filter number_text allowed table_prefix (some f)) =
        if-both (Given IsBalanced) (is_blank (trim_codes f)) (λ _. refl)
          (λ _.
            Given-map IsBalanced IsBalanced where_clause where-IsBalanced _
              (convert-IsBalanced (suc (length (trim_codes f))) (trim_codes f))) in
      subst (Given IsBalanced) h balanced
