-- ===== src/Rules/Filters.antt =====
-- What becomes of the filter that src/rules/RuleEngine.ts makes of a rule for a list, once
-- src/records/QueryFilterParser.ts has read it: a rule that compares a field with a variable of the
-- request, in either order.
use nodestack.Prelude.{
  ℕ, ◌⊎◌, inl, inr, trim_codes, true, false, List, [], ◌∷◌, ◌++◌, Option, some, ◌≡◌, refl, sym, ap,
  ◌||◌, arith, all, starts_with, trim_codes-solid, append_assoc, &&-eq-true, codes,
}
use nodestack.Prelude.Int.{ℤ}
use nodestack.Records.Codec.{encode}
use nodestack.Records.Filter.{parse_filter, comparison, column, where_clause}
use nodestack.Records.Filter.Literals.{text, is_word_char, is_word, is_allowed}
use nodestack.Records.Filter.Scan.{Operator, operator_text}
use nodestack.Records.Filter.Spaces.{words_solid}
use nodestack.Records.Filter.Quoted.{filter_text, parse_filter-quoted}
use nodestack.Records.Filter.Dropped.{literal_text, parse_filter-literal_text}
use nodestack.Rules.Values.{
  RuleOperator, ne, same, ge, le, eq, gt, lt, not_like, like, Context, RuleValue, value_of,
  property_of,
}
use nodestack.Rules.Engine.{
  first_operators, first_operator, left_of, right_of, normalized_text, has_field,
  substitute_variables, filtered, list_comparison,
}

-- The operator of the filter.
unfoldable pub filter_operator : RuleOperator → Operator
filter_operator ne = Operator.ne
filter_operator same = Operator.eq
filter_operator ge = Operator.ge
filter_operator le = Operator.le
filter_operator eq = Operator.eq
filter_operator gt = Operator.gt
filter_operator lt = Operator.lt
filter_operator not_like = Operator.not_like
filter_operator like = Operator.like

normalized_text-filter_operator :
    (op : RuleOperator) → normalized_text op ≡ operator_text (filter_operator op)
unfolding filter_operator
normalized_text-filter_operator ne = refl
normalized_text-filter_operator same = refl
normalized_text-filter_operator ge = refl
normalized_text-filter_operator le = refl
normalized_text-filter_operator eq = refl
normalized_text-filter_operator gt = refl
normalized_text-filter_operator lt = refl
normalized_text-filter_operator not_like = refl
normalized_text-filter_operator like = refl

word_starts :
    (c : ℕ) (name rest : List ℕ)
    → is_word_char c ≡ true
    → starts_with (c ∷ name) (b'@' ∷ rest) ≡ false
unfolding starts_with
word_starts c name rest h = ground arith

-- A name is no variable.
substitute_variables-word :
    (name : List ℕ) (context : Context)
    → is_word name ≡ true
    → substitute_variables name context ≡ name
unfolding substitute_variables is_word
substitute_variables-word [] context h = absurd (cc h)
substitute_variables-word (c ∷ name) context h =
    let (p, _) = &&-eq-true (is_word_char c) (all is_word_char name) h in
    rw (trim_codes-solid (c ∷ name) (words_solid (c ∷ name) h)) (
      rw (word_starts c name (codes "request.auth.") p)
        (rw (word_starts c name (codes "request.query.") p) refl))

-- The token is a variable of the request, of the user or of the query, and its value is the text.
unfoldable pub HasText : Context → List ℕ → List ℕ → Type 0
HasText context token s =
    ((name : List ℕ) × (token ≡ codes "@request.auth." ++ name)
      × (value_of (property_of name context.auth) ≡ RuleValue.string s))
    ⊎ ((name : List ℕ) × (token ≡ codes "@request.query." ++ name)
        × (value_of (property_of name context.query_fields) ≡ RuleValue.string s))

-- Such a variable is replaced by the literal of its text.
substitute_variables-text :
    (token : List ℕ) (context : Context) (s : List ℕ)
    → HasText context (trim_codes token) s
    → substitute_variables token context ≡ encode (some s)
unfolding substitute_variables HasText starts_with
substitute_variables-text token context s (inl (name, e, h)) = rw e (rw h refl)
substitute_variables-text token context s (inr (name, e, h)) = rw e (rw h refl)

-- The list of the operators that `resolveListExpression` tries.
abbrev pub list_operators : List RuleOperator
list_operators = first_operators ++ not_like ∷ like ∷ []

module _ (parse_number : List ℕ → Option ℤ) (number_text : List ℕ → List ℕ) (context : Context)
    (schema_fields : List (List ℕ)) (allowed : Option (List (List ℕ)))
    (table_prefix : Option (List ℕ)) where
  -- If the first operator of a rule stands between an allowed field, whose name is a word, and a
  -- variable of the request, whose value is a text, then the list filter, when it is parsed, is the
  -- one comparison of the column with that text as the parameter, whatever the text is.
  pub list_comparison-parsed :
      (t : List ℕ) (op : RuleOperator) (i : ℕ) (s : List ℕ)
      → first_operator list_operators t ≡ some (op, i)
      → has_field schema_fields (left_of t i) ≡ true
      → is_word (left_of t i) ≡ true
      → is_allowed allowed (left_of t i) ≡ true
      → HasText context (trim_codes (right_of t op i)) s
      → (f : List ℕ) × (list_comparison parse_number context schema_fields t ≡ filtered f)
        × (parse_filter number_text allowed table_prefix (some f)
            ≡ some (
                where_clause (
                  comparison number_text
                    (filter_operator op)
                    (column table_prefix (left_of t i))
                    (text s))))
  unfolding list_comparison
  list_comparison-parsed t op i s found known word permitted value = (
    filter_text (left_of t i) 1 (filter_operator op) s,
    rw found (
        rw known (
          rw (substitute_variables-word (left_of t i) context word) (
            rw (substitute_variables-text (right_of t op i) context s value) (
              rw (normalized_text-filter_operator op)
                (ap filtered (sym (append_assoc (left_of t i) (32 ∷ []) _))))))),
    parse_filter-quoted number_text allowed table_prefix (left_of t i) 1 (filter_operator op) s word
        permitted,
  )

  -- If the variable stands first, as in `@request.auth.id = author`, the list filter has no condition
  -- when it is parsed: the list is permitted and all its records meet the filter.
  pub list_comparison-dropped :
      (t : List ℕ) (op : RuleOperator) (i : ℕ) (s : List ℕ)
      → first_operator list_operators t ≡ some (op, i)
      → has_field schema_fields (right_of t op i) ≡ true
      → is_word (right_of t op i) ≡ true
      → substitute_variables (left_of t i) context ≡ encode (some s)
      → (f : List ℕ) × (list_comparison parse_number context schema_fields t ≡ filtered f)
        × (parse_filter number_text allowed table_prefix (some f) ≡ some ([], []))
  unfolding list_comparison
  list_comparison-dropped t op i s found known word value =
      let either : (has_field schema_fields (left_of t i)
            || has_field schema_fields (right_of t op i))
          ≡ true =
        ground (arith, known) in
      (
        literal_text s 1 (filter_operator op) (right_of t op i),
        rw found (
            rw either (
              rw value (
                rw (substitute_variables-word (right_of t op i) context word)
                  (rw (normalized_text-filter_operator op) refl)))),
        parse_filter-literal_text number_text allowed table_prefix s 1 (filter_operator op)
            (right_of t op i) word,
      )
