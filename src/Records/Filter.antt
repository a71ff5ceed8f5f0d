-- ===== src/Records/Filter.antt =====
-- src/records/QueryFilterParser.ts: `parseFilter` and `parseSort`. A text is the list of its code
-- points. What `String` makes of a number is the parameter `number_text`, a function of the text of
-- the number's literal.
pub mod Scan
pub mod Literals
pub mod Quiet
pub mod Finds
pub mod Order
pub mod Spaces
pub mod Splits
pub mod Quoted
pub mod Dropped
pub mod Ending
pub mod Fuel
pub mod Closed
pub mod Groups
pub mod Placeholders
pub mod Sort
use nodestack.Prelude.{
  ℕ, zero, suc, ◌+◌, true, false, not, List, [], ◌∷◌, ◌++◌, Option, none, some, ◌&&◌, ◌||◌, ltb,
  if◌then◌else◌, is_blank, codes, trim_codes, filter, map, length, take, drop, first_is, last_is,
  drop_last, replace_all, join,
}
use mathlib.Core.Option
use nodestack.Records.Filter.Literals.{
  Value, text, number, flag, null, is_word, is_allowed, extract_literal_value,
}
use nodestack.Records.Filter.Scan.{
  Operator, ne, ge, le, eq, gt, lt, not_like, like, operators, operator_text, split_top_level,
  find_operator_index, is_fully_enclosed,
}

-- A clause and the parameters that were pushed for it.
abbrev pub Parsed : Type 0
Parsed = List ℕ × List Value

abbrev pub pushed : List Parsed → List Value
pushed [] = []
pushed ((c, ps) ∷ rs) = ps ++ pushed rs

abbrev pub where_clause : Parsed → Parsed
where_clause (c, ps) = if is_blank c then ([], ps) else (codes "WHERE " ++ c, ps)

-- `tablePrefix ? `"${tablePrefix}".` : ''`
unfoldable pub prefix_text : Option (List ℕ) → List ℕ
prefix_text none = []
prefix_text (some []) = []
prefix_text (some (c ∷ cs)) = 34 ∷ ((c ∷ cs) ++ 34 ∷ b'.' ∷ [])

unfoldable pub column : Option (List ℕ) → List ℕ → List ℕ
unfolding prefix_text
column table_prefix name = prefix_text table_prefix ++ (34 ∷ (name ++ 34 ∷ []))

-- The clauses that are not empty, joined, with all the parameters.
unfoldable pub combine : List ℕ → List Parsed → Parsed
combine word results =
    let clauses = filter (λ c. not (is_blank c)) (map (λ r. r.0) results) in
    let clause = (if is_blank clauses then [] else b'(' ∷ (join word clauses ++ b')' ∷ [])) in
    (clause, pushed results)

-- `parts.map(p => this.convertFilterExpression(p.trim(), …))`
unfoldable pub convert_each : (List ℕ → Option Parsed) → List (List ℕ) → Option (List Parsed)
convert_each convert [] = some []
convert_each convert (p ∷ ps) = elim (convert (trim_codes p)) [
  | none ↦ none
  | some r ↦ Option.map (λ rs. r ∷ rs) (convert_each convert ps)
]

abbrev pub wrapped : Parsed → Parsed
wrapped (c, ps) = if is_blank c then ([], ps) else (b'(' ∷ (c ++ b')' ∷ []), ps)

module _ (number_text : List ℕ → List ℕ) where
  -- `String(value)`
  unfoldable pub string_of : Value → List ℕ
  string_of (text s) = s
  string_of (number t) = number_text t
  string_of (flag true) = codes "1"
  string_of (flag false) = codes "0"
  string_of null = codes "null"

  -- The text of a value within wildcards, its own wildcards escaped.
  unfoldable pub pattern_of : Value → Value
  unfolding string_of
  pattern_of v = text (
      b'%'
      ∷ (replace_all b'_' (92 ∷ b'_' ∷ [])
            (replace_all b'%' (92 ∷ b'%' ∷ []) (replace_all 92 (92 ∷ 92 ∷ []) (string_of v)))
          ++ b'%' ∷ []))

  -- The `switch` over the operators.
  unfoldable pub comparison : Operator → List ℕ → Value → Parsed
  unfolding pattern_of
  comparison eq col null = (col ++ codes " IS NULL", [])
  comparison eq col v = (col ++ codes " = ?", v ∷ [])
  comparison ne col null = (col ++ codes " IS NOT NULL", [])
  comparison ne col v = (col ++ codes " != ?", v ∷ [])
  comparison gt col v = (col ++ codes " > ?", v ∷ [])
  comparison ge col v = (col ++ codes " >= ?", v ∷ [])
  comparison lt col v = (col ++ codes " < ?", v ∷ [])
  comparison le col v = (col ++ codes " <= ?", v ∷ [])
  comparison like col v = (col ++ codes " LIKE ? ESCAPE '\\'", pattern_of v ∷ [])
  comparison not_like col v = (col ++ codes " NOT LIKE ? ESCAPE '\\'", pattern_of v ∷ [])

  module _ (allowed : Option (List (List ℕ))) (table_prefix : Option (List ℕ)) where
    -- The body of the loop over the operators, for one that was found.
    unfoldable pub compare_at : Operator → List ℕ → ℕ → Parsed
    unfolding comparison is_word is_allowed
    compare_at op str i =
        let name = trim_codes (take i str) in
        let value_raw = trim_codes (drop (i + length (operator_text op)) str) in
        if not (is_word name) || not (is_allowed allowed name)
        then ([], [])
        else comparison op (column table_prefix name) (extract_literal_value value_raw)

    unfoldable pub parse_with : List Operator → List ℕ → Parsed
    unfolding compare_at
    parse_with [] str = ([], [])
    parse_with (op ∷ ops) str = elim (find_operator_index str op) [
      | some i ↦ compare_at op str i
      | none ↦ parse_with ops str
    ]

    unfoldable pub parse_single_comparison : List ℕ → Parsed
    unfolding parse_with
    parse_single_comparison str = parse_with operators str

    -- `convertFilterExpression`; `none` says that the fuel ran out.
    unfoldable pub convert : ℕ → List ℕ → Option Parsed
    unfolding combine convert_each parse_single_comparison
    convert zero expr = none
    convert (suc fuel) expr =
        let or_parts = split_top_level b'|' expr in
        let and_parts = split_top_level b'&' expr in
        let trimmed = trim_codes expr in
        let disjunction =
          Option.map (combine (codes " OR ")) (convert_each (convert fuel) or_parts) in
        let conjunction =
          Option.map (combine (codes " AND ")) (convert_each (convert fuel) and_parts) in
        let inner = Option.map wrapped (convert fuel (trim_codes (drop_last (drop 1 trimmed)))) in
        if ltb 1 (length or_parts)
        then disjunction
        else if ltb 1 (length and_parts)
        then conjunction
        else if first_is b'(' trimmed && last_is b')' trimmed && is_fully_enclosed trimmed
        then inner
        else some (parse_single_comparison trimmed)

    -- The fuel is above the length, which each call makes smaller.
    unfoldable pub parse_filter : Option (List ℕ) → Option Parsed
    unfolding convert
    parse_filter none = some ([], [])
    parse_filter (some filter_str) =
        let trimmed = trim_codes filter_str in
        if is_blank trimmed
        then some ([], [])
        else Option.map where_clause (convert (suc (length trimmed)) trimmed)
