-- ===== src/Records/Filter/Sort.antt =====
-- src/records/QueryFilterParser.ts, `parseSort`.
use nodestack.Prelude.{
  ℕ, not, List, [], ◌∷◌, ◌++◌, Option, none, some, ◌&&◌, ◌||◌, ◌==◌, if◌then◌else◌, map, filter,
  is_blank, first_is, drop, trim_codes, codes, join,
}
use nodestack.Records.Filter.Literals.{is_word, is_allowed}
use nodestack.Records.Filter.{column}

-- `text.split(',')`
unfoldable pub split_commas : List ℕ → List ℕ → List (List ℕ)
split_commas current [] = current ∷ []
split_commas current (c ∷ cs) =
    let next = split_commas [] cs in
    let more = split_commas (current ++ c ∷ []) cs in if c == b',' then current ∷ next else more

-- The clause of a part, if its field may be used.
unfoldable pub order_clause : Option (List (List ℕ)) → Option (List ℕ) → List ℕ → Option (List ℕ)
unfolding column is_word is_allowed
order_clause allowed table_prefix part =
    let field_name =
      (if first_is b'-' part
        then trim_codes (drop 1 part)
        else if first_is b'+' part
        then trim_codes (drop 1 part)
        else part) in
    let direction = (if first_is b'-' part then codes " DESC" else codes " ASC") in
    if is_word field_name && is_allowed allowed field_name
    then some (column table_prefix field_name ++ direction)
    else none

unfoldable pub order_clauses :
    Option (List (List ℕ)) → Option (List ℕ) → List (List ℕ) → List (List ℕ)
unfolding order_clause
order_clauses allowed table_prefix [] = []
order_clauses allowed table_prefix (p ∷ ps) = elim (order_clause allowed table_prefix p) [
  | none ↦ order_clauses allowed table_prefix ps
  | some c ↦ c ∷ order_clauses allowed table_prefix ps
]

unfoldable pub default_order : Option (List ℕ) → List ℕ
unfolding column
default_order none = codes "ORDER BY created DESC"
default_order (some []) = codes "ORDER BY created DESC"
default_order (some (c ∷ cs)) =
    codes "ORDER BY " ++ (column (some (c ∷ cs)) (codes "created") ++ codes " DESC")

unfoldable pub parse_sort : Option (List ℕ) → Option (List (List ℕ)) → Option (List ℕ) → List ℕ
unfolding split_commas order_clauses default_order
parse_sort none allowed table_prefix = default_order table_prefix
parse_sort (some sort_str) allowed table_prefix =
    let parts = filter (λ p. not (is_blank p)) (map trim_codes (split_commas [] sort_str)) in
    let clauses = order_clauses allowed table_prefix parts in
    if is_blank (trim_codes sort_str) || is_blank clauses
    then default_order table_prefix
    else codes "ORDER BY " ++ join (codes ", ") clauses
