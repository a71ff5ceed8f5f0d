-- ===== src/Records/Tests.antt =====
-- Filters and tables on concrete texts.
use nodestack.Prelude.{
  ℕ, ◌≡◌, refl, true, List, [], ◌∷◌, ◌++◌, none, some, codes, length, ◌≢◌, starts_with, join,
  includes, replace_all, trim_codes, fold_case, is_blank, false,
}
use nodestack.Prelude.Int.{pos}
use nodestack.Json.{num, text as json_text, end, field, Fields}
use nodestack.Records.Codec.{decode, unescape}
use nodestack.Records.Csv.{serialize, parse_raw_rows}
use nodestack.Records.Csv.RoundTrip.{last_row, csv_table, item_cells, parse_raw_rows-serialize}
use nodestack.Records.Filter.{
  parse_filter, prefix_text, Parsed, comparison, column, where_clause, combine, wrapped,
}
use nodestack.Records.Filter.Closed.{is_closed}
use nodestack.Records.Filter.Groups.{escaping}
use nodestack.Records.Scope.{effective_filter, effective_filter-both, effective_filter-escapes}
use nodestack.Records.Filter.Literals.{
  text, number, flag, is_word, is_allowed, extract_literal_value,
}
use nodestack.Records.Filter.Scan.{like, split_top_level, is_fully_enclosed, find_operator_index}
use nodestack.Records.Filter.Sort.{parse_sort}
use nodestack.Records.Csv.Objects.{parse}
use nodestack.Records.Filter.Quoted.{filter_text, parse_filter-quoted}
use nodestack.Records.Filter.Ending.{parse_filter_total}
use nodestack.Records.Filter.Placeholders.{marks, parse_filter-IsBalanced}

-- A text with a quote, a backslash and a line feed.
abbrev hostile : List ℕ
hostile = codes "a' || b = 'c\\" ++ 10 ∷ []

abbrev item : Fields
item = field "name" (json_text "say \"hi\", twice") (field "count" (num (pos 12)) end)

csv_text :
    serialize ("name" ∷ "count" ∷ []) (item ∷ []) b','
    ≡ codes "name,count" ++ 13 ∷ 10 ∷ codes "\"say \"\"hi\"\", twice\",12"
unfolding serialize join includes replace_all
csv_text = refl

two_cells : last_row (csv_table ("name" ∷ "count" ∷ []) (item ∷ [])) ≢ [] ∷ []
unfolding csv_table item_cells
two_cells h = cc h

parse_raw_rows-serialize_example :
    parse_raw_rows b',' (serialize ("name" ∷ "count" ∷ []) (item ∷ []) b',')
    ≡ csv_table ("name" ∷ "count" ∷ []) (item ∷ [])
parse_raw_rows-serialize_example =
    parse_raw_rows-serialize b',' "name" ("count" ∷ []) (item ∷ []) refl two_cells

abbrev as_written : List ℕ → List ℕ
as_written t = t

abbrev mixed_filter : List ℕ
mixed_filter = codes "age >= 18 && (name ~ 'a%' || ok = true)"

abbrev mixed_parsed : Parsed
mixed_parsed = (
  codes "WHERE (\"age\" >= ? AND ((\"name\" LIKE ? ESCAPE '\\' OR \"ok\" = ?)))",
  number (codes "18") ∷ text (codes "%a\\%%") ∷ flag true ∷ [],
)

mixed : parse_filter as_written none none (some mixed_filter) ≡ some mixed_parsed
unfolding parse_filter trim_codes split_top_level is_fully_enclosed find_operator_index starts_with
    column join extract_literal_value replace_all fold_case decode unescape
mixed = refl

no_prefix : marks (prefix_text none) ≡ 0
unfolding prefix_text
no_prefix = refl

parse_filter-quoted_example :
    parse_filter as_written
      (some (codes "title" ∷ []))
      none
      (some (filter_text (codes "title") 1 like hostile))
    ≡ some (where_clause (comparison as_written like (column none (codes "title")) (text hostile)))
unfolding is_word is_allowed
parse_filter-quoted_example =
    parse_filter-quoted as_written (some (codes "title" ∷ [])) none (codes "title") 1 like hostile
      refl refl

parse_filter_total_example :
    (parsed : Parsed) × (parse_filter as_written none none (some (codes "((a = 1")) ≡ some parsed)
parse_filter_total_example = parse_filter_total as_written none none (some (codes "((a = 1"))

parse_filter-IsBalanced_example : marks mixed_parsed.0 ≡ length mixed_parsed.1
parse_filter-IsBalanced_example =
    parse_filter-IsBalanced as_written none none no_prefix (some mixed_filter) mixed_parsed mixed

sorted :
    parse_sort (some (codes "-created, title,bad;name")) none (some (codes "t"))
    ≡ codes "ORDER BY \"t\".\"created\" DESC, \"t\".\"title\" ASC"
unfolding parse_sort trim_codes join
sorted = refl

objects :
    parse (codes "a;b" ++ 10 ∷ codes "1;\"x;y\"") none
    ≡ ((codes "a", codes "1") ∷ (codes "b", codes "x;y") ∷ []) ∷ []
unfolding parse trim_codes parse_raw_rows
objects = refl

abbrev owner_rule : List ℕ
owner_rule = codes "owner = 'u1'"

abbrev by_title : List ℕ
by_title = codes "(title ~ 'a)') && id != ''"

owner_closed : is_closed owner_rule ≡ true
unfolding is_closed
owner_closed = refl

title_closed : is_closed by_title ≡ true
unfolding is_closed
title_closed = refl

owner_filled : is_blank (trim_codes owner_rule) ≡ false
unfolding trim_codes
owner_filled = refl

title_filled : is_blank (trim_codes by_title) ≡ false
unfolding trim_codes
title_filled = refl

effective_filter-both_example :
    (r c : Parsed) × (parse_filter as_written none none (some owner_rule) ≡ some (where_clause r))
    × (parse_filter as_written none none (some by_title) ≡ some (where_clause c))
    × (parse_filter as_written none none (effective_filter (some owner_rule) (some by_title))
        ≡ some (where_clause (combine (codes " AND ") (wrapped r ∷ wrapped c ∷ []))))
effective_filter-both_example =
    effective_filter-both as_written none none owner_rule by_title owner_closed title_closed
      owner_filled title_filled

abbrev any_id : List ℕ
any_id = codes "id != ''"

any_closed : is_closed any_id ≡ true
unfolding is_closed
any_closed = refl

any_filled :
    (is_blank (trim_codes any_id) ≡ false)
    × (is_blank (trim_codes (escaping any_id any_id)) ≡ false)
unfolding trim_codes
any_filled = (refl, refl)

effective_filter-escapes_example :
    (r c d : Parsed) × (parse_filter as_written none none (some owner_rule) ≡ some (where_clause r))
    × (parse_filter as_written none none (some any_id) ≡ some (where_clause c))
    × (parse_filter as_written none none (some any_id) ≡ some (where_clause d))
    × (parse_filter as_written none none
          (effective_filter (some owner_rule) (some (escaping any_id any_id)))
        ≡ some (
            where_clause (
              combine
                (codes " OR ")
                (combine (codes " AND ") (wrapped r ∷ wrapped c ∷ []) ∷ wrapped d ∷ []))))
effective_filter-escapes_example =
    effective_filter-escapes as_written none none owner_rule any_id any_id owner_closed any_closed
      any_closed owner_filled any_filled.0 any_filled.0 any_filled.1

-- The clause of the list: the rule restricts only one side of the OR.
escaped_clause :
    parse_filter as_written none none
      (effective_filter (some owner_rule) (some (codes "id != '') || (id != ''")))
    ≡ some (
      codes "WHERE (((\"owner\" = ?) AND (\"id\" != ?)) OR (\"id\" != ?))",
      text (codes "u1") ∷ text [] ∷ text [] ∷ [],
    )
unfolding parse_filter trim_codes split_top_level is_fully_enclosed find_operator_index starts_with
    column join extract_literal_value replace_all fold_case decode unescape effective_filter
    prefix_text
escaped_clause = refl
