-- ===== src/Rules/Tests.antt =====
-- A rule with two branches, for two people.
use nodestack.Prelude.{
  ℕ, inl, Bool, true, false, List, [], ◌∷◌, Option, none, some, ◌≡◌, refl, codes, String,
  starts_with, trim_codes, replace_all,
}
use nodestack.Prelude.Int.{ℤ}
use nodestack.Json.{text, field, end}
use mathlib.Core.Option
use nodestack.Records.Codec.{encode, decode, unescape, escaped}
use nodestack.Records.Filter.Scan.{split_top_level}
use nodestack.Records.Filter.{parse_filter, comparison, column, where_clause}
use nodestack.Records.Filter.Literals.{text as literal_value, is_word, is_allowed}
use nodestack.Rules.Values.{Context, eq, property_of}
use nodestack.Rules.Engine.{
  Verdict, filtered, build_list_filter, evaluate_rule, first_operator, left_of, right_of, has_field,
  substitute_variables, list_comparison,
}
use nodestack.Rules.Filters.{
  HasText, filter_operator, list_operators, list_comparison-parsed, list_comparison-dropped,
}
use nodestack.Rules.Agreement.{Agrees}
use nodestack.Rules.Soundness.{build_list_filter-Agrees}

abbrev no_numbers : List ℕ → Option ℤ
no_numbers t = none

abbrev person : String → String → Context
person id role = record {
  auth = some (field "id" (text id) (field "role" (text role) end));
  record_fields = some (field "owner" (text "u1") end);
  data_fields = none;
  query_fields = none;
}

abbrev owner_or_editor : List ℕ
owner_or_editor = codes "owner = @request.auth.id || (@request.auth.role = \"editor\")"

reader_list :
    build_list_filter no_numbers (person "u1" "reader") (codes "owner" ∷ []) (some owner_or_editor)
    ≡ some (filtered (codes "owner = 'u1'"))
unfolding build_list_filter trim_codes split_top_level Option.bind starts_with decode unescape
    escaped replace_all
reader_list = refl

build_list_filter-Agrees_example :
    (v : Verdict) × (b : Bool) × (build_list_filter no_numbers
        (person "u2" "editor")
        (codes "owner" ∷ [])
        (some owner_or_editor)
      ≡ some v)
    × (evaluate_rule no_numbers (person "u2" "editor") (some owner_or_editor) ≡ some b)
    × Agrees v b
build_list_filter-Agrees_example =
    build_list_filter-Agrees no_numbers (person "u2" "editor") (codes "owner" ∷ [])
      (some owner_or_editor)

-- A parenthesis in quotes counts when the outer parentheses are looked for.
parenthesis_in_quotes :
    evaluate_rule no_numbers
      (record {
        auth = none;
        record_fields = some (field "mark" (text ")") end);
        data_fields = none;
        query_fields = none;
      })
      (some (codes "(mark = \")\")"))
    ≡ some false
unfolding evaluate_rule trim_codes split_top_level Option.bind starts_with decode unescape escaped
    replace_all
parenthesis_in_quotes = refl

no_parentheses :
    evaluate_rule no_numbers
      (record {
        auth = none;
        record_fields = some (field "mark" (text ")") end);
        data_fields = none;
        query_fields = none;
      })
      (some (codes "mark = \")\""))
    ≡ some true
unfolding evaluate_rule trim_codes split_top_level Option.bind starts_with decode unescape escaped
    replace_all
no_parentheses = refl

-- A person whose id would end the literal, if it were not quoted.
abbrev hostile : Context
hostile = person "' || id != '" "reader"

abbrev as_written : List ℕ → List ℕ
as_written t = t

abbrev field_first : List ℕ
field_first = codes "author = @request.auth.id"

field_found : first_operator list_operators field_first ≡ some (eq, 7)
unfolding first_operator starts_with
field_found = refl

id_text : HasText hostile (trim_codes (right_of field_first eq 7)) (codes "' || id != '")
unfolding HasText trim_codes property_of
id_text = inl (codes "id", refl, refl)

author_word : is_word (left_of field_first 7) ≡ true
unfolding is_word trim_codes
author_word = refl

author_known : has_field (codes "author" ∷ []) (left_of field_first 7) ≡ true
unfolding trim_codes
author_known = refl

list_comparison-parsed_example :
    (f : List ℕ) × (list_comparison no_numbers hostile (codes "author" ∷ []) field_first
      ≡ filtered f)
    × (parse_filter as_written none none (some f)
        ≡ some (
            where_clause (
              comparison as_written
                (filter_operator eq)
                (column none (left_of field_first 7))
                (literal_value (codes "' || id != '")))))
unfolding is_allowed
list_comparison-parsed_example =
    list_comparison-parsed no_numbers as_written hostile (codes "author" ∷ []) none none field_first
      eq 7 (codes "' || id != '") field_found author_known author_word refl id_text

-- The rule of the documentation.
abbrev variable_first : List ℕ
variable_first = codes "@request.auth.id = author"

variable_found : first_operator list_operators variable_first ≡ some (eq, 17)
unfolding first_operator starts_with
variable_found = refl

id_first :
    substitute_variables (left_of variable_first 17) (person "u1" "reader")
    ≡ encode (some (codes "u1"))
unfolding substitute_variables trim_codes starts_with
id_first = refl

author_last :
    (has_field (codes "author" ∷ []) (right_of variable_first eq 17) ≡ true)
    × (is_word (right_of variable_first eq 17) ≡ true)
unfolding is_word trim_codes
author_last = (refl, refl)

list_comparison-dropped_example :
    (f : List ℕ) × (list_comparison no_numbers
        (person "u1" "reader")
        (codes "author" ∷ [])
        variable_first
      ≡ filtered f)
    × (parse_filter as_written none none (some f) ≡ some ([], []))
list_comparison-dropped_example =
    list_comparison-dropped no_numbers as_written (person "u1" "reader") (codes "author" ∷ []) none
      none variable_first eq 17 (codes "u1") variable_found author_last.0 author_last.1 id_first

-- The whole way: the list is permitted, with a filter that is read as none.
documented_rule :
    build_list_filter no_numbers (person "u1" "reader") (codes "author" ∷ []) (some variable_first)
    ≡ some (filtered (codes "'u1' = author"))
unfolding build_list_filter trim_codes split_top_level Option.bind starts_with decode unescape
    escaped replace_all
documented_rule = refl

-- A record without the text does not meet the rule, for the evaluation does not know the operator.
not_like_unknown :
    evaluate_rule no_numbers (person "u1" "reader") (some (codes "owner !~ 'x'")) ≡ some false
unfolding evaluate_rule trim_codes split_top_level Option.bind starts_with decode unescape escaped
    replace_all
not_like_unknown = refl
