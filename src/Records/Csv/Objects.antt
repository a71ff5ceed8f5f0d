-- ===== src/Records/Csv/Objects.antt =====
-- src/records/CsvHelper.ts, `detectDelimiter` and `parse`. A row object is a list of its entries in
-- the order in which they were set first.
use nodestack.Prelude.{
  same_codes, ℕ, ◌+◌, Bool, false, not, List, [], ◌∷◌, Option, ◌&&◌, ◌==◌, ltb, if◌then◌else◌, map,
  or_default, is_blank, trim_codes,
}
use nodestack.Records.Csv.{parse_raw_rows}

-- `text.replace(/^\uFEFF/, '')`
unfoldable pub without_bom : List ℕ → List ℕ
without_bom [] = []
without_bom (c ∷ cs) = if c == 0xFEFF then cs else c ∷ cs

-- `text.split(/\r?\n/)[0]`
unfoldable pub first_line : List ℕ → List ℕ
first_line [] = []
first_line (c ∷ []) = if c == 10 then [] else c ∷ []
first_line (c ∷ e ∷ cs) =
    let rest = first_line (e ∷ cs) in
    if c == 10 then [] else if c == 13 && e == 10 then [] else c ∷ rest

pub record Delimiters : Type 0 where
  pub in_quotes : Bool
  pub commas : ℕ
  pub semicolons : ℕ
  pub tabs : ℕ

unfoldable pub count_delimiters : List ℕ → Delimiters → Delimiters
count_delimiters [] d = d
count_delimiters (c ∷ cs) d = count_delimiters cs (
    if c == 34
    then record d { in_quotes = not d.in_quotes }
    else if d.in_quotes
    then d
    else if c == b','
    then record d { commas = d.commas + 1 }
    else if c == b';'
    then record d { semicolons = d.semicolons + 1 }
    else if c == 9
    then record d { tabs = d.tabs + 1 }
    else d)

unfoldable pub detect_delimiter : List ℕ → ℕ
unfolding without_bom first_line count_delimiters
detect_delimiter csv_text =
    let none_yet : Delimiters = record {
      in_quotes = false;
      commas = 0;
      semicolons = 0;
      tabs = 0;
    } in
    let d = count_delimiters (first_line (without_bom csv_text)) none_yet in
    if ltb d.commas d.tabs && ltb d.semicolons d.tabs
    then 9
    else if ltb d.commas d.semicolons && ltb d.tabs d.semicolons
    then b';'
    else b','

-- `rowObj[header] = value`
unfoldable pub set_entry : List ℕ → List ℕ → List (List ℕ × List ℕ) → List (List ℕ × List ℕ)
set_entry k v [] = (k, v) ∷ []
set_entry k v ((j, w) ∷ es) = if same_codes j k then (j, v) ∷ es else (j, w) ∷ set_entry k v es

-- The object of a row: a header without a value gets the empty text, one without a name is left out.
unfoldable pub row_object :
    List (List ℕ) → List (List ℕ) → List (List ℕ × List ℕ) → List (List ℕ × List ℕ)
unfolding set_entry
row_object [] values object = object
row_object (h ∷ hs) [] object =
    row_object hs [] (if is_blank h then object else set_entry h [] object)
row_object (h ∷ hs) (v ∷ vs) object =
    row_object hs vs (if is_blank h then object else set_entry h v object)

-- `rowValues.length === 1 && rowValues[0].trim() === ''`
abbrev pub is_empty_line : List (List ℕ) → Bool
is_empty_line [] = false
is_empty_line (v ∷ []) = is_blank (trim_codes v)
is_empty_line (v ∷ w ∷ vs) = false

unfoldable pub row_objects : List (List ℕ) → List (List (List ℕ)) → List (List (List ℕ × List ℕ))
unfolding row_object
row_objects headers [] = []
row_objects headers (r ∷ rs) =
    let rest = row_objects headers rs in
    if is_empty_line r then rest else row_object headers r [] ∷ rest

unfoldable pub parse : List ℕ → Option ℕ → List (List (List ℕ × List ℕ))
unfolding row_objects detect_delimiter
parse csv_text custom_delimiter =
    let body = trim_codes (without_bom csv_text) in
    let delimiter = or_default custom_delimiter (detect_delimiter body) in
    if is_blank body then [] else of_rows (parse_raw_rows delimiter body)
  where
    of_rows : List (List (List ℕ)) → List (List (List ℕ × List ℕ))
    of_rows [] = []
    of_rows (headers ∷ rows) = row_objects (map trim_codes headers) rows
