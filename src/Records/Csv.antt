-- ===== src/Records/Csv.antt =====
-- src/records/CsvHelper.ts. A text is the list of its code points, and a delimiter is one character.
pub mod Quoting
pub mod RoundTrip
pub mod Objects
use nodestack.Prelude.{
  ℕ, ◌+◌, String, Bool, true, false, List, [], ◌∷◌, ◌++◌, Option, none, some, not, ◌&&◌, ◌||◌, ◌==◌,
  if◌then◌else◌, map, codes, replace_all, includes, join, last_is, is_blank,
}
use nodestack.Json.{
  Json, null, bool, num, text, time, arr, obj, Fields, get_field, stringify, decimal,
}
use nodestack.Time.Iso.{iso_codes}

-- The variables of the loop of `parseRawRows`.
pub record Csv : Type 0 where
  pub rows : List (List (List ℕ))
  pub row : List (List ℕ)
  pub cell : List ℕ
  pub in_quotes : Bool

abbrev pub csv_start : Csv
csv_start = record { rows = []; row = []; cell = []; in_quotes = false }

-- `currentCell += char`
abbrev pub add_char : ℕ → Csv → Csv
add_char c s = record s { cell = s.cell ++ c ∷ [] }

-- `currentRow.push(currentCell)`
abbrev pub end_cell : Csv → Csv
end_cell s = record s { row = s.row ++ s.cell ∷ []; cell = [] }

-- The same, and `rows.push(currentRow)`.
abbrev pub end_row : Csv → Csv
end_row s = record s { rows = s.rows ++ (s.row ++ s.cell ∷ []) ∷ []; row = []; cell = [] }

-- The loop's body where it takes one character.
unfoldable pub csv_step : ℕ → ℕ → Csv → Csv
csv_step delimiter c s =
    if s.in_quotes
    then if c == 34 then record s { in_quotes = false } else add_char c s
    else if c == 34
    then record s { in_quotes = true }
    else if c == delimiter
    then end_cell s
    else if c == 13 || c == 10
    then end_row s
    else add_char c s

-- The loop's body takes two characters: an escaped quote, and a CR with its LF.
unfoldable pub is_pair : ℕ → ℕ → ℕ → Csv → Bool
is_pair delimiter c e s =
    if s.in_quotes then c == 34 && e == 34 else not (c == delimiter) && c == 13 && e == 10

unfoldable pub csv_pair : Csv → Csv
csv_pair s = if s.in_quotes then add_char 34 s else end_row s

unfoldable pub csv_run : ℕ → List ℕ → Csv → Csv
unfolding csv_step is_pair csv_pair
csv_run delimiter [] s = s
csv_run delimiter (c ∷ []) s = csv_step delimiter c s
csv_run delimiter (c ∷ e ∷ cs) s =
    let one = csv_run delimiter (e ∷ cs) (csv_step delimiter c s) in
    let two = csv_run delimiter cs (csv_pair s) in if is_pair delimiter c e s then two else one

unfoldable pub parse_raw_rows : ℕ → List ℕ → List (List (List ℕ))
unfolding csv_run
parse_raw_rows delimiter csv_text =
    let s = csv_run delimiter csv_text csv_start in
    if is_blank s.row && is_blank s.cell && last_is 10 csv_text then s.rows else (end_row s).rows

-- The text of a value before it is quoted.
unfoldable pub cell_text : Option Json → List ℕ
unfolding stringify decimal
cell_text none = []
cell_text (some null) = []
cell_text (some (bool true)) = codes "true"
cell_text (some (bool false)) = codes "false"
cell_text (some (num n)) = decimal n
cell_text (some (text s)) = codes s
cell_text (some (time t)) = iso_codes t
cell_text (some (arr xs)) = stringify (arr xs)
cell_text (some (obj fs)) = stringify (obj fs)

unfoldable pub needs_quotes : ℕ → List ℕ → Bool
needs_quotes delimiter s = includes 34 s || includes delimiter s || includes 10 s || includes 13 s

unfoldable pub quoted_cell : ℕ → List ℕ → List ℕ
unfolding needs_quotes
quoted_cell delimiter s =
    if needs_quotes delimiter s then 34 ∷ (replace_all 34 (34 ∷ 34 ∷ []) s ++ 34 ∷ []) else s

-- The null, undefined and Boolean values are returned before the test for quotes.
unfoldable pub escape_value : Option Json → ℕ → List ℕ
unfolding cell_text quoted_cell
escape_value none delimiter = []
escape_value (some null) delimiter = []
escape_value (some (bool b)) delimiter = cell_text (some (bool b))
escape_value v delimiter = quoted_cell delimiter (cell_text v)

unfoldable pub serialize_row : ℕ → List String → Fields → List ℕ
unfolding escape_value
serialize_row delimiter headers item =
    join (delimiter ∷ []) (map (λ h. escape_value (get_field h item) delimiter) headers)

unfoldable pub serialize : List String → List Fields → ℕ → List ℕ
unfolding serialize_row
serialize headers items delimiter = join (13 ∷ 10 ∷ []) (
    join (delimiter ∷ []) (map (λ h. escape_value (some (text h)) delimiter) headers)
    ∷ map (serialize_row delimiter headers) items)
