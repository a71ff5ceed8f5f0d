-- ===== src/Records/Csv/RoundTrip.antt =====
-- `parseRawRows` reads the rows that `serialize` wrote.
use nodestack.Prelude.{
  ℕ, String, true, false, List, [], ◌∷◌, ◌++◌, Option, none, some, ◌&&◌, ◌==◌, ◌≡◌, ◌≢◌, refl, sym,
  ap, ◌∙◌, arith, map, join, first_is, append_assoc, append-nil, subst, codes, includes, is_blank,
  last_is,
}
use nodestack.Json.{Json, null, bool, num, text, time, arr, obj, Fields, get_field}
use nodestack.Records.Csv.{
  Csv, csv_start, end_row, csv_step, csv_pair, is_pair, csv_run, needs_quotes, quoted_cell,
  cell_text, escape_value, serialize_row, serialize, parse_raw_rows,
}
use nodestack.Records.Csv.Quoting.{reading, is_delimiter, cell_run}

-- The text of a row of cells.
row_text : ℕ → List (List ℕ) → List ℕ
row_text d cells = join (d ∷ []) (map (quoted_cell d) cells)

-- The cells of a row before its last one, and the last one.
cells_before : List (List ℕ) → List ℕ → List (List ℕ) → List (List ℕ)
cells_before row x [] = row
cells_before row x (y ∷ ys) = cells_before (row ++ x ∷ []) y ys

last_cell : List ℕ → List (List ℕ) → List ℕ
last_cell x [] = x
last_cell x (y ∷ ys) = last_cell y ys

delimiter_facts :
    (d : ℕ) → is_delimiter d ≡ true → ((d == 34) ≡ false) × ((d == 13) ≡ false) × ((d == d) ≡ true)
delimiter_facts d h = ground arith

delimiter_step :
    (d : ℕ) (rows : List (List (List ℕ))) (row : List (List ℕ)) (x t : List ℕ)
    → is_delimiter d ≡ true
    → csv_run d (d ∷ t) (reading rows row x) ≡ csv_run d t (reading rows (row ++ x ∷ []) [])
unfolding csv_run csv_step is_pair csv_pair
delimiter_step d rows row x [] h = let (q, r, s) = delimiter_facts d h in rw q (rw s refl)
delimiter_step d rows row x (e ∷ t) h = let (q, r, s) = delimiter_facts d h in rw s (rw q refl)

crlf_step :
    (d : ℕ) (rows : List (List (List ℕ))) (row : List (List ℕ)) (x t : List ℕ)
    → is_delimiter d ≡ true
    → csv_run d (13 ∷ 10 ∷ t) (reading rows row x)
      ≡ csv_run d t (reading (rows ++ (row ++ x ∷ []) ∷ []) [] [])
unfolding csv_run csv_step is_pair csv_pair
crlf_step d rows row x t h = ground arith

row_run :
    (d : ℕ) (rows : List (List (List ℕ))) (row : List (List ℕ)) (x : List ℕ) (xs : List (List ℕ))
    (rest : List ℕ)
    → is_delimiter d ≡ true
    → first_is 34 rest ≡ false
    → csv_run d (row_text d (x ∷ xs) ++ rest) (reading rows row [])
      ≡ csv_run d rest (reading rows (cells_before row x xs) (last_cell x xs))
unfolding row_text join cells_before last_cell
row_run d rows row x [] rest hd h = cell_run d rows row x rest h
row_run d rows row x (y ∷ ys) rest hd h =
    let more = row_text d (y ∷ ys) in
    rw (append_assoc (quoted_cell d x) (d ∷ more) rest) (
      cell_run d rows row x (d ∷ (more ++ rest)) (delimiter_facts d hd).0
      ∙ delimiter_step d rows row x (more ++ rest) hd
      ∙ row_run d rows (row ++ x ∷ []) y ys rest hd h)

cells_before-last :
    (row : List (List ℕ)) (x : List ℕ) (xs : List (List ℕ))
    → cells_before row x xs ++ last_cell x xs ∷ [] ≡ row ++ x ∷ xs
unfolding cells_before last_cell
cells_before-last row x [] = refl
cells_before-last row x (y ∷ ys) =
    cells_before-last (row ++ x ∷ []) y ys ∙ append_assoc row (x ∷ []) (y ∷ ys)

-- A row is its first cell and the others.
abbrev Row : Type 0
Row = List ℕ × List (List ℕ)

abbrev cells : Row → List (List ℕ)
cells (x, xs) = x ∷ xs

lines_text : ℕ → Row → List Row → List ℕ
lines_text d r rs = join (13 ∷ 10 ∷ []) (map (λ r'. row_text d (cells r')) (r ∷ rs))

-- The state at the end of the text.
at_end : List (List (List ℕ)) → Row → List Row → Csv
at_end rows (x, xs) [] = reading rows (cells_before [] x xs) (last_cell x xs)
at_end rows (x, xs) (r ∷ rs) = at_end (rows ++ (x ∷ xs) ∷ []) r rs

lines_run :
    (d : ℕ) (rows : List (List (List ℕ))) (r : Row) (rs : List Row)
    → is_delimiter d ≡ true
    → csv_run d (lines_text d r rs) (reading rows [] []) ≡ at_end rows r rs
unfolding lines_text at_end join csv_run
lines_run d rows (x, xs) [] hd =
    rw (← append-nil (row_text d (x ∷ xs))) (row_run d rows [] x xs [] hd refl)
lines_run d rows (x, xs) (r ∷ rs) hd =
    row_run d rows [] x xs (13 ∷ 10 ∷ lines_text d r rs) hd refl
    ∙ crlf_step d rows (cells_before [] x xs) (last_cell x xs) (lines_text d r rs) hd
    ∙ rw (cells_before-last [] x xs) (lines_run d (rows ++ (x ∷ xs) ∷ []) r rs hd)

end_row-at_end :
    (rows : List (List (List ℕ))) (r : Row) (rs : List Row)
    → (end_row (at_end rows r rs)).rows ≡ rows ++ map cells (r ∷ rs)
unfolding at_end
end_row-at_end rows (x, xs) [] = rw (cells_before-last [] x xs)
end_row-at_end rows (x, xs) (r ∷ rs) =
    end_row-at_end (rows ++ (x ∷ xs) ∷ []) r rs
    ∙ append_assoc rows ((x ∷ xs) ∷ []) (map cells (r ∷ rs))

cells_before-blank :
    (r : List ℕ) (row : List (List ℕ)) (x : List ℕ) (xs : List (List ℕ))
    → is_blank (cells_before (r ∷ row) x xs) ≡ false
unfolding cells_before
cells_before-blank r row x [] = refl
cells_before-blank r row x (y ∷ ys) = cells_before-blank r (row ++ x ∷ []) y ys

-- The last row of a table.
abbrev pub last_row : List (List (List ℕ)) → List (List ℕ)
last_row [] = []
last_row (r ∷ []) = r
last_row (r ∷ r' ∷ rs) = last_row (r' ∷ rs)

at_end-blank :
    (rows : List (List (List ℕ))) (r : Row) (rs : List Row)
    → last_row (map cells (r ∷ rs)) ≢ [] ∷ []
    → (is_blank (at_end rows r rs).row && is_blank (at_end rows r rs).cell) ≡ false
unfolding at_end cells_before last_cell
at_end-blank rows ([], []) [] h = absurd (h refl)
at_end-blank rows (c ∷ x, []) [] h = refl
at_end-blank rows (x, y ∷ ys) [] h = rw (cells_before-blank x [] y ys)
at_end-blank rows (x, xs) (r ∷ rs) h = at_end-blank (rows ++ (x ∷ xs) ∷ []) r rs h

lines_read :
    (d : ℕ) (r : Row) (rs : List Row)
    → is_delimiter d ≡ true
    → last_row (map cells (r ∷ rs)) ≢ [] ∷ []
    → parse_raw_rows d (lines_text d r rs) ≡ map cells (r ∷ rs)
unfolding parse_raw_rows
lines_read d r rs hd h =
    let end : csv_run d (lines_text d r rs) csv_start ≡ at_end [] r rs = lines_run d [] r rs hd in
    let kept : ((is_blank (at_end [] r rs).row && is_blank (at_end [] r rs).cell)
          && last_is 10 (lines_text d r rs))
        ≡ false =
      rw (at_end-blank [] r rs h) refl in
    rw end (rw kept (end_row-at_end [] r rs))

escape_value-quoted :
    (v : Option Json) (d : ℕ)
    → is_delimiter d ≡ true
    → escape_value v d ≡ quoted_cell d (cell_text v)
unfolding escape_value cell_text quoted_cell needs_quotes includes
escape_value-quoted none d h = refl
escape_value-quoted (some null) d h = refl
escape_value-quoted (some (bool true)) d h = ground arith
escape_value-quoted (some (bool false)) d h = ground arith
escape_value-quoted (some (num n)) d h = refl
escape_value-quoted (some (text s)) d h = refl
escape_value-quoted (some (time t)) d h = refl
escape_value-quoted (some (arr xs)) d h = refl
escape_value-quoted (some (obj fs)) d h = refl

-- The row of an item: the texts of its values under the headers.
unfoldable pub item_cells : List String → Fields → List (List ℕ)
item_cells headers item = map (λ h. cell_text (get_field h item)) headers

item_row : String → List String → Fields → Row
item_row h hs item = (cell_text (get_field h item), item_cells hs item)

cells_text :
    (d : ℕ) (headers : List String) (value : String → Option Json)
    → is_delimiter d ≡ true
    → map (λ h. escape_value (value h) d) headers
      ≡ map (quoted_cell d) (map (λ h. cell_text (value h)) headers)
cells_text d [] value hd = refl
cells_text d (h ∷ hs) value hd =
    rw (escape_value-quoted (value h) d hd)
      (ap (λ t. quoted_cell d (cell_text (value h)) ∷ t) (cells_text d hs value hd))

items_text :
    (d : ℕ) (h : String) (hs : List String) (items : List Fields)
    → is_delimiter d ≡ true
    → map (serialize_row d (h ∷ hs)) items
      ≡ map (λ r. row_text d (cells r)) (map (item_row h hs) items)
unfolding serialize_row row_text item_row item_cells
items_text d h hs [] hd = refl
items_text d h hs (item ∷ items) hd =
    rw (cells_text d (h ∷ hs) (λ k. get_field k item) hd)
      (ap (λ t. row_text d (cells (item_row h hs item)) ∷ t) (items_text d h hs items hd))

-- The rows of a table with these headers and items.
unfoldable pub csv_table : List String → List Fields → List (List (List ℕ))
csv_table headers items = map codes headers ∷ map (item_cells headers) items

rows_table :
    (h : String) (hs : List String) (items : List Fields)
    → map cells ((codes h, map codes hs) ∷ map (item_row h hs) items) ≡ csv_table (h ∷ hs) items
unfolding csv_table item_row item_cells
rows_table h hs [] = refl
rows_table h hs (item ∷ items) = rw (rows_of items)
  where
    rows_of :
        (items : List Fields)
        → map cells (map (item_row h hs) items) ≡ map (item_cells (h ∷ hs)) items
    rows_of [] = refl
    rows_of (i ∷ is) = ap (λ t. item_cells (h ∷ hs) i ∷ t) (rows_of is)

serialize-lines :
    (d : ℕ) (h : String) (hs : List String) (items : List Fields)
    → is_delimiter d ≡ true
    → serialize (h ∷ hs) items d ≡ lines_text d (codes h, map codes hs) (map (item_row h hs) items)
unfolding serialize lines_text row_text join
serialize-lines d h hs items hd = rw (items_text d h hs items hd) (
    ap
      (λ t.
        join (13 ∷ 10 ∷ [])
          (join (d ∷ []) t ∷ map (λ r. row_text d (cells r)) (map (item_row h hs) items)))
      (cells_text d (h ∷ hs) (λ k. some (text k)) hd))

-- The parser reads back the headers and the texts of the values, unless the last row is one empty
-- cell.
pub parse_raw_rows-serialize :
    (d : ℕ) (h : String) (hs : List String) (items : List Fields)
    → is_delimiter d ≡ true
    → last_row (csv_table (h ∷ hs) items) ≢ [] ∷ []
    → parse_raw_rows d (serialize (h ∷ hs) items d) ≡ csv_table (h ∷ hs) items
parse_raw_rows-serialize d h hs items hd hl =
    let rows = rows_table h hs items in
    ap (parse_raw_rows d) (serialize-lines d h hs items hd)
    ∙ lines_read d (codes h, map codes hs) (map (item_row h hs) items) hd
        (subst (λ t. last_row t ≢ [] ∷ []) (sym rows) hl)
    ∙ rows
