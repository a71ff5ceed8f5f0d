-- ===== src/Records/Csv/Quoting.antt =====
-- How the loop of `parseRawRows` reads one cell that `escapeValue` wrote.
use nodestack.Prelude.{
  ℕ, Bool, true, false, not, List, [], ◌∷◌, ◌++◌, inl, inr, ◌||◌, ◌==◌, ◌≡◌, refl, ap, ◌∙◌, arith,
  Bool-cases, replace_all, includes, first_is, append_assoc, append-nil,
}
use nodestack.Records.Csv.{Csv, csv_step, csv_pair, is_pair, csv_run, needs_quotes, quoted_cell}

-- The state within a row, between the cells or in an unquoted one.
abbrev pub reading : List (List (List ℕ)) → List (List ℕ) → List ℕ → Csv
reading rows row cell = record { rows = rows; row = row; cell = cell; in_quotes = false }

abbrev pub quoted : List (List (List ℕ)) → List (List ℕ) → List ℕ → Csv
quoted rows row cell = record { rows = rows; row = row; cell = cell; in_quotes = true }

-- The characters that separate cells, as `detectDelimiter` finds them.
abbrev pub is_delimiter : ℕ → Bool
is_delimiter c = c == b',' || c == b';' || c == 9

abbrev pub is_plain : ℕ → ℕ → Bool
is_plain d c = not (c == 34 || c == d || c == 10 || c == 13)

plain_facts :
    (d c : ℕ)
    → is_plain d c ≡ true
    → ((c == 34) ≡ false) × ((c == d) ≡ false) × ((c == 10) ≡ false) × ((c == 13) ≡ false)
plain_facts d c h = ground arith

needs_quotes-cons :
    (d c : ℕ) (x : List ℕ)
    → needs_quotes d (c ∷ x) ≡ false
    → (is_plain d c ≡ true) × (needs_quotes d x ≡ false)
unfolding needs_quotes includes
needs_quotes-cons d c x h = ground arith

module _ (d : ℕ) (rows : List (List (List ℕ))) (row : List (List ℕ)) where
  plain_step :
      (c : ℕ) (rest : List ℕ) (cell : List ℕ)
      → is_plain d c ≡ true
      → csv_run d (c ∷ rest) (reading rows row cell)
        ≡ csv_run d rest (reading rows row (cell ++ c ∷ []))
  unfolding csv_run csv_step is_pair csv_pair
  plain_step c [] cell h =
      let (q, s, l, r) = plain_facts d c h in rw (q) (rw (s) (rw (r) (rw (l) refl)))
  plain_step c (e ∷ rest) cell h =
      let (q, s, l, r) = plain_facts d c h in rw (q) (rw (s) (rw (r) (rw (l) refl)))

  inside_step :
      (c : ℕ) (rest : List ℕ) (cell : List ℕ)
      → (c == 34) ≡ false
      → csv_run d (c ∷ rest) (quoted rows row cell)
        ≡ csv_run d rest (quoted rows row (cell ++ c ∷ []))
  unfolding csv_run csv_step is_pair csv_pair
  inside_step c [] cell h = rw h
  inside_step c (e ∷ rest) cell h = rw h

  closing_step :
      (rest : List ℕ) (cell : List ℕ)
      → first_is 34 rest ≡ false
      → csv_run d (34 ∷ rest) (quoted rows row cell) ≡ csv_run d rest (reading rows row cell)
  unfolding csv_run csv_step is_pair csv_pair
  closing_step [] cell h = refl
  closing_step (e ∷ rest) cell h = rw h

  pub quoted_run :
      (x rest cell : List ℕ)
      → first_is 34 rest ≡ false
      → csv_run d (replace_all 34 (34 ∷ 34 ∷ []) x ++ 34 ∷ rest) (quoted rows row cell)
        ≡ csv_run d rest (reading rows row (cell ++ x))
  unfolding replace_all csv_run is_pair csv_pair
  quoted_run [] rest cell h = rw (append-nil cell) (closing_step rest cell h)
  quoted_run (c ∷ x) rest cell h = elim (Bool-cases (c == 34)) [
    | inl e ↦
        (let same : c ≡ 34 = ground arith in
          rw same (
            quoted_run x rest (cell ++ 34 ∷ []) h
            ∙ ap (λ t. csv_run d rest (reading rows row t)) (append_assoc cell (34 ∷ []) x)))
    | inr e ↦ rw e (
        inside_step c _ cell e
        ∙ quoted_run x rest (cell ++ c ∷ []) h
        ∙ ap (λ t. csv_run d rest (reading rows row t)) (append_assoc cell (c ∷ []) x))
  ]

  opening_step :
      (t : List ℕ) → csv_run d (34 ∷ t) (reading rows row []) ≡ csv_run d t (quoted rows row [])
  unfolding csv_run csv_step is_pair csv_pair
  opening_step [] = refl
  opening_step (e ∷ t) = ground arith

  -- An unquoted cell.
  pub plain_run :
      (x rest cell : List ℕ)
      → needs_quotes d x ≡ false
      → csv_run d (x ++ rest) (reading rows row cell)
        ≡ csv_run d rest (reading rows row (cell ++ x))
  plain_run [] rest cell h = rw (append-nil cell)
  plain_run (c ∷ x) rest cell h =
      let (p, q) = needs_quotes-cons d c x h in
      plain_step c (x ++ rest) cell p
      ∙ plain_run x rest (cell ++ c ∷ []) q
      ∙ ap (λ t. csv_run d rest (reading rows row t)) (append_assoc cell (c ∷ []) x)

  pub cell_run :
      (x rest : List ℕ)
      → first_is 34 rest ≡ false
      → csv_run d (quoted_cell d x ++ rest) (reading rows row [])
        ≡ csv_run d rest (reading rows row x)
  unfolding quoted_cell
  cell_run x rest h = elim (Bool-cases (needs_quotes d x)) [
    | inl e ↦ rw e (
        opening_step ((replace_all 34 (34 ∷ 34 ∷ []) x ++ 34 ∷ []) ++ rest)
        ∙ rw (append_assoc (replace_all 34 (34 ∷ 34 ∷ []) x) (34 ∷ []) rest)
            (quoted_run x rest [] h))
    | inr e ↦ rw e (plain_run x rest [] e)
  ]
