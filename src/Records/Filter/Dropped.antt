-- ===== src/Records/Filter/Dropped.antt =====
-- A comparison that begins with a quoted literal, which `parseSingleComparison` takes for no name.
use nodestack.Prelude.{
  ℕ, zero, suc, true, false, not, List, [], ◌∷◌, ◌++◌, Option, some, ◌≡◌, refl, sym, ap, ◌∙◌, arith,
  all, Option-cases, inl, inr, is_blank, trim_codes, trim_codes_start, trim_codes_end, &&-eq-true,
  take, length, append_assoc, append-nil,
}
use mathlib.Core.Option
use nodestack.Records.Codec.{escaped, encode}
use nodestack.Records.Filter.Literals.{is_word_char, is_word}
use nodestack.Records.Filter.Scan.{
  Seen, Scan, Operator, operator_text, operators, scan_step, is_top, is_char_escaped, quote_after,
  split_run, split_top_level, find_operator_index,
}
use nodestack.Records.Filter.Quiet.{at_top, inside, split-quiet, split_step, literal-Stays}
use nodestack.Records.Filter.Finds.{
  is_plain, spaces, spaces-is_plain, name_seen, opening, after_opening, op_seen,
}
use nodestack.Records.Filter.Spaces.{words_solid, all-of-word, trim_codes-append_solid}
use nodestack.Records.Filter.Splits.{is_joint, split-word, split-op}
use nodestack.Records.Filter.{
  compare_at, parse_with, parse_single_comparison, convert, parse_filter, where_clause,
}

-- A comparison of a text with a name, as `FilterCodec.encode` writes the text.
abbrev pub literal_text : List ℕ → ℕ → Operator → List ℕ → List ℕ
literal_text s n op name = encode (some s) ++ (spaces n ++ (operator_text op ++ (spaces n ++ name)))

-- The quote that ends the literal.
closing :
    (seen : Seen)
    → is_char_escaped seen ≡ false
    → (scan_step 39 (inside seen) ≡ at_top (39 ∷ seen)) × (is_top 39 (inside seen) ≡ true)
unfolding scan_step is_top quote_after
closing seen h = (rw h refl, rw h refl)

-- The loop of `splitTopLevel` stands behind the literal at the top again.
split-literal_first :
    (k : ℕ) (s rest : List ℕ)
    → is_joint k ≡ true
    → (seen : Seen) × (split_run k (encode (some s) ++ rest) [] [] (at_top [])
        ≡ split_run k rest [] (encode (some s)) (at_top seen))
unfolding encode is_char_escaped
split-literal_first k s rest hk =
    let (o, t) = opening [] refl in
    let (q, seen, e, r) = literal-Stays s (39 ∷ []) (after_opening []) in
    let (c, u) = closing seen e in
    (
      39 ∷ seen,
      split_step k 39 ((escaped s ++ 39 ∷ []) ++ rest) [] [] (at_top []) (rw t)
          ∙ rw o (
              ap (λ x. split_run k x [] (39 ∷ []) (inside (39 ∷ [])))
                (append_assoc (escaped s) (39 ∷ []) rest)
              ∙ split-quiet k (escaped s) (39 ∷ rest) [] (39 ∷ []) (inside (39 ∷ [])) q
              ∙ rw r (
                  split_step k 39 rest [] ((39 ∷ []) ++ escaped s) (inside seen) (ground arith)
                  ∙ rw c refl)),
    )

spaces-name :
    (n : ℕ) (name : List ℕ) → all is_word_char name ≡ true → all is_plain (spaces n ++ name) ≡ true
spaces-name zero [] h = refl
spaces-name zero (c ∷ name) h =
    let (p, q) = &&-eq-true (is_word_char c) (all is_word_char name) h in
    rw p (spaces-name zero name q)
spaces-name (suc n) name h = spaces-name n name h

split_end :
    (k : ℕ) (c : ℕ) (current : List ℕ) (s : Scan)
    → split_run k [] [] (c ∷ current) s ≡ (c ∷ current) ∷ []
unfolding split_run
split_end k c current s = refl

module _ (s : List ℕ) (n : ℕ) (op : Operator) (name : List ℕ)
    (hn : all is_word_char name ≡ true) where
  whole_part :
      (k : ℕ)
      → is_joint k ≡ true
      → split_top_level k (literal_text s n op name) ≡ literal_text s n op name ∷ []
  unfolding split_top_level encode
  whole_part k hk =
      let lead = encode (some s) in
      let tail = spaces n ++ name in
      let (seen, e) = split-literal_first k s (spaces n ++ (operator_text op ++ tail)) hk in
      let after_spaces = name_seen (spaces n) seen in
      let after_op = op_seen op after_spaces in
      e
      ∙ split-word k (spaces n) (operator_text op ++ tail) lead seen (ground arith)
          (spaces-is_plain n)
      ∙ split-op k op tail (lead ++ spaces n) after_spaces hk
      ∙ ap (λ x. split_run k x [] ((lead ++ spaces n) ++ operator_text op) (at_top after_op))
          (sym (append-nil tail))
      ∙ split-word k tail [] ((lead ++ spaces n) ++ operator_text op) after_op (ground arith)
          (spaces-name n name hn)
      ∙ split_end k 39 _ (at_top (name_seen tail after_op))
      ∙ ap (λ x. x ∷ [])
          (append_assoc (lead ++ spaces n) (operator_text op) tail
            ∙ append_assoc lead (spaces n) (operator_text op ++ tail))

trim-literal_text :
    (s : List ℕ) (n : ℕ) (op : Operator) (name : List ℕ)
    → is_word name ≡ true
    → trim_codes (literal_text s n op name) ≡ literal_text s n op name
unfolding encode is_word
trim-literal_text s n op name hw =
    let (filled, solid) = &&-eq-true (not (is_blank name)) (all is_word_char name) hw in
    let head = (escaped s ++ 39 ∷ []) ++ (spaces n ++ (operator_text op ++ spaces n)) in
    let shape : (escaped s ++ 39 ∷ []) ++ (spaces n ++ (operator_text op ++ (spaces n ++ name)))
        ≡ head ++ name =
      sym (
        append_assoc (escaped s ++ 39 ∷ []) (spaces n ++ (operator_text op ++ spaces n)) name
        ∙ ap (λ x. (escaped s ++ 39 ∷ []) ++ x)
            (append_assoc (spaces n) (operator_text op ++ spaces n) name
              ∙ ap (λ x. spaces n ++ x) (append_assoc (operator_text op) (spaces n) name))) in
    rw shape (trim_codes-append_solid 39 head name refl (words_solid name solid) (ground arith))

-- A text that begins with a quote is no word, however much of it is taken.
not_word : (x : List ℕ) (i : ℕ) → is_word (trim_codes (take i (39 ∷ x))) ≡ false
unfolding is_word trim_codes trim_codes_start trim_codes_end
not_word x zero = refl
not_word x (suc i) = refl

module _ (number_text : List ℕ → List ℕ) (allowed : Option (List (List ℕ)))
    (table_prefix : Option (List ℕ)) where
  compare_at-literal :
      (op : Operator) (x : List ℕ) (i : ℕ)
      → compare_at number_text allowed table_prefix op (39 ∷ x) i ≡ ([], [])
  unfolding compare_at
  compare_at-literal op x i = rw (not_word x i) refl

  parse_with-literal :
      (ops : List Operator) (x : List ℕ)
      → parse_with number_text allowed table_prefix ops (39 ∷ x) ≡ ([], [])
  unfolding parse_with
  parse_with-literal [] x = refl
  parse_with-literal (op ∷ ops) x = elim (Option-cases (find_operator_index (39 ∷ x) op)) [
    | inl e ↦ rw (e, parse_with) (parse_with-literal ops x)
    | inr (i, e) ↦ rw (e, parse_with) (compare_at-literal op x i)
  ]

  convert-literal_text :
      (fuel : ℕ) (s : List ℕ) (n : ℕ) (op : Operator) (name : List ℕ)
      → is_word name ≡ true
      → convert number_text allowed table_prefix (suc fuel) (literal_text s n op name)
        ≡ some ([], [])
  unfolding convert parse_single_comparison encode
  convert-literal_text fuel s n op name hw =
      let hn = all-of-word name hw in
      rw (whole_part s n op name hn b'|' refl) (
        rw (whole_part s n op name hn b'&' refl)
          (rw (trim-literal_text s n op name hw) (ap some (parse_with-literal operators _))))

  -- A filter that compares a literal of any text with a name, the literal first, has no condition at
  -- all: every record meets it.
  pub parse_filter-literal_text :
      (s : List ℕ) (n : ℕ) (op : Operator) (name : List ℕ)
      → is_word name ≡ true
      → parse_filter number_text allowed table_prefix (some (literal_text s n op name))
        ≡ some ([], [])
  unfolding parse_filter encode
  parse_filter-literal_text s n op name hw = rw (trim-literal_text s n op name hw) (
      ap (Option.map where_clause)
        (convert-literal_text (length (literal_text s n op name)) s n op name hw))
