-- ===== src/Records/Filter/Quoted.antt =====
-- A comparison with a quoted literal, whatever text is quoted.
use nodestack.Prelude.{
  ℕ, zero, suc, starts_with, ◌+◌, true, false, not, List, [], ◌∷◌, ◌++◌, Option, none, some, ◌||◌,
  ◌==◌, ◌≡◌, ◌≢◌, refl, ap, ◌∙◌, arith, All, All-map, all, &&-eq-true, append_assoc, length, take,
  drop, is_blank, trim_codes, trim_codes-closed, trim_codes-solid, take-append, drop-append,
  last_is-closed,
}
use nodestack.Records.Codec.{escaped, encode, is_quoted}
use nodestack.Records.Codec.Literals.{decode-encode}
use nodestack.Records.Filter.Literals.{
  text, is_word_char, is_word, is_allowed, extract_literal_value,
}
use nodestack.Records.Filter.Scan.{
  Operator, ne, ge, le, eq, gt, lt, not_like, like, operator_text, split_top_level,
  find_operator_index,
}
use nodestack.Records.Filter.Finds.{
  name_seen, find-word, op_seen, op_after, name_after, no_seen, spaces, find-operand,
}
use nodestack.Records.Filter.Order.{before, after, operators-split, missed, found}
use nodestack.Records.Filter.Spaces.{
  word_solid, words_solid, all-of-word, trim_codes-append, trim_codes-spaces, name-is_plain,
}
use nodestack.Records.Filter.Splits.{is_joint, split-word, split-op, split-operand}
use mathlib.Core.Option
use nodestack.Records.Filter.{
  compare_at, parse_with, parse_single_comparison, comparison, column, convert, parse_filter,
  where_clause,
}

-- A comparison of a name with a text, as `FilterCodec.encode` writes the text,
-- with as many spaces on each side of the operator.
abbrev pub filter_text : List ℕ → ℕ → Operator → List ℕ → List ℕ
filter_text name n op s = (name ++ spaces n) ++ (operator_text op ++ (spaces n ++ encode (some s)))

operand_starts : (n : ℕ) (s : List ℕ) → starts_with (spaces n ++ encode (some s)) (61 ∷ []) ≡ false
unfolding starts_with encode
operand_starts zero s = refl
operand_starts (suc n) s = refl

module _ (name : List ℕ) (n : ℕ) (op : Operator) (s : List ℕ)
    (hn : all is_word_char name ≡ true) where
  whole_part :
      (k : ℕ)
      → is_joint k ≡ true
      → split_top_level k (filter_text name n op s) ≡ filter_text name n op s ∷ []
  unfolding split_top_level
  whole_part k hk =
      let lead = name ++ spaces n in
      let tail = spaces n ++ encode (some s) in
      let seen = name_seen lead [] in
      split-word k lead (operator_text op ++ tail) [] [] (ground arith) (name-is_plain name n hn)
      ∙ split-op k op tail lead seen hk
      ∙ split-operand k n s (lead ++ operator_text op) (op_seen op seen) hk (op_after op seen)
      ∙ ap (λ t. t ∷ []) (append_assoc lead (operator_text op) tail)

  find-filter_text :
      find_operator_index (filter_text name n op s) op ≡ some (length (name ++ spaces n))
  unfolding find_operator_index
  find-filter_text =
      let lead = name ++ spaces n in
      find-word op 0 lead (operator_text op ++ (spaces n ++ encode (some s))) []
        (name-is_plain name n hn)
      ∙ found op (0 + length lead) (spaces n ++ encode (some s)) (name_seen lead [])
          (name_after op lead [] (name-is_plain name n hn) (no_seen op))
      ∙ ap some (omega arith)

  miss-filter_text :
      All (λ cand. find_operator_index (filter_text name n op s) cand ≡ none) (before op)
  unfolding find_operator_index
  miss-filter_text =
      let lead = name ++ spaces n in
      let tail = spaces n ++ encode (some s) in
      All-map _ _
        (λ cand h.
          find-word cand 0 lead (operator_text op ++ tail) [] (name-is_plain name n hn) ∙ h)
        (before op)
        (missed tail (find-operand n s) (operand_starts n s) op (0 + length lead)
          (name_seen lead []))

trim-literal : (s : List ℕ) → trim_codes (encode (some s)) ≡ encode (some s)
unfolding encode
trim-literal s = trim_codes-closed 39 (escaped s) 39 refl refl

drop-op :
    (op : Operator) (rest : List ℕ)
    → drop (length (operator_text op)) (operator_text op ++ rest) ≡ rest
drop-op ne rest = refl
drop-op ge rest = refl
drop-op le rest = refl
drop-op eq rest = refl
drop-op gt rest = refl
drop-op lt rest = refl
drop-op not_like rest = refl
drop-op like rest = refl

literal_quoted :
    (s : List ℕ) → (is_quoted 34 (encode (some s)) || is_quoted 39 (encode (some s))) ≡ true
unfolding is_quoted encode
literal_quoted s = rw (last_is-closed (39 ∷ escaped s) 39)

extract-literal : (s : List ℕ) → extract_literal_value (encode (some s)) ≡ text s
unfolding extract_literal_value is_quoted
extract-literal s = rw (trim-literal s) (rw (literal_quoted s) (ap text (decode-encode s)))

not_word : is_word [] ≢ true
unfolding is_word
not_word h = cc h

word_opens : (c : ℕ) → is_word_char c ≡ true → (c == b'(') ≡ false
word_opens c h = ground arith

trim-filter_text :
    (c : ℕ) (name : List ℕ) (n : ℕ) (op : Operator) (s : List ℕ)
    → is_word_char c ≡ true
    → trim_codes (filter_text (c ∷ name) n op s) ≡ filter_text (c ∷ name) n op s
unfolding encode
trim-filter_text c name n op s h =
    let lead = name ++ spaces n in
    let body = spaces n ++ 39 ∷ escaped s in
    let shape : lead ++ (operator_text op ++ (spaces n ++ 39 ∷ (escaped s ++ 39 ∷ [])))
        ≡ (lead ++ (operator_text op ++ body)) ++ 39 ∷ [] =
      rw (append_assoc lead (operator_text op ++ body) (39 ∷ [])) (
        rw (append_assoc (operator_text op) body (39 ∷ []))
          (rw (append_assoc (spaces n) (39 ∷ escaped s) (39 ∷ [])) refl)) in
    rw shape (trim_codes-closed c (lead ++ (operator_text op ++ body)) 39 (word_solid c h) refl)

module _ (number_text : List ℕ → List ℕ) (allowed : Option (List (List ℕ)))
    (table_prefix : Option (List ℕ)) where
  parse_with-found :
      (str : List ℕ) (pre : List Operator) (op : Operator) (post : List Operator) (i : ℕ)
      → All (λ cand. find_operator_index str cand ≡ none) pre
      → find_operator_index str op ≡ some i
      → parse_with number_text allowed table_prefix (pre ++ op ∷ post) str
        ≡ compare_at number_text allowed table_prefix op str i
  unfolding parse_with
  parse_with-found str [] op post i h k = rw (k, parse_with)
  parse_with-found str (c ∷ pre) op post i (e, h) k =
      rw (e, parse_with) (parse_with-found str pre op post i h k)

  compare_at-filter_text :
      (name : List ℕ) (n : ℕ) (op : Operator) (s : List ℕ)
      → is_word name ≡ true
      → is_allowed allowed name ≡ true
      → compare_at number_text allowed table_prefix op
          (filter_text name n op s)
          (length (name ++ spaces n))
        ≡ comparison number_text op (column table_prefix name) (text s)
  unfolding compare_at is_word
  compare_at-filter_text name n op s hw ha =
      let lead = name ++ spaces n in
      let tail = spaces n ++ encode (some s) in
      let name_kept : trim_codes (take (length lead) (filter_text name n op s)) ≡ name =
        ap trim_codes (take-append lead (operator_text op ++ tail))
        ∙ trim_codes-append name n
        ∙ trim_codes-solid name (words_solid name (&&-eq-true (not (is_blank name)) _ hw).1) in
      let value_kept : trim_codes
            (drop (length lead + length (operator_text op)) (filter_text name n op s))
          ≡ encode (some s) =
        ap trim_codes (
          drop-append lead (operator_text op ++ tail) (length (operator_text op)) ∙ drop-op op tail)
        ∙ trim_codes-spaces n (encode (some s))
        ∙ trim-literal s in
      rw name_kept (
        rw value_kept (
          rw hw (
            rw ha (ap (comparison number_text op (column table_prefix name)) (extract-literal s)))))

  parse_single-filter_text :
      (name : List ℕ) (n : ℕ) (op : Operator) (s : List ℕ)
      → is_word name ≡ true
      → is_allowed allowed name ≡ true
      → parse_single_comparison number_text allowed table_prefix (filter_text name n op s)
        ≡ comparison number_text op (column table_prefix name) (text s)
  unfolding parse_single_comparison
  parse_single-filter_text name n op s hw ha =
      let hn = all-of-word name hw in
      rw (operators-split op) (
        parse_with-found (filter_text name n op s) (before op) op (after op)
          (length (name ++ spaces n)) (miss-filter_text name n op s hn)
          (find-filter_text name n op s hn)
        ∙ compare_at-filter_text name n op s hw ha)

  convert-filter_text :
      (fuel c : ℕ) (name : List ℕ) (n : ℕ) (op : Operator) (s : List ℕ)
      → is_word (c ∷ name) ≡ true
      → is_allowed allowed (c ∷ name) ≡ true
      → convert number_text allowed table_prefix (suc fuel) (filter_text (c ∷ name) n op s)
        ≡ some (comparison number_text op (column table_prefix (c ∷ name)) (text s))
  unfolding convert
  convert-filter_text fuel c name n op s hw ha =
      let hn = all-of-word (c ∷ name) hw in
      rw (whole_part (c ∷ name) n op s hn b'|' refl) (
        rw (whole_part (c ∷ name) n op s hn b'&' refl) (
          rw (trim-filter_text c name n op s (&&-eq-true (is_word_char c) _ hn).0) (
            rw (word_opens c (&&-eq-true (is_word_char c) _ hn).0)
              (ap some (parse_single-filter_text (c ∷ name) n op s hw ha)))))

  -- A filter that compares an allowed name with a literal that `FilterCodec.encode` made of any text,
  -- with as many spaces on each side of the operator, becomes that one comparison, with the text as its parameter.
  pub parse_filter-quoted :
      (name : List ℕ) (n : ℕ) (op : Operator) (s : List ℕ)
      → is_word name ≡ true
      → is_allowed allowed name ≡ true
      → parse_filter number_text allowed table_prefix (some (filter_text name n op s))
        ≡ some (where_clause (comparison number_text op (column table_prefix name) (text s)))
  unfolding parse_filter
  parse_filter-quoted [] n op s hw ha = absurd (not_word hw)
  parse_filter-quoted (c ∷ name) n op s hw ha =
      let hn = all-of-word (c ∷ name) hw in
      rw (trim-filter_text c name n op s (&&-eq-true (is_word_char c) _ hn).0) (
        ap (Option.map where_clause)
          (convert-filter_text (length (filter_text (c ∷ name) n op s)) c name n op s hw ha))
