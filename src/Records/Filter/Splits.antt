-- ===== src/Records/Filter/Splits.antt =====
-- `splitTopLevel` does not split a comparison of a name with a quoted literal.
use nodestack.Prelude.{
  ℕ, Bool, true, false, List, [], ◌∷◌, ◌++◌, some, inl, inr, ◌||◌, ◌==◌, ◌≡◌, refl, sym, ap, ◌∙◌,
  arith, Bool-cases, all, &&-eq-true, append_assoc, append-nil,
}
use nodestack.Records.Codec.{escaped, encode}
use nodestack.Records.Filter.Scan.{
  Seen, Scan, Operator, ne, ge, le, eq, gt, lt, not_like, like, operator_text, scan_step, is_top,
  is_char_escaped, quote_after, split_run,
}
use nodestack.Records.Filter.Quiet.{
  at_top, inside, scan_over, split-quiet, split_step, literal-Stays,
}
use nodestack.Records.Filter.Finds.{
  is_plain, spaces, spaces-is_plain, name_seen-is_char_escaped, name_seen, word_step, opening,
  after_opening, op_seen,
}

ne-plain : (c k : ℕ) → is_plain c ≡ true → is_plain k ≡ false → (c == k) ≡ false
ne-plain c k p n = elim (Bool-cases (c == k)) [
  | inl e ↦ (let same : c ≡ k = ground arith in cc (ap is_plain same))
  | inr e ↦ e
]

pub split-word :
    (k : ℕ) (name rest : List ℕ) (current : List ℕ) (seen : Seen)
    → is_plain k ≡ false
    → all is_plain name ≡ true
    → split_run k (name ++ rest) [] current (at_top seen)
      ≡ split_run k rest [] (current ++ name) (at_top (name_seen name seen))
unfolding name_seen
split-word k [] rest current seen n h =
    ap (λ t. split_run k rest [] t (at_top seen)) (sym (append-nil current))
split-word k (c ∷ name) rest current seen n h =
    let (p, q) = &&-eq-true (is_plain c) (all is_plain name) h in
    split_step k c (name ++ rest) [] current (at_top seen) (ground (arith, ne-plain c k p n))
    ∙ rw (word_step c seen p) (
        split-word k name rest (current ++ c ∷ []) (c ∷ seen) n q
        ∙ ap (λ t. split_run k rest [] t (at_top (name_seen name (c ∷ seen))))
            (append_assoc current (c ∷ []) name))

-- The delimiters of `splitTopLevel`.
abbrev pub is_joint : ℕ → Bool
is_joint k = k == b'|' || k == b'&'

pub split-op :
    (k : ℕ) (op : Operator) (rest current : List ℕ) (seen : Seen)
    → is_joint k ≡ true
    → split_run k (operator_text op ++ rest) [] current (at_top seen)
      ≡ split_run k rest [] (current ++ operator_text op) (at_top (op_seen op seen))
unfolding op_seen scan_step is_top quote_after
split-op k ne rest current seen h =
    split_step k 33 (61 ∷ rest) [] current (at_top seen) (ground arith)
    ∙ split_step k 61 rest [] (current ++ 33 ∷ []) (at_top (33 ∷ seen)) (ground arith)
    ∙ ap (λ t. split_run k rest [] t (at_top (61 ∷ 33 ∷ seen)))
        (append_assoc current (33 ∷ []) (61 ∷ []))
split-op k ge rest current seen h =
    split_step k 62 (61 ∷ rest) [] current (at_top seen) (ground arith)
    ∙ split_step k 61 rest [] (current ++ 62 ∷ []) (at_top (62 ∷ seen)) (ground arith)
    ∙ ap (λ t. split_run k rest [] t (at_top (61 ∷ 62 ∷ seen)))
        (append_assoc current (62 ∷ []) (61 ∷ []))
split-op k le rest current seen h =
    split_step k 60 (61 ∷ rest) [] current (at_top seen) (ground arith)
    ∙ split_step k 61 rest [] (current ++ 60 ∷ []) (at_top (60 ∷ seen)) (ground arith)
    ∙ ap (λ t. split_run k rest [] t (at_top (61 ∷ 60 ∷ seen)))
        (append_assoc current (60 ∷ []) (61 ∷ []))
split-op k eq rest current seen h = split_step k 61 rest [] current (at_top seen) (ground arith)
split-op k gt rest current seen h = split_step k 62 rest [] current (at_top seen) (ground arith)
split-op k lt rest current seen h = split_step k 60 rest [] current (at_top seen) (ground arith)
split-op k not_like rest current seen h =
    split_step k 33 (126 ∷ rest) [] current (at_top seen) (ground arith)
    ∙ split_step k 126 rest [] (current ++ 33 ∷ []) (at_top (33 ∷ seen)) (ground arith)
    ∙ ap (λ t. split_run k rest [] t (at_top (126 ∷ 33 ∷ seen)))
        (append_assoc current (33 ∷ []) (126 ∷ []))
split-op k like rest current seen h = split_step k 126 rest [] current (at_top seen) (ground arith)

split-last :
    (k c : ℕ) (current : List ℕ) (s : Scan)
    → split_run k (c ∷ []) [] current s ≡ (current ++ c ∷ []) ∷ []
unfolding split_run
split-last k c current s = refl

split-literal :
    (k : ℕ) (s current : List ℕ) (seen : Seen)
    → is_char_escaped seen ≡ false
    → split_run k (encode (some s)) [] current (at_top seen) ≡ (current ++ encode (some s)) ∷ []
unfolding encode
split-literal k s current seen h =
    let (o, t) = opening seen h in
    let (q, seen', e, r) = literal-Stays s (39 ∷ seen) (after_opening seen) in
    split_step k 39 (escaped s ++ 39 ∷ []) [] current (at_top seen) (rw t)
    ∙ rw o (
        split-quiet k (escaped s) (39 ∷ []) [] (current ++ 39 ∷ []) (inside (39 ∷ seen)) q
        ∙ split-last k 39 ((current ++ 39 ∷ []) ++ escaped s)
            (scan_over (escaped s) (inside (39 ∷ seen)))
        ∙ ap (λ t. t ∷ [])
            (append_assoc (current ++ 39 ∷ []) (escaped s) (39 ∷ [])
              ∙ append_assoc current (39 ∷ []) (escaped s ++ 39 ∷ [])))

pub split-operand :
    (k n : ℕ) (s current : List ℕ) (seen : Seen)
    → is_joint k ≡ true
    → is_char_escaped seen ≡ false
    → split_run k (spaces n ++ encode (some s)) [] current (at_top seen)
      ≡ (current ++ (spaces n ++ encode (some s))) ∷ []
split-operand k n s current seen j h =
    split-word k (spaces n) (encode (some s)) current seen (ground arith) (spaces-is_plain n)
    ∙ split-literal k s (current ++ spaces n) (name_seen (spaces n) seen)
        (name_seen-is_char_escaped (spaces n) seen (spaces-is_plain n) h)
    ∙ ap (λ t. t ∷ []) (append_assoc current (spaces n) (encode (some s)))
