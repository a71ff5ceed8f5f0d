-- ===== src/Records/Filter/Quiet.antt =====
-- Stretches of text in which the loops of `QueryFilterParser` find nothing: names, and the literals
-- that `FilterCodec.encode` writes.
use nodestack.Prelude.{
  ℕ, ◌+◌, Bool, true, false, not, List, [], ◌∷◌, ◌++◌, none, some, inl, inr, ◌&&◌, ◌==◌, ◌≡◌, refl,
  sym, ap, ◌∙◌, arith, &&-eq-true, append_assoc, append-nil, subst, length, is_blank,
}
use nodestack.Prelude.Int.{pos}
use nodestack.Records.Codec.{escaped}
use nodestack.Records.Codec.Literals.{escaped-nil, escaped-cons, escaped_form}
use nodestack.Records.Filter.Scan.{
  Seen, Scan, Operator, scan_step, is_top, is_char_escaped, quote_after, split_run, find_run,
}

abbrev pub at_top : Seen → Scan
at_top seen = record { seen = seen; quote = none; depth = pos 0 }

-- In the quotes of a literal.
abbrev pub inside : Seen → Scan
inside seen = record { seen = seen; quote = some 39; depth = pos 0 }

abbrev pub scan_over : List ℕ → Scan → Scan
scan_over [] s = s
scan_over (c ∷ cs) s = scan_over cs (scan_step c s)

-- Nothing is looked for in the text.
abbrev pub is_quiet : List ℕ → Scan → Bool
is_quiet [] s = true
is_quiet (c ∷ cs) s = not (is_top c s) && is_quiet cs (scan_step c s)

pub find_step :
    (op : Operator) (i c : ℕ) (rest : List ℕ) (s : Scan)
    → is_top c s ≡ false
    → find_run op i (c ∷ rest) s ≡ find_run op (i + 1) rest (scan_step c s)
unfolding find_run
find_step op i c rest s h = rw h

pub find-quiet :
    (op : Operator) (i : ℕ) (x rest : List ℕ) (s : Scan)
    → is_quiet x s ≡ true
    → find_run op i (x ++ rest) s ≡ find_run op (i + length x) rest (scan_over x s)
find-quiet op i [] rest s h = ap (λ j. find_run op j rest s) (omega arith)
find-quiet op i (c ∷ x) rest s h =
    let (p, q) = &&-eq-true (not (is_top c s)) _ h in
    find_step op i c (x ++ rest) s (ground arith)
    ∙ find-quiet op (i + 1) x rest (scan_step c s) q
    ∙ ap (λ j. find_run op j rest (scan_over x (scan_step c s))) (omega arith)

closed-ne-blank : (x : List ℕ) (c : ℕ) → is_blank (x ++ c ∷ []) ≡ false
closed-ne-blank [] c = refl
closed-ne-blank (d ∷ x) c = refl

pub split_step :
    (k c : ℕ) (rest : List ℕ) (parts : List (List ℕ)) (current : List ℕ) (s : Scan)
    → (is_top c s && c == k) ≡ false
    → split_run k (c ∷ rest) parts current s
      ≡ split_run k rest parts (current ++ c ∷ []) (scan_step c s)
unfolding split_run
split_step k c [] parts current s h = rw (closed-ne-blank current c)
split_step k c (e ∷ rest) parts current s h = rw h

pub split-quiet :
    (k : ℕ) (x rest : List ℕ) (parts : List (List ℕ)) (current : List ℕ) (s : Scan)
    → is_quiet x s ≡ true
    → split_run k (x ++ rest) parts current s
      ≡ split_run k rest parts (current ++ x) (scan_over x s)
split-quiet k [] rest parts current s h =
    ap (λ t. split_run k rest parts t s) (sym (append-nil current))
split-quiet k (c ∷ x) rest parts current s h =
    let (p, q) = &&-eq-true (not (is_top c s)) _ h in
    split_step k c (x ++ rest) parts current s (ground arith)
    ∙ split-quiet k x rest parts (current ++ c ∷ []) (scan_step c s) q
    ∙ ap (λ t. split_run k rest parts t (scan_over x (scan_step c s)))
        (append_assoc current (c ∷ []) x)

-- Nothing is looked for in the text within quotes, which stay open.
abbrev pub Stays : List ℕ → Seen → Type 0
Stays x seen =
    (is_quiet x (inside seen) ≡ true)
    × (seen' : Seen) × (is_char_escaped seen' ≡ false)
    × (scan_over x (inside seen) ≡ inside seen')

Stays-plain :
    (c : ℕ) (x : List ℕ) (seen : Seen) → (c == 39) ≡ false → Stays x (c ∷ seen) → Stays (c ∷ x) seen
unfolding scan_step is_top quote_after
Stays-plain c x seen h (q, seen', e, r) =
    let here : scan_step c (inside seen) ≡ inside (c ∷ seen) = ground arith in
    let quiet : is_top c (inside seen) ≡ false = ground arith in
    (rw quiet (rw here q), seen', e, rw here r)

Stays-pair :
    (e : ℕ) (x : List ℕ) (seen : Seen)
    → is_char_escaped seen ≡ false
    → Stays x (e ∷ 92 ∷ seen)
    → Stays (92 ∷ e ∷ x) seen
unfolding scan_step is_top quote_after is_char_escaped
Stays-pair e x seen h (q, seen', f, r) =
    let here : scan_step e (inside (92 ∷ seen)) ≡ inside (e ∷ 92 ∷ seen) = ground arith in
    let quiet : is_top e (inside (92 ∷ seen)) ≡ false = ground arith in
    (rw quiet (rw here q), seen', f, rw here r)

escaped_after :
    (e : ℕ) (seen : Seen) → is_char_escaped seen ≡ false → is_char_escaped (e ∷ 92 ∷ seen) ≡ false
unfolding is_char_escaped
escaped_after e seen h = ground arith

plain_after : (c : ℕ) (seen : Seen) → (c == 92) ≡ false → is_char_escaped (c ∷ seen) ≡ false
unfolding is_char_escaped
plain_after c seen h = rw h

-- Within a literal the quote stays open, and what follows is not escaped.
pub literal-Stays :
    (x : List ℕ) (seen : Seen) → is_char_escaped seen ≡ false → Stays (escaped x) seen
literal-Stays [] seen h = subst (λ t. Stays t seen) (sym escaped-nil) (refl, seen, h, refl)
literal-Stays (c ∷ x) seen h = elim (escaped_form c) [
  | inl (e, n, m) ↦
      subst (λ t. Stays t seen) (sym (escaped-cons c x ∙ ap (λ t. t ++ escaped x) e))
        (Stays-plain c (escaped x) seen m (literal-Stays x (c ∷ seen) (plain_after c seen n)))
  | inr (e, f) ↦
      subst (λ t. Stays t seen) (sym (escaped-cons c x ∙ ap (λ t. t ++ escaped x) f))
        (Stays-pair e (escaped x) seen h (literal-Stays x (e ∷ 92 ∷ seen) (escaped_after e seen h)))
]
