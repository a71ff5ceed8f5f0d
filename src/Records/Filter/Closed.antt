-- ===== src/Records/Filter/Closed.antt =====
-- Texts whose quotes and parentheses are closed: what the loops of `QueryFilterParser` make of one
-- within parentheses.
use nodestack.Prelude.{
  ℕ, zero, suc, Bool, true, false, not, List, [], ◌∷◌, ◌++◌, Option, none, some, ◌&&◌, ◌||◌, ◌==◌,
  ◌≡◌, refl, sym, ap, ◌∙◌, arith, Bool-cases, inl, inr, is_some, is_blank, &&-eq-true,
  if◌then◌else◌,
}
use nodestack.Prelude.Int.{ℤ, pos, negsuc}
use nodestack.Records.Filter.Scan.{
  Seen, Scan, scan_start, increase, decrease, is_zero, scan_step, is_top, is_char_escaped,
  quote_after, enclosed_run,
}
use nodestack.Records.Filter.Quiet.{is_quiet, scan_over}

abbrev is_positive : ℤ → Bool
is_positive (pos n) = true
is_positive (negsuc n) = false

abbrev closed_run : List ℕ → Scan → Bool
closed_run [] s = not (is_some s.quote) && is_zero s.depth
closed_run (c ∷ cs) s = is_positive (scan_step c s).depth && closed_run cs (scan_step c s)

-- No parenthesis is closed before it is opened, and at the end no quote and no parenthesis is open.
unfoldable pub is_closed : List ℕ → Bool
unfolding scan_step
is_closed cs = closed_run cs scan_start

-- In one pair of parentheses.
abbrev pub in_parens : Seen → Scan
in_parens seen = record { seen = seen; quote = none; depth = pos 1 }

-- The same place of a text within parentheses and without them.
data Above : Scan → Scan → Type 0 where
  above :
      (seen seen' : Seen) (q : Option ℕ) (d : ℕ)
      → is_char_escaped seen ≡ is_char_escaped seen'
      → Above
          (record { seen = seen; quote = q; depth = pos d })
          (record { seen = seen'; quote = q; depth = pos (suc d) })

escaped-cons :
    (c : ℕ) (seen seen' : Seen)
    → is_char_escaped seen ≡ is_char_escaped seen'
    → is_char_escaped (c ∷ seen) ≡ is_char_escaped (c ∷ seen')
unfolding is_char_escaped
escaped-cons c seen seen' e = rw e refl

quote_after-same :
    (c : ℕ) (seen seen' : Seen) (q : Option ℕ)
    → is_char_escaped seen ≡ is_char_escaped seen'
    → quote_after c seen q ≡ quote_after c seen' q
unfolding quote_after
quote_after-same c seen seen' q e = rw e refl

-- The parenthesis outside counts for one.
depth_step : Bool → ℕ → ℤ → ℤ
depth_step quoted c d =
    if quoted then d else if c == 40 then increase d else if c == 41 then decrease d else d

depth_above :
    (quoted : Bool) (c d : ℕ)
    → is_positive (depth_step quoted c (pos d)) ≡ true
    → (e : ℕ) × (depth_step quoted c (pos d) ≡ pos e)
      × (depth_step quoted c (pos (suc d)) ≡ pos (suc e))
unfolding depth_step
depth_above true c d h = (d, refl, refl)
depth_above false c d h = elim (Bool-cases (c == 40)) [
  | inl o ↦ (suc d, rw o refl, rw o refl)
  | inr o ↦ elim (Bool-cases (c == 41)) [
    | inr k ↦ (d, rw o (rw k refl), rw o (rw k refl))
    | inl k ↦ closes d (rw o at rw k at h) o k
  ]
]
  where
    closes :
        (d : ℕ)
        → is_positive (decrease (pos d)) ≡ true
        → (c == 40) ≡ false
        → (c == 41) ≡ true
        → (e : ℕ) × (depth_step false c (pos d) ≡ pos e)
          × (depth_step false c (pos (suc d)) ≡ pos (suc e))
    closes zero h o k = absurd (cc h)
    closes (suc d) h o k = (d, rw o (rw k refl), rw o (rw k refl))

suc-ne-zero : (d : ℕ) → (suc d == 0) ≡ false
suc-ne-zero d = ground arith

step-Above :
    (c : ℕ) (s t : Scan)
    → Above s t
    → is_positive (scan_step c s).depth ≡ true
    → Above (scan_step c s) (scan_step c t)
      × (is_top c t ≡ false)
      × (is_zero (scan_step c t).depth ≡ false)
unfolding scan_step is_top depth_step
step-Above c _ _ (above seen seen' q d e) h =
    let same = quote_after-same c seen seen' q e in
    let (d', before, behind) = depth_above (is_some (quote_after c seen q)) c d h in
    let quoted = quote_after c seen q in
    let stepped : scan_step c (record { seen = seen; quote = q; depth = pos d })
        ≡ record { seen = c ∷ seen; quote = quoted; depth = pos d' } =
      ap (λ z. record { seen = c ∷ seen; quote = quoted; depth = z }) before in
    let stepped' : scan_step c (record { seen = seen'; quote = q; depth = pos (suc d) })
        ≡ record { seen = c ∷ seen'; quote = quoted; depth = pos (suc d') } =
      rw (← same) (ap (λ z. record { seen = c ∷ seen'; quote = quoted; depth = z }) behind) in
    (
      rw stepped
          (rw stepped' (above (c ∷ seen) (c ∷ seen') quoted d' (escaped-cons c seen seen' e))),
      rw (suc-ne-zero d)
          (not_top (not (is_some (quote_after c seen' q))) (not (c == 40 || c == 41))),
      ap (λ t. is_zero t.depth) stepped' ∙ suc-ne-zero d',
    )
  where
    not_top : (a b : Bool) → (a && b && false) ≡ false
    not_top a b = ground arith

-- Within parentheses nothing is looked for in a closed text, and it ends where it began.
pub record Passes (x : List ℕ) (seen : Seen) : Type 0 where
  pub quiet : is_quiet x (in_parens seen) ≡ true
  pub last : Seen
  pub over : scan_over x (in_parens seen) ≡ in_parens last

passes_from :
    (x : List ℕ) (s t : Scan)
    → Above s t
    → closed_run x s ≡ true
    → (is_quiet x t ≡ true) × (last : Seen) × (scan_over x t ≡ in_parens last)
passes_from [] s t a h = at_end s t a h
  where
    at_end :
        (s t : Scan)
        → Above s t
        → closed_run [] s ≡ true
        → (true ≡ true) × (last : Seen) × (t ≡ in_parens last)
    at_end _ _ (above seen seen' (some k) d e) h = absurd (cc h)
    at_end _ _ (above seen seen' none zero e) h = (refl, seen', refl)
    at_end _ _ (above seen seen' none (suc d) e) h = absurd (cc (h, suc-ne-zero d))
passes_from (c ∷ x) s t a h =
    let (p, h') = &&-eq-true (is_positive (scan_step c s).depth) (closed_run x (scan_step c s)) h in
    let (a', top, deep) = step-Above c s t a p in
    let (q, last, r) = passes_from x (scan_step c s) (scan_step c t) a' h' in (rw top q, last, r)

pub closed-Passes :
    (x : List ℕ) (seen : Seen) → is_closed x ≡ true → is_char_escaped seen ≡ false → Passes x seen
unfolding is_closed is_char_escaped
closed-Passes x seen h e =
    let (q, last, r) = passes_from x scan_start (in_parens seen) (above [] seen none 0 (sym e)) h in
    record { quiet = q; last = last; over = r }

enclosed_from :
    (x rest : List ℕ) (s t : Scan)
    → Above s t
    → closed_run x s ≡ true
    → enclosed_run (x ++ rest) t ≡ enclosed_run rest (scan_over x t)
unfolding enclosed_run
enclosed_from [] rest s t a h = refl
enclosed_from (c ∷ x) rest s t a h =
    let (p, h') = &&-eq-true (is_positive (scan_step c s).depth) (closed_run x (scan_step c s)) h in
    let (a', top, deep) = step-Above c s t a p in
    let inside : (not (is_some (scan_step c t).quote)
          && is_zero (scan_step c t).depth
          && not (is_blank (x ++ rest)))
        ≡ false =
      ground (arith, deep) in
    rw inside (enclosed_from x rest (scan_step c s) (scan_step c t) a' h')

-- `isFullyEnclosed` does not end within a closed text.
pub enclosed-closed :
    (x rest : List ℕ) (seen : Seen)
    → is_closed x ≡ true
    → is_char_escaped seen ≡ false
    → enclosed_run (x ++ rest) (in_parens seen) ≡ enclosed_run rest (scan_over x (in_parens seen))
unfolding is_closed is_char_escaped
enclosed-closed x rest seen h e =
    enclosed_from x rest scan_start (in_parens seen) (above [] seen none 0 (sym e)) h
