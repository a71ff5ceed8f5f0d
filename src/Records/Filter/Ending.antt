-- ===== src/Records/Filter/Ending.antt =====
-- `parseFilter` ends: each recursive call is about a shorter text.
use nodestack.Prelude.{
  ℕ, zero, suc, ◌+◌, ◌≤◌, ◌<◌, true, false, List, [], ◌∷◌, ◌++◌, Option, none, some, inl, inr, ◌⊎◌,
  ◌&&◌, ◌==◌, ◌≡◌, refl, arith, Option-cases, &&-eq-true, All, All-map, All-append, if-both, length,
  length-append, drop, ltb, is_blank, is_some, first_is, last_is, drop_last, trim_codes,
  trim_codes-le, drop_last-le, codes,
}
use mathlib.Core.Option
use nodestack.Records.Filter.Scan.{
  Scan, scan_start, scan_step, is_top, split_run, split_top_level, is_fully_enclosed,
}
use nodestack.Records.Filter.{
  Parsed, combine, convert_each, wrapped, where_clause, convert, parse_filter,
}

abbrev Within : ℕ → List (List ℕ) → Type 0
Within n = All (λ p. length p ≤ n)

split-Within :
    (k : ℕ) (str : List ℕ) (parts : List (List ℕ)) (current : List ℕ) (s : Scan) (n : ℕ)
    → Within n parts
    → length current + length str ≤ n
    → Within n (split_run k str parts current s)
unfolding split_run
split-Within k [] parts current s n h le =
    if-both (Within n) (is_blank current) (λ _. h)
      (λ _. All-append _ parts (current ∷ []) h (omega arith, tt))
split-Within k (c ∷ []) parts current s n h le =
    All-append _ parts ((current ++ c ∷ []) ∷ []) h
      (omega (arith, length-append current (c ∷ [])), tt)
split-Within k (c ∷ e ∷ cs) parts current s n h le =
    if-both (Within n) (is_top c s && c == k && e == k)
      (λ _.
        split-Within k cs (parts ++ current ∷ []) [] (record s { seen = e ∷ c ∷ s.seen }) n
          (All-append _ parts (current ∷ []) h (omega arith, tt)) (omega arith))
      (λ _.
        split-Within k (e ∷ cs) parts (current ++ c ∷ []) (scan_step c s) n h
          (omega (arith, length-append current (c ∷ []))))

-- More parts than one are shorter than the whole.
split-shorter :
    (k : ℕ) (str current : List ℕ) (s : Scan) (n : ℕ)
    → length current + length str ≤ suc n
    → (ltb 1 (length (split_run k str [] current s)) ≡ false)
      ⊎ Within n (split_run k str [] current s)
unfolding split_run
split-shorter k [] current s n le =
    if-both (λ r. (ltb 1 (length r) ≡ false) ⊎ Within n r) (is_blank current) (λ _. inl refl)
      (λ _. inl refl)
split-shorter k (c ∷ []) current s n le = inl refl
split-shorter k (c ∷ e ∷ cs) current s n le =
    if-both (λ r. (ltb 1 (length r) ≡ false) ⊎ Within n r) (is_top c s && c == k && e == k)
      (λ _. inr (
        split-Within k cs (current ∷ []) [] (record s { seen = e ∷ c ∷ s.seen }) n (omega arith, tt)
          (omega arith)))
      (λ _.
        split-shorter k (e ∷ cs) (current ++ c ∷ []) (scan_step c s) n
          (omega (arith, length-append current (c ∷ []))))

pub parts-lt :
    (k : ℕ) (expr : List ℕ) (fuel : ℕ)
    → length expr < suc fuel
    → ltb 1 (length (split_top_level k expr)) ≡ true
    → All (λ p. length p < fuel) (split_top_level k expr)
unfolding split_top_level split_run
parts-lt k [] zero h many = cc
parts-lt k (c ∷ cs) zero h many = absurd (omega arith)
parts-lt k expr (suc n) h many = elim (split-shorter k expr [] scan_start n (omega arith)) [
  | inl one ↦ absurd (cc (one, many))
  | inr w ↦ All-map _ _ (λ p le. omega arith) _ w
]

is_some-map :
    {A B : Type 0} (f : A → B) (o : Option A) → is_some o ≡ true → is_some (Option.map f o) ≡ true
is_some-map f none h = cc
is_some-map f (some a) h = refl

-- The fuel has not run out.
abbrev Given : Option Parsed → Type 0
Given o = is_some o ≡ true

each_some :
    (f : List ℕ → Option Parsed) (parts : List (List ℕ))
    → All (λ p. is_some (f (trim_codes p)) ≡ true) parts
    → is_some (convert_each f parts) ≡ true
unfolding convert_each
each_some f [] h = refl
each_some f (p ∷ ps) (h, hs) = elim (Option-cases (f (trim_codes p))) [
  | inl e ↦ absurd_some (rw e at h)
  | inr (r, e) ↦
      rw (e, convert_each) (is_some-map (λ rs. r ∷ rs) (convert_each f ps) (each_some f ps hs))
]
  where
    absurd_some : false ≡ true → is_some (convert_each f (p ∷ ps)) ≡ true
    absurd_some e = cc

-- What is left in the parentheses is shorter.
pub unwrapped-lt :
    (expr : List ℕ)
    → first_is b'(' (trim_codes expr) ≡ true
    → length (trim_codes (drop_last (drop 1 (trim_codes expr)))) < length expr
unwrapped-lt expr h = first_part (trim_codes expr) h (trim_codes-le expr)
  where
    first_part :
        (t : List ℕ)
        → first_is b'(' t ≡ true
        → length t ≤ length expr
        → length (trim_codes (drop_last (drop 1 t))) < length expr
    first_part [] f le = cc
    first_part (c ∷ t) f le = omega (arith, trim_codes-le (drop_last t), drop_last-le t)

pub some_of : {A : Type 0} (o : Option A) → is_some o ≡ true → (a : A) × (o ≡ some a)
some_of none h = absurd (cc h)
some_of (some a) h = (a, refl)

module _ (number_text : List ℕ → List ℕ) (allowed : Option (List (List ℕ)))
    (table_prefix : Option (List ℕ)) where
  pub convert_total :
      (fuel : ℕ) (expr : List ℕ)
      → length expr < fuel
      → is_some (convert number_text allowed table_prefix fuel expr) ≡ true
  unfolding convert
  convert_total zero expr h = elim h [ ]
  convert_total (suc fuel) expr h =
      let call = convert number_text allowed table_prefix fuel in
      let parts : (k : ℕ)
          → ltb 1 (length (split_top_level k expr)) ≡ true
          → is_some (convert_each call (split_top_level k expr)) ≡ true =
        λ k many. each_some call (split_top_level k expr) (
          All-map _ _ (λ p le. convert_total fuel (trim_codes p) (omega (arith, trim_codes-le p)))
            (split_top_level k expr) (parts-lt k expr fuel h many)) in
      if-both Given (ltb 1 (length (split_top_level b'|' expr)))
        (λ many. is_some-map (combine (codes " OR ")) _ (parts b'|' many))
        (λ _.
          if-both Given (ltb 1 (length (split_top_level b'&' expr)))
            (λ many. is_some-map (combine (codes " AND ")) _ (parts b'&' many))
            (λ _.
              if-both Given
                (first_is b'(' (trim_codes expr)
                  && last_is b')' (trim_codes expr)
                  && is_fully_enclosed (trim_codes expr))
                (λ t. is_some-map wrapped _ (
                  convert_total fuel (trim_codes (drop_last (drop 1 (trim_codes expr))))
                    (omega (arith, unwrapped-lt expr (opens t)))))
                (λ _. refl)))
    where
      opens :
          (first_is b'(' (trim_codes expr)
              && last_is b')' (trim_codes expr)
              && is_fully_enclosed (trim_codes expr))
            ≡ true
          → first_is b'(' (trim_codes expr) ≡ true
      opens t = (&&-eq-true _ _ (&&-eq-true _ _ t).0).0

  -- The parser gives a clause for every filter: the fuel is enough.
  pub parse_filter_total :
      (filter_str : Option (List ℕ))
      → (parsed : Parsed) × (parse_filter number_text allowed table_prefix filter_str ≡ some parsed)
  unfolding parse_filter
  parse_filter_total none = (([], []), refl)
  parse_filter_total (some f) = some_of _ (
      if-both Given (is_blank (trim_codes f)) (λ _. refl)
        (λ _.
          is_some-map where_clause _
            (convert_total (suc (length (trim_codes f))) (trim_codes f) (omega arith))))
