-- ===== src/Records/Filter/Groups.antt =====
-- Closed texts in parentheses, joined by `||` and `&&`: how `splitTopLevel` splits them, and what
-- `convertFilterExpression` makes of them.
use nodestack.Prelude.{
  ℕ, suc, true, false, List, [], ◌∷◌, ◌++◌, Option, ◌&&◌, ◌==◌, ◌≡◌, refl, sym, ap, ◌∙◌,
  append_assoc, trim_codes, trim_codes-closed, last_is-closed, drop_last-closed,
}
use mathlib.Core.Option
use nodestack.Records.Filter.Scan.{
  Seen, Scan, scan_step, is_top, is_char_escaped, quote_after, split_run, split_top_level,
  enclosed_run, is_fully_enclosed,
}
use nodestack.Records.Filter.Quiet.{at_top, split_step, split-quiet}
use nodestack.Records.Filter.Closed.{is_closed, in_parens, closed-Passes, enclosed-closed}
use nodestack.Records.Filter.{wrapped, convert}

abbrev pub group : List ℕ → List ℕ
group x = 40 ∷ (x ++ 41 ∷ [])

parens_open :
    (seen : Seen)
    → (scan_step 40 (at_top seen) ≡ in_parens (40 ∷ seen))
      × (is_top 40 (at_top seen) ≡ false)
      × (is_char_escaped (40 ∷ seen) ≡ false)
unfolding scan_step is_top quote_after is_char_escaped
parens_open seen = (refl, refl, refl)

parens_close :
    (seen : Seen)
    → (scan_step 41 (in_parens seen) ≡ at_top (41 ∷ seen)) × (is_top 41 (in_parens seen) ≡ false)
unfolding scan_step is_top quote_after
parens_close seen = (refl, refl)

-- A group is passed in one piece.
pub split-group :
    (k : ℕ) (x rest : List ℕ) (parts : List (List ℕ)) (current : List ℕ) (seen : Seen)
    → is_closed x ≡ true
    → (seen' : Seen) × (split_run k (40 ∷ (x ++ 41 ∷ rest)) parts current (at_top seen)
        ≡ split_run k rest parts (current ++ group x) (at_top seen'))
split-group k x rest parts current seen h =
    let (o, t, e) = parens_open seen in
    let p = closed-Passes x (40 ∷ seen) h e in
    let (c, u) = parens_close p.last in
    (
      41 ∷ p.last,
      split_step k 40 (x ++ 41 ∷ rest) parts current (at_top seen) (rw t refl)
          ∙ rw o (
              split-quiet k x (41 ∷ rest) parts (current ++ 40 ∷ []) (in_parens (40 ∷ seen)) p.quiet
              ∙ rw p.over (
                  split_step k 41 rest parts ((current ++ 40 ∷ []) ++ x) (in_parens p.last)
                    (rw u refl)
                  ∙ rw c (
                      ap (λ y. split_run k rest parts y (at_top (41 ∷ p.last)))
                        (append_assoc (current ++ 40 ∷ []) x (41 ∷ [])
                          ∙ append_assoc current (40 ∷ []) (x ++ 41 ∷ []))))),
    )

-- A space at the top.
split-space :
    (k : ℕ) (rest : List ℕ) (parts : List (List ℕ)) (current : List ℕ) (seen : Seen)
    → (32 == k) ≡ false
    → split_run k (32 ∷ rest) parts current (at_top seen)
      ≡ split_run k rest parts (current ++ 32 ∷ []) (at_top (32 ∷ seen))
unfolding scan_step is_top quote_after
split-space k rest parts current seen h = split_step k 32 rest parts current (at_top seen) h

split-end :
    (k c : ℕ) (parts : List (List ℕ)) (current : List ℕ) (s : Scan)
    → split_run k [] parts (c ∷ current) s ≡ parts ++ (c ∷ current) ∷ []
unfolding split_run
split-end k c parts current s = refl

append-four :
    (xs : List ℕ) (a b c d : ℕ) (ys : List ℕ)
    → ((((xs ++ a ∷ []) ++ b ∷ []) ++ c ∷ []) ++ d ∷ []) ++ ys ≡ xs ++ (a ∷ b ∷ c ∷ d ∷ ys)
append-four xs a b c d ys =
    append_assoc (((xs ++ a ∷ []) ++ b ∷ []) ++ c ∷ []) (d ∷ []) ys
    ∙ append_assoc ((xs ++ a ∷ []) ++ b ∷ []) (c ∷ []) (d ∷ ys)
    ∙ append_assoc (xs ++ a ∷ []) (b ∷ []) (c ∷ d ∷ ys)
    ∙ append_assoc xs (a ∷ []) (b ∷ c ∷ d ∷ ys)

-- An `&&` is passed where `||` is looked for.
split-and :
    (rest : List ℕ) (parts : List (List ℕ)) (current : List ℕ) (seen : Seen)
    → (seen' : Seen) × (split_run b'|' (32 ∷ 38 ∷ 38 ∷ 32 ∷ rest) parts current (at_top seen)
        ≡ split_run b'|' rest parts
            ((((current ++ 32 ∷ []) ++ 38 ∷ []) ++ 38 ∷ []) ++ 32 ∷ [])
            (at_top seen'))
unfolding scan_step is_top quote_after
split-and rest parts current seen = (
  32 ∷ 38 ∷ 38 ∷ 32 ∷ seen,
  split_step b'|' 32 (38 ∷ 38 ∷ 32 ∷ rest) parts current (at_top seen) refl
      ∙ split_step b'|' 38 (38 ∷ 32 ∷ rest) parts (current ++ 32 ∷ []) (at_top (32 ∷ seen)) refl
      ∙ split_step b'|' 38 (32 ∷ rest) parts ((current ++ 32 ∷ []) ++ 38 ∷ [])
          (at_top (38 ∷ 32 ∷ seen)) refl
      ∙ split_step b'|' 32 rest parts (((current ++ 32 ∷ []) ++ 38 ∷ []) ++ 38 ∷ [])
          (at_top (38 ∷ 38 ∷ 32 ∷ seen)) refl,
)

split_two :
    (k : ℕ) (rest : List ℕ) (parts : List (List ℕ)) (current : List ℕ) (seen : Seen)
    → (is_top k (at_top seen) && k == k && k == k) ≡ true
    → split_run k (k ∷ k ∷ rest) parts current (at_top seen)
      ≡ split_run k rest (parts ++ current ∷ []) [] (at_top (k ∷ k ∷ seen))
unfolding split_run
split_two k rest parts current seen h = rw h refl

-- At a delimiter the parts are separated, with the spaces beside it.
split-at_and :
    (rest : List ℕ) (parts : List (List ℕ)) (current : List ℕ) (seen : Seen)
    → (seen' : Seen) × (split_run b'&' (32 ∷ 38 ∷ 38 ∷ 32 ∷ rest) parts current (at_top seen)
        ≡ split_run b'&' rest (parts ++ (current ++ 32 ∷ []) ∷ []) (32 ∷ []) (at_top seen'))
unfolding scan_step is_top quote_after
split-at_and rest parts current seen = (
  32 ∷ 38 ∷ 38 ∷ 32 ∷ seen,
  split_step b'&' 32 (38 ∷ 38 ∷ 32 ∷ rest) parts current (at_top seen) refl
      ∙ split_two b'&' (32 ∷ rest) parts (current ++ 32 ∷ []) (32 ∷ seen) refl
      ∙ split_step b'&' 32 rest (parts ++ (current ++ 32 ∷ []) ∷ []) []
          (at_top (38 ∷ 38 ∷ 32 ∷ seen)) refl,
)

split-at_or :
    (rest : List ℕ) (parts : List (List ℕ)) (current : List ℕ) (seen : Seen)
    → (seen' : Seen) × (split_run b'|' (32 ∷ 124 ∷ 124 ∷ 32 ∷ rest) parts current (at_top seen)
        ≡ split_run b'|' rest (parts ++ (current ++ 32 ∷ []) ∷ []) (32 ∷ []) (at_top seen'))
unfolding scan_step is_top quote_after
split-at_or rest parts current seen = (
  32 ∷ 124 ∷ 124 ∷ 32 ∷ seen,
  split_step b'|' 32 (124 ∷ 124 ∷ 32 ∷ rest) parts current (at_top seen) refl
      ∙ split_two b'|' (32 ∷ rest) parts (current ++ 32 ∷ []) (32 ∷ seen) refl
      ∙ split_step b'|' 32 rest (parts ++ (current ++ 32 ∷ []) ∷ []) []
          (at_top (124 ∷ 124 ∷ 32 ∷ seen)) refl,
)

-- A group by itself is not split.
pub split_top_level-group :
    (k : ℕ) (x : List ℕ) → is_closed x ≡ true → split_top_level k (group x) ≡ group x ∷ []
unfolding split_top_level
split_top_level-group k x h =
    let (seen, e) = split-group k x [] [] [] [] h in
    e ∙ split-end k 40 [] (x ++ 41 ∷ []) (at_top seen)

group-is_fully_enclosed : (x : List ℕ) → is_closed x ≡ true → is_fully_enclosed (group x) ≡ true
unfolding is_fully_enclosed enclosed_run scan_step quote_after is_char_escaped
group-is_fully_enclosed x h =
    let (o, t, e) = parens_open [] in
    let p = closed-Passes x (40 ∷ []) h e in
    enclosed-closed x (41 ∷ []) (40 ∷ []) h e ∙ rw p.over refl

-- `(${x}) && (${y})`
abbrev pub both_groups : List ℕ → List ℕ → List ℕ
both_groups x y = 40 ∷ (x ++ 41 ∷ 32 ∷ 38 ∷ 38 ∷ 32 ∷ group y)

both_groups-shape : (x y : List ℕ) → both_groups x y ≡ group x ++ (32 ∷ 38 ∷ 38 ∷ 32 ∷ group y)
both_groups-shape x y =
    ap (λ t. 40 ∷ t) (sym (append_assoc x (41 ∷ []) (32 ∷ 38 ∷ 38 ∷ 32 ∷ group y)))

-- The text is one part between `||`, and two between `&&`.
pub split-both_groups :
    (x y : List ℕ)
    → is_closed x ≡ true
    → is_closed y ≡ true
    → (split_top_level b'|' (both_groups x y) ≡ both_groups x y ∷ [])
      × (split_top_level b'&' (both_groups x y) ≡ (group x ++ 32 ∷ []) ∷ (32 ∷ group y) ∷ [])
unfolding split_top_level
split-both_groups x y hx hy =
    let (s1, e1) = split-group b'|' x (32 ∷ 38 ∷ 38 ∷ 32 ∷ group y) [] [] [] hx in
    let (s2, e2) = split-and (group y) [] (group x) s1 in
    let (s3, e3) =
      split-group b'|' y [] [] ((((group x ++ 32 ∷ []) ++ 38 ∷ []) ++ 38 ∷ []) ++ 32 ∷ []) s2 hy in
    let (t1, f1) = split-group b'&' x (32 ∷ 38 ∷ 38 ∷ 32 ∷ group y) [] [] [] hx in
    let (t2, f2) = split-at_and (group y) [] (group x) t1 in
    let (t3, f3) = split-group b'&' y [] ((group x ++ 32 ∷ []) ∷ []) (32 ∷ []) t2 hy in
    (
      e1
          ∙ e2
          ∙ e3
          ∙ split-end b'|' 40 [] _ (at_top s3)
          ∙ ap (λ t. t ∷ [])
              (append-four (group x) 32 38 38 32 (group y) ∙ sym (both_groups-shape x y)),
      f1 ∙ f2 ∙ f3 ∙ split-end b'&' 32 ((group x ++ 32 ∷ []) ∷ []) (group y) (at_top t3),
    )

-- A text that leaves its parentheses, and the two parts between `||`.
abbrev pub escaping : List ℕ → List ℕ → List ℕ
escaping a b = a ++ (41 ∷ 32 ∷ 124 ∷ 124 ∷ 32 ∷ 40 ∷ b)

escaping-shape :
    (x a b : List ℕ)
    → both_groups x (escaping a b)
      ≡ group x ++ (32 ∷ 38 ∷ 38 ∷ 32 ∷ 40 ∷ (a ++ 41 ∷ 32 ∷ 124 ∷ 124 ∷ 32 ∷ group b))
escaping-shape x a b =
    both_groups-shape x (escaping a b)
    ∙ ap (λ t. group x ++ (32 ∷ 38 ∷ 38 ∷ 32 ∷ 40 ∷ t))
        (append_assoc a (41 ∷ 32 ∷ 124 ∷ 124 ∷ 32 ∷ 40 ∷ b) (41 ∷ []))

pub split-escaping :
    (x a b : List ℕ)
    → is_closed x ≡ true
    → is_closed a ≡ true
    → is_closed b ≡ true
    → split_top_level b'|' (both_groups x (escaping a b))
      ≡ (both_groups x a ++ 32 ∷ []) ∷ (32 ∷ group b) ∷ []
unfolding split_top_level
split-escaping x a b hx ha hb =
    let tail = 32 ∷ 124 ∷ 124 ∷ 32 ∷ group b in
    let (s1, e1) = split-group b'|' x (32 ∷ 38 ∷ 38 ∷ 32 ∷ 40 ∷ (a ++ 41 ∷ tail)) [] [] [] hx in
    let (s2, e2) = split-and (40 ∷ (a ++ 41 ∷ tail)) [] (group x) s1 in
    let (s3, e3) =
      split-group b'|' a tail [] ((((group x ++ 32 ∷ []) ++ 38 ∷ []) ++ 38 ∷ []) ++ 32 ∷ []) s2
        ha in
    let joined = append-four (group x) 32 38 38 32 (group a) ∙ sym (both_groups-shape x a) in
    let (s4, e4) = split-at_or (group b) [] (both_groups x a) s3 in
    let (s5, e5) = split-group b'|' b [] ((both_groups x a ++ 32 ∷ []) ∷ []) (32 ∷ []) s4 hb in
    ap (λ t. split_run b'|' t [] [] (at_top []))
      (escaping-shape x a b ∙ append_assoc (40 ∷ x) (41 ∷ []) _)
    ∙ e1
    ∙ e2
    ∙ e3
    ∙ ap (λ t. split_run b'|' tail [] t (at_top s3)) joined
    ∙ e4
    ∙ e5
    ∙ split-end b'|' 32 ((both_groups x a ++ 32 ∷ []) ∷ []) (group b) (at_top s5)

pub trim-group : (x : List ℕ) → trim_codes (group x) ≡ group x
trim-group x = trim_codes-closed 40 x 41 refl refl

module _ (number_text : List ℕ → List ℕ) (allowed : Option (List (List ℕ)))
    (table_prefix : Option (List ℕ)) where
  pub convert-group :
      (fuel : ℕ) (x : List ℕ)
      → is_closed x ≡ true
      → convert number_text allowed table_prefix (suc fuel) (group x)
        ≡ Option.map wrapped (convert number_text allowed table_prefix fuel (trim_codes x))
  unfolding convert
  convert-group fuel x h = rw (split_top_level-group b'|' x h) (
      rw (split_top_level-group b'&' x h) (
        rw (trim-group x) (
          rw (last_is-closed (40 ∷ x) 41)
            (rw (group-is_fully_enclosed x h) (rw (drop_last-closed x 41) refl)))))
