-- ===== src/Records/Filter/Fuel.antt =====
-- `convertFilterExpression` gives the same for a text whatever fuel it has, if it is enough.
use nodestack.Prelude.{
  ℕ, zero, suc, ◌<◌, Bool, true, false, List, [], ◌∷◌, Option, none, some, ◌&&◌, ◌≡◌, refl, sym, ap,
  ◌∙◌, arith, Option-cases, inl, inr, All, All-zip, if◌then◌else◌, length, drop, ltb, first_is,
  last_is, drop_last, trim_codes, trim_codes-le, codes, &&-eq-true,
}
use mathlib.Core.Option
use nodestack.Records.Filter.Scan.{split_top_level, is_fully_enclosed}
use nodestack.Records.Filter.{Parsed, combine, convert_each, wrapped, convert}
use nodestack.Records.Filter.Ending.{parts-lt, unwrapped-lt}

-- Two tests with the same condition are equal if their branches are.
if-same {ℓ} :
    {A : Type ℓ} (b : Bool) {x y x' y' : A}
    → (b ≡ true → x ≡ x')
    → (b ≡ false → y ≡ y')
    → (if b then x else y) ≡ (if b then x' else y')
if-same true f g = f refl
if-same false f g = g refl

each-same :
    (f g : List ℕ → Option Parsed) (parts : List (List ℕ))
    → All (λ p. f (trim_codes p) ≡ g (trim_codes p)) parts
    → convert_each f parts ≡ convert_each g parts
unfolding convert_each
each-same f g [] h = refl
each-same f g (p ∷ ps) (e, h) = elim (Option-cases (f (trim_codes p))) [
  | inl n ↦ (let m : g (trim_codes p) ≡ none = sym e ∙ n in rw (n, m, convert_each) refl)
  | inr (r, n) ↦
      let m : g (trim_codes p) ≡ some r = sym e ∙ n in
      rw (n, m, convert_each) (ap (Option.map (λ rs. r ∷ rs)) (each-same f g ps h))
]

module _ (number_text : List ℕ → List ℕ) (allowed : Option (List (List ℕ)))
    (table_prefix : Option (List ℕ)) where
  pub convert-fuel :
      (f g : ℕ) (expr : List ℕ)
      → length expr < f
      → length expr < g
      → convert number_text allowed table_prefix f expr
        ≡ convert number_text allowed table_prefix g expr
  unfolding convert
  convert-fuel zero g expr hf hg = absurd (omega arith)
  convert-fuel (suc f) zero expr hf hg = absurd (omega arith)
  convert-fuel (suc f) (suc g) expr hf hg =
      let before = convert number_text allowed table_prefix f in
      let after = convert number_text allowed table_prefix g in
      let parts : (k : ℕ)
          → ltb 1 (length (split_top_level k expr)) ≡ true
          → convert_each before (split_top_level k expr)
            ≡ convert_each after (split_top_level k expr) =
        λ k many. each-same before after (split_top_level k expr) (
          All-zip _ _ _
            (λ p le le'.
              convert-fuel f g (trim_codes p) (omega (arith, trim_codes-le p))
                (omega (arith, trim_codes-le p)))
            (split_top_level k expr) (parts-lt k expr f hf many) (parts-lt k expr g hg many)) in
      if-same (ltb 1 (length (split_top_level b'|' expr)))
        (λ many. ap (Option.map (combine (codes " OR "))) (parts b'|' many))
        (λ _.
          if-same (ltb 1 (length (split_top_level b'&' expr)))
            (λ many. ap (Option.map (combine (codes " AND "))) (parts b'&' many))
            (λ _.
              if-same
                (first_is b'(' (trim_codes expr)
                  && last_is b')' (trim_codes expr)
                  && is_fully_enclosed (trim_codes expr))
                (λ t.
                  let shorter = unwrapped-lt expr (&&-eq-true _ _ (&&-eq-true _ _ t).0).0 in
                  ap (Option.map wrapped) (
                    convert-fuel f g (trim_codes (drop_last (drop 1 (trim_codes expr))))
                      (omega (arith, shorter)) (omega (arith, shorter))))
                (λ _. refl)))
