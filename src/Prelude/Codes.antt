-- ===== src/Prelude/Codes.antt =====
-- Texts as lists of code points: trimming, replacing, searching and joining.
use Prim.Native.Nat.{ℕ, ◌≤◌}
use mathlib.Core.Path.{◌≡◌, refl, ap, sym}
use mathlib.Core.Bool.{Bool, true, false, ◌&&◌, ◌||◌, not}
use mathlib.Core.List.{List, [], ◌∷◌, ◌++◌, append_assoc}
use native.Mathlib.Omega.{arith}
use nodestack.Prelude.Tests.{◌==◌, if◌then◌else◌, &&-eq-true}
use nodestack.Prelude.Lists.{all, length}
use nodestack.Prelude.Text.{is_space}

-- `xs.length === 0`
abbrev pub is_blank {ℓ} : {A : Type ℓ} → List A → Bool
is_blank [] = true
is_blank (c ∷ cs) = false

abbrev pub same_codes : List ℕ → List ℕ → Bool
same_codes [] [] = true
same_codes [] (d ∷ ds) = false
same_codes (c ∷ cs) [] = false
same_codes (c ∷ cs) (d ∷ ds) = c == d && same_codes cs ds

unfoldable pub trim_codes_start : List ℕ → List ℕ
trim_codes_start [] = []
trim_codes_start (c ∷ cs) = let rest = trim_codes_start cs in if is_space c then rest else c ∷ cs

unfoldable pub trim_codes_end : List ℕ → List ℕ
trim_codes_end [] = []
trim_codes_end (c ∷ cs) =
    let rest = trim_codes_end cs in if is_space c && is_blank rest then [] else c ∷ rest

-- `s.trim()`
unfoldable pub trim_codes : List ℕ → List ℕ
unfolding trim_codes_start trim_codes_end
trim_codes s = trim_codes_start (trim_codes_end s)

-- `s.replace(/c/g, by)` for one character
unfoldable pub replace_all : ℕ → List ℕ → List ℕ → List ℕ
replace_all c by [] = []
replace_all c by (k ∷ ks) = (if k == c then by else k ∷ []) ++ replace_all c by ks

abbrev pub last_is : ℕ → List ℕ → Bool
last_is q [] = false
last_is q (c ∷ []) = c == q
last_is q (c ∷ d ∷ cs) = last_is q (d ∷ cs)

abbrev pub first_is : ℕ → List ℕ → Bool
first_is q [] = false
first_is q (c ∷ cs) = c == q

abbrev pub drop_last : List ℕ → List ℕ
drop_last [] = []
drop_last (c ∷ []) = []
drop_last (c ∷ d ∷ cs) = c ∷ drop_last (d ∷ cs)

-- `s.includes(c)` for one character
unfoldable pub includes : ℕ → List ℕ → Bool
includes c [] = false
includes c (k ∷ ks) = k == c || includes c ks

-- `xs.join(separator)`
unfoldable pub join : List ℕ → List (List ℕ) → List ℕ
join sep [] = []
join sep (x ∷ []) = x
join sep (x ∷ y ∷ ys) = x ++ (sep ++ join sep (y ∷ ys))

trim_codes_end-closed :
    (s : List ℕ) (q : ℕ) → is_space q ≡ false → trim_codes_end (s ++ q ∷ []) ≡ s ++ q ∷ []
unfolding trim_codes_end
trim_codes_end-closed [] q h = rw h
trim_codes_end-closed (c ∷ []) q h = rw (trim_codes_end-closed [] q h) (ground arith)
trim_codes_end-closed (c ∷ d ∷ s) q h = rw (trim_codes_end-closed (d ∷ s) q h) (ground arith)

-- Between two characters that are no white space nothing is trimmed.
pub trim_codes-closed :
    (p : ℕ) (s : List ℕ) (q : ℕ)
    → is_space p ≡ false
    → is_space q ≡ false
    → trim_codes (p ∷ (s ++ q ∷ [])) ≡ p ∷ (s ++ q ∷ [])
unfolding trim_codes trim_codes_start
trim_codes-closed p s q hp hq = rw (trim_codes_end-closed (p ∷ s) q hq) (rw hp)

pub trim_codes_end-solid :
    (s : List ℕ) → all (λ c. not (is_space c)) s ≡ true → trim_codes_end s ≡ s
unfolding trim_codes_end
trim_codes_end-solid [] h = refl
trim_codes_end-solid (c ∷ s) h =
    let (p, q) = &&-eq-true (not (is_space c)) _ h in
    let solid : is_space c ≡ false = ground arith in rw (trim_codes_end-solid s q) (rw solid)

-- A text without white space is left as it is.
pub trim_codes-solid : (s : List ℕ) → all (λ c. not (is_space c)) s ≡ true → trim_codes s ≡ s
unfolding trim_codes trim_codes_start
trim_codes-solid [] h = rw (trim_codes_end-solid [] h)
trim_codes-solid (c ∷ s) h =
    let (p, q) = &&-eq-true (not (is_space c)) _ h in
    let solid : is_space c ≡ false = ground arith in rw (trim_codes_end-solid (c ∷ s) h) (rw solid)

pub last_is-closed : (s : List ℕ) (q : ℕ) → last_is q (s ++ q ∷ []) ≡ true
last_is-closed [] q = ground arith
last_is-closed (c ∷ []) q = ground arith
last_is-closed (c ∷ d ∷ s) q = last_is-closed (d ∷ s) q

pub drop_last-closed : (s : List ℕ) (q : ℕ) → drop_last (s ++ q ∷ []) ≡ s
drop_last-closed [] q = refl
drop_last-closed (c ∷ []) q = refl
drop_last-closed (c ∷ d ∷ s) q = ap (λ t. c ∷ t) (drop_last-closed (d ∷ s) q)

pub replace_all-append :
    (c : ℕ) (by xs ys : List ℕ)
    → replace_all c by (xs ++ ys) ≡ replace_all c by xs ++ replace_all c by ys
unfolding replace_all
replace_all-append c by [] ys = refl
replace_all-append c by (x ∷ xs) ys =
    rw (replace_all-append c by xs ys) (sym (append_assoc (if x == c then by else x ∷ []) _ _))

trim_codes_start-le : (s : List ℕ) → length (trim_codes_start s) ≤ length s
unfolding trim_codes_start
trim_codes_start-le [] = omega arith
trim_codes_start-le (c ∷ s) = ground (arith, trim_codes_start-le s)

trim_codes_end-le : (s : List ℕ) → length (trim_codes_end s) ≤ length s
unfolding trim_codes_end
trim_codes_end-le [] = omega arith
trim_codes_end-le (c ∷ s) = ground (arith, trim_codes_end-le s)

pub trim_codes-le : (s : List ℕ) → length (trim_codes s) ≤ length s
unfolding trim_codes
trim_codes-le s = omega (arith, trim_codes_start-le (trim_codes_end s), trim_codes_end-le s)

pub drop_last-le : (s : List ℕ) → length (drop_last s) ≤ length s
drop_last-le [] = omega arith
drop_last-le (c ∷ []) = omega arith
drop_last-le (c ∷ d ∷ s) = omega (arith, drop_last-le (d ∷ s))
