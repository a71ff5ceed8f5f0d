-- ===== src/Prelude/Sets.antt =====
-- Sets of names as lists: `set.has(q)`, `set.add(q)` and `set.delete(q)`, which keep the order of
-- insertion, and membership after each of them.
use mathlib.Core.Path.{◌≡◌, refl}
use mathlib.Core.Bool.{Bool, true, false, not, ◌||◌}
use mathlib.Core.List.{List, [], ◌∷◌, ◌++◌}
use mathlib.Core.Logic.{◌⊎◌, inl, inr}
use Prim.Native.String.{String}
use native.Mathlib.Omega.{arith}
use nodestack.Prelude.Tests.{if◌then◌else◌, Bool-cases}
use nodestack.Prelude.Lists.{any, filter}
use nodestack.Prelude.Text.{◌=ₜ◌, eq_iff, eq_refl}

unfoldable pub has : String → List String → Bool
has q = any (λ x. x =ₜ q)

unfoldable pub add : String → List String → List String
add q xs = if has q xs then xs else xs ++ q ∷ []

unfoldable pub remove : String → List String → List String
remove q = filter (λ x. not (x =ₜ q))

unfoldable pub remove_one : String → List String → List String
remove_one q [] = []
remove_one q (x ∷ xs) = let rest = remove_one q xs in if x =ₜ q then xs else x ∷ rest

equal : (x q : String) → (x =ₜ q) ≡ true → x ≡ q
equal x q e = (eq_iff x q).0 e

pub has-append : (q r : String) (xs : List String) → has q (xs ++ r ∷ []) ≡ (has q xs || r =ₜ q)
unfolding has
has-append q r [] = ground arith
has-append q r (x ∷ xs) = rw (has-append q r xs) (ground arith)

pub has-append_self : (q : String) (xs : List String) → has q (xs ++ q ∷ []) ≡ true
has-append_self q xs = rw (has-append q q xs, eq_refl q) (ground arith)

pub has-add_self : (q : String) (xs : List String) → has q (add q xs) ≡ true
unfolding add
has-add_self q xs = elim (Bool-cases (has q xs)) [
  | inl e ↦ rw e e
  | inr e ↦ rw e (has-append_self q xs)
]

pub has-add_other :
    (q r : String) (xs : List String) → (r =ₜ q) ≡ false → has q (add r xs) ≡ has q xs
unfolding add
has-add_other q r xs d = elim (Bool-cases (has r xs)) [
  | inl e ↦ rw e
  | inr e ↦ rw (e, has-append q r xs, d) (ground arith)
]

pub has-remove_self : (q : String) (xs : List String) → has q (remove q xs) ≡ false
unfolding has remove
has-remove_self q [] = refl
has-remove_self q (x ∷ xs) = elim (Bool-cases (x =ₜ q)) [
  | inl e ↦ rw e (has-remove_self q xs)
  | inr e ↦ rw (e, e) (has-remove_self q xs)
]

pub has-remove_other :
    (q r : String) (xs : List String) → (r =ₜ q) ≡ false → has q (remove r xs) ≡ has q xs
unfolding has remove
has-remove_other q r [] d = refl
has-remove_other q r (x ∷ xs) d = elim (Bool-cases (x =ₜ r)) [
  | inl e ↦ rw e (rw (equal x r e, d) (has-remove_other q r xs d))
  | inr e ↦ rw e (rw (has-remove_other q r xs d))
]

pub has-remove_one_other :
    (q r : String) (xs : List String) → (r =ₜ q) ≡ false → has q (remove_one r xs) ≡ has q xs
unfolding has remove_one
has-remove_one_other q r [] d = refl
has-remove_one_other q r (x ∷ xs) d = elim (Bool-cases (x =ₜ r)) [
  | inl e ↦ rw e (rw (equal x r e, d))
  | inr e ↦ rw e (rw (has-remove_one_other q r xs d))
]

pub has-append_more :
    (q r : String) (xs : List String) → has q xs ≡ true → has q (xs ++ r ∷ []) ≡ true
has-append_more q r xs h = rw (has-append q r xs, h)

-- A member of a set after an addition is the one that was added, or was there before.
pub add-cases :
    (q r : String) (xs : List String) → has q (add r xs) ≡ true → (r ≡ q) ⊎ (has q xs ≡ true)
add-cases q r xs h = elim (Bool-cases (r =ₜ q)) [
  | inl e ↦ inl (equal r q e)
  | inr d ↦ inr (rw (has-add_other q r xs d) at h)
]

pub append-cases :
    (q r : String) (xs : List String) → has q (xs ++ r ∷ []) ≡ true → (r ≡ q) ⊎ (has q xs ≡ true)
append-cases q r xs h = elim (Bool-cases (r =ₜ q)) [
  | inl e ↦ inl (equal r q e)
  | inr d ↦ inr (ground (arith, has-append q r xs, d, h))
]

-- A member of a set after a removal is another than the one that was removed, and was there before.
pub remove-cases :
    (q r : String) (xs : List String)
    → has q (remove r xs) ≡ true
    → ((r =ₜ q) ≡ false) × (has q xs ≡ true)
remove-cases q r xs h = elim (Bool-cases (r =ₜ q)) [
  | inl e ↦
      (let same = equal r q e in let gone = has-remove_self q xs in absurd (cc (rw same at h)))
  | inr d ↦ (d, rw (has-remove_other q r xs d) at h)
]

pub has-cons : (q r : String) (xs : List String) → has q (r ∷ xs) ≡ (r =ₜ q || has q xs)
unfolding has
has-cons q r xs = refl
