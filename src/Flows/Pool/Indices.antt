-- ===== src/Flows/Pool/Indices.antt =====
-- The indices of the calls that are under way.
use nodestack.Prelude.{
  ℕ, zero, suc, ◌+◌, ◌≤◌, ◌<◌, ◌≡◌, refl, inl, inr, true, false, List, [], ◌∷◌, ◌++◌, some, ◌==◌,
  ◌||◌, length, arith, Bool-cases,
}
use nodestack.Flows.Pool.{get_elem?, indices, is_running, end_call}

pub get_elem?-lt {ℓ} :
    {A : Type ℓ} (xs : List A) (i : ℕ) {x : A} → get_elem? xs i ≡ some x → i < length xs
get_elem?-lt [] i e = absurd (cc e)
get_elem?-lt (y ∷ ys) zero e = omega arith
get_elem?-lt (y ∷ ys) (suc i) e = omega (arith, get_elem?-lt ys i e)

pub is_running-append :
    (i j : ℕ) (js : List ℕ) → is_running i (js ++ j ∷ []) ≡ (is_running i js || j == i)
unfolding is_running
is_running-append i j [] = ground arith
is_running-append i j (k ∷ ks) = rw (is_running-append i j ks) (ground arith)

pub is_running-none : (i : ℕ) → is_running i [] ≡ false
unfolding is_running
is_running-none i = refl

pub length_none : (js : List ℕ) → js ≡ [] → length js ≡ 0
length_none js e = rw e refl

pub is_running-end_call :
    (i j : ℕ) (js : List ℕ)
    → (i == j) ≡ false
    → is_running i js ≡ true
    → is_running i (end_call j js) ≡ true
unfolding is_running end_call
is_running-end_call i j [] d h = h
is_running-end_call i j (k ∷ ks) d h = elim (Bool-cases (is_running i ks)) [
  | inl m ↦ (let rest = is_running-end_call i j ks d m in ground (arith, rest, h, d, m))
  | inr m ↦ ground (arith, h, d, m)
]

pub length-end_call :
    (i : ℕ) (js : List ℕ) → is_running i js ≡ true → length (end_call i js) + 1 ≡ length js
unfolding is_running end_call
length-end_call i [] h = absurd (cc h)
length-end_call i (k ∷ ks) h = elim (Bool-cases (is_running i ks)) [
  | inl m ↦ (let rest = length-end_call i ks m in ground (arith, rest))
  | inr m ↦ ground (arith, h, m)
]

pub is_running-indices : (i k n : ℕ) → k ≤ i → i < k + n → is_running i (indices k n) ≡ true
unfolding is_running indices
is_running-indices i k zero l u = absurd (omega (arith, l, u))
is_running-indices i k (suc n) l u = elim (Bool-cases (k == i)) [
  | inl e ↦ rw e refl
  | inr d ↦
      (let rest = is_running-indices i (suc k) n (ground (arith, d, l)) (omega (arith, u)) in
        ground (arith, rest))
]

pub length-indices : (k n : ℕ) → length (indices k n) ≡ n
unfolding indices
length-indices k zero = refl
length-indices k (suc n) = omega (arith, length-indices (suc k) n)
