-- ===== src/Prelude/Keys.antt =====
-- Lists whose members have distinct keys.
use Prim.Native.String.{String}
use mathlib.Core.Path.{◌≡◌, refl, sym, ◌∙◌}
use mathlib.Core.Logic.{◌≢◌, inl, inr}
use mathlib.Core.Bool.{false}
use mathlib.Core.Option.{some}
use mathlib.Core.List.{List, [], ◌∷◌, ◌++◌}
use native.Mathlib.Omega.{arith}
use nodestack.Prelude.Tests.{is_some, Bool-cases}
use nodestack.Prelude.Lists.{All, All-map, All-zip, find}
use nodestack.Prelude.Text.{◌=ₜ◌, eq_iff}

module _ {ℓ} {A : Type ℓ} (key : A → String) where
  abbrev pub Distinct : List A → Type 0
  Distinct [] = Unit
  Distinct (x ∷ xs) = All (λ y. key y ≢ key x) xs × Distinct xs

  -- A search by key that finds nothing: the key is new.
  pub find_none-All :
      (k : String) (xs : List A)
      → is_some (find (λ x. key x =ₜ k) xs) ≡ false
      → All (λ y. key y ≢ k) xs
  find_none-All k [] h = tt
  find_none-All k (x ∷ xs) h = elim (Bool-cases (key x =ₜ k)) [
    | inl e ↦ cc (rw e at h)
    | inr e ↦ (ground (arith, eq_iff (key x) k), find_none-All k xs (rw e at h))
  ]

  pub Distinct-append :
      (xs : List A) (x : A) → Distinct xs → All (λ y. key y ≢ key x) xs → Distinct (xs ++ x ∷ [])
  Distinct-append [] x d h = (tt, tt)
  Distinct-append (y ∷ xs) x (n, d) (q, h) = (front xs n, Distinct-append xs x d h)
    where
      front : (zs : List A) → All (λ z. key z ≢ key y) zs → All (λ z. key z ≢ key y) (zs ++ x ∷ [])
      front = elim [ [] ↦ λ _. ((λ e. q (sym e)), tt) | z ∷ (zs → ih) ↦ λ k. (k.0, ih k.1) ]

  -- The member that a search finds is the only one with its key.
  pub find_unique :
      (k : String) (xs : List A) (x : A)
      → find (λ y. key y =ₜ k) xs ≡ some x
      → Distinct xs
      → All (λ y. key y ≡ k → y ≡ x) xs
  find_unique k [] x e d = tt
  find_unique k (y ∷ ys) x e (n, d) = elim (Bool-cases (key y =ₜ k)) [
    | inl h ↦
        let same : key y ≡ k = (eq_iff (key y) k).0 h in
        ((λ _. cc (rw h at e)), All-map _ _ (λ z p q. absurd (p (q ∙ sym same))) ys n)
    | inr h ↦ ((λ q. cc (h, (eq_iff (key y) k).1 q)), find_unique k ys x (rw h at e) d)
  ]

  pub find-key : (k : String) (xs : List A) (x : A) → find (λ y. key y =ₜ k) xs ≡ some x → key x ≡ k
  find-key k [] x e = cc
  find-key k (y ∷ ys) x e = elim (Bool-cases (key y =ₜ k)) [
    | inl h ↦ (let same : y ≡ x = cc (rw h at e) in rw (← same) ((eq_iff (key y) k).0 h))
    | inr h ↦ find-key k ys x (rw h at e)
  ]

  -- Each member is the one that a search for its key finds.
  pub find_self : (xs : List A) → Distinct xs → All (λ x. find (λ y. key y =ₜ key x) xs ≡ some x) xs
  find_self [] d = tt
  find_self (x ∷ xs) (n, d) = (
    rw ((eq_iff (key x) (key x)).1 refl),
    All-zip _ _ _ (λ z p q. ground (arith, eq_iff (key x) (key z), p, q)) xs n (find_self xs d),
  )
