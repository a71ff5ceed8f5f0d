-- ===== src/Sql/Sorted.antt =====
-- ORDER BY sorts, where the order is total and transitive.
use nodestack.Prelude.{◌≡◌, Bool, true, false, List, [], ◌∷◌, All, All-map, Bool-cases, inl, inr}
use nodestack.Sql.{place, order_by}
use nodestack.Sql.Laws.{All-place}

-- Each row comes before all that follow it.
abbrev pub Sorted {ℓ} : {A : Type ℓ} → (A → A → Bool) → List A → Type 0
Sorted before [] = Unit
Sorted before (x ∷ xs) = All (λ y. before x y ≡ true) xs × Sorted before xs

pub record IsOrder {ℓ} {A : Type ℓ} (before : A → A → Bool) : Type ℓ where
  pub total : (a b : A) → before a b ≡ false → before b a ≡ true
  pub trans : (a b c : A) → before a b ≡ true → before b c ≡ true → before a c ≡ true

module _ {ℓ} {A : Type ℓ} {before : A → A → Bool} (o : IsOrder before) where
  place-Sorted : (x : A) (xs : List A) → Sorted before xs → Sorted before (place before x xs)
  unfolding place
  place-Sorted x [] s = (tt, tt)
  place-Sorted x (y ∷ ys) (h, s) = elim (Bool-cases (before x y)) [
    | inl e ↦ rw e ((e, All-map _ _ (λ z p. o.trans x y z e p) ys h), (h, s))
    | inr e ↦ rw e (All-place _ before x ys (o.total x y e) h, place-Sorted x ys s)
  ]

  pub order_by-Sorted : (xs : List A) → Sorted before (order_by before xs)
  unfolding order_by
  order_by-Sorted [] = tt
  order_by-Sorted (x ∷ xs) = place-Sorted x (order_by before xs) (order_by-Sorted xs)

-- What holds of the sorted rows holds of the rows.
module _ {ℓ κ} {A : Type ℓ} (P : A → Type κ) (before : A → A → Bool) where
  All-of-place : (x : A) (xs : List A) → All P (place before x xs) → P x × All P xs
  unfolding place
  All-of-place x [] h = (h.0, tt)
  All-of-place x (y ∷ ys) h = elim (Bool-cases (before x y)) [
    | inl e ↦ rw (e, place) at h
    | inr e ↦
        let k = rw (e, place) at h in let rest = All-of-place x ys k.1 in (rest.0, (k.0, rest.1))
  ]

  pub All-of-order_by : (xs : List A) → All P (order_by before xs) → All P xs
  unfolding order_by
  All-of-order_by [] h = tt
  All-of-order_by (x ∷ xs) h =
      let rest = All-of-place x (order_by before xs) h in (rest.0, All-of-order_by xs rest.1)
