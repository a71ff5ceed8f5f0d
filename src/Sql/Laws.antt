-- ===== src/Sql/Laws.antt =====
-- What the statements keep of a table, and what they change.
use nodestack.Prelude.{
  ◌+◌, ◌≡◌, refl, Bool, true, false, List, [], ◌∷◌, length, arith, All, inl, inr, Bool-cases,
}
use mathlib.Core.List.{Perm}
use mathlib.Core.List.Perm
use nodestack.Sql.{update_where, delete_where, changes, place, order_by}

module _ {ℓ κ} {A : Type ℓ} (P : A → Type κ) where
  -- A property that the assignment keeps where the condition holds, an UPDATE keeps on all rows.
  pub All-update_where :
      (p : A → Bool) (f : A → A)
      → ((r : A) → p r ≡ true → P r → P (f r))
      → (rows : List A) → All P rows
      → All P (update_where p f rows)
  unfolding update_where
  All-update_where p f keep [] h = tt
  All-update_where p f keep (r ∷ rs) (q, h) = elim (Bool-cases (p r)) [
    | inl e ↦ rw e (keep r e q, All-update_where p f keep rs h)
    | inr e ↦ rw e (q, All-update_where p f keep rs h)
  ]

  pub All-delete_where : (p : A → Bool) (rows : List A) → All P rows → All P (delete_where p rows)
  unfolding delete_where
  All-delete_where p [] h = tt
  All-delete_where p (r ∷ rs) (q, h) = elim (Bool-cases (p r)) [
    | inl e ↦ rw e (All-delete_where p rs h)
    | inr e ↦ rw e (q, All-delete_where p rs h)
  ]

  pub All-place :
      (before : A → A → Bool) (x : A) (xs : List A) → P x → All P xs → All P (place before x xs)
  unfolding place
  All-place before x [] q h = (q, tt)
  All-place before x (y ∷ ys) q (r, h) = elim (Bool-cases (before x y)) [
    | inl e ↦ rw e (q, (r, h))
    | inr e ↦ rw e (r, All-place before x ys q h)
  ]

  pub All-order_by : (before : A → A → Bool) (xs : List A) → All P xs → All P (order_by before xs)
  unfolding order_by
  All-order_by before [] h = tt
  All-order_by before (x ∷ xs) (q, h) =
      All-place before x (order_by before xs) q (All-order_by before xs h)

module _ {ℓ} {A : Type ℓ} where
  -- What a DELETE leaves does not meet its condition.
  pub delete_where-All :
      (p : A → Bool) (rows : List A) → All (λ r. p r ≡ false) (delete_where p rows)
  unfolding delete_where
  delete_where-All p [] = tt
  delete_where-All p (r ∷ rs) = elim (Bool-cases (p r)) [
    | inl e ↦ rw e (delete_where-All p rs)
    | inr e ↦ rw e (e, delete_where-All p rs)
  ]

  pub length-delete_where :
      (p : A → Bool) (rows : List A) → length (delete_where p rows) + changes p rows ≡ length rows
  unfolding delete_where changes
  length-delete_where p [] = omega arith
  length-delete_where p (r ∷ rs) = ground (arith, length-delete_where p rs)

  pub length-update_where :
      (p : A → Bool) (f : A → A) (rows : List A) → length (update_where p f rows) ≡ length rows
  unfolding update_where
  length-update_where p f [] = refl
  length-update_where p f (r ∷ rs) = omega (arith, length-update_where p f rs)

  -- No row meets the condition: the UPDATE changes nothing.
  pub update_where_none :
      (p : A → Bool) (f : A → A) (rows : List A)
      → All (λ r. p r ≡ false) rows
      → update_where p f rows ≡ rows
  unfolding update_where
  update_where_none p f [] h = refl
  update_where_none p f (r ∷ rs) (e, h) = rw (e, update_where_none p f rs h)

  pub changes_none :
      (p : A → Bool) (rows : List A) → All (λ r. p r ≡ false) rows → changes p rows ≡ 0
  unfolding changes
  changes_none p [] h = refl
  changes_none p (r ∷ rs) (e, h) = rw e (changes_none p rs h)

  place-perm : (before : A → A → Bool) (x : A) (xs : List A) → Perm (place before x xs) (x ∷ xs)
  unfolding place
  place-perm before x [] = Perm.refl _
  place-perm before x (y ∷ ys) = elim (Bool-cases (before x y)) [
    | inl e ↦ rw e (Perm.refl _)
    | inr e ↦ rw e (Perm.trans (Perm.cons y (place-perm before x ys)) (Perm.swap _ _ _))
  ]

  -- ORDER BY keeps the rows.
  pub order_by-perm : (before : A → A → Bool) (xs : List A) → Perm (order_by before xs) xs
  unfolding order_by
  order_by-perm before [] = Perm.refl _
  order_by-perm before (x ∷ xs) =
      Perm.trans (place-perm before x (order_by before xs)) (Perm.cons x (order_by-perm before xs))
