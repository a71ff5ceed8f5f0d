-- ===== src/Sql/Counts.antt =====
-- How many rows a statement changes.
use nodestack.Prelude.{
  ◌+◌, ◌≤◌, ◌≡◌, ◌≢◌, String, Bool, true, false, List, [], ◌∷◌, arith, All-map, Distinct,
  Bool-cases, inl, inr,
}
use nodestack.Sql.{update_where, changes}
use nodestack.Sql.Laws.{changes_none}

module _ {ℓ} {A : Type ℓ} where
  -- An UPDATE makes at most as many rows meet a test as it changes.
  pub changes-update_where :
      (q p : A → Bool) (f : A → A) (rows : List A)
      → changes q (update_where p f rows) ≤ changes q rows + changes p rows
  unfolding changes update_where
  changes-update_where q p f [] = omega arith
  changes-update_where q p f (r ∷ rs) = ground (arith, changes-update_where q p f rs)

  -- A condition that fixes the key holds of one row at most.
  pub changes-le-one :
      (key : A → String) (k : String) (p : A → Bool)
      → ((x : A) → p x ≡ true → key x ≡ k)
      → (rows : List A) → Distinct key rows
      → changes p rows ≤ 1
  unfolding changes
  changes-le-one key k p fixes [] d = omega arith
  changes-le-one key k p fixes (r ∷ rs) (n, d) = elim (Bool-cases (p r)) [
    | inl e ↦
        let rest = changes_none p rs (All-map _ _ (λ x q. other r x (fixes r e) q) rs n) in
        rw e (omega (arith, rest))
    | inr e ↦ rw e (changes-le-one key k p fixes rs d)
  ]
    where
      other : (y x : A) → key y ≡ k → key x ≢ key y → p x ≡ false
      other y x same ne = elim (Bool-cases (p x)) [
        | inl h ↦ absurd (ne (cc (fixes x h)))
        | inr h ↦ h
      ]
