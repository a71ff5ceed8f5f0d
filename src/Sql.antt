-- ===== src/Sql.antt =====
-- The statements of SQL that the program writes, over a table as the list of its rows in the order
-- of their rowids. An INSERT takes the next rowid, so it adds at the end.
pub mod Laws
pub mod Counts
pub mod Sorted
use nodestack.Prelude.{ℕ, Bool, true, false, List, [], ◌∷◌, map, filter, length, if◌then◌else◌}

module _ {ℓ} {A : Type ℓ} where
  -- UPDATE … SET f WHERE p
  unfoldable pub update_where : (A → Bool) → (A → A) → List A → List A
  update_where p f [] = []
  update_where p f (r ∷ rs) = (if p r then f r else r) ∷ update_where p f rs

  -- DELETE … WHERE p
  unfoldable pub delete_where : (A → Bool) → List A → List A
  delete_where p [] = []
  delete_where p (r ∷ rs) = if p r then delete_where p rs else r ∷ delete_where p rs

  -- `res.changes` of an UPDATE or a DELETE with this condition
  unfoldable pub changes : (A → Bool) → List A → ℕ
  changes p rows = length (filter p rows)

  -- A row is placed behind those that come before it and those that it ties with.
  unfoldable pub place : (A → A → Bool) → A → List A → List A
  place before x [] = x ∷ []
  place before x (y ∷ ys) = if before x y then x ∷ y ∷ ys else y ∷ place before x ys

  -- ORDER BY, then by rowid: `before x y` says that `x`, with the lower rowid, may stay before `y`.
  unfoldable pub order_by : (A → A → Bool) → List A → List A
  unfolding place
  order_by before [] = []
  order_by before (x ∷ xs) = place before x (order_by before xs)
