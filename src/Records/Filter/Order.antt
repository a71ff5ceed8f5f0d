-- ===== src/Records/Filter/Order.antt =====
-- The order in which `parseSingleComparison` tries the operators: which one it finds in a comparison.
use nodestack.Prelude.{ℕ, ◌+◌, false, List, [], ◌∷◌, ◌++◌, none, some, ◌≡◌, refl, All, starts_with}
use nodestack.Records.Filter.Scan.{
  Seen, Operator, ne, ge, le, eq, gt, lt, not_like, like, operators, operator_text, scan_step,
  is_top, is_char_escaped, quote_after, find_run, ends_longer,
}
use nodestack.Records.Filter.Quiet.{at_top}

-- The operators that are tried before one, and those after it.
unfoldable pub before : Operator → List Operator
before ne = []
before ge = ne ∷ []
before le = ne ∷ ge ∷ []
before eq = ne ∷ ge ∷ le ∷ []
before gt = ne ∷ ge ∷ le ∷ eq ∷ []
before lt = ne ∷ ge ∷ le ∷ eq ∷ gt ∷ []
before not_like = ne ∷ ge ∷ le ∷ eq ∷ gt ∷ lt ∷ []
before like = ne ∷ ge ∷ le ∷ eq ∷ gt ∷ lt ∷ not_like ∷ []

unfoldable pub after : Operator → List Operator
after ne = ge ∷ le ∷ eq ∷ gt ∷ lt ∷ not_like ∷ like ∷ []
after ge = le ∷ eq ∷ gt ∷ lt ∷ not_like ∷ like ∷ []
after le = eq ∷ gt ∷ lt ∷ not_like ∷ like ∷ []
after eq = gt ∷ lt ∷ not_like ∷ like ∷ []
after gt = lt ∷ not_like ∷ like ∷ []
after lt = not_like ∷ like ∷ []
after not_like = like ∷ []
after like = []

pub operators-split : (op : Operator) → operators ≡ before op ++ op ∷ after op
unfolding before after
operators-split ne = refl
operators-split ge = refl
operators-split le = refl
operators-split eq = refl
operators-split gt = refl
operators-split lt = refl
operators-split not_like = refl
operators-split like = refl

-- In the text nothing is found, wherever the loop stands in the filter.
abbrev pub IsEmpty : List ℕ → Type 0
IsEmpty rest =
    (cand : Operator) (j : ℕ) (seen : Seen)
    → is_char_escaped seen ≡ false
    → find_run cand j rest (at_top seen) ≡ none

missed_in_rest :
    (rest : List ℕ)
    → IsEmpty rest
    → (cands : List Operator) (j : ℕ) (seen : Seen) → is_char_escaped seen ≡ false
    → All (λ cand. find_run cand j rest (at_top seen) ≡ none) cands
missed_in_rest rest empty [] j seen h = tt
missed_in_rest rest empty (c ∷ cs) j seen h =
    (empty c j seen h, missed_in_rest rest empty cs j seen h)

-- None of the operators before it is found in a comparison.
pub missed :
    (rest : List ℕ)
    → IsEmpty rest
    → starts_with rest (61 ∷ []) ≡ false
    → (op : Operator) (i : ℕ) (seen : Seen)
    → All (λ cand. find_run cand i (operator_text op ++ rest) (at_top seen) ≡ none) (before op)
unfolding before find_run scan_step is_top quote_after starts_with is_char_escaped
missed rest empty e ne i seen = tt
missed rest empty e ge i seen =
    missed_in_rest rest empty (before ge) (i + 1 + 1) (61 ∷ 62 ∷ seen) refl
missed rest empty e le i seen =
    missed_in_rest rest empty (before le) (i + 1 + 1) (61 ∷ 60 ∷ seen) refl
missed rest empty e eq i seen = missed_in_rest rest empty (before eq) (i + 1) (61 ∷ seen) refl
missed rest empty e gt i seen = (
  empty ne (i + 1) (62 ∷ seen) refl,
  (
    rw e (empty ge (i + 1) (62 ∷ seen) refl),
    missed_in_rest rest empty (le ∷ eq ∷ []) (i + 1) (62 ∷ seen) refl,
  ),
)
missed rest empty e lt i seen = (
  empty ne (i + 1) (60 ∷ seen) refl,
  (
    empty ge (i + 1) (60 ∷ seen) refl,
    (
      rw e (empty le (i + 1) (60 ∷ seen) refl),
      missed_in_rest rest empty (eq ∷ gt ∷ []) (i + 1) (60 ∷ seen) refl,
    ),
  ),
)
missed rest empty e not_like i seen =
    missed_in_rest rest empty (before not_like) (i + 1 + 1) (126 ∷ 33 ∷ seen) refl
missed rest empty e like i seen = missed_in_rest rest empty (before like) (i + 1) (126 ∷ seen) refl

pub found :
    (op : Operator) (i : ℕ) (rest : List ℕ) (seen : Seen)
    → ends_longer op seen ≡ false
    → find_run op i (operator_text op ++ rest) (at_top seen) ≡ some i
unfolding find_run is_top quote_after starts_with ends_longer
found ne i rest seen h = refl
found ge i rest seen h = refl
found le i rest seen h = refl
found eq i rest seen h = rw h refl
found gt i rest seen h = refl
found lt i rest seen h = refl
found not_like i rest seen h = refl
found like i rest seen h = rw h refl
