-- ===== src/Prelude/Text.antt =====
-- Texts as code points, and the LIKE of SQL: `%` stands for any text, `_` for one character, and
-- the letters of ASCII match in either case.
use Prim.Native.Nat.{ℕ, ◌+◌}
use Prim.Native.Char.{code}
use Prim.Native.String.{String}
use mathlib.Core.Bool.{Bool, true, false, ◌&&◌, ◌||◌}
use mathlib.Core.List.{List, [], ◌∷◌}
use text.Mathlib.Text.{◌==◌ as str_eq}
pub use text.Mathlib.TextEquality.{eq_iff}
pub use text.Mathlib.TextPositions.{eq_refl}
use nodestack.Prelude.Tests.{leb, ◌==◌, if◌then◌else◌}

infix 50 ◌=ₜ◌
abbrev pub ◌=ₜ◌ : String → String → Bool
s =ₜ t = str_eq s t

abbrev pub codes : String → List ℕ
codes String.[] = []
codes (String.◌∷◌ c s) = code c ∷ codes s

unfoldable pub fold_case : ℕ → ℕ
fold_case c = if leb b'A' c && leb c b'Z' then c + 32 else c

-- `some_suffix p s`: the pattern's rest matches some suffix of `s`.
some_suffix : (List ℕ → Bool) → List ℕ → Bool
some_suffix p [] = p []
some_suffix p (c ∷ cs) = p (c ∷ cs) || some_suffix p cs

one_char : ℕ → (List ℕ → Bool) → List ℕ → Bool
one_char k p [] = false
one_char k p (c ∷ cs) = (k == b'_' || fold_case k == fold_case c) && p cs

-- `like_folded pattern text`
unfoldable pub like_folded : List ℕ → List ℕ → Bool
unfolding fold_case some_suffix one_char
like_folded [] [] = true
like_folded [] (_ ∷ _) = false
like_folded (k ∷ ks) s =
    let rest = like_folded ks in if k == b'%' then some_suffix rest s else one_char k rest s

-- `text LIKE pattern`
unfoldable pub like : String → String → Bool
unfolding like_folded
like text pattern = like_folded (codes pattern) (codes text)

-- `s.startsWith(p)` over code points
unfoldable pub starts_with : List ℕ → List ℕ → Bool
starts_with s [] = true
starts_with [] (_ ∷ _) = false
starts_with (c ∷ cs) (k ∷ ks) = c == k && starts_with cs ks

-- The white space that `trim()` takes off.
abbrev pub is_space : ℕ → Bool
is_space c =
    (leb 9 c && leb c 13)
    || c == 32
    || c == 160
    || c == 0x1680
    || (leb 0x2000 c && leb c 0x200A)
    || c == 0x2028
    || c == 0x2029
    || c == 0x202F
    || c == 0x205F
    || c == 0x3000
    || c == 0xFEFF

abbrev pub trim_start : String → String
trim_start String.[] = String.[]
trim_start (String.◌∷◌ c s) =
    let rest = trim_start s in if is_space (code c) then rest else String.◌∷◌ c s

abbrev pub trim_end : String → String
trim_end String.[] = String.[]
trim_end (String.◌∷◌ c s) =
    let rest = trim_end s in
    if is_space (code c) && (rest =ₜ "") then String.[] else String.◌∷◌ c rest

unfoldable pub trim : String → String
trim s = trim_start (trim_end s)
