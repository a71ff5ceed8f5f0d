-- ===== src/Records/Filter/Literals.antt =====
-- src/records/QueryFilterParser.ts, `extractLiteralValue` and the checks of names. A text is the list
-- of its code points.
use nodestack.Prelude.{
  same_codes, ℕ, Bool, true, false, not, List, [], ◌∷◌, Option, none, some, ◌&&◌, ◌||◌, ◌==◌, leb,
  if◌then◌else◌, is_blank, codes, trim_codes, all, any, map, fold_case,
}
use nodestack.Records.Codec.{decode, is_quoted}

abbrev pub is_digit : ℕ → Bool
is_digit c = leb b'0' c && leb c b'9'

-- `[a-zA-Z0-9_]`
abbrev pub is_word_char : ℕ → Bool
is_word_char c = (leb b'a' c && leb c b'z') || (leb b'A' c && leb c b'Z') || is_digit c || c == b'_'

-- `/^[a-zA-Z0-9_]+$/`
unfoldable pub is_word : List ℕ → Bool
is_word s = not (is_blank s) && all is_word_char s

-- The names that may be used; `none` allows all.
unfoldable pub is_allowed : Option (List (List ℕ)) → List ℕ → Bool
is_allowed none name = true
is_allowed (some names) name =
    any (same_codes name) names
    || any (same_codes name) (codes "id" ∷ codes "created" ∷ codes "updated" ∷ [])

-- A value that is bound to a placeholder: a text, the number of a literal, 1 or 0, or null.
pub data Value : Type 0 where
  text : List ℕ → Value
  number : List ℕ → Value
  flag : Bool → Value
  null : Value

-- The literals that `Number` reads, between white space: decimal ones with a sign, a fraction and an
-- exponent, `Infinity`, and those with a base.
digits_then : Bool → (List ℕ → Bool) → List ℕ → Bool
digits_then seen rest [] = seen && rest []
digits_then seen rest (c ∷ cs) =
    let more = digits_then true rest cs in if is_digit c then more else seen && rest (c ∷ cs)

sign_then : (List ℕ → Bool) → List ℕ → Bool
sign_then rest [] = rest []
sign_then rest (c ∷ cs) = if c == b'+' || c == b'-' then rest cs else rest (c ∷ cs)

exponent : List ℕ → Bool
unfolding digits_then sign_then
exponent [] = true
exponent (c ∷ cs) = (c == b'e' || c == b'E') && sign_then (digits_then false is_blank) cs

-- A fraction, which may have no digit if there was one before the point.
fraction : Bool → List ℕ → Bool
unfolding exponent
fraction seen [] = seen
fraction seen (c ∷ cs) =
    if c == b'.' then digits_then seen exponent cs else seen && exponent (c ∷ cs)

decimal_literal : List ℕ → Bool
unfolding fraction
decimal_literal [] = false
decimal_literal (c ∷ cs) =
    if c == b'.' then fraction false (c ∷ cs) else digits_then false (fraction true) (c ∷ cs)

based : List ℕ → Bool
based (z ∷ b ∷ c ∷ cs) =
    z == b'0'
    && (((fold_case b == b'x') && all is_hex (c ∷ cs))
        || ((fold_case b == b'o') && all (λ k. leb b'0' k && leb k b'7') (c ∷ cs))
        || ((fold_case b == b'b') && all (λ k. k == b'0' || k == b'1') (c ∷ cs)))
  where
    is_hex : ℕ → Bool
    is_hex k = is_digit k || (leb b'a' (fold_case k) && leb (fold_case k) b'f')
based s = false

-- `!isNaN(Number(s)) && s !== ''` of a trimmed text
unfoldable pub is_numeric : List ℕ → Bool
unfolding decimal_literal based
is_numeric s = sign_then (λ t. decimal_literal t || same_codes t (codes "Infinity")) s || based s

unfoldable pub extract_literal_value : List ℕ → Value
unfolding is_quoted is_numeric
extract_literal_value val_str =
    let trimmed = trim_codes val_str in
    let folded = map fold_case trimmed in
    if is_quoted 34 trimmed || is_quoted 39 trimmed
    then text (decode trimmed)
    else if same_codes folded (codes "true")
    then flag true
    else if same_codes folded (codes "false")
    then flag false
    else if same_codes folded (codes "null")
    then null
    else if is_numeric trimmed
    then number trimmed
    else text trimmed
