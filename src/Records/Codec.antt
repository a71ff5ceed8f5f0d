-- ===== src/Records/Codec.antt =====
-- src/records/FilterCodec.ts. A text is the list of its code points.
pub mod Literals
use nodestack.Prelude.{
  ℕ, Bool, List, [], ◌∷◌, ◌++◌, Option, none, some, ◌&&◌, ◌||◌, ◌==◌, if◌then◌else◌, drop,
  trim_codes, replace_all, first_is, last_is, drop_last,
}

-- The chain of replacements, in its order.
unfoldable pub escaped : List ℕ → List ℕ
escaped s = replace_all 9 (92 ∷ b't' ∷ []) (
    replace_all 13 (92 ∷ b'r' ∷ []) (
      replace_all 10 (92 ∷ b'n' ∷ [])
        (replace_all 39 (92 ∷ 39 ∷ []) (replace_all 92 (92 ∷ 92 ∷ []) s))))

-- The argument is the text of the value, `none` if it is null or undefined.
unfoldable pub encode : Option (List ℕ) → List ℕ
encode none = 39 ∷ 39 ∷ []
encode (some s) = 39 ∷ (escaped s ++ 39 ∷ [])

unescape_char : ℕ → ℕ
unescape_char c = if c == b'n' then 10 else if c == b'r' then 13 else if c == b't' then 9 else c

-- A backslash and the character after it stand for one character; one at the end stays.
unfoldable pub unescape : List ℕ → List ℕ
unfolding unescape_char
unescape [] = []
unescape (c ∷ []) = c ∷ []
unescape (c ∷ d ∷ cs) =
    let behind = unescape cs in
    let rest = unescape (d ∷ cs) in if c == 92 then unescape_char d ∷ behind else c ∷ rest

unfoldable pub is_quoted : ℕ → List ℕ → Bool
is_quoted q s = first_is q s && last_is q s

unfoldable pub decode : List ℕ → List ℕ
unfolding is_quoted
decode [] = []
decode (c ∷ cs) =
    let trimmed = trim_codes (c ∷ cs) in
    if is_quoted 34 trimmed || is_quoted 39 trimmed
    then unescape (drop_last (drop 1 trimmed))
    else trimmed
