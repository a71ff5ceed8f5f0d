-- ===== src/Flows/Paths.antt =====
-- src/flows/utils/FlowPathMapper.ts. A payload is a JSON value or undefined, which is `none`. The
-- properties that values inherit, and those of texts, are not modelled: they are undefined here.
use nodestack.Prelude.{
  ℕ, ◌+◌, ◌-◌, ◌*◌, String, Bool, true, false, not, List, [], ◌∷◌, ◌++◌, Option, none, some, ◌&&◌,
  ◌||◌, ◌==◌, ◌=ₜ◌, leb, if◌then◌else◌, any,
}
use Prim.Native.Char.{Char, code}

pub data Segment : Type 0 where
  key : String → Segment
  index : ℕ → Segment

-- `text + char`
unfoldable pub snoc : String → Char → String
snoc String.[] c = String.◌∷◌ c String.[]
snoc (String.◌∷◌ d s) c = String.◌∷◌ d (snoc s c)

abbrev is_quote : Char → Bool
is_quote c = code c == 34 || code c == 39

abbrev strip_start : String → String
strip_start String.[] = String.[]
strip_start (String.◌∷◌ c s) = if is_quote c then s else String.◌∷◌ c s

abbrev strip_end : String → String
strip_end String.[] = String.[]
strip_end (String.◌∷◌ c s) =
    let rest = strip_end s in if is_quote c && (s =ₜ "") then String.[] else String.◌∷◌ c rest

-- `match[1].replace(/^["']|["']$/g, '')`
unfoldable pub stripped : String → String
stripped s = strip_end (strip_start s)

abbrev pub forbidden_segments : List String
forbidden_segments = "__proto__" ∷ "constructor" ∷ "prototype" ∷ []

unfoldable pub is_forbidden : String → Bool
is_forbidden s = any (λ f. s =ₜ f) forbidden_segments

-- A token that the loop has found: `none` stands for the forbidden ones.
unfoldable pub key_token : String → Option (List Segment)
unfolding stripped is_forbidden
key_token current =
    if current =ₜ ""
    then some []
    else if is_forbidden (stripped current)
    then none
    else some (key (stripped current) ∷ [])

abbrev followed_by : Option (List Segment) → Option (List Segment) → Option (List Segment)
followed_by none ts = none
followed_by (some t) none = none
followed_by (some t) (some ts) = some (t ++ ts)

unfoldable pub is_digit_char : Char → Bool
is_digit_char c = leb b'0' (code c) && leb (code c) b'9'

unfoldable pub digits_value : String → ℕ → ℕ
digits_value String.[] n = n
digits_value (String.◌∷◌ c s) n = digits_value s (n * 10 + (code c - b'0'))

-- Where the expression stands: in a run of characters of a key, or behind `[` with digits.
pub data Place : Type 0 where
  in_key in_brackets : String → Place

-- The matches of `/([^[.\]]+)|\[(\d+)\]/g` from here on. Digits behind `[` that no `]` follows are
-- the beginning of a key.
unfoldable pub tokens_from : String → Place → Option (List Segment)
unfolding key_token is_digit_char digits_value snoc
tokens_from String.[] (in_key current) = key_token current
tokens_from String.[] (in_brackets digits) = key_token digits
tokens_from (String.◌∷◌ c s) (in_key current) =
    let more = tokens_from s (in_key (snoc current c)) in
    let opened = followed_by (key_token current) (tokens_from s (in_brackets "")) in
    let closed = followed_by (key_token current) (tokens_from s (in_key "")) in
    if code c == b'[' then opened else if code c == b'.' || code c == b']' then closed else more
tokens_from (String.◌∷◌ c s) (in_brackets digits) =
    let more = tokens_from s (in_brackets (snoc digits c)) in
    let found =
      followed_by (some (index (digits_value digits 0) ∷ [])) (tokens_from s (in_key "")) in
    let opened = followed_by (key_token digits) (tokens_from s (in_brackets "")) in
    let closed = followed_by (key_token digits) (tokens_from s (in_key "")) in
    let other = tokens_from s (in_key (snoc digits c)) in
    if is_digit_char c
    then more
    else if code c == b']' && not (digits =ₜ "")
    then found
    else if code c == b'['
    then opened
    else if code c == b'.' || code c == b']'
    then closed
    else other

-- The path without its `$.` or `$`.
unfoldable pub clean_path : String → String
clean_path String.[] = String.[]
clean_path (String.◌∷◌ c String.[]) = if code c == b'$' then String.[] else String.◌∷◌ c String.[]
clean_path (String.◌∷◌ c (String.◌∷◌ d s)) =
    if code c == b'$'
    then if code d == b'.' then s else String.◌∷◌ d s
    else String.◌∷◌ c (String.◌∷◌ d s)

-- `none` stands for null: the path is unsafe.
unfoldable pub parse_path : String → Option (List Segment)
unfolding clean_path tokens_from
parse_path path = tokens_from (clean_path path) (in_key "")

unfoldable pub is_unsafe_path : Option String → Bool
is_unsafe_path none = false
is_unsafe_path (some path) =
    if path =ₜ "" then false else elim (parse_path path) [ none ↦ true | some ss ↦ false ]

-- `!path || path === '$'`
abbrev pub is_root : Option String → Bool
is_root none = true
is_root (some path) = path =ₜ "" || path =ₜ "$"
