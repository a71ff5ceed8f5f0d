-- ===== src/Json.antt =====
-- JSON values as the program holds them, and the text that `JSON.stringify` makes of one.
-- Numbers are integers. A value that was read by `JSON.parse` has each key once.
use nodestack.Prelude.{
  ℕ, zero, suc, ◌+◌, ◌-◌, ◌/◌, ◌%◌, String, Bool, true, false, List, [], ◌∷◌, ◌++◌, Option, none,
  some, ◌||◌, ltb, ◌==◌, ◌=ₜ◌, codes, if◌then◌else◌,
}
use nodestack.Prelude.Int.{ℤ, pos, negsuc}
use nodestack.Time.Iso.{iso_codes}

mutual
  pub data Json : Type 0 where
    null : Json
    bool : Bool → Json
    num : ℤ → Json
    text : String → Json
    -- the text that `toISOString` makes of a time
    time : ℕ → Json
    arr : Items → Json
    obj : Fields → Json

  pub data Items : Type 0 where
    nil : Items
    cons : Json → Items → Items

  pub data Fields : Type 0 where
    end : Fields
    field : String → Json → Fields → Fields

-- The decimal digits of a number, before those of `acc`; `fuel` is above the number.
decimal_from : ℕ → ℕ → List ℕ → List ℕ
decimal_from zero n acc = acc
decimal_from (suc fuel) n acc =
    let more = decimal_from fuel (n / 10) ((n % 10 + b'0') ∷ acc) in
    if ltb n 10 then (n + b'0') ∷ acc else more

unfoldable pub decimal : ℤ → List ℕ
unfolding decimal_from
decimal (pos n) = decimal_from (suc n) n []
decimal (negsuc n) = b'-' ∷ decimal_from (suc (suc n)) (suc n) []

hex_digit : ℕ → ℕ
hex_digit d = if ltb d 10 then d + b'0' else d - 10 + b'a'

-- One character of a text, with the escapes of JSON.
escape : ℕ → List ℕ
unfolding hex_digit
escape c =
    if c == 34 || c == 92
    then 92 ∷ c ∷ []
    else if c == 8
    then 92 ∷ b'b' ∷ []
    else if c == 9
    then 92 ∷ b't' ∷ []
    else if c == 10
    then 92 ∷ b'n' ∷ []
    else if c == 12
    then 92 ∷ b'f' ∷ []
    else if c == 13
    then 92 ∷ b'r' ∷ []
    else if ltb c 32
    then 92 ∷ b'u' ∷ b'0' ∷ b'0' ∷ hex_digit (c / 16) ∷ hex_digit (c % 16) ∷ []
    else c ∷ []

escape_all : List ℕ → List ℕ
unfolding escape
escape_all [] = []
escape_all (c ∷ cs) = escape c ++ escape_all cs

unfoldable pub quote : String → List ℕ
unfolding escape_all
quote s = 34 ∷ (escape_all (codes s) ++ 34 ∷ [])

unfoldable mutual
  unfolding quote decimal iso_codes

  pub stringify : Json → List ℕ
  stringify null = codes "null"
  stringify (bool true) = codes "true"
  stringify (bool false) = codes "false"
  stringify (num n) = decimal n
  stringify (text s) = quote s
  stringify (time t) = 34 ∷ (iso_codes t ++ 34 ∷ [])
  stringify (arr xs) = b'[' ∷ (stringify_items xs ++ b']' ∷ [])
  stringify (obj fs) = b'{' ∷ (stringify_fields fs ++ b'}' ∷ [])

  pub stringify_items : Items → List ℕ
  stringify_items nil = []
  stringify_items (cons x nil) = stringify x
  stringify_items (cons x (cons y ys)) = stringify x ++ (b',' ∷ stringify_items (cons y ys))

  pub stringify_fields : Fields → List ℕ
  stringify_fields end = []
  stringify_fields (field k v end) = quote k ++ (b':' ∷ stringify v)
  stringify_fields (field k v (field j w fs)) =
      quote k ++ (b':' ∷ (stringify v ++ (b',' ∷ stringify_fields (field j w fs))))

abbrev pub get_field : String → Fields → Option Json
get_field k end = none
get_field k (field j v fs) = if j =ₜ k then some v else get_field k fs

-- `value?.key`: `none` is `undefined`.
abbrev pub property : String → Json → Option Json
property k (obj fs) = get_field k fs
property k null = none
property k (bool b) = none
property k (num n) = none
property k (text s) = none
property k (time t) = none
property k (arr xs) = none

-- `Boolean(value)`
abbrev pub truthy : Json → Bool
truthy null = false
truthy (bool b) = b
truthy (num (pos n)) = if n == 0 then false else true
truthy (num (negsuc n)) = true
truthy (text s) = if s =ₜ "" then false else true
truthy (time t) = true
truthy (arr xs) = true
truthy (obj fs) = true
