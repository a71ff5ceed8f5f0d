-- ===== src/Flows/Payload.antt =====
-- src/flows/utils/FlowPathMapper.ts: reading and writing payloads. A field that is undefined is one
-- that is not there, a hole of an array is null, and a field of an array that is no index is dropped,
-- as `JSON.stringify` does.
pub mod Written
use nodestack.Prelude.{
  ℕ, zero, suc, ◌/◌, ◌%◌, String, Bool, true, not, List, [], ◌∷◌, Option, none, some, ◌&&◌, ◌==◌,
  ◌=ₜ◌, ltb, if◌then◌else◌,
}
use nodestack.Prelude.Int.{pos}
use nodestack.Json.{
  Json, null, bool, num, text, time, arr, obj, Items, nil, cons, Fields, end, field, get_field,
}
use nodestack.Flows.Paths.{Segment, key, index, parse_path, is_root, digits_value, is_digit_char}

digit_text : ℕ → String → String
digit_text d rest =
    String.◌∷◌
      (if d == 0
        then "0"
        else if d == 1
        then "1"
        else if d == 2
        then "2"
        else if d == 3
        then "3"
        else if d == 4
        then "4"
        else if d == 5
        then "5"
        else if d == 6
        then "6"
        else if d == 7
        then "7"
        else if d == 8
        then "8"
        else "9")
      rest

index_text_from : ℕ → ℕ → String → String
unfolding digit_text
index_text_from zero n rest = rest
index_text_from (suc fuel) n rest =
    let more = index_text_from fuel (n / 10) (digit_text (n % 10) rest) in
    if ltb n 10 then digit_text n rest else more

-- `String(n)`
unfoldable pub index_text : ℕ → String
unfolding index_text_from
index_text n = index_text_from (suc n) n ""

all_digits : String → Bool
all_digits String.[] = true
all_digits (String.◌∷◌ c s) = is_digit_char c && all_digits s

-- The index of an array that a key names.
unfoldable pub key_index : String → Option ℕ
unfolding all_digits digits_value is_digit_char index_text
key_index k =
    if not (k =ₜ "") && all_digits k && (index_text (digits_value k 0) =ₜ k)
    then some (digits_value k 0)
    else none

abbrev pub item : ℕ → Items → Option Json
item n nil = none
item zero (cons x xs) = some x
item (suc n) (cons x xs) = item n xs

abbrev pub count_items : Items → ℕ
count_items nil = 0
count_items (cons x xs) = suc (count_items xs)

unfoldable pub array_member : Items → String → Option Json
unfolding key_index
array_member xs k =
    if k =ₜ "length"
    then some (num (pos (count_items xs)))
    else elim (key_index k) [ none ↦ none | some n ↦ item n xs ]

-- `current[segment]`
unfoldable pub member : Json → Segment → Option Json
unfolding array_member index_text
member (obj fs) (key k) = get_field k fs
member (obj fs) (index n) = get_field (index_text n) fs
member (arr xs) (index n) = item n xs
member (arr xs) (key k) = array_member xs k
member null s = none
member (bool b) s = none
member (num n) s = none
member (text t) s = none
member (time t) s = none

-- The loop of `get`.
unfoldable pub get_in : Option Json → List Segment → Option Json → Option Json
unfolding member
get_in none [] default_value = default_value
get_in (some v) [] default_value = some v
get_in none (s ∷ ss) default_value = default_value
get_in (some null) (s ∷ ss) default_value = default_value
get_in (some v) (s ∷ ss) default_value = get_in (member v s) ss default_value

unfoldable pub get : Option Json → Option String → Option Json → Option Json
unfolding get_in parse_path
get target path default_value =
    if is_root path then get_in target [] default_value else at_path path
  where
    at_path : Option String → Option Json
    at_path none = default_value
    at_path (some p) = elim (parse_path p) [
      | none ↦ default_value
      | some ss ↦ get_in target ss default_value
    ]

unfoldable pub set_field : String → Json → Fields → Fields
set_field k v end = field k v end
set_field k v (field j w fs) = if j =ₜ k then field j v fs else field j w (set_field k v fs)

unfoldable pub drop_field : String → Fields → Fields
drop_field k end = end
drop_field k (field j w fs) = let rest = drop_field k fs in if j =ₜ k then rest else field j w rest

abbrev pub put_field : String → Option Json → Fields → Fields
put_field k none fs = drop_field k fs
put_field k (some v) fs = set_field k v fs

unfoldable pub put_item : ℕ → Json → Items → Items
put_item zero v nil = cons v nil
put_item zero v (cons x xs) = cons v xs
put_item (suc n) v nil = cons null (put_item n v nil)
put_item (suc n) v (cons x xs) = cons x (put_item n v xs)

abbrev pub or_hole : Option Json → Json
or_hole none = null
or_hole (some v) = v

-- `current[segment] = value`
unfoldable pub assign : Json → Segment → Option Json → Json
unfolding key_index index_text put_item drop_field set_field
assign (obj fs) (key k) v = obj (put_field k v fs)
assign (obj fs) (index n) v = obj (put_field (index_text n) v fs)
assign (arr xs) (index n) v = arr (put_item n (or_hole v) xs)
assign (arr xs) (key k) v = elim (key_index k) [
  | none ↦ arr xs
  | some n ↦ arr (put_item n (or_hole v) xs)
]
assign null s v = null
assign (bool b) s v = bool b
assign (num n) s v = num n
assign (text t) s v = text t
assign (time t) s v = time t

-- `typeof segment === 'number' ? [] : {}`
abbrev pub container : Segment → Json
container (key k) = obj end
container (index n) = arr nil

-- The value, if it is an object or an array, and a new one for the segment if it is not.
abbrev pub opened : Option Json → Segment → Json
opened none s = container s
opened (some (obj fs)) s = obj fs
opened (some (arr xs)) s = arr xs
opened (some null) s = container s
opened (some (bool b)) s = container s
opened (some (num n)) s = container s
opened (some (text t)) s = container s
opened (some (time t)) s = container s

-- The loop of `set`, from the root on.
unfoldable pub set_in : List Segment → Json → Option Json → Json
unfolding assign member
set_in [] current v = current
set_in (s ∷ []) current v = assign current s v
set_in (s ∷ t ∷ ss) current v =
    assign current s (some (set_in (t ∷ ss) (opened (member current s) t) v))

abbrev pub set_segments : Option Json → List Segment → Option Json → Option Json
set_segments target [] v = v
set_segments target (s ∷ ss) v = some (set_in (s ∷ ss) (opened target s) v)

unfoldable pub set : Option Json → Option String → Option Json → Option Json
unfolding set_in parse_path
set target path value = if is_root path then value else at_path path
  where
    at_path : Option String → Option Json
    at_path none = value
    at_path (some p) = elim (parse_path p) [
      | none ↦ target
      | some ss ↦ set_segments target ss value
    ]

unfoldable pub resolve_input : Option Json → Option String → Option Json
unfolding get
resolve_input payload input_path =
    if is_root input_path then payload else get payload input_path none

-- A result path that is the empty text or null discards the result. `none` stands for undefined,
-- and `some none` for null.
unfoldable pub apply_result : Option Json → Option Json → Option (Option String) → Option Json
unfolding set
apply_result payload result none = result
apply_result payload result (some none) = payload
apply_result payload result (some (some p)) =
    if p =ₜ "" then payload else if p =ₜ "$" then result else set payload (some p) result

unfoldable pub resolve_output : Option Json → Option String → Option Json
unfolding get
resolve_output payload output_path =
    if is_root output_path then payload else get payload output_path none
