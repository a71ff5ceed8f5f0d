-- ===== src/Flows/Validator/Triggers.antt =====
-- src/flows/FlowValidator.ts: the concurrency of a flow, its trigger and the pattern of its events. A
-- pattern is a list of code points.
use nodestack.Prelude.{
  ℕ, Bool, true, false, not, List, [], ◌∷◌, Option, none, some, ◌&&◌, ◌||◌, ◌==◌, leb,
  if◌then◌else◌, codes, starts_with, any, trim_codes, same_codes,
}
use nodestack.Prelude.Int.{pos, negsuc}
use nodestack.Json.{Json, null, bool, num, text, time, arr, obj}

pub data TriggerProblem : Type 0 where
  concurrency_invalid trigger_invalid event_missing pattern_empty : TriggerProblem
  parts_invalid collection_invalid action_before action_invalid : TriggerProblem

infixr 20 ◌otherwise◌
abbrev pub ◌otherwise◌ : Option TriggerProblem → Option TriggerProblem → Option TriggerProblem
none otherwise q = q
some p otherwise q = some p

abbrev pub refuse : Bool → TriggerProblem → Option TriggerProblem
refuse true p = some p
refuse false p = none

-- The numbers are integers.
unfoldable pub validate_concurrency : Option Json → Option TriggerProblem
validate_concurrency none = none
validate_concurrency (some null) = none
validate_concurrency (some (num (pos n))) = refuse (not (leb 1 n)) concurrency_invalid
validate_concurrency (some (num (negsuc n))) = some concurrency_invalid
validate_concurrency (some (bool b)) = some concurrency_invalid
validate_concurrency (some (text t)) = some concurrency_invalid
validate_concurrency (some (time t)) = some concurrency_invalid
validate_concurrency (some (arr xs)) = some concurrency_invalid
validate_concurrency (some (obj fs)) = some concurrency_invalid

abbrev pub add_to_first : ℕ → List (List ℕ) → List (List ℕ)
add_to_first c [] = (c ∷ []) ∷ []
add_to_first c (p ∷ ps) = (c ∷ p) ∷ ps

-- `text.split(':')`
unfoldable pub split_colons : List ℕ → List (List ℕ)
split_colons [] = [] ∷ []
split_colons (c ∷ cs) =
    let rest = split_colons cs in if c == b':' then [] ∷ rest else add_to_first c rest

-- `[a-zA-Z0-9_-]`
unfoldable pub is_name_char : ℕ → Bool
is_name_char c =
    (leb b'a' c && leb c b'z')
    || (leb b'A' c && leb c b'Z')
    || (leb b'0' c && leb c b'9')
    || c == b'_'
    || c == b'-'

unfoldable pub is_name : List ℕ → Bool
unfolding is_name_char
is_name [] = true
is_name (c ∷ cs) = is_name_char c && is_name cs

abbrev pub is_empty_text : List ℕ → Bool
is_empty_text [] = true
is_empty_text (c ∷ cs) = false

abbrev pub star : List ℕ
star = b'*' ∷ []

unfoldable pub is_collection : List ℕ → Bool
unfolding is_name
is_collection c = not (is_empty_text c) && (is_name c || same_codes c star)

unfoldable pub is_action : List ℕ → Bool
is_action a =
    any (λ allowed. same_codes a allowed)
      (codes "create"
        ∷ codes "update"
        ∷ codes "delete"
        ∷ codes "afterCreate"
        ∷ codes "afterUpdate"
        ∷ codes "afterDelete"
        ∷ star
        ∷ [])

-- The parts of a pattern.
unfoldable pub validate_parts : List (List ℕ) → Option TriggerProblem
unfolding is_collection is_action
validate_parts [] = some parts_invalid
validate_parts (c ∷ []) = some parts_invalid
validate_parts (c ∷ a ∷ []) =
    refuse (not (is_collection c)) collection_invalid
    otherwise refuse (starts_with a (codes "before")) action_before
    otherwise refuse (not (is_action a)) action_invalid
validate_parts (c ∷ a ∷ b ∷ ps) = some parts_invalid

unfoldable pub validate_event_pattern : List ℕ → Option TriggerProblem
unfolding validate_parts split_colons
validate_event_pattern pattern =
    if is_empty_text pattern
    then some pattern_empty
    else if same_codes (trim_codes pattern) star || same_codes (trim_codes pattern) (codes "*:*")
    then none
    else validate_parts (split_colons (trim_codes pattern))

abbrev is_valid_trigger : List ℕ → Bool
is_valid_trigger t =
    any (λ valid. same_codes t valid) (codes "http" ∷ codes "event" ∷ codes "manual" ∷ [])

abbrev event_of : Option (List ℕ) → List ℕ
event_of none = []
event_of (some e) = e

unfoldable pub validate_trigger : Option (List ℕ) → Option (List ℕ) → Option TriggerProblem
unfolding validate_event_pattern
validate_trigger none event = none
validate_trigger (some t) event =
    if not (is_valid_trigger t)
    then some trigger_invalid
    else if not (same_codes t (codes "event"))
    then none
    else if is_empty_text (trim_codes (event_of event))
    then some event_missing
    else validate_event_pattern (trim_codes (event_of event))
