-- ===== src/Flows/Errors.antt =====
-- The errors that a flow meets, and how retry and catch policies are found for them
-- (src/flows/FlowEngine.ts, `findMatchingRetryPolicy` and `tryCatchTransition`).
use nodestack.Prelude.{
  ℕ, String, Bool, true, false, not, List, [], ◌∷◌, Option, none, some, ◌&&◌, ◌||◌, ◌==◌, ◌=ₜ◌,
  if◌then◌else◌, codes, starts_with, any, find, is_blank, or_default,
}
use Prim.Native.String.{◌++◌ as append}
use nodestack.Prelude.Int.{pos}
use nodestack.Json.{Json, num, text, obj, field, end, Fields}
use nodestack.Flows.Types.{RetryPolicy, CatchPolicy}
use nodestack.Flows.Payload.{apply_result}

-- `err.status`, where it is set.
pub data Tag : Type 0 where
  no_tag timeout_tag cancelled_tag : Tag

-- The name is empty if it is not set.
pub record FlowError : Type 0 where
  pub name : String
  pub error_code : Option String
  pub message : String
  pub status_code : Option ℕ
  pub tag : Tag

abbrev pub concat : List String → String
concat [] = ""
concat (s ∷ ss) = append s (concat ss)

abbrev pub app_error : String → ℕ → FlowError
app_error message status_code = record {
  name = "AppError";
  error_code = none;
  message = message;
  status_code = some status_code;
  tag = no_tag;
}

abbrev pub cancel_error : String → FlowError
cancel_error message = record (app_error message 499) { tag = cancelled_tag }

-- `text.includes(part)`
unfoldable pub includes_text : List ℕ → List ℕ → Bool
includes_text [] part = starts_with [] part
includes_text (c ∷ cs) part = starts_with (c ∷ cs) part || includes_text cs part

abbrev pub error_name : FlowError → String
error_name e = if e.name =ₜ "" then "Error" else e.name

abbrev pub has_code : Option String → String → Bool
has_code none expected = false
has_code (some c) expected = not (c =ₜ "") && expected =ₜ c

-- The test that both kinds of policies make.
unfoldable pub policy_matches : Option (List String) → FlowError → Bool
unfolding includes_text
policy_matches none e = true
policy_matches (some names) e =
    is_blank names
    || any (λ n. n =ₜ "*") names
    || any (λ n. n =ₜ "States.ALL") names
    || any
        (λ expected.
          expected =ₜ error_name e
          || has_code e.error_code expected
          || includes_text (codes e.message) (codes expected))
        names

unfoldable pub find_retry_policy : List RetryPolicy → FlowError → Option RetryPolicy
unfolding policy_matches
find_retry_policy policies e = find (λ (p : RetryPolicy). policy_matches p.error_equals e) policies

abbrev code_field : Option String → Fields → Fields
code_field none rest = rest
code_field (some c) rest = if c =ₜ "" then rest else field "code" (text c) rest

-- `errorDetails`
unfoldable pub error_details : FlowError → Json
error_details e = obj (
    field "error" (text (error_name e)) (
      field "message" (text e.message) (
        code_field e.error_code (
          field "statusCode"
            (num
              (pos (if or_default e.status_code 0 == 0 then 500 else or_default e.status_code 0)))
            end))))

abbrev pub caught_by : FlowError → Option Json → Option CatchPolicy → Option (String × Option Json)
caught_by e payload none = none
caught_by e payload (some p) =
    some (p.next, apply_result payload (some (error_details e)) p.result_path)

-- The state that catches an error, with its payload.
unfoldable pub try_catch_transition :
    List CatchPolicy → FlowError → Option Json → Option (String × Option Json)
unfolding policy_matches error_details apply_result
try_catch_transition policies e payload =
    caught_by e payload (find (λ (p : CatchPolicy). policy_matches p.error_equals e) policies)
