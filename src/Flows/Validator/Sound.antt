-- ===== src/Flows/Validator/Sound.antt =====
-- What a validated state leads to, with its retries and catches. The validator does not look at the
-- policies that catch errors, so that their targets are a condition of their own.
use nodestack.Prelude.{
  ℕ, zero, suc, ◌+◌, String, Bool, true, false, not, List, [], ◌∷◌, Option, none, some, ◌&&◌, ◌≡◌,
  ◌=ₜ◌, refl, inl, inr, find, Bool-cases, if-both,
}
use nodestack.Prelude.Int.{ℤ}
use nodestack.Json.{Json}
use nodestack.Flows.Types.{RetryPolicy, CatchPolicy, FlowState, States, no_states, states}
use nodestack.Flows.Errors.{FlowError, caught_by, try_catch_transition}
use nodestack.Flows.Handlers.{StepResult, Handled, handled, thrown, Counters}
use nodestack.Flows.Retries.{
  Try, after_attempt, may_try_again, execute_with_retry, retry_of, catch_of,
}
use nodestack.Flows.Runs.{named}
use nodestack.Flows.Engine.{find_state, following}
use nodestack.Flows.Validator.{validate_state, validate_states}
use nodestack.Flows.Validator.Targets.{orelse-none, named_exists, Placed}
use nodestack.Flows.Validator.Leads.{Leads, execute_handler-Leads}

unfoldable pub targets_exist : States → List CatchPolicy → Bool
targets_exist all [] = true
targets_exist all (p ∷ ps) = named_exists (named (some p.next)) all && targets_exist all ps

-- Each policy that catches errors names a state that is there.
unfoldable pub catches_exist : States → States → Bool
unfolding targets_exist
catches_exist all no_states = true
catches_exist all (states k s rest) = targets_exist all (catch_of s) && catches_exist all rest

and-both : (a b : Bool) → (a && b) ≡ true → (a ≡ true) × (b ≡ true)
and-both true b h = (refl, h)
and-both false b h = absurd (cc h)

-- The state has passed the validator, and its policies name states that are there.
abbrev pub IsSound : States → FlowState → Type 0
IsSound all s =
    (k : String) × (validate_state k all s ≡ none) × (targets_exist all (catch_of s) ≡ true)

abbrev pub IsSoundState : States → Option FlowState → Type 0
IsSoundState all none = Unit
IsSoundState all (some s) = IsSound all s

abbrev Targeted : States → Option CatchPolicy → Type 0
Targeted all none = Unit
Targeted all (some p) = Placed all (some p.next)

abbrev pub CaughtPlaced : States → Option (String × Option Json) → Type 0
CaughtPlaced all none = Unit
CaughtPlaced all (some (next, payload)) = Placed all (some next)

abbrev pub ResultLeads : States → Option (Handled × Counters × ℕ) → Type 0
ResultLeads all none = Unit
ResultLeads all (some (h, c, n)) = Leads all h

named-Placed : (all : States) (o : Option String) → Placed all o → Placed all (named o)
named-Placed all none h = refl
named-Placed all (some n) h = elim (Bool-cases (n =ₜ "")) [
  | inl e ↦ rw e refl
  | inr e ↦ rw (e, e) (rw e at h)
]

pub following-Placed :
    (all : States) (r : StepResult) → Placed all r.next_state → Placed all (following r)
following-Placed all r h =
    if-both (Placed all) r.is_end (λ _. refl) (λ _. named-Placed all r.next_state h)

module _ (all : States) where
  pub found-IsSound :
      (name : String) (rest : States)
      → validate_states all rest ≡ none
      → catches_exist all rest ≡ true
      → IsSoundState all (find_state name rest)
  unfolding find_state validate_states catches_exist
  found-IsSound name no_states h c = tt
  found-IsSound name (states k s rest) h c =
      let (first_ok, rest_ok) = orelse-none (validate_state k all s) _ h in
      let (first_placed, rest_placed) = and-both (targets_exist all (catch_of s)) _ c in
      if-both (IsSoundState all) (k =ₜ name) (λ _. (k, first_ok, first_placed))
        (λ _. found-IsSound name rest rest_ok rest_placed)

  find-Targeted :
      (test : CatchPolicy → Bool) (ps : List CatchPolicy)
      → targets_exist all ps ≡ true
      → Targeted all (find test ps)
  unfolding targets_exist
  find-Targeted test [] h = tt
  find-Targeted test (p ∷ ps) h =
      let (first_placed, rest_placed) = and-both (named_exists (named (some p.next)) all) _ h in
      if-both (Targeted all) (test p) (λ _. first_placed) (λ _. find-Targeted test ps rest_placed)

  caught-Placed :
      (e : FlowError) (payload : Option Json) (o : Option CatchPolicy)
      → Targeted all o
      → CaughtPlaced all (caught_by e payload o)
  caught-Placed e payload none h = tt
  caught-Placed e payload (some p) h = h

  pub transition-Placed :
      (ps : List CatchPolicy) (e : FlowError) (payload : Option Json)
      → targets_exist all ps ≡ true
      → CaughtPlaced all (try_catch_transition ps e payload)
  unfolding try_catch_transition
  transition-Placed ps e payload h = caught-Placed e payload _ (find-Targeted _ ps h)

  after_attempt-Leads :
      (again : ℕ → Counters → Option (Handled × Counters × ℕ)) (policies : List RetryPolicy)
      (t : Try) (n : ℕ) (counters : Counters) (result : Handled)
      → ((c : Counters) → ResultLeads all (again n c))
      → Leads all result
      → ResultLeads all (after_attempt again policies t n counters result)
  unfolding after_attempt
  after_attempt-Leads again policies t n counters (handled r) h k = k
  after_attempt-Leads again policies t n counters (thrown e) h k =
      if-both (ResultLeads all) (not (may_try_again policies e n)) (λ _. tt)
        (λ _. if-both (ResultLeads all) t.aborted_after (λ _. tt) (λ _. h counters))

  pub retry-Leads :
      (parse_number : Json → Option ℤ) (name : String) (s : FlowState) (payload : Option Json)
      (tries : ℕ → Try) (fuel attempt : ℕ) (counters : Counters)
      → IsSound all s
      → ResultLeads all (execute_with_retry parse_number name s payload tries fuel attempt counters)
  unfolding execute_with_retry
  retry-Leads f name s payload tries zero attempt counters h = tt
  retry-Leads f name s payload tries (suc fuel) attempt counters (k, ok, caught) =
      if-both (ResultLeads all) (tries attempt).aborted_before (λ _. tt)
        (λ _.
          after_attempt-Leads (execute_with_retry f name s payload tries fuel) (retry_of s)
            (tries attempt) (attempt + 1) _ _
            (λ c. retry-Leads f name s payload tries fuel (attempt + 1) c (k, ok, caught))
            (execute_handler-Leads all f name k s payload (tries attempt).attempt counters ok))
