-- ===== src/Flows/Validator/Targets.antt =====
-- The states that the handlers of a validated flow lead to are there.
use nodestack.Prelude.{
  String, Bool, true, false, not, Option, none, some, inl, inr, ◌||◌, ◌≡◌, ◌=ₜ◌, refl, Bool-cases,
}
use nodestack.Flows.Types.{BaseState, States}
use nodestack.Flows.Runs.{named}
use nodestack.Flows.Validator.{
  Problem, ◌orelse◌, require, has_key, key_exists, is_given, validate_base, validate_path,
  or_undefined, next_and_end, next_unknown,
}

pub orelse-none : (p q : Option Problem) → (p orelse q) ≡ none → (p ≡ none) × (q ≡ none)
orelse-none none q h = (refl, h)
orelse-none (some p) q h = absurd (cc h)

pub require-none : (b : Bool) (p : Problem) → require b p ≡ none → b ≡ true
require-none true p h = refl
require-none false p h = absurd (cc h)

abbrev pub named_exists : Option String → States → Bool
named_exists none all = true
named_exists (some n) all = has_key n all

-- No state is named, or one that is there.
abbrev pub Placed : States → Option String → Type 0
Placed all o = named_exists (named o) all ≡ true

pub if_given-Placed :
    (all : States) (o : Option String)
    → (not (is_given o) || key_exists o all) ≡ true
    → Placed all o
if_given-Placed all none h = refl
if_given-Placed all (some n) h = elim (Bool-cases (n =ₜ "")) [
  | inl e ↦ rw e refl
  | inr e ↦ rw e (rw e at h)
]

pub exists-Placed : (all : States) (o : Option String) → key_exists o all ≡ true → Placed all o
exists-Placed all none h = absurd (cc h)
exists-Placed all (some n) h = elim (Bool-cases (n =ₜ "")) [
  | inl e ↦ rw e refl
  | inr e ↦ rw e (rw e at h)
]

pub base-Placed :
    (name : String) (all : States) (b : BaseState)
    → validate_base name all b ≡ none
    → Placed all b.next
unfolding validate_base
base-Placed name all b h =
    let (_, h₁) = orelse-none (validate_path name b.input_path) _ h in
    let (_, h₂) = orelse-none (validate_path name (or_undefined b.result_path)) _ h₁ in
    let (_, h₃) = orelse-none (validate_path name b.output_path) _ h₂ in
    let (next_ok, _) =
      orelse-none _ (require (not (is_given b.next) || not b.is_end) (next_and_end name)) h₃ in
    if_given-Placed all b.next (require-none _ (next_unknown name) next_ok)
