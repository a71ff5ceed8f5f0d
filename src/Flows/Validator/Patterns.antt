-- ===== src/Flows/Validator/Patterns.antt =====
-- The patterns of events that the validator accepts.
use nodestack.Prelude.{
  ◌↔◌, ℕ, Bool, true, false, not, List, [], ◌∷◌, ◌++◌, Option, none, some, inl, inr, ◌⊎◌, ◌≡◌, refl,
  sym, ◌∙◌, ap, ◌||◌, ◌==◌, if◌then◌else◌, codes, starts_with, any, trim_codes, same_codes,
  Bool-cases, arith, All,
}
use nodestack.Flows.Validator.Triggers.{
  TriggerProblem, ◌otherwise◌, refuse, split_colons, is_name, is_name_char, is_collection,
  is_action, star, validate_parts, validate_event_pattern, is_empty_text, pattern_empty,
  collection_invalid, action_before, action_invalid, add_to_first,
}

-- `parts.join(':')`
unfoldable pub join_colons : List (List ℕ) → List ℕ
join_colons [] = []
join_colons (p ∷ []) = p
join_colons (p ∷ q ∷ ps) = p ++ b':' ∷ join_colons (q ∷ ps)

-- Splitting gives one part at least.
split_first : (cs : List ℕ) → (p : List ℕ) × (ps : List (List ℕ)) × (split_colons cs ≡ p ∷ ps)
unfolding split_colons
split_first [] = ([], [], refl)
split_first (c ∷ cs) = elim (Bool-cases (c == b':')) [
  | inl e ↦ ([], split_colons cs, rw e refl)
  | inr e ↦ first_of (split_first cs) e
]
  where
    first_of :
        (p : List ℕ) × (ps : List (List ℕ)) × (split_colons cs ≡ p ∷ ps)
        → (c == b':') ≡ false
        → (q : List ℕ) × (ps : List (List ℕ)) × (split_colons (c ∷ cs) ≡ q ∷ ps)
    first_of (p, ps, e) d = (c ∷ p, ps, rw (d, e) refl)

join_next :
    (b : Bool) (c : ℕ) (p : List ℕ) (ps : List (List ℕ))
    → (b ≡ true → c ≡ b':')
    → join_colons (if b then [] ∷ p ∷ ps else add_to_first c (p ∷ ps)) ≡ c ∷ join_colons (p ∷ ps)
unfolding join_colons
join_next true c p ps h = ap (λ d. d ∷ join_colons (p ∷ ps)) (sym (h refl))
join_next false c p [] h = refl
join_next false c p (q ∷ ps) h = refl

join-split : (cs : List ℕ) → join_colons (split_colons cs) ≡ cs
unfolding split_colons join_colons
join-split [] = refl
join-split (c ∷ cs) =
    let (p, ps, e) = split_first cs in
    rw e (
      join_next (c == b':') c p ps (λ h. ground arith)
      ∙ ap (λ d. c ∷ d) (ap join_colons (sym e) ∙ join-split cs))

same_codes-eq : (a b : List ℕ) → same_codes a b ≡ true → a ≡ b
same_codes-eq [] [] h = refl
same_codes-eq [] (d ∷ ds) h = absurd (cc h)
same_codes-eq (c ∷ cs) [] h = absurd (cc h)
same_codes-eq (c ∷ cs) (d ∷ ds) h =
    let first : c ≡ d = ground arith in
    let rest = same_codes-eq cs ds (ground arith) in rw (first, rest) refl

-- A pattern of one collection, or `*`, and one action.
unfoldable pub IsPattern : List ℕ → Type 0
IsPattern t =
    (t ≡ star)
    ⊎ ((c : List ℕ) × (a : List ℕ) × (t ≡ c ++ b':' ∷ a)
        × (is_collection c ≡ true)
        × (is_action a ≡ true))

refuse-none : (b : Bool) (p : TriggerProblem) → refuse (not b) p ≡ none → b ≡ true
refuse-none true p h = refl
refuse-none false p h = absurd (cc h)

otherwise-none : (p q : Option TriggerProblem) → (p otherwise q) ≡ none → (p ≡ none) × (q ≡ none)
otherwise-none none q h = (refl, h)
otherwise-none (some p) q h = absurd (cc h)

parts-accepted :
    (ps : List (List ℕ))
    → validate_parts ps ≡ none
    → (c : List ℕ) × (a : List ℕ) × (ps ≡ c ∷ a ∷ [])
      × (is_collection c ≡ true)
      × (is_action a ≡ true)
unfolding validate_parts
parts-accepted [] h = absurd (cc h)
parts-accepted (c ∷ []) h = absurd (cc h)
parts-accepted (c ∷ a ∷ []) h =
    let (collection_ok, h₁) =
      otherwise-none (refuse (not (is_collection c)) collection_invalid) _ h in
    let (_, action_ok) =
      otherwise-none (refuse (starts_with a (codes "before")) action_before) _ h₁ in
    (
      c,
      a,
      refl,
      refuse-none (is_collection c) collection_invalid collection_ok,
      refuse-none (is_action a) action_invalid action_ok,
    )
parts-accepted (c ∷ a ∷ b ∷ ps) h = absurd (cc h)

split-accepted : (t : List ℕ) → validate_parts (split_colons t) ≡ none → IsPattern t
unfolding IsPattern join_colons
split-accepted t h =
    let (c, a, e, collection_ok, action_ok) = parts-accepted (split_colons t) h in
    inr (c, a, sym (join-split t) ∙ ap join_colons e, collection_ok, action_ok)

-- Past the guards, the parts decide.
unguarded :
    (blank whole : Bool) (q : Option TriggerProblem)
    → (if blank then some pattern_empty else if whole then none else q) ≡ none
    → whole ≡ false
    → q ≡ none
unguarded true whole q h e = absurd (cc h)
unguarded false true q h e = absurd (cc e)
unguarded false false q h e = h

-- A pattern that the validator accepts is, without the white space around it, `*`, or a collection's
-- name or `*`, a colon, and one of the actions.
validate_event_pattern-IsPattern :
    (p : List ℕ) → validate_event_pattern p ≡ none → IsPattern (trim_codes p)
unfolding validate_event_pattern IsPattern is_collection is_action
validate_event_pattern-IsPattern p h = elim (Bool-cases (same_codes (trim_codes p) star)) [
  | inl e ↦ inl (same_codes-eq (trim_codes p) star e)
  | inr d ↦ elim (Bool-cases (same_codes (trim_codes p) (codes "*:*"))) [
    | inl e ↦ inr (star, star, same_codes-eq (trim_codes p) (codes "*:*") e, refl, refl)
    | inr e ↦ split-accepted (trim_codes p) (
        unguarded (is_empty_text p)
          (same_codes (trim_codes p) star || same_codes (trim_codes p) (codes "*:*")) _ h
          (ground arith))
  ]
]

-- The parts of a pattern hold no colon.
split-name :
    (c rest : List ℕ) → is_name c ≡ true → split_colons (c ++ b':' ∷ rest) ≡ c ∷ split_colons rest
unfolding split_colons is_name is_name_char
split-name [] rest h = refl
split-name (c ∷ cs) rest h =
    let no_colon : (c == b':') ≡ false = ground arith in
    rw (no_colon, split-name cs rest (ground arith)) refl

split-collection :
    (c rest : List ℕ)
    → is_collection c ≡ true
    → split_colons (c ++ b':' ∷ rest) ≡ c ∷ split_colons rest
unfolding split_colons is_collection
split-collection c rest h = elim (Bool-cases (is_name c)) [
  | inl e ↦ split-name c rest e
  | inr e ↦ rw (same_codes-eq c star (ground arith)) refl
]

-- An action has no colon, and does not begin with `before`.
IsFine : List ℕ → Type 0
IsFine a = (split_colons a ≡ a ∷ []) × (starts_with a (codes "before") ≡ false)

any-same :
    (xs : List (List ℕ)) (a : List ℕ)
    → All IsFine xs
    → any (λ x. same_codes a x) xs ≡ true
    → IsFine a
any-same [] a fine h = absurd (cc h)
any-same (x ∷ xs) a (first, others) h = elim (Bool-cases (same_codes a x)) [
  | inl e ↦ rw (same_codes-eq a x e) first
  | inr e ↦ any-same xs a others (ground arith)
]

action-IsFine : (a : List ℕ) → is_action a ≡ true → IsFine a
unfolding is_action IsFine split_colons starts_with
action-IsFine a h =
    any-same
      (codes "create"
        ∷ codes "update"
        ∷ codes "delete"
        ∷ codes "afterCreate"
        ∷ codes "afterUpdate"
        ∷ codes "afterDelete"
        ∷ star
        ∷ [])
      a
      (
        (refl, refl),
        (
          (refl, refl),
          ((refl, refl), ((refl, refl), ((refl, refl), ((refl, refl), ((refl, refl), tt))))),
        ),
      )
      h

-- A collection's name or `*`, a colon and an action are two parts, which pass.
parts-pass :
    (c a : List ℕ)
    → is_collection c ≡ true
    → is_action a ≡ true
    → validate_parts (split_colons (c ++ b':' ∷ a)) ≡ none
unfolding validate_parts IsFine
parts-pass c a collection_ok action_ok =
    let (one_part, not_before) = action-IsFine a action_ok in
    rw (split-collection c a collection_ok, one_part, collection_ok, not_before, action_ok) refl

passes_whole :
    (whole : Bool) (q : Option TriggerProblem) → q ≡ none → (if whole then none else q) ≡ none
passes_whole true q h = refl
passes_whole false q h = h

pattern_passes :
    (p : List ℕ) (c a : List ℕ)
    → trim_codes p ≡ c ++ b':' ∷ a
    → is_collection c ≡ true
    → is_action a ≡ true
    → is_empty_text p ≡ false
    → validate_event_pattern p ≡ none
unfolding validate_event_pattern
pattern_passes p c a e collection_ok action_ok given =
    rw (given, e)
      (passes_whole (same_codes (c ++ b':' ∷ a) star || same_codes (c ++ b':' ∷ a) (codes "*:*")) _
        (parts-pass c a collection_ok action_ok))

-- A text that is such a pattern, without the white space around it, is accepted.
IsPattern-validate_event_pattern :
    (p : List ℕ) → IsPattern (trim_codes p) → validate_event_pattern p ≡ none
unfolding validate_event_pattern IsPattern trim_codes
IsPattern-validate_event_pattern [] (inl e) = absurd (cc e)
IsPattern-validate_event_pattern [] (inr ([], a, e, h, k)) = absurd (cc e)
IsPattern-validate_event_pattern [] (inr (d ∷ c, a, e, h, k)) = absurd (cc e)
IsPattern-validate_event_pattern (x ∷ p) (inl e) = rw e refl
IsPattern-validate_event_pattern (x ∷ p) (inr (c, a, e, collection_ok, action_ok)) =
    pattern_passes (x ∷ p) c a e collection_ok action_ok refl

-- The validator accepts just the patterns that are, without the white space around them, `*`, or a
-- collection's name or `*`, a colon, and one of the actions.
pub validate_event_pattern_iff :
    (p : List ℕ) → (validate_event_pattern p ≡ none) ↔ IsPattern (trim_codes p)
validate_event_pattern_iff p =
    (validate_event_pattern-IsPattern p, IsPattern-validate_event_pattern p)
