-- ===== src/Rules/Agreement.antt =====
-- The filter for a list agrees with the evaluation of the rule, and both come to an end.
use nodestack.Prelude.{
  ℕ, Bool, true, false, List, [], ◌∷◌, ◌≡◌, refl, arith, is_blank, any, all, All, map, if-both,
}
use nodestack.Rules.Engine.{
  Verdict, refused, allowed, filtered, filters_of, is_allowed_verdict, is_refused, either_filter,
  either_verdict, every_filter, every_verdict, wrapped_verdict, verdict_of,
}

-- A verdict on a list, and one on a record: a refusal and a permit without a filter are the same there.
abbrev pub Agrees : Verdict → Bool → Type 0
Agrees refused b = b ≡ false
Agrees allowed b = b ≡ true
Agrees (filtered f) b = Unit

-- A verdict with the evaluation that it is for.
abbrev pub Pairs : Type 0
Pairs = List (Verdict × Bool)

abbrev pub verdicts : Pairs → List Verdict
verdicts ps = map (λ p. p.0) ps

abbrev pub passed : Pairs → List Bool
passed ps = map (λ p. p.1) ps

abbrev pub AllAgree : Pairs → Type 0
AllAgree ps = All (λ p. Agrees p.0 p.1) ps

pub verdict_of-Agrees : (b : Bool) → Agrees (verdict_of b) b
verdict_of-Agrees true = refl
verdict_of-Agrees false = refl

pub wrapped-Agrees : (v : Verdict) (b : Bool) → Agrees v b → Agrees (wrapped_verdict v) b
wrapped-Agrees refused b h = h
wrapped-Agrees allowed b h = h
wrapped-Agrees (filtered f) b h = tt

either_filter-Agrees :
    (fs : List (List ℕ)) (b : Bool) → (is_blank fs ≡ true → b ≡ false) → Agrees (either_filter fs) b
either_filter-Agrees [] b h = h refl
either_filter-Agrees (f ∷ []) b h = tt
either_filter-Agrees (f ∷ g ∷ fs) b h = tt

every_filter-Agrees :
    (fs : List (List ℕ)) (b : Bool) → (is_blank fs ≡ true → b ≡ true) → Agrees (every_filter fs) b
every_filter-Agrees [] b h = h refl
every_filter-Agrees (f ∷ fs) b h = tt

-- Without a permit and without filters, all are refused.
none_passes :
    (ps : Pairs)
    → AllAgree ps
    → any is_allowed_verdict (verdicts ps) ≡ false
    → is_blank (filters_of (verdicts ps)) ≡ true
    → any (λ b. b) (passed ps) ≡ false
none_passes [] h a f = refl
none_passes ((refused, b) ∷ ps) (e, h) a f = rw e (none_passes ps h a f)
none_passes ((allowed, b) ∷ ps) h a f = absurd (cc a)
none_passes ((filtered g, b) ∷ ps) h a f = absurd (cc f)

some_passes :
    (ps : Pairs)
    → AllAgree ps
    → any is_allowed_verdict (verdicts ps) ≡ true
    → any (λ b. b) (passed ps) ≡ true
some_passes [] h a = absurd (cc a)
some_passes ((refused, b) ∷ ps) (e, h) a = rw e (some_passes ps h a)
some_passes ((allowed, b) ∷ ps) (e, h) a = rw e refl
some_passes ((filtered g, b) ∷ ps) (e, h) a = let rest = some_passes ps h a in ground arith

pub either-Agrees :
    (ps : Pairs) → AllAgree ps → Agrees (either_verdict (verdicts ps)) (any (λ b. b) (passed ps))
unfolding either_verdict
either-Agrees ps h =
    if-both (λ v. Agrees v (any (λ b. b) (passed ps))) (any is_allowed_verdict (verdicts ps))
      (λ a. some_passes ps h a)
      (λ a. either_filter-Agrees (filters_of (verdicts ps)) _ (λ f. none_passes ps h a f))

some_fails :
    (ps : Pairs)
    → AllAgree ps
    → any is_refused (verdicts ps) ≡ true
    → all (λ b. b) (passed ps) ≡ false
some_fails [] h a = absurd (cc a)
some_fails ((refused, b) ∷ ps) (e, h) a = rw e refl
some_fails ((allowed, b) ∷ ps) (e, h) a = rw e (some_fails ps h a)
some_fails ((filtered g, b) ∷ ps) (e, h) a = let rest = some_fails ps h a in ground arith

none_fails :
    (ps : Pairs)
    → AllAgree ps
    → any is_refused (verdicts ps) ≡ false
    → is_blank (filters_of (verdicts ps)) ≡ true
    → all (λ b. b) (passed ps) ≡ true
none_fails [] h a f = refl
none_fails ((refused, b) ∷ ps) h a f = absurd (cc a)
none_fails ((allowed, b) ∷ ps) (e, h) a f = rw e (none_fails ps h a f)
none_fails ((filtered g, b) ∷ ps) h a f = absurd (cc f)

pub every-Agrees :
    (ps : Pairs) → AllAgree ps → Agrees (every_verdict (verdicts ps)) (all (λ b. b) (passed ps))
unfolding every_verdict
every-Agrees ps h =
    if-both (λ v. Agrees v (all (λ b. b) (passed ps))) (any is_refused (verdicts ps))
      (λ a. some_fails ps h a)
      (λ a. every_filter-Agrees (filters_of (verdicts ps)) _ (λ f. none_fails ps h a f))
