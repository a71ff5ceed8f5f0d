-- ===== src/Flows/Retries/Limits.antt =====
-- How often `executeWithRetry` calls the handler.
use nodestack.Prelude.{
  ℕ, zero, suc, ◌+◌, ◌≤◌, ◌<◌, max, String, Bool, true, false, not, List, [], ◌∷◌, Option, some,
  inl, inr, ◌≡◌, refl, arith, Bool-cases, Option-cases, if-both, find, tests,
}
use nodestack.Prelude.Int.{ℤ}
use nodestack.Json.{Json}
use nodestack.Flows.Types.{RetryPolicy, FlowState}
use nodestack.Flows.Errors.{FlowError, find_retry_policy, policy_matches}
use nodestack.Flows.Handlers.{Handled, handled, thrown, Counters, execute_handler}
use nodestack.Flows.Retries.{
  Try, retry_of, is_last, may_try_again, execute_with_retry, retry_limit, limit_of, after_attempt,
}

limit-le :
    (test : RetryPolicy → Bool) (ps : List RetryPolicy) (p : RetryPolicy)
    → find test ps ≡ some p
    → limit_of p ≤ retry_limit ps
unfolding retry_limit
limit-le test [] p h = absurd (cc h)
limit-le test (q ∷ ps) p h = elim (Bool-cases (test q)) [
  | inl e ↦ (let same : q ≡ p = cc (rw e at h) in rw same (omega arith))
  | inr e ↦ omega (arith, limit-le test ps p (rw e at h))
]

-- Another attempt is made below the limit only.
more : (n : ℕ) (p : RetryPolicy) → not (is_last n p) ≡ true → n < limit_of p
more n p q = ground arith

again-lt-limit :
    (ps : List RetryPolicy) (e : FlowError) (n : ℕ)
    → may_try_again ps e n ≡ true
    → n < retry_limit ps
unfolding may_try_again find_retry_policy
again-lt-limit ps e n h =
    elim (Option-cases (find (λ (p : RetryPolicy). policy_matches p.error_equals e) ps)) [
      | inl absent ↦ absurd (no_policy (rw (absent, may_try_again) at h))
      | inr (p, found) ↦ policy_limit p found (rw (found, may_try_again) at h)
    ]
  where
    no_policy : false ≡ true → ⊥
    no_policy q = cc

    policy_limit :
        (p : RetryPolicy)
        → find (λ (p : RetryPolicy). policy_matches p.error_equals e) ps ≡ some p
        → not (is_last n p) ≡ true
        → n < retry_limit ps
    policy_limit p found q = omega (
      tests,
      limit-le (λ (p : RetryPolicy). policy_matches p.error_equals e) ps p found,
      more n p q,
    )

module _ (parse_number : Json → Option ℤ) (name : String) (state : FlowState)
    (payload : Option Json) (tries : ℕ → Try) where
  -- What a call of `executeWithRetry` gives within its fuel.
  abbrev Ended : ℕ → Option (Handled × Counters × ℕ) → Type 0
  Ended limit o = (h : Handled) × (c : Counters) × (n : ℕ) × (o ≡ some (h, c, n)) × (n ≤ limit)

  abbrev limit : ℕ
  limit = max 1 (retry_limit (retry_of state))

  after_ends :
      (again : ℕ → Counters → Option (Handled × Counters × ℕ)) (t : Try) (n : ℕ)
      (counters : Counters)
      → ((c : Counters) → n < limit → Ended limit (again n c))
      → n ≤ limit
      → (result : Handled) → Ended limit (after_attempt again (retry_of state) t n counters result)
  unfolding after_attempt
  after_ends again t n counters h le (handled r) = (_, _, n, refl, le)
  after_ends again t n counters h le (thrown e) =
      if-both (Ended limit) (not (may_try_again (retry_of state) e n)) (λ _. (_, _, n, refl, le))
        (λ q.
          if-both (Ended limit) t.aborted_after (λ _. (_, _, n, refl, le))
            (λ _. h counters (omega (arith, again-lt-limit (retry_of state) e n (ground arith)))))

  retry_ends :
      (fuel attempt : ℕ) (counters : Counters)
      → limit < attempt + fuel + 1
      → attempt < limit
      → Ended limit (execute_with_retry parse_number name state payload tries fuel attempt counters)
  unfolding execute_with_retry
  retry_ends zero attempt counters h k = absurd (omega arith)
  retry_ends (suc fuel) attempt counters h k =
      if-both (Ended limit) (tries attempt).aborted_before (λ _. (_, _, attempt, refl, omega arith))
        (λ _.
          after_ends (execute_with_retry parse_number name state payload tries fuel) (tries attempt)
            (attempt + 1) _ (λ c lt. retry_ends fuel (attempt + 1) c (omega arith) (omega arith))
            (omega arith)
            (execute_handler parse_number name state payload (tries attempt).attempt counters).0)

  -- Whatever the handler does, the loop ends with the fuel that it is given, and the handler is called
  -- no more often than the policies allow, and once if they allow nothing.
  pub execute_with_retry_ends :
      (counters : Counters)
      → (h : Handled) × (c : Counters) × (n : ℕ) × (execute_with_retry parse_number name state
            payload tries
            (suc (retry_limit (retry_of state)))
            0
            counters
          ≡ some (h, c, n))
        × (n ≤ max 1 (retry_limit (retry_of state)))
  execute_with_retry_ends counters =
      retry_ends (suc (retry_limit (retry_of state))) 0 counters (omega arith) (omega arith)
