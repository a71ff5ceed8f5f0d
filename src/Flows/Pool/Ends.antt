-- ===== src/Flows/Pool/Ends.antt =====
-- How many calls of src/flows/utils/ConcurrencyPool.ts are under way, and how many are to come.
use nodestack.Prelude.{
  ℕ, ◌+◌, ◌≤◌, max, min, ◌≡◌, inl, inr, Bool, true, List, [], ◌∷◌, ◌-◌, ◌&&◌, map, &&-eq-true,
  length, length-append, arith, Bool-cases,
}
use nodestack.Flows.Pool.{
  Pool, is_running, end_call, Ending, resolves, rejects, start_pool, take_next, pool_step, pool_run,
}
use nodestack.Flows.Pool.Indices.{length-end_call, length-indices}

module _ {ℓ κ} {T : Type ℓ} {R : Type κ} (items : List T) (mapper : T → ℕ → R) where
  -- The number of calls that have still to end.
  unfoldable pub left_over : Pool R → ℕ
  left_over p = length p.running + (length items - p.next_index)

  start_pool-left :
      (concurrency : ℕ) → left_over (start_pool items mapper concurrency) ≡ length items
  unfolding left_over start_pool
  start_pool-left concurrency =
      omega (arith, length-indices 0 (min (max 1 concurrency) (length items)))

  pool_step-left :
      (i : ℕ) (p : Pool R)
      → is_running i p.running ≡ true
      → left_over (pool_step items mapper (resolves i) p) + 1 ≡ left_over p
  unfolding left_over pool_step take_next
  pool_step-left i p r =
      let count = length-end_call i p.running r in
      let more = length-append (end_call i p.running) (p.next_index ∷ []) in
      rw r (ground (arith, count, more))

  -- The calls end one after the other, each of them while it is under way.
  unfoldable pub is_schedule : List ℕ → Pool R → Bool
  is_schedule [] p = true
  is_schedule (i ∷ is) p =
      is_running i p.running && is_schedule is (pool_step items mapper (resolves i) p)

  schedule-left :
      (is : List ℕ) (p : Pool R)
      → is_schedule is p ≡ true
      → left_over (pool_run items mapper (map resolves is) p) + length is ≡ left_over p
  unfolding is_schedule pool_run
  schedule-left [] p h = omega arith
  schedule-left (i ∷ is) p h =
      let (now, later) =
        &&-eq-true (is_running i p.running) (is_schedule is (pool_step items mapper (resolves i) p))
          h in
      omega (
        arith,
        schedule-left is (pool_step items mapper (resolves i) p) later,
        pool_step-left i p now,
      )

  -- A pool ends: whichever of the calls that are under way ends next, each ending brings the number of
  -- the endings to come down by one, which is the number of the items at first.
  pool_run-left :
      (concurrency : ℕ) (is : List ℕ)
      → is_schedule is (start_pool items mapper concurrency) ≡ true
      → left_over (pool_run items mapper (map resolves is) (start_pool items mapper concurrency))
          + length is
        ≡ length items
  pool_run-left concurrency is h =
      omega (
        arith,
        schedule-left is (start_pool items mapper concurrency) h,
        start_pool-left concurrency,
      )

  step-length :
      (e : Ending) (p : Pool R) → length (pool_step items mapper e p).running ≤ length p.running
  unfolding pool_step take_next
  step-length (resolves i) p = elim (Bool-cases (is_running i p.running)) [
    | inl r ↦
        let count = length-end_call i p.running r in
        let more = length-append (end_call i p.running) (p.next_index ∷ []) in
        rw r (ground (arith, count, more))
    | inr r ↦ rw r (omega arith)
  ]
  step-length (rejects i) p = elim (Bool-cases (is_running i p.running)) [
    | inl r ↦ (let count = length-end_call i p.running r in rw r (omega (arith, count)))
    | inr r ↦ rw r (omega arith)
  ]

  run-length :
      (es : List Ending) (p : Pool R)
      → length (pool_run items mapper es p).running ≤ length p.running
  unfolding pool_run
  run-length [] p = omega arith
  run-length (e ∷ es) p = omega (arith, run-length es (pool_step items mapper e p), step-length e p)

  -- At no time are more calls of the mapper under way than the concurrency allows, or one where that is
  -- 0.
  pub pool_run-length :
      (concurrency : ℕ) (es : List Ending)
      → length (pool_run items mapper es (start_pool items mapper concurrency)).running
        ≤ max 1 concurrency
  unfolding start_pool
  pool_run-length concurrency es = omega (
    arith,
    run-length es (start_pool items mapper concurrency),
    length-indices 0 (min (max 1 concurrency) (length items)),
  )
