-- ===== src/Flows/Pool/Results.antt =====
-- What src/flows/utils/ConcurrencyPool.ts gives, whatever the order in which its calls end.
use nodestack.Prelude.{
  ℕ, ◌+◌, ◌≤◌, ◌<◌, max, min, ◌≡◌, ◌⊎◌, inl, inr, true, false, List, [], ◌∷◌, ◌++◌, Option, some,
  ◌==◌, ltb, length, length-append, arith, if-both, Bool-cases, Option-cases,
}
use nodestack.Flows.Pool.{
  get_elem?, Pool, is_running, end_call, Ending, resolves, rejects, start_pool, take_next,
  results_with, pool_step, pool_run,
}
use nodestack.Flows.Pool.Indices.{
  get_elem?-lt, is_running-append, is_running-none, length_none, is_running-end_call,
  is_running-indices, length-indices,
}

module _ {ℓ κ} {T : Type ℓ} {R : Type κ} (items : List T) (mapper : T → ℕ → R) where
  -- Each index that a worker has taken is under way or has its result, and as long as there are more
  -- indices and no call was rejected some call is under way.
  record IsOnTrack (p : Pool R) : Type (ℓ ⊔ κ) where
    covered :
        p.rejected ≡ false
        → (i : ℕ) (x : T) → get_elem? items i ≡ some x
        → i < p.next_index
        → (is_running i p.running ≡ true) ⊎ (p.results i ≡ some (mapper x i))
    busy : p.rejected ≡ false → p.next_index < length items → 1 ≤ length p.running

module _ {ℓ κ} {T : Type ℓ} {R : Type κ} (items : List T) (mapper : T → ℕ → R) where
  start_pool-IsOnTrack :
      (concurrency : ℕ) → IsOnTrack items mapper (start_pool items mapper concurrency)
  unfolding start_pool
  start_pool-IsOnTrack concurrency =
      let worker_count = min (max 1 concurrency) (length items) in
      record {
        covered =
            λ _ i x _ h. inl (is_running-indices i 0 worker_count (omega arith) (omega (arith, h)));
        busy = λ _ h. (let count = length-indices 0 worker_count in ground (arith, h, count));
      }

  results_with_self :
      (i : ℕ) (results : ℕ → Option R) (x : T)
      → get_elem? items i ≡ some x
      → results_with items mapper i results i ≡ some (mapper x i)
  unfolding results_with
  results_with_self i results x e = rw (results_with, e) (ground arith)

  results_with_other :
      (i j : ℕ) (results : ℕ → Option R)
      → (j == i) ≡ false
      → results_with items mapper i results j ≡ results j
  unfolding results_with
  results_with_other i j results d = elim (Option-cases (get_elem? items i)) [
    | inl e ↦ rw (results_with, e)
    | inr (x, e) ↦ rw (results_with, e, d)
  ]

  -- What is known of an index.
  IsCovered : List ℕ → (ℕ → Option R) → ℕ → T → Type κ
  IsCovered running results i x = (is_running i running ≡ true) ⊎ (results i ≡ some (mapper x i))

  ended-IsCovered :
      (i j : ℕ) (x : T) (running : List ℕ) (results : ℕ → Option R)
      → get_elem? items j ≡ some x
      → IsCovered running results j x
      → IsCovered (end_call i running) (results_with items mapper i results) j x
  unfolding IsCovered
  ended-IsCovered i j x running results e c = elim (Bool-cases (j == i)) [
    | inl k ↦
        let same : j ≡ i = ground (arith, k) in
        inr (rw same (results_with_self i results x (rw same at e)))
    | inr d ↦ elim c [
      | inl r ↦ inl (is_running-end_call j i running d r)
      | inr r ↦ inr (rw (results_with_other i j results d) r)
    ]
  ]

  -- A worker takes the next index, where all that are taken are covered.
  taken-IsOnTrack :
      (p : Pool R)
      → (p.rejected ≡ false
          → (i : ℕ) (x : T) → get_elem? items i ≡ some x
          → i < p.next_index
          → IsCovered p.running p.results i x)
      → IsOnTrack items mapper (take_next items mapper p)
  unfolding take_next IsCovered
  taken-IsOnTrack p c =
      if-both (IsOnTrack items mapper) (ltb p.next_index (length items))
        (λ _. record {
          covered = λ calm i x e h. more i (c calm i x e) h;
          busy = λ _ _. omega (arith, length-append p.running (p.next_index ∷ []));
        })
        (λ done. record { covered = c; busy = λ _ h. absurd (ground (arith, done, h)) })
    where
      more :
          (i : ℕ) {x : T}
          → (i < p.next_index → IsCovered p.running p.results i x)
          → i < p.next_index + 1
          → IsCovered (p.running ++ p.next_index ∷ []) p.results i x
      more i before h = elim (Bool-cases (p.next_index == i)) [
        | inl k ↦ inl (rw (is_running-append i p.next_index p.running) (ground (arith, k)))
        | inr d ↦ elim (before (ground (arith, d, h))) [
          | inl r ↦ inl (rw (is_running-append i p.next_index p.running) (ground (arith, r)))
          | inr r ↦ inr r
        ]
      ]

  pool_step-IsOnTrack :
      (e : Ending) (p : Pool R)
      → IsOnTrack items mapper p
      → IsOnTrack items mapper (pool_step items mapper e p)
  unfolding pool_step IsCovered
  pool_step-IsOnTrack (resolves i) p t =
      if-both (IsOnTrack items mapper) (is_running i p.running)
        (λ _.
          taken-IsOnTrack
            (record p {
              running = end_call i p.running;
              results = results_with items mapper i p.results;
            })
            (λ calm j x e h. ended-IsCovered i j x p.running p.results e (t.covered calm j x e h)))
        (λ _. t)
  pool_step-IsOnTrack (rejects i) p t =
      if-both (IsOnTrack items mapper) (is_running i p.running)
        (λ _. record { covered = λ h. absurd (cc h); busy = λ h. absurd (cc h) }) (λ _. t)

  pool_run-IsOnTrack :
      (es : List Ending) (p : Pool R)
      → IsOnTrack items mapper p
      → IsOnTrack items mapper (pool_run items mapper es p)
  unfolding pool_run
  pool_run-IsOnTrack [] p t = t
  pool_run-IsOnTrack (e ∷ es) p t =
      pool_run-IsOnTrack es (pool_step items mapper e p) (pool_step-IsOnTrack e p t)

  -- In whatever order the mapper's calls end: when none is left, and none has been rejected, the result
  -- at each index is the mapper's for the item of that index.
  pub pool_run-results :
      (concurrency : ℕ) (es : List Ending) (i : ℕ) (x : T)
      → let p = pool_run items mapper es (start_pool items mapper concurrency) in
        p.rejected ≡ false
        → p.running ≡ []
        → get_elem? items i ≡ some x
        → p.results i ≡ some (mapper x i)
  pool_run-results concurrency es i x calm over e =
      let p = pool_run items mapper es (start_pool items mapper concurrency) in
      let t : IsOnTrack items mapper p =
        pool_run-IsOnTrack es (start_pool items mapper concurrency)
          (start_pool-IsOnTrack concurrency) in
      elim (Bool-cases (ltb p.next_index (length items))) [
        | inl more ↦
            absurd (omega (arith, t.busy calm (ground (arith, more)), length_none p.running over))
        | inr done ↦ elim (t.covered calm i x e (ground (arith, done, get_elem?-lt items i e))) [
          | inl r ↦ absurd (cc (is_running-none i, rw over at r))
          | inr r ↦ r
        ]
      ]
