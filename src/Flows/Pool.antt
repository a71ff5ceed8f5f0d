-- ===== src/Flows/Pool.antt =====
-- src/flows/utils/ConcurrencyPool.ts. What the workers do between two `await`s is one step, and the
-- mapper's calls end in any order.
pub mod Indices
pub mod Results
pub mod Ends
use nodestack.Prelude.{
  ℕ, zero, suc, ◌+◌, max, min, Bool, true, false, List, [], ◌∷◌, ◌++◌, Option, none, some, ◌==◌,
  ltb, any, length, if◌then◌else◌,
}

-- `items[index]`
abbrev pub get_elem? {ℓ} : {A : Type ℓ} → List A → ℕ → Option A
get_elem? [] i = none
get_elem? (x ∷ xs) zero = some x
get_elem? (x ∷ xs) (suc i) = get_elem? xs i

-- The shared variables of the workers. `running` are the indices whose mapper call is under way, and
-- `rejected` says that one has been rejected, so that `Promise.all` will be.
pub record Pool {ℓ} (R : Type ℓ) : Type ℓ where
  pub next_index : ℕ
  pub running : List ℕ
  pub results : ℕ → Option R
  pub rejected : Bool

-- `results[index] = …`
abbrev pub store {ℓ} : {R : Type ℓ} → ℕ → R → (ℕ → Option R) → ℕ → Option R
store i r results j = if j == i then some r else results j

-- The indices from one on.
unfoldable pub indices : ℕ → ℕ → List ℕ
indices k zero = []
indices k (suc n) = k ∷ indices (suc k) n

-- The call is under way.
unfoldable pub is_running : ℕ → List ℕ → Bool
is_running i = any (λ j. j == i)

unfoldable pub end_call : ℕ → List ℕ → List ℕ
end_call i [] = []
end_call i (j ∷ js) = let rest = end_call i js in if j == i then js else j ∷ rest

-- A mapper call ends.
pub data Ending : Type 0 where
  resolves rejects : ℕ → Ending

module _ {ℓ κ} {T : Type ℓ} {R : Type κ} (items : List T) (mapper : T → ℕ → R) where
  -- Each of the workers has begun its first call.
  unfoldable pub start_pool : ℕ → Pool R
  start_pool concurrency =
      let worker_count = min (max 1 concurrency) (length items) in
      record {
        next_index = worker_count;
        running = indices 0 worker_count;
        results = λ _. none;
        rejected = false;
      }

  -- The worker takes the next index, if there is one.
  unfoldable pub take_next : Pool R → Pool R
  take_next p =
      if ltb p.next_index (length items)
      then record p { next_index = p.next_index + 1; running = p.running ++ p.next_index ∷ [] }
      else p

  -- The results with that of the mapper for the item of an index.
  unfoldable pub results_with : ℕ → (ℕ → Option R) → ℕ → Option R
  results_with i results = elim (get_elem? items i) [
    | none ↦ results
    | some x ↦ store i (mapper x i) results
  ]

  unfoldable pub pool_step : Ending → Pool R → Pool R
  pool_step (resolves i) p =
      if is_running i p.running
      then take_next
          (record p { running = end_call i p.running; results = results_with i p.results })
      else p
  pool_step (rejects i) p =
      if is_running i p.running
      then record p { running = end_call i p.running; rejected = true }
      else p

  unfoldable pub pool_run : List Ending → Pool R → Pool R
  pool_run [] p = p
  pool_run (e ∷ es) p = pool_run es (pool_step e p)
