-- ===== src/Flows/Retries.antt =====
-- src/flows/FlowEngine.ts, `executeWithRetry`.
pub mod Limits
use nodestack.Prelude.{
  ℕ, zero, suc, ◌+◌, max, String, Bool, false, not, List, [], ◌∷◌, Option, none, some, ltb,
  if◌then◌else◌, or_default,
}
use nodestack.Prelude.Int.{ℤ, pos, negsuc}
use nodestack.Json.{Json}
use nodestack.Flows.Types.{
  RetryPolicy, CatchPolicy, FlowState, flow_state, task, choice, map_items, loop, parallel, pass,
  wait, succeed, fail,
}
use nodestack.Flows.Errors.{FlowError, cancel_error, find_retry_policy}
use nodestack.Flows.Handlers.{Handled, handled, thrown, Attempt, Counters, execute_handler}

-- `(state as any).retry` and `(state as any).catch`
abbrev pub retry_of : FlowState → List RetryPolicy
retry_of (flow_state b (task f e r retry catch)) = retry
retry_of (flow_state b (map_items p m s i retry catch)) = retry
retry_of (flow_state b (parallel bs retry catch)) = retry
retry_of (flow_state b (choice cs d)) = []
retry_of (flow_state b (loop t c m)) = []
retry_of (flow_state b (pass r)) = []
retry_of (flow_state b (wait s)) = []
retry_of (flow_state b succeed) = []
retry_of (flow_state b (fail e c)) = []

abbrev pub catch_of : FlowState → List CatchPolicy
catch_of (flow_state b (task f e r retry catch)) = catch
catch_of (flow_state b (map_items p m s i retry catch)) = catch
catch_of (flow_state b (parallel bs retry catch)) = catch
catch_of (flow_state b (choice cs d)) = []
catch_of (flow_state b (loop t c m)) = []
catch_of (flow_state b (pass r)) = []
catch_of (flow_state b (wait s)) = []
catch_of (flow_state b succeed) = []
catch_of (flow_state b (fail e c)) = []

-- One round of `executeWithRetry`: the signal before the handler, the handler's call, and the signal
-- before or during the pause.
pub record Try : Type 0 where
  pub aborted_before : Bool
  pub attempt : Attempt
  pub aborted_after : Bool

-- `policy.maxAttempts ?? 3`, 0 if it is negative
abbrev pub limit_of : RetryPolicy → ℕ
limit_of p = elim (or_default p.max_attempts (pos 3)) [ pos m ↦ m | negsuc m ↦ 0 ]

-- `attempt >= (policy.maxAttempts ?? 3)`
abbrev pub is_last : ℕ → RetryPolicy → Bool
is_last n p = not (ltb n (limit_of p))

-- The policy that lets the handler be called again after `n` failures.
unfoldable pub may_try_again : List RetryPolicy → FlowError → ℕ → Bool
unfolding find_retry_policy
may_try_again policies e n = elim (find_retry_policy policies e) [
  | none ↦ false
  | some p ↦ not (is_last n p)
]

-- What the handler's call leads to, with `n` failures if it threw.
unfoldable pub after_attempt :
    (ℕ → Counters → Option (Handled × Counters × ℕ))
    → List RetryPolicy
    → Try
    → ℕ
    → Counters
    → Handled
    → Option (Handled × Counters × ℕ)
unfolding may_try_again
after_attempt again policies t n counters (handled r) = some (handled r, counters, n)
after_attempt again policies t n counters (thrown e) =
    if not (may_try_again policies e n)
    then some (thrown e, counters, n)
    else if t.aborted_after
    then some (thrown (cancel_error "State execution aborted during retry backoff"), counters, n)
    else again n counters

module _ (parse_number : Json → Option ℤ) (name : String) (state : FlowState)
    (payload : Option Json) (tries : ℕ → Try) where
  -- `attempt` is the number of the failures before; `none` says that the fuel ran out. The number of
  -- the handler's calls is given too.
  unfoldable pub execute_with_retry : ℕ → ℕ → Counters → Option (Handled × Counters × ℕ)
  unfolding after_attempt execute_handler
  execute_with_retry zero attempt counters = none
  execute_with_retry (suc fuel) attempt counters =
      let t = tries attempt in
      let (result, counters') =
        execute_handler parse_number name state payload t.attempt counters in
      let next =
        after_attempt (execute_with_retry fuel) (retry_of state) t (attempt + 1) counters' result in
      if t.aborted_before
      then some (thrown (cancel_error "State execution aborted"), counters, attempt)
      else next

-- The most attempts that a policy allows: the fuel of `executeWithRetry` is one more.
unfoldable pub retry_limit : List RetryPolicy → ℕ
retry_limit [] = 0
retry_limit (p ∷ ps) = max (limit_of p) (retry_limit ps)
