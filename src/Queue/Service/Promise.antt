-- ===== src/Queue/Service/Promise.antt =====
-- What `wakeWorker` of src/queue/QueueService.ts promises: that a drain follows.
use nodestack.Prelude.{
  has-remove_other, has, remove, String, ◌≡◌, refl, ◌⊎◌, Bool, true, false, List, [], ◌∷◌, not,
  ◌&&◌, ◌||◌, ◌=ₜ◌, arith, Bool-cases, inl, inr, eq_refl, All,
}
use nodestack.Queue.Service.Wakes.{
  Wakes, wake_worker, begin_drain, begins, fire_immediate, end_drain, forget_queue,
  schedule_delayed_at, timer_fired, started, Event, step, run,
}
use nodestack.Queue.Service.Owed.{
  IsOwed, Keeps, Keeps-IsOwed, wake_worker-Keeps, schedule-Keeps, wake_worker-owes,
  end_drain-Keeps_other, end_drain-IsOwed, fire-Keeps_other, fire_self,
}
use nodestack.Queue.Service.Awake.{IsAwake, wake_worker-IsAwake, step-IsAwake, same_queue}

-- The event begins a drain of the queue.
unfoldable pub serves : String → Bool × Event → Wakes → Bool
serves q (available, Event.fire) s = elim s.immediates [
  | [] ↦ false
  | r ∷ later ↦
      r =ₜ q && begins available r (record s { pending = remove r s.pending; immediates = later })
]
serves q _ s = false

unfoldable pub is_served : String → List (Bool × Event) → Wakes → Bool
is_served q [] s = false
is_served q (e ∷ es) s = serves q e s || is_served q es (step e.0 e.1 s)

-- The service is not disposed or restored, the queue is not deleted, and the database is there when a
-- callback runs.
unfoldable pub is_calm : String → Bool × Event → Bool
is_calm q (available, Event.fire) = available
is_calm q (_, Event.delete r) = not (r =ₜ q)
is_calm q (_, Event.restore) = false
is_calm q (_, Event.dispose) = false
is_calm q _ = true

-- A calm event begins a drain of the queue, or leaves it to come.
step-IsOwed :
    (q : String) (e : Bool × Event) (s : Wakes)
    → IsAwake s
    → is_calm q e ≡ true
    → IsOwed q s
    → (serves q e s ≡ true) ⊎ IsOwed q (step e.0 e.1 s)
unfolding is_calm step serves started timer_fired forget_queue fire_immediate IsOwed Keeps
step-IsOwed q (available, Event.wake r) s inv calm owed =
    inr (Keeps-IsOwed q s (wake_worker r s) (wake_worker-Keeps q r s) owed)
step-IsOwed q (available, Event.fire) s inv calm owed = go s.immediates refl
  where
    go :
        (l : List String)
        → s.immediates ≡ l
        → ((elim l [
          | [] ↦ false
          | r ∷ later ↦
              r =ₜ q
              && begins available r (record s { pending = remove r s.pending; immediates = later })
        ])
            ≡ true)
          ⊎ IsOwed q (elim l [
            | [] ↦ s
            | r ∷ later ↦
                begin_drain available r
                  (record s { pending = remove r s.pending; immediates = later })
          ])
    go [] e = inr owed
    go (r ∷ later) e = elim (Bool-cases (r =ₜ q)) [
      | inr d ↦ inr (
          Keeps-IsOwed q s
            (begin_drain available r
              (record s { pending = remove r s.pending; immediates = later }))
            (fire-Keeps_other available q r later s e d) owed)
      | inl k ↦
          (let same = same_queue r q k in
            rw (same, calm, eq_refl q) (fire_self q later s inv owed.1))
    ]
step-IsOwed q (available, Event.drain_ends r) s inv calm owed = elim (Bool-cases (r =ₜ q)) [
  | inl e ↦ inr (rw (same_queue r q e) (end_drain-IsOwed q s owed))
  | inr d ↦ inr (Keeps-IsOwed q s (end_drain r s) (end_drain-Keeps_other q r s d) owed)
]
step-IsOwed q (available, Event.delete r) s inv calm owed =
    let d : (r =ₜ q) ≡ false = ground (arith, calm) in
    inr (
      Keeps-IsOwed q s (forget_queue r s)
        (λ h. h, λ h. rw (has-remove_other q r s.pending d) h, λ h. h, λ h. h) owed)
step-IsOwed q (available, Event.schedule t) s inv calm owed =
    inr (Keeps-IsOwed q s (schedule_delayed_at t s) (schedule-Keeps q t s) owed)
step-IsOwed q (available, Event.timer_fires) s inv calm owed = inr owed
step-IsOwed q (available, Event.start) s inv calm owed = inr (owed.0, refl)
step-IsOwed q (available, Event.restore) s inv calm owed = absurd (cc calm)
step-IsOwed q (available, Event.dispose) s inv calm owed = absurd (cc calm)

run-IsOwed :
    (q : String) (es : List (Bool × Event)) (s : Wakes)
    → IsAwake s
    → All (λ e. is_calm q e ≡ true) es
    → IsOwed q s
    → (is_served q es s ≡ true) ⊎ IsOwed q (run es s)
unfolding is_served run
run-IsOwed q [] s inv calm owed = inr owed
run-IsOwed q (e ∷ es) s inv (calm, calms) owed = elim (step-IsOwed q e s inv calm owed) [
  | inl now ↦ inl (rw now refl)
  | inr still ↦ elim (run-IsOwed q es (step e.0 e.1 s) (step-IsAwake e.0 e.1 s inv) calms still) [
    | inl later ↦ inl (ground (arith, later))
    | inr ever ↦ inr ever
  ]
]

-- A wake of a queue is never lost, whether it meets a pending queue or a running drain of it: if the
-- service is not disposed or restored, the queue is not deleted, and the database is there whenever a
-- callback runs, then, once no callback and no drain is left, a drain of the queue has begun after
-- the wake.
pub wake_is_served :
    (q : String) (es : List (Bool × Event)) (s : Wakes)
    → IsAwake s
    → s.disposed ≡ false
    → All (λ e. is_calm q e ≡ true) es
    → let woken = wake_worker q s in
      (run es woken).immediates ≡ [] → (run es woken).running ≡ [] → is_served q es woken ≡ true
unfolding IsOwed has
wake_is_served q es s inv live calm none_waits none_runs =
    let woken = wake_worker q s in
    elim (run-IsOwed q es woken (wake_worker-IsAwake q s inv) calm
      (wake_worker-owes q s inv live)) [
        | inl done ↦ done
        | inr (owed, _) ↦ absurd (ground (arith, rw (none_waits, none_runs) at owed))
      ]
