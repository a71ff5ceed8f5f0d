-- ===== src/Queue/Service/Awake.antt =====
-- No wake of src/queue/QueueService.ts is left without someone to act on it.
use nodestack.Prelude.{
  has-cons, add-cases, remove-cases, has-append_more, has-append, has-append_self,
  has-remove_one_other, has, remove, remove_one, ℕ, String, ◌≡◌, Option, none, some, refl, ◌⊎◌,
  if-both, Bool, true, false, List, [], ◌∷◌, ◌++◌, not, ◌&&◌, ◌||◌, ◌=ₜ◌, arith, Bool-cases, inl,
  inr, eq_iff, leb, if◌then◌else◌,
}
use nodestack.Queue.Service.Wakes.{
  Wakes, no_wakes, wake_worker, begin_drain, fire_immediate, end_drain, forget_queue,
  schedule_delayed_at, timer_fired, started, restored, disposed_of, Event, step, run,
}

-- A pending queue has a callback or a running drain that will look at it, a queue that is marked as
-- being drained has a running drain, and a disposed service has no pending queue.
pub IsAwakeFor : Wakes → String → Type 0
IsAwakeFor s q =
    (has q s.pending ≡ true → (has q s.immediates || has q s.running) ≡ true)
    × (has q s.draining ≡ true → has q s.running ≡ true)
    × (has q s.pending ≡ true → s.disposed ≡ false)

pub IsAwake : Wakes → Type 0
IsAwake s = (q : String) → IsAwakeFor s q

pub same_queue : (r q : String) → (r =ₜ q) ≡ true → r ≡ q
same_queue r q e = (eq_iff r q).0 e

or_right : (a b : Bool) → b ≡ true → (a || b) ≡ true
or_right a b h = ground (arith, h)

-- What is in one of two lists is in one of them after one has grown.
grown_left :
    (q r : String) (xs ys : List String)
    → (has q xs || has q ys) ≡ true
    → (has q (xs ++ r ∷ []) || has q ys) ≡ true
grown_left q r xs ys h = rw (has-append q r xs) (ground (arith, h))

grown_right :
    (q r : String) (xs ys : List String)
    → (has q xs || has q ys) ≡ true
    → (has q xs || has q (ys ++ r ∷ [])) ≡ true
grown_right q r xs ys h = rw (has-append q r ys) (ground (arith, h))

pub wake_worker-IsAwake : (r : String) (s : Wakes) → IsAwake s → IsAwake (wake_worker r s)
unfolding IsAwake IsAwakeFor wake_worker
wake_worker-IsAwake r s inv q =
    let (a, b, c) = inv q in
    if-both (λ t. IsAwakeFor t q) s.disposed (λ gone. (a, b, c))
      (λ live.
        if-both (λ t. IsAwakeFor t q) (has r s.pending) (λ there. (a, b, c))
          (λ new. (λ h. added a (add-cases q r s.pending h), b, λ h. live)))
  where
    added :
        (has q s.pending ≡ true → (has q s.immediates || has q s.running) ≡ true)
        → (r ≡ q) ⊎ (has q s.pending ≡ true)
        → (has q (s.immediates ++ r ∷ []) || has q s.running) ≡ true
    added a (inl e) = rw (e, has-append_self q s.immediates) refl
    added a (inr h) = grown_left q r s.immediates s.running (a h)

begin_drain-IsAwake :
    (available : Bool) (r : String) (s : Wakes) → IsAwake s → IsAwake (begin_drain available r s)
unfolding IsAwake IsAwakeFor begin_drain
begin_drain-IsAwake available r s inv q =
    let (a, b, c) = inv q in
    if-both (λ t. IsAwakeFor t q) (s.disposed || not available) (λ out. (a, b, c))
      (λ live.
        if-both (λ t. IsAwakeFor t q) (has r s.draining)
          (λ busy. (
            λ h. watched a ((inv r).1 busy) (add-cases q r s.pending h),
            b,
            λ h. ground (arith, live),
          ))
          (λ new. (
            λ h. grown_right q r s.immediates s.running (a h),
            λ h. marked b (add-cases q r s.draining h),
            c,
          )))
  where
    watched :
        (has q s.pending ≡ true → (has q s.immediates || has q s.running) ≡ true)
        → has r s.running ≡ true
        → (r ≡ q) ⊎ (has q s.pending ≡ true)
        → (has q s.immediates || has q s.running) ≡ true
    watched a h (inl e) = or_right (has q s.immediates) (has q s.running) (rw e at h)
    watched a h (inr k) = a k

    marked :
        (has q s.draining ≡ true → has q s.running ≡ true)
        → (r ≡ q) ⊎ (has q s.draining ≡ true)
        → has q (s.running ++ r ∷ []) ≡ true
    marked b (inl e) = rw e (has-append_self q s.running)
    marked b (inr h) = has-append_more q r s.running (b h)

-- The oldest callback is taken, and its queue is no longer pending.
taken-IsAwake :
    (r : String) (later : List String) (s : Wakes)
    → s.immediates ≡ r ∷ later
    → IsAwake s
    → IsAwake (record s { pending = remove r s.pending; immediates = later })
unfolding IsAwake IsAwakeFor
taken-IsAwake r later s e inv q =
    let (a, b, c) = inv q in
    (
      λ h. (let (d, k) = remove-cases q r s.pending h in rest q d (rw e at a k)),
      b,
      λ h. c (remove-cases q r s.pending h).1,
    )
  where
    rest :
        (q : String)
        → (r =ₜ q) ≡ false
        → (has q (r ∷ later) || has q s.running) ≡ true
        → (has q later || has q s.running) ≡ true
    rest q d h = ground (arith, has-cons q r later, d, h)

fire_immediate-IsAwake :
    (available : Bool) (s : Wakes) → IsAwake s → IsAwake (fire_immediate available s)
unfolding fire_immediate
fire_immediate-IsAwake available s inv = go s.immediates refl
  where
    go :
        (l : List String)
        → s.immediates ≡ l
        → IsAwake (elim l [
          | [] ↦ s
          | q ∷ later ↦
              begin_drain available q
                (record s { pending = remove q s.pending; immediates = later })
        ])
    go [] e = inv
    go (q ∷ later) e = begin_drain-IsAwake available q _ (taken-IsAwake q later s e inv)

-- The drain is over, and the pending queues are some of the others that were pending.
ended-IsAwake :
    (r : String) (left : List String) (s : Wakes)
    → ((q : String) → has q left ≡ true → ((r =ₜ q) ≡ false) × (has q s.pending ≡ true))
    → IsAwake s
    → IsAwake (record s {
      pending = left;
      running = remove_one r s.running;
      draining = remove r s.draining;
    })
unfolding IsAwake IsAwakeFor
ended-IsAwake r left s others inv q =
    let (a, b, c) = inv q in
    (
      λ h. (let (d, k) = others q h in rw (has-remove_one_other q r s.running d) (a k)),
      λ h.
          (let (d, k) = remove-cases q r s.draining h in
            rw (has-remove_one_other q r s.running d) (b k)),
      λ h. c (others q h).1,
    )

end_drain-IsAwake : (r : String) (s : Wakes) → IsAwake s → IsAwake (end_drain r s)
unfolding IsAwake IsAwakeFor end_drain
end_drain-IsAwake r s inv =
    if-both IsAwake (not (has r s.running)) (λ out. inv)
      (λ there.
        if-both IsAwake (has r s.pending && not s.disposed)
          (λ again.
            wake_worker-IsAwake r _
              (ended-IsAwake r (remove r s.pending) s (λ q. remove-cases q r s.pending) inv))
          (λ quiet. ended-IsAwake r s.pending s (others quiet) inv))
  where
    others :
        (has r s.pending && not s.disposed) ≡ false
        → (q : String) → has q s.pending ≡ true
        → ((r =ₜ q) ≡ false) × (has q s.pending ≡ true)
    others quiet q h = elim (Bool-cases (r =ₜ q)) [
      | inr d ↦ (d, h)
      | inl e ↦
          let there : has r s.pending ≡ true = rw (same_queue r q e) h in
          let live = (inv r).2 there in absurd (cc (rw (there, live) at quiet))
    ]

forget_queue-IsAwake : (r : String) (s : Wakes) → IsAwake s → IsAwake (forget_queue r s)
unfolding IsAwake IsAwakeFor forget_queue
forget_queue-IsAwake r s inv q =
    let (a, b, c) = inv q in
    (
      λ h. a (remove-cases q r s.pending h).1,
      λ h. b (remove-cases q r s.draining h).1,
      λ h. c (remove-cases q r s.pending h).1,
    )

schedule_delayed_at-IsAwake : (t : ℕ) (s : Wakes) → IsAwake s → IsAwake (schedule_delayed_at t s)
unfolding IsAwake IsAwakeFor schedule_delayed_at
schedule_delayed_at-IsAwake t s inv q =
    if-both (λ w. IsAwakeFor w q) s.disposed (λ _. inv q) (λ _. go s.timer)
  where
    go :
        (timer : Option ℕ)
        → IsAwakeFor
            (elim timer [
              | none ↦ record s { timer = some t }
              | some u ↦ if leb u t then s else record s { timer = some t }
            ])
            q
    go none = inv q
    go (some u) = if-both (λ w. IsAwakeFor w q) (leb u t) (λ _. inv q) (λ _. inv q)

started-IsAwake : (s : Wakes) → IsAwake s → IsAwake (started s)
unfolding IsAwake IsAwakeFor started
started-IsAwake s inv q = ((inv q).0, (inv q).1, λ h. refl)

nothing : (q : String) → has q [] ≡ false
unfolding has
nothing q = refl

restored-IsAwake : (s : Wakes) → IsAwake (restored s)
unfolding IsAwake IsAwakeFor restored
restored-IsAwake s q = (λ h. cc (nothing q, h), λ h. cc (nothing q, h), λ h. refl)

disposed_of-IsAwake : (s : Wakes) → IsAwake (disposed_of s)
unfolding IsAwake IsAwakeFor disposed_of
disposed_of-IsAwake s q =
    (λ h. cc (nothing q, h), λ h. cc (nothing q, h), λ h. absurd (cc (nothing q, h)))

pub no_wakes-IsAwake : IsAwake no_wakes
unfolding IsAwake IsAwakeFor
no_wakes-IsAwake q = (λ h. absurd (cc (nothing q, h)), λ h. absurd (cc (nothing q, h)), λ h. refl)

pub step-IsAwake :
    (available : Bool) (e : Event) (s : Wakes) → IsAwake s → IsAwake (step available e s)
unfolding step timer_fired IsAwake IsAwakeFor
step-IsAwake available (Event.wake q) s inv = wake_worker-IsAwake q s inv
step-IsAwake available Event.fire s inv = fire_immediate-IsAwake available s inv
step-IsAwake available (Event.drain_ends q) s inv = end_drain-IsAwake q s inv
step-IsAwake available (Event.delete q) s inv = forget_queue-IsAwake q s inv
step-IsAwake available (Event.schedule t) s inv = schedule_delayed_at-IsAwake t s inv
step-IsAwake available Event.timer_fires s inv = inv
step-IsAwake available Event.start s inv = started-IsAwake s inv
step-IsAwake available Event.restore s inv = restored-IsAwake s
step-IsAwake available Event.dispose s inv = disposed_of-IsAwake s

-- From the first moment on, whatever happens: a pending queue has a callback that has not run yet, or
-- a running drain that will look at it, and a queue that is marked as being drained has a running
-- drain.
pub run-IsAwake : (es : List (Bool × Event)) (s : Wakes) → IsAwake s → IsAwake (run es s)
unfolding run
run-IsAwake [] s inv = inv
run-IsAwake ((available, e) ∷ es) s inv =
    run-IsAwake es (step available e s) (step-IsAwake available e s inv)

-- A queue that is marked as being drained has a running drain.
pub IsAwake-watched :
    (q : String) (s : Wakes) → IsAwake s → has q s.draining ≡ true → has q s.running ≡ true
unfolding IsAwake IsAwakeFor
IsAwake-watched q s inv busy = (inv q).1 busy

pub IsAwake-pending :
    (q : String) (s : Wakes)
    → IsAwake s
    → has q s.pending ≡ true
    → ((has q s.immediates || has q s.running) ≡ true) × (s.disposed ≡ false)
unfolding IsAwake IsAwakeFor
IsAwake-pending q s inv there = ((inv q).0 there, (inv q).2 there)
