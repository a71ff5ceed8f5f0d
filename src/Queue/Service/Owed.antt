-- ===== src/Queue/Service/Owed.antt =====
-- The queues of src/queue/QueueService.ts of which a drain is still to come.
use nodestack.Prelude.{
  has-cons, has-append_more, has-append_self, has-remove_self, has-add_self, has-add_other,
  has-remove_other, has-remove_one_other, has, add, remove, remove_one, ℕ, String, ◌≡◌, refl, ◌⊎◌,
  Option, none, some, Bool, true, false, List, ◌∷◌, not, ◌&&◌, ◌||◌, ◌=ₜ◌, arith, if◌then◌else◌,
  if-both, leb, Bool-cases, inl, inr, &&-eq-true,
}
use nodestack.Queue.Service.Wakes.{
  Wakes, wake_worker, begin_drain, begins, end_drain, schedule_delayed_at,
}
use nodestack.Queue.Service.Awake.{IsAwake, IsAwake-watched, IsAwake-pending, same_queue}

-- A drain of the queue is still to come.
unfoldable pub IsOwed : String → Wakes → Type 0
IsOwed q s =
    ((has q s.immediates || (has q s.pending && has q s.running)) ≡ true) × (s.disposed ≡ false)

-- What the state has of the queue it keeps.
unfoldable pub Keeps : String → Wakes → Wakes → Type 0
Keeps q s t =
    (has q s.immediates ≡ true → has q t.immediates ≡ true)
    × (has q s.pending ≡ true → has q t.pending ≡ true)
    × (has q s.running ≡ true → has q t.running ≡ true)
    × (s.disposed ≡ false → t.disposed ≡ false)

Keeps-refl : (q : String) (s : Wakes) → Keeps q s s
unfolding Keeps
Keeps-refl q s = (λ h. h, λ h. h, λ h. h, λ h. h)

Keeps-trans : (q : String) (s t u : Wakes) → Keeps q s t → Keeps q t u → Keeps q s u
unfolding Keeps
Keeps-trans q s t u (i, p, r, d) (i', p', r', d') =
    (λ h. i' (i h), λ h. p' (p h), λ h. r' (r h), λ h. d' (d h))

pub Keeps-IsOwed : (q : String) (s t : Wakes) → Keeps q s t → IsOwed q s → IsOwed q t
unfolding Keeps IsOwed
Keeps-IsOwed q s t (i, p, r, d) (h, live) = (
  elim (Bool-cases (has q s.immediates)) [
    | inl e ↦ (let there = i e in ground (arith, there))
    | inr e ↦
        let both : (has q s.pending && has q s.running) ≡ true = ground (arith, h, e) in
        let (a, b) = &&-eq-true (has q s.pending) (has q s.running) both in
        let pending = p a in let running = r b in ground (arith, pending, running)
  ],
  d live,
)

has-add_more : (q r : String) (xs : List String) → has q xs ≡ true → has q (add r xs) ≡ true
has-add_more q r xs h = elim (Bool-cases (r =ₜ q)) [
  | inl e ↦ rw (same_queue r q e) (has-add_self q xs)
  | inr d ↦ rw (has-add_other q r xs d) h
]

pub wake_worker-Keeps : (q r : String) (s : Wakes) → Keeps q s (wake_worker r s)
unfolding Keeps wake_worker
wake_worker-Keeps q r s =
    if-both (Keeps q s) s.disposed (λ _. Keeps-refl q s)
      (λ _.
        if-both (Keeps q s) (has r s.pending) (λ _. Keeps-refl q s)
          (λ _. (has-append_more q r s.immediates, has-add_more q r s.pending, λ h. h, λ h. h)))

begin_drain-Keeps :
    (available : Bool) (q r : String) (s : Wakes) → Keeps q s (begin_drain available r s)
unfolding Keeps begin_drain
begin_drain-Keeps available q r s =
    if-both (Keeps q s) (s.disposed || not available) (λ _. Keeps-refl q s)
      (λ _.
        if-both (Keeps q s) (has r s.draining)
          (λ _. (λ h. h, has-add_more q r s.pending, λ h. h, λ h. h))
          (λ _. (λ h. h, λ h. h, has-append_more q r s.running, λ h. h)))

pub schedule-Keeps : (q : String) (t : ℕ) (s : Wakes) → Keeps q s (schedule_delayed_at t s)
unfolding Keeps schedule_delayed_at
schedule-Keeps q t s = if-both (Keeps q s) s.disposed (λ _. Keeps-refl q s) (λ _. go s.timer)
  where
    go :
        (timer : Option ℕ)
        → Keeps q s (elim timer [
          | none ↦ record s { timer = some t }
          | some u ↦ if leb u t then s else record s { timer = some t }
        ])
    go none = Keeps-refl q s
    go (some u) = if-both (Keeps q s) (leb u t) (λ _. Keeps-refl q s) (λ _. Keeps-refl q s)

-- After a wake of a queue that is not pending, a drain of it is to come.
wake_worker-IsOwed :
    (q : String) (s : Wakes)
    → s.disposed ≡ false
    → has q s.pending ≡ false
    → IsOwed q (wake_worker q s)
unfolding IsOwed wake_worker
wake_worker-IsOwed q s live new =
    if-both (IsOwed q) s.disposed (λ gone. absurd (cc (gone, live)))
      (λ _.
        if-both (IsOwed q) (has q s.pending) (λ there. absurd (cc (there, new)))
          (λ _. (rw (has-append_self q s.immediates) refl, live)))

pending-IsOwed : (q : String) (s : Wakes) → IsAwake s → has q s.pending ≡ true → IsOwed q s
unfolding IsOwed
pending-IsOwed q s inv there =
    let (watched, live) = IsAwake-pending q s inv there in (ground (arith, watched, there), live)

-- After any wake a drain is to come.
pub wake_worker-owes :
    (q : String) (s : Wakes) → IsAwake s → s.disposed ≡ false → IsOwed q (wake_worker q s)
wake_worker-owes q s inv live = elim (Bool-cases (has q s.pending)) [
  | inr new ↦ wake_worker-IsOwed q s live new
  | inl there ↦
      Keeps-IsOwed q s (wake_worker q s) (wake_worker-Keeps q q s) (pending-IsOwed q s inv there)
]

-- A drain of another queue ends.
pub end_drain-Keeps_other :
    (q r : String) (s : Wakes) → (r =ₜ q) ≡ false → Keeps q s (end_drain r s)
unfolding Keeps end_drain
end_drain-Keeps_other q r s d =
    if-both (Keeps q s) (not (has r s.running)) (λ _. Keeps-refl q s)
      (λ _.
        if-both (Keeps q s) (has r s.pending && not s.disposed)
          (λ _.
            Keeps-trans q s (ended_with (remove r s.pending))
              (wake_worker r (ended_with (remove r s.pending)))
              (ended (remove r s.pending) (λ h. rw (has-remove_other q r s.pending d) h))
              (wake_worker-Keeps q r (ended_with (remove r s.pending))))
          (λ _. ended s.pending (λ h. h)))
  where
    ended_with : List String → Wakes
    ended_with left = record s {
      pending = left;
      running = remove_one r s.running;
      draining = remove r s.draining;
    }

    ended :
        (left : List String)
        → (has q s.pending ≡ true → has q left ≡ true)
        → Keeps q s (ended_with left)
    ended left keeps = (λ h. h, keeps, λ h. rw (has-remove_one_other q r s.running d) h, λ h. h)

-- A drain of the queue ends.
pub end_drain-IsOwed : (q : String) (s : Wakes) → IsOwed q s → IsOwed q (end_drain q s)
unfolding IsOwed end_drain
end_drain-IsOwed q s (h, live) =
    if-both (IsOwed q) (not (has q s.running)) (λ _. (h, live))
      (λ _.
        if-both (IsOwed q) (has q s.pending && not s.disposed)
          (λ again. wake_worker-IsOwed q _ live (has-remove_self q s.pending))
          (λ quiet. (ground (arith, h, quiet, live), live)))

-- The oldest callback is for another queue.
pub fire-Keeps_other :
    (available : Bool) (q r : String) (later : List String) (s : Wakes)
    → s.immediates ≡ r ∷ later
    → (r =ₜ q) ≡ false
    → Keeps q s
        (begin_drain available r (record s { pending = remove r s.pending; immediates = later }))
unfolding Keeps
fire-Keeps_other available q r later s e d =
    let taken = record s { pending = remove r s.pending; immediates = later } in
    Keeps-trans q s taken (begin_drain available r taken)
      (
        λ h. (let there = rw e at h in ground (arith, has-cons q r later, d, there)),
        λ h. rw (has-remove_other q r s.pending d) h,
        λ h. h,
        λ h. h,
      )
      (begin_drain-Keeps available q r taken)

-- The oldest callback is for the queue: a drain begins, or one is running that will look again.
pub fire_self :
    (q : String) (later : List String) (s : Wakes)
    → IsAwake s
    → s.disposed ≡ false
    → let t = record s { pending = remove q s.pending; immediates = later } in
      (begins true q t ≡ true) ⊎ IsOwed q (begin_drain true q t)
unfolding IsOwed begin_drain
fire_self q later s inv live = elim (Bool-cases (has q s.draining)) [
  | inr idle ↦ inl (ground (arith, idle, live))
  | inl busy ↦ inr (
      if-both (IsOwed q) (s.disposed || false) (λ gone. absurd (ground (arith, gone, live)))
        (λ _.
          if-both (IsOwed q) (has q s.draining)
            (λ _.
              (let running = IsAwake-watched q s inv busy in
                let pending = has-add_self q (remove q s.pending) in
                (ground (arith, running, pending), live)))
            (λ idle. absurd (cc (idle, busy)))))
]
