-- ===== src/Queue/Service/Waking.antt =====
-- What the calls of src/queue/QueueService.ts leave to be done: a drain, or a timer in time.
use nodestack.Prelude.{
  has-add_self, has, ℕ, ◌≤◌, ◌≡◌, refl, inl, inr, String, true, false, Option, none, some, ◌=ₜ◌,
  arith, if◌then◌else◌, if-both, leb, trim, Bool-cases, Outcome, ok, throw, ◌>>=◌, ok-injective,
  subst,
}
use nodestack.Queue.Types.{Message, EnqueueMessage, Db}
use nodestack.Queue.Driver.Insert.{send}
use nodestack.Queue.Service.Wakes.{Wakes, wake_worker, schedule_delayed_at}
use nodestack.Queue.Service.Calls.{Service, is_delayed_dto, waking, scheduling, send_call}

-- The timer is set, at the time or before it.
pub IsTimedBy : ℕ → Option ℕ → Type 0
IsTimedBy target none = ⊥
IsTimedBy target (some t) = t ≤ target

-- A live service that schedules a time has its timer at the earlier of that time and the one before.
pub schedule_delayed_at-timer :
    (target : ℕ) (w : Wakes)
    → w.disposed ≡ false
    → (schedule_delayed_at target w).timer
      ≡ some (elim w.timer [ none ↦ target | some t ↦ if leb t target then t else target ])
unfolding schedule_delayed_at
schedule_delayed_at-timer target w live =
    if-both (λ (v : Wakes). v.timer ≡ some (due w.timer)) w.disposed
      (λ gone. absurd (cc (gone, live))) (λ _. go w.timer refl)
  where
    due : Option ℕ → ℕ
    due timer = elim timer [ none ↦ target | some t ↦ if leb t target then t else target ]

    go :
        (timer : Option ℕ)
        → w.timer ≡ timer
        → (elim timer as (λ _. Wakes) [
          | none ↦ record w { timer = some target }
          | some t ↦ if leb t target then w else record w { timer = some target }
        ]).timer
          ≡ some (due timer)
    go none e = refl
    go (some t) e = elim (Bool-cases (leb t target)) [ inl k ↦ rw k e | inr k ↦ rw k refl ]

pub schedule-IsTimedBy :
    (target : ℕ) (w : Wakes)
    → w.disposed ≡ false
    → IsTimedBy target (schedule_delayed_at target w).timer
unfolding IsTimedBy
schedule-IsTimedBy target w live = rw (schedule_delayed_at-timer target w live) (at_most w.timer)
  where
    at_most :
        (timer : Option ℕ)
        → IsTimedBy target
            (some (elim timer [ none ↦ target | some t ↦ if leb t target then t else target ]))
    at_most none = omega arith
    at_most (some t) = ground arith

-- After a wake the queue is pending.
pub wake_worker-pending :
    (q : String) (w : Wakes) → w.disposed ≡ false → has q (wake_worker q w).pending ≡ true
unfolding wake_worker
wake_worker-pending q w live =
    if-both (λ (v : Wakes). has q v.pending ≡ true) w.disposed (λ gone. absurd (cc (gone, live)))
      (λ _.
        if-both (λ (v : Wakes). has q v.pending ≡ true) (has q w.pending) (λ there. there)
          (λ _. has-add_self q w.pending))

-- What a send leaves to be done for the message that it gives.
pub IsPrompted : EnqueueMessage → Message × Service → Type 0
IsPrompted dto (m, s) =
    if is_delayed_dto dto
    then IsTimedBy m.available_at s.wakes.timer
    else (has (trim dto.queue) s.wakes.pending ≡ true)

prompted :
    (dto : EnqueueMessage) (job : Message) (s : Service)
    → s.wakes.disposed ≡ false
    → IsPrompted dto (
      job,
      if is_delayed_dto dto then scheduling job.available_at s else waking (trim dto.queue) s,
    )
unfolding IsPrompted
prompted dto job s live = elim (Bool-cases (is_delayed_dto dto)) [
  | inl later ↦ rw later (schedule-IsTimedBy job.available_at s.wakes live)
  | inr at_once ↦ rw at_once (wake_worker-pending (trim dto.queue) s.wakes live)
]

-- A live service that has sent a message has its queue pending, or, if the message was to be delayed,
-- has its timer at the time from which the message can be claimed or before it.
send_call-wakes :
    (now : ℕ) (fresh : String) (dto : EnqueueMessage) (s s' : Service) (m : Message)
    → s.wakes.disposed ≡ false
    → send_call now fresh dto s ≡ ok (m, s')
    → IsPrompted dto (m, s')
unfolding send_call
send_call-wakes now fresh dto s s' m live e = elim (Bool-cases (trim dto.queue =ₜ "")) [
  | inl blank ↦ absurd (cc (rw blank at e))
  | inr named ↦ go (send now fresh (record dto { queue = trim dto.queue }) s.db) (rw named at e)
]
  where
    answer : Message × Db → Outcome (Message × Service)
    answer (job, db) =
        let s1 : Service = record s { db = db } in
        ok (
          job,
          if is_delayed_dto dto then scheduling job.available_at s1 else waking (trim dto.queue) s1,
        )

    go : (r : Outcome (Message × Db)) → (r >>= answer) ≡ ok (m, s') → IsPrompted dto (m, s')
    go (throw x) h = absurd (cc h)
    go (ok (job, db)) h =
        subst (IsPrompted dto) (ok-injective h) (prompted dto job (record s { db = db }) live)

-- A wake leaves the timer as it is.
pub wake_worker-timer : (q : String) (w : Wakes) → (wake_worker q w).timer ≡ w.timer
unfolding wake_worker
wake_worker-timer q w =
    if-both (λ (v : Wakes). v.timer ≡ w.timer) w.disposed (λ _. refl)
      (λ _. if-both (λ (v : Wakes). v.timer ≡ w.timer) (has q w.pending) (λ _. refl) (λ _. refl))

-- A live service that schedules a time stays live.
pub schedule-live :
    (target : ℕ) (w : Wakes) → w.disposed ≡ false → (schedule_delayed_at target w).disposed ≡ false
unfolding schedule_delayed_at
schedule-live target w live =
    if-both (λ (v : Wakes). v.disposed ≡ false) w.disposed (λ _. live) (λ _. go w.timer)
  where
    go :
        (timer : Option ℕ)
        → (elim timer as (λ _. Wakes) [
          | none ↦ record w { timer = some target }
          | some t ↦ if leb t target then w else record w { timer = some target }
        ]).disposed
          ≡ false
    go none = live
    go (some t) = if-both (λ (v : Wakes). v.disposed ≡ false) (leb t target) (λ _. live) (λ _. live)
