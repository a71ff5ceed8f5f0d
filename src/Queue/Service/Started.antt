-- ===== src/Queue/Service/Started.antt =====
-- The start of src/queue/QueueService.ts, its reset, and what its timers do, as calls of the driver.
use nodestack.Prelude.{
  ℕ, ◌≡◌, refl, String, Bool, true, false, List, [], ◌∷◌, none, some, subst, if◌then◌else◌, if-both,
  Outcome, ok, throw,
}
use nodestack.Prelude.Int.{ℤ}
use nodestack.Queue.Types.{Queue, Db}
use nodestack.Queue.Lifecycle.History.{Call, db_of, step, reclaims, cleans}
use nodestack.Queue.Driver.Registry.{get_all_queues}
use nodestack.Queue.Driver.Reclaim.{Scope}
use nodestack.Queue.Driver.Remove.{cleanup}
use nodestack.Queue.Service.Wakes.{started, restored, timer_fired}
use nodestack.Queue.Service.Calls.{
  Service, timer_callback, is_db_available, reclaim_orphaned_call, schedule_next_delayed_wake,
  wake_pending_queues_from_storage,
}
use nodestack.Queue.Service.Start.{
  is_flow_queue, reclaim_queues, start_cleanup, start, reset_after_restore,
}
use nodestack.Queue.Service.Stored.{
  Reaches, Reaches-none, Reaches-one, Reaches-both, wake_pending-SameDb, schedule_next-SameDb,
}
use nodestack.Queue.Service.Served.{there, IsServed, reclaim-IsServed}
use nodestack.Queue.Service.Worked.{Comes, then_same}

module _ (P : Call → Type 0) where
  -- What is done with the service after a call that may throw.
  after_reclaim :
      (s : Service) (m : Outcome (ℕ × Service)) (k : Service → Service)
      → IsServed P s m
      → ((t : Service) → Comes P t (k t))
      → Comes P s (elim m [ ok (_, t) ↦ k t | throw e ↦ s ])
  unfolding Comes
  after_reclaim s (ok (n, t)) k h g = Reaches-both P s.db t.db (k t).db h (g t)
  after_reclaim s (throw e) k h g = h

  reclaim_queues-Comes :
      (available : Bool) (now : ℕ) (ids : String → ℕ → String) (qs : List Queue) (s : Service)
      → ((queue : String)
          → available ≡ true
          → is_flow_queue queue ≡ false
          → P (reclaims now (ids queue) (some queue) Scope.dead_workers))
      → Comes P s (reclaim_queues available now ids qs s)
  unfolding reclaim_queues Comes
  reclaim_queues-Comes available now ids [] s p = Reaches-none P s.db
  reclaim_queues-Comes available now ids (q ∷ qs) s p =
      if-both (λ (t : Service). Reaches P s.db t.db) (is_flow_queue q.name)
        (λ _. reclaim_queues-Comes available now ids qs s p)
        (λ other.
          after_reclaim s
            (reclaim_orphaned_call available now (ids q.name) (some q.name) Scope.dead_workers s)
            (reclaim_queues available now ids qs)
            (reclaim-IsServed P available now (ids q.name) (some q.name) Scope.dead_workers s
              (λ e. p q.name e other))
            (λ t. reclaim_queues-Comes available now ids qs t p))

  cleaned-Comes :
      (s : Service) (c : Call) (m : Outcome (ℕ × Db))
      → P c
      → step s.db c ≡ db_of (λ r. r.1) s.db m
      → Comes P s (elim m [ ok (_, db) ↦ record s { db = db } | throw e ↦ s ])
  unfolding Comes
  cleaned-Comes s c (ok (n, db)) p e = subst (Reaches P s.db) e (Reaches-one P s.db c p)
  cleaned-Comes s c (throw x) p e = Reaches-none P s.db

  start_cleanup-Comes :
      (now : ℕ) (days : ℤ) (s : Service)
      → P (cleans now days none)
      → Comes P s (start_cleanup now days s)
  unfolding start_cleanup step
  start_cleanup-Comes now days s p =
      cleaned-Comes s (cleans now days none) (cleanup now days none s.db) p refl

  -- The wakes at the end of a start.
  woken-Comes :
      (available : Bool) (now : ℕ) (s t : Service)
      → Comes P s t
      → Comes P s (
          schedule_next_delayed_wake available now none
            (wake_pending_queues_from_storage available now t))
  woken-Comes available now s t h =
      let woken = wake_pending_queues_from_storage available now t in
      then_same P s woken (schedule_next_delayed_wake available now none woken)
        (then_same P s t woken h (wake_pending-SameDb available now t))
        (schedule_next-SameDb available now none woken)

  pub start-Comes :
      (available : Bool) (now : ℕ) (ids : String → ℕ → String) (days : ℤ) (s : Service)
      → ((queue : String)
          → available ≡ true
          → is_flow_queue queue ≡ false
          → P (reclaims now (ids queue) (some queue) Scope.dead_workers))
      → (available ≡ true → P (cleans now days none))
      → Comes P s (start available now ids days s)
  unfolding start Comes
  start-Comes available now ids days s p c = woken-Comes available now s _ (ready available c)
    where
      awake : Service
      awake = record s { wakes = started s.wakes }

      reclaimed : Service
      reclaimed = reclaim_queues available now ids (get_all_queues true awake.db) awake

      ready :
          (b : Bool)
          → (b ≡ true → P (cleans now days none))
          → Comes P s (if b then start_cleanup now days reclaimed else awake)
      ready true c =
          Reaches-both P s.db reclaimed.db (start_cleanup now days reclaimed).db
            (reclaim_queues-Comes available now ids (get_all_queues true awake.db) awake p)
            (start_cleanup-Comes now days reclaimed (c refl))
      ready false c = Reaches-none P s.db

  pub reset-Comes :
      (available : Bool) (now : ℕ) (ids : ℕ → String) (s : Service)
      → (available ≡ true → P (reclaims now ids none Scope.force_all))
      → Comes P s (reset_after_restore available now ids s)
  unfolding reset_after_restore Comes
  reset-Comes available now ids s p =
      let awake : Service = record s { wakes = restored s.wakes } in
      let call = reclaim_orphaned_call available now ids none Scope.force_all awake in
      if-both (Comes P s) available
        (λ _. woken-Comes available now s _ (
          after_reset awake call
            (reclaim-IsServed P available now ids none Scope.force_all awake p)))
        (λ _. Reaches-none P s.db)
    where
      after_reset :
          (t : Service) (m : Outcome (ℕ × Service))
          → IsServed P t m
          → Comes P t (elim m [ ok (_, u) ↦ u | throw e ↦ t ])
      after_reset t (ok (n, u)) h = h
      after_reset t (throw e) h = h

  pub timer-Comes :
      (available : Bool) (now : ℕ) (s : Service) → Comes P s (timer_callback available now s)
  unfolding timer_callback Comes
  timer-Comes available now s =
      let fired : Service = record s { wakes = timer_fired s.wakes } in
      if-both (Comes P s) (is_db_available available fired)
        (λ _. woken-Comes available now s fired (Reaches-none P s.db)) (λ _. Reaches-none P s.db)

  -- The sweepers' calls that are left out when the database is not there.
  pub swept-Comes :
      (s : Service) (available : Bool) (t : Service)
      → (available ≡ true → Comes P s t)
      → Comes P s (if is_db_available available s then t else s)
  unfolding Comes
  swept-Comes s available t h =
      if-both (λ (u : Service). Reaches P s.db u.db) (is_db_available available s)
        (λ e. h (there s available e)) (λ _. Reaches-none P s.db)
