-- ===== src/Queue/Service/Served.antt =====
-- The public calls of src/queue/QueueService.ts as calls of the driver.
use nodestack.Prelude.{
  ℕ, true, arith, &&-eq-true, ◌≡◌, refl, ◌=ₜ◌, String, Bool, false, List, Option, none, some, not,
  ltb, if◌then◌else◌, if-both, Error, Outcome, ok, throw, trim, Option-cases, inl, inr, or_default,
}
use nodestack.Prelude.Int.{ℤ, pos}
use nodestack.Json.{Json}
use nodestack.Queue.Types.{CreateQueue, EnqueueMessage, Db, or_null}
use nodestack.Queue.Lifecycle.History.{
  Call, step, upserts, deletes_queue, sends, sends_batch, claims, touches, completes, fails,
  force_skips, cancels, defers, retries, retries_dead, reclaims, cleans, purges,
}
use nodestack.Queue.Driver.Insert.{send, send_batch}
use nodestack.Queue.Driver.Claim.{claim}
use nodestack.Queue.Driver.Lease.{touch, complete, defer}
use nodestack.Queue.Driver.Fail.{fail, force_dead_letter}
use nodestack.Queue.Driver.Retry.{retry_message, retry_dead_letter_messages}
use nodestack.Queue.Driver.Reclaim.{Scope, reclaim_orphaned}
use nodestack.Queue.Driver.Remove.{cleanup}
use nodestack.Queue.Driver.Reads.{get_message}
use nodestack.Queue.Service.Calls.{
  Service, is_allowed, is_db_available, is_delayed_dto, waking, upsert_queue_call,
  delete_queue_call, send_call, send_batch_call, complete_call, fail_call, force_skip_message,
  retry_dead_letter_messages_call, retry_message_call, reclaim_orphaned_call,
}
use nodestack.Queue.Service.Workers.{register_worker}
use nodestack.Queue.Service.Forwards.{
  quietly, claim_call, touch_call, cancel_call, defer_call, cleanup_call, purge_call,
}
use nodestack.Queue.Service.Stored.{
  Reaches, Reaches-none, Reaches-one, Reaches-outcome, wake_pending-SameDb, wake_after_fail-SameDb,
}

-- The database is there only if it says so.
pub there : (s : Service) (available : Bool) → is_db_available available s ≡ true → available ≡ true
unfolding is_db_available
there s available e = (&&-eq-true (not s.wakes.disposed) available e).1

pub there_not :
    (s : Service) (available : Bool) → not (is_db_available available s) ≡ false → available ≡ true
there_not s available e = there s available (ground (arith, e))

module _ (P : Call → Type 0) where
  -- The call leaves the database as calls of the driver do.
  abbrev pub IsServed {ℓ} : {A : Type ℓ} → Service → Outcome (A × Service) → Type 0
  IsServed s m = Reaches P s.db (quietly s m).db

  abbrev HasDb : Db → Service → Type 0
  HasDb db t = t.db ≡ db

  refused :
      (s : Service) (c : Bool) {A : Type 0} (e : Error) (m : Outcome (A × Service))
      → IsServed s m
      → IsServed s (if c then throw e else m)
  refused s c e m h = if-both (IsServed s) c (λ _. Reaches-none P s.db) (λ _. h)

  pub upsert_queue-IsServed :
      (now : ℕ) (dto : CreateQueue) (s : Service)
      → P (upserts now (record dto { name = trim dto.name }))
      → IsServed s (upsert_queue_call now dto s)
  unfolding upsert_queue_call step
  upsert_queue-IsServed now dto s p =
      let name = trim dto.name in
      let written = Reaches-one P s.db (upserts now (record dto { name = name })) p in
      refused s (name =ₜ "") _ _ (
        refused s (not (is_allowed (pos 0) dto.concurrency)) _ _ (
          refused s (not (is_allowed (pos 0) dto.max_attempts)) _ _ (
            refused s (not (is_allowed (pos 1) dto.visibility_timeout_seconds)) _ _ (
              refused s (not (is_allowed (pos 0) dto.backoff_delay_ms)) _ _
                (if-both (λ (t : Service). Reaches P s.db t.db) _ (λ _. written) (λ _. written))))))

  pub delete_queue-Reaches :
      (name : String) (s : Service)
      → P (deletes_queue name)
      → Reaches P s.db (delete_queue_call name s).1.db
  unfolding delete_queue_call step
  delete_queue-Reaches name s p = Reaches-one P s.db (deletes_queue name) p

  pub register_worker-Reaches :
      (available : Bool) (now : ℕ) (name : String) (options : Option CreateQueue) (s : Service)
      → ((dto : CreateQueue)
          → options ≡ some dto
          → available ≡ true
          → P (upserts now (record dto { name = name })))
      → Reaches P s.db (register_worker available now name options s).db
  unfolding register_worker step
  register_worker-Reaches available now name none s p = Reaches-none P s.db
  register_worker-Reaches available now name (some dto) s p =
      if-both (λ (t : Service). Reaches P s.db t.db) (is_db_available available s)
        (λ e.
          Reaches-one P s.db (upserts now (record dto { name = name }))
            (p dto refl (there s available e)))
        (λ _. Reaches-none P s.db)

  pub send-IsServed :
      (now : ℕ) (fresh : String) (dto : EnqueueMessage) (s : Service)
      → ((trim dto.queue =ₜ "") ≡ false
          → P (sends now fresh (record dto { queue = trim dto.queue })))
      → IsServed s (send_call now fresh dto s)
  unfolding send_call step
  send-IsServed now fresh dto s p =
      let queue = trim dto.queue in
      if-both (IsServed s) (queue =ₜ "") (λ _. Reaches-none P s.db)
        (λ given.
          Reaches-outcome P (λ r. r.1) s (sends now fresh (record dto { queue = queue }))
            (send now fresh (record dto { queue = queue }) s.db) _ (p given) refl
            (λ r. if-both (HasDb r.1) (is_delayed_dto dto) (λ _. refl) (λ _. refl)))

  pub send_batch-IsServed :
      (now : ℕ) (ids : ℕ → String) (dtos : List EnqueueMessage) (s : Service)
      → P (sends_batch now ids dtos)
      → IsServed s (send_batch_call now ids dtos s)
  unfolding send_batch_call step
  send_batch-IsServed now ids dtos s p =
      Reaches-outcome P (λ r. r.1) s (sends_batch now ids dtos) (send_batch now ids 0 dtos s.db) _ p
        refl (λ r. refl)

  pub claim-IsServed :
      (now : ℕ) (tokens : ℕ → String) (queue worker : String) (visibility limit : ℤ) (s : Service)
      → P (claims now tokens queue worker visibility limit)
      → IsServed s (claim_call now tokens queue worker visibility limit s)
  unfolding claim_call step
  claim-IsServed now tokens queue worker visibility limit s p =
      Reaches-outcome P (λ r. r.1) s (claims now tokens queue worker visibility limit)
        (claim now tokens queue worker visibility limit s.db) _ p refl (λ r. refl)

  -- A call that does nothing without the database.
  guarded :
      (s : Service) (available : Bool) {A : Type 0} (a : A) (m : Outcome (A × Service))
      → (available ≡ true → IsServed s m)
      → IsServed s (if is_db_available available s then m else ok (a, s))
  guarded s available a m h =
      if-both (IsServed s) (is_db_available available s) (λ e. h (there s available e))
        (λ _. Reaches-none P s.db)

  pub touch-IsServed :
      (available : Bool) (now : ℕ) (id : String) (extension : ℕ) (token : Option String)
      (s : Service)
      → (available ≡ true → P (touches now id extension token))
      → IsServed s (touch_call available now id extension token s)
  unfolding touch_call step
  touch-IsServed available now id extension token s p = guarded s available false _ (λ e.
      Reaches-outcome P (λ r. r.1) s (touches now id extension token)
        (touch now id extension token s.db) _ (p e) refl (λ r. refl))

  pub complete-Reaches :
      (available : Bool) (now : ℕ) (id : String) (result : Option Json) (token : Option String)
      (s : Service)
      → (available ≡ true → P (completes now id result token))
      → Reaches P s.db (complete_call available now id result token s).1.db
  unfolding complete_call step
  complete-Reaches available now id result token s p =
      if-both (λ (r : Bool × Service). Reaches P s.db r.1.db) (not (is_db_available available s))
        (λ _. Reaches-none P s.db)
        (λ on.
          let done =
            Reaches-one P s.db (completes now id result token) (p (there_not s available on)) in
          elim (Option-cases (get_message id s.db)) [
            | inl e ↦ rw e done
            | inr (job, e) ↦ rw e (
                if-both (λ (t : Service). Reaches P s.db t.db) (complete now id result token s.db).0
                  (λ _. done) (λ _. done))
          ])

  pub fail-IsServed :
      (available : Bool) (now : ℕ) (fresh id error : String) (delay : Option ℤ)
      (token : Option String) (s : Service)
      → (available ≡ true → P (fails now fresh id error delay token))
      → IsServed s (fail_call available now fresh id error delay token s)
  unfolding fail_call step
  fail-IsServed available now fresh id error delay token s p = guarded s available _ _ (λ e.
      Reaches-outcome P (λ r. r.1) s (fails now fresh id error delay token)
        (fail now fresh id error delay token s.db) _ (p e) refl
        (λ r. wake_after_fail-SameDb now id (get_message id s.db) r.0 (record s { db = r.1 })))

  told-HasDb :
      (dlq : Option String) (w : Service) → HasDb w.db (elim dlq [ none ↦ w | some d ↦ waking d w ])
  told-HasDb none w = refl
  told-HasDb (some d) w = refl

  pub skip-IsServed :
      (available : Bool) (now : ℕ) (fresh id reason : String) (s : Service)
      → (available ≡ true → P (force_skips now fresh id reason))
      → IsServed s (force_skip_message available now fresh id reason s)
  unfolding force_skip_message step
  skip-IsServed available now fresh id reason s p = elim (Option-cases (get_message id s.db)) [
    | inl e ↦ rw (e, force_skip_message) (Reaches-none P s.db)
    | inr (m, e) ↦
        rw (e, force_skip_message)
          (guarded s available false _ (λ on.
            Reaches-outcome P (λ r. r.1) s (force_skips now fresh id reason)
              (force_dead_letter now fresh id reason s.db) _ (p on) refl
              (λ r.
                if-both (HasDb r.1) r.0 (λ _. told-HasDb _ (waking m.queue (record s { db = r.1 })))
                  (λ _. refl))))
  ]

  pub cancel-Reaches :
      (available : Bool) (id : String) (s : Service)
      → (available ≡ true → P (cancels id))
      → Reaches P s.db (cancel_call available id s).1.db
  unfolding cancel_call step
  cancel-Reaches available id s p =
      if-both (λ (r : Bool × Service). Reaches P s.db r.1.db) (is_db_available available s)
        (λ e. Reaches-one P s.db (cancels id) (p (there s available e))) (λ _. Reaches-none P s.db)

  pub defer-IsServed :
      (available : Bool) (now : ℕ) (id : String) (delay : ℤ) (reason : Option String) (s : Service)
      → (available ≡ true → P (defers now id delay reason))
      → IsServed s (defer_call available now id delay reason s)
  unfolding defer_call step
  defer-IsServed available now id delay reason s p = guarded s available false _ (λ e.
      Reaches-outcome P (λ r. r.1) s (defers now id delay reason) (defer now id delay reason s.db) _
        (p e) refl (λ r. refl))

  pub retry_dead-IsServed :
      (now : ℕ) (ids : ℕ → String) (queue : String) (limit : ℤ) (s : Service)
      → P (retries_dead now ids queue limit)
      → IsServed s (retry_dead_letter_messages_call now ids queue limit s)
  unfolding retry_dead_letter_messages_call step
  retry_dead-IsServed now ids queue limit s p =
      Reaches-outcome P (λ r. r.2) s (retries_dead now ids queue limit)
        (retry_dead_letter_messages now ids queue limit s.db) _ p refl
        (λ r. if-both (HasDb r.2) (ltb 0 r.0) (λ _. refl) (λ _. refl))

  pub retry-IsServed :
      (available : Bool) (now : ℕ) (fresh id : String) (s : Service)
      → (available ≡ true → P (retries now fresh id))
      → IsServed s (retry_message_call available now fresh id s)
  unfolding retry_message_call step
  retry-IsServed available now fresh id s p = guarded s available false _ (λ e.
      Reaches-outcome P (λ r. r.2) s (retries now fresh id) (retry_message now fresh id s.db) _
        (p e) refl (λ r. if-both (HasDb r.2) r.0 (λ _. refl) (λ _. refl)))

  pub reclaim-IsServed :
      (available : Bool) (now : ℕ) (ids : ℕ → String) (queue : Option String) (scope : Scope)
      (s : Service)
      → (available ≡ true → P (reclaims now ids queue scope))
      → IsServed s (reclaim_orphaned_call available now ids queue scope s)
  unfolding reclaim_orphaned_call step
  reclaim-IsServed available now ids queue scope s p = guarded s available 0 _ (λ on.
      Reaches-outcome P (λ r. r.2) s (reclaims now ids queue scope)
        (reclaim_orphaned now ids queue scope s.db) _ (p on) refl
        (λ r.
          if-both (HasDb r.2) (ltb 0 r.0)
            (λ _. elim (Option-cases (or_null queue)) [
              | inl e ↦ rw e (wake_pending-SameDb available now (record s { db = r.2 }))
              | inr (q, e) ↦ rw e refl
            ])
            (λ _. refl)))

  pub cleanup-IsServed :
      (available : Bool) (now : ℕ) (retention : ℤ) (days : Option ℤ) (queue : Option String)
      (s : Service)
      → (available ≡ true → P (cleans now (or_default days retention) queue))
      → IsServed s (cleanup_call available now retention days queue s)
  unfolding cleanup_call step
  cleanup-IsServed available now retention days queue s p = guarded s available 0 _ (λ e.
      Reaches-outcome P (λ r. r.1) s (cleans now (or_default days retention) queue)
        (cleanup now (or_default days retention) queue s.db) _ (p e) refl (λ r. refl))

  pub purge-Reaches :
      (available : Bool) (queue : String) (status : Option String) (s : Service)
      → (available ≡ true → P (purges queue status))
      → Reaches P s.db (purge_call available queue status s).1.db
  unfolding purge_call step
  purge-Reaches available queue status s p =
      if-both (λ (r : ℕ × Service). Reaches P s.db r.1.db) (is_db_available available s)
        (λ e. Reaches-one P s.db (purges queue status) (p (there s available e)))
        (λ _. Reaches-none P s.db)
