-- ===== src/Queue/Service/Worked.antt =====
-- The drains of src/queue/QueueService.ts, and what becomes of their messages, as calls of the driver.
use nodestack.Prelude.{
  ℕ, ◌==◌, ◌≡◌, refl, sym, ◌∙◌, String, Bool, List, [], ◌∷◌, Option, none, some, not, subst,
  if-both, Outcome, ok, throw, ◌>>=◌, or_default,
}
use nodestack.Prelude.Int.{ℤ, pos}
use nodestack.Queue.Types.{Queue, Message, Db, or_null}
use nodestack.Queue.Lifecycle.History.{Call, db_of, step, claims, completes, defers}
use nodestack.Queue.Driver.Registry.{get_queue}
use nodestack.Queue.Driver.Claim.{claim}
use nodestack.Queue.Driver.Lease.{defer}
use nodestack.Queue.Service.Wakes.{end_drain}
use nodestack.Queue.Service.Calls.{Service, is_db_available, fail_call, schedule_next_delayed_wake}
use nodestack.Queue.Service.Drains.{
  Run, returned, rejected, has_worker, drain_limit, drain_body, drain, is_capacity_limit,
  defer_delay, capacity_note, settle_body, settle,
}
use nodestack.Queue.Service.Stored.{
  Reaches, Reaches-none, Reaches-one, Reaches-outcome, SameDb, schedule_next-SameDb,
}
use nodestack.Queue.Service.Served.{there, there_not, IsServed, fail-IsServed}
use nodestack.Queue.Service.Requests.{on_settle}
use nodestack.Queue.Service.Asked.{Asked}

module _ (P : Call → Type 0) where
  -- The service has come to another whose database calls of the driver make of its own.
  unfoldable pub Comes : Service → Service → Type 0
  Comes s t = Reaches P s.db t.db

  pub then_same : (s t u : Service) → Comes s t → SameDb t u → Comes s u
  unfolding Comes
  then_same s t u h e = subst (Reaches P s.db) (sym e) h

  -- A drain has ended with the outcome of its body.
  drained : Service → String → Outcome (List Message × Service) → List Message × Service
  drained s queue m = elim m [
    | ok (jobs, s') ↦ (jobs, record s' { wakes = end_drain queue s'.wakes })
    | throw e ↦ ([], record s { wakes = end_drain queue s.wakes })
  ]

  drained-Comes :
      (s : Service) (m : Outcome (List Message × Service)) (queue : String)
      → IsServed P s m
      → Comes s (drained s queue m).1
  unfolding Comes drained
  drained-Comes s (ok (jobs, s')) queue h = h
  drained-Comes s (throw e) queue h = h

  jobs_scheduled :
      (available : Bool) (now : ℕ) (queue : String) (jobs : List Message) (t : Service)
      → SameDb t
          (elim jobs [ [] ↦ schedule_next_delayed_wake available now (some queue) t | _ ∷ _ ↦ t ])
  jobs_scheduled available now queue [] t = schedule_next-SameDb available now (some queue) t
  jobs_scheduled available now queue (j ∷ jobs) t = refl

  drain_body-IsServed :
      (available : Bool) (now : ℕ) (tokens : ℕ → String) (worker : String) (capacity : Option ℕ)
      (queue : String) (s : Service)
      → ((timeout limit : ℕ) → P (claims now tokens queue worker (pos timeout) (pos limit)))
      → IsServed P s (drain_body available now tokens worker capacity queue s)
  unfolding drain_body step
  drain_body-IsServed available now tokens worker capacity queue s p =
      let config = get_queue queue s.db in
      let limit = drain_limit capacity config in
      let timeout : ℕ = elim config [ none ↦ 30 | some q ↦ q.visibility_timeout_seconds ] in
      if-both (IsServed P s) (not (has_worker queue s)) (λ _. Reaches-none P s.db)
        (λ _.
          if-both (IsServed P s) (limit == 0) (λ _. Reaches-none P s.db)
            (λ _.
              Reaches-outcome P (λ r. r.1) s
                (claims now tokens queue worker (pos timeout) (pos limit))
                (claim now tokens queue worker (pos timeout) (pos limit) s.db) _ (p timeout limit)
                refl (λ r. jobs_scheduled available now queue r.0 (record s { db = r.1 }))))

  pub drain-Comes :
      (available : Bool) (now : ℕ) (tokens : ℕ → String) (worker : String) (capacity : Option ℕ)
      (queue : String) (s : Service)
      → ((timeout limit : ℕ) → P (claims now tokens queue worker (pos timeout) (pos limit)))
      → Comes s (drain available now tokens worker capacity queue s).1
  unfolding drain drained
  drain-Comes available now tokens worker capacity queue s p =
      drained-Comes s (drain_body available now tokens worker capacity queue s) queue
        (drain_body-IsServed available now tokens worker capacity queue s p)

  -- The service after a settling.
  settled : Service → Outcome Service → Service
  settled s m = elim m [ ok s' ↦ s' | throw e ↦ s ]

  settled_fail :
      (s : Service) {A : Type 0} (m : Outcome (A × Service))
      → IsServed P s m
      → Comes s (settled s (m >>= λ r. ok r.1))
  unfolding Comes settled
  settled_fail s (ok (a, s')) h = h
  settled_fail s (throw e) h = h

  settled_defer :
      (s : Service) (c : Call) (m : Outcome (Bool × Db)) (f : Bool × Db → Service)
      → P c
      → step s.db c ≡ db_of (λ r. r.1) s.db m
      → ((r : Bool × Db) → (f r).db ≡ r.1)
      → Comes s (settled s (m >>= λ r. ok (f r)))
  unfolding Comes settled
  settled_defer s c (ok r) f p e k = subst (Reaches P s.db) (e ∙ sym (k r)) (Reaches-one P s.db c p)
  settled_defer s c (throw x) f p e k = Reaches-none P s.db

  settle_body-Comes :
      (available : Bool) (now : ℕ) (fresh queue : String) (job : Message) (config : Option Queue)
      (result : Run) (s : Service)
      → ((c : Call) → Asked available (on_settle now fresh queue job config result) c → P c)
      → Comes s (settled s (settle_body available now fresh job config result s))
  unfolding settle_body step Comes settled
  settle_body-Comes available now fresh queue job config (returned result) s p =
      if-both (λ (t : Service). Reaches P s.db t.db) (is_db_available available s)
        (λ e.
          Reaches-one P s.db (completes now job.id result (or_null job.claim_token))
            (p _ (Asked.settle_completes now fresh queue job config result (there s available e))))
        (λ _. Reaches-none P s.db)
  settle_body-Comes available now fresh queue job config (rejected flagged message) s p =
      let delay = defer_delay config in
      let reason = some (or_default (or_null (some message)) capacity_note) in
      let backoff : Option ℤ = elim config [
        | none ↦ none
        | some q ↦ some (pos q.backoff_delay_ms)
      ] in
      let token = or_null job.claim_token in
      if-both (λ m. Comes s (settled s m)) (not (is_db_available available s))
        (λ _. Reaches-none P s.db)
        (λ on.
          if-both (λ m. Comes s (settled s m)) (is_capacity_limit flagged message)
            (λ full.
              settled_defer s (defers now job.id (pos delay) reason)
                (defer now job.id (pos delay) reason s.db) _
                (p _ (
                  Asked.settle_defers now fresh queue job config flagged message reason
                    (there_not s available on) full))
                refl (λ r. refl))
            (λ no_limit.
              settled_fail s (fail_call available now fresh job.id message backoff token s) (
                fail-IsServed P available now fresh job.id message backoff token s (λ e.
                  p _ (Asked.settle_fails now fresh queue job config flagged message e no_limit)))))

  pub settle-Comes :
      (available : Bool) (now : ℕ) (fresh queue : String) (job : Message) (config : Option Queue)
      (result : Run) (s : Service)
      → ((c : Call) → Asked available (on_settle now fresh queue job config result) c → P c)
      → Comes s (settle available now fresh queue job config result s)
  unfolding settle Comes settled
  settle-Comes available now fresh queue job config result s p =
      let after = settle_body-Comes available now fresh queue job config result s p in
      if-both (λ (t : Service). Reaches P s.db t.db) _ (λ _. after) (λ _. after)
