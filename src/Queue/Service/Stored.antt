-- ===== src/Queue/Service/Stored.antt =====
-- What the calls of src/queue/QueueService.ts do to the database is what some calls of the driver do.
use nodestack.Prelude.{
  ℕ, All, All-append, ◌≡◌, refl, sym, ap, ◌∙◌, String, Bool, List, [], ◌∷◌, ◌++◌, Option, if-both,
  Outcome, ok, throw, ◌>>=◌, leb, Option-cases, inl, inr,
}
use nodestack.Queue.Types.{Message, FailResult, Db, or_null}
use nodestack.Queue.Lifecycle.History.{Call, db_of, step, run}
use nodestack.Queue.Driver.Registry.{get_queue}
use nodestack.Queue.Driver.Reads.{get_message, get_next_delayed_timestamp}
use nodestack.Queue.Service.Calls.{
  Service, is_db_available, wake_after_fail, wake_pending_queues_from_storage,
  schedule_next_delayed_wake,
}
use nodestack.Queue.Service.Forwards.{quietly}

-- Calls of the driver, all of a kind, make the second database of the first.
unfoldable pub Reaches : (Call → Type 0) → Db → Db → Type 0
Reaches P before after = (cs : List Call) × All P cs × (run before cs ≡ after)

pub run-append : (db : Db) (cs ds : List Call) → run db (cs ++ ds) ≡ run (run db cs) ds
unfolding run
run-append db [] ds = refl
run-append db (c ∷ cs) ds = run-append (step db c) cs ds

module _ (P : Call → Type 0) where
  pub Reaches-none : (db : Db) → Reaches P db db
  unfolding Reaches run
  Reaches-none db = ([], tt, refl)

  pub Reaches-one : (db : Db) (c : Call) → P c → Reaches P db (step db c)
  unfolding Reaches run
  Reaches-one db c p = (c ∷ [], (p, tt), refl)

  pub Reaches-both : (db db1 db2 : Db) → Reaches P db db1 → Reaches P db1 db2 → Reaches P db db2
  unfolding Reaches
  Reaches-both db db1 db2 (cs, p, e) (ds, q, f) =
      (cs ++ ds, All-append P cs ds p q, run-append db cs ds ∙ ap (λ x. run x ds) e ∙ f)

  -- A call that goes on after the driver's without the database.
  pub Reaches-outcome :
      {A B : Type 0} (result : A → Db) (s : Service) (c : Call) (m : Outcome A)
      (f : A → Outcome (B × Service))
      → P c
      → step s.db c ≡ db_of result s.db m
      → ((a : A) → (quietly s (f a)).db ≡ result a)
      → Reaches P s.db (quietly s (m >>= f)).db
  Reaches-outcome result s c (ok a) f p e k = rw (k a ∙ sym e) (Reaches-one s.db c p)
  Reaches-outcome result s c (throw x) f p e k = Reaches-none s.db

-- A service with the same database.
abbrev pub SameDb : Service → Service → Type 0
SameDb s t = t.db ≡ s.db

-- The wakes and the timer do not change the database.
pub wake_pending-SameDb :
    (available : Bool) (now : ℕ) (s : Service)
    → SameDb s (wake_pending_queues_from_storage available now s)
unfolding wake_pending_queues_from_storage
wake_pending-SameDb available now s =
    if-both (SameDb s) (is_db_available available s) (λ _. refl) (λ _. refl)

pub schedule_next-SameDb :
    (available : Bool) (now : ℕ) (queue : Option String) (s : Service)
    → SameDb s (schedule_next_delayed_wake available now queue s)
unfolding schedule_next_delayed_wake
schedule_next-SameDb available now queue s =
    if-both (SameDb s) (is_db_available available s)
      (λ _. elim (Option-cases (get_next_delayed_timestamp now queue s.db)) [
        | inl e ↦ rw e refl
        | inr (t, e) ↦ rw e refl
      ])
      (λ _. refl)

pub wake_after_fail-SameDb :
    (now : ℕ) (id : String) (job : Option Message) (result : FailResult) (s : Service)
    → SameDb s (wake_after_fail now id job result s)
unfolding wake_after_fail
wake_after_fail-SameDb now id job result s =
    if-both (SameDb s) result.retried
      (λ _. elim (Option-cases (get_message id s.db)) [
        | inl e ↦ rw e refl
        | inr (m, e) ↦ rw e (if-both (SameDb s) (leb m.available_at now) (λ _. refl) (λ _. refl))
      ])
      (λ _.
        if-both (SameDb s) result.dead_lettered
          (λ _. elim (Option-cases job) [
            | inl e ↦ rw e refl
            | inr (m, e) ↦ elim (Option-cases (get_queue m.queue s.db)) [
              | inl g ↦ rw (e, g) refl
              | inr (q, g) ↦ elim (Option-cases (or_null q.dead_letter_queue)) [
                | inl d ↦ rw (e, g, d) refl
                | inr (dlq, d) ↦ rw (e, g, d) refl
              ]
            ]
          ])
          (λ _. refl))
