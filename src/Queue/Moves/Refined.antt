-- ===== src/Queue/Moves/Refined.antt =====
-- The table of messages as a set of state machines: every call of the driver moves its messages only
-- as its kind may.
use nodestack.Prelude.{
  ℕ, suc, ◌≡◌, refl, String, Bool, true, List, [], ◌∷◌, Option, none, All, Bool-cases, Option-cases,
  inl, inr, Ensures, returns, throws, Outcome, ok-Ensures, throw-Ensures, bind-Ensures, ltb, ◌+◌,
  ◌*◌,
}
use nodestack.Prelude.Int.{ℤ, at_least}
use nodestack.Time.{latest}
use nodestack.Sql.Laws.{All-update_where, All-delete_where}
use nodestack.Queue.Types.{Status, Message, EnqueueMessage, Db}
use nodestack.Queue.Driver.Conditions.{find_message, held}
use nodestack.Queue.Driver.Registry.{upsert_queue, delete_queue}
use nodestack.Queue.Driver.Insert.{send, send_batch}
use nodestack.Queue.Driver.Fail.{may_retry}
use nodestack.Queue.Driver.Retry.{restarted, restart, delete_messages}
use nodestack.Queue.Driver.Reclaim.{
  returned, timed_out, reclaim_one, reclaim_each, reclaim_orphaned,
}
use nodestack.Queue.Driver.Remove.{unlinked, cancel, cleanup, purge}
use nodestack.Queue.Lifecycle.Table.{IsConsistent}
use nodestack.Queue.Lifecycle.Holders.{held-processing}
use nodestack.Queue.Lifecycle.Returns.{retry_message-keeps, retry_dead_letter_messages-keeps}
use nodestack.Queue.Lifecycle.History.{
  Call, db_of, step, upserts, deletes_queue, sends, sends_batch, claims, touches, completes, fails,
  force_skips, cancels, defers, retries, retries_dead, reclaims, cleans, purges,
}
use nodestack.Queue.Moves.{
  Kind, kind, Move, Moves, Stems, passive, adding, retrying, start_again, reclaiming, take_back,
  time_out,
}
use nodestack.Queue.Moves.Rows.{still, moved, members-Stems}
use nodestack.Queue.Moves.Table.{
  AllStem, at_processing, processing-apart, update-Stems, insert_message-Stems, forward-Stems,
}
use nodestack.Queue.Moves.Calls.{
  claim-Stems, touch-Stems, complete-Stems, defer-Stems, fail-Stems, force_dead_letter-Stems,
}

module _ (old : List Message) where
  delete-Stems :
      (k : Kind) (p : Message → Bool) (db : Db)
      → AllStem k old db
      → AllStem k old (delete_messages p db)
  unfolding delete_messages
  delete-Stems k p db h = All-delete_where (Stems k old) p db.messages h

  restart-Stems :
      (now : ℕ) (id : String) (db : Db)
      → AllStem retrying old db
      → AllStem retrying old (restart now id db)
  unfolding restart
  restart-Stems now id db h =
      All-update_where (Stems retrying old) _ _ (λ m _ s. started_again m s) db.messages h
    where
      started_again : (m : Message) → Stems retrying old m → Stems retrying old (restarted now m)
      started_again m (Stems.kept o i e p) = Stems.kept o i e (Moves.then p start_again)
      started_again m (Stems.added a q z) = Stems.added a refl refl

  send_batch-Stems :
      (now : ℕ) (ids : ℕ → String) (k : ℕ) (dtos : List EnqueueMessage) (db : Db)
      → AllStem adding old db
      → Ensures (λ r. AllStem adding old r.1) (send_batch now ids k dtos db)
  unfolding send_batch
  send_batch-Stems now ids k [] db h = ok-Ensures h
  send_batch-Stems now ids k (dto ∷ dtos) db h =
      bind-Ensures (insert_message-Stems adding old refl now (ids k) dto db h)
        λ r h1. bind-Ensures (send_batch-Stems now ids (suc k) dtos r.1 h1) λ s h2. ok-Ensures h2

  reclaim_one-Stems :
      (now : ℕ) (fresh : String) (row : Message) (db : Db)
      → AllStem reclaiming old db
      → Ensures (λ r. AllStem reclaiming old r.1) (reclaim_one now fresh row db)
  unfolding reclaim_one
  reclaim_one-Stems now fresh row db h = elim (Bool-cases (may_retry row)) [
    | inl e ↦ rw e (ok-Ensures (update-Stems reclaiming old _ _ (back) db h))
    | inr e ↦ rw e (
        bind-Ensures
          (forward-Stems reclaiming old refl now fresh _ _ _ row _
            (update-Stems reclaiming old _ _ gone db h))
          λ db' h'. ok-Ensures h')
  ]
    where
      back :
          (m : Message)
          → held row.id none m ≡ true
          → Stems reclaiming old m
          → Stems reclaiming old (returned now m)
      back m p s =
          let busy = held-processing row.id none m p in
          moved (returned now m) m refl
            (at_processing (λ t. Move reclaiming t Status.queued) take_back m.status busy)
            (λ a. processing-apart m.status busy) s

      gone :
          (m : Message)
          → held row.id none m ≡ true
          → Stems reclaiming old m
          → Stems reclaiming old (timed_out now m)
      gone m p s =
          let busy = held-processing row.id none m p in
          moved (timed_out now m) m refl
            (at_processing (λ t. Move reclaiming t Status.dead_letter) time_out m.status busy)
            (λ a. processing-apart m.status busy) s

  reclaim_each-Stems :
      (now : ℕ) (ids : ℕ → String) (k : ℕ) (rows : List Message) (db : Db)
      → AllStem reclaiming old db
      → Ensures (λ r. AllStem reclaiming old r.2) (reclaim_each now ids k rows db)
  unfolding reclaim_each
  reclaim_each-Stems now ids k [] db h = ok-Ensures h
  reclaim_each-Stems now ids k (r ∷ rs) db h =
      bind-Ensures (reclaim_one-Stems now (ids k) r db h)
        λ s h1. bind-Ensures (reclaim_each-Stems now ids (suc k) rs s.1 h1) λ u h2. ok-Ensures h2

  cancel-Stems :
      (id : String) (db : Db) → AllStem passive old db → AllStem passive old (cancel id db).1
  unfolding cancel
  cancel-Stems id db h = elim (Option-cases (find_message id db.messages)) [
    | inl e ↦ rw (e, cancel) h
    | inr (row, e) ↦
        rw (e, cancel)
          (All-update_where (Stems passive old) _ unlinked
            (λ m _ s. still (unlinked m) m refl refl refl s) _
            (delete-Stems passive _ _ (delete-Stems passive _ db h)))
  ]

  cleanup-Stems :
      (now : ℕ) (days : ℤ) (queue : Option String) (db : Db)
      → AllStem passive old db
      → Ensures (λ r. AllStem passive old r.1) (cleanup now days queue db)
  unfolding cleanup
  cleanup-Stems now days queue db h =
      elim (Bool-cases (ltb (now + latest) (at_least 0 days * 86_400_000))) [
        | inl e ↦ rw e throw-Ensures
        | inr e ↦ rw e (ok-Ensures (delete-Stems passive _ db h))
      ]

-- A call that throws leaves every message in its place.
db_of-Stems {ℓ} :
    {A : Type ℓ} (k : Kind) (result : A → Db) (db : Db) (m : Outcome A)
    → Ensures (λ a. AllStem k db.messages (result a)) m
    → AllStem k db.messages (db_of result db m)
db_of-Stems k result db m (returns a e h) = rw e h
db_of-Stems k result db m (throws x e) = rw e (members-Stems k db.messages)

-- With consistent tables, every message after a call is a message from before it, with the same id,
-- queue, group key, payload, limit of attempts, priority, deduplication id, original and creation
-- time, that has made no move but those that the state machine lets the call make; or it is queued
-- and without an attempt, and the call is one that may add messages.
pub step-Stems :
    (db : Db) (c : Call) → IsConsistent db → All (Stems (kind c) db.messages) (step db c).messages
unfolding step send kind upsert_queue delete_queue purge reclaim_orphaned
step-Stems db (upserts now dto) i = members-Stems passive db.messages
step-Stems db (deletes_queue name) i =
    All-delete_where _ _ db.messages (members-Stems passive db.messages)
step-Stems db (sends now fresh dto) i = db_of-Stems adding _ db _ (
    insert_message-Stems adding db.messages refl now fresh dto db
      (members-Stems adding db.messages))
step-Stems db (sends_batch now ids dtos) i =
    db_of-Stems adding _ db _
      (send_batch-Stems db.messages now ids 0 dtos db (members-Stems adding db.messages))
step-Stems db (claims now tokens queue worker visibility limit) i = db_of-Stems _ _ db _ (
    claim-Stems db.messages now tokens queue worker visibility limit db
      (members-Stems _ db.messages))
step-Stems db (touches now id extension token) i =
    db_of-Stems _ _ db _
      (touch-Stems db.messages now id extension token db (members-Stems _ db.messages))
step-Stems db (completes now id result token) i =
    complete-Stems db.messages now id result token db (members-Stems _ db.messages)
step-Stems db (fails now fresh id error delay token) i =
    db_of-Stems _ _ db _
      (fail-Stems db.messages now fresh id error delay token db (members-Stems _ db.messages))
step-Stems db (force_skips now fresh id reason) i =
    db_of-Stems _ _ db _ (force_dead_letter-Stems now fresh id reason db i)
step-Stems db (cancels id) i = cancel-Stems db.messages id db (members-Stems passive db.messages)
step-Stems db (defers now id delay reason) i =
    db_of-Stems _ _ db _
      (defer-Stems db.messages now id delay reason db (members-Stems _ db.messages))
step-Stems db (retries now fresh id) i = db_of-Stems retrying _ db _ (
    retry_message-keeps (AllStem retrying db.messages) (restart-Stems db.messages)
      (delete-Stems db.messages retrying) (insert_message-Stems retrying db.messages refl) now fresh
      id db (members-Stems retrying db.messages))
step-Stems db (retries_dead now ids queue limit) i = db_of-Stems retrying _ db _ (
    retry_dead_letter_messages-keeps (AllStem retrying db.messages) (restart-Stems db.messages)
      (delete-Stems db.messages retrying) (insert_message-Stems retrying db.messages refl) now ids
      queue limit db (members-Stems retrying db.messages))
step-Stems db (reclaims now ids queue scope) i =
    db_of-Stems reclaiming _ db _
      (reclaim_each-Stems db.messages now ids 0 _ db (members-Stems reclaiming db.messages))
step-Stems db (cleans now days queue) i =
    db_of-Stems passive _ db _
      (cleanup-Stems db.messages now days queue db (members-Stems passive db.messages))
step-Stems db (purges queue status) i =
    delete-Stems db.messages passive _ db (members-Stems passive db.messages)
