-- ===== src/Queue/Lifecycle/History.antt =====
-- Histories of calls of the driver. A call that throws leaves the database as it was: it is one
-- statement, or a transaction that is rolled back.
use nodestack.Prelude.{
  ℕ, String, List, [], ◌∷◌, Option, Outcome, ok, throw, Ensures, returns, throws,
}
use nodestack.Prelude.Int.{ℤ}
use nodestack.Json.{Json}
use nodestack.Queue.Types.{CreateQueue, EnqueueMessage, Db, empty_db}
use nodestack.Queue.Driver.Registry.{upsert_queue, delete_queue}
use nodestack.Queue.Driver.Insert.{send, send_batch}
use nodestack.Queue.Driver.Claim.{claim}
use nodestack.Queue.Driver.Lease.{touch, complete, defer}
use nodestack.Queue.Driver.Fail.{fail, force_dead_letter}
use nodestack.Queue.Driver.Retry.{retry_message, retry_dead_letter_messages}
use nodestack.Queue.Driver.Reclaim.{Scope, reclaim_orphaned}
use nodestack.Queue.Driver.Remove.{cancel, cleanup, purge}
use nodestack.Queue.Lifecycle.Table.{IsConsistent}
use nodestack.Queue.Lifecycle.Inserts.{insert_message-IsConsistent, send_batch-IsConsistent}
use nodestack.Queue.Lifecycle.Holders.{
  touch-IsConsistent, complete-IsConsistent, defer-IsConsistent, fail-IsConsistent,
  force_dead_letter-IsConsistent,
}
use nodestack.Queue.Lifecycle.Reclaims.{reclaim_orphaned-IsConsistent}
use nodestack.Queue.Lifecycle.Returns.{
  retry_message-IsConsistent, retry_dead_letter_messages-IsConsistent,
}
use nodestack.Queue.Lifecycle.Claims.{claim-IsConsistent}
use nodestack.Queue.Lifecycle.Queues.{
  cancel-IsConsistent, cleanup-IsConsistent, purge-IsConsistent, upsert_queue-IsConsistent,
  delete_queue-IsConsistent,
}

-- The calls that write. The clock and the random source are part of a call.
pub data Call : Type 0 where
  upserts : ℕ → CreateQueue → Call
  deletes_queue : String → Call
  sends : ℕ → String → EnqueueMessage → Call
  sends_batch : ℕ → (ℕ → String) → List EnqueueMessage → Call
  claims : ℕ → (ℕ → String) → (queue worker : String) → (visibility limit : ℤ) → Call
  touches : ℕ → String → ℕ → Option String → Call
  completes : ℕ → String → Option Json → Option String → Call
  fails : ℕ → (fresh id error : String) → Option ℤ → Option String → Call
  force_skips : ℕ → (fresh id reason : String) → Call
  cancels : String → Call
  defers : ℕ → String → ℤ → Option String → Call
  retries : ℕ → (fresh id : String) → Call
  retries_dead : ℕ → (ℕ → String) → String → ℤ → Call
  reclaims : ℕ → (ℕ → String) → Option String → Scope → Call
  cleans : ℕ → ℤ → Option String → Call
  purges : String → Option String → Call

abbrev pub db_of {ℓ} : {A : Type ℓ} → (A → Db) → Db → Outcome A → Db
db_of result db (ok a) = result a
db_of result db (throw e) = db

unfoldable pub step : Db → Call → Db
step db (upserts now dto) = (upsert_queue now dto db).1
step db (deletes_queue name) = (delete_queue name db).1
step db (sends now fresh dto) = db_of (λ r. r.1) db (send now fresh dto db)
step db (sends_batch now ids dtos) = db_of (λ r. r.1) db (send_batch now ids 0 dtos db)
step db (claims now tokens queue worker visibility limit) =
    db_of (λ r. r.1) db (claim now tokens queue worker visibility limit db)
step db (touches now id extension token) = db_of (λ r. r.1) db (touch now id extension token db)
step db (completes now id result token) = (complete now id result token db).1
step db (fails now fresh id error delay token) =
    db_of (λ r. r.1) db (fail now fresh id error delay token db)
step db (force_skips now fresh id reason) =
    db_of (λ r. r.1) db (force_dead_letter now fresh id reason db)
step db (cancels id) = (cancel id db).1
step db (defers now id delay reason) = db_of (λ r. r.1) db (defer now id delay reason db)
step db (retries now fresh id) = db_of (λ r. r.2) db (retry_message now fresh id db)
step db (retries_dead now ids queue limit) =
    db_of (λ r. r.2) db (retry_dead_letter_messages now ids queue limit db)
step db (reclaims now ids queue scope) =
    db_of (λ r. r.2) db (reclaim_orphaned now ids queue scope db)
step db (cleans now days queue) = db_of (λ r. r.1) db (cleanup now days queue db)
step db (purges queue status) = (purge queue status db).1

unfoldable pub run : Db → List Call → Db
run db [] = db
run db (c ∷ cs) = run (step db c) cs

db_of-IsConsistent {ℓ} :
    {A : Type ℓ} (result : A → Db) (db : Db) (m : Outcome A)
    → IsConsistent db
    → Ensures (λ a. IsConsistent (result a)) m
    → IsConsistent (db_of result db m)
db_of-IsConsistent result db m c (returns a e h) = rw e h
db_of-IsConsistent result db m c (throws x e) = rw e c

pub step-IsConsistent : (db : Db) (c : Call) → IsConsistent db → IsConsistent (step db c)
unfolding step send
step-IsConsistent db (upserts now dto) i = upsert_queue-IsConsistent now dto db i
step-IsConsistent db (deletes_queue name) i = delete_queue-IsConsistent name db i
step-IsConsistent db (sends now fresh dto) i =
    db_of-IsConsistent _ db _ i (insert_message-IsConsistent now fresh dto db i)
step-IsConsistent db (sends_batch now ids dtos) i =
    db_of-IsConsistent _ db _ i (send_batch-IsConsistent now ids 0 dtos db i)
step-IsConsistent db (claims now tokens queue worker visibility limit) i =
    db_of-IsConsistent _ db _ i (claim-IsConsistent now tokens queue worker visibility limit db i)
step-IsConsistent db (touches now id extension token) i =
    db_of-IsConsistent _ db _ i (touch-IsConsistent now id extension token db i)
step-IsConsistent db (completes now id result token) i =
    complete-IsConsistent now id result token db i
step-IsConsistent db (fails now fresh id error delay token) i =
    db_of-IsConsistent _ db _ i (fail-IsConsistent now fresh id error delay token db i)
step-IsConsistent db (force_skips now fresh id reason) i =
    db_of-IsConsistent _ db _ i (force_dead_letter-IsConsistent now fresh id reason db i)
step-IsConsistent db (cancels id) i = cancel-IsConsistent id db i
step-IsConsistent db (defers now id delay reason) i =
    db_of-IsConsistent _ db _ i (defer-IsConsistent now id delay reason db i)
step-IsConsistent db (retries now fresh id) i =
    db_of-IsConsistent _ db _ i (retry_message-IsConsistent now fresh id db i)
step-IsConsistent db (retries_dead now ids queue limit) i =
    db_of-IsConsistent _ db _ i (retry_dead_letter_messages-IsConsistent now ids queue limit db i)
step-IsConsistent db (reclaims now ids queue scope) i =
    db_of-IsConsistent _ db _ i (reclaim_orphaned-IsConsistent now ids queue scope db i)
step-IsConsistent db (cleans now days queue) i =
    db_of-IsConsistent _ db _ i (cleanup-IsConsistent now days queue db i)
step-IsConsistent db (purges queue status) i = purge-IsConsistent queue status db i

run-IsConsistent_from : (db : Db) (cs : List Call) → IsConsistent db → IsConsistent (run db cs)
unfolding run
run-IsConsistent_from db [] i = i
run-IsConsistent_from db (c ∷ cs) i =
    run-IsConsistent_from (step db c) cs (step-IsConsistent db c i)

-- After any history of calls that begins with empty tables, every message has a worker, a lease and
-- a claim token exactly while its status is 'processing', has been tried at least once then, has an
-- end time exactly when its status is neither 'queued' nor 'processing', and, unless its `maxAttempts`
-- is 0, has not been tried more often than that, and less often while it is queued; no two messages
-- have the same id; and the queue of each message has a record.
pub run-IsConsistent : (cs : List Call) → IsConsistent (run empty_db cs)
run-IsConsistent cs =
    run-IsConsistent_from empty_db cs (record { rows = tt; ids = tt; registered = tt })
