-- ===== src/Queue/Tests/Holders.antt =====
-- Histories of calls, claim tokens and `fail` on a concrete database.
use nodestack.Prelude.{
  ◌⊎◌, inr, ◌<◌, ◌≡◌, refl, true, false, List, [], ◌∷◌, none, some, arith, ok, throw, invalid_time,
}
use nodestack.Prelude.Int.{pos}
use nodestack.Time.{to_iso, latest}
use nodestack.Queue.Types.{Message, Db, empty_db}
use nodestack.Queue.Driver.Conditions.{find_queue, find_message}
use nodestack.Queue.Driver.Claim.{is_due}
use nodestack.Queue.Driver.Lease.{complete, touch, defer, deferred}
use nodestack.Queue.Driver.Fail.{fail, retry_later, no_effect, backoff}
use nodestack.Queue.Lifecycle.History
use nodestack.Queue.Lifecycle.History.{Call, sends, claims, fails, run-IsConsistent}
use nodestack.Queue.Fencing.{stale_token, defer_takes_from_holder}
use nodestack.Queue.Failing.Backoff.{IsWaiting, next_try, fail_retries, fail_due_at_once}
use nodestack.Queue.Lifecycle.Table.{IsConsistent}
use nodestack.Queue.Tests.Stored.{
  busy, endless, stored, apart, stored-IsConsistent, token_of, dto_k,
}

abbrev calls : List Call
calls =
    sends 1 "m1" dto_k
    ∷ claims 10 token_of "a" "v" (pos 30) (pos 1)
    ∷ fails 20 "m2" "m1" "boom" none (some "u")
    ∷ []

run-IsConsistent_example : IsConsistent (History.run empty_db calls)
run-IsConsistent_example = run-IsConsistent calls

stale_token_example :
    (complete 10 "m2" none (some "old") stored ≡ (false, stored))
    × (touch 10 "m2" 30 (some "old") stored ≡ ok (false, stored))
    × (fail 10 "f" "m2" "boom" none (some "old") stored ≡ ok (no_effect, stored))
stale_token_example =
    stale_token stored stored-IsConsistent "m2" "old" busy refl (apart "old" "" refl)
      (λ e. apart "t" "old" refl (cc e)) 10 30 none "f" "boom" none (omega arith)

defer_takes_from_holder_example :
    (db' : Db) × (defer 20 "m2" (pos 50) none stored ≡ ok (true, db'))
    × (find_message "m2" db'.messages ≡ some (deferred 20 70 none busy))
    × (complete 30 "m2" none (some "t") db' ≡ (false, db'))
defer_takes_from_holder_example =
    defer_takes_from_holder stored "m2" "t" busy 20 30 (pos 50) none none stored-IsConsistent refl
      refl (apart "t" "" refl) (omega arith)

fail_retries_example :
    ((db' : Db) × (m' : Message) × (fail 20 "f" "m2" "boom" none (some "t") stored
        ≡ ok (record { retried = true; dead_lettered = false; attempts = 1 }, db'))
      × (find_message "m2" db'.messages ≡ some m')
      × IsWaiting (next_try 20 none (find_queue "a" stored.queues) 1) "boom" busy m')
    ⊎ ((latest < next_try 20 none (find_queue "a" stored.queues) 1)
        × (fail 20 "f" "m2" "boom" none (some "t") stored ≡ throw invalid_time))
fail_retries_example =
    fail_retries stored "m2" (some "t") busy none refl refl (inr (omega arith)) 20 "f" "boom"

-- A delay of a million milliseconds, doubled 39 times, passes the last date.
fail_too_late :
    fail 20 "f" "m4" "boom" (some (pos 1_000_000)) (some "t") stored ≡ throw invalid_time
unfolding fail retry_later backoff to_iso
fail_too_late = refl

fail_due_at_once_example :
    (db' : Db) × (m' : Message) × (fail 20 "f" "m4" "boom" none (some "t") stored
      ≡ ok (record { retried = true; dead_lettered = false; attempts = 40 }, db'))
    × (find_message "m4" db'.messages ≡ some m')
    × (is_due 21 m' ≡ true)
unfolding backoff
fail_due_at_once_example =
    fail_due_at_once stored "m4" (some "t") endless none refl refl refl 20 "f" "boom" (omega arith)
      (omega arith) 21 (omega arith)
