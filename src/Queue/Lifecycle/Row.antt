-- ===== src/Queue/Lifecycle/Row.antt =====
-- What holds of one row, and that every assignment of the driver keeps it.
use nodestack.Prelude.{
  Bool, ◌||◌, ◌==◌, ltb, leb, if◌then◌else◌, ℕ, ◌≤◌, ◌≡◌, String, true, Option, some, not, is_some,
  arith,
}
use nodestack.Json.{Json}
use nodestack.Queue.Types.{
  dead_letter, is_queued, is_processing, is_unfinished, Message, EnqueueMessage,
}
use nodestack.Queue.Driver.Insert.{new_row}
use nodestack.Queue.Driver.Claim.{Lease, claimed}
use nodestack.Queue.Driver.Lease.{touched, completed_with, finished, deferred}
use nodestack.Queue.Driver.Fail.{may_retry, requeued, forwarded_as}
use nodestack.Queue.Driver.Retry.{restarted}
use nodestack.Queue.Driver.Reclaim.{returned, timed_out}
use nodestack.Queue.Driver.Remove.{unlinked}

-- The attempts of a message are within its limit, if it has one, and below it while the message is
-- queued.
abbrev pub is_within : Message → Bool
is_within m =
    m.max_attempts == 0
    || (if is_queued m.status then ltb m.attempts m.max_attempts else leb m.attempts m.max_attempts)

-- A message has a worker, a lease and a token exactly while it is being processed, has been tried
-- then, has an end exactly when it is finished, and has not been tried more often than it may be.
pub record IsValid (m : Message) : Type 0 where
  pub worker : is_some m.claimed_by ≡ is_processing m.status
  pub lease : is_some m.lease_expires_at ≡ is_processing m.status
  pub token : is_some m.claim_token ≡ is_processing m.status
  pub ended : is_some m.finished_at ≡ not (is_unfinished m.status)
  pub tried : is_processing m.status ≡ true → 1 ≤ m.attempts
  pub within : is_within m ≡ true

pub new_row-IsValid :
    (now : ℕ) (fresh : String) (available_at most : ℕ) (dto : EnqueueMessage)
    → IsValid (new_row now fresh available_at most dto)
unfolding new_row
new_row-IsValid now fresh available_at most dto = ground arith

module _ (m : Message) (v : IsValid m) where
  pub claimed-IsValid :
      (now : ℕ) (l : Lease) → is_queued m.status ≡ true → IsValid (claimed now l m)
  claimed-IsValid now l h = ground arith

  pub touched-IsValid :
      (now expires : ℕ) → is_processing m.status ≡ true → IsValid (touched now expires m)
  touched-IsValid now expires h = ground arith

  pub completed_with-IsValid :
      (now : ℕ) (result : Option Json) → IsValid (completed_with now result m)
  completed_with-IsValid now result = ground arith

  pub buried-IsValid :
      (now : ℕ) (error : String) → IsValid (finished dead_letter now (some error) m)
  buried-IsValid now error = ground arith

  pub deferred-IsValid :
      (now at : ℕ) (reason : Option String)
      → is_processing m.status ≡ true
      → IsValid (deferred now at reason m)
  deferred-IsValid now at reason h = ground arith

  pub requeued-IsValid :
      (now at : ℕ) (error : String)
      → is_processing m.status ≡ true
      → may_retry m ≡ true
      → IsValid (requeued now at error m)
  requeued-IsValid now at error h r = ground arith

  pub forwarded_as-IsValid : (copy : String) → IsValid (forwarded_as copy m)
  forwarded_as-IsValid copy = ground arith

  pub restarted-IsValid : (now : ℕ) → IsValid (restarted now m)
  restarted-IsValid now = ground arith

  pub returned-IsValid :
      (now : ℕ) → is_processing m.status ≡ true → may_retry m ≡ true → IsValid (returned now m)
  returned-IsValid now h r = ground arith

  pub timed_out-IsValid : (now : ℕ) → IsValid (timed_out now m)
  timed_out-IsValid now = ground arith

  pub unlinked-IsValid : IsValid (unlinked m)
  unlinked-IsValid = ground arith
