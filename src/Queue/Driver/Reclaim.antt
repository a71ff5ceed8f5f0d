-- ===== src/Queue/Driver/Reclaim.antt =====
-- `reclaimOrphaned`: messages whose worker is gone return to the queue or are buried. The callback
-- `onDlqEnqueued` is the list of the queues that it is called with.
use nodestack.Prelude.{
  ℕ, suc, ◌+◌, String, Bool, true, false, List, [], ◌∷◌, ◌++◌, Option, none, some, ◌&&◌, ◌||◌, ◌=ₜ◌,
  if◌then◌else◌, filter, or_default, like, Outcome, ok, ◌>>=◌,
}
use nodestack.Time.{iso_le}
use nodestack.Queue.Types.{queued, dead_letter, is_processing, Message, Db, or_null}
use nodestack.Queue.Driver.Conditions.{find_queue, held}
use nodestack.Queue.Driver.Lease.{update_messages, released}
use nodestack.Queue.Driver.Fail.{attempts_of, may_retry, dlq_of, forward_if_configured}

-- `options`: all messages in process, those of local workers too, or only expired leases.
pub data Scope : Type 0 where
  force_all dead_workers expired_only : Scope

-- `leaseExpiresAt IS NOT NULL AND leaseExpiresAt <= now`
abbrev pub lease_expired : ℕ → Message → Bool
lease_expired now m = elim m.lease_expires_at [ none ↦ false | some t ↦ iso_le t now ]

-- `claimedBy IS NULL OR claimedBy LIKE 'worker_%' OR claimedBy LIKE '%crashed%'`
unfoldable pub is_local_worker : Option String → Bool
is_local_worker none = true
is_local_worker (some w) = like w "worker_%" || like w "%crashed%"

unfoldable pub is_orphaned : Scope → ℕ → Message → Bool
is_orphaned force_all now m = is_processing m.status
is_orphaned dead_workers now m =
    is_processing m.status && (lease_expired now m || is_local_worker m.claimed_by)
is_orphaned expired_only now m = is_processing m.status && lease_expired now m

abbrev pub in_queue : Option String → Message → Bool
in_queue none m = true
in_queue (some q) m = if q =ₜ "" then true else m.queue =ₜ q

abbrev pub reclaim_note : String
reclaim_note = "Visibility timeout expired (orphaned lease reclaimed)"

abbrev pub timeout_error : String
timeout_error = "Max attempts exceeded after visibility timeout"

-- COALESCE(error, …)
abbrev pub with_error : String → Message → Option String
with_error note m = some (or_default m.error note)

abbrev pub returned : ℕ → Message → Message
returned now m = record (released m) {
  status = queued;
  error = with_error reclaim_note m;
  available_at = now;
  updated = now;
}

abbrev pub timed_out : ℕ → Message → Message
timed_out now m = record (released m) {
  status = dead_letter;
  error = with_error timeout_error m;
  updated = now;
  finished_at = some now;
}

-- One round of the loop; `row` is the row as it was selected.
unfoldable pub reclaim_one : ℕ → String → Message → Db → Outcome (List String × Db)
reclaim_one now fresh row db =
    let (_, back) = update_messages (held row.id none) (returned now) db in
    let (_, buried) = update_messages (held row.id none) (timed_out now) db in
    let dlq = dlq_of row (find_queue row.queue db.queues) in
    let told : List String = elim dlq [ none ↦ [] | some q ↦ q ∷ [] ] in
    let bury : Outcome (List String × Db) = (do
      db' ←
          forward_if_configured now fresh dlq (or_default (or_null row.error) timeout_error)
            (attempts_of row) row buried
      ok (told, db')) in
    if may_retry row then ok ([], back) else bury

-- `ids k` is the id that is generated for the k-th row.
unfoldable pub reclaim_each :
    ℕ → (ℕ → String) → ℕ → List Message → Db → Outcome (ℕ × List String × Db)
reclaim_each now ids k [] db = ok (0, [], db)
reclaim_each now ids k (r ∷ rs) db = do
  (told, db1) ← reclaim_one now (ids k) r db
  (count, more, db2) ← reclaim_each now ids (suc k) rs db1
  ok (count + 1, told ++ more, db2)

unfoldable pub reclaim_orphaned :
    ℕ → (ℕ → String) → Option String → Scope → Db → Outcome (ℕ × List String × Db)
reclaim_orphaned now ids queue scope db =
    let orphans = filter (λ m. in_queue queue m && is_orphaned scope now m) db.messages in
    reclaim_each now ids 0 orphans db
