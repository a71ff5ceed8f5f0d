-- ===== src/Queue/Driver/Remove.antt =====
-- `cancel`, `cleanup`, `purge`.
use nodestack.Prelude.{
  ℕ, ◌+◌, ◌-◌, ◌*◌, String, Bool, true, false, Option, none, some, ◌&&◌, ◌=ₜ◌, ltb, leb,
  if◌then◌else◌, or_default, Outcome, ok, throw, invalid_time,
}
use nodestack.Prelude.Int.{ℤ, at_least}
use nodestack.Time.{iso_le, latest}
use nodestack.Sql.{update_where, changes}
use nodestack.Queue.Types.{Status, queued, processing, status_text, Message, Db, or_null, or_empty}
use nodestack.Queue.Driver.Conditions.{column_is, find_message, pending_copy}
use nodestack.Queue.Driver.Retry.{delete_messages}
use nodestack.Queue.Driver.Reclaim.{in_queue}

abbrev pub unlinked : Message → Message
unlinked m = record m { forwarded_to_message_id = none }

-- The pending copies of a message go with it, and links to it.
unfoldable pub cancel : String → Db → Bool × Db
cancel id db = elim (find_message id db.messages) [
  | none ↦ (false, db)
  | some row ↦
      let db1 = delete_messages (pending_copy (or_empty row.forwarded_to_message_id) id) db in
      let db2 = delete_messages (λ m. m.id =ₜ id) db1 in
      (
        ltb 0 (changes (λ m. m.id =ₜ id) db1.messages),
        record db2 {
          messages =
              update_where (λ m. column_is m.forwarded_to_message_id id) unlinked db2.messages;
        },
      )
]

-- `status IN ('completed', 'failed', 'dead_letter')`
abbrev pub is_finished : Status → Bool
is_finished queued = false
is_finished processing = false
is_finished _ = true

-- COALESCE(finishedAt, updated)
abbrev pub end_time : Message → ℕ
end_time m = or_default m.finished_at m.updated

-- `end <= cutoff`, with `cutoff` a number of milliseconds before now. A cutoff before the epoch is
-- before every time of the database.
unfoldable pub is_stale : ℕ → ℕ → Message → Bool
is_stale now span m = is_finished m.status && leb span now && iso_le (end_time m) (now - span)

unfoldable pub cleanup : ℕ → ℤ → Option String → Db → Outcome (ℕ × Db)
cleanup now days queue db =
    let span = at_least 0 days * 86_400_000 in
    let stale = λ (m : Message). in_queue queue m && is_stale now span m in
    if ltb (now + latest) span
    then throw invalid_time
    else ok (changes stale db.messages, delete_messages stale db)

-- `status = ?`, or all that is not in process
unfoldable pub is_purged : String → Option String → Message → Bool
is_purged queue status m = m.queue =ₜ queue && elim (or_null status) [
  | some s ↦ status_text m.status =ₜ s
  | none ↦ elim m.status [ processing ↦ false | _ ↦ true ]
]

unfoldable pub purge : String → Option String → Db → ℕ × Db
purge queue status db =
    (changes (is_purged queue status) db.messages, delete_messages (is_purged queue status) db)
