-- ===== src/Queue/Driver/Lease.antt =====
-- What the holder of a message does with it: `touch`, `complete`, `defer`.
use nodestack.Prelude.{
  ℕ, ◌+◌, ◌-◌, ◌*◌, String, Bool, false, Option, none, some, ◌&&◌, ◌=ₜ◌, ltb, if◌then◌else◌,
  Outcome, ok, ◌>>=◌,
}
use nodestack.Prelude.Int.{ℤ, at_least}
use nodestack.Json.{Json}
use nodestack.Time.{to_iso}
use nodestack.Sql.{update_where, changes}
use nodestack.Queue.Types.{Status, is_processing, is_unfinished, Message, Db, or_null}
use nodestack.Queue.Driver.Conditions.{find_message, token_ok, held}
use nodestack.Queue.Driver.Claim.{is_strict}

-- UPDATE _queue_messages SET … WHERE …, and whether it changed a row.
unfoldable pub update_messages : (Message → Bool) → (Message → Message) → Db → Bool × Db
update_messages p f db =
    (ltb 0 (changes p db.messages), record db { messages = update_where p f db.messages })

-- The columns that a message loses with its lease.
abbrev pub released : Message → Message
released m = record m { claimed_by = none; lease_expires_at = none; claim_token = none }

abbrev pub touched : ℕ → ℕ → Message → Message
touched now expires m = record m { lease_expires_at = some expires; updated = now }

unfoldable pub touch : ℕ → String → ℕ → Option String → Db → Outcome (Bool × Db)
touch now id extension token db = do
  expires ← to_iso (now + extension * 1000)
  ok (update_messages (held id token) (touched now expires) db)

-- `strictOrder` of the queue that the message is in
abbrev pub in_strict_queue : String → Db → Bool
in_strict_queue id db = elim (find_message id db.messages) [
  | none ↦ false
  | some m ↦ is_strict m.queue db
]

-- `id = ? AND status IN (…)`: in a strict queue only a message that is being processed.
abbrev pub completable : String → Option String → Bool → Message → Bool
completable id token strict m =
    m.id =ₜ id
    && (if strict then is_processing m.status else is_unfinished m.status)
    && token_ok token m

abbrev pub finished : Status → ℕ → Option String → Message → Message
finished status now error m = record (released m) {
  status = status;
  error = error;
  updated = now;
  finished_at = some now;
}

abbrev pub completed_with : ℕ → Option Json → Message → Message
completed_with now result m = record (finished Status.completed now none m) { result = result }

unfoldable pub complete : ℕ → String → Option Json → Option String → Db → Bool × Db
complete now id result token db =
    update_messages (completable id token (in_strict_queue id db)) (completed_with now result) db

-- `status = 'queued'` again, with the lease and the attempt taken back.
abbrev pub deferred : ℕ → ℕ → Option String → Message → Message
deferred now available_at reason m = record (released m) {
  status = Status.queued;
  attempts = m.attempts - 1;
  error = or_null reason;
  available_at = available_at;
  updated = now;
}

unfoldable pub defer : ℕ → String → ℤ → Option String → Db → Outcome (Bool × Db)
defer now id delay reason db = do
  available_at ← to_iso (now + at_least 0 delay)
  ok (update_messages (held id none) (deferred now available_at reason) db)
