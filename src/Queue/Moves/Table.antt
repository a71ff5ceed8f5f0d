-- ===== src/Queue/Moves/Table.antt =====
-- What the statements of the driver do to where the messages stem from.
use nodestack.Prelude.{ℕ, ◌≡◌, refl, String, Bool, true, false, List, Option, All, Ensures}
use nodestack.Sql.Laws.{All-update_where}
use nodestack.Queue.Types.{
  Status, queued, processing, completed, dead_letter, is_queued, is_processing, Message,
  EnqueueMessage, Db,
}
use nodestack.Queue.Driver.Lease.{update_messages}
use nodestack.Queue.Driver.Fail.{forward_if_configured, forwarded_as}
use nodestack.Queue.Driver.Insert.{insert_message}
use nodestack.Queue.Lifecycle.RowWise.{insert_message-All, forward_if_configured-All}
use nodestack.Queue.Moves.{Kind, adds, Stems}
use nodestack.Queue.Moves.Rows.{still, new_row-Stems}

-- All rows of the database stem from the old ones.
abbrev pub AllStem : Kind → List Message → Db → Type 0
AllStem k old db = All (Stems k old) db.messages

pub at_processing :
    (P : Status → Type 0) → P processing → (s : Status) → is_processing s ≡ true → P s
at_processing P p processing h = p
at_processing P p queued h = absurd (cc h)
at_processing P p completed h = absurd (cc h)
at_processing P p Status.failed h = absurd (cc h)
at_processing P p dead_letter h = absurd (cc h)

pub at_queued : (P : Status → Type 0) → P queued → (s : Status) → is_queued s ≡ true → P s
at_queued P p queued h = p
at_queued P p processing h = absurd (cc h)
at_queued P p completed h = absurd (cc h)
at_queued P p Status.failed h = absurd (cc h)
at_queued P p dead_letter h = absurd (cc h)

-- Nothing is in process and queued at once.
pub processing-apart : (s : Status) → is_processing s ≡ true → is_queued s ≡ false
processing-apart s h = at_processing (λ t. is_queued t ≡ false) refl s h

pub update-Stems :
    (k : Kind) (old : List Message) (p : Message → Bool) (f : Message → Message)
    → ((m : Message) → p m ≡ true → Stems k old m → Stems k old (f m))
    → (db : Db) → AllStem k old db
    → AllStem k old (update_messages p f db).1
unfolding update_messages
update-Stems k old p f step db h = All-update_where (Stems k old) p f step db.messages h

-- A link to a copy leaves a message where it is.
forwarded_as-Stems :
    (k : Kind) (old : List Message) (copy : String) (m : Message)
    → Stems k old m
    → Stems k old (forwarded_as copy m)
forwarded_as-Stems k old copy m h = still (forwarded_as copy m) m refl refl refl h

pub insert_message-Stems :
    (k : Kind) (old : List Message)
    → adds k ≡ true
    → (now : ℕ) (fresh : String) (dto : EnqueueMessage) (db : Db) → AllStem k old db
    → Ensures (λ r. AllStem k old r.1) (insert_message now fresh dto db)
insert_message-Stems k old a now fresh dto db h =
    insert_message-All (Stems k old) (new_row-Stems k old a) (forwarded_as-Stems k old) now fresh
      dto db h

pub forward-Stems :
    (k : Kind) (old : List Message)
    → adds k ≡ true
    → (now : ℕ) (fresh : String) (dlq : Option String) (error : String) (attempts : ℕ)
      (row : Message) (db : Db)
    → AllStem k old db
    → Ensures (AllStem k old) (forward_if_configured now fresh dlq error attempts row db)
forward-Stems k old a now fresh dlq error attempts row db h =
    forward_if_configured-All (Stems k old) (new_row-Stems k old a) (forwarded_as-Stems k old) now
      fresh dlq error attempts row db h
