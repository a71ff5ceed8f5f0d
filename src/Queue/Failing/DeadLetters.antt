-- ===== src/Queue/Failing/DeadLetters.antt =====
-- A failed message with no attempts left is buried, with a copy in the dead letter queue.
use nodestack.Prelude.{ℕ, ◌≡◌, String, Bool, true, false, Option, none, some, ◌=ₜ◌, ◌&&◌}
use nodestack.Prelude.Int.{ℤ}
use nodestack.Sql.{delete_where}
use nodestack.Queue.Types.{dead_letter, is_queued, Message, Db, or_empty}
use nodestack.Queue.Driver.Conditions.{find_queue, find_message, held, pending_copy}
use nodestack.Queue.Driver.Insert.{new_row}
use nodestack.Queue.Driver.Lease.{finished}
use nodestack.Queue.Driver.Fail.{may_retry, dlq_message}

-- The attempts that a message is given where the caller names none.
abbrev pub default_attempts : String → Db → ℕ
default_attempts name db = elim (find_queue name db.queues) [ none ↦ 3 | some q ↦ q.max_attempts ]

-- The row of a copy.
abbrev pub copy_row : ℕ → String → String → String → ℕ → Message → Db → Message
copy_row now fresh dlq error attempts row db =
    new_row now fresh now (default_attempts dlq db) (dlq_message now dlq error attempts row)

module _ (now : ℕ) (fresh dlq error : String) (attempts : ℕ) (row m : Message) (db : Db)
    (found : find_message row.id db.messages ≡ some m) (closed : is_queued m.status ≡ false)
    (absent : find_message fresh db.messages ≡ none) where
  stale : Message → Bool
  stale n = n.queue =ₜ dlq && pending_copy (or_empty row.forwarded_to_message_id) row.id n

  cleaned : Db
  cleaned = record db { messages = delete_where stale db.messages }

module _ (db : Db) (id : String) (token : Option String) (m : Message) (delay : Option ℤ)
    (found : find_message id db.messages ≡ some m) (mine : held id token m ≡ true)
    (spent : may_retry m ≡ false) (now : ℕ) (fresh error : String) where
  buried : Message → Message
  buried = finished dead_letter now (some error)
