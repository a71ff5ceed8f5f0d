-- ===== src/Queue/Lifecycle/Inserts.antt =====
-- Adding messages keeps the invariant: `insertMessageSync`, `send`, `sendBatch`, and the copy in a
-- dead letter queue.
use nodestack.Prelude.{
  suc, ◌=ₜ◌, ℕ, refl, String, List, [], ◌∷◌, Option, none, some, Option-cases, inl, inr, Ensures,
  ok-Ensures, bind-Ensures, bind-any-Ensures,
}
use nodestack.Queue.Types.{Message, EnqueueMessage, Db}
use nodestack.Queue.Driver.Insert.{find_duplicate, due_time, new_row, insert_message, send_batch}
use nodestack.Queue.Driver.Fail.{forwarded_as, forward, forward_if_configured}
use nodestack.Queue.Lifecycle.Row.{new_row-IsValid, forwarded_as-IsValid}
use nodestack.Queue.Lifecycle.Table.{
  IsConsistent, KeepsRow, update_where-IsConsistent, delete_where-IsConsistent,
  ensure_queue-IsConsistent, ensure_queue-registers, insert_row-IsConsistent,
}

pub insert_message-IsConsistent :
    (now : ℕ) (fresh : String) (dto : EnqueueMessage) (db : Db)
    → IsConsistent db
    → Ensures (λ r. IsConsistent r.1) (insert_message now fresh dto db)
unfolding insert_message new_row
insert_message-IsConsistent now fresh dto db c =
    elim (Option-cases (find_duplicate dto db.messages)) [
      | inl e ↦
          rw (e, insert_message)
            (bind-any-Ensures (due_time now dto.delay_seconds) λ at.
              bind-Ensures
                (insert_row-IsConsistent _ _ (new_row-IsValid now fresh at _ dto)
                  (ensure_queue-registers now dto.queue db)
                  (ensure_queue-IsConsistent now dto.queue db c))
                λ db' c'. ok-Ensures c')
      | inr (dup, e) ↦
          rw (e, insert_message) (ok-Ensures (ensure_queue-IsConsistent now dto.queue db c))
    ]

pub send_batch-IsConsistent :
    (now : ℕ) (ids : ℕ → String) (k : ℕ) (dtos : List EnqueueMessage) (db : Db)
    → IsConsistent db
    → Ensures (λ r. IsConsistent r.1) (send_batch now ids k dtos db)
unfolding send_batch
send_batch-IsConsistent now ids k [] db c = ok-Ensures c
send_batch-IsConsistent now ids k (dto ∷ dtos) db c =
    bind-Ensures (insert_message-IsConsistent now (ids k) dto db c) λ r c1.
      bind-Ensures (send_batch-IsConsistent now ids (suc k) dtos r.1 c1) λ s c2. ok-Ensures c2

forwarded_as-KeepsRow : (id copy : String) → KeepsRow (λ m. m.id =ₜ id) (forwarded_as copy)
forwarded_as-KeepsRow id copy = record {
  valid = λ m _ v. forwarded_as-IsValid m v copy;
  same_id = λ m. refl;
  same_queue = λ m. refl;
}

forward-IsConsistent :
    (now : ℕ) (fresh dlq error : String) (attempts : ℕ) (row : Message) (db : Db)
    → IsConsistent db
    → Ensures IsConsistent (forward now fresh dlq error attempts row db)
unfolding forward
forward-IsConsistent now fresh dlq error attempts row db c =
    bind-Ensures (insert_message-IsConsistent now fresh _ _ (delete_where-IsConsistent _ db c))
      λ r c'. ok-Ensures (update_where-IsConsistent (forwarded_as-KeepsRow row.id r.0.id) r.1 c')

pub forward_if_configured-IsConsistent :
    (now : ℕ) (fresh : String) (dlq : Option String) (error : String) (attempts : ℕ) (row : Message)
    (db : Db)
    → IsConsistent db
    → Ensures IsConsistent (forward_if_configured now fresh dlq error attempts row db)
unfolding forward_if_configured
forward_if_configured-IsConsistent now fresh none error attempts row db c = ok-Ensures c
forward_if_configured-IsConsistent now fresh (some dlq) error attempts row db c =
    forward-IsConsistent now fresh dlq error attempts row db c
