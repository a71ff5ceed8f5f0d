-- ===== src/Queue/Lifecycle/Returns.antt =====
-- Messages that come back keep the invariant: `retryMessage`, `retryDeadLetterMessages`,
-- `reclaimOrphaned`.
use nodestack.Prelude.{
  ℕ, suc, refl, String, Bool, true, false, List, [], ◌∷◌, Option, none, some, ◌=ₜ◌, ◌&&◌, ltb,
  Bool-cases, Option-cases, inl, inr, Ensures, ok-Ensures, bind-Ensures, bind-any-Ensures,
  if◌then◌else◌,
}
use nodestack.Prelude.Int.{ℤ}
use nodestack.Json.{Json, truthy}
use nodestack.Sql.{changes}
use nodestack.Queue.Types.{is_processing, Message, EnqueueMessage, Db, or_empty}
use nodestack.Queue.Driver.Conditions.{find_message, pending_copy}
use nodestack.Queue.Driver.Insert.{insert_message}
use nodestack.Queue.Driver.Retry.{
  restart, delete_messages, original_id, row_by_id, queue_name, make_again, restart_or_make,
  send_back, retry_copy, retry_original, is_elsewhere, retry_message, restart_each, send_back_each,
  retry_dead_letter_messages,
}
use nodestack.Queue.Lifecycle.Row.{restarted-IsValid}
use nodestack.Queue.Lifecycle.Table.{
  IsConsistent, update_where-IsConsistent, delete_where-IsConsistent,
}
use nodestack.Queue.Lifecycle.Inserts.{insert_message-IsConsistent}

restart-IsConsistent :
    (now : ℕ) (id : String) (db : Db) → IsConsistent db → IsConsistent (restart now id db)
unfolding restart
restart-IsConsistent now id db c =
    update_where-IsConsistent
      (record {
        valid = λ m _ v. restarted-IsValid m v now;
        same_id = λ m. refl;
        same_queue = λ m. refl;
      })
      db c

pub delete_messages-IsConsistent :
    (p : Message → Bool) (db : Db) → IsConsistent db → IsConsistent (delete_messages p db)
unfolding delete_messages
delete_messages-IsConsistent p db c = delete_where-IsConsistent p db c

-- A property of the database that these three statements keep, both calls keep.
module _ (I : Db → Type 0)
    (restarts : (now : ℕ) (id : String) (db : Db) → I db → I (restart now id db))
    (deletes : (p : Message → Bool) (db : Db) → I db → I (delete_messages p db))
    (inserts : (now : ℕ) (fresh : String) (dto : EnqueueMessage) (db : Db)
      → I db
      → Ensures (λ r. I r.1) (insert_message now fresh dto db)) where
  make_again-keeps :
      (now : ℕ) (fresh : String) (row : Message) (db : Db) (origin : Option Json)
      → I db
      → Ensures (λ r. I r.2) (make_again now fresh row db origin)
  unfolding make_again
  make_again-keeps now fresh row db none c = ok-Ensures c
  make_again-keeps now fresh row db (some name) c = elim (Bool-cases (truthy name)) [
    | inl e ↦ rw e (
        bind-any-Ensures (queue_name name)
          λ queue. bind-Ensures (inserts now fresh _ db c) λ r c'. ok-Ensures c')
    | inr e ↦ rw e (ok-Ensures c)
  ]

  send_back-keeps :
      (now : ℕ) (fresh : String) (id : Json) (row : Message) (db : Db)
      → I db
      → Ensures (λ r. I r.2) (send_back now fresh id row db)
  unfolding send_back restart_or_make
  send_back-keeps now fresh id row db c = bind-any-Ensures (row_by_id id db.messages) (elim [
    | none ↦ make_again-keeps now fresh row db _ c
    | some m ↦ ok-Ensures (restarts now m.id db c)
  ])

  retry_copy-keeps :
      (now : ℕ) (fresh : String) (id : Json) (row : Message) (db : Db)
      → I db
      → Ensures (λ r. I r.2) (retry_copy now fresh id row db)
  unfolding retry_copy
  retry_copy-keeps now fresh id row db c =
      bind-Ensures (send_back-keeps now fresh id row db c)
        λ r c'. ok-Ensures (deletes _ _ (deletes _ r.2 c'))

  retry_original-keeps :
      (now : ℕ) (row : Message) (db : Db) → I db → I (retry_original now row db).2
  unfolding retry_original
  retry_original-keeps now row db c = deletes _ _ (restarts now row.id db c)

  pub retry_message-keeps :
      (now : ℕ) (fresh id : String) (db : Db)
      → I db
      → Ensures (λ r. I r.2) (retry_message now fresh id db)
  unfolding retry_message
  retry_message-keeps now fresh id db c = elim (Option-cases (find_message id db.messages)) [
    | inl e ↦ rw (e, retry_message) (ok-Ensures c)
    | inr (row, e) ↦ elim (Bool-cases (is_processing row.status)) [
      | inl p ↦ rw (e, retry_message, p) (ok-Ensures c)
      | inr p ↦ elim (Option-cases (original_id row)) [
        | inl o ↦ rw (e, retry_message, p, o) (ok-Ensures (retry_original-keeps now row db c))
        | inr (origin, o) ↦ elim (Bool-cases (truthy origin && is_elsewhere row)) [
          | inl t ↦ rw (e, retry_message, p, o, t) (retry_copy-keeps now fresh origin row db c)
          | inr t ↦ rw (e, retry_message, p, o, t) (ok-Ensures (retry_original-keeps now row db c))
        ]
      ]
    ]
  ]

  restart_each-keeps :
      (now : ℕ) (rows : List Message) (db : Db) → I db → I (restart_each now rows db).1
  unfolding restart_each
  restart_each-keeps now [] db c = c
  restart_each-keeps now (r ∷ rs) db c =
      restart_each-keeps now rs _ (after (ltb 0 (changes (λ m. m.id =ₜ r.id) db.messages)))
    where
      cleaned : Db
      cleaned =
          delete_messages (pending_copy (or_empty r.forwarded_to_message_id) r.id)
            (restart now r.id db)

      after : (b : Bool) → I (if b then cleaned else db)
      after true = deletes _ _ (restarts now r.id db c)
      after false = c

  send_back_each-keeps :
      (now : ℕ) (ids : ℕ → String) (k : ℕ) (rows : List Message) (db : Db)
      → I db
      → Ensures (λ r. I r.2) (send_back_each now ids k rows db)
  unfolding send_back_each
  send_back_each-keeps now ids k [] db c = ok-Ensures c
  send_back_each-keeps now ids k (r ∷ rs) db c = elim (Option-cases (original_id r)) [
    | inl o ↦ rw (o, send_back_each) (send_back_each-keeps now ids (suc k) rs db c)
    | inr (id, o) ↦ elim (Bool-cases (truthy id)) [
      | inl t ↦
          rw (o, send_back_each, t)
            (bind-Ensures (send_back-keeps now (ids k) id r db c) λ s c1.
              bind-Ensures
                (send_back_each-keeps now ids (suc k) rs _ (deletes (λ m. m.id =ₜ r.id) s.2 c1))
                λ u c2. ok-Ensures c2)
      | inr t ↦ rw (o, send_back_each, t) (send_back_each-keeps now ids (suc k) rs db c)
    ]
  ]

  pub retry_dead_letter_messages-keeps :
      (now : ℕ) (ids : ℕ → String) (queue : String) (limit : ℤ) (db : Db)
      → I db
      → Ensures (λ r. I r.2) (retry_dead_letter_messages now ids queue limit db)
  unfolding retry_dead_letter_messages
  retry_dead_letter_messages-keeps now ids queue limit db c =
      bind-Ensures (send_back_each-keeps now ids 0 _ _ (restart_each-keeps now _ db c))
        λ r c'. ok-Ensures c'

pub retry_message-IsConsistent :
    (now : ℕ) (fresh id : String) (db : Db)
    → IsConsistent db
    → Ensures (λ r. IsConsistent r.2) (retry_message now fresh id db)
retry_message-IsConsistent now fresh id db c =
    retry_message-keeps IsConsistent restart-IsConsistent delete_messages-IsConsistent
      insert_message-IsConsistent now fresh id db c

pub retry_dead_letter_messages-IsConsistent :
    (now : ℕ) (ids : ℕ → String) (queue : String) (limit : ℤ) (db : Db)
    → IsConsistent db
    → Ensures (λ r. IsConsistent r.2) (retry_dead_letter_messages now ids queue limit db)
retry_dead_letter_messages-IsConsistent now ids queue limit db c =
    retry_dead_letter_messages-keeps IsConsistent restart-IsConsistent delete_messages-IsConsistent
      insert_message-IsConsistent now ids queue limit db c
