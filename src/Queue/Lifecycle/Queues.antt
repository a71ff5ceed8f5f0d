-- ===== src/Queue/Lifecycle/Queues.antt =====
-- Queue records and removals keep the invariant: `upsertQueue`, `deleteQueue`, `cancel`, `cleanup`,
-- `purge`.
use nodestack.Prelude.{
  ℕ, ◌+◌, ◌*◌, ◌≡◌, refl, String, true, false, List, [], ◌∷◌, Option, ◌=ₜ◌, arith, is_some, eq_iff,
  All, All-map, Bool-cases, Option-cases, inl, inr, ltb, Ensures, ok-Ensures, throw-Ensures,
}
use nodestack.Prelude.Int.{ℤ, at_least}
use nodestack.Time.{latest}
use nodestack.Sql.{update_where, delete_where}
use nodestack.Sql.Laws.{All-delete_where}
use nodestack.Queue.Types.{Queue, CreateQueue, Message, Db}
use nodestack.Queue.Driver.Conditions.{find_queue, find_message}
use nodestack.Queue.Driver.Registry.{get_queue, upserted, write_queue, upsert_queue, delete_queue}
use nodestack.Queue.Driver.Remove.{cancel, cleanup, purge}
use nodestack.Queue.Lifecycle.Row.{unlinked-IsValid}
use nodestack.Queue.Lifecycle.Table.{
  IsConsistent, IsRegistered, update_where-IsConsistent, delete_where-ids, find_queue-append,
}
use nodestack.Queue.Lifecycle.Returns.{delete_messages-IsConsistent}

pub cancel-IsConsistent : (id : String) (db : Db) → IsConsistent db → IsConsistent (cancel id db).1
unfolding cancel
cancel-IsConsistent id db c = elim (Option-cases (find_message id db.messages)) [
  | inl e ↦ rw (e, cancel) c
  | inr (row, e) ↦
      rw (e, cancel)
        (update_where-IsConsistent
          (record {
            valid = λ m _ v. unlinked-IsValid m v;
            same_id = λ m. refl;
            same_queue = λ m. refl;
          })
          _ (delete_messages-IsConsistent _ _ (delete_messages-IsConsistent _ db c)))
]

pub cleanup-IsConsistent :
    (now : ℕ) (days : ℤ) (queue : Option String) (db : Db)
    → IsConsistent db
    → Ensures (λ r. IsConsistent r.1) (cleanup now days queue db)
unfolding cleanup
cleanup-IsConsistent now days queue db c =
    elim (Bool-cases (ltb (now + latest) (at_least 0 days * 86_400_000))) [
      | inl e ↦ rw e throw-Ensures
      | inr e ↦ rw e (ok-Ensures (delete_messages-IsConsistent _ db c))
    ]

pub purge-IsConsistent :
    (queue : String) (status : Option String) (db : Db)
    → IsConsistent db
    → IsConsistent (purge queue status db).1
unfolding purge
purge-IsConsistent queue status db c = delete_messages-IsConsistent _ db c

-- A queue that is there stays there when the record of `row.name` is written.
find_queue-update :
    (name : String) (row : Queue) (queues : List Queue)
    → is_some (find_queue name queues) ≡ true
    → is_some (
        find_queue name
          (update_where (λ q. q.name =ₜ row.name) (λ q. record row { created = q.created }) queues))
      ≡ true
unfolding update_where
find_queue-update name row [] h = cc
find_queue-update name row (q ∷ qs) h = elim (Bool-cases (q.name =ₜ row.name)) [
  | inl e ↦
      let same : q.name ≡ row.name = (eq_iff q.name row.name).0 e in
      rw e (ground (arith, find_queue-update name row qs, same))
  | inr e ↦ rw e (ground (arith, find_queue-update name row qs))
]

write_queue-keeps :
    (name : String) (row : Queue) (queues : List Queue)
    → is_some (find_queue name queues) ≡ true
    → is_some (find_queue name (write_queue row queues)) ≡ true
unfolding write_queue
write_queue-keeps name row queues h = elim (Bool-cases (is_some (find_queue row.name queues))) [
  | inl e ↦ rw e (find_queue-update name row queues h)
  | inr e ↦ rw e (find_queue-append name queues row h)
]

pub upsert_queue-IsConsistent :
    (now : ℕ) (dto : CreateQueue) (db : Db)
    → IsConsistent db
    → IsConsistent (upsert_queue now dto db).1
unfolding upsert_queue
upsert_queue-IsConsistent now dto db c = record {
  rows = c.rows;
  ids = c.ids;
  registered =
      All-map _ _
        (λ m h. write_queue-keeps m.queue (upserted now dto (get_queue dto.name db)) db.queues h)
        db.messages c.registered;
}

find_queue-delete :
    (name other : String) (queues : List Queue)
    → (other =ₜ name) ≡ false
    → is_some (find_queue other queues) ≡ true
    → is_some (find_queue other (delete_where (λ q. q.name =ₜ name) queues)) ≡ true
unfolding delete_where
find_queue-delete name other [] n h = cc
find_queue-delete name other (q ∷ qs) n h = elim (Bool-cases (q.name =ₜ name)) [
  | inl e ↦
      let same : q.name ≡ name = (eq_iff q.name name).0 e in
      rw e (
        ground
          (arith, find_queue-delete name other qs n, same, eq_iff q.name other, eq_iff other name))
  | inr e ↦ rw e (ground (arith, find_queue-delete name other qs n))
]

-- The messages that stay are in the queues that stay.
IsRegistered-delete :
    (name : String) (queues : List Queue) (messages : List Message)
    → All (IsRegistered queues) messages
    → All
        (IsRegistered (delete_where (λ q. q.name =ₜ name) queues))
        (delete_where (λ m. m.queue =ₜ name) messages)
unfolding delete_where
IsRegistered-delete name queues [] h = tt
IsRegistered-delete name queues (m ∷ ms) (q, h) = elim (Bool-cases (m.queue =ₜ name)) [
  | inl e ↦ rw e (IsRegistered-delete name queues ms h)
  | inr e ↦ rw e (find_queue-delete name m.queue queues e q, IsRegistered-delete name queues ms h)
]

pub delete_queue-IsConsistent :
    (name : String) (db : Db) → IsConsistent db → IsConsistent (delete_queue name db).1
unfolding delete_queue
delete_queue-IsConsistent name db c = record {
  rows = All-delete_where _ _ db.messages c.rows;
  ids = delete_where-ids _ db.messages c.ids;
  registered = IsRegistered-delete name db.queues db.messages c.registered;
}
