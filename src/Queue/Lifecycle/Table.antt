-- ===== src/Queue/Lifecycle/Table.antt =====
-- The invariant of the database, and that single statements keep it.
use nodestack.Prelude.{
  ℕ, ◌≡◌, ◌≢◌, String, Bool, true, List, [], ◌∷◌, ◌++◌, ◌=ₜ◌, is_some, arith, All, All-append,
  All-map, Distinct, find_none-All, Distinct-append, Bool-cases, inl, inr, eq_iff, Ensures,
  ok-Ensures, throw-Ensures,
}
use nodestack.Sql.{update_where, delete_where}
use nodestack.Sql.Laws.{All-update_where, All-delete_where}
use nodestack.Queue.Types.{Queue, Message, Db}
use nodestack.Queue.Driver.Conditions.{find_queue, find_message}
use nodestack.Queue.Driver.Insert.{default_queue, ensure_queue, insert_row}
use nodestack.Queue.Lifecycle.Row.{IsValid}

-- The message's queue has a record.
abbrev pub IsRegistered : List Queue → Message → Type 0
IsRegistered queues m = is_some (find_queue m.queue queues) ≡ true

pub record IsConsistent (db : Db) : Type 0 where
  pub rows : All IsValid db.messages
  pub ids : Distinct (λ m. m.id) db.messages
  pub registered : All (IsRegistered db.queues) db.messages

-- An assignment that keeps a row valid where its condition holds, and its id and queue.
pub record KeepsRow (p : Message → Bool) (f : Message → Message) : Type 0 where
  pub valid : (m : Message) → p m ≡ true → IsValid m → IsValid (f m)
  pub same_id : (m : Message) → (f m).id ≡ m.id
  pub same_queue : (m : Message) → (f m).queue ≡ m.queue

module _ {p : Message → Bool} {f : Message → Message} (k : KeepsRow p f) where
  update_where-ids :
      (rows : List Message)
      → Distinct (λ m. m.id) rows
      → Distinct (λ m. m.id) (update_where p f rows)
  unfolding update_where
  update_where-ids [] d = tt
  update_where-ids (r ∷ rs) (n, d) = elim (Bool-cases (p r)) [
    | inl e ↦ rw (e, k.same_id r) (others r.id n, update_where-ids rs d)
    | inr e ↦ rw e (others r.id n, update_where-ids rs d)
  ]
    where
      others : (i : String) → All (λ m. m.id ≢ i) rs → All (λ m. m.id ≢ i) (update_where p f rs)
      others i h = All-update_where _ p f (λ m _ q. rw (k.same_id m) q) rs h

  pub update_where-IsConsistent :
      (db : Db)
      → IsConsistent db
      → IsConsistent (record db { messages = update_where p f db.messages })
  update_where-IsConsistent db c = record {
    rows = All-update_where IsValid p f k.valid db.messages c.rows;
    ids = update_where-ids db.messages c.ids;
    registered =
        All-update_where (IsRegistered db.queues) p f (λ m _ q. rw (k.same_queue m) q) db.messages
          c.registered;
  }

module _ (p : Message → Bool) where
  pub delete_where-ids :
      (rows : List Message) → Distinct (λ m. m.id) rows → Distinct (λ m. m.id) (delete_where p rows)
  unfolding delete_where
  delete_where-ids [] d = tt
  delete_where-ids (r ∷ rs) (n, d) = elim (Bool-cases (p r)) [
    | inl e ↦ rw e (delete_where-ids rs d)
    | inr e ↦ rw e (All-delete_where _ p rs n, delete_where-ids rs d)
  ]

  pub delete_where-IsConsistent :
      (db : Db)
      → IsConsistent db
      → IsConsistent (record db { messages = delete_where p db.messages })
  delete_where-IsConsistent db c = record {
    rows = All-delete_where IsValid p db.messages c.rows;
    ids = delete_where-ids db.messages c.ids;
    registered = All-delete_where (IsRegistered db.queues) p db.messages c.registered;
  }

pub find_queue-append :
    (name : String) (queues : List Queue) (q : Queue)
    → is_some (find_queue name queues) ≡ true
    → is_some (find_queue name (queues ++ q ∷ [])) ≡ true
find_queue-append name [] q h = cc
find_queue-append name (r ∷ rs) q h = elim (Bool-cases (r.name =ₜ name)) [
  | inl e ↦ rw e
  | inr e ↦ rw e (find_queue-append name rs q (rw e at h))
]

pub ensure_queue-IsConsistent :
    (now : ℕ) (name : String) (db : Db) → IsConsistent db → IsConsistent (ensure_queue now name db)
unfolding ensure_queue
ensure_queue-IsConsistent now name db c = elim (Bool-cases (is_some (find_queue name db.queues))) [
  | inl e ↦ rw e c
  | inr e ↦ rw e (record {
    rows = c.rows;
    ids = c.ids;
    registered =
        All-map _ _ (λ m h. find_queue-append m.queue db.queues _ h) db.messages c.registered;
  })
]

find_queue-append_self :
    (queues : List Queue) (q : Queue) → is_some (find_queue q.name (queues ++ q ∷ [])) ≡ true
find_queue-append_self [] q = ground (arith, eq_iff q.name q.name)
find_queue-append_self (r ∷ rs) q = elim (Bool-cases (r.name =ₜ q.name)) [
  | inl e ↦ rw e
  | inr e ↦ rw e (find_queue-append_self rs q)
]

-- After `ensure_queue` the queue has a record.
pub ensure_queue-registers :
    (now : ℕ) (name : String) (db : Db)
    → is_some (find_queue name (ensure_queue now name db).queues) ≡ true
unfolding ensure_queue default_queue
ensure_queue-registers now name db = elim (Bool-cases (is_some (find_queue name db.queues))) [
  | inl e ↦ rw e e
  | inr e ↦ rw e (find_queue-append_self db.queues _)
]

pub insert_row-IsConsistent :
    (row : Message) (db : Db)
    → IsValid row
    → IsRegistered db.queues row
    → IsConsistent db
    → Ensures IsConsistent (insert_row row db)
unfolding insert_row
insert_row-IsConsistent row db v r c =
    elim (Bool-cases (is_some (find_message row.id db.messages))) [
      | inl e ↦ rw (e, insert_row) throw-Ensures
      | inr e ↦
          rw (e, insert_row)
            (ok-Ensures (record {
              rows = All-append IsValid db.messages _ c.rows (v, tt);
              ids = Distinct-append _ db.messages row c.ids (find_none-All _ row.id db.messages e);
              registered = All-append (IsRegistered db.queues) db.messages _ c.registered (r, tt);
            }))
    ]
