-- ===== src/Queue/Settings.antt =====
-- What `upsertQueue` keeps of a record, and how much `getMessages` gives.
use nodestack.Prelude.{
  find, eq_iff, ℕ, ◌≤◌, ◌≡◌, refl, String, Bool, true, false, List, [], ◌∷◌, Option, none, some,
  ◌=ₜ◌, ◌||◌, arith, length, length-take-le, map, Bool-cases, inl, inr, if◌then◌else◌, zero, suc,
  ◌*◌, ◌-◌, take, drop, filter,
}
use nodestack.Prelude.Int.{ℤ}
use nodestack.Sql.{update_where, order_by}
use nodestack.Queue.Types.{Queue, CreateQueue, Db, or_null}
use nodestack.Queue.Driver.Conditions.{
  find_queue, has_system_prefix, map_row_to_queue, map_row_to_message,
}
use nodestack.Queue.Driver.Registry.{get_queue, upserted, write_queue, upsert_queue}
use nodestack.Queue.Driver.Reads.{
  GetMessages, per_page_of, page_of, is_listed, by_priority_created, get_messages,
}

-- An update that names a queue and no setting.
abbrev pub only_name : String → CreateQueue
only_name name = record {
  name = name;
  concurrency = none;
  visibility_timeout_seconds = none;
  max_attempts = none;
  backoff_delay_ms = none;
  dead_letter_queue = none;
  target_function = none;
  is_system = false;
  strict_order = none;
}

or_null_twice : (o : Option String) → or_null (or_null o) ≡ or_null o
or_null_twice none = refl
or_null_twice (some s) = elim (Bool-cases (s =ₜ "")) [ inl e ↦ rw e refl | inr e ↦ rw (e, e) refl ]

system_twice : (p s : Bool) → ((if p || false then true else (s || p)) || p) ≡ (s || p)
system_twice p s = ground arith

find-rewritten :
    (key : Queue → String) (k : String) (f : Queue → Queue)
    → ((x : Queue) → key (f x) ≡ k)
    → (q : Queue) (xs : List Queue) → find (λ x. key x =ₜ k) xs ≡ some q
    → find (λ x. key x =ₜ k) (update_where (λ x. key x =ₜ k) f xs) ≡ some (f q)
unfolding update_where
find-rewritten key k f same q [] found = cc
find-rewritten key k f same q (x ∷ xs) found = elim (Bool-cases (key x =ₜ k)) [
  | inl e ↦ (let there : x ≡ q = cc (rw e at found) in rw (e, same x, (eq_iff k k).1 refl, there))
  | inr e ↦ rw (e) (rw (e) (find-rewritten key k f same q xs (rw e at found)))
]

find-write_queue :
    (row q : Queue) (queues : List Queue)
    → find_queue row.name queues ≡ some q
    → find_queue row.name (write_queue row queues) ≡ some (record row { created = q.created })
unfolding write_queue
find-write_queue row q queues found = rw (found) (
    find-rewritten (λ r. r.name) row.name (λ r. record row { created = r.created }) (λ r. refl) q
      queues found)

read_again :
    (now : ℕ) (q : Queue)
    → map_row_to_queue (record (upserted now (only_name q.name) (some (map_row_to_queue q))) {
      created = q.created;
    })
      ≡ record (map_row_to_queue q) { updated = now }
unfolding upserted map_row_to_queue
read_again now q =
    rw (or_null_twice q.dead_letter_queue, or_null_twice q.target_function) rw
      (system_twice (has_system_prefix q.name) q.is_system) refl

-- An update of a queue that gives no setting changes nothing of the record but the time of its
-- change.
upsert_queue-keeps :
    (now : ℕ) (q : Queue) (db : Db)
    → find_queue q.name db.queues ≡ some q
    → (upsert_queue now (only_name q.name) db).0
      ≡ some (record (map_row_to_queue q) { updated = now })
unfolding upsert_queue get_queue upserted
upsert_queue-keeps now q db found =
    let row : Queue = upserted now (only_name q.name) (some (map_row_to_queue q)) in
    let written : find_queue q.name (write_queue row db.queues)
        ≡ some (record row { created = q.created }) =
      find-write_queue row q db.queues found in
    rw (found) rw (written) rw (read_again now q) refl

length-map {ℓ κ} :
    {A : Type ℓ} {B : Type κ} (f : A → B) (xs : List A) → length (map f xs) ≡ length xs
length-map f [] = refl
length-map f (x ∷ xs) = omega (arith, length-map f xs)

per_page_of-le : (p : Option ℤ) → per_page_of p ≤ 100
per_page_of-le none = omega arith
per_page_of-le (some (ℤ.pos zero)) = omega arith
per_page_of-le (some (ℤ.pos (suc n))) = ground arith
per_page_of-le (some (ℤ.negsuc n)) = omega arith

-- A page has 100 messages at most.
pub get_messages-length : (o : GetMessages) (db : Db) → length (get_messages o db).0 ≤ 100
unfolding get_messages
get_messages-length o db =
    rw
      (length-map map_row_to_message (
        take (per_page_of o.per_page) (
          drop ((page_of o.page - 1) * per_page_of o.per_page)
            (order_by by_priority_created (filter (is_listed o) db.messages)))))
      omega
      (
        arith,
        per_page_of-le o.per_page,
        length-take-le (per_page_of o.per_page) (
            drop ((page_of o.page - 1) * per_page_of o.per_page)
              (order_by by_priority_created (filter (is_listed o) db.messages))),
      )
