-- ===== src/Queue/Sending.antt =====
-- What `send` guarantees.
use nodestack.Prelude.{
  ℕ, ◌+◌, ◌≡◌, ◌⊎◌, throw, refl, String, Bool, true, false, List, [], ◌∷◌, ◌++◌, Option, none, some,
  ◌=ₜ◌, ◌&&◌, arith, find, is_some, eq_refl, Bool-cases, Option-cases, inl, inr, ok, invalid_time,
  unique_constraint, or_default, ltb, leb, ◌*◌,
}
use nodestack.Prelude.Int.{ℤ, pos_part}
use nodestack.Time.{to_iso, latest}
use nodestack.Queue.Types.{is_unfinished, Message, EnqueueMessage, Db, or_null}
use nodestack.Queue.Driver.Conditions.{column_is, find_queue, find_message, map_row_to_message}
use nodestack.Queue.Driver.Insert.{
  ensure_queue, find_duplicate, due_time, new_row, insert_row, insert_message, send,
}
use nodestack.Queue.Lookup.{find-append}
use nodestack.Queue.Lifecycle.Table.{ensure_queue-registers}
use nodestack.Queue.Failing.DeadLetters.{default_attempts}
use nodestack.Queue.Lifecycle.RowWise.{ensure_queue-messages}

ensure_queue-again :
    (now : ℕ) (name : String) (db : Db)
    → is_some (find_queue name db.queues) ≡ true
    → ensure_queue now name db ≡ db
unfolding ensure_queue
ensure_queue-again now name db h = rw h

-- Where a message of the queue with this deduplication id is unfinished, a send gives that message.
send-dup :
    (now : ℕ) (fresh : String) (dto : EnqueueMessage) (dup : Message) (db : Db)
    → find_duplicate dto db.messages ≡ some dup
    → send now fresh dto db ≡ ok (map_row_to_message dup, ensure_queue now dto.queue db)
unfolding send insert_message
send-dup now fresh dto dup db e = rw (e, insert_message)

or_null-some : (o : Option String) (d : String) → or_null o ≡ some d → o ≡ some d
or_null-some none d h = cc
or_null-some (some s) d h = elim (Bool-cases (s =ₜ "")) [
  | inl e ↦ cc (rw e at h)
  | inr e ↦ rw e at h
]

abbrev is_duplicate : EnqueueMessage → String → Message → Bool
is_duplicate dto d m =
    m.queue =ₜ dto.queue && column_is m.deduplication_id d && is_unfinished m.status

find_duplicate_lem :
    (dto : EnqueueMessage) (d : String) (rows : List Message)
    → or_null dto.deduplication_id ≡ some d
    → find_duplicate dto rows ≡ find (is_duplicate dto d) rows
unfolding find_duplicate
find_duplicate_lem dto d rows given = λ i. search (given i)
  where
    search : Option String → Option Message
    search o = elim o [ none ↦ none | some t ↦ find (is_duplicate dto t) rows ]

-- The row that is added is the duplicate that the next search finds.
find_duplicate-append :
    (dto : EnqueueMessage) (d : String) (rows : List Message) (now : ℕ) (fresh : String)
    (due most : ℕ)
    → or_null dto.deduplication_id ≡ some d
    → find_duplicate dto rows ≡ none
    → find_duplicate dto (rows ++ new_row now fresh due most dto ∷ [])
      ≡ some (new_row now fresh due most dto)
unfolding new_row
find_duplicate-append dto d rows now fresh due most given absent =
    let row = new_row now fresh due most dto in
    let none_yet : find (is_duplicate dto d) rows ≡ none =
      rw (find_duplicate_lem dto d rows given) at absent in
    let meets : is_duplicate dto d row ≡ true =
      rw (or_null-some dto.deduplication_id d given, eq_refl dto.queue, eq_refl d) in
    rw (
      find_duplicate_lem dto d (rows ++ row ∷ []) given,
      find-append (is_duplicate dto d) rows row,
      none_yet,
      meets,
    )

-- What a send gives where no unfinished message of the queue has its deduplication id.
send-new :
    (now : ℕ) (fresh : String) (dto : EnqueueMessage) (db : Db) (due : ℕ)
    → find_duplicate dto db.messages ≡ none
    → due_time now dto.delay_seconds ≡ ok due
    → let row = new_row now fresh due (default_attempts dto.queue db) dto in
      is_some (find_message row.id db.messages) ≡ false
      → send now fresh dto db
        ≡ ok (
          map_row_to_message row,
          record (ensure_queue now dto.queue db) { messages = db.messages ++ row ∷ [] },
        )
unfolding send insert_message insert_row
send-new now fresh dto db due none_yet at_due free =
    let kept = ensure_queue-messages now dto.queue db in
    ground (arith, none_yet, at_due, kept, free)

-- The due time of a message, or the error of a date that is out of range.
due_cases :
    (now : ℕ) (delay : Option ℤ)
    → ((due : ℕ) × (due_time now delay ≡ ok due)) ⊎ (due_time now delay ≡ throw invalid_time)
unfolding due_time to_iso
due_cases now none = inl (now, refl)
due_cases now (some z) = elim (Bool-cases (ltb 0 (pos_part z))) [
  | inr k ↦ inl (now, rw k)
  | inl k ↦ elim (Bool-cases (leb (now + pos_part z * 1000) latest)) [
    | inl in_range ↦ inl (now + pos_part z * 1000, rw (k, in_range))
    | inr out ↦ inr (rw (k, out))
  ]
]

send-late :
    (now : ℕ) (fresh : String) (dto : EnqueueMessage) (db : Db)
    → find_duplicate dto db.messages ≡ none
    → due_time now dto.delay_seconds ≡ throw invalid_time
    → send now fresh dto db ≡ throw invalid_time
unfolding send insert_message
send-late now fresh dto db none_yet late = ground (arith, none_yet, late)

send-taken :
    (now : ℕ) (fresh : String) (dto : EnqueueMessage) (db : Db) (due : ℕ)
    → find_duplicate dto db.messages ≡ none
    → due_time now dto.delay_seconds ≡ ok due
    → is_some (find_message (or_default (or_null dto.id) fresh) db.messages) ≡ true
    → send now fresh dto db ≡ throw unique_constraint
unfolding send insert_message insert_row new_row
send-taken now fresh dto db due none_yet at_due taken =
    let kept = ensure_queue-messages now dto.queue db in
    ground (arith, none_yet, at_due, kept, taken)

-- A send that succeeds found a duplicate or added a row.
send_cases :
    (now : ℕ) (fresh : String) (dto : EnqueueMessage) (db db1 : Db) (m : Message)
    → send now fresh dto db ≡ ok (m, db1)
    → (row : Message) × (m ≡ map_row_to_message row)
      × ((find_duplicate dto db.messages ≡ some row) × (db1 ≡ ensure_queue now dto.queue db)
          ⊎ (find_duplicate dto db.messages ≡ none)
            × ((due : ℕ) × (row ≡ new_row now fresh due (default_attempts dto.queue db) dto))
            × (db1 ≡ record (ensure_queue now dto.queue db) { messages = db.messages ++ row ∷ [] }))
unfolding new_row
send_cases now fresh dto db db1 m e = elim (Option-cases (find_duplicate dto db.messages)) [
  | inr (dup, found) ↦ let same = send-dup now fresh dto dup db found in (dup, cc, inl (found, cc))
  | inl none_yet ↦ elim (due_cases now dto.delay_seconds) [
    | inr late ↦ (let same = send-late now fresh dto db none_yet late in absurd (cc))
    | inl (due, at_due) ↦
        let row = new_row now fresh due (default_attempts dto.queue db) dto in
        elim (Bool-cases (is_some (find_message (or_default (or_null dto.id) fresh) db.messages))) [
          | inl taken ↦
              (let same = send-taken now fresh dto db due none_yet at_due taken in absurd (cc))
          | inr free ↦
              let same = send-new now fresh dto db due none_yet at_due free in
              (row, cc, inr (none_yet, (due, refl), cc))
        ]
  ]
]

-- Where the queue has a record and the duplicate is found, a send changes nothing.
send-again :
    (now : ℕ) (fresh : String) (dto : EnqueueMessage) (dup : Message) (db : Db)
    → find_duplicate dto db.messages ≡ some dup
    → is_some (find_queue dto.queue db.queues) ≡ true
    → send now fresh dto db ≡ ok (map_row_to_message dup, db)
send-again now fresh dto dup db found registered =
    rw (send-dup now fresh dto dup db found, ensure_queue-again now dto.queue db registered)

-- A message with a deduplication id is sent once: after a send of it that succeeds, a second send of it
-- gives the same message and leaves the database as it is.
pub send_twice :
    (now later : ℕ) (fresh other d : String) (dto : EnqueueMessage) (db db1 : Db) (m : Message)
    → or_null dto.deduplication_id ≡ some d
    → send now fresh dto db ≡ ok (m, db1)
    → send later other dto db1 ≡ ok (m, db1)
send_twice now later fresh other d dto db db1 m given e =
    let registered = ensure_queue-registers now dto.queue db in
    let kept = ensure_queue-messages now dto.queue db in
    let (row, shape, cases) = send_cases now fresh dto db db1 m e in
    rw shape (elim cases [
      | inl (found, same) ↦
          send-again later other dto row db1 (rw (same, kept) found) (rw same registered)
      | inr (none_yet, (due, made), same) ↦
          send-again later other dto row db1
            (rw (same, made)
              (find_duplicate-append dto d db.messages now fresh due _ given none_yet))
            (rw same registered)
    ])
