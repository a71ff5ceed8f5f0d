-- ===== src/Queue/Retention.antt =====
-- What `cleanup` removes, and what `getStats` counts.
use nodestack.Prelude.{
  ℕ, ◌+◌, ◌*◌, ◌≡◌, refl, Bool, true, false, List, [], ◌∷◌, Option, String, ◌=ₜ◌, ◌&&◌, arith, All,
  filter, length, ltb, if◌then◌else◌, Bool-cases, inl, inr, ok,
}
use nodestack.Prelude.Int.{ℤ, at_least}
use nodestack.Time.{latest}
use nodestack.Sql.{delete_where, changes}
use nodestack.Sql.Laws.{delete_where-All, length-delete_where}
use nodestack.Queue.Types.{
  Status, queued, processing, completed, failed, dead_letter, status_text, is_unfinished, Message,
  Db,
}
use nodestack.Queue.Driver.Retry.{delete_messages}
use nodestack.Queue.Driver.Reclaim.{in_queue}
use nodestack.Queue.Driver.Remove.{is_stale, cleanup}
use nodestack.Queue.Driver.Reads.{is_counted, has_status, get_stats}

-- A filter does not see what a DELETE takes, if that fails its test.
filter-delete_where {ℓ} :
    {A : Type ℓ} (keep gone : A → Bool)
    → ((x : A) → gone x ≡ true → keep x ≡ false)
    → (xs : List A) → filter keep (delete_where gone xs) ≡ filter keep xs
unfolding delete_where
filter-delete_where keep gone apart [] = refl
filter-delete_where keep gone apart (x ∷ xs) = elim (Bool-cases (gone x)) [
  | inl e ↦ rw (e, apart x e) (filter-delete_where keep gone apart xs)
  | inr e ↦ rw (e, filter-delete_where keep gone apart xs)
]

is_stale-finished :
    (queue : Option String) (now span : ℕ) (m : Message)
    → (in_queue queue m && is_stale now span m) ≡ true
    → is_unfinished m.status ≡ false
unfolding is_stale
is_stale-finished queue now span m h = ground arith

-- A cleanup keeps all messages that are queued or in process, in their order; what it keeps is not
-- stale or is of another queue than the one it was asked for; and it returns the number of the
-- messages that went.
cleanup-keeps :
    (now : ℕ) (days : ℤ) (queue : Option String) (db db' : Db) (count : ℕ)
    → cleanup now days queue db ≡ ok (count, db')
    → (filter (λ m. is_unfinished m.status) db'.messages
        ≡ filter (λ m. is_unfinished m.status) db.messages)
      × All
          (λ m. (in_queue queue m && is_stale now (at_least 0 days * 86_400_000) m) ≡ false)
          db'.messages
      × (length db'.messages + count ≡ length db.messages)
unfolding cleanup delete_messages
cleanup-keeps now days queue db db' count e =
    elim (Bool-cases (ltb (now + latest) (at_least 0 days * 86_400_000))) [
      | inl out ↦ cc (rw out at e)
      | inr in_range ↦
          let gone =
            λ (m : Message). in_queue queue m && is_stale now (at_least 0 days * 86_400_000) m in
          let done = rw in_range at e in
          let rows : db'.messages ≡ delete_where gone db.messages = ground arith in
          let number : count ≡ changes gone db.messages = ground arith in
          (
            rw rows (filter-delete_where _ gone (is_stale-finished queue now _) db.messages),
            rw rows (delete_where-All gone db.messages),
            rw (rows, number) (length-delete_where gone db.messages),
          )
    ]

-- A status is counted once.
one_status :
    (s : Status)
    → (if status_text s =ₜ "queued" then 1 else 0)
        + (if status_text s =ₜ "processing" then 1 else 0)
        + (if status_text s =ₜ "completed" then 1 else 0)
        + (if status_text s =ₜ "failed" then 1 else 0)
        + (if status_text s =ₜ "dead_letter" then 1 else 0)
      ≡ 1
one_status queued = refl
one_status processing = refl
one_status completed = refl
one_status failed = refl
one_status dead_letter = refl

changes-cons {ℓ} :
    {A : Type ℓ} (p : A → Bool) (x : A) (xs : List A)
    → changes p (x ∷ xs) ≡ (if p x then 1 else 0) + changes p xs
unfolding changes
changes-cons p x xs = ground arith

count_each :
    (rows : List Message)
    → changes (has_status queued) rows
        + changes (has_status processing) rows
        + changes (has_status completed) rows
        + changes (has_status failed) rows
        + changes (has_status dead_letter) rows
      ≡ length rows
unfolding changes
count_each [] = refl
count_each (m ∷ ms) = omega (
  arith,
  count_each ms,
  one_status m.status,
  changes-cons (has_status queued) m ms,
  changes-cons (has_status processing) m ms,
  changes-cons (has_status completed) m ms,
  changes-cons (has_status failed) m ms,
  changes-cons (has_status dead_letter) m ms,
)

-- The five counts of the statistics of a queue, or of all queues, add up to their total.
get_stats-total :
    (queue : Option String) (include_system : Bool) (db : Db)
    → let s = get_stats queue include_system db in
      s.queued + s.processing + s.completed + s.failed + s.dead_letter ≡ s.total
unfolding get_stats
get_stats-total queue include_system db =
    count_each (filter (is_counted queue include_system) db.messages)
