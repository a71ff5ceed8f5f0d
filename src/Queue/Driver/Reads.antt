-- ===== src/Queue/Driver/Reads.antt =====
-- The methods that only read: `getMessage`, `getMessages`, `getStats`, `getNextDelayedTimestamp`,
-- `getQueuesWithPendingMessages`.
use nodestack.Prelude.{
  ℕ, zero, suc, ◌-◌, ◌*◌, min, String, Bool, true, List, [], ◌∷◌, Option, none, some, not, ◌&&◌,
  ◌||◌, ◌=ₜ◌, if◌then◌else◌, filter, map, any, take, drop, length,
}
use mathlib.Core.Option
use nodestack.Prelude.Int.{ℤ, at_least, ltb_ℤ, leb_ℤ}
use nodestack.Time.{iso_le, iso_lt}
use nodestack.Sql.{changes, order_by}
use nodestack.Queue.Types.{
  Status, queued, processing, completed, failed, dead_letter, status_text, is_queued, Message,
  Stats, Db, or_null,
}
use nodestack.Queue.Driver.Conditions.{column_is, find_message, like_system, map_row_to_message}
use nodestack.Queue.Driver.Claim.{is_due}
use nodestack.Queue.Driver.Reclaim.{in_queue}

unfoldable pub get_message : String → Db → Option Message
get_message id db = Option.map map_row_to_message (find_message id db.messages)

pub record GetMessages : Type 0 where
  pub queue : Option String
  pub status : Option String
  pub group_key : Option String
  pub page : Option ℤ
  pub per_page : Option ℤ
  pub include_system : Bool

-- The WHERE clause that `getMessages` puts together.
unfoldable pub is_listed : GetMessages → Message → Bool
is_listed o m = queue_ok && status_ok && group_ok
  where
    queue_ok : Bool
    queue_ok = elim (or_null o.queue) [
      | some q ↦ m.queue =ₜ q
      | none ↦ o.include_system || not (like_system m.queue)
    ]

    status_ok : Bool
    status_ok = elim (or_null o.status) [
      | some s ↦ s =ₜ "all" || status_text m.status =ₜ s
      | none ↦ true
    ]

    group_ok : Bool
    group_ok = elim (or_null o.group_key) [ some g ↦ column_is m.group_key g | none ↦ true ]

-- ORDER BY priority DESC, created ASC, rowid ASC
abbrev pub by_priority_created : Message → Message → Bool
by_priority_created a b =
    ltb_ℤ b.priority a.priority || (leb_ℤ b.priority a.priority && iso_le a.created b.created)

-- `page || 1`, at least 1
abbrev pub page_of : Option ℤ → ℕ
page_of none = 1
page_of (some z) = at_least 1 z

-- `perPage || 25`, between 1 and 100
abbrev pub per_page_of : Option ℤ → ℕ
per_page_of none = 25
per_page_of (some (ℤ.pos zero)) = 25
per_page_of (some (ℤ.pos (suc n))) = min (suc n) 100
per_page_of (some (ℤ.negsuc n)) = 1

unfoldable pub get_messages : GetMessages → Db → List Message × ℕ
get_messages o db =
    let rows = order_by by_priority_created (filter (is_listed o) db.messages) in
    let per_page = per_page_of o.per_page in
    let offset = (page_of o.page - 1) * per_page in
    (map map_row_to_message (take per_page (drop offset rows)), changes (is_listed o) db.messages)

-- The WHERE clause of `getStats`.
unfoldable pub is_counted : Option String → Bool → Message → Bool
is_counted queue include_system m = elim (or_null queue) [
  | some q ↦ m.queue =ₜ q
  | none ↦ include_system || not (like_system m.queue)
]

abbrev pub has_status : Status → Message → Bool
has_status s m = status_text m.status =ₜ status_text s

unfoldable pub get_stats : Option String → Bool → Db → Stats
get_stats queue include_system db = record {
  queued = changes (has_status queued) rows;
  processing = changes (has_status processing) rows;
  completed = changes (has_status completed) rows;
  failed = changes (has_status failed) rows;
  dead_letter = changes (has_status dead_letter) rows;
  total = length rows;
}
  where
    rows : List Message
    rows = filter (is_counted queue include_system) db.messages

-- MIN(availableAt)
unfoldable pub earliest : List Message → Option ℕ
earliest [] = none
earliest (m ∷ ms) = elim (earliest ms) [
  | none ↦ some m.available_at
  | some t ↦ some (if iso_le m.available_at t then m.available_at else t)
]

-- `status = 'queued' AND availableAt > now`
abbrev pub is_delayed : ℕ → Message → Bool
is_delayed now m = is_queued m.status && iso_lt now m.available_at

unfoldable pub get_next_delayed_timestamp : ℕ → Option String → Db → Option ℕ
get_next_delayed_timestamp now queue db =
    earliest (filter (λ m. in_queue queue m && is_delayed now m) db.messages)

-- DISTINCT queue
unfoldable pub distinct_queues : List String → List Message → List String
distinct_queues seen [] = []
distinct_queues seen (m ∷ ms) =
    let first = m.queue ∷ distinct_queues (m.queue ∷ seen) ms in
    let later = distinct_queues seen ms in if any (λ q. q =ₜ m.queue) seen then later else first

unfoldable pub get_queues_with_pending_messages : ℕ → Db → List String
get_queues_with_pending_messages now db = distinct_queues [] (filter (is_due now) db.messages)
