-- ===== src/Queue/Driver/Registry.antt =====
-- Queue records: `upsertQueue`, `getQueue`, `getAllQueues`, `deleteQueue`.
use nodestack.Prelude.{
  ℕ, String, Bool, true, false, List, [], ◌∷◌, ◌++◌, Option, none, some, not, ◌&&◌, ◌||◌, ◌=ₜ◌, ltb,
  if◌then◌else◌, map, filter, or_default, is_some,
}
use mathlib.Core.Option
use nodestack.Prelude.Int.{ℤ, at_least}
use nodestack.Sql.{update_where, delete_where, changes, order_by}
use nodestack.Time.{iso_le}
use nodestack.Queue.Types.{Queue, CreateQueue, Db}
use nodestack.Queue.Driver.Conditions.{find_queue, has_system_prefix, like_system, map_row_to_queue}

unfoldable pub get_queue : String → Db → Option Queue
get_queue name db = Option.map map_row_to_queue (find_queue name db.queues)

-- `given ? Math.max(low, given) : (existing ?? fallback)`
setting : ℕ → Option ℤ → Option ℕ → ℕ → ℕ
setting low (some z) kept fallback = at_least low z
setting low none kept fallback = or_default kept fallback

kept_text : Option (Option String) → Option (Option String) → Option String
kept_text (some t) kept = t
kept_text none kept = or_default kept none

-- The row that `upsertQueue` writes, from the record that is there already.
unfoldable pub upserted : ℕ → CreateQueue → Option Queue → Queue
unfolding setting kept_text
upserted now dto existing =
    let strict =
      or_default dto.strict_order (or_default (Option.map (λ q. q.strict_order) existing) false) in
    let default_backoff = (if strict then 0 else 1000) in
    record {
      name = dto.name;
      concurrency = setting 0 dto.concurrency (Option.map (λ q. q.concurrency) existing) 0;
      visibility_timeout_seconds =
          setting 1 dto.visibility_timeout_seconds
            (Option.map (λ q. q.visibility_timeout_seconds) existing) 30;
      max_attempts = setting 0 dto.max_attempts (Option.map (λ q. q.max_attempts) existing) 3;
      backoff_delay_ms =
          setting 0 dto.backoff_delay_ms (Option.map (λ q. q.backoff_delay_ms) existing)
            default_backoff;
      dead_letter_queue =
          kept_text dto.dead_letter_queue (Option.map (λ q. q.dead_letter_queue) existing);
      target_function =
          kept_text dto.target_function (Option.map (λ q. q.target_function) existing);
      is_system =
          if has_system_prefix dto.name || dto.is_system
          then true
          else or_default (Option.map (λ q. q.is_system) existing) false;
      strict_order = strict;
      created = or_default (Option.map (λ q. q.created) existing) now;
      updated = now;
    }

-- INSERT … ON CONFLICT(name) DO UPDATE: all columns but the name and `created`.
unfoldable pub write_queue : Queue → List Queue → List Queue
write_queue row queues =
    if is_some (find_queue row.name queues)
    then update_where (λ q. q.name =ₜ row.name) (λ q. record row { created = q.created }) queues
    else queues ++ row ∷ []

unfoldable pub upsert_queue : ℕ → CreateQueue → Db → Option Queue × Db
upsert_queue now dto db =
    let existing = get_queue dto.name db in
    let db' = record db { queues = write_queue (upserted now dto existing) db.queues } in
    (get_queue dto.name db', db')

unfoldable pub get_all_queues : Bool → Db → List Queue
get_all_queues include_system db =
    let rows =
      (if include_system
        then db.queues
        else filter (λ q. not q.is_system && not (like_system q.name)) db.queues) in
    map map_row_to_queue (order_by (λ a b. iso_le a.created b.created) rows)

-- The messages of the queue go with it.
unfoldable pub delete_queue : String → Db → Bool × Db
delete_queue name db = (
  ltb 0 (changes (λ q. q.name =ₜ name) db.queues),
  record {
    queues = delete_where (λ q. q.name =ₜ name) db.queues;
    messages = delete_where (λ m. m.queue =ₜ name) db.messages;
  },
)
