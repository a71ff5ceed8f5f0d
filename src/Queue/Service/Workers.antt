-- ===== src/Queue/Service/Workers.antt =====
-- The workers of src/queue/QueueService.ts: handlers are registered for a queue or for a prefix. What a
-- handler does is outside, so that only the names are kept.
use nodestack.Prelude.{
  add, remove, ◌+◌, ℕ, String, Bool, Option, none, some, if◌then◌else◌, is_some, length,
}
use nodestack.Queue.Types.{CreateQueue}
use nodestack.Queue.Driver.Registry.{upsert_queue}
use nodestack.Queue.Service.Calls.{
  Service, resolve_memory_handler, is_db_available, waking, wake_pending_queues_from_storage,
}

abbrev pub worker_count : Service → ℕ
worker_count s = length s.handlers + length s.prefixes

-- `hasWorker`
abbrev pub has_handler : String → Service → Bool
has_handler queue s = is_some (resolve_memory_handler queue s)

-- The options are those of a queue. The name is not trimmed here.
unfoldable pub register_worker : Bool → ℕ → String → Option CreateQueue → Service → Service
register_worker available now name options s =
    let registered : Service = record s { handlers = add name s.handlers } in
    elim options [
      | none ↦ waking name registered
      | some dto ↦
          if is_db_available available s
          then waking name
              (record registered { db = (upsert_queue now (record dto { name = name }) s.db).1 })
          else waking name registered
    ]

abbrev pub register_prefix_worker : String → Service → Service
register_prefix_worker prefix s = record s { prefixes = add prefix s.prefixes }

abbrev pub unregister_worker : String → Service → Service
unregister_worker name s = record s { handlers = remove name s.handlers }

abbrev pub unregister_prefix_worker : String → Service → Service
unregister_prefix_worker prefix s = record s { prefixes = remove prefix s.prefixes }

abbrev pub wake_all_workers : Bool → ℕ → Service → Service
wake_all_workers available now s = wake_pending_queues_from_storage available now s
