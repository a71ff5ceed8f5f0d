-- ===== src/Queue/Service/Tests.antt =====
-- The wakes and the calls of the service on concrete states.
use nodestack.Prelude.{
  has, add, remove, remove_one, ◌≡◌, refl, Bool, true, List, [], ◌∷◌, none, some, ok, trim,
}
use nodestack.Prelude.Int.{pos}
use nodestack.Json.{null}
use nodestack.Time.{to_iso}
use nodestack.Queue.Types.{Message, EnqueueMessage, Status, empty_db}
use nodestack.Queue.Driver.Conditions.{map_row_to_message, has_system_prefix}
use nodestack.Queue.Driver.Insert.{
  send, insert_message, ensure_queue, find_duplicate, due_time, new_row, insert_row, default_queue,
}
use nodestack.Queue.Lifecycle.History
use nodestack.Queue.Lifecycle.History.{Call}
use nodestack.Queue.Service.Requests.{Request, serve_all, on_send, on_drain, on_start}
use nodestack.Queue.Service.Asked.{Answers}
use nodestack.Queue.Service.Refined.{serve_all-refines}
use nodestack.Queue.Service.Wakes
use nodestack.Queue.Service.Wakes.{
  Wakes, no_wakes, Event, wake_worker, begin_drain, fire_immediate, end_drain, schedule_delayed_at,
  step, fire, drain_ends, wake,
}
use nodestack.Queue.Service.Awake.{IsAwake, no_wakes-IsAwake, run-IsAwake}
use nodestack.Queue.Service.Promise.{is_served, is_calm, wake_is_served}
use nodestack.Queue.Service.Calls.{Service, send_call}

-- The queue is woken again while it is being drained.
abbrev events : List (Bool × Event)
events =
    (true, fire)
    ∷ (true, wake "a")
    ∷ (true, fire)
    ∷ (true, drain_ends "a")
    ∷ (true, fire)
    ∷ (true, drain_ends "a")
    ∷ []

run-IsAwake_example : IsAwake (Wakes.run events no_wakes)
run-IsAwake_example = run-IsAwake events no_wakes no_wakes-IsAwake

wake_is_served_example : is_served "a" events (wake_worker "a" no_wakes) ≡ true
unfolding Wakes.run step wake_worker fire_immediate begin_drain end_drain has add remove remove_one
    is_calm
wake_is_served_example =
    wake_is_served "a" events no_wakes no_wakes-IsAwake refl
      (refl, (refl, (refl, (refl, (refl, (refl, tt)))))) refl refl

abbrev dto : EnqueueMessage
dto = record {
  id = some "m1";
  queue = " a ";
  payload = none;
  group_key = none;
  delay_seconds = some (pos 2);
  priority = none;
  max_attempts = none;
  deduplication_id = none;
  original_message_id = none;
}

abbrev idle : Service
idle = record { db = empty_db; wakes = no_wakes; handlers = []; prefixes = [] }

abbrev row : Message
row = record {
  id = "m1";
  queue = "a";
  group_key = none;
  status = Status.queued;
  payload = none;
  result = none;
  error = none;
  attempts = 0;
  max_attempts = 3;
  priority = pos 0;
  available_at = 2_010;
  claimed_by = none;
  lease_expires_at = none;
  claim_token = none;
  deduplication_id = none;
  original_message_id = none;
  forwarded_to_message_id = none;
  created = 10;
  updated = 10;
  finished_at = none;
}

abbrev sent : Service
unfolding default_queue has_system_prefix
sent = record idle {
  db = record { queues = default_queue 10 "a" ∷ []; messages = row ∷ [] };
  wakes = record no_wakes { timer = some 2_010 };
}

send_at_10 : send_call 10 "f" dto idle ≡ ok (record row { payload = some null }, sent)
unfolding send_call send insert_message ensure_queue find_duplicate due_time to_iso new_row
    insert_row default_queue map_row_to_message has_system_prefix schedule_delayed_at trim sent
send_at_10 = refl

abbrev job : Message
job = record row {
  status = Status.processing;
  attempts = 1;
  claimed_by = some "w";
  lease_expires_at = some 9_000;
  claim_token = some "t";
}

abbrev at_work : Service
at_work = record idle { db = record { queues = []; messages = job ∷ [] } }

-- A message is sent, the queue is drained, and the service is started again.
abbrev requests : List (Bool × Request)
requests =
    (true, on_send 10 "m1" dto)
    ∷ (true, on_drain 3_000 (λ k. "t") "w" none "a")
    ∷ (true, on_start 40_000 (λ q k. "f") (pos 7))
    ∷ []

serve_all-refines_example :
    (cs : List Call) × Answers requests cs × (History.run idle.db cs ≡ (serve_all requests idle).db)
serve_all-refines_example = serve_all-refines requests idle
