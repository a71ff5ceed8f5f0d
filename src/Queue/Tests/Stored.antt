-- ===== src/Queue/Tests/Stored.antt =====
-- A database with a strict queue, for the tests of the driver.
use nodestack.Prelude.{
  ℕ, ◌≡◌, ◌≢◌, refl, String, true, false, [], ◌∷◌, none, some, arith, eq_iff, ◌=ₜ◌,
}
use nodestack.Prelude.Int.{pos}
use nodestack.Queue.Types.{queued, processing, Queue, Message, EnqueueMessage, Db}
use nodestack.Queue.Lifecycle.Table.{IsConsistent}

abbrev pub queue_a : Queue
queue_a = record {
  name = "a";
  concurrency = 5;
  visibility_timeout_seconds = 30;
  max_attempts = 3;
  backoff_delay_ms = 1000;
  dead_letter_queue = some "d";
  target_function = none;
  is_system = false;
  strict_order = true;
  created = 0;
  updated = 0;
}

abbrev pub waiting : Message
waiting = record {
  id = "m1";
  queue = "a";
  group_key = none;
  status = queued;
  payload = none;
  result = none;
  error = none;
  attempts = 0;
  max_attempts = 3;
  priority = pos 0;
  available_at = 5;
  claimed_by = none;
  lease_expires_at = none;
  claim_token = none;
  deduplication_id = none;
  original_message_id = none;
  forwarded_to_message_id = none;
  created = 1;
  updated = 1;
  finished_at = none;
}

abbrev pub busy : Message
busy = record waiting {
  id = "m2";
  status = processing;
  attempts = 1;
  claimed_by = some "w";
  lease_expires_at = some 100;
  claim_token = some "t";
  created = 2;
}

-- It has been tried as often as it may be.
abbrev pub spent : Message
spent = record busy { id = "m3"; attempts = 3 }

-- It is retried without end.
abbrev pub endless : Message
endless = record busy { id = "m4"; attempts = 40; max_attempts = 0 }

abbrev pub stored : Db
stored = record { queues = queue_a ∷ []; messages = waiting ∷ busy ∷ spent ∷ endless ∷ [] }

pub apart : (s t : String) → (s =ₜ t) ≡ false → s ≢ t
apart s t d e = ground (arith, (eq_iff s t).1 e, d)

pub stored-IsConsistent : IsConsistent stored
stored-IsConsistent = record {
  rows = (
    record {
      worker = refl;
      lease = refl;
      token = refl;
      ended = refl;
      tried = λ h. absurd (cc h);
      within = refl;
    },
    (
      record {
        worker = refl;
        lease = refl;
        token = refl;
        ended = refl;
        tried = λ _. omega arith;
        within = refl;
      },
      (
        record {
          worker = refl;
          lease = refl;
          token = refl;
          ended = refl;
          tried = λ _. omega arith;
          within = refl;
        },
        (
          record {
            worker = refl;
            lease = refl;
            token = refl;
            ended = refl;
            tried = λ _. omega arith;
            within = refl;
          },
          tt,
        ),
      ),
    ),
  );
  ids = (
    (apart "m2" "m1" refl, (apart "m3" "m1" refl, (apart "m4" "m1" refl, tt))),
    ((apart "m3" "m2" refl, (apart "m4" "m2" refl, tt)), ((apart "m4" "m3" refl, tt), (tt, tt))),
  );
  registered = (refl, (refl, (refl, (refl, tt))));
}

abbrev pub token_of : ℕ → String
token_of k = "u"

abbrev pub dto_k : EnqueueMessage
dto_k = record {
  id = none;
  queue = "a";
  payload = none;
  group_key = none;
  delay_seconds = none;
  priority = none;
  max_attempts = none;
  deduplication_id = some "k";
  original_message_id = none;
}
