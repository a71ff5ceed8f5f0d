-- ===== src/Queue/Tests/Upkeep.antt =====
-- `send`, `cleanup`, `getStats`, `getMessages`, `upsertQueue` and `reclaimOrphaned` on concrete
-- databases.
use nodestack.Prelude.{◌≡◌, refl, true, false, [], ◌∷◌, none, some, All, arith, ok, ◌&&◌}
use nodestack.Prelude.Int.{pos}
use nodestack.Json.{null}
use nodestack.Time.{iso_le}
use nodestack.Sql.{update_where, delete_where, changes}
use nodestack.Queue.Types.{completed, is_processing, Message, Db}
use nodestack.Queue.Driver.Conditions.{find_message, map_row_to_message}
use nodestack.Queue.Driver.Insert.{
  send, insert_message, ensure_queue, find_duplicate, due_time, new_row, insert_row,
}
use nodestack.Queue.Driver.Lease.{update_messages}
use nodestack.Queue.Driver.Fail.{dlq_of}
use nodestack.Queue.Driver.Retry.{delete_messages}
use nodestack.Queue.Driver.Reclaim.{
  in_queue, Scope, returned, is_orphaned, reclaim_one, reclaim_each, reclaim_orphaned,
}
use nodestack.Queue.Reclaiming.Spares.{reclaim_spares}
use nodestack.Queue.Reclaiming.Clears.{reclaim_clears}
use nodestack.Queue.Driver.Remove.{cleanup, is_stale}
use nodestack.Queue.Driver.Reads.{GetMessages}
use nodestack.Queue.Sending.{send_twice}
use nodestack.Queue.Lifecycle.Table.{IsConsistent}
use nodestack.Queue.Tests.Stored.{waiting, busy, spent, endless, stored, apart, token_of, dto_k}

abbrev done : Message
done = record waiting { id = "m0"; status = completed; finished_at = some 7 }

abbrev untidy : Db
untidy = record stored { messages = done ∷ stored.messages }

cleanup_at_100 : cleanup 100 (pos 0) none untidy ≡ ok (1, stored)
unfolding cleanup delete_messages delete_where changes is_stale iso_le
cleanup_at_100 = refl

-- The row that the first send adds.
abbrev sent_row : Message
sent_row = record waiting {
  id = "f1";
  available_at = 10;
  deduplication_id = some "k";
  created = 10;
  updated = 10;
}

abbrev sent : Message
sent = record sent_row { payload = some null }

abbrev sent_db : Db
sent_db = record stored { messages = waiting ∷ busy ∷ spent ∷ endless ∷ sent_row ∷ [] }

send_at_10 : send 10 "f1" dto_k stored ≡ ok (sent, sent_db)
unfolding send insert_message ensure_queue find_duplicate due_time new_row insert_row
    map_row_to_message
send_at_10 = refl

send_twice_example : send 11 "f2" dto_k sent_db ≡ ok (sent, sent_db)
send_twice_example = send_twice 10 11 "f1" "f2" "k" dto_k stored sent_db sent refl send_at_10

-- Its lease has run out at 50.
abbrev late : Message
late = record busy { id = "m5"; lease_expires_at = some 5; error = some "slow" }

abbrev leased : Db
leased = record stored { messages = waiting ∷ busy ∷ late ∷ [] }

leased-IsConsistent : IsConsistent leased
leased-IsConsistent = record {
  rows = (
    record {
      worker = refl;
      lease = refl;
      token = refl;
      ended = refl;
      tried = λ h. absurd (cc h);
      within = refl;
    },
    (
      record {
        worker = refl;
        lease = refl;
        token = refl;
        ended = refl;
        tried = λ _. omega arith;
        within = refl;
      },
      (
        record {
          worker = refl;
          lease = refl;
          token = refl;
          ended = refl;
          tried = λ _. omega arith;
          within = refl;
        },
        tt,
      ),
    ),
  );
  ids =
      ((apart "m2" "m1" refl, (apart "m5" "m1" refl, tt)), ((apart "m5" "m2" refl, tt), (tt, tt)));
  registered = (refl, (refl, (refl, tt)));
}

abbrev reclaimed : Db
reclaimed = record leased { messages = waiting ∷ busy ∷ returned 50 late ∷ [] }

reclaim_at_50 : reclaim_orphaned 50 token_of none Scope.expired_only leased ≡ ok (1, [], reclaimed)
unfolding reclaim_orphaned reclaim_each reclaim_one is_orphaned update_messages update_where changes
    iso_le dlq_of
reclaim_at_50 = refl

reclaim_spares_example : find_message "m2" reclaimed.messages ≡ some busy
unfolding is_orphaned iso_le
reclaim_spares_example =
    reclaim_spares 50 token_of none Scope.expired_only leased reclaimed 1 [] "m2" busy
      leased-IsConsistent refl refl refl reclaim_at_50

abbrev cleared : Db
cleared = record leased { messages = waiting ∷ returned 50 busy ∷ returned 50 late ∷ [] }

reclaim_all_at_50 : reclaim_orphaned 50 token_of none Scope.force_all leased ≡ ok (2, [], cleared)
unfolding reclaim_orphaned reclaim_each reclaim_one is_orphaned update_messages update_where changes
    iso_le dlq_of
reclaim_all_at_50 = refl

reclaim_clears_example :
    All (λ n. (in_queue none n && is_processing n.status) ≡ false) cleared.messages
reclaim_clears_example = reclaim_clears 50 token_of none leased cleared 2 [] reclaim_all_at_50

-- The first page of all queues, with a page length over the limit.
abbrev first_page : GetMessages
first_page = record {
  queue = none;
  status = none;
  group_key = none;
  page = none;
  per_page = some (pos 500);
  include_system = true;
}
