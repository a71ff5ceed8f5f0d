-- ===== src/Queue/Tests/Claims.antt =====
-- `claim` on a concrete database.
use nodestack.Prelude.{◌≤◌, ◌≡◌, refl, true, [], ◌∷◌, none, some, All, length, ok}
use nodestack.Prelude.Int.{pos, at_least}
use nodestack.Json.{null}
use nodestack.Time.{to_iso, iso_le}
use nodestack.Sql.{update_where, changes, place, order_by}
use nodestack.Queue.Types.{processing, Message, Db}
use nodestack.Queue.Driver.Conditions.{map_row_to_message}
use nodestack.Queue.Driver.Claim.{
  claim, effective_limit, active_count, candidates, strict_candidates, heads_of_line, claim_each,
}
use nodestack.Queue.Claiming.Limits.{most_active, claim_limits}
use nodestack.Queue.Claiming.Taken.{IsTaken, IsCandidate, claim-IsTaken}
use nodestack.Queue.Claiming.Order.{claim-first, unfinished_in, NotAfter}
use nodestack.Queue.Tests.Stored.{
  queue_a, waiting, busy, spent, endless, stored, stored-IsConsistent, token_of,
}

-- The first message of the queue passes to a worker.
abbrev handed : Message
handed = record waiting {
  status = processing;
  payload = some null;
  attempts = 1;
  claimed_by = some "v";
  lease_expires_at = some 30_010;
  claim_token = some "u";
  updated = 10;
}

abbrev claimed_db : Db
claimed_db = record stored {
  messages = record handed { payload = none } ∷ busy ∷ spent ∷ endless ∷ [];
}

claim_at_10 : claim 10 token_of "a" "v" (pos 30) (pos 1) stored ≡ ok (handed ∷ [], claimed_db)
unfolding claim to_iso iso_le effective_limit active_count candidates strict_candidates
    heads_of_line order_by place claim_each update_where changes map_row_to_message
claim_at_10 = refl

claim_limits_example :
    (length (handed ∷ []) ≤ at_least 1 (pos 1))
    × (active_count "a" 10 claimed_db.messages
        ≤ most_active (some queue_a) 1 (active_count "a" 10 stored.messages))
claim_limits_example =
    claim_limits 10 token_of "a" "v" (pos 30) (pos 1) stored claimed_db (handed ∷ []) claim_at_10
      stored-IsConsistent

claim-IsTaken_example : All (IsTaken (IsCandidate "a" 10 stored.messages) "v" 10) (handed ∷ [])
claim-IsTaken_example =
    claim-IsTaken 10 token_of "a" "v" (pos 30) (pos 1) stored claimed_db (handed ∷ [])
      stored-IsConsistent claim_at_10

claim-first_example :
    All
      (IsTaken
        (λ m.
          IsCandidate "a" 10 stored.messages m
          × All (λ n. unfinished_in "a" n ≡ true → NotAfter m n) stored.messages)
        "v"
        10)
      (handed ∷ [])
claim-first_example =
    claim-first 10 token_of "a" "v" (pos 30) (pos 1) stored claimed_db (handed ∷ [])
      stored-IsConsistent refl claim_at_10
