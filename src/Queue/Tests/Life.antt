-- ===== src/Queue/Tests/Life.antt =====
-- The moves of messages in concrete histories.
use nodestack.Prelude.{◌≢◌, List, [], ◌∷◌, none, some, All}
use nodestack.Prelude.Int.{pos}
use nodestack.Queue.Types.{failed, empty_db}
use nodestack.Queue.Lifecycle.History.{Call, step, run, sends, claims, fails}
use nodestack.Queue.Moves.{kind, Stems}
use nodestack.Queue.Moves.Refined.{step-Stems}
use nodestack.Queue.Moves.Never.{run-never_failed}
use nodestack.Queue.Tests.Stored.{stored, stored-IsConsistent, token_of, dto_k}

-- The worker of "m2" gives it up.
abbrev giving_up : Call
giving_up = fails 20 "m3" "m2" "boom" none (some "t")

step-Stems_example : All (Stems (kind giving_up) stored.messages) (step stored giving_up).messages
step-Stems_example = step-Stems stored giving_up stored-IsConsistent

abbrev one_attempt : List Call
one_attempt =
    sends 1 "m1" dto_k
    ∷ claims 10 token_of "a" "v" (pos 30) (pos 1)
    ∷ fails 20 "m2" "m1" "boom" none (some "u")
    ∷ []

run-never_failed_example : All (λ m. m.status ≢ failed) (run empty_db one_attempt).messages
run-never_failed_example = run-never_failed one_attempt
