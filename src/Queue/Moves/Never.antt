-- ===== src/Queue/Moves/Never.antt =====
-- The status 'failed', which src/queue/types.ts lists and the reads and the retries of the driver ask
-- for.
use nodestack.Prelude.{◌≡◌, ◌≢◌, refl, ap, Bool, false, List, [], ◌∷◌, All, All-map, ◌∙◌}
use mathlib.Core.List.{Mem, not-mem-nil, eq-or-mem_of_mem-cons}
use mathlib.Core.Logic.Or
use nodestack.Queue.Types.{Status, failed, Message, Db, empty_db}
use nodestack.Queue.Lifecycle.Table.{IsConsistent}
use nodestack.Queue.Lifecycle.History.{Call, step, run, step-IsConsistent}
use nodestack.Queue.Moves.{
  Kind, Move, to_worker, done_queued, done_processing, to_retry, to_grave, skip_queued,
  skip_processing, skip_failed, put_back, start_again, take_back, time_out, Moves, stays, then,
  Stems, kept, added,
}
use nodestack.Queue.Moves.Refined.{step-Stems}

abbrev is_failed : Status → Bool
is_failed failed = Bool.true
is_failed _ = false

All-Mem {ℓ} :
    {A : Type ℓ} (f : A → Bool) (b : Bool) (xs : List A) {x : A}
    → All (λ y. f y ≡ b) xs
    → Mem x xs
    → f x ≡ b
All-Mem f b [] h m = absurd (not-mem-nil m)
All-Mem f b (y ∷ ys) {x = x} (p, h) m =
    let prop : IsProp (f x ≡ b) = hlevel in
    Or.elim prop (eq-or-mem_of_mem-cons m) (λ e. ap f e ∙ p) (λ n. All-Mem f b ys h n)

Move-is_failed : {k : Kind} {s t : Status} → Move k s t → is_failed t ≡ false
Move-is_failed to_worker = refl
Move-is_failed done_queued = refl
Move-is_failed done_processing = refl
Move-is_failed to_retry = refl
Move-is_failed to_grave = refl
Move-is_failed skip_queued = refl
Move-is_failed skip_processing = refl
Move-is_failed skip_failed = refl
Move-is_failed put_back = refl
Move-is_failed start_again = refl
Move-is_failed take_back = refl
Move-is_failed time_out = refl

Moves-is_failed :
    {k : Kind} {s t : Status} → is_failed s ≡ false → Moves k s t → is_failed t ≡ false
Moves-is_failed h stays = h
Moves-is_failed h (then p v) = Move-is_failed v

Stems-is_failed :
    {k : Kind} {old : List Message} {m : Message}
    → All (λ o. is_failed o.status ≡ false) old
    → Stems k old m
    → is_failed m.status ≡ false
Stems-is_failed {old = old} h (kept o i e p) =
    Moves-is_failed (All-Mem (λ n. is_failed n.status) false old h i) p
Stems-is_failed h (added a q z) = ap is_failed q

run-is_failed :
    (db : Db) (cs : List Call)
    → IsConsistent db
    → All (λ m. is_failed m.status ≡ false) db.messages
    → All (λ m. is_failed m.status ≡ false) (run db cs).messages
unfolding run
run-is_failed db [] i h = h
run-is_failed db (c ∷ cs) i h =
    run-is_failed (step db c) cs (step-IsConsistent db c i)
      (All-map _ _ (λ m s. Stems-is_failed h s) _ (step-Stems db c i))

-- No history of calls that begins with empty tables leaves a message with the status 'failed'.
pub run-never_failed : (cs : List Call) → All (λ m. m.status ≢ failed) (run empty_db cs).messages
run-never_failed cs =
    All-map _ _ (λ m e same. absurd (cc (e, ap is_failed same))) _
      (run-is_failed empty_db cs (record { rows = tt; ids = tt; registered = tt }) tt)
