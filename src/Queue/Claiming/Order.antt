-- ===== src/Queue/Claiming/Order.antt =====
-- Strict queues: a message is not claimed before the earlier messages of its partition are done.
use nodestack.Prelude.{
  ℕ, ◌≡◌, subst, String, Bool, true, false, List, [], ◌∷◌, ◌=ₜ◌, ◌&&◌, arith, All, All-map, All-zip,
  All-filter, All-take, All-of-filter, any, eq_iff, Bool-cases, inl, inr, ok,
}
use nodestack.Prelude.Int.{ℤ}
use nodestack.Time.{iso_le}
use nodestack.Sql.Sorted.{Sorted, IsOrder, order_by-Sorted, All-of-order_by}
use nodestack.Queue.Types.{is_unfinished, Message, Db}
use nodestack.Queue.Driver.Claim.{
  is_due, is_strict, partition, by_created, heads_of_line, strict_candidates, candidates, claim,
}
use nodestack.Queue.Lifecycle.Table.{IsConsistent}
use nodestack.Queue.Claiming.Taken.{IsCandidate, candidates-All, IsTaken, claim-All}

by_created-IsOrder : IsOrder by_created
unfolding iso_le
by_created-IsOrder = record { total = λ a b h. ground arith; trans = λ a b c h k. ground arith }

-- `m` is not after `n`, if the two share a partition.
abbrev pub NotAfter : Message → Message → Type 0
NotAfter m n = partition n ≡ partition m → by_created m n ≡ true

-- The first of its partition, which is none of those seen.
record IsHead (seen : List String) (rows : List Message) (m : Message) : Type 0 where
  fresh : any (λ g. g =ₜ partition m) seen ≡ false
  first : All (NotAfter m) rows

by_created_refl : (m : Message) → by_created m m ≡ true
unfolding iso_le
by_created_refl m = ground arith

heads_of_line-IsHead :
    (seen : List String) (rows : List Message)
    → Sorted by_created rows
    → All (IsHead seen rows) (heads_of_line seen rows)
unfolding heads_of_line
heads_of_line-IsHead seen [] s = tt
heads_of_line-IsHead seen (m ∷ ms) (h, s) = elim (Bool-cases (any (λ g. g =ₜ partition m) seen)) [
  | inl e ↦ rw e (
      All-map _ _
        (λ n k. record {
          fresh = k.fresh;
          first = ((λ q. cc (subst (λ g. any (λ s. s =ₜ g) seen ≡ true) q e, k.fresh)), k.first);
        })
        _ (heads_of_line-IsHead seen ms s))
  | inr e ↦ rw e (
    record { fresh = e; first = ((λ _. by_created_refl m), All-map _ _ (λ n p _. p) ms h) },
    All-map _ _
        (λ n k. record {
          fresh = ground (arith, k.fresh);
          first = ((λ q. ground (arith, k.fresh, eq_iff (partition m) (partition n))), k.first);
        })
        _ (heads_of_line-IsHead (partition m ∷ seen) ms s),
  )
]

-- A message of the queue that is queued or in process.
abbrev pub unfinished_in : String → Message → Bool
unfinished_in queue m = m.queue =ₜ queue && is_unfinished m.status

-- Every candidate of a strict queue is not after any unfinished message of its partition.
strict_candidates-first :
    (queue : String) (now : ℕ) (messages : List Message)
    → All
        (λ m. All (λ n. unfinished_in queue n ≡ true → NotAfter m n) messages)
        (strict_candidates queue now messages)
unfolding strict_candidates
strict_candidates-first queue now messages = All-filter _ (is_due now) _ (
    All-map _ _
      (λ m h.
        All-of-filter _ (unfinished_in queue) messages
          (All-of-order_by (NotAfter m) by_created _ h.first))
      _ (heads_of_line-IsHead [] _ (order_by-Sorted by_created-IsOrder _)))

candidates-first :
    (queue : String) (now limit : ℕ) (db : Db)
    → is_strict queue db ≡ true
    → All
        (λ m. All (λ n. unfinished_in queue n ≡ true → NotAfter m n) db.messages)
        (candidates queue now limit db)
unfolding candidates
candidates-first queue now limit db strict =
    rw strict (All-take _ limit _ (strict_candidates-first queue now db.messages))

-- In a queue with `strictOrder` a claim takes no message while an earlier one of its partition is
-- queued or in process: every row that is taken was a candidate, and no message of the queue with
-- the same group that was unfinished at the time of the claim had been created before it.
pub claim-first :
    (now : ℕ) (tokens : ℕ → String) (queue worker : String) (visibility limit : ℤ) (db db' : Db)
    (taken : List Message)
    → IsConsistent db
    → is_strict queue db ≡ true
    → claim now tokens queue worker visibility limit db ≡ ok (taken, db')
    → All
        (IsTaken
          (λ m.
            IsCandidate queue now db.messages m
            × All (λ n. unfinished_in queue n ≡ true → NotAfter m n) db.messages)
          worker
          now)
        taken
claim-first now tokens queue worker visibility limit db db' taken c strict =
    claim-All _ now tokens queue worker visibility limit db db' taken c (λ m k. k.0.there)
      (All-zip _ _ _ (λ m p q. (p, q)) _ (candidates-All queue now _ db c)
        (candidates-first queue now _ db strict))
