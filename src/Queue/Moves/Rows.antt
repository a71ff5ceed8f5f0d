-- ===== src/Queue/Moves/Rows.antt =====
-- What the assignments of the driver do to where a message stems from.
use nodestack.Prelude.{
  ℕ, ◌≡◌, refl, sym, subst, String, true, false, List, [], ◌∷◌, All, All-map, ◌∙◌,
}
use mathlib.Core.List.{Mem, mem-cons_self, mem-cons_of_mem}
use nodestack.Queue.Types.{is_queued, Message, EnqueueMessage}
use nodestack.Queue.Driver.Insert.{new_row}
use nodestack.Queue.Moves.{Kind, Move, Moves, stays, then, adds, job_of, Stems, kept, added}

-- Every member of a list is a member of it.
pub members {ℓ} : {A : Type ℓ} (xs : List A) → All (λ x. Mem x xs) xs
members [] = tt
members (x ∷ xs) = (mem-cons_self, All-map _ _ (λ y h. mem-cons_of_mem x h) xs (members xs))

module _ {k : Kind} {old : List Message} where
  -- An assignment that leaves the status and the attempts.
  pub still :
      (n m : Message)
      → job_of n ≡ job_of m
      → n.status ≡ m.status
      → n.attempts ≡ m.attempts
      → Stems k old m
      → Stems k old n
  still n m j s a (kept o i e p) = kept o i (j ∙ e) (subst (Moves k o.status) (sym s) p)
  still n m j s a (added h q z) = added h (s ∙ q) (a ∙ z)

  -- An assignment that makes a move, which a message that the call has added cannot make.
  pub moved :
      (n m : Message)
      → job_of n ≡ job_of m
      → Move k m.status n.status
      → (adds k ≡ true → is_queued m.status ≡ false)
      → Stems k old m
      → Stems k old n
  moved n m j v apart (kept o i e p) = kept o i (j ∙ e) (then p v)
  moved n m j v apart (added h q z) = absurd (cc (apart h, q))

-- Every row of a table stems from itself.
pub members-Stems : (k : Kind) (old : List Message) → All (Stems k old) old
members-Stems k old = All-map _ _ (λ m h. kept m h refl stays) old (members old)

pub new_row-Stems :
    (k : Kind) (old : List Message)
    → adds k ≡ true
    → (now : ℕ) (fresh : String) (at most : ℕ) (dto : EnqueueMessage)
    → Stems k old (new_row now fresh at most dto)
unfolding new_row
new_row-Stems k old h now fresh at most dto = added h refl refl
