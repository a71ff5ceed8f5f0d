-- ===== src/Queue/Lifecycle/Claims.antt =====
-- `claim` keeps the invariant.
use nodestack.Prelude.{
  ℕ, suc, ◌+◌, ◌*◌, refl, String, List, [], ◌∷◌, ◌==◌, arith, Bool-cases, inl, inr, Ensures,
  ok-Ensures, bind-any-Ensures,
}
use nodestack.Prelude.Int.{ℤ, at_least}
use nodestack.Time.{to_iso}
use nodestack.Queue.Types.{Message, Db}
use nodestack.Queue.Driver.Claim.{
  Lease, claimed, still_queued, claim_each, effective_limit, timeout_seconds, claim,
}
use nodestack.Queue.Lifecycle.Row.{claimed-IsValid}
use nodestack.Queue.Lifecycle.Table.{IsConsistent, KeepsRow, update_where-IsConsistent}

pub claimed-KeepsRow :
    (id : String) (now : ℕ) (l : Lease) → KeepsRow (still_queued id) (claimed now l)
claimed-KeepsRow id now l = record {
  valid = λ m h v. claimed-IsValid m v now l (ground arith);
  same_id = λ m. refl;
  same_queue = λ m. refl;
}

pub claim_each-IsConsistent :
    (now : ℕ) (worker : String) (expires : ℕ) (tokens : ℕ → String) (k : ℕ) (cs : List Message)
    (db : Db)
    → IsConsistent db
    → IsConsistent
        (record db { messages = (claim_each now worker expires tokens k cs db.messages).1 })
unfolding claim_each
claim_each-IsConsistent now worker expires tokens k [] db c = c
claim_each-IsConsistent now worker expires tokens k (x ∷ cs) db c =
    claim_each-IsConsistent now worker expires tokens (suc k) cs _
      (update_where-IsConsistent (claimed-KeepsRow x.id now lease) db c)
  where
    lease : Lease
    lease = record { claimed_by = worker; expires_at = expires; token = tokens k }

pub claim-IsConsistent :
    (now : ℕ) (tokens : ℕ → String) (queue worker : String) (visibility limit : ℤ) (db : Db)
    → IsConsistent db
    → Ensures (λ r. IsConsistent r.1) (claim now tokens queue worker visibility limit db)
unfolding claim
claim-IsConsistent now tokens queue worker visibility limit db c =
    bind-any-Ensures (to_iso (now + timeout_seconds visibility * 1000)) λ expires.
      elim (Bool-cases (effective_limit (at_least 1 limit) queue now db == 0)) [
        | inl e ↦ rw e (ok-Ensures c)
        | inr e ↦ rw e (ok-Ensures (claim_each-IsConsistent now worker expires tokens 0 _ db c))
      ]
