-- ===== src/Queue/Moves/Calls.antt =====
-- The calls of workers move the messages only as their kinds may: `claim`, `touch`, `complete`,
-- `defer`, `fail`, `forceDeadLetter`.
use nodestack.Prelude.{
  ℕ, suc, ◌+◌, ◌*◌, ◌≡◌, refl, sym, subst, String, true, false, List, [], ◌∷◌, Option, none, some,
  ◌=ₜ◌, ◌==◌, arith, find, All, All-map, All-zip, Bool-cases, Option-cases, inl, inr, eq_iff,
  find_unique, Ensures, ok-Ensures, bind-Ensures, bind-any-Ensures,
}
use mathlib.Core.List.{Mem}
use nodestack.Prelude.Int.{ℤ, at_least}
use nodestack.Json.{Json}
use nodestack.Time.{to_iso}
use nodestack.Sql.Laws.{All-update_where}
use nodestack.Queue.Types.{
  queued, processing, completed, failed, Status, dead_letter, is_unfinished, Message, Db,
}
use nodestack.Queue.Driver.Conditions.{find_message, held}
use nodestack.Queue.Driver.Claim.{
  Lease, claimed, still_queued, claim_each, effective_limit, timeout_seconds, claim,
}
use nodestack.Queue.Driver.Lease.{
  update_messages, touched, touch, completable, in_strict_queue, completed_with, complete, finished,
  deferred, defer,
}
use nodestack.Queue.Driver.Fail.{
  may_retry, requeued, retry_later, bury, fail, is_closed, force_dead_letter,
}
use nodestack.Queue.Lifecycle.Table.{IsConsistent}
use nodestack.Queue.Lifecycle.RowWise.{update-All}
use nodestack.Queue.Lifecycle.Holders.{held-processing}
use nodestack.Queue.Moves.{
  Move, stays, then, Stems, kept, passive, claiming, to_worker, completing, done_queued,
  done_processing, failing, to_retry, to_grave, skipping, skip_queued, skip_processing, skip_failed,
  deferring, put_back,
}
use nodestack.Queue.Moves.Rows.{still, moved, members, members-Stems}
use nodestack.Queue.Moves.Table.{
  AllStem, at_processing, at_queued, processing-apart, update-Stems, forward-Stems,
}

unfinished-done : (s : Status) → is_unfinished s ≡ true → Move completing s completed
unfinished-done queued h = done_queued
unfinished-done processing h = done_processing
unfinished-done completed h = absurd (cc h)
unfinished-done failed h = absurd (cc h)
unfinished-done dead_letter h = absurd (cc h)

not_closed-skip : (s : Status) → is_closed s ≡ false → Move skipping s dead_letter
not_closed-skip queued h = skip_queued
not_closed-skip processing h = skip_processing
not_closed-skip completed h = absurd (cc h)
not_closed-skip failed h = skip_failed
not_closed-skip dead_letter h = absurd (cc h)

module _ (old : List Message) where
  claimed-Stems :
      (id : String) (now : ℕ) (l : Lease) (m : Message)
      → still_queued id m ≡ true
      → Stems claiming old m
      → Stems claiming old (claimed now l m)
  claimed-Stems id now l m h s =
      moved (claimed now l m) m refl
        (at_queued (λ t. Move claiming t Status.processing) to_worker m.status (ground arith))
        (λ a. absurd (cc a)) s

  claim_each-Stems :
      (now : ℕ) (worker : String) (expires : ℕ) (tokens : ℕ → String) (k : ℕ)
      (cs messages : List Message)
      → All (Stems claiming old) messages
      → All (Stems claiming old) (claim_each now worker expires tokens k cs messages).1
  unfolding claim_each
  claim_each-Stems now worker expires tokens k [] messages h = h
  claim_each-Stems now worker expires tokens k (c ∷ cs) messages h =
      claim_each-Stems now worker expires tokens (suc k) cs _
        (All-update_where (Stems claiming old) _ _ (claimed-Stems c.id now _) messages h)

  pub claim-Stems :
      (now : ℕ) (tokens : ℕ → String) (queue worker : String) (visibility limit : ℤ) (db : Db)
      → AllStem claiming old db
      → Ensures (λ r. AllStem claiming old r.1) (claim now tokens queue worker visibility limit db)
  unfolding claim
  claim-Stems now tokens queue worker visibility limit db h =
      bind-any-Ensures (to_iso (now + timeout_seconds visibility * 1000)) λ expires.
        elim (Bool-cases (effective_limit (at_least 1 limit) queue now db == 0)) [
          | inl e ↦ rw e (ok-Ensures h)
          | inr e ↦ rw e (ok-Ensures (claim_each-Stems now worker expires tokens 0 _ db.messages h))
        ]

  pub touch-Stems :
      (now : ℕ) (id : String) (extension : ℕ) (token : Option String) (db : Db)
      → AllStem passive old db
      → Ensures (λ r. AllStem passive old r.1) (touch now id extension token db)
  unfolding touch
  touch-Stems now id extension token db h = bind-any-Ensures (to_iso _) λ expires. ok-Ensures (
      update-Stems passive old _ _ (λ m _ s. still (touched now expires m) m refl refl refl s) db h)

  pub complete-Stems :
      (now : ℕ) (id : String) (result : Option Json) (token : Option String) (db : Db)
      → AllStem completing old db
      → AllStem completing old (complete now id result token db).1
  unfolding complete
  complete-Stems now id result token db h =
      update-Stems completing old _ _
        (λ m p s.
          moved (completed_with now result m) m refl (unfinished-done m.status (open_row m p))
            (λ a. absurd (cc a)) s)
        db h
    where
      open_row :
          (m : Message)
          → completable id token (in_strict_queue id db) m ≡ true
          → is_unfinished m.status ≡ true
      open_row m p = ground arith

  pub defer-Stems :
      (now : ℕ) (id : String) (delay : ℤ) (reason : Option String) (db : Db)
      → AllStem deferring old db
      → Ensures (λ r. AllStem deferring old r.1) (defer now id delay reason db)
  unfolding defer
  defer-Stems now id delay reason db h = bind-any-Ensures (to_iso _) λ at. ok-Ensures (
      update-Stems deferring old _ _
        (λ m p s.
          moved (deferred now at reason m) m refl
            (at_processing (λ t. Move deferring t Status.queued) put_back m.status
              (held-processing id none m p))
            (λ a. absurd (cc a)) s)
        db h)

  retry_later-Stems :
      (now : ℕ) (error : String) (delay : ℕ) (token : Option String) (row : Message) (db : Db)
      → AllStem failing old db
      → Ensures (λ r. AllStem failing old r.1) (retry_later now error delay token row db)
  unfolding retry_later
  retry_later-Stems now error delay token row db h = bind-any-Ensures (to_iso (now + delay)) λ at.
      elim (Bool-cases (update_messages (held row.id token) (requeued now at error) db).0) [
        | inl e ↦ rw e (
            ok-Ensures
              (update-Stems failing old (held row.id token) (requeued now at error) (back at) db h))
        | inr e ↦ rw e (ok-Ensures h)
      ]
    where
      back :
          (at : ℕ) (m : Message)
          → held row.id token m ≡ true
          → Stems failing old m
          → Stems failing old (requeued now at error m)
      back at m p s =
          let busy = held-processing row.id token m p in
          moved (requeued now at error m) m refl
            (at_processing (λ t. Move failing t Status.queued) to_retry m.status busy)
            (λ a. processing-apart m.status busy) s

  bury-Stems :
      (now : ℕ) (fresh error : String) (token : Option String) (row : Message) (db : Db)
      → AllStem failing old db
      → Ensures (λ r. AllStem failing old r.1) (bury now fresh error token row db)
  unfolding bury
  bury-Stems now fresh error token row db h =
      elim (Bool-cases
        (update_messages (held row.id token) (finished dead_letter now (some error)) db).0) [
          | inl e ↦
              rw (e, bury)
                (bind-Ensures
                  (forward-Stems failing old refl now fresh _ error _ row _ (
                    update-Stems failing old (held row.id token)
                      (finished dead_letter now (some error)) gone db h))
                  λ db' h'. ok-Ensures h')
          | inr e ↦ rw (e, bury) (ok-Ensures h)
        ]
    where
      gone :
          (m : Message)
          → held row.id token m ≡ true
          → Stems failing old m
          → Stems failing old (finished dead_letter now (some error) m)
      gone m p s =
          let busy = held-processing row.id token m p in
          moved (finished dead_letter now (some error) m) m refl
            (at_processing (λ t. Move failing t dead_letter) to_grave m.status busy)
            (λ a. processing-apart m.status busy) s

  pub fail-Stems :
      (now : ℕ) (fresh id error : String) (delay : Option ℤ) (token : Option String) (db : Db)
      → AllStem failing old db
      → Ensures (λ r. AllStem failing old r.1) (fail now fresh id error delay token db)
  unfolding fail
  fail-Stems now fresh id error delay token db h =
      elim (Option-cases (find (held id token) db.messages)) [
        | inl e ↦ rw (e, fail) (ok-Ensures h)
        | inr (row, e) ↦ elim (Bool-cases (may_retry row)) [
          | inl r ↦ rw (e, fail, r) (retry_later-Stems now error _ token row db h)
          | inr r ↦ rw (e, fail, r) (bury-Stems now fresh error token row db h)
        ]
      ]

-- The id finds one row, which is not closed, so that each row with the id is not closed.
only_open :
    (id : String) (row : Message) (db : Db)
    → IsConsistent db
    → find_message id db.messages ≡ some row
    → is_closed row.status ≡ false
    → All (λ m. (m.id =ₜ id) ≡ true → is_closed m.status ≡ false) db.messages
only_open id row db c e open_row =
    All-map _ _
      (λ m only h.
        subst (λ n. is_closed n.status ≡ false) (sym (only ((eq_iff m.id id).0 h))) open_row)
      db.messages (find_unique (λ n. n.id) id db.messages row e c.ids)

skip-Stems :
    (now : ℕ) (id reason : String) (row : Message) (db : Db)
    → IsConsistent db
    → find_message id db.messages ≡ some row
    → is_closed row.status ≡ false
    → AllStem skipping db.messages
        (update_messages (λ m. m.id =ₜ id) (finished dead_letter now (some reason)) db).1
unfolding update_messages
skip-Stems now id reason row db c e open_row =
    update-All (λ m. Mem m db.messages × ((m.id =ₜ id) ≡ true → is_closed m.status ≡ false))
      (Stems skipping db.messages) _ _
      (λ m p (i, o). kept m i refl (then stays (not_closed-skip m.status (o p))))
      (λ m p (i, o). kept m i refl stays) db.messages
      (All-zip _ _ _ (λ m i o. (i, o)) db.messages (members db.messages)
        (only_open id row db c e open_row))

pub force_dead_letter-Stems :
    (now : ℕ) (fresh id reason : String) (db : Db)
    → IsConsistent db
    → Ensures (λ r. AllStem skipping db.messages r.1) (force_dead_letter now fresh id reason db)
unfolding force_dead_letter
force_dead_letter-Stems now fresh id reason db c =
    elim (Option-cases (find_message id db.messages)) [
      | inl e ↦ rw (e, force_dead_letter) (ok-Ensures (members-Stems skipping db.messages))
      | inr (row, e) ↦ elim (Bool-cases (is_closed row.status)) [
        | inl r ↦ rw (e, force_dead_letter, r) (ok-Ensures (members-Stems skipping db.messages))
        | inr r ↦
            elim (Bool-cases
              (update_messages (λ m. m.id =ₜ id) (finished dead_letter now (some reason)) db).0) [
                | inl u ↦
                    rw (e, force_dead_letter, r, u)
                      (bind-Ensures
                        (forward-Stems skipping db.messages refl now fresh _ reason row.attempts row
                          _ (skip-Stems now id reason row db c e r))
                        λ db' h'. ok-Ensures h')
                | inr u ↦
                    rw (e, force_dead_letter, r, u)
                      (ok-Ensures (members-Stems skipping db.messages))
              ]
      ]
    ]
