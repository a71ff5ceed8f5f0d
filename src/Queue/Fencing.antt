-- ===== src/Queue/Fencing.antt =====
-- Claim tokens as fences: what a worker can do to a message that it no longer holds.
use nodestack.Prelude.{
  ℕ, ◌+◌, ◌*◌, ◌≤◌, ◌≡◌, ◌≢◌, refl, String, Bool, true, false, List, [], ◌∷◌, Option, none, some,
  ◌=ₜ◌, ◌&&◌, arith, All, All-map, find, find_unique, find-key, eq_iff, Bool-cases, inl, inr, ok,
}
use nodestack.Prelude.Int.{ℤ, at_least}
use nodestack.Json.{Json}
use nodestack.Time.{to_iso, latest}
use nodestack.Sql.Laws.{update_where_none, changes_none}
use nodestack.Queue.Types.{is_processing, Message, Db}
use nodestack.Queue.Driver.Conditions.{column_is, find_message, token_ok, held}
use nodestack.Queue.Driver.Lease.{
  update_messages, touched, touch, completable, complete, in_strict_queue, deferred, defer,
}
use nodestack.Queue.Driver.Fail.{no_effect, fail}
use nodestack.Queue.Lookup.{update_messages-row}
use nodestack.Queue.Lifecycle.Table.{IsConsistent}
use nodestack.Queue.Lifecycle.Holders.{deferred-KeepsRow, update_messages-IsConsistent}

column_is-false : (o : Option String) (t : String) → o ≢ some t → column_is o t ≡ false
column_is-false none t h = refl
column_is-false (some s) t h = ground (arith, eq_iff s t)

-- A search that no member passes.
find-none {ℓ} :
    {A : Type ℓ} (p : A → Bool) (xs : List A) → All (λ x. p x ≡ false) xs → find p xs ≡ none
find-none p [] h = refl
find-none p (x ∷ xs) (e, h) = rw e (find-none p xs h)

update_messages_none :
    (p : Message → Bool) (f : Message → Message) (db : Db)
    → All (λ m. p m ≡ false) db.messages
    → update_messages p f db ≡ (false, db)
unfolding update_messages
update_messages_none p f db h =
    rw (changes_none p db.messages h, update_where_none p f db.messages h)

module _ (db : Db) (c : IsConsistent db) (id t : String) (m : Message)
    (found : find_message id db.messages ≡ some m) (given : t ≢ "")
    (stale : m.claim_token ≢ some t) where
  -- No row has this id and this token.
  token_fails : All (λ n. (n.id =ₜ id && token_ok (some t) n) ≡ false) db.messages
  token_fails =
      All-map _ _ at_row db.messages (find_unique (λ n. n.id) id db.messages m found c.ids)
    where
      at_row : (n : Message) → (n.id ≡ id → n ≡ m) → (n.id =ₜ id && token_ok (some t) n) ≡ false
      at_row n only = elim (Bool-cases (n.id =ₜ id)) [
        | inl e ↦
            let same : n ≡ m = only ((eq_iff n.id id).0 e) in
            rw e (rw same (ground (arith, column_is-false m.claim_token t stale, eq_iff t "")))
        | inr e ↦ rw e
      ]

  held_fails : All (λ n. held id (some t) n ≡ false) db.messages
  held_fails = All-map _ _ (λ n e. ground arith) db.messages token_fails

  completable_fails :
      (strict : Bool) → All (λ n. completable id (some t) strict n ≡ false) db.messages
  completable_fails strict = All-map _ _ (λ n e. ground arith) db.messages token_fails

  complete_stale :
      (now : ℕ) (result : Option Json) → complete now id result (some t) db ≡ (false, db)
  unfolding complete
  complete_stale now result =
      update_messages_none _ _ db (completable_fails (in_strict_queue id db))

  -- A worker that gives a token other than the one that the message carries changes nothing:
  -- `complete` and `touch` return false, and `fail` reports neither a retry nor a dead letter.
  -- (The token is not empty, and the time to which `touch` would extend the lease is in range.)
  pub stale_token :
      (now extension : ℕ) (result : Option Json) (fresh error : String) (delay : Option ℤ)
      → now + extension * 1000 ≤ latest
      → (complete now id result (some t) db ≡ (false, db))
        × (touch now id extension (some t) db ≡ ok (false, db))
        × (fail now fresh id error delay (some t) db ≡ ok (no_effect, db))
  unfolding touch fail to_iso
  stale_token now extension result fresh error delay range = (
    complete_stale now result,
    ground (
      arith,
      update_messages_none (held id (some t)) (touched now (now + extension * 1000)) db held_fails,
    ),
    rw (find-none (held id (some t)) db.messages held_fails, fail),
  )

-- `defer` takes no token: a worker that lost a message can take it from the worker that holds it
-- now. The message goes back to 'queued' without a token, and `complete` with the holder's token
-- then returns false. (The message is in process under that token, which is not empty, and the time
-- of the delay is in range.)
pub defer_takes_from_holder :
    (db : Db) (id t : String) (m : Message) (now later : ℕ) (delay : ℤ) (reason : Option String)
    (result : Option Json)
    → IsConsistent db
    → find_message id db.messages ≡ some m
    → is_processing m.status ≡ true
    → t ≢ ""
    → now + at_least 0 delay ≤ latest
    → (db' : Db) × (defer now id delay reason db ≡ ok (true, db'))
      × (find_message id db'.messages ≡ some (deferred now (now + at_least 0 delay) reason m))
      × (complete later id result (some t) db' ≡ (false, db'))
unfolding defer to_iso
defer_takes_from_holder db id t m now later delay reason result c found busy given range =
    let at = now + at_least 0 delay in
    let f = deferred now at reason in
    let (changed, row) = update_messages-row (held id none) f id m db (λ n. refl) found held_m in
    (
      (update_messages (held id none) f db).1,
      ground (arith, changed),
      row,
      complete_stale _ (after at) id t (f m) row given (λ e. cc) later result,
    )
  where
    held_m : held id none m ≡ true
    held_m = ground (arith, eq_iff m.id id, find-key (λ n. n.id) id db.messages m found)

    after : (at : ℕ) → IsConsistent (update_messages (held id none) (deferred now at reason) db).1
    after at = update_messages-IsConsistent (deferred-KeepsRow id now at reason) db c
