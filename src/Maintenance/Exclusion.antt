-- ===== src/Maintenance/Exclusion.antt =====
-- Exclusive work under src/core/maintenance/MaintenanceGate.ts runs alone.
use nodestack.Prelude.{
  ℕ, zero, suc, ◌≡◌, refl, String, Bool, true, false, List, [], ◌∷◌, ◌++◌, ◌&&◌, if◌then◌else◌,
  if-both, arith, Bool-cases, inl, inr, remove_one, remove, has, add, Outcome, ok, throw, ◌⊎◌,
  &&-eq-true,
}
use nodestack.Maintenance.Gate.{
  Phase, draining, acting, Gate, new_gate, is_empty, notify_drain, drained, flush_waiting_queue,
  track_request_start, resume_request, wait_times_out, track_request_end, execute_exclusive,
  give_up, drain_times_out, is_acting, drop_run, action_ends, GateEvent, starts, resumes, rejects,
  ends, executes, gives_up, finishes, resets, gate_step, gate_run,
}

-- The action has begun, and the wait for the active requests was not given up.
abbrev pub acts_in_time : Phase → Bool
acts_in_time (acting true) = true
acts_in_time _ = false

-- An open gate has no exclusive call. A closed one has one, no request that was released before is
-- still to go on, and if the action runs in time no request is active.
pub data IsExclusive (g : Gate) : Type 0 where
  open_gate : g.is_gated ≡ false → g.is_executing ≡ false → g.runs ≡ [] → IsExclusive g
  closed_gate :
      (p : Phase)
      → g.is_gated ≡ true
      → g.is_executing ≡ true
      → g.runs ≡ p ∷ []
      → g.released ≡ []
      → (acts_in_time p ≡ true → g.active ≡ [])
      → IsExclusive g

-- The gate is not reset, and no exclusive call begins before the requests that the gate has released
-- have gone on.
unfoldable pub is_orderly : GateEvent → Gate → Bool
is_orderly executes g = is_empty g.released
is_orderly resets g = false
is_orderly _ g = true

unfoldable pub is_orderly_run : List GateEvent → Gate → Bool
is_orderly_run [] g = true
is_orderly_run (e ∷ es) g = is_orderly e g && is_orderly_run es (gate_step e g)

nil_of_empty {ℓ} : {A : Type ℓ} (xs : List A) → is_empty xs ≡ true → xs ≡ []
nil_of_empty [] h = refl
nil_of_empty (x ∷ xs) h = absurd (cc h)

-- One call that waits or acts is one such call after a wait is given up, and acts in time only if it
-- did before.
give_up-one :
    (k : ℕ) (p : Phase)
    → (p' : Phase) × (give_up k (p ∷ []) ≡ p' ∷ [])
      × (acts_in_time p' ≡ true → acts_in_time p ≡ true)
unfolding give_up
give_up-one zero draining = (acting false, refl, λ h. absurd (cc h))
give_up-one zero (acting t) = (acting t, refl, λ h. h)
give_up-one (suc k) p = (p, refl, λ h. h)

give_up-none : (k : ℕ) → give_up k [] ≡ []
unfolding give_up
give_up-none k = refl

drop_run-one : (k : ℕ) (p : Phase) → is_acting k (p ∷ []) ≡ true → drop_run k (p ∷ []) ≡ []
unfolding drop_run is_acting
drop_run-one zero draining h = refl
drop_run-one zero (acting t) h = refl
drop_run-one (suc k) p h = absurd (cc h)

is_acting-none : (k : ℕ) → is_acting k [] ≡ false
unfolding is_acting
is_acting-none k = refl

remove-none : (id : String) → remove id [] ≡ []
unfolding remove
remove-none id = refl

waiting-IsExclusive :
    (xs : List String) (g : Gate) → IsExclusive g → IsExclusive (record g { waiting = xs })
waiting-IsExclusive xs g (open_gate a b c) = open_gate a b c
waiting-IsExclusive xs g (closed_gate p a b c d h) = closed_gate p a b c d h

-- At an open gate requests come and go.
active-IsExclusive :
    (xs ys : List String) (g : Gate)
    → g.is_gated ≡ false
    → IsExclusive g
    → IsExclusive (record g { active = xs; released = ys })
active-IsExclusive xs ys g opened (open_gate a b c) = open_gate a b c
active-IsExclusive xs ys g opened (closed_gate p a b c d h) = absurd (cc (a, opened))

start-IsExclusive :
    (id : String) (is_exempt : Bool) (g : Gate)
    → IsExclusive g
    → IsExclusive (track_request_start id is_exempt g)
unfolding track_request_start
start-IsExclusive id is_exempt g x =
    if-both IsExclusive is_exempt (λ _. x)
      (λ _.
        if-both IsExclusive g.is_gated (λ _. waiting-IsExclusive (g.waiting ++ id ∷ []) g x)
          (λ opened. active-IsExclusive (add id g.active) g.released g opened x))

-- The gate is open, or no request is released.
released-cases : (g : Gate) → IsExclusive g → (g.is_gated ≡ false) ⊎ (g.released ≡ [])
released-cases g (open_gate a b c) = inl a
released-cases g (closed_gate p a b c d h) = inr d

resume-IsExclusive : (g : Gate) → IsExclusive g → IsExclusive (resume_request g)
unfolding resume_request
resume-IsExclusive g x = go g.released (released-cases g x)
  where
    go :
        (l : List String)
        → (g.is_gated ≡ false) ⊎ (l ≡ [])
        → IsExclusive (elim l [
          | [] ↦ g
          | id ∷ later ↦ record g { released = later; active = add id g.active }
        ])
    go [] cases = x
    go (id ∷ later) (inl opened) = active-IsExclusive (add id g.active) later g opened x
    go (id ∷ later) (inr none_left) = absurd (cc none_left)

end-IsExclusive : (id : String) (g : Gate) → IsExclusive g → IsExclusive (track_request_end id g)
unfolding track_request_end
end-IsExclusive id g x = if-both IsExclusive (has id g.active) (λ _. ended x) (λ _. x)
  where
    gone : Gate
    gone = record g { active = remove id g.active }

    ended :
        IsExclusive g
        → IsExclusive
            (if g.is_gated && is_empty (remove id g.active) then notify_drain gone else gone)
    ended (open_gate a b c) =
        if-both IsExclusive (g.is_gated && is_empty (remove id g.active))
          (λ _. open_gate a b (rw c refl)) (λ _. open_gate a b c)
    ended (closed_gate p a b c d h) =
        if-both IsExclusive (g.is_gated && is_empty (remove id g.active))
          (λ last.
            closed_gate (drained p) a b (rw c refl) d
              (λ _. nil_of_empty (remove id g.active) (ground (arith, last))))
          (λ _. closed_gate p a b c d (λ q. rw (h q) (remove-none id)))

execute-IsExclusive :
    (g : Gate)
    → is_empty g.released ≡ true
    → IsExclusive g
    → IsExclusive (elim (execute_exclusive g) [ ok g' ↦ g' | throw e ↦ g ])
unfolding execute_exclusive
execute-IsExclusive g o x =
    if-both (λ (r : Outcome Gate). IsExclusive (elim r [ ok g' ↦ g' | throw e ↦ g ])) g.is_executing
      (λ _. x) (λ idle. begun idle x)
  where
    first : Phase
    first = if is_empty g.active then acting true else draining

    in_time : acts_in_time first ≡ true → g.active ≡ []
    in_time h = elim (Bool-cases (is_empty g.active)) [
      | inl e ↦ nil_of_empty g.active e
      | inr e ↦ absurd (cc (rw e at h))
    ]

    begun :
        g.is_executing ≡ false
        → IsExclusive g
        → IsExclusive
            (record g { is_executing = true; is_gated = true; runs = g.runs ++ first ∷ [] })
    begun idle (open_gate a b c) =
        closed_gate first refl refl (rw c refl) (nil_of_empty g.released o) in_time
    begun idle (closed_gate p a b c d h) = absurd (cc (b, idle))

give_up-IsExclusive : (k : ℕ) (g : Gate) → IsExclusive g → IsExclusive (drain_times_out k g)
unfolding drain_times_out
give_up-IsExclusive k g (open_gate a b c) = open_gate a b (rw c (give_up-none k))
give_up-IsExclusive k g (closed_gate p a b c d h) =
    let (p', same, before) = give_up-one k p in closed_gate p' a b (rw c same) d (λ q. h (before q))

finish-IsExclusive : (k : ℕ) (g : Gate) → IsExclusive g → IsExclusive (action_ends k g)
unfolding action_ends
finish-IsExclusive k g x = if-both IsExclusive (is_acting k g.runs) (λ e. opened e x) (λ _. x)
  where
    none_acts : is_acting k [] ≡ false
    none_acts = is_acting-none k

    opened :
        is_acting k g.runs ≡ true
        → IsExclusive g
        → IsExclusive (
            flush_waiting_queue
              (record g { is_gated = false; is_executing = false; runs = drop_run k g.runs }))
    opened e (open_gate a b c) = absurd (cc (none_acts, rw c at e))
    opened e (closed_gate p a b c d h) = open_gate refl refl (rw c (drop_run-one k p (rw c at e)))

step-IsExclusive :
    (e : GateEvent) (g : Gate) → is_orderly e g ≡ true → IsExclusive g → IsExclusive (gate_step e g)
unfolding gate_step is_orderly wait_times_out
step-IsExclusive (starts id is_exempt) g o x = start-IsExclusive id is_exempt g x
step-IsExclusive resumes g o x = resume-IsExclusive g x
step-IsExclusive (rejects id) g o x = waiting-IsExclusive (remove_one id g.waiting) g x
step-IsExclusive (ends id) g o x = end-IsExclusive id g x
step-IsExclusive executes g o x = execute-IsExclusive g o x
step-IsExclusive (gives_up k) g o x = give_up-IsExclusive k g x
step-IsExclusive (finishes k) g o x = finish-IsExclusive k g x
step-IsExclusive resets g o x = absurd (cc o)

run-IsExclusive_from :
    (es : List GateEvent) (g : Gate)
    → is_orderly_run es g ≡ true
    → IsExclusive g
    → IsExclusive (gate_run es g)
unfolding gate_run is_orderly_run
run-IsExclusive_from [] g o x = x
run-IsExclusive_from (e ∷ es) g o x =
    let (now, later) = &&-eq-true (is_orderly e g) (is_orderly_run es (gate_step e g)) o in
    run-IsExclusive_from es (gate_step e g) later (step-IsExclusive e g now x)

-- If a new gate is not reset, and no exclusive call begins before the requests that the gate has
-- released have gone on: an open gate has no exclusive call, and a closed one has just one; and while
-- its action runs, no request is active or released, unless the wait for them was given up.
pub gate_run-IsExclusive :
    (es : List GateEvent) → is_orderly_run es new_gate ≡ true → IsExclusive (gate_run es new_gate)
gate_run-IsExclusive es o = run-IsExclusive_from es new_gate o (open_gate refl refl refl)
