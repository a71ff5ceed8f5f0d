-- ===== src/Maintenance/Opening.antt =====
-- No request of src/core/maintenance/MaintenanceGate.ts waits at an open gate.
use nodestack.Prelude.{
  ℕ, zero, suc, ◌≡◌, refl, String, true, false, List, [], ◌∷◌, ◌++◌, map, ◌&&◌, if-both, remove_one,
  remove, has, add, Outcome, ok, throw,
}
use nodestack.Maintenance.Gate.{
  Phase, draining, acting, Gate, new_gate, is_empty, notify_drain, drained, track_request_start,
  resume_request, wait_times_out, track_request_end, execute_exclusive, give_up, drain_times_out,
  is_acting, action_ends, reset, GateEvent, starts, resumes, rejects, ends, executes, gives_up,
  finishes, resets, gate_step, gate_run,
}

-- A gate is closed exactly while exclusive work is under way, of which there is then some call that
-- will open it; and requests wait only at a closed gate.
pub record IsOpenable (g : Gate) : Type 0 where
  pub together : g.is_gated ≡ g.is_executing
  pub opener : g.is_gated ≡ true → is_empty g.runs ≡ false
  pub waiters : is_empty g.waiting ≡ false → g.is_gated ≡ true

map-is_empty : (ps : List Phase) → is_empty (map drained ps) ≡ is_empty ps
map-is_empty [] = refl
map-is_empty (p ∷ ps) = refl

append-is_empty {ℓ} : {A : Type ℓ} (xs : List A) (x : A) → is_empty (xs ++ x ∷ []) ≡ false
append-is_empty [] x = refl
append-is_empty (y ∷ xs) x = refl

give_up-is_empty : (k : ℕ) (ps : List Phase) → is_empty (give_up k ps) ≡ is_empty ps
unfolding give_up
give_up-is_empty k [] = refl
give_up-is_empty zero (draining ∷ ps) = refl
give_up-is_empty zero (acting t ∷ ps) = refl
give_up-is_empty (suc k) (p ∷ ps) = refl

remove_one-is_empty :
    (id : String) (xs : List String) → is_empty (remove_one id xs) ≡ false → is_empty xs ≡ false
unfolding remove_one
remove_one-is_empty id [] h = h
remove_one-is_empty id (x ∷ xs) h = refl

-- A field that the invariant does not mention.
active-IsOpenable :
    (xs ys : List String) (g : Gate)
    → IsOpenable g
    → IsOpenable (record g { active = xs; released = ys })
active-IsOpenable xs ys g i = record {
  together = i.together;
  opener = i.opener;
  waiters = i.waiters;
}

notify_drain-IsOpenable : (g : Gate) → IsOpenable g → IsOpenable (notify_drain g)
notify_drain-IsOpenable g i = record {
  together = i.together;
  opener = λ h. rw (map-is_empty g.runs) (i.opener h);
  waiters = i.waiters;
}

resume_request-IsOpenable : (g : Gate) → IsOpenable g → IsOpenable (resume_request g)
unfolding resume_request
resume_request-IsOpenable g i = go g.released
  where
    go :
        (l : List String)
        → IsOpenable (elim l [
          | [] ↦ g
          | id ∷ later ↦ record g { released = later; active = add id g.active }
        ])
    go [] = i
    go (id ∷ later) = active-IsOpenable (add id g.active) later g i

step-IsOpenable : (e : GateEvent) (g : Gate) → IsOpenable g → IsOpenable (gate_step e g)
unfolding gate_step track_request_start resume_request wait_times_out track_request_end
    execute_exclusive drain_times_out action_ends reset
step-IsOpenable (starts id is_exempt) g i =
    if-both IsOpenable is_exempt (λ _. i)
      (λ _.
        if-both IsOpenable g.is_gated
          (λ shut. record { together = i.together; opener = i.opener; waiters = λ _. shut })
          (λ _. record { together = i.together; opener = i.opener; waiters = i.waiters }))
step-IsOpenable resumes g i = resume_request-IsOpenable g i
step-IsOpenable (rejects id) g i = record {
  together = i.together;
  opener = i.opener;
  waiters = λ h. i.waiters (remove_one-is_empty id g.waiting h);
}
step-IsOpenable (ends id) g i =
    let g' = record g { active = remove id g.active } in
    let i' = active-IsOpenable (remove id g.active) g.released g i in
    if-both IsOpenable (has id g.active)
      (λ _.
        if-both IsOpenable (g.is_gated && is_empty g'.active) (λ _. notify_drain-IsOpenable g' i')
          (λ _. i'))
      (λ _. i)
step-IsOpenable executes g i =
    if-both (λ (o : Outcome Gate). IsOpenable (elim o [ ok g' ↦ g' | throw e ↦ g ])) g.is_executing
      (λ _. i)
      (λ _. record { together = refl; opener = λ _. append-is_empty g.runs _; waiters = λ _. refl })
step-IsOpenable (gives_up k) g i = record {
  together = i.together;
  opener = λ h. rw (give_up-is_empty k g.runs) (i.opener h);
  waiters = i.waiters;
}
step-IsOpenable (finishes k) g i =
    if-both IsOpenable (is_acting k g.runs)
      (λ _. record { together = refl; opener = λ h. absurd (cc h); waiters = λ h. absurd (cc h) })
      (λ _. i)
step-IsOpenable resets g i = record {
  together = refl;
  opener = λ h. absurd (cc h);
  waiters = λ h. absurd (cc h);
}

run-IsOpenable_from : (es : List GateEvent) (g : Gate) → IsOpenable g → IsOpenable (gate_run es g)
unfolding gate_run
run-IsOpenable_from [] g i = i
run-IsOpenable_from (e ∷ es) g i = run-IsOpenable_from es (gate_step e g) (step-IsOpenable e g i)

-- Whatever happens to a new gate: it is closed exactly while it is marked as executing, a closed gate
-- has a call of `executeExclusive` that is not over, and a request waits only at a closed gate.
pub gate_run-IsOpenable : (es : List GateEvent) → IsOpenable (gate_run es new_gate)
gate_run-IsOpenable es =
    run-IsOpenable_from es new_gate
      (record { together = refl; opener = λ h. absurd (cc h); waiters = λ h. absurd (cc h) })
