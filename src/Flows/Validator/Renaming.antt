-- ===== src/Flows/Validator/Renaming.antt =====
-- What the references of a flow are, before and after one of its functions was renamed.
use nodestack.Prelude.{
  String, Bool, true, false, not, List, [], ◌∷◌, ◌++◌, ◌≡◌, ◌=ₜ◌, refl, sym, ◌&&◌, ◌||◌,
  if◌then◌else◌, Bool-cases, trim, any, map, eq_iff, eq_refl, inl, inr, arith, has, add,
  has-add_self, has-add_other,
}
use nodestack.Flows.Types.{
  FlowState, flow_state, Kind, task, choice, map_items, loop, parallel, pass, wait, succeed, fail,
  States, no_states, states, Branches, no_branches, branches,
}
use nodestack.Flows.Validator.References.{
  scan_states, scan_state, scan_kind, scan_branches, extract_referenced_functions, mutate_states,
  mutate_state, mutate_kind, mutate_branches, rename_referenced_function,
}

unfoldable mutual
  -- The functions of the tasks, at any depth and in their order.
  pub functions : States → List String
  functions no_states = []
  functions (states k s rest) = functions_of s ++ functions rest

  pub functions_of : FlowState → List String
  functions_of (flow_state b kind) = kind_functions kind

  pub kind_functions : Kind → List String
  kind_functions (task function e r retry catch) = function ∷ []
  kind_functions (map_items path limit start inner retry catch) = functions inner
  kind_functions (parallel bs retry catch) = branch_functions bs
  kind_functions (choice rs default) = []
  kind_functions (loop target condition max) = []
  kind_functions (pass result) = []
  kind_functions (wait seconds) = []
  kind_functions succeed = []
  kind_functions (fail error cause) = []

  pub branch_functions : Branches → List String
  branch_functions no_branches = []
  branch_functions (branches start inner rest) = functions inner ++ branch_functions rest

-- A task's function is about `q`, but for white space around it.
abbrev pub refers : String → String → Bool
refers q f = not (trim f =ₜ "") && (trim f =ₜ q)

any-append : (p : String → Bool) (xs ys : List String) → any p (xs ++ ys) ≡ (any p xs || any p ys)
any-append p [] ys = refl
any-append p (x ∷ xs) ys = rw (any-append p xs ys) (ground arith)

or_assoc : (a b c : Bool) → ((a || b) || c) ≡ (a || (b || c))
or_assoc a b c = ground arith

has-add : (q r : String) (xs : List String) → has q (add r xs) ≡ (has q xs || r =ₜ q)
has-add q r xs = elim (Bool-cases (r =ₜ q)) [
  | inl e ↦ rw ((eq_iff r q).0 e, has-add_self q xs, eq_refl q) (ground arith)
  | inr e ↦ rw (e, has-add_other q r xs e) (ground arith)
]

-- A name that is blank adds nothing.
has-either :
    (q : String) (blank found : Bool) (before added : List String)
    → has q added ≡ (has q before || found)
    → has q (if blank then before else added) ≡ (has q before || ((not blank && found) || false))
has-either q true found before added h = ground arith
has-either q false found before added h = rw h (ground arith)

mutual
  unfolding scan_states functions

  scan_states-has :
      (q : String) (all : States) (before : List String)
      → has q (scan_states all before) ≡ (has q before || any (refers q) (functions all))
  scan_states-has q no_states before = ground arith
  scan_states-has q (states k s rest) before =
      rw
        (
          scan_states-has q rest (scan_state s before),
          scan_state-has q s before,
          any-append (refers q) (functions_of s) (functions rest),
        )
        (or_assoc (has q before) (any (refers q) (functions_of s))
          (any (refers q) (functions rest)))

  scan_state-has :
      (q : String) (s : FlowState) (before : List String)
      → has q (scan_state s before) ≡ (has q before || any (refers q) (functions_of s))
  scan_state-has q (flow_state b kind) before = scan_kind-has q kind before

  scan_kind-has :
      (q : String) (kind : Kind) (before : List String)
      → has q (scan_kind kind before) ≡ (has q before || any (refers q) (kind_functions kind))
  scan_kind-has q (task function e r retry catch) before =
      has-either q (trim function =ₜ "") (trim function =ₜ q) before (add (trim function) before)
        (has-add q (trim function) before)
  scan_kind-has q (map_items path limit start inner retry catch) before =
      scan_states-has q inner before
  scan_kind-has q (parallel bs retry catch) before = scan_branches-has q bs before
  scan_kind-has q (choice rs default) before = ground arith
  scan_kind-has q (loop target condition max) before = ground arith
  scan_kind-has q (pass result) before = ground arith
  scan_kind-has q (wait seconds) before = ground arith
  scan_kind-has q succeed before = ground arith
  scan_kind-has q (fail error cause) before = ground arith

  scan_branches-has :
      (q : String) (bs : Branches) (before : List String)
      → has q (scan_branches bs before) ≡ (has q before || any (refers q) (branch_functions bs))
  scan_branches-has q no_branches before = ground arith
  scan_branches-has q (branches start inner rest) before =
      rw
        (
          scan_branches-has q rest (scan_states inner before),
          scan_states-has q inner before,
          any-append (refers q) (functions inner) (branch_functions rest),
        )
        (or_assoc (has q before) (any (refers q) (functions inner))
          (any (refers q) (branch_functions rest)))

-- A name is among the references of a flow where a task, at whatever depth, has it, but for white
-- space around it.
pub extract-functions :
    (q : String) (all : States)
    → has q (extract_referenced_functions all) ≡ any (refers q) (functions all)
unfolding extract_referenced_functions functions has
extract-functions q all = scan_states-has q all []

map-append : (f : String → String) (xs ys : List String) → map f (xs ++ ys) ≡ map f xs ++ map f ys
map-append f [] ys = refl
map-append f (x ∷ xs) ys = rw (map-append f xs ys) refl

abbrev pub renamed : String → String → String → String
renamed old new f = if f =ₜ old then new else f

abbrev pub is_old : String → String → Bool
is_old old f = f =ₜ old

mutual
  unfolding mutate_states functions

  mutate_states-functions :
      (old new : String) (all : States)
      → functions (mutate_states old new all).0 ≡ map (renamed old new) (functions all)
  mutate_states-functions old new no_states = refl
  mutate_states-functions old new (states k s rest) =
      rw (mutate_state-functions old new s, mutate_states-functions old new rest)
        (sym (map-append (renamed old new) (functions_of s) (functions rest)))

  mutate_state-functions :
      (old new : String) (s : FlowState)
      → functions_of (mutate_state old new s).0 ≡ map (renamed old new) (functions_of s)
  mutate_state-functions old new (flow_state b kind) = mutate_kind-functions old new kind

  mutate_kind-functions :
      (old new : String) (kind : Kind)
      → kind_functions (mutate_kind old new kind).0 ≡ map (renamed old new) (kind_functions kind)
  mutate_kind-functions old new (task function e r retry catch) = refl
  mutate_kind-functions old new (map_items path limit start inner retry catch) =
      mutate_states-functions old new inner
  mutate_kind-functions old new (parallel bs retry catch) = mutate_branches-functions old new bs
  mutate_kind-functions old new (choice rs default) = refl
  mutate_kind-functions old new (loop target condition max) = refl
  mutate_kind-functions old new (pass result) = refl
  mutate_kind-functions old new (wait seconds) = refl
  mutate_kind-functions old new succeed = refl
  mutate_kind-functions old new (fail error cause) = refl

  mutate_branches-functions :
      (old new : String) (bs : Branches)
      → branch_functions (mutate_branches old new bs).0
        ≡ map (renamed old new) (branch_functions bs)
  mutate_branches-functions old new no_branches = refl
  mutate_branches-functions old new (branches start inner rest) =
      rw (mutate_states-functions old new inner, mutate_branches-functions old new rest)
        (sym (map-append (renamed old new) (functions inner) (branch_functions rest)))

mutual
  unfolding mutate_states functions

  mutate_states-any :
      (old new : String) (all : States)
      → (mutate_states old new all).1 ≡ any (is_old old) (functions all)
  mutate_states-any old new no_states = refl
  mutate_states-any old new (states k s rest) =
      rw (mutate_state-any old new s, mutate_states-any old new rest)
        (sym (any-append (is_old old) (functions_of s) (functions rest)))

  mutate_state-any :
      (old new : String) (s : FlowState)
      → (mutate_state old new s).1 ≡ any (is_old old) (functions_of s)
  mutate_state-any old new (flow_state b kind) = mutate_kind-any old new kind

  mutate_kind-any :
      (old new : String) (kind : Kind)
      → (mutate_kind old new kind).1 ≡ any (is_old old) (kind_functions kind)
  mutate_kind-any old new (task function e r retry catch) = ground arith
  mutate_kind-any old new (map_items path limit start inner retry catch) =
      mutate_states-any old new inner
  mutate_kind-any old new (parallel bs retry catch) = mutate_branches-any old new bs
  mutate_kind-any old new (choice rs default) = refl
  mutate_kind-any old new (loop target condition max) = refl
  mutate_kind-any old new (pass result) = refl
  mutate_kind-any old new (wait seconds) = refl
  mutate_kind-any old new succeed = refl
  mutate_kind-any old new (fail error cause) = refl

  mutate_branches-any :
      (old new : String) (bs : Branches)
      → (mutate_branches old new bs).1 ≡ any (is_old old) (branch_functions bs)
  mutate_branches-any old new no_branches = refl
  mutate_branches-any old new (branches start inner rest) =
      rw (mutate_states-any old new inner, mutate_branches-any old new rest)
        (sym (any-append (is_old old) (functions inner) (branch_functions rest)))

-- Renaming changes the name in each task that has it, at whatever depth, and in no other, and says
-- that it modified the flow where there was such a task.
pub rename-functions :
    (old new : String) (all : States)
    → (functions (rename_referenced_function old new all).0 ≡ map (renamed old new) (functions all))
      × ((rename_referenced_function old new all).1 ≡ any (is_old old) (functions all))
unfolding rename_referenced_function
rename-functions old new all = (mutate_states-functions old new all, mutate_states-any old new all)
