-- ===== src/Flows/Validator/References.antt =====
-- src/flows/FlowValidator.ts: the functions that a flow refers to, and renaming one of them.
use nodestack.Prelude.{String, Bool, false, List, [], ◌=ₜ◌, ◌||◌, if◌then◌else◌, trim, add}
use nodestack.Flows.Types.{
  FlowState, flow_state, Kind, task, choice, map_items, loop, parallel, pass, wait, succeed, fail,
  States, no_states, states, Branches, no_branches, branches,
}

unfoldable mutual
  unfolding trim add

  -- `scanStates`, with what was referenced before.
  pub scan_states : States → List String → List String
  scan_states no_states referenced = referenced
  scan_states (states k s rest) referenced = scan_states rest (scan_state s referenced)

  pub scan_state : FlowState → List String → List String
  scan_state (flow_state b kind) referenced = scan_kind kind referenced

  pub scan_kind : Kind → List String → List String
  scan_kind (task function e r retry catch) referenced =
      if trim function =ₜ "" then referenced else add (trim function) referenced
  scan_kind (map_items path limit start inner retry catch) referenced = scan_states inner referenced
  scan_kind (parallel bs retry catch) referenced = scan_branches bs referenced
  scan_kind (choice rs default) referenced = referenced
  scan_kind (loop target condition max) referenced = referenced
  scan_kind (pass result) referenced = referenced
  scan_kind (wait seconds) referenced = referenced
  scan_kind succeed referenced = referenced
  scan_kind (fail error cause) referenced = referenced

  pub scan_branches : Branches → List String → List String
  scan_branches no_branches referenced = referenced
  scan_branches (branches start inner rest) referenced =
      scan_branches rest (scan_states inner referenced)

unfoldable pub extract_referenced_functions : States → List String
unfolding scan_states
extract_referenced_functions all = scan_states all []

unfoldable mutual
  -- `mutateStates`: the states, and whether one was modified.
  pub mutate_states : String → String → States → States × Bool
  mutate_states old new no_states = (no_states, false)
  mutate_states old new (states k s rest) =
      let (s', first) = mutate_state old new s in
      let (rest', others) = mutate_states old new rest in (states k s' rest', first || others)

  pub mutate_state : String → String → FlowState → FlowState × Bool
  mutate_state old new (flow_state b kind) =
      let (kind', modified) = mutate_kind old new kind in (flow_state b kind', modified)

  pub mutate_kind : String → String → Kind → Kind × Bool
  mutate_kind old new (task function e r retry catch) =
      (task (if function =ₜ old then new else function) e r retry catch, function =ₜ old)
  mutate_kind old new (map_items path limit start inner retry catch) =
      let (inner', modified) = mutate_states old new inner in
      (map_items path limit start inner' retry catch, modified)
  mutate_kind old new (parallel bs retry catch) =
      let (bs', modified) = mutate_branches old new bs in (parallel bs' retry catch, modified)
  mutate_kind old new (choice rs default) = (choice rs default, false)
  mutate_kind old new (loop target condition max) = (loop target condition max, false)
  mutate_kind old new (pass result) = (pass result, false)
  mutate_kind old new (wait seconds) = (wait seconds, false)
  mutate_kind old new succeed = (succeed, false)
  mutate_kind old new (fail error cause) = (fail error cause, false)

  pub mutate_branches : String → String → Branches → Branches × Bool
  mutate_branches old new no_branches = (no_branches, false)
  mutate_branches old new (branches start inner rest) =
      let (inner', first) = mutate_states old new inner in
      let (rest', others) = mutate_branches old new rest in
      (branches start inner' rest', first || others)

unfoldable pub rename_referenced_function : String → String → States → States × Bool
unfolding mutate_states
rename_referenced_function old new all = mutate_states old new all
