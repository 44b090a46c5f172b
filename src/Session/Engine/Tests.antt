-- ===== src/Session/Engine/Tests.antt =====
-- Runs of `execute_plan` whose world is the list of the tools that were installed, and the theorems
-- at these inputs.
use tools_installer.Base.{
  String, Bool, true, false, Option, none, some, List, [], ◌∷◌, ◌≡◌, refl, map, any, get, arith,
  Bool-cases, sym, ap, ◌∙◌, inl, inr, if◌then◌else◌, ◌==◌, eq_iff, contains, unique,
}
use tools_installer.Model.{Tool, Priority, Audience, Tier}
use tools_installer.Session.{
  installed, failed, Disposition, wait, install, skip, RowResult, r_done, r_failed,
  r_dependency_failed, r_not_attempted, r_crashed, r_skipped, PlanRow, RowOutcome, InstallOutcome,
  install_outcome,
}
use tools_installer.Session.Effect.{Except, returned, raised}
use tools_installer.Session.Engine.{
  ChecksumPolicy, RunContext, State, execute_plan, is_wait, run_rows,
}
use tools_installer.Session.Engine.Rows.{Keyed}
use tools_installer.Session.Engine.Loop.{IsTruthful, execute_plan-outcomes, execute_plan-IsTruthful}

abbrev tool : String → List String → Tool
tool id requires = record {
  id = id;
  name = id;
  category = "dev";
  cmd = id;
  methods = [];
  priority = Priority.p1;
  audience = Audience.both;
  tier = Tier.user;
  desc = "";
  requires = requires;
  recommends = [];
  postinstall = none;
  post_install = [];
  default_enabled_sensitive_actions = [];
  owner_probes = [];
  config_paths = [];
  retired = false;
}

abbrev row : String → Disposition → PlanRow
row id disposition = record {
  tool_id = id;
  disposition = disposition;
  reason = "";
  requested_by = none;
  health = none;
  can_reinstall = false;
  steps = [];
  ownership = none;
  manual_command = none;
}

-- `uv` fails to install, `boom` raises, all else is installed.
abbrev try_install :
    Tool → ChecksumPolicy → Bool → List String → List String × Except InstallOutcome
try_install t policy repair done =
    if t.id == "boom"
    then (done, raised (record { type_name = "OSError"; message = "disk full" }))
    else if t.id == "uv"
    then (done, returned (install_outcome t.id failed))
    else (t.id ∷ done, returned (install_outcome t.id installed))

abbrev by_id : List Tool → List (String × Tool)
by_id tools = map (λ (t : Tool). (t.id, t)) tools

abbrev catalog : List (String × Tool)
catalog = by_id (tool "uv" [] ∷ tool "ruff" ("uv" ∷ []) ∷ tool "boom" [] ∷ tool "bat" [] ∷ [])

abbrev context : RunContext (List String)
context = record {
  catalog = catalog;
  install = try_install;
  run_update = none;
  run_step = λ step t done. (done, returned (record { failed = none; warning = none }));
  on_mismatch = none;
  should_continue = none;
  on_row_started = none;
  on_outcome = none;
}

abbrev plan : List PlanRow
plan =
    row "uv" install
    ∷ row "ruff" install
    ∷ row "bat" install
    ∷ row "boom" install
    ∷ row "fd" skip
    ∷ row "bat" install
    ∷ []

results_of : Option (State (List String) × List RowOutcome) → List RowResult
results_of none = []
results_of (some (s, outcomes)) = map (λ o. o.result) outcomes

plan_runs :
    results_of (execute_plan context plan none [])
    ≡ r_failed ∷ r_dependency_failed ∷ r_done ∷ r_crashed ∷ r_skipped ∷ r_not_attempted ∷ []
unfolding execute_plan results_of contains unique get
plan_runs = refl

still_checking : execute_plan context (row "uv" wait ∷ []) none [] ≡ none
unfolding execute_plan
still_checking = refl

abbrev free : Option String
free = none

id_of : Option Tool → String
id_of none = ""
id_of (some t) = t.id

by_id-Keyed : (tools : List Tool) → Keyed (by_id tools)
unfolding get id_of
by_id-Keyed [] key t found = ground arith
by_id-Keyed (u ∷ tools) key t found = elim (Bool-cases (u.id == key)) [
  | inl holds ↦
      let top : get key (by_id (u ∷ tools)) ≡ some u = rw holds refl in
      sym (ap id_of (sym top ∙ found)) ∙ (eq_iff u.id key).0 holds
  | inr fails ↦ by_id-Keyed tools key t (ground arith)
]

catalog-Keyed : Keyed catalog
catalog-Keyed =
    by_id-Keyed (tool "uv" [] ∷ tool "ruff" ("uv" ∷ []) ∷ tool "boom" [] ∷ tool "bat" [] ∷ [])

execute_plan-outcomes_example :
    (any is_wait plan ≡ true → execute_plan context plan none [] ≡ none)
    × (any is_wait plan ≡ false
        → (s : State (List String)) × (outcomes : List RowOutcome) × (execute_plan context plan none
              []
            ≡ some (s, outcomes))
          × (map (λ o. o.row) outcomes ≡ plan)
          × (free ≡ none → s.in_flight ≡ none))
execute_plan-outcomes_example = execute_plan-outcomes context plan none [] catalog-Keyed

abbrev ran : State (List String) × List RowOutcome
ran =
    run_rows context [] plan
      (record { unresolved = []; halted = false; in_flight = none; world = [] })

execute_plan-IsTruthful_example : IsTruthful context ran.1
unfolding execute_plan
execute_plan-IsTruthful_example =
    execute_plan-IsTruthful context plan none [] ran.0 ran.1 catalog-Keyed refl
