-- ===== src/Session/Engine.antt =====
-- installer/session.py, `execute_plan`: the loop that runs the rows of a plan. The two latches of
-- the loop, the update service's latch and the world that the callbacks change are the state.
mod Rows
mod Held
mod Loop
mod Tests
use tools_installer.Base.{
  String, Bool, true, false, Option, none, some, List, [], ◌∷◌, ◌++◌, ◌&&◌, ◌||◌, map, filter, any,
  if◌then◌else◌, contains, get, concat, join, unique, not, ◌==◌,
}
use tools_installer.Model.{Tool}
use tools_installer.Session.{
  InstallStatus, checksum_mismatch, dependency_failed, manual_required, already_installed,
  no_method, Disposition, wait, install, update, repair, reconfigure, reinstall, skip, blocked,
  manual, remove, RowResult, r_done, r_failed, r_not_attempted, r_crashed, r_skipped, r_blocked,
  r_manual, ConfigStep, Exn, ManagerOwnership, InstallOutcome, UpdateStatus, updated, update_failed,
  unknown_owner, unsupported, UpdateOutcome, PlanRow, RowOutcome, outcome_of, install_outcome,
  unresolved_status, present_tool_lost, install_result,
}
use tools_installer.Session.Effect.{Except, returned, raised, next, crash_detail}

pub data ChecksumPolicy : Type 0 where
  fail continue : ChecksumPolicy

pub data MismatchChoice : Type 0 where
  retry skip_tool fallback : MismatchChoice

pub record StepResult : Type 0 where
  pub failed : Option String
  pub warning : Option String

-- `RunContext`, with the functions that a row calls on the world `W`. `install` has the
-- platform, the runner, the tag resolver and the confirmation of the context as its own, and its
-- flag is `repair`. `run_update` is the update service's `run`.
pub record RunContext (W : Type 0) : Type 0 where
  pub catalog : List (String × Tool)
  pub install : Tool → ChecksumPolicy → Bool → W → W × Except InstallOutcome
  pub run_update : Option (Tool → ManagerOwnership → W → W × Except UpdateOutcome)
  pub run_step : ConfigStep → Tool → W → W × Except StepResult
  pub on_mismatch : Option (String → W → W × Except MismatchChoice)
  pub should_continue : Option (W → W × Bool)
  pub on_row_started : Option (PlanRow → W → W × Except (Unit {0}))
  pub on_outcome : Option (RowOutcome → W → W)

-- `in_flight` is that of the update service.
pub record State (W : Type 0) : Type 0 where
  pub unresolved : List String
  pub halted : Bool
  pub in_flight : Option String
  pub world : W

-- `disposition in {REPAIR, REINSTALL}`
abbrev pub is_forced : Disposition → Bool
is_forced repair = true
is_forced reinstall = true
is_forced _ = false

-- `disposition in {INSTALL, REPAIR, REINSTALL}`
abbrev pub installs : Disposition → Bool
installs install = true
installs repair = true
installs reinstall = true
installs _ = false

-- `unresolved_statuses` of a row, as a test.
abbrev pub loses : Disposition → InstallStatus → Bool
loses install = unresolved_status
loses repair = unresolved_status
loses _ = present_tool_lost

unfoldable pub force_ids : List PlanRow → List String
force_ids rows = map (λ r. r.tool_id) (filter (λ r. is_forced r.disposition) rows)

unfoldable pub blockers : Tool → List String → List String
unfolding unique contains
blockers tool unresolved = filter (λ dep. contains dep unresolved) (unique tool.requires)

abbrev install_detail : InstallStatus → String
install_detail already_installed = "became present before it ran"
install_detail no_method = "no install method for this platform"
install_detail _ = ""

abbrev update_result : UpdateStatus → RowResult
update_result updated = r_done
update_result update_failed = r_failed
update_result _ = r_blocked

abbrev is_empty : List String → Bool
is_empty [] = true
is_empty (_ ∷ _) = false

-- `ctx.updates.in_flight or "another tool"`
abbrev holder : Option String → String
holder none = "another tool"
holder (some id) = if id == "" then "another tool" else id

-- `if result.warning: warnings.append(result.warning)`
abbrev noted : Option String → List String → List String
noted none warnings = warnings
noted (some w) warnings = if w == "" then warnings else warnings ++ w ∷ []

module _ {W : Type 0} (ctx : RunContext W) (forced : List String) where
  on_world {κ} : {A : Type κ} → (W → W × Except A) → State W → State W × Except A
  on_world f s = let (w, r) = f s.world in (record s { world = w }, r)

  -- `halted or (should_continue is not None and not should_continue())`
  pub asked : Option (W → W × Bool) → State W → State W × Bool
  asked none s = (s, false)
  asked (some ask) s = let (w, go) = ask s.world in (record s { world = w }, not go)

  unfoldable pub stops : State W → State W × Bool
  unfolding asked
  stops s = if s.halted then (s, true) else asked ctx.should_continue s

  -- `UpdateService.begin` and `end`
  begin_from : Option String → String → State W → State W × Bool
  begin_from (some _) tool_id s = (s, false)
  begin_from none tool_id s = (record s { in_flight = some tool_id }, true)

  begin : String → State W → State W × Bool
  unfolding begin_from
  begin tool_id s = begin_from s.in_flight tool_id s

  finish : State W → State W
  finish s = record s { in_flight = none }

  -- `_with_force`
  with_force : Tool → ChecksumPolicy → State W → State W × Except InstallOutcome
  unfolding on_world contains
  with_force tool policy = on_world (ctx.install tool policy (contains tool.id forced))

  after_mismatch :
      Tool → InstallOutcome → MismatchChoice → State W → State W × Except InstallOutcome
  unfolding with_force
  after_mismatch tool result retry s = with_force tool fail s
  after_mismatch tool result fallback s = with_force tool continue s
  after_mismatch tool result skip_tool s = (s, returned result)

  mismatch_answer :
      Option (String → W → W × Except MismatchChoice)
      → InstallStatus
      → Tool
      → InstallOutcome
      → State W
      → State W × Except InstallOutcome
  unfolding on_world after_mismatch
  mismatch_answer (some ask) checksum_mismatch tool result s =
      next (on_world (ask tool.id) s) (after_mismatch tool result)
  mismatch_answer _ _ tool result s = (s, returned result)

  ask_mismatch : Tool → InstallOutcome → State W → State W × Except InstallOutcome
  unfolding mismatch_answer
  ask_mismatch tool result s = mismatch_answer ctx.on_mismatch result.status tool result s

  -- `result`, for the row that has these blockers.
  install_or_block : Tool → List String → State W → State W × Except InstallOutcome
  unfolding with_force ask_mismatch
  install_or_block tool (b ∷ bs) s =
      (s, returned (record (install_outcome tool.id dependency_failed) { blocked_by = b ∷ bs }))
  install_or_block tool [] s = next (with_force tool fail s) (ask_mismatch tool)

  -- From `unresolved_statuses` on.
  settle_install : PlanRow → Tool → InstallOutcome → State W → State W × Except RowOutcome
  settle_install row tool result s =
      let outcome =
        record (outcome_of row (install_result result.status) (install_detail result.status)) {
          install = some result;
        } in
      if loses row.disposition result.status
      then (record s { unresolved = tool.id ∷ s.unresolved }, returned outcome)
      else (s, returned outcome)

  settle_update : PlanRow → UpdateOutcome → State W → State W × Except RowOutcome
  settle_update row u s =
      (s, returned (record (outcome_of row (update_result u.status) u.detail) { update = some u }))

  -- `try: … finally: ctx.updates.end()`
  guarded : State W × Except UpdateOutcome → State W × Except UpdateOutcome
  unfolding finish
  guarded (s, r) = (finish s, r)

  -- What follows `begin`.
  update_begun :
      PlanRow
      → (State W → State W × Except UpdateOutcome)
      → State W × Bool
      → State W × Except RowOutcome
  unfolding settle_update guarded
  update_begun row run (s, true) = next (guarded (run s)) (settle_update row)
  update_begun row run (s, false) = (
    s,
    returned (
        outcome_of row r_blocked
          (concat ("update already in flight for " ∷ holder s.in_flight ∷ []))),
  )

  update_by :
      Option (Tool → ManagerOwnership → W → W × Except UpdateOutcome)
      → Option ManagerOwnership
      → PlanRow
      → Tool
      → State W
      → State W × Except RowOutcome
  unfolding on_world begin update_begun
  update_by none _ row tool s = (s, returned (outcome_of row r_blocked "no update service"))
  update_by (some run) none row tool s =
      (s, returned (outcome_of row r_blocked "ownership could not be resolved"))
  update_by (some run) (some ownership) row tool s =
      update_begun row (on_world (run tool ownership)) (begin row.tool_id s)

  -- The row ends where a step fails.
  after_step :
      PlanRow
      → ConfigStep
      → Option String
      → (State W → State W × Except RowOutcome)
      → State W
      → State W × Except RowOutcome
  after_step row step (some why) rest s =
      (s, returned (outcome_of row r_failed (concat (step.text ∷ ": " ∷ why ∷ []))))
  after_step row step none rest s = rest s

  -- `_run_reconfigure`, from a step on, with the warnings so far.
  run_steps : PlanRow → Tool → List ConfigStep → List String → State W → State W × Except RowOutcome
  unfolding on_world join after_step
  run_steps row tool [] warnings s = (s, returned (outcome_of row r_done (join "\n" warnings)))
  run_steps row tool (step ∷ steps) warnings s =
      next (on_world (ctx.run_step step tool) s) (λ result.
        after_step row step result.failed
          (run_steps row tool steps (noted result.warning warnings)))

  pub started :
      Option (PlanRow → W → W × Except (Unit {0})) → PlanRow → State W → State W × Except (Unit {0})
  unfolding on_world
  started none row s = (s, returned tt)
  started (some notify) row s = on_world (notify row) s

  -- `ctx.catalog[row.tool_id]`, of what the look-up finds.
  pub looked_up : Option Tool → PlanRow → State W → State W × Except Tool
  unfolding concat
  looked_up (some tool) row s = (s, returned tool)
  looked_up none row s = (
    s,
    raised (record { type_name = "KeyError"; message = concat ("'" ∷ row.tool_id ∷ "'" ∷ []) }),
  )

  -- A row that neither installs nor is blocked.
  pub other : Disposition → PlanRow → Tool → State W → State W × Except RowOutcome
  unfolding update_by run_steps
  other update row tool s = update_by ctx.run_update row.ownership row tool s
  other _ row tool s = run_steps row tool row.steps [] s

  pub dispatch : PlanRow → Tool → State W → State W × Except RowOutcome
  unfolding install_or_block settle_install other blockers
  dispatch row tool s =
      let blocked_by = blockers tool s.unresolved in
      if not (is_empty blocked_by) || installs row.disposition
      then next (install_or_block tool blocked_by s) (settle_install row tool)
      else other row.disposition row tool s

  -- What stands under the `try` of the loop.
  unfoldable pub attempt : PlanRow → State W → State W × Except RowOutcome
  unfolding started get looked_up dispatch
  attempt row s =
      next
        (next (started ctx.on_row_started row s) (λ _. looked_up (get row.tool_id ctx.catalog) row))
        (dispatch row)

  -- `except Exception`
  unfoldable pub caught : PlanRow → State W × Except RowOutcome → State W × RowOutcome
  unfolding crash_detail
  caught row (s, returned outcome) = (s, outcome)
  caught row (s, raised e) = (record s { halted = true }, outcome_of row r_crashed (crash_detail e))

  pub manual_outcome : PlanRow → RowOutcome
  manual_outcome row =
      let command : String = elim row.manual_command [ none ↦ "" | some c ↦ c ] in
      record (outcome_of row r_manual row.reason) {
        install = some (record (install_outcome row.tool_id manual_required) {
          handoff = command ∷ [];
          manual_command = some command;
        });
      }

  -- A row that is neither skipped, blocked nor manual.
  unfoldable pub run_or_stop : PlanRow → State W × Bool → State W × RowOutcome
  unfolding attempt caught
  run_or_stop row (s, true) =
      (record s { halted = true }, outcome_of row r_not_attempted "run stopped before this row")
  run_or_stop row (s, false) = caught row (attempt row s)

  pub row_by : Disposition → PlanRow → State W → State W × RowOutcome
  unfolding stops run_or_stop manual_outcome
  row_by skip row s = (s, outcome_of row r_skipped row.reason)
  row_by blocked row s = (s, outcome_of row r_blocked row.reason)
  row_by manual row s = (record s { unresolved = row.tool_id ∷ s.unresolved }, manual_outcome row)
  row_by _ row s = run_or_stop row (stops s)

  -- `outcome` of one row.
  unfoldable pub run_row : PlanRow → State W → State W × RowOutcome
  unfolding row_by
  run_row row s = row_by row.disposition row s

  pub reported_to : Option (RowOutcome → W → W) → RowOutcome → State W → State W
  reported_to none outcome s = s
  reported_to (some notify) outcome s = record s { world = notify outcome s.world }

  unfoldable pub reported : RowOutcome → State W → State W
  unfolding reported_to
  reported outcome s = reported_to ctx.on_outcome outcome s

  unfoldable pub run_rows : List PlanRow → State W → State W × List RowOutcome
  unfolding run_row reported
  run_rows [] s = (s, [])
  run_rows (row ∷ rows) s =
      let (s', outcome) = run_row row s in
      let (s'', outcomes) = run_rows rows (reported outcome s') in (s'', outcome ∷ outcomes)

abbrev pub is_wait : PlanRow → Bool
is_wait row = elim row.disposition [ wait ↦ true | _ ↦ false ]

-- `execute_plan` up to the end of its loop: what it hands to the sweep of the hooks and to the run
-- options. `none` is the ValueError of a plan that is still checking; `latch` is the update
-- service's.
unfoldable pub execute_plan :
    {W : Type 0}
    → RunContext W
    → List PlanRow
    → Option String
    → W
    → Option (State W × List RowOutcome)
unfolding run_rows force_ids
execute_plan ctx rows latch w =
    if any is_wait rows
    then none
    else some (
        run_rows ctx (force_ids rows) rows
          (record { unresolved = []; halted = false; in_flight = latch; world = w }))
