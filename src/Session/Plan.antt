-- ===== src/Session/Plan.antt =====
-- installer/session.py, `build_plan`: the rows of a plan from the published states of the tools.
pub mod Build
mod Rows
mod Tests
use Prim.Native.Char.{code}
use tools_installer.Base.{
  ℕ, zero, suc, String, Bool, true, false, Option, none, some, List, [], ◌∷◌, ◌++◌, ◌&&◌, ◌||◌, not,
  ◌==◌, eqb, if◌then◌else◌, filter, all, map, length, contains, get, concat, sorted,
}
use tools_installer.Model.{Priority, p0, p1, p2, p3, Method, Tool, ids}
use tools_installer.Platform.{Platform}
use tools_installer.Resolve.{resolve_methods, non_empty}
use tools_installer.Session.{
  Disposition, wait, install, update, repair, reconfigure, reinstall, skip, blocked, manual, remove,
  Health, checking, broken, misconfigured, outdated, ok, missing, unavailable, ConfigStep,
  ManagerOwnership, PlanRow, runnable,
}
use tools_installer.Session.Effect.{Except, returned, raised}
use tools_installer.Install.{ManualHandoff, manual_by}

-- installer/version_status.py, the fields that a plan reads; `version` is the installed and the
-- latest version.
pub record ToolState : Type 0 where
  pub tool_id : String
  pub health : Health
  pub reasons : List String
  pub ownership : ManagerOwnership
  pub version : Option (Option String × Option String)
  pub unconfigured : List ConfigStep
  pub unwritable : List String
  pub generation : ℕ
  pub seq : ℕ

-- The words of installer/ownership.py and the refusal of installer/update.py.
pub record Wording : Type 0 where
  pub owner_label : ManagerOwnership → Option String
  pub declared_label : Tool → Option String
  pub refuses_update : Tool → ManagerOwnership → Bool

-- `order_for_install`
unfoldable pub priority_rank : Priority → ℕ
priority_rank p0 = 0
priority_rank p1 = 1
priority_rank p2 = 2
priority_rank p3 = 3

unfoldable pub order_for_install : List Tool → List Tool
unfolding priority_rank sorted
order_for_install = sorted (λ t. priority_rank t.priority)

-- installer/selection.py
unfoldable pub select_tools : List Tool → List String → List Tool
unfolding contains
select_tools tools wanted = filter (λ t. contains t.id wanted) tools

-- `health in _PRESENT_HEALTH`
unfoldable pub is_present : Health → Bool
is_present broken = true
is_present misconfigured = true
is_present outdated = true
is_present ok = true
is_present _ = false

is_broken : Health → Bool
is_broken broken = true
is_broken _ = false

unfoldable pub settled : Option ToolState → Bool
unfolding is_present is_broken
settled none = false
settled (some s) = is_present s.health && not (is_broken s.health)

unfoldable pub starts_with : String → String → Bool
starts_with String.[] s = true
starts_with (String.◌∷◌ p ps) String.[] = false
starts_with (String.◌∷◌ p ps) (String.◌∷◌ c s) = eqb (code p) (code c) && starts_with ps s

-- `text.split(separator, 1)[0]`
pub before : String → String → String
unfolding starts_with
before separator String.[] = String.[]
before separator (String.◌∷◌ c s) =
    let rest = before separator s in
    if starts_with separator (String.◌∷◌ c s) then String.[] else String.◌∷◌ c rest

unfoldable pub first_clause : ToolState → String
unfolding before
first_clause s = elim s.reasons [ [] ↦ "" | reason ∷ _ ↦ before " — " reason ]

-- `a or b`
text_or : Option String → String → String
text_or none default = default
text_or (some s) default = if s == "" then default else s

broken_reason : ToolState → String
unfolding first_clause
broken_reason s =
    if first_clause s == "changed since install"
    then "changed since install; the file is replaced"
    else first_clause s

version_arrow : Option (Option String × Option String) → String
unfolding concat
version_arrow (some (some installed, some latest)) = concat (installed ∷ " -> " ∷ latest ∷ [])
version_arrow _ = "update available"

-- `ownership.owner in UNMANAGEABLE_OWNERS`
unfoldable pub unmanageable : String → Bool
unfolding contains
unmanageable owner = contains owner ("dnf" ∷ "apt" ∷ "pacman" ∷ "rpm-ostree" ∷ "os-package" ∷ [])

off_policy_reason : Wording → Tool → ManagerOwnership → String
unfolding text_or concat
off_policy_reason words tool o =
    let real = text_or (words.owner_label o) o.owner in
    let reason = concat ("managed by " ∷ real ∷ []) in
    elim (words.declared_label tool) [
      | none ↦ reason
      | some declared ↦
          if declared == real
          then reason
          else concat (reason ∷ "; the catalog installs it via " ∷ declared ∷ [])
    ]

-- A row that waits for the state.
unfoldable pub wait_row : String → Option String → PlanRow
wait_row tool_id requester = record {
  tool_id = tool_id;
  disposition = wait;
  reason = "";
  requested_by = requester;
  health = none;
  can_reinstall = false;
  steps = [];
  ownership = none;
  manual_command = none;
}

-- `make`
unfoldable pub make : String → Option String → ToolState → Disposition → String → PlanRow
make tool_id requester s d reason = record {
  tool_id = tool_id;
  disposition = d;
  reason = reason;
  requested_by = requester;
  health = some s.health;
  can_reinstall = false;
  steps = [];
  ownership = some s.ownership;
  manual_command = none;
}

module _ (words : Wording) (platform : Platform) (reinstall_ids : List String) where
  handoff_of : ToolState → List Method → Except (Option ManualHandoff)
  unfolding contains manual_by
  handoff_of s [] = returned none
  handoff_of s (m ∷ _) = manual_by (λ prefix. not (contains prefix s.unwritable)) m.kind m

  or_manual :
      String → Option String → ToolState → Except (Option ManualHandoff) → PlanRow → Except PlanRow
  unfolding make
  or_manual tool_id requester s (raised e) row = raised e
  or_manual tool_id requester s (returned none) row = returned row
  or_manual tool_id requester s (returned (some h)) row =
      returned
        (record (make tool_id requester s manual h.reason) { manual_command = some h.command })

  install_row : Tool → Option String → ToolState → PlanRow → Except PlanRow
  unfolding handoff_of or_manual resolve_methods
  install_row tool requester s row =
      or_manual tool.id requester s (handoff_of s (resolve_methods tool platform)) row

  broken_row : Tool → Option String → ToolState → Except PlanRow
  unfolding unmanageable text_or broken_reason install_row make concat
  broken_row tool requester s =
      if unmanageable s.ownership.owner
      then returned (
          make tool.id requester s blocked (
            concat (
              text_or (words.owner_label s.ownership) s.ownership.owner
              ∷ " owns it; repair needs sudo (never run here)"
              ∷ [])))
      else install_row tool requester s (
          make tool.id requester s repair (elim requester [
            | none ↦ broken_reason s
            | some r ↦ concat (broken_reason s ∷ "; needed by " ∷ r ∷ [])
          ]))

  misconfigured_row : Tool → Option String → Bool → ToolState → PlanRow
  unfolding make first_clause concat
  misconfigured_row tool requester false s =
      make tool.id requester s skip (concat ("already present; " ∷ first_clause s ∷ []))
  misconfigured_row tool requester true s = elim s.unconfigured [
    | [] ↦ make tool.id requester s blocked (first_clause s)
    | step ∷ rest ↦ record (make tool.id requester s reconfigure (first_clause s)) {
      steps = step ∷ rest;
    }
  ]

  outdated_row : Tool → Option String → Bool → ToolState → PlanRow
  unfolding make first_clause concat version_arrow off_policy_reason
  outdated_row tool requester false s =
      make tool.id requester s skip (concat ("already present; " ∷ first_clause s ∷ []))
  outdated_row tool requester true s =
      if not (words.refuses_update tool s.ownership)
      then make tool.id requester s update (version_arrow s.version)
      else if s.ownership.off_policy
      then make tool.id requester s skip (off_policy_reason words tool s.ownership)
      else make tool.id requester s skip (elim (words.owner_label s.ownership) [
        | none ↦ "no update source"
        | some label ↦ concat ("managed by " ∷ label ∷ [])
      ])

  -- A healthy tool that was selected itself and that nothing else drags in.
  current_row : Tool → ToolState → Except PlanRow
  unfolding make off_policy_reason install_row text_or contains concat
  current_row tool s =
      let o = s.ownership in
      if o.off_policy
      then returned (make tool.id none s skip (off_policy_reason words tool o))
      else if o.owner == "installer"
      then if contains tool.id reinstall_ids
        then install_row tool none s
            (record (make tool.id none s reinstall "reinstall requested; r again to undo") {
              can_reinstall = true;
            })
        else returned (record (make tool.id none s skip "already current") { can_reinstall = true })
      else if o.owner == "unknown"
      then returned (make tool.id none s skip "already current; owner unknown")
      else returned (
          make tool.id none s skip
            (concat ("managed by " ∷ text_or (words.owner_label o) o.owner ∷ [])))

  ok_row : Tool → Option String → Bool → ToolState → Except PlanRow
  unfolding make current_row first_clause
  ok_row tool (some r) direct s = returned (make tool.id (some r) s skip "already present")
  ok_row tool none true s = current_row tool s
  ok_row tool none false s = returned (make tool.id none s skip (first_clause s))

  row_of : Health → Tool → Option String → Bool → ToolState → Except PlanRow
  unfolding wait_row make install_row broken_row misconfigured_row outdated_row ok_row first_clause
      concat
  row_of checking tool requester direct s = returned (wait_row tool.id requester)
  row_of missing tool requester direct s = install_row tool requester s (
      make tool.id requester s install
        (elim requester [ none ↦ "not installed" | some r ↦ concat ("needed by " ∷ r ∷ []) ]))
  row_of broken tool requester direct s = broken_row tool requester s
  row_of misconfigured tool requester direct s =
      returned (misconfigured_row tool requester direct s)
  row_of outdated tool requester direct s = returned (outdated_row tool requester direct s)
  row_of ok tool requester direct s = ok_row tool requester direct s
  row_of unavailable tool requester direct s =
      returned (make tool.id requester s skip (first_clause s))

  -- `_row`
  unfoldable pub plan_row : Tool → Option ToolState → Option String → Bool → Except PlanRow
  unfolding wait_row row_of
  plan_row tool none requester direct = returned (wait_row tool.id requester)
  plan_row tool (some s) requester direct = row_of s.health tool requester direct s
