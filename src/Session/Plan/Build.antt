-- ===== src/Session/Plan/Build.antt =====
-- installer/session.py, `build_plan`: the rows of the resolution, and the two passes over them.
use tools_installer.Base.{
  String, Bool, true, false, Option, none, some, List, [], ◌∷◌, ◌++◌, ◌&&◌, ◌||◌, not,
  if◌then◌else◌, filter, all, map, contains, get, concat,
}
use tools_installer.Model.{Tool, ids}
use tools_installer.Platform.{Platform}
use tools_installer.Resolve.{resolve_methods, non_empty}
use tools_installer.Deps.{Blocked, Resolution, Result, ok, err, resolve_dependencies, by_id}
use tools_installer.Session.{
  Disposition, skip, blocked, manual, Health, checking, unavailable, PlanRow, runnable,
}
use tools_installer.Session.Effect.{Except, returned, raised}
use tools_installer.Session.Plan.{
  ToolState, Wording, order_for_install, select_tools, settled, plan_row, wait_row, make,
  first_clause, starts_with,
}

-- `_blocked_row`, of a known state
pub known_blocked : Blocked → Health → ToolState → Option String → PlanRow
unfolding wait_row make first_clause concat
known_blocked b checking s requester = wait_row b.tool_id requester
known_blocked b h s requester =
    let reason : String =
      if is_unavailable h && not (is_nil s.reasons) then first_clause s else elim b.needs [
        | some dep ↦ concat ("needs " ∷ dep ∷ [])
        | none ↦ "not available on this platform"
      ] in
    make b.tool_id requester s blocked reason
  where
    is_unavailable : Health → Bool
    is_unavailable unavailable = true
    is_unavailable _ = false

    is_nil : List String → Bool
    is_nil [] = true
    is_nil (_ ∷ _) = false

unfoldable pub blocked_plan_row : Blocked → Option ToolState → Option String → PlanRow
unfolding known_blocked wait_row
blocked_plan_row b none requester = wait_row b.tool_id requester
blocked_plan_row b (some s) requester = known_blocked b s.health s requester

-- `disposition in {BLOCKED, MANUAL}`
abbrev pub stands_still : Disposition → Bool
stands_still blocked = true
stands_still manual = true
stands_still _ = false

-- `next((dep for dep in requires if dep in unsatisfied), None)`
unfoldable pub first_unsatisfied : List String → List String → Option String
unfolding contains
first_unsatisfied unsatisfied [] = none
first_unsatisfied unsatisfied (dep ∷ deps) =
    let later = first_unsatisfied unsatisfied deps in
    if contains dep unsatisfied then some dep else later

-- `_needs_row`
unfoldable pub needs_row : PlanRow → String → PlanRow
unfolding concat
needs_row row dep = record row { disposition = blocked; reason = concat ("needs " ∷ dep ∷ []) }

module _ (catalog : List Tool) (state_of : String → Option ToolState) where
  -- `by_id[tool_id].requires`. Every row's tool is catalogued.
  unfoldable pub requires_of : String → List String
  unfolding by_id
  requires_of tool_id = elim (by_id catalog tool_id) [ none ↦ [] | some tool ↦ tool.requires ]

  unfoldable pub unsatisfied_of : List PlanRow → List String
  unfolding settled
  unsatisfied_of rows =
      map (λ r. r.tool_id)
        (filter (λ r. stands_still r.disposition && not (settled (state_of r.tool_id))) rows)

  -- One round of the first pass: the row, and what is unsatisfied after it.
  unfoldable pub held : PlanRow → List String → Option String → PlanRow × List String
  unfolding needs_row settled
  held row unsatisfied none = (row, unsatisfied)
  held row unsatisfied (some dep) = (
    needs_row row dep,
    if settled (state_of row.tool_id) then unsatisfied else row.tool_id ∷ unsatisfied,
  )

  unfoldable pub hold_row : PlanRow → List String → PlanRow × List String
  unfolding held first_unsatisfied requires_of
  hold_row row unsatisfied =
      if runnable row.disposition
      then held row unsatisfied (first_unsatisfied unsatisfied (requires_of row.tool_id))
      else (row, unsatisfied)

  unfoldable pub hold_rows : List PlanRow → List String → List PlanRow
  unfolding hold_row
  hold_rows [] unsatisfied = []
  hold_rows (row ∷ rows) unsatisfied = let r = hold_row row unsatisfied in r.0 ∷ hold_rows rows r.1

  -- `requiring_rows` all stand still or are not needed themselves, and there is one.
  unfoldable pub not_needed : String → List PlanRow → Bool
  unfolding contains requires_of starts_with
  not_needed tool_id rows =
      let requiring = filter (λ r. contains tool_id (requires_of r.tool_id)) rows in
      not (is_none requiring)
      && all (λ r. stands_still r.disposition || starts_with "not needed while " r.reason) requiring
    where
      is_none : List PlanRow → Bool
      is_none [] = true
      is_none (_ ∷ _) = false

  unfoldable pub dropped : PlanRow → Option String → List PlanRow → PlanRow
  unfolding not_needed concat
  dropped row none rows = row
  dropped row (some requester) rows =
      if not_needed row.tool_id rows
      then record row {
        disposition = skip;
        reason = concat ("not needed while " ∷ requester ∷ " is blocked" ∷ []);
      }
      else row

  unfoldable pub drop_row : List PlanRow → PlanRow → PlanRow
  unfolding dropped
  drop_row rows row = if runnable row.disposition then dropped row row.requested_by rows else row

  -- The second pass, from the last row to the first: `front` are the rows before the ones that are
  -- done, in the order of the list.
  unfoldable pub drop_rows : List PlanRow → List PlanRow → List PlanRow
  unfolding drop_row
  drop_rows front [] = []
  drop_rows front (row ∷ rows) =
      let done = drop_rows (front ++ row ∷ []) rows in drop_row (front ++ row ∷ done) row ∷ done

  -- The two passes over the rows.
  unfoldable pub settle_rows : List PlanRow → List PlanRow
  unfolding unsatisfied_of hold_rows drop_rows
  settle_rows rows = drop_rows [] (hold_rows rows (unsatisfied_of rows))

module _ (words : Wording) (platform : Platform) (reinstall_ids selected : List String)
    (catalog : List Tool) (state_of : String → Option ToolState) where
  pub plan_rows : List String → List (String × String) → List Tool → Except (List PlanRow)
  unfolding plan_row contains get
  plan_rows direct requested [] = returned []
  plan_rows direct requested (tool ∷ tools) =
      let rest = plan_rows direct requested tools in
      elim (plan_row words platform reinstall_ids tool (state_of tool.id) (get tool.id requested)
        (contains tool.id direct)) [
          | raised e ↦ raised e
          | returned row ↦ elim rest [ raised e ↦ raised e | returned rows ↦ returned (row ∷ rows) ]
        ]

  pub planned : List Tool → Resolution → Except (List PlanRow)
  unfolding plan_rows settle_rows blocked_plan_row get
  planned chosen res = elim (plan_rows (ids chosen) res.requested_by res.closure) [
    | raised e ↦ raised e
    | returned rows ↦ returned (
        settle_rows catalog state_of (
          rows
          ++ map (λ b. blocked_plan_row b (state_of b.tool_id) (get b.tool_id res.requested_by))
              res.blocked))
  ]

  -- An error of the resolution is on the left, an exception of a row on the right.
  unfoldable pub build_plan : Result (Except (List PlanRow))
  unfolding select_tools order_for_install resolve_dependencies resolve_methods non_empty settled
      planned
  build_plan =
      let chosen = select_tools catalog selected in
      elim (resolve_dependencies (order_for_install chosen) catalog
        (λ tool. non_empty (resolve_methods tool platform)) (λ tool. settled (state_of tool.id))) [
          | err e ↦ err e
          | ok res ↦ ok (planned chosen res)
        ]
