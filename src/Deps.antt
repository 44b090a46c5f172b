-- ===== src/Deps.antt =====
-- installer/deps.py: transitive closure over `requires`, blocking, and the deps-first order.
-- The Python recursion is recursion on fuel, whose end is the fault `out_of_fuel`.
-- `available` and `is_installed` are the injected predicates.
mod Outcome
pub mod Lookup
pub mod Closure
pub mod Blockable
pub mod Judges
pub mod Search
pub mod Settle
pub mod Blocks
pub mod Rows
pub mod Order
pub mod Place
pub mod Resolved
pub mod Phases
pub mod Members
pub mod Ends
pub mod Closed
pub mod Preview
mod Tests
unfoldable pub use Outcome.*
use tools_installer.Base.{
  ℕ, zero, suc, ◌+◌, String, Bool, true, false, not, ◌&&◌, ◌||◌, Option, none, some, List, [], ◌∷◌,
  ◌++◌, ◌==◌, if◌then◌else◌, filter, length, is_some, contains, discard, get, put, setdefault,
}
use tools_installer.Model.{Tool, ids}

-- `{t.id: t for t in catalog}.get(key)`: the last tool with the id wins.
unfoldable pub by_id : List Tool → String → Option Tool
by_id [] key = none
by_id (t ∷ ts) key = elim (by_id ts key) [
  | none ↦ if t.id == key then some t else none
  | some later ↦ some later
]

-- The variables that `collect` closes over.
pub record Collect : Type 0 where
  pub seen : List String
  pub wanted : List Tool
  pub requested_by : List (String × String)

pub record Blocking : Type 0 where
  pub blocked : List String
  pub blocked_needs : List (String × Option String)
  pub visiting : List String

pub record Topo : Type 0 where
  pub ordered : List Tool
  pub placed : List String
  pub visiting : List String

pub record Blocked : Type 0 where
  pub tool_id : String
  pub needs : Option String

pub record Resolution : Type 0 where
  pub closure : List Tool
  pub blocked : List Blocked
  pub requested_by : List (String × String)

pub request : List String → Tool → Tool → Collect → Collect
request selected_ids dep root s =
    if contains dep.id selected_ids
    then s
    else record s { requested_by = setdefault dep.id root.id s.requested_by }

pub enter : Tool → Collect → Collect
enter tool s = record s { seen = s.seen ++ tool.id ∷ []; wanted = s.wanted ++ tool ∷ [] }

-- `Blocked(tool.id, blocked_needs.get(tool.id))`
pub blocked_row : Tool → Blocking → Blocked
blocked_row tool s = record {
  tool_id = tool.id;
  needs = elim (get tool.id s.blocked_needs) [ none ↦ none | some needs ↦ needs ];
}

pub finish : Tool → Topo → Topo
finish tool s = record {
  ordered = s.ordered ++ tool ∷ [];
  placed = s.placed ++ tool.id ∷ [];
  visiting = discard tool.id s.visiting;
}

pub settle : (Tool → Bool) → Tool → Option String × Blocking → Bool × Blocking
settle available tool (needs, s) =
    let unsatisfiable = not (available tool) in
    let left = record s { visiting = discard tool.id s.visiting } in
    if unsatisfiable || is_some needs
    then (
      true,
      record left {
        blocked = tool.id ∷ s.blocked;
        blocked_needs = put tool.id (if unsatisfiable then none else needs) s.blocked_needs;
      },
    )
    else (false, left)

module _ (catalog : List Tool) where
  -- 1. The closure.
  module _ (selected_ids : List String) where
    pub collect_dep :
        (Tool → Tool → Collect → Result Collect) → Tool → String → Collect → Result Collect
    unfolding request
    collect_dep call root dep_id s = elim (by_id catalog dep_id) [
      | none ↦ ok s
      | some dep ↦ call dep root (request selected_ids dep root s)
    ]

    pub collect : ℕ → Tool → Tool → Collect → Result Collect
    unfolding enter collect_dep
    collect zero tool root s = err out_of_fuel
    collect (suc fuel) tool root s =
        if contains tool.id s.seen
        then ok s
        else for_each (collect_dep (collect fuel) root) tool.requires (enter tool s)

    pub collect_all : ℕ → List Tool → Collect → Result Collect
    unfolding collect
    collect_all fuel = for_each (λ tool. collect fuel tool tool)

  -- 2. Blocking.
  -- The first dependency that is blocked. The generator stops there.
  pub first_blocked :
      (Tool → Blocking → Result (Bool × Blocking))
      → List String
      → Blocking
      → Result (Option String × Blocking)
  first_blocked call [] s = ok (none, s)
  first_blocked call (dep_id ∷ rest) s = elim (by_id catalog dep_id) [
    | none ↦ first_blocked call rest s
    | some dep ↦ elim (call dep s) [
      | err e ↦ err e
      | ok r ↦ elim r.0 [ true ↦ ok (some dep_id, r.1) | false ↦ first_blocked call rest r.1 ]
    ]
  ]

  module _ (available is_installed : Tool → Bool) where
    pub is_blocked : ℕ → Tool → Blocking → Result (Bool × Blocking)
    unfolding first_blocked settle
    is_blocked zero tool s = err out_of_fuel
    is_blocked (suc fuel) tool s =
        if contains tool.id s.blocked
        then ok (true, s)
        else if is_installed tool
        then ok (false, s)
        else if contains tool.id s.visiting
        then ok (false, s)
        else map_ok (settle available tool) (
            first_blocked (is_blocked fuel) tool.requires
              (record s { visiting = tool.id ∷ s.visiting }))

    -- The loop over `wanted`, with the rows so far.
    pub block_rows : ℕ → List Tool → List Blocked × Blocking → Result (List Blocked × Blocking)
    unfolding is_blocked blocked_row
    block_rows fuel [] (rows, s) = ok (rows, s)
    block_rows fuel (tool ∷ rest) (rows, s) = elim (is_blocked fuel tool s) [
      | err e ↦ err e
      | ok r ↦ block_rows fuel rest (if r.0 then rows ++ blocked_row tool r.1 ∷ [] else rows, r.1)
    ]

  -- 3. The deps-first order.
  module _ (member_ids : List String) where
    pub place_dep : (Tool → Topo → Result Topo) → String → Topo → Result Topo
    place_dep call dep_id s =
        if contains dep_id member_ids
        then elim (by_id catalog dep_id) [ none ↦ err (key_error dep_id) | some dep ↦ call dep s ]
        else ok s

    pub place : ℕ → Tool → Topo → Result Topo
    unfolding place_dep finish
    place zero tool s = err out_of_fuel
    place (suc fuel) tool s =
        if contains tool.id s.placed
        then ok s
        else if contains tool.id s.visiting
        then err (cycle tool.id)
        else map_ok (finish tool) (
            for_each (place_dep (place fuel)) tool.requires
              (record s { visiting = tool.id ∷ s.visiting }))

  pub topo : ℕ → List Tool → Result (List Tool)
  unfolding place
  topo fuel members =
      map_ok (λ s. s.ordered)
        (for_each (place (ids members) fuel) members
          (record { ordered = []; placed = []; visiting = [] }))

-- No recursion goes deeper than the number of tools.
abbrev pub limit : List Tool → List Tool → ℕ
limit selected catalog = suc (length selected + length catalog)

module _ (selected catalog : List Tool) (available is_installed : Tool → Bool) where
  unfoldable pub resolve_dependencies : Result Resolution
  unfolding collect_all block_rows topo
  resolve_dependencies = do
    c ←
        collect_all catalog (ids selected) (limit selected catalog) selected
          (record { seen = []; wanted = []; requested_by = [] })
    (rows, b) ←
        block_rows catalog available is_installed (limit selected catalog) c.wanted
          ([], record { blocked = []; blocked_needs = []; visiting = [] })
    closure ←
        topo catalog (limit selected catalog) (filter (λ t. not (contains t.id b.blocked)) c.wanted)
    ok (record { closure = closure; blocked = rows; requested_by = c.requested_by })
