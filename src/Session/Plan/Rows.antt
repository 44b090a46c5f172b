-- ===== src/Session/Plan/Rows.antt =====
-- What the two passes of `build_plan` do to the rows.
use tools_installer.Base.{
  String, Bool, true, false, Option, none, some, List, [], ◌∷◌, ◌==◌, ◌≡◌, refl, sym, ◌∙◌, ap,
  arith, if◌then◌else◌, Bool-cases, inl, inr, contains, Subset, Subset-cons, eq_iff,
}
use tools_installer.Model.{Tool}
use tools_installer.Session.{PlanRow, runnable}
use tools_installer.Session.Plan.{ToolState, settled}
use tools_installer.Session.Plan.Build.{
  first_unsatisfied, requires_of, unsatisfied_of, held, hold_row, hold_rows, dropped, drop_row,
  drop_rows, settle_rows, not_needed,
}

-- Two lists of rows, related place by place.
abbrev pub Pairwise : (PlanRow → PlanRow → Type 0) → List PlanRow → List PlanRow → Type 0
Pairwise R [] [] = Unit
Pairwise R (x ∷ xs) (y ∷ ys) = R x y × Pairwise R xs ys
Pairwise R _ _ = ⊥

first_unsatisfied-none :
    (unsatisfied deps : List String) (dep : String)
    → first_unsatisfied unsatisfied deps ≡ none
    → contains dep deps ≡ true
    → contains dep unsatisfied ≡ false
unfolding first_unsatisfied contains
first_unsatisfied-none unsatisfied [] dep h i = ground arith
first_unsatisfied-none unsatisfied (d ∷ deps) dep h i = elim (Bool-cases (contains d unsatisfied)) [
  | inl holds ↦ ground arith
  | inr fails ↦ elim (Bool-cases (d == dep)) [
    | inl same ↦ ap (λ x. contains x unsatisfied) (sym ((eq_iff d dep).0 same)) ∙ fails
    | inr other ↦ first_unsatisfied-none unsatisfied deps dep (ground arith) (ground (arith, other))
  ]
]

module _ (catalog : List Tool) (state_of : String → Option ToolState) where
  -- The second row is for the tool of the first; if it is runnable, it is the first one itself, and
  -- its tool requires nothing that is unsatisfied.
  abbrev pub Follows : List String → PlanRow → PlanRow → Type 0
  Follows unsatisfied x y =
      (y.tool_id ≡ x.tool_id)
      × (runnable y.disposition ≡ true
          → (y ≡ x)
            × ((dep : String)
                → contains dep (requires_of catalog state_of x.tool_id) ≡ true
                → contains dep unsatisfied ≡ false))

  held-Follows :
      (row : PlanRow) (base unsatisfied : List String) (dep : Option String)
      → Subset base unsatisfied
      → first_unsatisfied unsatisfied (requires_of catalog state_of row.tool_id) ≡ dep
      → Follows base row (held catalog state_of row unsatisfied dep).0
        × Subset base (held catalog state_of row unsatisfied dep).1
  unfolding held
  held-Follows row base unsatisfied none s h = (
    (
      refl,
      λ r. (
        refl,
        λ d i. ground (
          arith,
          s d,
          first_unsatisfied-none unsatisfied (requires_of catalog state_of row.tool_id) d h i,
        ),
      ),
    ),
    s,
  )
  held-Follows row base unsatisfied (some dep) s h = (
    (refl, λ r. ground arith),
    elim (Bool-cases (settled (state_of row.tool_id))) [
      | inl holds ↦ rw holds s
      | inr fails ↦ rw fails (λ x i. Subset-cons row.tool_id unsatisfied x (s x i))
    ],
  )

  hold_row-Follows :
      (row : PlanRow) (base unsatisfied : List String)
      → Subset base unsatisfied
      → Follows base row (hold_row catalog state_of row unsatisfied).0
        × Subset base (hold_row catalog state_of row unsatisfied).1
  unfolding hold_row
  hold_row-Follows row base unsatisfied s = elim (Bool-cases (runnable row.disposition)) [
    | inl holds ↦ rw holds (
        held-Follows row base unsatisfied
          (first_unsatisfied unsatisfied (requires_of catalog state_of row.tool_id)) s refl)
    | inr fails ↦ rw fails ((refl, λ r. ground (arith, fails, r)), s)
  ]

  hold_rows-Follows :
      (rows : List PlanRow) (base unsatisfied : List String)
      → Subset base unsatisfied
      → Pairwise (Follows base) rows (hold_rows catalog state_of rows unsatisfied)
  unfolding hold_rows
  hold_rows-Follows [] base unsatisfied s = tt
  hold_rows-Follows (row ∷ rows) base unsatisfied s =
      let h = hold_row-Follows row base unsatisfied s in (h.0, hold_rows-Follows rows base _ h.1)

  dropped-Follows :
      (x row : PlanRow) (base : List String) (requester : Option String) (rows : List PlanRow)
      → Follows base x row
      → Follows base x (dropped catalog state_of row requester rows)
  unfolding dropped
  dropped-Follows x row base none rows f = f
  dropped-Follows x row base (some requester) rows f =
      elim (Bool-cases (not_needed catalog state_of row.tool_id rows)) [
        | inl holds ↦ rw holds (f.0, λ r. ground arith)
        | inr fails ↦ rw fails f
      ]

  if_Follows :
      (x row : PlanRow) (base : List String) (b : Bool) (other : PlanRow)
      → Follows base x other
      → Follows base x row
      → Follows base x (if b then other else row)
  if_Follows x row base true other f g = f
  if_Follows x row base false other f g = g

  drop_row-Follows :
      (x row : PlanRow) (base : List String) (rows : List PlanRow)
      → Follows base x row
      → Follows base x (drop_row catalog state_of rows row)
  unfolding drop_row
  drop_row-Follows x row base rows f =
      if_Follows x row base (runnable row.disposition)
        (dropped catalog state_of row row.requested_by rows)
        (dropped-Follows x row base row.requested_by rows f) f

  drop_rows-Follows :
      (xs rows front : List PlanRow) (base : List String)
      → Pairwise (Follows base) xs rows
      → Pairwise (Follows base) xs (drop_rows catalog state_of front rows)
  unfolding drop_rows
  drop_rows-Follows [] [] front base p = tt
  drop_rows-Follows (x ∷ xs) (row ∷ rows) front base p =
      (drop_row-Follows x row base _ p.0, drop_rows-Follows xs rows _ base p.1)
  drop_rows-Follows [] (row ∷ rows) front base p = ground arith
  drop_rows-Follows (x ∷ xs) [] front base p = ground arith

-- The two passes of `build_plan` keep the rows in place, each for its tool. A row that is runnable
-- after them is the row that it was before, and its tool requires none whose row was blocked or
-- left to the user while the tool was not settled.
pub settle_rows-Follows :
    (catalog : List Tool) (state_of : String → Option ToolState) (rows : List PlanRow)
    → Pairwise
        (Follows catalog state_of (unsatisfied_of catalog state_of rows))
        rows
        (settle_rows catalog state_of rows)
unfolding settle_rows
settle_rows-Follows catalog state_of rows =
    let base = unsatisfied_of catalog state_of rows in
    drop_rows-Follows catalog state_of rows (hold_rows catalog state_of rows base) [] base
      (hold_rows-Follows catalog state_of rows base base (λ x i. i))
