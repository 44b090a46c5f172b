-- ===== src/Session/Engine/Held.antt =====
-- What the rows of `execute_plan` have to do with one another: a stopped run attempts nothing more,
-- and a tool is not run where one that it requires is lost.
use tools_installer.Base.{
  String, Bool, true, false, Option, none, some, List, [], ◌∷◌, filter, if◌then◌else◌, contains,
  contains-cons_self, Subset, Subset-cons, ◌≡◌, refl, arith, Bool-cases, inl, inr, ◌⊎◌, get, sym,
  ap, ◌∙◌, unique, contains-unique, eq_iff,
}
use tools_installer.Model.{Tool}
use tools_installer.Session.{
  InstallStatus, dependency_failed, Disposition, wait, install, update, repair, reconfigure,
  reinstall, skip, blocked, manual, remove, RowResult, r_dependency_failed, r_not_attempted,
  r_crashed, InstallOutcome, PlanRow, RowOutcome,
}
use tools_installer.Session.Effect.{Except, returned, raised, Ends}
use tools_installer.Session.Engine.{
  RunContext, State, loses, blockers, stops, install_or_block, settle_install, dispatch, attempt,
  caught, run_or_stop, run_row, is_empty, row_by, asked, manual_outcome,
}
use tools_installer.Session.Engine.Rows.{
  loses_row, lost, Keyed, Kept, Owns, stopped, Kept-refl, after, after_kept, attempt-Owns,
  started-Kept, looked_up-Kept,
}

-- The dispositions that the loop does not answer for by itself.
abbrev pub is_active : Disposition → Bool
is_active skip = false
is_active blocked = false
is_active manual = false
is_active _ = true

-- The results of a row for which no install, update or reconfiguration ran to its end.
abbrev pub IsHeld : RowResult → Type 0
IsHeld r = (r ≡ r_dependency_failed) ⊎ (r ≡ r_not_attempted) ⊎ (r ≡ r_crashed)

-- What a row does to the state, and what is known after it.
abbrev RowEnds : {W : Type 0} → PlanRow → State W → State W × RowOutcome → Type 0
RowEnds row s (s', o) =
    (s.halted ≡ true → s'.halted ≡ true)
    × (s.in_flight ≡ none → s'.in_flight ≡ none)
    × Subset s.unresolved s'.unresolved
    × (o.row ≡ row)
    × (lost o ≡ true → contains row.tool_id s'.unresolved ≡ true)
    × (stopped o.result ≡ true → s'.halted ≡ true)

module _ {W : Type 0} (ctx : RunContext W) where
  -- The tool of the row requires one that is lost.
  abbrev pub Requires : PlanRow → String → Type 0
  Requires row dep =
      (tool : Tool) × (get row.tool_id ctx.catalog ≡ some tool)
      × (contains dep tool.requires ≡ true)

module _ {W : Type 0} (ctx : RunContext W) (forced : List String) where
  asked-Kept : (ask : Option (W → W × Bool)) (s : State W) → Kept s (asked ctx forced ask s).0
  unfolding asked
  asked-Kept none s = Kept-refl s
  asked-Kept (some ask) s = Kept-refl s

  stops_by-Kept :
      (b : Bool) (s : State W)
      → Kept s (if b then (s, true) else asked ctx forced ctx.should_continue s).0
  stops_by-Kept true s = Kept-refl s
  stops_by-Kept false s = asked-Kept ctx.should_continue s

  stops-Kept : (s : State W) → Kept s (stops ctx forced s).0
  unfolding stops
  stops-Kept s = stops_by-Kept s.halted s

  caught-ends :
      (row : PlanRow) (s : State W) (r : State W × Except RowOutcome)
      → Ends (Kept s) (Owns row) r
      → RowEnds row s (caught ctx forced row r)
  unfolding caught
  caught-ends row s (t, returned o) h =
      (λ f. h.0.0 ∙ f, h.0.1, h.0.2, h.1.0, h.1.2, λ l. ground (arith, h.1.1))
  caught-ends row s (t, raised e) h = (λ _. refl, h.1, h.2, refl, λ l. ground arith, λ _. refl)

  run_or_stop-ends :
      (row : PlanRow) (s : State W) (b : Bool)
      → Keyed ctx.catalog
      → ((status : InstallStatus) → loses_row row.disposition status ≡ loses row.disposition status)
      → RowEnds row s (run_or_stop ctx forced row (s, b))
  unfolding run_or_stop
  run_or_stop-ends row s true keyed same =
      (λ _. refl, λ f. f, λ x i. i, refl, λ l. ground arith, λ _. refl)
  run_or_stop-ends row s false keyed same =
      caught-ends row s (attempt ctx forced row s) (attempt-Owns ctx forced row s keyed same)

  RowEnds-after :
      (row : PlanRow) (s t : State W) (r : State W × RowOutcome)
      → Kept s t
      → RowEnds row t r
      → RowEnds row s r
  RowEnds-after row s t r k h =
      (λ f. h.0 (k.0 ∙ f), λ f. h.1 (k.1 f), λ x i. h.2 x (k.2 x i), h.3, h.4, h.5)

  active-ends :
      (row : PlanRow) (s : State W) (d : Disposition)
      → Keyed ctx.catalog
      → row.disposition ≡ d
      → ((status : InstallStatus) → loses_row d status ≡ loses d status)
      → RowEnds row s (run_or_stop ctx forced row (stops ctx forced s))
  active-ends row s d keyed e same =
      let stop = stops ctx forced s in
      RowEnds-after row s stop.0 (run_or_stop ctx forced row stop) (stops-Kept s)
        (run_or_stop-ends row stop.0 stop.1 keyed (λ status. rw e (same status)))

  row_by-ends :
      (d : Disposition) (row : PlanRow) (s : State W)
      → Keyed ctx.catalog
      → row.disposition ≡ d
      → RowEnds row s (row_by ctx forced d row s)
  unfolding row_by manual_outcome
  row_by-ends skip row s keyed e =
      (λ h. h, λ h. h, λ x h. h, refl, λ l. ground arith, λ l. ground arith)
  row_by-ends blocked row s keyed e =
      (λ h. h, λ h. h, λ x h. h, refl, λ l. ground arith, λ l. ground arith)
  row_by-ends manual row s keyed e = (
    λ h. h,
    λ h. h,
    Subset-cons row.tool_id s.unresolved,
    refl,
    λ l. contains-cons_self row.tool_id s.unresolved,
    λ l. ground arith,
  )
  row_by-ends wait row s keyed e = active-ends row s wait keyed e (λ _. refl)
  row_by-ends install row s keyed e = active-ends row s install keyed e (λ _. refl)
  row_by-ends update row s keyed e = active-ends row s update keyed e (λ _. refl)
  row_by-ends repair row s keyed e = active-ends row s repair keyed e (λ _. refl)
  row_by-ends reconfigure row s keyed e = active-ends row s reconfigure keyed e (λ _. refl)
  row_by-ends reinstall row s keyed e = active-ends row s reinstall keyed e (λ _. refl)
  row_by-ends remove row s keyed e = active-ends row s remove keyed e (λ _. refl)

  pub run_row-ends :
      (row : PlanRow) (s : State W) → Keyed ctx.catalog → RowEnds row s (run_row ctx forced row s)
  unfolding run_row
  run_row-ends row s keyed = row_by-ends row.disposition row s keyed refl

  -- A stopped run attempts nothing more.
  stop_by-halted :
      (row : PlanRow) (s : State W) (b : Bool)
      → b ≡ true
      → (run_or_stop ctx forced row
          (if b then (s, true) else asked ctx forced ctx.should_continue s)).1.result
        ≡ r_not_attempted
  unfolding run_or_stop
  stop_by-halted row s true h = refl
  stop_by-halted row s false h = ground arith

  stop-halted :
      (row : PlanRow) (s : State W)
      → s.halted ≡ true
      → (run_or_stop ctx forced row (stops ctx forced s)).1.result ≡ r_not_attempted
  unfolding stops
  stop-halted row s h = stop_by-halted row s s.halted h

  row_by-halted :
      (d : Disposition) (row : PlanRow) (s : State W)
      → s.halted ≡ true
      → is_active d ≡ true
      → (row_by ctx forced d row s).1.result ≡ r_not_attempted
  unfolding row_by
  row_by-halted skip row s h a = ground arith
  row_by-halted blocked row s h a = ground arith
  row_by-halted manual row s h a = ground arith
  row_by-halted _ row s h a = stop-halted row s h

  install_or_block-held :
      (row : PlanRow) (tool : Tool) (blocked_by : List String) (s : State W)
      → is_empty blocked_by ≡ false
      → Ends
          (Kept s)
          (λ result _. result.status ≡ dependency_failed)
          (install_or_block ctx forced tool blocked_by s)
  unfolding install_or_block
  install_or_block-held row tool [] s h = ground arith
  install_or_block-held row tool (b ∷ bs) s h = (Kept-refl s, refl)

  settle_install-result :
      (row : PlanRow) (tool : Tool) (result : InstallOutcome) (s : State W)
      → result.status ≡ dependency_failed
      → Ends
          (Kept s)
          (λ o _. o.result ≡ r_dependency_failed)
          (settle_install ctx forced row tool result s)
  unfolding settle_install
  settle_install-result row tool result s h =
      elim (Bool-cases (loses row.disposition result.status)) [
        | inl holds ↦ rw holds ((refl, λ f. f, Subset-cons tool.id s.unresolved), rw h refl)
        | inr fails ↦ rw fails (Kept-refl s, rw h refl)
      ]

  filter-inhabited :
      (dep : String) (xs unresolved : List String)
      → contains dep xs ≡ true
      → contains dep unresolved ≡ true
      → is_empty (filter (λ x. contains x unresolved) xs) ≡ false
  unfolding contains
  filter-inhabited dep [] unresolved h u = ground arith
  filter-inhabited dep (x ∷ xs) unresolved h u = elim (Bool-cases (contains x unresolved)) [
    | inl holds ↦ rw holds refl
    | inr fails ↦ rw fails (filter-inhabited dep xs unresolved (grind (arith, eq_iff x dep)) u)
  ]

  blockers-inhabited :
      (tool : Tool) (dep : String) (unresolved : List String)
      → contains dep tool.requires ≡ true
      → contains dep unresolved ≡ true
      → is_empty (blockers tool unresolved) ≡ false
  unfolding blockers
  blockers-inhabited tool dep unresolved r u =
      filter-inhabited dep (unique tool.requires) unresolved (contains-unique dep tool.requires r) u

  dispatch-held :
      (row : PlanRow) (tool : Tool) (s : State W)
      → is_empty (blockers tool s.unresolved) ≡ false
      → Ends (Kept s) (λ o _. o.result ≡ r_dependency_failed) (dispatch ctx forced row tool s)
  unfolding dispatch
  dispatch-held row tool s h = rw h (
      after (λ result _. result.status ≡ dependency_failed) (λ o _. o.result ≡ r_dependency_failed)
        s _ _ (install_or_block-held row tool (blockers tool s.unresolved) s h)
        (λ result t failed. settle_install-result row tool result t failed))

  required : Option Tool → List String
  required none = []
  required (some tool) = tool.requires

  found-requires :
      (row : PlanRow) (tool : Tool) (dep : String)
      → Requires ctx row dep
      → get row.tool_id ctx.catalog ≡ some tool
      → contains dep tool.requires ≡ true
  unfolding required
  found-requires row tool dep r found =
      sym (ap (λ o. contains dep (required o)) (sym r.1 ∙ found)) ∙ r.2

  attempt-held :
      (row : PlanRow) (s : State W) (dep : String)
      → Requires ctx row dep
      → contains dep s.unresolved ≡ true
      → Ends (Kept s) (λ o _. o.result ≡ r_dependency_failed) (attempt ctx forced row s)
  unfolding attempt
  attempt-held row s dep r u =
      after_kept (λ tool _. get row.tool_id ctx.catalog ≡ some tool)
        (λ o _. o.result ≡ r_dependency_failed) s _ _
        (after (λ _ _. Unit) (λ tool _. get row.tool_id ctx.catalog ≡ some tool) s _ _
          (started-Kept ctx forced ctx.on_row_started row s)
          (λ _ t _. looked_up-Kept ctx forced (get row.tool_id ctx.catalog) row t))
        (λ tool t k found. dispatch-held row tool t (
          blockers-inhabited tool dep t.unresolved (found-requires row tool dep r found)
            (k.2 dep u)))

  caught-IsHeld :
      (row : PlanRow) (s : State W) (r : State W × Except RowOutcome)
      → Ends (Kept s) (λ o _. o.result ≡ r_dependency_failed) r
      → IsHeld (caught ctx forced row r).1.result
  unfolding caught
  caught-IsHeld row s (t, returned o) h = inl h.1
  caught-IsHeld row s (t, raised e) h = inr (inr refl)

  run_or_stop-IsHeld :
      (row : PlanRow) (s : State W) (b : Bool) (dep : String)
      → Requires ctx row dep
      → contains dep s.unresolved ≡ true
      → IsHeld (run_or_stop ctx forced row (s, b)).1.result
  unfolding run_or_stop
  run_or_stop-IsHeld row s true dep r u = inr (inl refl)
  run_or_stop-IsHeld row s false dep r u = caught-IsHeld row s _ (attempt-held row s dep r u)

  row_by-IsHeld :
      (d : Disposition) (row : PlanRow) (s : State W) (dep : String)
      → is_active d ≡ true
      → Requires ctx row dep
      → contains dep s.unresolved ≡ true
      → IsHeld (row_by ctx forced d row s).1.result
  unfolding row_by
  row_by-IsHeld skip row s dep a r u = ground arith
  row_by-IsHeld blocked row s dep a r u = ground arith
  row_by-IsHeld manual row s dep a r u = ground arith
  row_by-IsHeld _ row s dep a r u =
      let stop = stops ctx forced s in
      run_or_stop-IsHeld row stop.0 stop.1 dep r ((stops-Kept s).2 dep u)

  pub run_row-halted :
      (row : PlanRow) (s : State W)
      → s.halted ≡ true
      → is_active row.disposition ≡ true
      → (run_row ctx forced row s).1.result ≡ r_not_attempted
  unfolding run_row
  run_row-halted row s h a = row_by-halted row.disposition row s h a

  pub run_row-IsHeld :
      (row : PlanRow) (s : State W) (dep : String)
      → is_active row.disposition ≡ true
      → Requires ctx row dep
      → contains dep s.unresolved ≡ true
      → IsHeld (run_row ctx forced row s).1.result
  unfolding run_row
  run_row-IsHeld row s dep a r u = row_by-IsHeld row.disposition row s dep a r u
