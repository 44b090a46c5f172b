-- ===== src/Session/Engine/Loop.antt =====
-- The loop of `execute_plan`: every row has its outcome, in order, and the outcomes hang together.
use tools_installer.Base.{
  String, true, false, Option, none, some, List, [], ◌∷◌, map, any, contains, ◌≡◌, refl, arith, All,
  Bool-cases, inl, inr, sym, ap, subst, ◌∙◌,
}
use tools_installer.Session.{r_not_attempted, PlanRow, RowOutcome}
use tools_installer.Session.Engine.{
  RunContext, State, run_row, reported, run_rows, reported_to, execute_plan, is_wait, force_ids,
}
use tools_installer.Session.Engine.Rows.{lost, Keyed, Kept, stopped, Kept-refl}
use tools_installer.Session.Engine.Held.{
  is_active, IsHeld, Requires, run_row-ends, run_row-halted, run_row-IsHeld,
}

module _ {W : Type 0} (ctx : RunContext W) where
  -- Nothing is attempted after a row that stopped the run, and nothing that requires a lost tool
  -- is run after the row that lost it.
  abbrev pub IsTruthful : List RowOutcome → Type 0
  IsTruthful [] = Unit
  IsTruthful (o ∷ os) =
      (stopped o.result ≡ true
        → All (λ p. is_active p.row.disposition ≡ true → p.result ≡ r_not_attempted) os)
      × (lost o ≡ true
          → All
              (λ p.
                is_active p.row.disposition ≡ true
                → Requires ctx p.row o.row.tool_id
                → IsHeld p.result)
              os)
      × IsTruthful os

module _ {W : Type 0} (ctx : RunContext W) (forced : List String) where
  same_cons : {a b : PlanRow} {xs ys : List PlanRow} → a ≡ b → xs ≡ ys → (a ∷ xs) ≡ (b ∷ ys)
  same_cons h k = cc

  reported_to-Kept :
      (notify : Option (RowOutcome → W → W)) (o : RowOutcome) (s : State W)
      → Kept s (reported_to ctx forced notify o s)
  unfolding reported_to
  reported_to-Kept none o s = Kept-refl s
  reported_to-Kept (some notify) o s = Kept-refl s

  reported-Kept : (o : RowOutcome) (s : State W) → Kept s (reported ctx forced o s)
  unfolding reported
  reported-Kept o s = reported_to-Kept ctx.on_outcome o s

  rows-halted :
      (rows : List PlanRow) (s : State W)
      → Keyed ctx.catalog
      → s.halted ≡ true
      → All
          (λ p. is_active p.row.disposition ≡ true → p.result ≡ r_not_attempted)
          (run_rows ctx forced rows s).1
  unfolding run_rows
  rows-halted [] s keyed h = tt
  rows-halted (row ∷ rows) s keyed h =
      let e = run_row-ends ctx forced row s keyed in
      let r = run_row ctx forced row s in
      let k = reported-Kept r.1 r.0 in
      (
        λ a.
            run_row-halted ctx forced row s h
              (ap (λ (q : PlanRow). is_active q.disposition) (sym e.3) ∙ a),
        rows-halted rows (reported ctx forced r.1 r.0) keyed (k.0 ∙ e.0 h),
      )

  rows-IsHeld :
      (rows : List PlanRow) (s : State W) (dep : String)
      → Keyed ctx.catalog
      → contains dep s.unresolved ≡ true
      → All
          (λ p. is_active p.row.disposition ≡ true → Requires ctx p.row dep → IsHeld p.result)
          (run_rows ctx forced rows s).1
  unfolding run_rows
  rows-IsHeld [] s dep keyed u = tt
  rows-IsHeld (row ∷ rows) s dep keyed u =
      let e = run_row-ends ctx forced row s keyed in
      let r = run_row ctx forced row s in
      let k = reported-Kept r.1 r.0 in
      (
        λ a q.
            run_row-IsHeld ctx forced row s dep
              (ap (λ (q : PlanRow). is_active q.disposition) (sym e.3) ∙ a)
              (subst (λ x. Requires ctx x dep) e.3 q) u,
        rows-IsHeld rows (reported ctx forced r.1 r.0) dep keyed (k.2 dep (e.2 dep u)),
      )

  rows-IsTruthful :
      (rows : List PlanRow) (s : State W)
      → Keyed ctx.catalog
      → IsTruthful ctx (run_rows ctx forced rows s).1
  unfolding run_rows
  rows-IsTruthful [] s keyed = tt
  rows-IsTruthful (row ∷ rows) s keyed =
      let e = run_row-ends ctx forced row s keyed in
      let r = run_row ctx forced row s in
      let k = reported-Kept r.1 r.0 in
      let t = reported ctx forced r.1 r.0 in
      (
        λ stop. rows-halted rows t keyed (k.0 ∙ e.5 stop),
        λ l. rows-IsHeld rows t r.1.row.tool_id keyed (
            subst (λ x. contains x t.unresolved ≡ true) (ap (λ (q : PlanRow). q.tool_id) (sym e.3))
              (k.2 row.tool_id (e.4 l))),
        rows-IsTruthful rows t keyed,
      )

  rows-own :
      (rows : List PlanRow) (s : State W)
      → Keyed ctx.catalog
      → (map (λ o. o.row) (run_rows ctx forced rows s).1 ≡ rows)
        × (s.in_flight ≡ none → (run_rows ctx forced rows s).0.in_flight ≡ none)
  unfolding run_rows
  rows-own [] s keyed = (refl, λ h. h)
  rows-own (row ∷ rows) s keyed =
      let e = run_row-ends ctx forced row s keyed in
      let r = run_row ctx forced row s in
      let k = reported-Kept r.1 r.0 in
      let t = reported ctx forced r.1 r.0 in
      let ih = rows-own rows t keyed in (same_cons e.3 ih.0, λ h. ih.1 (k.1 (e.1 h)))

returned_outcomes : {W : Type 0} → Option (State W × List RowOutcome) → List RowOutcome
returned_outcomes none = []
returned_outcomes (some (s, outcomes)) = outcomes

-- Where every tool of the catalog stands under its id: `execute_plan` refuses a plan with a row that
-- is still checking; of any other plan it returns one outcome for each row, in the order of the rows,
-- and the update service's latch is free at the end where it was free at the start, also where an
-- update, an install or a callback raised.
pub execute_plan-outcomes :
    {W : Type 0} (ctx : RunContext W) (rows : List PlanRow) (latch : Option String) (w : W)
    → Keyed ctx.catalog
    → (any is_wait rows ≡ true → execute_plan ctx rows latch w ≡ none)
      × (any is_wait rows ≡ false
          → (s : State W) × (outcomes : List RowOutcome) × (execute_plan ctx rows latch w
              ≡ some (s, outcomes))
            × (map (λ o. o.row) outcomes ≡ rows)
            × (latch ≡ none → s.in_flight ≡ none))
unfolding execute_plan
execute_plan-outcomes ctx rows latch w keyed = (
  λ h. rw h refl,
  λ h.
      let r =
        run_rows ctx (force_ids rows) rows
          (record { unresolved = []; halted = false; in_flight = latch; world = w }) in
      let own =
        rows-own ctx (force_ids rows) rows
          (record { unresolved = []; halted = false; in_flight = latch; world = w }) keyed in
      (r.0, r.1, rw h refl, own.0, own.1),
)

-- Where every tool of the catalog stands under its id, the outcomes that `execute_plan` returns hang
-- together: after a row that crashed or was not attempted, no
-- row is attempted except those that the plan itself skips, blocks or leaves to the user; after a
-- row that lost its tool, a row of a tool that requires it is reported as blocked by its dependency,
-- as not attempted or as crashed, never as done.
pub execute_plan-IsTruthful :
    {W : Type 0} (ctx : RunContext W) (rows : List PlanRow) (latch : Option String) (w : W)
    (s : State W) (outcomes : List RowOutcome)
    → Keyed ctx.catalog
    → execute_plan ctx rows latch w ≡ some (s, outcomes)
    → IsTruthful ctx outcomes
unfolding execute_plan returned_outcomes
execute_plan-IsTruthful ctx rows latch w s outcomes keyed h =
    let start : State _ = record {
      unresolved = [];
      halted = false;
      in_flight = latch;
      world = w;
    } in
    elim (Bool-cases (any is_wait rows)) [
      | inl holds ↦
          let refused : execute_plan ctx rows latch w ≡ none = rw holds refl in
          ground (arith, sym refused ∙ h)
      | inr fails ↦
          let ran : execute_plan ctx rows latch w
              ≡ some (run_rows ctx (force_ids rows) rows start) =
            rw fails refl in
          subst (IsTruthful ctx) (ap returned_outcomes (sym ran ∙ h))
            (rows-IsTruthful ctx (force_ids rows) rows start keyed)
    ]
