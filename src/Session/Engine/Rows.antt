-- ===== src/Session/Engine/Rows.antt =====
-- What one row of `execute_plan` does to the state: its own outcome, the update service's latch
-- released, no tool taken back from the unresolved.
use tools_installer.Base.{
  String, Bool, true, false, Option, none, some, List, [], ◌∷◌, ◌||◌, contains, contains-cons_self,
  Subset, Subset-cons, ◌≡◌, refl, arith, Bool-cases, inl, inr, get, not, ◌∙◌,
}
use tools_installer.Model.{Tool}
use tools_installer.Session.{
  InstallStatus, checksum_mismatch, Disposition, update, manual, RowResult, r_not_attempted,
  r_crashed, ConfigStep, ManagerOwnership, InstallOutcome, UpdateStatus, UpdateOutcome, PlanRow,
  RowOutcome, install_result,
}
use tools_installer.Session.Effect.{Except, returned, raised, next, Ends}
use tools_installer.Session.Engine.{
  ChecksumPolicy, fail, continue, MismatchChoice, retry, skip_tool, fallback, RunContext, State,
  loses, blockers, installs, on_world, begin, finish, with_force, after_mismatch, ask_mismatch,
  install_or_block, settle_install, settle_update, guarded, update_begun, run_steps, started,
  looked_up, dispatch, attempt, noted, is_empty, update_result, begin_from, mismatch_answer,
  update_by, after_step, other,
}

-- What the rows after this one see: the row's tool is not on the machine.
abbrev pub loses_row : Disposition → InstallStatus → Bool
loses_row manual status = true
loses_row d status = loses d status

abbrev pub lost : RowOutcome → Bool
lost o = elim o.install [ none ↦ false | some result ↦ loses_row o.row.disposition result.status ]

-- Every tool of the catalog stands under its id.
abbrev pub Keyed : List (String × Tool) → Type 0
Keyed catalog = (key : String) (tool : Tool) → get key catalog ≡ some tool → tool.id ≡ key

abbrev pub Kept : {W : Type 0} → State W → State W → Type 0
Kept s s' =
    (s'.halted ≡ s.halted)
    × (s.in_flight ≡ none → s'.in_flight ≡ none)
    × Subset s.unresolved s'.unresolved

-- The results of a row that the run did not get through: nothing is run after it.
abbrev pub stopped : RowResult → Bool
stopped r_crashed = true
stopped r_not_attempted = true
stopped _ = false

install_result-runs : (status : InstallStatus) → stopped (install_result status) ≡ false
install_result-runs status = ground arith

update_result-runs : (status : UpdateStatus) → stopped (update_result status) ≡ false
update_result-runs status = ground arith

-- The outcome is the row's own, and the tool that it loses is among the unresolved.
abbrev pub Owns : {W : Type 0} → PlanRow → RowOutcome → State W → Type 0
Owns row o s =
    (o.row ≡ row)
    × (stopped o.result ≡ false)
    × (lost o ≡ true → contains row.tool_id s.unresolved ≡ true)

module _ {W : Type 0} where
  pub Kept-refl : (s : State W) → Kept s s
  Kept-refl s = (refl, λ h. h, λ x h. h)

  pub Kept-trans : (s t u : State W) → Kept s t → Kept t u → Kept s u
  Kept-trans s t u h k = (k.0 ∙ h.0, λ f. k.1 (h.1 f), λ x i. k.2 x (h.2 x i))

  -- An operation that ends so, whatever it returns.
  ending :
      {A : Type 0} (s t : State W) (r : Except A) → Kept s t → Ends (Kept s) (λ _ _. Unit) (t, r)
  ending s t (returned a) k = (k, tt)
  ending s t (raised e) k = k

  -- One operation after another.
  pub after_kept :
      {A B : Type 0} (Q : A → State W → Type 0) (R : B → State W → Type 0) (s : State W)
      (m : State W × Except A) (f : A → State W → State W × Except B)
      → Ends (Kept s) Q m
      → ((a : A) (t : State W) → Kept s t → Q a t → Ends (Kept t) R (f a t))
      → Ends (Kept s) R (next m f)
  after_kept Q R s (t, returned a) f h k = widen (f a t) (k a t h.0 h.1)
    where
      widen : (n : State W × Except _) → Ends (Kept t) R n → Ends (Kept s) R n
      widen (u, returned b) e = (Kept-trans s t u h.0 e.0, e.1)
      widen (u, raised e) k' = Kept-trans s t u h.0 k'
  after_kept Q R s (t, raised e) f h k = h

  pub after :
      {A B : Type 0} (Q : A → State W → Type 0) (R : B → State W → Type 0) (s : State W)
      (m : State W × Except A) (f : A → State W → State W × Except B)
      → Ends (Kept s) Q m
      → ((a : A) (t : State W) → Q a t → Ends (Kept t) R (f a t))
      → Ends (Kept s) R (next m f)
  after Q R s m f h k = after_kept Q R s m f h (λ a t _. k a t)

module _ {W : Type 0} (ctx : RunContext W) (forced : List String) where
  on_world-Kept :
      {A : Type 0} (f : W → W × Except A) (s : State W)
      → Ends (Kept s) (λ _ _. Unit) (on_world ctx forced f s)
  unfolding on_world
  on_world-Kept f s = ending s (record s { world = (f s.world).0 }) ((f s.world).1) (Kept-refl s)

  with_force-Kept :
      (tool : Tool) (policy : ChecksumPolicy) (s : State W)
      → Ends (Kept s) (λ _ _. Unit) (with_force ctx forced tool policy s)
  unfolding with_force
  with_force-Kept tool policy s =
      on_world-Kept (ctx.install tool policy (contains tool.id forced)) s

  after_mismatch-Kept :
      (tool : Tool) (result : InstallOutcome) (choice : MismatchChoice) (s : State W)
      → Ends (Kept s) (λ _ _. Unit) (after_mismatch ctx forced tool result choice s)
  unfolding after_mismatch
  after_mismatch-Kept tool result retry s = with_force-Kept tool fail s
  after_mismatch-Kept tool result fallback s = with_force-Kept tool continue s
  after_mismatch-Kept tool result skip_tool s = (Kept-refl s, tt)

  mismatch_answer-Kept :
      (ask : Option (String → W → W × Except MismatchChoice)) (status : InstallStatus) (tool : Tool)
      (result : InstallOutcome) (s : State W)
      → Ends (Kept s) (λ _ _. Unit) (mismatch_answer ctx forced ask status tool result s)
  unfolding mismatch_answer
  mismatch_answer-Kept (some ask) checksum_mismatch tool result s =
      after (λ _ _. Unit) (λ _ _. Unit) s _ _ (on_world-Kept (ask tool.id) s)
        (λ choice t _. after_mismatch-Kept tool result choice t)
  mismatch_answer-Kept (some ask) _ tool result s = (Kept-refl s, tt)
  mismatch_answer-Kept none _ tool result s = (Kept-refl s, tt)

  ask_mismatch-Kept :
      (tool : Tool) (result : InstallOutcome) (s : State W)
      → Ends (Kept s) (λ _ _. Unit) (ask_mismatch ctx forced tool result s)
  unfolding ask_mismatch
  ask_mismatch-Kept tool result s = mismatch_answer-Kept ctx.on_mismatch result.status tool result s

  install_or_block-Kept :
      (tool : Tool) (blocked_by : List String) (s : State W)
      → Ends (Kept s) (λ _ _. Unit) (install_or_block ctx forced tool blocked_by s)
  unfolding install_or_block
  install_or_block-Kept tool [] s =
      after (λ _ _. Unit) (λ _ _. Unit) s _ _ (with_force-Kept tool fail s)
        (λ result t _. ask_mismatch-Kept tool result t)
  install_or_block-Kept tool (b ∷ bs) s = (Kept-refl s, tt)

  settle_install-Owns :
      (row : PlanRow) (tool : Tool) (result : InstallOutcome) (s : State W)
      → tool.id ≡ row.tool_id
      → loses_row row.disposition result.status ≡ loses row.disposition result.status
      → Ends (Kept s) (Owns row) (settle_install ctx forced row tool result s)
  unfolding settle_install
  settle_install-Owns row tool result s own same =
      elim (Bool-cases (loses row.disposition result.status)) [
        | inl holds ↦ rw holds (
          (refl, λ h. h, Subset-cons tool.id s.unresolved),
          (
            refl,
            install_result-runs result.status,
            λ _. rw own (contains-cons_self row.tool_id s.unresolved),
          ),
        )
        | inr fails ↦
            rw fails
              (Kept-refl s, (refl, install_result-runs result.status, λ h. ground (arith, same)))
      ]

  -- Whatever the update does, the latch is released.
  released-Owns :
      (row : PlanRow) (s : State W) (w : W) (r : Except UpdateOutcome)
      → Ends (Kept s) (Owns row) (
          next
            (guarded ctx forced (record s { in_flight = some row.tool_id; world = w }, r))
            (settle_update ctx forced row))
  unfolding guarded finish settle_update
  released-Owns row s w (returned u) =
      ((refl, λ h. refl, λ x h. h), (refl, update_result-runs u.status, λ h. ground arith))
  released-Owns row s w (raised e) = (refl, λ h. refl, λ x h. h)

  update_begun-Kept :
      (row : PlanRow) (f : W → W × Except UpdateOutcome) (s : State W) (latch : Option String)
      → Ends (Kept s) (Owns row) (
          update_begun ctx forced row
            (on_world ctx forced f)
            (begin_from ctx forced latch row.tool_id s))
  unfolding update_begun begin_from on_world
  update_begun-Kept row f s (some id) = (Kept-refl s, (refl, refl, λ h. ground arith))
  update_begun-Kept row f s none = released-Owns row s ((f s.world).0) ((f s.world).1)

  update_by-Owns :
      (run : Option (Tool → ManagerOwnership → W → W × Except UpdateOutcome))
      (ownership : Option ManagerOwnership) (row : PlanRow) (tool : Tool) (s : State W)
      → Ends (Kept s) (Owns row) (update_by ctx forced run ownership row tool s)
  unfolding update_by begin
  update_by-Owns none _ row tool s = (Kept-refl s, (refl, refl, λ h. ground arith))
  update_by-Owns (some run) none row tool s = (Kept-refl s, (refl, refl, λ h. ground arith))
  update_by-Owns (some run) (some ownership) row tool s =
      update_begun-Kept row (run tool ownership) s s.in_flight

  after_step-Owns :
      (row : PlanRow) (step : ConfigStep) (why : Option String)
      (rest : State W → State W × Except RowOutcome) (s : State W)
      → Ends (Kept s) (Owns row) (rest s)
      → Ends (Kept s) (Owns row) (after_step ctx forced row step why rest s)
  unfolding after_step
  after_step-Owns row step (some why) rest s h = (Kept-refl s, (refl, refl, λ l. ground arith))
  after_step-Owns row step none rest s h = h

  run_steps-Owns :
      (row : PlanRow) (tool : Tool) (steps : List ConfigStep) (warnings : List String) (s : State W)
      → Ends (Kept s) (Owns row) (run_steps ctx forced row tool steps warnings s)
  unfolding run_steps
  run_steps-Owns row tool [] warnings s = (Kept-refl s, (refl, refl, λ h. ground arith))
  run_steps-Owns row tool (step ∷ steps) warnings s =
      after (λ _ _. Unit) (Owns row) s _ _ (on_world-Kept (ctx.run_step step tool) s)
        (λ result t _.
          after_step-Owns row step result.failed _ t
            (run_steps-Owns row tool steps (noted result.warning warnings) t))

  pub started-Kept :
      (notify : Option (PlanRow → W → W × Except (Unit {0}))) (row : PlanRow) (s : State W)
      → Ends (Kept s) (λ _ _. Unit) (started ctx forced notify row s)
  unfolding started
  started-Kept none row s = (Kept-refl s, tt)
  started-Kept (some notify) row s = on_world-Kept (notify row) s

  pub looked_up-Kept :
      (found : Option Tool) (row : PlanRow) (s : State W)
      → Ends (Kept s) (λ tool _. found ≡ some tool) (looked_up ctx forced found row s)
  unfolding looked_up
  looked_up-Kept none row s = Kept-refl s
  looked_up-Kept (some tool) row s = (Kept-refl s, refl)

  other-Owns :
      (d : Disposition) (row : PlanRow) (tool : Tool) (s : State W)
      → Ends (Kept s) (Owns row) (other ctx forced d row tool s)
  unfolding other
  other-Owns update row tool s = update_by-Owns ctx.run_update row.ownership row tool s
  other-Owns _ row tool s = run_steps-Owns row tool row.steps [] s

  dispatch-Owns :
      (row : PlanRow) (tool : Tool) (s : State W)
      → tool.id ≡ row.tool_id
      → ((status : InstallStatus) → loses_row row.disposition status ≡ loses row.disposition status)
      → Ends (Kept s) (Owns row) (dispatch ctx forced row tool s)
  unfolding dispatch
  dispatch-Owns row tool s own same =
      elim (Bool-cases (not (is_empty (blockers tool s.unresolved)) || installs row.disposition)) [
        | inl holds ↦ rw holds (
            after (λ _ _. Unit) (Owns row) s _ _
              (install_or_block-Kept tool (blockers tool s.unresolved) s)
              (λ result t _. settle_install-Owns row tool result t own (same result.status)))
        | inr fails ↦ rw fails (other-Owns row.disposition row tool s)
      ]

  pub attempt-Owns :
      (row : PlanRow) (s : State W)
      → Keyed ctx.catalog
      → ((status : InstallStatus) → loses_row row.disposition status ≡ loses row.disposition status)
      → Ends (Kept s) (Owns row) (attempt ctx forced row s)
  unfolding attempt
  attempt-Owns row s keyed same =
      after (λ tool _. get row.tool_id ctx.catalog ≡ some tool) (Owns row) s _ _
        (after (λ _ _. Unit) (λ tool _. get row.tool_id ctx.catalog ≡ some tool) s _ _
          (started-Kept ctx.on_row_started row s)
          (λ _ t _. looked_up-Kept (get row.tool_id ctx.catalog) row t))
        (λ tool t found. dispatch-Owns row tool t (keyed row.tool_id tool found) same)
