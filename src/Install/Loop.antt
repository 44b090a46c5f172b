-- ===== src/Install/Loop.antt =====
-- `install_tool` of installer/engine.py: one round, the loop over the methods, and the function.
use tools_installer.Base.{
  String, Bool, false, Option, none, some, List, [], ◌∷◌, ◌&&◌, ◌||◌, not, ◌==◌, if◌then◌else◌, get,
  concat,
}
use tools_installer.Model.{Value, Method, Tool}
use tools_installer.Platform.{Platform}
use tools_installer.Resolve.{kind_name, resolve_methods}
use tools_installer.Session.{
  already_installed, no_method, failed, manual_required, Exn, InstallOutcome, install_outcome,
}
use tools_installer.Session.Effect.{Except, returned, raised}
use tools_installer.Session.Engine.{ChecksumPolicy}
use tools_installer.Install.{
  ManualHandoff, ManagerInventory, Receipt, Host, Tries, Step, returns, raises, goes_on, manual_by,
  method_package, is_manager, listed, proves_package,
}
use tools_installer.Install.Round.{
  Performed, is_true, smoked_artifact, perform, on_error, smoke_failed, receipt_written, completed,
  post_actions,
}

-- What is known before the method runs.
pub record Before : Type 0 where
  pub «package» : Option String
  pub preexisting : Option (List String)
  pub previous : Option Receipt
  pub already_there : Bool

module _ {W : Type 0} (host : Host W) (policy : ChecksumPolicy) (repair : Bool) where
  -- `manager_inventory`, read at most once
  unfoldable pub inventory_of :
      Option (Option ManagerInventory)
      → Option (W → W × Option ManagerInventory)
      → W
      → W × Option ManagerInventory
  inventory_of (some read) _ w = (w, read)
  inventory_of none none w = (w, none)
  inventory_of none (some read) w = read w

  -- `_package_already_there`
  unfoldable pub already_there : Method → Option String → Tries → W → W × Bool × Tries
  unfolding inventory_of listed
  already_there m none t w = (w, false, t)
  already_there m (some name) t w =
      let i = inventory_of t.inventory host.read_inventory w in
      if is_manager m.kind
      then (i.0, listed m.kind name i.1, record t { inventory = some i.1 })
      else (w, false, t)

  unfoldable pub recorded : Tool → Method → Before → Tries → Bool → W → W × Except (List String)
  unfolding proves_package receipt_written smoked_artifact
  recorded tool m b t smoked w =
      if not b.already_there || proves_package b.previous m b.«package»
      then receipt_written host policy repair t
          (host.record_receipt tool m b.«package» (smoked_artifact m || smoked) b.preexisting w)
      else (w, returned t.leftovers)

  unfoldable pub after_smoke :
      Tool → Method → Before → Tries → String → Performed → W × Except Bool → W × Step
  unfolding recorded completed smoke_failed
  after_smoke tool m b t path_before p (w, returned smoked) =
      completed host policy repair tool m p (recorded tool m b t smoked w)
  after_smoke tool m b t path_before p (w, raised e) =
      smoke_failed host policy repair (host.class_of e) tool m t path_before e w

  -- `if isinstance(raw_bin_dir, str) and raw_bin_dir`
  unfoldable pub with_bin_dir : Option Value → W → W
  with_bin_dir (some (Value.str dir)) w = if dir == "" then w else host.prepend_path dir w
  with_bin_dir _ w = w

  unfoldable pub handed : Tool → Method → List String → InstallOutcome
  unfolding kind_name
  handed tool m lines = record (install_outcome tool.id manual_required) {
    method_kind = some (kind_name m.kind);
    handoff = lines;
  }

  unfoldable pub after_perform :
      Tool → Method → Before → Tries → String → List String → Performed → W → W × Step
  unfolding after_smoke with_bin_dir get handed
  after_perform tool m b t path_before (l ∷ ls) p w = (w, returns (handed tool m (l ∷ ls)))
  after_perform tool m b t path_before [] p w =
      after_smoke tool m b t path_before p
        (host.manager_smoke m tool (with_bin_dir (get "bin_dir" m.params) w))

  unfoldable pub performed :
      Tool → Method → Before → Tries → String → W × Except Performed → W × Step
  unfolding after_perform on_error
  performed tool m b t path_before (w, raised e) =
      (w, on_error host policy repair (host.class_of e) tool m t e)
  performed tool m b t path_before (w, returned p) =
      after_perform tool m b t path_before p.handoff p w

  unfoldable pub run_method : Tool → Method → Tries → W → W × Step
  unfolding already_there method_package performed perform
  run_method tool m t w =
      let pre = host.preexisting m (host.method_started m.kind w) in
      let prev = host.read_receipt tool.id pre.0 in
      let there = already_there m (method_package m) t prev.0 in
      let before : Before = record {
        «package» = method_package m;
        preexisting = pre.1;
        previous = prev.1;
        already_there = there.1;
      } in
      performed tool m before there.2 (host.path there.0)
        (perform host policy repair m.kind m there.0)

  -- The outcome of a method that hands off: failed, if an earlier method failed.
  unfoldable pub manual_outcome : Tool → Method → List Exn → ManualHandoff → InstallOutcome
  unfolding kind_name
  manual_outcome tool m errors handoff =
      record (install_outcome tool.id (elim errors [ [] ↦ manual_required | _ ∷ _ ↦ failed ])) {
        errors = errors;
        method_kind = some (kind_name m.kind);
        handoff = handoff.command ∷ [];
        manual_command = some handoff.command;
      }

  unfoldable pub after_manual : Except (Option ManualHandoff) → Tool → Method → Tries → W → W × Step
  unfolding manual_outcome run_method
  after_manual (raised e) tool m t w = (w, raises e)
  after_manual (returned (some h)) tool m t w = (w, returns (manual_outcome tool m t.errors h))
  after_manual (returned none) tool m t w = run_method tool m t w

  -- A present tool whose installer refuses to run over it.
  unfoldable pub refused : Tool → Method → W → W × Step
  unfolding post_actions concat kind_name
  refused tool m w =
      let a = post_actions host policy repair tool tool.post_install w in
      (
        a.0,
        returns (record (install_outcome tool.id manual_required) {
          method_kind = some (kind_name m.kind);
          handoff =
              concat (
                tool.id
                ∷ ": its installer refuses to run over an existing install, so it was not re-run."
                ∷ [])
              ∷ [];
          postinstall_warning = a.2;
          post_install_handoff = a.1;
        }),
      )

  unfoldable pub round : Bool → Tool → Method → Tries → W → W × Step
  unfolding get refused after_manual manual_by
  round present tool m t w =
      if present && repair && is_true (get "refuses_existing" m.params)
      then refused tool m w
      else after_manual (manual_by host.writable m.kind m) tool m t w

  -- What follows a round; `rest` is the rest of the loop.
  unfoldable pub continued :
      (Tries → W → W × Except InstallOutcome) → W × Step → W × Except InstallOutcome
  continued rest (w, returns o) = (w, returned o)
  continued rest (w, raises e) = (w, raised e)
  continued rest (w, goes_on t) = rest t w

  unfoldable pub ladder : Bool → Tool → List Method → Tries → W → W × Except InstallOutcome
  unfolding round continued
  ladder present tool [] t w =
      (w, returned (record (install_outcome tool.id failed) { errors = t.errors }))
  ladder present tool (m ∷ ms) t w = continued (ladder present tool ms) (round present tool m t w)

  unfoldable pub walk : Bool → Tool → List Method → W → W × Except InstallOutcome
  unfolding ladder
  walk present tool [] w = (w, returned (install_outcome tool.id no_method))
  walk present tool (m ∷ ms) w =
      ladder present tool (m ∷ ms) (record { errors = []; leftovers = []; inventory = none }) w

  unfoldable pub install_tool : Tool → Platform → W → W × Except InstallOutcome
  unfolding walk resolve_methods
  install_tool tool platform w =
      let p = host.present tool w in
      if p.1 && not repair
      then (p.0, returned (install_outcome tool.id already_installed))
      else walk p.1 tool (resolve_methods tool platform) p.0
