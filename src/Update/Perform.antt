-- ===== src/Update/Perform.antt =====
-- installer/update.py, `perform_update`: the dispatch on the owner, the receipt and the hook. The
-- downloads, the executors and the receipts are functions of the host, which may raise.
use tools_installer.Base.{
  String, Bool, true, false, ◌||◌, Option, none, some, List, [], ◌∷◌, ◌++◌, ◌==◌, if◌then◌else◌,
  contains, concat, any,
}
use tools_installer.Model.{Kind, script, Method, Tool}
use tools_installer.Resolve.{kind_name}
use tools_installer.Install.{method_package}
use tools_installer.Session.{Exn, ManagerOwnership, UpdateOutcome, updated, update_failed}
use tools_installer.Session.Effect.{Except, returned, raised, next}
use tools_installer.Removal.{is_download, is_app}
use tools_installer.Update.{outcome, update_refusal}
use tools_installer.Update.Script.{UpdateHost, update_error, update_script}

unfoldable pub no_package : String → Exn
unfolding update_error concat
no_package owner =
    update_error (concat ("ownership.package is required for a " ∷ owner ∷ " update" ∷ []))

unfoldable pub package_or_error : String → Option String → Except String
unfolding no_package
package_or_error owner none = raised (no_package owner)
package_or_error owner (some name) = if name == "" then raised (no_package owner) else returned name

unfoldable pub required_package : ManagerOwnership → Except String
unfolding package_or_error
required_package o = package_or_error o.owner o.«package»

unfoldable pub in_greedy : Option String → List String → Bool
unfolding contains
in_greedy none casks = false
in_greedy (some name) casks = contains name casks

unfoldable pub cask_argv : String → Bool → String → List String
unfolding concat
cask_argv directory greedy name =
    "brew"
    ∷ "upgrade"
    ∷ "--cask"
    ∷ ((if greedy then "--greedy-auto-updates" ∷ [] else [])
        ++ concat ("--appdir=" ∷ directory ∷ []) ∷ name ∷ [])

-- `resolve_update_argv` of the three managers that it has a command for
unfoldable pub argv_for : String → String → Bool → String → List String
unfolding cask_argv
argv_for directory owner greedy name =
    if owner == "brew"
    then "brew" ∷ "upgrade" ∷ name ∷ []
    else if owner == "cask"
    then cask_argv directory greedy name
    else "uv" ∷ "tool" ∷ "upgrade" ∷ name ∷ []

-- The note on a copy that another manager owns than the catalog's
unfoldable pub other_manager : Tool → Option String → Option String → String
unfolding concat
other_manager tool (some declared) (some real) =
    if declared == real
    then ""
    else concat (
        real ∷ " owns this copy; the catalog installs " ∷ tool.id ∷ " via " ∷ declared
        ∷ ", so it was updated through " ∷ real ∷ [])
other_manager tool _ _ = ""

unfoldable pub same_kind : Option Kind → Kind → Bool
unfolding kind_name
same_kind none kind = false
same_kind (some k) kind = kind_name k == kind_name kind

-- `f"{detail}; {note}" if detail else note`
unfoldable pub noted : String → Option String → String
unfolding concat
noted detail none = detail
noted detail (some fault) =
    if detail == ""
    then concat ("install receipt not written: " ∷ fault ∷ [])
    else concat (detail ∷ "; install receipt not written: " ∷ fault ∷ [])

abbrev pub expected_errors : List String
expected_errors =
    "CommandError" ∷ "ExecutorError" ∷ "VersionError" ∷ "ChecksumMismatch" ∷ "UpdateError"
    ∷ "PnpmUnavailable" ∷ "OSError" ∷ []

unfoldable pub some_paths : Except (List String) → Except (Option (List String))
some_paths (returned paths) = returned (some paths)
some_paths (raised e) = raised e

module _ {W : Type 0} (host : UpdateHost W) where
  unfoldable pub run_manager : Tool → ManagerOwnership → Except String → W → W × Except String
  unfolding argv_for in_greedy other_manager
  run_manager tool o (raised e) w = (w, raised e)
  run_manager tool o (returned name) w =
      next
        (host.runner
          (argv_for host.applications_dir o.owner (in_greedy o.«package» host.greedy_casks) name) w)
        (λ _ v. (
          v,
          returned (
              if o.off_policy
              then other_manager tool (host.declared_label tool) (host.owner_label o)
              else ""),
        ))

  -- `executors.execute(method, runner)` of a pnpm tool
  unfoldable pub run_pnpm : Option Method → W → W × Except String
  unfolding update_error
  run_pnpm none w =
      (w, raised (update_error "pnpm update reached the engine without a node method"))
  run_pnpm (some m) w = next (host.execute m w) (λ _ v. (v, returned ""))

  unfoldable pub is_script_kind : Kind → Bool
  is_script_kind script = true
  is_script_kind _ = false

  -- `_update_installer_owned`, without the warnings of the clean-up
  unfoldable pub run_owned : Tool → Option Method → W → W × Except String
  unfolding update_error concat kind_name is_download is_app is_script_kind update_script
  run_owned tool none w =
      (w, raised (update_error "installer-owned update requires a resolved method"))
  run_owned tool (some m) w =
      if is_download m.kind
      then next (host.update_download m w) (λ _ v. (v, returned ""))
      else if is_app m.kind
      then next (host.update_app m w) (λ _ v. (v, returned ""))
      else if is_script_kind m.kind
      then next (update_script host tool m w) (λ _ v. (v, returned ""))
      else (
        w,
        raised (
            update_error (
              concat (
                "no installer-owned update path for method kind '" ∷ kind_name m.kind ∷ "'" ∷ []))),
      )

  unfoldable pub is_manager_owner : String → Bool
  unfolding contains
  is_manager_owner owner = contains owner ("brew" ∷ "cask" ∷ "uv" ∷ [])

  -- The branch of the owner, and the detail that it gives
  unfoldable pub run_owner : Tool → ManagerOwnership → W → W × Except String
  unfolding is_manager_owner run_manager run_pnpm run_owned required_package update_error concat
  run_owner tool o w =
      if is_manager_owner o.owner
      then run_manager tool o (required_package o) w
      else if o.owner == "pnpm"
      then run_pnpm o.method w
      else if o.owner == "installer"
      then run_owned tool o.method w
      else (w, raised (update_error (concat ("unsupported owner '" ∷ o.owner ∷ "'" ∷ []))))

  unfoldable pub written : String → W × Option String → W × String
  unfolding noted
  written detail (w, fault) = (w, noted detail fault)

  -- The receipt, rewritten for the installer's own tool or one of the same kind
  unfoldable pub with_receipt :
      Tool → ManagerOwnership → Option (List String) → Option Method → String → W → W × String
  unfolding written same_kind method_package
  with_receipt tool o paths none detail w = (w, detail)
  with_receipt tool o paths (some m) detail w =
      if o.owner == "installer" || same_kind (host.receipt_kind tool.id w) m.kind
      then written detail (host.record_receipt tool m (method_package m) paths w)
      else (w, detail)

  unfoldable pub ran_hook : W × Except (Option String) → W
  ran_hook (w, result) = w

  unfoldable pub run_hook : Tool → Option String → Option Method → W → W
  unfolding ran_hook
  run_hook tool (some hook) (some m) w =
      if hook == "" then w else ran_hook (host.postinstall tool m w)
  run_hook tool _ _ w = w

  -- What follows the branch of the owner
  unfoldable pub completed_update :
      Tool → ManagerOwnership → Option (List String) → String → W → W × Except UpdateOutcome
  unfolding with_receipt run_hook outcome
  completed_update tool o paths detail w =
      let noted = with_receipt tool o paths o.method detail w in
      (
        run_hook tool tool.postinstall o.method noted.0,
        returned (outcome tool updated o.owner noted.1),
      )

  -- The paths of the method that were there before anything is run
  unfoldable pub preexisting : Option Method → W → Except (Option (List String))
  unfolding some_paths
  preexisting none w = returned none
  preexisting (some m) w = some_paths (host.preexisting_paths m w)

  unfoldable pub performed_update :
      Tool → ManagerOwnership → Option UpdateOutcome → W → W × Except UpdateOutcome
  unfolding run_owner completed_update preexisting
  performed_update tool o (some refusal) w = (w, returned refusal)
  performed_update tool o none w =
      next (w, preexisting o.method w)
        (λ paths v. next (run_owner tool o v) (completed_update tool o paths))

  -- The classes that `perform_update` catches, with what derives from them
  unfoldable pub is_expected : Exn → Bool
  unfolding contains
  is_expected e = any (λ name. contains name expected_errors) (host.classes e)

  -- The `except` of `perform_update`
  unfoldable pub settled_update :
      Tool → ManagerOwnership → W × Except UpdateOutcome → W × Except UpdateOutcome
  unfolding outcome is_expected
  settled_update tool o (w, returned result) = (w, returned result)
  settled_update tool o (w, raised e) =
      if is_expected e
      then (w, returned (outcome tool update_failed o.owner e.message))
      else (w, raised e)

  unfoldable pub perform_update : Tool → ManagerOwnership → W → W × Except UpdateOutcome
  unfolding settled_update performed_update update_refusal
  perform_update tool o w =
      settled_update tool o (performed_update tool o (update_refusal host.pnpm_add tool o) w)
