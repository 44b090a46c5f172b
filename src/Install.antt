-- ===== src/Install.antt =====
-- installer/engine.py: `install_tool`, which walks the methods of a tool until one of them works.
-- What it calls of the other modules is the record Host, on a world of any type.
pub mod Round
pub mod Loop
mod Ladder
mod Outcome
mod Mismatch
mod Native
mod Tests
use Prim.Native.Char.{code}
use tools_installer.Base.{
  String, Bool, true, false, Option, none, some, List, [], ◌∷◌, ◌++◌, ◌&&◌, ◌||◌, not, ◌==◌,
  if◌then◌else◌, contains, get, concat, eqb,
}
use tools_installer.Model.{
  Kind, script, node, uv_tool, sdkman, host_setup, github_release, tarball, app, dnf, apt, pacman,
  rpm_ostree, brew, cask, Value, Method, Tool,
}
use tools_installer.Platform.{Platform}
use tools_installer.Resolve.{kind_name, resolve_methods}
use tools_installer.Session.{
  InstallStatus, already_installed, installed, no_method, failed, checksum_mismatch,
  manual_required, Exn, InstallOutcome, install_outcome,
}
use tools_installer.Session.Effect.{Except, returned, raised}
use tools_installer.Session.Engine.{ChecksumPolicy, fail, continue}

-- What an exception is an instance of, as far as `install_tool` asks.
pub data ErrorClass : Type 0 where
  mismatch_error executor_error os_error other_caught uncaught : ErrorClass

-- installer/executors.py
pub record ManualHandoff : Type 0 where
  pub reason : String
  pub command : String

-- installer/ownership.py, the listings of the managers
pub record ManagerInventory : Type 0 where
  pub brew_formulae : Option (List String)
  pub brew_casks : Option (List String)
  pub pnpm_globals : Option (List String)
  pub uv_tools : Option (List String)

-- installer/receipts.py, the fields that the ladder reads
pub record Receipt : Type 0 where
  pub kind : String
  pub «package» : Option String

pub record Host (W : Type 0) : Type 0 where
  pub class_of : Exn → ErrorClass
  pub present : Tool → W → W × Bool
  pub writable : String → Bool
  pub read_inventory : Option (W → W × Option ManagerInventory)
  pub method_started : Kind → W → W
  pub preexisting : Method → W → W × Option (List String)
  pub read_receipt : String → W → W × Option Receipt
  pub install_download : Method → W → W × Except (Option String)
  pub install_app : Method → W → W × Except (Option String)
  pub host_setup_handoff : Method → Except (List String)
  pub execute : Method → W → W × Except (Unit {0})
  pub prepend_path : String → W → W
  pub path : W → String
  pub set_path : String → W → W
  pub manager_smoke : Method → Tool → W → W × Except Bool
  pub removal_command : Method → String → Option String
  pub record_receipt :
      Tool → Method → Option String → Bool → Option (List String) → W → W × Except (Unit {0})
  pub register_hooks : Tool → Method → W → W × Except (List String × Option String)
  pub run_post_install : Tool → W → W × Except (List String)

-- The lists that the loop appends to, and the inventory once it was read.
pub record Tries : Type 0 where
  pub errors : List Exn
  pub leftovers : List String
  pub inventory : Option (Option ManagerInventory)

-- How one round of the loop ends.
pub data Step : Type 0 where
  returns : InstallOutcome → Step
  raises : Exn → Step
  goes_on : Tries → Step

text_of : Option Value → Option String
text_of (some (Value.str s)) = if s == "" then none else some s
text_of _ = none

-- `require_str`
pub require_str : Method → String → Except String
unfolding get concat kind_name text_of
require_str m key = elim (text_of (get key m.params)) [
  | some s ↦ returned s
  | none ↦ raised (record {
    type_name = "ExecutorError";
    message =
        concat (
          "method '"
          ∷ kind_name m.kind
          ∷ "' is missing or empty required param '"
          ∷ key
          ∷ "'"
          ∷ []);
  })
]

unfoldable pub manual_handoff : String → String → Except String → Except (Option ManualHandoff)
unfolding concat
manual_handoff why command (raised e) = raised e
manual_handoff why command (returned package_name) =
    let line = concat (command ∷ package_name ∷ []) in
    returned
      (some (record { reason = concat (why ∷ "; you run: `" ∷ line ∷ "`" ∷ []); command = line }))

script_handoff : String → String → Except String → Except (Option ManualHandoff)
unfolding concat
script_handoff prefix shell (raised e) = raised e
script_handoff prefix shell (returned url) =
    let line = concat (shell ∷ " -c \"$(curl -fsSL " ∷ url ∷ ")\"" ∷ []) in
    returned (
      some (record {
        reason = concat (prefix ∷ " is not writable by you; you run: `" ∷ line ∷ "`" ∷ []);
        command = line;
      }))

-- `isinstance(value, str)`, the empty text included
any_text : Option Value → Option String
any_text (some (Value.str s)) = some s
any_text _ = none

pub script_manual : (String → Bool) → Method → Option String → Except (Option ManualHandoff)
unfolding require_str get text_of script_handoff
script_manual writable m none = returned none
script_manual writable m (some prefix) =
    let shell : String = elim (text_of (get "shell" m.params)) [ none ↦ "sh" | some s ↦ s ] in
    if writable prefix then returned none else script_handoff prefix shell (require_str m "url")

-- `executors.needs_manual`
unfoldable pub manual_by : (String → Bool) → Kind → Method → Except (Option ManualHandoff)
unfolding manual_handoff require_str get any_text script_manual
manual_by writable script m = script_manual writable m (any_text (get "writable_prefix" m.params))
manual_by writable dnf m =
    manual_handoff "needs sudo (never run here)" "sudo dnf install " (require_str m "package")
manual_by writable apt m =
    manual_handoff "needs sudo (never run here)" "sudo apt-get install " (require_str m "package")
manual_by writable pacman m =
    manual_handoff "needs sudo (never run here)" "sudo pacman -S --needed "
      (require_str m "package")
manual_by writable rpm_ostree m =
    manual_handoff "needs admin rights and a reboot (never run here)" "rpm-ostree install "
      (require_str m "package")
manual_by writable _ m = returned none

-- `KIND_PACKAGE_PARAM.get`
package_param : Kind → Option String
package_param brew = some "formula"
package_param cask = some "cask"
package_param node = some "npm_pkg"
package_param uv_tool = some "pypi_pkg"
package_param sdkman = some "candidate"
package_param dnf = some "package"
package_param apt = some "package"
package_param pacman = some "package"
package_param rpm_ostree = some "package"
package_param _ = none

unfoldable pub method_package : Method → Option String
unfolding package_param get text_of
method_package m = elim (package_param m.kind) [
  | none ↦ none
  | some key ↦ text_of (get key m.params)
]

-- `_listing`, of the kinds in MANAGER_UNINSTALL_ARGV
listing : Kind → ManagerInventory → Option (List String)
listing brew i = i.brew_formulae
listing cask i = i.brew_casks
listing uv_tool i = i.uv_tools
listing _ i = i.pnpm_globals

-- `kind in MANAGER_UNINSTALL_ARGV`
abbrev pub is_manager : Kind → Bool
is_manager brew = true
is_manager cask = true
is_manager uv_tool = true
is_manager node = true
is_manager _ = false

after_slash : String → Option String
after_slash String.[] = none
after_slash (String.◌∷◌ c s) = elim (after_slash s) [
  | some rest ↦ some rest
  | none ↦ if eqb (code c) b'/' then some s else none
]

-- `package.rsplit("/", 1)[-1]`
last_segment : String → String
unfolding after_slash
last_segment s = elim (after_slash s) [ none ↦ s | some rest ↦ rest ]

listed_name : Kind → String → String
unfolding last_segment
listed_name brew name = last_segment name
listed_name cask name = last_segment name
listed_name _ name = name

-- Only a listing that lacks the name proves the package absent.
pub listed : Kind → String → Option ManagerInventory → Bool
unfolding listing contains listed_name
listed kind name none = true
listed kind name (some i) = elim (listing kind i) [
  | none ↦ true
  | some names ↦ contains (listed_name kind name) names
]

-- `_proves_package`
pub proves_package : Option Receipt → Method → Option String → Bool
unfolding kind_name
proves_package none m package_name = false
proves_package (some r) m package_name = r.kind == kind_name m.kind && same r.«package» package_name
  where
    same : Option String → Option String → Bool
    same none none = true
    same (some a) (some b) = a == b
    same _ _ = false
