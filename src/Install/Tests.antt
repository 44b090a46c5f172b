-- ===== src/Install/Tests.antt =====
-- Runs of `install_tool` on a host whose world is the list of the kinds that were run, and the
-- theorems at these inputs.
use tools_installer.Base.{
  String, true, false, Option, none, some, List, [], ◌∷◌, ◌≡◌, ◌≢◌, refl, length, is_some, contains,
  get, sorted, ◌==◌, ◌&&◌, not, inl, inr, if◌then◌else◌,
}
use tools_installer.Model.{
  Kind, script, apt, brew, tarball, host_setup, Value, Method, Tool, Priority, Audience, Tier,
}
use tools_installer.Platform.{Platform}
use tools_installer.Resolve.{kind_name, resolve_methods}
use tools_installer.Session.{
  InstallStatus, installed, failed, checksum_mismatch, manual_required, Exn, InstallOutcome,
  install_outcome,
}
use tools_installer.Session.Effect.{Except, returned, raised}
use tools_installer.Session.Engine.{ChecksumPolicy, fail, continue}
use tools_installer.Install.{
  ErrorClass, mismatch_error, executor_error, other_caught, Host, Tries, manual_by,
}
use tools_installer.Install.Loop.{ladder, round, install_tool}
use tools_installer.Install.Ladder.{IsClean, IsClassed}
use tools_installer.Install.Round.{is_true, perform}
use tools_installer.Install.Mismatch.{Comes, attempt, no_tries, mismatch_outcome}
use tools_installer.Install.Outcome.{install_tool-failed, install_tool-mismatch}
use tools_installer.Install.Native.{HandsOff, ladder-HandsOff}

abbrev method : Kind → List (String × Value) → Method
method kind params = record { kind = kind; params = params; os = []; arch = [] }

abbrev tool : String → List Method → Tool
tool id methods = record {
  id = id;
  name = id;
  category = "dev";
  cmd = id;
  methods = methods;
  priority = Priority.p1;
  audience = Audience.both;
  tier = Tier.user;
  desc = "";
  requires = [];
  recommends = [];
  postinstall = none;
  post_install = [];
  default_enabled_sensitive_actions = [];
  owner_probes = [];
  config_paths = [];
  retired = false;
}

abbrev debian : Platform
debian = record {
  os = "debian";
  arch = "amd64";
  immutable = false;
  has_brew = true;
  os_version = none;
}

abbrev error : String → Exn
error type_name = record { type_name = type_name; message = "no" }

abbrev class_of : Exn → ErrorClass
class_of e =
    if e.type_name == "ChecksumMismatch"
    then mismatch_error
    else if e.type_name == "ExecutorError"
    then executor_error
    else other_caught

-- Scripts fail, tarballs have the wrong checksum, all else works.
abbrev host : Host (List String)
host = record {
  class_of = class_of;
  present = λ t w. (w, t.id == "there");
  writable = λ prefix. true;
  read_inventory = none;
  method_started = λ kind w. kind_name kind ∷ w;
  preexisting = λ m w. (w, some []);
  read_receipt = λ id w. (w, none);
  install_download = λ m w. (w, raised (error "ChecksumMismatch"));
  install_app = λ m w. (w, returned none);
  host_setup_handoff = λ m. returned ("run this" ∷ []);
  execute = λ m w.
      if kind_name m.kind == "script" then (w, raised (error "CommandError")) else (w, returned tt);
  prepend_path = λ dir w. w;
  path = λ w. "";
  set_path = λ path w. w;
  manager_smoke = λ m t w. (w, returned true);
  removal_command = λ m cmd. none;
  record_receipt = λ t m name smoke before w. (w, returned tt);
  register_hooks = λ t m w. (w, returned ([], none));
  run_post_install = λ t w. (w, returned []);
}

abbrev only_script : Tool
only_script = tool "a" (method script [] ∷ [])

abbrev with_tarball : Tool
with_tarball = tool "b" (method script [] ∷ method tarball [] ∷ method brew [] ∷ [])

abbrev with_apt : Tool
with_apt =
    tool "c"
      (method script [] ∷ method apt (("package", Value.str "ripgrep") ∷ []) ∷ method brew [] ∷ [])

program : Unit {0}
unfolding install_tool contains get sorted
program = tt

abbrev run : ChecksumPolicy → Tool → List String × Except InstallOutcome
run policy t = install_tool host policy false t debian []

abbrev script_failed : InstallOutcome
script_failed = record (install_outcome "a" failed) { errors = error "CommandError" ∷ [] }

script_fails : (run fail only_script).1 ≡ returned script_failed
unfolding program
script_fails = refl

abbrev mismatched : InstallOutcome
mismatched = record (install_outcome "b" checksum_mismatch) {
  method_kind = some "tarball";
  errors = error "ChecksumMismatch" ∷ [];
}

mismatch_ends : run fail with_tarball ≡ ("tarball" ∷ "script" ∷ [], returned mismatched)
unfolding program
mismatch_ends = refl

status_of : Except InstallOutcome → Option InstallStatus
status_of (returned o) = some o.status
status_of (raised e) = none

brew_rescues : status_of (run continue with_tarball).1 ≡ some installed
unfolding program status_of
brew_rescues = refl

apt_is_not_run : (run fail with_apt).0 ≡ "script" ∷ []
unfolding program
apt_is_not_run = refl

host-IsClassed : IsClassed host
host-IsClassed message = refl

install_tool-failed_example :
    (script_failed.errors ≢ [])
    × (is_some script_failed.manual_command ≡ false
        → length script_failed.errors ≡ length (resolve_methods only_script debian))
install_tool-failed_example =
    install_tool-failed host fail false only_script debian [] script_failed host-IsClassed
      script_fails refl

mismatched_outcome : (run fail with_tarball).1 ≡ returned mismatched
unfolding program
mismatched_outcome = refl

install_tool-mismatch_example :
    (mismatched.status ≡ failed → fail ≡ fail → IsClean host mismatched.errors)
    × (mismatched.status ≡ checksum_mismatch
        → (fail ≡ fail)
          × ((e : Exn) × (mismatched.errors ≡ e ∷ []) × (host.class_of e ≡ mismatch_error)))
    × ((m : Method) (u : Tries) (v x : List String) (e : Exn)
        → fail ≡ fail
        → ((host.present with_tarball []).1 && not false) ≡ false
        → Comes host fail false
            (host.present with_tarball []).1
            with_tarball
            (resolve_methods with_tarball debian)
            no_tries
            (host.present with_tarball []).0
            m
            u
            v
        → ((host.present with_tarball []).1 && false && is_true (get "refuses_existing" m.params))
          ≡ false
        → manual_by host.writable m.kind m ≡ returned none
        → attempt host fail false with_tarball m u v ≡ (x, raised e)
        → host.class_of e ≡ mismatch_error
        → install_tool host fail false with_tarball debian []
          ≡ (x, returned (mismatch_outcome with_tarball m e)))
install_tool-mismatch_example =
    install_tool-mismatch host fail false with_tarball debian [] mismatched host-IsClassed
      mismatched_outcome

-- The tarball is reached after the script, and its mismatch ends the call before brew.
tarball-Comes :
    Comes host fail false false with_tarball
      (resolve_methods with_tarball debian)
      no_tries
      []
      (method tarball [])
      (record no_tries { errors = error "CommandError" ∷ [] })
      ("script" ∷ [])
unfolding program round
tarball-Comes = inr (
  record no_tries { errors = error "CommandError" ∷ [] },
  "script" ∷ [],
  refl,
  inl (refl, refl, refl),
)

tarball_attempt :
    attempt host fail false with_tarball
      (method tarball [])
      (record no_tries { errors = error "CommandError" ∷ [] })
      ("script" ∷ [])
    ≡ ("tarball" ∷ "script" ∷ [], raised (error "ChecksumMismatch"))
unfolding program perform
tarball_attempt = refl

abbrev apt_first : Method
apt_first = method apt (("package", Value.str "ripgrep") ∷ [])

abbrev start : Tries
start = record { errors = []; leftovers = []; inventory = none }

ladder-HandsOff_example :
    ((ladder host fail false false with_apt (apt_first ∷ method brew [] ∷ []) start []).0 ≡ [])
    × HandsOff (ladder host fail false false with_apt (apt_first ∷ method brew [] ∷ []) start []).1
unfolding get
ladder-HandsOff_example =
    ladder-HandsOff host fail false false with_apt apt_first (method brew [] ∷ []) start [] refl
      refl

abbrev reviewed_after : Tool
reviewed_after = tool "d" (method script [] ∷ method host_setup [] ∷ [])

-- A reviewed setup after a failed script: the outcome is manual and names no error.
failure_masked :
    (run fail reviewed_after).1
    ≡ returned (record (install_outcome "d" manual_required) {
      method_kind = some "host_setup";
      handoff = "run this" ∷ [];
    })
unfolding program
failure_masked = refl
