-- ===== src/Resolve/Tests.antt =====
-- Runs of installer/resolve.py on small catalogs, and the theorems at these inputs.
use tools_installer.Base.{
  ℕ, String, contains, true, false, not, none, some, is_some, List, [], ◌∷◌, ◌≡◌, refl, map, any,
  All, filter, IsSorted, of_key,
}
use tools_installer.Model.{
  Kind, script, apt, dnf, rpm_ostree, brew, cask, tarball, Value, Method, Tool, Priority, Audience,
  Tier,
}
use tools_installer.Platform.{Platform}
use tools_installer.Resolve.{applies, resolve_methods, rejection, with_brew, non_empty}
use tools_installer.Resolve.Reason.{UnavailableReason, unavailable_reason}
use tools_installer.Resolve.Ladder.{ladder, Suits, resolve_methods-ladder}
use tools_installer.Resolve.Parity.{Explains, rejection-Explains, unavailable_reason-exact}

abbrev method : Kind → List String → Method
method kind oses = record { kind = kind; params = []; os = oses; arch = [] }

abbrev tool_with : String → List Method → Tool
tool_with id methods = record {
  id = id;
  name = id;
  category = "dev";
  cmd = id;
  methods = methods;
  priority = Priority.p1;
  audience = Audience.both;
  tier = Tier.user;
  desc = "";
  requires = [];
  recommends = [];
  postinstall = none;
  post_install = [];
  default_enabled_sensitive_actions = [];
  owner_probes = [];
  config_paths = [];
  retired = false;
}

abbrev debian : Platform
debian = record {
  os = "debian";
  arch = "amd64";
  immutable = false;
  has_brew = false;
  os_version = none;
}

abbrev silverblue : Platform
silverblue = record {
  os = "fedora";
  arch = "amd64";
  immutable = true;
  has_brew = false;
  os_version = none;
}

abbrev sonoma : Platform
sonoma = record {
  os = "macos";
  arch = "arm64";
  immutable = false;
  has_brew = false;
  os_version = some "14.2";
}

abbrev ripgrep : Tool
ripgrep = tool_with "ripgrep" (
    method brew []
    ∷ method apt []
    ∷ method tarball ("macos" ∷ [])
    ∷ method script []
    ∷ method dnf []
    ∷ [])

abbrev floored : Tool
floored = tool_with "iterm" (
    record { kind = cask; params = ("min_os_version", Value.str "15") ∷ []; os = []; arch = [] }
    ∷ [])

abbrev layered : Tool
layered = tool_with "podman" (method dnf [] ∷ method rpm_ostree [] ∷ [])

abbrev kinds : List Method → List Kind
kinds ms = map (λ m. m.kind) ms

on_debian : kinds (resolve_methods ripgrep debian) ≡ script ∷ apt ∷ []
unfolding resolve_methods contains
on_debian = refl

on_macos : kinds (resolve_methods ripgrep (with_brew sonoma)) ≡ script ∷ tarball ∷ brew ∷ []
unfolding resolve_methods with_brew contains
on_macos = refl

too_old :
    unavailable_reason floored sonoma
    ≡ some (record { short = "needs macOS 15+"; detail = "iterm needs macOS 15 or newer." })
unfolding unavailable_reason with_brew
too_old = refl

layered_host :
    unavailable_reason layered silverblue
    ≡ some (record {
      short = "immutable host";
      detail =
          "podman only declares native package-manager methods (dnf/rpm_ostree), which this installer skips on an immutable (ostree) host.";
    })
unfolding unavailable_reason with_brew
layered_host = refl

elsewhere :
    unavailable_reason layered debian
    ≡ some (record {
      short = "no method applies here: debian not supported; immutable host";
      detail = "no method applies here: debian not supported; immutable host";
    })
unfolding unavailable_reason with_brew
elsewhere = refl

resolve_methods-ladder_example :
    All (Suits debian) (resolve_methods ripgrep debian)
    × IsSorted ladder (resolve_methods ripgrep debian)
    × ((k : ℕ)
        → of_key ladder k (resolve_methods ripgrep debian)
          ≡ of_key ladder k (filter (λ m. applies m debian) ripgrep.methods))
resolve_methods-ladder_example = resolve_methods-ladder ripgrep debian

rejection-Explains_example :
    Explains (rejection (method dnf []) (with_brew silverblue)) (method dnf []) silverblue
unfolding applies with_brew
rejection-Explains_example = rejection-Explains (method dnf []) silverblue refl

unavailable_reason-exact_example :
    (is_some (unavailable_reason layered silverblue)
      ≡ not (any (λ m. applies m (with_brew silverblue)) layered.methods))
    × (non_empty (resolve_methods layered silverblue) ≡ true
        → unavailable_reason layered silverblue ≡ none)
    × ((reason : UnavailableReason)
        → unavailable_reason layered silverblue ≡ some reason
        → All (λ m. Explains (rejection m (with_brew silverblue)) m silverblue) layered.methods)
unavailable_reason-exact_example = unavailable_reason-exact layered silverblue
