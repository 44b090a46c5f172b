-- ===== src/Resolve.antt =====
-- installer/resolve.py: which install methods apply to a platform, in the order of the ladder, and
-- why none does.
pub mod Reason
mod Ladder
mod Parity
mod Tests
use tools_installer.Base.{
  ℕ, String, Bool, true, false, not, ◌&&◌, ◌||◌, Option, none, some, List, [], ◌∷◌, ◌==◌,
  if◌then◌else◌, filter, contains, get, codes, decimal, sorted,
}
use tools_installer.Model.{
  Kind, script, node, uv_tool, sdkman, host_setup, github_release, tarball, app, dnf, apt, pacman,
  rpm_ostree, brew, cask, Value, Method, Tool,
}
use tools_installer.Platform.{Platform}
use tools_installer.Versions.Compare.{meets_minimum}

-- `_RANK`
unfoldable pub rank : Kind → ℕ
rank script = 10
rank host_setup = 15
rank github_release = 20
rank node = 20
rank uv_tool = 20
rank sdkman = 20
rank tarball = 20
rank app = 20
rank dnf = 30
rank apt = 30
rank pacman = 30
rank rpm_ostree = 35
rank brew = 40
rank cask = 40

-- `_NATIVE_OS.get(kind)`
unfoldable pub native_os : Kind → Option String
native_os dnf = some "fedora"
native_os apt = some "debian"
native_os pacman = some "arch"
native_os _ = none

-- The method's kind as the source spells it.
unfoldable pub kind_name : Kind → String
kind_name script = "script"
kind_name node = "node"
kind_name uv_tool = "uv-tool"
kind_name sdkman = "sdkman"
kind_name host_setup = "host_setup"
kind_name github_release = "github_release"
kind_name tarball = "tarball"
kind_name app = "app"
kind_name dnf = "dnf"
kind_name apt = "apt"
kind_name pacman = "pacman"
kind_name rpm_ostree = "rpm_ostree"
kind_name brew = "brew"
kind_name cask = "cask"

-- `str(value)`. Of a list or a table only the opening bracket is kept: no version starts so.
unfoldable pub str_of : Value → String
unfolding decimal
str_of (Value.str s) = s
str_of (Value.int n) = decimal n
str_of (Value.bool true) = "True"
str_of (Value.bool false) = "False"
str_of (Value.array _) = "["
str_of (Value.table _) = "{"

-- `method.os and platform.os not in method.os`, and so for `arch`
unfoldable pub excludes : List String → String → Bool
excludes [] x = false
excludes (y ∷ ys) x = not (contains x (y ∷ ys))

-- `min_version is not None and not (…)`
unfoldable pub below_floor : Method → Platform → Bool
unfolding get str_of meets_minimum
below_floor m p = elim (get "min_os_version" m.params) [
  | none ↦ false
  | some floor ↦ elim p.os_version [
    | none ↦ true
    | some version ↦ not (meets_minimum (codes version) (codes (str_of floor)))
  ]
]

-- From `kind = method.kind` on.
unfoldable pub kind_applies : Kind → Platform → Bool
kind_applies brew p = p.has_brew
kind_applies cask p = p.os == "macos" && p.has_brew
kind_applies rpm_ostree p = false
kind_applies dnf p = if p.immutable then false else "fedora" == p.os
kind_applies apt p = if p.immutable then false else "debian" == p.os
kind_applies pacman p = if p.immutable then false else "arch" == p.os
kind_applies _ p = true

unfoldable pub applies : Method → Platform → Bool
unfolding excludes below_floor kind_applies
applies m p =
    if excludes m.os p.os
    then false
    else if excludes m.arch p.arch
    then false
    else if below_floor m p
    then false
    else kind_applies m.kind p

unfoldable pub resolve_methods : Tool → Platform → List Method
unfolding applies rank sorted
resolve_methods tool p = sorted (λ m. rank m.kind) (filter (λ m. applies m p) tool.methods)

pub data Category : Type 0 where
  os arch min_os_version immutable : Category

-- `kind in _NATIVE_OS`
unfoldable pub is_native : Kind → Bool
is_native dnf = true
is_native apt = true
is_native pacman = true
is_native _ = false

abbrev pub is_rpm_ostree : Kind → Bool
is_rpm_ostree rpm_ostree = true
is_rpm_ostree _ = false

unfoldable pub rejection : Method → Platform → Category
unfolding excludes below_floor is_native
rejection m p =
    if excludes m.os p.os
    then os
    else if excludes m.arch p.arch
    then arch
    else if below_floor m p
    then min_os_version
    else if is_rpm_ostree m.kind || (is_native m.kind && p.immutable)
    then immutable
    else os

unfoldable pub with_brew : Platform → Platform
with_brew p = record p { has_brew = true }

unfoldable pub non_empty : List Method → Bool
non_empty [] = false
non_empty (_ ∷ _) = true

unfoldable pub platform_could_support : Tool → Platform → Bool
unfolding resolve_methods with_brew non_empty
platform_could_support tool p = non_empty (resolve_methods tool (with_brew p))
