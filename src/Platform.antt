-- ===== src/Platform.antt =====
-- installer/platform.py: the machine that the tools are installed on.
use tools_installer.Base.{String, Bool, ◌||◌, Option, none, some, ◌==◌, if◌then◌else◌}

pub record Platform : Type 0 where
  pub os : String
  pub arch : String
  pub immutable : Bool
  pub has_brew : Bool
  pub os_version : Option String

-- `_ARCH_MAP.get(machine, machine)`
unfoldable pub normalize_arch : String → String
normalize_arch machine =
    if machine == "x86_64" || machine == "amd64"
    then "amd64"
    else if machine == "aarch64" || machine == "arm64"
    then "arm64"
    else machine

-- Nothing stands for the RuntimeError of an unsupported system.
unfoldable pub detect_os : String → (String → Bool) → Option String
detect_os system available =
    if system == "Darwin"
    then some "macos"
    else if available "dnf" || available "rpm-ostree"
    then some "fedora"
    else if available "apt-get"
    then some "debian"
    else if available "pacman"
    then some "arch"
    else none
