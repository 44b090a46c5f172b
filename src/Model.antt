-- ===== src/Model.antt =====
-- installer/model.py and installer/enums.py: the catalog's tools and their install methods.
use tools_installer.Base.{ℕ, String, Bool, Option, List, map}

pub data Priority : Type 0 where
  p0 p1 p2 p3 : Priority

pub data Audience : Type 0 where
  ai both human : Audience

pub data Tier : Type 0 where
  system user ai : Tier

-- METHOD_KINDS. The loader refuses any other kind, so a method never has one.
pub data Kind : Type 0 where
  script node uv_tool sdkman host_setup github_release tarball app : Kind
  dnf apt pacman rpm_ostree brew cask : Kind

-- A value that tomllib hands back.
mutual
  pub data Value : Type 0 where
    str : String → Value
    int : ℕ → Value
    bool : Bool → Value
    array : Values → Value
    table : Entries → Value

  pub data Values : Type 0 where
    nil : Values
    cons : Value → Values → Values

  pub data Entries : Type 0 where
    end : Entries
    entry : String → Value → Entries → Entries

pub record Method : Type 0 where
  pub kind : Kind
  pub params : List (String × Value)
  pub os : List String
  pub arch : List String

pub record Tool : Type 0 where
  pub id : String
  pub name : String
  pub category : String
  pub cmd : String
  pub methods : List Method
  pub priority : Priority
  pub audience : Audience
  pub tier : Tier
  pub desc : String
  pub requires : List String
  pub recommends : List String
  pub postinstall : Option String
  pub post_install : List String
  pub default_enabled_sensitive_actions : List String
  pub owner_probes : List String
  pub config_paths : List String
  pub retired : Bool

abbrev pub ids : List Tool → List String
ids tools = map (λ t. t.id) tools
