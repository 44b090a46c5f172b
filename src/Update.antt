-- ===== src/Update.antt =====
-- installer/update.py: the refusal of an update, and `perform_update`. The world is changed by the
-- functions of the host alone.
pub mod Script
pub mod Perform
mod Refusal
mod Tame
mod Ends
mod Tests
use tools_installer.Base.{
  String, Bool, true, false, not, ◌&&◌, ◌||◌, Option, none, some, List, [], ◌∷◌, ◌++◌, ◌==◌,
  if◌then◌else◌, contains, get, concat, map, is_some,
}
use tools_installer.Model.{Kind, sdkman, host_setup, app, tarball, Value, Method, Tool}
use tools_installer.Resolve.{str_of}
use tools_installer.Session.{
  ManagerOwnership, UpdateOutcome, UpdateStatus, updated, update_failed, unknown_owner, unsupported,
}
use tools_installer.Session.Plan.{unmanageable, starts_with}

-- `value or default`
unfoldable pub or_else : Option String → String → String
or_else none default = default
or_else (some s) default = if s == "" then default else s

-- An f-string of a text that may be None
unfoldable pub shown : Option String → String
shown none = "None"
shown (some s) = s

unfoldable pub is_sdkman : Option Method → Bool
is_sdkman none = false
is_sdkman (some m) = elim m.kind [ sdkman ↦ true | _ ↦ false ]

-- `part in text`
unfoldable pub has_part : String → String → Bool
unfolding starts_with
has_part part String.[] = part == ""
has_part part (String.◌∷◌ c s) = starts_with part (String.◌∷◌ c s) || has_part part s

unfoldable pub is_text : Option Value → Bool
is_text (some (Value.str s)) = not (s == "")
is_text _ = false

unfoldable pub is_template : Option Value → Bool
unfolding has_part
is_template (some (Value.str s)) = has_part "{ver}" s
is_template _ = false

-- `download.pinned_method`
unfoldable pub pinned_params : Method → Bool
unfolding is_template is_text get
pinned_params m =
    is_template (get "url" m.params)
    && is_text (get "version" m.params)
    && is_text (get "sha256" m.params)

unfoldable pub pinned_method : Option Method → Bool
unfolding pinned_params
pinned_method none = false
pinned_method (some m) = elim m.kind [
  | app ↦ pinned_params m
  | tarball ↦ pinned_params m
  | _ ↦ false
]

unfoldable pub outcome : Tool → UpdateStatus → String → String → UpdateOutcome
outcome tool status owner detail = record {
  tool_id = tool.id;
  status = status;
  owner = owner;
  detail = detail;
}

-- `confidence in MUTATION_GRADE`
unfoldable pub mutation_grade : String → Bool
unfolding contains
mutation_grade confidence = contains confidence ("direct" ∷ "by-elimination" ∷ [])

unfoldable pub os_detail : ManagerOwnership → String
unfolding concat shown
os_detail o =
    if o.owner == "os-package"
    then concat (
        "an OS package ("
        ∷ shown o.«package»
        ∷ ") provides this tool; this installer performs no privileged system-package updates, so the system's own update path owns it"
        ∷ [])
    else concat (
        o.owner
        ∷ " owns this tool; this installer does not perform privileged system-package updates, so update it through "
        ∷ o.owner ∷ " yourself" ∷ [])

-- `str(m.params.get("setup_id"))`
unfoldable pub setup_id : Method → String
unfolding get str_of
setup_id m = elim (get "setup_id" m.params) [ none ↦ "None" | some value ↦ str_of value ]

unfoldable pub or_text : Option String → String → String
or_text none default = default
or_text (some s) default = s

-- The first reviewed command of a host setup of the tool, else the fallback
unfoldable pub first_command : (String → Option String) → String → List Method → String
unfolding or_text setup_id
first_command pnpm_add default [] = default
first_command pnpm_add default (m ∷ ms) =
    let rest = first_command pnpm_add default ms in
    elim m.kind [ host_setup ↦ or_text (pnpm_add (setup_id m)) rest | _ ↦ rest ]

unfoldable pub pnpm_detail : (String → Option String) → Tool → ManagerOwnership → String
unfolding first_command or_else concat
pnpm_detail pnpm_add tool o = concat (
    "managed by pnpm through its host setup — update it with `"
    ∷ first_command pnpm_add
        (concat ("pnpm add --global --ignore-scripts " ∷ or_else o.«package» tool.cmd ∷ []))
        tool.methods
    ∷ "`"
    ∷ [])

-- `update_refusal`; `pnpm_add` is `pnpm_add_command` of installer/host_setup.py.
unfoldable pub update_refusal :
    (String → Option String) → Tool → ManagerOwnership → Option UpdateOutcome
unfolding mutation_grade is_sdkman pinned_method unmanageable outcome or_else os_detail pnpm_detail
    concat
update_refusal pnpm_add tool o =
    if o.owner == "unknown" || not (mutation_grade o.confidence)
    then some (
        outcome tool unknown_owner o.owner
          (or_else o.unknown_reason "no manager claimed this tool"))
    else if is_sdkman o.method
    then some (
        outcome tool unsupported o.owner (
          concat (
            "SDKMAN owns this tool; this installer does not run SDKMAN's interactive upgrade — update it with `sdk upgrade "
            ∷ or_else o.«package» tool.id
            ∷ "` in your own terminal"
            ∷ [])))
    else if pinned_method o.method
    then some (outcome tool unsupported o.owner "pinned; update outside or re-pin")
    else if unmanageable o.owner
    then some (outcome tool unsupported o.owner (os_detail o))
    else if o.owner == "volta"
    then some (
        outcome tool unsupported "volta" (
          concat (
            "managed by Volta — update it with `volta install "
            ∷ or_else o.«package» tool.cmd
            ∷ "`"
            ∷ [])))
    else if o.owner == "pnpm" && not (is_some o.method)
    then some (outcome tool unsupported "pnpm" (pnpm_detail pnpm_add tool o))
    else none
