-- ===== src/Session.antt =====
-- installer/session.py: the rows of an install plan, their outcomes, and what a run reports.
pub mod Effect
pub mod Engine
pub mod Plan
use tools_installer.Base.{
  ℕ, String, Bool, true, false, Option, none, some, List, [], ◌∷◌, map, filter, any, if◌then◌else◌,
}
use tools_installer.Model.{Method}

-- installer/enums.py
pub data InstallStatus : Type 0 where
  already_installed installed no_method failed checksum_mismatch : InstallStatus
  manual_required dependency_failed : InstallStatus

pub data Disposition : Type 0 where
  wait install update repair reconfigure reinstall skip blocked manual remove : Disposition

-- The results of a row, `Result` in the source.
pub data RowResult : Type 0 where
  r_done r_failed r_mismatch r_dependency_failed r_not_attempted r_crashed : RowResult
  r_skipped r_blocked r_manual r_remove_failed : RowResult

-- installer/version_status.py
pub data Health : Type 0 where
  checking broken misconfigured outdated ok missing unavailable : Health

-- installer/model.py
pub data StepKind : Type 0 where
  terminal_sync pnpm_group_install hook_register zshenv_shell : StepKind

pub record ConfigStep : Type 0 where
  pub text : String
  pub kind : StepKind
  pub harness : Option String
  pub argv : List String
  pub cwd : Option String
  pub report : String

-- An exception: the name of its type, and `str(exc)`.
pub record Exn : Type 0 where
  pub type_name : String
  pub message : String

-- installer/ownership.py, the fields that a plan reads
pub record ManagerOwnership : Type 0 where
  pub tool_id : String
  pub owner : String
  pub method : Option Method
  pub «package» : Option String
  pub confidence : String
  pub unknown_reason : Option String
  pub off_policy : Bool
  pub shim_broken : Bool

-- installer/engine.py
pub record InstallOutcome : Type 0 where
  pub tool_id : String
  pub status : InstallStatus
  pub method_kind : Option String
  pub errors : List Exn
  pub verified : Bool
  pub unverified_reason : Option String
  pub blocked_by : List String
  pub postinstall_warning : Option String
  pub handoff : List String
  pub post_install_handoff : List String
  pub manual_command : Option String
  pub hooks : List String

-- installer/update.py, the fields that a run reads
pub data UpdateStatus : Type 0 where
  updated update_failed unknown_owner unsupported : UpdateStatus

pub record UpdateOutcome : Type 0 where
  pub tool_id : String
  pub status : UpdateStatus
  pub owner : String
  pub detail : String

-- installer/agent_settings.py, the fields that a run reads
pub record FileResult : Type 0 where
  pub agent : String
  pub setting : String
  pub refused : Option String

pub record PlanRow : Type 0 where
  pub tool_id : String
  pub disposition : Disposition
  pub reason : String
  pub requested_by : Option String
  pub health : Option Health
  pub can_reinstall : Bool
  pub steps : List ConfigStep
  pub ownership : Option ManagerOwnership
  pub manual_command : Option String

pub record RowOutcome : Type 0 where
  pub row : PlanRow
  pub result : RowResult
  pub install : Option InstallOutcome
  pub update : Option UpdateOutcome
  pub detail : String
  pub resynced : List (String × List String)
  pub resync_warnings : List (String × String)
  pub settings : List FileResult
  pub settings_skipped : Bool
  pub desktop_shell : Option (String × String)
  pub desktop_shell_error : Option (String × String)

-- `RowOutcome(row, result, detail=…)`
abbrev pub outcome_of : PlanRow → RowResult → String → RowOutcome
outcome_of row result detail = record {
  row = row;
  result = result;
  install = none;
  update = none;
  detail = detail;
  resynced = [];
  resync_warnings = [];
  settings = [];
  settings_skipped = false;
  desktop_shell = none;
  desktop_shell_error = none;
}

-- `InstallOutcome(tool_id, status)`
abbrev pub install_outcome : String → InstallStatus → InstallOutcome
install_outcome tool_id status = record {
  tool_id = tool_id;
  status = status;
  method_kind = none;
  errors = [];
  verified = false;
  unverified_reason = none;
  blocked_by = [];
  postinstall_warning = none;
  handoff = [];
  post_install_handoff = [];
  manual_command = none;
  hooks = [];
}

-- `disposition in RUNNABLE`
abbrev pub runnable : Disposition → Bool
runnable install = true
runnable update = true
runnable repair = true
runnable reconfigure = true
runnable reinstall = true
runnable _ = false

-- `status in _UNRESOLVED`
abbrev pub unresolved_status : InstallStatus → Bool
unresolved_status failed = true
unresolved_status no_method = true
unresolved_status checksum_mismatch = true
unresolved_status dependency_failed = true
unresolved_status manual_required = true
unresolved_status _ = false

-- `status in _PRESENT_TOOL_LOST`
abbrev pub present_tool_lost : InstallStatus → Bool
present_tool_lost failed = true
present_tool_lost checksum_mismatch = true
present_tool_lost _ = false

-- `_INSTALL_RESULT`
abbrev pub install_result : InstallStatus → RowResult
install_result installed = r_done
install_result already_installed = r_skipped
install_result failed = r_failed
install_result checksum_mismatch = r_mismatch
install_result dependency_failed = r_dependency_failed
install_result manual_required = r_manual
install_result no_method = r_blocked

-- `result in _FAILURE`
abbrev pub is_failure : RowResult → Bool
is_failure r_failed = true
is_failure r_mismatch = true
is_failure r_dependency_failed = true
is_failure r_not_attempted = true
is_failure r_crashed = true
is_failure r_remove_failed = true
is_failure _ = false

-- `result in _KEEP`
abbrev pub is_kept : RowResult → Bool
is_kept r_blocked = true
is_kept r_manual = true
is_kept r = is_failure r

unfoldable pub exit_code : List RowOutcome → ℕ
exit_code outcomes = if any (λ o. is_failure o.result) outcomes then 1 else 0

-- The set is the list of its elements, with a repetition for a tool of several rows.
unfoldable pub retained : List RowOutcome → List String
retained outcomes = map (λ o. o.row.tool_id) (filter (λ o. is_kept o.result) outcomes)
