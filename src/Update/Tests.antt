-- ===== src/Update/Tests.antt =====
-- Runs of an update on a host whose world is the list of the commands that were run.
use tools_installer.Base.{String, ◌≡◌, refl, true, false, none, some, List, [], ◌∷◌}
use tools_installer.Model.{Method, Tool, cask, Value, Priority, Audience, Tier}
use tools_installer.Session.{ManagerOwnership, updated}
use tools_installer.Session.Effect.{returned}
use tools_installer.Update.Script.{UpdateHost}
use tools_installer.Update.Perform.{perform_update}

abbrev zed_cask : Method
zed_cask = record { kind = cask; params = ("cask", Value.str "zed") ∷ []; os = []; arch = [] }

abbrev zed : Tool
zed = record {
  id = "zed";
  name = "Zed";
  category = "dev";
  cmd = "zed";
  methods = zed_cask ∷ [];
  priority = Priority.p1;
  audience = Audience.both;
  tier = Tier.user;
  desc = "";
  requires = [];
  recommends = [];
  postinstall = none;
  post_install = [];
  default_enabled_sensitive_actions = [];
  owner_probes = [];
  config_paths = [];
  retired = false;
}

abbrev owned_by : String → ManagerOwnership
owned_by owner = record {
  tool_id = "zed";
  owner = owner;
  method = some zed_cask;
  «package» = some "zed";
  confidence = "direct";
  unknown_reason = none;
  off_policy = false;
  shim_broken = false;
}

abbrev host : UpdateHost (List (List String))
host = record {
  pnpm_add = λ _. none;
  applications_dir = "/Applications";
  declared_label = λ _. none;
  owner_label = λ _. none;
  greedy_casks = "zed" ∷ [];
  classes = λ e. e.type_name ∷ [];
  expand_script_token = λ token. some token;
  sdk_pipeline = λ argv. "bash" ∷ argv;
  artifact_paths = λ _. [];
  name_of = λ path. path;
  is_file = λ _ _. true;
  runner = λ argv w. (argv ∷ w, returned tt);
  execute = λ _ w. (w, returned tt);
  update_download = λ _ w. (w, returned []);
  update_app = λ _ w. (w, returned []);
  receipt_kind = λ _ _. none;
  preexisting_paths = λ _ _. returned [];
  record_receipt = λ _ _ _ _ w. (w, none);
  postinstall = λ _ _ w. (w, returned none);
}

zed_updates : perform_update host zed (owned_by "cask") [] ≡ (
  ("brew" ∷ "upgrade" ∷ "--cask" ∷ "--greedy-auto-updates" ∷ "--appdir=/Applications" ∷ "zed" ∷ [])
      ∷ [],
  returned (record { tool_id = "zed"; status = updated; owner = "cask"; detail = "" }),
)
unfolding perform_update
zed_updates = refl
