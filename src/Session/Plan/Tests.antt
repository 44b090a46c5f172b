-- ===== src/Session/Plan/Tests.antt =====
-- A run of `build_plan` on a small catalog, and the theorem on its passes at the rows of a plan.
use tools_installer.Base.{
  String, false, Option, none, some, List, [], ◌∷◌, ◌≡◌, refl, map, contains, get, put, setdefault,
  discard,
}
use tools_installer.Model.{apt, script, Value, Method, Tool, Priority, p0, p1, Audience, Tier}
use tools_installer.Platform.{Platform}
use tools_installer.Deps.{Result, ok, err, for_each}
use tools_installer.Session.{
  Disposition, install, blocked, manual, skip, missing, ManagerOwnership, PlanRow,
}
use tools_installer.Session.Effect.{Except, returned, raised}
use tools_installer.Session.Plan.{ToolState, Wording}
use tools_installer.Session.Plan.Build.{build_plan, settle_rows, unsatisfied_of}
use tools_installer.Session.Plan.Rows.{Pairwise, Follows, settle_rows-Follows}

abbrev tool : String → Priority → List String → Method → Tool
tool id priority requires m = record {
  id = id;
  name = id;
  category = "dev";
  cmd = id;
  methods = m ∷ [];
  priority = priority;
  audience = Audience.both;
  tier = Tier.user;
  desc = "";
  requires = requires;
  recommends = [];
  postinstall = none;
  post_install = [];
  default_enabled_sensitive_actions = [];
  owner_probes = [];
  config_paths = [];
  retired = false;
}

abbrev by_script : Method
by_script = record { kind = script; params = []; os = []; arch = [] }

abbrev by_apt : Method
by_apt = record { kind = apt; params = ("package", Value.str "nodejs") ∷ []; os = []; arch = [] }

-- `node` is left to the user, so `pnpm` is blocked, and `uv`, which only `pnpm` drags in, is dropped.
abbrev catalog : List Tool
catalog =
    tool "pnpm" p1 ("node" ∷ "uv" ∷ []) by_script
    ∷ tool "node" p1 [] by_apt
    ∷ tool "uv" p1 [] by_script
    ∷ tool "bat" p0 [] by_script
    ∷ []

abbrev nobody : String → ManagerOwnership
nobody id = record {
  tool_id = id;
  owner = "unknown";
  method = none;
  «package» = none;
  confidence = "none";
  unknown_reason = none;
  off_policy = false;
  shim_broken = false;
}

abbrev absent : String → Option ToolState
absent id = some (record {
  tool_id = id;
  health = missing;
  reasons = [];
  ownership = nobody id;
  version = none;
  unconfigured = [];
  unwritable = [];
  generation = 0;
  seq = 1;
})

abbrev words : Wording
words = record {
  owner_label = λ o. none;
  declared_label = λ t. none;
  refuses_update = λ t o. false;
}

abbrev debian : Platform
debian = record {
  os = "debian";
  arch = "amd64";
  immutable = false;
  has_brew = false;
  os_version = none;
}

dispositions : Result (Except (List PlanRow)) → List (String × Disposition)
dispositions (err e) = []
dispositions (ok (raised e)) = []
dispositions (ok (returned rows)) = map (λ (r : PlanRow). (r.tool_id, r.disposition)) rows

plan_builds :
    dispositions (build_plan words debian [] ("pnpm" ∷ "bat" ∷ []) catalog absent)
    ≡ ("bat", install) ∷ ("node", manual) ∷ ("uv", skip) ∷ ("pnpm", blocked) ∷ []
unfolding build_plan dispositions contains get put setdefault discard for_each
plan_builds = refl

abbrev row : String → Disposition → Option String → PlanRow
row id disposition requester = record {
  tool_id = id;
  disposition = disposition;
  reason = "";
  requested_by = requester;
  health = some missing;
  can_reinstall = false;
  steps = [];
  ownership = some (nobody id);
  manual_command = none;
}

abbrev rows : List PlanRow
rows =
    row "bat" install none
    ∷ row "node" manual (some "pnpm")
    ∷ row "uv" install (some "pnpm")
    ∷ row "pnpm" install none
    ∷ []

settle_rows-Follows_example :
    Pairwise
      (Follows catalog absent (unsatisfied_of catalog absent rows))
      rows
      (settle_rows catalog absent rows)
settle_rows-Follows_example = settle_rows-Follows catalog absent rows
