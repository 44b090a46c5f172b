-- ===== src/Status/Tests.antt =====
-- Runs of `tool_health` and `tool_state` on one tool.
use tools_installer.Base.{
  ◌≡◌, refl, String, true, false, not, ◌||◌, ◌&&◌, none, [], ◌∷◌, contains, unique, Distinct,
  if◌then◌else◌,
}
use tools_installer.Model.{Tool, apt, Priority, Audience, Tier}
use tools_installer.Platform.{Platform}
use tools_installer.Resolve.{resolve_methods}
use tools_installer.Status.{
  Evidence, Facts, groups, winner, with_others, place_of, present_health, tool_health, tool_state,
  is_cons,
}
use tools_installer.Session.{broken, missing, unavailable}
use tools_installer.Session.Plan.{is_present}
use tools_installer.Status.Precedence.{
  speaks, judged, is_behind, tool_health-reasons, tool_state-Judged,
}

abbrev evidence : Evidence
evidence = record {
  present = true;
  available = true;
  checking_facts = [];
  broken_facts = "changed since install" ∷ [];
  misconfigured_facts = "no hook" ∷ "changed since install" ∷ [];
  outdated_facts = "1.1 -> 1.2 available" ∷ [];
  notes = "installed by hand" ∷ [];
  absent_reason = none;
}

broken_first : tool_health evidence ≡ (
  broken,
  "changed since install" ∷ "no hook" ∷ "1.1 -> 1.2 available" ∷ "installed by hand" ∷ [],
)
unfolding tool_health groups winner present_health with_others place_of unique contains
broken_first = refl

tool_health-reasons_example :
    Distinct (tool_health evidence).1
    × ((d : String) → contains d (tool_health evidence).1 ≡ speaks evidence d)
tool_health-reasons_example = tool_health-reasons evidence

abbrev fd : Tool
fd = record {
  id = "fd";
  name = "fd";
  category = "dev";
  cmd = "fd";
  methods = record { kind = apt; params = []; os = []; arch = [] } ∷ [];
  priority = Priority.p1;
  audience = Audience.both;
  tier = Tier.user;
  desc = "";
  requires = [];
  recommends = [];
  postinstall = none;
  post_install = [];
  default_enabled_sensitive_actions = [];
  owner_probes = [];
  config_paths = [];
  retired = false;
}

abbrev debian : Platform
debian = record {
  os = "debian";
  arch = "amd64";
  immutable = false;
  has_brew = false;
  os_version = none;
}

abbrev facts : Facts
facts = record {
  generation = 1;
  seq = 2;
  present = true;
  ownership = record {
    tool_id = "fd";
    owner = "apt";
    method = none;
    «package» = none;
    confidence = "confirmed";
    unknown_reason = none;
    off_policy = false;
    shim_broken = true;
  };
  version = none;
  checking_facts = [];
  broken_facts = [];
  misconfigured_facts = [];
  unconfigured = [];
  notes = [];
  unwritable = [];
}

tool_state-Judged_example :
    ((tool_state fd debian facts).health ≡ (
      if true
      then judged
          (is_cons facts.checking_facts)
          (true || is_cons facts.broken_facts)
          (is_cons facts.misconfigured_facts)
          (is_behind facts.version)
      else if is_cons (resolve_methods fd debian)
      then missing
      else unavailable))
    × (is_present (tool_state fd debian facts).health
        ≡ (true && not (is_cons facts.checking_facts)))
tool_state-Judged_example = tool_state-Judged fd debian facts
