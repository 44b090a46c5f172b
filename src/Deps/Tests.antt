-- ===== src/Deps/Tests.antt =====
-- Runs of installer/deps.py on small catalogs, and the theorems at inputs that meet their
-- hypotheses.
use tools_installer.Base.{
  ℕ, String, ◌≡◌, refl, Bool, true, false, not, ◌⊎◌, ◌↔◌, ◌≢◌, map, is_some, Distinct,
  if◌then◌else◌, eq_iff, some, none, List, [], ◌∷◌, arith, ◌==◌, contains, All, get, put,
  setdefault, discard,
}
use tools_installer.Model.{Tool, Priority, Audience, Tier, ids}
use tools_installer.Deps.Blockable.{Registered, Blockable}
use tools_installer.Deps.Rows.{IsRow}
use tools_installer.Deps.Order.{IsOrdered, Links}
use tools_installer.Deps.Resolved.{IsNeeded}
use tools_installer.Deps.Ends.{Falls, resolve-ends, resolve-acyclic}
use tools_installer.Deps.Closed.{
  closure-IsOrdered, closure-IsNeeded, blocked-IsRow, selected-resolved, closure-closed,
}
use tools_installer.Deps.Preview.{missing_requires, is_missing}
use tools_installer.Deps.Preview.Exact.{Below, missing_requires-exact}
use tools_installer.Deps.{
  by_id, Resolution, Blocked, resolve_dependencies, collect_all, block_rows, topo, ok, err, cycle,
  for_each,
}

abbrev tool : String → List String → Tool
tool id requires = record {
  id = id;
  name = id;
  category = "dev";
  cmd = id;
  methods = [];
  priority = Priority.p1;
  audience = Audience.both;
  tier = Tier.user;
  desc = "";
  requires = requires;
  recommends = [];
  postinstall = none;
  post_install = [];
  default_enabled_sensitive_actions = [];
  owner_probes = [];
  config_paths = [];
  retired = false;
}

abbrev uv : Tool
uv = tool "uv" []

abbrev pnpm : Tool
pnpm = tool "pnpm" ("uv" ∷ [])

abbrev chrome : Tool
chrome = tool "chrome" []

abbrev mmdc : Tool
mmdc = tool "mmdc" ("pnpm" ∷ "chrome" ∷ "ghost" ∷ [])

abbrev brew : Tool
brew = tool "brew" []

abbrev bat : Tool
bat = tool "bat" ("brew" ∷ [])

abbrev catalog : List Tool
catalog = bat ∷ brew ∷ chrome ∷ mmdc ∷ pnpm ∷ uv ∷ []

abbrev selected : List Tool
selected = mmdc ∷ bat ∷ []

abbrev available : Tool → Bool
available t = not (t.id == "brew")

abbrev is_installed : Tool → Bool
is_installed t = t.id == "uv"

program : Unit {0}
unfolding resolve_dependencies collect_all block_rows topo by_id for_each contains get put
    setdefault discard
program = tt

abbrev expected : Resolution
expected = record {
  closure = uv ∷ pnpm ∷ chrome ∷ mmdc ∷ [];
  blocked =
      record { tool_id = "bat"; needs = some "brew" }
      ∷ record { tool_id = "brew"; needs = none }
      ∷ [];
  requested_by = ("pnpm", "mmdc") ∷ ("uv", "mmdc") ∷ ("chrome", "mmdc") ∷ ("brew", "bat") ∷ [];
}

resolve_runs : resolve_dependencies selected catalog available is_installed ≡ ok expected
unfolding program
resolve_runs = refl

abbrev looped : List Tool
looped = tool "a" ("b" ∷ []) ∷ tool "b" ("a" ∷ []) ∷ []

resolve_cycle : resolve_dependencies looped looped available is_installed ≡ err (cycle "a")
unfolding program
resolve_cycle = refl

registered : All (Registered catalog) selected
unfolding program
registered = (refl, (refl, tt))

resolve-ends_example :
    ((res : Resolution) × (resolve_dependencies looped looped available is_installed ≡ ok res))
    ⊎ ((t : Tool) × (resolve_dependencies looped looped available is_installed ≡ err (cycle t.id))
        × IsNeeded looped looped t
        × Links looped (ids looped) t t)
resolve-ends_example =
    resolve-ends looped looped available is_installed (unfold by_id in (refl, (refl, tt)))

abbrev small : List Tool
small = pnpm ∷ uv ∷ []

abbrev rank : String → ℕ
rank x = if x == "pnpm" then 1 else 0

small-Falls : Falls small rank
unfolding by_id contains
small-Falls a d b reg c e = ground (
  arith,
  eq_iff "pnpm" a.id,
  eq_iff "uv" a.id,
  eq_iff "pnpm" d,
  eq_iff "uv" d,
  eq_iff b.id "pnpm",
  eq_iff a.id "pnpm",
)

resolve-acyclic_example :
    (res : Resolution) × (resolve_dependencies small small available is_installed ≡ ok res)
resolve-acyclic_example =
    resolve-acyclic small small available is_installed (unfold by_id in (refl, (refl, tt))) rank
      small-Falls

closure-IsOrdered_example :
    Distinct (ids expected.closure) × IsOrdered catalog (ids expected.closure) [] expected.closure
closure-IsOrdered_example =
    closure-IsOrdered selected catalog available is_installed registered expected resolve_runs

closure-IsNeeded_example : All (IsNeeded selected catalog) expected.closure
closure-IsNeeded_example =
    closure-IsNeeded selected catalog available is_installed registered expected resolve_runs

blocked-IsRow_example :
    Distinct (map (λ (b : Blocked). b.tool_id) expected.blocked)
    × All (IsRow catalog available is_installed) expected.blocked
blocked-IsRow_example =
    blocked-IsRow selected catalog available is_installed registered expected resolve_runs

selected-resolved_example :
    (contains "bat" (ids expected.closure)
      ≡ not (contains "bat" (map (λ (b : Blocked). b.tool_id) expected.blocked)))
    × ((contains "bat" (map (λ (b : Blocked). b.tool_id) expected.blocked) ≡ true)
        ↔ Blockable catalog available is_installed bat)
selected-resolved_example =
    selected-resolved selected catalog available is_installed registered expected resolve_runs bat
      (unfold by_id in refl) (unfold contains in refl)

closure-closed_example :
    (contains "pnpm" (ids expected.closure) ≡ true)
    ⊎ (Blockable catalog available is_installed pnpm × (is_installed mmdc ≡ true))
closure-closed_example =
    closure-closed selected catalog available is_installed registered expected resolve_runs mmdc
      "pnpm" pnpm (unfold by_id in refl) (unfold contains in refl) (unfold contains in refl)
      (unfold by_id in refl)

missing_requires-exact_example :
    (missing : List String) × (missing_requires catalog ("chrome" ∷ []) (("uv", true) ∷ []) mmdc
      ≡ some missing)
    × Distinct missing
    × ((d : String)
        → (contains d missing ≡ true) ↔ (
            Below catalog mmdc d
            × (d ≢ "mmdc")
            × (is_some (by_id catalog d) ≡ true)
            × (is_missing catalog ("chrome" ∷ []) (("uv", true) ∷ []) d ≡ true)))
missing_requires-exact_example =
    missing_requires-exact catalog ("chrome" ∷ []) (("uv", true) ∷ []) mmdc (unfold by_id in refl)
