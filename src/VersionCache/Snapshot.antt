-- ===== src/VersionCache/Snapshot.antt =====
-- installer/version_cache.py: the snapshot of the managers in the file.
use tools_installer.Base.{String, Option, none, some, List, [], ◌∷◌, ◌==◌, if◌then◌else◌}
use tools_installer.VersionCache.{
  Json, null, text, array, object, Items, nil, item, Members, end, member, VersionCacheEntry,
  ManagerVersion, ManagerInventory, OutdatedReport, ManagerSnapshot, member_of, as_object,
  object_in,
}
use tools_installer.VersionCache.Codec.{
  or_null, text_members, or_empty, existing_managers, load_version_cache, save_version_cache,
}

unfoldable pub text_value : Json → Option String
text_value (text s) = some s
text_value _ = none

-- One more pair, unless a value was refused
unfoldable pub with_pair {ℓ} :
    {A : Type ℓ} → String → Option A → Option (List (String × A)) → Option (List (String × A))
with_pair key (some value) (some rest) = some ((key, value) ∷ rest)
with_pair key _ _ = none

unfoldable pub str_pairs : Members → Option (List (String × String))
unfolding with_pair text_value
str_pairs end = some []
str_pairs (member key value rest) = with_pair key (text_value value) (str_pairs rest)

unfoldable pub str_map : Option Json → Option (List (String × String))
unfolding str_pairs object_in
str_map raw = elim (object_in raw) [ none ↦ none | some members ↦ str_pairs members ]

unfoldable pub with_name : Option String → Option (List String) → Option (List String)
with_name (some name) (some rest) = some (name ∷ rest)
with_name _ _ = none

unfoldable pub names_of : Items → Option (List String)
unfolding with_name text_value
names_of nil = some []
names_of (item value rest) = with_name (text_value value) (names_of rest)

unfoldable pub str_set : Option Json → Option (List String)
unfolding names_of
str_set (some (array items)) = names_of items
str_set _ = none

-- `current` may be missing, null or a text; `latest` is a text that is not empty.
unfoldable pub current_value : Option Json → Option (Option String)
current_value none = some none
current_value (some null) = some none
current_value (some (text s)) = some (some s)
current_value (some _) = none

unfoldable pub latest_value : Option Json → Option String
latest_value (some (text s)) = if s == "" then none else some s
latest_value _ = none

unfoldable pub version_pair_of : Option (Option String) → Option String → Option ManagerVersion
version_pair_of (some current) (some latest) = some (record { current = current; latest = latest })
version_pair_of _ _ = none

unfoldable pub version_value : Json → Option ManagerVersion
unfolding version_pair_of current_value latest_value as_object member_of
version_value raw = elim (as_object raw) [
  | none ↦ none
  | some entry ↦
      version_pair_of (current_value (member_of "current" entry))
        (latest_value (member_of "latest" entry))
]

unfoldable pub version_pairs : Members → Option (List (String × ManagerVersion))
unfolding with_pair version_value
version_pairs end = some []
version_pairs (member key value rest) = with_pair key (version_value value) (version_pairs rest)

unfoldable pub version_map : Option Json → Option (List (String × ManagerVersion))
unfolding version_pairs object_in
version_map raw = elim (object_in raw) [ none ↦ none | some members ↦ version_pairs members ]

unfoldable pub prefix_value : Option Json → Option String
prefix_value (some (text s)) = if s == "" then none else some s
prefix_value _ = none

unfoldable pub decode_inventory : Option Json → ManagerInventory
unfolding object_in or_empty member_of str_map str_set prefix_value
decode_inventory raw =
    let mapping = or_empty (object_in raw) in
    record {
      brew_formulae = str_map (member_of "brew_formulae" mapping);
      brew_casks = str_map (member_of "brew_casks" mapping);
      pnpm_globals = str_set (member_of "pnpm_globals" mapping);
      uv_tools = str_map (member_of "uv_tools" mapping);
      brew_prefix = prefix_value (member_of "brew_prefix" mapping);
    }

-- `mapping.get("greedy", [])`: a file from before it was there has no such cask.
unfoldable pub greedy_value : Option Json → Option (List String)
unfolding str_set
greedy_value none = some []
greedy_value (some value) = str_set (some value)

unfoldable pub outdated_report : Option Members → OutdatedReport
unfolding version_map greedy_value member_of
outdated_report none = record { brew = none; cask = none; pnpm = none; uv = none; greedy = none }
outdated_report (some mapping) = record {
  brew = version_map (member_of "brew" mapping);
  cask = version_map (member_of "cask" mapping);
  pnpm = version_map (member_of "pnpm" mapping);
  uv = version_map (member_of "uv" mapping);
  greedy = greedy_value (member_of "greedy" mapping);
}

unfoldable pub decode_outdated : Option Json → OutdatedReport
unfolding outdated_report object_in
decode_outdated raw = outdated_report (object_in raw)

unfoldable pub text_or_none : Option Json → Option String
text_or_none (some (text s)) = some s
text_or_none _ = none

unfoldable pub decode_manager_snapshot : Members → ManagerSnapshot
unfolding decode_inventory decode_outdated text_or_none member_of
decode_manager_snapshot mapping = record {
  inventory = decode_inventory (member_of "inventory" mapping);
  report = decode_outdated (member_of "outdated" mapping);
  checked_at = text_or_none (member_of "checked_at" mapping);
  failed_at = text_or_none (member_of "failed_at" mapping);
}

unfoldable pub map_json : Option (List (String × String)) → Json
unfolding text_members
map_json none = null
map_json (some pairs) = object (text_members pairs)

unfoldable pub name_items : List String → Items
name_items [] = nil
name_items (name ∷ rest) = item (text name) (name_items rest)

unfoldable pub set_json : Option (List String) → Json
unfolding name_items
set_json none = null
set_json (some names) = array (name_items names)

unfoldable pub version_members : List (String × ManagerVersion) → Members
unfolding or_null
version_members [] = end
version_members ((name, version) ∷ rest) =
    member name
      (object
        (member "current" (or_null version.current) (member "latest" (text version.latest) end)))
      (version_members rest)

unfoldable pub versions : Option (List (String × ManagerVersion)) → Json
unfolding version_members
versions none = null
versions (some mapping) = object (version_members mapping)

unfoldable pub encode_inventory : ManagerInventory → Json
unfolding map_json set_json or_null
encode_inventory inventory = object (
    member "brew_formulae" (map_json inventory.brew_formulae) (
      member "brew_casks" (map_json inventory.brew_casks) (
        member "pnpm_globals" (set_json inventory.pnpm_globals) (
          member "uv_tools" (map_json inventory.uv_tools)
            (member "brew_prefix" (or_null inventory.brew_prefix) end)))))

unfoldable pub encode_outdated : OutdatedReport → Json
unfolding versions set_json
encode_outdated report = object (
    member "brew" (versions report.brew) (
      member "cask" (versions report.cask) (
        member "pnpm" (versions report.pnpm)
          (member "uv" (versions report.uv) (member "greedy" (set_json report.greedy) end)))))

unfoldable pub encode_manager_snapshot : ManagerSnapshot → Members
unfolding encode_inventory encode_outdated or_null
encode_manager_snapshot snapshot = member "inventory" (encode_inventory snapshot.inventory) (
    member "outdated" (encode_outdated snapshot.report) (
      member "checked_at" (or_null snapshot.checked_at)
        (member "failed_at" (or_null snapshot.failed_at) end)))

unfoldable pub load_manager_snapshot : Option Json → ManagerSnapshot
unfolding decode_manager_snapshot existing_managers
load_manager_snapshot file = decode_manager_snapshot (existing_managers file)

unfoldable pub encoded : Option ManagerSnapshot → Members
unfolding encode_manager_snapshot
encoded none = end
encoded (some snapshot) = encode_manager_snapshot snapshot

unfoldable pub cache_or :
    Option (List (String × VersionCacheEntry)) → Option Json → List (String × VersionCacheEntry)
unfolding load_version_cache
cache_or none file = load_version_cache file
cache_or (some tools) file = tools

unfoldable pub save_manager_snapshot :
    Option ManagerSnapshot → Option (List (String × VersionCacheEntry)) → Option Json → Option Json
unfolding save_version_cache cache_or encoded
save_manager_snapshot snapshot tools file =
    save_version_cache (cache_or tools file) (some (encoded snapshot)) file
