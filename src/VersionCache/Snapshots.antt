-- ===== src/VersionCache/Snapshots.antt =====
-- A snapshot of the managers that is saved is loaded again, and leaves the tools as they were.
use tools_installer.Base.{◌≡◌, refl, String, false, Option, none, some, List, [], ◌∷◌, All, ◌==◌}
use tools_installer.VersionCache.{
  Json, VersionCacheEntry, ManagerVersion, ManagerSnapshot, member_of, as_object, object_in,
}
use tools_installer.VersionCache.Codec.{
  load_version_cache, or_empty, existing_managers, or_null, text_members, kept_managers,
  save_version_cache,
}
use tools_installer.VersionCache.Snapshot.{
  text_value, with_pair, str_pairs, str_map, with_name, names_of, str_set, current_value,
  latest_value, version_pair_of, version_value, version_pairs, version_map, prefix_value,
  decode_inventory, greedy_value, outdated_report, decode_outdated, text_or_none,
  decode_manager_snapshot, map_json, name_items, set_json, version_members, versions,
  encode_inventory, encode_outdated, encode_manager_snapshot, load_manager_snapshot, encoded,
  cache_or, save_manager_snapshot,
}
use tools_installer.VersionCache.Reads.{load_version_cache-save_version_cache, load-IsEntry}

pairs-read : (pairs : List (String × String)) → str_pairs (text_members pairs) ≡ some pairs
unfolding str_pairs text_members with_pair text_value
pairs-read [] = refl
pairs-read (p ∷ rest) = rw (pairs-read rest) refl

map-read : (pairs : Option (List (String × String))) → str_map (some (map_json pairs)) ≡ pairs
unfolding str_map map_json object_in as_object
map-read none = refl
map-read (some pairs) = pairs-read pairs

names-read : (names : List String) → names_of (name_items names) ≡ some names
unfolding names_of name_items with_name text_value
names-read [] = refl
names-read (name ∷ rest) = rw (names-read rest) refl

set-read : (names : Option (List String)) → str_set (some (set_json names)) ≡ names
unfolding str_set set_json
set-read none = refl
set-read (some names) = names-read names

-- A version to update to is not empty.
abbrev pub IsVersions : Option (List (String × ManagerVersion)) → Type 0
IsVersions none = Unit
IsVersions (some mapping) =
    All (λ (v : String × ManagerVersion). (v.1.latest == "") ≡ false) mapping

current-read : (current : Option String) → current_value (some (or_null current)) ≡ some current
unfolding current_value or_null
current-read none = refl
current-read (some s) = refl

version_pairs-read :
    (mapping : List (String × ManagerVersion))
    → All (λ (v : String × ManagerVersion). (v.1.latest == "") ≡ false) mapping
    → version_pairs (version_members mapping) ≡ some mapping
unfolding version_pairs version_members with_pair version_value as_object member_of latest_value
    version_pair_of
version_pairs-read [] h = refl
version_pairs-read (v ∷ rest) h =
    rw (version_pairs-read rest h.1) (rw (current-read v.1.current) (rw (h.0) refl))

versions-read :
    (mapping : Option (List (String × ManagerVersion)))
    → IsVersions mapping
    → version_map (some (versions mapping)) ≡ mapping
unfolding version_map versions object_in as_object
versions-read none h = refl
versions-read (some mapping) h = version_pairs-read mapping h

text-read : (s : Option String) → text_or_none (some (or_null s)) ≡ s
unfolding text_or_none or_null
text-read none = refl
text-read (some s) = refl

abbrev pub IsPrefix : Option String → Type 0
IsPrefix none = Unit
IsPrefix (some path) = (path == "") ≡ false

prefix-read : (path : Option String) → IsPrefix path → prefix_value (some (or_null path)) ≡ path
unfolding prefix_value or_null
prefix-read none h = refl
prefix-read (some path) h = rw h refl

-- The versions to update to and the prefix of Homebrew, where there are any, are not empty.
abbrev pub IsSnapshot : ManagerSnapshot → Type 0
IsSnapshot s =
    IsVersions s.report.brew
    × IsVersions s.report.cask
    × IsVersions s.report.pnpm
    × IsVersions s.report.uv
    × IsPrefix s.inventory.brew_prefix

snapshot-read :
    (s : ManagerSnapshot) → IsSnapshot s → decode_manager_snapshot (encode_manager_snapshot s) ≡ s
unfolding decode_manager_snapshot encode_manager_snapshot decode_inventory encode_inventory
    decode_outdated encode_outdated outdated_report member_of object_in as_object or_empty
    greedy_value
snapshot-read s h = rw (map-read s.inventory.brew_formulae) (
    rw (map-read s.inventory.brew_casks) (
      rw (set-read s.inventory.pnpm_globals) (
        rw (map-read s.inventory.uv_tools) (
          rw (prefix-read s.inventory.brew_prefix h.4) (
            rw (versions-read s.report.brew h.0) (
              rw (versions-read s.report.cask h.1) (
                rw (versions-read s.report.pnpm h.2) (
                  rw (versions-read s.report.uv h.3) (
                    rw (set-read s.report.greedy)
                      (rw (text-read s.checked_at) (rw (text-read s.failed_at) refl)))))))))))

-- A snapshot of the managers, in which the versions to update to and the prefix of Homebrew are not
-- empty, is loaded as it was saved; and a save without the tools' entries leaves the entries that
-- the file had.
pub load_manager_snapshot-save_manager_snapshot :
    (s : ManagerSnapshot) (tools : Option (List (String × VersionCacheEntry))) (file : Option Json)
    → IsSnapshot s
    → (load_manager_snapshot (save_manager_snapshot (some s) tools file) ≡ s)
      × (load_version_cache (save_manager_snapshot (some s) none file) ≡ load_version_cache file)
unfolding load_manager_snapshot save_manager_snapshot encoded cache_or existing_managers
    save_version_cache kept_managers
load_manager_snapshot-save_manager_snapshot s tools file h = (
  snapshot-read s h,
  (load_version_cache-save_version_cache (load_version_cache file)
      (some (encode_manager_snapshot s)) file (load-IsEntry file)).0,
)
