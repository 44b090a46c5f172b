-- ===== src/VersionCache/Tests.antt =====
-- Runs of installer/version_cache.py on a file with one entry.
use tools_installer.Base.{
  ℕ, if◌then◌else◌, ◌≡◌, refl, String, true, not, ◌||◌, Option, none, some, [], ◌∷◌, ◌==◌, arith,
  is_digit,
}
use tools_installer.VersionCache.{
  Members, Json, number, text, object, end, member, VersionCacheEntry, ManagerSnapshot, is_hex,
  is_sha256, member_of, as_object, object_in, digest_value, with_digest, digests_of,
  digests_from_raw, str_field, checked_entry, entry_of, entry_from_raw,
}
use tools_installer.VersionCache.Codec.{
  tools_in, tools_mapping, with_entry, entries_of, all_entries, load_version_cache,
  existing_managers, save_version_cache,
}
use tools_installer.VersionCache.Snapshot.{load_manager_snapshot, save_manager_snapshot}
use tools_installer.VersionCache.Reads.{IsEntry, load_version_cache-save_version_cache}
use tools_installer.VersionCache.Snapshots.{load_manager_snapshot-save_manager_snapshot}
use tools_installer.VersionCache.Clock.{
  stale_after, retry_backoff, holds, IsUsableAt, time_of, should_fetch, should_fetch-bounds,
}

abbrev digest : String
digest = "0123456789abcdef0123456789abcdef0123456789abcdef0123456789abcdef"

abbrev fd_entry : VersionCacheEntry
fd_entry = record {
  latest_version = some "v1.2.0";
  checked_at = some "noon";
  failed_at = none;
  digests = ("fd.tar.gz", digest) ∷ [];
}

fd_entry-IsEntry : IsEntry fd_entry
unfolding is_sha256 is_hex is_digit
fd_entry-IsEntry = (refl, tt)

-- A bad digest drops alone; an entry with a number for a version drops as a whole.
abbrev hand_edited : Json
hand_edited = object (
    member "tools"
      (object (
        member "fd"
          (object (
            member "latest_version" (text "v1") (
              member "digests" (object (member "a" (text "short") (member "b" (text digest) end)))
                end)))
          (member "rg" (object (member "latest_version" (number 14) end)) end)))
      end)

bad_parts_dropped :
    load_version_cache (some hand_edited)
    ≡ (
      "fd",
      record {
        latest_version = some "v1";
        checked_at = none;
        failed_at = none;
        digests = ("b", digest) ∷ [];
      },
    )
      ∷ []
unfolding load_version_cache all_entries tools_mapping tools_in as_object member_of entries_of
    with_entry entry_from_raw entry_of str_field checked_entry digests_from_raw object_in digests_of
    with_digest digest_value is_sha256 is_hex is_digit
bad_parts_dropped = refl

load_version_cache-save_version_cache_example :
    (load_version_cache (save_version_cache (("fd", fd_entry) ∷ []) none (some hand_edited))
      ≡ ("fd", fd_entry) ∷ [])
    × ((given : Members)
        → existing_managers
            (save_version_cache (("fd", fd_entry) ∷ []) (some given) (some hand_edited))
          ≡ given)
    × (existing_managers (save_version_cache (("fd", fd_entry) ∷ []) none (some hand_edited))
        ≡ existing_managers (some hand_edited))
load_version_cache-save_version_cache_example =
    load_version_cache-save_version_cache (("fd", fd_entry) ∷ []) none (some hand_edited)
      (fd_entry-IsEntry, tt)

abbrev snapshot : ManagerSnapshot
snapshot = record {
  inventory = record {
    brew_formulae = some (("fd", "1.1") ∷ []);
    brew_casks = none;
    pnpm_globals = some ("pi" ∷ []);
    uv_tools = none;
    brew_prefix = some "/opt/homebrew";
  };
  report = record {
    brew = some (("fd", record { current = some "1.1"; latest = "1.2" }) ∷ []);
    cask = none;
    pnpm = none;
    uv = none;
    greedy = some [];
  };
  checked_at = some "noon";
  failed_at = none;
}

load_manager_snapshot-save_manager_snapshot_example :
    (load_manager_snapshot (save_manager_snapshot (some snapshot) none (some hand_edited))
      ≡ snapshot)
    × (load_version_cache (save_manager_snapshot (some snapshot) none (some hand_edited))
        ≡ load_version_cache (some hand_edited))
load_manager_snapshot-save_manager_snapshot_example =
    load_manager_snapshot-save_manager_snapshot snapshot none (some hand_edited)
      ((refl, tt), tt, tt, tt, refl)

-- Noon is 1,000,000 seconds into the clock.
clock : String → Option ℕ
clock value = if value == "noon" then some 1000000 else none

should_fetch-bounds_example :
    (should_fetch clock none 1000500 ≡ true)
    × (should_fetch clock (some fd_entry) 1000500
        ≡ not (
            holds stale_after 1000500 (time_of clock fd_entry.checked_at)
            || holds retry_backoff 1000500 (time_of clock fd_entry.failed_at)))
    × (IsUsableAt 1000500 (time_of clock fd_entry.checked_at)
        → IsUsableAt 1000500 (time_of clock fd_entry.failed_at)
        → should_fetch clock (some fd_entry) 1605600 ≡ true)
unfolding clock
should_fetch-bounds_example = should_fetch-bounds clock fd_entry 1000500 1605600 (omega arith)
