-- ===== src/VersionCache/Codec.antt =====
-- installer/version_cache.py: reading and writing the whole file.
use tools_installer.Base.{String, Option, none, some, List, [], ◌∷◌}
use tools_installer.VersionCache.{
  Json, null, number, text, object, Members, end, member, VersionCacheEntry, member_of, as_object,
  object_in, entry_from_raw,
}

-- `mapping["tools"]` where there is one, else the mapping
unfoldable pub tools_in : Members → Option Json → Option Members
unfolding as_object
tools_in mapping none = some mapping
tools_in mapping (some value) = as_object value

unfoldable pub tools_mapping : Json → Option Members
unfolding tools_in as_object member_of
tools_mapping raw = elim (as_object raw) [
  | none ↦ none
  | some mapping ↦ tools_in mapping (member_of "tools" mapping)
]

unfoldable pub with_entry :
    String
    → Option VersionCacheEntry
    → List (String × VersionCacheEntry)
    → List (String × VersionCacheEntry)
with_entry key none rest = rest
with_entry key (some entry) rest = (key, entry) ∷ rest

unfoldable pub entries_of : Members → List (String × VersionCacheEntry)
unfolding with_entry entry_from_raw
entries_of end = []
entries_of (member key value rest) = with_entry key (entry_from_raw value) (entries_of rest)

unfoldable pub all_entries : Option Members → List (String × VersionCacheEntry)
unfolding entries_of
all_entries none = []
all_entries (some tools) = entries_of tools

unfoldable pub load_version_cache : Option Json → List (String × VersionCacheEntry)
unfolding all_entries tools_mapping
load_version_cache none = []
load_version_cache (some raw) = all_entries (tools_mapping raw)

unfoldable pub with_tools : Members → Option Json → Option Members
with_tools mapping none = none
with_tools mapping (some tools) = some mapping

unfoldable pub envelope : Option Json → Option Members
unfolding with_tools as_object member_of
envelope none = none
envelope (some raw) = elim (as_object raw) [
  | none ↦ none
  | some mapping ↦ with_tools mapping (member_of "tools" mapping)
]

unfoldable pub or_empty : Option Members → Members
or_empty none = end
or_empty (some members) = members

unfoldable pub existing_managers : Option Json → Members
unfolding or_empty object_in member_of envelope
existing_managers file = elim (envelope file) [
  | none ↦ end
  | some mapping ↦ or_empty (object_in (member_of "managers" mapping))
]

-- A text or null
unfoldable pub or_null : Option String → Json
or_null none = null
or_null (some s) = text s

unfoldable pub text_members : List (String × String) → Members
text_members [] = end
text_members ((key, value) ∷ rest) = member key (text value) (text_members rest)

unfoldable pub entry_json : VersionCacheEntry → Json
unfolding or_null text_members
entry_json entry = object (
    member "latest_version" (or_null entry.latest_version) (
      member "checked_at" (or_null entry.checked_at) (
        member "failed_at" (or_null entry.failed_at)
          (member "digests" (object (text_members entry.digests)) end))))

unfoldable pub entry_members : List (String × VersionCacheEntry) → Members
unfolding entry_json
entry_members [] = end
entry_members ((tool_id, entry) ∷ rest) = member tool_id (entry_json entry) (entry_members rest)

unfoldable pub kept_managers : Option Members → Option Json → Members
unfolding existing_managers
kept_managers none file = existing_managers file
kept_managers (some managers) file = managers

-- The file after a save; `managers` none keeps what the file has.
unfoldable pub save_version_cache :
    List (String × VersionCacheEntry) → Option Members → Option Json → Option Json
unfolding entry_members kept_managers
save_version_cache cache managers file = some (
    object (
      member "version" (number 1) (
        member "tools" (object (entry_members cache))
          (member "managers" (object (kept_managers managers file)) end))))
