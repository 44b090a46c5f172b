-- ===== src/VersionCache.antt =====
-- installer/version_cache.py: the cache file of the latest versions, as the value that `json` reads
-- and writes. A file that is missing or is no JSON reads as `none`. The keys of an object differ; a
-- set of names is the list of its members in order.
pub mod Codec
pub mod Snapshot
mod Reads
mod Snapshots
mod Clock
mod Tests
use tools_installer.Base.{
  ℕ, String, Bool, true, false, ◌&&◌, ◌||◌, Option, none, some, List, [], ◌∷◌, ◌==◌, if◌then◌else◌,
  length, eqb, leb, all, codes, is_digit,
}

mutual
  pub data Json : Type 0 where
    null : Json
    boolean : Bool → Json
    number : ℕ → Json
    text : String → Json
    array : Items → Json
    object : Members → Json

  pub data Items : Type 0 where
    nil : Items
    item : Json → Items → Items

  pub data Members : Type 0 where
    end : Members
    member : String → Json → Members → Members

pub record VersionCacheEntry : Type 0 where
  pub latest_version : Option String
  pub checked_at : Option String
  pub failed_at : Option String
  pub digests : List (String × String)

pub record ManagerVersion : Type 0 where
  pub current : Option String
  pub latest : String

pub record ManagerInventory : Type 0 where
  pub brew_formulae : Option (List (String × String))
  pub brew_casks : Option (List (String × String))
  pub pnpm_globals : Option (List String)
  pub uv_tools : Option (List (String × String))
  pub brew_prefix : Option String

pub record OutdatedReport : Type 0 where
  pub brew : Option (List (String × ManagerVersion))
  pub cask : Option (List (String × ManagerVersion))
  pub pnpm : Option (List (String × ManagerVersion))
  pub uv : Option (List (String × ManagerVersion))
  pub greedy : Option (List String)

pub record ManagerSnapshot : Type 0 where
  pub inventory : ManagerInventory
  pub report : OutdatedReport
  pub checked_at : Option String
  pub failed_at : Option String

-- mapping.get(key)
unfoldable pub member_of : String → Members → Option Json
member_of key end = none
member_of key (member k value rest) = if k == key then some value else member_of key rest

-- `_as_object`
unfoldable pub as_object : Json → Option Members
as_object (object members) = some members
as_object _ = none

-- `as_object(mapping.get(key))`
unfoldable pub object_in : Option Json → Option Members
unfolding as_object
object_in none = none
object_in (some value) = as_object value

-- `_SHA256_HEX`
unfoldable pub is_hex : ℕ → Bool
unfolding is_digit
is_hex c = is_digit c || (leb b'a' c && leb c b'f')

unfoldable pub is_sha256 : String → Bool
unfolding is_hex
is_sha256 digest = eqb (length (codes digest)) 64 && all is_hex (codes digest)

unfoldable pub digest_value : Json → Option String
unfolding is_sha256
digest_value (text digest) = if is_sha256 digest then some digest else none
digest_value _ = none

-- `digests[key] = value`, where the pair is good
unfoldable pub with_digest :
    String → Option String → List (String × String) → List (String × String)
with_digest key none rest = rest
with_digest key (some digest) rest = (key, digest) ∷ rest

unfoldable pub digests_of : Members → List (String × String)
unfolding with_digest digest_value
digests_of end = []
digests_of (member key value rest) = with_digest key (digest_value value) (digests_of rest)

unfoldable pub digests_from_raw : Option Json → List (String × String)
unfolding digests_of object_in
digests_from_raw raw = elim (object_in raw) [ none ↦ [] | some members ↦ digests_of members ]

-- `_str_field`: a missing one and `null` are None; none where it is neither a text nor null.
unfoldable pub str_field : Option Json → Option (Option String)
str_field none = some none
str_field (some null) = some none
str_field (some (text s)) = some (some s)
str_field (some _) = none

unfoldable pub checked_entry :
    Option (Option String)
    → Option (Option String)
    → Option (Option String)
    → List (String × String)
    → Option VersionCacheEntry
checked_entry (some latest) (some checked) (some failed) digests = some (record {
  latest_version = latest;
  checked_at = checked;
  failed_at = failed;
  digests = digests;
})
checked_entry _ _ _ digests = none

unfoldable pub entry_of : Members → Option VersionCacheEntry
unfolding checked_entry str_field digests_from_raw member_of
entry_of members =
    checked_entry (str_field (member_of "latest_version" members))
      (str_field (member_of "checked_at" members)) (str_field (member_of "failed_at" members))
      (digests_from_raw (member_of "digests" members))

unfoldable pub entry_from_raw : Json → Option VersionCacheEntry
unfolding entry_of as_object
entry_from_raw raw = elim (as_object raw) [ none ↦ none | some members ↦ entry_of members ]
