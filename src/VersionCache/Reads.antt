-- ===== src/VersionCache/Reads.antt =====
-- What is written into the cache file is read back.
use tools_installer.Base.{
  ◌≡◌, refl, ap, String, true, Option, none, some, List, [], ◌∷◌, All, Bool-cases, inl, inr,
}
use tools_installer.VersionCache.{
  Json, null, boolean, number, text, array, object, Members, end, member, VersionCacheEntry,
  member_of, as_object, object_in, is_sha256, digest_value, with_digest, digests_of,
  digests_from_raw, str_field, checked_entry, entry_of, entry_from_raw,
}
use tools_installer.VersionCache.Codec.{
  tools_in, tools_mapping, with_entry, entries_of, all_entries, load_version_cache, with_tools,
  envelope, or_empty, existing_managers, or_null, text_members, entry_json, entry_members,
  kept_managers, save_version_cache,
}

-- An entry whose digests are all SHA-256 in lower case.
abbrev pub IsEntry : VersionCacheEntry → Type 0
IsEntry entry = All (λ (d : String × String). is_sha256 d.1 ≡ true) entry.digests

str_field-or_null : (s : Option String) → str_field (some (or_null s)) ≡ some s
unfolding str_field or_null
str_field-or_null none = refl
str_field-or_null (some s) = refl

digests-read :
    (digests : List (String × String))
    → All (λ (d : String × String). is_sha256 d.1 ≡ true) digests
    → digests_of (text_members digests) ≡ digests
unfolding digests_of text_members with_digest digest_value
digests-read [] h = refl
digests-read (d ∷ rest) h =
    rw (h.0) (ap (λ (l : List (String × String)). d ∷ l) (digests-read rest h.1))

entry-read :
    (entry : VersionCacheEntry) → IsEntry entry → entry_from_raw (entry_json entry) ≡ some entry
unfolding entry_from_raw entry_json entry_of member_of as_object checked_entry digests_from_raw
    object_in
entry-read entry h = rw (str_field-or_null entry.latest_version) (
    rw (str_field-or_null entry.checked_at)
      (rw (str_field-or_null entry.failed_at) (rw (digests-read entry.digests h) refl)))

entries-read :
    (cache : List (String × VersionCacheEntry))
    → All (λ (e : String × VersionCacheEntry). IsEntry e.1) cache
    → entries_of (entry_members cache) ≡ cache
unfolding entries_of entry_members with_entry
entries-read [] h = refl
entries-read (e ∷ rest) h =
    rw (entry-read e.1 h.0)
      (ap (λ (l : List (String × VersionCacheEntry)). e ∷ l) (entries-read rest h.1))

tools-read :
    (cache : List (String × VersionCacheEntry)) (managers : Option Members) (file : Option Json)
    → All (λ (e : String × VersionCacheEntry). IsEntry e.1) cache
    → load_version_cache (save_version_cache cache managers file) ≡ cache
unfolding load_version_cache all_entries save_version_cache tools_mapping tools_in as_object
    member_of
tools-read cache managers file h = entries-read cache h

managers-read :
    (cache : List (String × VersionCacheEntry)) (managers : Option Members) (file : Option Json)
    → existing_managers (save_version_cache cache managers file) ≡ kept_managers managers file
unfolding existing_managers kept_managers save_version_cache envelope with_tools as_object member_of
    or_empty object_in
managers-read cache managers file = refl

-- What is saved is loaded again, where the digests of its entries are all SHA-256 in lower case;
-- and the managers in the file are the ones given, or, where none are given, the ones that the file
-- had before.
pub load_version_cache-save_version_cache :
    (cache : List (String × VersionCacheEntry)) (managers : Option Members) (file : Option Json)
    → All (λ (e : String × VersionCacheEntry). IsEntry e.1) cache
    → (load_version_cache (save_version_cache cache managers file) ≡ cache)
      × ((given : Members) → existing_managers (save_version_cache cache (some given) file) ≡ given)
      × (existing_managers (save_version_cache cache none file) ≡ existing_managers file)
unfolding kept_managers
load_version_cache-save_version_cache cache managers file h = (
  tools-read cache managers file h,
  λ given. managers-read cache (some given) file,
  managers-read cache none file,
)

-- A predicate on the value, where there is one.
abbrev OnSome : (VersionCacheEntry → Type 0) → Option VersionCacheEntry → Type 0
OnSome P none = Unit
OnSome P (some a) = P a

with_digest-All :
    (key : String) (value : Json) (rest : List (String × String))
    → All (λ (d : String × String). is_sha256 d.1 ≡ true) rest
    → All
        (λ (d : String × String). is_sha256 d.1 ≡ true)
        (with_digest key (digest_value value) rest)
unfolding with_digest digest_value
with_digest-All key (text digest) rest h = elim (Bool-cases (is_sha256 digest)) [
  | inl holds ↦ rw holds (holds, h)
  | inr fails ↦ rw fails h
]
with_digest-All key null rest h = h
with_digest-All key (boolean b) rest h = h
with_digest-All key (number n) rest h = h
with_digest-All key (array items) rest h = h
with_digest-All key (object members) rest h = h

-- What is loaded has good digests only.
digests-All :
    (members : Members) → All (λ (d : String × String). is_sha256 d.1 ≡ true) (digests_of members)
unfolding digests_of
digests-All end = tt
digests-All (member key value rest) = with_digest-All key value (digests_of rest) (digests-All rest)

checked_entry-IsEntry :
    (latest checked failed : Option (Option String)) (digests : List (String × String))
    → All (λ (d : String × String). is_sha256 d.1 ≡ true) digests
    → OnSome IsEntry (checked_entry latest checked failed digests)
unfolding checked_entry
checked_entry-IsEntry (some latest) (some checked) (some failed) digests h = h
checked_entry-IsEntry none checked failed digests h = tt
checked_entry-IsEntry (some latest) none failed digests h = tt
checked_entry-IsEntry (some latest) (some checked) none digests h = tt

digests_raw-All :
    (raw : Option Json) → All (λ (d : String × String). is_sha256 d.1 ≡ true) (digests_from_raw raw)
unfolding digests_from_raw object_in as_object
digests_raw-All none = tt
digests_raw-All (some (object members)) = digests-All members
digests_raw-All (some null) = tt
digests_raw-All (some (boolean b)) = tt
digests_raw-All (some (number n)) = tt
digests_raw-All (some (text t)) = tt
digests_raw-All (some (array items)) = tt

from_raw-IsEntry : (raw : Json) → OnSome IsEntry (entry_from_raw raw)
unfolding entry_from_raw entry_of as_object
from_raw-IsEntry (object members) =
    checked_entry-IsEntry (str_field (member_of "latest_version" members))
      (str_field (member_of "checked_at" members)) (str_field (member_of "failed_at" members))
      (digests_from_raw (member_of "digests" members))
      (digests_raw-All (member_of "digests" members))
from_raw-IsEntry null = tt
from_raw-IsEntry (boolean b) = tt
from_raw-IsEntry (number n) = tt
from_raw-IsEntry (text t) = tt
from_raw-IsEntry (array items) = tt

with_entry-All :
    (key : String) (o : Option VersionCacheEntry) (rest : List (String × VersionCacheEntry))
    → OnSome IsEntry o
    → All (λ (e : String × VersionCacheEntry). IsEntry e.1) rest
    → All (λ (e : String × VersionCacheEntry). IsEntry e.1) (with_entry key o rest)
unfolding with_entry
with_entry-All key none rest h hs = hs
with_entry-All key (some entry) rest h hs = (h, hs)

entries-All :
    (members : Members) → All (λ (e : String × VersionCacheEntry). IsEntry e.1) (entries_of members)
unfolding entries_of
entries-All end = tt
entries-All (member key value rest) =
    with_entry-All key (entry_from_raw value) (entries_of rest) (from_raw-IsEntry value)
      (entries-All rest)

all_entries-All :
    (tools : Option Members)
    → All (λ (e : String × VersionCacheEntry). IsEntry e.1) (all_entries tools)
unfolding all_entries
all_entries-All none = tt
all_entries-All (some members) = entries-All members

pub load-IsEntry :
    (file : Option Json)
    → All (λ (e : String × VersionCacheEntry). IsEntry e.1) (load_version_cache file)
unfolding load_version_cache
load-IsEntry none = tt
load-IsEntry (some raw) = all_entries-All (tools_mapping raw)
