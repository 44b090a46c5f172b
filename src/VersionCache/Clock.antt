-- ===== src/VersionCache/Clock.antt =====
-- installer/version_cache.py: when a look-up is due. Times are seconds; `fromisoformat` reads a
-- timestamp with a zone as its seconds in UTC, and is none for any other text.
use tools_installer.Base.{
  ℕ, String, ◌≡◌, ◌≤◌, ◌+◌, refl, arith, Bool, true, false, not, ◌&&◌, ◌||◌, Option, none, some,
  ltb, leb, if◌then◌else◌, Bool-cases, inl, inr,
}
use tools_installer.VersionCache.{VersionCacheEntry, ManagerSnapshot}

abbrev pub future_skew : ℕ
future_skew = 300

abbrev pub stale_after : ℕ
stale_after = 604800

abbrev pub retry_backoff : ℕ
retry_backoff = 21600

abbrev pub manager_stale_after : ℕ
manager_stale_after = 21600

abbrev pub manager_retry_backoff : ℕ
manager_retry_backoff = 1800

-- A time too far ahead is no usable one.
unfoldable pub usable : ℕ → Option ℕ → Option ℕ
usable now none = none
usable now (some time) = if ltb (now + future_skew) time then none else some time

-- `now - time >= limit`, where a time that is not usable counts as long ago
unfoldable pub is_past : ℕ → ℕ → Option ℕ → Bool
is_past limit now none = true
is_past limit now (some time) = leb (time + limit) now

-- A time that holds a look-up back: from five minutes before it until `limit` after.
abbrev pub holds : ℕ → ℕ → Option ℕ → Bool
holds limit now none = false
holds limit now (some time) = leb time (now + future_skew) && ltb now (time + limit)

-- A time no more than five minutes after `now`.
abbrev pub IsUsableAt : ℕ → Option ℕ → Type 0
IsUsableAt now none = Unit
IsUsableAt now (some time) = time ≤ now + future_skew

is_past-holds :
    (limit now : ℕ) (time : Option ℕ)
    → is_past limit now (usable now time) ≡ not (holds limit now time)
unfolding is_past usable
is_past-holds limit now none = refl
is_past-holds limit now (some time) = elim (Bool-cases (ltb (now + future_skew) time)) [
  | inl ahead ↦ rw ahead (ground (arith, ahead))
  | inr fine ↦ rw fine (ground (arith, fine))
]

is_past_later :
    (limit now later : ℕ) (time : Option ℕ)
    → IsUsableAt now time
    → limit ≤ stale_after
    → now + future_skew + stale_after ≤ later
    → is_past limit later (usable later time) ≡ true
unfolding is_past usable
is_past_later limit now later none u l h = refl
is_past_later limit now later (some time) u l h =
    elim (Bool-cases (ltb (later + future_skew) time)) [
      | inl ahead ↦ rw ahead refl
      | inr fine ↦ rw fine (ground (arith, u, l, h))
    ]

module _ (fromisoformat : String → Option ℕ) where
  unfoldable pub parse_iso : Option String → ℕ → Option ℕ
  unfolding usable
  parse_iso none now = none
  parse_iso (some value) now = usable now (fromisoformat value)

  unfoldable pub is_stale : Option VersionCacheEntry → ℕ → Bool
  unfolding is_past parse_iso
  is_stale none now = true
  is_stale (some entry) now = is_past stale_after now (parse_iso entry.checked_at now)

  unfoldable pub should_fetch : Option VersionCacheEntry → ℕ → Bool
  unfolding is_stale is_past parse_iso
  should_fetch none now = true
  should_fetch (some entry) now =
      if not (is_stale (some entry) now)
      then false
      else is_past retry_backoff now (parse_iso entry.failed_at now)

  unfoldable pub is_manager_stale : Option ManagerSnapshot → ℕ → Bool
  unfolding is_past parse_iso
  is_manager_stale none now = true
  is_manager_stale (some snapshot) now =
      is_past manager_stale_after now (parse_iso snapshot.checked_at now)

  unfoldable pub should_fetch_managers : Option ManagerSnapshot → ℕ → Bool
  unfolding is_manager_stale is_past parse_iso
  should_fetch_managers none now = true
  should_fetch_managers (some snapshot) now =
      if not (is_manager_stale (some snapshot) now)
      then false
      else is_past manager_retry_backoff now (parse_iso snapshot.failed_at now)

  abbrev pub time_of : Option String → Option ℕ
  time_of none = none
  time_of (some value) = fromisoformat value

  parse_iso-usable :
      (stamp : Option String) (now : ℕ) → parse_iso stamp now ≡ usable now (time_of stamp)
  unfolding parse_iso usable
  parse_iso-usable none now = refl
  parse_iso-usable (some value) now = refl

  -- A look-up of a release is held back exactly while one of the entry's timestamps holds it back,
  -- a successful one for seven days and a failed one for six hours, where a timestamp that is more
  -- than five minutes ahead does not count. An entry whose timestamps are no more than five minutes
  -- ahead is looked up again at every time that is seven days and five minutes later or more.
  -- Without an entry it is looked up.
  pub should_fetch-bounds :
      (entry : VersionCacheEntry) (now later : ℕ)
      → now + future_skew + stale_after ≤ later
      → (should_fetch none now ≡ true)
        × (should_fetch (some entry) now
            ≡ not (
                holds stale_after now (time_of entry.checked_at)
                || holds retry_backoff now (time_of entry.failed_at)))
        × (IsUsableAt now (time_of entry.checked_at)
            → IsUsableAt now (time_of entry.failed_at)
            → should_fetch (some entry) later ≡ true)
  unfolding should_fetch is_stale
  should_fetch-bounds entry now later h =
      rw
        (
          parse_iso-usable entry.checked_at now,
          parse_iso-usable entry.failed_at now,
          parse_iso-usable entry.checked_at later,
          parse_iso-usable entry.failed_at later,
        )
        (
          refl,
          ground (
            arith,
            is_past-holds stale_after now (time_of entry.checked_at),
            is_past-holds retry_backoff now (time_of entry.failed_at),
          ),
          λ hc hf. ground (
            arith,
            is_past_later stale_after now later (time_of entry.checked_at),
            is_past_later retry_backoff now later (time_of entry.failed_at),
            hc,
            hf,
            h,
          ),
        )
