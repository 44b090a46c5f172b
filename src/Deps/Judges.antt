-- ===== src/Deps/Judges.antt =====
-- What a call of `is_blocked` of installer/deps.py does to its state.
use tools_installer.Base.{
  ℕ, String, ◌≡◌, Bool, true, false, ◌⊎◌, Option, none, some, List, is_some, contains, Subset, get,
}
use tools_installer.Model.{Tool}
use tools_installer.Deps.{by_id, Blocking, Result, ok}
use tools_installer.Deps.Blockable.{Registered, Blockable, Chain}

module _ (catalog : List Tool) (available is_installed : Tool → Bool) where
  -- Why `u` is in the blocked set, as `blocked_needs` tells it.
  abbrev pub Reason : Blocking → Tool → Type 0
  Reason s u =
      ((get u.id s.blocked_needs ≡ some none) × (available u ≡ false))
      ⊎ ((d : String) × (get u.id s.blocked_needs ≡ some (some d))
          × (available u ≡ true)
          × (contains d u.requires ≡ true)
          × (v : Tool) × (by_id catalog d ≡ some v)
          × (contains d s.blocked ≡ true))

  -- Every tool in the blocked set cannot be provided, and its reason is on record.
  abbrev pub Justified : Blocking → Type 0
  Justified s =
      (u : Tool)
      → Registered catalog u
      → contains u.id s.blocked ≡ true
      → Blockable catalog available is_installed u × Reason s u

  -- What one call of `is_blocked` on `t` does.
  pub record Judges (t : Tool) (s : Blocking) (r : Result (Bool × Blocking)) : Type 0 where
    pub answer : Bool
    pub after : Blocking
    pub returns : r ≡ ok (answer, after)
    pub visiting_eq : after.visiting ≡ s.visiting
    pub grows : Subset s.blocked after.blocked
    pub recorded : answer ≡ true → contains t.id after.blocked ≡ true
    pub sound : Justified s → Justified after
    pub complete : (n : ℕ) → Chain catalog available is_installed s.visiting n t → answer ≡ true

  -- What the search of a tool's dependencies `ds` does.
  pub record Finds (ds : List String) (s : Blocking) (r : Result (Option String × Blocking))
      : Type 0 where
    pub needs : Option String
    pub after : Blocking
    pub returns : r ≡ ok (needs, after)
    pub visiting_eq : after.visiting ≡ s.visiting
    pub grows : Subset s.blocked after.blocked
    pub sound : Justified s → Justified after
    pub found :
        (d : String)
        → needs ≡ some d
        → (contains d ds ≡ true)
          × ((u : Tool) × (by_id catalog d ≡ some u) × (contains d after.blocked ≡ true))
    pub complete :
        (d : String) (u : Tool) (n : ℕ)
        → contains d ds ≡ true
        → by_id catalog d ≡ some u
        → Chain catalog available is_installed s.visiting n u
        → is_some needs ≡ true
