-- ===== src/Versions/Compare/Tests.antt =====
-- Runs of installer/versions.py, and the theorems at inputs that meet their hypotheses.
use Prim.Native.Nat.{Ordering, compare}
use tools_installer.Base.{◌≡◌, refl, ◌≢◌, true, false, none, some, [], ◌∷◌, codes, leb}
use tools_installer.Versions.{Version, parse_version, parse_declared_version}
use tools_installer.Versions.Compare.{meets_minimum, is_outdated, compare_lists}
use tools_installer.Versions.Compare.Laws.{
  is_outdated-asymm, is_outdated_trans, is_outdated-equal, meets_minimum-own, meets_minimum_mono,
}

program : Unit {0}
unfolding meets_minimum is_outdated
program = tt

glued_name :
    parse_version (codes "jq-1.8.1") ≡ some (record { major = 1; minor = 8; patch = 1; rank = 1 })
unfolding program
glued_name = refl

release_candidate :
    parse_version (codes " v11.0-rc.1 (arm64)")
    ≡ some (record { major = 11; minor = 0; patch = 0; rank = 0 })
unfolding program
release_candidate = refl

unreadable :
    (parse_version (codes "11.bad") ≡ none)
    × (parse_version (codes "") ≡ none)
    × (parse_declared_version (codes "22.bad") ≡ none)
    × (parse_declared_version (codes "1.2.3.4") ≡ none)
unfolding program
unreadable = (refl, refl, refl, refl)

quoted : parse_version (codes "\"version=0.45.2\",") ≡ none
unfolding program
quoted = refl

fourth_component : is_outdated (codes "140.0.7339.16") (codes "140.0.7339.20") ≡ some true
unfolding program
fourth_component = refl

padded : (is_outdated (codes "v1.2") (codes "1.2.0") ≡ some false)
unfolding program
padded = refl

padded_back : (is_outdated (codes "1.2.0") (codes "v1.2") ≡ some false)
unfolding program
padded_back = refl

prerelease : is_outdated (codes "1.2.0-rc.1") (codes "1.2") ≡ some true
unfolding program
prerelease = refl

next_release : is_outdated (codes "1.2") (codes "1.10") ≡ some true
unfolding program
next_release = refl

is_outdated-asymm_example : is_outdated (codes "1.2") (codes "1.2.0-rc.1") ≡ some false
is_outdated-asymm_example = is_outdated-asymm (codes "1.2.0-rc.1") (codes "1.2") prerelease

is_outdated_trans_example : is_outdated (codes "1.2.0-rc.1") (codes "1.10") ≡ some true
is_outdated_trans_example =
    is_outdated_trans (codes "1.2.0-rc.1") (codes "1.2") (codes "1.10") prerelease next_release

is_outdated-equal_example :
    (is_outdated (codes "v1.2") (codes "1.10") ≡ is_outdated (codes "1.2.0") (codes "1.10"))
    × (is_outdated (codes "1.10") (codes "v1.2") ≡ is_outdated (codes "1.10") (codes "1.2.0"))
is_outdated-equal_example =
    is_outdated-equal (codes "v1.2") (codes "1.2.0") (codes "1.10") padded padded_back

abbrev rc : Version
rc = record { major = 11; minor = 0; patch = 0; rank = 0 }

floor_parsed : parse_declared_version (codes "11") ≡ some (11, 0, 0)
unfolding program
floor_parsed = refl

meets_minimum-own_example : meets_minimum (codes " v11.0-rc.1 (arm64)") (codes "11") ≡ leb 1 rc.rank
meets_minimum-own_example =
    meets_minimum-own (codes " v11.0-rc.1 (arm64)") (codes "11") rc release_candidate floor_parsed

high_parsed : parse_declared_version (codes "11.1.0") ≡ some (11, 1, 0)
unfolding program
high_parsed = refl

high_met : meets_minimum (codes "12.0.0-rc.1") (codes "11.1.0") ≡ true
unfolding program
high_met = refl

lower : compare_lists compare (11 ∷ 0 ∷ 0 ∷ []) (11 ∷ 1 ∷ 0 ∷ []) ≢ Ordering.gt
unfolding program
lower e = cc

meets_minimum_mono_example : meets_minimum (codes "12.0.0-rc.1") (codes "11") ≡ true
meets_minimum_mono_example =
    meets_minimum_mono (codes "12.0.0-rc.1") (codes "11") (codes "11.1.0") (11, 0, 0) (11, 1, 0)
      floor_parsed high_parsed lower high_met
