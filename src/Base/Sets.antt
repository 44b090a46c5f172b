-- ===== src/Base/Sets.antt =====
-- Sets of texts, kept as lists in the order of insertion.
use Prim.Native.Nat.{ℕ, ◌≤◌, ◌<◌}
use Prim.Native.String.{String}
use mathlib.Core.Path.{◌≡◌, refl, ap}
use mathlib.Core.Logic.{inl, inr}
use mathlib.Core.Bool.{Bool, true, false, not, ◌||◌, ◌&&◌}
use mathlib.Core.List.{List, [], ◌∷◌, ◌++◌}
use native.Mathlib.Omega.{arith}
use text.Mathlib.Text.{◌==◌}
use text.Mathlib.TextEquality.{eq_iff}
use text.Mathlib.TextPositions.{eq_refl}
use tools_installer.Base.Tests.{if◌then◌else◌, Bool-cases}
use tools_installer.Base.Lists.{length, filter}

-- `x in xs` for a set or list of texts.
unfoldable pub contains : String → List String → Bool
contains x [] = false
contains x (y ∷ ys) = y == x || contains x ys

pub contains-append :
    (x : String) (xs ys : List String) → contains x (xs ++ ys) ≡ (contains x xs || contains x ys)
unfolding contains
contains-append x [] ys = refl
contains-append x (y ∷ xs) ys = ground (arith, contains-append x xs ys)

-- No text twice.
abbrev pub Distinct : List String → Type 0
Distinct [] = Unit
Distinct (x ∷ xs) = (contains x xs ≡ false) × Distinct xs

pub Distinct-snoc :
    (xs : List String) (x : String) → Distinct xs → contains x xs ≡ false → Distinct (xs ++ x ∷ [])
unfolding contains
Distinct-snoc [] x d h = (refl, tt)
Distinct-snoc (y ∷ xs) x d h = (
  ground (arith, contains-append y xs (x ∷ []), eq_iff x y, eq_iff y x),
  Distinct-snoc xs x d.1 (ground arith),
)

abbrev pub Subset : List String → List String → Type 0
Subset xs ys = (x : String) → contains x xs ≡ true → contains x ys ≡ true

pub Subset-cons : (x : String) (xs : List String) → Subset xs (x ∷ xs)
unfolding contains
Subset-cons x xs y h = ground arith

pub contains-cons_self : (x : String) (xs : List String) → contains x (x ∷ xs) ≡ true
unfolding contains
contains-cons_self x xs = ground (arith, eq_refl x)

-- `xs.discard(x)`
unfoldable pub discard : String → List String → List String
discard x = filter (λ y. not (y == x))

pub discard-cons : (x : String) (xs : List String) → contains x xs ≡ false → discard x xs ≡ xs
unfolding contains discard
discard-cons x [] h = refl
discard-cons x (y ∷ xs) h =
    ground
      (arith, discard-cons x xs, ap (λ (l : List String). y ∷ l) (discard-cons x xs (ground arith)))

pub discard-cons_self :
    (x : String) (xs : List String) → contains x xs ≡ false → discard x (x ∷ xs) ≡ xs
unfolding discard
discard-cons_self x xs h = ground (arith, eq_refl x, discard-cons x xs h)

-- How many of `universe` are not in `xs`: what bounds the depth of a search that marks its nodes.
unfoldable pub missing : List String → List String → ℕ
missing universe xs = length (filter (λ u. not (contains u xs)) universe)

pub missing_mono :
    (universe xs ys : List String) → Subset xs ys → missing universe ys ≤ missing universe xs
unfolding missing
missing_mono [] xs ys h = omega arith
missing_mono (u ∷ us) xs ys h = ground (arith, h u, missing_mono us xs ys h)

-- One more element of `universe` makes fewer missing.
pub missing-lt :
    (universe xs ys : List String) (x : String)
    → Subset xs ys
    → contains x universe ≡ true
    → contains x xs ≡ false
    → contains x ys ≡ true
    → missing universe ys < missing universe xs
unfolding missing contains
missing-lt [] xs ys x h i o n = cc
missing-lt (u ∷ us) xs ys x h i o n =
    ground (arith, eq_iff u x, h u, missing-lt us xs ys x h, missing_mono us xs ys h)

pub missing-le-length : (universe xs : List String) → missing universe xs ≤ length universe
unfolding missing
missing-le-length [] xs = omega arith
missing-le-length (u ∷ us) xs = ground (arith, missing-le-length us xs)

-- The texts of `xs` that are not in `seen`, each once, in the order of their first places.
unique_from : List String → List String → List String
unfolding contains
unique_from seen [] = []
unique_from seen (x ∷ xs) =
    let rest = unique_from (x ∷ seen) xs in if contains x seen then rest else x ∷ rest

-- tuple(dict.fromkeys(xs))
unfoldable pub unique : List String → List String
unfolding unique_from
unique xs = unique_from [] xs

contains-unique_from :
    (d : String) (seen xs : List String)
    → contains d xs ≡ true
    → contains d seen ≡ false
    → contains d (unique_from seen xs) ≡ true
unfolding unique_from contains
contains-unique_from d seen [] h n = h
contains-unique_from d seen (x ∷ xs) h n =
    ground (arith, eq_iff x d, contains-unique_from d (x ∷ seen) xs)

pub contains-unique :
    (d : String) (xs : List String) → contains d xs ≡ true → contains d (unique xs) ≡ true
unfolding unique contains
contains-unique d xs h = contains-unique_from d [] xs h refl

contains-unique_from_exact :
    (d : String) (seen xs : List String)
    → contains d (unique_from seen xs) ≡ (contains d xs && not (contains d seen))
unfolding unique_from contains
contains-unique_from_exact d seen [] = refl
contains-unique_from_exact d seen (x ∷ xs) = ground (
  arith,
  eq_iff x d,
  contains-unique_from_exact d (x ∷ seen) xs,
  contains-unique_from_exact d seen xs,
)

unique_from-Distinct : (seen xs : List String) → Distinct (unique_from seen xs)
unfolding unique_from contains
unique_from-Distinct seen [] = tt
unique_from-Distinct seen (x ∷ xs) = elim (Bool-cases (contains x seen)) [
  | inl holds ↦ rw holds (unique_from-Distinct (x ∷ seen) xs)
  | inr fails ↦ rw fails (
    ground (arith, contains-unique_from_exact x (x ∷ seen) xs, eq_refl x),
    unique_from-Distinct (x ∷ seen) xs,
  )
]

-- The same texts, each once.
pub contains-unique_exact : (d : String) (xs : List String) → contains d (unique xs) ≡ contains d xs
unfolding unique contains
contains-unique_exact d xs = ground (arith, contains-unique_from_exact d [] xs)

pub unique-Distinct : (xs : List String) → Distinct (unique xs)
unfolding unique
unique-Distinct xs = unique_from-Distinct [] xs
