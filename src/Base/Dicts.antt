-- ===== src/Base/Dicts.antt =====
-- Dictionaries with text keys, as association lists in the order of insertion.
use Prim.Native.String.{String}
use mathlib.Core.Path.{◌≡◌, refl}
use mathlib.Core.Option.{Option, none, some}
use mathlib.Core.List.{List, [], ◌∷◌}
use native.Mathlib.Omega.{arith}
use text.Mathlib.Text.{◌==◌}
use text.Mathlib.TextEquality.{eq_iff}
use tools_installer.Base.Tests.{if◌then◌else◌}

module _ {ℓ} {V : Type ℓ} where
  -- d.get(key)
  unfoldable pub get : String → List (String × V) → Option V
  get key [] = none
  get key ((k, v) ∷ rest) = if k == key then some v else get key rest

  -- d[key] = value
  unfoldable pub put : String → V → List (String × V) → List (String × V)
  put key value [] = (key, value) ∷ []
  put key value ((k, v) ∷ rest) =
      if k == key then (key, value) ∷ rest else (k, v) ∷ put key value rest

  -- d.setdefault(key, value)
  unfoldable pub setdefault : String → V → List (String × V) → List (String × V)
  setdefault key value [] = (key, value) ∷ []
  setdefault key value ((k, v) ∷ rest) =
      if k == key then (k, v) ∷ rest else (k, v) ∷ setdefault key value rest

  pub get-put :
      (key j : String) (value : V) (d : List (String × V))
      → get j (put key value d) ≡ (if key == j then some value else get j d)
  unfolding get put
  get-put key j value [] = refl
  get-put key j value ((k, v) ∷ rest) =
      ground (arith, eq_iff key j, eq_iff k key, eq_iff k j, get-put key j value rest)
