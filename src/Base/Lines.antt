-- ===== src/Base/Lines.antt =====
-- Texts as code points, cut into lines at the newline and put together again.
use Prim.Native.Nat.{ℕ}
use mathlib.Core.Path.{◌≡◌, refl, ap, ◌∙◌}
use mathlib.Core.Logic.{◌≢◌, inl, inr}
use mathlib.Core.Bool.{Bool, true, false, ◌&&◌}
use mathlib.Core.List.{List, [], ◌∷◌, ◌++◌}
use native.Mathlib.Omega.{arith}
use tools_installer.Base.Tests.{eqb, Bool-cases, if◌then◌else◌}
use tools_installer.Base.Lists.{All}

-- A text as the list of its code points.
abbrev pub Chars : Type 0
Chars = List ℕ

-- `s == t` for texts.
unfoldable pub same : Chars → Chars → Bool
same [] [] = true
same [] (d ∷ t) = false
same (c ∷ s) [] = false
same (c ∷ s) (d ∷ t) = eqb c d && same s t

pub same_refl : (s : Chars) → same s s ≡ true
unfolding same
same_refl [] = refl
same_refl (c ∷ s) = ground (arith, same_refl s)

pub same-eq : (s t : Chars) → same s t ≡ true → s ≡ t
unfolding same
same-eq [] [] h = refl
same-eq [] (d ∷ t) h = ground (arith, h)
same-eq (c ∷ s) [] h = ground (arith, h)
same-eq (c ∷ s) (d ∷ t) h = elim (Bool-cases (eqb c d)) [
  | inl holds ↦
      let first : c ≡ d = ground arith in
      let rest : s ≡ t = same-eq s t (ground (arith, h, holds)) in
      ap (λ (x : ℕ). x ∷ s) first ∙ ap (λ (l : Chars). d ∷ l) rest
  | inr fails ↦ ground (arith, h, fails)
]

-- The first line of a text, and the others.
unfoldable pub cut : Chars → Chars × List Chars
cut [] = ([], [])
cut (c ∷ s) = let rest = cut s in if eqb c 10 then ([], rest.0 ∷ rest.1) else (c ∷ rest.0, rest.1)

-- text.split("\n")
unfoldable pub split_lines : Chars → List Chars
unfolding cut
split_lines s = (cut s).0 ∷ (cut s).1

unfoldable pub following : List Chars → Chars
following [] = []
following (l ∷ ls) = 10 ∷ (l ++ following ls)

-- "\n".join(lines)
unfoldable pub join_lines : List Chars → Chars
unfolding following
join_lines [] = []
join_lines (l ∷ ls) = l ++ following ls

-- A text without a newline.
abbrev pub IsLine : Chars → Type 0
IsLine = All (λ (c : ℕ). c ≢ 10)
