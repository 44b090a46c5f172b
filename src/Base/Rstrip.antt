-- ===== src/Base/Rstrip.antt =====
-- What the end of a text may hold without a change to the text that `rstrip` leaves.
use Prim.Native.Nat.{ℕ}
use mathlib.Core.Path.{◌≡◌, refl, ap, ◌∙◌}
use mathlib.Core.Logic.{inl, inr}
use mathlib.Core.Bool.{Bool, true}
use mathlib.Core.List.{List, [], ◌∷◌, ◌++◌, reverse, reverse-append, reverse-reverse}
use tools_installer.Base.Tests.{Bool-cases}
use tools_installer.Base.Text.{drop_while, rstrip}

module _ (p : ℕ → Bool) where
  drop_while_idem : (s : List ℕ) → drop_while p (drop_while p s) ≡ drop_while p s
  unfolding drop_while
  drop_while_idem [] = refl
  drop_while_idem (c ∷ s) = elim (Bool-cases (p c)) [
    | inl holds ↦ rw holds (drop_while_idem s)
    | inr fails ↦ rw fails (rw fails refl)
  ]

  pub rstrip_idem : (s : List ℕ) → rstrip p (rstrip p s) ≡ rstrip p s
  unfolding rstrip
  rstrip_idem s =
      ap (λ (t : List ℕ). reverse (drop_while p t)) (reverse-reverse (drop_while p (reverse s)))
      ∙ ap reverse (drop_while_idem (reverse s))

  pub rstrip-snoc : (s : List ℕ) (c : ℕ) → p c ≡ true → rstrip p (s ++ c ∷ []) ≡ rstrip p s
  unfolding rstrip drop_while
  rstrip-snoc s c h = rw (reverse-append s (c ∷ [])) (rw h refl)
