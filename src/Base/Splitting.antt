-- ===== src/Base/Splitting.antt =====
-- Cutting a text into lines and joining the lines are inverse to one another.
use Prim.Native.Nat.{ℕ}
use mathlib.Core.Path.{◌≡◌, refl, ap, ◌∙◌}
use mathlib.Core.Logic.{inl, inr}
use mathlib.Core.Bool.{false}
use mathlib.Core.List.{List, [], ◌∷◌, ◌++◌, append-nil}
use native.Mathlib.Omega.{arith}
use tools_installer.Base.Tests.{eqb, Bool-cases}
use tools_installer.Base.Lists.{All, All-append}
use tools_installer.Base.Lines.{Chars, cut, split_lines, following, join_lines, IsLine}

join-cut : (s : Chars) → (cut s).0 ++ following (cut s).1 ≡ s
unfolding cut following
join-cut [] = refl
join-cut (c ∷ s) = elim (Bool-cases (eqb c 10)) [
  | inl holds ↦
      let newline : 10 ≡ c = ground (arith, holds) in
      rw holds (ap (λ (l : Chars). 10 ∷ l) (join-cut s) ∙ ap (λ (x : ℕ). x ∷ s) newline)
  | inr fails ↦ rw fails (ap (λ (l : Chars). c ∷ l) (join-cut s))
]

pub join-split : (s : Chars) → join_lines (split_lines s) ≡ s
unfolding join_lines split_lines
join-split s = join-cut s

-- A line in front of a text lengthens the text's first line.
cut-append_line : (l s : Chars) → IsLine l → cut (l ++ s) ≡ (l ++ (cut s).0, (cut s).1)
unfolding cut
cut-append_line [] s h = refl
cut-append_line (c ∷ l) s h =
    let other : eqb c 10 ≡ false = ground (arith, h.0) in
    rw other (ap (λ (p : Chars × List Chars). (c ∷ p.0, p.1)) (cut-append_line l s h.1))

cut-following :
    (l : Chars) (ls : List Chars) → IsLine l → All IsLine ls → cut (l ++ following ls) ≡ (l, ls)
unfolding cut following
cut-following l [] h hs = cut-append_line l [] h ∙ ap (λ (m : Chars). (m, [])) (append-nil l)
cut-following l (m ∷ ls) h hs =
    cut-append_line l (10 ∷ (m ++ following ls)) h
    ∙ ap (λ (p : Chars × List Chars). (l ++ [], p.0 ∷ p.1)) (cut-following m ls hs.0 hs.1)
    ∙ ap (λ (k : Chars). (k, m ∷ ls)) (append-nil l)

pub split-join :
    (l : Chars) (ls : List Chars)
    → IsLine l
    → All IsLine ls
    → split_lines (join_lines (l ∷ ls)) ≡ l ∷ ls
unfolding join_lines split_lines
split-join l ls h hs = ap (λ (p : Chars × List Chars). p.0 ∷ p.1) (cut-following l ls h hs)

pub split-join_middle :
    (xs : List Chars) (l : Chars) (ys : List Chars)
    → All IsLine (xs ++ l ∷ ys)
    → split_lines (join_lines (xs ++ l ∷ ys)) ≡ xs ++ l ∷ ys
split-join_middle [] l ys h = split-join l ys h.0 h.1
split-join_middle (x ∷ xs) l ys h = split-join x (xs ++ l ∷ ys) h.0 h.1

lengthen : ℕ → List Chars → List Chars
lengthen c [] = []
lengthen c (l ∷ ls) = (c ∷ l) ∷ ls

-- A newline between two texts separates their lines.
pub split-append : (s t : Chars) → split_lines (s ++ 10 ∷ t) ≡ split_lines s ++ split_lines t
unfolding split_lines cut lengthen
split-append [] t = refl
split-append (c ∷ s) t = elim (Bool-cases (eqb c 10)) [
  | inl holds ↦ rw holds (ap (λ (ls : List Chars). [] ∷ ls) (split-append s t))
  | inr fails ↦ rw fails (ap (lengthen c) (split-append s t))
]

cut-All : (s : Chars) → IsLine (cut s).0 × All IsLine (cut s).1
unfolding cut
cut-All [] = (tt, tt)
cut-All (c ∷ s) = elim (Bool-cases (eqb c 10)) [
  | inl holds ↦ rw holds (tt, cut-All s)
  | inr fails ↦ rw fails ((ground (arith, fails), (cut-All s).0), (cut-All s).1)
]

pub split-All : (s : Chars) → All IsLine (split_lines s)
unfolding split_lines
split-All s = cut-All s

-- The lines of a text among other lines.
pub split-join_among :
    (xs : List Chars) (s : Chars) (ys : List Chars)
    → All IsLine xs
    → All IsLine ys
    → split_lines (join_lines (xs ++ (split_lines s ++ ys))) ≡ xs ++ (split_lines s ++ ys)
unfolding split_lines
split-join_among xs s ys hx hy = split-join_middle xs (cut s).0 ((cut s).1 ++ ys) (
    All-append IsLine xs (split_lines s ++ ys) hx
      (All-append IsLine (split_lines s) ys (split-All s) hy))
