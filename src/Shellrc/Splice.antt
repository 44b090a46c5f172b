-- ===== src/Shellrc/Splice.antt =====
-- Where a block stands among the lines: from the last begin marker to the first end marker after it.
use tools_installer.Base.{
  ◌≡◌, refl, sym, ap, ◌∙◌, arith, false, ◌||◌, none, some, List, [], ◌∷◌, ◌++◌, Chars, same,
  same_refl, same-eq, Bool-cases, Bool-eq, ◌⊎◌, inl, inr,
}
use tools_installer.Shellrc.{occurs, keep_last, from_last, after_first, around, closed_by, block_at}

pub occurs-append :
    (b : Chars) (xs ys : List Chars) → occurs b (xs ++ ys) ≡ (occurs b xs || occurs b ys)
unfolding occurs
occurs-append b [] ys = refl
occurs-append b (x ∷ xs) ys = ground (arith, occurs-append b xs ys)

from_last_absent : (b : Chars) (ls : List Chars) → occurs b ls ≡ false → from_last b ls ≡ none
unfolding occurs from_last keep_last
from_last_absent b [] h = refl
from_last_absent b (l ∷ ls) h = elim (Bool-cases (same l b)) [
  | inl holds ↦ ground (arith, h, holds)
  | inr fails ↦ rw (from_last_absent b ls (ground (arith, h, fails))) (rw fails refl)
]

from_last-append :
    (b : Chars) (xs ys : List Chars)
    → occurs b ys ≡ false
    → from_last b (xs ++ b ∷ ys) ≡ some (xs, b ∷ ys)
unfolding from_last keep_last
from_last-append b [] ys h = rw (from_last_absent b ys h) (rw (same_refl b) refl)
from_last-append b (x ∷ xs) ys h = rw (from_last-append b xs ys h) refl

after_first-append :
    (e : Chars) (xs ys : List Chars) → occurs e xs ≡ false → after_first e (xs ++ e ∷ ys) ≡ some ys
unfolding occurs after_first
after_first-append e [] ys h = rw (same_refl e) refl
after_first-append e (x ∷ xs) ys h = elim (Bool-cases (same x e)) [
  | inl holds ↦ ground (arith, h, holds)
  | inr fails ↦ rw fails (after_first-append e xs ys (ground (arith, h, fails)))
]

pub same_comm : (s t : Chars) → same s t ≡ same t s
same_comm s t =
    Bool-eq (same s t) (same t s) (λ h. ap (λ (u : Chars). same t u) (same-eq s t h) ∙ same_refl t)
      (λ h. ap (λ (u : Chars). same s u) (same-eq t s h) ∙ same_refl s)

-- A line that occurs has a last place, and what the search from the end finds is that place.
last_place :
    (b : Chars) (ls : List Chars)
    → (occurs b ls ≡ false)
      ⊎ ((xs : List Chars) × (rest : List Chars) × (ls ≡ xs ++ b ∷ rest) × (occurs b rest ≡ false))
unfolding occurs
last_place b [] = inl refl
last_place b (l ∷ ls) = elim (last_place b ls) [
  | inr found ↦ inr (l ∷ found.0, found.1, ap (λ (k : List Chars). l ∷ k) found.2, found.3)
  | inl absent ↦ elim (Bool-cases (same l b)) [
    | inl holds ↦ inr ([], ls, ap (λ (k : Chars). k ∷ ls) (same-eq l b holds), absent)
    | inr fails ↦ inl (ground (arith, absent, fails))
  ]
]

first_place :
    (e : Chars) (ls : List Chars)
    → ((occurs e ls ≡ false) × (after_first e ls ≡ none))
      ⊎ ((xs : List Chars) × (rest : List Chars) × (ls ≡ xs ++ e ∷ rest) × (occurs e xs ≡ false))
unfolding occurs after_first
first_place e [] = inl (refl, refl)
first_place e (l ∷ ls) = elim (Bool-cases (same l e)) [
  | inl holds ↦ inr ([], ls, ap (λ (k : Chars). k ∷ ls) (same-eq l e holds), refl)
  | inr fails ↦ elim (first_place e ls) [
    | inl absent ↦ inl (ground (arith, absent.0, fails), rw fails absent.1)
    | inr found ↦ inr (
      l ∷ found.0,
      found.1,
      ap (λ (k : List Chars). l ∷ k) found.2,
      ground (arith, found.3, fails),
    )
  ]
]

-- Two markers that differ, of which the first is no empty line.
abbrev pub AreMarkers : Chars → Chars → Type 0
AreMarkers b e = (same b e ≡ false) × (same [] b ≡ false)

pub block_at-append :
    (b e : Chars) (xs body ys : List Chars)
    → AreMarkers b e
    → occurs b (body ++ e ∷ ys) ≡ false
    → occurs e body ≡ false
    → block_at b e (xs ++ b ∷ (body ++ e ∷ ys)) ≡ some (xs, ys)
unfolding block_at closed_by around after_first
block_at-append b e xs body ys m hb he =
    rw (from_last-append b xs (body ++ e ∷ ys) hb)
      (rw (m.0) (rw (after_first-append e body ys he) refl))

-- A text either has no closed block, or is made of what stands before it, the block, and the rest.
pub block_at-cases :
    (b e : Chars) (ls : List Chars)
    → AreMarkers b e
    → (block_at b e ls ≡ none)
      ⊎ ((xs : List Chars) × (body : List Chars) × (ys : List Chars) × (ls
            ≡ xs ++ b ∷ (body ++ e ∷ ys))
          × (occurs b (body ++ e ∷ ys) ≡ false)
          × (occurs e body ≡ false))
unfolding block_at closed_by around after_first
block_at-cases b e ls m = elim (last_place b ls) [
  | inl absent ↦ inl (rw (from_last_absent b ls absent) refl)
  | inr found ↦ elim (first_place e found.1) [
    | inl unclosed ↦ inl (
        ap (block_at b e) found.2
        ∙ rw (from_last-append b found.0 found.1 found.3) (rw (m.0) (rw (unclosed.1) refl)))
    | inr shut ↦ inr (
      found.0,
      shut.0,
      shut.1,
      found.2 ∙ ap (λ (k : List Chars). found.0 ++ b ∷ k) shut.2,
      ap (occurs b) (sym shut.2) ∙ found.3,
      shut.3,
    )
  ]
]
