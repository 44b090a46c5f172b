-- ===== src/Shellrc/Guard.antt =====
-- The lines that go into a block hold no newline and are no markers.
use tools_installer.Base.{
  ℕ, ◌≡◌, ◌≢◌, refl, arith, true, false, not, inl, inr, Option, none, some, List, [], ◌∷◌, ◌++◌,
  all, All, All-append, codes, eqb, Bool-cases, Chars, IsLine, same, split_lines, split-join,
}
use tools_installer.Shellrc.{path_begin, path_end, occurs}
use tools_installer.Shellrc.Splice.{AreMarkers}
use tools_installer.Shellrc.Block.{IsBlock}
use tools_installer.Shellrc.File.{
  quoted_glob, guard_pattern, spelled, path_export_guard, guards, managed_block,
}

-- A test of a text that runs.
pub all-IsLine : (s : Chars) → all (λ c. not (eqb c 10)) s ≡ true → IsLine s
all-IsLine [] h = tt
all-IsLine (c ∷ s) h = (ground (arith, h), all-IsLine s (ground (arith, h)))

pub around-IsLine : (s t u : Chars) → IsLine s → IsLine t → IsLine u → IsLine (s ++ (t ++ u))
around-IsLine s t u hs ht hu =
    All-append (λ (c : ℕ). c ≢ 10) s (t ++ u) hs (All-append (λ (c : ℕ). c ≢ 10) t u ht hu)

-- A look-up that never puts a newline into a path.
abbrev pub KeepsLines : (Chars → Option Chars) → Type 0
KeepsLines resolve = (d r : Chars) → IsLine d → resolve d ≡ some r → IsLine r

quoted_glob-IsLine : (s : Chars) → IsLine s → IsLine (quoted_glob s)
unfolding quoted_glob
quoted_glob-IsLine s h =
    around-IsLine (codes "*\":") s (codes ":\"*") (all-IsLine (codes "*\":") refl) h
      (all-IsLine (codes ":\"*") refl)

spelled-IsLine :
    (resolve : Chars → Option Chars)
    → KeepsLines resolve
    → (d : Chars) → IsLine d
    → (o : Option Chars) → resolve d ≡ o
    → IsLine (spelled d o)
unfolding spelled
spelled-IsLine resolve k d h none e = h
spelled-IsLine resolve k d h (some r) e = k d r h e

guard_pattern-IsLine : (d r : Chars) → IsLine d → IsLine r → IsLine (guard_pattern d r)
unfolding guard_pattern
guard_pattern-IsLine d r hd hr = elim (Bool-cases (same r d)) [
  | inl holds ↦ rw holds (quoted_glob-IsLine d hd)
  | inr fails ↦ rw fails (
      around-IsLine (quoted_glob d) (codes "|") (quoted_glob r) (quoted_glob-IsLine d hd)
        (all-IsLine (codes "|") refl) (quoted_glob-IsLine r hr))
]

pub path-AreMarkers : AreMarkers path_begin path_end
unfolding path_begin path_end same
path-AreMarkers = (refl, refl)

path_begin-IsLine : IsLine path_begin
unfolding path_begin
path_begin-IsLine = all-IsLine path_begin refl

path_end-IsLine : IsLine path_end
unfolding path_end
path_end-IsLine = all-IsLine path_end refl

module _ (resolve : Chars → Option Chars) (keeps : KeepsLines resolve) where
  guard-IsLine : (d : Chars) → IsLine d → IsLine (path_export_guard resolve d)
  unfolding path_export_guard
  guard-IsLine d h =
      around-IsLine (codes "case \":${PATH-}:\" in ") (guard_pattern d (spelled d (resolve d)))
        (codes ") ;; *) export PATH=\"" ++ (d ++ codes "${PATH:+:$PATH}\";;esac"))
        (all-IsLine (codes "case \":${PATH-}:\" in ") refl)
        (guard_pattern-IsLine d (spelled d (resolve d)) h
          (spelled-IsLine resolve keeps d h (resolve d) refl))
        (around-IsLine (codes ") ;; *) export PATH=\"") d (codes "${PATH:+:$PATH}\";;esac")
          (all-IsLine (codes ") ;; *) export PATH=\"") refl) h
          (all-IsLine (codes "${PATH:+:$PATH}\";;esac") refl))

  guards-IsLine : (dirs : List Chars) → All IsLine dirs → All IsLine (guards resolve dirs)
  unfolding guards
  guards-IsLine [] h = tt
  guards-IsLine (d ∷ dirs) h = (guard-IsLine d h.0, guards-IsLine dirs h.1)

  -- A guard begins with `case`, a marker with `#`.
  guards-lack :
      (dirs : List Chars)
      → (occurs path_begin (guards resolve dirs) ≡ false)
        × (occurs path_end (guards resolve dirs) ≡ false)
  unfolding guards occurs path_export_guard path_begin path_end same
  guards-lack [] = (refl, refl)
  guards-lack (d ∷ dirs) = guards-lack dirs

  managed-lines :
      (dirs : List Chars)
      → All IsLine dirs
      → split_lines (managed_block resolve dirs)
        ≡ path_begin ∷ (guards resolve dirs ++ path_end ∷ [])
  unfolding managed_block
  managed-lines dirs h =
      split-join path_begin (guards resolve dirs ++ path_end ∷ []) path_begin-IsLine (
        All-append IsLine (guards resolve dirs) (path_end ∷ []) (guards-IsLine dirs h)
          (path_end-IsLine, tt))

  pub managed-IsBlock :
      (dirs : List Chars)
      → All IsLine dirs
      → IsBlock path_begin path_end (managed_block resolve dirs)
  managed-IsBlock dirs h =
      (guards resolve dirs, managed-lines dirs h, (guards-lack dirs).0, (guards-lack dirs).1)
