-- ===== src/Shellrc/Written.antt =====
-- The PATH block in a shell file: what a second run does.
use tools_installer.Base.{
  ◌≡◌, refl, sym, ap, ◌∙◌, arith, true, false, inl, inr, ◌⊎◌, Option, none, some, List, [], ◌∷◌,
  ◌++◌, All, Bool-cases, Chars, IsLine, same_refl, split_lines, split-join_among, split-All,
  All-append_left, All-append_right, subst,
}
use tools_installer.Shellrc.{path_begin, path_end, occurs, apply_block}
use tools_installer.Shellrc.Splice.{occurs-append}
use tools_installer.Shellrc.Block.{IsBlock, Hosts, apply-Hosts, apply_block-Hosts}
use tools_installer.Shellrc.File.{
  managed_block, is_later_block, one_more, before_later, first_path_block, apply_path_block,
  existing, write_myshellrc, has_managed_block,
}
use tools_installer.Shellrc.Guard.{KeepsLines, path-AreMarkers, managed-IsBlock}

later_place :
    (ls : List Chars)
    → (before_later ls ≡ none)
      ⊎ ((xs : List Chars) × (ys : List Chars) × (ls ≡ xs ++ ys)
          × (before_later ls ≡ some (xs, ys)))
unfolding before_later one_more
later_place [] = inl refl
later_place (l ∷ ls) = elim (Bool-cases (is_later_block l)) [
  | inl holds ↦ inr ([], l ∷ ls, refl, rw holds refl)
  | inr fails ↦ elim (later_place ls) [
    | inl absent ↦ inl (rw fails (rw absent refl))
    | inr found ↦
        inr (
          l ∷ found.0,
          found.1,
          ap (λ (k : List Chars). l ∷ k) found.2,
          rw fails (rw (found.3) refl),
        )
  ]
]

begins_there : (rest : List Chars) → occurs path_begin (path_begin ∷ rest) ≡ true
unfolding occurs
begins_there rest = ground (arith, same_refl path_begin)

later_free :
    (xs ys : List Chars)
    → occurs path_begin (xs ++ ys) ≡ false
    → occurs path_begin ([] ∷ ys) ≡ false
unfolding occurs
later_free xs ys h = ground (arith, occurs-append path_begin xs ys, h, path-AreMarkers.1)

module _ (block : Chars) (w : IsBlock path_begin path_end block) where
  hosted-occurs :
      (content : Chars) (xs ys : List Chars)
      → Hosts path_begin content block xs ys
      → occurs path_begin (split_lines content) ≡ true
  hosted-occurs content xs ys h =
      ap (occurs path_begin) (h.0 ∙ ap (λ (ls : List Chars). xs ++ (ls ++ ys)) w.1)
      ∙ occurs-append path_begin xs (path_begin ∷ (w.0 ++ path_end ∷ []) ++ ys)
      ∙ ground (arith, begins_there ((w.0 ++ path_end ∷ []) ++ ys))

  hosted_same :
      (content : Chars) (xs ys : List Chars)
      → Hosts path_begin content block xs ys
      → apply_path_block content block ≡ content
  unfolding apply_path_block
  hosted_same content xs ys h =
      rw (hosted-occurs content xs ys h)
        (apply_block-Hosts path_begin path_end path-AreMarkers content block xs ys w h)

  abbrev IsHosted : Chars → Type 0
  IsHosted content = (xs : List Chars) × (ys : List Chars) × Hosts path_begin content block xs ys

  apply-IsHosted : (content : Chars) → IsHosted (apply_block content block path_begin path_end)
  apply-IsHosted content =
      let h = apply-Hosts path_begin path_end path-AreMarkers content block w in (h.0, h.1, h.2)

  apply_path-IsHosted : (content : Chars) → IsHosted (apply_path_block content block)
  unfolding apply_path_block first_path_block
  apply_path-IsHosted content = elim (Bool-cases (occurs path_begin (split_lines content))) [
    | inl holds ↦ rw holds (apply-IsHosted content)
    | inr fails ↦ rw fails (elim (later_place (split_lines content)) [
      | inl absent ↦ rw absent (apply-IsHosted content)
      | inr found ↦
          let lines : All IsLine (found.0 ++ found.1) =
            subst (All IsLine) found.2 (split-All content) in
          rw (found.3) (
            found.0,
            [] ∷ found.1,
            (
              split-join_among found.0 block ([] ∷ found.1)
                  (All-append_left IsLine found.0 found.1 lines)
                  (tt, All-append_right IsLine found.0 found.1 lines),
              later_free found.0 found.1 (sym (ap (occurs path_begin) found.2) ∙ fails),
            ),
          )
    ])
  ]

  apply_path_block_idem :
      (content : Chars)
      → apply_path_block (apply_path_block content block) block ≡ apply_path_block content block
  apply_path_block_idem content =
      let h = apply_path-IsHosted content in
      hosted_same (apply_path_block content block) h.0 h.1 h.2

has_of-hosted :
    (block content : Chars)
    → (w : IsBlock path_begin path_end block)
    → has_managed_block (some (apply_path_block content block)) ≡ true
unfolding has_managed_block
has_of-hosted block content w =
    let h = apply_path-IsHosted block w content in
    hosted-occurs block w (apply_path_block content block) h.0 h.1 h.2

-- For directories without a newline, whose resolved spellings have none either: writing the PATH
-- block into ~/.myshellrc, whatever the file holds, or if there is none, twice is writing it once;
-- and the file has the managed block then.
pub write_myshellrc_idem :
    (resolve : Chars → Option Chars) (dirs : List Chars) (file : Option Chars)
    → KeepsLines resolve
    → All IsLine dirs
    → (write_myshellrc resolve dirs (write_myshellrc resolve dirs file)
        ≡ write_myshellrc resolve dirs file)
      × (has_managed_block (write_myshellrc resolve dirs file) ≡ true)
unfolding write_myshellrc existing
write_myshellrc_idem resolve dirs file keeps h =
    let block = managed_block resolve dirs in
    let w = managed-IsBlock resolve keeps dirs h in
    (ap some (apply_path_block_idem block w (existing file)), has_of-hosted block (existing file) w)
