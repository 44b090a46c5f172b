-- ===== src/Shellrc/Block.antt =====
-- Applying a block twice, removing it again, and what applying it leaves as it was.
use tools_installer.Base.{
  ◌≡◌, refl, sym, ap, ◌∙◌, subst, arith, false, ◌⊎◌, inl, inr, none, some, List, [], ◌∷◌, ◌++◌,
  append_assoc, All, All-append_left, All-append_right, rstrip, rstrip_idem, rstrip-snoc, Chars,
  IsLine, cut, split_lines, join_lines, join-split, split-append, split-All, split-join_among,
}
use tools_installer.Shellrc.{
  occurs, block_at, is_newline, under, appended, replaced, apply_block, stripped, strip_block,
}
use tools_installer.Shellrc.Splice.{
  same_comm, occurs-append, AreMarkers, block_at-append, block_at-cases,
}

-- Lines that hold neither marker, between the markers.
abbrev pub IsBlock : Chars → Chars → Chars → Type 0
IsBlock b e block =
    (body : List Chars) × (split_lines block ≡ b ∷ (body ++ e ∷ []))
    × (occurs b body ≡ false)
    × (occurs e body ≡ false)

-- What stands above an appended block.
abbrev pub front : Chars → List Chars
front [] = []
front (c ∷ base) = split_lines (c ∷ base) ++ [] ∷ []

under-lines :
    (base block : Chars)
    → split_lines (under base block) ≡ front base ++ (split_lines block ++ [] ∷ [])
unfolding under split_lines cut
under-lines [] block = split-append block []
under-lines (c ∷ base) block =
    split-append (c ∷ base) (10 ∷ (block ++ 10 ∷ []))
    ∙ ap (λ (ls : List Chars). split_lines (c ∷ base) ++ [] ∷ ls) (split-append block [])
    ∙ sym (append_assoc (split_lines (c ∷ base)) ([] ∷ []) (split_lines block ++ [] ∷ []))

blank_end :
    (base : Chars) → rstrip is_newline (join_lines (front base ++ [] ∷ [])) ≡ rstrip is_newline base
unfolding join_lines is_newline split_lines cut
blank_end [] = refl
blank_end (c ∷ base) =
    let s = c ∷ base in
    ap (rstrip is_newline) (
      ap join_lines (append_assoc (split_lines s) ([] ∷ []) ([] ∷ []))
      ∙ sym (ap join_lines (split-append s (10 ∷ [])))
      ∙ join-split (s ++ 10 ∷ 10 ∷ [])
      ∙ sym (append_assoc s (10 ∷ []) (10 ∷ [])))
    ∙ rstrip-snoc is_newline (s ++ 10 ∷ []) 10 refl
    ∙ rstrip-snoc is_newline s 10 refl

-- A block among lines, where no begin marker follows it.
abbrev pub Hosts : Chars → Chars → Chars → List Chars → List Chars → Type 0
Hosts b content block xs ys =
    (split_lines content ≡ xs ++ (split_lines block ++ ys)) × (occurs b ys ≡ false)

module _ (b e : Chars) (markers : AreMarkers b e) where
  hosted-block_at :
      (content block : Chars) (xs ys : List Chars)
      → IsBlock b e block
      → Hosts b content block xs ys
      → block_at b e (split_lines content) ≡ some (xs, ys)
  unfolding occurs
  hosted-block_at content block xs ys w h =
      let body = w.0 in
      let whole : split_lines block ++ ys ≡ b ∷ (body ++ e ∷ ys) =
        ap (λ (ls : List Chars). ls ++ ys) w.1
        ∙ ap (λ (ls : List Chars). b ∷ ls) (append_assoc body (e ∷ []) ys) in
      let once : occurs b (body ++ e ∷ ys) ≡ false =
        ground (arith, occurs-append b body (e ∷ ys), w.2, h.1, markers.0, same_comm b e) in
      ap (block_at b e) (h.0 ∙ ap (λ (ls : List Chars). xs ++ ls) whole)
      ∙ block_at-append b e xs body ys markers once w.3

  -- Where the block of a text stands: the lines before it and after it are the text's own.
  abbrev pub Kept : Chars → List Chars → List Chars → Type 0
  Kept content xs ys =
      ((old : List Chars) × (split_lines content ≡ xs ++ b ∷ (old ++ e ∷ ys))
        × (occurs b (old ++ e ∷ ys) ≡ false)
        × (occurs e old ≡ false))
      ⊎ ((block_at b e (split_lines content) ≡ none)
          × (xs ≡ front (rstrip is_newline content))
          × (ys ≡ [] ∷ []))

  pub apply-Hosts :
      (content block : Chars)
      → IsBlock b e block
      → (xs : List Chars) × (ys : List Chars) × Hosts b (apply_block content block b e) block xs ys
        × Kept content xs ys
  unfolding apply_block replaced appended occurs
  apply-Hosts content block w = elim (block_at-cases b e (split_lines content) markers) [
    | inl absent ↦ (
      front (rstrip is_newline content),
      [] ∷ [],
      rw absent (under-lines (rstrip is_newline content) block, ground (arith, markers.1)),
      inr (absent, refl, refl),
    )
    | inr found ↦
        let xs = found.0 in
        let old = found.1 in
        let ys = found.2 in
        let place : block_at b e (split_lines content) ≡ some (xs, ys) =
          ap (block_at b e) found.3 ∙ block_at-append b e xs old ys markers found.4 found.5 in
        let lines : All IsLine (xs ++ b ∷ (old ++ e ∷ ys)) =
          subst (All IsLine) found.3 (split-All content) in
        let later : All IsLine (b ∷ (old ++ e ∷ ys)) =
          All-append_right IsLine xs (b ∷ (old ++ e ∷ ys)) lines in
        let last : All IsLine (e ∷ ys) = All-append_right IsLine old (e ∷ ys) later.1 in
        (
          xs,
          ys,
          rw place (
            split-join_among xs block ys (All-append_left IsLine xs (b ∷ (old ++ e ∷ ys)) lines)
                last.1,
            ground (arith, occurs-append b old (e ∷ ys), found.4),
          ),
          inl (old, found.3, found.4, found.5),
        )
  ]

  apply_at :
      (content block : Chars) (xs ys : List Chars)
      → block_at b e (split_lines content) ≡ some (xs, ys)
      → apply_block content block b e ≡ join_lines (xs ++ (split_lines block ++ ys))
  unfolding apply_block replaced
  apply_at content block xs ys h = rw h refl

  strip_at :
      (content : Chars) (xs ys : List Chars)
      → block_at b e (split_lines content) ≡ some (xs, ys)
      → strip_block content b e ≡ join_lines (xs ++ ys)
  unfolding strip_block stripped
  strip_at content xs ys h = rw h refl

  -- A text that holds the block already comes back as it was.
  pub apply_block-Hosts :
      (content block : Chars) (xs ys : List Chars)
      → IsBlock b e block
      → Hosts b content block xs ys
      → apply_block content block b e ≡ content
  apply_block-Hosts content block xs ys w h =
      apply_at content block xs ys (hosted-block_at content block xs ys w h)
      ∙ ap join_lines (sym h.0)
      ∙ join-split content

  -- Where the two markers differ and the first is no empty line, a block of lines between the
  -- markers, none of them a marker, is applied twice with the same result as once.
  pub apply_block_idem :
      (content block : Chars)
      → IsBlock b e block
      → apply_block (apply_block content block b e) block b e ≡ apply_block content block b e
  apply_block_idem content block w =
      let h = apply-Hosts content block w in
      apply_block-Hosts (apply_block content block b e) block h.0 h.1 w h.2

  strip_kept :
      (content : Chars) (xs ys : List Chars)
      → Kept content xs ys
      → rstrip is_newline (join_lines (xs ++ ys)) ≡ rstrip is_newline (strip_block content b e)
  unfolding strip_block stripped
  strip_kept content xs ys (inl old) = ap (rstrip is_newline) (
      sym (
        strip_at content xs ys
          (ap (block_at b e) old.1 ∙ block_at-append b e xs old.0 ys markers old.2 old.3)))
  strip_kept content xs ys (inr new) = rw new.0 (
      ap (λ (ls : List Chars). rstrip is_newline (join_lines (ls ++ ys))) new.1
      ∙ ap
          (λ (ls : List Chars).
            rstrip is_newline (join_lines (front (rstrip is_newline content) ++ ls)))
          new.2
      ∙ blank_end (rstrip is_newline content)
      ∙ rstrip_idem is_newline content)

  -- Where the two markers differ and the first is no empty line, applying a block of lines between
  -- the markers, none of them a marker, and stripping it gives what stripping alone gives, but for
  -- the newlines at the end.
  pub strip_block-apply_block :
      (content block : Chars)
      → IsBlock b e block
      → rstrip is_newline (strip_block (apply_block content block b e) b e)
        ≡ rstrip is_newline (strip_block content b e)
  strip_block-apply_block content block w =
      let h = apply-Hosts content block w in
      ap (rstrip is_newline) (
        strip_at (apply_block content block b e) h.0 h.1
          (hosted-block_at (apply_block content block b e) block h.0 h.1 w h.2))
      ∙ strip_kept content h.0 h.1 h.3
