-- ===== src/Shellrc/Tests.antt =====
-- Runs of installer/shellrc.py on small files.
use tools_installer.Base.{
  ◌≡◌, ◌≢◌, ℕ, refl, ap, subst, All-append, true, Option, none, some, List, [], ◌∷◌, ◌++◌, codes,
  Chars, same, cut, split_lines, following, join_lines, drop_while, rstrip, IsLine, All,
}
use tools_installer.Shellrc.{
  path_begin, path_end, source_begin, occurs, keep_last, from_last, after_first, around, closed_by,
  block_at, is_newline, under, appended, replaced, apply_block, strip_block,
}
use tools_installer.Shellrc.Splice.{AreMarkers}
use tools_installer.Shellrc.Block.{IsBlock, apply_block_idem, strip_block-apply_block}
use tools_installer.Shellrc.File.{
  guards, path_export_guard, guard_pattern, quoted_glob, spelled, managed_block, existing,
  write_myshellrc, ensure_source, remove_source_block, has_managed_block, is_later_block,
  starts_with, one_more, before_later, first_path_block, apply_path_block,
}
use tools_installer.Shellrc.Guard.{KeepsLines, all-IsLine}
use tools_installer.Shellrc.Written.{write_myshellrc_idem}
use tools_installer.Shellrc.Sourced.{remove_source_block-ensure_source}

abbrev b : Chars
b = codes "#>"

abbrev e : Chars
e = codes "#<"

abbrev block : Chars
block = join_lines (b ∷ codes "x=1" ∷ e ∷ [])

-- An orphan begin marker before the block and lines around it.
abbrev orphaned : Chars
orphaned = codes "a\n#>\nb\n#>\nold\n#<\nc\n"

markers : AreMarkers b e
unfolding same
markers = (refl, refl)

block-IsBlock : IsBlock b e block
unfolding split_lines cut join_lines following occurs same
block-IsBlock = (codes "x=1" ∷ [], refl, refl, refl)

orphan_stays : apply_block orphaned block b e ≡ codes "a\n#>\nb\n#>\nx=1\n#<\nc\n"
unfolding apply_block replaced block_at closed_by around after_first from_last keep_last split_lines
    cut join_lines following same
orphan_stays = refl

first_block_appended : apply_block (codes "a\n\n\n") block b e ≡ codes "a\n\n#>\nx=1\n#<\n"
unfolding apply_block replaced appended under rstrip drop_while is_newline block_at closed_by around
    after_first from_last keep_last split_lines cut join_lines following same
first_block_appended = refl

apply_block_idem_example :
    apply_block (apply_block orphaned block b e) block b e ≡ apply_block orphaned block b e
apply_block_idem_example = apply_block_idem b e markers orphaned block block-IsBlock

strip_block-apply_block_example :
    rstrip is_newline (strip_block (apply_block orphaned block b e) b e)
    ≡ rstrip is_newline (strip_block orphaned b e)
strip_block-apply_block_example = strip_block-apply_block b e markers orphaned block block-IsBlock

-- A home directory that is a link.
resolve : Chars → Option Chars
resolve d = some (codes "/var" ++ d)

resolve-KeepsLines : KeepsLines resolve
unfolding resolve existing
resolve-KeepsLines d r h eq =
    subst IsLine (ap existing eq)
      (All-append (λ (c : ℕ). c ≢ 10) (codes "/var") d (all-IsLine (codes "/var") refl) h)

abbrev dirs : List Chars
dirs = codes "/home/u/.local/bin" ∷ []

abbrev rc : Option Chars
rc = some (codes "alias l=ls\n# >>> tools-installer source >>>\n")

dirs-IsLines : All IsLine dirs
dirs-IsLines = (all-IsLine (codes "/home/u/.local/bin") refl, tt)

written_above :
    write_myshellrc resolve dirs rc
    ≡ some (
        codes
          "alias l=ls\n# >>> tools-installer path >>>\ncase \":${PATH-}:\" in *\":/home/u/.local/bin:\"*|*\":/var/home/u/.local/bin:\"*) ;; *) export PATH=\"/home/u/.local/bin${PATH:+:$PATH}\";;esac\n# <<< tools-installer path <<<\n\n# >>> tools-installer source >>>\n")
unfolding write_myshellrc existing apply_path_block first_path_block before_later one_more
    is_later_block starts_with managed_block guards path_export_guard guard_pattern quoted_glob
    spelled resolve path_begin path_end source_begin occurs split_lines cut join_lines following
    same
written_above = refl

write_myshellrc_idem_example :
    (write_myshellrc resolve dirs (write_myshellrc resolve dirs rc)
      ≡ write_myshellrc resolve dirs rc)
    × (has_managed_block (write_myshellrc resolve dirs rc) ≡ true)
write_myshellrc_idem_example = write_myshellrc_idem resolve dirs rc resolve-KeepsLines dirs-IsLines

abbrev myshellrc : Chars
myshellrc = codes "/home/u/.myshellrc"

remove_source_block-ensure_source_example :
    (ensure_source myshellrc (ensure_source myshellrc none) ≡ ensure_source myshellrc none)
    × (rstrip is_newline (existing (remove_source_block (ensure_source myshellrc none)))
        ≡ rstrip is_newline (existing (remove_source_block none)))
remove_source_block-ensure_source_example =
    remove_source_block-ensure_source myshellrc none (all-IsLine myshellrc refl)
