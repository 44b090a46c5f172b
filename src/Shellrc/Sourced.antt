-- ===== src/Shellrc/Sourced.antt =====
-- The block that makes a shell file source ~/.myshellrc, and its removal.
use tools_installer.Base.{
  ◌≡◌, refl, ap, ◌∙◌, false, Option, none, some, [], ◌∷◌, ◌++◌, codes, rstrip, Chars, IsLine, same,
  cut, split_lines, split-join,
}
use tools_installer.Shellrc.{
  source_begin, source_end, occurs, is_newline, strip_block, stripped, block_at, closed_by,
  from_last, keep_last,
}
use tools_installer.Shellrc.Splice.{AreMarkers}
use tools_installer.Shellrc.Block.{IsBlock, apply_block_idem, strip_block-apply_block}
use tools_installer.Shellrc.File.{
  existing, source_line, source_block, ensure_source, removed, remove_source_block,
}
use tools_installer.Shellrc.Guard.{all-IsLine, around-IsLine}

source-AreMarkers : AreMarkers source_begin source_end
unfolding source_begin source_end same
source-AreMarkers = (refl, refl)

source_line-IsLine : (path : Chars) → IsLine path → IsLine (source_line path)
unfolding source_line
source_line-IsLine path h =
    around-IsLine (codes "[ -f \"") path (codes "\" ] && . \"" ++ (path ++ codes "\""))
      (all-IsLine (codes "[ -f \"") refl) h
      (around-IsLine (codes "\" ] && . \"") path (codes "\"")
        (all-IsLine (codes "\" ] && . \"") refl) h (all-IsLine (codes "\"") refl))

source_begin-IsLine : IsLine source_begin
unfolding source_begin
source_begin-IsLine = all-IsLine source_begin refl

source_end-IsLine : IsLine source_end
unfolding source_end
source_end-IsLine = all-IsLine source_end refl

source_line-lacks :
    (path : Chars)
    → (occurs source_begin (source_line path ∷ []) ≡ false)
      × (occurs source_end (source_line path ∷ []) ≡ false)
unfolding occurs source_line source_begin source_end same
source_line-lacks path = (refl, refl)

source-IsBlock : (path : Chars) → IsLine path → IsBlock source_begin source_end (source_block path)
unfolding source_block
source-IsBlock path h = (
  source_line path ∷ [],
  split-join source_begin (source_line path ∷ source_end ∷ []) source_begin-IsLine
      (source_line-IsLine path h, (source_end-IsLine, tt)),
  (source_line-lacks path).0,
  (source_line-lacks path).1,
)

removed-existing :
    (file : Option Chars)
    → rstrip is_newline (strip_block (existing file) source_begin source_end)
      ≡ rstrip is_newline (existing (removed source_begin source_end file))
unfolding removed existing strip_block stripped block_at closed_by from_last keep_last split_lines
    cut source_begin same
removed-existing none = refl
removed-existing (some content) = refl

-- For a path without a newline: making a shell file source ~/.myshellrc twice is doing it once;
-- and removing the source block after that gives what removing it from the file as it was gives,
-- but for the newlines at the end, where a file that is not there counts as an empty one.
pub remove_source_block-ensure_source :
    (path : Chars) (file : Option Chars)
    → IsLine path
    → (ensure_source path (ensure_source path file) ≡ ensure_source path file)
      × (rstrip is_newline (existing (remove_source_block (ensure_source path file)))
          ≡ rstrip is_newline (existing (remove_source_block file)))
unfolding ensure_source remove_source_block removed existing
remove_source_block-ensure_source path file h = (
  ap some (
      apply_block_idem source_begin source_end source-AreMarkers (existing file) (source_block path)
        (source-IsBlock path h)),
  strip_block-apply_block source_begin source_end source-AreMarkers (existing file)
        (source_block path) (source-IsBlock path h)
      ∙ removed-existing file,
)
