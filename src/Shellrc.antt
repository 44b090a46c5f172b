-- ===== src/Shellrc.antt =====
-- installer/shellrc.py: the marked blocks that the installer keeps in a shell's start-up files. A
-- text is the list of its code points; a file that is not there is `none`.
mod Splice
mod Block
mod File
mod Guard
mod Written
mod Sourced
mod Tests
use tools_installer.Base.{
  ℕ, Bool, true, false, ◌||◌, Option, none, some, List, [], ◌∷◌, ◌++◌, map, any, codes, eqb, rstrip,
  if◌then◌else◌, Chars, same, split_lines, join_lines, is_some,
}

-- `_PATH_BEGIN` and the markers after it
unfoldable pub path_begin : Chars
path_begin = codes "# >>> tools-installer path >>>"

unfoldable pub path_end : Chars
path_end = codes "# <<< tools-installer path <<<"

unfoldable pub source_begin : Chars
source_begin = codes "# >>> tools-installer source >>>"

unfoldable pub source_end : Chars
source_end = codes "# <<< tools-installer source <<<"

unfoldable pub shellrc_begin : Chars
shellrc_begin = codes "# >>> tools-installer consolidated shellrc >>>"

unfoldable pub shellrc_end : Chars
shellrc_end = codes "# <<< tools-installer consolidated shellrc <<<"

unfoldable pub stub_begin : Chars
stub_begin = codes "# >>> tools-installer shellrc stub >>>"

unfoldable pub stub_end : Chars
stub_end = codes "# <<< tools-installer shellrc stub <<<"

-- `line in lines`
unfoldable pub occurs : Chars → List Chars → Bool
unfolding same
occurs line lines = any (λ l. same l line) lines

-- The lines before the last one that is `begin`, and those from it on.
unfoldable pub keep_last :
    Chars → Chars → List Chars → Option (List Chars × List Chars) → Option (List Chars × List Chars)
unfolding same
keep_last begin l ls (some (before, rest)) = some (l ∷ before, rest)
keep_last begin l ls none = if same l begin then some ([], l ∷ ls) else none

unfoldable pub from_last : Chars → List Chars → Option (List Chars × List Chars)
unfolding keep_last
from_last begin [] = none
from_last begin (l ∷ ls) = keep_last begin l ls (from_last begin ls)

-- The lines after the first one that is `end`.
unfoldable pub after_first : Chars → List Chars → Option (List Chars)
unfolding same
after_first end [] = none
after_first end (l ∷ ls) = let rest = after_first end ls in if same l end then some ls else rest

unfoldable pub around : List Chars → Option (List Chars) → Option (List Chars × List Chars)
around before none = none
around before (some after) = some (before, after)

unfoldable pub closed_by :
    Chars → Option (List Chars × List Chars) → Option (List Chars × List Chars)
unfolding around after_first
closed_by end none = none
closed_by end (some (before, rest)) = around before (after_first end rest)

-- What stands before and after the block that the last begin marker opens, if it is closed.
unfoldable pub block_at : Chars → Chars → List Chars → Option (List Chars × List Chars)
unfolding closed_by from_last
block_at begin end lines = closed_by end (from_last begin lines)

unfoldable pub is_newline : ℕ → Bool
is_newline c = eqb c 10

unfoldable pub under : Chars → Chars → Chars
under [] block = block ++ 10 ∷ []
under (c ∷ base) block = (c ∷ base) ++ 10 ∷ 10 ∷ (block ++ 10 ∷ [])

-- A block at the end of a text, after one empty line.
unfoldable pub appended : Chars → Chars → Chars
unfolding under rstrip is_newline
appended content block = under (rstrip is_newline content) block

unfoldable pub replaced : Chars → Chars → Option (List Chars × List Chars) → Chars
unfolding appended join_lines split_lines
replaced content block none = appended content block
replaced content block (some (before, after)) = join_lines (before ++ (split_lines block ++ after))

unfoldable pub apply_block : Chars → Chars → Chars → Chars → Chars
unfolding replaced block_at split_lines
apply_block content block begin end =
    replaced content block (block_at begin end (split_lines content))

unfoldable pub stripped : Chars → Option (List Chars × List Chars) → Chars
unfolding join_lines
stripped content none = content
stripped content (some (before, after)) = join_lines (before ++ after)

unfoldable pub strip_block : Chars → Chars → Chars → Chars
unfolding stripped block_at split_lines
strip_block content begin end = stripped content (block_at begin end (split_lines content))
