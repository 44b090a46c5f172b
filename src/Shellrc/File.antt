-- ===== src/Shellrc/File.antt =====
-- installer/shellrc.py: what is written into a block, and the edits of the files. A file is its
-- text, or `none` where there is none. `resolve` is `Path.resolve`, none when it raises an OSError.
use tools_installer.Base.{
  Bool, true, false, ◌&&◌, ◌||◌, eqb, Option, none, some, List, [], ◌∷◌, ◌++◌, map, codes,
  if◌then◌else◌, Chars, same, split_lines, join_lines,
}
use tools_installer.Shellrc.{
  path_begin, path_end, source_begin, source_end, shellrc_begin, shellrc_end, stub_begin, stub_end,
  occurs, apply_block, strip_block,
}

unfoldable pub quoted_glob : Chars → Chars
quoted_glob pattern = codes "*\":" ++ (pattern ++ codes ":\"*")

-- The patterns of the `case`: both spellings, when there are two.
unfoldable pub guard_pattern : Chars → Chars → Chars
unfolding quoted_glob same
guard_pattern declared resolved =
    if same resolved declared
    then quoted_glob declared
    else quoted_glob declared ++ (codes "|" ++ quoted_glob resolved)

-- The resolved spelling, or the declared one where the look-up failed.
unfoldable pub spelled : Chars → Option Chars → Chars
spelled declared none = declared
spelled declared (some resolved) = resolved

unfoldable pub path_export_guard : (Chars → Option Chars) → Chars → Chars
unfolding guard_pattern spelled
path_export_guard resolve declared =
    codes "case \":${PATH-}:\" in "
    ++ (guard_pattern declared (spelled declared (resolve declared))
        ++ (codes ") ;; *) export PATH=\"" ++ (declared ++ codes "${PATH:+:$PATH}\";;esac")))

-- The lines of the block between the markers.
unfoldable pub guards : (Chars → Option Chars) → List Chars → List Chars
unfolding path_export_guard
guards resolve bin_dirs = map (path_export_guard resolve) bin_dirs

unfoldable pub managed_block : (Chars → Option Chars) → List Chars → Chars
unfolding guards path_begin path_end join_lines
managed_block resolve bin_dirs =
    join_lines (path_begin ∷ (guards resolve bin_dirs ++ path_end ∷ []))

-- `line.startswith(prefix)`
unfoldable pub starts_with : Chars → Chars → Bool
starts_with [] line = true
starts_with (p ∷ prefix) [] = false
starts_with (p ∷ prefix) (c ∷ line) = eqb p c && starts_with prefix line

-- A line that a PATH block must stand above.
unfoldable pub is_later_block : Chars → Bool
unfolding starts_with same source_begin
is_later_block line =
    starts_with (codes "# >>> tools-installer tweak:") line || same line source_begin

unfoldable pub one_more :
    Chars → Option (List Chars × List Chars) → Option (List Chars × List Chars)
one_more l none = none
one_more l (some (before, rest)) = some (l ∷ before, rest)

-- The lines before the first of those, and those from it on.
unfoldable pub before_later : List Chars → Option (List Chars × List Chars)
unfolding is_later_block one_more
before_later [] = none
before_later (l ∷ ls) =
    let rest = before_later ls in if is_later_block l then some ([], l ∷ ls) else one_more l rest

-- A first PATH block: above the later blocks, else as `apply_block` has it.
unfoldable pub first_path_block : Chars → Chars → Option (List Chars × List Chars) → Chars
unfolding apply_block path_begin path_end join_lines split_lines
first_path_block content block none = apply_block content block path_begin path_end
first_path_block content block (some (before, rest)) =
    join_lines (before ++ (split_lines block ++ [] ∷ rest))

unfoldable pub apply_path_block : Chars → Chars → Chars
unfolding first_path_block before_later apply_block path_begin path_end occurs split_lines
apply_path_block content block =
    if occurs path_begin (split_lines content)
    then apply_block content block path_begin path_end
    else first_path_block content block (before_later (split_lines content))

-- `path.read_text() if path.exists() else ""`
unfoldable pub existing : Option Chars → Chars
existing none = []
existing (some content) = content

unfoldable pub write_myshellrc : (Chars → Option Chars) → List Chars → Option Chars → Option Chars
unfolding apply_path_block existing managed_block
write_myshellrc resolve bin_dirs file =
    some (apply_path_block (existing file) (managed_block resolve bin_dirs))

unfoldable pub write_managed_path :
    (Chars → Option Chars) → List Chars → Option Chars → Option Chars
unfolding apply_path_block existing managed_block
write_managed_path resolve bin_dirs file =
    some (apply_path_block (existing file) (managed_block resolve bin_dirs))

-- `[ -f "…" ] && . "…"`
unfoldable pub source_line : Chars → Chars
source_line path = codes "[ -f \"" ++ (path ++ (codes "\" ] && . \"" ++ (path ++ codes "\"")))

unfoldable pub source_block : Chars → Chars
unfolding source_line source_begin source_end join_lines
source_block path = join_lines (source_begin ∷ source_line path ∷ source_end ∷ [])

unfoldable pub ensure_source : Chars → Option Chars → Option Chars
unfolding source_block apply_block existing source_begin source_end
ensure_source myshellrc file =
    some (apply_block (existing file) (source_block myshellrc) source_begin source_end)

unfoldable pub removed : Chars → Chars → Option Chars → Option Chars
unfolding strip_block
removed begin end none = none
removed begin end (some original) = some (strip_block original begin end)

unfoldable pub remove_managed_block : Option Chars → Option Chars
unfolding removed path_begin path_end
remove_managed_block file = removed path_begin path_end file

unfoldable pub remove_source_block : Option Chars → Option Chars
unfolding removed source_begin source_end
remove_source_block file = removed source_begin source_end file

unfoldable pub has_managed_block : Option Chars → Bool
unfolding occurs path_begin split_lines
has_managed_block none = false
has_managed_block (some content) = occurs path_begin (split_lines content)

unfoldable pub consolidation_block : Chars → Chars
unfolding shellrc_begin shellrc_end join_lines split_lines
consolidation_block body = join_lines (
    shellrc_begin
    ∷ codes "# Content consolidated from the generic ~/.shellrc by tools-installer."
    ∷ codes "# The original file now sources this file; edit the content here."
    ∷ (split_lines body ++ shellrc_end ∷ []))

unfoldable pub consolidation_stub : Chars → Chars
unfolding source_line stub_begin stub_end join_lines
consolidation_stub myshellrc = join_lines (
    stub_begin
    ∷ codes "# tools-installer consolidated this file; edit ~/.myshellrc instead."
    ∷ source_line myshellrc
    ∷ stub_end
    ∷ [])
