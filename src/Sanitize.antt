-- ===== src/Sanitize.antt =====
-- installer/sanitize.py: what is taken out of a child process's output before a terminal shows it.
-- A text is the list of its code points.
mod Safe
mod Tests
use tools_installer.Base.{ℕ, Bool, not, ◌&&◌, ◌||◌, List, filter, leb, eqb}

-- `ord(ch) != _DEL and (ord(ch) >= 32 or ord(ch) in _C0_KEEP)`
unfoldable pub is_shown : ℕ → Bool
is_shown c = not (eqb c 127) && (leb 32 c || eqb c 9 || eqb c 10)

unfoldable pub sanitize_log_line : List ℕ → List ℕ
unfolding is_shown
sanitize_log_line text = filter is_shown text
