-- ===== src/Sanitize/Tests.antt =====
-- Runs of `sanitize_log_line`, and the theorem at an input with an escape sequence.
use tools_installer.Base.{ℕ, ◌≡◌, refl, List, [], ◌∷◌, ◌++◌, All, codes}
use tools_installer.Sanitize.{sanitize_log_line}
use tools_installer.Sanitize.Safe.{IsSafe, sanitize_log_line-IsSafe}

abbrev escape : List ℕ
escape = 27 ∷ codes "[2Jdone" ++ 127 ∷ 10 ∷ []

escape_removed : sanitize_log_line escape ≡ codes "[2Jdone" ++ 10 ∷ []
unfolding sanitize_log_line
escape_removed = refl

sanitize_log_line-IsSafe_example :
    All IsSafe (sanitize_log_line escape)
    × (All IsSafe escape → sanitize_log_line escape ≡ escape)
    × (sanitize_log_line (escape ++ codes "ok")
        ≡ sanitize_log_line escape ++ sanitize_log_line (codes "ok"))
sanitize_log_line-IsSafe_example = sanitize_log_line-IsSafe escape (codes "ok")
