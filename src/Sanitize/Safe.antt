-- ===== src/Sanitize/Safe.antt =====
-- That sanitized text holds no control character that a terminal acts on.
use tools_installer.Base.{
  ℕ, ◌≤◌, ◌≡◌, ◌≢◌, refl, ap, arith, true, ◌⊎◌, inl, inr, List, [], ◌∷◌, All, Bool-cases, leb, eqb,
  ◌++◌,
}
use tools_installer.Sanitize.{is_shown, sanitize_log_line}

-- Neither DEL nor below the space, but for tab and newline.
abbrev pub IsSafe : ℕ → Type 0
IsSafe c = (c ≢ 127) × ((32 ≤ c) ⊎ (c ≡ 9) ⊎ (c ≡ 10))

is_shown-IsSafe : (c : ℕ) → is_shown c ≡ true → IsSafe c
unfolding is_shown
is_shown-IsSafe c h = (
  λ del. ground (arith, del),
  elim (Bool-cases (leb 32 c)) [
    | inl printable ↦ inl (ground arith)
    | inr control ↦ elim (Bool-cases (eqb c 9)) [
      | inl tab ↦ inr (inl (ground arith))
      | inr other ↦ inr (inr (ground arith))
    ]
  ],
)

is_shown_of : (c : ℕ) → IsSafe c → is_shown c ≡ true
unfolding is_shown
is_shown_of c h = ground (arith, h.0, h.1)

sanitize-All : (text : List ℕ) → All IsSafe (sanitize_log_line text)
unfolding sanitize_log_line
sanitize-All [] = tt
sanitize-All (c ∷ text) = elim (Bool-cases (is_shown c)) [
  | inl holds ↦ rw holds (is_shown-IsSafe c holds, sanitize-All text)
  | inr fails ↦ rw fails (sanitize-All text)
]

sanitize_same : (text : List ℕ) → All IsSafe text → sanitize_log_line text ≡ text
unfolding sanitize_log_line
sanitize_same [] h = refl
sanitize_same (c ∷ text) h =
    rw (is_shown_of c h.0) (ap (λ (l : List ℕ). c ∷ l) (sanitize_same text h.1))

sanitize-append :
    (text more : List ℕ)
    → sanitize_log_line (text ++ more) ≡ sanitize_log_line text ++ sanitize_log_line more
unfolding sanitize_log_line
sanitize-append [] more = refl
sanitize-append (c ∷ text) more = elim (Bool-cases (is_shown c)) [
  | inl holds ↦ rw holds (ap (λ (l : List ℕ). c ∷ l) (sanitize-append text more))
  | inr fails ↦ rw fails (sanitize-append text more)
]

-- Sanitized text holds no DEL and nothing below the space but tabs and newlines; text that holds
-- none to begin with comes back as it was; and it makes no difference in which pieces a text is
-- sanitized.
pub sanitize_log_line-IsSafe :
    (text more : List ℕ)
    → All IsSafe (sanitize_log_line text)
      × (All IsSafe text → sanitize_log_line text ≡ text)
      × (sanitize_log_line (text ++ more) ≡ sanitize_log_line text ++ sanitize_log_line more)
sanitize_log_line-IsSafe text more =
    (sanitize-All text, sanitize_same text, sanitize-append text more)
