-- ===== src/Session/Effect.antt =====
-- Operations on a state that may raise: what `execute_plan` runs under its `try`, and the lines of
-- an exception.
use Prim.Native.Char.{code}
use Prim.Native.String.{String}
use tools_installer.Base.{ℕ, Bool, [], ◌∷◌, ◌&&◌, ◌||◌, if◌then◌else◌, concat, leb, ◌==◌}
use tools_installer.Session.{Exn}

pub data Except {ℓ} (A : Type ℓ) : Type ℓ where
  returned : A → Except A
  raised : Exn → Except A

module _ {ℓ} {S : Type ℓ} where
  -- The second operation runs on what the first returns; what the first raises goes through.
  abbrev pub next {κ μ} :
      {A : Type κ} {B : Type μ} → S × Except A → (A → S → S × Except B) → S × Except B
  next (s, returned a) f = f a s
  next (s, raised e) f = (s, raised e)

  -- A condition on the state, whatever ended the operation, and one on what it returned.
  abbrev pub Ends {κ} : {A : Type κ} → (S → Type 0) → (A → S → Type 0) → S × Except A → Type 0
  Ends P Q (s, returned a) = P s × Q a s
  Ends P Q (s, raised e) = P s

  pub next-Ends {κ μ} :
      {A : Type κ} {B : Type μ} (P : S → Type 0) (Q : A → S → Type 0) (R : B → S → Type 0)
      (m : S × Except A) (f : A → S → S × Except B)
      → Ends P Q m
      → ((a : A) (s : S) → P s → Q a s → Ends P R (f a s))
      → Ends P R (next m f)
  next-Ends P Q R (s, returned a) f h k = k a s h.0 h.1
  next-Ends P Q R (s, raised e) f h k = h

-- `str.splitlines` on ASCII ends a line here.
is_break : ℕ → Bool
is_break c = (leb 10 c && leb c 13) || (leb 28 c && leb c 30)

first_line_of : String → String
unfolding is_break
first_line_of String.[] = String.[]
first_line_of (String.◌∷◌ c s) =
    let rest = first_line_of s in if is_break (code c) then String.[] else String.◌∷◌ c rest

unfoldable pub first_line : Exn → String
unfolding first_line_of
first_line e =
    let text = first_line_of e.message in
    if text == "" then concat (e.type_name ∷ " failed" ∷ []) else text

-- `detail` of the row that crashed
unfoldable pub crash_detail : Exn → String
unfolding first_line_of first_line
crash_detail e =
    if first_line_of e.message == ""
    then first_line e
    else concat (e.type_name ∷ ": " ∷ first_line e ∷ [])
