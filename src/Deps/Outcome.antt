-- ===== src/Deps/Outcome.antt =====
-- What the functions of installer/deps.py raise, and loops whose body may raise.
use tools_installer.Base.{String, List, [], ◌∷◌}

pub data Fault : Type 0 where
  cycle : String → Fault
  key_error : String → Fault
  out_of_fuel : Fault

pub data Result {ℓ} (A : Type ℓ) : Type ℓ where
  ok : A → Result A
  err : Fault → Result A

infixl 5 ◌>>=◌
abbrev pub ◌>>=◌ {ℓ κ} : {A : Type ℓ} {B : Type κ} → Result A → (A → Result B) → Result B
ok a >>= f = f a
err e >>= f = err e

abbrev pub map_ok {ℓ κ} : {A : Type ℓ} {B : Type κ} → (A → B) → Result A → Result B
map_ok f (ok a) = ok (f a)
map_ok f (err e) = err e

-- for x in xs: s = body(x, s)
unfoldable pub for_each {ℓ κ} :
    {A : Type ℓ} {S : Type κ} → (A → S → Result S) → List A → S → Result S
for_each body [] s = ok s
for_each body (x ∷ xs) s = elim (body x s) [ err e ↦ err e | ok s' ↦ for_each body xs s' ]
