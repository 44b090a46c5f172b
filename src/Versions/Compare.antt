-- ===== src/Versions/Compare.antt =====
-- `meets_minimum`, `parse_status_version` and `is_outdated` of installer/versions.py.
-- Python's `<` on tuples is `compare_lists`.
pub mod Lexical
pub mod Cores
pub mod Laws
mod Tests
use Prim.Native.Nat.{Ordering, compare, max}
use tools_installer.Base.{
  ℕ, zero, suc, ◌+◌, ◌-◌, ◌*◌, Bool, true, false, not, ◌&&◌, Option, none, some, List, [], ◌∷◌,
  ◌++◌, if◌then◌else◌, all, length, eqb, is_digit, strip,
}
use tools_installer.Versions.{
  Version, parse_version, parse_declared_version, match_observed_version,
}

-- The first comparison decides, unless it finds its two sides equal.
abbrev pub and_then : Ordering → Ordering → Ordering
and_then Ordering.lt o = Ordering.lt
and_then Ordering.eq o = o
and_then Ordering.gt o = Ordering.gt

pub compare_lists {ℓ} : {A : Type ℓ} → (A → A → Ordering) → List A → List A → Ordering
compare_lists cmp [] [] = Ordering.eq
compare_lists cmp [] (y ∷ ys) = Ordering.lt
compare_lists cmp (x ∷ xs) [] = Ordering.gt
compare_lists cmp (x ∷ xs) (y ∷ ys) = and_then (cmp x y) (compare_lists cmp xs ys)

abbrev pub is_lt : Ordering → Bool
is_lt Ordering.lt = true
is_lt _ = false

-- `got >= (*need, _RELEASE)`
pub at_least : Version → ℕ × ℕ × ℕ → Bool
unfolding compare_lists
at_least got need = not (
    is_lt (
      compare_lists compare (got.major ∷ got.minor ∷ got.patch ∷ got.rank ∷ [])
        (need.0 ∷ need.1 ∷ need.2 ∷ 1 ∷ [])))

unfoldable pub meets_minimum : List ℕ → List ℕ → Bool
unfolding at_least parse_version parse_declared_version
meets_minimum observed minimum = elim (parse_version observed) [
  | none ↦ false
  | some got ↦ elim (parse_declared_version minimum) [
    | none ↦ false
    | some need ↦ at_least got need
  ]
]

-- An identifier of a prerelease: `(0, int)` or `(1, str)`.
pub data Ident : Type 0 where
  number : ℕ → Ident
  text : List ℕ → Ident

pub compare_idents : Ident → Ident → Ordering
unfolding compare_lists
compare_idents (number a) (number b) = compare a b
compare_idents (number a) (text b) = Ordering.lt
compare_idents (text a) (number b) = Ordering.gt
compare_idents (text a) (text b) = compare_lists compare a b

pub record StatusVersion : Type 0 where
  pub core : List ℕ
  pub pre : Option (List Ident)

-- `s.split(".")`, the part being read in reverse order of its end.
split_dots : List ℕ → List ℕ → List (List ℕ)
split_dots part [] = part ∷ []
split_dots part (c ∷ cs) =
    let dot = part ∷ split_dots [] cs in
    let more = split_dots (part ++ c ∷ []) cs in if eqb c b'.' then dot else more

int : ℕ → List ℕ → ℕ
int n [] = n
int n (c ∷ cs) = int (n * 10 + (c - b'0')) cs

ident : List ℕ → Ident
unfolding int is_digit
ident [] = text []
ident (c ∷ cs) = if all is_digit (c ∷ cs) then number (int 0 (c ∷ cs)) else text (c ∷ cs)

idents : List (List ℕ) → List Ident
unfolding ident
idents [] = []
idents (p ∷ ps) = ident p ∷ idents ps

pub parse_status_version : List ℕ → Option StatusVersion
unfolding match_observed_version strip split_dots idents
parse_status_version raw_text = elim (match_observed_version (strip raw_text)) [
  | none ↦ none
  | some m ↦ some (record {
    core = m.0;
    pre = elim m.1 [ none ↦ none | some raw ↦ some (idents (split_dots [] raw)) ];
  })
]

zeros : ℕ → List ℕ
zeros zero = []
zeros (suc n) = 0 ∷ zeros n

abbrev pad : ℕ → List ℕ → List ℕ
pad width core = core ++ zeros (width - length core)

-- From `left_core, left_pre = left` on.
pub is_older : StatusVersion → StatusVersion → Bool
unfolding compare_lists compare_idents zeros
is_older left right =
    let width = max (length left.core) (length right.core) in
    elim (compare_lists compare (pad width left.core) (pad width right.core)) [
      | Ordering.lt ↦ true
      | Ordering.gt ↦ false
      | Ordering.eq ↦ elim left.pre [
        | none ↦ false
        | some l ↦ elim right.pre [
          | none ↦ true
          | some r ↦ is_lt (compare_lists compare_idents l r)
        ]
      ]
    ]

pub is_outdated : List ℕ → List ℕ → Option Bool
unfolding parse_status_version is_older
is_outdated observed latest = elim (parse_status_version observed) [
  | none ↦ none
  | some left ↦ elim (parse_status_version latest) [
    | none ↦ none
    | some right ↦ some (is_older left right)
  ]
]
