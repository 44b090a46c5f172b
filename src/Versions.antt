-- ===== src/Versions.antt =====
-- installer/versions.py: the versions that tools print and that the registry declares.
-- The regular expressions are written out as scanners over ASCII code points.
pub mod Compare
use mathlib.Core.List.{reverse}
use tools_installer.Base.{
  ℕ, zero, suc, ◌+◌, ◌-◌, ◌*◌, String, Bool, true, false, not, ◌&&◌, ◌||◌, Option, none, some, List,
  [], ◌∷◌, ◌++◌, ltb, leb, eqb, if◌then◌else◌, all, length, codes, is_digit, is_alpha, is_space,
  drop_while, take_while, rstrip, strip,
}

-- `\d+(?:\.\d+)*`, as far as it goes: the numbers, and what follows. `cur` is the number being
-- read, or nothing where a digit has to come. A dot with no digit behind it fails the whole match.
pub core : Option ℕ → List ℕ → List ℕ → Option (List ℕ × List ℕ)
unfolding is_digit
core none nums [] = none
core (some n) nums [] = some (nums ++ n ∷ [], [])
core none nums (c ∷ cs) =
    let more = core (some (c - b'0')) nums cs in if is_digit c then more else none
core (some n) nums (c ∷ cs) =
    let more = core (some (n * 10 + (c - b'0'))) nums cs in
    let next = core none (nums ++ n ∷ []) cs in
    if is_digit c then more else if eqb c b'.' then next else some (nums ++ n ∷ [], c ∷ cs)

-- `[0-9A-Za-z.-]`
is_ident : ℕ → Bool
unfolding is_digit is_alpha
is_ident c = is_digit c || is_alpha c || eqb c b'.' || eqb c b'-'

abbrev non_empty : List ℕ → Bool
non_empty [] = false
non_empty (_ ∷ _) = true

-- `(?:\+[0-9A-Za-z.-]+)?$`
build : List ℕ → Bool
unfolding is_ident
build [] = true
build (c ∷ cs) = eqb c b'+' && non_empty cs && all is_ident cs

-- `(?:-([0-9A-Za-z.-]+))?(?:\+…)?$`: the prerelease, if the rest of the token is well formed.
suffix : List ℕ → Option (Option (List ℕ))
unfolding build take_while drop_while
suffix [] = some none
suffix (c ∷ cs) =
    let pre = take_while is_ident cs in
    if eqb c b'-'
    then if non_empty pre && build (drop_while is_ident cs) then some (some pre) else none
    else if build (c ∷ cs)
    then some none
    else none

abbrev lower_v : List ℕ → List ℕ
lower_v [] = []
lower_v (c ∷ cs) = if eqb c b'v' then cs else c ∷ cs

abbrev any_v : List ℕ → List ℕ
any_v [] = []
any_v (c ∷ cs) = if eqb c b'v' || eqb c b'V' then cs else c ∷ cs

-- `_OBSERVED_VERSION.fullmatch`: the numbers of the core, and the prerelease.
pub observed_version : List ℕ → Option (List ℕ × Option (List ℕ))
unfolding core suffix
observed_version token = elim (core none [] (any_v token)) [
  | none ↦ none
  | some r ↦ elim (suffix r.1) [ none ↦ none | some pre ↦ some (r.0, pre) ]
]

abbrev is_quote : ℕ → Bool
is_quote c = eqb c b'"' || eqb c 39

abbrev lstrip_quote : List ℕ → List ℕ
lstrip_quote [] = []
lstrip_quote (c ∷ cs) = if is_quote c then cs else c ∷ cs

-- `token.removeprefix(prefix)`
remove_prefix : List ℕ → List ℕ → Option (List ℕ)
remove_prefix [] s = some s
remove_prefix (p ∷ ps) [] = none
remove_prefix (p ∷ ps) (c ∷ cs) = let rest = remove_prefix ps cs in if eqb p c then rest else none

pub normalize_version_token : List ℕ → List ℕ
unfolding rstrip drop_while remove_prefix
normalize_version_token token =
    let cleaned = rstrip (λ c. eqb c b',' || eqb c b';') token in
    let bare : List ℕ = elim (remove_prefix (codes "version=") cleaned) [
      | none ↦ cleaned
      | some s ↦ s
    ] in
    reverse (lstrip_quote (reverse (lstrip_quote bare)))

-- `(?=[vV]?\d)`
starts_version : List ℕ → Bool
unfolding is_digit
starts_version s = elim (any_v s) [ [] ↦ false | c ∷ _ ↦ is_digit c ]

-- `.*[-\s](?=[vV]?\d)`: the last such place, as what stands before it and what follows it. What
-- stands before it holds no newline, which `.` does not match.
split_last : List ℕ → Option (List ℕ × List ℕ)
unfolding starts_version is_space
split_last [] = none
split_last (c ∷ cs) =
    let later = split_last cs in
    elim (if eqb c b'\n' then none else later) [
      | some r ↦ some (c ∷ r.0, r.1)
      | none ↦ if (eqb c b'-' || is_space c) && starts_version cs then some ([], cs) else none
    ]

-- `len(prefix) >= 2` and an ASCII letter first
abbrev is_name : List ℕ → Bool
is_name (c ∷ _ ∷ _) = is_alpha c
is_name _ = false

pub strip_name_prefix : List ℕ → List ℕ
unfolding split_last is_alpha
strip_name_prefix token = elim (split_last token) [
  | none ↦ token
  | some r ↦ if is_name r.0 then r.1 else token
]

pub match_observed_version : List ℕ → Option (List ℕ × Option (List ℕ))
unfolding observed_version normalize_version_token strip_name_prefix
match_observed_version raw =
    let token = normalize_version_token raw in
    elim (observed_version token) [
      | some m ↦ some m
      | none ↦ observed_version (strip_name_prefix token)
    ]

pub record Version : Type 0 where
  pub major : ℕ
  pub minor : ℕ
  pub patch : ℕ
  -- 1 for a release, 0 for a prerelease
  pub rank : ℕ

abbrev nth : ℕ → List ℕ → ℕ
nth i [] = 0
nth zero (n ∷ ns) = n
nth (suc i) (n ∷ ns) = nth i ns

-- The first token of the text, `None` if there is none.
pub parse_version : List ℕ → Option Version
unfolding match_observed_version strip take_while is_space
parse_version text =
    elim (match_observed_version (take_while (λ c. not (is_space c)) (strip text))) [
      | none ↦ none
      | some m ↦ some (record {
        major = nth 0 m.0;
        minor = nth 1 m.0;
        patch = nth 2 m.0;
        rank = elim m.1 [ none ↦ 1 | some _ ↦ 0 ];
      })
    ]

-- `^v?(\d+)(?:\.(\d+))?(?:\.(\d+))?$` on the stripped text.
pub parse_declared_version : List ℕ → Option (ℕ × ℕ × ℕ)
unfolding core strip
parse_declared_version text = elim (core none [] (lower_v (strip text))) [
  | none ↦ none
  | some r ↦
      if not (non_empty r.1) && leb (length r.0) 3
      then some (nth 0 r.0, nth 1 r.0, nth 2 r.0)
      else none
]
