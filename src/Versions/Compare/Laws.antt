-- ===== src/Versions/Compare/Laws.antt =====
-- The order of installer/versions.py: what is outdated, and what meets a floor.
use Prim.Native.Nat.{Ordering, compare}
use tools_installer.Base.{
  ℕ, ◌≡◌, refl, Bool, true, false, Option, none, some, List, [], ◌∷◌, arith, ◌∙◌, ap, sym,
  Option-cases, inl, inr, ◌≢◌, leb,
}
use tools_installer.Versions.{Version, parse_version, parse_declared_version}
use tools_installer.Versions.Compare.{
  and_then, compare_lists, is_lt, at_least, meets_minimum, Ident, compare_idents, StatusVersion,
  parse_status_version, is_older, is_outdated,
}
use tools_installer.Versions.Compare.Lexical.{
  flip, IsOrder, eq_right, compare_lists-IsOrder, compare-IsOrder, compare_idents-IsOrder,
}
use tools_installer.Versions.Compare.Cores.{compare_cores, compare_cores-IsOrder, compare-pad-max}

-- A release ranks above its prereleases.
compare_pre : Option (List Ident) → Option (List Ident) → Ordering
compare_pre none none = Ordering.eq
compare_pre none (some r) = Ordering.gt
compare_pre (some l) none = Ordering.lt
compare_pre (some l) (some r) = compare_lists compare_idents l r

compare_pre-IsOrder : IsOrder compare_pre
unfolding compare_pre
compare_pre-IsOrder = record { flips = flips; lt_trans = trans; eq_left = eq_left }
  where
    lists : IsOrder (compare_lists compare_idents)
    lists = compare_lists-IsOrder compare_idents compare_idents-IsOrder

    flips : (a b : Option (List Ident)) → compare_pre b a ≡ flip (compare_pre a b)
    flips none none = refl
    flips none (some b) = refl
    flips (some a) none = refl
    flips (some a) (some b) = lists.flips a b

    trans :
        (a b c : Option (List Ident))
        → compare_pre a b ≡ Ordering.lt
        → compare_pre b c ≡ Ordering.lt
        → compare_pre a c ≡ Ordering.lt
    trans none none c p q = cc
    trans none (some b) c p q = cc
    trans (some a) none none p q = refl
    trans (some a) none (some c) p q = cc
    trans (some a) (some b) none p q = refl
    trans (some a) (some b) (some c) p q = lists.lt_trans a b c p q

    eq_left :
        (a b c : Option (List Ident))
        → compare_pre a b ≡ Ordering.eq
        → compare_pre a c ≡ compare_pre b c
    eq_left none none c p = refl
    eq_left none (some b) c p = cc
    eq_left (some a) none c p = cc
    eq_left (some a) (some b) none p = refl
    eq_left (some a) (some b) (some c) p = lists.eq_left a b c p

compare_status : StatusVersion → StatusVersion → Ordering
compare_status a b = and_then (compare_cores a.core b.core) (compare_pre a.pre b.pre)

compare_status-IsOrder : IsOrder compare_status
unfolding compare_status
compare_status-IsOrder = record {
  flips = λ a b.
      ground
        (arith, compare_cores-IsOrder.flips a.core b.core, compare_pre-IsOrder.flips a.pre b.pre);
  lt_trans = λ a b c p q. ground (
    arith,
    compare_cores-IsOrder.lt_trans a.core b.core c.core,
    compare_cores-IsOrder.eq_left a.core b.core c.core,
    eq_right compare_cores compare_cores-IsOrder a.core b.core c.core,
    compare_pre-IsOrder.lt_trans a.pre b.pre c.pre,
  );
  eq_left = λ a b c p. ground (
    arith,
    compare_cores-IsOrder.eq_left a.core b.core c.core,
    compare_pre-IsOrder.eq_left a.pre b.pre c.pre,
  );
}

is_older-eq : (a b : StatusVersion) → is_older a b ≡ is_lt (compare_status a b)
unfolding is_older compare_status compare_pre
is_older-eq a b = rw (compare-pad-max a.core b.core, is_older) (ground arith)

-- Both texts are read, and compared.
outdated_parts :
    (a b : List ℕ) (answer : Bool)
    → is_outdated a b ≡ some answer
    → (l : StatusVersion) × (r : StatusVersion) × (parse_status_version a ≡ some l)
      × (parse_status_version b ≡ some r)
      × (is_lt (compare_status l r) ≡ answer)
unfolding is_outdated
outdated_parts a b answer h = elim (Option-cases (parse_status_version a)) [
  | inl e ↦ cc e
  | inr (l, e) ↦ elim (Option-cases (parse_status_version b)) [
    | inl f ↦ ground arith
    | inr (r, f) ↦ (l, r, e, f, ground (arith, is_older-eq l r))
  ]
]

outdated_from :
    (a b : List ℕ) (l r : StatusVersion)
    → parse_status_version a ≡ some l
    → parse_status_version b ≡ some r
    → is_outdated a b ≡ some (is_lt (compare_status l r))
unfolding is_outdated
outdated_from a b l r e f = ground (arith, is_older-eq l r)

-- If one version text is outdated against another, the other is not outdated against it.
pub is_outdated-asymm :
    (observed latest : List ℕ)
    → is_outdated observed latest ≡ some true
    → is_outdated latest observed ≡ some false
is_outdated-asymm observed latest h =
    let (l, r, e, f, lt) = outdated_parts observed latest true h in
    outdated_from latest observed r l f e ∙ ground (arith, compare_status-IsOrder.flips l r)

-- Being outdated is transitive.
pub is_outdated_trans :
    (a b c : List ℕ)
    → is_outdated a b ≡ some true
    → is_outdated b c ≡ some true
    → is_outdated a c ≡ some true
is_outdated_trans a b c p q =
    let (l, m, e, f, lt) = outdated_parts a b true p in
    let (m', r, f', g, lt') = outdated_parts b c true q in
    let same : m ≡ m' = cc in
    outdated_from a c l r e g ∙ ground (arith, same, compare_status-IsOrder.lt_trans l m r)

outdated_against :
    (a b c : List ℕ) (l m : StatusVersion)
    → parse_status_version a ≡ some l
    → parse_status_version b ≡ some m
    → compare_status l m ≡ Ordering.eq
    → (is_outdated a c ≡ is_outdated b c) × (is_outdated c a ≡ is_outdated c b)
unfolding is_outdated
outdated_against a b c l m e f equal = elim (Option-cases (parse_status_version c)) [
  | inl g ↦ (ground arith, ground arith)
  | inr (r, g) ↦ (
    outdated_from a c l r e g
        ∙ (ap (λ o. some (is_lt o)) (compare_status-IsOrder.eq_left l m r equal)
            ∙ sym (outdated_from b c m r f g)),
    outdated_from c a r l g e
        ∙ (ap (λ o. some (is_lt o)) (eq_right compare_status compare_status-IsOrder r l m equal)
            ∙ sym (outdated_from c b r m g f)),
  )
]

-- If neither of two version texts is outdated against the other, and both can be read, they are
-- outdated against the same texts, and the same texts against them: replacing one by the other
-- changes no answer.
pub is_outdated-equal :
    (a b c : List ℕ)
    → is_outdated a b ≡ some false
    → is_outdated b a ≡ some false
    → (is_outdated a c ≡ is_outdated b c) × (is_outdated c a ≡ is_outdated c b)
is_outdated-equal a b c p q =
    let (l, m, e, f, ge) = outdated_parts a b false p in
    let (m', l', f', e', le) = outdated_parts b a false q in
    let same_l : l' ≡ l = cc in
    let same_m : m' ≡ m = cc in
    let equal : compare_status l m ≡ Ordering.eq =
      ground (arith, compare_status-IsOrder.flips l m, same_l, same_m) in
    outdated_against a b c l m e f equal

meets_minimum-eq :
    (observed minimum : List ℕ) (v : Version) (need : ℕ × ℕ × ℕ)
    → parse_version observed ≡ some v
    → parse_declared_version minimum ≡ some need
    → meets_minimum observed minimum ≡ at_least v need
unfolding meets_minimum
meets_minimum-eq observed minimum v need e f = rw (e, meets_minimum) (rw (f, meets_minimum) refl)

at_least-own : (v : Version) → at_least v (v.major, v.minor, v.patch) ≡ leb 1 v.rank
unfolding at_least compare_lists
at_least-own v = ground arith

-- A version that can be read meets the floor of its own numbers, where that can be read as one,
-- exactly if it is no prerelease.
pub meets_minimum-own :
    (observed minimum : List ℕ) (v : Version)
    → parse_version observed ≡ some v
    → parse_declared_version minimum ≡ some (v.major, v.minor, v.patch)
    → meets_minimum observed minimum ≡ leb 1 v.rank
meets_minimum-own observed minimum v e f =
    meets_minimum-eq observed minimum v (v.major, v.minor, v.patch) e f ∙ at_least-own v

abbrev numbers : ℕ × ℕ × ℕ → List ℕ
numbers n = n.0 ∷ n.1 ∷ n.2 ∷ []

abbrev floor : ℕ × ℕ × ℕ → List ℕ
floor n = n.0 ∷ n.1 ∷ n.2 ∷ 1 ∷ []

compare_lists-release :
    (l h : ℕ × ℕ × ℕ)
    → compare_lists compare (floor l) (floor h) ≡ compare_lists compare (numbers l) (numbers h)
unfolding compare_lists
compare_lists-release l h = ground arith

at_least_mono :
    (v : Version) (l h : ℕ × ℕ × ℕ)
    → compare_lists compare (numbers l) (numbers h) ≢ Ordering.gt
    → at_least v h ≡ true
    → at_least v l ≡ true
unfolding at_least
at_least_mono v l h le m =
    let lists = compare_lists-IsOrder compare compare-IsOrder in
    let got = v.major ∷ v.minor ∷ v.patch ∷ v.rank ∷ [] in
    ground (
      arith,
      compare_lists-release l h,
      lists.lt_trans got (floor l) (floor h),
      eq_right (compare_lists compare) lists got (floor l) (floor h),
    )

-- What meets a floor meets every floor that is not higher, where both floors can be read.
pub meets_minimum_mono :
    (observed low high : List ℕ) (l h : ℕ × ℕ × ℕ)
    → parse_declared_version low ≡ some l
    → parse_declared_version high ≡ some h
    → compare_lists compare (l.0 ∷ l.1 ∷ l.2 ∷ []) (h.0 ∷ h.1 ∷ h.2 ∷ []) ≢ Ordering.gt
    → meets_minimum observed high ≡ true
    → meets_minimum observed low ≡ true
unfolding meets_minimum
meets_minimum_mono observed low high l h e f le m = elim (Option-cases (parse_version observed)) [
  | inl g ↦ ground arith
  | inr (v, g) ↦
      meets_minimum-eq observed low v l g e
      ∙ at_least_mono v l h le (sym (meets_minimum-eq observed high v h g f) ∙ m)
]
