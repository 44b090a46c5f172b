-- ===== src/Versions/Compare/Lexical.antt =====
-- The lexicographic comparisons of installer/versions.py are orders.
use Prim.Native.Nat.{Ordering, compare}
use tools_installer.Base.{◌≡◌, refl, List, [], ◌∷◌, arith}
use tools_installer.Versions.Compare.{compare_lists, Ident, number, text, compare_idents}

abbrev pub flip : Ordering → Ordering
flip Ordering.lt = Ordering.gt
flip Ordering.eq = Ordering.eq
flip Ordering.gt = Ordering.lt

-- A comparison that is antisymmetric and transitive.
pub record IsOrder {ℓ} {A : Type ℓ} (cmp : A → A → Ordering) : Type ℓ where
  pub flips : (a b : A) → cmp b a ≡ flip (cmp a b)
  pub lt_trans : (a b c : A) → cmp a b ≡ Ordering.lt → cmp b c ≡ Ordering.lt → cmp a c ≡ Ordering.lt
  pub eq_left : (a b c : A) → cmp a b ≡ Ordering.eq → cmp a c ≡ cmp b c

module _ {ℓ} {A : Type ℓ} (cmp : A → A → Ordering) (o : IsOrder cmp) where
  compare_lists-flip : (xs ys : List A) → compare_lists cmp ys xs ≡ flip (compare_lists cmp xs ys)
  unfolding compare_lists
  compare_lists-flip [] [] = refl
  compare_lists-flip [] (y ∷ ys) = refl
  compare_lists-flip (x ∷ xs) [] = refl
  compare_lists-flip (x ∷ xs) (y ∷ ys) = ground (arith, o.flips x y, compare_lists-flip xs ys)

  pub eq_right : (a b c : A) → cmp b c ≡ Ordering.eq → cmp a b ≡ cmp a c
  eq_right a b c e =
      ground
        (arith, o.flips a b, o.flips a c, o.flips b c, o.eq_left c b a, o.flips c a, o.flips b a)

  compare_lists_trans :
      (xs ys zs : List A)
      → compare_lists cmp xs ys ≡ Ordering.lt
      → compare_lists cmp ys zs ≡ Ordering.lt
      → compare_lists cmp xs zs ≡ Ordering.lt
  unfolding compare_lists
  compare_lists_trans [] [] zs p q = cc
  compare_lists_trans [] (y ∷ ys) [] p q = cc
  compare_lists_trans [] (y ∷ ys) (z ∷ zs) p q = refl
  compare_lists_trans (x ∷ xs) [] zs p q = cc
  compare_lists_trans (x ∷ xs) (y ∷ ys) [] p q = cc
  compare_lists_trans (x ∷ xs) (y ∷ ys) (z ∷ zs) p q =
      ground
        (arith, o.lt_trans x y z, o.eq_left x y z, eq_right x y z, compare_lists_trans xs ys zs)

  compare_lists-eq_left :
      (xs ys zs : List A)
      → compare_lists cmp xs ys ≡ Ordering.eq
      → compare_lists cmp xs zs ≡ compare_lists cmp ys zs
  unfolding compare_lists
  compare_lists-eq_left [] [] zs p = refl
  compare_lists-eq_left [] (y ∷ ys) zs p = cc
  compare_lists-eq_left (x ∷ xs) [] zs p = cc
  compare_lists-eq_left (x ∷ xs) (y ∷ ys) [] p = refl
  compare_lists-eq_left (x ∷ xs) (y ∷ ys) (z ∷ zs) p =
      ground (arith, o.eq_left x y z, compare_lists-eq_left xs ys zs)

  pub compare_lists-IsOrder : IsOrder (compare_lists cmp)
  compare_lists-IsOrder = record {
    flips = λ xs ys. compare_lists-flip xs ys;
    lt_trans = λ xs ys zs. compare_lists_trans xs ys zs;
    eq_left = λ xs ys zs. compare_lists-eq_left xs ys zs;
  }

pub compare-IsOrder : IsOrder compare
compare-IsOrder = record {
  flips = λ a b. ground arith;
  lt_trans = λ a b c p q. ground arith;
  eq_left = λ a b c p. ground arith;
}

pub compare_idents-IsOrder : IsOrder compare_idents
unfolding compare_idents
compare_idents-IsOrder = record { flips = flips; lt_trans = trans; eq_left = eq_left }
  where
    lists : IsOrder (compare_lists compare)
    lists = compare_lists-IsOrder compare compare-IsOrder

    flips : (a b : Ident) → compare_idents b a ≡ flip (compare_idents a b)
    flips (number a) (number b) = compare-IsOrder.flips a b
    flips (number a) (text b) = refl
    flips (text a) (number b) = refl
    flips (text a) (text b) = lists.flips a b

    trans :
        (a b c : Ident)
        → compare_idents a b ≡ Ordering.lt
        → compare_idents b c ≡ Ordering.lt
        → compare_idents a c ≡ Ordering.lt
    trans (number a) (number b) (number c) p q = compare-IsOrder.lt_trans a b c p q
    trans (number a) (number b) (text c) p q = refl
    trans (number a) (text b) (number c) p q = cc
    trans (number a) (text b) (text c) p q = refl
    trans (text a) (number b) c p q = cc
    trans (text a) (text b) (number c) p q = cc
    trans (text a) (text b) (text c) p q = lists.lt_trans a b c p q

    eq_left :
        (a b c : Ident) → compare_idents a b ≡ Ordering.eq → compare_idents a c ≡ compare_idents b c
    eq_left (number a) (number b) (number c) p = compare-IsOrder.eq_left a b c p
    eq_left (number a) (number b) (text c) p = refl
    eq_left (number a) (text b) c p = cc
    eq_left (text a) (number b) c p = cc
    eq_left (text a) (text b) (number c) p = refl
    eq_left (text a) (text b) (text c) p = lists.eq_left a b c p
