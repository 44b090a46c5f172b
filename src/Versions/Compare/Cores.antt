-- ===== src/Versions/Compare/Cores.antt =====
-- The comparison of version cores of different lengths in installer/versions.py.
use Prim.Native.Nat.{Ordering, compare, max}
use tools_installer.Base.{ℕ, zero, suc, ◌+◌, ◌-◌, ◌≡◌, refl, List, [], ◌∷◌, ◌++◌, arith, length}
use tools_installer.Versions.Compare.{and_then, compare_lists, zeros, pad}
use tools_installer.Versions.Compare.Lexical.{flip, IsOrder}

-- Cores compared as if each went on with zeros.
pub compare_cores : List ℕ → List ℕ → Ordering
compare_cores [] [] = Ordering.eq
compare_cores [] (y ∷ ys) = and_then (compare 0 y) (compare_cores [] ys)
compare_cores (x ∷ xs) [] = and_then (compare x 0) (compare_cores xs [])
compare_cores (x ∷ xs) (y ∷ ys) = and_then (compare x y) (compare_cores xs ys)

compare-zeros : (m n : ℕ) → m ≡ n → compare_lists compare (zeros m) (zeros n) ≡ Ordering.eq
unfolding compare_lists zeros
compare-zeros zero zero e = refl
compare-zeros zero (suc n) e = absurd (omega arith)
compare-zeros (suc m) zero e = absurd (omega arith)
compare-zeros (suc m) (suc n) e = compare-zeros m n (omega arith)

-- Padding to one length does not change the comparison.
compare-pad :
    (xs ys : List ℕ) (m n : ℕ)
    → length xs + m ≡ length ys + n
    → compare_lists compare (xs ++ zeros m) (ys ++ zeros n) ≡ compare_cores xs ys
unfolding compare_lists zeros compare_cores
compare-pad [] [] m n e = compare-zeros m n (omega arith)
compare-pad [] (y ∷ ys) zero n e = absurd (omega arith)
compare-pad [] (y ∷ ys) (suc m) n e = ground (arith, compare-pad [] ys m n (omega arith))
compare-pad (x ∷ xs) [] m zero e = absurd (omega arith)
compare-pad (x ∷ xs) [] m (suc n) e = ground (arith, compare-pad xs [] m n (omega arith))
compare-pad (x ∷ xs) (y ∷ ys) m n e = ground (arith, compare-pad xs ys m n (omega arith))

compare_cores-flip : (xs ys : List ℕ) → compare_cores ys xs ≡ flip (compare_cores xs ys)
unfolding compare_cores
compare_cores-flip [] [] = refl
compare_cores-flip [] (y ∷ ys) = ground (arith, compare_cores-flip [] ys)
compare_cores-flip (x ∷ xs) [] = ground (arith, compare_cores-flip xs [])
compare_cores-flip (x ∷ xs) (y ∷ ys) = ground (arith, compare_cores-flip xs ys)

compare_cores-eq_left :
    (xs ys zs : List ℕ)
    → compare_cores xs ys ≡ Ordering.eq
    → compare_cores xs zs ≡ compare_cores ys zs
unfolding compare_cores
compare_cores-eq_left [] [] zs e = refl
compare_cores-eq_left [] (y ∷ ys) [] e = ground (arith, compare_cores-eq_left [] ys [])
compare_cores-eq_left [] (y ∷ ys) (z ∷ zs) e = ground (arith, compare_cores-eq_left [] ys zs)
compare_cores-eq_left (x ∷ xs) [] [] e = ground (arith, compare_cores-eq_left xs [] [])
compare_cores-eq_left (x ∷ xs) [] (z ∷ zs) e = ground (arith, compare_cores-eq_left xs [] zs)
compare_cores-eq_left (x ∷ xs) (y ∷ ys) [] e = ground (arith, compare_cores-eq_left xs ys [])
compare_cores-eq_left (x ∷ xs) (y ∷ ys) (z ∷ zs) e = ground (arith, compare_cores-eq_left xs ys zs)

compare_cores-eq_right :
    (xs ys zs : List ℕ)
    → compare_cores ys zs ≡ Ordering.eq
    → compare_cores xs ys ≡ compare_cores xs zs
compare_cores-eq_right xs ys zs e = ground (
  arith,
  compare_cores-flip xs ys,
  compare_cores-flip xs zs,
  compare_cores-flip ys zs,
  compare_cores-eq_left ys zs xs,
  compare_cores-flip ys xs,
  compare_cores-flip zs xs,
)

compare_cores_trans :
    (xs ys zs : List ℕ)
    → compare_cores xs ys ≡ Ordering.lt
    → compare_cores ys zs ≡ Ordering.lt
    → compare_cores xs zs ≡ Ordering.lt
unfolding compare_cores
compare_cores_trans [] [] [] p q = cc
compare_cores_trans [] [] (z ∷ zs) p q = ground (
  arith,
  compare_cores_trans [] [] zs,
  compare_cores-eq_left [] [] zs,
  compare_cores-eq_right [] [] zs,
)
compare_cores_trans [] (y ∷ ys) [] p q = ground (
  arith,
  compare_cores_trans [] ys [],
  compare_cores-eq_left [] ys [],
  compare_cores-eq_right [] ys [],
)
compare_cores_trans [] (y ∷ ys) (z ∷ zs) p q = ground (
  arith,
  compare_cores_trans [] ys zs,
  compare_cores-eq_left [] ys zs,
  compare_cores-eq_right [] ys zs,
)
compare_cores_trans (x ∷ xs) [] [] p q = ground (
  arith,
  compare_cores_trans xs [] [],
  compare_cores-eq_left xs [] [],
  compare_cores-eq_right xs [] [],
)
compare_cores_trans (x ∷ xs) [] (z ∷ zs) p q = ground (
  arith,
  compare_cores_trans xs [] zs,
  compare_cores-eq_left xs [] zs,
  compare_cores-eq_right xs [] zs,
)
compare_cores_trans (x ∷ xs) (y ∷ ys) [] p q = ground (
  arith,
  compare_cores_trans xs ys [],
  compare_cores-eq_left xs ys [],
  compare_cores-eq_right xs ys [],
)
compare_cores_trans (x ∷ xs) (y ∷ ys) (z ∷ zs) p q = ground (
  arith,
  compare_cores_trans xs ys zs,
  compare_cores-eq_left xs ys zs,
  compare_cores-eq_right xs ys zs,
)

pub compare_cores-IsOrder : IsOrder compare_cores
compare_cores-IsOrder = record {
  flips = λ xs ys. compare_cores-flip xs ys;
  lt_trans = λ xs ys zs. compare_cores_trans xs ys zs;
  eq_left = λ xs ys zs. compare_cores-eq_left xs ys zs;
}

-- What `is_outdated` compares the cores by.
pub compare-pad-max :
    (xs ys : List ℕ)
    → compare_lists compare
        (pad (max (length xs) (length ys)) xs)
        (pad (max (length xs) (length ys)) ys)
      ≡ compare_cores xs ys
compare-pad-max xs ys =
    compare-pad xs ys (max (length xs) (length ys) - length xs)
      (max (length xs) (length ys) - length ys) (omega arith)
