-- ===== src/Base/Sort.antt =====
-- `sorted(xs, key=…)`: a stable sort by a numeric key.
use Prim.Native.Nat.{ℕ, suc, ◌≤◌}
use mathlib.Core.Path.{◌≡◌, refl, ap, ◌∙◌}
use mathlib.Core.Logic.{inl, inr}
use mathlib.Core.List.{List, [], ◌∷◌}
use native.Mathlib.Omega.{arith}
use tools_installer.Base.Tests.{leb, eqb, if◌then◌else◌, Bool-cases}
use tools_installer.Base.Lists.{filter, All, length}

module _ {ℓ} {A : Type ℓ} (key : A → ℕ) where
  insert : A → List A → List A
  insert x [] = x ∷ []
  insert x (y ∷ ys) = let rest = insert x ys in if leb (key x) (key y) then x ∷ y ∷ ys else y ∷ rest

  unfoldable pub sorted : List A → List A
  unfolding insert
  sorted [] = []
  sorted (x ∷ xs) = insert x (sorted xs)

  abbrev pub IsSorted : List A → Type 0
  IsSorted [] = Unit
  IsSorted (x ∷ xs) = All (λ y. key x ≤ key y) xs × IsSorted xs

  insert-All :
      (n : ℕ) (x : A) (xs : List A)
      → n ≤ key x
      → All (λ y. n ≤ key y) xs
      → All (λ y. n ≤ key y) (insert x xs)
  unfolding insert
  insert-All n x [] h all = (h, tt)
  insert-All n x (y ∷ ys) h all = elim (Bool-cases (leb (key x) (key y))) [
    | inl le ↦ rw le (h, all)
    | inr gt ↦ rw gt (all.0, insert-All n x ys h all.1)
  ]

  All-le : (m n : ℕ) (xs : List A) → m ≤ n → All (λ y. n ≤ key y) xs → All (λ y. m ≤ key y) xs
  All-le m n [] h all = tt
  All-le m n (x ∷ xs) h all = (omega arith, All-le m n xs h all.1)

  insert-IsSorted : (x : A) (xs : List A) → IsSorted xs → IsSorted (insert x xs)
  unfolding insert
  insert-IsSorted x [] s = (tt, tt)
  insert-IsSorted x (y ∷ ys) s = elim (Bool-cases (leb (key x) (key y))) [
    | inl le ↦
        let h : key x ≤ key y = ground arith in rw le ((h, All-le (key x) (key y) ys h s.0), s)
    | inr gt ↦ rw gt (insert-All (key y) x ys (ground arith) s.0, insert-IsSorted x ys s.1)
  ]

  pub sorted-IsSorted : (xs : List A) → IsSorted (sorted xs)
  unfolding sorted
  sorted-IsSorted [] = tt
  sorted-IsSorted (x ∷ xs) = insert-IsSorted x (sorted xs) (sorted-IsSorted xs)

  insert-keeps {κ} : (P : A → Type κ) (x : A) (xs : List A) → P x → All P xs → All P (insert x xs)
  unfolding insert
  insert-keeps P x [] h all = (h, tt)
  insert-keeps P x (y ∷ ys) h all = elim (Bool-cases (leb (key x) (key y))) [
    | inl le ↦ rw le (h, all)
    | inr gt ↦ rw gt (all.0, insert-keeps P x ys h all.1)
  ]

  pub sorted-All {κ} : (P : A → Type κ) (xs : List A) → All P xs → All P (sorted xs)
  unfolding sorted
  sorted-All P [] h = tt
  sorted-All P (x ∷ xs) h = insert-keeps P x (sorted xs) h.0 (sorted-All P xs h.1)

  length-insert : (x : A) (xs : List A) → length (insert x xs) ≡ suc (length xs)
  unfolding insert
  length-insert x [] = refl
  length-insert x (y ∷ ys) = ground (arith, length-insert x ys)

  pub length-sorted : (xs : List A) → length (sorted xs) ≡ length xs
  unfolding sorted
  length-sorted [] = refl
  length-sorted (x ∷ xs) = length-insert x (sorted xs) ∙ ap suc (length-sorted xs)

  -- The elements of one key, in the order in which they stand.
  abbrev pub of_key : ℕ → List A → List A
  of_key k = filter (λ x. eqb (key x) k)

  insert-of_key :
      (k : ℕ) (x : A) (xs : List A)
      → of_key k (insert x xs) ≡ (if eqb (key x) k then x ∷ of_key k xs else of_key k xs)
  unfolding insert
  insert-of_key k x [] = refl
  insert-of_key k x (y ∷ ys) = ground (arith, insert-of_key k x ys)

  pub sorted-of_key : (k : ℕ) (xs : List A) → of_key k (sorted xs) ≡ of_key k xs
  unfolding sorted
  sorted-of_key k [] = refl
  sorted-of_key k (x ∷ xs) = ground (arith, insert-of_key k x (sorted xs), sorted-of_key k xs)
