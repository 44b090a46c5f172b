-- ===== src/Status/Refresh/Keys.antt =====
-- Sets of tool ids as keys, and the flight that a set finds.
use tools_installer.Base.{
  String, ◌≡◌, refl, sym, ap, ◌∙◌, arith, Bool, true, false, Option, none, some, List, [], ◌∷◌, inl,
  inr, all, filter, Bool-cases, contains, contains-cons_self, Subset, Subset-cons, eq_iff,
}
use tools_installer.Status.Refresh.{Flight, same_set, flight_for, with_flight}

all-contains : (xs ys : List String) → Subset xs ys → all (λ x. contains x ys) xs ≡ true
all-contains [] ys h = refl
all-contains (x ∷ xs) ys h =
    ground
      (arith, h x (contains-cons_self x xs), all-contains xs ys (λ z i. h z (Subset-cons x xs z i)))

contains-all : (xs ys : List String) → all (λ x. contains x ys) xs ≡ true → Subset xs ys
unfolding contains
contains-all [] ys h x i = ground (arith, i)
contains-all (y ∷ xs) ys h x i =
    ground (arith, eq_iff y x, h, i, contains-all xs ys (ground (arith, h)) x)

-- `same_set` as two inclusions.
pub same_set-of : (xs ys : List String) → Subset xs ys → Subset ys xs → same_set xs ys ≡ true
unfolding same_set
same_set-of xs ys h k = ground (arith, all-contains xs ys h, all-contains ys xs k)

same_set-left : (xs ys : List String) → same_set xs ys ≡ true → Subset xs ys
unfolding same_set
same_set-left xs ys h = contains-all xs ys (ground (arith, h))

same_set-right : (xs ys : List String) → same_set xs ys ≡ true → Subset ys xs
unfolding same_set
same_set-right xs ys h = contains-all ys xs (ground (arith, h))

pub same_set_refl : (xs : List String) → same_set xs xs ≡ true
same_set_refl xs = same_set-of xs xs (λ x i. i) (λ x i. i)

pub same_set_comm : (xs ys : List String) → same_set xs ys ≡ true → same_set ys xs ≡ true
same_set_comm xs ys h = same_set-of ys xs (same_set-right xs ys h) (same_set-left xs ys h)

pub same_set_trans :
    (xs ys zs : List String) → same_set xs ys ≡ true → same_set ys zs ≡ true → same_set xs zs ≡ true
same_set_trans xs ys zs h k =
    same_set-of xs zs (λ x i. same_set-left ys zs k x (same_set-left xs ys h x i))
      (λ x i. same_set-right xs ys h x (same_set-right ys zs k x i))

-- The same set finds the same flight.
pub same_set-flight_for :
    (k j : List String) (fs : List Flight) → same_set k j ≡ true → flight_for k fs ≡ flight_for j fs
unfolding flight_for
same_set-flight_for k j [] h = refl
same_set-flight_for k j (f ∷ fs) h = ground (
  arith,
  same_set-flight_for k j fs h,
  same_set_trans f.key k j,
  same_set_trans f.key j k,
  same_set_comm k j h,
  h,
)

pub flight_for-with_flight_self :
    (f : Flight) (fs : List Flight) → flight_for f.key (with_flight f fs) ≡ some f
unfolding flight_for with_flight
flight_for-with_flight_self f [] = rw (same_set_refl f.key) refl
flight_for-with_flight_self f (g ∷ fs) = elim (Bool-cases (same_set g.key f.key)) [
  | inl holds ↦ rw holds (rw (same_set_refl f.key) refl)
  | inr fails ↦ rw fails (rw fails (flight_for-with_flight_self f fs))
]

pub flight_for-with_flight :
    (k : List String) (f : Flight) (fs : List Flight)
    → same_set f.key k ≡ false
    → flight_for k (with_flight f fs) ≡ flight_for k fs
unfolding flight_for with_flight
flight_for-with_flight k f [] h = rw h refl
flight_for-with_flight k f (g ∷ fs) h = ground (
  arith,
  flight_for-with_flight k f fs h,
  h,
  same_set_comm g.key f.key,
  same_set_trans f.key g.key k,
)

value_or : Flight → Option Flight → Flight
value_or f none = f
value_or f (some g) = g

skips :
    (k : List String) (g : Flight) (fs : List Flight)
    → same_set g.key k ≡ false
    → flight_for k (g ∷ fs) ≡ flight_for k fs
unfolding flight_for
skips k g fs h = rw h refl

finds :
    (k : List String) (g : Flight) (fs : List Flight)
    → same_set g.key k ≡ true
    → flight_for k (g ∷ fs) ≡ some g
unfolding flight_for
finds k g fs h = rw h refl

pub flight_for-filter :
    (k : List String) (f : Flight) (p : Flight → Bool) (fs : List Flight)
    → p f ≡ true
    → flight_for k fs ≡ some f
    → flight_for k (filter p fs) ≡ some f
unfolding value_or
flight_for-filter k f p [] kept h = h
flight_for-filter k f p (g ∷ fs) kept h = elim (Bool-cases (same_set g.key k)) [
  | inl holds ↦
      let found : some g ≡ some f = sym (finds k g fs holds) ∙ h in
      let same : g ≡ f = ap (value_or f) found in
      rw (ap p same ∙ kept) (finds k g (filter p fs) holds ∙ found)
  | inr fails ↦
      let later : flight_for k fs ≡ some f = sym (skips k g fs fails) ∙ h in
      elim (Bool-cases (p g)) [
        | inl keeps ↦
            rw keeps (skips k g (filter p fs) fails ∙ flight_for-filter k f p fs kept later)
        | inr drops ↦ rw drops (flight_for-filter k f p fs kept later)
      ]
]
