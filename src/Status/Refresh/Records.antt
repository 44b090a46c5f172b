-- ===== src/Status/Refresh/Records.antt =====
-- Lists of records and dictionaries: what filters, updates and look-ups keep.
use tools_installer.Base.{
  String, ◌≡◌, refl, ◌∙◌, arith, Bool, true, false, Option, none, some, List, [], ◌∷◌, inl, inr,
  filter, Bool-cases, All, contains, get, put, get-put, ◌==◌,
}
use tools_installer.Status.Refresh.{update_all, keys}

module _ {ℓ} {A : Type ℓ} (P : A → Type 0) where
  pub All-filter : (p : A → Bool) (xs : List A) → All P xs → All P (filter p xs)
  All-filter p [] h = tt
  All-filter p (x ∷ xs) h = elim (Bool-cases (p x)) [
    | inl holds ↦ rw holds (h.0, All-filter p xs h.1)
    | inr fails ↦ rw fails (All-filter p xs h.1)
  ]

  -- What the test says of the elements that are left
  pub All-filter_test :
      (p : A → Bool) (xs : List A) → All (λ x. p x ≡ true → P x) xs → All P (filter p xs)
  All-filter_test p [] h = tt
  All-filter_test p (x ∷ xs) h = elim (Bool-cases (p x)) [
    | inl holds ↦ rw holds (h.0 holds, All-filter_test p xs h.1)
    | inr fails ↦ rw fails (All-filter_test p xs h.1)
  ]

module _ {A : Type 0} (R : A → A → Type 0) where
  -- Every element and every later one
  abbrev pub Pairs : List A → Type 0
  Pairs [] = Unit
  Pairs (x ∷ xs) = All (R x) xs × Pairs xs

  pub Pairs-filter : (p : A → Bool) (xs : List A) → Pairs xs → Pairs (filter p xs)
  Pairs-filter p [] h = tt
  Pairs-filter p (x ∷ xs) h = elim (Bool-cases (p x)) [
    | inl holds ↦ rw holds (All-filter (R x) p xs h.0, Pairs-filter p xs h.1)
    | inr fails ↦ rw fails (Pairs-filter p xs h.1)
  ]

module _ {V : Type 0} (P : V → Type 0) where
  abbrev pub Values : List (String × V) → Type 0
  Values = All (λ (e : String × V). P e.1)

  Values-put :
      (key : String) (v : V) (d : List (String × V)) → P v → Values d → Values (put key v d)
  unfolding put
  Values-put key v [] h hs = (h, tt)
  Values-put key v ((k, w) ∷ d) h hs = elim (Bool-cases (k == key)) [
    | inl holds ↦ rw holds (h, hs.1)
    | inr fails ↦ rw fails (hs.0, Values-put key v d h hs.1)
  ]

  pub Values-update_all :
      (d new : List (String × V)) → Values d → Values new → Values (update_all d new)
  unfolding update_all
  Values-update_all d [] h k = h
  Values-update_all d ((key, v) ∷ new) h k =
      Values-update_all (put key v d) new (Values-put key v d k.0 h) k.1

  abbrev pub OnValue : Option V → Type 0
  OnValue none = Unit
  OnValue (some v) = P v

  pub get-OnValue : (key : String) (d : List (String × V)) → Values d → OnValue (get key d)
  unfolding get
  get-OnValue key [] h = tt
  get-OnValue key ((k, w) ∷ d) h = elim (Bool-cases (k == key)) [
    | inl holds ↦ rw holds h.0
    | inr fails ↦ rw fails (get-OnValue key d h.1)
  ]

module _ {V : Type 0} where
  -- An update has no say on other keys.
  pub get-update_all :
      (key : String) (d new : List (String × V))
      → contains key (keys new) ≡ false
      → get key (update_all d new) ≡ get key d
  unfolding update_all keys contains
  get-update_all key d [] h = refl
  get-update_all key d ((k, v) ∷ new) h =
      get-update_all key (put k v d) new (ground (arith, h)) ∙ get-put k key v d ∙ ground (arith, h)

  pub get-filter :
      (key : String) (p : String × V → Bool) (d : List (String × V))
      → get key d ≡ none
      → get key (filter p d) ≡ none
  unfolding get
  get-filter key p [] h = refl
  get-filter key p (e ∷ d) h = ground (arith, get-filter key p d, h)

  pub get-filter_out :
      (key : String) (p : String × V → Bool) (d : List (String × V))
      → ((e : String × V) → (e.0 == key) ≡ true → p e ≡ false)
      → get key (filter p d) ≡ none
  unfolding get
  get-filter_out key p [] h = refl
  get-filter_out key p (e ∷ d) h = ground (arith, get-filter_out key p d h, h e)

pub absurd_key : {A : Type 0} → false ≡ true → A
absurd_key h = cc

module _ {V : Type 0} (P : V → Type 0) where
  -- An update answers for its own keys.
  pub get-update_all_in :
      (key : String) (d new : List (String × V))
      → contains key (keys new) ≡ true
      → Values P new
      → (v : V) × (get key (update_all d new) ≡ some v) × P v
  unfolding update_all keys contains
  get-update_all_in key d [] h hs = absurd_key h
  get-update_all_in key d ((k, v) ∷ new) h hs = elim (Bool-cases (contains key (keys new))) [
    | inl later ↦ get-update_all_in key (put k v d) new later hs.1
    | inr last ↦ (
      v,
      get-update_all key (put k v d) new last ∙ get-put k key v d ∙ ground (arith, h, last),
      hs.0,
    )
  ]

module _ {V : Type 0} where
  pub contains-keys-filter :
      (key : String) (p : String × V → Bool) (d : List (String × V))
      → contains key (keys d) ≡ true
      → ((e : String × V) → (e.0 == key) ≡ true → p e ≡ true)
      → contains key (keys (filter p d)) ≡ true
  unfolding keys contains
  contains-keys-filter key p [] h k = h
  contains-keys-filter key p (e ∷ d) h k = ground (arith, h, k e, contains-keys-filter key p d)

  pub get-filter_kept :
      (key : String) (p : String × V → Bool) (d : List (String × V))
      → ((e : String × V) → (e.0 == key) ≡ true → p e ≡ true)
      → get key (filter p d) ≡ get key d
  unfolding get
  get-filter_kept key p [] h = refl
  get-filter_kept key p (e ∷ d) h = ground (arith, get-filter_kept key p d h, h e)
