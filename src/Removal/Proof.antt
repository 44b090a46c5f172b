-- ===== src/Removal/Proof.antt =====
-- That every path which may be removed is proven to be the installer's own.
use tools_installer.Base.{
  String, ◌≡◌, refl, ap, ◌∙◌, arith, Bool, true, false, not, ◌&&◌, ◌⊎◌, inl, inr, Option, none,
  some, List, [], ◌∷◌, ◌++◌, ◌==◌, eq_iff, map, filter, if◌then◌else◌, Bool-cases, All, All-map,
  All-append, contains, put, contains-unique_exact, Distinct, Distinct-snoc,
}
use tools_installer.Model.{Method, Tool}
use tools_installer.Removal.{
  link, dir, ReceiptArtifact, Receipt, Disk, is_download, is_authorized, proof_of, receipt_proof,
  first_of, both, layout_of, layout_proof, layout_proofs, Found, add_artifact, add_artifacts,
  with_tool, nothing_found, with_leftovers, leftovers_of, plan_tool, plan_tools, rest_of,
  plan_uninstall, plan_removal,
}

-- A predicate on one of the elements
abbrev pub Among {ℓ} : {A : Type ℓ} → (A → Type 0) → List A → Type 0
Among P [] = ◌≡◌ {A = Bool} true false
Among P (x ∷ xs) = P x ⊎ Among P xs

-- What the receipt of a tool proves: it is readable and shows no drift, it records the artifact, and
-- the catalog places one like it.
abbrev pub IsRecorded : Disk → Tool → ReceiptArtifact → Type 0
IsRecorded disk tool a =
    (disk.receipt_exists tool.id ≡ true)
    × (r : Receipt) × (disk.read tool.id ≡ some r)
    × (disk.drifted r ≡ false)
    × Among (λ (x : ReceiptArtifact). x ≡ a) r.artifacts
    × (is_authorized disk tool r a ≡ true)

-- What the archive layout proves: the tool has no receipt, and a download method places a link that
-- still leads into its own directory; the artifact is that link or that directory.
abbrev pub IsLaidOut : Disk → Method → ReceiptArtifact → Type 0
IsLaidOut disk m a =
    (is_download m.kind ≡ true)
    × (at : String) × (opt : String) × (first_of link (disk.artifact_paths m) ≡ some at)
    × (first_of dir (disk.artifact_paths m) ≡ some opt)
    × (disk.is_still_proven at ≡ true)
    × ((disk.link_fingerprint at ≡ some a) ⊎ (disk.dir_fingerprint opt at ≡ some a))

abbrev pub IsOwned : Disk → Tool → ReceiptArtifact → Type 0
IsOwned disk tool a =
    IsRecorded disk tool a
    ⊎ ((disk.receipt_exists tool.id ≡ false)
        × Among (λ (m : Method). IsLaidOut disk m a) tool.methods)

All-Among {ℓ} : {A : Type ℓ} (P : A → Type 0) (xs : List A) → All (λ (x : A). P x → Among P xs) xs
All-Among P [] = tt
All-Among P (x ∷ xs) = (λ h. inl h, All-map (λ (y : _) f h. inr (f h)) xs (All-Among P xs))

All-self :
    (xs : List ReceiptArtifact)
    → All (λ (a : ReceiptArtifact). Among (λ (x : ReceiptArtifact). x ≡ a) xs) xs
All-self [] = tt
All-self (x ∷ xs) = (inl refl, All-map (λ (a : ReceiptArtifact) h. inr h) xs (All-self xs))

All-filter_test :
    (P : ReceiptArtifact → Type 0) (p : ReceiptArtifact → Bool) (xs : List ReceiptArtifact)
    → All (λ (x : ReceiptArtifact). p x ≡ true → P x) xs
    → All P (filter p xs)
All-filter_test P p [] h = tt
All-filter_test P p (x ∷ xs) h = elim (Bool-cases (p x)) [
  | inl holds ↦ rw holds (h.0 holds, All-filter_test P p xs h.1)
  | inr fails ↦ rw fails (All-filter_test P p xs h.1)
]

All-if :
    (P : ReceiptArtifact → Type 0) (b : Bool) (xs ys : List ReceiptArtifact)
    → (b ≡ true → All P xs)
    → (b ≡ false → All P ys)
    → All P (if b then xs else ys)
All-if P true xs ys h k = h refl
All-if P false xs ys h k = k refl

-- Each method's layout, as one among the methods
All-Among_each :
    (disk : Disk) (ms : List Method)
    → All
        (λ (m : Method).
          (a : ReceiptArtifact)
          → IsLaidOut disk m a
          → Among (λ (n : Method). IsLaidOut disk n a) ms)
        ms
All-Among_each disk [] = tt
All-Among_each disk (m ∷ ms) = (
  λ a h. inl h,
  All-map
      {P = λ (n : Method).
        (a : ReceiptArtifact) → IsLaidOut disk n a → Among (λ (k : Method). IsLaidOut disk k a) ms}
      {Q = λ (n : Method).
        (a : ReceiptArtifact)
        → IsLaidOut disk n a
        → Among (λ (k : Method). IsLaidOut disk k a) (m ∷ ms)}
      (λ (n : Method) f a h. inr (f a h)) ms (All-Among_each disk ms),
)

module _ (disk : Disk) (tool : Tool) where
  proof-All :
      (o : Option Receipt)
      → disk.receipt_exists tool.id ≡ true
      → disk.read tool.id ≡ o
      → All (IsRecorded disk tool) (proof_of disk tool o)
  unfolding proof_of
  proof-All none e h = tt
  proof-All (some r) e h =
      All-if (IsRecorded disk tool) (disk.drifted r) []
        (filter (is_authorized disk tool r) r.artifacts) (λ _. tt)
        (λ sound. All-filter_test (IsRecorded disk tool) (is_authorized disk tool r) r.artifacts (
          All-map {P = λ (a : ReceiptArtifact). Among (λ (x : ReceiptArtifact). x ≡ a) r.artifacts}
            {Q = λ (a : ReceiptArtifact).
              is_authorized disk tool r a ≡ true → IsRecorded disk tool a}
            (λ (a : ReceiptArtifact) there placed. (e, r, h, sound, there, placed)) r.artifacts
            (All-self r.artifacts)))

  both-All :
      (P : ReceiptArtifact → Type 0) (s t : Option ReceiptArtifact)
      → ((a : ReceiptArtifact) → (s ≡ some a) ⊎ (t ≡ some a) → P a)
      → All P (both s t)
  unfolding both
  both-All P none t h = tt
  both-All P (some a) none h = tt
  both-All P (some a) (some b) h = (h a (inl refl), (h b (inr refl), tt))

  layout_of-All :
      (m : Method) (s t : Option String)
      → is_download m.kind ≡ true
      → first_of link (disk.artifact_paths m) ≡ s
      → first_of dir (disk.artifact_paths m) ≡ t
      → All (IsLaidOut disk m) (layout_of disk s t)
  unfolding layout_of
  layout_of-All m none t k h i = tt
  layout_of-All m (some at) none k h i = tt
  layout_of-All m (some at) (some opt) k h i =
      All-if (IsLaidOut disk m) (disk.is_still_proven at)
        (both (disk.link_fingerprint at) (disk.dir_fingerprint opt at)) []
        (λ still.
          both-All (IsLaidOut disk m) (disk.link_fingerprint at) (disk.dir_fingerprint opt at)
            (λ a found. (k, at, opt, h, i, still, found)))
        (λ _. tt)

  layout-All : (m : Method) → All (IsLaidOut disk m) (layout_proof disk m)
  unfolding layout_proof
  layout-All m =
      All-if (IsLaidOut disk m) (is_download m.kind)
        (layout_of disk (first_of link (disk.artifact_paths m))
          (first_of dir (disk.artifact_paths m)))
        []
        (λ k.
          layout_of-All m (first_of link (disk.artifact_paths m))
            (first_of dir (disk.artifact_paths m)) k refl refl)
        (λ _. tt)

  layouts-All :
      (P : ReceiptArtifact → Type 0) (ms : List Method)
      → All (λ (m : Method). (a : ReceiptArtifact) → IsLaidOut disk m a → P a) ms
      → All P (layout_proofs disk ms)
  unfolding layout_proofs
  layouts-All P [] h = tt
  layouts-All P (m ∷ ms) h =
      All-append P (layout_proof disk m) (layout_proofs disk ms)
        (All-map h.0 (layout_proof disk m) (layout-All m)) (layouts-All P ms h.1)

-- One entry for each removable path, for an artifact with the predicate; the paths differ.
abbrev Good : (ReceiptArtifact → Type 0) → Found → Type 0
Good P f =
    All (λ (e : String × ReceiptArtifact). P e.1 × (e.1.path ≡ e.0)) f.artifacts
    × (map (λ e. e.0) f.artifacts ≡ f.removable)
    × Distinct f.removable

All-put :
    (Q : String × ReceiptArtifact → Type 0) (key : String) (a : ReceiptArtifact)
    (d : List (String × ReceiptArtifact))
    → Q (key, a)
    → All Q d
    → All Q (put key a d)
unfolding put
All-put Q key a [] h hs = (h, tt)
All-put Q key a ((k, v) ∷ d) h hs = elim (Bool-cases (k == key)) [
  | inl holds ↦ rw holds (h, hs.1)
  | inr fails ↦ rw fails (hs.0, All-put Q key a d h hs.1)
]

keys-put :
    (key : String) (a : ReceiptArtifact) (d : List (String × ReceiptArtifact))
    → contains key (map (λ e. e.0) d) ≡ false
    → map (λ e. e.0) (put key a d) ≡ map (λ e. e.0) d ++ key ∷ []
unfolding put contains
keys-put key a [] h = refl
keys-put key a ((k, v) ∷ d) h =
    let other : (k == key) ≡ false = ground (arith, h) in
    rw other (ap (λ (l : List String). k ∷ l) (keys-put key a d (ground (arith, h))))

module _ (P : ReceiptArtifact → Type 0) where
  Good-if :
      (b : Bool) (f g : Found)
      → (b ≡ true → Good P f)
      → (b ≡ false → Good P g)
      → Good P (if b then f else g)
  Good-if true f g h k = h refl
  Good-if false f g h k = k refl

  add-Good : (a : ReceiptArtifact) (f : Found) → P a → Good P f → Good P (add_artifact a f)
  unfolding add_artifact
  add-Good a f h g =
      Good-if (contains a.path f.removable) f
        (record f { removable = f.removable ++ a.path ∷ []; artifacts = put a.path a f.artifacts })
        (λ _. g)
        (λ new. (
          All-put (λ (e : String × ReceiptArtifact). P e.1 × (e.1.path ≡ e.0)) a.path a f.artifacts
              (h, refl) g.0,
          keys-put a.path a f.artifacts (ap (contains a.path) g.1 ∙ new)
              ∙ ap (λ (l : List String). l ++ a.path ∷ []) g.1,
          Distinct-snoc f.removable a.path g.2 new,
        ))

  adds-Good :
      (xs : List ReceiptArtifact) (f : Found) → All P xs → Good P f → Good P (add_artifacts xs f)
  unfolding add_artifacts
  adds-Good [] f h g = g
  adds-Good (a ∷ xs) f h g = adds-Good xs (add_artifact a f) h.1 (add-Good a f h.0 g)

  with_tool-Good :
      (tool : Tool) (xs : List ReceiptArtifact) (f : Found)
      → Good P f
      → Good P (with_tool tool xs f)
  unfolding with_tool
  with_tool-Good tool [] f g = g
  with_tool-Good tool (a ∷ xs) f g = g

  module _ (disk : Disk) where
    with_leftovers-Good :
        (tool : Tool) (xs : List ReceiptArtifact) (f : Found)
        → Good P f
        → Good P (with_leftovers disk tool xs f)
    unfolding with_leftovers
    with_leftovers-Good tool xs f g =
        Good-if tool.retired
          (record f {
            leftovers = f.leftovers ++ leftovers_of disk (disk.read tool.id) (map (λ a. a.path) xs);
          })
          f (λ _. g) (λ _. g)

    plan_tool-Good :
        (tool : Tool) (f : Found)
        → ((a : ReceiptArtifact) → IsOwned disk tool a → P a)
        → Good P f
        → Good P (plan_tool disk tool f)
    unfolding plan_tool receipt_proof
    plan_tool-Good tool f own g =
        let proven = receipt_proof disk tool in
        Good-if (disk.receipt_exists tool.id)
          (add_artifacts proven (with_tool tool proven (with_leftovers disk tool proven f)))
          (add_artifacts (layout_proofs disk tool.methods) f)
          (λ has.
            adds-Good proven (with_tool tool proven (with_leftovers disk tool proven f))
              (All-map (λ (a : ReceiptArtifact) h. own a (inl h)) proven
                (proof-All disk tool (disk.read tool.id) has refl))
              (with_tool-Good tool proven (with_leftovers disk tool proven f)
                (with_leftovers-Good tool proven f g)))
          (λ has.
            adds-Good (layout_proofs disk tool.methods) f
              (layouts-All disk tool P tool.methods (
                All-map
                  {P = λ (m : Method).
                    (a : ReceiptArtifact)
                    → IsLaidOut disk m a
                    → Among (λ (k : Method). IsLaidOut disk k a) tool.methods}
                  {Q = λ (m : Method). (a : ReceiptArtifact) → IsLaidOut disk m a → P a}
                  (λ (m : Method) among a h. own a (inr (has, among a h))) tool.methods
                  (All-Among_each disk tool.methods)))
              g)

    plan_tools-Good :
        (tools : List Tool) (f : Found)
        → All (λ (tool : Tool). (a : ReceiptArtifact) → IsOwned disk tool a → P a) tools
        → Good P f
        → Good P (plan_tools disk tools f)
    unfolding plan_tools
    plan_tools-Good [] f own g = g
    plan_tools-Good (tool ∷ rest) f own g =
        plan_tools-Good rest (plan_tool disk tool f) own.1 (plan_tool-Good tool f own.0 g)

key-eq : (a b : String) → (a == b) ≡ true → a ≡ b
key-eq a b h = ground (arith, eq_iff a b, h)

contains-filter :
    (p : String) (q : String → Bool) (xs : List String)
    → contains p (filter q xs) ≡ (contains p xs && q p)
unfolding contains
contains-filter p q [] = refl
contains-filter p q (x ∷ xs) =
    let same : (x == p) ≡ true → q x ≡ q p = λ e. ap q (key-eq x p e) in
    ground (arith, contains-filter p q xs, same)

rest-free :
    (disk : Disk) (tools : List Tool) (f : Found) (p : String)
    → (contains p (rest_of disk tools f) && contains p f.removable) ≡ false
unfolding rest_of
rest-free disk tools f p =
    let all = plan_uninstall disk tools ++ (disk.quarantined tools ++ f.leftovers) in
    let test = λ (x : String). not (contains x f.removable) in
    ground (arith, contains-unique_exact p (filter test all), contains-filter p test all)

IsOwned-Among :
    (disk : Disk) (tools : List Tool)
    → All
        (λ (tool : Tool).
          (a : ReceiptArtifact)
          → IsOwned disk tool a
          → Among (λ (t : Tool). IsOwned disk t a) tools)
        tools
IsOwned-Among disk [] = tt
IsOwned-Among disk (tool ∷ rest) = (
  λ a h. inl h,
  All-map
      {P = λ (t : Tool).
        (a : ReceiptArtifact) → IsOwned disk t a → Among (λ (u : Tool). IsOwned disk u a) rest}
      {Q = λ (t : Tool).
        (a : ReceiptArtifact)
        → IsOwned disk t a
        → Among (λ (u : Tool). IsOwned disk u a) (tool ∷ rest)}
      (λ (t : Tool) f a h. inr (f a h)) rest (IsOwned-Among disk rest),
)

-- Each path that may be removed is that of one artifact, which one of the tools owns: by a receipt
-- that is readable and shows no drift, records the artifact, and agrees with what the catalog places
-- for a method of the receipt's kind, or for a retired tool with the shape of such a placement; or,
-- where the tool has no receipt, as the link of a download method that is still proven, or the
-- directory that goes with it. No path may be removed twice, and none of them is also listed for
-- the user to remove.
pub plan_removal-IsProven :
    (disk : Disk) (tools : List Tool)
    → All
        (λ (e : String × ReceiptArtifact).
          Among (λ (tool : Tool). IsOwned disk tool e.1) tools × (e.1.path ≡ e.0))
        (plan_removal disk tools).artifacts
      × (map (λ e. e.0) (plan_removal disk tools).artifacts ≡ (plan_removal disk tools).removable)
      × Distinct (plan_removal disk tools).removable
      × ((p : String)
          → (contains p (plan_removal disk tools).yourself
              && contains p (plan_removal disk tools).removable)
            ≡ false)
unfolding plan_removal nothing_found
plan_removal-IsProven disk tools =
    let found = plan_tools disk tools nothing_found in
    let good =
      plan_tools-Good (λ (a : ReceiptArtifact). Among (λ (tool : Tool). IsOwned disk tool a) tools)
        disk tools nothing_found (IsOwned-Among disk tools) (tt, refl, tt) in
    (good.0, good.1, good.2, rest-free disk tools found)
