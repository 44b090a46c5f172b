-- ===== src/Removal/Levels.antt =====
-- That a removal runs only a command that the tool's own receipt answers for.
use tools_installer.Base.{
  String, ◌≡◌, refl, ap, ◌∙◌, arith, Bool, true, false, not, ◌||◌, ◌⊎◌, inl, inr, Option, none,
  some, List, [], ◌∷◌, ◌++◌, ◌==◌, filter, any, if◌then◌else◌, Bool-cases, All, All-map, get,
}
use tools_installer.Model.{Kind, Tool}
use tools_installer.Removal.{
  Shape, link, file, leaf, ReceiptArtifact, Receipt, Disk, same_shape, manager, RemovalPlan,
  manager_argv, plan_removal,
}
use tools_installer.Removal.Proof.{Among, IsOwned, plan_removal-IsProven}
use tools_installer.Removal.Plan.{
  Vendor, named, declares, argv_of, manager_removal, is_named, paths_of, with_artifact,
  artifacts_at, the_only, proven_named, bound, recipe_words, is_script, is_empty, recipe_removal,
  base_level, is_none_level, final_level, recipe_or, recipe_unless, undo_with, hook_undo,
  removal_plan,
}

-- The manager's command for the package of the receipt, which a method of the tool declares.
abbrev pub IsManagerRemoval : Tool → Receipt → List String → Type 0
IsManagerRemoval tool r argv =
    (prefix : List String) × (name : String) × (manager_argv r.kind ≡ some prefix)
    × (named r.«package» ≡ some name)
    × (any (declares r.kind name) tool.methods ≡ true)
    × (argv ≡ prefix ++ name ∷ [])

-- The vendor's command, run by an executable that the installer owns.
abbrev pub IsVendorRemoval : Disk → Tool → Receipt → List String → Type 0
IsVendorRemoval disk tool r argv =
    (is_script r.kind ≡ true)
    × (a : ReceiptArtifact) × (words : List String) × (argv ≡ a.path ∷ words)
    × (same_shape a.shape leaf ≡ true)
    × IsOwned disk tool a

if-cases :
    {A : Type 0} (b : Bool) (x y : A)
    → ((b ≡ true) × ((if b then x else y) ≡ x)) ⊎ ((b ≡ false) × ((if b then x else y) ≡ y))
if-cases true x y = inl (refl, refl)
if-cases false x y = inr (refl, refl)

argv_of-cases :
    (tool : Tool) (kind : Kind) (prefix : Option (List String)) (name : Option String)
    → (argv_of tool kind prefix name ≡ [])
      ⊎ ((p : List String) × (n : String) × (prefix ≡ some p)
          × (name ≡ some n)
          × (any (declares kind n) tool.methods ≡ true)
          × (argv_of tool kind prefix name ≡ p ++ n ∷ []))
unfolding argv_of
argv_of-cases tool kind none name = inl refl
argv_of-cases tool kind (some p) none = inl refl
argv_of-cases tool kind (some p) (some n) =
    elim (if-cases (any (declares kind n) tool.methods) (p ++ n ∷ []) []) [
      | inl declared ↦ inr (p, n, refl, refl, declared.0, declared.1)
      | inr foreign ↦ inl foreign.1
    ]

manager-cases :
    (tool : Tool) (o : Option Receipt)
    → (manager_removal tool o ≡ [])
      ⊎ ((r : Receipt) × (o ≡ some r) × IsManagerRemoval tool r (manager_removal tool o))
unfolding manager_removal
manager-cases tool none = inl refl
manager-cases tool (some r) =
    elim (argv_of-cases tool r.kind (manager_argv r.kind) (named r.«package»)) [
      | inl empty ↦ inl empty
      | inr found ↦ inr (r, refl, (found.0, found.1, found.2, found.3, found.4, found.5))
    ]

module _ (P : ReceiptArtifact → Type 0) where
  abbrev OnArtifact : Option ReceiptArtifact → Type 0
  OnArtifact none = Unit
  OnArtifact (some a) = P a

  get-OnArtifact :
      (path : String) (d : List (String × ReceiptArtifact))
      → All (λ (e : String × ReceiptArtifact). P e.1) d
      → OnArtifact (get path d)
  unfolding get
  get-OnArtifact path [] h = tt
  get-OnArtifact path ((k, v) ∷ d) h = elim (Bool-cases (k == path)) [
    | inl holds ↦ rw holds h.0
    | inr fails ↦ rw fails (get-OnArtifact path d h.1)
  ]

  with_artifact-All :
      (o : Option ReceiptArtifact) (xs : List ReceiptArtifact)
      → OnArtifact o
      → All P xs
      → All P (with_artifact o xs)
  unfolding with_artifact
  with_artifact-All none xs h hs = hs
  with_artifact-All (some a) xs h hs = (h, hs)

  at-All :
      (d : List (String × ReceiptArtifact)) (paths : List String)
      → All (λ (e : String × ReceiptArtifact). P e.1) d
      → All P (artifacts_at d paths)
  unfolding artifacts_at
  at-All d [] h = tt
  at-All d (path ∷ rest) h =
      with_artifact-All (get path d) (artifacts_at d rest) (get-OnArtifact path d h)
        (at-All d rest h)

  tested-All :
      (test : ReceiptArtifact → Bool) (xs : List ReceiptArtifact)
      → All P xs
      → All (λ (a : ReceiptArtifact). P a × (test a ≡ true)) (filter test xs)
  tested-All test [] h = tt
  tested-All test (x ∷ xs) h = elim (Bool-cases (test x)) [
    | inl holds ↦ rw holds ((h.0, holds), tested-All test xs h.1)
    | inr fails ↦ rw fails (tested-All test xs h.1)
  ]

the_only-OnArtifact :
    (P : ReceiptArtifact → Type 0) (xs : List ReceiptArtifact)
    → All P xs
    → OnArtifact P (the_only xs)
unfolding the_only
the_only-OnArtifact P [] h = tt
the_only-OnArtifact P (a ∷ []) h = h.0
the_only-OnArtifact P (a ∷ b ∷ xs) h = tt

named-OnArtifact :
    (P : ReceiptArtifact → Type 0) (name_of : String → String) (plan : RemovalPlan)
    (id name : String) (shapes : List Shape)
    → All (λ (e : String × ReceiptArtifact). P e.1) plan.artifacts
    → OnArtifact
        (λ (a : ReceiptArtifact). P a × (is_named name_of name shapes a ≡ true))
        (proven_named name_of plan id name shapes)
unfolding proven_named
named-OnArtifact P name_of plan id name shapes h =
    let found = artifacts_at plan.artifacts (paths_of (get id plan.by_tool)) in
    the_only-OnArtifact (λ (a : ReceiptArtifact). P a × (is_named name_of name shapes a ≡ true))
      (filter (is_named name_of name shapes) found)
      (tested-All P (is_named name_of name shapes) found
        (at-All P plan.artifacts (paths_of (get id plan.by_tool)) h))

leaf_of :
    (name_of : String → String) (name : String) (a : ReceiptArtifact)
    → is_named name_of name (leaf ∷ []) a ≡ true
    → same_shape a.shape leaf ≡ true
unfolding is_named
leaf_of name_of name a h = ground (arith, h)

-- What runs for a list of the vendor's words
abbrev IsBound : (ReceiptArtifact → Type 0) → List String → Type 0
IsBound P argv =
    (argv ≡ []) ⊎ ((a : ReceiptArtifact) × (words : List String) × (argv ≡ a.path ∷ words) × P a)

bound-IsBound :
    (P : ReceiptArtifact → Type 0) (o : Option ReceiptArtifact) (words : List String)
    → OnArtifact P o
    → IsBound P (bound o words)
unfolding bound
bound-IsBound P none words h = inl refl
bound-IsBound P (some a) words h = inr (a, words, refl, h)

words-IsBound :
    (P : ReceiptArtifact → Type 0) (name_of : String → String) (tool : Tool) (plan : RemovalPlan)
    (o : Option (List String))
    → All (λ (e : String × ReceiptArtifact). P e.1) plan.artifacts
    → IsBound
        (λ (a : ReceiptArtifact). P a × (same_shape a.shape leaf ≡ true))
        (recipe_words name_of tool plan o)
unfolding recipe_words
words-IsBound P name_of tool plan none h = inl refl
words-IsBound P name_of tool plan (some []) h = inl refl
words-IsBound P name_of tool plan (some (head ∷ words)) h =
    elim (bound-IsBound
      (λ (a : ReceiptArtifact). P a × (is_named name_of head (leaf ∷ []) a ≡ true))
      (proven_named name_of plan tool.id head (leaf ∷ [])) words
      (named-OnArtifact P name_of plan tool.id head (leaf ∷ []) h)) [
        | inl empty ↦ inl empty
        | inr found ↦
            inr (found.0, found.1, found.2, (found.3.0, leaf_of name_of head found.0 found.3.1))
      ]

owned :
    (disk : Disk) (tool : Tool) (a : ReceiptArtifact)
    → Among (λ (t : Tool). IsOwned disk t a) (tool ∷ [])
    → IsOwned disk tool a
owned disk tool a (inl h) = h
owned disk tool a (inr h) = ground (arith, h)

module _ (disk : Disk) (vendor : Vendor) where
  vendor-cases :
      (tool : Tool) (o : Option Receipt) (plan : RemovalPlan)
      → All (λ (e : String × ReceiptArtifact). IsOwned disk tool e.1) plan.artifacts
      → (recipe_removal disk vendor tool o plan ≡ [])
        ⊎ ((r : Receipt) × (o ≡ some r)
            × IsVendorRemoval disk tool r (recipe_removal disk vendor tool o plan))
  unfolding recipe_removal
  vendor-cases tool none plan h = inl refl
  vendor-cases tool (some r) plan h =
      let words = recipe_words disk.name_of tool plan (vendor.remove_words tool r) in
      elim (if-cases (not (is_script r.kind) || is_empty (paths_of (get tool.id plan.by_tool))) []
        words) [
          | inl barred ↦ inl barred.1
          | inr free ↦
              elim (words-IsBound (IsOwned disk tool) disk.name_of tool plan
                (vendor.remove_words tool r) h) [
                  | inl empty ↦ inl (free.1 ∙ empty)
                  | inr found ↦ inr (
                    r,
                    refl,
                    (
                      ground (arith, free.0),
                      found.0,
                      found.1,
                      free.1 ∙ found.2,
                      found.3.1,
                      found.3.0,
                    ),
                  )
                ]
        ]

  recipe_or-append :
      (prefix : List String) (name : String) (argv : List String)
      → recipe_or (prefix ++ name ∷ []) argv ≡ prefix ++ name ∷ []
  unfolding recipe_or
  recipe_or-append [] name argv = refl
  recipe_or-append (word ∷ prefix) name argv = refl

  manager-level :
      (tool : Tool) (o : Option Receipt) (base : RemovalPlan) (prefix : List String) (name : String)
      → final_level tool o base (base_level (prefix ++ name ∷ []) o base) ≡ manager
  unfolding final_level base_level is_empty is_none_level
  manager-level tool o base [] name = elim (Bool-cases tool.retired) [
    | inl retired ↦ ground (arith, retired)
    | inr current ↦ ground (arith, current)
  ]
  manager-level tool o base (word ∷ prefix) name = elim (Bool-cases tool.retired) [
    | inl retired ↦ ground (arith, retired)
    | inr current ↦ ground (arith, current)
  ]

  abbrev executable_shapes : List Shape
  executable_shapes = link ∷ leaf ∷ file ∷ []

  -- The undo of the tool's hook, for the hosts that the receipt records, by the installer's own
  -- executable of the tool.
  abbrev pub IsUndo : Tool → Receipt → List (List String) → Type 0
  IsUndo tool r argvs =
      (name : String) × (a : ReceiptArtifact) × (tool.postinstall ≡ some name)
      × (is_empty (paths_of (get name r.hooks)) ≡ false)
      × IsOwned disk tool a
      × (is_named disk.name_of tool.cmd (link ∷ leaf ∷ file ∷ []) a ≡ true)
      × (argvs ≡ vendor.unregister_argvs name a.path (paths_of (get name r.hooks)))

  undo_with-cases :
      (P : ReceiptArtifact → Type 0) (name : String) (hosts : List String)
      (o : Option ReceiptArtifact)
      → OnArtifact P o
      → ((undo_with disk vendor name hosts o).0 ≡ [])
        ⊎ ((a : ReceiptArtifact) × P a
            × ((undo_with disk vendor name hosts o).0 ≡ vendor.unregister_argvs name a.path hosts))
  unfolding undo_with
  undo_with-cases P name hosts none h = inl refl
  undo_with-cases P name hosts (some a) h = inr (a, h, refl)

  hook_undo-cases :
      (tool : Tool) (o : Option Receipt) (hook : Option String) (plan : RemovalPlan)
      → tool.postinstall ≡ hook
      → All (λ (e : String × ReceiptArtifact). IsOwned disk tool e.1) plan.artifacts
      → ((hook_undo disk vendor tool o hook plan).0 ≡ [])
        ⊎ ((r : Receipt) × (o ≡ some r) × IsUndo tool r (hook_undo disk vendor tool o hook plan).0)
  unfolding hook_undo
  hook_undo-cases tool none hook plan h owns = inl refl
  hook_undo-cases tool (some r) none plan h owns = inl refl
  hook_undo-cases tool (some r) (some name) plan h owns =
      let hosts = paths_of (get name r.hooks) in
      let found = proven_named disk.name_of plan tool.id tool.cmd executable_shapes in
      elim (if-cases {A = List (List String) × List String} (is_empty hosts) ([], [])
        (undo_with disk vendor name hosts found)) [
          | inl none_recorded ↦
              inl (ap (λ (u : List (List String) × List String). u.0) none_recorded.1)
          | inr some_recorded ↦
              let same = ap (λ (u : List (List String) × List String). u.0) some_recorded.1 in
              elim (undo_with-cases
                (λ (a : ReceiptArtifact).
                  IsOwned disk tool a × (is_named disk.name_of tool.cmd executable_shapes a ≡ true))
                name hosts found
                (named-OnArtifact (IsOwned disk tool) disk.name_of plan tool.id tool.cmd
                  executable_shapes owns)) [
                    | inl nothing ↦ inl (same ∙ nothing)
                    | inr owner ↦ inr (
                      r,
                      refl,
                      (name, owner.0, h, some_recorded.0, owner.1.0, owner.1.1, same ∙ owner.2),
                    )
                  ]
        ]

  argv-IsAuthorized :
      (tool : Tool) (hint : Option String)
      → All
          (λ (e : String × ReceiptArtifact). IsOwned disk tool e.1)
          (plan_removal disk (tool ∷ [])).artifacts
      → ((removal_plan disk vendor tool hint).argv ≡ [])
        ⊎ ((r : Receipt) × (disk.read tool.id ≡ some r)
            × ((((removal_plan disk vendor tool hint).level ≡ manager)
                  × IsManagerRemoval tool r (removal_plan disk vendor tool hint).argv)
                ⊎ IsVendorRemoval disk tool r (removal_plan disk vendor tool hint).argv))
  unfolding removal_plan recipe_unless recipe_or
  argv-IsAuthorized tool hint proven =
      let base = plan_removal disk (tool ∷ []) in
      let o = disk.read tool.id in
      let argv = manager_removal tool o in
      let final = λ (l : List String). recipe_or l (recipe_unless disk vendor l tool o base) in
      elim (manager-cases tool o) [
        | inr found ↦
            let command = found.2.0 ++ found.2.1 ∷ [] in
            inr (
              found.0,
              found.1,
              inl (
                ap (λ (l : List String). final_level tool o base (base_level l o base)) found.2.5
                    ∙ manager-level tool o base found.2.0 found.2.1,
                (
                  found.2.0,
                  found.2.1,
                  found.2.2,
                  found.2.3,
                  found.2.4,
                  ap final found.2.5
                      ∙ recipe_or-append found.2.0 found.2.1
                          (recipe_unless disk vendor command tool o base),
                ),
              ),
            )
        | inl empty ↦ elim (vendor-cases tool o base proven) [
          | inl nothing ↦ inl (ap final empty ∙ nothing)
          | inr found ↦ inr (
            found.0,
            found.1,
            inr (found.2.0, found.2.1, found.2.2, ap final empty ∙ found.2.3, found.2.4, found.2.5),
          )
        ]
      ]

  -- The command of a removal is none; or the uninstall command of a manager, for the package that
  -- the tool's receipt names and a method of the tool of the receipt's kind declares, and then the
  -- level is that of a manager; or, for a receipt of a script, a command whose first word is the
  -- path of a single file that the installer owns. It unregisters nothing, or the hosts that the
  -- tool's receipt records for the tool's hook, by an executable that the installer owns and that
  -- is named like the tool's command.
  pub removal_plan-IsAuthorized :
      (tool : Tool) (hint : Option String)
      → (((removal_plan disk vendor tool hint).argv ≡ [])
          ⊎ ((r : Receipt) × (disk.read tool.id ≡ some r)
              × ((((removal_plan disk vendor tool hint).level ≡ manager)
                    × IsManagerRemoval tool r (removal_plan disk vendor tool hint).argv)
                  ⊎ IsVendorRemoval disk tool r (removal_plan disk vendor tool hint).argv)))
        × (((removal_plan disk vendor tool hint).unregister ≡ [])
            ⊎ ((r : Receipt) × (disk.read tool.id ≡ some r)
                × IsUndo tool r (removal_plan disk vendor tool hint).unregister))
  unfolding removal_plan
  removal_plan-IsAuthorized tool hint =
      let base = plan_removal disk (tool ∷ []) in
      let proven : All (λ (e : String × ReceiptArtifact). IsOwned disk tool e.1) base.artifacts =
        All-map
          {P = λ (e : String × ReceiptArtifact).
            Among (λ (t : Tool). IsOwned disk t e.1) (tool ∷ []) × (e.1.path ≡ e.0)}
          {Q = λ (e : String × ReceiptArtifact). IsOwned disk tool e.1}
          (λ (e : String × ReceiptArtifact) h. owned disk tool e.1 h.0) base.artifacts
          (plan_removal-IsProven disk (tool ∷ [])).0 in
      (
        argv-IsAuthorized tool hint proven,
        hook_undo-cases tool (disk.read tool.id) tool.postinstall base refl proven,
      )
