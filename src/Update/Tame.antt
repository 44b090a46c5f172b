-- ===== src/Update/Tame.antt =====
-- That the branches of an update raise only what `perform_update` catches, where what they call does.
use tools_installer.Base.{
  String, ◌≡◌, ◌≢◌, refl, ap, ◌∙◌, arith, Bool, true, false, inl, inr, Option, none, some, List, [],
  ◌∷◌, ◌==◌, eq_iff, if◌then◌else◌, Bool-cases, contains, any, get,
}
use tools_installer.Model.{Method, Tool}
use tools_installer.Session.{ManagerOwnership}
use tools_installer.Session.Effect.{Except, returned, raised, next}
use tools_installer.Removal.{is_download, is_app}
use tools_installer.Update.{has_part}
use tools_installer.Update.Script.{
  UpdateHost, update_error, declared_command, before, or_cannot, expanded, leaves_named, gone,
  at_leaf, declared_leaf, script_argv, run_argv, run_declared, update_script,
}
use tools_installer.Update.Perform.{
  expected_errors, is_expected, is_script_kind, no_package, package_or_error, required_package,
  run_manager, run_pnpm, run_owned, is_manager_owner, run_owner,
}

-- The owners that an update has a branch for
abbrev pub is_updatable : String → Bool
is_updatable owner = contains owner ("brew" ∷ "cask" ∷ "uv" ∷ "pnpm" ∷ "installer" ∷ [])

-- A declared update command, where the method has one, is not empty: the loader admits no other.
abbrev pub HasWords : Option Method → Type 0
HasWords none = Unit
HasWords (some m) = declared_command (get "update" m.params) ≢ some []

module _ {W : Type 0} (host : UpdateHost W) where
  -- Only an error of the caught classes is raised.
  abbrev pub Calm {ℓ} : {A : Type ℓ} → Except A → Type 0
  Calm (returned a) = Unit
  Calm (raised e) = is_expected host e ≡ true

  -- What the update calls raises errors of the caught classes only, and UpdateError is one.
  abbrev pub IsTame : Type 0
  IsTame =
      ((message : String) → contains "UpdateError" (host.classes (update_error message)) ≡ true)
      × ((argv : List String) (w : W) → Calm (host.runner argv w).1)
      × ((m : Method) (w : W) → Calm (host.execute m w).1)
      × ((m : Method) (w : W) → Calm (host.update_download m w).1)
      × ((m : Method) (w : W) → Calm (host.update_app m w).1)
      × ((m : Method) (w : W) → Calm (host.preexisting_paths m w))

  any-has :
      (test : String → Bool) (x : String) (xs : List String)
      → contains x xs ≡ true
      → test x ≡ true
      → any test xs ≡ true
  unfolding contains
  any-has test x [] h t = cc
  any-has test x (y ∷ ys) h t = elim (Bool-cases (y == x)) [
    | inl same ↦
        let here : test y ≡ true = ap test (ground (arith, eq_iff y x, same)) ∙ t in
        ground (arith, here)
    | inr other ↦ ground (arith, other, any-has test x ys (ground (arith, h, other)) t)
  ]

  error-Calm : IsTame → (message : String) → is_expected host (update_error message) ≡ true
  unfolding is_expected contains
  error-Calm tame message =
      any-has (λ name. contains name expected_errors) "UpdateError"
        (host.classes (update_error message)) (tame.0 message) refl

  -- A branch of the owner: what is raised is caught, and the owner is one with a branch.
  unfoldable pub Served : ManagerOwnership → W × Except String → Type 0
  Served o (w, returned detail) = is_updatable o.owner ≡ true
  Served o (w, raised e) = is_expected host e ≡ true

  Served-if :
      (o : ManagerOwnership) (b : Bool) (x y : W × Except String)
      → (b ≡ true → Served o x)
      → (b ≡ false → Served o y)
      → Served o (if b then x else y)
  Served-if o true x y h k = h refl
  Served-if o false x y h k = k refl

  next-Served {ℓ} :
      {A : Type ℓ} (o : ManagerOwnership) (m : W × Except A) (detail : String)
      → Calm m.1
      → is_updatable o.owner ≡ true
      → Served o (next m (λ _ v. (v, returned detail)))
  unfolding Served
  next-Served o (w, returned a) detail calm h = h
  next-Served o (w, raised e) detail calm h = calm

  Calm-if : {A : Type 0} (b : Bool) (x y : Except A) → Calm x → Calm y → Calm (if b then x else y)
  Calm-if true x y h k = h
  Calm-if false x y h k = k

  package-Calm :
      IsTame → (owner : String) (name : Option String) → Calm (package_or_error owner name)
  unfolding package_or_error no_package
  package-Calm tame owner none = error-Calm tame _
  package-Calm tame owner (some name) =
      Calm-if (name == "") (raised (no_package owner)) (returned name) (error-Calm tame _) tt

  run_manager-Served :
      IsTame
      → (tool : Tool) (o : ManagerOwnership) (name : Except String) (w : W) → Calm name
      → is_updatable o.owner ≡ true
      → Served o (run_manager host tool o name w)
  unfolding run_manager Served
  run_manager-Served tame tool o (raised e) w calm h = calm
  run_manager-Served tame tool o (returned name) w calm h = next-Served o _ _ (tame.1 _ w) h

  run_pnpm-Served :
      IsTame
      → (o : ManagerOwnership) (m : Option Method) (w : W) → is_updatable o.owner ≡ true
      → Served o (run_pnpm host m w)
  unfolding run_pnpm Served
  run_pnpm-Served tame o none w h = error-Calm tame _
  run_pnpm-Served tame o (some m) w h = next-Served o (host.execute m w) "" (tame.2 m w) h

  -- A command that is not empty, or an error that is caught
  Ready : Except (List String) → Type 0
  Ready (returned argv) = argv ≢ []
  Ready (raised e) = is_expected host e ≡ true

  before-Ready :
      (word : String) (rest : Except (List String)) → Calm rest → Ready (before word rest)
  unfolding before Ready
  before-Ready word (returned words) calm = λ empty. cc
  before-Ready word (raised e) calm = calm

  or_cannot-Ready :
      IsTame
      → (id token : String) (o : Option String) (rest : Except (List String)) → Calm rest
      → Ready (or_cannot id token o rest)
  unfolding or_cannot Ready
  or_cannot-Ready tame id token none rest calm = error-Calm tame _
  or_cannot-Ready tame id token (some word) rest calm = before-Ready word rest calm

  Ready-Calm : (words : Except (List String)) → Ready words → Calm words
  unfolding Ready
  Ready-Calm (returned words) h = tt
  Ready-Calm (raised e) h = h

  expanded-Calm : IsTame → (id : String) (words : List String) → Calm (expanded host id words)
  unfolding expanded
  expanded-Calm tame id [] = tt
  expanded-Calm tame id (token ∷ rest) = Ready-Calm _ (
      or_cannot-Ready tame id token (host.expand_script_token token) (expanded host id rest)
        (expanded-Calm tame id rest))

  expanded-Ready :
      IsTame → (id : String) (words : List String) → words ≢ [] → Ready (expanded host id words)
  unfolding expanded
  expanded-Ready tame id [] h = ground (arith, h refl)
  expanded-Ready tame id (token ∷ rest) h =
      or_cannot-Ready tame id token (host.expand_script_token token) (expanded host id rest)
        (expanded-Calm tame id rest)

  at_leaf-Calm :
      IsTame
      → (head : String) (rest leaves : List String) (w : W) → Calm (at_leaf host head rest leaves w)
  unfolding at_leaf gone
  at_leaf-Calm tame head rest [] w = tt
  at_leaf-Calm tame head rest (path ∷ []) w =
      Calm-if (host.is_file path w) (returned (path ∷ rest)) (gone host head path) tt
        (error-Calm tame _)
  at_leaf-Calm tame head rest (path ∷ other ∷ leaves) w = error-Calm tame _

  script_argv-Calm :
      IsTame
      → (m : Method) (words : Except (List String)) (w : W) → Ready words
      → Calm (script_argv host m words w)
  unfolding script_argv declared_leaf Ready
  script_argv-Calm tame m (raised e) w h = h
  script_argv-Calm tame m (returned []) w h = ground (arith, h refl)
  script_argv-Calm tame m (returned (head ∷ rest)) w h =
      Calm-if (head == "sdk") (returned (host.sdk_pipeline (head ∷ rest)))
        (declared_leaf host m (head ∷ rest) w) tt
        (Calm-if (has_part "/" head) (returned (head ∷ rest))
          (at_leaf host head rest (leaves_named host head m) w) tt
          (at_leaf-Calm tame head rest (leaves_named host head m) w))

  run_argv-Calm :
      IsTame → (argv : Except (List String)) (w : W) → Calm argv → Calm (run_argv host argv w).1
  unfolding run_argv
  run_argv-Calm tame (raised e) w h = h
  run_argv-Calm tame (returned argv) w h = tame.1 argv w

  run_declared-Calm :
      IsTame
      → (tool : Tool) (m : Method) (words : Option (List String)) (w : W) → words ≢ some []
      → Calm (run_declared host tool m words w).1
  unfolding run_declared
  run_declared-Calm tame tool m none w h = tame.2 m w
  run_declared-Calm tame tool m (some words) w h =
      let argv = script_argv host m (expanded host tool.id words) w in
      run_argv-Calm tame argv w (
        script_argv-Calm tame m (expanded host tool.id words) w
          (expanded-Ready tame tool.id words (λ empty. h (ap some empty))))

  run_owned-Served :
      IsTame
      → (tool : Tool) (o : ManagerOwnership) (m : Option Method) (w : W) → HasWords m
      → is_updatable o.owner ≡ true
      → Served o (run_owned host tool m w)
  unfolding run_owned Served update_script
  run_owned-Served tame tool o none w words h = error-Calm tame _
  run_owned-Served tame tool o (some m) w words h =
      Served-if o (is_download m.kind) _ _
        (λ _. next-Served o (host.update_download m w) "" (tame.3 m w) h)
        (λ _.
          Served-if o (is_app m.kind) _ _
            (λ _. next-Served o (host.update_app m w) "" (tame.4 m w) h)
            (λ _.
              Served-if o (is_script_kind host m.kind) _ _
                (λ _.
                  next-Served o (update_script host tool m w) ""
                    (run_declared-Calm tame tool m (declared_command (get "update" m.params)) w
                      words)
                    h)
                (λ _. error-Calm tame _)))

  pub run_owner-Served :
      IsTame
      → (tool : Tool) (o : ManagerOwnership) (w : W) → HasWords o.method
      → Served o (run_owner host tool o w)
  unfolding run_owner is_manager_owner required_package contains Served
  run_owner-Served tame tool o w words =
      Served-if o (is_manager_owner host o.owner) _ _
        (λ managed.
          run_manager-Served tame tool o (required_package o) w
            (package-Calm tame o.owner o.«package») (ground (arith, managed)))
        (λ _.
          Served-if o (o.owner == "pnpm") _ _
            (λ pnpm.
              run_pnpm-Served tame o o.method w
                (ground (arith, eq_iff o.owner "pnpm", eq_iff "pnpm" o.owner, pnpm)))
            (λ _.
              Served-if o (o.owner == "installer") _ _
                (λ own.
                  run_owned-Served tame tool o o.method w words
                    (ground (arith, eq_iff o.owner "installer", eq_iff "installer" o.owner, own)))
                (λ _. error-Calm tame _)))
