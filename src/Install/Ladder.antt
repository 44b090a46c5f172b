-- ===== src/Install/Ladder.antt =====
-- What an outcome of `install_tool` says of the methods that were tried.
use tools_installer.Base.{
  suc, String, Bool, true, Option, none, some, List, [], ◌∷◌, ◌++◌, ◌&&◌, get, is_some, concat, ◌≡◌,
  ◌≢◌, refl, arith, All, All-append, length, length-append, Bool-cases, inl, inr, ◌∙◌, ap,
}
use tools_installer.Model.{Method, Tool}
use tools_installer.Session.{failed, checksum_mismatch, Exn, InstallOutcome}
use tools_installer.Session.Effect.{Except, returned, raised}
use tools_installer.Session.Engine.{ChecksumPolicy, fail, continue}
use tools_installer.Install.{
  ErrorClass, mismatch_error, executor_error, os_error, other_caught, uncaught, ManualHandoff, Host,
  Tries, Step, returns, raises, goes_on, manual_by, method_package, is_manager,
}
use tools_installer.Install.Round.{
  Performed, is_true, mismatched, leftover_line, perform, on_error, smoke_failed, completed,
}
use tools_installer.Install.Loop.{
  Before, recorded, after_smoke, handed, after_perform, performed, run_method, manual_outcome,
  after_manual, refused, round, already_there,
}

module _ {W : Type 0} (host : Host W) where
  -- No checksum mismatch among the errors.
  abbrev pub IsClean : List Exn → Type 0
  IsClean errors = All (λ e. host.class_of e ≢ mismatch_error) errors

  -- An `ExecutorError` is one.
  abbrev pub IsClassed : Type 0
  IsClassed =
      (message : String)
      → host.class_of (record { type_name = "ExecutorError"; message = message }) ≡ executor_error

  module _ (policy : ChecksumPolicy) where
    -- An outcome that ends the loop after these errors.
    abbrev pub Says : List Exn → InstallOutcome → Type 0
    Says errors o =
        (o.status ≡ failed
          → (o.errors ≡ errors) × (is_some o.manual_command ≡ true) × (errors ≢ []))
        × (o.status ≡ checksum_mismatch
            → (policy ≡ fail)
              × ((e : Exn) × (o.errors ≡ e ∷ []) × (host.class_of e ≡ mismatch_error)))

    abbrev pub Fits : Tries → Step → Type 0
    Fits t (returns o) = Says t.errors o
    Fits t (raises e) = Unit
    Fits t (goes_on t') =
        (length t'.errors ≡ suc (length t.errors))
        × (policy ≡ fail → IsClean t.errors → IsClean t'.errors)

    noted :
        (t t' : Tries) (e : Exn)
        → t'.errors ≡ t.errors ++ e ∷ []
        → (policy ≡ fail → host.class_of e ≢ mismatch_error)
        → Fits t (goes_on t')
    noted t t' e h n = (
      ap length h ∙ omega (arith, length-append t.errors (e ∷ [])),
      λ f clean.
          rw h
            (All-append (λ x. host.class_of x ≢ mismatch_error) t.errors (e ∷ []) clean (n f, tt)),
    )

    mismatched-Fits :
        (now : ChecksumPolicy) (repair : Bool) (tool : Tool) (m : Method) (t : Tries) (e : Exn)
        → policy ≡ now
        → host.class_of e ≡ mismatch_error
        → Fits t (mismatched host policy repair now tool m t e)
    unfolding mismatched
    mismatched-Fits fail repair tool m t e p c = (λ f. ground arith, λ _. (p, (e, refl, c)))
    mismatched-Fits continue repair tool m t e p c =
        noted t (record t { errors = t.errors ++ e ∷ [] }) e refl (λ f mis. ground (arith, p, f))

    on_error-Fits :
        (cls : ErrorClass) (repair : Bool) (tool : Tool) (m : Method) (t : Tries) (e : Exn)
        → host.class_of e ≡ cls
        → Fits t (on_error host policy repair cls tool m t e)
    unfolding on_error
    on_error-Fits mismatch_error repair tool m t e c =
        mismatched-Fits policy repair tool m t e refl c
    on_error-Fits uncaught repair tool m t e c = tt
    on_error-Fits executor_error repair tool m t e c =
        noted t (record t { errors = t.errors ++ e ∷ [] }) e refl (λ f mis. ground (arith, mis))
    on_error-Fits os_error repair tool m t e c =
        noted t (record t { errors = t.errors ++ e ∷ [] }) e refl (λ f mis. ground (arith, mis))
    on_error-Fits other_caught repair tool m t e c =
        noted t (record t { errors = t.errors ++ e ∷ [] }) e refl (λ f mis. ground (arith, mis))

    smoke_failed-Fits :
        (cls : ErrorClass) (repair : Bool) (tool : Tool) (m : Method) (t : Tries) (path : String)
        (e : Exn) (w : W)
        → IsClassed
        → host.class_of e ≡ cls
        → Fits t (smoke_failed host policy repair cls tool m t path e w).1
    unfolding smoke_failed leftover_line concat
    smoke_failed-Fits executor_error repair tool m t path e w k c =
        let line = leftover_line host policy repair tool m in
        let err : Exn = record {
          type_name = "ExecutorError";
          message = concat (e.message ∷ "; " ∷ line ∷ []);
        } in
        noted t (record t { errors = t.errors ++ err ∷ []; leftovers = t.leftovers ++ line ∷ [] })
          err refl (λ f mis. ground (arith, k err.message, mis))
    smoke_failed-Fits mismatch_error repair tool m t path e w k c =
        on_error-Fits mismatch_error repair tool m t e c
    smoke_failed-Fits os_error repair tool m t path e w k c =
        on_error-Fits os_error repair tool m t e c
    smoke_failed-Fits other_caught repair tool m t path e w k c =
        on_error-Fits other_caught repair tool m t e c
    smoke_failed-Fits uncaught repair tool m t path e w k c = tt

    completed-Fits :
        (repair : Bool) (tool : Tool) (m : Method) (p : Performed) (t : Tries)
        (r : W × Except (List String))
        → Fits t (completed host policy repair tool m p r).1
    unfolding completed
    completed-Fits repair tool m p t (w, raised e) = tt
    completed-Fits repair tool m p t (w, returned ls) = (λ f. ground arith, λ f. ground arith)

    after_smoke-Fits :
        (repair : Bool) (tool : Tool) (m : Method) (b : Before) (t : Tries) (path : String)
        (p : Performed) (r : W × Except Bool)
        → IsClassed
        → Fits t (after_smoke host policy repair tool m b t path p r).1
    unfolding after_smoke
    after_smoke-Fits repair tool m b t path p (w, returned smoked) k =
        completed-Fits repair tool m p t (recorded host policy repair tool m b t smoked w)
    after_smoke-Fits repair tool m b t path p (w, raised e) k =
        smoke_failed-Fits (host.class_of e) repair tool m t path e w k refl

    after_perform-Fits :
        (repair : Bool) (tool : Tool) (m : Method) (b : Before) (t : Tries) (path : String)
        (lines : List String) (p : Performed) (w : W)
        → IsClassed
        → Fits t (after_perform host policy repair tool m b t path lines p w).1
    unfolding after_perform handed
    after_perform-Fits repair tool m b t path (l ∷ ls) p w k =
        (λ f. ground arith, λ f. ground arith)
    after_perform-Fits repair tool m b t path [] p w k =
        after_smoke-Fits repair tool m b t path p _ k

    performed-Fits :
        (repair : Bool) (tool : Tool) (m : Method) (b : Before) (t : Tries) (path : String)
        (r : W × Except Performed)
        → IsClassed
        → Fits t (performed host policy repair tool m b t path r).1
    unfolding performed
    performed-Fits repair tool m b t path (w, raised e) k =
        on_error-Fits (host.class_of e) repair tool m t e refl
    performed-Fits repair tool m b t path (w, returned p) k =
        after_perform-Fits repair tool m b t path p.handoff p w k

    Same-errors : (t t' : Tries) (step : Step) → t'.errors ≡ t.errors → Fits t' step → Fits t step
    Same-errors t t' (returns o) h f = rw⁻¹ h f
    Same-errors t t' (raises e) h f = tt
    Same-errors t t' (goes_on u) h f = rw⁻¹ h f

    manual_outcome-Says :
        (repair : Bool) (tool : Tool) (m : Method) (errors : List Exn) (h : ManualHandoff)
        → Says errors (manual_outcome host policy repair tool m errors h)
    unfolding manual_outcome
    manual_outcome-Says repair tool m [] h = (λ f. ground arith, λ f. ground arith)
    manual_outcome-Says repair tool m (e ∷ es) h =
        (λ _. (refl, refl, λ empty. ground (arith, empty)), λ f. ground arith)

    there-Fits :
        (repair : Bool) (m : Method) (name : Option String) (t : Tries) (w : W)
        → (already_there host policy repair m name t w).2.errors ≡ t.errors
    unfolding already_there
    there-Fits repair m none t w = refl
    there-Fits repair m (some name) t w = elim (Bool-cases (is_manager m.kind)) [
      | inl holds ↦ rw holds refl
      | inr fails ↦ rw fails refl
    ]

    run_method-Fits :
        (repair : Bool) (tool : Tool) (m : Method) (t : Tries) (w : W)
        → IsClassed
        → Fits t (run_method host policy repair tool m t w).1
    unfolding run_method
    run_method-Fits repair tool m t w k =
        let pre = host.preexisting m (host.method_started m.kind w) in
        let prev = host.read_receipt tool.id pre.0 in
        let there = already_there host policy repair m (method_package m) t prev.0 in
        Same-errors t there.2 _ (there-Fits repair m (method_package m) t prev.0)
          (performed-Fits repair tool m _ there.2 _ (perform host policy repair m.kind m there.0) k)

    after_manual-Fits :
        (repair : Bool) (h : Except (Option ManualHandoff)) (tool : Tool) (m : Method) (t : Tries)
        (w : W)
        → IsClassed
        → Fits t (after_manual host policy repair h tool m t w).1
    unfolding after_manual
    after_manual-Fits repair (raised e) tool m t w k = tt
    after_manual-Fits repair (returned (some h)) tool m t w k =
        manual_outcome-Says repair tool m t.errors h
    after_manual-Fits repair (returned none) tool m t w k = run_method-Fits repair tool m t w k

    pub round-Fits :
        (repair present : Bool) (tool : Tool) (m : Method) (t : Tries) (w : W)
        → IsClassed
        → Fits t (round host policy repair present tool m t w).1
    unfolding round refused
    round-Fits repair present tool m t w k =
        elim (Bool-cases (present && repair && is_true (get "refuses_existing" m.params))) [
          | inl holds ↦ rw holds (λ f. ground arith, λ f. ground arith)
          | inr fails ↦
              rw fails (after_manual-Fits repair (manual_by host.writable m.kind m) tool m t w k)
        ]
