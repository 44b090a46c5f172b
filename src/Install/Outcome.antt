-- ===== src/Install/Outcome.antt =====
-- What an outcome of `install_tool` says of the run: how many methods failed, and that a checksum
-- mismatch ends it.
use tools_installer.Base.{
  ℕ, suc, ◌+◌, Bool, true, false, none, List, [], ◌∷◌, ◌&&◌, not, is_some, ◌≡◌, ◌≢◌, arith, length,
  Bool-cases, inl, inr, ap, subst, get,
}
use tools_installer.Model.{Method, Tool}
use tools_installer.Platform.{Platform}
use tools_installer.Resolve.{resolve_methods}
use tools_installer.Session.{failed, checksum_mismatch, Exn, InstallOutcome}
use tools_installer.Session.Effect.{Except, returned, raised}
use tools_installer.Session.Engine.{ChecksumPolicy, fail}
use tools_installer.Install.{mismatch_error, Host, Tries, Step, returns, raises, goes_on, manual_by}
use tools_installer.Install.Round.{is_true}
use tools_installer.Install.Mismatch.{Comes, attempt, no_tries, mismatch_outcome, call-returns}
use tools_installer.Install.Loop.{round, continued, ladder, walk, install_tool}
use tools_installer.Install.Ladder.{IsClean, IsClassed, Says, Fits, round-Fits}

module _ {W : Type 0} (host : Host W) where
  -- What a failed outcome says, where `n` methods were left after these errors.
  abbrev Lost : ChecksumPolicy → List Exn → ℕ → InstallOutcome → Type 0
  Lost policy errors n o =
      (is_some o.manual_command ≡ false → length o.errors ≡ length errors + n)
      × (is_some o.manual_command ≡ true → o.errors ≢ [])
      × (policy ≡ fail → IsClean host errors → IsClean host o.errors)

  abbrev Mismatch : ChecksumPolicy → InstallOutcome → Type 0
  Mismatch policy o =
      (policy ≡ fail) × ((e : Exn) × (o.errors ≡ e ∷ []) × (host.class_of e ≡ mismatch_error))

  abbrev Closes : ChecksumPolicy → List Exn → ℕ → Except InstallOutcome → Type 0
  Closes policy errors n (returned o) =
      (o.status ≡ failed → Lost policy errors n o)
      × (o.status ≡ checksum_mismatch → Mismatch policy o)
  Closes policy errors n (raised e) = Unit

  module _ (policy : ChecksumPolicy) (repair : Bool) where
    Says-Closes :
        (errors : List Exn) (n : ℕ) (o : InstallOutcome)
        → Says host policy errors o
        → Closes policy errors n (returned o)
    Says-Closes errors n o h = (
      λ f.
          let l = h.0 f in
          (λ none_given. ground (arith, l.1), λ given. rw l.0 l.2, λ p clean. rw l.0 clean),
      h.1,
    )

    continued-Closes :
        (t : Tries) (n : ℕ) (rest : Tries → W → W × Except InstallOutcome) (r : W × Step)
        → Fits host policy t r.1
        → ((t' : Tries) (w : W) → Closes policy t'.errors n (rest t' w).1)
        → Closes policy t.errors (suc n) (continued host policy repair rest r).1
    unfolding continued
    continued-Closes t n rest (w, returns o) f k = Says-Closes t.errors (suc n) o f
    continued-Closes t n rest (w, raises e) f k = tt
    continued-Closes t n rest (w, goes_on t') f k = widen (rest t' w).1 (k t' w)
      where
        widen :
            (r : Except InstallOutcome)
            → Closes policy t'.errors n r
            → Closes policy t.errors (suc n) r
        widen (returned o) c = (
          λ s.
              let l = c.0 s in
              (λ g. omega (arith, l.0 g, f.0), l.1, λ p clean. l.2 p (f.1 p clean)),
          c.1,
        )
        widen (raised e) c = tt

    ladder-Closes :
        (present : Bool) (tool : Tool) (ms : List Method) (t : Tries) (w : W)
        → IsClassed host
        → Closes policy t.errors (length ms) (ladder host policy repair present tool ms t w).1
    unfolding ladder
    ladder-Closes present tool [] t w k =
        (λ f. (λ g. omega arith, λ g. ground arith, λ p clean. clean), λ f. ground arith)
    ladder-Closes present tool (m ∷ ms) t w k =
        continued-Closes t (length ms) (ladder host policy repair present tool ms)
          (round host policy repair present tool m t w)
          (round-Fits host policy repair present tool m t w k)
          (λ t' w'. ladder-Closes present tool ms t' w' k)

    -- Of the whole call, for a tool with these methods.
    abbrev Tells : List Method → Except InstallOutcome → Type 0
    Tells ms (returned o) =
        (o.status ≡ failed
          → (o.errors ≢ [])
            × (is_some o.manual_command ≡ false → length o.errors ≡ length ms)
            × (policy ≡ fail → IsClean host o.errors))
        × (o.status ≡ checksum_mismatch → Mismatch policy o)
    Tells ms (raised e) = Unit

    Closes-Tells :
        (m : Method) (ms : List Method) (r : Except InstallOutcome)
        → Closes policy [] (suc (length ms)) r
        → Tells (m ∷ ms) r
    Closes-Tells m ms (raised e) c = tt
    Closes-Tells m ms (returned o) c = (
      λ f.
          let l = c.0 f in
          (
            elim (Bool-cases (is_some o.manual_command)) [
              | inl holds ↦ l.1 holds
              | inr fails ↦ λ empty. omega (arith, l.0 fails, ap length empty)
            ],
            λ g. omega (arith, l.0 g),
            λ p. l.2 p tt,
          ),
      c.1,
    )

    walk-Tells :
        (present : Bool) (tool : Tool) (ms : List Method) (w : W)
        → IsClassed host
        → Tells ms (walk host policy repair present tool ms w).1
    unfolding walk
    walk-Tells present tool [] w k = (λ f. ground arith, λ f. ground arith)
    walk-Tells present tool (m ∷ ms) w k = Closes-Tells m ms _ (
        ladder-Closes present tool (m ∷ ms)
          (record { errors = []; leftovers = []; inventory = none }) w k)

    call-Tells :
        (tool : Tool) (platform : Platform) (w : W)
        → IsClassed host
        → Tells (resolve_methods tool platform) (install_tool host policy repair tool platform w).1
    unfolding install_tool
    call-Tells tool platform w k = elim (Bool-cases ((host.present tool w).1 && not repair)) [
      | inl holds ↦ rw holds (λ f. ground arith, λ f. ground arith)
      | inr fails ↦ rw fails (
          walk-Tells (host.present tool w).1 tool (resolve_methods tool platform)
            (host.present tool w).0 k)
    ]

-- A failed outcome of `install_tool` names at least one error, and where it hands no command to the
-- user, one for each method that suits the host: every one was tried and failed. That an
-- ExecutorError is recognised as one is the condition.
pub install_tool-failed :
    {W : Type 0} (host : Host W) (policy : ChecksumPolicy) (repair : Bool) (tool : Tool)
    (platform : Platform) (w : W) (o : InstallOutcome)
    → IsClassed host
    → (install_tool host policy repair tool platform w).1 ≡ returned o
    → o.status ≡ failed
    → (o.errors ≢ [])
      × (is_some o.manual_command ≡ false
          → length o.errors ≡ length (resolve_methods tool platform))
install_tool-failed host policy repair tool platform w o k h f =
    let t =
      (subst (Tells host policy repair (resolve_methods tool platform)) h
          (call-Tells host policy repair tool platform w k)).0
        f in
    (t.0, t.1)

-- Under the policy `fail` a checksum mismatch is never among the errors of a failed outcome; the
-- outcome of a mismatch names that one error, and there is none under the policy `continue`. And a
-- mismatch ends the call: where the loop comes to a method that neither refuses a present tool nor is
-- handed to the user, and performing it raises a mismatch under `fail`, the call returns the outcome
-- of that mismatch in the world that the method leaves, whatever methods come after. That an
-- ExecutorError is recognised as one is the condition.
pub install_tool-mismatch :
    {W : Type 0} (host : Host W) (policy : ChecksumPolicy) (repair : Bool) (tool : Tool)
    (platform : Platform) (w : W) (o : InstallOutcome)
    → IsClassed host
    → (install_tool host policy repair tool platform w).1 ≡ returned o
    → (o.status ≡ failed → policy ≡ fail → IsClean host o.errors)
      × (o.status ≡ checksum_mismatch
          → (policy ≡ fail)
            × ((e : Exn) × (o.errors ≡ e ∷ []) × (host.class_of e ≡ mismatch_error)))
      × ((m : Method) (u : Tries) (v x : W) (e : Exn)
          → policy ≡ fail
          → ((host.present tool w).1 && not repair) ≡ false
          → Comes host policy repair
              (host.present tool w).1
              tool
              (resolve_methods tool platform)
              no_tries
              (host.present tool w).0
              m
              u
              v
          → ((host.present tool w).1 && repair && is_true (get "refuses_existing" m.params)) ≡ false
          → manual_by host.writable m.kind m ≡ returned none
          → attempt host policy repair tool m u v ≡ (x, raised e)
          → host.class_of e ≡ mismatch_error
          → install_tool host policy repair tool platform w
            ≡ (x, returned (mismatch_outcome tool m e)))
install_tool-mismatch host policy repair tool platform w o k h =
    let t =
      subst (Tells host policy repair (resolve_methods tool platform)) h
        (call-Tells host policy repair tool platform w k) in
    (
      λ f p. (t.0 f).2 p,
      t.1,
      λ m u v x e. call-returns host policy repair tool platform w m u v x e,
    )
