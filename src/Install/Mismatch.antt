-- ===== src/Install/Mismatch.antt =====
-- That a checksum mismatch ends the call of `install_tool`, at the method that raises it.
use tools_installer.Base.{
  Bool, true, false, not, none, some, List, [], ◌∷◌, ◌&&◌, ◌⊎◌, inl, inr, ◌≡◌, refl, ap, ◌∙◌,
  if◌then◌else◌, get,
}
use tools_installer.Model.{Method, Tool}
use tools_installer.Platform.{Platform}
use tools_installer.Resolve.{kind_name, resolve_methods}
use tools_installer.Session.{checksum_mismatch, Exn, InstallOutcome, install_outcome}
use tools_installer.Session.Effect.{Except, returned, raised}
use tools_installer.Session.Engine.{ChecksumPolicy, fail}
use tools_installer.Install.{
  ErrorClass, mismatch_error, Host, Tries, Step, returns, goes_on, manual_by, method_package,
}
use tools_installer.Install.Round.{Performed, is_true, perform, on_error, mismatched}
use tools_installer.Install.Loop.{
  Before, already_there, performed, run_method, after_manual, refused, round, continued, ladder,
  walk, install_tool,
}

abbrev pub no_tries : Tries
no_tries = record { errors = []; leftovers = []; inventory = none }

-- The outcome of a mismatch at a method
abbrev pub mismatch_outcome : Tool → Method → Exn → InstallOutcome
mismatch_outcome tool m e = record (install_outcome tool.id checksum_mismatch) {
  method_kind = some (kind_name m.kind);
  errors = e ∷ [];
}

if_false : {A : Type 0} (b : Bool) (x y : A) → b ≡ false → (if b then x else y) ≡ y
if_false true x y h = cc
if_false false x y h = refl

module _ {W : Type 0} (host : Host W) (policy : ChecksumPolicy) (repair : Bool) where
  -- What performing a method gives, where the loop comes to it with these tries in this world.
  abbrev pub attempt : Tool → Method → Tries → W → W × Except Performed
  attempt tool m t w =
      let pre = host.preexisting m (host.method_started m.kind w) in
      perform host policy repair m.kind m
        (already_there host policy repair m (method_package m) t
          (host.read_receipt tool.id pre.0).0).0

  -- The loop comes to a method: it is the first, or the rounds of all before it go on.
  abbrev pub Comes : Bool → Tool → List Method → Tries → W → Method → Tries → W → Type 0
  Comes present tool [] t w m u v = ◌≡◌ {A = Bool} true false
  Comes present tool (n ∷ ns) t w m u v =
      ((n ≡ m) × (t ≡ u) × (w ≡ v))
      ⊎ ((t' : Tries) × (w' : W) × (round host policy repair present tool n t w ≡ (w', goes_on t'))
          × Comes present tool ns t' w' m u v)

  error-returns :
      (cls : ErrorClass) (tool : Tool) (m : Method) (t : Tries) (e : Exn)
      → policy ≡ fail
      → cls ≡ mismatch_error
      → on_error host policy repair cls tool m t e ≡ returns (mismatch_outcome tool m e)
  unfolding on_error mismatched
  error-returns cls tool m t e p c =
      ap (λ (k : ErrorClass). on_error host policy repair k tool m t e) c
      ∙ ap (λ (q : ChecksumPolicy). mismatched host policy repair q tool m t e) p

  method-returns :
      (tool : Tool) (m : Method) (t : Tries) (w x : W) (e : Exn)
      → policy ≡ fail
      → attempt tool m t w ≡ (x, raised e)
      → host.class_of e ≡ mismatch_error
      → run_method host policy repair tool m t w ≡ (x, returns (mismatch_outcome tool m e))
  unfolding run_method performed
  method-returns tool m t w x e p a c =
      let pre = host.preexisting m (host.method_started m.kind w) in
      let prev = host.read_receipt tool.id pre.0 in
      let there = already_there host policy repair m (method_package m) t prev.0 in
      let before : Before = record {
        «package» = method_package m;
        preexisting = pre.1;
        previous = prev.1;
        already_there = there.1;
      } in
      ap (performed host policy repair tool m before there.2 (host.path there.0)) a
      ∙ ap (λ (s : Step). (x, s)) (error-returns (host.class_of e) tool m there.2 e p c)

  round-returns :
      (present : Bool) (tool : Tool) (m : Method) (t : Tries) (w x : W) (e : Exn)
      → policy ≡ fail
      → (present && repair && is_true (get "refuses_existing" m.params)) ≡ false
      → manual_by host.writable m.kind m ≡ returned none
      → attempt tool m t w ≡ (x, raised e)
      → host.class_of e ≡ mismatch_error
      → round host policy repair present tool m t w ≡ (x, returns (mismatch_outcome tool m e))
  unfolding round after_manual
  round-returns present tool m t w x e p free by a c =
      if_false (present && repair && is_true (get "refuses_existing" m.params))
        (refused host policy repair tool m w)
        (after_manual host policy repair (manual_by host.writable m.kind m) tool m t w) free
      ∙ ap (λ k. after_manual host policy repair k tool m t w) by
      ∙ method-returns tool m t w x e p a c

  ladder-returns :
      (present : Bool) (tool : Tool) (ms : List Method) (t : Tries) (w : W) (m : Method) (u : Tries)
      (v x : W) (o : InstallOutcome)
      → Comes present tool ms t w m u v
      → round host policy repair present tool m u v ≡ (x, returns o)
      → ladder host policy repair present tool ms t w ≡ (x, returned o)
  unfolding ladder continued
  ladder-returns present tool [] t w m u v x o h r = cc
  ladder-returns present tool (n ∷ ns) t w m u v x o (inl (same, tries, world)) r =
      ap (continued host policy repair (ladder host policy repair present tool ns))
        ((λ i. round host policy repair present tool (same i) (tries i) (world i)) ∙ r)
  ladder-returns present tool (n ∷ ns) t w m u v x o (inr (t', w', on, h)) r =
      ap (continued host policy repair (ladder host policy repair present tool ns)) on
      ∙ ladder-returns present tool ns t' w' m u v x o h r

  walk-returns :
      (present : Bool) (tool : Tool) (ms : List Method) (w : W) (m : Method) (u : Tries) (v x : W)
      (o : InstallOutcome)
      → Comes present tool ms no_tries w m u v
      → round host policy repair present tool m u v ≡ (x, returns o)
      → walk host policy repair present tool ms w ≡ (x, returned o)
  unfolding walk
  walk-returns present tool [] w m u v x o h r = cc
  walk-returns present tool (n ∷ ns) w m u v x o h r =
      ladder-returns present tool (n ∷ ns) no_tries w m u v x o h r

  -- The call ends at the method that raises the mismatch, in the world that it leaves.
  pub call-returns :
      (tool : Tool) (platform : Platform) (w : W) (m : Method) (u : Tries) (v x : W) (e : Exn)
      → policy ≡ fail
      → ((host.present tool w).1 && not repair) ≡ false
      → Comes
          (host.present tool w).1
          tool
          (resolve_methods tool platform)
          no_tries
          (host.present tool w).0
          m
          u
          v
      → ((host.present tool w).1 && repair && is_true (get "refuses_existing" m.params)) ≡ false
      → manual_by host.writable m.kind m ≡ returned none
      → attempt tool m u v ≡ (x, raised e)
      → host.class_of e ≡ mismatch_error
      → install_tool host policy repair tool platform w ≡ (x, returned (mismatch_outcome tool m e))
  unfolding install_tool
  call-returns tool platform w m u v x e p absent comes free by a c =
      if_false ((host.present tool w).1 && not repair) _ _ absent
      ∙ walk-returns (host.present tool w).1 tool (resolve_methods tool platform)
          (host.present tool w).0 m u v x (mismatch_outcome tool m e) comes
          (round-returns (host.present tool w).1 tool m u v x e p free by a c)
