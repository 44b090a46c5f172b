-- ===== src/Install/Native.antt =====
-- That `install_tool` runs no native package manager.
use tools_installer.Base.{
  String, Bool, true, false, List, [], ◌∷◌, ◌&&◌, get, is_some, concat, ◌≡◌, refl, arith, inl, inr,
  ◌⊎◌,
}
use tools_installer.Model.{Kind, dnf, apt, pacman, rpm_ostree, Method, Tool}
use tools_installer.Session.{failed, manual_required, Exn, InstallOutcome}
use tools_installer.Session.Effect.{Except, returned, raised}
use tools_installer.Session.Engine.{ChecksumPolicy}
use tools_installer.Install.{ManualHandoff, Host, Tries, manual_by, manual_handoff}
use tools_installer.Install.Round.{is_true}
use tools_installer.Install.Loop.{manual_outcome, after_manual, round, continued, ladder}

-- The method of a native package manager.
abbrev pub native : Kind → Bool
native dnf = true
native apt = true
native pacman = true
native rpm_ostree = true
native _ = false

-- A hand-off, or an exception: a command for the user, and nothing installed.
abbrev pub HandsOff : Except InstallOutcome → Type 0
HandsOff (returned o) =
    (is_some o.manual_command ≡ true) × ((o.status ≡ manual_required) ⊎ (o.status ≡ failed))
HandsOff (raised e) = Unit

module _ {W : Type 0} (host : Host W) (policy : ChecksumPolicy) (repair : Bool) where
  manual-HandsOff :
      (tool : Tool) (m : Method) (errors : List Exn) (h : ManualHandoff)
      → HandsOff (returned (manual_outcome host policy repair tool m errors h))
  unfolding manual_outcome
  manual-HandsOff tool m [] h = (refl, inl refl)
  manual-HandsOff tool m (e ∷ es) h = (refl, inr refl)

  handed-HandsOff :
      (present : Bool) (tool : Tool) (ms : List Method) (m : Method) (t : Tries) (w : W)
      (why command : String) (name : Except String)
      → ((continued host policy repair
            (ladder host policy repair present tool ms)
            (after_manual host policy repair (manual_handoff why command name) tool m t w)).0
          ≡ w)
        × HandsOff
            (continued host policy repair
              (ladder host policy repair present tool ms)
              (after_manual host policy repair (manual_handoff why command name) tool m t w)).1
  unfolding continued after_manual manual_handoff concat
  handed-HandsOff present tool ms m t w why command (raised e) = (refl, tt)
  handed-HandsOff present tool ms m t w why command (returned name) =
      let line = concat (command ∷ name ∷ []) in
      (
        refl,
        manual-HandsOff tool m t.errors
            (record { reason = concat (why ∷ "; you run: `" ∷ line ∷ "`" ∷ []); command = line }),
      )

  -- Without `refuses_existing`, from the question whether the method hands off.
  by_kind :
      (k : Kind) (present : Bool) (tool : Tool) (m : Method) (ms : List Method) (t : Tries) (w : W)
      → native k ≡ true
      → ((continued host policy repair
            (ladder host policy repair present tool ms)
            (after_manual host policy repair (manual_by host.writable k m) tool m t w)).0
          ≡ w)
        × HandsOff
            (continued host policy repair
              (ladder host policy repair present tool ms)
              (after_manual host policy repair (manual_by host.writable k m) tool m t w)).1
  unfolding manual_by
  by_kind dnf present tool m ms t w n = handed-HandsOff present tool ms m t w _ _ _
  by_kind apt present tool m ms t w n = handed-HandsOff present tool ms m t w _ _ _
  by_kind pacman present tool m ms t w n = handed-HandsOff present tool ms m t w _ _ _
  by_kind rpm_ostree present tool m ms t w n = handed-HandsOff present tool ms m t w _ _ _
  by_kind _ present tool m ms t w n = ground arith

-- The ladder ends at the first method of a native package manager: nothing is run, neither that
-- method nor those behind it, the world is left as it was, and the outcome, if it is not an
-- exception, hands a command to the user and is not a success. The method does not declare
-- `refuses_existing`.
pub ladder-HandsOff :
    {W : Type 0} (host : Host W) (policy : ChecksumPolicy) (repair present : Bool) (tool : Tool)
    (m : Method) (ms : List Method) (t : Tries) (w : W)
    → native m.kind ≡ true
    → is_true (get "refuses_existing" m.params) ≡ false
    → ((ladder host policy repair present tool (m ∷ ms) t w).0 ≡ w)
      × HandsOff (ladder host policy repair present tool (m ∷ ms) t w).1
unfolding ladder round
ladder-HandsOff host policy repair present tool m ms t w n r =
    rw (refusal present repair r) (by_kind host policy repair m.kind present tool m ms t w n)
  where
    refusal :
        (a b : Bool)
        → is_true (get "refuses_existing" m.params) ≡ false
        → (a && b && is_true (get "refuses_existing" m.params)) ≡ false
    refusal a b h = ground arith
