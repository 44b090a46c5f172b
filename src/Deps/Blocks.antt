-- ===== src/Deps/Blocks.antt =====
-- What `is_blocked` of installer/deps.py decides: the tools that cannot be provided.
use tools_installer.Base.{
  ℕ, zero, suc, ◌<◌, String, ◌≡◌, refl, Bool, true, false, inl, inr, List, ◌∷◌, arith, eq_refl,
  Bool-cases, contains, missing, missing-lt, Subset-cons, contains-cons_self, discard-cons_self,
}
use tools_installer.Model.{Tool}
use tools_installer.Deps.{Blocking, is_blocked, first_blocked, settle, Result, ok}
use tools_installer.Deps.Blockable.{Registered, Chain, Chain-Free}
use tools_installer.Deps.Judges.{Judges, Finds}
use tools_installer.Deps.Search.{first_blocked-Finds}
use tools_installer.Deps.Settle.{
  visiting-settle, blocked-settle, settle-Subset, settle-Justified, settle_complete,
}

module _ (catalog : List Tool) (available is_installed : Tool → Bool) where
  module _ (fuel : ℕ) (t : Tool) (s : Blocking) where
    abbrev judged : Result (Bool × Blocking)
    judged = is_blocked catalog available is_installed (suc fuel) t s

    judged_before :
        contains t.id s.blocked ≡ true → Judges catalog available is_installed t s judged
    unfolding is_blocked
    judged_before old = record {
      answer = true;
      after = s;
      returns = rw (old, is_blocked) refl;
      visiting_eq = refl;
      grows = λ x h. h;
      recorded = λ e. old;
      sound = λ j. j;
      complete = λ n c. refl;
    }

    not_blocked :
        judged ≡ ok (false, s)
        → ((n : ℕ) → ¬ Chain catalog available is_installed s.visiting n t)
        → Judges catalog available is_installed t s judged
    not_blocked e none_such = record {
      answer = false;
      after = s;
      returns = e;
      visiting_eq = refl;
      grows = λ x h. h;
      recorded = λ h. cc;
      sound = λ j. j;
      complete = λ n c. absurd (none_such n c);
    }

    judged_installed :
        contains t.id s.blocked ≡ false
        → is_installed t ≡ true
        → Judges catalog available is_installed t s judged
    unfolding is_blocked
    judged_installed fresh here =
        not_blocked (ground arith)
          (λ n c. cc (here, (Chain-Free catalog available is_installed s.visiting n t c).0))

    judged_visiting :
        contains t.id s.blocked ≡ false
        → is_installed t ≡ false
        → contains t.id s.visiting ≡ true
        → Judges catalog available is_installed t s judged
    unfolding is_blocked
    judged_visiting fresh absent again =
        not_blocked (ground arith)
          (λ n c. cc (again, (Chain-Free catalog available is_installed s.visiting n t c).1))

    judged_search :
        Registered catalog t
        → contains t.id s.blocked ≡ false
        → is_installed t ≡ false
        → contains t.id s.visiting ≡ false
        → Finds catalog available is_installed t.requires
            (record s { visiting = t.id ∷ s.visiting })
            (first_blocked catalog
              (is_blocked catalog available is_installed fuel)
              t.requires
              (record s { visiting = t.id ∷ s.visiting }))
        → Judges catalog available is_installed t s judged
    judged_search reg fresh absent first f = record {
      answer = (settle available t (f.needs, f.after)).0;
      after = (settle available t (f.needs, f.after)).1;
      returns = unfold is_blocked in rw (fresh, absent, first, f.returns) refl;
      visiting_eq =
          rw (visiting-settle catalog available is_installed t f.needs f.after)
            (rw f.visiting_eq (discard-cons_self t.id s.visiting first));
      grows = λ x h.
          settle-Subset catalog available is_installed t reg absent
            (record s { visiting = t.id ∷ s.visiting }) f x (f.grows x h);
      recorded = λ a. ground (
        arith,
        blocked-settle catalog available is_installed t f.needs f.after t.id,
        eq_refl t.id,
      );
      sound = λ j.
          settle-Justified catalog available is_installed t reg absent
            (record s { visiting = t.id ∷ s.visiting }) f (f.sound j);
      complete = λ n c. settle_complete catalog available is_installed t s n reg f c;
    }

  -- With more fuel than tools not being visited, `is_blocked` ends and judges its tool.
  pub is_blocked-Judges :
      (fuel : ℕ) (universe : List String)
      → ((u : Tool) → Registered catalog u → contains u.id universe ≡ true)
      → (t : Tool) (s : Blocking) → Registered catalog t
      → missing universe s.visiting < fuel
      → Judges catalog available is_installed t s
          (is_blocked catalog available is_installed fuel t s)
  is_blocked-Judges zero universe inside t s reg m = elim m [ ]
  is_blocked-Judges (suc f) universe inside t s reg m =
      elim (Bool-cases (contains t.id s.blocked)) [
        | inl old ↦ judged_before f t s old
        | inr fresh ↦ elim (Bool-cases (is_installed t)) [
          | inl here ↦ judged_installed f t s fresh here
          | inr absent ↦ elim (Bool-cases (contains t.id s.visiting)) [
            | inl again ↦ judged_visiting f t s fresh absent again
            | inr first ↦ judged_search f t s reg fresh absent first (
                first_blocked-Finds catalog available is_installed
                  (is_blocked catalog available is_installed f) (t.id ∷ s.visiting)
                  (λ u r reg_u v. is_blocked-Judges f universe inside u r reg_u (
                    rw v (
                      omega (
                        arith,
                        missing-lt universe s.visiting (t.id ∷ s.visiting) t.id
                            (Subset-cons t.id s.visiting) (inside t reg) first
                            (contains-cons_self t.id s.visiting),
                      ))))
                  t.requires (record s { visiting = t.id ∷ s.visiting }) refl)
          ]
        ]
      ]
