-- ===== src/Deps/Search.antt =====
-- The generator over a tool's dependencies in `is_blocked` of installer/deps.py.
use tools_installer.Base.{
  String, ◌≡◌, refl, ◌∙◌, sym, subst, Bool, true, false, inl, inr, none, some, List, [], ◌∷◌, arith,
  ◌==◌, eq_iff, eq_refl, Bool-cases, Option-cases, contains,
}
use tools_installer.Model.{Tool}
use tools_installer.Deps.{by_id, Blocking, first_blocked, Result}
use tools_installer.Deps.Lookup.{by_id-id}
use tools_installer.Deps.Blockable.{Registered, Registered-by_id, Chain}
use tools_installer.Deps.Judges.{Judges, Finds}

module _ (catalog : List Tool) (available is_installed : Tool → Bool) where
  module _ (call : Tool → Blocking → Result (Bool × Blocking)) (d : String) (ds : List String)
      (s : Blocking) (u : Tool) (e : by_id catalog d ≡ some u)
      (j : Judges catalog available is_installed u s (call u s)) where
    -- The generator stops at a blocked dependency,
    stops :
        j.answer ≡ true
        → Finds catalog available is_installed (d ∷ ds) s (first_blocked catalog call (d ∷ ds) s)
    unfolding first_blocked contains
    stops a = record {
      needs = some d;
      after = j.after;
      returns = rw (e, first_blocked) (rw (j.returns, first_blocked) (rw (a, first_blocked) refl));
      visiting_eq = j.visiting_eq;
      grows = j.grows;
      sound = j.sound;
      found = λ c h.
          let same : d ≡ c = cc in
          (
            rw (← same) (rw eq_refl refl),
            (u, rw (← same) e, rw (← same) (rw (by_id-id catalog d u e) at (j.recorded a))),
          );
      complete = λ c v n h k chain. refl;
    }

    -- and goes on at one that is not.
    goes_on :
        j.answer ≡ false
        → Finds catalog available is_installed ds j.after (first_blocked catalog call ds j.after)
        → Finds catalog available is_installed (d ∷ ds) s (first_blocked catalog call (d ∷ ds) s)
    unfolding first_blocked contains
    goes_on a f = record {
      needs = f.needs;
      after = f.after;
      returns =
          rw (e, first_blocked) (rw (j.returns, first_blocked) (rw (a, first_blocked) f.returns));
      visiting_eq = f.visiting_eq ∙ j.visiting_eq;
      grows = λ x h. f.grows x (j.grows x h);
      sound = λ h. f.sound (j.sound h);
      found = λ c h. ground (arith, f.found c h);
      complete = λ c v n h k chain. elim (Bool-cases (d == c)) [
        | inl same ↦
            let c_is_d : c ≡ d = sym ((eq_iff d c).0 same) in
            let v_is_u : v ≡ u = cc in
            cc (
              j.complete n (subst (Chain catalog available is_installed s.visiting n) v_is_u chain))
        | inr other ↦ f.complete c v n (ground arith) k (rw j.visiting_eq chain)
      ];
    }

  module _ (call : Tool → Blocking → Result (Bool × Blocking)) (visiting : List String)
      (calls : (t : Tool) (s : Blocking)
        → Registered catalog t
        → s.visiting ≡ visiting
        → Judges catalog available is_installed t s (call t s)) where
    pub first_blocked-Finds :
        (ds : List String) (s : Blocking)
        → s.visiting ≡ visiting
        → Finds catalog available is_installed ds s (first_blocked catalog call ds s)
    unfolding first_blocked contains
    first_blocked-Finds [] s v = record {
      needs = none;
      after = s;
      returns = refl;
      visiting_eq = refl;
      grows = λ x h. h;
      sound = λ j. j;
      found = λ d e. cc;
      complete = λ d u n h. cc;
    }
    first_blocked-Finds (d ∷ ds) s v = elim (Option-cases (by_id catalog d)) [
      | inl absent ↦
          let f = first_blocked-Finds ds s v in
          record {
            needs = f.needs;
            after = f.after;
            returns = rw (absent, first_blocked) f.returns;
            visiting_eq = f.visiting_eq;
            grows = f.grows;
            sound = f.sound;
            found = λ c e. ground (arith, f.found c e);
            complete = λ c u n h e k. f.complete c u n (ground (arith, eq_iff d c)) e k;
          }
      | inr (u, e) ↦
          let j = calls u s (Registered-by_id catalog d u e) v in
          let rest = first_blocked-Finds ds j.after (j.visiting_eq ∙ v) in
          elim (Bool-cases j.answer) [
            | inl a ↦ stops call d ds s u e j a
            | inr a ↦ goes_on call d ds s u e j a rest
          ]
    ]
