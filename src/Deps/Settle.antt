-- ===== src/Deps/Settle.antt =====
-- The end of `is_blocked` of installer/deps.py: the verdict, and what goes on record.
use tools_installer.Base.{
  ℕ, String, ◌≡◌, ◌∙◌, subst, Bool, true, false, not, ◌&&◌, ◌||◌, if◌then◌else◌, inl, inr, Option,
  none, some, List, ◌∷◌, arith, ◌==◌, eq_iff, eq_refl, Bool-cases, Option-cases, is_some, contains,
  Subset, discard, get, get-put,
}
use tools_installer.Model.{Tool}
use tools_installer.Deps.{Blocking, settle, Result}
use tools_installer.Deps.Lookup.{by_id-id}
use tools_installer.Deps.Blockable.{
  Registered, Registered-by_id, Registered-eq, Blockable, unavailable, by_dependency, Chain,
  Chain-Inner,
}
use tools_installer.Deps.Judges.{Reason, Justified, Finds}

module _ (catalog : List Tool) (available is_installed : Tool → Bool) where
  module _ (t : Tool) (needs : Option String) (s : Blocking) where
    pub visiting-settle : (settle available t (needs, s)).1.visiting ≡ discard t.id s.visiting
    unfolding settle
    visiting-settle = ground arith

    pub blocked-settle :
        (x : String)
        → contains x (settle available t (needs, s)).1.blocked
          ≡ ((settle available t (needs, s)).0 && t.id == x || contains x s.blocked)
    unfolding settle contains
    blocked-settle x = ground arith

    settle_iff : (settle available t (needs, s)).0 ≡ (not (available t) || is_some needs)
    unfolding settle
    settle_iff = ground arith

    get-settle :
        (x : String)
        → get x (settle available t (needs, s)).1.blocked_needs ≡ (
            if (settle available t (needs, s)).0 && t.id == x
            then some (if not (available t) then none else needs)
            else get x s.blocked_needs)
    unfolding settle
    get-settle x =
        ground (arith, get-put t.id x (if not (available t) then none else needs) s.blocked_needs)

  Reason-mono :
      (s s' : Blocking) (u : Tool)
      → get u.id s'.blocked_needs ≡ get u.id s.blocked_needs
      → Subset s.blocked s'.blocked
      → Reason catalog available is_installed s u
      → Reason catalog available is_installed s' u
  Reason-mono s s' u e sub (inl (a, b)) = inl (e ∙ a, b)
  Reason-mono s s' u e sub (inr (d, a, b, c, v, i, k)) = inr (d, e ∙ a, b, c, v, i, sub d k)

  module _ (t : Tool) (reg : Registered catalog t) (absent : is_installed t ≡ false) (s : Blocking)
      {r : Result (Option String × Blocking)}
      (f : Finds catalog available is_installed t.requires s r) where
    abbrev settled : Bool × Blocking
    settled = settle available t (f.needs, f.after)

    pub settle-Subset : Subset f.after.blocked settled.1.blocked
    settle-Subset x h = ground (arith, blocked-settle t f.needs f.after x)

    settle-Reason : settled.0 ≡ true → Reason catalog available is_installed settled.1 t
    settle-Reason a = elim (Bool-cases (available t)) [
      | inr no_way ↦ inl (ground (arith, get-settle t f.needs f.after t.id, eq_refl t.id), no_way)
      | inl way ↦ elim (Option-cases f.needs) [
        | inl nothing ↦ absurd (ground (arith, settle_iff t f.needs f.after))
        | inr (d, e) ↦
            let (listed, (u, k, b)) = f.found d e in
            inr (
              d,
              ground (arith, get-settle t f.needs f.after t.id, eq_refl t.id),
              way,
              listed,
              u,
              k,
              settle-Subset d b,
            )
      ]
    ]

    settle-Blockable :
        Justified catalog available is_installed f.after
        → settled.0 ≡ true
        → Blockable catalog available is_installed t
    settle-Blockable j a = elim (Bool-cases (available t)) [
      | inr no_way ↦ unavailable t absent no_way
      | inl way ↦ elim (Option-cases f.needs) [
        | inl nothing ↦ absurd (ground (arith, settle_iff t f.needs f.after))
        | inr (d, e) ↦
            let (listed, (u, k, b)) = f.found d e in
            by_dependency t d u absent listed k
              (j u (Registered-by_id catalog d u k) (rw (by_id-id catalog d u k) b)).0
      ]
    ]

    pub settle-Justified :
        Justified catalog available is_installed f.after
        → Justified catalog available is_installed settled.1
    settle-Justified j u reg_u h = elim (Bool-cases (settled.0 && t.id == u.id)) [
      | inl new ↦
          let a : settled.0 ≡ true = ground arith in
          let t_is_u : t ≡ u =
            Registered-eq catalog t u reg reg_u (ground (arith, eq_iff t.id u.id)) in
          subst
            (λ v.
              Blockable catalog available is_installed v
              × Reason catalog available is_installed settled.1 v)
            t_is_u (settle-Blockable j a, settle-Reason a)
      | inr old ↦
          let (b, reason) = j u reg_u (ground (arith, blocked-settle t f.needs f.after u.id)) in
          (
            b,
            Reason-mono f.after settled.1 u (ground (arith, get-settle t f.needs f.after u.id))
                settle-Subset reason,
          )
    ]

  -- A chain from `t` ends at once or goes on through a dependency that the search finds.
  pub settle_complete :
      (t : Tool) (s : Blocking) {r : Result (Option String × Blocking)} (n : ℕ)
      → Registered catalog t
      → (f : Finds catalog available is_installed t.requires
          (record s { visiting = t.id ∷ s.visiting })
          r)
      → Chain catalog available is_installed s.visiting n t
      → (settle available t (f.needs, f.after)).0 ≡ true
  settle_complete t s n reg f chain =
      elim (Chain-Inner catalog available is_installed s.visiting t n n (omega arith) reg chain) [
        | inl no_way ↦ ground (arith, settle_iff t f.needs f.after)
        | inr (d, u, k, le, listed, e, inner) ↦
            ground (arith, settle_iff t f.needs f.after, f.complete d u k listed e inner)
      ]
