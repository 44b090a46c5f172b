-- ===== src/Deps/Place.antt =====
-- `_place` and `topo` of installer/deps.py: the order that they return, and when they raise.
use tools_installer.Base.{
  ℕ, zero, suc, ◌<◌, String, ◌≡◌, refl, ◌∙◌, subst, true, ◌⊎◌, inl, inr, some, List, [], ◌∷◌, arith,
  ◌==◌, eq_iff, All, Bool-cases, contains, Subset, Subset-cons, contains-cons_self, missing,
  missing-lt,
}
use tools_installer.Model.{Tool, ids}
use tools_installer.Deps.{by_id, Topo, finish, place, place_dep, Result, ok, err, cycle, for_each}
use tools_installer.Deps.Lookup.{by_id-id, contains-by_id}
use tools_installer.Deps.Blockable.{Registered-by_id, Registered-eq}
use tools_installer.Deps.Order.{
  IsMember, Links, one, more, IsCycle, Placed, Placed-refl, Placed-trans, finish-Placed,
}

module _ (catalog : List Tool) (member_ids : List String)
    (listed : (d : String)
      → contains d member_ids ≡ true
      → (u : Tool) × (by_id catalog d ≡ some u)) where
  -- The tools being visited lead to `t`.
  abbrev Leads : List String → Tool → Type 0
  Leads visiting t =
      (u : Tool)
      → IsMember catalog member_ids u
      → contains u.id visiting ≡ true
      → Links catalog member_ids u t

  -- The call ends well, or raises with a cycle at hand.
  abbrev pub Ends : Topo → (Topo → Type 0) → Result Topo → Type 0
  Ends s P r =
      ((s' : Topo) × (r ≡ ok s') × Placed catalog member_ids s s' × P s')
      ⊎ ((c : String) × (r ≡ err (cycle c)) × IsCycle catalog member_ids c)

  abbrev Places : Tool → Topo → Result Topo → Type 0
  Places t s = Ends s (λ s'. contains t.id s'.placed ≡ true)

  abbrev PlacesAll : List String → Topo → Result Topo → Type 0
  PlacesAll ds s = Ends s (λ s'.
      (d : String)
      → contains d ds ≡ true
      → contains d member_ids ≡ true
      → contains d s'.placed ≡ true)

  module _ (call : Tool → Topo → Result Topo) (parent : Tool) (visiting : List String)
      (calls : (d : String) (u : Tool) (s : Topo)
        → contains d parent.requires ≡ true
        → contains d member_ids ≡ true
        → by_id catalog d ≡ some u
        → s.visiting ≡ visiting
        → Places u s (call u s)) where
    place_dep-Ends :
        (d : String) (s : Topo)
        → contains d parent.requires ≡ true
        → s.visiting ≡ visiting
        → PlacesAll (d ∷ []) s (place_dep catalog member_ids call d s)
    unfolding contains place_dep
    place_dep-Ends d s needed v = elim (Bool-cases (contains d member_ids)) [
      | inr other ↦ inl (
        s,
        rw (other, place_dep) refl,
        Placed-refl catalog member_ids s,
        λ c h k. ground (arith, eq_iff d c),
      )
      | inl member ↦
          let (u, e) = listed d member in
          elim (calls d u s needed member e v) [
            | inl (s', r, p, has) ↦ inl (
              s',
              rw (member, place_dep) (rw (e, place_dep) r),
              p,
              λ c h k. ground (arith, eq_iff d c, by_id-id catalog d u e),
            )
            | inr (c, r, cyc) ↦ inr (c, rw (member, place_dep) (rw (e, place_dep) r), cyc)
          ]
    ]

    for_each_deps :
        (ds : List String) (s : Topo)
        → Subset ds parent.requires
        → s.visiting ≡ visiting
        → PlacesAll ds s (for_each (place_dep catalog member_ids call) ds s)
    unfolding contains for_each
    for_each_deps [] s sub v = inl (s, refl, Placed-refl catalog member_ids s, λ d h k. cc)
    for_each_deps (d ∷ ds) s sub v = elim (place_dep-Ends d s (sub d (contains-cons_self d ds)) v) [
      | inr (c, r, cyc) ↦ inr (c, rw (r, for_each) refl, cyc)
      | inl (s1, r1, p1, has1) ↦
          elim (for_each_deps ds s1 (λ x h. sub x (Subset-cons d ds x h)) (p1.visiting_eq ∙ v)) [
            | inr (c, r, cyc) ↦ inr (c, rw (r1, for_each) r, cyc)
            | inl (s2, r2, p2, has2) ↦ inl (
              s2,
              rw (r1, for_each) r2,
              Placed-trans catalog member_ids p1 p2,
              λ c h k. ground (arith, has1 c, has2 c, p2.grows c),
            )
          ]
    ]

  -- Those that lead to `t`, and `t`, lead to its requirement `u`.
  Leads-dep :
      (t : Tool) (visiting : List String) (d : String) (u : Tool)
      → IsMember catalog member_ids t
      → Leads visiting t
      → contains d t.requires ≡ true
      → contains d member_ids ≡ true
      → by_id catalog d ≡ some u
      → Leads (t.id ∷ visiting) u
  unfolding contains
  Leads-dep t visiting d u m lead needed member e w mw h =
      let last : Links catalog member_ids t u = one t u d needed member e in
      elim (Bool-cases (t.id == w.id)) [
        | inl same ↦
            let t_is_w = Registered-eq catalog t w m.0 mw.0 ((eq_iff t.id w.id).0 same) in
            subst (λ x. Links catalog member_ids x u) t_is_w last
        | inr other ↦ more w t u (lead w mw (ground arith)) last
      ]

  -- With more fuel than tools not being visited, `_place` ends.
  place-Places :
      (fuel : ℕ) (t : Tool) (s : Topo)
      → IsMember catalog member_ids t
      → Leads s.visiting t
      → missing (ids catalog) s.visiting < fuel
      → Places t s (place catalog member_ids fuel t s)
  unfolding place
  place-Places zero t s m lead bound = elim bound [ ]
  place-Places (suc f) t s m lead bound = elim (Bool-cases (contains t.id s.placed)) [
    | inl done ↦ inl (s, rw (done, place) refl, Placed-refl catalog member_ids s, done)
    | inr fresh ↦ elim (Bool-cases (contains t.id s.visiting)) [
      | inl again ↦
          inr (t.id, rw (fresh, place) (rw (again, place) refl), (t, refl, m, lead t m again))
      | inr first ↦
          elim (for_each_deps (place catalog member_ids f) t (t.id ∷ s.visiting)
            (λ d u r needed member e v.
              place-Places f u r
                (Registered-by_id catalog d u e, rw (by_id-id catalog d u e) member)
                (rw v (Leads-dep t s.visiting d u m lead needed member e))
                (rw v (
                  omega (
                    arith,
                    missing-lt (ids catalog) s.visiting (t.id ∷ s.visiting) t.id
                        (Subset-cons t.id s.visiting) (contains-by_id catalog t.id t m.0) first
                        (contains-cons_self t.id s.visiting),
                  ))))
            t.requires (record s { visiting = t.id ∷ s.visiting }) (λ x h. h) refl) [
              | inr (c, r, cyc) ↦
                  inr (c, rw (fresh, place) (rw (first, place) (rw (r, place) refl)), cyc)
              | inl (s1, r, p, has) ↦
                  let (q, self) = finish-Placed catalog member_ids t s s1 m fresh first p has in
                  inl (
                    finish t s1,
                    rw (fresh, place) (rw (first, place) (rw (r, place) refl)),
                    q,
                    self,
                  )
            ]
    ]
  ]

  -- The loop over the members.
  pub members-Ends :
      (fuel : ℕ) (ms : List Tool) (s : Topo)
      → All (IsMember catalog member_ids) ms
      → s.visiting ≡ []
      → missing (ids catalog) [] < fuel
      → Ends s (λ s'. Subset (ids ms) s'.placed) (for_each (place catalog member_ids fuel) ms s)
  unfolding for_each contains
  members-Ends fuel [] s all v bound = inl (s, refl, Placed-refl catalog member_ids s, λ x h. cc)
  members-Ends fuel (t ∷ ts) s all v bound =
      elim (place-Places fuel t s all.0 (rw v (λ u m h. cc)) (rw v bound)) [
        | inr (c, r, cyc) ↦ inr (c, rw (r, for_each) refl, cyc)
        | inl (s1, r1, p1, has1) ↦ elim (members-Ends fuel ts s1 all.1 (p1.visiting_eq ∙ v) bound) [
          | inr (c, r, cyc) ↦ inr (c, rw (r1, for_each) r, cyc)
          | inl (s2, r2, p2, has2) ↦ inl (
            s2,
            rw (r1, for_each) r2,
            Placed-trans catalog member_ids p1 p2,
            λ x h. ground (arith, has2 x, p2.grows x, eq_iff t.id x),
          )
        ]
      ]
