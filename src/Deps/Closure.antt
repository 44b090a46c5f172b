-- ===== src/Deps/Closure.antt =====
-- The closure that `collect` computes, for any predicate that dependencies inherit.
use tools_installer.Base.{
  ℕ, zero, suc, ◌≤◌, ◌<◌, String, ◌≡◌, refl, true, false, some, List, [], ◌∷◌, ◌++◌, inl, inr,
  arith, eq_iff, eq_refl, All, All-append, All-map, Bool-cases, Option-cases, contains,
  contains-append, Distinct, Distinct-snoc, Subset, missing, missing-lt, missing_mono, append_assoc,
  append-nil, map-append,
}
use tools_installer.Model.{Tool, ids}
use tools_installer.Deps.{
  by_id, Collect, collect, collect_dep, collect_all, enter, request, Result, ok, for_each,
}
use tools_installer.Deps.Lookup.{by_id-id}

module _ (catalog : List Tool) where
  -- Every catalogued dependency of `t` is in `seen`.
  abbrev pub DepsIn : List String → Tool → Type 0
  DepsIn seen t =
      (d : String) (u : Tool)
      → contains d t.requires ≡ true
      → by_id catalog d ≡ some u
      → contains d seen ≡ true

module _ (catalog : List Tool) (selected_ids universe : List String) (Q : Tool → Type 0)
    (inherit : (t : Tool) (d : String) (u : Tool)
      → Q t
      → contains d t.requires ≡ true
      → by_id catalog d ≡ some u
      → Q u)
    (inside : (t : Tool) → Q t → contains t.id universe ≡ true) where
  -- What a call adds to the state.
  pub record Grown (s s' : Collect) : Type 0 where
    pub new : List Tool
    pub wanted_eq : s'.wanted ≡ s.wanted ++ new
    pub seen_eq : s'.seen ≡ s.seen ++ ids new
    pub distinct : Distinct s.seen → Distinct s'.seen
    pub closed : All (DepsIn catalog s'.seen) new
    pub all_q : All Q new

  Grown-Subset : {s s' : Collect} → Grown s s' → Subset s.seen s'.seen
  Grown-Subset {s} {s'} g x h = ground (arith, g.seen_eq, contains-append x s.seen (ids g.new))

  Grown-refl : (s s' : Collect) → s'.wanted ≡ s.wanted → s'.seen ≡ s.seen → Grown s s'
  Grown-refl s s' e k = record {
    new = [];
    wanted_eq = rw append-nil e;
    seen_eq = rw append-nil k;
    distinct = λ d. rw k d;
    closed = tt;
    all_q = tt;
  }

  Grown-trans : {s t u : Collect} → Grown s t → Grown t u → Grown s u
  Grown-trans {s} {t} {u} g h = record {
    new = g.new ++ h.new;
    wanted_eq = rw (h.wanted_eq, g.wanted_eq, append_assoc);
    seen_eq = rw (h.seen_eq, g.seen_eq, map-append, append_assoc);
    distinct = λ d. h.distinct (g.distinct d);
    closed =
        All-append (DepsIn catalog u.seen) g.new h.new
          (All-map (λ a c d v m e. Grown-Subset h d (c d v m e)) g.new g.closed) h.closed;
    all_q = All-append Q g.new h.new g.all_q h.all_q;
  }

  -- `tool` itself, and then what its dependencies add.
  Grown-enter :
      (tool : Tool) (s s' : Collect)
      → Q tool
      → contains tool.id s.seen ≡ false
      → Grown (enter tool s) s'
      → DepsIn catalog s'.seen tool
      → Grown s s'
  unfolding enter
  Grown-enter tool s s' q fresh g deps = record {
    new = tool ∷ g.new;
    wanted_eq = rw (g.wanted_eq, append_assoc);
    seen_eq = rw (g.seen_eq, append_assoc);
    distinct = λ d. g.distinct (Distinct-snoc s.seen tool.id d fresh);
    closed = (deps, g.closed);
    all_q = (q, g.all_q);
  }

  -- A call that ends well: it grows the state, and has seen its tool.
  abbrev pub Collects : Tool → Collect → Result Collect → Type 0
  Collects t s r = (s' : Collect) × (r ≡ ok s') × Grown s s' × (contains t.id s'.seen ≡ true)

  abbrev DepsCollected : List String → Collect → Result Collect → Type 0
  DepsCollected ds s r =
      (s' : Collect) × (r ≡ ok s')
      × Grown s s'
      × ((d : String) (u : Tool)
          → contains d ds ≡ true
          → by_id catalog d ≡ some u
          → contains d s'.seen ≡ true)

  request-Grown : (dep root : Tool) (s : Collect) → Grown s (request selected_ids dep root s)
  unfolding request
  request-Grown dep root s = elim (Bool-cases (contains dep.id selected_ids)) [
    | inl e ↦ rw e (Grown-refl s s refl refl)
    | inr e ↦ rw e (Grown-refl s _ refl refl)
  ]

  seen-request : (dep root : Tool) (s : Collect) → (request selected_ids dep root s).seen ≡ s.seen
  unfolding request
  seen-request dep root s = ground arith

  module _ (root : Tool) (call : Tool → Tool → Collect → Result Collect) (bound : ℕ)
      (calls : (t : Tool) (s : Collect)
        → Q t
        → missing universe s.seen ≤ bound
        → Collects t s (call t root s)) where
    collect_dep-Grown :
        (parent : Tool) (d : String) (s : Collect)
        → Q parent
        → contains d parent.requires ≡ true
        → missing universe s.seen ≤ bound
        → DepsCollected (d ∷ []) s (collect_dep catalog selected_ids call root d s)
    unfolding collect_dep contains
    collect_dep-Grown parent d s q needed m = elim (Option-cases (by_id catalog d)) [
      | inl absent ↦
          rw (absent, collect_dep)
            (s, refl, Grown-refl s s refl refl, λ e u h k. ground (arith, eq_iff d e))
      | inr (u, found) ↦
          let r = request selected_ids u root s in
          let q' = inherit parent d u q needed found in
          let (s', e, g, has) = calls u r q' (rw seen-request m) in
          (
            s',
            rw (found, collect_dep) e,
            Grown-trans (request-Grown u root s) g,
            λ c v h k. ground (arith, eq_iff d c, by_id-id catalog d u found),
          )
    ]

    for_each_deps :
        (parent : Tool) (ds : List String) (s : Collect)
        → Q parent
        → Subset ds parent.requires
        → missing universe s.seen ≤ bound
        → DepsCollected ds s (for_each (collect_dep catalog selected_ids call root) ds s)
    unfolding for_each contains
    for_each_deps parent [] s q sub m = (s, refl, Grown-refl s s refl refl, λ d u h e. cc)
    for_each_deps parent (d ∷ ds) s q sub m =
        let (s1, e1, g1, has1) = collect_dep-Grown parent d s q (sub d (rw eq_refl refl)) m in
        let (s2, e2, g2, has2) =
          for_each_deps parent ds s1 q (λ x h. sub x (ground arith))
            (omega (arith, missing_mono universe s.seen s1.seen (Grown-Subset g1))) in
        (
          s2,
          rw (e1, for_each) e2,
          Grown-trans g1 g2,
          λ c u h k. ground (arith, has1 c u, has2 c u, Grown-Subset g2 c),
        )

  enter-Subset : (t : Tool) (s : Collect) → Subset s.seen (enter t s).seen
  unfolding enter
  enter-Subset t s x h = ground (arith, contains-append x s.seen (t.id ∷ []))

  contains-enter : (t : Tool) (s : Collect) → contains t.id (enter t s).seen ≡ true
  unfolding enter contains
  contains-enter t s = ground (arith, contains-append t.id s.seen (t.id ∷ []), eq_refl t.id)

  missing-enter :
      (t : Tool) (s : Collect)
      → Q t
      → contains t.id s.seen ≡ false
      → missing universe (enter t s).seen < missing universe s.seen
  missing-enter t s q fresh =
      missing-lt universe s.seen (enter t s).seen t.id (enter-Subset t s) (inside t q) fresh
        (contains-enter t s)

  -- With more fuel than tools not seen, `collect` ends, and has seen its tool.
  pub collect-Collects :
      (fuel : ℕ) (t root : Tool) (s : Collect)
      → Q t
      → missing universe s.seen < fuel
      → Collects t s (collect catalog selected_ids fuel t root s)
  unfolding collect
  collect-Collects zero t root s q m = elim m [ ]
  collect-Collects (suc f) t root s q m = elim (Bool-cases (contains t.id s.seen)) [
    | inl old ↦ rw (old, collect) (s, refl, Grown-refl s s refl refl, old)
    | inr fresh ↦
        let (s', e, g, has) =
          for_each_deps root (collect catalog selected_ids f) (missing universe (enter t s).seen)
            (λ u r q' m'. collect-Collects f u root r q' (omega (arith, missing-enter t s q fresh)))
            t t.requires (enter t s) q (λ x h. h) (omega arith) in
        (
          s',
          rw (fresh, collect) e,
          Grown-enter t s s' q fresh g has,
          Grown-Subset g t.id (contains-enter t s),
        )
  ]

  -- The loop over the selection.
  pub collect_all-Grown :
      (fuel : ℕ) (selected : List Tool) (s : Collect)
      → All Q selected
      → missing universe s.seen < fuel
      → (s' : Collect) × (collect_all catalog selected_ids fuel selected s ≡ ok s')
        × Grown s s'
        × Subset (ids selected) s'.seen
  unfolding collect_all for_each contains
  collect_all-Grown fuel [] s q m = (s, refl, Grown-refl s s refl refl, λ x h. cc)
  collect_all-Grown fuel (t ∷ ts) s q m =
      let (s1, e1, g1, has1) = collect-Collects fuel t t s q.0 m in
      let (s2, e2, g2, has2) =
        collect_all-Grown fuel ts s1 q.1
          (omega (arith, missing_mono universe s.seen s1.seen (Grown-Subset g1))) in
      (
        s2,
        rw (e1, for_each) e2,
        Grown-trans g1 g2,
        λ x h. ground (arith, eq_iff t.id x, has2 x, Grown-Subset g2 x),
      )
