-- ===== src/Deps/Preview/Exact.antt =====
-- What `missing_requires` of installer/deps.py returns.
use tools_installer.Base.{
  ℕ, zero, suc, ◌+◌, ◌≤◌, ◌<◌, String, ◌≡◌, ◌≢◌, refl, Bool, true, false, not, ◌&&◌, ◌||◌, ◌⊎◌, inl,
  inr, ◌↔◌, none, some, List, [], ◌∷◌, ◌++◌, arith, ◌==◌, eq_iff, eq_refl, if◌then◌else◌,
  Bool-cases, Option-cases, contains, contains-append, length, length-append, is_some, Distinct,
  Distinct-snoc, append-nil,
}
use tools_installer.Model.{Tool}
use tools_installer.Deps.{by_id}
use tools_installer.Deps.Blockable.{Registered}
use tools_installer.Deps.Preview.{Preview, is_missing, visit, search, total, missing_requires}

module _ (catalog : List Tool) (t : Tool) where
  -- `d` is a requirement of `t`, or of a catalogued tool with such an id.
  pub data Below : String → Type 0 where
    direct : (d : String) → contains d t.requires ≡ true → Below d
    deeper :
        (d : String) (u : Tool) (e : String)
        → Below d
        → by_id catalog d ≡ some u
        → contains e u.requires ≡ true
        → Below e

-- How many requirements the tools not yet seen can still add to the queue.
rest : List Tool → List String → ℕ
rest [] seen = 0
rest (t ∷ ts) seen = (if contains t.id seen then 0 else length t.requires) + rest ts seen

rest-le-total : (ts : List Tool) (seen : List String) → rest ts seen ≤ total ts
unfolding rest total
rest-le-total [] seen = omega arith
rest-le-total (t ∷ ts) seen = ground (arith, rest-le-total ts seen)

rest-snoc :
    (ts : List Tool) (seen : List String) (d : String) → rest ts (seen ++ d ∷ []) ≤ rest ts seen
unfolding rest contains
rest-snoc [] seen d = omega arith
rest-snoc (t ∷ ts) seen d = ground (arith, rest-snoc ts seen d, contains-append t.id seen (d ∷ []))

rest-visit :
    (ts : List Tool) (seen : List String) (d : String) (u : Tool)
    → contains d seen ≡ false
    → by_id ts d ≡ some u
    → rest ts (seen ++ d ∷ []) + length u.requires ≤ rest ts seen
unfolding rest contains by_id
rest-visit [] seen d u fresh e = cc
rest-visit (t ∷ ts) seen d u fresh e = elim (Option-cases (by_id ts d)) [
  | inl later ↦
      ground (arith, eq_iff t.id d, rest-snoc ts seen d, contains-append t.id seen (d ∷ []))
  | inr (v, later) ↦
      ground (arith, rest-visit ts seen d u fresh (cc), contains-append t.id seen (d ∷ []))
]

module _ (catalog : List Tool) (staged : List String) (installed : List (String × Bool)) (t : Tool)
    (reg : Registered catalog t) where
  record Inv (queue : List String) (s : Preview) : Type 0 where
    start :
        (e : String) → contains e t.requires ≡ true → (contains e s.seen || contains e queue) ≡ true
    closed :
        (d : String) (u : Tool) (e : String)
        → contains d s.seen ≡ true
        → d ≢ t.id
        → by_id catalog d ≡ some u
        → contains e u.requires ≡ true
        → (contains e s.seen || contains e queue) ≡ true
    root : contains t.id s.seen ≡ true
    exact :
        (d : String)
        → contains d s.missing ≡ (
            contains d s.seen
            && not (d == t.id)
            && is_some (by_id catalog d)
            && is_missing catalog staged installed d)
    distinct : Distinct s.missing
    seen_below : (d : String) → contains d s.seen ≡ true → d ≢ t.id → Below catalog t d
    queue_below : (d : String) → contains d queue ≡ true → Below catalog t d

  skip_lem :
      (d : String) (queue : List String) (s : Preview)
      → contains d s.seen ≡ true
      → Inv (d ∷ queue) s
      → Inv queue s
  unfolding contains
  skip_lem d queue s old i = record {
    start = λ e c. ground (arith, i.start e c, eq_iff d e);
    closed = λ c u e a ne f g. ground (arith, i.closed c u e a ne f g, eq_iff d e);
    root = i.root;
    exact = i.exact;
    distinct = i.distinct;
    seen_below = i.seen_below;
    queue_below = λ c h. i.queue_below c (ground arith);
  }

  -- A new id goes from the queue to `seen`, and its requirements join the queue.
  module _ (d : String) (queue : List String) (s : Preview) (fresh : contains d s.seen ≡ false)
      (i : Inv (d ∷ queue) s) where
    abbrev after : Preview
    after = (visit catalog staged installed d s).0

    abbrev more : List String
    more = (visit catalog staged installed d s).1

    seen-visit : (e : String) → contains e after.seen ≡ (contains e s.seen || d == e)
    unfolding visit contains
    seen-visit e = ground (arith, contains-append e s.seen (d ∷ []))

    missing-visit :
        (e : String)
        → contains e after.missing ≡ (
            contains e s.missing
            || (d == e && is_some (by_id catalog d) && is_missing catalog staged installed d))
    unfolding visit contains
    missing-visit e = ground (arith, contains-append e s.missing (d ∷ []))

    more-visit : (u : Tool) → by_id catalog d ≡ some u → more ≡ u.requires
    unfolding visit
    more-visit u e = ground arith

    more-none : by_id catalog d ≡ none → more ≡ []
    unfolding visit
    more-none e = ground arith

    d_new : d ≢ t.id
    d_new e = cc (i.root)

    not_listed : contains d s.missing ≡ false
    not_listed = ground (arith, i.exact d)

    missing_cases : (after.missing ≡ s.missing) ⊎ (after.missing ≡ s.missing ++ d ∷ [])
    unfolding visit
    missing_cases = elim (Option-cases (by_id catalog d)) [
      | inl absent ↦ inl (ground arith)
      | inr (u, e) ↦ elim (Bool-cases (is_missing catalog staged installed d)) [
        | inl wanted ↦ inr (ground arith)
        | inr there ↦ inl (ground arith)
      ]
    ]

    visit-Distinct : Distinct after.missing
    visit-Distinct = elim missing_cases [
      | inl e ↦ rw e i.distinct
      | inr e ↦ rw e (Distinct-snoc s.missing d i.distinct not_listed)
    ]

    queue_next : (e : String) → contains e (queue ++ more) ≡ (contains e queue || contains e more)
    queue_next e = contains-append e queue more

    visit-Inv : Inv (queue ++ more) after
    unfolding contains
    visit-Inv = record {
      start = λ e c. ground (arith, i.start e c, queue_next e, seen-visit e, eq_iff d e);
      closed = λ c u e a ne f g. elim (Bool-cases (d == c)) [
        | inl same ↦ ground (arith, eq_iff d c, more-visit u, queue_next e)
        | inr other ↦ ground (
          arith,
          i.closed c u e (ground (arith, seen-visit c)) ne f g,
          queue_next e,
          seen-visit e,
          eq_iff d e,
        )
      ];
      root = ground (arith, seen-visit t.id, i.root);
      exact = λ c. ground (
        arith,
        i.exact c,
        seen-visit c,
        missing-visit c,
        eq_iff d c,
        eq_iff c t.id,
        eq_iff d t.id,
        d_new,
      );
      distinct = visit-Distinct;
      seen_below = λ c h ne. elim (Bool-cases (d == c)) [
        | inl same ↦ i.queue_below c (ground arith)
        | inr other ↦ i.seen_below c (ground (arith, seen-visit c)) ne
      ];
      queue_below = λ c h. elim (Bool-cases (contains c queue)) [
        | inl waits ↦ i.queue_below c (ground arith)
        | inr joins ↦ elim (Option-cases (by_id catalog d)) [
          | inl absent ↦ absurd (ground (arith, queue_next c, more-none absent))
          | inr (u, e) ↦
              deeper d u c (i.queue_below d (ground (arith, eq_refl d))) e
                (ground (arith, queue_next c, more-visit u e))
        ]
      ];
    }

    seen_eq : after.seen ≡ s.seen ++ d ∷ []
    unfolding visit
    seen_eq = ground arith

    visit-potential :
        length (queue ++ more) + rest catalog after.seen ≤ length queue + rest catalog s.seen
    visit-potential = elim (Option-cases (by_id catalog d)) [
      | inl absent ↦
          rw (seen_eq, more-none absent, append-nil) (omega (arith, rest-snoc catalog s.seen d))
      | inr (u, e) ↦
          rw (seen_eq, more-visit u e)
            (omega (arith, rest-visit catalog s.seen d u fresh e, length-append queue u.requires))
    ]

  -- With enough fuel the queue runs empty.
  search-Inv :
      (fuel : ℕ) (queue : List String) (s : Preview)
      → length queue + rest catalog s.seen < fuel
      → Inv queue s
      → (s' : Preview) × (search catalog staged installed fuel queue s ≡ some s') × Inv [] s'
  unfolding search
  search-Inv zero queue s bound i = elim bound [ ]
  search-Inv (suc f) [] s bound i = (s, refl, i)
  search-Inv (suc f) (d ∷ queue) s bound i = elim (Bool-cases (contains d s.seen)) [
    | inl old ↦
        let (s', e, j) = search-Inv f queue s (omega arith) (skip_lem d queue s old i) in
        (s', rw (old, search) e, j)
    | inr fresh ↦
        let (s', e, j) =
          search-Inv f (queue ++ more d queue s fresh i) (after d queue s fresh i)
            (omega (arith, visit-potential d queue s fresh i)) (visit-Inv d queue s fresh i) in
        (s', rw (fresh, search) e, j)
  ]

  seen_complete :
      (s : Preview) → Inv [] s → {d : String} → Below catalog t d → contains d s.seen ≡ true
  unfolding contains
  seen_complete s i (direct d c) = ground (arith, i.start d c)
  seen_complete s i (deeper d u e b f c) = elim (Bool-cases (d == t.id)) [
    | inl same ↦ ground (arith, i.start e, eq_iff d t.id, reg)
    | inr other ↦
        ground
          (arith, i.closed d u e (seen_complete s i b) (λ p. ground (arith, eq_iff d t.id)) f c)
  ]

  abbrev begin : Preview
  begin = record { seen = t.id ∷ []; missing = [] }

  begin-Inv : Inv t.requires begin
  unfolding contains
  begin-Inv = record {
    start = λ e c. ground arith;
    closed = λ d u e a ne f g. absurd (ne (ground (arith, eq_iff t.id d)));
    root = ground (arith, eq_refl t.id);
    exact = λ d. ground (arith, eq_iff t.id d, eq_iff d t.id);
    distinct = tt;
    seen_below = λ d h ne. absurd (ne (ground (arith, eq_iff t.id d)));
    queue_below = λ d h. direct d h;
  }

  listed_iff :
      (s : Preview) (d : String)
      → Inv [] s
      → (contains d s.missing ≡ true) ↔ (
          Below catalog t d
          × (d ≢ t.id)
          × (is_some (by_id catalog d) ≡ true)
          × (is_missing catalog staged installed d ≡ true))
  listed_iff s d j = (
    λ h.
        let other : d ≢ t.id = λ p. ground (arith, j.exact d, eq_iff d t.id) in
        (
          j.seen_below d (ground (arith, j.exact d)) other,
          other,
          ground (arith, j.exact d),
          ground (arith, j.exact d),
        ),
    λ (below, other, known, wanted).
        ground (arith, j.exact d, eq_iff d t.id, seen_complete s j below),
  )

  -- For a catalogued tool the search returns, without fuel running out. It names each id once, and
  -- it names exactly the ids, other than the tool's own, that the tool requires directly or through
  -- catalogued tools, that are catalogued, and that are neither staged nor installed.
  pub missing_requires-exact :
      (missing : List String) × (missing_requires catalog staged installed t ≡ some missing)
      × Distinct missing
      × ((d : String)
          → (contains d missing ≡ true) ↔ (
              Below catalog t d
              × (d ≢ t.id)
              × (is_some (by_id catalog d) ≡ true)
              × (is_missing catalog staged installed d ≡ true)))
  unfolding missing_requires
  missing_requires-exact =
      let (s, e, j) =
        search-Inv (suc (length t.requires + total catalog)) t.requires begin
          (omega (arith, rest-le-total catalog begin.seen)) begin-Inv in
      (s.missing, rw (e, missing_requires) refl, j.distinct, λ d. listed_iff s d j)
