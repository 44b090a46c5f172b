-- ===== src/Deps/Resolved.antt =====
-- What `resolve_dependencies` of installer/deps.py returns, from the three phases.
use tools_installer.Base.{
  ◌<◌, String, ◌≡◌, refl, ◌∙◌, Bool, true, inl, inr, some, List, [], ◌∷◌, arith, eq_iff, All, subst,
  contains, contains-cons_self, Subset, Subset-cons, length-map, Bool-cases, sym, ap, ◌&&◌,
  Distinct, missing, missing-le-length, filter, ◌==◌,
}
use tools_installer.Model.{Tool, ids}
use tools_installer.Deps.{by_id, Collect, collect_all, limit, ok}
use tools_installer.Deps.Lookup.{contains-by_id}
use tools_installer.Deps.Closure.{DepsIn, collect_all-Grown}
use tools_installer.Deps.Blockable.{Registered, Registered-by_id, Registered-eq}

module _ (catalog : List Tool) where
  -- `u` is `t`, or a requirement of a requirement … of `t`.
  pub data Needs (t : Tool) : Tool → Type 0 where
    itself : Needs t t
    required :
        (u v : Tool) (d : String)
        → Needs t u
        → contains d u.requires ≡ true
        → by_id catalog d ≡ some v
        → Needs t v

module _ (selected catalog : List Tool) where
  -- A catalogued tool that some selected one needs.
  pub record IsNeeded (t : Tool) : Type 0 where
    pub registered : Registered catalog t
    pub root : Tool
    pub root_selected : contains root.id (ids selected) ≡ true
    pub needed : Needs catalog root t

  IsNeeded-dep :
      (t : Tool) (d : String) (u : Tool)
      → IsNeeded t
      → contains d t.requires ≡ true
      → by_id catalog d ≡ some u
      → IsNeeded u
  IsNeeded-dep t d u n c e = record {
    registered = Registered-by_id catalog d u e;
    root = n.root;
    root_selected = n.root_selected;
    needed = required t u d n.needed c e;
  }

  selected-IsNeeded :
      (ts : List Tool)
      → Subset (ids ts) (ids selected)
      → All (Registered catalog) ts
      → All IsNeeded ts
  unfolding contains
  selected-IsNeeded [] sub h = tt
  selected-IsNeeded (t ∷ ts) sub h = (
    record {
      registered = h.0;
      root = t;
      root_selected = sub t.id (contains-cons_self t.id (ids ts));
      needed = itself;
    },
    selected-IsNeeded ts (λ x m. sub x (Subset-cons t.id (ids ts) x m)) h.1,
  )

  pub missing-lt-limit : missing (ids catalog) [] < limit selected catalog
  missing-lt-limit =
      omega (arith, missing-le-length (ids catalog) [], length-map catalog (λ (t : Tool). t.id))

  -- The first phase: `wanted` is closed under `requires`, and holds nothing that is not needed.
  pub record Wanted (c : Collect) : Type 0 where
    pub distinct : Distinct (ids c.wanted)
    pub closed : All (DepsIn catalog (ids c.wanted)) c.wanted
    pub needed : All IsNeeded c.wanted
    pub covers : Subset (ids selected) (ids c.wanted)

  abbrev pub start : Collect
  start = record { seen = []; wanted = []; requested_by = [] }

  pub collect_all-Wanted :
      All (Registered catalog) selected
      → (c : Collect) × (collect_all catalog (ids selected) (limit selected catalog) selected start
          ≡ ok c)
        × Wanted c
  collect_all-Wanted h =
      let (c, e, g, covers) =
        collect_all-Grown catalog (ids selected) (ids catalog) IsNeeded IsNeeded-dep
          (λ t n. contains-by_id catalog t.id t n.registered) (limit selected catalog) selected
          start (selected-IsNeeded selected (λ x m. m) h) missing-lt-limit in
      let same : c.seen ≡ ids c.wanted = g.seen_eq ∙ ap ids (sym g.wanted_eq) in
      (
        c,
        e,
        record {
          distinct = rw (← same) (g.distinct tt);
          closed = rw (g.wanted_eq) (rw g.seen_eq at g.closed);
          needed = rw g.wanted_eq g.all_q;
          covers = rw (← same) covers;
        },
      )

pub All-members :
    (P : Tool → Type 0) (test : String → Bool) (ts : List Tool)
    → All P ts
    → All P (filter (λ t. test t.id) ts)
All-members P test [] h = tt
All-members P test (t ∷ ts) h = elim (Bool-cases (test t.id)) [
  | inl keep ↦ rw keep (h.0, All-members P test ts h.1)
  | inr drop ↦ rw drop (All-members P test ts h.1)
]

pub contains-members :
    (test : String → Bool) (ts : List Tool) (x : String)
    → contains x (ids (filter (λ t. test t.id) ts)) ≡ (contains x (ids ts) && test x)
unfolding contains
contains-members test [] x = refl
contains-members test (t ∷ ts) x = elim (Bool-cases (test t.id)) [
  | inl keep ↦ rw keep (ground (arith, eq_iff t.id x, contains-members test ts x))
  | inr drop ↦ rw drop (ground (arith, eq_iff t.id x, contains-members test ts x))
]

-- Every tool of a list satisfies `P` if it satisfies `Q` and has its id in the list.
pub All-ids :
    (P Q : Tool → Type 0)
    → (ts : List Tool) → ((t : Tool) → contains t.id (ids ts) ≡ true → Q t → P t)
    → All Q ts
    → All P ts
unfolding contains
All-ids P Q [] f h = tt
All-ids P Q (t ∷ ts) f h = (
  f t (contains-cons_self t.id (ids ts)) h.0,
  All-ids P Q ts (λ u m q. f u (Subset-cons t.id (ids ts) u.id m) q) h.1,
)

-- The member with a given id.
pub listed_member :
    (catalog ts : List Tool) (d : String)
    → All (Registered catalog) ts
    → contains d (ids ts) ≡ true
    → (u : Tool) × (by_id catalog d ≡ some u)
unfolding contains
listed_member catalog [] d h m = cc
listed_member catalog (t ∷ ts) d h m = elim (Bool-cases (t.id == d)) [
  | inl same ↦ (t, rw (← (eq_iff t.id d).0 same) h.0)
  | inr other ↦ listed_member catalog ts d h.1 (ground arith)
]

-- What holds of every tool of a list holds of a registered tool with an id in the list.
pub All-at :
    (catalog : List Tool) (P : Tool → Type 0) (ts : List Tool) (t : Tool)
    → All (Registered catalog) ts
    → All P ts
    → Registered catalog t
    → contains t.id (ids ts) ≡ true
    → P t
unfolding contains
All-at catalog P [] t r h reg m = cc
All-at catalog P (u ∷ us) t r h reg m = elim (Bool-cases (u.id == t.id)) [
  | inl same ↦ subst P (Registered-eq catalog u t r.0 reg ((eq_iff u.id t.id).0 same)) h.0
  | inr other ↦ All-at catalog P us t r.1 h.1 reg (ground arith)
]

pub Distinct-members :
    (test : String → Bool) (ts : List Tool)
    → Distinct (ids ts)
    → Distinct (ids (filter (λ t. test t.id) ts))
Distinct-members test [] d = tt
Distinct-members test (t ∷ ts) d = elim (Bool-cases (test t.id)) [
  | inl keep ↦ rw keep (ground (arith, contains-members test ts t.id), Distinct-members test ts d.1)
  | inr drop ↦ rw drop (Distinct-members test ts d.1)
]
