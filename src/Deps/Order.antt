-- ===== src/Deps/Order.antt =====
-- The deps-first order: what one call of `_place` of installer/deps.py does.
use tools_installer.Base.{
  String, ◌≡◌, refl, ◌∙◌, true, false, ◌||◌, some, List, [], ◌∷◌, ◌++◌, arith, ◌==◌, eq_iff,
  eq_refl, All, All-append, contains, contains-append, Subset, Distinct, Distinct-snoc,
  discard-cons_self, contains-cons_self, map-append, append-nil, append_assoc,
}
use tools_installer.Model.{Tool, ids}
use tools_installer.Deps.{by_id, Topo, finish}
use tools_installer.Deps.Blockable.{Registered}

module _ (catalog : List Tool) (member_ids : List String) where
  -- Every requirement that is a member is in `before`.
  abbrev pub Follows : List String → Tool → Type 0
  Follows before t =
      (d : String)
      → contains d t.requires ≡ true
      → contains d member_ids ≡ true
      → contains d before ≡ true

  -- Each tool stands behind its requirements.
  abbrev pub IsOrdered : List String → List Tool → Type 0
  IsOrdered before [] = Unit
  IsOrdered before (t ∷ ts) = Follows before t × IsOrdered (before ++ t.id ∷ []) ts

  abbrev pub IsMember : Tool → Type 0
  IsMember t = Registered catalog t × (contains t.id member_ids ≡ true)

  -- A path of one requirement or more, among the members.
  pub data Links : Tool → Tool → Type 0 where
    one :
        (t u : Tool) (d : String)
        → contains d t.requires ≡ true
        → contains d member_ids ≡ true
        → by_id catalog d ≡ some u
        → Links t u
    more : (t u v : Tool) → Links t u → Links u v → Links t v

  abbrev pub IsCycle : String → Type 0
  IsCycle c = (t : Tool) × (t.id ≡ c) × IsMember t × Links t t

  pub record Good (s : Topo) : Type 0 where
    pub placed_eq : s.placed ≡ ids s.ordered
    pub distinct : Distinct s.placed
    pub ordered_lem : IsOrdered [] s.ordered
    pub members : All IsMember s.ordered

  pub record Placed (s s' : Topo) : Type 0 where
    pub visiting_eq : s'.visiting ≡ s.visiting
    pub grows : Subset s.placed s'.placed
    pub apart :
        (x : String)
        → contains x s.visiting ≡ true
        → contains x s.placed ≡ false
        → contains x s'.placed ≡ false
    pub good : Good s → Good s'

  pub Placed-refl : (s : Topo) → Placed s s
  Placed-refl s = record { visiting_eq = refl; grows = λ x h. h; apart = λ x h k. k; good = λ g. g }

  pub Placed-trans : {s t u : Topo} → Placed s t → Placed t u → Placed s u
  Placed-trans p q = record {
    visiting_eq = q.visiting_eq ∙ p.visiting_eq;
    grows = λ x h. q.grows x (p.grows x h);
    apart = λ x h k. q.apart x (rw p.visiting_eq h) (p.apart x h k);
    good = λ g. q.good (p.good g);
  }

  IsOrdered-snoc :
      (before : List String) (ts : List Tool) (t : Tool)
      → IsOrdered before ts
      → Follows (before ++ ids ts) t
      → IsOrdered before (ts ++ t ∷ [])
  IsOrdered-snoc before [] t h f = (rw append-nil at f, tt)
  IsOrdered-snoc before (u ∷ us) t h f =
      (h.0, IsOrdered-snoc (before ++ u.id ∷ []) us t h.1 (rw append_assoc f))

  finish-Good :
      (t : Tool) (s : Topo)
      → IsMember t
      → contains t.id s.placed ≡ false
      → Follows s.placed t
      → Good s
      → Good (finish t s)
  unfolding finish
  finish-Good t s m fresh f g = record {
    placed_eq = rw (g.placed_eq, map-append) refl;
    distinct = Distinct-snoc s.placed t.id g.distinct fresh;
    ordered_lem = IsOrdered-snoc [] s.ordered t g.ordered_lem (rw g.placed_eq at f);
    members = All-append IsMember s.ordered (t ∷ []) g.members (m, tt);
  }

  Good-visiting : (s : Topo) (v : List String) → Good s → Good (record s { visiting = v })
  Good-visiting s v g = record {
    placed_eq = g.placed_eq;
    distinct = g.distinct;
    ordered_lem = g.ordered_lem;
    members = g.members;
  }

  placed-finish :
      (t : Tool) (s : Topo) (x : String)
      → contains x (finish t s).placed ≡ (contains x s.placed || t.id == x)
  unfolding finish contains
  placed-finish t s x = ground (arith, contains-append x s.placed (t.id ∷ []))

  -- From the state with `t` in `visiting` to the end of `_place`.
  pub finish-Placed :
      (t : Tool) (s s1 : Topo)
      → IsMember t
      → contains t.id s.placed ≡ false
      → contains t.id s.visiting ≡ false
      → Placed (record s { visiting = t.id ∷ s.visiting }) s1
      → Follows s1.placed t
      → Placed s (finish t s1) × (contains t.id (finish t s1).placed ≡ true)
  finish-Placed t s s1 m fresh first p f = (
    record {
      visiting_eq = unfold finish in rw p.visiting_eq (discard-cons_self t.id s.visiting first);
      grows = λ x h. ground (arith, placed-finish t s1 x, p.grows x h);
      apart = λ x h k. ground (
        arith,
        placed-finish t s1 x,
        p.apart x (unfold contains in ground (arith, eq_iff t.id x)) k,
        eq_iff t.id x,
      );
      good = λ g.
          finish-Good t s1 m (p.apart t.id (contains-cons_self t.id s.visiting) fresh) f
            (p.good (Good-visiting s (t.id ∷ s.visiting) g));
    },
    ground (arith, placed-finish t s1 t.id, eq_refl t.id),
  )
