-- ===== src/Deps/Ends.antt =====
-- How a run ends: a result or a cycle. For `resolve_dependencies` of installer/deps.py.
use tools_installer.Base.{
  ◌<◌, ℕ, String, ◌≡◌, Bool, true, ◌⊎◌, inl, inr, some, List, arith, All, contains, Subset,
}
use tools_installer.Model.{Tool, ids}
use tools_installer.Deps.{by_id, Resolution, resolve_dependencies, ok, err, cycle}
use tools_installer.Deps.Blockable.{Registered, Registered-by_id}
use tools_installer.Deps.Order.{Links, one, more}
use tools_installer.Deps.Resolved.{IsNeeded}
use tools_installer.Deps.Phases.{phases}
use tools_installer.Deps.Members.{member-IsNeeded, members-Subset}

-- `rank` is lower for a catalogued requirement than for the catalogued tool that requires it.
abbrev pub Falls : List Tool → (String → ℕ) → Type 0
Falls catalog rank =
    (a : Tool) (d : String) (b : Tool)
    → Registered catalog a
    → contains d a.requires ≡ true
    → by_id catalog d ≡ some b
    → rank b.id < rank a.id

Links-mono :
    (catalog : List Tool) (xs ys : List String) {t u : Tool}
    → Subset xs ys
    → Links catalog xs t u
    → Links catalog ys t u
Links-mono catalog xs ys sub (one t u d a b e) = one t u d a (sub d b) e
Links-mono catalog xs ys sub (more t u v a b) =
    more t u v (Links-mono catalog xs ys sub a) (Links-mono catalog xs ys sub b)

Links-Registered :
    (catalog : List Tool) (xs : List String) {t u : Tool}
    → Links catalog xs t u
    → Registered catalog u
Links-Registered catalog xs (one t u d a b e) = Registered-by_id catalog d u e
Links-Registered catalog xs (more t u v a b) = Links-Registered catalog xs b

-- A measure that falls along every requirement falls along every path.
Links-rank :
    (catalog : List Tool) (xs : List String) (rank : String → ℕ) {t u : Tool}
    → Falls catalog rank
    → Registered catalog t
    → Links catalog xs t u
    → rank u.id < rank t.id
Links-rank catalog xs rank falls reg (one t u d a b e) = falls t d u reg a e
Links-rank catalog xs rank falls reg (more t u v a b) = omega (
  arith,
  Links-rank catalog xs rank falls reg a,
  Links-rank catalog xs rank falls (Links-Registered catalog xs a) b,
)

module _ (selected catalog : List Tool) (available is_installed : Tool → Bool)
    (registered : All (Registered catalog) selected) where
  -- For a selection of catalogued tools the resolution returns, or it raises
  -- DependencyCycleError with the id of a needed tool that requires itself by a path of catalogued
  -- requirements: there is no KeyError and no endless recursion.
  pub resolve-ends :
      ((res : Resolution) × (resolve_dependencies selected catalog available is_installed ≡ ok res))
      ⊎ ((t : Tool) × (resolve_dependencies selected catalog available is_installed
            ≡ err (cycle t.id))
          × IsNeeded selected catalog t
          × Links catalog (ids catalog) t t)
  resolve-ends =
      let p = phases selected catalog available is_installed registered in
      elim p.outcome [
        | inl (s, r, g, has) ↦ inl (_, r)
        | inr (c, r, (t, e, m, loop)) ↦ inr (
          t,
          rw e r,
          member-IsNeeded selected catalog p.collected p.blocks.after t p.wanted m,
          Links-mono catalog _ _
              (members-Subset selected catalog p.collected p.blocks.after p.wanted) loop,
        )
      ]

  -- For a selection of catalogued tools, if some rank falls along every catalogued requirement,
  -- there is no cycle to find, and the resolution returns.
  pub resolve-acyclic :
      (rank : String → ℕ)
      → Falls catalog rank
      → (res : Resolution) × (resolve_dependencies selected catalog available is_installed ≡ ok res)
  resolve-acyclic rank falls = elim resolve-ends [
    | inl found ↦ found
    | inr (t, r, n, loop) ↦
        absurd (omega (arith, Links-rank catalog (ids catalog) rank falls n.registered loop))
  ]
