-- ===== src/Deps/Closed.antt =====
-- The result of `resolve_dependencies` of installer/deps.py.
use tools_installer.Base.{
  String, ◌≡◌, ◌∙◌, Bool, true, not, ◌&&◌, ◌⊎◌, inl, inr, some, List, [], ◌∷◌, ◌++◌, map, arith,
  eq_iff, All, All-map, contains, Subset, Bool-eq, Distinct, subst, Bool-cases, ◌↔◌,
}
use tools_installer.Model.{Tool, ids}
use tools_installer.Deps.{by_id, Blocked, Resolution, resolve_dependencies, ok}
use tools_installer.Deps.Lookup.{by_id-id}
use tools_installer.Deps.Blockable.{Registered, Registered-by_id, Blockable, by_dependency}
use tools_installer.Deps.Closure.{DepsIn}
use tools_installer.Deps.Rows.{IsRow}
use tools_installer.Deps.Order.{IsOrdered}
use tools_installer.Deps.Resolved.{IsNeeded, All-at, Distinct-members, contains-members}
use tools_installer.Deps.Phases.{unblocked, Returned, returned}
use tools_installer.Deps.Members.{member-IsNeeded}

IsOrdered-mono :
    (catalog : List Tool) (xs ys before : List String) (ts : List Tool)
    → Subset ys xs
    → IsOrdered catalog xs before ts
    → IsOrdered catalog ys before ts
IsOrdered-mono catalog xs ys before [] sub h = tt
IsOrdered-mono catalog xs ys before (t ∷ ts) sub h =
    (λ d a b. h.0 d a (sub d b), IsOrdered-mono catalog xs ys (before ++ t.id ∷ []) ts sub h.1)

ids-Subset :
    (ts : List Tool) (xs : List String) → All (λ t. contains t.id xs ≡ true) ts → Subset (ids ts) xs
unfolding contains
ids-Subset [] xs h x m = cc
ids-Subset (t ∷ ts) xs h x m = ground (arith, h.0, ids-Subset ts xs h.1 x, eq_iff t.id x)

module _ (selected catalog : List Tool) (available is_installed : Tool → Bool)
    (registered : All (Registered catalog) selected) (res : Resolution)
    (runs : resolve_dependencies selected catalog available is_installed ≡ ok res) where
  abbrev parts : Returned selected catalog available is_installed res
  parts = returned selected catalog available is_installed res registered runs

  abbrev member_ids : List String
  member_ids = ids (unblocked parts.blocks.after parts.collected.wanted)

  ordered-Subset : Subset (ids parts.state.ordered) member_ids
  ordered-Subset =
      ids-Subset parts.state.ordered member_ids
        (All-map (λ t m. m.1) parts.state.ordered parts.good.members)

  -- The closure holds the wanted tools that are not in the blocked set.
  contains-closure :
      (x : String)
      → contains x (ids res.closure)
        ≡ (contains x (ids parts.collected.wanted) && not (contains x parts.blocks.after.blocked))
  contains-closure x = rw (← parts.closure_eq) (
      Bool-eq _ _ (ordered-Subset x) (λ m. rw (← parts.good.placed_eq) (parts.all_placed x m))
      ∙ contains-members (λ y. not (contains y parts.blocks.after.blocked)) parts.collected.wanted
          x)

  -- Where the resolution of a selection of catalogued tools returns, its closure holds no tool
  -- twice, and every tool stands behind those of its requirements that the closure holds.
  pub closure-IsOrdered :
      Distinct (ids res.closure) × IsOrdered catalog (ids res.closure) [] res.closure
  closure-IsOrdered =
      subst (λ ts. Distinct (ids ts) × IsOrdered catalog (ids ts) [] ts) parts.closure_eq
        (
          rw parts.good.placed_eq at parts.good.distinct,
          IsOrdered-mono catalog member_ids (ids parts.state.ordered) [] parts.state.ordered
              ordered-Subset parts.good.ordered_lem,
        )

  -- Where the resolution of a selection of catalogued tools returns, its closure holds nothing but
  -- catalogued tools that a selected tool needs.
  pub closure-IsNeeded : All (IsNeeded selected catalog) res.closure
  closure-IsNeeded = subst (All (IsNeeded selected catalog)) parts.closure_eq (
      All-map
        (λ t m.
          member-IsNeeded selected catalog parts.collected parts.blocks.after t parts.wanted m)
        parts.state.ordered parts.good.members)

  abbrev rows : List String
  rows = map (λ (b : Blocked). b.tool_id) res.blocked

  -- The rows name the wanted tools that are in the blocked set.
  contains-rows :
      (x : String)
      → contains x rows
        ≡ (contains x (ids parts.collected.wanted) && contains x parts.blocks.after.blocked)
  contains-rows x = rw (← parts.blocked_eq) (
      rw parts.blocks.named
        (contains-members (λ y. contains y parts.blocks.after.blocked) parts.collected.wanted x))

  -- Where the resolution of a selection of catalogued tools returns, there is one row for a
  -- blocked tool, it names a tool that cannot be provided, and `needs` is right: nothing if the
  -- tool is itself unavailable, else a catalogued requirement of it that cannot be provided.
  pub blocked-IsRow : Distinct rows × All (IsRow catalog available is_installed) res.blocked
  blocked-IsRow = (
    rw (← parts.blocked_eq) (
        rw parts.blocks.named (
          Distinct-members (λ y. contains y parts.blocks.after.blocked) parts.collected.wanted
            parts.wanted.distinct)),
    subst (All (IsRow catalog available is_installed)) parts.blocked_eq parts.blocks.rows_lem,
  )

  wanted-Registered : All (Registered catalog) parts.collected.wanted
  wanted-Registered = All-map (λ u n. n.registered) parts.collected.wanted parts.wanted.needed

  -- In the blocked set are the wanted tools that cannot be provided.
  blocked_iff :
      (t : Tool)
      → Registered catalog t
      → contains t.id (ids parts.collected.wanted) ≡ true
      → (contains t.id parts.blocks.after.blocked ≡ true)
        ↔ Blockable catalog available is_installed t
  blocked_iff t reg m = (
    λ h. (parts.blocks.sound t reg h).0,
    All-at catalog
        (λ u.
          Blockable catalog available is_installed u
          → contains u.id parts.blocks.after.blocked ≡ true)
        parts.collected.wanted t wanted-Registered parts.blocks.complete reg m,
  )

  -- Where the resolution of a selection of catalogued tools returns, a selected catalogued tool
  -- has a row exactly if it cannot be provided: it is not installed, and it is unavailable or one
  -- of its catalogued requirements cannot be provided. It is in the closure exactly if it has no
  -- row.
  pub selected-resolved :
      (t : Tool)
      → Registered catalog t
      → contains t.id (ids selected) ≡ true
      → (contains t.id (ids res.closure) ≡ not (contains t.id rows))
        × ((contains t.id rows ≡ true) ↔ Blockable catalog available is_installed t)
  selected-resolved t reg m =
      let w = parts.wanted.covers t.id m in
      (
        ground (arith, contains-closure t.id, contains-rows t.id),
        (
          λ h. (blocked_iff t reg w).0 (ground (arith, contains-rows t.id)),
          λ b. ground (arith, contains-rows t.id, (blocked_iff t reg w).1 b),
        ),
      )

  -- Where the resolution of a selection of catalogued tools returns, a catalogued requirement of a
  -- catalogued tool of the closure is in the closure too, unless it cannot be provided and the
  -- tool is installed already.
  pub closure-closed :
      (t : Tool) (d : String) (u : Tool)
      → Registered catalog t
      → contains t.id (ids res.closure) ≡ true
      → contains d t.requires ≡ true
      → by_id catalog d ≡ some u
      → (contains d (ids res.closure) ≡ true)
        ⊎ (Blockable catalog available is_installed u × (is_installed t ≡ true))
  closure-closed t d u reg m c e =
      let w : contains t.id (ids parts.collected.wanted) ≡ true =
        ground (arith, contains-closure t.id) in
      let wd : contains d (ids parts.collected.wanted) ≡ true =
        All-at catalog (DepsIn catalog (ids parts.collected.wanted)) parts.collected.wanted t
          wanted-Registered parts.wanted.closed reg w d u c e in
      elim (Bool-cases (contains d parts.blocks.after.blocked)) [
        | inr free ↦ inl (ground (arith, contains-closure d))
        | inl bad ↦
            let b =
              (parts.blocks.sound u (Registered-by_id catalog d u e)
                (rw (by_id-id catalog d u e) bad)).0 in
            elim (Bool-cases (is_installed t)) [
              | inl here ↦ inr (b, here)
              | inr absent ↦ absurd (
                  ground (
                    arith,
                    contains-closure t.id,
                    (blocked_iff t reg w).1 (by_dependency t d u absent c e b),
                  ))
            ]
      ]
