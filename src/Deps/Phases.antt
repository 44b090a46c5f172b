-- ===== src/Deps/Phases.antt =====
-- The three phases of `resolve_dependencies` of installer/deps.py, together.
use tools_installer.Base.{
  String, ◌≡◌, refl, ◌∙◌, Bool, not, ◌⊎◌, inl, inr, List, [], All, All-map, contains, Subset, sym,
  ap, filter,
}
use tools_installer.Model.{Tool, ids}
use tools_installer.Deps.{
  Collect, Blocking, Topo, Resolution, block_rows, topo, limit, resolve_dependencies, Result, ok,
  err, cycle,
}
use tools_installer.Deps.Lookup.{contains-by_id}
use tools_installer.Deps.Blockable.{Registered}
use tools_installer.Deps.Rows.{Lists, block_rows-Lists}
use tools_installer.Deps.Order.{IsMember, IsCycle, Good}
use tools_installer.Deps.Place.{members-Ends}
use tools_installer.Deps.Resolved.{
  Wanted, collect_all-Wanted, missing-lt-limit, All-members, All-ids, listed_member,
}

abbrev pub unblocked : Blocking → List Tool → List Tool
unblocked b = filter (λ t. not (contains t.id b.blocked))

abbrev pub nothing_blocked : Blocking
nothing_blocked = record { blocked = []; blocked_needs = []; visiting = [] }

abbrev pub nothing_placed : Topo
nothing_placed = record { ordered = []; placed = []; visiting = [] }

module _ (selected catalog : List Tool) (available is_installed : Tool → Bool) where
  -- What the three phases come to.
  pub record Phases (r : Result Resolution) : Type 0 where
    pub collected : Collect
    pub wanted : Wanted selected catalog collected
    pub blocks : Lists catalog available is_installed collected.wanted [] nothing_blocked (
        block_rows catalog available is_installed
          (limit selected catalog)
          collected.wanted
          ([], nothing_blocked))
    pub outcome :
        ((s : Topo) × (r
            ≡ ok (record {
              closure = s.ordered;
              blocked = blocks.new;
              requested_by = collected.requested_by;
            }))
          × Good catalog (ids (unblocked blocks.after collected.wanted)) s
          × Subset (ids (unblocked blocks.after collected.wanted)) s.placed)
        ⊎ ((c : String) × (r ≡ err (cycle c))
            × IsCycle catalog (ids (unblocked blocks.after collected.wanted)) c)

  pub phases :
      All (Registered catalog) selected
      → Phases (resolve_dependencies selected catalog available is_installed)
  unfolding resolve_dependencies topo contains
  phases h =
      let (c, e, w) = collect_all-Wanted selected catalog h in
      let reg = All-map (λ t n. n.registered) c.wanted w.needed in
      let l =
        block_rows-Lists catalog available is_installed (limit selected catalog) c.wanted []
          nothing_blocked (λ u r. contains-by_id catalog u.id u r)
          (missing-lt-limit selected catalog) reg refl (λ u r m. cc) in
      let test = λ (x : String). not (contains x l.after.blocked) in
      let ms = unblocked l.after c.wanted in
      let reg' = All-members (Registered catalog) test c.wanted reg in
      record {
        collected = c;
        wanted = w;
        blocks = l;
        outcome =
            elim (members-Ends catalog (ids ms) (λ d m. listed_member catalog ms d reg' m)
              (limit selected catalog) ms nothing_placed
              (All-ids (IsMember catalog (ids ms)) (Registered catalog) ms (λ t m r. (r, m)) reg')
              refl (missing-lt-limit selected catalog)) [
                | inl (s, r, p, has) ↦ inl (
                  s,
                  rw e (rw l.returns (rw r refl)),
                  p.good
                      (record { placed_eq = refl; distinct = tt; ordered_lem = tt; members = tt }),
                  has,
                )
                | inr (c', r, cyc) ↦ inr (c', rw e (rw l.returns (rw r refl)), cyc)
              ];
      }

  abbrev result_or : Resolution → Result Resolution → Resolution
  result_or res (ok x) = x
  result_or res (err e) = res

  -- The same for a run that returns.
  pub record Returned (res : Resolution) : Type 0 where
    pub collected : Collect
    pub wanted : Wanted selected catalog collected
    pub blocks : Lists catalog available is_installed collected.wanted [] nothing_blocked (
        block_rows catalog available is_installed
          (limit selected catalog)
          collected.wanted
          ([], nothing_blocked))
    pub state : Topo
    pub closure_eq : state.ordered ≡ res.closure
    pub blocked_eq : blocks.new ≡ res.blocked
    pub requested_eq : collected.requested_by ≡ res.requested_by
    pub good : Good catalog (ids (unblocked blocks.after collected.wanted)) state
    pub all_placed : Subset (ids (unblocked blocks.after collected.wanted)) state.placed

  pub returned :
      (res : Resolution)
      → All (Registered catalog) selected
      → resolve_dependencies selected catalog available is_installed ≡ ok res
      → Returned res
  returned res h e =
      let p = phases h in
      elim p.outcome [
        | inr (c, r, cyc) ↦ cc
        | inl (s, r, g, has) ↦
            let same : ◌≡◌ {A = Result Resolution}
                (ok (record {
                  closure = s.ordered;
                  blocked = p.blocks.new;
                  requested_by = p.collected.requested_by;
                }))
                (ok res) =
              sym r ∙ e in
            record {
              collected = p.collected;
              wanted = p.wanted;
              blocks = p.blocks;
              state = s;
              closure_eq = ap (λ x. (result_or res x).closure) same;
              blocked_eq = ap (λ x. (result_or res x).blocked) same;
              requested_eq = ap (λ x. (result_or res x).requested_by) same;
              good = g;
              all_placed = has;
            }
      ]
