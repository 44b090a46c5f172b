-- ===== src/Deps/Members.antt =====
-- The members of the last phase of `resolve_dependencies` of installer/deps.py.
use tools_installer.Base.{String, not, List, arith, All-map, contains, Subset}
use tools_installer.Model.{Tool, ids}
use tools_installer.Deps.{Collect, Blocking}
use tools_installer.Deps.Lookup.{contains-by_id}
use tools_installer.Deps.Order.{IsMember}
use tools_installer.Deps.Resolved.{Wanted, IsNeeded, All-at, listed_member, contains-members}
use tools_installer.Deps.Phases.{unblocked}

-- The members of the last phase are needed, and not in the blocked set.
pub member-IsNeeded :
    (selected catalog : List Tool) (c : Collect) (b : Blocking) (t : Tool)
    → Wanted selected catalog c
    → IsMember catalog (ids (unblocked b c.wanted)) t
    → IsNeeded selected catalog t
member-IsNeeded selected catalog c b t w m =
    All-at catalog (IsNeeded selected catalog) c.wanted t
      (All-map (λ u n. n.registered) c.wanted w.needed) w.needed m.0
      (ground (arith, contains-members (λ x. not (contains x b.blocked)) c.wanted t.id))

pub members-Subset :
    (selected catalog : List Tool) (c : Collect) (b : Blocking)
    → Wanted selected catalog c
    → Subset (ids (unblocked b c.wanted)) (ids catalog)
members-Subset selected catalog c b w x m =
    let test = λ (y : String). not (contains y b.blocked) in
    let (u, e) =
      listed_member catalog c.wanted x (All-map (λ u n. n.registered) c.wanted w.needed)
        (ground (arith, contains-members test c.wanted x)) in
    contains-by_id catalog x u e
