-- ===== src/Deps/Preview.antt =====
-- `missing_requires` of installer/deps.py: what a tool would drag in, by breadth-first search.
-- Each round takes one id off the queue. `None` stands for the end of the fuel.
pub mod Exact
use tools_installer.Base.{
  ℕ, zero, suc, ◌+◌, ◌≤◌, ◌<◌, String, ◌≡◌, refl, Bool, true, false, not, ◌&&◌, ◌||◌, ◌⊎◌, inl, inr,
  ◌↔◌, Option, none, some, List, [], ◌∷◌, ◌++◌, arith, ◌==◌, eq_iff, eq_refl, if◌then◌else◌,
  Bool-cases, Option-cases, contains, contains-append, length, length-append, get, is_some,
  Distinct, Distinct-snoc,
}
use tools_installer.Model.{Tool, ids}
use tools_installer.Deps.{by_id}
use tools_installer.Deps.Lookup.{by_id-id}

pub record Preview : Type 0 where
  pub seen : List String
  pub missing : List String

-- Every id on any `requires` of the catalog enters the queue once at most.
pub total : List Tool → ℕ
total [] = 0
total (t ∷ ts) = length t.requires + total ts

module _ (catalog : List Tool) (staged : List String) (installed : List (String × Bool)) where
  -- `dep_id not in staged and not installed.get(dep_id, False)`
  pub is_missing : String → Bool
  is_missing dep_id =
      not (contains dep_id staged)
      && not (elim (get dep_id installed) [ none ↦ false | some present ↦ present ])

  -- One round for a new id: the state, and what joins the queue.
  pub visit : String → Preview → Preview × List String
  unfolding is_missing
  visit dep_id s =
      let seen = s.seen ++ dep_id ∷ [] in
      elim (by_id catalog dep_id) [
        | none ↦ (record s { seen = seen }, [])
        | some dep ↦ (
          record {
            seen = seen;
            missing = if is_missing dep_id then s.missing ++ dep_id ∷ [] else s.missing;
          },
          dep.requires,
        )
      ]

  pub search : ℕ → List String → Preview → Option Preview
  unfolding visit
  search zero queue s = none
  search (suc fuel) [] s = some s
  search (suc fuel) (dep_id ∷ queue) s =
      let old = search fuel queue s in
      let next = visit dep_id s in
      let new = search fuel (queue ++ next.1) next.0 in if contains dep_id s.seen then old else new

  pub missing_requires : Tool → Option (List String)
  unfolding search
  missing_requires tool =
      elim (search (suc (length tool.requires + total catalog)) tool.requires
        (record { seen = tool.id ∷ []; missing = [] })) [ none ↦ none | some s ↦ some s.missing ]
