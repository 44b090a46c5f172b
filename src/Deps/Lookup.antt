-- ===== src/Deps/Lookup.antt =====
-- The catalog as a dictionary from id to tool.
use tools_installer.Base.{String, ◌≡◌, true, some, List, [], ◌∷◌, arith, eq_iff, contains}
use tools_installer.Model.{Tool, ids}
use tools_installer.Deps.{by_id}

pub by_id-id : (ts : List Tool) (key : String) (t : Tool) → by_id ts key ≡ some t → t.id ≡ key
unfolding by_id
by_id-id [] key t h = cc
by_id-id (u ∷ us) key t h = ground (arith, by_id-id us key t, eq_iff u.id key)

pub contains-by_id :
    (ts : List Tool) (key : String) (t : Tool)
    → by_id ts key ≡ some t
    → contains key (ids ts) ≡ true
unfolding by_id contains
contains-by_id [] key t h = cc
contains-by_id (u ∷ us) key t h = ground (arith, contains-by_id us key t, eq_iff u.id key)
