-- ===== src/Deps/Rows.antt =====
-- The loop over `wanted` of installer/deps.py: one row for each tool that cannot be provided.
use tools_installer.Base.{
  ℕ, ◌<◌, String, ◌≡◌, refl, ◌∙◌, ap, Bool, true, false, Option, none, some, List, [], ◌∷◌, ◌++◌,
  map, inl, inr, arith, All, Bool-cases, contains, Subset, missing, filter, append_assoc,
  append-nil, get, if◌then◌else◌,
}
use tools_installer.Model.{Tool, ids}
use tools_installer.Deps.{by_id, Blocking, Blocked, is_blocked, block_rows, blocked_row, Result, ok}
use tools_installer.Deps.Blockable.{Registered, Registered-by_id, Blockable, Blockable-Chain}
use tools_installer.Deps.Lookup.{by_id-id}
use tools_installer.Deps.Judges.{Justified, Judges}
use tools_installer.Deps.Blocks.{is_blocked-Judges}

module _ (catalog : List Tool) (available is_installed : Tool → Bool) where
  -- What a row says of its tool: nothing for a tool that is itself unavailable, else a
  -- catalogued requirement that cannot be provided.
  abbrev pub Explains : Tool → Option String → Type 0
  Explains t none = available t ≡ false
  Explains t (some d) =
      (available t ≡ true)
      × (contains d t.requires ≡ true)
      × ((u : Tool) × (by_id catalog d ≡ some u) × Blockable catalog available is_installed u)

  pub record IsRow (row : Blocked) : Type 0 where
    pub tool : Tool
    pub names_tool : row.tool_id ≡ tool.id
    pub blockable : Blockable catalog available is_installed tool
    pub explained : Explains tool row.needs

  -- The tools of `wanted` whose id is in the blocked set.
  abbrev pub blocked_of : Blocking → List Tool → List Tool
  blocked_of s = filter (λ t. contains t.id s.blocked)

  pub record Lists (wanted : List Tool) (rows : List Blocked) (s : Blocking)
      (r : Result (List Blocked × Blocking)) : Type 0 where
    pub new : List Blocked
    pub after : Blocking
    pub returns : r ≡ ok (rows ++ new, after)
    pub visiting_eq : after.visiting ≡ s.visiting
    pub grows : Subset s.blocked after.blocked
    pub sound : Justified catalog available is_installed after
    pub complete :
        All
          (λ t. Blockable catalog available is_installed t → contains t.id after.blocked ≡ true)
          wanted
    pub named : map (λ row. row.tool_id) new ≡ ids (blocked_of after wanted)
    pub rows_lem : All IsRow new

  needs-blocked_row :
      (t : Tool) (s : Blocking) (needs : Option String)
      → get t.id s.blocked_needs ≡ some needs
      → (blocked_row t s).needs ≡ needs
  unfolding blocked_row
  needs-blocked_row t s needs e = ground arith

  IsRow-IsRow :
      (t : Tool) (s : Blocking)
      → Registered catalog t
      → Justified catalog available is_installed s
      → contains t.id s.blocked ≡ true
      → IsRow (blocked_row t s)
  IsRow-IsRow t s reg j h =
      let (b, reason) = j t reg h in
      elim reason [
        | inl (e, no_way) ↦ record {
          tool = t;
          names_tool = unfold blocked_row in refl;
          blockable = b;
          explained = rw (needs-blocked_row t s none e) no_way;
        }
        | inr (d, e, way, listed, u, k, m) ↦ record {
          tool = t;
          names_tool = unfold blocked_row in refl;
          blockable = b;
          explained = rw (needs-blocked_row t s (some d) e) (
            way,
            listed,
            (u, k, (j u (Registered-by_id catalog d u k) (rw (by_id-id catalog d u k) m)).0),
          );
        }
      ]

  -- One round of the loop, by the answer of `is_blocked`.
  module _ (fuel : ℕ) (t : Tool) (ts : List Tool) (rows : List Blocked) (s : Blocking)
      (reg : Registered catalog t) (start : s.visiting ≡ [])
      (sound : Justified catalog available is_installed s)
      (j : Judges catalog available is_installed t s
        (is_blocked catalog available is_installed fuel t s)) where
    abbrev loop : List Tool → List Blocked → Blocking → Result (List Blocked × Blocking)
    loop us old r = block_rows catalog available is_installed fuel us (old, r)

    block_rows_round :
        loop (t ∷ ts) rows s
        ≡ loop ts (if j.answer then rows ++ blocked_row t j.after ∷ [] else rows) j.after
    unfolding block_rows
    block_rows_round = rw (j.returns, block_rows) refl

    answer_complete : Blockable catalog available is_installed t → j.answer ≡ true
    answer_complete b =
        let (n, c) = Blockable-Chain catalog available is_installed b in j.complete n (rw start c)

    round_blocked :
        j.answer ≡ true
        → Lists ts
            (rows ++ blocked_row t j.after ∷ [])
            j.after
            (loop ts (rows ++ blocked_row t j.after ∷ []) j.after)
        → Lists (t ∷ ts) rows s (loop (t ∷ ts) rows s)
    round_blocked a l = record {
      new = blocked_row t j.after ∷ l.new;
      after = l.after;
      returns = block_rows_round ∙ rw a (l.returns ∙ rw append_assoc refl);
      visiting_eq = l.visiting_eq ∙ j.visiting_eq;
      grows = λ x h. l.grows x (j.grows x h);
      sound = l.sound;
      complete = (λ b. l.grows t.id (j.recorded a), l.complete);
      named = rw (l.grows t.id (j.recorded a)) (unfold blocked_row in ap (λ r. t.id ∷ r) l.named);
      rows_lem = (IsRow-IsRow t j.after reg (j.sound sound) (j.recorded a), l.rows_lem);
    }

    round_free :
        j.answer ≡ false
        → Lists ts rows j.after (loop ts rows j.after)
        → Lists (t ∷ ts) rows s (loop (t ∷ ts) rows s)
    round_free a l = record {
      new = l.new;
      after = l.after;
      returns = block_rows_round ∙ rw a l.returns;
      visiting_eq = l.visiting_eq ∙ j.visiting_eq;
      grows = λ x h. l.grows x (j.grows x h);
      sound = l.sound;
      complete = (λ b. cc (answer_complete b), l.complete);
      named = elim (Bool-cases (contains t.id l.after.blocked)) [
        | inl h ↦ cc (answer_complete (l.sound t reg h).0)
        | inr h ↦ rw h l.named
      ];
      rows_lem = l.rows_lem;
    }

  -- The loop ends, lists exactly the tools that cannot be provided, and says why.
  pub block_rows-Lists :
      (fuel : ℕ) (wanted : List Tool) (rows : List Blocked) (s : Blocking)
      → ((u : Tool) → Registered catalog u → contains u.id (ids catalog) ≡ true)
      → missing (ids catalog) [] < fuel
      → All (Registered catalog) wanted
      → s.visiting ≡ []
      → Justified catalog available is_installed s
      → Lists wanted rows s (block_rows catalog available is_installed fuel wanted (rows, s))
  block_rows-Lists fuel [] rows s inside m reg start sound = record {
    new = [];
    after = s;
    returns = unfold block_rows in rw append-nil refl;
    visiting_eq = refl;
    grows = λ x h. h;
    sound = sound;
    complete = tt;
    named = refl;
    rows_lem = tt;
  }
  block_rows-Lists fuel (t ∷ ts) rows s inside m reg start sound =
      let j =
        is_blocked-Judges catalog available is_installed fuel (ids catalog) inside t s reg.0
          (rw start m) in
      let next = j.visiting_eq ∙ start in
      elim (Bool-cases j.answer) [
        | inl a ↦ round_blocked fuel t ts rows s reg.0 start sound j a (
            block_rows-Lists fuel ts (rows ++ blocked_row t j.after ∷ []) j.after inside m reg.1
              next (j.sound sound))
        | inr a ↦
            round_free fuel t ts rows s reg.0 start sound j a
              (block_rows-Lists fuel ts rows j.after inside m reg.1 next (j.sound sound))
      ]
