-- ===== src/Status/Precedence.antt =====
-- Which health the facts on a tool give, and which sentences go with it.
use tools_installer.Base.{
  ◌≡◌, refl, ap, ◌∙◌, arith, String, Bool, true, false, ◌||◌, ◌&&◌, not, Option, none, some, List,
  [], ◌∷◌, ◌++◌, concat, contains, contains-append, contains-unique_exact, unique-Distinct,
  Distinct, if◌then◌else◌, eqb, Bool-cases, inl, inr,
}
use tools_installer.Model.{Tool}
use tools_installer.Platform.{Platform}
use tools_installer.Resolve.{resolve_methods}
use tools_installer.Session.{
  Health, checking, broken, misconfigured, outdated, ok, missing, unavailable,
}
use tools_installer.Session.Plan.{is_present}
use tools_installer.Status.{
  Evidence, Facts, groups, winner, with_others, place_of, present_health, absent_health,
  tool_health, VersionStatus, broken_shim_reason, outdated_fact, when_outdated, text_of, tool_state,
  evidence_of, is_cons, reason_for,
}

-- The groups of the four lists of facts.
abbrev grouped : List String → List String → List String → List String → List (Health × List String)
grouped c b m o = (checking, c) ∷ (broken, b) ∷ (misconfigured, m) ∷ (outdated, o) ∷ []

abbrev all_facts : List (Health × List String) → List String
all_facts gs = with_others (winner gs).0 (winner gs).1 gs

-- Whether a group other than the winner's has the sentence.
abbrev in_others : String → Health → List (Health × List String) → Bool
in_others d won [] = false
in_others d won ((state, facts) ∷ rest) =
    (not (eqb (place_of state) (place_of won)) && contains d facts) || in_others d won rest

contains-with_others :
    (d : String) (won : Health) (reasons : List String) (gs : List (Health × List String))
    → contains d (with_others won reasons gs) ≡ (contains d reasons || in_others d won gs)
unfolding with_others
contains-with_others d won reasons [] = ground arith
contains-with_others d won reasons ((state, facts) ∷ rest) = ground (
  arith,
  contains-append d reasons facts,
  contains-with_others d won reasons rest,
  contains-with_others d won (reasons ++ facts) rest,
)

grouped-contains :
    (d : String) (c b m o : List String)
    → contains d (all_facts (grouped c b m o))
      ≡ (contains d c || contains d b || contains d m || contains d o)
unfolding winner place_of contains
grouped-contains d [] [] [] [] = contains-with_others d ok [] (grouped [] [] [] [])
grouped-contains d [] [] [] (x ∷ o) =
    ground (arith, contains-with_others d outdated (x ∷ o) (grouped [] [] [] (x ∷ o)))
grouped-contains d [] [] (x ∷ m) o =
    ground (arith, contains-with_others d misconfigured (x ∷ m) (grouped [] [] (x ∷ m) o))
grouped-contains d [] (x ∷ b) m o =
    ground (arith, contains-with_others d broken (x ∷ b) (grouped [] (x ∷ b) m o))
grouped-contains d (x ∷ c) b m o =
    ground (arith, contains-with_others d checking (x ∷ c) (grouped (x ∷ c) b m o))

-- The sentences that a view may show for a tool.
abbrev pub speaks : Evidence → String → Bool
speaks ev d =
    if ev.present
    then contains d ev.checking_facts
      || contains d ev.broken_facts
      || contains d ev.misconfigured_facts
      || contains d ev.outdated_facts
      || contains d ev.notes
    else if ev.available
    then contains d ev.notes
    else contains d (reason_for ev.absent_reason) || contains d ev.notes

reasons-exact : (ev : Evidence) (d : String) → contains d (tool_health ev).1 ≡ speaks ev d
unfolding tool_health present_health absent_health groups
reasons-exact ev d = elim (Bool-cases ev.present) [
  | inl there ↦ rw there (
      contains-unique_exact d (all_facts (groups ev) ++ ev.notes)
      ∙ contains-append d (all_facts (groups ev)) ev.notes
      ∙ ground (
        arith,
        grouped-contains d ev.checking_facts ev.broken_facts ev.misconfigured_facts
            ev.outdated_facts,
      ))
  | inr gone ↦ rw gone (elim (Bool-cases ev.available) [
    | inl fits ↦ rw fits (contains-unique_exact d ev.notes)
    | inr none_fits ↦ rw none_fits (
        contains-unique_exact d (reason_for ev.absent_reason ++ ev.notes)
        ∙ contains-append d (reason_for ev.absent_reason) ev.notes)
  ])
]

reasons-Distinct : (ev : Evidence) → Distinct (tool_health ev).1
unfolding tool_health present_health absent_health
reasons-Distinct ev = elim (Bool-cases ev.present) [
  | inl there ↦ rw there (unique-Distinct (all_facts (groups ev) ++ ev.notes))
  | inr gone ↦ rw gone (elim (Bool-cases ev.available) [
    | inl fits ↦ rw fits (unique-Distinct ev.notes)
    | inr none_fits ↦ rw none_fits (unique-Distinct (reason_for ev.absent_reason ++ ev.notes))
  ])
]

-- The reasons that come with a tool's health are all the sentences that the evidence has for it,
-- each once: of a present tool its facts of every group and its notes, of an absent one its notes
-- and, where no method applies, the reason for that.
pub tool_health-reasons :
    (ev : Evidence)
    → Distinct (tool_health ev).1 × ((d : String) → contains d (tool_health ev).1 ≡ speaks ev d)
tool_health-reasons ev = (reasons-Distinct ev, reasons-exact ev)

-- The first of the groups that has a fact, in words.
abbrev pub judged : Bool → Bool → Bool → Bool → Health
judged c b m o =
    if c
    then checking
    else if b
    then broken
    else if m
    then misconfigured
    else if o
    then outdated
    else ok

winner-judged :
    (c b m o : List String)
    → (winner (grouped c b m o)).0 ≡ judged (is_cons c) (is_cons b) (is_cons m) (is_cons o)
unfolding winner is_cons
winner-judged [] [] [] [] = refl
winner-judged [] [] [] (x ∷ o) = refl
winner-judged [] [] (x ∷ m) o = refl
winner-judged [] (x ∷ b) m o = refl
winner-judged (x ∷ c) b m o = refl

health-judged :
    (ev : Evidence)
    → (tool_health ev).0 ≡ (
        if ev.present
        then judged
            (is_cons ev.checking_facts)
            (is_cons ev.broken_facts)
            (is_cons ev.misconfigured_facts)
            (is_cons ev.outdated_facts)
        else if ev.available
        then missing
        else unavailable)
unfolding tool_health present_health absent_health groups
health-judged ev = elim (Bool-cases ev.present) [
  | inl there ↦
      rw there
        (winner-judged ev.checking_facts ev.broken_facts ev.misconfigured_facts ev.outdated_facts)
  | inr gone ↦ rw gone (elim (Bool-cases ev.available) [
    | inl fits ↦ rw fits refl
    | inr none_fits ↦ rw none_fits refl
  ])
]

abbrev pub is_true : Option Bool → Bool
is_true none = false
is_true (some b) = b

abbrev pub is_behind : Option VersionStatus → Bool
is_behind none = false
is_behind (some v) = is_true v.is_outdated

is_cons-shim :
    (shim : Bool) (facts : List String)
    → is_cons ((if shim then broken_shim_reason ∷ [] else []) ++ facts) ≡ (shim || is_cons facts)
unfolding is_cons
is_cons-shim true facts = refl
is_cons-shim false facts = refl

is_cons-when_outdated :
    (b : Option Bool) (fact : String) → is_cons (when_outdated b fact) ≡ is_true b
unfolding is_cons when_outdated
is_cons-when_outdated none fact = refl
is_cons-when_outdated (some true) fact = refl
is_cons-when_outdated (some false) fact = refl

is_cons-outdated : (v : Option VersionStatus) → is_cons (outdated_fact v) ≡ is_behind v
unfolding outdated_fact is_cons
is_cons-outdated none = refl
is_cons-outdated (some v) =
    is_cons-when_outdated v.is_outdated
      (concat (text_of v.installed ∷ " -> " ∷ text_of v.latest ∷ " available" ∷ []))

presence-there : (c b m o : Bool) → is_present (judged c b m o) ≡ not c
unfolding is_present
presence-there true b m o = refl
presence-there false true m o = refl
presence-there false false true o = refl
presence-there false false false true = refl
presence-there false false false false = refl

presence-gone : (fits : Bool) → is_present (if fits then missing else unavailable) ≡ false
unfolding is_present
presence-gone true = refl
presence-gone false = refl

presence :
    (there c b m o fits : Bool)
    → is_present (if there then judged c b m o else if fits then missing else unavailable)
      ≡ (there && not c)
presence true c b m o fits = presence-there c b m o
presence false c b m o fits = presence-gone fits

-- The same over the evidence that `tool_state` gathers.
gathered :
    (shim there fits : Bool) (c b m : List String) (v : Option VersionStatus)
    → (if there
        then judged
            (is_cons c)
            (is_cons ((if shim then broken_shim_reason ∷ [] else []) ++ b))
            (is_cons (if there then m else []))
            (is_cons (outdated_fact v))
        else if fits
        then missing
        else unavailable)
      ≡ (if there
          then judged (is_cons c) (shim || is_cons b) (is_cons m) (is_behind v)
          else if fits
          then missing
          else unavailable)
gathered shim true fits c b m v =
    ap (λ (t : Bool). judged (is_cons c) t (is_cons m) (is_cons (outdated_fact v)))
      (is_cons-shim shim b)
    ∙ ap (judged (is_cons c) (shim || is_cons b) (is_cons m)) (is_cons-outdated v)
gathered shim false fits c b m v = refl

-- A tool that is there is checked, broken, to be configured, outdated or fine, the first of these
-- that a fact of the pass speaks for, where a broken shim and a version that is behind are facts
-- too; one that is not there is missing if a method applies to the platform, else unavailable. It
-- counts as present exactly if it is there and not being checked.
pub tool_state-Judged :
    (tool : Tool) (p : Platform) (f : Facts)
    → ((tool_state tool p f).health ≡ (
        if f.present
        then judged
            (is_cons f.checking_facts)
            (f.ownership.shim_broken || is_cons f.broken_facts)
            (is_cons f.misconfigured_facts)
            (is_behind f.version)
        else if is_cons (resolve_methods tool p)
        then missing
        else unavailable))
      × (is_present (tool_state tool p f).health ≡ (f.present && not (is_cons f.checking_facts)))
unfolding tool_state evidence_of
tool_state-Judged tool p f =
    let fits = is_cons (resolve_methods tool p) in
    let shim = f.ownership.shim_broken in
    let health =
      health-judged (evidence_of tool p f)
      ∙ gathered shim f.present fits f.checking_facts f.broken_facts f.misconfigured_facts
          f.version in
    (
      health,
      ap is_present health
          ∙ presence f.present (is_cons f.checking_facts) (shim || is_cons f.broken_facts)
              (is_cons f.misconfigured_facts) (is_behind f.version) fits,
    )
