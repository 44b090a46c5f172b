-- ===== src/Status.antt =====
-- installer/version_status.py: what the facts on a tool say of its health.
mod Precedence
pub mod Refresh
mod Tests
use tools_installer.Base.{
  ℕ, eqb, String, Bool, true, false, Option, none, some, List, [], ◌∷◌, ◌++◌, map, unique, concat,
  if◌then◌else◌, ◌||◌, not, is_some,
}
use tools_installer.Model.{Tool}
use tools_installer.Platform.{Platform}
use tools_installer.Resolve.{resolve_methods}
use tools_installer.Resolve.Reason.{UnavailableReason, unavailable_reason}
use tools_installer.Session.{
  Health, checking, broken, misconfigured, outdated, ok, missing, unavailable, ManagerOwnership,
  ConfigStep,
}
use tools_installer.Session.Plan.{ToolState}

pub record Evidence : Type 0 where
  pub present : Bool
  pub available : Bool
  pub checking_facts : List String
  pub broken_facts : List String
  pub misconfigured_facts : List String
  pub outdated_facts : List String
  pub notes : List String
  pub absent_reason : Option String

-- The facts of a present tool by the state they speak for, in the order of precedence.
unfoldable pub groups : Evidence → List (Health × List String)
groups ev =
    (checking, ev.checking_facts)
    ∷ (broken, ev.broken_facts)
    ∷ (misconfigured, ev.misconfigured_facts)
    ∷ (outdated, ev.outdated_facts)
    ∷ []

-- `next(((s, f) for s, f in groups if f), (Health.OK, ()))`
unfoldable pub winner : List (Health × List String) → Health × List String
winner [] = (ok, [])
winner ((state, []) ∷ rest) = winner rest
winner ((state, fact ∷ facts) ∷ rest) = (state, fact ∷ facts)

-- `a is b` for members of the enumeration, by their places in it
unfoldable pub place_of : Health → ℕ
place_of checking = 0
place_of broken = 1
place_of misconfigured = 2
place_of outdated = 3
place_of ok = 4
place_of missing = 5
place_of unavailable = 6

-- `for state, facts in groups: if state is not winner[0]: reasons = reasons + facts`
unfoldable pub with_others : Health → List String → List (Health × List String) → List String
unfolding place_of
with_others won reasons [] = reasons
with_others won reasons ((state, facts) ∷ rest) =
    with_others won (if eqb (place_of state) (place_of won) then reasons else reasons ++ facts) rest

unfoldable pub reason_for : Option String → List String
reason_for none = []
reason_for (some reason) = reason ∷ []

unfoldable pub absent_health : Evidence → Health × List String
unfolding reason_for unique
absent_health ev =
    if ev.available
    then (missing, unique ev.notes)
    else (unavailable, unique (reason_for ev.absent_reason ++ ev.notes))

unfoldable pub present_health : Evidence → Health × List String → Health × List String
unfolding groups with_others unique
present_health ev won = (won.0, unique (with_others won.0 won.1 (groups ev) ++ ev.notes))

unfoldable pub tool_health : Evidence → Health × List String
unfolding present_health absent_health winner groups
tool_health ev = if ev.present then present_health ev (winner (groups ev)) else absent_health ev

pub record VersionStatus : Type 0 where
  pub installed : Option String
  pub latest : Option String
  pub is_outdated : Option Bool

-- The keyword arguments of `tool_state`.
pub record Facts : Type 0 where
  pub generation : ℕ
  pub seq : ℕ
  pub present : Bool
  pub ownership : ManagerOwnership
  pub version : Option VersionStatus
  pub checking_facts : List String
  pub broken_facts : List String
  pub misconfigured_facts : List String
  pub unconfigured : List ConfigStep
  pub notes : List String
  pub unwritable : List String

abbrev pub broken_shim_reason : String
broken_shim_reason =
    "shim present, package missing — select it and press enter to reinstall and repair"

unfoldable pub absence : Option UnavailableReason → String
absence none = "needs Homebrew, which is not on PATH"
absence (some reason) = reason.detail

-- An f-string of the name of a version that may be None
unfoldable pub text_of : Option String → String
text_of none = "None"
text_of (some version) = version

-- `(fact,) if version.outdated else ()`
unfoldable pub when_outdated : Option Bool → String → List String
when_outdated (some true) fact = fact ∷ []
when_outdated (some false) fact = []
when_outdated none fact = []

unfoldable pub outdated_fact : Option VersionStatus → List String
unfolding text_of concat when_outdated
outdated_fact none = []
outdated_fact (some v) =
    when_outdated v.is_outdated
      (concat (text_of v.installed ∷ " -> " ∷ text_of v.latest ∷ " available" ∷ []))

unfoldable pub version_pair : Option VersionStatus → Option (Option String × Option String)
version_pair none = none
version_pair (some v) = some (v.installed, v.latest)

-- `bool(xs)`
unfoldable pub is_cons {ℓ} : {A : Type ℓ} → List A → Bool
is_cons [] = false
is_cons (x ∷ xs) = true

unfoldable pub evidence_of : Tool → Platform → Facts → Evidence
unfolding absence outdated_fact is_cons resolve_methods unavailable_reason
evidence_of tool p f = record {
  present = f.present;
  available = is_cons (resolve_methods tool p);
  checking_facts = f.checking_facts;
  broken_facts =
      (if f.ownership.shim_broken then broken_shim_reason ∷ [] else []) ++ f.broken_facts;
  misconfigured_facts = if f.present then f.misconfigured_facts else [];
  outdated_facts = outdated_fact f.version;
  notes = if f.present then f.notes else f.misconfigured_facts ++ f.notes;
  absent_reason =
      if is_cons (resolve_methods tool p) then none else some (absence (unavailable_reason tool p));
}

unfoldable pub tool_state : Tool → Platform → Facts → ToolState
unfolding evidence_of tool_health version_pair
tool_state tool p f =
    let judged = tool_health (evidence_of tool p f) in
    record {
      tool_id = tool.id;
      health = judged.0;
      reasons = judged.1;
      ownership = f.ownership;
      version = version_pair f.version;
      unconfigured = f.unconfigured;
      unwritable = f.unwritable;
      generation = f.generation;
      seq = f.seq;
    }
