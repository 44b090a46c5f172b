-- ===== src/Update/Refusal.antt =====
-- `update_refusal` of installer/update.py: what a refusal says, and what it lets through.
use tools_installer.Base.{
  String, ◌≡◌, refl, Bool, true, false, not, ◌&&◌, ◌||◌, Option, none, some, ◌==◌, if◌then◌else◌,
  is_some,
}
use tools_installer.Model.{Tool}
use tools_installer.Session.{
  ManagerOwnership, UpdateOutcome, UpdateStatus, unknown_owner, unsupported,
}
use tools_installer.Session.Plan.{unmanageable}
use tools_installer.Update.{outcome, mutation_grade, is_sdkman, pinned_method, update_refusal}

abbrev pub is_refused : UpdateStatus → Bool
is_refused unknown_owner = true
is_refused unsupported = true
is_refused _ = false

abbrev pub Refuses : Tool → Option UpdateOutcome → Type 0
Refuses tool none = Unit
Refuses tool (some r) = (is_refused r.status ≡ true) × (r.tool_id ≡ tool.id)

Refuses-if :
    (tool : Tool) (b : Bool) (x y : Option UpdateOutcome)
    → Refuses tool x
    → Refuses tool y
    → Refuses tool (if b then x else y)
Refuses-if tool true x y h k = h
Refuses-if tool false x y h k = k

pub refusal-Refuses :
    (pnpm_add : String → Option String) (tool : Tool) (o : ManagerOwnership)
    → Refuses tool (update_refusal pnpm_add tool o)
unfolding update_refusal outcome
refusal-Refuses pnpm_add tool o =
    Refuses-if tool (o.owner == "unknown" || not (mutation_grade o.confidence)) _ _ (refl, refl)
      (Refuses-if tool (is_sdkman o.method) _ _ (refl, refl)
        (Refuses-if tool (pinned_method o.method) _ _ (refl, refl)
          (Refuses-if tool (unmanageable o.owner) _ _ (refl, refl)
            (Refuses-if tool (o.owner == "volta") _ _ (refl, refl)
              (Refuses-if tool (o.owner == "pnpm" && not (is_some o.method)) _ _ (refl, refl)
                tt)))))

none-if :
    (b : Bool) (x : UpdateOutcome) (y : Option UpdateOutcome)
    → (if b then some x else y) ≡ none
    → (b ≡ false) × (y ≡ none)
none-if true x y h = cc
none-if false x y h = (refl, h)

-- What an ownership has that an update goes on with
abbrev pub IsPermitted : ManagerOwnership → Type 0
IsPermitted o =
    (o.owner == "unknown" ≡ false)
    × (mutation_grade o.confidence ≡ true)
    × (is_sdkman o.method ≡ false)
    × (pinned_method o.method ≡ false)
    × (unmanageable o.owner ≡ false)

graded : (a b : Bool) → (a || not b) ≡ false → (a ≡ false) × (b ≡ true)
graded true b h = cc
graded false true h = (refl, refl)
graded false false h = cc

pub update_refusal-IsPermitted :
    (pnpm_add : String → Option String) (tool : Tool) (o : ManagerOwnership)
    → update_refusal pnpm_add tool o ≡ none
    → IsPermitted o
unfolding update_refusal
update_refusal-IsPermitted pnpm_add tool o h =
    let known = none-if (o.owner == "unknown" || not (mutation_grade o.confidence)) _ _ h in
    let sdk = none-if (is_sdkman o.method) _ _ known.1 in
    let pinned = none-if (pinned_method o.method) _ _ sdk.1 in
    let system = none-if (unmanageable o.owner) _ _ pinned.1 in
    let grade = graded (o.owner == "unknown") (mutation_grade o.confidence) known.0 in
    (grade.0, grade.1, sdk.0, pinned.0, system.0)
