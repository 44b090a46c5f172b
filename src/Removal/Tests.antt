-- ===== src/Removal/Tests.antt =====
-- A tool from an archive with a receipt, and one that Homebrew installed.
use tools_installer.Base.{
  String, ◌≡◌, refl, true, false, ◌⊎◌, Option, none, some, [], ◌∷◌, ◌==◌, map, if◌then◌else◌, ◌&&◌,
  contains, put, get, All, Distinct,
}
use tools_installer.Model.{Tool, Method, github_release, brew, Value, Priority, Audience, Tier}
use tools_installer.Resolve.{kind_name}
use tools_installer.Install.{method_package}
use tools_installer.Removal.{
  Shape, dir, link, ReceiptArtifact, Receipt, Disk, manager, plan_removal, plan_tools, plan_tool,
  receipt_proof, proof_of, is_authorized, is_placed, same_shape, shape_rank, add_artifacts,
  add_artifact, with_tool, with_leftovers, nothing_found, rest_of, manager_argv,
}
use tools_installer.Removal.Plan.{
  Vendor, removal_plan, manager_removal, named, argv_of, declares, has_package, recipe_or,
}
use tools_installer.Removal.Proof.{Among, IsOwned, plan_removal-IsProven}
use tools_installer.Removal.Levels.{
  IsManagerRemoval, IsVendorRemoval, IsUndo, removal_plan-IsAuthorized,
}

abbrev tool_with : String → Method → Tool
tool_with id m = record {
  id = id;
  name = id;
  category = "dev";
  cmd = id;
  methods = m ∷ [];
  priority = Priority.p1;
  audience = Audience.both;
  tier = Tier.user;
  desc = "";
  requires = [];
  recommends = [];
  postinstall = none;
  post_install = [];
  default_enabled_sensitive_actions = [];
  owner_probes = [];
  config_paths = [];
  retired = false;
}

abbrev fd : Tool
fd = tool_with "fd" (record { kind = github_release; params = []; os = []; arch = [] })

abbrev bat : Tool
bat =
    tool_with "bat"
      (record { kind = brew; params = ("formula", Value.str "bat") ∷ []; os = []; arch = [] })

abbrev artifact : String → Shape → ReceiptArtifact
artifact path shape = record { path = path; shape = shape; target = none; sha256 = none }

-- The receipt also claims a path that the catalog does not place.
abbrev fd_receipt : Receipt
fd_receipt = record {
  kind = github_release;
  «package» = none;
  artifacts = artifact "/home/u" dir ∷ artifact "/bin/fd" link ∷ artifact "/opt/fd" dir ∷ [];
  hooks = [];
}

abbrev bat_receipt : Receipt
bat_receipt = record { kind = brew; «package» = some "bat"; artifacts = []; hooks = [] }

receipt_of : String → Option Receipt
receipt_of id = if id == "fd" then some fd_receipt else some bat_receipt

abbrev home : Disk
home = record {
  receipt_exists = λ _. true;
  read = receipt_of;
  drifted = λ _. false;
  exists = λ _. true;
  is_still_proven = λ _. true;
  link_fingerprint = λ _. none;
  dir_fingerprint = λ _ _. none;
  artifact_paths = λ m. elim m.kind [
    | github_release ↦
        record { path = "/bin/fd"; shape = link } ∷ record { path = "/opt/fd"; shape = dir } ∷ []
    | _ ↦ []
  ];
  quarantined = λ _. [];
  name_of = λ p. p;
  parent_of = λ p. p;
  opt_dir = λ n. n;
  bin_dir = "/bin";
  applications_dir = "/Applications";
}

abbrev no_vendor : Vendor
no_vendor = record {
  remove_words = λ _ _. none;
  unregister_argvs = λ _ _ _. [];
  unregister_hosts = λ _ _. [];
  expanduser = λ p. p;
}

plan_removal-IsProven_example :
    All
      (λ (e : String × ReceiptArtifact).
        Among (λ (tool : Tool). IsOwned home tool e.1) (fd ∷ []) × (e.1.path ≡ e.0))
      (plan_removal home (fd ∷ [])).artifacts
    × (map (λ e. e.0) (plan_removal home (fd ∷ [])).artifacts
        ≡ (plan_removal home (fd ∷ [])).removable)
    × Distinct (plan_removal home (fd ∷ [])).removable
    × ((p : String)
        → (contains p (plan_removal home (fd ∷ [])).yourself
            && contains p (plan_removal home (fd ∷ [])).removable)
          ≡ false)
plan_removal-IsProven_example = plan_removal-IsProven home (fd ∷ [])

removal_plan-IsAuthorized_example :
    (((removal_plan home no_vendor bat none).argv ≡ [])
      ⊎ ((r : Receipt) × (home.read bat.id ≡ some r)
          × ((((removal_plan home no_vendor bat none).level ≡ manager)
                × IsManagerRemoval bat r (removal_plan home no_vendor bat none).argv)
              ⊎ IsVendorRemoval home bat r (removal_plan home no_vendor bat none).argv)))
    × (((removal_plan home no_vendor bat none).unregister ≡ [])
        ⊎ ((r : Receipt) × (home.read bat.id ≡ some r)
            × IsUndo home no_vendor bat r (removal_plan home no_vendor bat none).unregister))
removal_plan-IsAuthorized_example = removal_plan-IsAuthorized home no_vendor bat none

only_placed_paths : (plan_removal home (fd ∷ [])).removable ≡ "/bin/fd" ∷ "/opt/fd" ∷ []
unfolding plan_removal plan_tools plan_tool receipt_proof proof_of receipt_of is_authorized
    is_placed kind_name same_shape shape_rank add_artifacts add_artifact with_tool with_leftovers
    nothing_found contains put rest_of
only_placed_paths = refl

bat_through_brew : (removal_plan home no_vendor bat none).argv ≡ "brew" ∷ "uninstall" ∷ "bat" ∷ []
unfolding removal_plan manager_removal receipt_of manager_argv named argv_of declares kind_name
    has_package method_package get recipe_or
bat_through_brew = refl
