-- ===== src/Removal.antt =====
-- installer/uninstall.py: what of a tool may be removed. The disk is read through functions, for
-- one value of `verify`; the placements of a method are those of installer/download.py.
mod Proof
pub mod Plan
mod Levels
mod Tests
use tools_installer.Base.{
  ℕ, String, Bool, true, false, not, ◌&&◌, ◌||◌, Option, none, some, List, [], ◌∷◌, ◌++◌, ◌==◌, eqb,
  map, filter, any, if◌then◌else◌, contains, put, get, unique, is_some,
}
use tools_installer.Model.{
  Kind, github_release, tarball, app, brew, cask, uv_tool, node, Method, Tool,
}
use tools_installer.Resolve.{kind_name}

-- installer/download.py
pub data Shape : Type 0 where
  dir link file tree leaf : Shape

pub record Artifact : Type 0 where
  pub path : String
  pub shape : Shape

-- installer/receipts.py
pub record ReceiptArtifact : Type 0 where
  pub path : String
  pub shape : Shape
  pub target : Option String
  pub sha256 : Option String

pub record Receipt : Type 0 where
  pub kind : Kind
  pub «package» : Option String
  pub artifacts : List ReceiptArtifact
  pub hooks : List (String × List String)

pub record Disk : Type 0 where
  pub receipt_exists : String → Bool
  pub read : String → Option Receipt
  pub drifted : Receipt → Bool
  pub exists : String → Bool
  pub is_still_proven : String → Bool
  pub link_fingerprint : String → Option ReceiptArtifact
  pub dir_fingerprint : String → String → Option ReceiptArtifact
  pub artifact_paths : Method → List Artifact
  pub quarantined : List Tool → List String
  pub name_of : String → String
  pub parent_of : String → String
  pub opt_dir : String → String
  pub bin_dir : String
  pub applications_dir : String

unfoldable pub shape_rank : Shape → ℕ
shape_rank dir = 0
shape_rank link = 1
shape_rank file = 2
shape_rank tree = 3
shape_rank leaf = 4

unfoldable pub same_shape : Shape → Shape → Bool
unfolding shape_rank
same_shape a b = eqb (shape_rank a) (shape_rank b)

-- `kind in DOWNLOAD_KINDS`
unfoldable pub is_download : Kind → Bool
is_download github_release = true
is_download tarball = true
is_download _ = false

unfoldable pub is_app : Kind → Bool
is_app app = true
is_app _ = false

-- `_safe_name`; no name of a path holds a separator or a NUL.
unfoldable pub safe_name : String → Bool
safe_name name = not (name == "" || name == "." || name == "..")

-- The path of the first artifact of a shape
unfoldable pub first_of : Shape → List Artifact → Option String
unfolding same_shape
first_of shape [] = none
first_of shape (a ∷ rest) =
    let found = first_of shape rest in if same_shape a.shape shape then some a.path else found

unfoldable pub both : Option ReceiptArtifact → Option ReceiptArtifact → List ReceiptArtifact
both (some a) (some b) = a ∷ b ∷ []
both _ _ = []

module _ (disk : Disk) where
  unfoldable pub download_shape : ReceiptArtifact → List String → Shape → Bool
  unfolding contains
  download_shape a link_names link = disk.parent_of a.path == disk.bin_dir
  download_shape a link_names file = disk.parent_of a.path == disk.bin_dir
  download_shape a link_names dir =
      a.path == disk.opt_dir (disk.name_of a.path) && contains (disk.name_of a.path) link_names
  download_shape a link_names _ = false

  unfoldable pub app_shape : ReceiptArtifact → Shape → Bool
  app_shape a dir = disk.parent_of a.path == disk.applications_dir
  app_shape a link = disk.parent_of a.path == disk.bin_dir
  app_shape a _ = false

  unfoldable pub placement_shape : Kind → ReceiptArtifact → List String → Bool
  unfolding safe_name download_shape app_shape is_download is_app
  placement_shape kind a link_names =
      safe_name (disk.name_of a.path)
      && (if is_download kind
          then download_shape a link_names a.shape
          else if is_app kind
          then app_shape a a.shape
          else false)

  unfoldable pub is_bin_link : ReceiptArtifact → Bool
  unfolding same_shape safe_name
  is_bin_link a =
      same_shape a.shape link
      && disk.parent_of a.path == disk.bin_dir
      && safe_name (disk.name_of a.path)

  unfoldable pub link_names : Receipt → List String
  unfolding is_bin_link
  link_names r = map (λ a. disk.name_of a.path) (filter is_bin_link r.artifacts)

  -- Whether a method of the receipt's kind places this path with this shape.
  unfoldable pub is_placed : Kind → ReceiptArtifact → Method → Bool
  unfolding same_shape kind_name
  is_placed kind a m =
      kind_name m.kind == kind_name kind
      && any (λ p. p.path == a.path && same_shape p.shape a.shape) (disk.artifact_paths m)

  unfoldable pub is_authorized : Tool → Receipt → ReceiptArtifact → Bool
  unfolding placement_shape link_names is_placed
  is_authorized tool r a =
      if tool.retired
      then placement_shape r.kind a (link_names r)
      else any (is_placed r.kind a) tool.methods

  unfoldable pub proof_of : Tool → Option Receipt → List ReceiptArtifact
  unfolding is_authorized
  proof_of tool none = []
  proof_of tool (some r) = if disk.drifted r then [] else filter (is_authorized tool r) r.artifacts

  -- `_receipt_proof`
  unfoldable pub receipt_proof : Tool → List ReceiptArtifact
  unfolding proof_of
  receipt_proof tool = proof_of tool (disk.read tool.id)

  unfoldable pub layout_of : Option String → Option String → List ReceiptArtifact
  unfolding both
  layout_of (some at) (some opt) =
      if disk.is_still_proven at
      then both (disk.link_fingerprint at) (disk.dir_fingerprint opt at)
      else []
  layout_of _ _ = []

  -- What the archive layout proves of a method
  unfoldable pub layout_proof : Method → List ReceiptArtifact
  unfolding layout_of first_of is_download
  layout_proof m =
      if is_download m.kind
      then layout_of (first_of link (disk.artifact_paths m)) (first_of dir (disk.artifact_paths m))
      else []

  unfoldable pub layout_proofs : List Method → List ReceiptArtifact
  unfolding layout_proof
  layout_proofs [] = []
  layout_proofs (m ∷ ms) = layout_proof m ++ layout_proofs ms

-- The lists that `plan_removal` fills; `seen` has the paths of `removable`.
pub record Found : Type 0 where
  pub removable : List String
  pub by_tool : List (String × List String)
  pub artifacts : List (String × ReceiptArtifact)
  pub leftovers : List String

unfoldable pub add_artifact : ReceiptArtifact → Found → Found
unfolding contains put
add_artifact a f =
    if contains a.path f.removable
    then f
    else record f { removable = f.removable ++ a.path ∷ []; artifacts = put a.path a f.artifacts }

unfoldable pub add_artifacts : List ReceiptArtifact → Found → Found
unfolding add_artifact
add_artifacts [] f = f
add_artifacts (a ∷ rest) f = add_artifacts rest (add_artifact a f)

unfoldable pub with_tool : Tool → List ReceiptArtifact → Found → Found
unfolding put
with_tool tool [] f = f
with_tool tool (a ∷ rest) f = record f {
  by_tool = put tool.id (map (λ x. x.path) (a ∷ rest)) f.by_tool;
}

unfoldable pub nothing_found : Found
nothing_found = record { removable = []; by_tool = []; artifacts = []; leftovers = [] }

pub data Level : Type 0 where
  manager artifacts_level recipe receipt_level none_level : Level

pub record RemovalPlan : Type 0 where
  pub removable : List String
  pub yourself : List String
  pub by_tool : List (String × List String)
  pub artifacts : List (String × ReceiptArtifact)
  pub level : Level
  pub argv : List String
  pub config : List String
  pub hint : Option String
  pub unregister : List (List String)
  pub hook_hosts : List String

-- `MANAGER_UNINSTALL_ARGV.get(kind)`
unfoldable pub manager_argv : Kind → Option (List String)
manager_argv brew = some ("brew" ∷ "uninstall" ∷ [])
manager_argv cask = some ("brew" ∷ "uninstall" ∷ "--cask" ∷ [])
manager_argv uv_tool = some ("uv" ∷ "tool" ∷ "uninstall" ∷ [])
manager_argv node = some ("pnpm" ∷ "remove" ∷ "--global" ∷ [])
manager_argv _ = none

module _ (disk : Disk) where
  -- `_retired_leftovers`
  unfoldable pub leftovers_of : Option Receipt → List String → List String
  unfolding manager_argv contains
  leftovers_of none proven = []
  leftovers_of (some r) proven =
      if is_some (manager_argv r.kind)
      then []
      else filter (λ p. not (contains p proven) && disk.exists p) (map (λ a. a.path) r.artifacts)

  unfoldable pub with_leftovers : Tool → List ReceiptArtifact → Found → Found
  unfolding leftovers_of
  with_leftovers tool proven f =
      if tool.retired
      then record f {
        leftovers = f.leftovers ++ leftovers_of (disk.read tool.id) (map (λ a. a.path) proven);
      }
      else f

  unfoldable pub plan_tool : Tool → Found → Found
  unfolding add_artifacts with_tool with_leftovers receipt_proof layout_proofs
  plan_tool tool f =
      if disk.receipt_exists tool.id
      then add_artifacts (receipt_proof disk tool) (
          with_tool tool (receipt_proof disk tool)
            (with_leftovers tool (receipt_proof disk tool) f))
      else add_artifacts (layout_proofs disk tool.methods) f

  unfoldable pub plan_tools : List Tool → Found → Found
  unfolding plan_tool
  plan_tools [] f = f
  plan_tools (tool ∷ rest) f = plan_tools rest (plan_tool tool f)

  unfoldable pub placed_paths : List Method → List String
  placed_paths [] = []
  placed_paths (m ∷ ms) = map (λ a. a.path) (disk.artifact_paths m) ++ placed_paths ms

  unfoldable pub all_placed : List Tool → List String
  unfolding placed_paths
  all_placed [] = []
  all_placed (tool ∷ rest) = placed_paths tool.methods ++ all_placed rest

  unfoldable pub plan_uninstall : List Tool → List String
  unfolding unique all_placed
  plan_uninstall tools = unique (filter disk.exists (all_placed tools))

  unfoldable pub rest_of : List Tool → Found → List String
  unfolding unique plan_uninstall contains
  rest_of tools f = unique (
      filter (λ p. not (contains p f.removable))
        (plan_uninstall tools ++ (disk.quarantined tools ++ f.leftovers)))

  unfoldable pub plan_removal : List Tool → RemovalPlan
  unfolding plan_tools rest_of nothing_found
  plan_removal tools =
      let found = plan_tools tools nothing_found in
      record {
        removable = found.removable;
        yourself = rest_of tools found;
        by_tool = found.by_tool;
        artifacts = found.artifacts;
        level = none_level;
        argv = [];
        config = [];
        hint = none;
        unregister = [];
        hook_hosts = [];
      }
