-- ===== src/Removal/Plan.antt =====
-- installer/uninstall.py, `removal_plan`: how one tool is removed. The words of a vendor's `remove`
-- (none where the method has none, or a token does not expand) and the undo of a hook are those of
-- installer/executors.py and installer/postinstall.py.
use tools_installer.Base.{
  String, Bool, true, false, not, ◌&&◌, ◌||◌, Option, none, some, List, [], ◌∷◌, ◌++◌, ◌==◌, map,
  filter, any, if◌then◌else◌, get, is_some, concat,
}
use tools_installer.Model.{Kind, script, Method, Tool}
use tools_installer.Resolve.{kind_name}
use tools_installer.Install.{method_package}
use tools_installer.Removal.{
  Shape, link, file, leaf, ReceiptArtifact, Receipt, Disk, same_shape, Level, manager,
  artifacts_level, recipe, receipt_level, none_level, RemovalPlan, manager_argv, plan_removal,
}

pub record Vendor : Type 0 where
  pub remove_words : Tool → Receipt → Option (List String)
  pub unregister_argvs : String → String → List String → List (List String)
  pub unregister_hosts : String → List String → List String
  pub expanduser : String → String

-- `text or None` of an optional package
unfoldable pub named : Option String → Option String
named none = none
named (some name) = if name == "" then none else some name

unfoldable pub has_package : String → Option String → Bool
has_package name none = false
has_package name (some declared) = declared == name

unfoldable pub declares : Kind → String → Method → Bool
unfolding kind_name method_package has_package
declares kind name m = kind_name m.kind == kind_name kind && has_package name (method_package m)

unfoldable pub argv_of : Tool → Kind → Option (List String) → Option String → List String
unfolding declares
argv_of tool kind (some prefix) (some name) =
    if any (declares kind name) tool.methods then prefix ++ name ∷ [] else []
argv_of tool kind _ _ = []

-- `_manager_argv`
unfoldable pub manager_removal : Tool → Option Receipt → List String
unfolding argv_of manager_argv named
manager_removal tool none = []
manager_removal tool (some r) = argv_of tool r.kind (manager_argv r.kind) (named r.«package»)

unfoldable pub is_named : (String → String) → String → List Shape → ReceiptArtifact → Bool
unfolding same_shape
is_named name_of name shapes a =
    any (same_shape a.shape) shapes && (name_of a.path == name || a.path == name)

unfoldable pub paths_of : Option (List String) → List String
paths_of none = []
paths_of (some paths) = paths

unfoldable pub with_artifact : Option ReceiptArtifact → List ReceiptArtifact → List ReceiptArtifact
with_artifact none rest = rest
with_artifact (some a) rest = a ∷ rest

-- `plan.artifacts[path]` for each of the paths
unfoldable pub artifacts_at : List (String × ReceiptArtifact) → List String → List ReceiptArtifact
unfolding get with_artifact
artifacts_at artifacts [] = []
artifacts_at artifacts (path ∷ rest) =
    with_artifact (get path artifacts) (artifacts_at artifacts rest)

unfoldable pub the_only : List ReceiptArtifact → Option ReceiptArtifact
the_only (a ∷ []) = some a
the_only _ = none

-- `_proven_named`
unfoldable pub proven_named :
    (String → String) → RemovalPlan → String → String → List Shape → Option ReceiptArtifact
unfolding the_only is_named artifacts_at paths_of get
proven_named name_of plan tool_id name shapes = the_only (
    filter (is_named name_of name shapes)
      (artifacts_at plan.artifacts (paths_of (get tool_id plan.by_tool))))

unfoldable pub bound : Option ReceiptArtifact → List String → List String
bound none words = []
bound (some a) words = a.path ∷ words

unfoldable pub recipe_words :
    (String → String) → Tool → RemovalPlan → Option (List String) → List String
unfolding bound proven_named
recipe_words name_of tool plan (some (head ∷ words)) =
    bound (proven_named name_of plan tool.id head (leaf ∷ [])) words
recipe_words name_of tool plan _ = []

unfoldable pub is_script : Kind → Bool
is_script script = true
is_script _ = false

unfoldable pub is_empty {ℓ} : {A : Type ℓ} → List A → Bool
is_empty [] = true
is_empty (x ∷ xs) = false

unfoldable pub is_script_receipt : Option Receipt → Bool
unfolding is_script
is_script_receipt none = false
is_script_receipt (some r) = is_script r.kind

unfoldable pub base_level : List String → Option Receipt → RemovalPlan → Level
unfolding is_empty is_script_receipt
base_level argv receipt base =
    if not (is_empty argv)
    then manager
    else if is_empty base.removable
    then none_level
    else if is_script_receipt receipt
    then recipe
    else artifacts_level

unfoldable pub is_none_level : Level → Bool
is_none_level none_level = true
is_none_level _ = false

-- A retired tool with a receipt and nothing at all on the disk: the receipt goes.
unfoldable pub final_level : Tool → Option Receipt → RemovalPlan → Level → Level
unfolding is_none_level is_empty
final_level tool receipt base level =
    if tool.retired && is_none_level level && is_some receipt && is_empty base.yourself
    then receipt_level
    else level

-- `retired_manager_package`
unfoldable pub managed_hint :
    Option String → Option (List String) → Option String → Kind → Option String
unfolding concat kind_name
managed_hint hint (some argv) (some name) kind =
    some (concat ("remove it yourself: " ∷ kind_name kind ∷ " " ∷ name ∷ []))
managed_hint hint _ _ kind = hint

unfoldable pub hint_of : Tool → Option Receipt → Option String → Option String
unfolding managed_hint manager_argv named
hint_of tool none hint = hint
hint_of tool (some r) hint =
    if tool.retired
    then managed_hint hint (manager_argv r.kind) (named r.«package») r.kind
    else hint

unfoldable pub recipe_or : List String → List String → List String
recipe_or [] argv = argv
recipe_or (word ∷ words) argv = word ∷ words

module _ (disk : Disk) (vendor : Vendor) where
  -- `_recipe_argv`
  unfoldable pub recipe_removal : Tool → Option Receipt → RemovalPlan → List String
  unfolding recipe_words is_script is_empty paths_of get
  recipe_removal tool none plan = []
  recipe_removal tool (some r) plan =
      if not (is_script r.kind) || is_empty (paths_of (get tool.id plan.by_tool))
      then []
      else recipe_words disk.name_of tool plan (vendor.remove_words tool r)

  unfoldable pub undo_with :
      String → List String → Option ReceiptArtifact → List (List String) × List String
  undo_with name recorded none = ([], [])
  undo_with name recorded (some executable) =
      (vendor.unregister_argvs name executable.path recorded, vendor.unregister_hosts name recorded)

  -- `_hook_undo`
  unfoldable pub hook_undo :
      Tool → Option Receipt → Option String → RemovalPlan → List (List String) × List String
  unfolding undo_with proven_named is_empty paths_of get
  hook_undo tool (some r) (some name) plan =
      if is_empty (paths_of (get name r.hooks))
      then ([], [])
      else undo_with name (paths_of (get name r.hooks))
          (proven_named disk.name_of plan tool.id tool.cmd (link ∷ leaf ∷ file ∷ []))
  hook_undo tool _ _ plan = ([], [])

  unfoldable pub recipe_unless : List String → Tool → Option Receipt → RemovalPlan → List String
  unfolding recipe_removal
  recipe_unless [] tool receipt base = recipe_removal tool receipt base
  recipe_unless (word ∷ words) tool receipt base = []

  unfoldable pub removal_plan : Tool → Option String → RemovalPlan
  unfolding plan_removal manager_removal recipe_unless recipe_or base_level final_level hint_of
      hook_undo
  removal_plan tool hint =
      let base = plan_removal disk (tool ∷ []) in
      let receipt = disk.read tool.id in
      let argv = manager_removal tool receipt in
      let undo = hook_undo tool receipt tool.postinstall base in
      record base {
        level = final_level tool receipt base (base_level argv receipt base);
        argv = recipe_or argv (recipe_unless argv tool receipt base);
        config = filter disk.exists (map vendor.expanduser tool.config_paths);
        hint = hint_of tool receipt hint;
        unregister = undo.0;
        hook_hosts = undo.1;
      }
