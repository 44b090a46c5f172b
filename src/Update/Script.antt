-- ===== src/Update/Script.antt =====
-- installer/update.py: what an update calls, and the update command that a script method declares
-- (`_update_installer_owned`, `_declared_leaf`). The roots of the tokens, the shell line of `sdk`
-- and the paths that a method places are functions of the host.
use tools_installer.Base.{
  String, Bool, true, false, ◌&&◌, Option, none, some, List, [], ◌∷◌, ◌==◌, if◌then◌else◌, concat,
  filter, map, get,
}
use tools_installer.Model.{Kind, Value, Values, Method, Tool}
use tools_installer.Model.Value.{array}
use tools_installer.Model.Values.{nil, cons}
use tools_installer.Resolve.{str_of}
use tools_installer.Session.{Exn, ManagerOwnership}
use tools_installer.Session.Effect.{Except, returned, raised}
use tools_installer.Removal.{Artifact, Shape, leaf}
use tools_installer.Update.{has_part}

pub record UpdateHost (W : Type 0) : Type 0 where
  pub pnpm_add : String → Option String
  pub applications_dir : String
  pub declared_label : Tool → Option String
  pub owner_label : ManagerOwnership → Option String
  pub greedy_casks : List String
  pub classes : Exn → List String
  pub expand_script_token : String → Option String
  pub sdk_pipeline : List String → List String
  pub artifact_paths : Method → List Artifact
  pub name_of : String → String
  pub is_file : String → W → Bool
  pub runner : List String → W → W × Except (Unit {0})
  pub execute : Method → W → W × Except (Unit {0})
  pub update_download : Method → W → W × Except (List String)
  pub update_app : Method → W → W × Except (List String)
  pub receipt_kind : String → W → Option Kind
  pub preexisting_paths : Method → W → Except (List String)
  pub record_receipt : Tool → Method → Option String → Option (List String) → W → W × Option String
  pub postinstall : Tool → Method → W → W × Except (Option String)

unfoldable pub update_error : String → Exn
update_error message = record { type_name = "UpdateError"; message = message }

-- The tokens of a list, which the loader admits for texts alone
unfoldable pub tokens : Values → List String
unfolding str_of
tokens nil = []
tokens (cons value rest) = str_of value ∷ tokens rest

-- `method.params.get("update")` where it is a list
unfoldable pub declared_command : Option Value → Option (List String)
unfolding tokens
declared_command (some (array values)) = some (tokens values)
declared_command _ = none

unfoldable pub is_leaf : Shape → Bool
is_leaf leaf = true
is_leaf _ = false

-- The expanded word before the rest of them
unfoldable pub before : String → Except (List String) → Except (List String)
before word (returned words) = returned (word ∷ words)
before word (raised e) = raised e

unfoldable pub or_cannot :
    String → String → Option String → Except (List String) → Except (List String)
unfolding before update_error concat
or_cannot id token none rest =
    raised (update_error (concat ("cannot resolve " ∷ token ∷ " for the " ∷ id ∷ " update" ∷ [])))
or_cannot id token (some word) rest = before word rest

module _ {W : Type 0} (host : UpdateHost W) where
  -- The words of the command; the first token without a root ends the update.
  unfoldable pub expanded : String → List String → Except (List String)
  unfolding or_cannot
  expanded id [] = returned []
  expanded id (token ∷ rest) =
      or_cannot id token (host.expand_script_token token) (expanded id rest)

  -- The declared leaves whose name is the first word
  unfoldable pub leaves_named : String → Method → List String
  unfolding is_leaf
  leaves_named head m =
      map (λ (a : Artifact). a.path)
        (filter (λ (a : Artifact). is_leaf a.shape && host.name_of a.path == head)
          (host.artifact_paths m))

  unfoldable pub gone : String → String → Except (List String)
  unfolding update_error concat
  gone head path = raised (
      update_error (concat (head ∷ " is not at its declared path " ∷ path ∷ "; reinstall it" ∷ [])))

  -- The command at the only leaf that is there
  unfoldable pub at_leaf : String → List String → List String → W → Except (List String)
  unfolding gone
  at_leaf head rest [] w = returned (head ∷ rest)
  at_leaf head rest (path ∷ []) w =
      if host.is_file path w then returned (path ∷ rest) else gone head path
  at_leaf head rest (path ∷ _ ∷ _) w = gone head path

  -- `_declared_leaf`; Python raises an IndexError for the first word of an empty command.
  unfoldable pub declared_leaf : Method → List String → W → Except (List String)
  unfolding has_part leaves_named at_leaf
  declared_leaf m [] w =
      raised (record { type_name = "IndexError"; message = "list index out of range" })
  declared_leaf m (head ∷ rest) w =
      if has_part "/" head
      then returned (head ∷ rest)
      else at_leaf head rest (leaves_named head m) w

  unfoldable pub script_argv : Method → Except (List String) → W → Except (List String)
  unfolding declared_leaf
  script_argv m (raised e) w = raised e
  script_argv m (returned []) w = declared_leaf m [] w
  script_argv m (returned (head ∷ rest)) w =
      if head == "sdk"
      then returned (host.sdk_pipeline (head ∷ rest))
      else declared_leaf m (head ∷ rest) w

  unfoldable pub run_argv : Except (List String) → W → W × Except (Unit {0})
  run_argv (raised e) w = (w, raised e)
  run_argv (returned argv) w = host.runner argv w

  -- The script branch: the installer again, or the command that the method declares
  unfoldable pub run_declared : Tool → Method → Option (List String) → W → W × Except (Unit {0})
  unfolding script_argv expanded run_argv
  run_declared tool m none w = host.execute m w
  run_declared tool m (some words) w = run_argv (script_argv m (expanded tool.id words) w) w

  unfoldable pub update_script : Tool → Method → W → W × Except (Unit {0})
  unfolding run_declared declared_command get
  update_script tool m w = run_declared tool m (declared_command (get "update" m.params)) w
