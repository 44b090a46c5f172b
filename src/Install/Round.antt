-- ===== src/Install/Round.antt =====
-- `install_tool` of installer/engine.py: the parts of one round of its loop.
use tools_installer.Base.{
  String, Bool, true, false, Option, none, some, List, [], ◌∷◌, ◌++◌, not, ◌==◌, if◌then◌else◌, get,
  concat, join, is_some,
}
use tools_installer.Model.{Kind, host_setup, github_release, tarball, app, Value, Method, Tool}
use tools_installer.Resolve.{kind_name}
use tools_installer.Session.{installed, checksum_mismatch, Exn, install_outcome}
use tools_installer.Session.Effect.{Except, returned, raised}
use tools_installer.Session.Engine.{ChecksumPolicy, fail, continue}
use tools_installer.Install.{
  ErrorClass, mismatch_error, executor_error, os_error, uncaught, Host, Tries, Step, returns,
  raises, goes_on,
}

-- What `_perform` returns.
pub record Performed : Type 0 where
  pub verified : Bool
  pub unverified_reason : Option String
  pub handoff : List String

pub downloaded : {W : Type 0} → W × Except (Option String) → W × Except Performed
downloaded (w, raised e) = (w, raised e)
downloaded (w, returned reason) = (
  w,
  returned (record { verified = not (is_some reason); unverified_reason = reason; handoff = [] }),
)

pub handed_off : Except (List String) → Except Performed
handed_off (raised e) = raised e
handed_off (returned lines) =
    returned (record { verified = false; unverified_reason = none; handoff = lines })

pub executed : {W : Type 0} → W × Except (Unit {0}) → W × Except Performed
executed (w, raised e) = (w, raised e)
executed (w, returned _) =
    (w, returned (record { verified = false; unverified_reason = none; handoff = [] }))

-- `method.params.get("refuses_existing") is True`
abbrev pub is_true : Option Value → Bool
is_true (some (Value.bool true)) = true
is_true _ = false

-- `kind in DOWNLOAD_KINDS`, or an app with a `cli`
unfoldable pub smoked_artifact : Method → Bool
unfolding get
smoked_artifact m = elim m.kind [
  | github_release ↦ true
  | tarball ↦ true
  | app ↦ is_some (get "cli" m.params)
  | _ ↦ false
]

-- `f"{warning}; {more}" if warning else more`
pub and_also : Option String → String → String
unfolding concat
and_also none more = more
and_also (some warning) more = if warning == "" then more else concat (warning ∷ "; " ∷ more ∷ [])

module _ {W : Type 0} (host : Host W) (policy : ChecksumPolicy) (repair : Bool) where
  unfoldable pub perform : Kind → Method → W → W × Except Performed
  unfolding downloaded handed_off executed
  perform github_release m w = downloaded (host.install_download m w)
  perform tarball m w = downloaded (host.install_download m w)
  perform app m w = downloaded (host.install_app m w)
  perform host_setup m w = (w, handed_off (host.host_setup_handoff m))
  perform _ m w = executed (host.execute m w)

  -- `_dispatch_post_install`
  pub crashed_actions : W × Except (List String) → W × List String × Option String
  unfolding concat
  crashed_actions (w, returned lines) = (w, lines, none)
  crashed_actions (w, raised e) =
      (w, [], some (concat ("post-install actions crashed: " ∷ e.message ∷ [])))

  unfoldable pub post_actions : Tool → List String → W → W × List String × Option String
  unfolding crashed_actions
  post_actions tool [] w = (w, [], none)
  post_actions tool (_ ∷ _) w = crashed_actions (host.run_post_install tool w)

  unfoldable pub mismatched : ChecksumPolicy → Tool → Method → Tries → Exn → Step
  unfolding kind_name
  mismatched fail tool m t e = returns (record (install_outcome tool.id checksum_mismatch) {
    method_kind = some (kind_name m.kind);
    errors = e ∷ [];
  })
  mismatched continue tool m t e = goes_on (record t { errors = t.errors ++ e ∷ [] })

  -- The `except` clauses.
  unfoldable pub on_error : ErrorClass → Tool → Method → Tries → Exn → Step
  unfolding mismatched
  on_error mismatch_error tool m t e = mismatched policy tool m t e
  on_error uncaught tool m t e = raises e
  on_error _ tool m t e = goes_on (record t { errors = t.errors ++ e ∷ [] })

  unfoldable pub leftover_line : Tool → Method → String
  unfolding concat kind_name
  leftover_line tool m =
      let tail : String = elim (host.removal_command m tool.cmd) [
        | none ↦ "remove it with that installer's own uninstaller"
        | some command ↦ concat ("remove it with `" ∷ command ∷ "`" ∷ [])
      ] in
      concat (
        kind_name m.kind
        ∷ " left "
        ∷ tool.cmd
        ∷ " installed after its smoke run failed; "
        ∷ tail
        ∷ [])

  -- A smoke run that raised: an ExecutorError takes the change of PATH back and is raised again
  -- with the leftover.
  unfoldable pub smoke_failed : ErrorClass → Tool → Method → Tries → String → Exn → W → W × Step
  unfolding leftover_line on_error concat
  smoke_failed executor_error tool m t path_before e w =
      let line = leftover_line tool m in
      (
        host.set_path path_before w,
        on_error executor_error tool m (record t { leftovers = t.leftovers ++ line ∷ [] })
            (record {
              type_name = "ExecutorError";
              message = concat (e.message ∷ "; " ∷ line ∷ []);
            }),
      )
  smoke_failed cls tool m t path_before e w = (w, on_error cls tool m t e)

  -- The receipt of a success, and the leftovers with a failed write.
  unfoldable pub receipt_written : Tries → W × Except (Unit {0}) → W × Except (List String)
  unfolding concat
  receipt_written t (w, returned _) = (w, returned t.leftovers)
  receipt_written t (w, raised e) = elim (host.class_of e) [
    | os_error ↦ (
      w,
      returned (t.leftovers ++ concat ("install receipt not written: " ∷ e.message ∷ []) ∷ []),
    )
    | _ ↦ (w, raised e)
  ]

  pub hooks_of : Tool → W × Except (List String × Option String) → W × List String × Option String
  unfolding concat
  hooks_of tool (w, returned r) = (w, r.0, r.1)
  hooks_of tool (w, raised e) =
      let name : String = elim tool.postinstall [ none ↦ "" | some hook ↦ hook ] in
      (w, [], some (concat ("postinstall hook '" ∷ name ∷ "' crashed: " ∷ e.message ∷ [])))

  pub hooked : Option String → Tool → Method → W → W × List String × Option String
  unfolding hooks_of
  hooked none tool m w = (w, [], none)
  hooked (some hook) tool m w =
      if hook == "" then (w, [], none) else hooks_of tool (host.register_hooks tool m w)

  pub crash_added : Option String → Option String → Option String
  unfolding and_also
  crash_added warning none = warning
  crash_added warning (some crash) = some (and_also warning crash)

  pub leftovers_added : Option String → List String → Option String
  unfolding and_also join
  leftovers_added warning [] = warning
  leftovers_added warning (l ∷ ls) = some (and_also warning (join "; " (l ∷ ls)))

  -- From the hooks on, with the leftovers.
  unfoldable pub completed : Tool → Method → Performed → W × Except (List String) → W × Step
  unfolding hooked post_actions crash_added leftovers_added kind_name
  completed tool m p (w, raised e) = (w, raises e)
  completed tool m p (w, returned leftovers) =
      let h = hooked tool.postinstall tool m w in
      let a = post_actions tool tool.post_install h.0 in
      (
        a.0,
        returns (record (install_outcome tool.id installed) {
          method_kind = some (kind_name m.kind);
          verified = p.verified;
          unverified_reason = p.unverified_reason;
          postinstall_warning = leftovers_added (crash_added h.2 a.2) leftovers;
          post_install_handoff = a.1;
          hooks = h.1;
        }),
      )
