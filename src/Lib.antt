-- ===== src/Lib.antt =====
-- tools-installer: a verification library for the installer's core.
--
-- The program installs command-line tools from a catalog. A run goes through these parts:
-- installer/model.py holds the catalog's tools and their install methods; installer/deps.py expands
-- a selection by what it requires and puts it in order; installer/resolve.py picks the methods that
-- suit the host; installer/session.py turns the result into rows, runs them and reports one outcome
-- for each; installer/engine.py installs one tool, method by method; installer/versions.py compares
-- what a tool prints with what the catalog wants. Around a run stand the state of the tools, which
-- installer/version_status.py judges and publishes from passes that run beside the screen and
-- installer/version_cache.py keeps on disk; installer/uninstall.py, which plans a removal from what
-- is proven to be the installer's own; installer/update.py, which updates one tool through its
-- owner; and installer/shellrc.py, which edits the shell's start-up files in marked blocks.
--
--   Model         installer/model.py, installer/enums.py: Tool, Method, the closed sets
--   Platform      installer/platform.py: Platform, normalize_arch, detect_os
--   Deps          installer/deps.py: resolve_dependencies, missing_requires (Deps/Preview)
--   Resolve       installer/resolve.py: resolve_methods, rejection; Resolve/Reason: unavailable_reason
--   Versions      installer/versions.py: the parsers; Versions/Compare: the comparisons
--   Session       installer/session.py: rows and outcomes; Session/Effect: exceptions;
--                 Session/Engine: execute_plan, and the latch of installer/update.py;
--                 Session/Plan, Session/Plan/Build: build_plan, order_for_install, select_tools of
--                 installer/selection.py
--   Install       installer/engine.py: install_tool (Install/Loop, its parts in Install/Round), and
--                 needs_manual of installer/executors.py
--   Shellrc       installer/shellrc.py: the managed blocks and the files that hold them
--   Status        installer/version_status.py: tool_health, tool_state;
--                 Status/Refresh: VersionRefreshService, its calls as steps on a record
--   VersionCache  installer/version_cache.py, the entry parser of installer/manager_versions.py
--   Removal       installer/uninstall.py: plan_removal, plan_uninstall; Removal/Plan: removal_plan
--   Update        installer/update.py: update_refusal; Update/Script: a script's declared
--                 command; Update/Perform: perform_update (its ends in Update/Ends)
--   Sanitize      installer/sanitize.py: sanitize_log_line
--   Base          what the others share: tests, lists, sets and dictionaries, text, the stable sort
--
-- How the code is written down. A function keeps its name without the leading underscore. Variables
-- that a nested function closes over, and fields that a method changes, are a record that is passed
-- along (Collect, Blocking, Topo, State). An exception is a value: Fault in Deps, Exn in Session.
-- Sets are lists and dictionaries are association lists, both in the order of insertion. Texts are
-- read as ASCII; the regular expressions of installer/versions.py are scanners over code points. A
-- method's kind is one of the closed set that the loader admits. Functions that the code takes as
-- arguments (`available`, `is_installed`, `state_of`, the fields of RunContext, Host and Wording)
-- are arguments here too; those of RunContext and Host change a world of any type and may raise,
-- except should_continue, on_outcome and those of Host whose type says otherwise, which are taken
-- not to.
-- The other parts take as arguments: of VersionCache, the value that json reads from a file and
-- `fromisoformat`; of Status/Refresh, for each write whether it fails and with what; of Removal,
-- Disk (which receipts are there, whether they drifted, what is still linked) and Vendor (the shape
-- of a script's own uninstall command and the readers of the pnpm and host packages); of Update,
-- UpdateHost, whose runner, downloads, receipts and hooks change a world of any type and whose
-- `classes` names the classes of an error. A lock of the refresh service is the
-- step: a call that holds it is one step, and threads are the order of the steps.
--
-- Bounds. Ages of the version cache are in whole seconds on integers without a bound, as in Python.
-- The recursion of resolve_dependencies is on fuel, one more than the number of selected
-- and catalogued tools, and the loop of missing_requires on one more than the number of all
-- requirements; that this is enough is part of the theorems on them. All other functions recurse on
-- their data.
--
-- Not modelled: what execute_plan does after its loop (the sweep of hooks, the run options), a
-- single configuration step, the executors that the install ladder calls; of installer/shellrc.py
-- the inspection of source lines and of the directories on the PATH; how a refresh pass resolves a
-- tool and how many it fetches; the deletion that follows a removal plan; the warnings and the
-- errors that the outcome of an update carries, and UpdateService.run; the screens, and all reading
-- and writing of files, processes and the network. A version floor that is a list or a table is
-- spelled by its opening bracket, which no version starts with.
pub mod Base
pub mod Model
pub mod Deps
pub mod Versions
pub mod Platform
pub mod Resolve
pub mod Session
pub mod Install
pub mod Sanitize
pub mod Shellrc
pub mod Status
pub mod VersionCache
pub mod Removal
pub mod Update
