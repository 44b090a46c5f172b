-- ===== src/Status/Refresh/Tests.antt =====
-- A refresh over one tool, a removal of another, and a mutation while the pass runs.
use tools_installer.Base.{◌≡◌, ◌≤◌, refl, false, none, some, List, [], ◌∷◌, inl, contains, get, put}
use tools_installer.Session.{ok}
use tools_installer.Session.Plan.{ToolState}
use tools_installer.Status.Refresh.{
  Pass, initial, state_of, at_epoch, publish, published, fresh, is_fresh, is_newer, with_greedy,
  update_all, managers_of, write_or_queue, run_write, saved, joins, flight_for, same_set,
  with_flight, new_flight, start_flight, keys, commit_writes, mark_pending,
}
use tools_installer.Status.Refresh.Events.{
  System, Event, refreshes, publishes, marks, holds, invalidates, refreshed, apply, apply_all,
  Reach, starts, steps,
}
use tools_installer.Status.Refresh.Core.{core_of}
use tools_installer.Status.Refresh.Invariant.{Inv, Reach-Inv}
use tools_installer.Status.Refresh.Answers.{publish_answers}
use tools_installer.Status.Refresh.Fences.{invalidate_fences}
use tools_installer.Status.Refresh.Newest.{Succeeds, apply-Succeeds}
use tools_installer.Status.Refresh.Held.{commit_writes-Replays}

abbrev idle : System
idle = record { service = initial none; running = [] }

abbrev fd_runs : System
fd_runs = apply (refreshes ("fd" ∷ [])) idle

fd_runs-Reach : Reach fd_runs
fd_runs-Reach = steps (refreshes ("fd" ∷ [])) idle (starts none) tt

abbrev fd_ok : ToolState
fd_ok = record {
  tool_id = "fd";
  health = ok;
  reasons = [];
  ownership = record {
    tool_id = "fd";
    owner = "installer";
    method = none;
    «package» = none;
    confidence = "confirmed";
    unknown_reason = none;
    off_policy = false;
    shim_broken = false;
  };
  version = none;
  unconfigured = [];
  unwritable = [];
  generation = 0;
  seq = 1;
}

abbrev fd_pass : Pass
fd_pass = record {
  flight = record { key = "fd" ∷ []; epoch = 0; seq = 1 };
  resolved = ("fd", fd_ok) ∷ [];
  produced = [];
  report_greedy = none;
  persist_snapshot = false;
  snapshot = none;
}

second_refresh_joins : apply (refreshes ("fd" ∷ [])) fd_runs ≡ fd_runs
unfolding apply refreshed joins flight_for same_set contains initial start_flight with_flight
    new_flight
second_refresh_joins = refl

Reach-Inv_example : Inv (core_of fd_runs.service) fd_runs.running
Reach-Inv_example = Reach-Inv fd_runs fd_runs-Reach

publish_answers_example :
    (t : ToolState) × (state_of "fd" (publish (some "disk full") fd_pass fd_runs.service) ≡ some t)
    × (1 ≤ t.seq)
unfolding apply refreshed joins flight_for initial start_flight with_flight new_flight keys contains
publish_answers_example =
    publish_answers fd_runs (some "disk full") fd_pass "fd" fd_runs-Reach (inl refl)
      ((refl, refl), tt) refl refl refl

invalidate_fences_example :
    (state_of "fd" (apply (invalidates none) fd_runs).service ≡ none)
    × (apply
          (publishes none fd_pass)
          (apply_all (refreshes ("fd" ∷ []) ∷ []) (apply (invalidates none) fd_runs))
        ≡ apply_all (refreshes ("fd" ∷ []) ∷ []) (apply (invalidates none) fd_runs))
unfolding apply refreshed joins flight_for initial start_flight with_flight new_flight
invalidate_fences_example =
    invalidate_fences fd_runs none none fd_pass "fd" (refreshes ("fd" ∷ []) ∷ []) fd_runs-Reach
      (inl refl)

abbrev fd_shown : System
fd_shown = apply (publishes none fd_pass) fd_runs

apply-Succeeds_example : Succeeds "fd" fd_ok (apply (marks ("fd" ∷ [])) fd_shown).service
unfolding apply refreshed joins flight_for initial start_flight with_flight new_flight keys contains
    publish published fresh is_fresh is_newer get with_greedy update_all put write_or_queue
    run_write saved managers_of state_of at_epoch mark_pending
apply-Succeeds_example = apply-Succeeds (marks ("fd" ∷ [])) fd_shown "fd" fd_ok tt refl refl

abbrev a_day : List Event
a_day = publishes none fd_pass ∷ invalidates none ∷ refreshes ("fd" ∷ []) ∷ []

commit_writes-Replays_example :
    ((commit_writes [] (apply_all a_day (apply holds fd_runs)).service).0.file
      ≡ (apply_all a_day fd_runs).service.file)
    × (core_of (commit_writes [] (apply_all a_day (apply holds fd_runs)).service).0
        ≡ core_of (apply_all a_day fd_runs).service)
unfolding apply refreshed joins flight_for initial start_flight with_flight new_flight
commit_writes-Replays_example = commit_writes-Replays a_day fd_runs refl refl
