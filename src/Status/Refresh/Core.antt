-- ===== src/Status/Refresh/Core.antt =====
-- What a write changes and what it leaves: the file, the warning, the flag and the queue are outside
-- the core of the state.
use tools_installer.Base.{
  ℕ, String, ◌≡◌, refl, ◌∙◌, Bool, true, false, Option, none, some, List, [], ◌∷◌, ◌++◌,
  if◌then◌else◌, not, eqb, get,
}
use tools_installer.Session.Plan.{ToolState}
use tools_installer.Status.Refresh.{
  Flight, Write, clear_manager_snapshot, save_pass, receipt_write, Service, Attempt, done, failed,
  saved, cleared, run_write, caught, with_failure, run_writes, first_fault, rest_faults,
  commit_writes, write_or_queue, with_greedy, record_evidence, same_evidence, with_evidence,
}

pub record Core : Type 0 where
  pub states : List (String × ToolState)
  pub pending_ids : List String
  pub epoch : ℕ
  pub seq : ℕ
  pub inflight : List Flight

abbrev pub core_of : Service → Core
core_of s = record {
  states = s.states;
  pending_ids = s.pending_ids;
  epoch = s.epoch;
  seq = s.seq;
  inflight = s.inflight;
}

pub core_of-run_write :
    (fault : Option String) (w : Write) (s : Service) → core_of (run_write fault w s).0 ≡ core_of s
unfolding run_write saved cleared
core_of-run_write none (save_pass produced managers) s = refl
core_of-run_write (some fault) (save_pass produced managers) s = refl
core_of-run_write none clear_manager_snapshot s = refl
core_of-run_write none (receipt_write message) s = refl
core_of-run_write (some fault) clear_manager_snapshot s = refl
core_of-run_write (some fault) (receipt_write message) s = refl

core_of-caught : (r : Service × Attempt (Option String)) → core_of (caught r).0 ≡ core_of r.0
unfolding caught
core_of-caught (s, done message) = refl
core_of-caught (s, failed fault) = refl

core_of-with_failure :
    (message : Option String) (r : Service × List String)
    → core_of (with_failure message r).0 ≡ core_of r.0
unfolding with_failure
core_of-with_failure none r = refl
core_of-with_failure (some message) r = refl

core_of-run_writes :
    (faults : List (Option String)) (ws : List Write) (s : Service)
    → core_of (run_writes faults ws s).0 ≡ core_of s
unfolding run_writes
core_of-run_writes faults [] s = refl
core_of-run_writes faults (w ∷ ws) s =
    let ran = caught (run_write (first_fault faults) w s) in
    core_of-with_failure ran.1 (run_writes (rest_faults faults) ws ran.0)
    ∙ core_of-run_writes (rest_faults faults) ws ran.0
    ∙ core_of-caught (run_write (first_fault faults) w s)
    ∙ core_of-run_write (first_fault faults) w s

pub core_of-commit_writes :
    (faults : List (Option String)) (s : Service) → core_of (commit_writes faults s).0 ≡ core_of s
unfolding commit_writes
core_of-commit_writes faults s =
    core_of-run_writes faults s.pending_writes
      (record s { pending_writes = []; writes_held = false })

pub core_of-if :
    {B : Type 0} (b : Bool) (x y : Service × B) (s : Service)
    → core_of x.0 ≡ core_of s
    → core_of y.0 ≡ core_of s
    → core_of (if b then x else y).0 ≡ core_of s
core_of-if true x y s h k = h
core_of-if false x y s h k = k

pub core_of-write_or_queue :
    (fault : Option String) (w : Write) (s : Service)
    → core_of (write_or_queue fault w s).0 ≡ core_of s
unfolding write_or_queue
core_of-write_or_queue fault w s =
    core_of-if s.writes_held (record s { pending_writes = s.pending_writes ++ w ∷ [] }, done none)
      (run_write fault w s) s refl (core_of-run_write fault w s)

pub core_of-with_greedy :
    (greedy : Option (List String)) (s : Service) → core_of (with_greedy greedy s) ≡ core_of s
unfolding with_greedy
core_of-with_greedy none s = refl
core_of-with_greedy (some greedy) s = refl

pub core_of-record_evidence :
    (id : String) (epoch : ℕ) (broken notes : List String) (s : Service)
    → core_of (record_evidence id epoch broken notes s).0 ≡ core_of s
unfolding record_evidence with_evidence
core_of-record_evidence id epoch broken notes s =
    core_of-if (not (eqb epoch s.epoch)) (s, false)
      (if same_evidence (get id s.evidence) broken notes
        then (s, false)
        else (with_evidence id broken notes s, true))
      s refl
      (core_of-if (same_evidence (get id s.evidence) broken notes) (s, false)
        (with_evidence id broken notes s, true) s refl refl)
