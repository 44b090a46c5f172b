-- ===== src/Status/Refresh.antt =====
-- installer/version_status.py, `VersionRefreshService`: what its methods do with its state, each a
-- step under the lock. `file` is the version cache on disk. A fault is the text of the OSError that
-- a write raises, where it raises one.
pub mod Events
mod Keys
mod Core
mod Records
mod Invariant
mod Answers
mod Newest
mod Fences
mod Held
mod Tests
use tools_installer.Base.{
  ℕ, suc, String, Bool, true, false, not, ◌&&◌, ◌||◌, Option, none, some, List, [], ◌∷◌, ◌++◌, ◌==◌,
  eqb, ltb, all, any, map, filter, if◌then◌else◌, contains, get, put, concat,
}
use tools_installer.Model.{Tool}
use tools_installer.Session.{Health, checking}
use tools_installer.Session.Plan.{ToolState, is_present}
use tools_installer.VersionCache.{Json, Members, end, VersionCacheEntry, ManagerSnapshot}
use tools_installer.VersionCache.Codec.{load_version_cache, save_version_cache}
use tools_installer.VersionCache.Snapshot.{encoded}

-- One in-flight refresh: the set of tool ids, the epoch and the sequence number.
pub record Flight : Type 0 where
  pub key : List String
  pub epoch : ℕ
  pub seq : ℕ

-- The writes that may be held: the cleared snapshot, a pass's save, and a change to a receipt with
-- the message that it gives.
pub data Write : Type 0 where
  clear_manager_snapshot : Write
  save_pass : List (String × VersionCacheEntry) → Option Members → Write
  receipt_write : Option String → Write

pub record Service : Type 0 where
  pub states : List (String × ToolState)
  pub pending_ids : List String
  pub evidence : List (String × (List String × List String))
  pub managers_invalid : Bool
  pub greedy : List String
  pub epoch : ℕ
  pub seq : ℕ
  pub inflight : List Flight
  pub writes_held : Bool
  pub pending_writes : List Write
  pub warning : Option String
  pub file : Option Json

-- `__init__`
unfoldable pub initial : Option Json → Service
initial file = record {
  states = [];
  pending_ids = [];
  evidence = [];
  managers_invalid = false;
  greedy = [];
  epoch = 0;
  seq = 0;
  inflight = [];
  writes_held = false;
  pending_writes = [];
  warning = none;
  file = file;
}

unfoldable pub hold_writes : Service → Service
hold_writes s = record s { writes_held = true; pending_writes = [] }

-- `dict.update`
unfoldable pub update_all {ℓ} :
    {V : Type ℓ} → List (String × V) → List (String × V) → List (String × V)
unfolding put
update_all d [] = d
update_all d ((key, value) ∷ rest) = update_all (put key value d) rest

unfoldable pub not_saved : String → String
unfolding concat
not_saved fault = concat ("version cache not saved: " ∷ fault ∷ [])

-- `save_pass`, which reports an OSError and goes on
unfoldable pub saved :
    Option String → List (String × VersionCacheEntry) → Option Members → Service → Service
unfolding not_saved load_version_cache save_version_cache update_all
saved (some fault) produced managers s = record s { warning = some (not_saved fault) }
saved none produced managers s = record s {
  file = save_version_cache (update_all (load_version_cache s.file) produced) managers s.file;
  managers_invalid = elim managers [ none ↦ s.managers_invalid | some _ ↦ false ];
  warning = none;
}

-- `clear_manager_snapshot`
unfoldable pub cleared : Service → Service
unfolding load_version_cache save_version_cache
cleared s = record s { file = save_version_cache (load_version_cache s.file) (some end) s.file }

-- What a call gives back, or the OSError that it raises.
pub data Attempt (A : Type 0) : Type 0 where
  done : A → Attempt A
  failed : String → Attempt A

unfoldable pub run_write : Option String → Write → Service → Service × Attempt (Option String)
unfolding saved cleared
run_write fault (save_pass produced managers) s = (saved fault produced managers s, done none)
run_write none clear_manager_snapshot s = (cleared s, done none)
run_write none (receipt_write message) s = (s, done message)
run_write (some fault) clear_manager_snapshot s = (s, failed fault)
run_write (some fault) (receipt_write message) s = (s, failed fault)

-- `except OSError` in `commit_writes`
unfoldable pub caught : Service × Attempt (Option String) → Service × Option String
unfolding not_saved
caught (s, done message) = (s, message)
caught (s, failed fault) = (record s { warning = some (not_saved fault) }, none)

unfoldable pub first_fault : List (Option String) → Option String
first_fault [] = none
first_fault (fault ∷ faults) = fault

unfoldable pub rest_faults : List (Option String) → List (Option String)
rest_faults [] = []
rest_faults (fault ∷ faults) = faults

unfoldable pub with_failure : Option String → Service × List String → Service × List String
with_failure none r = r
with_failure (some message) r = (r.0, message ∷ r.1)

-- `for write in pending`, with the fault of each
unfoldable pub run_writes : List (Option String) → List Write → Service → Service × List String
unfolding run_write caught first_fault rest_faults with_failure
run_writes faults [] s = (s, [])
run_writes faults (write ∷ writes) s =
    let ran = caught (run_write (first_fault faults) write s) in
    with_failure ran.1 (run_writes (rest_faults faults) writes ran.0)

unfoldable pub commit_writes : List (Option String) → Service → Service × List String
unfolding run_writes
commit_writes faults s =
    run_writes faults s.pending_writes (record s { pending_writes = []; writes_held = false })

unfoldable pub write_or_queue : Option String → Write → Service → Service × Attempt (Option String)
unfolding run_write
write_or_queue fault write s =
    if s.writes_held
    then (record s { pending_writes = s.pending_writes ++ write ∷ [] }, done none)
    else run_write fault write s

-- A state of the current epoch
unfoldable pub at_epoch : ℕ → Option ToolState → Option ToolState
at_epoch epoch none = none
at_epoch epoch (some state) = if eqb state.generation epoch then some state else none

unfoldable pub state_of : String → Service → Option ToolState
unfolding at_epoch get
state_of tool_id s = at_epoch s.epoch (get tool_id s.states)

unfoldable pub is_checking : Health → Bool
is_checking checking = true
is_checking _ = false

unfoldable pub known_or : Bool → Option ToolState → Bool
unfolding is_checking is_present
known_or default none = default
known_or default (some state) =
    if is_checking state.health then default else is_present state.health

-- `is_present`, with the probe
unfoldable pub tool_present : (Tool → Bool) → Tool → Service → Bool
unfolding known_or state_of
tool_present present tool s = known_or (present tool) (state_of tool.id s)

unfoldable pub launch_value : Option Bool → Bool
launch_value none = false
launch_value (some b) = b

unfoldable pub installed_or : List (String × Bool) → String → Service → Bool
unfolding known_or state_of get launch_value
installed_or launch tool_id s = known_or (launch_value (get tool_id launch)) (state_of tool_id s)

-- `set | set`
unfoldable pub union : List String → List String → List String
unfolding contains
union xs [] = xs
union xs (y ∷ ys) = let rest = union xs ys in if contains y rest then rest else y ∷ rest

unfoldable pub mark_pending : List String → Service → Service
unfolding union contains
mark_pending tool_ids s =
    let pending = union s.pending_ids tool_ids in
    record s {
      pending_ids = pending;
      states = filter (λ entry. not (contains entry.0 pending)) s.states;
    }

-- `del d[key]`
unfoldable pub delete {ℓ} : {V : Type ℓ} → String → List (String × V) → List (String × V)
delete key = filter (λ entry. not (entry.0 == key))

unfoldable pub same_list : List String → List String → Bool
same_list [] [] = true
same_list (x ∷ xs) (y ∷ ys) = x == y && same_list xs ys
same_list _ _ = false

-- `self._evidence.get(tool_id) == (broken, notes) if broken or notes else None`
unfoldable pub same_evidence : Option (List String × List String) → List String → List String → Bool
unfolding same_list
same_evidence none broken notes = same_list broken [] && same_list notes []
same_evidence (some found) broken notes =
    not (same_list broken [] && same_list notes [])
    && same_list found.0 broken
    && same_list found.1 notes

unfoldable pub with_evidence : String → List String → List String → Service → Service
unfolding delete put same_list
with_evidence tool_id broken notes s = record s {
  evidence =
      if same_list broken [] && same_list notes []
      then delete tool_id s.evidence
      else put tool_id (broken, notes) s.evidence;
}

unfoldable pub record_evidence : String → ℕ → List String → List String → Service → Service × Bool
unfolding same_evidence with_evidence get
record_evidence tool_id epoch broken notes s =
    if not (eqb epoch s.epoch)
    then (s, false)
    else if same_evidence (get tool_id s.evidence) broken notes
    then (s, false)
    else (with_evidence tool_id broken notes s, true)

unfoldable pub bumped : Service → Service
bumped s = record s {
  epoch = suc s.epoch;
  pending_ids = [];
  evidence = [];
  managers_invalid = true;
}

-- The epoch that it returns is the one of the state.
unfoldable pub invalidate : Option String → Service → Service × Attempt (Option String)
unfolding bumped write_or_queue
invalidate fault s = write_or_queue fault clear_manager_snapshot (bumped s)

-- Equality of two `frozenset`s
unfoldable pub same_set : List String → List String → Bool
unfolding contains
same_set xs ys = all (λ x. contains x ys) xs && all (λ y. contains y xs) ys

-- `self._inflight.get(key)`
unfoldable pub flight_for : List String → List Flight → Option Flight
unfolding same_set
flight_for key [] = none
flight_for key (f ∷ rest) =
    let found = flight_for key rest in if same_set f.key key then some f else found

-- `self._inflight[key] = flight`
unfoldable pub with_flight : Flight → List Flight → List Flight
unfolding same_set
with_flight flight [] = flight ∷ []
with_flight flight (f ∷ rest) =
    let others = with_flight flight rest in
    if same_set f.key flight.key then flight ∷ rest else f ∷ others

-- Whether a refresh joins the flight that is there.
unfoldable pub joins : ℕ → Option Flight → Bool
joins epoch none = false
joins epoch (some flight) = eqb flight.epoch epoch

unfoldable pub new_flight : List String → Service → Flight
new_flight key s = record { key = key; epoch = s.epoch; seq = suc s.seq }

-- The first half of `refresh`, for one that does not join.
unfoldable pub start_flight : List String → Service → Service
unfolding with_flight new_flight
start_flight key s = record s {
  seq = suc s.seq;
  inflight = with_flight (new_flight key s) s.inflight;
}

-- `finally`: the entry goes if it is this flight.
unfoldable pub end_flight : Flight → Service → Service
unfolding same_set
end_flight flight s = record s { inflight = filter (λ f. not (eqb f.seq flight.seq)) s.inflight }

-- What a pass has resolved when it comes to publish.
pub record Pass : Type 0 where
  pub flight : Flight
  pub resolved : List (String × ToolState)
  pub produced : List (String × VersionCacheEntry)
  pub report_greedy : Option (List String)
  pub persist_snapshot : Bool
  pub snapshot : Option ManagerSnapshot

unfoldable pub is_newer : ℕ → Option ToolState → Bool
is_newer seq none = true
is_newer seq (some current) = ltb current.seq seq

unfoldable pub is_fresh : Service → ℕ → String → Bool
unfolding is_newer contains get
is_fresh s seq tool_id = not (contains tool_id s.pending_ids) && is_newer seq (get tool_id s.states)

unfoldable pub fresh : Service → Pass → List (String × ToolState)
unfolding is_fresh
fresh s p = filter (λ entry. is_fresh s p.flight.seq entry.0) p.resolved

unfoldable pub keys {ℓ} : {V : Type ℓ} → List (String × V) → List String
keys d = map (λ entry. entry.0) d

unfoldable pub with_greedy : Option (List String) → Service → Service
with_greedy none s = s
with_greedy (some greedy) s = record s { greedy = greedy }

unfoldable pub managers_of : Pass → Option Members
unfolding encoded
managers_of p = if p.persist_snapshot then some (encoded p.snapshot) else none

unfoldable pub published : Option String → Pass → List (String × ToolState) → Service → Service
unfolding update_all contains keys managers_of write_or_queue
published fault p [] s = s
published fault p (entry ∷ rest) s =
    (write_or_queue fault
      (save_pass (filter (λ e. contains e.0 (keys (entry ∷ rest))) p.produced) (managers_of p))
      (record s { states = update_all s.states (entry ∷ rest) })).0

-- The end of `_pass`, from the lock on.
unfoldable pub publish : Option String → Pass → Service → Service
unfolding published fresh with_greedy
publish fault p s =
    if eqb s.epoch p.flight.epoch
    then published fault p (fresh s p) (with_greedy p.report_greedy s)
    else s
