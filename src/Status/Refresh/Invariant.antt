-- ===== src/Status/Refresh/Invariant.antt =====
-- What holds of the service and its passes, whatever calls came before.
use tools_installer.Base.{
  ℕ, String, ◌≡◌, ◌≤◌, ◌<◌, refl, sym, ap, ◌∙◌, subst, arith, Bool, true, false, not, Option, none,
  some, List, [], ◌∷◌, inl, inr, eqb, filter, Bool-cases, All, All-map, contains, get, ◌==◌, eq_iff,
}
use tools_installer.Session.Plan.{ToolState}
use tools_installer.Status.Refresh.{
  Flight, Service, Pass, save_pass, clear_manager_snapshot, initial, hold_writes, commit_writes,
  union, mark_pending, record_evidence, bumped, invalidate, write_or_queue, same_set, flight_for,
  joins, new_flight, start_flight, end_flight, update_all, keys, is_fresh, fresh, with_greedy,
  managers_of, published, publish,
}
use tools_installer.Status.Refresh.Events.{
  System, Event, refreshes, publishes, ends, marks, records, invalidates, holds, commits, refreshed,
  apply, Runs, IsTagged, Allowed, Reach, starts, steps,
}
use tools_installer.Status.Refresh.Keys.{
  same_set-flight_for, flight_for-with_flight_self, flight_for-with_flight, flight_for-filter,
}
use tools_installer.Status.Refresh.Core.{
  Core, core_of, core_of-commit_writes, core_of-write_or_queue, core_of-with_greedy,
  core_of-record_evidence,
}
use tools_installer.Status.Refresh.Records.{
  All-filter, All-filter_test, Pairs, Pairs-filter, Values, Values-update_all, get-update_all,
  get-filter_out,
}

-- A published state comes from a pass that started before now, and is older than every running pass
-- of a later epoch.
abbrev pub IsPast : Core → List Flight → ToolState → Type 0
IsPast c running s =
    (s.generation ≤ c.epoch)
    × (s.seq ≤ c.seq)
    × All (λ (f : Flight). s.generation < f.epoch → s.seq < f.seq) running

-- A running flight started before now; one of the current epoch is the flight that its key finds.
abbrev pub IsFlight : Core → Flight → Type 0
IsFlight c f =
    (f.epoch ≤ c.epoch)
    × (f.seq ≤ c.seq)
    × (f.epoch ≡ c.epoch → flight_for f.key c.inflight ≡ some f)

-- Of two running flights the newer one has the higher number; at one epoch their tools differ.
abbrev pub IsNewer : Flight → Flight → Type 0
IsNewer f g =
    (g.seq < f.seq) × (g.epoch ≤ f.epoch) × (f.epoch ≡ g.epoch → same_set f.key g.key ≡ false)

abbrev pub Hides : Core → Type 0
Hides c = (id : String) → contains id c.pending_ids ≡ true → get id c.states ≡ none

abbrev pub Inv : Core → List Flight → Type 0
Inv c running =
    Values (IsPast c running) c.states × All (IsFlight c) running × Pairs IsNewer running × Hides c

-- A change outside the core keeps the invariant.
Inv-core_of :
    (s t : Service) (running : List Flight)
    → core_of t ≡ core_of s
    → Inv (core_of s) running
    → Inv (core_of t) running
Inv-core_of s t running h i = subst (λ (c : Core). Inv c running) (sym h) i

start-joins :
    (key : List String) (epoch : ℕ) (fs : List Flight) (f : Flight)
    → joins epoch (flight_for key fs) ≡ false
    → f.epoch ≡ epoch
    → flight_for f.key fs ≡ some f
    → same_set key f.key ≡ false
unfolding joins
start-joins key epoch fs f j e found = elim (Bool-cases (same_set key f.key)) [
  | inr fails ↦ fails
  | inl same ↦
      let there : flight_for key fs ≡ some f = same_set-flight_for key f.key fs same ∙ found in
      let joined : joins epoch (some f) ≡ false = ap (joins epoch) (sym there) ∙ j in
      ground (arith, joined, e)
]

start-Inv :
    (key : List String) (s : Service) (running : List Flight)
    → joins s.epoch (flight_for key s.inflight) ≡ false
    → Inv (core_of s) running
    → Inv (core_of (start_flight key s)) (new_flight key s ∷ running)
unfolding start_flight new_flight
start-Inv key s running j i =
    let new = new_flight key s in
    (
      All-map
          (λ (e : String × ToolState) h.
            (h.0, omega (arith, h.1), ((λ lt. omega (arith, h.1)), h.2)))
          s.states i.0,
      (
        (omega arith, omega arith, (λ _. flight_for-with_flight_self new s.inflight)),
        All-map
            (λ (f : Flight) h. (
              h.0,
              omega (arith, h.1),
              (λ e.
                  flight_for-with_flight f.key new s.inflight
                    (start-joins key s.epoch s.inflight f j e (h.2 e))
                  ∙ h.2 e),
            ))
            running i.1,
      ),
      (
        All-map
            (λ (f : Flight) h. (
              omega (arith, h.1),
              h.0,
              (λ e. start-joins key s.epoch s.inflight f j (sym e) (h.2 (sym e))),
            ))
            running i.1,
        i.2,
      ),
      i.3,
    )

end-Inv :
    (f : Flight) (s : Service) (running : List Flight)
    → Inv (core_of s) running
    → Inv (core_of (end_flight f s)) (filter (λ g. not (eqb g.seq f.seq)) running)
unfolding end_flight
end-Inv f s running i =
    let other = λ (g : Flight). not (eqb g.seq f.seq) in
    (
      All-map
          (λ (e : String × ToolState) h. (
            h.0,
            h.1,
            All-filter (λ (g : Flight). e.1.generation < g.epoch → e.1.seq < g.seq) other running
                h.2,
          ))
          s.states i.0,
      All-filter_test (IsFlight (core_of (end_flight f s))) other running (
          All-map {P = IsFlight (core_of s)}
            {Q = λ (g : Flight). other g ≡ true → IsFlight (core_of (end_flight f s)) g}
            (λ (g : Flight) h kept.
              (h.0, h.1, (λ e. flight_for-filter g.key g other s.inflight kept (h.2 e))))
            running i.1),
      Pairs-filter IsNewer other running i.2,
      i.3,
    )

contains-union :
    (id : String) (xs ys : List String) → contains id xs ≡ true → contains id (union xs ys) ≡ true
unfolding union contains
contains-union id xs [] h = h
contains-union id xs (y ∷ ys) h = ground (arith, contains-union id xs ys h)

pub hidden_key :
    (id key : String) (pending : List String)
    → (key == id) ≡ true
    → contains id pending ≡ true
    → not (contains key pending) ≡ false
hidden_key id key pending same h = ground (arith, eq_iff key id, same, h)

mark-Hides : (ids : List String) (s : Service) → Hides (core_of (mark_pending ids s))
unfolding mark_pending
mark-Hides ids s id h =
    let pending = union s.pending_ids ids in
    get-filter_out id (λ (e : String × ToolState). not (contains e.0 pending)) s.states
      (λ e same. hidden_key id e.0 pending same h)

mark-Inv :
    (ids : List String) (s : Service) (running : List Flight)
    → Inv (core_of s) running
    → Inv (core_of (mark_pending ids s)) running
unfolding mark_pending
mark-Inv ids s running i = (
  All-filter (λ (e : String × ToolState). IsPast (core_of s) running e.1)
      (λ (e : String × ToolState). not (contains e.0 (union s.pending_ids ids))) s.states i.0,
  i.1,
  i.2,
  mark-Hides ids s,
)

bump-Inv :
    (s : Service) (running : List Flight)
    → Inv (core_of s) running
    → Inv (core_of (bumped s)) running
unfolding bumped contains
bump-Inv s running i = (
  All-map (λ (e : String × ToolState) h. (omega (arith, h.0), h.1, h.2)) s.states i.0,
  All-map (λ (f : Flight) h. (omega (arith, h.0), h.1, (λ e. ground (arith, e, h.0)))) running i.1,
  i.2,
  λ id h. ground (arith, h),
)

-- What a pass may publish: tagged with its flight, and of no hidden id.
fresh-Values :
    (s : Service) (p : Pass) (running : List Flight)
    → s.epoch ≡ p.flight.epoch
    → p.flight.seq ≤ s.seq
    → All (IsFlight (core_of s)) running
    → IsTagged p
    → Values (IsPast (core_of s) running) (fresh s p)
unfolding fresh
fresh-Values s p running e q fs tags =
    All-filter (λ (x : String × ToolState). IsPast (core_of s) running x.1)
      (λ (x : String × ToolState). is_fresh s p.flight.seq x.0) p.resolved
      (All-map
        {P = λ (x : String × ToolState).
          (x.1.generation ≡ p.flight.epoch) × (x.1.seq ≡ p.flight.seq)}
        {Q = λ (x : String × ToolState). IsPast (core_of s) running x.1}
        (λ (x : String × ToolState) h. (
          omega (arith, h.0, e),
          omega (arith, h.1, q),
          All-map {P = IsFlight (core_of s)}
              {Q = λ (f : Flight). x.1.generation < f.epoch → x.1.seq < f.seq}
              (λ (f : Flight) k lt. omega (arith, h.0, e, k.0, lt)) running fs,
        ))
        p.resolved tags)

pub keys-filter :
    (id : String) (p : String × ToolState → Bool) (d : List (String × ToolState))
    → ((e : String × ToolState) → (e.0 == id) ≡ true → p e ≡ false)
    → contains id (keys (filter p d)) ≡ false
unfolding keys contains
keys-filter id p [] h = refl
keys-filter id p (e ∷ d) h = ground (arith, h e, keys-filter id p d h)

pub published-core_of :
    (fault : Option String) (p : Pass) (new : List (String × ToolState)) (s : Service)
    → core_of (published fault p new s) ≡ core_of (record s { states = update_all s.states new })
unfolding published update_all
published-core_of fault p [] s = refl
published-core_of fault p (e ∷ new) s =
    core_of-write_or_queue fault
      (save_pass (filter (λ x. contains x.0 (keys (e ∷ new))) p.produced) (managers_of p))
      (record s { states = update_all s.states (e ∷ new) })

publish-Hides :
    (s : Service) (p : Pass)
    → Hides (core_of s)
    → (id : String) → contains id s.pending_ids ≡ true
    → get id (update_all s.states (fresh s p)) ≡ none
unfolding fresh is_fresh
publish-Hides s p h id hidden =
    get-update_all id s.states (fresh s p) (
      keys-filter id (λ (x : String × ToolState). is_fresh s p.flight.seq x.0) p.resolved
        (λ x same. ground (arith, hidden_key id x.0 s.pending_ids same hidden)))
    ∙ h id hidden

with_states-Inv :
    (s : Service) (p : Pass) (running : List Flight)
    → s.epoch ≡ p.flight.epoch
    → p.flight.seq ≤ s.seq
    → IsTagged p
    → Inv (core_of s) running
    → Inv (core_of (record s { states = update_all s.states (fresh s p) })) running
with_states-Inv s p running e q tags i = (
  Values-update_all (IsPast (core_of s) running) s.states (fresh s p) i.0
      (fresh-Values s p running e q i.1 tags),
  i.1,
  i.2,
  publish-Hides s p i.3,
)

pub Runs-All :
    (P : Flight → Type 0) (f : Flight) (running : List Flight)
    → Runs f running
    → All P running
    → P f
Runs-All P f [] r h = ground (arith, r)
Runs-All P f (g ∷ rest) (inl same) h = subst P (sym same) h.0
Runs-All P f (g ∷ rest) (inr later) h = Runs-All P f rest later h.1

publish-Inv :
    (fault : Option String) (s : Service) (p : Pass) (running : List Flight)
    → Runs p.flight running
    → IsTagged p
    → Inv (core_of s) running
    → Inv (core_of (publish fault p s)) running
unfolding publish
publish-Inv fault s p running r tags i = elim (Bool-cases (eqb s.epoch p.flight.epoch)) [
  | inr raced ↦ rw raced i
  | inl now ↦
      let g = with_greedy p.report_greedy s in
      let k : core_of g ≡ core_of s = core_of-with_greedy p.report_greedy s in
      rw now (
        Inv-core_of (record s { states = update_all s.states (fresh s p) })
          (published fault p (fresh s p) g) running
          (published-core_of fault p (fresh s p) g
            ∙ ap (λ (c : Core). record c { states = update_all c.states (fresh s p) }) k)
          (with_states-Inv s p running (ground (arith, now))
            (Runs-All (IsFlight (core_of s)) p.flight running r i.1).1 tags i))
]

apply-Inv :
    (e : Event) (y : System)
    → Inv (core_of y.service) y.running
    → Allowed e y
    → Inv (core_of (apply e y).service) (apply e y).running
unfolding apply refreshed hold_writes invalidate
apply-Inv (refreshes key) y i a =
    elim (Bool-cases (joins y.service.epoch (flight_for key y.service.inflight))) [
      | inl joined ↦ rw joined i
      | inr new ↦ rw new (start-Inv key y.service y.running new i)
    ]
apply-Inv (publishes fault p) y i a = publish-Inv fault y.service p y.running a.0 a.1 i
apply-Inv (ends f) y i a = end-Inv f y.service y.running i
apply-Inv (marks ids) y i a = mark-Inv ids y.service y.running i
apply-Inv (records id epoch broken notes) y i a =
    Inv-core_of y.service (record_evidence id epoch broken notes y.service).0 y.running
      (core_of-record_evidence id epoch broken notes y.service) i
apply-Inv (invalidates fault) y i a =
    Inv-core_of (bumped y.service)
      (write_or_queue fault clear_manager_snapshot (bumped y.service)).0 y.running
      (core_of-write_or_queue fault clear_manager_snapshot (bumped y.service))
      (bump-Inv y.service y.running i)
apply-Inv holds y i a = i
apply-Inv (commits faults) y i a =
    Inv-core_of y.service (commit_writes faults y.service).0 y.running
      (core_of-commit_writes faults y.service) i

-- Whatever calls came before: every published state is tagged with an epoch and a number that the
-- service has reached, and with a lower number than every running pass of a later epoch; every
-- running pass has an epoch and a number that the service has reached, and if its epoch is the
-- current one, it is the flight that a refresh over the same tools finds; of two running passes the
-- later one has the higher number and no lower epoch, and if they are of one epoch, they are over
-- different sets of tools; and no id that is marked as pending has a state.
pub Reach-Inv : (y : System) → Reach y → Inv (core_of y.service) y.running
unfolding initial contains get
Reach-Inv y (starts file) = (tt, tt, tt, (λ id h. refl))
Reach-Inv y (steps e z r a) = apply-Inv e z (Reach-Inv z r) a
