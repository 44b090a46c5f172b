-- ===== src/Status/Refresh/Events.antt =====
-- The refresh service and the passes that run beside it: every call of a method, at any time.
use tools_installer.Base.{
  ℕ, String, ◌≡◌, Bool, true, false, not, Option, List, [], ◌∷◌, ◌⊎◌, eqb, filter, if◌then◌else◌,
  All,
}
use tools_installer.Session.Plan.{ToolState}
use tools_installer.VersionCache.{Json}
use tools_installer.Status.Refresh.{
  Flight, Service, Pass, initial, hold_writes, commit_writes, mark_pending, record_evidence,
  invalidate, flight_for, joins, new_flight, start_flight, end_flight, publish,
}

-- The service, and the flights whose passes run.
pub record System : Type 0 where
  pub service : Service
  pub running : List Flight

pub data Event : Type 0 where
  refreshes : List String → Event
  publishes : Option String → Pass → Event
  ends : Flight → Event
  marks : List String → Event
  records : String → ℕ → List String → List String → Event
  invalidates : Option String → Event
  holds : Event
  commits : List (Option String) → Event

-- A refresh joins the flight over the same tools at the current epoch, or starts one.
unfoldable pub refreshed : List String → System → System
unfolding joins flight_for new_flight start_flight
refreshed key y = if joins y.service.epoch (flight_for key y.service.inflight) then y else record {
  service = start_flight key y.service;
  running = new_flight key y.service ∷ y.running;
}

unfoldable pub apply : Event → System → System
unfolding refreshed publish end_flight mark_pending record_evidence invalidate hold_writes
    commit_writes
apply (refreshes key) y = refreshed key y
apply (publishes fault p) y = record y { service = publish fault p y.service }
apply (ends flight) y = record {
  service = end_flight flight y.service;
  running = filter (λ f. not (eqb f.seq flight.seq)) y.running;
}
apply (marks ids) y = record y { service = mark_pending ids y.service }
apply (records id epoch broken notes) y = record y {
  service = (record_evidence id epoch broken notes y.service).0;
}
apply (invalidates fault) y = record y { service = (invalidate fault y.service).0 }
apply holds y = record y { service = hold_writes y.service }
apply (commits faults) y = record y { service = (commit_writes faults y.service).0 }

unfoldable pub apply_all : List Event → System → System
unfolding apply
apply_all [] y = y
apply_all (e ∷ es) y = apply_all es (apply e y)

abbrev pub Runs : Flight → List Flight → Type 0
Runs f [] = ◌≡◌ {A = Bool} true false
Runs f (g ∷ rest) = (f ≡ g) ⊎ Runs f rest

-- A pass tags the states that it resolves with its flight's epoch and number.
abbrev pub IsTagged : Pass → Type 0
IsTagged p =
    All (λ (e : String × ToolState). (e.1.generation ≡ p.flight.epoch) × (e.1.seq ≡ p.flight.seq))
      p.resolved

-- Only a pass that runs publishes; the other calls may come at any time.
abbrev pub Allowed : Event → System → Type 0
Allowed (publishes fault p) y = Runs p.flight y.running × IsTagged p
Allowed _ y = Unit

pub data Reach : System → Type 0 where
  starts : (file : Option Json) → Reach (record { service = initial file; running = [] })
  steps : (e : Event) (y : System) → Reach y → Allowed e y → Reach (apply e y)
