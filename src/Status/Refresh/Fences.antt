-- ===== src/Status/Refresh/Fences.antt =====
-- A mutation silences every pass that started before it, for all that comes after.
use tools_installer.Base.{
  suc, String, ◌≡◌, ◌≤◌, refl, ap, ◌∙◌, arith, Option, none, List, [], ◌∷◌, inl, inr, Bool-cases,
  eqb, get,
}
use tools_installer.Status.Refresh.{
  Service, Pass, bumped, invalidate, state_of, flight_for, joins, mark_pending, record_evidence,
  start_flight, end_flight, hold_writes, commit_writes, publish,
}
use tools_installer.Status.Refresh.Events.{
  System, Event, refreshes, publishes, ends, marks, records, invalidates, holds, commits, refreshed,
  apply, apply_all, Runs, Reach,
}
use tools_installer.Status.Refresh.Core.{
  Core, core_of, core_of-commit_writes, core_of-record_evidence,
}
use tools_installer.Status.Refresh.Records.{get-OnValue}
use tools_installer.Status.Refresh.Answers.{
  state_in, state_of-core_of, other_epoch, publish-core_of, none_at, invalidate-core_of,
  invalidate-epoch,
}
use tools_installer.Status.Refresh.Invariant.{IsPast, IsFlight, Reach-Inv, Runs-All}

epoch-core_of : (s t : Service) → core_of t ≡ core_of s → s.epoch ≤ t.epoch
epoch-core_of s t h = omega (arith, ap (λ (c : Core). c.epoch) h)

publish-epoch :
    (fault : Option String) (p : Pass) (s : Service) → s.epoch ≤ (publish fault p s).epoch
unfolding publish
publish-epoch fault p s = elim (Bool-cases (eqb s.epoch p.flight.epoch)) [
  | inl now ↦
      let e : p.flight.epoch ≡ s.epoch = ground (arith, now) in
      omega (arith, ap (λ (c : Core). c.epoch) (publish-core_of fault p s e))
  | inr raced ↦ rw raced (omega arith)
]

-- No call takes the epoch back.
apply-epoch : (e : Event) (y : System) → y.service.epoch ≤ (apply e y).service.epoch
unfolding apply refreshed hold_writes start_flight end_flight mark_pending
apply-epoch (refreshes key) y =
    elim (Bool-cases (joins y.service.epoch (flight_for key y.service.inflight))) [
      | inl joined ↦ rw joined (omega arith)
      | inr new ↦ rw new (omega arith)
    ]
apply-epoch (publishes fault p) y = publish-epoch fault p y.service
apply-epoch (ends f) y = omega arith
apply-epoch (marks ids) y = omega arith
apply-epoch (records id epoch broken notes) y =
    epoch-core_of y.service (record_evidence id epoch broken notes y.service).0
      (core_of-record_evidence id epoch broken notes y.service)
apply-epoch (invalidates fault) y = omega (arith, invalidate-epoch fault y.service)
apply-epoch holds y = omega arith
apply-epoch (commits faults) y =
    epoch-core_of y.service (commit_writes faults y.service).0
      (core_of-commit_writes faults y.service)

apply_all-epoch : (es : List Event) (y : System) → y.service.epoch ≤ (apply_all es y).service.epoch
unfolding apply_all
apply_all-epoch [] y = omega arith
apply_all-epoch (e ∷ es) y = omega (arith, apply-epoch e y, apply_all-epoch es (apply e y))

-- After any calls, `invalidate`, whether its write fails or not, leaves no tool with an answer, and
-- no pass that was running then publishes anything, whatever calls come in between.
pub invalidate_fences :
    (y : System) (fault later : Option String) (p : Pass) (id : String) (es : List Event)
    → Reach y
    → Runs p.flight y.running
    → (state_of id (apply (invalidates fault) y).service ≡ none)
      × (apply (publishes later p) (apply_all es (apply (invalidates fault) y))
          ≡ apply_all es (apply (invalidates fault) y))
unfolding apply publish bumped
invalidate_fences y fault later p id es reach r =
    let s = y.service in
    let i = Reach-Inv y reach in
    let past = (Runs-All (IsFlight (core_of s)) p.flight y.running r i.1).0 in
    let z = apply_all es (apply (invalidates fault) y) in
    (
      state_of-core_of id (invalidate fault s).0
          ∙ ap (state_in id) (invalidate-core_of fault s)
          ∙ none_at (suc s.epoch) (core_of s) y.running (get id s.states)
              (get-OnValue (IsPast (core_of s) y.running) id s.states i.0) (omega arith),
      rw
          (other_epoch z.service.epoch p.flight.epoch (
            omega (
              arith,
              past,
              invalidate-epoch fault s,
              apply_all-epoch es (apply (invalidates fault) y),
            )))
          refl,
    )
