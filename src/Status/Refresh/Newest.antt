-- ===== src/Status/Refresh/Newest.antt =====
-- Between two mutations an answer is only ever replaced by that of a newer pass, and only a removal
-- hides it.
use tools_installer.Base.{
  ℕ, String, ◌≡◌, ◌<◌, refl, sym, ap, ◌∙◌, arith, Bool, true, false, not, Option, none, some, List,
  ◌⊎◌, inl, inr, eqb, Bool-cases, contains, get,
}
use tools_installer.Session.Plan.{ToolState}
use tools_installer.Status.Refresh.{
  Service, Pass, union, mark_pending, at_epoch, state_of, start_flight, end_flight, flight_for,
  joins, hold_writes, commit_writes, record_evidence, update_all, keys, is_newer, is_fresh, fresh,
  publish,
}
use tools_installer.Status.Refresh.Events.{
  System, Event, refreshes, publishes, ends, marks, records, invalidates, holds, commits, refreshed,
  apply, IsTagged, Allowed,
}
use tools_installer.Status.Refresh.Core.{core_of, core_of-commit_writes, core_of-record_evidence}
use tools_installer.Status.Refresh.Records.{
  All-filter, get-update_all, get-update_all_in, get-filter_out, get-filter_kept, absurd_key,
}
use tools_installer.Status.Refresh.Answers.{
  state_in, state_of-core_of, publish-core_of, key-eq, invalidate-epoch, at_epoch_current,
}
use tools_installer.Status.Refresh.Invariant.{hidden_key, keys-filter}

-- What an answer may turn into: nothing, where the tool is hidden; itself; or that of a newer pass.
abbrev pub Succeeds : String → ToolState → Service → Type 0
Succeeds id a t =
    ((state_of id t ≡ none) × (contains id t.pending_ids ≡ true))
    ⊎ (state_of id t ≡ some a)
    ⊎ ((b : ToolState) × (state_of id t ≡ some b) × (a.seq < b.seq))

core_of-Succeeds :
    (id : String) (a : ToolState) (s t : Service)
    → state_of id s ≡ some a
    → core_of t ≡ core_of s
    → Succeeds id a t
core_of-Succeeds id a s t h k =
    inr (inl (state_of-core_of id t ∙ ap (state_in id) k ∙ sym (state_of-core_of id s) ∙ h))

has : Option ToolState → Bool
has none = false
has (some t) = true

value_generation : Option ToolState → ℕ
value_generation none = 0
value_generation (some t) = t.generation

-- The answer is the published state, and of the current epoch.
at_epoch-some :
    (epoch : ℕ) (o : Option ToolState) (a : ToolState)
    → at_epoch epoch o ≡ some a
    → (o ≡ some a) × (a.generation ≡ epoch)
unfolding at_epoch has value_generation
at_epoch-some epoch none a h = absurd_key (ap has h)
at_epoch-some epoch (some t) a h = elim (Bool-cases (eqb t.generation epoch)) [
  | inl now ↦
      let shown : at_epoch epoch (some t) ≡ some t = rw now refl in
      let same : some t ≡ some a = sym shown ∙ h in
      (same, sym (ap value_generation same) ∙ ground (arith, now))
  | inr fails ↦
      let gone : at_epoch epoch (some t) ≡ none = rw fails refl in
      absurd_key (ap has (sym gone ∙ h))
]

-- The answer itself, or that of a newer pass
IsLater : ℕ → ToolState → ToolState → Type 0
IsLater epoch a b = (b.generation ≡ epoch) × ((b ≡ a) ⊎ (a.seq < b.seq))

newer-seq :
    (s : Service) (p : Pass) (id : String) (a : ToolState)
    → get id s.states ≡ some a
    → is_fresh s p.flight.seq id ≡ true
    → a.seq < p.flight.seq
unfolding is_fresh is_newer
newer-seq s p id a h f =
    let test : is_newer p.flight.seq (some a) ≡ true =
      ap (is_newer p.flight.seq) (sym h) ∙ ground (arith, f) in
    ground (arith, test)

merged-IsLater :
    (s : Service) (p : Pass) (id : String) (a : ToolState)
    → IsTagged p
    → p.flight.epoch ≡ s.epoch
    → get id s.states ≡ some a
    → a.generation ≡ s.epoch
    → (b : ToolState) × (get id (update_all s.states (fresh s p)) ≡ some b) × IsLater s.epoch a b
unfolding fresh IsLater
merged-IsLater s p id a tags e h g =
    let test = λ (x : String × ToolState). is_fresh s p.flight.seq x.0 in
    let Tagged = λ (t : ToolState). (t.generation ≡ p.flight.epoch) × (t.seq ≡ p.flight.seq) in
    elim (Bool-cases (contains id (keys (fresh s p)))) [
      | inr out ↦ (a, get-update_all id s.states (fresh s p) out ∙ h, (g, inl refl))
      | inl within ↦ elim (Bool-cases (is_fresh s p.flight.seq id)) [
        | inr old ↦ absurd_key (
            sym (
              keys-filter id test p.resolved
                (λ x same. ap (is_fresh s p.flight.seq) (key-eq x.0 id same) ∙ old))
            ∙ within)
        | inl new ↦
            let found =
              get-update_all_in Tagged id s.states (fresh s p) within
                (All-filter (λ (x : String × ToolState). Tagged x.1) test p.resolved tags) in
            (
              found.0,
              found.1,
              (found.2.0 ∙ e, inr (omega (arith, found.2.1, newer-seq s p id a h new))),
            )
      ]
    ]

shown-Succeeds :
    (id : String) (a b : ToolState) (t : Service)
    → state_of id t ≡ some b
    → (b ≡ a) ⊎ (a.seq < b.seq)
    → Succeeds id a t
shown-Succeeds id a b t h (inl same) = inr (inl (h ∙ ap some same))
shown-Succeeds id a b t h (inr newer) = inr (inr (b, h, newer))

publish-Succeeds :
    (fault : Option String) (p : Pass) (id : String) (a : ToolState) (s : Service)
    → IsTagged p
    → state_of id s ≡ some a
    → Succeeds id a (publish fault p s)
unfolding publish IsLater
publish-Succeeds fault p id a s tags h = elim (Bool-cases (eqb s.epoch p.flight.epoch)) [
  | inr raced ↦ rw raced (core_of-Succeeds id a s s h refl)
  | inl now ↦
      let e : p.flight.epoch ≡ s.epoch = ground (arith, now) in
      let there = at_epoch-some s.epoch (get id s.states) a (sym (state_of-core_of id s) ∙ h) in
      let later = merged-IsLater s p id a tags e there.0 there.1 in
      shown-Succeeds id a later.0 (publish fault p s)
        (state_of-core_of id (publish fault p s)
          ∙ ap (state_in id) (publish-core_of fault p s e)
          ∙ ap (at_epoch s.epoch) later.1
          ∙ at_epoch_current s.epoch later.0 later.2.0)
        later.2.1
]

mark-Succeeds :
    (ids : List String) (id : String) (a : ToolState) (s : Service)
    → state_of id s ≡ some a
    → Succeeds id a (mark_pending ids s)
unfolding mark_pending at_epoch
mark-Succeeds ids id a s h =
    let pending = union s.pending_ids ids in
    let test = λ (x : String × ToolState). not (contains x.0 pending) in
    elim (Bool-cases (contains id pending)) [
      | inl hidden ↦ inl (
        state_of-core_of id (mark_pending ids s)
            ∙ ap (at_epoch s.epoch)
                (get-filter_out id test s.states (λ x same. hidden_key id x.0 pending same hidden)),
        hidden,
      )
      | inr shown ↦ inr (
          inl (
            state_of-core_of id (mark_pending ids s)
            ∙ ap (at_epoch s.epoch) (
                get-filter_kept id test s.states (λ x same.
                  ap (λ (k : String). not (contains k pending)) (key-eq x.0 id same)
                  ∙ ap not shown))
            ∙ sym (state_of-core_of id s)
            ∙ h))
    ]

-- Any call that does not change the epoch leaves a tool's answer as it was, or puts that of a newer
-- pass in its place, or hides it, where the tool is marked as pending then.
pub apply-Succeeds :
    (e : Event) (y : System) (id : String) (a : ToolState)
    → Allowed e y
    → (apply e y).service.epoch ≡ y.service.epoch
    → state_of id y.service ≡ some a
    → Succeeds id a (apply e y).service
unfolding apply refreshed hold_writes start_flight end_flight
apply-Succeeds (refreshes key) y id a al same h =
    elim (Bool-cases (joins y.service.epoch (flight_for key y.service.inflight))) [
      | inl joined ↦ rw joined (core_of-Succeeds id a y.service y.service h refl)
      | inr new ↦ rw new (
          inr (
            inl (
              state_of-core_of id (start_flight key y.service)
              ∙ sym (state_of-core_of id y.service)
              ∙ h)))
    ]
apply-Succeeds (publishes fault p) y id a al same h = publish-Succeeds fault p id a y.service al.1 h
apply-Succeeds (ends f) y id a al same h =
    inr
      (inl (state_of-core_of id (end_flight f y.service) ∙ sym (state_of-core_of id y.service) ∙ h))
apply-Succeeds (marks ids) y id a al same h = mark-Succeeds ids id a y.service h
apply-Succeeds (records tool_id epoch broken notes) y id a al same h =
    core_of-Succeeds id a y.service (record_evidence tool_id epoch broken notes y.service).0 h
      (core_of-record_evidence tool_id epoch broken notes y.service)
apply-Succeeds (invalidates fault) y id a al same h =
    ground (arith, same, invalidate-epoch fault y.service)
apply-Succeeds holds y id a al same h =
    core_of-Succeeds id a y.service (hold_writes y.service) h refl
apply-Succeeds (commits faults) y id a al same h =
    core_of-Succeeds id a y.service (commit_writes faults y.service).0 h
      (core_of-commit_writes faults y.service)
