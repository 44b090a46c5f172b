-- ===== src/Status/Refresh/Answers.antt =====
-- What the views read: a pass that no mutation overtook answers for its tools, the newest pass wins.
use tools_installer.Base.{
  ℕ, suc, String, ◌≡◌, ◌≤◌, ◌<◌, refl, sym, ap, ◌∙◌, arith, true, false, Option, none, some, List,
  inl, inr, Bool-cases, eqb, contains, get, ◌==◌, eq_iff,
}
use tools_installer.Session.Plan.{ToolState}
use tools_installer.Status.Refresh.{
  Flight, Service, Pass, clear_manager_snapshot, bumped, invalidate, at_epoch, state_of, update_all,
  keys, is_newer, is_fresh, fresh, with_greedy, publish,
}
use tools_installer.Status.Refresh.Events.{System, Runs, IsTagged, Reach}
use tools_installer.Status.Refresh.Core.{Core, core_of, core_of-write_or_queue, core_of-with_greedy}
use tools_installer.Status.Refresh.Records.{
  Values, OnValue, get-OnValue, get-update_all, get-update_all_in, All-filter, absurd_key,
  contains-keys-filter,
}
use tools_installer.Status.Refresh.Invariant.{
  IsPast, Reach-Inv, published-core_of, Runs-All, keys-filter,
}

-- `state_of` over the core
abbrev pub state_in : String → Core → Option ToolState
state_in id c = at_epoch c.epoch (get id c.states)

pub state_of-core_of : (id : String) (s : Service) → state_of id s ≡ state_in id (core_of s)
unfolding state_of
state_of-core_of id s = refl

same_epoch : (a b : ℕ) → b ≡ a → eqb a b ≡ true
same_epoch a b h = ground (arith, h)

pub other_epoch : (a b : ℕ) → b < a → eqb a b ≡ false
other_epoch a b h = ground (arith, h)

pub key-eq : (a b : String) → (a == b) ≡ true → a ≡ b
key-eq a b h = ground (arith, eq_iff a b, h)

pub publish-core_of :
    (fault : Option String) (p : Pass) (s : Service)
    → p.flight.epoch ≡ s.epoch
    → core_of (publish fault p s) ≡ core_of (record s { states = update_all s.states (fresh s p) })
unfolding publish
publish-core_of fault p s e = rw (same_epoch s.epoch p.flight.epoch e) (
    published-core_of fault p (fresh s p) (with_greedy p.report_greedy s)
    ∙ ap (λ (c : Core). record c { states = update_all c.states (fresh s p) })
        (core_of-with_greedy p.report_greedy s))

IsAnswer : ℕ → ℕ → ToolState → Type 0
IsAnswer epoch seq t = (t.generation ≡ epoch) × (seq ≤ t.seq)

-- A state that a pass of the current epoch leaves in its place is of that epoch, and not older.
past-IsAnswer :
    (c : Core) (running : List Flight) (f : Flight) (t : ToolState)
    → IsPast c running t
    → Runs f running
    → f.epoch ≡ c.epoch
    → f.seq ≤ t.seq
    → IsAnswer c.epoch f.seq t
unfolding IsAnswer
past-IsAnswer c running f t h r e q = (
  ground (
    arith,
    h.0,
    e,
    q,
    Runs-All (λ (g : Flight). t.generation < g.epoch → t.seq < g.seq) f running r h.2,
  ),
  q,
)

kept-answers :
    (s : Service) (f : Flight) (running : List Flight) (id : String) (o : Option ToolState)
    → OnValue (IsPast (core_of s) running) o
    → Runs f running
    → f.epoch ≡ s.epoch
    → is_newer f.seq o ≡ false
    → (t : ToolState) × (o ≡ some t) × IsAnswer s.epoch f.seq t
unfolding is_newer
kept-answers s f running id none h r e n = absurd_key (sym n)
kept-answers s f running id (some t) h r e n =
    (t, refl, past-IsAnswer (core_of s) running f t h r e (ground (arith, n)))

is_fresh-split :
    (s : Service) (seq : ℕ) (id : String)
    → contains id s.pending_ids ≡ false
    → is_fresh s seq id ≡ is_newer seq (get id s.states)
unfolding is_fresh
is_fresh-split s seq id h = rw h refl

-- What the states of a pass, merged into the published ones, say of an id that it resolved.
merged-answers :
    (s : Service) (p : Pass) (running : List Flight) (id : String)
    → Values (IsPast (core_of s) running) s.states
    → Runs p.flight running
    → IsTagged p
    → p.flight.epoch ≡ s.epoch
    → contains id (keys p.resolved) ≡ true
    → contains id s.pending_ids ≡ false
    → (t : ToolState) × (get id (update_all s.states (fresh s p)) ≡ some t)
      × IsAnswer s.epoch p.flight.seq t
unfolding fresh IsAnswer
merged-answers s p running id i r tags e covered shown =
    let test = λ (x : String × ToolState). is_fresh s p.flight.seq x.0 in
    elim (Bool-cases (is_fresh s p.flight.seq id)) [
      | inl new ↦
          let answer =
            get-update_all_in
              (λ (t : ToolState). (t.generation ≡ p.flight.epoch) × (t.seq ≡ p.flight.seq)) id
              s.states (fresh s p)
              (contains-keys-filter id test p.resolved covered
                (λ x same. ap (is_fresh s p.flight.seq) (key-eq x.0 id same) ∙ new))
              (All-filter
                (λ (x : String × ToolState).
                  (x.1.generation ≡ p.flight.epoch) × (x.1.seq ≡ p.flight.seq))
                test p.resolved tags) in
          (answer.0, answer.1, (answer.2.0 ∙ e, omega (arith, answer.2.1)))
      | inr old ↦
          let kept =
            kept-answers s p.flight running id (get id s.states)
              (get-OnValue (IsPast (core_of s) running) id s.states i) r e
              (sym (is_fresh-split s p.flight.seq id shown) ∙ old) in
          (
            kept.0,
            get-update_all id s.states (fresh s p) (
                  keys-filter id test p.resolved
                    (λ x same. ap (is_fresh s p.flight.seq) (key-eq x.0 id same) ∙ old))
                ∙ kept.1,
            kept.2,
          )
    ]

pub at_epoch_current :
    (epoch : ℕ) (t : ToolState) → t.generation ≡ epoch → at_epoch epoch (some t) ≡ some t
unfolding at_epoch
at_epoch_current epoch t h = rw (same_epoch t.generation epoch (sym h)) refl

-- After any calls, a running pass of the current epoch that publishes has an answer for every tool
-- that it resolved and that is not marked as pending: the published state of the tool is of the
-- current epoch, and of this pass or a newer one.
pub publish_answers :
    (y : System) (fault : Option String) (p : Pass) (id : String)
    → Reach y
    → Runs p.flight y.running
    → IsTagged p
    → p.flight.epoch ≡ y.service.epoch
    → contains id (keys p.resolved) ≡ true
    → contains id y.service.pending_ids ≡ false
    → (t : ToolState) × (state_of id (publish fault p y.service) ≡ some t) × (p.flight.seq ≤ t.seq)
unfolding IsAnswer
publish_answers y fault p id reach r tags e covered shown =
    let s = y.service in
    let answer = merged-answers s p y.running id (Reach-Inv y reach).0 r tags e covered shown in
    (
      answer.0,
      state_of-core_of id (publish fault p s)
          ∙ ap (state_in id) (publish-core_of fault p s e)
          ∙ ap (at_epoch s.epoch) answer.1
          ∙ at_epoch_current s.epoch answer.0 answer.2.0,
      answer.2.1,
    )

pub none_at :
    (epoch : ℕ) (c : Core) (running : List Flight) (o : Option ToolState)
    → OnValue (IsPast c running) o
    → c.epoch < epoch
    → at_epoch epoch o ≡ none
unfolding at_epoch
none_at epoch c running none h lt = refl
none_at epoch c running (some t) h lt = ground (arith, h.0, lt)

pub invalidate-core_of :
    (fault : Option String) (s : Service) → core_of (invalidate fault s).0 ≡ core_of (bumped s)
unfolding invalidate
invalidate-core_of fault s = core_of-write_or_queue fault clear_manager_snapshot (bumped s)

pub invalidate-epoch :
    (fault : Option String) (s : Service) → (invalidate fault s).0.epoch ≡ suc s.epoch
unfolding bumped
invalidate-epoch fault s = ap (λ (c : Core). c.epoch) (invalidate-core_of fault s)
