-- ===== src/Status/Refresh/Held.antt =====
-- Writes that are held and committed later leave the same file as writes that are not held.
use tools_installer.Base.{
  ℕ, String, ◌≡◌, refl, sym, ap, ◌∙◌, subst, arith, suc, all, Bool, true, false, not, ◌&&◌, Option,
  none, some, List, [], ◌∷◌, ◌++◌, eqb, filter, if◌then◌else◌, Bool-cases, inl, inr, contains, get,
}
use tools_installer.Session.Plan.{ToolState}
use tools_installer.VersionCache.{Json, end}
use tools_installer.VersionCache.Codec.{load_version_cache, save_version_cache}
use tools_installer.Status.Refresh.{
  Flight, Service, Pass, Write, clear_manager_snapshot, save_pass, receipt_write, done, saved,
  cleared, run_write, caught, with_failure, run_writes, first_fault, rest_faults, commit_writes,
  write_or_queue, bumped, invalidate, flight_for, joins, with_flight, start_flight, new_flight,
  end_flight, mark_pending, record_evidence, hold_writes, update_all, keys, fresh, with_greedy,
  managers_of, with_evidence, same_evidence, is_newer, is_fresh, published, publish, union,
}
use tools_installer.Status.Refresh.Events.{
  System, Event, refreshes, publishes, ends, marks, records, invalidates, holds, commits, refreshed,
  apply, apply_all,
}
use tools_installer.Status.Refresh.Records.{absurd_key}
use tools_installer.Status.Refresh.Core.{
  Core, core_of, core_of-write_or_queue, core_of-commit_writes, core_of-record_evidence,
}

-- What a write without a fault makes of the file
unfoldable file_after : Write → Option Json → Option Json
unfolding update_all
file_after (save_pass produced managers) file =
    save_version_cache (update_all (load_version_cache file) produced) managers file
file_after clear_manager_snapshot file =
    save_version_cache (load_version_cache file) (some end) file
file_after (receipt_write message) file = file

unfoldable files_after : List Write → Option Json → Option Json
unfolding file_after
files_after [] file = file
files_after (w ∷ ws) file = files_after ws (file_after w file)

file-caught : (w : Write) (s : Service) → (caught (run_write none w s)).0.file ≡ file_after w s.file
unfolding caught run_write saved cleared file_after
file-caught (save_pass produced managers) s = refl
file-caught clear_manager_snapshot s = refl
file-caught (receipt_write message) s = refl

file-with_failure :
    (m : Option String) (r : Service × List String) → (with_failure m r).0.file ≡ r.0.file
unfolding with_failure
file-with_failure none r = refl
file-with_failure (some message) r = refl

file-run_writes :
    (ws : List Write) (s : Service) → (run_writes [] ws s).0.file ≡ files_after ws s.file
unfolding run_writes first_fault rest_faults files_after
file-run_writes [] s = refl
file-run_writes (w ∷ ws) s =
    let ran = caught (run_write none w s) in
    file-with_failure ran.1 (run_writes [] ws ran.0)
    ∙ file-run_writes ws ran.0
    ∙ ap (files_after ws) (file-caught w s)

files_after-snoc :
    (ws : List Write) (w : Write) (file : Option Json)
    → files_after (ws ++ w ∷ []) file ≡ file_after w (files_after ws file)
unfolding files_after
files_after-snoc [] w file = refl
files_after-snoc (x ∷ ws) w file = files_after-snoc ws w (file_after x file)

-- A service that writes at once, and one that holds what the other has written.
abbrev Twins : Service → Service → Type 0
Twins d h =
    (core_of d ≡ core_of h)
    × (d.writes_held ≡ false)
    × (h.writes_held ≡ true)
    × (d.file ≡ files_after h.pending_writes h.file)

-- What a change of the core alone keeps
record Rest : Type 0 where
  writes_held : Bool
  pending_writes : List Write
  file : Option Json

abbrev rest : Service → Rest
rest s = record { writes_held = s.writes_held; pending_writes = s.pending_writes; file = s.file }

Twins-rest :
    (d h d1 h1 : Service)
    → Twins d h
    → core_of d1 ≡ core_of h1
    → rest d1 ≡ rest d
    → rest h1 ≡ rest h
    → Twins d1 h1
Twins-rest d h d1 h1 t c rd rh = (
  c,
  ap (λ (r : Rest). r.writes_held) rd ∙ t.1,
  ap (λ (r : Rest). r.writes_held) rh ∙ t.2,
  ap (λ (r : Rest). r.file) rd
      ∙ t.3
      ∙ sym (ap (λ (r : Rest). files_after r.pending_writes r.file) rh),
)

rest-if :
    {B : Type 0} (b : Bool) (x y : Service × B) (s : Service)
    → rest x.0 ≡ rest s
    → rest y.0 ≡ rest s
    → rest (if b then x else y).0 ≡ rest s
rest-if true x y s h k = h
rest-if false x y s h k = k

rest-record_evidence :
    (id : String) (epoch : ℕ) (broken notes : List String) (s : Service)
    → rest (record_evidence id epoch broken notes s).0 ≡ rest s
unfolding record_evidence with_evidence
rest-record_evidence id epoch broken notes s =
    rest-if (not (eqb epoch s.epoch)) (s, false)
      (if same_evidence (get id s.evidence) broken notes
        then (s, false)
        else (with_evidence id broken notes s, true))
      s refl
      (rest-if (same_evidence (get id s.evidence) broken notes) (s, false)
        (with_evidence id broken notes s, true) s refl refl)

if-false : {A : Type 0} (b : Bool) (x y : A) → b ≡ false → (if b then x else y) ≡ y
if-false b x y h = rw h refl

if-true : {A : Type 0} (b : Bool) (x y : A) → b ≡ true → (if b then x else y) ≡ x
if-true b x y h = rw h refl

abbrev queue : Write → Service → Service
queue w s = record s { pending_writes = s.pending_writes ++ w ∷ [] }

at_once :
    (w : Write) (d : Service) → d.writes_held ≡ false → write_or_queue none w d ≡ run_write none w d
unfolding write_or_queue
at_once w d h = if-false d.writes_held (queue w d, done none) (run_write none w d) h

queued :
    (w : Write) (s : Service)
    → s.writes_held ≡ true
    → write_or_queue none w s ≡ (queue w s, done none)
unfolding write_or_queue
queued w s h = if-true s.writes_held (queue w s, done none) (run_write none w s) h

file-run_write : (w : Write) (s : Service) → (run_write none w s).0.file ≡ file_after w s.file
unfolding run_write saved cleared file_after
file-run_write (save_pass produced managers) s = refl
file-run_write clear_manager_snapshot s = refl
file-run_write (receipt_write message) s = refl

held-run_write : (w : Write) (s : Service) → (run_write none w s).0.writes_held ≡ s.writes_held
unfolding run_write saved cleared
held-run_write (save_pass produced managers) s = refl
held-run_write clear_manager_snapshot s = refl
held-run_write (receipt_write message) s = refl

-- One write, at once and held
write-Twins :
    (w : Write) (d h : Service)
    → Twins d h
    → Twins (write_or_queue none w d).0 (write_or_queue none w h).0
write-Twins w d h t =
    let now : (write_or_queue none w d).0 ≡ (run_write none w d).0 =
      ap (λ p. p.0) (at_once w d t.1) in
    let later : (write_or_queue none w h).0 ≡ queue w h = ap (λ p. p.0) (queued w h t.2) in
    (
      core_of-write_or_queue none w d ∙ t.0 ∙ sym (core_of-write_or_queue none w h),
      ap (λ (s : Service). s.writes_held) now ∙ held-run_write w d ∙ t.1,
      ap (λ (s : Service). s.writes_held) later ∙ t.2,
      ap (λ (s : Service). s.file) now
          ∙ file-run_write w d
          ∙ ap (file_after w) t.3
          ∙ sym (files_after-snoc h.pending_writes w h.file)
          ∙ sym (ap (λ (s : Service). files_after s.pending_writes s.file) later),
    )

fresh_in : Core → Pass → List (String × ToolState)
unfolding is_newer
fresh_in c p =
    filter
      (λ (x : String × ToolState).
        not (contains x.0 c.pending_ids) && is_newer p.flight.seq (get x.0 c.states))
      p.resolved

fresh-core_of : (s : Service) (p : Pass) → fresh s p ≡ fresh_in (core_of s) p
unfolding fresh is_fresh fresh_in
fresh-core_of s p = refl

with_states : List (String × ToolState) → Core → Core
with_states new c = record c { states = update_all c.states new }

published-Twins :
    (p : Pass) (new : List (String × ToolState)) (d h : Service)
    → Twins d h
    → Twins (published none p new d) (published none p new h)
unfolding published with_states
published-Twins p [] d h t = t
published-Twins p (e ∷ new) d h t =
    write-Twins (save_pass (filter (λ x. contains x.0 (keys (e ∷ new))) p.produced) (managers_of p))
      (record d { states = update_all d.states (e ∷ new) })
      (record h { states = update_all h.states (e ∷ new) })
      (ap (with_states (e ∷ new)) t.0, t.1, t.2, t.3)

greedy-Twins :
    (g : Option (List String)) (d h : Service)
    → Twins d h
    → Twins (with_greedy g d) (with_greedy g h)
unfolding with_greedy
greedy-Twins none d h t = t
greedy-Twins (some g) d h t = t

Twins-eq : (d h d1 h1 : Service) → d ≡ d1 → h ≡ h1 → Twins d1 h1 → Twins d h
Twins-eq d h d1 h1 e k t =
    subst (λ (s : Service). Twins s h) (sym e) (subst (λ (s : Service). Twins d1 s) (sym k) t)

abbrev merge : Pass → List (String × ToolState) → Service → Service
merge p new s = published none p new (with_greedy p.report_greedy s)

publish_now :
    (p : Pass) (s : Service)
    → eqb s.epoch p.flight.epoch ≡ true
    → publish none p s ≡ merge p (fresh s p) s
unfolding publish
publish_now p s h = if-true (eqb s.epoch p.flight.epoch) (merge p (fresh s p) s) s h

publish_raced : (p : Pass) (s : Service) → eqb s.epoch p.flight.epoch ≡ false → publish none p s ≡ s
unfolding publish
publish_raced p s h = if-false (eqb s.epoch p.flight.epoch) (merge p (fresh s p) s) s h

publish-Twins : (p : Pass) (d h : Service) → Twins d h → Twins (publish none p d) (publish none p h)
publish-Twins p d h t =
    let epochs : eqb h.epoch p.flight.epoch ≡ eqb d.epoch p.flight.epoch =
      ap (λ (c : Core). eqb c.epoch p.flight.epoch) (sym t.0) in
    let news : fresh h p ≡ fresh d p =
      fresh-core_of h p ∙ ap (λ (c : Core). fresh_in c p) (sym t.0) ∙ sym (fresh-core_of d p) in
    elim (Bool-cases (eqb d.epoch p.flight.epoch)) [
      | inl now ↦
          Twins-eq (publish none p d) (publish none p h) (merge p (fresh d p) d)
            (merge p (fresh d p) h) (publish_now p d now)
            (publish_now p h (epochs ∙ now)
              ∙ ap (λ (new : List (String × ToolState)). merge p new h) news)
            (published-Twins p (fresh d p) (with_greedy p.report_greedy d)
              (with_greedy p.report_greedy h) (greedy-Twins p.report_greedy d h t))
      | inr raced ↦
          Twins-eq (publish none p d) (publish none p h) d h (publish_raced p d raced)
            (publish_raced p h (epochs ∙ raced)) t
    ]

started_in : List String → Core → Core
started_in key c = record c {
  seq = suc c.seq;
  inflight = with_flight (record { key = key; epoch = c.epoch; seq = suc c.seq }) c.inflight;
}

refreshed_service : List String → Service → Service
refreshed_service key s =
    if joins s.epoch (flight_for key s.inflight) then s else start_flight key s

service-if :
    (b : Bool) (y z : System) → (if b then y else z).service ≡ (if b then y.service else z.service)
service-if true y z = refl
service-if false y z = refl

refresh-Twins :
    (key : List String) (d h : Service)
    → Twins d h
    → Twins (refreshed_service key d) (refreshed_service key h)
unfolding refreshed_service started_in start_flight new_flight
refresh-Twins key d h t =
    let same : joins h.epoch (flight_for key h.inflight)
        ≡ joins d.epoch (flight_for key d.inflight) =
      ap (λ (c : Core). joins c.epoch (flight_for key c.inflight)) (sym t.0) in
    elim (Bool-cases (joins d.epoch (flight_for key d.inflight))) [
      | inl joined ↦ rw joined (rw (same ∙ joined) t)
      | inr new ↦ rw new (rw (same ∙ new) (ap (started_in key) t.0, t.1, t.2, t.3))
    ]

-- Calls between the two, in which no write fails.
abbrev pub is_plain : Event → Bool
is_plain (publishes (some fault) p) = false
is_plain (invalidates (some fault)) = false
is_plain holds = false
is_plain (commits faults) = false
is_plain _ = true

ended : Flight → Core → Core
ended f c = record c { inflight = filter (λ g. not (eqb g.seq f.seq)) c.inflight }

marked : List String → Core → Core
marked ids c = record c {
  pending_ids = union c.pending_ids ids;
  states =
      filter (λ (x : String × ToolState). not (contains x.0 (union c.pending_ids ids))) c.states;
}

bumped_core : Core → Core
bumped_core c = record c { epoch = suc c.epoch; pending_ids = [] }

apply-Twins :
    (e : Event) (y z : System)
    → is_plain e ≡ true
    → Twins y.service z.service
    → Twins (apply e y).service (apply e z).service
unfolding apply refreshed refreshed_service end_flight ended mark_pending marked invalidate bumped
    bumped_core
apply-Twins (refreshes key) y z plain t =
    Twins-eq (refreshed key y).service (refreshed key z).service (refreshed_service key y.service)
      (refreshed_service key z.service)
      (service-if (joins y.service.epoch (flight_for key y.service.inflight)) y (record {
        service = start_flight key y.service;
        running = new_flight key y.service ∷ y.running;
      }))
      (service-if (joins z.service.epoch (flight_for key z.service.inflight)) z (record {
        service = start_flight key z.service;
        running = new_flight key z.service ∷ z.running;
      }))
      (refresh-Twins key y.service z.service t)
apply-Twins (publishes none p) y z plain t = publish-Twins p y.service z.service t
apply-Twins (publishes (some fault) p) y z plain t = absurd_key plain
apply-Twins (ends f) y z plain t = (ap (ended f) t.0, t.1, t.2, t.3)
apply-Twins (marks ids) y z plain t = (ap (marked ids) t.0, t.1, t.2, t.3)
apply-Twins (records id epoch broken notes) y z plain t =
    Twins-rest y.service z.service (record_evidence id epoch broken notes y.service).0
      (record_evidence id epoch broken notes z.service).0 t
      (core_of-record_evidence id epoch broken notes y.service
        ∙ t.0
        ∙ sym (core_of-record_evidence id epoch broken notes z.service))
      (rest-record_evidence id epoch broken notes y.service)
      (rest-record_evidence id epoch broken notes z.service)
apply-Twins (invalidates none) y z plain t =
    write-Twins clear_manager_snapshot (bumped y.service) (bumped z.service)
      (ap bumped_core t.0, t.1, t.2, t.3)
apply-Twins (invalidates (some fault)) y z plain t = absurd_key plain
apply-Twins holds y z plain t = absurd_key plain
apply-Twins (commits faults) y z plain t = absurd_key plain

apply_all-Twins :
    (es : List Event) (y z : System)
    → all is_plain es ≡ true
    → Twins y.service z.service
    → Twins (apply_all es y).service (apply_all es z).service
unfolding apply_all
apply_all-Twins [] y z plain t = t
apply_all-Twins (e ∷ es) y z plain t =
    apply_all-Twins es (apply e y) (apply e z) (ground (arith, plain))
      (apply-Twins e y z (ground (arith, plain)) t)

-- Where the service does not hold its writes: holding them, then any calls of which no write fails
-- and none holds or commits, then a commit without a fault, end with the file that the calls alone
-- end with, and with the same states, pending ids, epoch, number and flights.
pub commit_writes-Replays :
    (es : List Event) (y : System)
    → all is_plain es ≡ true
    → y.service.writes_held ≡ false
    → ((commit_writes [] (apply_all es (apply holds y)).service).0.file
        ≡ (apply_all es y).service.file)
      × (core_of (commit_writes [] (apply_all es (apply holds y)).service).0
          ≡ core_of (apply_all es y).service)
unfolding apply hold_writes commit_writes files_after
commit_writes-Replays es y plain free =
    let t = apply_all-Twins es y (apply holds y) plain (refl, free, refl, refl) in
    let h = (apply_all es (apply holds y)).service in
    (
      file-run_writes h.pending_writes (record h { pending_writes = []; writes_held = false })
          ∙ sym t.3,
      core_of-commit_writes [] h ∙ sym t.0,
    )
