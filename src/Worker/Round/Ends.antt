-- ===== src/Worker/Round/Ends.antt =====
-- recording_worker_v138.py: what each way to end a round means for its event.
use mathlib.Core.Bool.{false≢true}
use ha_reolink_battery.Base.{
  ℕ, zero, suc, String, ◌≡◌, refl, sym, ◌∙◌, subst, inl, inr, Bool, true, false, ◌||◌, ◌&&◌, Option,
  none, some, List, [], arith, if◌then◌else◌, ltb, contains, contains-discard, discard, eq_refl,
}
use ha_reolink_battery.Event.{CloudEvent}
use ha_reolink_battery.Queue.{ids}
use ha_reolink_battery.Coordinator.{is_event_deferred}
use ha_reolink_battery.Coordinator.Deferral.{
  pending-async_defer_event, is_event_deferred-async_defer_event,
}
use ha_reolink_battery.Worker.State.{Worker}
use ha_reolink_battery.Worker.{pending, defer_event}
use ha_reolink_battery.Worker.Attempt.{Meeting, Ready, process_once}
use ha_reolink_battery.Worker.Attempt.Contract.{Gone, Leaves, awaited, process_once_lem}
use ha_reolink_battery.Worker.Round.Cuts.{Cut, Overtaken, wait_retry-Cut}
use ha_reolink_battery.Worker.Round.{
  Ending, stopped, completed, preempted, exhausted, halt, overtaken, go, Gate, Plan, Round, Try,
  after_attempt, approach, attend, await_retry, before_attempt, classify_incomplete_stream_failure,
  close_round, count_retry, count_stale_match, ends, forget, manual_stale_match_is_terminal, pass,
  retry_delay, run_attempts, settle_event, wait_retry_or_newer_event,
}

-- The sets of the worker hold nothing of the event.
abbrev pub Forgotten : CloudEvent → Worker → Type 0
Forgotten e w =
    (contains e.event_id w.activated ≡ false)
    × (contains e.event_id w.manual ≡ false)
    × (contains e.event_id w.credits ≡ false)

-- If the event is pending it is deferred.
abbrev pub SetAside : CloudEvent → Worker → Type 0
SetAside e w =
    contains e.event_id (ids (pending w)) ≡ true → is_event_deferred e.event_id w.coordinator ≡ true

abbrev Ended : CloudEvent → Worker → Ending → Type 0
Ended e w stopped = w.stopped ≡ true
Ended e w completed = Gone e w × Forgotten e w
Ended e w preempted = Overtaken e w
Ended e w (exhausted reason) = Unit

abbrev Gated : CloudEvent → Worker → Gate → Type 0
Gated e w halt = w.stopped ≡ true
Gated e w overtaken = Overtaken e w
Gated e w go = Unit

abbrev Held : CloudEvent → Worker × Gate → Type 0
Held e (w, gate) = Gated e w gate

-- The two tests that follow a wait.
Gated-if :
    (e : CloudEvent) (over stopping : Bool) (w : Worker)
    → Cut e (w, over)
    → w.stopped ≡ stopping
    → Held e (if over then (count_retry w, go) else if stopping then (w, halt) else (w, overtaken))
Gated-if e true stopping w h s = tt
Gated-if e false true w h s = s
Gated-if e false false w h s = elim (h refl) [ inl p ↦ absurd (false≢true (sym s ∙ p)) | inr q ↦ q ]

await_retry-Gated :
    (e : CloudEvent) (delay : ℕ) (t : Try) (w : Worker)
    → let (w', gate) = await_retry e delay t w in Gated e w' gate
unfolding await_retry
await_retry-Gated e delay t w =
    let (w', over) = wait_retry_or_newer_event e delay t w in
    Gated-if e over w'.stopped w' (wait_retry-Cut e delay t w) refl

approach-Gated :
    (e : CloudEvent) (i : ℕ) (fast : Bool) (k : ℕ) (t : Try) (w : Worker)
    → let (w', gate, delays) = approach e i fast k t w in Gated e w' gate
unfolding approach
approach-Gated e zero fast k t w = tt
approach-Gated e (suc i) fast k t w = await_retry-Gated e (retry_delay (suc i) fast k) t w

abbrev Stops : CloudEvent → Worker × Gate × List ℕ → Type 0
Stops e (w, gate, delays) = Gated e w gate

Stops-if :
    (b : Bool) (e : CloudEvent) (x y : Worker × Gate × List ℕ)
    → (b ≡ true → Stops e x)
    → Stops e y
    → Stops e (if b then x else y)
Stops-if true e x y h k = h refl
Stops-if false e x y h k = k

before_attempt-Stops :
    (e : CloudEvent) (i : ℕ) (fast : Bool) (k : ℕ) (t : Try) (w : Worker)
    → Stops e (before_attempt e i fast k t w)
unfolding before_attempt
before_attempt-Stops e i fast k t w =
    Stops-if w.stopped e (w, halt, []) (approach e i fast k t w) (λ h. h)
      (approach-Gated e i fast k t w)

abbrev Closed : CloudEvent → Round → Type 0
Closed e r = Ended e r.worker r.ending

Closed-if :
    (b : Bool) (e : CloudEvent) (r s : Round)
    → (b ≡ true → Closed e r)
    → Closed e s
    → Closed e (if b then r else s)
Closed-if true e r s h k = h refl
Closed-if false e r s h k = k

pass-Closed :
    (gate : Gate) (e : CloudEvent) (w : Worker) (r : Round)
    → Gated e w gate
    → Closed e r
    → Closed e (pass gate w r)
unfolding pass
pass-Closed halt e w r h k = h
pass-Closed overtaken e w r h k = h
pass-Closed go e w r h k = k

Forgotten-forget : (e : CloudEvent) (w : Worker) → Forgotten e (forget e w)
Forgotten-forget e w = (gone w.activated, gone w.manual, gone w.credits)
  where
    gone : (xs : List String) → contains e.event_id (discard e.event_id xs) ≡ false
    gone xs = ground (arith, contains-discard e.event_id e.event_id xs, eq_refl e.event_id)

Gone-of_done :
    (e : CloudEvent) (v w : Worker) (ready : Option Ready) → Leaves e v w true ready → Gone e w
Gone-of_done e v w none h = h
Gone-of_done e v w (some x) h = h.0

done-Gone :
    (e : CloudEvent) (m : Meeting) (w : Worker)
    → (process_once e m w).done ≡ true
    → Gone e (process_once e m w).worker
done-Gone e m w h =
    let r = process_once e m w in
    let v = awaited e m m.media_dirs w in
    Gone-of_done e v r.worker r.ready
      (subst (λ done. Leaves e v r.worker done r.ready) h (process_once_lem e m w))

after_attempt-Closed :
    (e : CloudEvent) (checked : ℕ) (m : Meeting) (v w : Worker) (rest : Round)
    → Closed e rest
    → Closed e (after_attempt e checked (process_once e m v) w rest)
unfolding after_attempt
after_attempt-Closed e checked m v w rest h =
    let r = process_once e m v in
    Closed-if r.done e (ends (forget e r.worker) completed) _
      (λ done. (done-Gone e m v done, Forgotten-forget e r.worker))
      (Closed-if (manual_stale_match_is_terminal e checked w) e
        (ends (count_stale_match w) (exhausted "manual_stale_recording_match_miss")) rest (λ _. tt)
        h)

run_attempts-Closed :
    (left i : ℕ) (try : ℕ → Try) (e : CloudEvent) (fast : Bool) (k : ℕ) (w : Worker)
    → Closed e (run_attempts left i try e fast k w)
unfolding run_attempts
run_attempts-Closed zero i try e fast k w = tt
run_attempts-Closed (suc left) i try e fast k w =
    let (w1, gate, delays) = before_attempt e i fast k (try i) w in
    let r = process_once e (try i).meeting w1 in
    let (w2, incomplete) = classify_incomplete_stream_failure r.worker in
    let k' = if fast && ltb 0 i then suc k else k in
    let rest = run_attempts left (suc i) try e (fast || incomplete) k' w2 in
    pass-Closed gate e w1 (after_attempt e (try i).checked r w2 rest)
      (before_attempt-Stops e i fast k (try i) w)
      (after_attempt-Closed e (try i).checked (try i).meeting w1 w2 rest
        (run_attempts-Closed left (suc i) try e (fast || incomplete) k' w2))

-- What a round did for its event: a completed one is neither pending nor deferred, and forgotten;
-- one whose attempts are exhausted is deferred if it is still pending, and forgotten; one that was
-- preempted gives way to later work; and a round stops only with the worker.
abbrev pub Fate : CloudEvent → Worker → Ending → Type 0
Fate e w stopped = w.stopped ≡ true
Fate e w completed = Gone e w × Forgotten e w
Fate e w preempted = Overtaken e w
Fate e w (exhausted reason) = SetAside e w × Forgotten e w

defer_event-SetAside :
    (e : CloudEvent) (reason : String) (now : ℕ) (w : Worker)
    → SetAside e (defer_event e reason now w)
unfolding defer_event
defer_event-SetAside e reason now w = λ h. ground (
  arith,
  is_event_deferred-async_defer_event e.event_id e.event_id reason now w.coordinator,
  eq_refl e.event_id,
  subst (λ es. contains e.event_id (ids es) ≡ true)
      (pending-async_defer_event e.event_id w.coordinator reason now) h,
)

defer_event-Forgotten :
    (e : CloudEvent) (reason : String) (now : ℕ) (w : Worker)
    → Forgotten e (defer_event e reason now w)
unfolding defer_event
defer_event-Forgotten e reason now w = Forgotten-forget e w

close_round-Fate :
    (e : CloudEvent) (now : ℕ) (r : Round) (x : Ending)
    → r.ending ≡ x
    → Closed e r
    → Fate e (close_round e now r).worker (close_round e now r).ending
unfolding close_round
close_round-Fate e now r stopped h k = rw h (rw h at k)
close_round-Fate e now r completed h k = rw h (rw h at k)
close_round-Fate e now r preempted h k = rw h (rw h at k)
close_round-Fate e now r (exhausted reason) h k =
    rw h (defer_event-SetAside e reason now r.worker, defer_event-Forgotten e reason now r.worker)

Fate-if :
    (b : Bool) (e : CloudEvent) (r s : Round)
    → Fate e r.worker r.ending
    → (b ≡ false → Fate e s.worker s.ending)
    → let t = if b then r else s in Fate e t.worker t.ending
Fate-if true e r s h k = h
Fate-if false e r s h k = k refl

settle_event-stopped :
    (e : CloudEvent) (p : Plan) (w : Worker)
    → let (w', calm) = settle_event e p.settled p.settling w in calm ≡ false → w'.stopped ≡ true
unfolding settle_event
settle_event-stopped e p w h = ground arith

-- However a round ends, its event is settled: completed, it is neither pending nor deferred, and
-- the worker has forgotten it; with its attempts exhausted, it is deferred if it is still pending,
-- and forgotten; preempted, it gives way to strictly later work that is pending; and a round
-- stops only if the worker is stopping.
pub attend-Fate :
    (e : CloudEvent) (p : Plan) (w : Worker) → let r = attend e p w in Fate e r.worker r.ending
unfolding attend
attend-Fate e p w =
    let (w', calm) = settle_event e p.settled p.settling w in
    let tried = run_attempts 3 0 p.try e false 0 w' in
    Fate-if calm e (close_round e p.deferred tried) (ends w' stopped)
      (close_round-Fate e p.deferred tried tried.ending refl
        (run_attempts-Closed 3 0 p.try e false 0 w'))
      (settle_event-stopped e p w)
