-- ===== src/Worker/Saved/Loop.antt =====
-- recording_worker.py, recording_worker_v138.py: the store holds the queue through the waits, the
-- rounds and the main loop.
use ha_reolink_battery.Base.{
  ℕ, zero, suc, ◌≡◌, refl, Bool, true, false, not, ◌&&◌, ◌||◌, Option, none, some, List, [], ◌∷◌,
  ltb, if◌then◌else◌, nat_eq, contains, ◌==◌,
}
use ha_reolink_battery.Event.{CloudEvent}
use ha_reolink_battery.Worker.State.{Worker}
use ha_reolink_battery.Worker.{consume_credit, newer_pending_event, record_retry_preemption}
use ha_reolink_battery.Worker.Saved.{Safe, Safe-acts, Safe-defer_event}
use ha_reolink_battery.Worker.Outside.{Act, acts}
use ha_reolink_battery.Worker.Attempt.{Attempted, fail_with, process_once}
use ha_reolink_battery.Worker.Round.{
  Ending, Gate, Plan, Round, Try, Wake, stopped, completed, preempted, exhausted, halt, overtaken,
  go, after_attempt, approach, attend, await_retry, before_attempt,
  classify_incomplete_stream_failure, clear_trigger, close_round, closed_camera, count_retry,
  count_stale_match, ends, give_way, is_partial, manual_stale_match_is_terminal, pass, retry_delay,
  run_attempts, settle_event, settle_delay, wait_delay, wait_loop, wait_retry_or_newer_event,
}
use ha_reolink_battery.Worker.Saved.Attempts.{Safe-process_once}

-- A wait, with any second component.
abbrev SafeWait : Worker × Bool → Type 0
SafeWait x = Safe x.0

SafeWait-if :
    (b : Bool) (x y : Worker × Bool) → SafeWait x → SafeWait y → SafeWait (if b then x else y)
SafeWait-if true x y h k = h
SafeWait-if false x y h k = k

SafeWait-give_way :
    (e : CloudEvent) (o : Option CloudEvent) (w : Worker) (rest : Worker × Bool)
    → Safe w
    → SafeWait rest
    → SafeWait (give_way e o w rest)
unfolding give_way record_retry_preemption
SafeWait-give_way e none w rest s r = r
SafeWait-give_way e (some n) w rest s r = s

SafeWait-wait_loop :
    (e : CloudEvent) (wakes : List Wake) (w : Worker) → Safe w → SafeWait (wait_loop e wakes w)
unfolding wait_loop
SafeWait-wait_loop e [] w s = s
SafeWait-wait_loop e (wake ∷ more) w s =
    let woken = acts wake.during w in
    let heard = clear_trigger woken in
    let asleep = wait_loop e more woken in
    let awake = wait_loop e more heard in
    let listening = give_way e (newer_pending_event e wake.now heard) heard awake in
    let safe = Safe-acts wake.during w s in
    SafeWait-if woken.stopped (woken, false) (if not woken.trigger then asleep else listening) safe
      (SafeWait-if (not woken.trigger) asleep listening (SafeWait-wait_loop e more woken safe) (
        SafeWait-give_way e (newer_pending_event e wake.now heard) heard awake safe
          (SafeWait-wait_loop e more heard safe)))

SafeWait-wait_delay :
    (e : CloudEvent) (delay : ℕ) (wakes : List Wake) (w : Worker)
    → Safe w
    → SafeWait (wait_delay e delay wakes w)
unfolding wait_delay
SafeWait-wait_delay e delay wakes w s =
    SafeWait-if (nat_eq delay 0) _ _ s (SafeWait-wait_loop e wakes (closed_camera true w) s)

SafeWait-wait_retry :
    (e : CloudEvent) (delay : ℕ) (t : Try) (w : Worker)
    → Safe w
    → SafeWait (wait_retry_or_newer_event e delay t w)
unfolding wait_retry_or_newer_event
SafeWait-wait_retry e delay t w s =
    SafeWait-give_way e (newer_pending_event e t.asked w) w (wait_delay e delay t.wakes w) s
      (SafeWait-wait_delay e delay t.wakes w s)

SafeWait-settle_event :
    (e : CloudEvent) (now : ℕ) (during : List Act) (w : Worker)
    → Safe w
    → SafeWait (settle_event e now during w)
unfolding settle_event
SafeWait-settle_event e now during w s =
    SafeWait-if (nat_eq (settle_delay e now) 0) _ _ s (Safe-acts during (closed_camera true w) s)

-- The gate of an attempt.
abbrev SafeGate : Worker × Gate → Type 0
SafeGate x = Safe x.0

SafeGate-if :
    (b : Bool) (x y : Worker × Gate) → SafeGate x → SafeGate y → SafeGate (if b then x else y)
SafeGate-if true x y h k = h
SafeGate-if false x y h k = k

SafeGate-await_retry :
    (e : CloudEvent) (delay : ℕ) (t : Try) (w : Worker)
    → Safe w
    → SafeGate (await_retry e delay t w)
unfolding await_retry
SafeGate-await_retry e delay t w s =
    let (w', over) = wait_retry_or_newer_event e delay t w in
    let safe = SafeWait-wait_retry e delay t w s in
    SafeGate-if over (count_retry w', go) (if w'.stopped then (w', halt) else (w', overtaken)) safe
      (SafeGate-if w'.stopped (w', halt) (w', overtaken) safe safe)

abbrev SafeApproach : Worker × Gate × List ℕ → Type 0
SafeApproach x = Safe x.0

SafeApproach-if :
    (b : Bool) (x y : Worker × Gate × List ℕ)
    → SafeApproach x
    → SafeApproach y
    → SafeApproach (if b then x else y)
SafeApproach-if true x y h k = h
SafeApproach-if false x y h k = k

Safe-consume_credit :
    (e : CloudEvent) (now : ℕ) (w : Worker) → Safe w → SafeWait (consume_credit e now w)
unfolding consume_credit
Safe-consume_credit e now w s = SafeWait-if (not (contains e.event_id w.credits)) _ _ s s

SafeApproach-approach :
    (e : CloudEvent) (i : ℕ) (fast : Bool) (k : ℕ) (t : Try) (w : Worker)
    → Safe w
    → SafeApproach (approach e i fast k t w)
unfolding approach
SafeApproach-approach e zero fast k t w s = Safe-consume_credit e t.credited w s
SafeApproach-approach e (suc i) fast k t w s =
    SafeGate-await_retry e (retry_delay (suc i) fast k) t w s

SafeApproach-before_attempt :
    (e : CloudEvent) (i : ℕ) (fast : Bool) (k : ℕ) (t : Try) (w : Worker)
    → Safe w
    → SafeApproach (before_attempt e i fast k t w)
unfolding before_attempt
SafeApproach-before_attempt e i fast k t w s =
    SafeApproach-if w.stopped (w, halt, []) (approach e i fast k t w) s
      (SafeApproach-approach e i fast k t w s)

Safe-classify : (w : Worker) → Safe w → SafeWait (classify_incomplete_stream_failure w)
unfolding classify_incomplete_stream_failure fail_with
Safe-classify w s = SafeWait-if (not (is_partial w.stream)) _ _ s (
    SafeWait-if
      (w.stream.remote_disconnect_observed && w.stream.termination_reason == "connection_closed") _
      _ s (SafeWait-if (w.stream.termination_reason == "idle_timeout") _ _ s s))

-- A round.
abbrev SafeRound : Round → Type 0
SafeRound r = Safe r.worker

SafeRound-if : (b : Bool) (r s : Round) → SafeRound r → SafeRound s → SafeRound (if b then r else s)
SafeRound-if true r s h k = h
SafeRound-if false r s h k = k

SafeRound-pass :
    (gate : Gate) (w : Worker) (r : Round) → Safe w → SafeRound r → SafeRound (pass gate w r)
unfolding pass
SafeRound-pass halt w r s h = s
SafeRound-pass overtaken w r s h = s
SafeRound-pass go w r s h = h

SafeRound-after_attempt :
    (e : CloudEvent) (checked : ℕ) (r : Attempted) (w : Worker) (rest : Round)
    → Safe r.worker
    → Safe w
    → SafeRound rest
    → SafeRound (after_attempt e checked r w rest)
unfolding after_attempt count_stale_match
SafeRound-after_attempt e checked r w rest s t h =
    SafeRound-if r.done _ _ s (SafeRound-if (manual_stale_match_is_terminal e checked w) _ _ t h)

SafeRound-run_attempts :
    (left i : ℕ) (try : ℕ → Try) (e : CloudEvent) (fast : Bool) (k : ℕ) (w : Worker)
    → Safe w
    → SafeRound (run_attempts left i try e fast k w)
unfolding run_attempts
SafeRound-run_attempts zero i try e fast k w s = s
SafeRound-run_attempts (suc left) i try e fast k w s =
    let (w1, gate, delays) = before_attempt e i fast k (try i) w in
    let r = process_once e (try i).meeting w1 in
    let (w2, incomplete) = classify_incomplete_stream_failure r.worker in
    let k' = if fast && ltb 0 i then suc k else k in
    let rest = run_attempts left (suc i) try e (fast || incomplete) k' w2 in
    let safe1 = SafeApproach-before_attempt e i fast k (try i) w s in
    let safe_r = Safe-process_once e (try i).meeting w1 safe1 in
    let safe2 = Safe-classify r.worker safe_r in
    SafeRound-pass gate w1 (after_attempt e (try i).checked r w2 rest) safe1 (
      SafeRound-after_attempt e (try i).checked r w2 rest safe_r safe2
        (SafeRound-run_attempts left (suc i) try e (fast || incomplete) k' w2 safe2))

SafeRound-close_round :
    (e : CloudEvent) (now : ℕ) (r : Round) (x : Ending)
    → r.ending ≡ x
    → SafeRound r
    → SafeRound (close_round e now r)
unfolding close_round
SafeRound-close_round e now r stopped h s = rw h s
SafeRound-close_round e now r completed h s = rw h s
SafeRound-close_round e now r preempted h s = rw h s
SafeRound-close_round e now r (exhausted reason) h s =
    rw h (Safe-defer_event e reason now r.worker s)

pub SafeRound-attend : (e : CloudEvent) (p : Plan) (w : Worker) → Safe w → SafeRound (attend e p w)
unfolding attend
SafeRound-attend e p w s =
    let (w', calm) = settle_event e p.settled p.settling w in
    let tried = run_attempts 3 0 p.try e false 0 w' in
    let safe = SafeWait-settle_event e p.settled p.settling w s in
    SafeRound-if calm (close_round e p.deferred tried) (ends w' stopped)
      (SafeRound-close_round e p.deferred tried tried.ending refl
        (SafeRound-run_attempts 3 0 p.try e false 0 w' safe))
      safe
