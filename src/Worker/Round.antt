-- ===== src/Worker/Round.antt =====
-- recording_worker.py and recording_worker_v138.py: the attempts at one event, `_process_trigger`
-- and `async_run`. Clock readings and what other tasks do at each wait are the arguments; delays
-- are in microseconds.
mod Cuts
pub mod Ends
pub mod Delays
pub mod Fast
use ha_reolink_battery.Base.{
  ℕ, zero, suc, ◌+◌, ◌-◌, ◌*◌, min, String, Bool, true, false, not, ◌&&◌, ◌||◌, Option, none, some,
  List, [], ◌∷◌, ◌++◌, ◌==◌, if◌then◌else◌, ltb, nat_eq, contains, discard, or_else,
}
use ha_reolink_battery.Python.Time.{second}
use ha_reolink_battery.Event.{CloudEvent, event_time, is_automatic_event_fresh}
use ha_reolink_battery.Worker.State.{StreamTrace, Worker}
use ha_reolink_battery.Worker.{
  next_android_event, newer_pending_event, record_retry_preemption, consume_credit, defer_event,
  defer_stale_activated_events,
}
use ha_reolink_battery.Worker.Outside.{Act, acts}
use ha_reolink_battery.Worker.Attempt.{Attempted, Meeting, Ready, process_once, fail_with}

abbrev pub recording_settle : ℕ
recording_settle = 60 * second

abbrev pub max_attempts_per_trigger : ℕ
max_attempts_per_trigger = 3

-- Some act of other tasks, and the clock that the loop reads if it finds the trigger set.
pub record Wake : Type 0 where
  pub during : List Act
  pub now : ℕ

-- What the i-th attempt at an event meets, with the wait before it.
pub record Try : Type 0 where
  pub asked : ℕ
  pub wakes : List Wake
  pub credited : ℕ
  pub meeting : Meeting
  pub checked : ℕ

-- What a round meets; the attempts by their number.
pub record Plan : Type 0 where
  pub picked : ℕ
  pub settled : ℕ
  pub settling : List Act
  pub try : ℕ → Try
  pub deferred : ℕ
  pub closed : ℕ

pub data Ending : Type 0 where
  stopped completed preempted : Ending
  exhausted : String → Ending

-- What the attempts leave, with the ready events fired and the retry delays begun.
pub record Round : Type 0 where
  pub worker : Worker
  pub ending : Ending
  pub ready : List Ready
  pub delays : List ℕ

-- `file_bytes > 0 and expected_size > file_bytes`
unfoldable pub is_partial : StreamTrace → Bool
is_partial t =
    ltb 0 t.file_bytes_written && ltb t.file_bytes_written (or_else t.xml_reported_size 0)

unfoldable pub classify_incomplete_stream_failure : Worker → Worker × Bool
classify_incomplete_stream_failure w =
    if not (is_partial w.stream)
    then (w, false)
    else if w.stream.remote_disconnect_observed
        && w.stream.termination_reason == "connection_closed"
    then (
      fail_with "STREAM_REMOTE_DISCONNECT_INCOMPLETE" "remote_disconnect_before_expected_size" w,
      true,
    )
    else if w.stream.termination_reason == "idle_timeout"
    then (fail_with "STREAM_IDLE_TIMEOUT_INCOMPLETE" "idle_timeout_before_expected_size" w, true)
    else (w, false)

unfoldable pub manual_stale_match_is_terminal : CloudEvent → ℕ → Worker → Bool
manual_stale_match_is_terminal e now w =
    contains e.event_id w.manual
    && not (is_automatic_event_fresh e now)
    && w.attempt.last_failure_stage == "RECORDING_MATCH_ERROR"

abbrev pub fast_delay : ℕ → ℕ
fast_delay zero = 3 * second
fast_delay (suc k) = 6 * second

abbrev pub normal_delay : ℕ → ℕ
normal_delay zero = 30 * second
normal_delay (suc k) = 60 * second

-- `attempt` is 1 at least.
unfoldable pub retry_delay : ℕ → Bool → ℕ → ℕ
retry_delay attempt fast k =
    if fast then fast_delay (min k 1) else normal_delay (min (attempt - 1) 1)

-- A later event that is pending ends the wait; without one it goes on.
unfoldable pub give_way : CloudEvent → Option CloudEvent → Worker → Worker × Bool → Worker × Bool
give_way e none w rest = rest
give_way e (some newer) w rest = (record_retry_preemption e newer w, false)

abbrev pub clear_trigger : Worker → Worker
clear_trigger w = record w { trigger = false; policy = record w.policy { pending_trigger = false } }

-- The loop of `_wait_retry_or_newer_event`: true once the delay is over.
unfoldable pub wait_loop : CloudEvent → List Wake → Worker → Worker × Bool
wait_loop e [] w = (w, not w.stopped)
wait_loop e (wake ∷ more) w =
    let woken = acts wake.during w in
    let heard = clear_trigger woken in
    let asleep = wait_loop e more woken in
    let awake = wait_loop e more heard in
    if woken.stopped
    then (woken, false)
    else if not woken.trigger
    then asleep
    else give_way e (newer_pending_event e wake.now heard) heard awake

abbrev pub closed_camera : Bool → Worker → Worker
closed_camera b w = record w { policy = record w.policy { waiting_camera_closed = b } }

unfoldable pub wait_delay : CloudEvent → ℕ → List Wake → Worker → Worker × Bool
wait_delay e delay wakes w =
    if nat_eq delay 0
    then (w, not w.stopped)
    else let (waited, over) = wait_loop e wakes (closed_camera true w) in
      (closed_camera false waited, over)

unfoldable pub wait_retry_or_newer_event : CloudEvent → ℕ → Try → Worker → Worker × Bool
wait_retry_or_newer_event e delay t w =
    give_way e (newer_pending_event e t.asked w) w (wait_delay e delay t.wakes w)

-- `max(RECORDING_SETTLE_SECONDS - age, 0.0)`, with the exact age
unfoldable pub settle_delay : CloudEvent → ℕ → ℕ
settle_delay e now = (event_time e + recording_settle) - now

-- False if the worker is stopping.
unfoldable pub settle_event : CloudEvent → ℕ → List Act → Worker → Worker × Bool
settle_event e now during w =
    if nat_eq (settle_delay e now) 0
    then (w, not w.stopped)
    else let waited = acts during (closed_camera true w) in
      (closed_camera false waited, not waited.stopped)

pub data Gate : Type 0 where
  halt overtaken go : Gate

abbrev pub count_retry : Worker → Worker
count_retry w = record w { policy = record w.policy { retries = w.policy.retries + 1 } }

-- The wait before an attempt that is not the first.
unfoldable pub await_retry : CloudEvent → ℕ → Try → Worker → Worker × Gate
await_retry e delay t w =
    let (w', over) = wait_retry_or_newer_event e delay t w in
    if over then (count_retry w', go) else if w'.stopped then (w', halt) else (w', overtaken)

-- The first attempt takes the event's credit, a later one waits; with the delay that it began.
unfoldable pub approach : CloudEvent → ℕ → Bool → ℕ → Try → Worker → Worker × Gate × List ℕ
approach e zero fast k t w = ((consume_credit e t.credited w).0, go, [])
approach e (suc i) fast k t w =
    let delay = retry_delay (suc i) fast k in
    let (w', gate) = await_retry e delay t w in (w', gate, delay ∷ [])

-- The top of the loop's body.
unfoldable pub before_attempt : CloudEvent → ℕ → Bool → ℕ → Try → Worker → Worker × Gate × List ℕ
before_attempt e i fast k t w = if w.stopped then (w, halt, []) else approach e i fast k t w

-- The three sets forget an event that is completed.
abbrev pub forget : CloudEvent → Worker → Worker
forget e w = record w {
  activated = discard e.event_id w.activated;
  manual = discard e.event_id w.manual;
  credits = discard e.event_id w.credits;
}

abbrev pub ready_list : Option Ready → List Ready
ready_list none = []
ready_list (some r) = r ∷ []

abbrev pub add_to_round : List Ready → List ℕ → Round → Round
add_to_round ready delays r = record r { ready = ready ++ r.ready; delays = delays ++ r.delays }

abbrev pub ends : Worker → Ending → Round
ends w ending = record { worker = w; ending = ending; ready = []; delays = [] }

unfoldable pub count_stale_match : Worker → Worker
count_stale_match w = record w {
  recovery = record w.recovery {
    stale_match_single_attempts = w.recovery.stale_match_single_attempts + 1;
  };
}

-- What follows an attempt; `w` is the worker after the classification of a failure, `rest` the
-- attempts that remain.
unfoldable pub after_attempt : CloudEvent → ℕ → Attempted → Worker → Round → Round
after_attempt e checked r w rest = add_to_round (ready_list r.ready) [] (
    if r.done
    then ends (forget e r.worker) completed
    else if manual_stale_match_is_terminal e checked w
    then ends (count_stale_match w) (exhausted "manual_stale_recording_match_miss")
    else rest)

-- What the gate lets through.
unfoldable pub pass : Gate → Worker → Round → Round
pass halt w attempted = ends w stopped
pass overtaken w attempted = ends w preempted
pass go w attempted = attempted

-- The loop over the attempts; `left` of them remain, and `i` is the number of the next.
unfoldable pub run_attempts : ℕ → ℕ → (ℕ → Try) → CloudEvent → Bool → ℕ → Worker → Round
run_attempts zero i try e fast k w = ends w (exhausted "automatic_retries_exhausted")
run_attempts (suc left) i try e fast k w =
    let (w1, gate, delays) = before_attempt e i fast k (try i) w in
    let r = process_once e (try i).meeting w1 in
    let (w2, incomplete) = classify_incomplete_stream_failure r.worker in
    let k' = if fast && ltb 0 i then suc k else k in
    let rest = run_attempts left (suc i) try e (fast || incomplete) k' w2 in
    add_to_round [] delays (pass gate w1 (after_attempt e (try i).checked r w2 rest))

-- `if not completed and not preempted: await self._defer_event(event, defer_reason)`
unfoldable pub close_round : CloudEvent → ℕ → Round → Round
close_round e now r = elim r.ending [
  | exhausted reason ↦ record r { worker = defer_event e reason now r.worker }
  | stopped ↦ r
  | completed ↦ r
  | preempted ↦ r
]

unfoldable pub attend : CloudEvent → Plan → Worker → Round
attend e p w =
    let (w', calm) = settle_event e p.settled p.settling w in
    if calm
    then close_round e p.deferred (run_attempts max_attempts_per_trigger 0 p.try e false 0 w')
    else ends w' stopped

-- What the loop makes of a round, given what the next rounds would do.
unfoldable pub after_round :
    Ending → Round → Worker × List Ready × Bool → Worker × List Ready × Bool
after_round stopped r next = (r.worker, r.ready, true)
after_round _ r (w, more, returned) = (w, r.ready ++ more, returned)

-- The loop of `_process_trigger`, for as many rounds as there are plans; true if it returned.
unfoldable pub rounds : List Plan → Worker → Worker × List Ready × Bool
rounds [] w = (w, [], false)
rounds (p ∷ ps) w = elim (next_android_event w p.picked) [
  | none ↦ (w, [], true)
  | some e ↦
      let r = attend e p w in
      let next = rounds ps (defer_stale_activated_events p.closed r.worker) in
      if w.stopped then (w, [], true) else after_round r.ending r next
]

unfoldable pub process_trigger : ℕ → List Plan → Worker → Worker × List Ready × Bool
process_trigger now ps w = rounds ps (defer_stale_activated_events now w)

-- One turn of `async_run`, from a trigger that is set.
unfoldable pub serve : ℕ → List Plan → Worker → Worker × List Ready × Bool
serve now ps w =
    let heard = clear_trigger w in
    if heard.stopped
    then (heard, [], true)
    else let running : Worker = record heard { policy = record heard.policy { running = true } } in
      let (w', ready, returned) = process_trigger now ps running in
      (record w' { policy = record w'.policy { running = false } }, ready, returned)
