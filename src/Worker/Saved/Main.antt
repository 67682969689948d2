-- ===== src/Worker/Saved/Main.antt =====
-- recording_worker.py: the store holds the queue through `_process_trigger` and `async_run`.
use ha_reolink_battery.Base.{
  ℕ, inl, inr, Bool, true, false, List, [], ◌∷◌, if◌then◌else◌, Option-cases,
}
use ha_reolink_battery.Coordinator.Saved.{IsSaved}
use ha_reolink_battery.Worker.State.{Worker}
use ha_reolink_battery.Worker.{defer_stale_activated_events, next_android_event}
use ha_reolink_battery.Worker.Saved.{Safe, Safe-defer_stale_activated_events}
use ha_reolink_battery.Worker.Saved.Loop.{SafeRound-attend}
use ha_reolink_battery.Worker.Attempt.{Ready}
use ha_reolink_battery.Worker.Round.{
  Ending, Plan, Round, stopped, completed, preempted, exhausted, after_round, attend, clear_trigger,
  process_trigger, rounds, serve,
}

abbrev SafeLoop : Worker × List Ready × Bool → Type 0
SafeLoop x = Safe x.0

SafeLoop-if :
    (b : Bool) (x y : Worker × List Ready × Bool)
    → SafeLoop x
    → SafeLoop y
    → SafeLoop (if b then x else y)
SafeLoop-if true x y h k = h
SafeLoop-if false x y h k = k

SafeLoop-after_round :
    (ending : Ending) (r : Round) (next : Worker × List Ready × Bool)
    → Safe r.worker
    → SafeLoop next
    → SafeLoop (after_round ending r next)
unfolding after_round
SafeLoop-after_round stopped r next s h = s
SafeLoop-after_round completed r next s h = h
SafeLoop-after_round preempted r next s h = h
SafeLoop-after_round (exhausted reason) r next s h = h

SafeLoop-rounds : (ps : List Plan) (w : Worker) → Safe w → SafeLoop (rounds ps w)
unfolding rounds
SafeLoop-rounds [] w s = s
SafeLoop-rounds (p ∷ ps) w s = elim (Option-cases (next_android_event w p.picked)) [
  | inl missing ↦ rw (missing, rounds) s
  | inr (e, found) ↦
      rw (found, rounds)
        (let r = attend e p w in
          let next = rounds ps (defer_stale_activated_events p.closed r.worker) in
          let safe = SafeRound-attend e p w s in
          SafeLoop-if w.stopped (w, [], true) (after_round r.ending r next) s
            (SafeLoop-after_round r.ending r next safe (
              SafeLoop-rounds ps (defer_stale_activated_events p.closed r.worker)
                (Safe-defer_stale_activated_events p.closed r.worker safe))))
]

SafeLoop-process_trigger :
    (now : ℕ) (ps : List Plan) (w : Worker) → Safe w → SafeLoop (process_trigger now ps w)
unfolding process_trigger
SafeLoop-process_trigger now ps w s =
    SafeLoop-rounds ps (defer_stale_activated_events now w)
      (Safe-defer_stale_activated_events now w s)

-- However the worker's main loop runs, whatever the downloads answer, and whatever notifications,
-- buttons and stops come in while it waits: a coordinator with a valid queue whose document the
-- store holds still is one at the end.
pub serve-IsSaved :
    (now : ℕ) (ps : List Plan) (w : Worker)
    → IsSaved w.coordinator
    → IsSaved (serve now ps w).0.coordinator
unfolding serve
serve-IsSaved now ps w s =
    let heard = clear_trigger w in
    let running : Worker = record heard { policy = record heard.policy { running = true } } in
    let (w', ready, returned) = process_trigger now ps running in
    SafeLoop-if heard.stopped (heard, [], true)
      (record w' { policy = record w'.policy { running = false } }, ready, returned) s
      (SafeLoop-process_trigger now ps running s)
