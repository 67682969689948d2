-- ===== src/Worker/Quiet/Returns.antt =====
-- recording_worker.py, recording_worker_v138.py: without other tasks, the worker's main loop comes
-- to its end.
use ha_reolink_battery.Base.{
  ℕ, ◌<◌, ◌≡◌, refl, sym, subst, inl, inr, Bool, true, false, some, List, [], ◌∷◌, arith,
  if◌then◌else◌, length, All, Option-cases,
}
use ha_reolink_battery.Event.{CloudEvent}
use ha_reolink_battery.Coordinator.{is_event_deferred, async_defer_event}
use ha_reolink_battery.Worker.State.{Worker}
use ha_reolink_battery.Worker.{next_android_event, defer_event, defer_stale_activated_events}
use ha_reolink_battery.Worker.Pick.{Picked, next_android_event-Picked}
use ha_reolink_battery.Worker.Attempt.{Ready}
use ha_reolink_battery.Worker.Round.{
  Ending, Plan, Round, stopped, completed, preempted, exhausted, after_round, attend, close_round,
  ends, process_trigger, rounds, run_attempts, serve, settle_event,
}
use ha_reolink_battery.Worker.Quiet.{IsQuiet, IsQuietTry, Narrows, settle_event-Rests}
use ha_reolink_battery.Worker.Quiet.Attempts.{Settles, run_attempts-Settled}
use ha_reolink_battery.Worker.Quiet.Measure.{
  open_events, open_events_complete, open_events-defer, open_events-defer_stale_activated_events,
}

-- What a quiet round does to the open work.
abbrev Lowers : Worker → Worker → Ending → Type 0
Lowers v w stopped = Unit
Lowers v w preempted = ⊥
Lowers v w completed = open_events w.coordinator < open_events v.coordinator
Lowers v w (exhausted reason) = open_events w.coordinator < open_events v.coordinator

module _ (e : CloudEvent) (v : Worker) (start : ℕ) (chosen : Picked v start (some e)) where
  opened : is_event_deferred e.event_id v.coordinator ≡ false
  unfolding is_event_deferred
  opened = chosen.1.waiting

  close_round-Lowers :
      (now : ℕ) (r : Round) (x : Ending)
      → r.ending ≡ x
      → Settles e v r.worker x
      → Lowers v (close_round e now r).worker (close_round e now r).ending
  unfolding close_round defer_event
  close_round-Lowers now r stopped h k = rw h tt
  close_round-Lowers now r preempted h k = elim k [ ]
  close_round-Lowers now r completed h (rec, same) = rw h (
      subst (λ c. open_events c < open_events v.coordinator) (sym same)
        (open_events_complete e rec v.coordinator chosen.0 opened))
  close_round-Lowers now r (exhausted reason) h k = rw h (
      subst
        (λ c. open_events (async_defer_event e.event_id reason now c).0 < open_events v.coordinator)
        (sym k.same) (open_events-defer e reason now v.coordinator chosen.0 opened))

  Lowers-if :
      (b : Bool) (r s : Round)
      → Lowers v r.worker r.ending
      → Lowers v s.worker s.ending
      → let t = if b then r else s in Lowers v t.worker t.ending
  Lowers-if true r s p q = p
  Lowers-if false r s p q = q

  attend-Lowers :
      (p : Plan) → IsQuiet p → p.picked ≡ start → let r = attend e p v in Lowers v r.worker r.ending
  unfolding attend
  attend-Lowers p quiet clock =
      let (w, calm) = settle_event e p.settled p.settling v in
      let rested = settled_first p quiet in
      let tried = run_attempts 3 0 p.try e false 0 w in
      Lowers-if calm (close_round e p.deferred tried) (ends w stopped)
        (close_round-Lowers p.deferred tried tried.ending refl (
          run_attempts-Settled e v start chosen 3 0 p.try false 0 w
            (λ i. subst (λ t. IsQuietTry t (p.try i)) clock (quiet.tries_quiet i)) rested))
        tt
    where
      settled_first : (p : Plan) → IsQuiet p → Narrows v (settle_event e p.settled p.settling v).0
      settled_first p quiet =
          subst (λ during. Narrows v (settle_event e p.settled during v).0)
            (sym quiet.settling_quiet) (settle_event-Rests e p.settled v).0

-- Three parts: the worker, the ready events, and whether the loop returned.
abbrev Returned : Worker × List Ready × Bool → Type 0
Returned (w, ready, returned) = returned ≡ true

Returned-after_round :
    (v : Worker) (r : Round) (x : Ending) (next : Worker × List Ready × Bool)
    → Lowers v r.worker x
    → (open_events r.worker.coordinator < open_events v.coordinator → Returned next)
    → Returned (after_round x r next)
unfolding after_round
Returned-after_round v r stopped next low more = refl
Returned-after_round v r preempted next low more = elim low [ ]
Returned-after_round v r completed next low more = more low
Returned-after_round v r (exhausted reason) next low more = more low

Returned-if :
    (b : Bool) (x y : Worker × List Ready × Bool)
    → Returned x
    → Returned y
    → Returned (if b then x else y)
Returned-if true x y p q = p
Returned-if false x y p q = q

rounds-Returned :
    (ps : List Plan) (w : Worker)
    → All IsQuiet ps
    → open_events w.coordinator < length ps
    → Returned (rounds ps w)
unfolding rounds
rounds-Returned [] w quiet h = absurd (omega (arith, h))
rounds-Returned (p ∷ ps) w quiet h = elim (Option-cases (next_android_event w p.picked)) [
  | inl done ↦ rw (done, rounds) refl
  | inr (e, found) ↦
      let chosen = subst (Picked w p.picked) found (next_android_event-Picked w p.picked) in
      let r = attend e p w in
      let after = defer_stale_activated_events p.closed r.worker in
      rw (found, rounds)
        (Returned-if w.stopped (w, [], true) (after_round r.ending r (rounds ps after)) refl
          (Returned-after_round w r r.ending (rounds ps after)
            (attend-Lowers e w p.picked chosen p quiet.0 refl)
            λ less.
              rounds-Returned ps after quiet.1 (
                omega
                  (arith, h, less, open_events-defer_stale_activated_events p.closed r.worker))))
]

-- If no other task does anything and the clock does not go back within a round, the worker's main
-- loop returns: it goes through at most as many rounds as there were pending events that are not
-- deferred, and one more to find that no work is left, since every round completes or defers its
-- event and none is preempted.
pub serve-Returned :
    (now : ℕ) (ps : List Plan) (w : Worker)
    → All IsQuiet ps
    → open_events w.coordinator < length ps
    → (serve now ps w).2 ≡ true
unfolding serve process_trigger
serve-Returned now ps w quiet h = Returned-if w.stopped _ _ refl (
    rounds-Returned ps (defer_stale_activated_events now _) quiet
      (omega (arith, h, open_events-defer_stale_activated_events now _)))
