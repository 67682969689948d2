-- ===== src/Worker/Saved.antt =====
-- recording_worker.py, recording_worker_v138.py: the store holds the queue whatever the worker
-- does; first the calls outside the rounds.
mod Attempts
mod Loop
pub mod Main
use ha_reolink_battery.Base.{
  ℕ, ◌+◌, String, ◌≡◌, refl, sym, subst, Bool, true, false, not, ◌&&◌, ◌||◌, Option, none, some,
  List, [], ◌∷◌, if◌then◌else◌, nat_eq, keep,
}
use ha_reolink_battery.Event.{CloudEvent, CompletedRecording}
use ha_reolink_battery.Coordinator.{
  Coordinator, async_clear_deferred_events, async_complete_event, async_defer_event,
  async_ingest_events, async_rearm_event, is_event_deferred,
}
use ha_reolink_battery.Coordinator.Saved.{
  IsSaved, clears, completes, defers, ingests, rearms, step, step-IsSaved,
}
use ha_reolink_battery.Worker.State.{Worker}
use ha_reolink_battery.Worker.{
  android_notification, defer_event, defer_stale, defer_stale_activated_events, is_android,
  is_stale_activated, notify, pending, refresh_pending_counts, shutdown,
}
use ha_reolink_battery.Worker.Startup.Sorted.{coordinator-notify}
use ha_reolink_battery.Worker.Manual.{
  clear_deferred_recordings, rearm_all, rearm_one, recover, request_manual_recovery,
}
use ha_reolink_battery.Worker.Outside.{Act, act, acts, admit_event, ingest_notification}

-- The worker's coordinator is saved.
abbrev pub Safe : Worker → Type 0
Safe w = IsSaved w.coordinator

pub IsSaved-if :
    (b : Bool) (c d : Coordinator) → IsSaved c → IsSaved d → IsSaved (if b then c else d)
IsSaved-if true c d h k = h
IsSaved-if false c d h k = k

pub Safe-if : (b : Bool) (v w : Worker) → Safe v → Safe w → Safe (if b then v else w)
Safe-if true v w h k = h
Safe-if false v w h k = k

defer-IsSaved :
    (x reason : String) (at : ℕ) (c : Coordinator)
    → IsSaved c
    → IsSaved (async_defer_event x reason at c).0
unfolding step
defer-IsSaved x reason at c s = step-IsSaved (defers x reason at) c s

pub complete-IsSaved :
    (x : String) (r : Option CompletedRecording) (c : Coordinator)
    → IsSaved c
    → IsSaved (async_complete_event x r c).0
unfolding step
complete-IsSaved x r c s = step-IsSaved (completes x r) c s

Safe-notify : (x : String) (now : ℕ) (w : Worker) → Safe w → Safe (notify x now w)
Safe-notify x now w s = subst IsSaved (sym (coordinator-notify x now w)) s

Safe-admit_event :
    (e : CloudEvent) (wake : Bool) (now : ℕ) (w : Worker) → Safe w → Safe (admit_event e wake now w)
unfolding admit_event
Safe-admit_event e true now w s = Safe-notify e.event_id now w s
Safe-admit_event e false now w s =
    defer-IsSaved e.event_id "initial_state_stale" now w.coordinator s

Safe-ingest_notification :
    (e : CloudEvent) (wake : Bool) (now : ℕ) (w : Worker)
    → Safe w
    → Safe (ingest_notification e wake now w).0
unfolding ingest_notification step
Safe-ingest_notification e wake now w s =
    let (c, added) = async_ingest_events (e ∷ []) w.coordinator in
    let held : Worker = record w { coordinator = c } in
    let saved : IsSaved c = step-IsSaved (ingests (e ∷ [])) w.coordinator s in
    Safe-if (nat_eq added 0) held (admit_event e wake now held) saved
      (Safe-admit_event e wake now held saved)

IsSaved-rearm_one :
    (x : String) (c : Coordinator) (n : ℕ) → IsSaved c → IsSaved (rearm_one x (c, n)).0
unfolding rearm_one step
IsSaved-rearm_one x c n s = go (is_event_deferred x c)
  where
    go :
        (b : Bool)
        → IsSaved
            (if◌then◌else◌ {A = Coordinator × ℕ} b
              ((async_rearm_event x c).0, if (async_rearm_event x c).1 then n + 1 else n)
              (c, n)).0
    go true = step-IsSaved (rearms x) c s
    go false = s

IsSaved-rearm_all :
    (es : List CloudEvent) (c : Coordinator) (n : ℕ) → IsSaved c → IsSaved (rearm_all es (c, n)).0
unfolding rearm_all
IsSaved-rearm_all [] c n s = s
IsSaved-rearm_all (e ∷ es) c n s =
    IsSaved-rearm_all es (rearm_one e.event_id (c, n)).0 (rearm_one e.event_id (c, n)).1
      (IsSaved-rearm_one e.event_id c n s)

Safe-recover : (es : List CloudEvent) (now : ℕ) (w : Worker) → Safe w → Safe (recover es now w).0
unfolding recover refresh_pending_counts
Safe-recover [] now w s = s
Safe-recover (e ∷ es) now w s = IsSaved-rearm_all (e ∷ es) w.coordinator 0 s

Safe-clear : (now : ℕ) (w : Worker) → Safe w → Safe (clear_deferred_recordings now w).0
unfolding clear_deferred_recordings refresh_pending_counts step
Safe-clear now w s = step-IsSaved (clears (some android_notification)) w.coordinator s

Safe-act : (a : Act) (w : Worker) → Safe w → Safe (act a w)
unfolding act shutdown request_manual_recovery
Safe-act (Act.ingests e wake now) w s = Safe-ingest_notification e wake now w s
Safe-act (Act.recovers now) w s = Safe-recover (keep is_android (pending w)) now w s
Safe-act (Act.clears now) w s = Safe-clear now w s
Safe-act Act.stops w s = s

pub Safe-acts : (some_acts : List Act) (w : Worker) → Safe w → Safe (acts some_acts w)
unfolding acts
Safe-acts [] w s = s
Safe-acts (a ∷ more) w s = Safe-acts more (act a w) (Safe-act a w s)

pub Safe-defer_event :
    (e : CloudEvent) (reason : String) (now : ℕ) (w : Worker)
    → Safe w
    → Safe (defer_event e reason now w)
unfolding defer_event
Safe-defer_event e reason now w s = defer-IsSaved e.event_id reason now w.coordinator s

Safe-defer_stale :
    (es : List CloudEvent) (now : ℕ) (w : Worker) → Safe w → Safe (defer_stale es now w)
unfolding defer_stale
Safe-defer_stale [] now w s = s
Safe-defer_stale (e ∷ es) now w s = Safe-defer_stale es now _ (
    Safe-if (is_stale_activated w now e) (defer_event e "automatic_event_stale" now w) w
      (Safe-defer_event e "automatic_event_stale" now w s) s)

pub Safe-defer_stale_activated_events :
    (now : ℕ) (w : Worker) → Safe w → Safe (defer_stale_activated_events now w)
unfolding defer_stale_activated_events refresh_pending_counts
Safe-defer_stale_activated_events now w s = Safe-defer_stale (pending w) now w s
