-- ===== src/Worker/Outside.antt =====
-- __init__.py: `ingest_notification`, and what other tasks may do to the worker while it waits.
use ha_reolink_battery.Base.{ℕ, Bool, true, false, List, [], ◌∷◌, if◌then◌else◌, nat_eq}
use ha_reolink_battery.Event.{CloudEvent}
use ha_reolink_battery.Coordinator.{async_ingest_events, async_defer_event}
use ha_reolink_battery.Worker.State.{Worker}
use ha_reolink_battery.Worker.{notify, shutdown}
use ha_reolink_battery.Worker.Manual.{request_manual_recovery, clear_deferred_recordings}

-- An event that may wake the camera is announced to the worker; another one is deferred.
unfoldable pub admit_event : CloudEvent → Bool → ℕ → Worker → Worker
admit_event e true now w = notify e.event_id now w
admit_event e false now w = record w {
  coordinator = (async_defer_event e.event_id "initial_state_stale" now w.coordinator).0;
}

unfoldable pub ingest_notification : CloudEvent → Bool → ℕ → Worker → Worker × ℕ
ingest_notification e wake now w =
    let (c, added) = async_ingest_events (e ∷ []) w.coordinator in
    let held : Worker = record w { coordinator = c } in
    (if nat_eq added 0 then held else admit_event e wake now held, added)

-- Each with the clock that the call reads.
pub data Act : Type 0 where
  ingests : CloudEvent → Bool → ℕ → Act
  recovers : ℕ → Act
  clears : ℕ → Act
  stops : Act

unfoldable pub act : Act → Worker → Worker
act (ingests e wake now) w = (ingest_notification e wake now w).0
act (recovers now) w = (request_manual_recovery now w).0
act (clears now) w = (clear_deferred_recordings now w).0
act stops w = shutdown w

unfoldable pub acts : List Act → Worker → Worker
acts [] w = w
acts (a ∷ more) w = acts more (act a w)
