-- ===== src/Worker/Startup.antt =====
-- recording_worker.py: `async_prepare_startup_recovery`, which sorts the backlog that a restart
-- finds and activates at most one event of it.
pub mod Sorted
use ha_reolink_battery.Base.{
  ℕ, String, Bool, true, false, not, ◌&&◌, Option, none, some, List, [], ◌∷◌, if◌then◌else◌, length,
  keep, ◌==◌,
}
use ha_reolink_battery.Event.{CloudEvent, event_time, is_automatic_event_fresh}
use ha_reolink_battery.Coordinator.{
  Coordinator, is_event_deferred, async_defer_event, pending_events,
}
use ha_reolink_battery.Worker.State.{Worker}
use ha_reolink_battery.Worker.{
  pending, is_android, newest, eligible_pending_events, refresh_pending_counts, notify,
}

-- The pending Android events that are too old.
unfoldable pub stale_events : ℕ → List CloudEvent → List CloudEvent
stale_events now es = keep (λ e. not (is_automatic_event_fresh e now)) (keep is_android es)

unfoldable pub defer_if_waiting : CloudEvent → String → ℕ → Coordinator → Coordinator
defer_if_waiting e reason now c =
    if is_event_deferred e.event_id c then c else (async_defer_event e.event_id reason now c).0

-- The loop over the stale events.
unfoldable pub defer_backlog : List CloudEvent → ℕ → Coordinator → Coordinator
defer_backlog [] now c = c
defer_backlog (e ∷ es) now c = defer_backlog es now (defer_if_waiting e "startup_event_stale" now c)

-- The loop over the eligible events that were not chosen.
unfoldable pub defer_others : List CloudEvent → ℕ → Coordinator → Coordinator
defer_others [] now c = c
defer_others (e ∷ es) now c =
    defer_others es now (async_defer_event e.event_id "startup_not_selected" now c).0

unfoldable pub latest_time : List CloudEvent → Option ℕ
latest_time es = elim (newest es) [ none ↦ none | some e ↦ some (event_time e) ]

-- `[event for event in eligible if candidate is not None and event.event_id != candidate.event_id]`
unfoldable pub not_selected : Option CloudEvent → List CloudEvent → List CloudEvent
not_selected none es = []
not_selected (some c) es = keep (λ e. not (e.event_id == c.event_id)) es

abbrev pub notify_some : Option CloudEvent → ℕ → Worker → Worker
notify_some none now w = w
notify_some (some e) now w = notify e.event_id now w

-- The first half: the stale events are counted and deferred.
unfoldable pub skip_stale : ℕ → Worker → Worker
skip_stale now w =
    let stale = stale_events now (pending w) in
    record w {
      coordinator = defer_backlog stale now w.coordinator;
      policy = record w.policy {
        startup_skipped_stale_count = length stale;
        last_startup_skipped_event_time = latest_time stale;
      };
    }

-- The second half: the newest eligible event stays, the others are deferred.
unfoldable pub select_newest : ℕ → ℕ → Worker → Worker × Option CloudEvent
select_newest now later w =
    let eligible = eligible_pending_events w now in
    let candidate = newest eligible in
    let others = not_selected candidate eligible in
    let chosen : Worker = record w {
      coordinator = defer_others others now w.coordinator;
      policy = record w.policy {
        startup_not_selected_count = length others;
        startup_recovery_eligible = elim candidate [ none ↦ false | some _ ↦ true ];
      };
    } in
    (notify_some candidate later (refresh_pending_counts now chosen), candidate)

-- `notify` reads the clock once more; `later` is that reading.
unfoldable pub prepare_startup_recovery : ℕ → ℕ → Worker → Worker × Option CloudEvent
prepare_startup_recovery now later w = select_newest now later (skip_stale now w)
