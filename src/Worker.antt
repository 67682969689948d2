-- ===== src/Worker.antt =====
-- custom_components/reolink_battery/recording_worker.py and recording_worker_v138.py: the state of
-- the automatic recording worker and the rules by which it admits, picks and defers events. The
-- class is the one that `__init__.py` builds, v138's `RecordingWorker` over its base.
pub mod State
pub mod Pick
pub mod Startup
pub mod Manual
pub mod Outside
pub mod Attempt
pub mod Round
pub mod Credit
pub mod Quiet
pub mod Yielding
pub mod Saved
pub mod Sample
mod Tests
use ha_reolink_battery.Base.{
  ℕ, ◌+◌, ◌*◌, String, Bool, true, false, not, ◌&&◌, ◌||◌, Option, none, some, List, [], ◌∷◌,
  if◌then◌else◌, ltb, leb, length, keep, contains, discard, insert, ◌==◌,
}
use ha_reolink_battery.Event.{CloudEvent, event_time, is_automatic_event_fresh}
use ha_reolink_battery.Queue.{EventQueue, ids}
use ha_reolink_battery.Coordinator.{
  Coordinator, pending_events, is_event_deferred, async_defer_event, async_rearm_event,
  async_clear_deferred_events,
}
use State.{Policy, Recovery, Worker}

abbrev pub android_notification : String
android_notification = "android_notification"

abbrev pub is_android : CloudEvent → Bool
is_android e = e.source == android_notification

abbrev pub pending : Worker → List CloudEvent
pending w = pending_events w.coordinator

abbrev pub is_deferred : Worker → CloudEvent → Bool
is_deferred w e = is_event_deferred e.event_id w.coordinator

-- `max(events, key=event_time, default=None)`: the first of the greatest.
unfoldable pub later : CloudEvent → CloudEvent → CloudEvent
later best e = if ltb (event_time best) (event_time e) then e else best

unfoldable pub later_of : CloudEvent → List CloudEvent → CloudEvent
later_of best [] = best
later_of best (e ∷ es) = later_of (later best e) es

unfoldable pub newest : List CloudEvent → Option CloudEvent
newest [] = none
newest (e ∷ es) = some (later_of e es)

-- The test of the generator in `_eligible_pending_events`.
unfoldable pub is_eligible : Worker → ℕ → CloudEvent → Bool
is_eligible w now e = is_android e && not (is_deferred w e) && is_automatic_event_fresh e now

unfoldable pub eligible_pending_events : Worker → ℕ → List CloudEvent
eligible_pending_events w now = keep (is_eligible w now) (pending w)

unfoldable pub refresh_pending_counts : ℕ → Worker → Worker
refresh_pending_counts now w = record w {
  policy = record w.policy {
    deferred_count = length w.coordinator.queue.deferred;
    eligible_fresh_pending_count = length (eligible_pending_events w now);
    stale_pending_count =
        length (keep (λ e. not (is_automatic_event_fresh e now)) (keep is_android (pending w)));
  };
}

-- The test of the generator in `_next_android_event`.
unfoldable pub is_candidate : Worker → ℕ → CloudEvent → Bool
is_candidate w now e =
    is_android e
    && not (is_deferred w e)
    && (contains e.event_id w.manual
        || contains e.event_id w.credits
        || (contains e.event_id w.activated && is_automatic_event_fresh e now))

unfoldable pub next_android_event : Worker → ℕ → Option CloudEvent
next_android_event w now = newest (keep (is_candidate w now) (pending w))

-- The base class's rule, which v138 replaces.
unfoldable pub is_base_candidate : Worker → ℕ → CloudEvent → Bool
is_base_candidate w now e =
    is_android e
    && contains e.event_id w.activated
    && not (is_deferred w e)
    && is_automatic_event_fresh e now

-- `next((candidate for candidate in pending if ...), None)`
unfoldable pub find_android : String → List CloudEvent → Option CloudEvent
find_android x [] = none
find_android x (e ∷ es) =
    let rest = find_android x es in if e.event_id == x && is_android e then some e else rest

unfoldable pub credits_event : Worker → ℕ → Option CloudEvent → Bool
credits_event w now none = false
credits_event w now (some e) = not (is_deferred w e) && is_automatic_event_fresh e now

-- `notify` of the base class, then that of v138.
unfoldable pub notify : String → ℕ → Worker → Worker
notify x now w =
    let woken : Worker = record w {
      activated = insert x w.activated;
      policy = record w.policy { pending_trigger = true };
      trigger = true;
    } in
    if credits_event woken now (find_android x (pending woken))
    then record woken { credits = insert x woken.credits }
    else woken

unfoldable pub shutdown : Worker → Worker
shutdown w = record w {
  policy = record w.policy { enabled = false };
  stopped = true;
  trigger = true;
}

-- `_defer_event` of the base class, then that of v138.
unfoldable pub defer_event : CloudEvent → String → ℕ → Worker → Worker
defer_event e reason now w =
    let c = (async_defer_event e.event_id reason now w.coordinator).0 in
    record w {
      coordinator = c;
      activated = discard e.event_id w.activated;
      policy = record w.policy {
        deferred_count = length c.queue.deferred;
        last_deferred_event_time = some (event_time e);
      };
      manual = discard e.event_id w.manual;
      credits = discard e.event_id w.credits;
    }

-- The test of the loop in `_defer_stale_activated_events`.
unfoldable pub is_stale_activated : Worker → ℕ → CloudEvent → Bool
is_stale_activated w now e =
    contains e.event_id w.activated
    && not (contains e.event_id w.manual)
    && not (contains e.event_id w.credits)
    && not (is_automatic_event_fresh e now)

-- The loop over the pending events; a deferral leaves that list as it is.
unfoldable pub defer_stale : List CloudEvent → ℕ → Worker → Worker
defer_stale [] now w = w
defer_stale (e ∷ es) now w =
    defer_stale es now
      (if is_stale_activated w now e then defer_event e "automatic_event_stale" now w else w)

unfoldable pub defer_stale_activated_events : ℕ → Worker → Worker
defer_stale_activated_events now w = refresh_pending_counts now (defer_stale (pending w) now w)

unfoldable pub newer_pending_event : CloudEvent → ℕ → Worker → Option CloudEvent
newer_pending_event e now w = elim (next_android_event w now) [
  | none ↦ none
  | some n ↦
      if n.event_id == e.event_id
      then none
      else if leb (event_time n) (event_time e)
      then none
      else some n
]

unfoldable pub record_retry_preemption : CloudEvent → CloudEvent → Worker → Worker
record_retry_preemption e newer w = record w {
  policy = record w.policy {
    retry_preemptions = w.policy.retry_preemptions + 1;
    last_preempted_event_time = some (event_time e);
    last_preempting_event_time = some (event_time newer);
  };
}

-- `_consume_automatic_first_attempt_credit`
unfoldable pub consume_credit : CloudEvent → ℕ → Worker → Worker × Bool
consume_credit e now w = if not (contains e.event_id w.credits) then (w, false) else (
  record w {
    credits = discard e.event_id w.credits;
    recovery =
        (if is_automatic_event_fresh e now
          then record w.recovery { credits_granted = w.recovery.credits_granted + 1 }
          else record w.recovery {
            credits_granted = w.recovery.credits_granted + 1;
            late_first_attempts = w.recovery.late_first_attempts + 1;
            last_late_first_attempt_event_time = some (event_time e);
          });
  },
  true,
)
