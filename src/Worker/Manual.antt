-- ===== src/Worker/Manual.antt =====
-- recording_worker_v138.py: the two buttons, `async_request_manual_recovery` and
-- `async_clear_deferred_recordings`.
pub mod Admits
pub mod Clears
use ha_reolink_battery.Base.{
  ℕ, ◌+◌, String, Bool, true, false, Option, none, some, List, [], ◌∷◌, if◌then◌else◌, length, keep,
  contains, discard, insert,
}
use ha_reolink_battery.Event.{CloudEvent}
use ha_reolink_battery.Queue.{ids}
use ha_reolink_battery.Coordinator.{
  Coordinator, is_event_deferred, async_rearm_event, async_clear_deferred_events,
}
use ha_reolink_battery.Worker.State.{Worker}
use ha_reolink_battery.Worker.{pending, is_android, android_notification, refresh_pending_counts}

-- `if coordinator.is_event_deferred(id): if await coordinator.async_rearm_event(id): rearmed += 1`
unfoldable pub rearm_one : String → Coordinator × ℕ → Coordinator × ℕ
rearm_one x (c, n) =
    if is_event_deferred x c
    then (let (c', done) = async_rearm_event x c in (c', if done then n + 1 else n))
    else (c, n)

unfoldable pub rearm_all : List CloudEvent → Coordinator × ℕ → Coordinator × ℕ
rearm_all [] s = s
rearm_all (e ∷ es) s = rearm_all es (rearm_one e.event_id s)

-- `s.update(event ids)`
unfoldable pub insert_all : List CloudEvent → List String → List String
insert_all [] xs = xs
insert_all (e ∷ es) xs = insert_all es (insert e.event_id xs)

unfoldable pub recover : List CloudEvent → ℕ → Worker → Worker × ℕ
recover [] now w = (record w { recovery = record w.recovery { last_queued = 0 } }, 0)
recover (e ∷ es) now w =
    let (c, rearmed) = rearm_all (e ∷ es) (w.coordinator, 0) in
    let queued = length (insert_all (e ∷ es) []) in
    (
      refresh_pending_counts now (record w {
        coordinator = c;
        manual = insert_all (e ∷ es) w.manual;
        activated = insert_all (e ∷ es) w.activated;
        recovery = record w.recovery {
          requests = w.recovery.requests + 1;
          rearmed = w.recovery.rearmed + rearmed;
          last_queued = queued;
        };
        policy = record w.policy {
          deferred_rearmed_count = w.policy.deferred_rearmed_count + rearmed;
          pending_trigger = true;
        };
        trigger = true;
      }),
      queued,
    )

unfoldable pub request_manual_recovery : ℕ → Worker → Worker × ℕ
request_manual_recovery now w = recover (keep is_android (pending w)) now w

-- `for event_id in removed: s.discard(event_id)`
unfoldable pub discard_all : List String → List String → List String
discard_all [] ys = ys
discard_all (x ∷ xs) ys = discard_all xs (discard x ys)

unfoldable pub clear_deferred_recordings : ℕ → Worker → Worker × ℕ
clear_deferred_recordings now w =
    let (c, removed) = async_clear_deferred_events (some android_notification) w.coordinator in
    (
      refresh_pending_counts now (record w {
        coordinator = c;
        recovery = record w.recovery {
          clear_requests = w.recovery.clear_requests + 1;
          clear_last_count = length removed;
          cleared_total = w.recovery.cleared_total + length removed;
        };
        activated = discard_all removed w.activated;
        manual = discard_all removed w.manual;
        credits = discard_all removed w.credits;
      }),
      length removed,
    )
