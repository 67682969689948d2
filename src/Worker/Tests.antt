-- ===== src/Worker/Tests.antt =====
-- recording_worker.py, recording_worker_v138.py: runs on a small worker, and the theorems at
-- concrete data.
use ha_reolink_battery.Base.{
  ℕ, zero, suc, ◌<◌, arith, String, ◌≡◌, refl, ◌≤◌, ◌⊎◌, inl, inr, true, false, none, some, List,
  not, [], ◌∷◌, keep, length, contains,
}
use ha_reolink_battery.Queue.Sample.{motion, stored, stored-IsValid}
use ha_reolink_battery.Coordinator.{is_event_deferred}
use ha_reolink_battery.Coordinator.Saved.{IsSaved}
use ha_reolink_battery.Event.{is_automatic_event_fresh}
use ha_reolink_battery.Worker.Credit.{notify-IsWork}
use ha_reolink_battery.Worker.Saved.Main.{serve-IsSaved}
use ha_reolink_battery.Worker.{notify, pending, next_android_event}
use ha_reolink_battery.Worker.Pick.{IsWork, Picked, next_android_event-Picked}
use ha_reolink_battery.Worker.Startup.{prepare_startup_recovery}
use ha_reolink_battery.Worker.Startup.Sorted.{Chosen, startup_sorted}
use ha_reolink_battery.Worker.Manual.{clear_deferred_recordings, request_manual_recovery}
use ha_reolink_battery.Worker.Manual.Admits.{request_manual_recovery-IsWork}
use ha_reolink_battery.Worker.Manual.Clears.{
  Forgets, cleared_by, clear_deferred_recordings_lem, removed_ids,
}
use ha_reolink_battery.Worker.Attempt.{process_once}
use ha_reolink_battery.Worker.Round.{attend, serve}
use ha_reolink_battery.Worker.Round.Delays.{attend_delays, sum}
use ha_reolink_battery.Worker.Round.Ends.{Fate, attend-Fate}
use ha_reolink_battery.Worker.Quiet.{IsQuiet, IsQuietTry}
use ha_reolink_battery.Worker.Quiet.Measure.{open_events}
use ha_reolink_battery.Worker.Quiet.Returns.{serve-Returned}
use ha_reolink_battery.Live.{Hub, pause_for_recording, running, video, is_active}
use ha_reolink_battery.Live.Yield.{IsGuarded}
use ha_reolink_battery.Live.Steps.{Step, run, subscribes, shows}
use ha_reolink_battery.Worker.Yielding.{Resumed, process_once_yielding, process_once_yielding_lem}
use ha_reolink_battery.Worker.Sample.{second_try, on_duty, success, meets, plan}

next_android_event-Picked_example : Picked on_duty 40 (next_android_event on_duty 40)
next_android_event-Picked_example = next_android_event-Picked on_duty 40

startup_sorted_example :
    let (w', chosen) = prepare_startup_recovery 40 41 on_duty in
    (pending w' ≡ pending on_duty)
    × ((is_event_deferred "b" w'.coordinator ≡ true)
        ⊎ Chosen 40 (pending on_duty) chosen (motion "b" 20))
startup_sorted_example = startup_sorted 40 41 on_duty (motion "b" 20) (inr (inl refl)) refl

request_manual_recovery-IsWork_example :
    let w' = (request_manual_recovery 40 on_duty).0 in
    (pending w' ≡ pending on_duty) × IsWork w' 900000000 (motion "a" 10)
request_manual_recovery-IsWork_example =
    request_manual_recovery-IsWork 40 900000000 on_duty (motion "a" 10) (inl refl) refl

clear_deferred_recordings_lem_example :
    let d = stored-IsValid.pending_distinct in
    let (w', n) = clear_deferred_recordings 40 on_duty in
    (pending w' ≡ keep (λ e. not (cleared_by on_duty e)) (pending on_duty))
    × (n ≡ length (removed_ids 40 on_duty d))
    × (w'.coordinator.queue.processed_set ≡ stored.processed_set)
    × ((x : String) → contains x (removed_ids 40 on_duty d) ≡ true → Forgets w' x)
clear_deferred_recordings_lem_example =
    clear_deferred_recordings_lem 40 on_duty stored-IsValid.pending_distinct

attend_delays_example :
    let ds = (attend (motion "b" 20) plan on_duty).delays in (length ds ≤ 2) × (sum ds ≤ 90000000)
attend_delays_example = attend_delays (motion "b" 20) plan on_duty

attend-Fate_example :
    let r = attend (motion "b" 20) plan on_duty in Fate (motion "b" 20) r.worker r.ending
attend-Fate_example = attend-Fate (motion "b" 20) plan on_duty

on_duty-IsSaved : IsSaved on_duty.coordinator
on_duty-IsSaved = record { valid = stored-IsValid; stored = refl }

serve-IsSaved_example : IsSaved (serve 50 (plan ∷ []) on_duty).0.coordinator
serve-IsSaved_example = serve-IsSaved 50 (plan ∷ []) on_duty on_duty-IsSaved

notify-IsWork_example : IsWork (notify "b" 40 on_duty) 900000000 (motion "b" 20)
unfolding contains is_event_deferred is_automatic_event_fresh
notify-IsWork_example =
    notify-IsWork (motion "b" 20) 40 900000000 on_duty stored-IsValid.pending_distinct
      (inr (inl refl)) refl refl refl

second_try-IsQuietTry : (i : ℕ) → IsQuietTry 60 (second_try i)
second_try-IsQuietTry zero = record {
  asked_later = omega arith;
  wakes_quiet = tt;
  meeting_quiet = refl;
}
second_try-IsQuietTry (suc i) = record {
  asked_later = omega arith;
  wakes_quiet = tt;
  meeting_quiet = refl;
}

plan-IsQuiet : IsQuiet plan
plan-IsQuiet = record { settling_quiet = refl; tries_quiet = second_try-IsQuietTry }

on_duty_open : open_events on_duty.coordinator < 2
unfolding is_event_deferred contains
on_duty_open = omega arith

serve-Returned_example : (serve 50 (plan ∷ plan ∷ []) on_duty).2 ≡ true
serve-Returned_example =
    serve-Returned 50 (plan ∷ plan ∷ []) on_duty (plan-IsQuiet, (plan-IsQuiet, tt)) on_duty_open

-- A hub with one viewer whose session runs.
abbrev viewed : Hub
viewed = record {
  video_queues = record { key = 1; maxsize = 64; items = [] } ∷ [];
  audio_queues = [];
  producer = running;
  stop_event = some false;
  sessions_started = 1;
  sessions_completed = 0;
  last_failure_stage = none;
  last_failure_type = none;
  recording_priority_depth = 0;
  recording_preemptions = 0;
  recording_preserved_finishes = 0;
  recording_preserved_consumers = 0;
}

viewed-IsGuarded : IsGuarded viewed
viewed-IsGuarded = record {
  yields = λ p. absurd (omega (arith, p));
  video_bounded = (omega arith, tt);
  audio_bounded = tt;
}

abbrev viewing : List Step
viewing = shows "frame" ∷ subscribes video 2 ∷ []

process_once_yielding_lem_example :
    let (attempted, after) =
      process_once_yielding viewing (motion "b" 20) (meets success) on_duty (some viewed) in
    let meanwhile = run viewing (pause_for_recording viewed).0 in
    (attempted ≡ process_once (motion "b" 20) (meets success) on_duty)
    × (is_active meanwhile ≡ true → (is_active viewed ≡ true) × (meanwhile.stop_event ≡ some true))
    × Resumed viewed after
process_once_yielding_lem_example =
    process_once_yielding_lem viewing (motion "b" 20) (meets success) on_duty viewed (tt, (tt, tt))
      viewed-IsGuarded
