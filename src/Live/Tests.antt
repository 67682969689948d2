-- ===== src/Live/Tests.antt =====
-- live_http.py: the theorems at a hub with one video consumer whose producer runs.
use ha_reolink_battery.Base.{refl, false, none, some, [], ◌∷◌, arith}
use ha_reolink_battery.Live.{
  Hub, end_source, media, pause_for_recording, resume_after_recording, running, video,
}
use ha_reolink_battery.Live.Yield.{IsGuarded}
use ha_reolink_battery.Live.Steps.{pauses, run, run-IsGuarded, shows, subscribes}
use ha_reolink_battery.Live.Preserve.{Same, pause_end_resume}

abbrev watched : Hub
watched = record {
  video_queues = record { key = 1; maxsize = 64; items = media "frame" ∷ [] } ∷ [];
  audio_queues = [];
  producer = running;
  stop_event = some false;
  sessions_started = 1;
  sessions_completed = 0;
  last_failure_stage = none;
  last_failure_type = none;
  recording_priority_depth = 0;
  recording_preemptions = 0;
  recording_preserved_finishes = 0;
  recording_preserved_consumers = 0;
}

watched-IsGuarded : IsGuarded watched
watched-IsGuarded = record {
  yields = λ p. absurd (omega (arith, p));
  video_bounded = (omega arith, tt);
  audio_bounded = tt;
}

run-IsGuarded_example : IsGuarded (run (pauses ∷ subscribes video 2 ∷ shows "more" ∷ []) watched)
run-IsGuarded_example =
    run-IsGuarded (pauses ∷ subscribes video 2 ∷ shows "more" ∷ []) watched watched-IsGuarded

pause_end_resume_example : Same watched (
    resume_after_recording
      (end_source (some ("LIVE_START", "Timeout")) (pause_for_recording watched).0))
pause_end_resume_example = pause_end_resume (some ("LIVE_START", "Timeout")) watched refl
