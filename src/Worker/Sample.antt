-- ===== src/Worker/Sample.antt =====
-- A small worker, what an attempt meets and a plan of a round, for the tests.
use ha_reolink_battery.Base.{ℕ, zero, suc, true, false, none, some, [], ◌∷◌}
use ha_reolink_battery.Python.Time.{aware}
use ha_reolink_battery.Queue.Sample.{stored}
use ha_reolink_battery.Worker.State.{Attempts, Policy, Recovery, Worker}
use ha_reolink_battery.Worker.Attempt.{
  Meeting, Outcome, downloaded, failed, new_trace, no_uid_resolve, present,
}
use ha_reolink_battery.Worker.Round.{Plan, Try}

abbrev pub idle_policy : Policy
idle_policy = record {
  enabled = true;
  running = false;
  pending_trigger = false;
  retries = 0;
  deferred_count = 1;
  deferred_rearmed_count = 0;
  eligible_fresh_pending_count = 0;
  stale_pending_count = 0;
  startup_recovery_eligible = false;
  startup_skipped_stale_count = 0;
  startup_not_selected_count = 0;
  last_startup_skipped_event_time = none;
  retry_preemptions = 0;
  last_preempted_event_time = none;
  last_preempting_event_time = none;
  last_deferred_event_time = none;
  waiting_camera_closed = false;
}

abbrev pub no_attempts : Attempts
no_attempts = record {
  attempts = 0;
  completed = 0;
  deduplicated_recordings = 0;
  last_duplicate_event_time = none;
  last_duplicate_fingerprint_present = false;
  prior_attempt_event_time = none;
  prior_attempt_time = none;
  prior_failure_stage = "";
  prior_failure_type = "";
  prior_uid_resolve_succeeded = false;
  prior_uid_resolve_elapsed = none;
  prior_stream = none;
  last_event_time = none;
  last_attempt_time = none;
  last_completed_time = none;
  last_failure_stage = "";
  last_failure_type = "";
  last_file_saved = false;
  last_file_size = 0;
  last_ready_event_fired = false;
  last_media_source_id = "";
  last_media_content_id_present = false;
  last_uid_resolve = no_uid_resolve;
}

abbrev pub no_recovery : Recovery
no_recovery = record {
  requests = 0;
  rearmed = 0;
  last_queued = 0;
  stale_match_single_attempts = 0;
  clear_requests = 0;
  clear_last_count = 0;
  cleared_total = 0;
  credits_granted = 0;
  late_first_attempts = 0;
  last_late_first_attempt_event_time = none;
}

-- The event "a" is deferred, and "b" is activated.
abbrev pub on_duty : Worker
on_duty = record {
  coordinator = record { queue = stored; saved = some stored; last_successful_event_time = none };
  activated = "b" ∷ [];
  manual = [];
  credits = "b" ∷ [];
  trigger = true;
  stopped = false;
  policy = idle_policy;
  attempt = no_attempts;
  recovery = no_recovery;
  stream = new_trace;
}

-- A download whose file is verified.
abbrev pub success : Outcome
success = downloaded (record {
  uid_resolve = some no_uid_resolve;
  stream = record new_trace { file_saved = true; final_size = 4096 };
  fingerprint = "f";
  start_time = aware 20;
  end_time = aware 50;
  file = present 4096;
})

abbrev pub meets : Outcome → Meeting
meets outcome = record {
  started = 100;
  media_dirs = "local" ∷ [];
  during = [];
  outcome = outcome;
  completed = 200;
}

-- The first attempt fails, the second one succeeds.
abbrev pub second_try : ℕ → Try
second_try zero = record {
  asked = 90;
  wakes = [];
  credited = 95;
  meeting = meets (failed "TimeoutError");
  checked = 150;
}
second_try (suc i) = record {
  asked = 90;
  wakes = [];
  credited = 95;
  meeting = meets success;
  checked = 150;
}

abbrev pub plan : Plan
plan = record {
  picked = 60;
  settled = 70000000;
  settling = [];
  try = second_try;
  deferred = 300;
  closed = 310;
}
