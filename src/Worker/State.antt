-- ===== src/Worker/State.antt =====
-- recording_worker.py: `RecordingWorkerState`, split into what the policy writes and what an
-- attempt writes, and the fields of the two worker classes.
use ha_reolink_battery.Base.{ℕ, String, Bool, Option, List}
use ha_reolink_battery.Coordinator.{Coordinator}

-- The fields of `RecordingWorkerState` that the policy writes.
pub record Policy : Type 0 where
  pub enabled : Bool
  pub running : Bool
  pub pending_trigger : Bool
  pub retries : ℕ
  pub deferred_count : ℕ
  pub deferred_rearmed_count : ℕ
  pub eligible_fresh_pending_count : ℕ
  pub stale_pending_count : ℕ
  pub startup_recovery_eligible : Bool
  pub startup_skipped_stale_count : ℕ
  pub startup_not_selected_count : ℕ
  pub last_startup_skipped_event_time : Option ℕ
  pub retry_preemptions : ℕ
  pub last_preempted_event_time : Option ℕ
  pub last_preempting_event_time : Option ℕ
  pub last_deferred_event_time : Option ℕ
  pub waiting_camera_closed : Bool

-- `UidResolveTrace`, as the worker copies it; times in microseconds.
pub record UidResolve : Type 0 where
  pub timeout : ℕ
  pub resend_interval : ℕ
  pub send_rounds : ℕ
  pub datagrams_sent : ℕ
  pub elapsed : Option ℕ
  pub succeeded : Bool

-- The fields of the stream trace that the worker reads.
pub record StreamTrace : Type 0 where
  pub termination_reason : String
  pub elapsed : Option ℕ
  pub file_bytes_written : ℕ
  pub xml_reported_size : Option ℕ
  pub remote_disconnect_observed : Bool
  pub file_saved : Bool
  pub final_size : ℕ

-- The fields of `RecordingWorkerState` that an attempt writes.
pub record Attempts : Type 0 where
  pub attempts : ℕ
  pub completed : ℕ
  pub deduplicated_recordings : ℕ
  pub last_duplicate_event_time : Option ℕ
  pub last_duplicate_fingerprint_present : Bool
  pub prior_attempt_event_time : Option ℕ
  pub prior_attempt_time : Option ℕ
  pub prior_failure_stage : String
  pub prior_failure_type : String
  pub prior_uid_resolve_succeeded : Bool
  pub prior_uid_resolve_elapsed : Option ℕ
  pub prior_stream : Option StreamTrace
  pub last_event_time : Option ℕ
  pub last_attempt_time : Option ℕ
  pub last_completed_time : Option ℕ
  pub last_failure_stage : String
  pub last_failure_type : String
  pub last_file_saved : Bool
  pub last_file_size : ℕ
  pub last_ready_event_fired : Bool
  pub last_media_source_id : String
  pub last_media_content_id_present : Bool
  pub last_uid_resolve : UidResolve

-- The counters of v138's `RecordingWorker`.
pub record Recovery : Type 0 where
  pub requests : ℕ
  pub rearmed : ℕ
  pub last_queued : ℕ
  pub stale_match_single_attempts : ℕ
  pub clear_requests : ℕ
  pub clear_last_count : ℕ
  pub cleared_total : ℕ
  pub credits_granted : ℕ
  pub late_first_attempts : ℕ
  pub last_late_first_attempt_event_time : Option ℕ

-- `activated`, `manual` and `credits` are the sets `_activated_event_ids`,
-- `_manual_recovery_event_ids` and `_automatic_first_attempt_credit_event_ids`; `stream` is the
-- entry of `_STREAM_STATES` for this config entry.
pub record Worker : Type 0 where
  pub coordinator : Coordinator
  pub activated : List String
  pub manual : List String
  pub credits : List String
  pub trigger : Bool
  pub stopped : Bool
  pub policy : Policy
  pub attempt : Attempts
  pub recovery : Recovery
  pub stream : StreamTrace
