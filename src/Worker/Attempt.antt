-- ===== src/Worker/Attempt.antt =====
-- recording_worker.py: `_process_once`, one attempt to fetch the recording of an event. What the
-- download and the file system answer is the `Outcome`; the other tasks run while it is awaited.
pub mod Contract
use ha_reolink_battery.Base.{
  ℕ, ◌+◌, ◌*◌, String, Bool, true, false, not, ◌&&◌, Option, none, some, List, [], ◌∷◌, ◌==◌,
  if◌then◌else◌, ltb, nat_eq, contains, append, ℤ, pos,
}
use ha_reolink_battery.Python.Time.{Stamp}
use ha_reolink_battery.Event.{CloudEvent, CompletedRecording, event_time}
use ha_reolink_battery.Coordinator.{async_complete_event}
use ha_reolink_battery.Worker.State.{Attempts, StreamTrace, UidResolve, Worker}
use ha_reolink_battery.Worker.Outside.{Act, acts}

-- `CameraStageError`; `response_code` is the decimal text of its code, if that is an int.
pub record StageError : Type 0 where
  pub stage : String
  pub failure_type : String
  pub class_name : String
  pub response_code : Option String
  pub uid_resolve : Option UidResolve
  pub stream : Option StreamTrace

-- What the file system says of the final path.
pub data FileCheck : Type 0 where
  stat_error : String → FileCheck
  absent : FileCheck
  present : ℕ → FileCheck

pub record Download : Type 0 where
  pub uid_resolve : Option UidResolve
  pub stream : StreamTrace
  pub fingerprint : String
  pub start_time : Stamp
  pub end_time : Stamp
  pub file : FileCheck

-- How `async_prepare_download_for_event` ends.
pub data Outcome : Type 0 where
  already_completed : Option UidResolve → String → Outcome
  stage_failed : StageError → Outcome
  failed : String → Outcome
  downloaded : Download → Outcome

-- The ready event; its file path and content id are built of the media source and the start time.
pub record Ready : Type 0 where
  pub event_id : String
  pub device_name : String
  pub alarm_time : ℕ
  pub source : String
  pub media_source_id : String
  pub start_time : Stamp
  pub file_size : ℕ

pub record Attempted : Type 0 where
  pub worker : Worker
  pub done : Bool
  pub ready : Option Ready

-- What an attempt meets: the media directories' names, the acts of other tasks while the download
-- is awaited, how that ends, and the clock when the attempt starts and when a file is verified.
pub record Meeting : Type 0 where
  pub started : ℕ
  pub media_dirs : List String
  pub during : List Act
  pub outcome : Outcome
  pub completed : ℕ

abbrev pub new_trace : StreamTrace
new_trace = record {
  termination_reason = "";
  elapsed = none;
  file_bytes_written = 0;
  xml_reported_size = none;
  remote_disconnect_observed = false;
  file_saved = false;
  final_size = 0;
}

abbrev pub no_uid_resolve : UidResolve
no_uid_resolve = record {
  timeout = 0;
  resend_interval = 0;
  send_rounds = 0;
  datagrams_sent = 0;
  elapsed = none;
  succeeded = false;
}

-- The previous attempt's telemetry, if there was one.
unfoldable pub carry_prior : StreamTrace → Option ℕ → Attempts → Attempts
carry_prior trace none a = a
carry_prior trace (some at) a = record a {
  prior_attempt_event_time = a.last_event_time;
  prior_attempt_time = some at;
  prior_failure_stage = a.last_failure_stage;
  prior_failure_type = a.last_failure_type;
  prior_uid_resolve_succeeded = a.last_uid_resolve.succeeded;
  prior_uid_resolve_elapsed = a.last_uid_resolve.elapsed;
  prior_stream = some trace;
}

-- Up to the call of `reset_stream_probe_state`.
unfoldable pub begin_attempt : CloudEvent → ℕ → Worker → Worker
begin_attempt e now w =
    let a = carry_prior w.stream w.attempt.last_attempt_time w.attempt in
    record w {
      attempt = record a {
        attempts = a.attempts + 1;
        last_attempt_time = some now;
        last_event_time = some (event_time e);
        last_failure_stage = "";
        last_failure_type = "";
        last_file_saved = false;
        last_file_size = 0;
        last_ready_event_fired = false;
        last_duplicate_fingerprint_present = false;
        last_uid_resolve = no_uid_resolve;
      };
      stream = new_trace;
    }

unfoldable pub apply_uid_resolve_trace : Option UidResolve → Worker → Worker
apply_uid_resolve_trace none w = w
apply_uid_resolve_trace (some t) w = record w {
  attempt = record w.attempt { last_uid_resolve = t };
}

unfoldable pub apply_stream_probe_trace : Option StreamTrace → Worker → Worker
apply_stream_probe_trace none w = w
apply_stream_probe_trace (some t) w = record w { stream = t }

unfoldable pub fail_with : String → String → Worker → Worker
fail_with stage kind w = record w {
  attempt = record w.attempt { last_failure_stage = stage; last_failure_type = kind };
}

-- Keeps the failure type that the attempt has so far.
unfoldable pub fail_at : String → Worker → Worker
fail_at stage w = record w { attempt = record w.attempt { last_failure_stage = stage } }

abbrev pub failure : Worker → Attempted
failure w = record { worker = w; done = false; ready = none }

-- `"local" if "local" in media_dirs else next(iter(media_dirs))` of names that are not empty
unfoldable pub media_source : String → List String → String
media_source x xs = if contains "local" (x ∷ xs) then "local" else x

unfoldable pub stage_failure_type : StageError → String
stage_failure_type err =
    let kind = if err.failure_type == "" then err.class_name else err.failure_type in
    elim err.response_code [ none ↦ kind | some code ↦ append kind (append ":rsp" code) ]

-- The handler of `RecordingAlreadyCompletedError`.
unfoldable pub finish_duplicate : CloudEvent → Option UidResolve → String → Worker → Attempted
finish_duplicate e uid fingerprint w =
    let w' = apply_uid_resolve_trace uid w in
    record {
      worker = record w' {
        coordinator = (async_complete_event e.event_id none w'.coordinator).0;
        attempt = record w'.attempt {
          deduplicated_recordings = w'.attempt.deduplicated_recordings + 1;
          last_duplicate_event_time = some (event_time e);
          last_duplicate_fingerprint_present = not (fingerprint == "");
          last_failure_stage = "";
          last_failure_type = "";
        };
      };
      done = true;
      ready = none;
    }

unfoldable pub finish_stage_error : StageError → Worker → Attempted
finish_stage_error err w = failure (
    fail_with err.stage (stage_failure_type err)
      (apply_stream_probe_trace err.stream (apply_uid_resolve_trace err.uid_resolve w)))

-- From the fingerprint's commit to the ready event.
unfoldable pub commit : CloudEvent → String → Download → ℕ → Worker → Attempted
commit e media d now w =
    let r : CompletedRecording = record {
      fingerprint = d.fingerprint;
      start_time = d.start_time;
      end_time = d.end_time;
      size = pos d.stream.final_size;
    } in
    record {
      worker = record w {
        coordinator = (async_complete_event e.event_id (some r) w.coordinator).0;
        attempt = record w.attempt {
          completed = w.attempt.completed + 1;
          last_completed_time = some now;
          last_file_saved = true;
          last_file_size = d.stream.final_size;
          last_media_content_id_present = true;
          last_ready_event_fired = true;
        };
      };
      done = true;
      ready = some (record {
        event_id = e.event_id;
        device_name = e.device_name;
        alarm_time = e.alarm_time;
        source = e.source;
        media_source_id = media;
        start_time = d.start_time;
        file_size = d.stream.final_size;
      });
    }

-- The file is looked at only if the trace reports a size.
unfoldable pub verify : CloudEvent → String → Download → FileCheck → ℕ → Worker → Attempted
verify e media d (stat_error kind) now w =
    if ltb 0 d.stream.final_size
    then failure (fail_with "RECORDING_FILE_VERIFY_ERROR" kind w)
    else failure (fail_at "RECORDING_FILE_VERIFY_ERROR" w)
verify e media d absent now w = failure (fail_at "RECORDING_FILE_VERIFY_ERROR" w)
verify e media d (present size) now w =
    if ltb 0 d.stream.final_size && nat_eq size d.stream.final_size
    then commit e media d now w
    else failure (fail_at "RECORDING_FILE_VERIFY_ERROR" w)

unfoldable pub finish_download : CloudEvent → String → Download → ℕ → Worker → Attempted
finish_download e media d now w =
    let w' = apply_stream_probe_trace (some d.stream) (apply_uid_resolve_trace d.uid_resolve w) in
    if d.stream.file_saved
    then verify e media d d.file now w'
    else failure (fail_at "RECORDING_FILE_NOT_VERIFIED" w')

unfoldable pub finish : CloudEvent → String → Outcome → ℕ → Worker → Attempted
finish e media (already_completed uid fingerprint) now w = finish_duplicate e uid fingerprint w
finish e media (stage_failed err) now w = finish_stage_error err w
finish e media (failed kind) now w = failure (fail_with "RECORDING_WORKER_ERROR" kind w)
finish e media (downloaded d) now w = finish_download e media d now w

unfoldable pub note_media : String → Worker → Worker
note_media media w = record w {
  attempt = record w.attempt {
    last_media_source_id = media;
    last_media_content_id_present = false;
  };
}

unfoldable pub process_with : CloudEvent → Meeting → List String → Worker → Attempted
process_with e m [] w = failure (fail_at "MEDIA_DIRECTORY_UNAVAILABLE" w)
process_with e m (x ∷ xs) w =
    let media = media_source x xs in
    finish e media m.outcome m.completed (acts m.during (note_media media w))

unfoldable pub process_once : CloudEvent → Meeting → Worker → Attempted
process_once e m w = process_with e m m.media_dirs (begin_attempt e m.started w)
