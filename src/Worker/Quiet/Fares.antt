-- ===== src/Worker/Quiet/Fares.antt =====
-- recording_worker.py: an attempt while no other task does anything: it leaves the queue alone or
-- completes its event.
use ha_reolink_battery.Base.{
  ℕ, ◌≡◌, ap, Bool, true, false, ◌&&◌, Option, none, some, List, [], ◌∷◌, if◌then◌else◌, ltb,
  nat_eq, String,
}
use ha_reolink_battery.Event.{CloudEvent, CompletedRecording}
use ha_reolink_battery.Coordinator.{async_complete_event}
use ha_reolink_battery.Worker.State.{Attempts, StreamTrace, UidResolve, Worker}
use ha_reolink_battery.Worker.Outside.{acts}
use ha_reolink_battery.Worker.Attempt.{
  Attempted, Download, FileCheck, Meeting, Outcome, already_completed, stage_failed, failed,
  downloaded, stat_error, absent, present, begin_attempt, apply_uid_resolve_trace,
  apply_stream_probe_trace, fail_with, fail_at, finish_duplicate, finish_stage_error, commit,
  verify, finish_download, finish, media_source, note_media, process_with, process_once,
}
use ha_reolink_battery.Worker.Quiet.{Narrows}

-- The coordinator once an event of the id is completed.
abbrev pub Completes : CloudEvent → Worker → Worker → Type 0
Completes e v w =
    (r : Option CompletedRecording) × (w.coordinator
      ≡ (async_complete_event e.event_id r v.coordinator).0)

-- What an attempt leaves, by its result.
abbrev pub Fares : CloudEvent → Worker → Worker → Bool → Type 0
Fares e v w true = Completes e v w
Fares e v w false = Narrows v w

module _ (e : CloudEvent) (v : Worker) where
  abbrev pub Fared : Attempted → Type 0
  Fared r = Fares e v r.worker r.done

  Fared-if : (b : Bool) (r s : Attempted) → Fared r → Fared s → Fared (if b then r else s)
  Fared-if true r s p q = p
  Fared-if false r s p q = q

  Narrows-with :
      (w : Worker) (a : Attempts) (t : StreamTrace)
      → Narrows v w
      → Narrows v (record w { attempt = a; stream = t })
  Narrows-with w a t k = record {
    same = k.same;
    manual = k.manual;
    credits = k.credits;
    activated = k.activated;
  }

  Completes-of :
      (r : Option CompletedRecording) (w : Worker)
      → Narrows v w
      → (async_complete_event e.event_id r w.coordinator).0
        ≡ (async_complete_event e.event_id r v.coordinator).0
  Completes-of r w k = ap (λ c. (async_complete_event e.event_id r c).0) k.same

  uid-Narrows :
      (t : Option UidResolve) (w : Worker) → Narrows v w → Narrows v (apply_uid_resolve_trace t w)
  unfolding apply_uid_resolve_trace
  uid-Narrows none w k = k
  uid-Narrows (some t) w k = Narrows-with w _ w.stream k

  stream-Narrows :
      (t : Option StreamTrace) (w : Worker) → Narrows v w → Narrows v (apply_stream_probe_trace t w)
  unfolding apply_stream_probe_trace
  stream-Narrows none w k = k
  stream-Narrows (some t) w k = Narrows-with w w.attempt t k

  pub fail_with-Narrows :
      (stage kind : String) (w : Worker) → Narrows v w → Narrows v (fail_with stage kind w)
  unfolding fail_with
  fail_with-Narrows stage kind w k = Narrows-with w _ w.stream k

  fail_at-Narrows : (stage : String) (w : Worker) → Narrows v w → Narrows v (fail_at stage w)
  unfolding fail_at
  fail_at-Narrows stage w k = Narrows-with w _ w.stream k

  finish_duplicate-Fared :
      (uid : Option UidResolve) (f : String) (w : Worker)
      → Narrows v w
      → Fared (finish_duplicate e uid f w)
  unfolding finish_duplicate
  finish_duplicate-Fared uid f w k =
      (none, Completes-of none (apply_uid_resolve_trace uid w) (uid-Narrows uid w k))

  commit-Fared :
      (media : String) (d : Download) (now : ℕ) (w : Worker)
      → Narrows v w
      → Fared (commit e media d now w)
  unfolding commit
  commit-Fared media d now w k = (some _, Completes-of (some _) w k)

  verify-Fared :
      (media : String) (d : Download) (check : FileCheck) (now : ℕ) (w : Worker)
      → Narrows v w
      → Fared (verify e media d check now w)
  unfolding verify
  verify-Fared media d (stat_error kind) now w k =
      Fared-if (ltb 0 d.stream.final_size) _ _
        (fail_with-Narrows "RECORDING_FILE_VERIFY_ERROR" kind w k)
        (fail_at-Narrows "RECORDING_FILE_VERIFY_ERROR" w k)
  verify-Fared media d absent now w k = fail_at-Narrows "RECORDING_FILE_VERIFY_ERROR" w k
  verify-Fared media d (present size) now w k =
      Fared-if (ltb 0 d.stream.final_size && nat_eq size d.stream.final_size) _ _
        (commit-Fared media d now w k) (fail_at-Narrows "RECORDING_FILE_VERIFY_ERROR" w k)

  finish_download-Fared :
      (media : String) (d : Download) (now : ℕ) (w : Worker)
      → Narrows v w
      → Fared (finish_download e media d now w)
  unfolding finish_download
  finish_download-Fared media d now w k =
      let traced = apply_uid_resolve_trace d.uid_resolve w in
      let kept = stream-Narrows (some d.stream) traced (uid-Narrows d.uid_resolve w k) in
      Fared-if d.stream.file_saved _ _
        (verify-Fared media d d.file now (apply_stream_probe_trace (some d.stream) traced) kept)
        (fail_at-Narrows "RECORDING_FILE_NOT_VERIFIED" _ kept)

  finish-Fared :
      (media : String) (o : Outcome) (now : ℕ) (w : Worker)
      → Narrows v w
      → Fared (finish e media o now w)
  unfolding finish finish_stage_error
  finish-Fared media (already_completed uid f) now w k = finish_duplicate-Fared uid f w k
  finish-Fared media (stage_failed err) now w k =
      fail_with-Narrows err.stage _ _
        (stream-Narrows err.stream _ (uid-Narrows err.uid_resolve w k))
  finish-Fared media (failed kind) now w k = fail_with-Narrows "RECORDING_WORKER_ERROR" kind w k
  finish-Fared media (downloaded d) now w k = finish_download-Fared media d now w k

  note_media-Narrows : (media : String) (w : Worker) → Narrows v w → Narrows v (note_media media w)
  unfolding note_media
  note_media-Narrows media w k = Narrows-with w _ w.stream k

  begin_attempt-Narrows : (now : ℕ) (w : Worker) → Narrows v w → Narrows v (begin_attempt e now w)
  unfolding begin_attempt
  begin_attempt-Narrows now w k = Narrows-with w _ _ k

  process_with-Fared :
      (m : Meeting) (dirs : List String) (w : Worker)
      → m.during ≡ []
      → Narrows v w
      → Fared (process_with e m dirs w)
  unfolding process_with acts
  process_with-Fared m [] w quiet k = fail_at-Narrows "MEDIA_DIRECTORY_UNAVAILABLE" w k
  process_with-Fared m (x ∷ xs) w quiet k = rw quiet (
      finish-Fared (media_source x xs) m.outcome m.completed (note_media (media_source x xs) w)
        (note_media-Narrows (media_source x xs) w k))

  pub process_once-Fared :
      (m : Meeting) (w : Worker) → m.during ≡ [] → Narrows v w → Fared (process_once e m w)
  unfolding process_once
  process_once-Fared m w quiet k =
      process_with-Fared m m.media_dirs (begin_attempt e m.started w) quiet
        (begin_attempt-Narrows m.started w k)
