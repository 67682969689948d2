-- ===== src/Worker/Saved/Attempts.antt =====
-- recording_worker.py: the store holds the queue through an attempt.
use ha_reolink_battery.Base.{
  ℕ, String, sym, subst, Bool, true, false, ◌&&◌, Option, none, some, List, [], ◌∷◌, ltb,
  if◌then◌else◌, nat_eq,
}
use ha_reolink_battery.Event.{CloudEvent}
use ha_reolink_battery.Coordinator.Saved.{IsSaved}
use ha_reolink_battery.Worker.State.{StreamTrace, UidResolve, Worker}
use ha_reolink_battery.Worker.Saved.{Safe, Safe-acts, complete-IsSaved}
use ha_reolink_battery.Worker.Outside.{acts}
use ha_reolink_battery.Worker.Attempt.{
  Attempted, Download, FileCheck, Meeting, Outcome, already_completed, stage_failed, failed,
  downloaded, stat_error, absent, present, apply_stream_probe_trace, apply_uid_resolve_trace,
  begin_attempt, commit, fail_at, fail_with, finish, finish_download, finish_duplicate,
  finish_stage_error, media_source, note_media, process_once, process_with, verify,
}
use ha_reolink_battery.Worker.Attempt.Contract.{stream-coordinator, uid-coordinator}

-- An attempt.
abbrev SafeAttempt : Attempted → Type 0
SafeAttempt r = Safe r.worker

SafeAttempt-if :
    (b : Bool) (r s : Attempted) → SafeAttempt r → SafeAttempt s → SafeAttempt (if b then r else s)
SafeAttempt-if true r s h k = h
SafeAttempt-if false r s h k = k

Safe-uid : (t : Option UidResolve) (w : Worker) → Safe w → Safe (apply_uid_resolve_trace t w)
Safe-uid t w s = subst IsSaved (sym (uid-coordinator t w)) s

Safe-stream : (t : Option StreamTrace) (w : Worker) → Safe w → Safe (apply_stream_probe_trace t w)
Safe-stream t w s = subst IsSaved (sym (stream-coordinator t w)) s

Safe-verify :
    (e : CloudEvent) (media : String) (d : Download) (check : FileCheck) (now : ℕ) (w : Worker)
    → Safe w
    → SafeAttempt (verify e media d check now w)
unfolding verify fail_at fail_with commit
Safe-verify e media d (stat_error kind) now w s = SafeAttempt-if (ltb 0 d.stream.final_size) _ _ s s
Safe-verify e media d absent now w s = s
Safe-verify e media d (present size) now w s =
    SafeAttempt-if (ltb 0 d.stream.final_size && nat_eq size d.stream.final_size) _ _
      (complete-IsSaved e.event_id _ w.coordinator s) s

Safe-finish :
    (e : CloudEvent) (media : String) (o : Outcome) (now : ℕ) (w : Worker)
    → Safe w
    → SafeAttempt (finish e media o now w)
unfolding finish finish_duplicate finish_stage_error finish_download fail_at fail_with
Safe-finish e media (already_completed uid f) now w s =
    complete-IsSaved e.event_id none (apply_uid_resolve_trace uid w).coordinator (Safe-uid uid w s)
Safe-finish e media (stage_failed err) now w s =
    Safe-stream err.stream (apply_uid_resolve_trace err.uid_resolve w)
      (Safe-uid err.uid_resolve w s)
Safe-finish e media (failed kind) now w s = s
Safe-finish e media (downloaded d) now w s =
    let w' = apply_stream_probe_trace (some d.stream) (apply_uid_resolve_trace d.uid_resolve w) in
    let safe = Safe-stream (some d.stream) _ (Safe-uid d.uid_resolve w s) in
    SafeAttempt-if d.stream.file_saved (verify e media d d.file now w') _
      (Safe-verify e media d d.file now w' safe) safe

Safe-process_with :
    (e : CloudEvent) (m : Meeting) (dirs : List String) (w : Worker)
    → Safe w
    → SafeAttempt (process_with e m dirs w)
unfolding process_with fail_at note_media
Safe-process_with e m [] w s = s
Safe-process_with e m (x ∷ xs) w s =
    let w' = note_media (media_source x xs) w in
    Safe-finish e (media_source x xs) m.outcome m.completed (acts m.during w')
      (Safe-acts m.during w' s)

pub Safe-process_once :
    (e : CloudEvent) (m : Meeting) (w : Worker) → Safe w → SafeAttempt (process_once e m w)
unfolding process_once begin_attempt
Safe-process_once e m w s = Safe-process_with e m m.media_dirs (begin_attempt e m.started w) s
