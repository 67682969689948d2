-- ===== src/Worker/Attempt/Contract.antt =====
-- recording_worker.py: what one attempt promises for the queue, on every branch.
use ha_reolink_battery.Base.{
  ℕ, ◌<◌, String, ◌≡◌, refl, ◌∙◌, inl, inr, Bool, true, false, ◌&&◌, Option, none, some, List, [],
  ◌∷◌, arith, if◌then◌else◌, ltb, nat_eq, contains, Bool-cases,
}
use ha_reolink_battery.Event.{CloudEvent}
use ha_reolink_battery.Queue.{ids, fingerprints}
use ha_reolink_battery.Coordinator.{is_event_deferred}
use ha_reolink_battery.Coordinator.Completion.{
  async_complete_event_removes, async_complete_event_undefers, async_complete_event_remembers,
}
use ha_reolink_battery.Worker.State.{StreamTrace, UidResolve, Worker}
use ha_reolink_battery.Worker.{pending}
use ha_reolink_battery.Worker.Outside.{acts}
use ha_reolink_battery.Worker.Attempt.{
  Attempted, Download, FileCheck, Meeting, Outcome, Ready, StageError, already_completed,
  stage_failed, failed, downloaded, stat_error, absent, present, begin_attempt,
  apply_uid_resolve_trace, apply_stream_probe_trace, fail_with, fail_at, finish_duplicate,
  finish_stage_error, commit, verify, finish_download, finish, media_source, note_media,
  process_with, process_once,
}

-- No event of the id waits any more, and none is deferred.
abbrev pub Gone : CloudEvent → Worker → Type 0
Gone e w =
    (contains e.event_id (ids (pending w)) ≡ false)
    × (is_event_deferred e.event_id w.coordinator ≡ false)

-- What an attempt that found the coordinator of `w` leaves: a failed one the same coordinator and
-- no ready event; a done one no event of that id; and a ready event tells of this event and a file
-- that is not empty, with the recording's fingerprint remembered already.
abbrev pub Leaves : CloudEvent → Worker → Worker → Bool → Option Ready → Type 0
Leaves e w w' false none = w'.coordinator ≡ w.coordinator
Leaves e w w' false (some x) = ⊥
Leaves e w w' true none = Gone e w'
Leaves e w w' true (some x) =
    Gone e w'
    × (x.event_id ≡ e.event_id)
    × (0 < x.file_size)
    × ((f : String) × (contains f (fingerprints w'.coordinator.queue.completed_recordings) ≡ true))

abbrev Kept : CloudEvent → Worker → Attempted → Type 0
Kept e w r = Leaves e w r.worker r.done r.ready

Kept-if :
    (b : Bool) (e : CloudEvent) (w : Worker) (r s : Attempted)
    → Kept e w r
    → Kept e w s
    → Kept e w (if b then r else s)
Kept-if true e w r s h k = h
Kept-if false e w r s h k = k

pub uid-coordinator :
    (t : Option UidResolve) (w : Worker) → (apply_uid_resolve_trace t w).coordinator ≡ w.coordinator
unfolding apply_uid_resolve_trace
uid-coordinator none w = refl
uid-coordinator (some t) w = refl

pub stream-coordinator :
    (t : Option StreamTrace) (w : Worker)
    → (apply_stream_probe_trace t w).coordinator ≡ w.coordinator
unfolding apply_stream_probe_trace
stream-coordinator none w = refl
stream-coordinator (some t) w = refl

finish_duplicate_lem :
    (e : CloudEvent) (uid : Option UidResolve) (f : String) (w : Worker)
    → Kept e w (finish_duplicate e uid f w)
unfolding finish_duplicate
finish_duplicate_lem e uid f w =
    let c = (apply_uid_resolve_trace uid w).coordinator in
    (
      async_complete_event_removes e.event_id none c,
      async_complete_event_undefers e.event_id none c,
    )

finish_stage_error_lem :
    (e : CloudEvent) (err : StageError) (w : Worker) → Kept e w (finish_stage_error err w)
unfolding finish_stage_error fail_with
finish_stage_error_lem e err w = stream-coordinator err.stream _ ∙ uid-coordinator err.uid_resolve w

commit_lem :
    (e : CloudEvent) (media : String) (d : Download) (now : ℕ) (v w : Worker)
    → 0 < d.stream.final_size
    → Kept e v (commit e media d now w)
unfolding commit
commit_lem e media d now v w h = (
  (
    async_complete_event_removes e.event_id _ w.coordinator,
    async_complete_event_undefers e.event_id _ w.coordinator,
  ),
  refl,
  h,
  (d.fingerprint, async_complete_event_remembers e.event_id _ w.coordinator),
)

verify_lem :
    (e : CloudEvent) (media : String) (d : Download) (check : FileCheck) (now : ℕ) (v w : Worker)
    → w.coordinator ≡ v.coordinator
    → Kept e v (verify e media d check now w)
unfolding verify fail_with fail_at
verify_lem e media d (stat_error kind) now v w h = Kept-if (ltb 0 d.stream.final_size) e v _ _ h h
verify_lem e media d absent now v w h = h
verify_lem e media d (present size) now v w h =
    elim (Bool-cases (ltb 0 d.stream.final_size && nat_eq size d.stream.final_size)) [
      | inl verified ↦ rw verified (commit_lem e media d now v w (ground arith))
      | inr other ↦ rw other h
    ]

finish_download_lem :
    (e : CloudEvent) (media : String) (d : Download) (now : ℕ) (w : Worker)
    → Kept e w (finish_download e media d now w)
unfolding finish_download fail_at
finish_download_lem e media d now w =
    let same = stream-coordinator (some d.stream) _ ∙ uid-coordinator d.uid_resolve w in
    Kept-if d.stream.file_saved e w _ _ (verify_lem e media d d.file now w _ same) same

finish_lem :
    (e : CloudEvent) (media : String) (o : Outcome) (now : ℕ) (w : Worker)
    → Kept e w (finish e media o now w)
unfolding finish fail_with
finish_lem e media (already_completed uid f) now w = finish_duplicate_lem e uid f w
finish_lem e media (stage_failed err) now w = finish_stage_error_lem e err w
finish_lem e media (failed kind) now w = refl
finish_lem e media (downloaded d) now w = finish_download_lem e media d now w

-- The worker as the attempt finds it once the download has been awaited.
abbrev pub awaited : CloudEvent → Meeting → List String → Worker → Worker
awaited e m [] w = begin_attempt e m.started w
awaited e m (x ∷ xs) w =
    acts m.during (note_media (media_source x xs) (begin_attempt e m.started w))

process_with_lem :
    (e : CloudEvent) (m : Meeting) (dirs : List String) (w : Worker)
    → Kept e (awaited e m dirs w) (process_with e m dirs (begin_attempt e m.started w))
unfolding process_with fail_at
process_with_lem e m [] w = refl
process_with_lem e m (x ∷ xs) w =
    finish_lem e (media_source x xs) m.outcome m.completed (awaited e m (x ∷ xs) w)

pub process_once_lem :
    (e : CloudEvent) (m : Meeting) (w : Worker)
    → let r = process_once e m w in Leaves e (awaited e m m.media_dirs w) r.worker r.done r.ready
unfolding process_once
process_once_lem e m w = process_with_lem e m m.media_dirs w
