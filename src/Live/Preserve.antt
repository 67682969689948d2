-- ===== src/Live/Preserve.antt =====
-- live_http.py: a recording that interrupts Live View hands the camera back.
use ha_reolink_battery.Base.{
  ◌+◌, ◌<◌, String, ◌≡◌, refl, sym, ap, ◌∙◌, false, Option, none, some, arith,
}
use ha_reolink_battery.Live.{
  Hub, no_task, ask_to_stop, end_source, finish_producer, has_consumers, is_active, is_running,
  pause_for_recording, resume_after_recording, start_if_free, start_producer,
}

-- What the hub has for its consumers.
pub record Same (h h' : Hub) : Type 0 where
  pub video_kept : h'.video_queues ≡ h.video_queues
  pub audio_kept : h'.audio_queues ≡ h.audio_queues
  pub free : h'.recording_priority_depth ≡ h.recording_priority_depth
  pub resumed : is_active h' ≡ has_consumers h

pause-kept :
    (h : Hub)
    → let h' = (pause_for_recording h).0 in
      (h'.video_queues ≡ h.video_queues)
      × (h'.audio_queues ≡ h.audio_queues)
      × (h'.recording_priority_depth ≡ h.recording_priority_depth + 1)
unfolding pause_for_recording ask_to_stop
pause-kept h = (ground arith, ground arith, ground arith)

finish_producer-kept :
    (h : Hub)
    → 0 < h.recording_priority_depth
    → let h' = finish_producer h in
      (h'.video_queues ≡ h.video_queues)
      × (h'.audio_queues ≡ h.audio_queues)
      × (h'.recording_priority_depth ≡ h.recording_priority_depth)
      × (h'.producer ≡ no_task)
unfolding finish_producer
finish_producer-kept h p = (ground arith, ground arith, ground arith, ground arith)

end_source-kept :
    (failure : Option (String × String)) (h : Hub)
    → 0 < h.recording_priority_depth
    → let h' = end_source failure h in
      (h'.video_queues ≡ h.video_queues)
      × (h'.audio_queues ≡ h.audio_queues)
      × (h'.recording_priority_depth ≡ h.recording_priority_depth)
      × (h'.producer ≡ no_task)
unfolding end_source
end_source-kept none h p = finish_producer-kept _ p
end_source-kept (some (stage, kind)) h p = finish_producer-kept _ p

has_consumers-same :
    (h k : Hub)
    → h.video_queues ≡ k.video_queues
    → h.audio_queues ≡ k.audio_queues
    → has_consumers h ≡ has_consumers k
has_consumers-same h k p q = rw (p, q) refl

resume-restarts :
    (h : Hub)
    → h.recording_priority_depth ≡ 1
    → h.producer ≡ no_task
    → let h' = resume_after_recording h in
      (h'.video_queues ≡ h.video_queues)
      × (h'.audio_queues ≡ h.audio_queues)
      × (h'.recording_priority_depth ≡ 0)
      × (is_active h' ≡ has_consumers h)
unfolding resume_after_recording start_if_free start_producer
resume-restarts h p q = (ground arith, ground arith, ground arith, ground (arith, idle))
  where
    idle : is_active h ≡ false
    idle = ap is_running q

-- When a recording takes the camera, and no other one holds it, the hub has
-- every consumer's queue as it was once its session has ended and the recording resumes it,
-- however the session ended: nobody got an end of stream, and a new producer runs exactly if
-- there are consumers.
pub pause_end_resume :
    (failure : Option (String × String)) (h : Hub)
    → h.recording_priority_depth ≡ 0
    → Same h (resume_after_recording (end_source failure (pause_for_recording h).0))
pause_end_resume failure h free =
    let p = (pause_for_recording h).0 in
    let e = end_source failure p in
    let (pv, pa, pd) = pause-kept h in
    let (ev, ea, ed, en) = end_source-kept failure p (omega (arith, pd)) in
    let (rv, ra, rd, rr) = resume-restarts e (ed ∙ pd ∙ omega (arith, free)) en in
    record {
      video_kept = rv ∙ ev ∙ pv;
      audio_kept = ra ∙ ea ∙ pa;
      free = rd ∙ sym free;
      resumed = rr ∙ has_consumers-same e h (ev ∙ pv) (ea ∙ pa);
    }
