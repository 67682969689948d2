-- ===== src/Live/Steps.antt =====
-- live_http.py: whatever order the calls of the hub come in.
use ha_reolink_battery.Base.{
  ℕ, ◌+◌, ◌-◌, String, ◌≡◌, refl, Bool, true, false, Option, none, some, List, [], ◌∷◌, arith, ◌==◌,
  if◌then◌else◌, ltb,
}
use ha_reolink_battery.Live.{
  Consumer, Hub, Kind, media, add_consumer, ask_to_stop, audio_sink, begin_source, end_source,
  finish_producer, has_consumers, is_active, max_queue, offer, pause_for_recording, remove_consumer,
  resume_after_recording, start_if_free, stop, subscribe, unsubscribe, video_sink,
}
use ha_reolink_battery.Live.Yield.{
  IsGuarded, IsGuarded-if, Yielding-deeper, Yielding-idle, Yielding-shallower, Bounded-offer,
  Bounded-close_all, start_if_free-IsGuarded, ask_to_stop-IsGuarded, add_consumer-IsGuarded,
  remove_consumer-IsGuarded, stop_if-IsGuarded,
}

pub data Step : Type 0 where
  subscribes unsubscribes : Kind → ℕ → Step
  pauses resumes stops : Step
  begins : Bool → Step
  shows : String → Step
  plays : String → String → Step
  ends : Option (String × String) → Step

unfoldable pub step : Step → Hub → Hub
step (subscribes kind key) h = subscribe kind key h
step (unsubscribes kind key) h = unsubscribe kind key h
step pauses h = (pause_for_recording h).0
step resumes h = resume_after_recording h
step stops h = stop h
step (begins configured) h = begin_source configured h
step (shows payload) h = video_sink payload h
step (plays payload codec) h = audio_sink payload codec h
step (ends failure) h = end_source failure h

unfoldable pub run : List Step → Hub → Hub
run [] h = h
run (s ∷ ss) h = run ss (step s h)

subscribe-IsGuarded :
    (kind : Kind) (key : ℕ) (h : Hub) → IsGuarded h → IsGuarded (subscribe kind key h)
unfolding subscribe
subscribe-IsGuarded kind key h g =
    let c : Consumer = record { key = key; maxsize = max_queue kind; items = [] } in
    start_if_free-IsGuarded (add_consumer kind c h)
      (add_consumer-IsGuarded h g kind c (omega arith))

unsubscribe-IsGuarded :
    (kind : Kind) (key : ℕ) (h : Hub) → IsGuarded h → IsGuarded (unsubscribe kind key h)
unfolding unsubscribe
unsubscribe-IsGuarded kind key h g =
    let h' = remove_consumer kind key h in
    let g' = remove_consumer-IsGuarded h g kind key in
    IsGuarded-if (has_consumers h') h' (ask_to_stop h') (λ _. g') (λ _. ask_to_stop-IsGuarded h' g')

abbrev Guarded : Hub × Bool → Type 0
Guarded x = IsGuarded x.0

Guarded-if :
    (b : Bool) (x y : Hub × Bool)
    → (b ≡ true → Guarded x)
    → (b ≡ false → Guarded y)
    → Guarded (if b then x else y)
Guarded-if true x y h k = h refl
Guarded-if false x y h k = k refl

pause_for_recording-IsGuarded : (h : Hub) → IsGuarded h → IsGuarded (pause_for_recording h).0
unfolding pause_for_recording ask_to_stop
pause_for_recording-IsGuarded h g =
    let depth = h.recording_priority_depth in
    Guarded-if (is_active h) _ _
      (λ active. record {
        yields = Yielding-deeper depth (depth + 1) h.producer h.stop_event active g.yields;
        video_bounded = g.video_bounded;
        audio_bounded = g.audio_bounded;
      })
      (λ idle. record {
        yields = Yielding-idle depth (depth + 1) h.producer h.stop_event idle g.yields;
        video_bounded = g.video_bounded;
        audio_bounded = g.audio_bounded;
      })

resume_after_recording-IsGuarded : (h : Hub) → IsGuarded h → IsGuarded (resume_after_recording h)
unfolding resume_after_recording
resume_after_recording-IsGuarded h g =
    let freed : Hub = record h { recording_priority_depth = h.recording_priority_depth - 1 } in
    let kept : IsGuarded freed = record {
      yields = Yielding-shallower h.recording_priority_depth h.producer h.stop_event g.yields;
      video_bounded = g.video_bounded;
      audio_bounded = g.audio_bounded;
    } in
    IsGuarded-if (has_consumers freed) (start_if_free freed) freed
      (λ _. start_if_free-IsGuarded freed kept) (λ _. kept)

finish_producer-IsGuarded : (h : Hub) → IsGuarded h → IsGuarded (finish_producer h)
unfolding finish_producer
finish_producer-IsGuarded h g =
    IsGuarded-if (ltb 0 h.recording_priority_depth) _ _
      (λ _. record {
        yields = refl;
        video_bounded = g.video_bounded;
        audio_bounded = g.audio_bounded;
      })
      (λ _. record {
        yields = refl;
        video_bounded = Bounded-close_all h.video_queues g.video_bounded;
        audio_bounded = Bounded-close_all h.audio_queues g.audio_bounded;
      })

begin_source-IsGuarded : (b : Bool) (h : Hub) → IsGuarded h → IsGuarded (begin_source b h)
unfolding begin_source
begin_source-IsGuarded true h g = record {
  yields = g.yields;
  video_bounded = g.video_bounded;
  audio_bounded = g.audio_bounded;
}
begin_source-IsGuarded false h g =
    finish_producer-IsGuarded _ (record {
      yields = g.yields;
      video_bounded = g.video_bounded;
      audio_bounded = g.audio_bounded;
    })

end_source-IsGuarded :
    (f : Option (String × String)) (h : Hub) → IsGuarded h → IsGuarded (end_source f h)
unfolding end_source
end_source-IsGuarded none h g =
    finish_producer-IsGuarded _ (record {
      yields = g.yields;
      video_bounded = g.video_bounded;
      audio_bounded = g.audio_bounded;
    })
end_source-IsGuarded (some (stage, kind)) h g =
    finish_producer-IsGuarded _ (record {
      yields = g.yields;
      video_bounded = g.video_bounded;
      audio_bounded = g.audio_bounded;
    })

video_sink-IsGuarded : (payload : String) (h : Hub) → IsGuarded h → IsGuarded (video_sink payload h)
unfolding video_sink
video_sink-IsGuarded payload h g =
    stop_if-IsGuarded (record h { video_queues = (offer (media payload) h.video_queues).0 })
      (record {
        yields = g.yields;
        video_bounded = Bounded-offer (media payload) h.video_queues g.video_bounded;
        audio_bounded = g.audio_bounded;
      })
      (offer (media payload) h.video_queues).1

audio_sink-IsGuarded :
    (payload codec : String) (h : Hub) → IsGuarded h → IsGuarded (audio_sink payload codec h)
unfolding audio_sink
audio_sink-IsGuarded payload codec h g =
    IsGuarded-if (codec == "aac") _ h
      (λ _.
        stop_if-IsGuarded (record h { audio_queues = (offer (media payload) h.audio_queues).0 })
          (record {
            yields = g.yields;
            video_bounded = g.video_bounded;
            audio_bounded = Bounded-offer (media payload) h.audio_queues g.audio_bounded;
          })
          (offer (media payload) h.audio_queues).1)
      (λ _. g)

step-IsGuarded : (s : Step) (h : Hub) → IsGuarded h → IsGuarded (step s h)
unfolding step stop
step-IsGuarded (subscribes kind key) h g = subscribe-IsGuarded kind key h g
step-IsGuarded (unsubscribes kind key) h g = unsubscribe-IsGuarded kind key h g
step-IsGuarded pauses h g = pause_for_recording-IsGuarded h g
step-IsGuarded resumes h g = resume_after_recording-IsGuarded h g
step-IsGuarded stops h g = ask_to_stop-IsGuarded h g
step-IsGuarded (begins configured) h g = begin_source-IsGuarded configured h g
step-IsGuarded (shows payload) h g = video_sink-IsGuarded payload h g
step-IsGuarded (plays payload codec) h g = audio_sink-IsGuarded payload codec h g
step-IsGuarded (ends failure) h g = end_source-IsGuarded failure h g

-- In whatever order consumers come and go, media flow, recordings pause and resume and the camera
-- session begins and ends, a hub keeps that while a recording has priority, a producer that runs
-- has been told to stop, and no consumer's queue holds more than its size.
pub run-IsGuarded : (ss : List Step) (h : Hub) → IsGuarded h → IsGuarded (run ss h)
unfolding run
run-IsGuarded [] h g = g
run-IsGuarded (s ∷ ss) h g = run-IsGuarded ss (step s h) (step-IsGuarded s h g)
