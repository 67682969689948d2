-- ===== src/Worker/Yielding.antt =====
-- recording_worker_v138.py: `_process_once` with the Live View hub. The hub yields before the
-- attempt and takes up its consumers again after it; what its consumers and its camera session do
-- meanwhile is a list of steps of the hub.
use ha_reolink_battery.Base.{
  ℕ, ◌+◌, ◌-◌, ◌<◌, ◌≡◌, refl, sym, ap, ◌∙◌, Bool, true, false, Option, none, some, List, [], ◌∷◌,
  arith, if◌then◌else◌, ltb, nat_eq, ◌==◌, All,
}
use ha_reolink_battery.Event.{CloudEvent}
use ha_reolink_battery.Live.{
  Hub, Kind, Task, video, audio, no_task, running, done, is_running, add_consumer, ask_to_stop,
  audio_sink, begin_source, end_source, finish_producer, has_consumers, is_active,
  pause_for_recording, remove_consumer, resume_after_recording, start_if_free, start_producer, stop,
  stop_if, subscribe, unsubscribe, video_sink,
}
use ha_reolink_battery.Live.Yield.{IsGuarded, Yielding}
use ha_reolink_battery.Live.Steps.{
  Step, subscribes, unsubscribes, pauses, resumes, stops, begins, shows, plays, ends, step, run,
  run-IsGuarded,
}
use ha_reolink_battery.Worker.State.{Worker}
use ha_reolink_battery.Worker.Attempt.{Attempted, Meeting, process_once}

-- The attempt, with the hub if there is one that can yield.
unfoldable pub process_once_yielding :
    List Step → CloudEvent → Meeting → Worker → Option Hub → Attempted × Option Hub
process_once_yielding during e m w none = (process_once e m w, none)
process_once_yielding during e m w (some h) =
    (process_once e m w, some (resume_after_recording (run during (pause_for_recording h).0)))

-- Only the worker asks the hub to yield.
abbrev pub IsForeign : Step → Type 0
IsForeign pauses = ⊥
IsForeign resumes = ⊥
IsForeign s = Unit

-- While a recording has priority a step keeps its depth and starts no camera session.
abbrev Holds : Hub → Hub → Type 0
Holds h h' =
    (h'.recording_priority_depth ≡ h.recording_priority_depth)
    × (is_active h' ≡ true → is_active h ≡ true)

Holds-if : (b : Bool) (h x y : Hub) → Holds h x → Holds h y → Holds h (if b then x else y)
Holds-if true h x y p q = p
Holds-if false h x y p q = q

start_if_free-Holds : (h : Hub) → 0 < h.recording_priority_depth → start_if_free h ≡ h
unfolding start_if_free
start_if_free-Holds h held =
    let shut : nat_eq h.recording_priority_depth 0 ≡ false = ground (arith, held) in rw shut refl

add_consumer-Holds : (kind : Kind) (h : Hub) (c : _) → Holds h (add_consumer kind c h)
add_consumer-Holds video h c = (refl, λ a. a)
add_consumer-Holds audio h c = (refl, λ a. a)

subscribe-Holds :
    (kind : Kind) (key : ℕ) (h : Hub)
    → 0 < h.recording_priority_depth
    → Holds h (subscribe kind key h)
unfolding subscribe start_if_free
subscribe-Holds video key h held = (ground (arith, held), ground (arith, held))
subscribe-Holds audio key h held = (ground (arith, held), ground (arith, held))

unsubscribe-Holds : (kind : Kind) (key : ℕ) (h : Hub) → Holds h (unsubscribe kind key h)
unfolding unsubscribe ask_to_stop
unsubscribe-Holds video key h =
    Holds-if (has_consumers (remove_consumer video key h)) h _ _ (refl, λ a. a) (refl, λ a. a)
unsubscribe-Holds audio key h =
    Holds-if (has_consumers (remove_consumer audio key h)) h _ _ (refl, λ a. a) (refl, λ a. a)

stop_if-Holds : (b : Bool) (h h' : Hub) → Holds h h' → Holds h (stop_if b h')
unfolding ask_to_stop
stop_if-Holds true h h' p = p
stop_if-Holds false h h' p = p

finish_producer-Holds : (h h' : Hub) → Holds h h' → Holds h (finish_producer h')
unfolding finish_producer
finish_producer-Holds h h' p =
    Holds-if (ltb 0 h'.recording_priority_depth) h _ _ (p.0, λ a. absurd (ground (arith, a)))
      (p.0, λ a. absurd (ground (arith, a)))

step-Holds :
    (s : Step) (h : Hub) → IsForeign s → 0 < h.recording_priority_depth → Holds h (step s h)
unfolding step stop begin_source end_source video_sink audio_sink ask_to_stop
step-Holds (subscribes kind key) h f held = subscribe-Holds kind key h held
step-Holds (unsubscribes kind key) h f held = unsubscribe-Holds kind key h
step-Holds pauses h f held = elim f [ ]
step-Holds resumes h f held = elim f [ ]
step-Holds stops h f held = (refl, λ a. a)
step-Holds (begins true) h f held = (refl, λ a. a)
step-Holds (begins false) h f held = finish_producer-Holds h _ (refl, λ a. a)
step-Holds (shows payload) h f held = stop_if-Holds _ h _ (refl, λ a. a)
step-Holds (plays payload codec) h f held =
    Holds-if (codec == "aac") h _ h (stop_if-Holds _ h _ (refl, λ a. a)) (refl, λ a. a)
step-Holds (ends none) h f held = finish_producer-Holds h _ (refl, λ a. a)
step-Holds (ends (some (stage, kind))) h f held = finish_producer-Holds h _ (refl, λ a. a)

run-Holds :
    (ss : List Step) (h : Hub)
    → All IsForeign ss
    → 0 < h.recording_priority_depth
    → Holds h (run ss h)
unfolding run
run-Holds [] h f held = (refl, λ a. a)
run-Holds (s ∷ ss) h f held =
    let (same, quiet) = step-Holds s h f.0 held in
    let (same', quiet') = run-Holds ss (step s h) f.1 (ground (arith, same, held)) in
    (same' ∙ same, λ a. quiet (quiet' a))

told_to_stop :
    (depth : ℕ) (producer : Task) (stop_event : Option Bool)
    → Yielding depth producer stop_event
    → 0 < depth
    → is_running producer ≡ true
    → stop_event ≡ some true
told_to_stop depth no_task stop_event y held on = cc on
told_to_stop depth running none y held on = elim y [ ]
told_to_stop depth running (some b) y held on = ap some (y held)
told_to_stop depth done stop_event y held on = cc on

pause_for_recording-Holds :
    (h : Hub)
    → ((pause_for_recording h).0.recording_priority_depth ≡ h.recording_priority_depth + 1)
      × (is_active (pause_for_recording h).0 ≡ is_active h)
unfolding pause_for_recording ask_to_stop
pause_for_recording-Holds h = (ground arith, ground arith)

depth-resume_after_recording :
    (h : Hub) → (resume_after_recording h).recording_priority_depth ≡ h.recording_priority_depth - 1
unfolding resume_after_recording start_if_free start_producer
depth-resume_after_recording h = ground arith

paused-IsGuarded : (h : Hub) → IsGuarded h → IsGuarded (pause_for_recording h).0
unfolding run step
paused-IsGuarded h = run-IsGuarded (pauses ∷ []) h

resumed-IsGuarded : (h : Hub) → IsGuarded h → IsGuarded (resume_after_recording h)
unfolding run step
resumed-IsGuarded h = run-IsGuarded (resumes ∷ []) h

-- What an attempt does with a hub that was `h`.
abbrev pub Resumed : Hub → Option Hub → Type 0
Resumed h none = ⊥
Resumed h (some after) =
    IsGuarded after × (after.recording_priority_depth ≡ h.recording_priority_depth)

-- An attempt with the hub is the attempt itself. Whatever the hub's consumers and its session do
-- meanwhile, no camera session of the hub starts, and one that still runs has been told to stop;
-- and afterwards the hub is sound and its recording priority is what it was before.
pub process_once_yielding_lem :
    (during : List Step) (e : CloudEvent) (m : Meeting) (w : Worker) (h : Hub)
    → All IsForeign during
    → IsGuarded h
    → let (attempted, after) = process_once_yielding during e m w (some h) in
      let meanwhile = run during (pause_for_recording h).0 in
      (attempted ≡ process_once e m w)
      × (is_active meanwhile ≡ true → (is_active h ≡ true) × (meanwhile.stop_event ≡ some true))
      × Resumed h after
unfolding process_once_yielding
process_once_yielding_lem during e m w h foreign guarded =
    let paused = (pause_for_recording h).0 in
    let meanwhile = run during paused in
    let (deeper, active) = pause_for_recording-Holds h in
    let (same, quiet) = run-Holds during paused foreign (omega (arith, deeper)) in
    let sound = run-IsGuarded during paused (paused-IsGuarded h guarded) in
    (
      refl,
      λ on. (
        sym active ∙ quiet on,
        told_to_stop meanwhile.recording_priority_depth meanwhile.producer meanwhile.stop_event
            sound.yields (omega (arith, same, deeper)) on,
      ),
      (
        resumed-IsGuarded meanwhile sound,
        omega (arith, depth-resume_after_recording meanwhile, same, deeper),
      ),
    )
