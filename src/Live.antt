-- ===== src/Live.antt =====
-- custom_components/reolink_battery/live_http.py: `ReolinkBatteryLiveHub`, which shares one camera
-- session among its consumers and lets a recording take the camera.
pub mod Yield
pub mod Steps
pub mod Preserve
mod Tests
use ha_reolink_battery.Base.{
  ℕ, ◌+◌, ◌-◌, String, Bool, true, false, not, ◌&&◌, ◌||◌, Option, none, some, List, [], ◌∷◌, ◌++◌,
  ◌==◌, if◌then◌else◌, ltb, nat_eq, length, keep,
}

-- What a queue carries: media, or the `None` that ends it.
pub data Item : Type 0 where
  media : String → Item
  eof : Item

-- An `asyncio.Queue` of a consumer, told apart by `key`.
pub record Consumer : Type 0 where
  pub key : ℕ
  pub maxsize : ℕ
  pub items : List Item

pub data Kind : Type 0 where
  video audio : Kind

-- `_producer_task`: none, one that runs, or one that is done.
pub data Task : Type 0 where
  no_task running done : Task

-- `stop_event` is `_stop_event`, with whether it is set.
pub record Hub : Type 0 where
  pub video_queues : List Consumer
  pub audio_queues : List Consumer
  pub producer : Task
  pub stop_event : Option Bool
  pub sessions_started : ℕ
  pub sessions_completed : ℕ
  pub last_failure_stage : Option String
  pub last_failure_type : Option String
  pub recording_priority_depth : ℕ
  pub recording_preemptions : ℕ
  pub recording_preserved_finishes : ℕ
  pub recording_preserved_consumers : ℕ

abbrev pub max_queue : Kind → ℕ
max_queue video = 64
max_queue audio = 512

abbrev pub is_running : Task → Bool
is_running no_task = false
is_running running = true
is_running done = false

abbrev pub is_active : Hub → Bool
is_active h = is_running h.producer

abbrev pub is_empty : List Consumer → Bool
is_empty [] = true
is_empty (_ ∷ _) = false

abbrev pub has_consumers : Hub → Bool
has_consumers h = not (is_empty h.video_queues) || not (is_empty h.audio_queues)

unfoldable pub start_producer : Hub → Hub
start_producer h = record h { producer = running; stop_event = some false }

-- A producer is started unless one runs or a recording has priority.
unfoldable pub start_if_free : Hub → Hub
start_if_free h =
    if nat_eq h.recording_priority_depth 0 && not (is_active h) then start_producer h else h

abbrev pub add_consumer : Kind → Consumer → Hub → Hub
add_consumer video c h = record h { video_queues = h.video_queues ++ c ∷ [] }
add_consumer audio c h = record h { audio_queues = h.audio_queues ++ c ∷ [] }

unfoldable pub subscribe : Kind → ℕ → Hub → Hub
subscribe kind key h =
    start_if_free (add_consumer kind (record { key = key; maxsize = max_queue kind; items = [] }) h)

unfoldable pub without_key : ℕ → List Consumer → List Consumer
without_key key cs = keep (λ c. not (nat_eq c.key key)) cs

abbrev pub remove_consumer : Kind → ℕ → Hub → Hub
remove_consumer video key h = record h { video_queues = without_key key h.video_queues }
remove_consumer audio key h = record h { audio_queues = without_key key h.audio_queues }

-- `if self._stop_event is not None: self._stop_event.set()`
abbrev pub set_stop : Option Bool → Option Bool
set_stop none = none
set_stop (some _) = some true

unfoldable pub ask_to_stop : Hub → Hub
ask_to_stop h = record h { stop_event = set_stop h.stop_event }

unfoldable pub unsubscribe : Kind → ℕ → Hub → Hub
unsubscribe kind key h =
    let h' = remove_consumer kind key h in if has_consumers h' then h' else ask_to_stop h'

-- The part of `async_pause_for_recording` under the guard; true if a producer was asked to yield.
unfoldable pub pause_for_recording : Hub → Hub × Bool
pause_for_recording h =
    let held : Hub = record h { recording_priority_depth = h.recording_priority_depth + 1 } in
    if is_active held
    then (ask_to_stop (record held { recording_preemptions = h.recording_preemptions + 1 }), true)
    else (held, false)

unfoldable pub resume_after_recording : Hub → Hub
resume_after_recording h =
    let freed : Hub = record h { recording_priority_depth = h.recording_priority_depth - 1 } in
    if has_consumers freed then start_if_free freed else freed

abbrev pub is_full : Consumer → Bool
is_full c = not (ltb (length c.items) c.maxsize)

abbrev pub put : Item → Consumer → Consumer
put x c = record c { items = c.items ++ x ∷ [] }

-- The loop of `_fanout`; true if a queue was full, where the loop ends.
unfoldable pub offer : Item → List Consumer → List Consumer × Bool
offer x [] = ([], false)
offer x (c ∷ cs) =
    let (rest, full) = offer x cs in if is_full c then (c ∷ cs, true) else (put x c ∷ rest, full)

abbrev pub stop_if : Bool → Hub → Hub
stop_if true h = ask_to_stop h
stop_if false h = h

unfoldable pub video_sink : String → Hub → Hub
video_sink payload h =
    let (cs, full) = offer (media payload) h.video_queues in
    stop_if full (record h { video_queues = cs })

unfoldable pub audio_sink : String → String → Hub → Hub
audio_sink payload codec h =
    let (cs, full) = offer (media payload) h.audio_queues in
    if codec == "aac" then stop_if full (record h { audio_queues = cs }) else h

-- `with suppress(asyncio.QueueFull): queue.put_nowait(None)`
unfoldable pub close_all : List Consumer → List Consumer
close_all [] = []
close_all (c ∷ cs) = (if is_full c then c else put eof c) ∷ close_all cs

unfoldable pub finish_producer : Hub → Hub
finish_producer h =
    let ended : Hub = record h { producer = no_task; stop_event = none } in
    if ltb 0 h.recording_priority_depth
    then record ended {
      recording_preserved_finishes = h.recording_preserved_finishes + 1;
      recording_preserved_consumers =
          h.recording_preserved_consumers + (length h.video_queues + length h.audio_queues);
    }
    else record ended {
      video_queues = close_all h.video_queues;
      audio_queues = close_all h.audio_queues;
    }

-- `_run_source` up to the camera session; `configured` is that each required entry is there.
unfoldable pub begin_source : Bool → Hub → Hub
begin_source configured h =
    if configured
    then record h {
      sessions_started = h.sessions_started + 1;
      last_failure_stage = none;
      last_failure_type = none;
    }
    else finish_producer (record h {
      last_failure_stage = some "LIVE_CONFIGURATION_INCOMPLETE";
      last_failure_type = none;
    })

abbrev pub note_failure : Option (String × String) → Hub → Hub
note_failure none h = h
note_failure (some (stage, kind)) h = record h {
  last_failure_stage = some stage;
  last_failure_type = some kind;
}

-- The rest of `_run_source`, with the failure of the session, if it failed.
unfoldable pub end_source : Option (String × String) → Hub → Hub
end_source failure h =
    finish_producer
      (record (note_failure failure h) { sessions_completed = h.sessions_completed + 1 })

-- The part of `async_stop` under the guard.
unfoldable pub stop : Hub → Hub
stop h = ask_to_stop h
