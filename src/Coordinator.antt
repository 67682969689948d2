-- ===== src/Coordinator.antt =====
-- custom_components/reolink_battery/coordinator.py: the persistent side of the coordinator, each
-- method that changes the queue and saves it.
pub mod Saved
pub mod Deferral
pub mod Completion
mod Tests
use ha_reolink_battery.Base.{
  ℕ, suc, String, Bool, true, false, not, ◌&&◌, ◌||◌, Option, none, some, List, [], ◌∷◌,
  if◌then◌else◌, ltb, length, ◌==◌, contains, keys, max,
}
use ha_reolink_battery.Event.{CloudEvent, CompletedRecording, DeferredEvent}
use ha_reolink_battery.Queue.{
  EventQueue, enqueue, remove, defer, rearm, discard_deferred, remember_completed_recording,
}

-- `saved` is the queue whose document the store holds, if the store was ever written.
pub record Coordinator : Type 0 where
  pub queue : EventQueue
  pub saved : Option EventQueue
  pub last_successful_event_time : Option ℕ

-- `await self._store.async_save(self._queue.as_storage())`
unfoldable pub save : Coordinator → Coordinator
save c = record c { saved = some c.queue }

unfoldable pub save_if : Bool → Coordinator → Coordinator
save_if changed c = if changed then save c else c

abbrev pub pending_events : Coordinator → List CloudEvent
pending_events c = c.queue.pending

unfoldable pub is_event_deferred : String → Coordinator → Bool
is_event_deferred x c = contains x (keys c.queue.deferred)

-- `max(event.alarm_time for event in events)` of a list that is not empty
unfoldable pub latest_alarm : List CloudEvent → Option ℕ
latest_alarm [] = none
latest_alarm (e ∷ es) =
    some (elim (latest_alarm es) [ none ↦ e.alarm_time | some t ↦ max e.alarm_time t ])

-- `[event for event in events if self._queue.enqueue(event)]`
unfoldable pub enqueue_all : List CloudEvent → EventQueue → EventQueue × List CloudEvent
enqueue_all [] q = (q, [])
enqueue_all (e ∷ es) q =
    let (q', added) = enqueue e q in
    let (q'', taken) = enqueue_all es q' in (q'', if added then e ∷ taken else taken)

unfoldable pub note_ingested : List CloudEvent → Coordinator → Coordinator
note_ingested [] c = c
note_ingested (e ∷ es) c = save (record c { last_successful_event_time = latest_alarm (e ∷ es) })

unfoldable pub async_ingest_events : List CloudEvent → Coordinator → Coordinator × ℕ
async_ingest_events es c =
    let (q, taken) = enqueue_all es c.queue in
    (note_ingested taken (record c { queue = q }), length taken)

unfoldable pub remember : Option CompletedRecording → EventQueue → EventQueue × Bool
remember none q = (q, false)
remember (some r) q = remember_completed_recording r q

unfoldable pub async_complete_event :
    String → Option CompletedRecording → Coordinator → Coordinator × Bool
async_complete_event x r c =
    let (q, changed) = remove x c.queue in
    let (q', added) = remember r q in
    (save_if (changed || added) (record c { queue = q' }), changed)

-- `deferred_at` stands for `deferred_at or datetime.now(UTC)`.
unfoldable pub async_defer_event : String → String → ℕ → Coordinator → Coordinator × Bool
async_defer_event x reason deferred_at c =
    let (q, changed) = defer x reason deferred_at c.queue in
    (save_if changed (record c { queue = q }), changed)

unfoldable pub async_rearm_event : String → Coordinator → Coordinator × Bool
async_rearm_event x c =
    let (q, changed) = rearm x c.queue in (save_if changed (record c { queue = q }), changed)

abbrev pub has_source : Option String → CloudEvent → Bool
has_source none e = true
has_source (some s) e = e.source == s

-- The ids of the pending events that are deferred and have the source.
unfoldable pub clear_candidates :
    Option String → List (String × DeferredEvent) → List CloudEvent → List String
clear_candidates source deferred [] = []
clear_candidates source deferred (e ∷ es) =
    let rest = clear_candidates source deferred es in
    if contains e.event_id (keys deferred) && has_source source e then e.event_id ∷ rest else rest

abbrev pub not_empty : List String → Bool
not_empty [] = false
not_empty (_ ∷ _) = true

unfoldable pub async_clear_deferred_events : Option String → Coordinator → Coordinator × List String
async_clear_deferred_events source c =
    let (q, removed) =
      discard_deferred (clear_candidates source c.queue.deferred c.queue.pending) c.queue in
    (save_if (not_empty removed) (record c { queue = q }), removed)

-- `async_initialize` after `load` has given the queue.
unfoldable pub async_initialize : EventQueue → Coordinator → Coordinator
async_initialize q c = record c {
  queue = q;
  last_successful_event_time = elim (latest_alarm q.pending) [
    | none ↦ c.last_successful_event_time
    | some t ↦ some t
  ];
}

unfoldable pub async_shutdown : Coordinator → Coordinator
async_shutdown c = save c
