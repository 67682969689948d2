-- ===== src/Queue.antt =====
-- custom_components/reolink_battery/events.py: `EventQueue`, the bounded queue of pending events
-- with its memory of processed event ids, finished recordings and deferrals.
pub mod Invariant
pub mod History
pub mod Storage
pub mod Reload
pub mod Sample
mod Tests
use ha_reolink_battery.Base.{
  ℕ, String, Bool, true, false, not, ◌&&◌, ◌||◌, Option, none, some, List, [], ◌∷◌, ◌++◌, map,
  if◌then◌else◌, ltb, leb, nat_eq, length, take_last, keep, any, is_some, ◌==◌, contains, discard,
  insert, lookup, erase, assign, keys,
}
use ha_reolink_battery.Event.{
  CloudEvent, CompletedRecording, DeferredEvent, max_processed_event_ids, max_pending_events,
  max_completed_recordings,
}

-- `processed_set` stands for `_processed_set`, of which only membership is read, and `deferred`
-- for the dictionary `_deferred` in insertion order.
pub record EventQueue : Type 0 where
  pub processed : List String
  pub processed_set : List String
  pub pending : List CloudEvent
  pub completed_recordings : List CompletedRecording
  pub deferred : List (String × DeferredEvent)

unfoldable pub empty : EventQueue
empty = record {
  processed = [];
  processed_set = [];
  pending = [];
  completed_recordings = [];
  deferred = [];
}

abbrev pub ids : List CloudEvent → List String
ids [] = []
ids (e ∷ es) = e.event_id ∷ ids es

-- `completed_recording_fingerprints`
abbrev pub fingerprints : List CompletedRecording → List String
fingerprints [] = []
fingerprints (r ∷ rs) = r.fingerprint ∷ fingerprints rs

-- `max(values, key=..., default=None)`: the first of the greatest.
unfoldable pub latest_of : DeferredEvent → List (String × DeferredEvent) → DeferredEvent
latest_of best [] = best
latest_of best ((_, d) ∷ ds) = latest_of (if ltb best.deferred_at d.deferred_at then d else best) ds

unfoldable pub last_deferred : EventQueue → Option DeferredEvent
last_deferred q = elim q.deferred [ [] ↦ none | e ∷ ds ↦ some (latest_of e.1 ds) ]

unfoldable pub remember_completed_recording : CompletedRecording → EventQueue → EventQueue × Bool
remember_completed_recording r q =
    if contains r.fingerprint (fingerprints q.completed_recordings)
    then (q, false)
    else let rs = q.completed_recordings ++ r ∷ [] in
      (
        record q {
          completed_recordings =
              if ltb max_completed_recordings (length rs)
              then take_last max_completed_recordings rs
              else rs;
        },
        true,
      )

-- `self._processed.pop(0)`: the id leaves the set too, unless an event of that id is pending.
unfoldable pub pop_processed : List String → EventQueue → EventQueue
pop_processed [] q = q
pop_processed (x ∷ xs) q = record q {
  processed = xs;
  processed_set = if contains x (ids q.pending) then q.processed_set else discard x q.processed_set;
}

-- `self._pending.pop(0)`, with the deferral of that event.
unfoldable pub pop_pending : List CloudEvent → EventQueue → EventQueue
pop_pending [] q = q
pop_pending (e ∷ es) q = record q { pending = es; deferred = erase e.event_id q.deferred }

unfoldable pub expire_processed : EventQueue → EventQueue
expire_processed q =
    if ltb max_processed_event_ids (length q.processed) then pop_processed q.processed q else q

unfoldable pub expire_pending : EventQueue → EventQueue
expire_pending q = if ltb max_pending_events (length q.pending) then pop_pending q.pending q else q

-- The three insertions of `enqueue`.
unfoldable pub append_event : CloudEvent → EventQueue → EventQueue
append_event e q = record q {
  processed = q.processed ++ e.event_id ∷ [];
  processed_set = insert e.event_id q.processed_set;
  pending = q.pending ++ e ∷ [];
}

unfoldable pub enqueue : CloudEvent → EventQueue → EventQueue × Bool
enqueue e q =
    if contains e.event_id q.processed_set
    then (q, false)
    else (expire_pending (expire_processed (append_event e q)), true)

-- `[event for event in pending if event.event_id != event_id]`
unfoldable pub without : String → List CloudEvent → List CloudEvent
without x [] = []
without x (e ∷ es) = let rest = without x es in if e.event_id == x then rest else e ∷ rest

unfoldable pub remove : String → EventQueue → EventQueue × Bool
remove x q =
    let pending = without x q.pending in
    (
      record q { pending = pending; deferred = erase x q.deferred },
      not (nat_eq (length pending) (length q.pending)) || is_some (lookup x q.deferred),
    )

abbrev pub same_deferral : DeferredEvent → Option DeferredEvent → Bool
same_deferral d none = false
same_deferral d (some c) =
    c.event_id == d.event_id && c.reason == d.reason && nat_eq c.deferred_at d.deferred_at

unfoldable pub defer : String → String → ℕ → EventQueue → EventQueue × Bool
defer x reason at q =
    let d : DeferredEvent = record { event_id = x; reason = reason; deferred_at = at } in
    if not (contains x (ids q.pending))
    then (q, false)
    else if same_deferral d (lookup x q.deferred)
    then (q, false)
    else (record q { deferred = assign x d q.deferred }, true)

unfoldable pub rearm : String → EventQueue → EventQueue × Bool
rearm x q = (record q { deferred = erase x q.deferred }, is_some (lookup x q.deferred))

-- The ids of the pending events that are requested and deferred, in queue order.
unfoldable pub removable :
    List String → List (String × DeferredEvent) → List CloudEvent → List String
removable requested deferred [] = []
removable requested deferred (e ∷ es) =
    let rest = removable requested deferred es in
    if contains e.event_id requested && contains e.event_id (keys deferred)
    then e.event_id ∷ rest
    else rest

unfoldable pub without_all : List String → List CloudEvent → List CloudEvent
without_all xs [] = []
without_all xs (e ∷ es) =
    let rest = without_all xs es in if contains e.event_id xs then rest else e ∷ rest

-- `for event_id in removed: self._deferred.pop(event_id, None)`
unfoldable pub erase_all :
    List String → List (String × DeferredEvent) → List (String × DeferredEvent)
erase_all [] d = d
erase_all (x ∷ xs) d = erase_all xs (erase x d)

unfoldable pub discard_found : List String → EventQueue → EventQueue × List String
discard_found [] q = (q, [])
discard_found removed q = (
  record q { pending = without_all removed q.pending; deferred = erase_all removed q.deferred },
  removed,
)

unfoldable pub discard_deferred : List String → EventQueue → EventQueue × List String
discard_deferred [] q = (q, [])
discard_deferred requested q = discard_found (removable requested q.deferred q.pending) q
