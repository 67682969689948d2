-- ===== src/Queue/Storage.antt =====
-- events.py: `EventQueue.as_storage` and `EventQueue.load`.
use ha_reolink_battery.Base.{
  String, Bool, true, false, List, [], ◌∷◌, ◌++◌, map, if◌then◌else◌, take_last, contains, insert,
  assign,
}
use ha_reolink_battery.Python.{Runtime, Exc, overflow_error, Result, ok, raise, ◌>>=◌}
use ha_reolink_battery.Python.Documents.{
  Json, str, arr, obj, Fields, end, field, items, of_items, get_or_null,
}
use ha_reolink_battery.Event.{
  CloudEvent, DeferredEvent, max_processed_event_ids, max_pending_events, max_completed_recordings,
}
use ha_reolink_battery.Event.Storage.{
  py_str, event_as_storage, event_from_storage, recording_as_storage, recording_from_storage,
  deferral_as_storage, deferral_from_storage,
}
use ha_reolink_battery.Queue.{EventQueue, ids}

-- `except (KeyError, TypeError, ValueError)`, around pending events and recordings.
abbrev pub caught : Exc → Bool
caught overflow_error = false
caught _ = true

-- The handler around deferrals names `OverflowError` and `OSError` too.
abbrev pub all_caught : Exc → Bool
all_caught _ = true

-- The loop over stored items: what is no object, or fails in a way that is caught, is left out.
unfoldable pub restore {ℓ} :
    {A : Type ℓ} → (Fields → Result A) → (Exc → Bool) → List Json → Result (List A)
restore read handled [] = ok []
restore read handled (obj fs ∷ js) =
    let rest = restore read handled js in
    elim (read fs) [
      | ok a ↦ rest >>= λ as'. ok (a ∷ as')
      | raise x ↦ if handled x then rest else raise x
    ]
restore read handled (_ ∷ js) = restore read handled js

-- `if event.event_id not in self._processed_set`: the id of a restored event is a processed id.
unfoldable pub add_id : String → EventQueue → EventQueue
add_id x q =
    if contains x q.processed_set
    then q
    else record q { processed = q.processed ++ x ∷ []; processed_set = insert x q.processed_set }

unfoldable pub add_missing : List CloudEvent → EventQueue → EventQueue
add_missing [] q = q
add_missing (e ∷ es) q = add_missing es (add_id e.event_id q)

-- Deferrals of events that are not pending are left out.
unfoldable pub keep_pending :
    List String → List DeferredEvent → List (String × DeferredEvent) → List (String × DeferredEvent)
keep_pending pending [] found = found
keep_pending pending (d ∷ ds) found =
    keep_pending pending ds
      (if contains d.event_id pending then assign d.event_id d found else found)

abbrev pub store_all {ℓ} : {A : Type ℓ} → (A → Fields) → List A → Json
store_all write xs = arr (of_items (map (λ x. obj (write x)) xs))

abbrev pub values : List (String × DeferredEvent) → List DeferredEvent
values [] = []
values ((_, d) ∷ ds) = d ∷ values ds

module _ (rt : Runtime) where
  unfoldable pub load_processed : Json → EventQueue → EventQueue
  load_processed (arr js) q =
      let processed = take_last max_processed_event_ids (map (py_str rt) (items js)) in
      record q { processed = processed; processed_set = processed }
  load_processed _ q = q

  unfoldable pub load_pending : Json → EventQueue → Result EventQueue
  load_pending (arr js) q = do
    restored ← restore (event_from_storage rt) caught (take_last max_pending_events (items js))
    ok (add_missing restored (record q { pending = restored }))
  load_pending _ q = ok q

  unfoldable pub load_recordings : Json → EventQueue → Result EventQueue
  load_recordings (arr js) q = do
    restored ←
        restore (recording_from_storage rt) caught (take_last max_completed_recordings (items js))
    ok (record q { completed_recordings = restored })
  load_recordings _ q = ok q

  unfoldable pub load_deferred : Json → EventQueue → Result EventQueue
  load_deferred (arr js) q = do
    restored ←
        restore (deferral_from_storage rt) all_caught (take_last max_pending_events (items js))
    ok (record q { deferred = keep_pending (ids q.pending) restored [] })
  load_deferred _ q = ok q

  unfoldable pub load : Json → EventQueue → Result EventQueue
  load (obj fs) q = do
    with_pending ←
        load_pending (get_or_null "pending" fs)
          (load_processed (get_or_null "processed" fs) (record q { deferred = [] }))
    with_recordings ← load_recordings (get_or_null "completed_recordings" fs) with_pending
    load_deferred (get_or_null "deferred_events" fs) with_recordings
  load _ q = ok q

  unfoldable pub as_storage : EventQueue → Fields
  as_storage q =
      field "processed" (arr (of_items (map str (take_last max_processed_event_ids q.processed)))) (
        field "pending" (store_all (event_as_storage rt) q.pending) (
          field "completed_recordings"
            (store_all (recording_as_storage rt)
              (take_last max_completed_recordings q.completed_recordings))
            (field "deferred_events" (store_all (deferral_as_storage rt) (values q.deferred)) end)))
