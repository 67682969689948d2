-- ===== src/Queue/Reload.antt =====
-- events.py: a queue over a restart, `load` after `as_storage`.
pub mod Parts
use mathlib.Core.List.{append-nil, append_assoc}
use ha_reolink_battery.Base.{
  ℕ, suc, eq_refl, ◌≤◌, String, ◌≡◌, refl, sym, ◌∙◌, inl, inr, Bool, true, false, ◌||◌, List, [],
  ◌∷◌, ◌++◌, map, arith, ap, if◌then◌else◌, ◌+◌, insert, contains-insert, length-append,
  length-take_last, Distinct-append, Distinct-drop, length, take_last, take_last_all, All, ◌==◌,
  eq_iff, contains, contains-append, assign, keys, Distinct, Within, Bool-cases, subst,
}
use ha_reolink_battery.Python.{Runtime, IsIso, Exc, Result, ok, ◌>>=◌}
use ha_reolink_battery.Python.Documents.{
  Json, str, arr, obj, Fields, items, of_items, items-of_items,
}
use ha_reolink_battery.Event.{
  CloudEvent, CompletedRecording, DeferredEvent, max_processed_event_ids,
}
use ha_reolink_battery.Event.Storage.{
  py_str, event_as_storage, event_from_storage, recording_as_storage, recording_from_storage,
  deferral_as_storage, deferral_from_storage,
}
use ha_reolink_battery.Event.RoundTrip.{
  event_storage_roundtrip, recording_storage_roundtrip, deferral_storage_roundtrip,
}
use ha_reolink_battery.Queue.{EventQueue, empty, ids}
use ha_reolink_battery.Queue.Invariant.{IsBounded, IsValid, Within-absent}
use ha_reolink_battery.Queue.Storage.{
  restore, caught, all_caught, add_missing, add_id, keep_pending, load_processed, load_pending,
  load_recordings, load_deferred, load, as_storage, values, store_all,
}
use ha_reolink_battery.Queue.Reload.Parts.{
  IsStorable, IsKnown, add_missing_rest, add_missing_bound, contains-add_missing,
  add_missing-IsKnown, load_processed-strings, load_pending-events, load_recordings-stored,
  load_deferred-stored,
}

-- The queue that a restart gives.
pub reloaded : EventQueue → EventQueue
reloaded q =
    let kept = take_last max_processed_event_ids q.processed in
    add_missing q.pending (record q { processed = kept; processed_set = kept })

add_id_frame :
    (x : String) (q : EventQueue) (rs : List CompletedRecording) (d : List (String × DeferredEvent))
    → add_id x (record q { completed_recordings = rs; deferred = d })
      ≡ record (add_id x q) { completed_recordings = rs; deferred = d }
unfolding add_id
add_id_frame x q rs d = ground arith

add_missing_frame :
    (es : List CloudEvent) (q : EventQueue) (rs : List CompletedRecording)
    (d : List (String × DeferredEvent))
    → record (add_missing es q) { completed_recordings = rs; deferred = d }
      ≡ add_missing es (record q { completed_recordings = rs; deferred = d })
unfolding add_missing
add_missing_frame [] q rs d = refl
add_missing_frame (e ∷ es) q rs d =
    add_missing_frame es (add_id e.event_id q) rs d
    ∙ ap (add_missing es) (sym (add_id_frame e.event_id q rs d))

module _ (rt : Runtime) (iso : IsIso rt) where
  load-as_storage :
      (q p : EventQueue)
      → IsValid q
      → IsStorable q
      → load rt (obj (as_storage rt q)) p ≡ ok (reloaded q)
  unfolding load as_storage reloaded
  load-as_storage q p v s =
      let kept = take_last 512 q.processed in
      let first = record p { processed = kept; processed_set = kept; deferred = [] } in
      let second = add_missing q.pending (record first { pending = q.pending }) in
      let recent = take_last 256 q.completed_recordings in
      let whole : recent ≡ q.completed_recordings = take_last_all 256 _ v.completed_bound in
      rw
        (load_processed-strings rt iso kept (record p { deferred = [] })
          (omega (arith, length-take_last 512 q.processed)))
        (rw (load_pending-events rt iso q.pending first v.pending_bound s.sourced) (
          rw
            (load_recordings-stored rt iso recent second
              (omega (arith, length-take_last 256 q.completed_recordings)))
            (load_deferred-stored rt iso q.deferred
                (record second { completed_recordings = recent }) s.few s.reasoned
                (λ x h.
                  rw (add_missing_rest q.pending (record first { pending = q.pending })).0
                    (v.deferred_pending x h))
                s.distinct
              ∙ ap (λ rs. ok (record second { completed_recordings = rs; deferred = q.deferred }))
                  whole
              ∙ ap (λ r. ok r)
                  (add_missing_frame q.pending (record first { pending = q.pending })
                    q.completed_recordings q.deferred))))

reloaded-IsValid : (q : EventQueue) → IsValid q → IsValid (reloaded q)
unfolding reloaded
reloaded-IsValid q v =
    let kept = take_last 512 q.processed in
    let start = record q { processed = kept; processed_set = kept } in
    let (pending, recordings, deferred) = add_missing_rest q.pending start in
    let known =
      add_missing-IsKnown q.pending start
        (record { distinct = Distinct-drop _ _ v.processed_distinct; known = λ x h. h }) in
    record {
      processed_bound = omega (
        arith,
        v.pending_bound,
        length-take_last 512 q.processed,
        add_missing_bound q.pending start,
      );
      pending_bound = rw pending v.pending_bound;
      completed_bound = rw recordings v.completed_bound;
      processed_distinct = known.distinct;
      pending_distinct = rw pending v.pending_distinct;
      fingerprints_distinct = rw recordings v.fingerprints_distinct;
      processed_known = known.known;
      pending_known = λ x h.
          let there : contains x (ids q.pending) ≡ true = rw pending at h in
          ground (arith, contains-add_missing x q.pending start);
      deferred_pending = λ x h. rw pending (v.deferred_pending x (rw deferred at h));
    }

-- From a valid queue whose texts can be read back, a restart (`load` of what `as_storage` wrote,
-- into any queue) succeeds and gives a valid queue with the same pending events, recordings and
-- deferrals, which still knows the ids of the pending events and the last 512 processed ids, and
-- no others.
pub load_after_as_storage :
    (rt : Runtime)
    → IsIso rt
    → (q p : EventQueue) → IsValid q
    → IsStorable q
    → (r : EventQueue) × (load rt (obj (as_storage rt q)) p ≡ ok r)
      × IsValid r
      × (r.pending ≡ q.pending)
      × (r.completed_recordings ≡ q.completed_recordings)
      × (r.deferred ≡ q.deferred)
      × ((x : String)
          → contains x r.processed_set
            ≡ (contains x (ids q.pending) || contains x (take_last 512 q.processed)))
unfolding reloaded
load_after_as_storage rt iso q p v s =
    let kept = take_last 512 q.processed in
    let start = record q { processed = kept; processed_set = kept } in
    let (pending, recordings, deferred) = add_missing_rest q.pending start in
    (
      reloaded q,
      load-as_storage rt iso q p v s,
      reloaded-IsValid q v,
      pending,
      recordings,
      deferred,
      λ x. contains-add_missing x q.pending start,
    )
