-- ===== src/Queue/Tests.antt =====
-- events.py: runs of the queue on small inputs, and the theorems at concrete data.
use ha_reolink_battery.Base.{
  String, ◌≡◌, refl, false, List, [], ◌∷◌, arith, contains, discard, insert, lookup, erase, assign,
  ◌||◌, take_last,
}
use ha_reolink_battery.Python.{ok}
use ha_reolink_battery.Python.Documents.{obj}
use ha_reolink_battery.Python.Sample.{sample, sample-IsIso}
use ha_reolink_battery.Queue.{
  EventQueue, empty, enqueue, append_event, expire_processed, expire_pending, ids, defer,
  pop_processed, pop_pending, remove, without,
}
use ha_reolink_battery.Queue.Sample.{motion, stored, stored-IsValid}
use ha_reolink_battery.Queue.Invariant.{IsValid, empty-IsValid}
use ha_reolink_battery.Queue.History.{
  Call, step, enqueues, removes, defers, run, run-IsValid, enqueue_window,
}
use ha_reolink_battery.Queue.Storage.{load, as_storage}
use ha_reolink_battery.Queue.Reload.{load_after_as_storage}
use ha_reolink_battery.Queue.Reload.Parts.{IsStorable}

abbrev calls : List Call
calls = enqueues (motion "b" 20) ∷ defers "a" "late" 30 ∷ removes "a" ∷ []

-- The queue after the calls; opening it opens all that they run.
held : EventQueue
unfolding run step enqueue empty append_event expire_processed expire_pending pop_processed
    pop_pending contains insert discard defer erase lookup assign remove without
held = run calls (enqueue (motion "a" 10) empty).0

held_pending : ids held.pending ≡ "b" ∷ []
unfolding held
held_pending = refl

run-IsValid_example : IsValid (run calls empty)
run-IsValid_example = run-IsValid calls empty empty-IsValid

enqueue_window_example :
    let later = run calls (enqueue (motion "a" 10) empty).0 in
    enqueue (motion "a" 10) later ≡ (later, false)
unfolding contains empty enqueue append_event expire_processed expire_pending insert run
enqueue_window_example = enqueue_window (motion "a" 10) calls empty empty-IsValid refl (omega arith)

stored-IsStorable : IsStorable stored
unfolding contains
stored-IsStorable = record {
  sourced = (refl, (refl, tt));
  reasoned = ((refl, refl), tt);
  few = omega arith;
  distinct = (refl, tt);
}

load_after_as_storage_example :
    (r : EventQueue) × (load sample (obj (as_storage sample stored)) empty ≡ ok r)
    × IsValid r
    × (r.pending ≡ stored.pending)
    × (r.completed_recordings ≡ stored.completed_recordings)
    × (r.deferred ≡ stored.deferred)
    × ((x : String)
        → contains x r.processed_set
          ≡ (contains x (ids stored.pending) || contains x (take_last 512 stored.processed)))
load_after_as_storage_example =
    load_after_as_storage sample sample-IsIso stored empty stored-IsValid stored-IsStorable
