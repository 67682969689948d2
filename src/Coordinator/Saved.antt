-- ===== src/Coordinator/Saved.antt =====
-- coordinator.py: what the store holds is what the queue holds, after every call.
use ha_reolink_battery.Base.{
  ℕ, String, ◌≡◌, refl, sym, ◌∙◌, ap, Bool, true, false, Option, none, some, List, [], ◌∷◌, arith,
  length, is_some, lookup, erase,
}
use ha_reolink_battery.Event.{CloudEvent, CompletedRecording, DeferredEvent}
use ha_reolink_battery.Queue.{
  EventQueue, enqueue, remove, without, defer, rearm, discard_deferred, discard_found, removable,
  remember_completed_recording,
}
use ha_reolink_battery.Queue.Invariant.{IsValid, enqueue-IsValid}
use ha_reolink_battery.Queue.Invariant.Calls.{
  remove-IsValid, defer-IsValid, rearm-IsValid, discard_deferred-IsValid, length-without-le,
  remember_completed_recording-IsValid,
}
use ha_reolink_battery.Coordinator.{
  Coordinator, save, save_if, enqueue_all, note_ingested, async_ingest_events, remember,
  async_complete_event, async_defer_event, async_rearm_event, clear_candidates, not_empty,
  async_clear_deferred_events, async_shutdown,
}

-- The queue is valid, and the store holds its document.
pub record IsSaved (c : Coordinator) : Type 0 where
  pub valid : IsValid c.queue
  pub stored : c.saved ≡ some c.queue

erase-absent :
    (x : String) (d : List (String × DeferredEvent)) → is_some (lookup x d) ≡ false → erase x d ≡ d
unfolding lookup erase
erase-absent x [] h = refl
erase-absent x ((k, v) ∷ d) h = ground (arith, erase-absent x d)

without-all_kept :
    (x : String) (es : List CloudEvent) → length (without x es) ≡ length es → without x es ≡ es
unfolding without
without-all_kept x [] h = refl
without-all_kept x (e ∷ es) h = ground (arith, without-all_kept x es, length-without-le x es)

-- A `remove` that reports no change has made none.
remove-unchanged : (x : String) (q : EventQueue) → (remove x q).1 ≡ false → (remove x q).0 ≡ q
unfolding remove
remove-unchanged x q h =
    λ i. record q { pending = pending i; deferred = erase-absent x q.deferred (ground arith) i }
  where
    pending : without x q.pending ≡ q.pending
    pending = without-all_kept x q.pending (ground arith)

rearm-unchanged : (x : String) (q : EventQueue) → (rearm x q).1 ≡ false → (rearm x q).0 ≡ q
unfolding rearm
rearm-unchanged x q h = ap (λ d. record q { deferred = d }) (erase-absent x q.deferred h)

defer-unchanged :
    (x reason : String) (at : ℕ) (q : EventQueue)
    → (defer x reason at q).1 ≡ false
    → (defer x reason at q).0 ≡ q
unfolding defer
defer-unchanged x reason at q h = ground arith

enqueue-unchanged :
    (e : CloudEvent) (q : EventQueue) → (enqueue e q).1 ≡ false → (enqueue e q).0 ≡ q
unfolding enqueue
enqueue-unchanged e q h = ground arith

remember-unchanged :
    (r : Option CompletedRecording) (q : EventQueue)
    → (remember r q).1 ≡ false
    → (remember r q).0 ≡ q
unfolding remember remember_completed_recording
remember-unchanged none q h = refl
remember-unchanged (some r) q h = ground arith

remember-IsValid :
    (r : Option CompletedRecording) (q : EventQueue) → IsValid q → IsValid (remember r q).0
unfolding remember
remember-IsValid none q v = v
remember-IsValid (some r) q v = remember_completed_recording-IsValid r q v

discard_found-unchanged :
    (xs : List String) (q : EventQueue)
    → not_empty (discard_found xs q).1 ≡ false
    → (discard_found xs q).0 ≡ q
unfolding discard_found
discard_found-unchanged [] q h = refl
discard_found-unchanged (x ∷ xs) q h = cc

discard_deferred-unchanged :
    (xs : List String) (q : EventQueue)
    → not_empty (discard_deferred xs q).1 ≡ false
    → (discard_deferred xs q).0 ≡ q
unfolding discard_deferred
discard_deferred-unchanged [] q h = refl
discard_deferred-unchanged (x ∷ xs) q h =
    discard_found-unchanged (removable (x ∷ xs) q.deferred q.pending) q h

save_if-IsSaved :
    (changed : Bool) (q : EventQueue) (c : Coordinator)
    → IsSaved c
    → IsValid q
    → (changed ≡ false → q ≡ c.queue)
    → IsSaved (save_if changed (record c { queue = q }))
unfolding save_if save
save_if-IsSaved true q c s v h = record { valid = v; stored = refl }
save_if-IsSaved false q c s v h = record { valid = v; stored = s.stored ∙ ap some (sym (h refl)) }

enqueue_all-IsValid :
    (es : List CloudEvent) (q : EventQueue) → IsValid q → IsValid (enqueue_all es q).0
unfolding enqueue_all
enqueue_all-IsValid [] q v = v
enqueue_all-IsValid (e ∷ es) q v = enqueue_all-IsValid es (enqueue e q).0 (enqueue-IsValid e q v)

enqueue_all-unchanged :
    (es : List CloudEvent) (q : EventQueue) → (enqueue_all es q).1 ≡ [] → (enqueue_all es q).0 ≡ q
unfolding enqueue_all
enqueue_all-unchanged [] q h = refl
enqueue_all-unchanged (e ∷ es) q h =
    ground (arith, enqueue-unchanged e q, enqueue_all-unchanged es (enqueue e q).0)

note_ingested-IsSaved :
    (es : List CloudEvent) (q : EventQueue) (c : Coordinator)
    → IsSaved c
    → IsValid q
    → (es ≡ [] → q ≡ c.queue)
    → IsSaved (note_ingested es (record c { queue = q }))
unfolding note_ingested save
note_ingested-IsSaved [] q c s v h = record {
  valid = v;
  stored = s.stored ∙ ap some (sym (h refl));
}
note_ingested-IsSaved (e ∷ es) q c s v h = record { valid = v; stored = refl }

pub data Call : Type 0 where
  ingests : List CloudEvent → Call
  completes : String → Option CompletedRecording → Call
  defers : String → String → ℕ → Call
  rearms : String → Call
  clears : Option String → Call
  stops : Call

unfoldable pub step : Call → Coordinator → Coordinator
step (ingests es) c = (async_ingest_events es c).0
step (completes x r) c = (async_complete_event x r c).0
step (defers x reason at) c = (async_defer_event x reason at c).0
step (rearms x) c = (async_rearm_event x c).0
step (clears source) c = (async_clear_deferred_events source c).0
step stops c = async_shutdown c

-- From a valid queue whose document the store holds, every call of the coordinator leaves a valid
-- queue and a store that holds the document of exactly that queue: what a call does not save it has
-- not changed.
pub step-IsSaved : (k : Call) (c : Coordinator) → IsSaved c → IsSaved (step k c)
unfolding step async_ingest_events async_complete_event async_defer_event async_rearm_event
    async_clear_deferred_events async_shutdown
step-IsSaved (ingests es) c s =
    note_ingested-IsSaved (enqueue_all es c.queue).1 (enqueue_all es c.queue).0 c s
      (enqueue_all-IsValid es c.queue s.valid) (enqueue_all-unchanged es c.queue)
step-IsSaved (completes x r) c s =
    save_if-IsSaved _ _ c s (remember-IsValid r _ (remove-IsValid x c.queue s.valid))
      (λ h. remember-unchanged r _ (ground arith) ∙ remove-unchanged x c.queue (ground arith))
step-IsSaved (defers x reason at) c s =
    save_if-IsSaved _ _ c s (defer-IsValid x reason at c.queue s.valid)
      (defer-unchanged x reason at c.queue)
step-IsSaved (rearms x) c s =
    save_if-IsSaved _ _ c s (rearm-IsValid x c.queue s.valid) (rearm-unchanged x c.queue)
step-IsSaved (clears source) c s =
    let xs = clear_candidates source c.queue.deferred c.queue.pending in
    save_if-IsSaved _ _ c s (discard_deferred-IsValid xs c.queue s.valid)
      (discard_deferred-unchanged xs c.queue)
step-IsSaved stops c s = unfold save in record { valid = s.valid; stored = refl }
