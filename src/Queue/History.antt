-- ===== src/Queue/History.antt =====
-- events.py: an `EventQueue` over any sequence of calls.
use ha_reolink_battery.Base.{
  ℕ, ◌+◌, ◌≤◌, ◌<◌, String, ◌≡◌, refl, sym, ◌∙◌, inl, inr, Bool, true, false, List, [], ◌∷◌, ◌++◌,
  arith, ap, if◌then◌else◌, length, length-append, ltb, eq_refl, contains, contains-append,
  Bool-cases, subst,
}
use mathlib.Core.List.{append_assoc}
use native.Mathlib.Nat.{add-zero, add_assoc}
use ha_reolink_battery.Event.{CloudEvent, CompletedRecording, max_pending_events}
use ha_reolink_battery.Queue.{
  EventQueue, append_event, pop_processed, pop_pending, expire_processed, expire_pending, enqueue,
  remove, defer, rearm, discard_deferred, discard_found, removable, remember_completed_recording,
}
use ha_reolink_battery.Queue.Invariant.{IsValid, enqueue-IsValid}
use ha_reolink_battery.Queue.Invariant.Calls.{
  remove-IsValid, defer-IsValid, rearm-IsValid, discard_deferred-IsValid,
  remember_completed_recording-IsValid,
}

pub data Call : Type 0 where
  enqueues : CloudEvent → Call
  removes : String → Call
  defers : String → String → ℕ → Call
  rearms : String → Call
  discards : List String → Call
  remembers : CompletedRecording → Call

unfoldable pub step : Call → EventQueue → EventQueue
step (enqueues e) q = (enqueue e q).0
step (removes x) q = (remove x q).0
step (defers x reason at) q = (defer x reason at q).0
step (rearms x) q = (rearm x q).0
step (discards xs) q = (discard_deferred xs q).0
step (remembers r) q = (remember_completed_recording r q).0

unfoldable pub run : List Call → EventQueue → EventQueue
run [] q = q
run (c ∷ cs) q = run cs (step c q)

-- Whether the call takes a new event into the queue.
abbrev pub accepts : Call → EventQueue → Bool
accepts (enqueues e) q = (enqueue e q).1
accepts _ q = false

abbrev pub accepted : List Call → EventQueue → ℕ
accepted [] q = 0
accepted (c ∷ cs) q = (if accepts c q then 1 else 0) + accepted cs (step c q)

step-IsValid : (c : Call) (q : EventQueue) → IsValid q → IsValid (step c q)
unfolding step
step-IsValid (enqueues e) q v = enqueue-IsValid e q v
step-IsValid (removes x) q v = remove-IsValid x q v
step-IsValid (defers x reason at) q v = defer-IsValid x reason at q v
step-IsValid (rearms x) q v = rearm-IsValid x q v
step-IsValid (discards xs) q v = discard_deferred-IsValid xs q v
step-IsValid (remembers r) q v = remember_completed_recording-IsValid r q v

-- Every sequence of calls keeps the queue valid: at most 100 pending events, 612 processed ids and
-- 256 recordings, no pending id, processed id or fingerprint twice, every pending and processed id
-- known to the set, and every deferral that of a pending event.
pub run-IsValid : (cs : List Call) (q : EventQueue) → IsValid q → IsValid (run cs q)
unfolding run
run-IsValid [] q v = v
run-IsValid (c ∷ cs) q v = run-IsValid cs (step c q) (step-IsValid c q v)

-- `x` was processed with at most `k` ids after it.
record Recent (x : String) (k : ℕ) (q : EventQueue) : Type 0 where
  before : List String
  after : List String
  split : q.processed ≡ before ++ x ∷ after
  few : length after ≤ k

processed-expire_pending : (q : EventQueue) → (expire_pending q).processed ≡ q.processed
unfolding expire_pending pop_pending
processed-expire_pending q = go q.pending
  where
    go :
        (es : List CloudEvent)
        → (if ltb max_pending_events (length q.pending) then pop_pending es q else q).processed
          ≡ q.processed
    go [] = ground arith
    go (e ∷ es) = ground arith

pop_processed-Recent :
    (x : String) (k : ℕ) (q : EventQueue) (before after : List String)
    → q.processed ≡ before ++ x ∷ after
    → length after ≤ k
    → k < 512
    → 512 < length q.processed
    → Recent x k (pop_processed (before ++ x ∷ after) q)
unfolding pop_processed
pop_processed-Recent x k q [] after e few small over = absurd (omega (arith, ap length e))
pop_processed-Recent x k q (y ∷ before) after e few small over = record {
  before = before;
  after = after;
  split = refl;
  few = few;
}

expire_processed-Recent :
    (x : String) (k : ℕ) (q : EventQueue) → Recent x k q → k < 512 → Recent x k (expire_processed q)
unfolding expire_processed
expire_processed-Recent x k q r small = elim (Bool-cases (ltb 512 (length q.processed))) [
  | inl over ↦ rw over (
      subst (λ l. Recent x k (pop_processed l q)) (sym r.split)
        (pop_processed-Recent x k q r.before r.after r.split r.few small (ground arith)))
  | inr room ↦ rw room r
]

append_event-Recent :
    (x : String) (k : ℕ) (e : CloudEvent) (q : EventQueue)
    → Recent x k q
    → Recent x (k + 1) (append_event e q)
unfolding append_event
append_event-Recent x k e q r = record {
  before = r.before;
  after = r.after ++ e.event_id ∷ [];
  split =
      ap (λ l. l ++ e.event_id ∷ []) r.split
      ∙ append_assoc r.before (x ∷ r.after) (e.event_id ∷ []);
  few = omega (arith, r.few, length-append r.after (e.event_id ∷ []));
}

append_event-Recent_self :
    (e : CloudEvent) (q : EventQueue) → Recent e.event_id 0 (append_event e q)
unfolding append_event
append_event-Recent_self e q = record {
  before = q.processed;
  after = [];
  split = refl;
  few = omega arith;
}

-- Only the list of processed ids counts.
same-Recent :
    (x : String) (k : ℕ) (p q : EventQueue)
    → q.processed ≡ p.processed
    → Recent x k p
    → Recent x k q
same-Recent x k p q e r = record {
  before = r.before;
  after = r.after;
  split = e ∙ r.split;
  few = r.few;
}

processed-discard_found :
    (xs : List String) (q : EventQueue) → (discard_found xs q).0.processed ≡ q.processed
unfolding discard_found
processed-discard_found [] q = refl
processed-discard_found (x ∷ xs) q = refl

processed-discard_deferred :
    (xs : List String) (q : EventQueue) → (discard_deferred xs q).0.processed ≡ q.processed
unfolding discard_deferred
processed-discard_deferred [] q = refl
processed-discard_deferred (x ∷ xs) q =
    processed-discard_found (removable (x ∷ xs) q.deferred q.pending) q

expire-Recent :
    (x : String) (k : ℕ) (q : EventQueue)
    → Recent x k q
    → k < 512
    → Recent x k (expire_pending (expire_processed q))
expire-Recent x k q r small =
    same-Recent x k (expire_processed q) _ (processed-expire_pending (expire_processed q))
      (expire_processed-Recent x k q r small)

enqueue-Recent :
    (x : String) (k : ℕ) (e : CloudEvent) (q : EventQueue)
    → Recent x k q
    → k + (if (enqueue e q).1 then 1 else 0) < 512
    → Recent x (k + (if (enqueue e q).1 then 1 else 0)) (enqueue e q).0
unfolding enqueue
enqueue-Recent x k e q r small = elim (Bool-cases (contains e.event_id q.processed_set)) [
  | inl known ↦ rw (known, add-zero) r
  | inr fresh ↦ rw fresh (expire-Recent x (k + 1) _ (append_event-Recent x k e q r) (ground arith))
]

step-Recent :
    (x : String) (k : ℕ) (c : Call) (q : EventQueue)
    → Recent x k q
    → k + (if accepts c q then 1 else 0) < 512
    → Recent x (k + (if accepts c q then 1 else 0)) (step c q)
unfolding step
step-Recent x k (enqueues e) q r small = enqueue-Recent x k e q r small
step-Recent x k (removes y) q r small = rw add-zero (same-Recent x k q _ (unfold remove in refl) r)
step-Recent x k (defers y reason at) q r small =
    rw add-zero (same-Recent x k q _ (unfold defer in ground arith) r)
step-Recent x k (rearms y) q r small = rw add-zero (same-Recent x k q _ (unfold rearm in refl) r)
step-Recent x k (discards ys) q r small =
    rw add-zero (same-Recent x k q _ (processed-discard_deferred ys q) r)
step-Recent x k (remembers y) q r small =
    rw add-zero (same-Recent x k q _ (unfold remember_completed_recording in ground arith) r)

run-Recent :
    (x : String) (k : ℕ) (cs : List Call) (q : EventQueue)
    → Recent x k q
    → k + accepted cs q < 512
    → Recent x (k + accepted cs q) (run cs q)
unfolding run
run-Recent x k [] q r small = rw add-zero r
run-Recent x k (c ∷ cs) q r small = rw (← add_assoc) (
    run-Recent x (k + (if accepts c q then 1 else 0)) cs (step c q)
      (step-Recent x k c q r (omega arith)) (omega arith))

Recent-known :
    (x : String) (k : ℕ) (q : EventQueue)
    → IsValid q
    → Recent x k q
    → contains x q.processed_set ≡ true
unfolding contains
Recent-known x k q v r =
    v.processed_known x
      (rw r.split (ground (arith, contains-append x r.before (x ∷ r.after), eq_refl x)))

-- An event that a valid queue has taken is refused, and changes nothing, until 512 later events
-- have been taken, whatever other calls come in between.
pub enqueue_window :
    (e : CloudEvent) (cs : List Call) (q : EventQueue)
    → IsValid q
    → contains e.event_id q.processed_set ≡ false
    → accepted cs (enqueue e q).0 < 512
    → let later = run cs (enqueue e q).0 in enqueue e later ≡ (later, false)
enqueue_window e cs q v fresh small =
    let first = (enqueue e q).0 in
    let start : Recent e.event_id 0 first =
      unfold enqueue in
      rw fresh (expire-Recent e.event_id 0 _ (append_event-Recent_self e q) (omega arith)) in
    let known =
      Recent-known e.event_id _ (run cs first) (run-IsValid cs first (enqueue-IsValid e q v))
        (run-Recent e.event_id 0 cs first start (omega arith)) in
    unfold enqueue in rw known
