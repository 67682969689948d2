-- ===== src/Queue/Invariant.antt =====
-- events.py: what holds of an `EventQueue` between two calls, and that `enqueue` keeps it.
pub mod Calls
use ha_reolink_battery.Base.{
  ℕ, ◌+◌, ◌≤◌, String, ◌≡◌, refl, ◌⊎◌, inl, inr, Bool, true, false, ◌||◌, Option, none, some, List,
  [], ◌∷◌, ◌++◌, arith, ap, if◌then◌else◌, length, length-append, ◌==◌, eq_iff, contains,
  contains-append, contains-discard, contains-insert, discard, Distinct, Distinct-append, Within,
  keys, lookup, erase, keys-erase, Bool-cases, ltb, subst,
}
use ha_reolink_battery.Event.{CloudEvent, CompletedRecording, max_completed_recordings}
use ha_reolink_battery.Queue.{
  EventQueue, empty, ids, fingerprints, append_event, expire_processed, expire_pending,
  pop_processed, pop_pending, enqueue,
}

-- The invariant, with the two bounds that `enqueue` overshoots for a moment as parameters.
pub record IsBounded (m n : ℕ) (q : EventQueue) : Type 0 where
  pub processed_bound : length q.processed ≤ m
  pub pending_bound : length q.pending ≤ n
  pub completed_bound : length q.completed_recordings ≤ 256
  pub processed_distinct : Distinct q.processed
  pub pending_distinct : Distinct (ids q.pending)
  pub fingerprints_distinct : Distinct (fingerprints q.completed_recordings)
  pub processed_known : Within q.processed q.processed_set
  pub pending_known : Within (ids q.pending) q.processed_set
  pub deferred_pending : Within (keys q.deferred) (ids q.pending)

-- A load may leave up to 100 pending ids beyond the 512 processed ones, and `enqueue` then takes
-- out one id for each that it adds; so the bound on `processed` is their sum.
abbrev pub IsValid : EventQueue → Type 0
IsValid = IsBounded 612 100

pub empty-IsValid : IsValid empty
unfolding empty contains
empty-IsValid = record {
  processed_bound = omega arith;
  pending_bound = omega arith;
  completed_bound = omega arith;
  processed_distinct = tt;
  pending_distinct = tt;
  fingerprints_distinct = tt;
  processed_known = λ x h. h;
  pending_known = λ x h. h;
  deferred_pending = λ x h. h;
}

pub ids-append : (es fs : List CloudEvent) → ids (es ++ fs) ≡ ids es ++ ids fs
ids-append [] fs = refl
ids-append (e ∷ es) fs = ap (◌∷◌ e.event_id) (ids-append es fs)

-- What is not in the larger list is not in the smaller.
pub Within-absent :
    (x : String) (xs ys : List String)
    → Within xs ys
    → contains x ys ≡ false
    → contains x xs ≡ false
Within-absent x xs ys w h = elim (Bool-cases (contains x xs)) [
  | inl p ↦ ground (arith, w x p)
  | inr p ↦ p
]

append_event-IsBounded :
    {m n : ℕ} (e : CloudEvent) (q : EventQueue)
    → contains e.event_id q.processed_set ≡ false
    → IsBounded m n q
    → IsBounded (m + 1) (n + 1) (append_event e q)
unfolding append_event contains
append_event-IsBounded e q fresh v = record {
  processed_bound = omega (arith, v.processed_bound, length-append q.processed (e.event_id ∷ []));
  pending_bound = omega (arith, v.pending_bound, length-append q.pending (e ∷ []));
  completed_bound = v.completed_bound;
  processed_distinct =
      Distinct-append e.event_id q.processed v.processed_distinct
        (Within-absent e.event_id _ _ v.processed_known fresh);
  pending_distinct = rw (ids-append q.pending (e ∷ [])) (
      Distinct-append e.event_id (ids q.pending) v.pending_distinct
        (Within-absent e.event_id _ _ v.pending_known fresh));
  fingerprints_distinct = v.fingerprints_distinct;
  processed_known = λ x h. rw contains-insert (known x _ v.processed_known h);
  pending_known = λ x h. rw contains-insert (known x _ v.pending_known (rw ids-append at h));
  deferred_pending = λ x h.
      rw (ids-append q.pending (e ∷ []), contains-append) (ground (arith, v.deferred_pending x h));
}
  where
    known :
        (x : String) (xs : List String)
        → Within xs q.processed_set
        → contains x (xs ++ e.event_id ∷ []) ≡ true
        → (e.event_id == x || contains x q.processed_set) ≡ true
    known x xs w h = ground (arith, contains-append x xs (e.event_id ∷ []), w x)

-- The oldest processed id goes; its entry in the set stays while an event of that id is pending.
pop_processed-IsBounded :
    {m n : ℕ} (xs : List String) (q : EventQueue)
    → q.processed ≡ xs
    → IsBounded (m + 1) n q
    → IsBounded m n (pop_processed xs q)
unfolding pop_processed contains
pop_processed-IsBounded [] q e v = record {
  processed_bound = rw e (omega arith);
  pending_bound = v.pending_bound;
  completed_bound = v.completed_bound;
  processed_distinct = v.processed_distinct;
  pending_distinct = v.pending_distinct;
  fingerprints_distinct = v.fingerprints_distinct;
  processed_known = v.processed_known;
  pending_known = v.pending_known;
  deferred_pending = v.deferred_pending;
}
pop_processed-IsBounded (x ∷ xs) q e v = record {
  processed_bound = omega (arith, v.processed_bound, ap length e);
  pending_bound = v.pending_bound;
  completed_bound = v.completed_bound;
  processed_distinct = distinct.1;
  pending_distinct = v.pending_distinct;
  fingerprints_distinct = v.fingerprints_distinct;
  processed_known = λ y h. ground (
    arith,
    contains-discard y x q.processed_set,
    eq_iff x y,
    distinct.0,
    subst (λ p. contains y p ≡ true → contains y q.processed_set ≡ true) e (v.processed_known y),
  );
  pending_known =
      λ y h. ground (arith, contains-discard y x q.processed_set, eq_iff x y, v.pending_known y);
  deferred_pending = v.deferred_pending;
}
  where
    distinct : Distinct (x ∷ xs)
    distinct = subst Distinct e v.processed_distinct

expire_processed-IsBounded :
    {n : ℕ} (q : EventQueue) → IsBounded 613 n q → IsBounded 612 n (expire_processed q)
unfolding expire_processed
expire_processed-IsBounded q v = elim (Bool-cases (ltb 512 (length q.processed))) [
  | inl over ↦ rw over (pop_processed-IsBounded q.processed q refl v)
  | inr within ↦ rw within (record {
    processed_bound = ground arith;
    pending_bound = v.pending_bound;
    completed_bound = v.completed_bound;
    processed_distinct = v.processed_distinct;
    pending_distinct = v.pending_distinct;
    fingerprints_distinct = v.fingerprints_distinct;
    processed_known = v.processed_known;
    pending_known = v.pending_known;
    deferred_pending = v.deferred_pending;
  })
]

-- The oldest pending event goes, with its deferral.
pop_pending-IsBounded :
    {m n : ℕ} (es : List CloudEvent) (q : EventQueue)
    → q.pending ≡ es
    → IsBounded m (n + 1) q
    → IsBounded m n (pop_pending es q)
unfolding pop_pending contains
pop_pending-IsBounded [] q e v = record {
  processed_bound = v.processed_bound;
  pending_bound = rw e (omega arith);
  completed_bound = v.completed_bound;
  processed_distinct = v.processed_distinct;
  pending_distinct = v.pending_distinct;
  fingerprints_distinct = v.fingerprints_distinct;
  processed_known = v.processed_known;
  pending_known = v.pending_known;
  deferred_pending = v.deferred_pending;
}
pop_pending-IsBounded (x ∷ es) q e v = record {
  processed_bound = v.processed_bound;
  pending_bound = omega (arith, v.pending_bound, ap length e);
  completed_bound = v.completed_bound;
  processed_distinct = v.processed_distinct;
  pending_distinct = (subst (λ p. Distinct (ids p)) e v.pending_distinct).1;
  fingerprints_distinct = v.fingerprints_distinct;
  processed_known = v.processed_known;
  pending_known = λ y h. v.pending_known y (rw (ap ids e) (ground arith));
  deferred_pending = λ y h. ground (
    arith,
    ap (λ ks. contains y ks) (keys-erase x.event_id q.deferred),
    contains-discard y x.event_id (keys q.deferred),
    eq_iff x.event_id y,
    subst (λ p. contains y (keys q.deferred) ≡ true → contains y (ids p) ≡ true) e
        (v.deferred_pending y),
  );
}

expire_pending-IsBounded :
    {m : ℕ} (q : EventQueue) → IsBounded m 101 q → IsBounded m 100 (expire_pending q)
unfolding expire_pending
expire_pending-IsBounded q v = elim (Bool-cases (ltb 100 (length q.pending))) [
  | inl over ↦ rw over (pop_pending-IsBounded q.pending q refl v)
  | inr within ↦ rw within (record {
    processed_bound = v.processed_bound;
    pending_bound = ground arith;
    completed_bound = v.completed_bound;
    processed_distinct = v.processed_distinct;
    pending_distinct = v.pending_distinct;
    fingerprints_distinct = v.fingerprints_distinct;
    processed_known = v.processed_known;
    pending_known = v.pending_known;
    deferred_pending = v.deferred_pending;
  })
]

-- `enqueue` keeps the invariant, whether it takes the event or not.
pub enqueue-IsValid : (e : CloudEvent) (q : EventQueue) → IsValid q → IsValid (enqueue e q).0
unfolding enqueue
enqueue-IsValid e q v = elim (Bool-cases (contains e.event_id q.processed_set)) [
  | inl known ↦ rw known v
  | inr fresh ↦ rw fresh (
      expire_pending-IsBounded _
        (expire_processed-IsBounded _ (append_event-IsBounded e q fresh v)))
]
