-- ===== src/Queue/Invariant/Calls.antt =====
-- events.py: the calls of `EventQueue` other than `enqueue` keep its invariant.
use ha_reolink_battery.Base.{
  ℕ, ◌-◌, ◌≤◌, zero, suc, String, ◌≡◌, refl, inl, inr, true, false, List, [], ◌∷◌, ◌++◌, arith, ap,
  if◌then◌else◌, length, length-take_last, drop, take_last, ◌==◌, eq_iff, contains,
  contains-discard, discard, Distinct, Distinct-append, Distinct-discard, Distinct-drop, Within,
  keys, lookup, erase, assign, keys-erase, contains-keys-assign, Bool-cases, ltb, subst,
}
use ha_reolink_battery.Event.{CloudEvent, CompletedRecording, DeferredEvent}
use ha_reolink_battery.Queue.{
  EventQueue, ids, fingerprints, remove, without, defer, rearm, discard_deferred, discard_found,
  removable, without_all, erase_all, remember_completed_recording, same_deferral,
}
use ha_reolink_battery.Queue.Invariant.{IsValid}

pub ids-without : (x : String) (es : List CloudEvent) → ids (without x es) ≡ discard x (ids es)
unfolding without discard
ids-without x [] = refl
ids-without x (e ∷ es) = ground (arith, ids-without x es)

pub length-without-le : (x : String) (es : List CloudEvent) → length (without x es) ≤ length es
unfolding without
length-without-le x [] = omega arith
length-without-le x (e ∷ es) = ground (arith, length-without-le x es)

-- `remove` keeps the invariant.
pub remove-IsValid : (x : String) (q : EventQueue) → IsValid q → IsValid (remove x q).0
unfolding remove
remove-IsValid x q v = record {
  processed_bound = v.processed_bound;
  pending_bound = omega (arith, v.pending_bound, length-without-le x q.pending);
  completed_bound = v.completed_bound;
  processed_distinct = v.processed_distinct;
  pending_distinct = rw (ids-without x q.pending) (Distinct-discard x _ v.pending_distinct);
  fingerprints_distinct = v.fingerprints_distinct;
  processed_known = v.processed_known;
  pending_known = λ y h. v.pending_known y (
      ground (
        arith,
        contains-discard y x (ids q.pending),
        subst (λ l. contains y l ≡ true) (ids-without x q.pending) h,
      ));
  deferred_pending = λ y h. rw (ids-without x q.pending) (
      ground (
        arith,
        contains-discard y x (ids q.pending),
        contains-discard y x (keys q.deferred),
        subst (λ l. contains y l ≡ true) (keys-erase x q.deferred) h,
        v.deferred_pending y,
      ));
}

-- A change of the deferrals alone keeps the invariant, if they stay within the pending events.
with_deferred-IsValid :
    (d : List (String × DeferredEvent)) (q : EventQueue)
    → Within (keys d) (ids q.pending)
    → IsValid q
    → IsValid (record q { deferred = d })
with_deferred-IsValid d q w v = record {
  processed_bound = v.processed_bound;
  pending_bound = v.pending_bound;
  completed_bound = v.completed_bound;
  processed_distinct = v.processed_distinct;
  pending_distinct = v.pending_distinct;
  fingerprints_distinct = v.fingerprints_distinct;
  processed_known = v.processed_known;
  pending_known = v.pending_known;
  deferred_pending = w;
}

pub rearm-IsValid : (x : String) (q : EventQueue) → IsValid q → IsValid (rearm x q).0
unfolding rearm
rearm-IsValid x q v =
    with_deferred-IsValid _ q
      (λ y h. v.deferred_pending y (
        ground (
          arith,
          contains-discard y x (keys q.deferred),
          subst (λ l. contains y l ≡ true) (keys-erase x q.deferred) h,
        )))
      v

assign-Within :
    (x : String) (d : DeferredEvent) (q : EventQueue)
    → contains x (ids q.pending) ≡ true
    → Within (keys q.deferred) (ids q.pending)
    → Within (keys (assign x d q.deferred)) (ids q.pending)
assign-Within x d q h w y p = ground (arith, contains-keys-assign x y d q.deferred, eq_iff x y, w y)

pub defer-IsValid :
    (x reason : String) (at : ℕ) (q : EventQueue) → IsValid q → IsValid (defer x reason at q).0
unfolding defer
defer-IsValid x reason at q v =
    let d : DeferredEvent = record { event_id = x; reason = reason; deferred_at = at } in
    elim (Bool-cases (contains x (ids q.pending))) [
      | inr absent ↦ rw absent v
      | inl there ↦ elim (Bool-cases (same_deferral d (lookup x q.deferred))) [
        | inl same ↦ rw (there, same) v
        | inr new ↦
            rw (there, new)
              (with_deferred-IsValid _ q (assign-Within x d q there v.deferred_pending) v)
      ]
    ]

contains-without_all :
    (y : String) (xs : List String) (es : List CloudEvent)
    → contains y (ids (without_all xs es)) ≡ (if contains y xs then false else contains y (ids es))
unfolding without_all contains
contains-without_all y xs [] = ground arith
contains-without_all y xs (e ∷ es) = elim (Bool-cases (e.event_id == y)) [
  | inl hit ↦
      rw ((eq_iff e.event_id y).0 hit) (ground (arith, contains-without_all y xs es, eq_iff y y))
  | inr miss ↦ ground (arith, contains-without_all y xs es)
]

Distinct-without_all :
    (xs : List String) (es : List CloudEvent)
    → Distinct (ids es)
    → Distinct (ids (without_all xs es))
unfolding without_all
Distinct-without_all xs [] d = tt
Distinct-without_all xs (e ∷ es) d =
    ground (arith, contains-without_all e.event_id xs es, Distinct-without_all xs es d.1)

length-without_all-le :
    (xs : List String) (es : List CloudEvent) → length (without_all xs es) ≤ length es
unfolding without_all
length-without_all-le xs [] = omega arith
length-without_all-le xs (e ∷ es) = ground (arith, length-without_all-le xs es)

contains-erase_all :
    (y : String) (xs : List String) (d : List (String × DeferredEvent))
    → contains y (keys (erase_all xs d)) ≡ (if contains y xs then false else contains y (keys d))
unfolding erase_all contains
contains-erase_all y [] d = refl
contains-erase_all y (x ∷ xs) d =
    rw (contains-erase_all y xs (erase x d), keys-erase x d)
      (ground (arith, contains-discard y x (keys d)))

discard_found-IsValid :
    (xs : List String) (q : EventQueue) → IsValid q → IsValid (discard_found xs q).0
unfolding discard_found
discard_found-IsValid [] q v = v
discard_found-IsValid (x ∷ xs) q v = record {
  processed_bound = v.processed_bound;
  pending_bound = omega (arith, v.pending_bound, length-without_all-le (x ∷ xs) q.pending);
  completed_bound = v.completed_bound;
  processed_distinct = v.processed_distinct;
  pending_distinct = Distinct-without_all (x ∷ xs) q.pending v.pending_distinct;
  fingerprints_distinct = v.fingerprints_distinct;
  processed_known = v.processed_known;
  pending_known =
      λ y h. v.pending_known y (ground (arith, contains-without_all y (x ∷ xs) q.pending));
  deferred_pending = λ y h. ground (
    arith,
    contains-without_all y (x ∷ xs) q.pending,
    contains-erase_all y (x ∷ xs) q.deferred,
    v.deferred_pending y,
  );
}

pub discard_deferred-IsValid :
    (requested : List String) (q : EventQueue)
    → IsValid q
    → IsValid (discard_deferred requested q).0
unfolding discard_deferred
discard_deferred-IsValid [] q v = v
discard_deferred-IsValid (x ∷ xs) q v =
    discard_found-IsValid (removable (x ∷ xs) q.deferred q.pending) q v

fingerprints-append :
    (rs ts : List CompletedRecording) → fingerprints (rs ++ ts) ≡ fingerprints rs ++ fingerprints ts
fingerprints-append [] ts = refl
fingerprints-append (r ∷ rs) ts = ap (◌∷◌ r.fingerprint) (fingerprints-append rs ts)

fingerprints-drop :
    (n : ℕ) (rs : List CompletedRecording) → fingerprints (drop n rs) ≡ drop n (fingerprints rs)
fingerprints-drop zero rs = refl
fingerprints-drop (suc n) [] = refl
fingerprints-drop (suc n) (r ∷ rs) = fingerprints-drop n rs

-- A change of the finished recordings alone.
with_recordings-IsValid :
    (rs : List CompletedRecording) (q : EventQueue)
    → length rs ≤ 256
    → Distinct (fingerprints rs)
    → IsValid q
    → IsValid (record q { completed_recordings = rs })
with_recordings-IsValid rs q b d v = record {
  processed_bound = v.processed_bound;
  pending_bound = v.pending_bound;
  completed_bound = b;
  processed_distinct = v.processed_distinct;
  pending_distinct = v.pending_distinct;
  fingerprints_distinct = d;
  processed_known = v.processed_known;
  pending_known = v.pending_known;
  deferred_pending = v.deferred_pending;
}

pub remember_completed_recording-IsValid :
    (r : CompletedRecording) (q : EventQueue)
    → IsValid q
    → IsValid (remember_completed_recording r q).0
unfolding remember_completed_recording
remember_completed_recording-IsValid r q v =
    let rs = q.completed_recordings ++ r ∷ [] in
    elim (Bool-cases (contains r.fingerprint (fingerprints q.completed_recordings))) [
      | inl known ↦ rw known v
      | inr new ↦
          let d : Distinct (fingerprints rs) =
            rw fingerprints-append (Distinct-append r.fingerprint _ v.fingerprints_distinct new) in
          elim (Bool-cases (ltb 256 (length rs))) [
            | inl over ↦
                rw (new, over)
                  (with_recordings-IsValid (take_last 256 rs) q
                    (omega (arith, length-take_last 256 rs))
                    (rw (fingerprints-drop (length rs - 256) rs) (Distinct-drop _ _ d)) v)
            | inr room ↦ rw (new, room) (with_recordings-IsValid rs q (ground arith) d v)
          ]
    ]
