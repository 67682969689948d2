-- ===== src/Queue/Reload/Parts.antt =====
-- events.py: what a queue keeps over a restart, `load` after `as_storage`.
use mathlib.Core.List.{append-nil, append_assoc}
use ha_reolink_battery.Base.{
  ℕ, suc, eq_refl, ◌≤◌, String, ◌≡◌, refl, sym, ◌∙◌, inl, inr, Bool, false, ◌||◌, List, [], ◌∷◌,
  ◌++◌, map, arith, ap, if◌then◌else◌, ◌+◌, contains-insert, length-append, Distinct-append, length,
  take_last, take_last_all, All, ◌==◌, eq_iff, contains, contains-append, assign, keys, Distinct,
  Within, Bool-cases, subst,
}
use ha_reolink_battery.Python.{Runtime, IsIso, Exc, Result, ok, ◌>>=◌}
use ha_reolink_battery.Python.Documents.{
  Json, str, arr, obj, Fields, items, of_items, items-of_items,
}
use ha_reolink_battery.Event.{CloudEvent, CompletedRecording, DeferredEvent}
use ha_reolink_battery.Event.Storage.{
  py_str, event_as_storage, event_from_storage, recording_as_storage, recording_from_storage,
  deferral_as_storage, deferral_from_storage,
}
use ha_reolink_battery.Event.RoundTrip.{
  event_storage_roundtrip, recording_storage_roundtrip, deferral_storage_roundtrip,
}
use ha_reolink_battery.Queue.{EventQueue, ids}
use ha_reolink_battery.Queue.Invariant.{Within-absent}
use ha_reolink_battery.Queue.Storage.{
  restore, caught, all_caught, add_missing, add_id, keep_pending, load_processed, load_pending,
  load_recordings, load_deferred, values, store_all,
}

-- What a queue must hold for its texts to read back: events with a source, and at most one hundred
-- deferrals with a reason, each under its own id and none twice.
pub record IsStorable (q : EventQueue) : Type 0 where
  pub sourced : All (λ e. (e.source == "") ≡ false) q.pending
  pub reasoned : All (λ p. ((p.1.reason == "") ≡ false) × (p.0 ≡ p.1.event_id)) q.deferred
  pub few : length q.deferred ≤ 100
  pub distinct : Distinct (keys q.deferred)

module _ {A : Type 0} (read : Fields → Result A) (write : A → Fields) (handled : Exc → Bool) where
  restore-write :
      (xs : List A)
      → All (λ x. read (write x) ≡ ok x) xs
      → restore read handled (map (λ x. obj (write x)) xs) ≡ ok xs
  unfolding restore
  restore-write [] h = refl
  restore-write (x ∷ xs) h = rw (h.0, restore) (rw (restore-write xs h.1))

length-map {ℓ κ} :
    {A : Type ℓ} {B : Type κ} (f : A → B) (xs : List A) → length (map f xs) ≡ length xs
length-map f [] = refl
length-map f (x ∷ xs) = ap suc (length-map f xs)

length-values : (d : List (String × DeferredEvent)) → length (values d) ≡ length d
length-values [] = refl
length-values (x ∷ d) = ap suc (length-values d)

assign-fresh :
    (k : String) (v : DeferredEvent) (d : List (String × DeferredEvent))
    → contains k (keys d) ≡ false
    → assign k v d ≡ d ++ (k, v) ∷ []
unfolding assign contains
assign-fresh k v [] h = refl
assign-fresh k v ((j, w) ∷ d) h = ground (arith, assign-fresh k v d)

keys-append : (d e : List (String × DeferredEvent)) → keys (d ++ e) ≡ keys d ++ keys e
keys-append [] e = refl
keys-append ((k, v) ∷ d) e = ap (◌∷◌ k) (keys-append d e)

Distinct-middle :
    (x : String) (xs ys : List String) → Distinct (xs ++ x ∷ ys) → contains x xs ≡ false
unfolding contains
Distinct-middle x [] ys u = refl
Distinct-middle x (y ∷ xs) ys u =
    ground
      (arith, contains-append y xs (x ∷ ys), eq_iff x y, eq_iff y x, Distinct-middle x xs ys u.1)

-- An association list rebuilt entry by entry is the same list.
keep_pending-values :
    (pending : List String) (done d : List (String × DeferredEvent))
    → All (λ p. ((p.1.reason == "") ≡ false) × (p.0 ≡ p.1.event_id)) d
    → Within (keys d) pending
    → Distinct (keys (done ++ d))
    → keep_pending pending (values d) done ≡ done ++ d
unfolding keep_pending contains
keep_pending-values pending done [] h w u = sym (append-nil done)
keep_pending-values pending done ((k, v) ∷ d) h w u =
    ap (keep_pending pending (values d)) kept
    ∙ keep_pending-values pending (done ++ (k, v) ∷ []) d h.1 (λ x p. w x (ground arith))
        (rw (append_assoc done ((k, v) ∷ []) d) u)
    ∙ append_assoc done ((k, v) ∷ []) d
  where
    fresh : assign k v done ≡ done ++ (k, v) ∷ []
    fresh = assign-fresh k v done (Distinct-middle k (keys done) (keys d) (rw keys-append at u))

    kept :
        (if contains v.event_id pending then assign v.event_id v done else done)
        ≡ done ++ (k, v) ∷ []
    kept =
        subst (λ j. (if contains j pending then assign j v done else done) ≡ done ++ (k, v) ∷ [])
          h.0.1 (rw (w k (ground (arith, eq_refl k))) fresh)

-- What `add_missing` leaves alone.
pub add_missing_rest :
    (es : List CloudEvent) (q : EventQueue)
    → ((add_missing es q).pending ≡ q.pending)
      × ((add_missing es q).completed_recordings ≡ q.completed_recordings)
      × ((add_missing es q).deferred ≡ q.deferred)
unfolding add_missing add_id
add_missing_rest [] q = (refl, refl, refl)
add_missing_rest (e ∷ es) q = ground (arith, add_missing_rest es (add_id e.event_id q))

pub add_missing_bound :
    (es : List CloudEvent) (q : EventQueue)
    → length (add_missing es q).processed ≤ length q.processed + length es
unfolding add_missing add_id
add_missing_bound [] q = omega arith
add_missing_bound (e ∷ es) q =
    ground (
      arith,
      add_missing_bound es (add_id e.event_id q),
      length-append q.processed (e.event_id ∷ []),
    )

contains-add_id :
    (x y : String) (q : EventQueue)
    → contains x (add_id y q).processed_set ≡ (y == x || contains x q.processed_set)
unfolding add_id
contains-add_id x y q = ground (arith, contains-insert x y q.processed_set, eq_iff y x)

pub contains-add_missing :
    (x : String) (es : List CloudEvent) (q : EventQueue)
    → contains x (add_missing es q).processed_set
      ≡ (contains x (ids es) || contains x q.processed_set)
unfolding add_missing contains
contains-add_missing x [] q = refl
contains-add_missing x (e ∷ es) q =
    ground (arith, contains-add_missing x es (add_id e.event_id q), contains-add_id x e.event_id q)

-- The processed ids are distinct and known to the set.
pub record IsKnown (q : EventQueue) : Type 0 where
  pub distinct : Distinct q.processed
  pub known : Within q.processed q.processed_set

add_id-IsKnown : (x : String) (q : EventQueue) → IsKnown q → IsKnown (add_id x q)
unfolding add_id
add_id-IsKnown x q k = elim (Bool-cases (contains x q.processed_set)) [
  | inl old ↦ rw old k
  | inr new ↦ rw new (record {
    distinct = Distinct-append x q.processed k.distinct (Within-absent x _ _ k.known new);
    known = λ y h.
        unfold contains in
        ground (
          arith,
          contains-insert y x q.processed_set,
          contains-append y q.processed (x ∷ []),
          k.known y,
        );
  })
]

pub add_missing-IsKnown :
    (es : List CloudEvent) (q : EventQueue) → IsKnown q → IsKnown (add_missing es q)
unfolding add_missing
add_missing-IsKnown [] q k = k
add_missing-IsKnown (e ∷ es) q k =
    add_missing-IsKnown es (add_id e.event_id q) (add_id-IsKnown e.event_id q k)

-- A stored list within the bound is taken whole.
items_stored : (n : ℕ) (js : List Json) → length js ≤ n → take_last n (items (of_items js)) ≡ js
items_stored n js h = ap (take_last n) (items-of_items js) ∙ take_last_all n js h

All-map {ℓ κ} :
    {A : Type ℓ} {P Q : A → Type κ} (f : (a : A) → P a → Q a) (xs : List A) → All P xs → All Q xs
All-map f [] h = tt
All-map f (x ∷ xs) h = (f x h.0, All-map f xs h.1)

All-of {ℓ κ} : {A : Type ℓ} {P : A → Type κ} (f : (a : A) → P a) (xs : List A) → All P xs
All-of f [] = tt
All-of f (x ∷ xs) = (f x, All-of f xs)

All-values :
    (d : List (String × DeferredEvent))
    → All (λ p. ((p.1.reason == "") ≡ false) × (p.0 ≡ p.1.event_id)) d
    → All (λ e. (e.reason == "") ≡ false) (values d)
All-values [] h = tt
All-values ((k, e) ∷ d) h = (h.0.0, All-values d h.1)

module _ (rt : Runtime) (iso : IsIso rt) where
  map-py_str : (xs : List String) → map (py_str rt) (map (λ x. str x) xs) ≡ xs
  map-py_str [] = refl
  map-py_str (x ∷ xs) = ap (◌∷◌ x) (map-py_str xs)

  pub load_processed-strings :
      (xs : List String) (p : EventQueue)
      → length xs ≤ 512
      → load_processed rt (arr (of_items (map (λ x. str x) xs))) p
        ≡ record p { processed = xs; processed_set = xs }
  unfolding load_processed
  load_processed-strings xs p h =
      let texts = map (py_str rt) (items (of_items (map (λ x. str x) xs))) in
      let e : texts ≡ xs = ap (map (py_str rt)) (items-of_items _) ∙ map-py_str xs in
      let f : take_last 512 texts ≡ xs = ap (take_last 512) e ∙ take_last_all 512 xs h in
      ap (λ l. record p { processed = l; processed_set = l }) f

  pub load_pending-events :
      (es : List CloudEvent) (p : EventQueue)
      → length es ≤ 100
      → All (λ e. (e.source == "") ≡ false) es
      → load_pending rt (store_all (event_as_storage rt) es) p
        ≡ ok (add_missing es (record p { pending = es }))
  unfolding load_pending
  load_pending-events es p h s =
      let js = map (λ x. obj (event_as_storage rt x)) es in
      let e : restore (event_from_storage rt) caught (take_last 100 (items (of_items js))) ≡ ok es =
        ap (restore (event_from_storage rt) caught) (items_stored 100 js (rw length-map h))
        ∙ restore-write (event_from_storage rt) (event_as_storage rt) caught es
            (All-map (event_storage_roundtrip rt iso) es s) in
      ap (λ r. r >>= λ restored. ok (add_missing restored (record p { pending = restored }))) e

  pub load_recordings-stored :
      (rs : List CompletedRecording) (p : EventQueue)
      → length rs ≤ 256
      → load_recordings rt (store_all (recording_as_storage rt) rs) p
        ≡ ok (record p { completed_recordings = rs })
  unfolding load_recordings
  load_recordings-stored rs p h =
      let js = map (λ x. obj (recording_as_storage rt x)) rs in
      let e : restore (recording_from_storage rt) caught (take_last 256 (items (of_items js)))
          ≡ ok rs =
        ap (restore (recording_from_storage rt) caught) (items_stored 256 js (rw length-map h))
        ∙ restore-write (recording_from_storage rt) (recording_as_storage rt) caught rs
            (All-of (recording_storage_roundtrip rt iso) rs) in
      ap (λ r. r >>= λ restored. ok (record p { completed_recordings = restored })) e

  pub load_deferred-stored :
      (d : List (String × DeferredEvent)) (p : EventQueue)
      → length d ≤ 100
      → All (λ p. ((p.1.reason == "") ≡ false) × (p.0 ≡ p.1.event_id)) d
      → Within (keys d) (ids p.pending)
      → Distinct (keys d)
      → load_deferred rt (store_all (deferral_as_storage rt) (values d)) p
        ≡ ok (record p { deferred = d })
  unfolding load_deferred
  load_deferred-stored d p h s w u =
      let js = map (λ x. obj (deferral_as_storage rt x)) (values d) in
      let e : restore (deferral_from_storage rt) all_caught (take_last 100 (items (of_items js)))
          ≡ ok (values d) =
        ap (restore (deferral_from_storage rt) all_caught)
          (items_stored 100 js (rw (length-map, length-values) h))
        ∙ restore-write (deferral_from_storage rt) (deferral_as_storage rt) all_caught (values d)
            (All-map (deferral_storage_roundtrip rt iso) (values d) (All-values d s)) in
      ap
        (λ r.
          r >>= λ restored. ok (record p { deferred = keep_pending (ids p.pending) restored [] }))
        e
      ∙ ap (λ l. ok (record p { deferred = l })) (keep_pending-values (ids p.pending) [] d s w u)
