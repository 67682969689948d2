-- ===== src/Worker/Manual/Clears.antt =====
-- recording_worker_v138.py: what the clear button takes out of the queue.
use ha_reolink_battery.Base.{
  ℕ, String, ◌≡◌, refl, sym, ◌∙◌, ap, subst, inl, inr, Bool, true, false, not, ◌&&◌, some, List, [],
  ◌∷◌, arith, keep, ◌==◌, eq_iff, eq_refl, contains, contains-discard, keys, Distinct, Within, All,
  length, Bool-cases,
}
use ha_reolink_battery.Event.{CloudEvent, DeferredEvent}
use ha_reolink_battery.Queue.{
  EventQueue, ids, discard_deferred, discard_found, removable, without_all,
}
use ha_reolink_battery.Coordinator.{
  Coordinator, async_clear_deferred_events, clear_candidates, save_if, save,
}
use ha_reolink_battery.Worker.State.{Worker}
use ha_reolink_battery.Worker.{pending, is_android, android_notification, refresh_pending_counts}
use ha_reolink_battery.Worker.Manual.{discard_all, clear_deferred_recordings}

-- What the button removes.
abbrev is_cleared : List (String × DeferredEvent) → CloudEvent → Bool
is_cleared d e = contains e.event_id (keys d) && is_android e

abbrev is_kept : List (String × DeferredEvent) → CloudEvent → Bool
is_kept d e = not (is_cleared d e)

candidates-ids :
    (d : List (String × DeferredEvent)) (es : List CloudEvent)
    → clear_candidates (some android_notification) d es ≡ ids (keep (is_cleared d) es)
unfolding clear_candidates
candidates-ids d [] = refl
candidates-ids d (e ∷ es) = elim (Bool-cases (is_cleared d e)) [
  | inl h ↦ rw h (ap (λ xs. e.event_id ∷ xs) (candidates-ids d es))
  | inr h ↦ rw h (candidates-ids d es)
]

module _ (test : CloudEvent → Bool) where
  ids-keep-absent :
      (x : String) (es : List CloudEvent)
      → contains x (ids es) ≡ false
      → contains x (ids (keep test es)) ≡ false
  unfolding contains
  ids-keep-absent x [] h = refl
  ids-keep-absent x (e ∷ es) h = ground (arith, ids-keep-absent x es)

  keep-head :
      (e : CloudEvent) (es : List CloudEvent)
      → contains e.event_id (ids es) ≡ false
      → contains e.event_id (ids (keep test (e ∷ es))) ≡ test e
  unfolding contains
  keep-head e es h = ground (arith, ids-keep-absent e.event_id es h, eq_refl e.event_id)

  keep-tail :
      (e : CloudEvent) (es xs : List CloudEvent)
      → contains e.event_id (ids es) ≡ false
      → Within (ids xs) (ids es)
      → All (λ x. contains x.event_id (ids (keep test es)) ≡ test x) xs
      → All (λ x. contains x.event_id (ids (keep test (e ∷ es))) ≡ test x) xs
  unfolding contains
  keep-tail e es [] h s a = tt
  keep-tail e es (x ∷ xs) h s a = (
    ground (arith, a.0, s x.event_id, eq_iff e.event_id x.event_id, eq_refl x.event_id),
    keep-tail e es xs h (λ y p. s y (ground arith)) a.1,
  )

  -- In a list without two events of one id, the kept ids tell which events were kept.
  contains-ids-keep :
      (es : List CloudEvent)
      → Distinct (ids es)
      → All (λ x. contains x.event_id (ids (keep test es)) ≡ test x) es
  contains-ids-keep [] d = tt
  contains-ids-keep (e ∷ es) d =
      (keep-head e es d.0, keep-tail e es es d.0 (λ x p. p) (contains-ids-keep es d.1))

cleared_deferred :
    (d : List (String × DeferredEvent)) (e : CloudEvent)
    → is_cleared d e ≡ true
    → contains e.event_id (keys d) ≡ true
cleared_deferred d e h = ground arith

removable-ids :
    (xs : List String) (d : List (String × DeferredEvent)) (es : List CloudEvent)
    → All (λ x. contains x.event_id xs ≡ is_cleared d x) es
    → removable xs d es ≡ ids (keep (is_cleared d) es)
unfolding removable
removable-ids xs d [] a = refl
removable-ids xs d (e ∷ es) a = elim (Bool-cases (is_cleared d e)) [
  | inl h ↦
      rw (a.0, h, cleared_deferred d e h) (ap (λ ys. e.event_id ∷ ys) (removable-ids xs d es a.1))
  | inr h ↦ rw (a.0, h) (removable-ids xs d es a.1)
]

without_all-keep :
    (xs : List String) (d : List (String × DeferredEvent)) (es : List CloudEvent)
    → All (λ x. contains x.event_id xs ≡ is_cleared d x) es
    → without_all xs es ≡ keep (is_kept d) es
unfolding without_all
without_all-keep xs d [] a = refl
without_all-keep xs d (e ∷ es) a = elim (Bool-cases (is_cleared d e)) [
  | inl h ↦ rw (a.0, h) (without_all-keep xs d es a.1)
  | inr h ↦ rw (a.0, h) (ap (λ ys. e ∷ ys) (without_all-keep xs d es a.1))
]

without_all-none : (es : List CloudEvent) → es ≡ without_all [] es
unfolding without_all contains
without_all-none [] = refl
without_all-none (e ∷ es) = ap (λ xs. e ∷ xs) (without_all-none es)

contains-discard_all-kept :
    (x : String) (xs ys : List String)
    → contains x ys ≡ false
    → contains x (discard_all xs ys) ≡ false
unfolding discard_all
contains-discard_all-kept x [] ys h = h
contains-discard_all-kept x (y ∷ xs) ys h =
    contains-discard_all-kept x xs _ (ground (arith, contains-discard x y ys))

contains-discard_all :
    (x : String) (xs ys : List String)
    → contains x xs ≡ true
    → contains x (discard_all xs ys) ≡ false
unfolding discard_all contains
contains-discard_all x [] ys h = cc
contains-discard_all x (y ∷ xs) ys h = elim (Bool-cases (y == x)) [
  | inl same ↦ contains-discard_all-kept x xs _ (ground (arith, contains-discard x y ys))
  | inr other ↦ contains-discard_all x xs _ (ground arith)
]

removed-discard_found : (xs : List String) (q : EventQueue) → (discard_found xs q).1 ≡ xs
unfolding discard_found
removed-discard_found [] q = refl
removed-discard_found (x ∷ xs) q = refl

processed_set-discard_found :
    (xs : List String) (q : EventQueue) → (discard_found xs q).0.processed_set ≡ q.processed_set
unfolding discard_found
processed_set-discard_found [] q = refl
processed_set-discard_found (x ∷ xs) q = refl

-- The clear of the queue, for pending events with distinct ids.
module _ (q : EventQueue) (d : Distinct (ids q.pending)) where
  abbrev asked : List String
  asked = ids (keep (is_cleared q.deferred) q.pending)

  found_is_asked : removable asked q.deferred q.pending ≡ asked
  found_is_asked =
      removable-ids asked q.deferred q.pending
        (contains-ids-keep (is_cleared q.deferred) q.pending d)

  pending-discard_found :
      (xs : List String)
      → xs ≡ asked
      → (discard_found xs q).0.pending ≡ keep (is_kept q.deferred) q.pending
  unfolding discard_found
  pending-discard_found [] h =
      without_all-none q.pending
      ∙ without_all-keep [] q.deferred q.pending (
          subst (λ ys. All (λ x. contains x.event_id ys ≡ is_cleared q.deferred x) q.pending)
            (sym h) (contains-ids-keep (is_cleared q.deferred) q.pending d))
  pending-discard_found (x ∷ xs) h = without_all-keep (x ∷ xs) q.deferred q.pending (
      subst (λ ys. All (λ x. contains x.event_id ys ≡ is_cleared q.deferred x) q.pending) (sym h)
        (contains-ids-keep (is_cleared q.deferred) q.pending d))

  pending-discard_deferred :
      (xs : List String)
      → xs ≡ asked
      → (discard_deferred xs q).0.pending ≡ keep (is_kept q.deferred) q.pending
  unfolding discard_deferred discard_found
  pending-discard_deferred [] h =
      subst (λ ys. (discard_found ys q).0.pending ≡ keep (is_kept q.deferred) q.pending) (sym h)
        (pending-discard_found asked refl)
  pending-discard_deferred (x ∷ xs) h =
      pending-discard_found (removable (x ∷ xs) q.deferred q.pending)
        (subst (λ ys. removable ys q.deferred q.pending ≡ asked) (sym h) found_is_asked)

  pub removed-discard_deferred : (xs : List String) → xs ≡ asked → (discard_deferred xs q).1 ≡ asked
  unfolding discard_deferred
  removed-discard_deferred [] h = h
  removed-discard_deferred (x ∷ xs) h =
      removed-discard_found (removable (x ∷ xs) q.deferred q.pending) q
      ∙ subst (λ ys. removable ys q.deferred q.pending ≡ asked) (sym h) found_is_asked

processed_set-discard_deferred :
    (xs : List String) (q : EventQueue) → (discard_deferred xs q).0.processed_set ≡ q.processed_set
unfolding discard_deferred
processed_set-discard_deferred [] q = refl
processed_set-discard_deferred (x ∷ xs) q =
    processed_set-discard_found (removable (x ∷ xs) q.deferred q.pending) q

queue-save_if : (b : Bool) (c : Coordinator) → (save_if b c).queue ≡ c.queue
unfolding save_if save
queue-save_if true c = refl
queue-save_if false c = refl

-- The events that the clear button takes: deferred Android events.
abbrev pub cleared_by : Worker → CloudEvent → Bool
cleared_by w e = is_cleared w.coordinator.queue.deferred e

-- What the three sets of the worker hold of an id.
abbrev pub Forgets : Worker → String → Type 0
Forgets w x =
    (contains x w.activated ≡ false)
    × (contains x w.manual ≡ false)
    × (contains x w.credits ≡ false)

module _ (now : ℕ) (w : Worker) (d : Distinct (ids (pending w))) where
  abbrev pub removed_ids : List String
  removed_ids = ids (keep (cleared_by w) (pending w))

  discarded :
      (async_clear_deferred_events (some android_notification) w.coordinator).1 ≡ removed_ids
  unfolding async_clear_deferred_events
  discarded =
      removed-discard_deferred w.coordinator.queue d _
        (candidates-ids w.coordinator.queue.deferred (pending w))

  forgets :
      (x : String) → contains x removed_ids ≡ true → Forgets (clear_deferred_recordings now w).0 x
  unfolding clear_deferred_recordings refresh_pending_counts
  forgets x h = (go w.activated, go w.manual, go w.credits)
    where
      go :
          (ys : List String)
          → contains x (
              discard_all
                (async_clear_deferred_events (some android_notification) w.coordinator).1
                ys)
            ≡ false
      go ys =
          subst (λ xs. contains x (discard_all xs ys) ≡ false) (sym discarded)
            (contains-discard_all x removed_ids ys h)

  -- With distinct ids among the pending events, the clear button removes exactly the deferred
  -- Android events, reports their number, forgets their ids in the worker's three sets, and leaves
  -- the ids that block a second ingestion as they are.
  pub clear_deferred_recordings_lem :
      let (w', n) = clear_deferred_recordings now w in
      (pending w' ≡ keep (λ e. not (cleared_by w e)) (pending w))
      × (n ≡ length removed_ids)
      × (w'.coordinator.queue.processed_set ≡ w.coordinator.queue.processed_set)
      × ((x : String) → contains x removed_ids ≡ true → Forgets w' x)
  unfolding clear_deferred_recordings async_clear_deferred_events refresh_pending_counts
  clear_deferred_recordings_lem =
      let xs =
        clear_candidates (some android_notification) w.coordinator.queue.deferred (pending w) in
      (
        ap (λ q. q.pending) (queue-save_if _ _)
            ∙ pending-discard_deferred w.coordinator.queue d xs
                (candidates-ids w.coordinator.queue.deferred (pending w)),
        ap length discarded,
        ap (λ q. q.processed_set) (queue-save_if _ _)
            ∙ processed_set-discard_deferred xs w.coordinator.queue,
        forgets,
      )
