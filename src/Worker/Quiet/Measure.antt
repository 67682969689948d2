-- ===== src/Worker/Quiet/Measure.antt =====
-- How much work is open: the pending events that are not deferred. Deferring or completing one
-- of them leaves fewer.
use ha_reolink_battery.Base.{
  ℕ, ◌≤◌, ◌<◌, ◌≡◌, refl, sym, subst, inl, inr, Bool, true, false, not, ◌&&◌, Option, List, [], ◌∷◌,
  String, arith, if◌then◌else◌, length, keep, ◌==◌, eq_iff, eq_refl, contains-discard, keys,
  keys-erase,
}
use ha_reolink_battery.Event.{CloudEvent, CompletedRecording}
use ha_reolink_battery.Queue.{without, remove}
use ha_reolink_battery.Coordinator.{
  Coordinator, pending_events, is_event_deferred, async_complete_event, async_defer_event,
}
use ha_reolink_battery.Coordinator.Completion.{queue-save_if, pending-remember, deferred-remember}
use ha_reolink_battery.Coordinator.Deferral.{
  pending-async_defer_event, is_event_deferred-async_defer_event,
}
use ha_reolink_battery.Worker.State.{Worker}
use ha_reolink_battery.Worker.{
  pending, defer_event, defer_stale, defer_stale_activated_events, refresh_pending_counts,
  is_stale_activated,
}
use ha_reolink_battery.Worker.Pick.{In, contains-ids}

abbrev count : (CloudEvent → Bool) → List CloudEvent → ℕ
count test es = length (keep test es)

count-le :
    (p q : CloudEvent → Bool) (es : List CloudEvent)
    → ((e : CloudEvent) → p e ≡ true → q e ≡ true)
    → count p es ≤ count q es
count-le p q [] h = omega arith
count-le p q (e ∷ es) h = ground (arith, h e, count-le p q es h)

count-lt :
    (p q : CloudEvent → Bool) (x : CloudEvent) (es : List CloudEvent)
    → ((e : CloudEvent) → p e ≡ true → q e ≡ true)
    → In x es
    → p x ≡ false
    → q x ≡ true
    → count p es < count q es
count-lt p q x [] h there a b = elim there [ ]
count-lt p q x (e ∷ es) h (inl same) a b =
    let off : p e ≡ false = subst (λ y. p y ≡ false) (sym same) a in
    let on : q e ≡ true = subst (λ y. q y ≡ true) (sym same) b in
    rw (off, on) (omega (arith, count-le p q es h))
count-lt p q x (e ∷ es) h (inr later) a b = ground (arith, h e, count-lt p q x es h later a b)

abbrev is_open : Coordinator → CloudEvent → Bool
is_open c e = not (is_event_deferred e.event_id c)

abbrev pub open_events : Coordinator → ℕ
open_events c = count (is_open c) (pending_events c)

-- A deferral opens nothing.
open_events-async_defer_event :
    (x reason : String) (at : ℕ) (c : Coordinator)
    → open_events (async_defer_event x reason at c).0 ≤ open_events c
open_events-async_defer_event x reason at c =
    subst (λ es. count (is_open (async_defer_event x reason at c).0) es ≤ open_events c)
      (sym (pending-async_defer_event x c reason at))
      (count-le (is_open (async_defer_event x reason at c).0) (is_open c) (pending_events c)
        λ e h. ground (arith, h, is_event_deferred-async_defer_event x e.event_id reason at c))

-- A deferral of an open event closes it.
pub open_events-defer :
    (e : CloudEvent) (reason : String) (at : ℕ) (c : Coordinator)
    → In e (pending_events c)
    → is_event_deferred e.event_id c ≡ false
    → open_events (async_defer_event e.event_id reason at c).0 < open_events c
open_events-defer e reason at c there opened =
    subst (λ es. count (is_open (async_defer_event e.event_id reason at c).0) es < open_events c)
      (sym (pending-async_defer_event e.event_id c reason at))
      (count-lt (is_open (async_defer_event e.event_id reason at c).0) (is_open c) e
        (pending_events c)
        (λ x h.
          ground (arith, h, is_event_deferred-async_defer_event e.event_id x.event_id reason at c))
        there
        (ground (
          arith,
          is_event_deferred-async_defer_event e.event_id e.event_id reason at c,
          eq_refl e.event_id,
          contains-ids e (pending_events c) there,
        ))
        (ground (arith, opened)))

count-without :
    (p q : CloudEvent → Bool) (x : String) (es : List CloudEvent)
    → ((e : CloudEvent) → (e.event_id == x) ≡ false → p e ≡ q e)
    → count p (without x es) ≤ count (λ e. not (e.event_id == x) && q e) es
unfolding without
count-without p q x [] h = omega arith
count-without p q x (e ∷ es) h = ground (arith, h e, count-without p q x es h)

module _ (x : String) (r : Option CompletedRecording) (c : Coordinator) where
  pending-async_complete_event :
      pending_events (async_complete_event x r c).0 ≡ without x (pending_events c)
  unfolding async_complete_event remove
  pending-async_complete_event = rw (queue-save_if, pending-remember) refl

  is_event_deferred-async_complete_event :
      (y : String)
      → is_event_deferred y (async_complete_event x r c).0
        ≡ (if x == y then false else is_event_deferred y c)
  unfolding async_complete_event remove is_event_deferred
  is_event_deferred-async_complete_event y =
      rw (queue-save_if, deferred-remember, keys-erase x c.queue.deferred)
        (contains-discard y x (keys c.queue.deferred))

-- Completing an open event closes it.
pub open_events_complete :
    (e : CloudEvent) (r : Option CompletedRecording) (c : Coordinator)
    → In e (pending_events c)
    → is_event_deferred e.event_id c ≡ false
    → open_events (async_complete_event e.event_id r c).0 < open_events c
open_events_complete e r c there opened =
    let after = (async_complete_event e.event_id r c).0 in
    subst (λ es. count (is_open after) es < open_events c)
      (sym (pending-async_complete_event e.event_id r c))
      (omega (
        arith,
        count-without (is_open after) (is_open c) e.event_id (pending_events c) (λ x other. ground (
          arith,
          other,
          eq_iff e.event_id x.event_id,
          eq_iff x.event_id e.event_id,
          is_event_deferred-async_complete_event e.event_id r c x.event_id,
        )),
        count-lt (λ x. not (x.event_id == e.event_id) && is_open c x) (is_open c) e
            (pending_events c) (λ x h. ground (arith, h)) there (ground (arith, eq_refl e.event_id))
            (ground (arith, opened)),
      ))

open_events-if :
    (b : Bool) (x y : Worker) (n : ℕ)
    → open_events x.coordinator ≤ n
    → open_events y.coordinator ≤ n
    → open_events (if b then x else y).coordinator ≤ n
open_events-if true x y n p q = p
open_events-if false x y n p q = q

open_events-defer_stale :
    (es : List CloudEvent) (now : ℕ) (w : Worker)
    → open_events (defer_stale es now w).coordinator ≤ open_events w.coordinator
unfolding defer_stale defer_event
open_events-defer_stale [] now w = omega arith
open_events-defer_stale (e ∷ es) now w =
    let set_aside = defer_event e "automatic_event_stale" now w in
    let next = if is_stale_activated w now e then set_aside else w in
    omega (
      arith,
      open_events-defer_stale es now next,
      open_events-if (is_stale_activated w now e) set_aside w (open_events w.coordinator)
          (open_events-async_defer_event e.event_id "automatic_event_stale" now w.coordinator)
          (omega arith),
    )

pub open_events-defer_stale_activated_events :
    (now : ℕ) (w : Worker)
    → open_events (defer_stale_activated_events now w).coordinator ≤ open_events w.coordinator
unfolding defer_stale_activated_events refresh_pending_counts
open_events-defer_stale_activated_events now w = open_events-defer_stale (pending w) now w
