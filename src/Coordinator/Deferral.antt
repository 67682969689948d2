-- ===== src/Coordinator/Deferral.antt =====
-- coordinator.py: what deferring, rearming and clearing do to the set of deferred events.
use ha_reolink_battery.Base.{
  ℕ, String, ◌≡◌, refl, inl, inr, Bool, true, false, ◌&&◌, ◌||◌, Option, none, some, arith,
  if◌then◌else◌, is_some, ◌==◌, eq_iff, contains, contains-discard, lookup, is_some-lookup, keys,
  keys-erase, contains-keys-assign, Bool-cases,
}
use ha_reolink_battery.Event.{DeferredEvent}
use ha_reolink_battery.Queue.{EventQueue, ids, defer, rearm, same_deferral}
use ha_reolink_battery.Coordinator.{
  Coordinator, save, save_if, pending_events, is_event_deferred, async_defer_event,
  async_rearm_event,
}

module _ (x : String) (c : Coordinator) where
  pub pending-async_defer_event :
      (reason : String) (at : ℕ)
      → pending_events (async_defer_event x reason at c).0 ≡ pending_events c
  unfolding async_defer_event save_if save defer
  pending-async_defer_event reason at = ground arith

  pub pending-async_rearm_event : pending_events (async_rearm_event x c).0 ≡ pending_events c
  unfolding async_rearm_event save_if save rearm
  pending-async_rearm_event = ground arith

queue-save_if : (b : Bool) (c : Coordinator) → (save_if b c).queue ≡ c.queue
unfolding save_if save
queue-save_if true c = refl
queue-save_if false c = refl

lookup-same_deferral :
    (d : DeferredEvent) (o : Option DeferredEvent) → same_deferral d o ≡ true → is_some o ≡ true
lookup-same_deferral d none h = cc
lookup-same_deferral d (some c) h = refl

-- After `defer` the ids that were deferred still are, and so is the id, if it is pending.
contains-defer :
    (x y reason : String) (at : ℕ) (q : EventQueue)
    → contains y (keys (defer x reason at q).0.deferred)
      ≡ ((x == y && contains x (ids q.pending)) || contains y (keys q.deferred))
unfolding defer
contains-defer x y reason at q =
    let d : DeferredEvent = record { event_id = x; reason = reason; deferred_at = at } in
    elim (Bool-cases (contains x (ids q.pending))) [
      | inr absent ↦ rw absent (ground arith)
      | inl there ↦ elim (Bool-cases (same_deferral d (lookup x q.deferred))) [
        | inl same ↦
            rw (there, same)
              (ground (
                arith,
                eq_iff x y,
                is_some-lookup x q.deferred,
                lookup-same_deferral d (lookup x q.deferred) same,
              ))
        | inr new ↦ rw (there, new) (ground (arith, contains-keys-assign x y d q.deferred))
      ]
    ]

pub is_event_deferred-async_defer_event :
    (x y reason : String) (at : ℕ) (c : Coordinator)
    → is_event_deferred y (async_defer_event x reason at c).0
      ≡ ((x == y && contains x (ids (pending_events c))) || is_event_deferred y c)
unfolding is_event_deferred async_defer_event
is_event_deferred-async_defer_event x y reason at c =
    rw queue-save_if (contains-defer x y reason at c.queue)

pub is_event_deferred-async_rearm_event :
    (x y : String) (c : Coordinator)
    → is_event_deferred y (async_rearm_event x c).0
      ≡ (if x == y then false else is_event_deferred y c)
unfolding is_event_deferred async_rearm_event rearm
is_event_deferred-async_rearm_event x y c =
    rw (queue-save_if, keys-erase x c.queue.deferred) (contains-discard y x (keys c.queue.deferred))
