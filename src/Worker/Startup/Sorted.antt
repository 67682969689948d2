-- ===== src/Worker/Startup/Sorted.antt =====
-- recording_worker.py: after the startup every Android event that waits is deferred, or is the one
-- that was chosen.
use mathlib.Core.Bool.{false≢true}
use ha_reolink_battery.Base.{
  ℕ, String, ◌≡◌, refl, sym, ◌∙◌, ap, subst, ◌⊎◌, inl, inr, true, false, not, Option, none, some,
  List, [], ◌∷◌, arith, ◌==◌, eq_iff, eq_refl, Bool-cases,
}
use ha_reolink_battery.Event.{CloudEvent, is_automatic_event_fresh}
use ha_reolink_battery.Coordinator.{Coordinator, is_event_deferred, pending_events}
use ha_reolink_battery.Coordinator.Deferral.{
  pending-async_defer_event, is_event_deferred-async_defer_event,
}
use ha_reolink_battery.Worker.State.{Worker}
use ha_reolink_battery.Worker.Pick.{In, In-keep, keep-In, contains-ids, newest-some, newest-none}
use ha_reolink_battery.Worker.{
  pending, is_android, newest, is_eligible, eligible_pending_events, refresh_pending_counts, notify,
}
use ha_reolink_battery.Worker.Startup.{
  stale_events, defer_if_waiting, defer_backlog, defer_others, not_selected, notify_some,
  skip_stale, select_newest, prepare_startup_recovery,
}

abbrev IsDeferred : Coordinator → CloudEvent → Type 0
IsDeferred c e = is_event_deferred e.event_id c ≡ true

-- One deferral of the startup's first loop.
module _ (x : CloudEvent) (reason : String) (now : ℕ) (c : Coordinator) where
  pending-defer_if_waiting : pending_events (defer_if_waiting x reason now c) ≡ pending_events c
  unfolding defer_if_waiting
  pending-defer_if_waiting = ground (arith, pending-async_defer_event x.event_id c reason now)

  defer_if_waiting_keeps :
      (e : CloudEvent) → IsDeferred c e → IsDeferred (defer_if_waiting x reason now c) e
  unfolding defer_if_waiting
  defer_if_waiting_keeps e h =
      ground (arith, is_event_deferred-async_defer_event x.event_id e.event_id reason now c)

  defer_if_waiting_hits : In x (pending_events c) → IsDeferred (defer_if_waiting x reason now c) x
  unfolding defer_if_waiting
  defer_if_waiting_hits h = ground (
    arith,
    is_event_deferred-async_defer_event x.event_id x.event_id reason now c,
    eq_refl x.event_id,
    contains-ids x (pending_events c) h,
  )

module _ (now : ℕ) where
  pending-defer_backlog :
      (es : List CloudEvent) (c : Coordinator)
      → pending_events (defer_backlog es now c) ≡ pending_events c
  unfolding defer_backlog
  pending-defer_backlog [] c = refl
  pending-defer_backlog (x ∷ es) c =
      pending-defer_backlog es _ ∙ pending-defer_if_waiting x "startup_event_stale" now c

  defer_backlog_keeps :
      (e : CloudEvent) (es : List CloudEvent) (c : Coordinator)
      → IsDeferred c e
      → IsDeferred (defer_backlog es now c) e
  unfolding defer_backlog
  defer_backlog_keeps e [] c h = h
  defer_backlog_keeps e (x ∷ es) c h =
      defer_backlog_keeps e es _ (defer_if_waiting_keeps x "startup_event_stale" now c e h)

  defer_backlog_hits :
      (e : CloudEvent) (es : List CloudEvent) (c : Coordinator)
      → In e es
      → In e (pending_events c)
      → IsDeferred (defer_backlog es now c) e
  unfolding defer_backlog
  defer_backlog_hits e [] c h p = elim h [ ]
  defer_backlog_hits e (x ∷ es) c (inl q) p = defer_backlog_keeps e es _ (
      subst (λ y. IsDeferred (defer_if_waiting y "startup_event_stale" now c) e) (sym q)
        (defer_if_waiting_hits e "startup_event_stale" now c p))
  defer_backlog_hits e (x ∷ es) c (inr q) p =
      defer_backlog_hits e es _ q
        (subst (In e) (sym (pending-defer_if_waiting x "startup_event_stale" now c)) p)

  pending-defer_others :
      (es : List CloudEvent) (c : Coordinator)
      → pending_events (defer_others es now c) ≡ pending_events c
  unfolding defer_others
  pending-defer_others [] c = refl
  pending-defer_others (x ∷ es) c =
      pending-defer_others es _ ∙ pending-async_defer_event x.event_id c "startup_not_selected" now

  defer_others_keeps :
      (e : CloudEvent) (es : List CloudEvent) (c : Coordinator)
      → IsDeferred c e
      → IsDeferred (defer_others es now c) e
  unfolding defer_others
  defer_others_keeps e [] c h = h
  defer_others_keeps e (x ∷ es) c h = defer_others_keeps e es _ (
      ground (
        arith,
        is_event_deferred-async_defer_event x.event_id e.event_id "startup_not_selected" now c,
      ))

  defer_others_hits :
      (e : CloudEvent) (es : List CloudEvent) (c : Coordinator)
      → In e es
      → In e (pending_events c)
      → IsDeferred (defer_others es now c) e
  unfolding defer_others
  defer_others_hits e [] c h p = elim h [ ]
  defer_others_hits e (x ∷ es) c (inl q) p = defer_others_keeps e es _ (
      rw q (
        ground (
          arith,
          is_event_deferred-async_defer_event e.event_id e.event_id "startup_not_selected" now c,
          eq_refl e.event_id,
          contains-ids e (pending_events c) p,
        )))
  defer_others_hits e (x ∷ es) c (inr q) p =
      defer_others_hits e es _ q
        (subst (In e) (sym (pending-async_defer_event x.event_id c "startup_not_selected" now)) p)

pub coordinator-notify :
    (x : String) (now : ℕ) (w : Worker) → (notify x now w).coordinator ≡ w.coordinator
unfolding notify
coordinator-notify x now w = ground arith

coordinator-notify_some :
    (o : Option CloudEvent) (now : ℕ) (w : Worker)
    → (notify_some o now w).coordinator ≡ w.coordinator
coordinator-notify_some none now w = refl
coordinator-notify_some (some e) now w = coordinator-notify e.event_id now w

coordinator-select_newest :
    (now later : ℕ) (w : Worker)
    → let eligible = eligible_pending_events w now in
      (select_newest now later w).0.coordinator
      ≡ defer_others (not_selected (newest eligible) eligible) now w.coordinator
unfolding select_newest refresh_pending_counts
coordinator-select_newest now later w =
    coordinator-notify_some (newest (eligible_pending_events w now)) later _

-- The event that the startup chose has the id of `e`, and is a pending Android event that is fresh.
abbrev pub Chosen : ℕ → List CloudEvent → Option CloudEvent → CloudEvent → Type 0
Chosen now es none e = ⊥
Chosen now es (some c) e =
    In c es
    × (is_android c ≡ true)
    × (is_automatic_event_fresh c now ≡ true)
    × (c.event_id ≡ e.event_id)

-- An eligible event is deferred by the second half, or chosen.
eligible-sorted :
    (now : ℕ) (w : Worker) (e : CloudEvent) (o : Option CloudEvent)
    → newest (eligible_pending_events w now) ≡ o
    → In e (eligible_pending_events w now)
    → In e (pending w)
    → IsDeferred (defer_others (not_selected o (eligible_pending_events w now)) now w.coordinator) e
      ⊎ Chosen now (pending w) o e
unfolding eligible_pending_events not_selected is_eligible
eligible-sorted now w e none found h p =
    absurd (subst (In e) (newest-none (eligible_pending_events w now) found) h)
eligible-sorted now w e (some c) found h p =
    let (there, greatest) = newest-some (eligible_pending_events w now) c found in
    let (waiting, passed) = In-keep (is_eligible w now) c (pending w) there in
    elim (Bool-cases (e.event_id == c.event_id)) [
      | inl same ↦
          inr (waiting, ground arith, ground arith, sym ((eq_iff e.event_id c.event_id).0 same))
      | inr other ↦ inl (
          defer_others_hits now e _ w.coordinator
            (keep-In (λ x. not (x.event_id == c.event_id)) e _ h (rw other)) p)
    ]

-- The second half, from a state in which the stale events are deferred.
second-sorted :
    (now : ℕ) (w : Worker) (e : CloudEvent)
    → In e (pending w)
    → is_android e ≡ true
    → (is_automatic_event_fresh e now ≡ false → IsDeferred w.coordinator e)
    → let eligible = eligible_pending_events w now in
      IsDeferred (defer_others (not_selected (newest eligible) eligible) now w.coordinator) e
      ⊎ Chosen now (pending w) (newest eligible) e
second-sorted now w e h android stale =
    elim (Bool-cases (is_event_deferred e.event_id w.coordinator)) [
      | inl old ↦ inl (defer_others_keeps now e _ w.coordinator old)
      | inr new ↦ elim (Bool-cases (is_automatic_event_fresh e now)) [
        | inr aged ↦ absurd (false≢true (sym new ∙ stale aged))
        | inl fresh ↦
            eligible-sorted now w e (newest (eligible_pending_events w now)) refl
              (unfold eligible_pending_events in
                keep-In (is_eligible w now) e (pending w) h
                  (unfold is_eligible in rw (android, new, fresh)))
              h
      ]
    ]

first-pending : (now : ℕ) (w : Worker) → pending (skip_stale now w) ≡ pending w
unfolding skip_stale
first-pending now w = pending-defer_backlog now (stale_events now (pending w)) w.coordinator

first-sorted :
    (now : ℕ) (w : Worker) (e : CloudEvent)
    → In e (pending w)
    → is_android e ≡ true
    → is_automatic_event_fresh e now ≡ false
    → IsDeferred (skip_stale now w).coordinator e
unfolding skip_stale stale_events
first-sorted now w e h android aged =
    defer_backlog_hits now e _ w.coordinator
      (keep-In (λ x. not (is_automatic_event_fresh x now)) e _ (keep-In is_android e _ h android)
        (rw aged))
      h

-- After the startup the same events are pending, and each Android event among them is deferred, or
-- has the id of the one chosen event, which is a pending Android event and at most ten minutes old.
pub startup_sorted :
    (now later : ℕ) (w : Worker) (e : CloudEvent)
    → In e (pending w)
    → is_android e ≡ true
    → let (w', chosen) = prepare_startup_recovery now later w in
      (pending w' ≡ pending w)
      × ((is_event_deferred e.event_id w'.coordinator ≡ true) ⊎ Chosen now (pending w) chosen e)
unfolding prepare_startup_recovery select_newest
startup_sorted now later w e h android =
    let first = skip_stale now w in
    let same = first-pending now w in
    let coordinator = coordinator-select_newest now later first in
    (
      ap pending_events coordinator ∙ pending-defer_others now _ first.coordinator ∙ same,
      elim (second-sorted now first e (subst (In e) (sym same) h) android
          (first-sorted now w e h android)) [
            | inl d ↦ inl (subst (λ c. IsDeferred c e) (sym coordinator) d)
            | inr c ↦
                inr (
                  subst (λ es. Chosen now es (newest (eligible_pending_events first now)) e) same c)
          ],
    )
