-- ===== src/Worker/Credit.antt =====
-- recording_worker_v138.py: the first-attempt credit of an event that is fresh when it is announced.
use mathlib.Core.Bool.{false≢true}
use ha_reolink_battery.Base.{
  ℕ, ◌≡◌, refl, sym, ◌∙◌, subst, inl, inr, Bool, true, false, not, ◌&&◌, some, List, [], ◌∷◌, arith,
  if◌then◌else◌, contains, contains-insert, insert, Distinct, ◌==◌, eq_iff, eq_refl, Bool-cases,
}
use ha_reolink_battery.Event.{CloudEvent, is_automatic_event_fresh}
use ha_reolink_battery.Queue.{ids}
use ha_reolink_battery.Coordinator.{is_event_deferred}
use ha_reolink_battery.Worker.State.{Worker}
use ha_reolink_battery.Worker.{
  credits_event, find_android, is_android, is_deferred, notify, pending,
}
use ha_reolink_battery.Worker.Pick.{In, IsWork, contains-ids}

find_android-head :
    (x : CloudEvent) (es : List CloudEvent)
    → is_android x ≡ true
    → find_android x.event_id (x ∷ es) ≡ some x
unfolding find_android
find_android-head x es a = rw (eq_refl x.event_id, a) refl

find_android-tail :
    (e x : CloudEvent) (es : List CloudEvent)
    → (x.event_id == e.event_id) ≡ false
    → find_android e.event_id (x ∷ es) ≡ find_android e.event_id es
unfolding find_android
find_android-tail e x es h = rw h refl

other_id :
    (e x : CloudEvent) (es : List CloudEvent)
    → contains x.event_id (ids es) ≡ false
    → contains e.event_id (ids es) ≡ true
    → (x.event_id == e.event_id) ≡ false
other_id e x es h k = elim (Bool-cases (x.event_id == e.event_id)) [
  | inl same ↦ absurd (
      false≢true (
        sym h
        ∙ subst (λ y. contains y (ids es) ≡ true) (sym ((eq_iff x.event_id e.event_id).0 same)) k))
  | inr other ↦ other
]

-- With distinct ids the search finds the event itself.
find_android-In :
    (e : CloudEvent) (es : List CloudEvent)
    → Distinct (ids es)
    → In e es
    → is_android e ≡ true
    → find_android e.event_id es ≡ some e
find_android-In e [] d h a = elim h [ ]
find_android-In e (x ∷ es) d (inl p) a =
    subst (λ y. find_android y.event_id (x ∷ es) ≡ some y) p
      (find_android-head x es (subst (λ y. is_android y ≡ true) (sym p) a))
find_android-In e (x ∷ es) d (inr q) a =
    find_android-tail e x es (other_id e x es d.0 (contains-ids e es q))
    ∙ find_android-In e es d.1 q a

IsWork-if :
    (b : Bool) (later : ℕ) (e : CloudEvent) (v w : Worker)
    → b ≡ true
    → IsWork v later e
    → IsWork (if b then v else w) later e
IsWork-if true later e v w h k = k
IsWork-if false later e v w h k = absurd (false≢true h)

-- Right after an Android event is announced that is pending, not deferred and fresh, in a queue
-- with distinct ids, it is work for the worker at whatever later time the choice is made, also when
-- it is stale by then.
pub notify-IsWork :
    (e : CloudEvent) (now later : ℕ) (w : Worker)
    → Distinct (ids (pending w))
    → In e (pending w)
    → is_android e ≡ true
    → is_event_deferred e.event_id w.coordinator ≡ false
    → is_automatic_event_fresh e now ≡ true
    → IsWork (notify e.event_id now w) later e
unfolding notify credits_event
notify-IsWork e now later w d h android waiting fresh =
    rw (find_android-In e (pending w) d h android) (
      IsWork-if (not (is_deferred w e) && is_automatic_event_fresh e now) later e credited activated
        (ground arith)
        (record {
          android = android;
          waiting = unfold is_event_deferred in waiting;
          admitted = inr (
              inl (
                ground
                  (arith, contains-insert e.event_id e.event_id w.credits, eq_refl e.event_id)));
        }))
  where
    activated : Worker
    activated = record w {
      activated = insert e.event_id w.activated;
      policy = record w.policy { pending_trigger = true };
      trigger = true;
    }

    credited : Worker
    credited = record activated { credits = insert e.event_id w.credits }
