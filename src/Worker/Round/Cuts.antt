-- ===== src/Worker/Round/Cuts.antt =====
-- recording_worker.py: `_wait_retry_or_newer_event`, when it is cut short.
use ha_reolink_battery.Base.{
  ℕ, ◌<◌, ◌≡◌, refl, ◌⊎◌, inl, inr, Bool, true, false, not, Option, none, some, List, [], ◌∷◌,
  arith, if◌then◌else◌, nat_eq,
}
use ha_reolink_battery.Event.{CloudEvent, event_time}
use ha_reolink_battery.Worker.State.{Policy, Worker}
use ha_reolink_battery.Worker.{
  pending, next_android_event, newer_pending_event, record_retry_preemption,
}
use ha_reolink_battery.Worker.Pick.{In, IsWork, Picked, next_android_event-Picked}
use ha_reolink_battery.Worker.Outside.{acts}
use ha_reolink_battery.Worker.Round.{
  Try, Wake, closed_camera, clear_trigger, give_way, wait_delay, wait_loop,
  wait_retry_or_newer_event,
}

-- Later work than the event is pending.
abbrev pub Overtaken : CloudEvent → Worker → Type 0
Overtaken e w =
    (n : CloudEvent) × (now : ℕ) × In n (pending w) × IsWork w now n × (event_time e < event_time n)

Overtaken-with_policy :
    (e : CloudEvent) (w : Worker) (p : Policy) (trigger : Bool)
    → Overtaken e w
    → Overtaken e (record w { policy = p; trigger = trigger })
Overtaken-with_policy e w p trigger (n, now, there, work, later) = (
  n,
  now,
  there,
  record { android = work.android; waiting = work.waiting; admitted = work.admitted },
  later,
)

newer_pending_event_lem :
    (e : CloudEvent) (now : ℕ) (w : Worker) (o : Option CloudEvent)
    → next_android_event w now ≡ o
    → Picked w now o
    → (n : CloudEvent) → newer_pending_event e now w ≡ some n
    → Overtaken e w
unfolding newer_pending_event
newer_pending_event_lem e now w none h p n found = absurd (ground arith)
newer_pending_event_lem e now w (some m) h (there, work, top) n found =
    (m, now, there, work, ground arith)

-- A wait that was cut short: the worker is stopping, or later work is pending.
abbrev pub Cut : CloudEvent → Worker × Bool → Type 0
Cut e (w, over) = over ≡ false → (w.stopped ≡ true) ⊎ Overtaken e w

Cut-if :
    (b : Bool) (e : CloudEvent) (x y : Worker × Bool)
    → (b ≡ true → Cut e x)
    → (b ≡ false → Cut e y)
    → Cut e (if b then x else y)
Cut-if true e x y h k = h refl
Cut-if false e x y h k = k refl

give_way-Cut :
    (e : CloudEvent) (o : Option CloudEvent) (w : Worker) (rest : Worker × Bool)
    → ((n : CloudEvent) → o ≡ some n → Overtaken e w)
    → Cut e rest
    → Cut e (give_way e o w rest)
unfolding give_way record_retry_preemption
give_way-Cut e none w rest h k = k
give_way-Cut e (some n) w rest h k = λ _. inr (Overtaken-with_policy e w _ w.trigger (h n refl))

Overtaken-newer :
    (e : CloudEvent) (now : ℕ) (w : Worker) (n : CloudEvent)
    → newer_pending_event e now w ≡ some n
    → Overtaken e w
Overtaken-newer e now w n found =
    newer_pending_event_lem e now w (next_android_event w now) refl
      (next_android_event-Picked w now) n found

wait_loop-Cut : (e : CloudEvent) (wakes : List Wake) (w : Worker) → Cut e (wait_loop e wakes w)
unfolding wait_loop
wait_loop-Cut e [] w = λ h. inl (ground arith)
wait_loop-Cut e (wake ∷ more) w =
    let woken = acts wake.during w in
    let heard = clear_trigger woken in
    let asleep = wait_loop e more woken in
    let awake = wait_loop e more heard in
    let listening = give_way e (newer_pending_event e wake.now heard) heard awake in
    Cut-if woken.stopped e (woken, false) (if not woken.trigger then asleep else listening)
      (λ h _. inl h)
      (λ _.
        Cut-if (not woken.trigger) e asleep listening (λ _. wait_loop-Cut e more woken)
          (λ _.
            give_way-Cut e (newer_pending_event e wake.now heard) heard _
              (Overtaken-newer e wake.now heard) (wait_loop-Cut e more heard)))

wait_delay-Cut :
    (e : CloudEvent) (delay : ℕ) (wakes : List Wake) (w : Worker)
    → Cut e (wait_delay e delay wakes w)
unfolding wait_delay
wait_delay-Cut e delay wakes w =
    Cut-if (nat_eq delay 0) e _ _ (λ _ h. inl (ground arith)) (λ _ h. open_again h)
  where
    open_again : Cut e (
      closed_camera false (wait_loop e wakes (closed_camera true w)).0,
      (wait_loop e wakes (closed_camera true w)).1,
    )
    open_again h = elim (wait_loop-Cut e wakes (closed_camera true w) h) [
      | inl p ↦ inl p
      | inr q ↦ inr (Overtaken-with_policy e (wait_loop e wakes (closed_camera true w)).0 _ _ q)
    ]

pub wait_retry-Cut :
    (e : CloudEvent) (delay : ℕ) (t : Try) (w : Worker)
    → Cut e (wait_retry_or_newer_event e delay t w)
unfolding wait_retry_or_newer_event
wait_retry-Cut e delay t w =
    give_way-Cut e (newer_pending_event e t.asked w) w _ (Overtaken-newer e t.asked w)
      (wait_delay-Cut e delay t.wakes w)
