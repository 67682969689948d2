-- ===== src/Worker/Quiet.antt =====
-- recording_worker.py, recording_worker_v138.py: rounds in which no other task does anything. The
-- worker keeps to the event it chose, since no work that is later can appear.
pub mod Fares
pub mod Attempts
pub mod Measure
pub mod Returns
use ha_reolink_battery.Base.{
  ℕ, zero, suc, ◌+◌, ◌≤◌, ◌<◌, ◌≡◌, refl, sym, ap, ◌∙◌, subst, ◌⊎◌, inl, inr, Bool, true, false,
  not, Option, none, some, List, [], ◌∷◌, arith, if◌then◌else◌, nat_eq, leb, ◌==◌, All, Within,
  contains, keys, Option-cases, Bool-cases,
}
use ha_reolink_battery.Event.{CloudEvent, event_time}
use ha_reolink_battery.Coordinator.{Coordinator}
use ha_reolink_battery.Worker.State.{Worker}
use ha_reolink_battery.Worker.{pending, next_android_event, newer_pending_event}
use ha_reolink_battery.Worker.Pick.{In, IsWork, Picked, next_android_event-Picked}
use ha_reolink_battery.Worker.Outside.{Act, acts}
use ha_reolink_battery.Worker.Round.{
  Try, Wake, Plan, closed_camera, clear_trigger, give_way, wait_delay, wait_loop, settle_event,
  settle_delay, wait_retry_or_newer_event,
}

-- The second worker has the first one's queue, and no more ids in its three sets.
pub record Narrows (v w : Worker) : Type 0 where
  pub same : w.coordinator ≡ v.coordinator
  pub manual : Within w.manual v.manual
  pub credits : Within w.credits v.credits
  pub activated : Within w.activated v.activated

pub Narrows-refl : (w : Worker) → Narrows w w
Narrows-refl w = record { same = refl; manual = λ x h. h; credits = λ x h. h; activated = λ x h. h }

pub Narrows-trans : {u v w : Worker} → Narrows u v → Narrows v w → Narrows u w
Narrows-trans p q = record {
  same = q.same ∙ p.same;
  manual = λ x h. p.manual x (q.manual x h);
  credits = λ x h. p.credits x (q.credits x h);
  activated = λ x h. p.activated x (q.activated x h);
}

-- The clock is never behind that of the choice, and nothing comes from outside.
pub record IsQuietTry (start : ℕ) (t : Try) : Type 0 where
  pub asked_later : start ≤ t.asked
  pub wakes_quiet : All (λ (k : Wake). (k.during ≡ []) × (start ≤ k.now)) t.wakes
  pub meeting_quiet : t.meeting.during ≡ []

pub record IsQuiet (p : Plan) : Type 0 where
  pub settling_quiet : p.settling ≡ []
  pub tries_quiet : (i : ℕ) → IsQuietTry p.picked (p.try i)

All-In :
    (P : CloudEvent → Type 0) (e : CloudEvent) (es : List CloudEvent) → All P es → In e es → P e
All-In P e [] h i = elim i [ ]
All-In P e (x ∷ es) h (inl p) = subst P p h.0
All-In P e (x ∷ es) h (inr q) = All-In P e es h.1 q

newer_pending_event-some :
    (e n : CloudEvent) (now : ℕ) (w : Worker) (o : Option CloudEvent)
    → next_android_event w now ≡ o
    → newer_pending_event e now w ≡ some n
    → (o ≡ some n) × (event_time e < event_time n)
unfolding newer_pending_event
newer_pending_event-some e n now w none h found = absurd (ground arith)
newer_pending_event-some e n now w (some m) h found = ground arith

-- Work of a later time and a narrower worker is work of the first.
IsWork-Narrows :
    (v w : Worker) (start now : ℕ) (n : CloudEvent)
    → Narrows v w
    → start ≤ now
    → IsWork w now n
    → IsWork v start n
IsWork-Narrows v w start now n keeps h work = record {
  android = work.android;
  waiting =
      subst (λ (c : Coordinator). contains n.event_id (keys c.queue.deferred) ≡ false) keeps.same
        work.waiting;
  admitted = elim work.admitted [
    | inl m ↦ inl (keeps.manual n.event_id m)
    | inr (inl c) ↦ inr (inl (keeps.credits n.event_id c))
    | inr (inr (a, fresh)) ↦ inr (inr (keeps.activated n.event_id a, omega (arith, h, fresh)))
  ];
}

module _ (v : Worker) (start : ℕ) (e : CloudEvent) (chosen : Picked v start (some e)) where
  no_newer : (w : Worker) (now : ℕ) → Narrows v w → start ≤ now → newer_pending_event e now w ≡ none
  no_newer w now keeps h = elim (Option-cases (newer_pending_event e now w)) [
    | inl none_found ↦ none_found
    | inr (n, found) ↦
        let (next, after) =
          newer_pending_event-some e n now w (next_android_event w now) refl found in
        let picked = subst (Picked w now) next (next_android_event-Picked w now) in
        let there : In n (pending v) =
          subst (λ (c : Coordinator). In n c.queue.pending) keeps.same picked.0 in
        let top =
          All-In (λ x. IsWork v start x → event_time x ≤ event_time e) n (pending v) chosen.2 there
            (IsWork-Narrows v w start now n keeps h picked.1) in
        absurd (omega (arith, after, top))
  ]

  -- A wait that is over, or the worker is stopping.
  abbrev pub Rests : Worker × Bool → Type 0
  Rests (w, over) = Narrows v w × (over ≡ false → w.stopped ≡ true)

  Rests-if :
      (b : Bool) (x y : Worker × Bool) → (b ≡ true → Rests x) → Rests y → Rests (if b then x else y)
  Rests-if true x y p q = p refl
  Rests-if false x y p q = q

  wait_loop-Rests :
      (wakes : List Wake) (w : Worker)
      → All (λ (k : Wake). (k.during ≡ []) × (start ≤ k.now)) wakes
      → Narrows v w
      → Rests (wait_loop e wakes w)
  unfolding wait_loop acts give_way
  wait_loop-Rests [] w quiet keeps = (keeps, λ h. ground (arith, h))
  wait_loop-Rests (wake ∷ more) w quiet keeps =
      let heard = clear_trigger w in
      let listening : Narrows v heard = record {
        same = keeps.same;
        manual = keeps.manual;
        credits = keeps.credits;
        activated = keeps.activated;
      } in
      rw (quiet.0.0, no_newer heard wake.now listening quiet.0.1)
        (Rests-if w.stopped (w, false) _ (λ h. (keeps, λ _. h))
          (Rests-if (not w.trigger) (wait_loop e more w) (wait_loop e more heard)
            (λ _. wait_loop-Rests more w quiet.1 keeps)
            (wait_loop-Rests more heard quiet.1 listening)))

  Narrows-closed_camera : (b : Bool) (w : Worker) → Narrows v w → Narrows v (closed_camera b w)
  Narrows-closed_camera b w keeps = record {
    same = keeps.same;
    manual = keeps.manual;
    credits = keeps.credits;
    activated = keeps.activated;
  }

  wait_delay-Rests :
      (delay : ℕ) (wakes : List Wake) (w : Worker)
      → All (λ (k : Wake). (k.during ≡ []) × (start ≤ k.now)) wakes
      → Narrows v w
      → Rests (wait_delay e delay wakes w)
  unfolding wait_delay
  wait_delay-Rests delay wakes w quiet keeps =
      let shut = closed_camera true w in
      let (kept, cut) = wait_loop-Rests wakes shut quiet (Narrows-closed_camera true w keeps) in
      Rests-if (nat_eq delay 0) (w, not w.stopped) _ (λ _. (keeps, λ h. ground (arith, h)))
        (Narrows-closed_camera false (wait_loop e wakes shut).0 kept, cut)

  pub wait_retry-Rests :
      (delay : ℕ) (t : Try) (w : Worker)
      → IsQuietTry start t
      → Narrows v w
      → Rests (wait_retry_or_newer_event e delay t w)
  unfolding wait_retry_or_newer_event give_way
  wait_retry-Rests delay t w quiet keeps =
      rw (no_newer w t.asked keeps quiet.asked_later)
        (wait_delay-Rests delay t.wakes w quiet.wakes_quiet keeps)

pub settle_event-Rests :
    (e : CloudEvent) (now : ℕ) (w : Worker)
    → let (w', calm) = settle_event e now [] w in Narrows w w' × (calm ≡ false → w'.stopped ≡ true)
unfolding settle_event acts
settle_event-Rests e now w = elim (Bool-cases (nat_eq (settle_delay e now) 0)) [
  | inl settled ↦ rw settled (Narrows-refl w, λ h. ground (arith, h))
  | inr early ↦ rw early (
    record { same = refl; manual = λ x h. h; credits = λ x h. h; activated = λ x h. h },
    λ h. ground (arith, h),
  )
]
