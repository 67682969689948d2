-- ===== src/Worker/Pick.antt =====
-- recording_worker_v138.py: `_next_android_event` against a description of the work that may wake
-- the camera.
use ha_reolink_battery.Base.{
  ℕ, ◌+◌, ◌≤◌, ◌≡◌, refl, sym, ◌∙◌, subst, ◌⊎◌, inl, inr, Bool, true, false, Option, none, some,
  List, [], ◌∷◌, arith, ltb, keep, All, ◌==◌, eq_refl, contains, keys, Bool-cases, Option-cases,
}
use mathlib.Core.Bool.{false≢true}
use ha_reolink_battery.Event.{CloudEvent, event_time, is_automatic_event_fresh}
use ha_reolink_battery.Queue.{ids}
use ha_reolink_battery.Coordinator.{is_event_deferred}
use ha_reolink_battery.Worker.State.{Worker}
use ha_reolink_battery.Worker.{pending, later, later_of, newest, is_candidate, next_android_event}

-- The event stands in the list.
abbrev pub In : CloudEvent → List CloudEvent → Type 0
In e [] = ⊥
In e (x ∷ xs) = (x ≡ e) ⊎ In e xs

pub contains-ids :
    (e : CloudEvent) (es : List CloudEvent) → In e es → contains e.event_id (ids es) ≡ true
unfolding contains
contains-ids e [] h = elim h [ ]
contains-ids e (x ∷ es) (inl p) = rw (p, eq_refl e.event_id) refl
contains-ids e (x ∷ es) (inr q) = ground (arith, contains-ids e es q)

pub keep-In :
    (test : CloudEvent → Bool) (e : CloudEvent) (es : List CloudEvent)
    → In e es
    → test e ≡ true
    → In e (keep test es)
keep-In test e [] h p = elim h [ ]
keep-In test e (x ∷ es) (inl q) p = rw (q, p) (inl refl)
keep-In test e (x ∷ es) (inr q) p = elim (Bool-cases (test x)) [
  | inl hit ↦ rw hit (inr (keep-In test e es q p))
  | inr miss ↦ rw miss (keep-In test e es q p)
]

-- Work that the worker may start: an Android event that is not deferred, and that was asked for by
-- the recovery button, holds a first-attempt credit, or is activated and at most ten minutes old.
pub record IsWork (w : Worker) (now : ℕ) (e : CloudEvent) : Type 0 where
  pub android : (e.source == "android_notification") ≡ true
  pub waiting : contains e.event_id (keys w.coordinator.queue.deferred) ≡ false
  pub admitted :
      (contains e.event_id w.manual ≡ true)
      ⊎ (contains e.event_id w.credits ≡ true)
      ⊎ ((contains e.event_id w.activated ≡ true) × (now ≤ event_time e + 600000000))

IsWork-of_candidate :
    (w : Worker) (now : ℕ) (e : CloudEvent) → is_candidate w now e ≡ true → IsWork w now e
unfolding is_candidate is_event_deferred is_automatic_event_fresh
IsWork-of_candidate w now e h = ground arith

candidate_of_IsWork :
    (w : Worker) (now : ℕ) (e : CloudEvent) → IsWork w now e → is_candidate w now e ≡ true
unfolding is_candidate is_event_deferred is_automatic_event_fresh
candidate_of_IsWork w now e h = ground arith

-- What a choice means: the event waits in the queue, is work, and no other work is later; no
-- choice, that no pending event is work.
abbrev pub Picked : Worker → ℕ → Option CloudEvent → Type 0
Picked w now none = All (λ e. ¬ IsWork w now e) (pending w)
Picked w now (some e) =
    In e (pending w)
    × IsWork w now e
    × All (λ x. IsWork w now x → event_time x ≤ event_time e) (pending w)

later-cases : (best e : CloudEvent) → (later best e ≡ best) ⊎ (later best e ≡ e)
unfolding later
later-cases best e = elim (Bool-cases (ltb (event_time best) (event_time e))) [
  | inl after ↦ rw after (inr refl)
  | inr before ↦ rw before (inl refl)
]

later_greatest :
    (best e : CloudEvent)
    → (event_time best ≤ event_time (later best e)) × (event_time e ≤ event_time (later best e))
unfolding later
later_greatest best e = (ground arith, ground arith)

later_of-In :
    (best : CloudEvent) (es : List CloudEvent)
    → (later_of best es ≡ best) ⊎ In (later_of best es) es
unfolding later_of
later_of-In best [] = inl refl
later_of-In best (e ∷ es) = elim (later_of-In (later best e) es) [
  | inr there ↦ inr (inr there)
  | inl same ↦ elim (later-cases best e) [
    | inl p ↦ inl (same ∙ p)
    | inr p ↦ inr (inl (sym (same ∙ p)))
  ]
]

later_of_greatest :
    (best : CloudEvent) (es : List CloudEvent)
    → (event_time best ≤ event_time (later_of best es))
      × All (λ x. event_time x ≤ event_time (later_of best es)) es
unfolding later_of
later_of_greatest best [] = (omega arith, tt)
later_of_greatest best (e ∷ es) =
    let (top, rest) = later_of_greatest (later best e) es in
    let (left, right) = later_greatest best e in (omega arith, (omega arith, rest))

-- `newest` gives an event of the list, none of which is later, and fails on no other list than [].
pub newest-some :
    (es : List CloudEvent) (e : CloudEvent)
    → newest es ≡ some e
    → In e es × All (λ x. event_time x ≤ event_time e) es
unfolding newest
newest-some [] e h = cc
newest-some (x ∷ es) e h =
    subst (λ y. In y (x ∷ es) × All (λ z. event_time z ≤ event_time y) (x ∷ es)) same
      (there, later_of_greatest x es)
  where
    same : later_of x es ≡ e
    same = cc

    there : In (later_of x es) (x ∷ es)
    there = elim (later_of-In x es) [ inl p ↦ inl (sym p) | inr q ↦ inr q ]

pub newest-none : (es : List CloudEvent) → newest es ≡ none → es ≡ []
unfolding newest
newest-none [] h = refl
newest-none (x ∷ es) h = cc

module _ (test : CloudEvent → Bool) where
  pub In-keep :
      (e : CloudEvent) (es : List CloudEvent) → In e (keep test es) → In e es × (test e ≡ true)
  In-keep e [] h = elim h [ ]
  In-keep e (x ∷ es) h = elim (Bool-cases (test x)) [
    | inl hit ↦
        let g : In e (x ∷ keep test es) = rw hit at h in
        elim g [
          | inl p ↦ (inl p, subst (λ y. test y ≡ true) p hit)
          | inr q ↦ let (there, passed) = In-keep e es q in (inr there, passed)
        ]
    | inr miss ↦
        let g : In e (keep test es) = rw miss at h in
        let (there, passed) = In-keep e es g in (inr there, passed)
  ]

  pub All-keep {κ} :
      (P : CloudEvent → Type κ) (es : List CloudEvent)
      → All P (keep test es)
      → All (λ x. test x ≡ true → P x) es
  All-keep P [] h = tt
  All-keep P (x ∷ es) h = elim (Bool-cases (test x)) [
    | inl hit ↦ let g : _ × _ = rw hit at h in (λ _. g.0, All-keep P es g.1)
    | inr miss ↦ (λ hit. absurd (false≢true (sym miss ∙ hit)), All-keep P es (rw miss at h))
  ]

  keep-none : (es : List CloudEvent) → keep test es ≡ [] → All (λ x. test x ≡ false) es
  keep-none [] h = tt
  keep-none (x ∷ es) h = (ground arith, keep-none es (ground arith))

All-mono {ℓ κ} :
    {A : Type ℓ} {P Q : A → Type κ} → ((a : A) → P a → Q a) → (xs : List A) → All P xs → All Q xs
All-mono f [] h = tt
All-mono f (x ∷ xs) h = (f x h.0, All-mono f xs h.1)

-- Whatever the worker's state and the time, the choice of the next event is the latest pending
-- work: an Android event, not deferred, that was asked for by hand, holds a first-attempt credit,
-- or is activated and at most ten minutes old. None is chosen exactly when no pending event is
-- such work.
pub next_android_event-Picked : (w : Worker) (now : ℕ) → Picked w now (next_android_event w now)
unfolding next_android_event
next_android_event-Picked w now =
    elim (Option-cases (newest (keep (is_candidate w now) (pending w)))) [
      | inl missing ↦ rw missing (
          All-mono (λ e h work. false≢true (sym h ∙ candidate_of_IsWork w now e work)) (pending w)
            (keep-none (is_candidate w now) (pending w) (newest-none _ missing)))
      | inr (e, found) ↦ rw found (
          let (there, top) = newest-some _ e found in
          let (waiting, passed) = In-keep (is_candidate w now) e (pending w) there in
          (
            waiting,
            IsWork-of_candidate w now e passed,
            All-mono (λ x h work. h (candidate_of_IsWork w now x work)) (pending w)
                (All-keep (is_candidate w now) (λ x. event_time x ≤ event_time e) (pending w) top),
          ))
    ]
