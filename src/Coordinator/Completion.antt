-- ===== src/Coordinator/Completion.antt =====
-- coordinator.py: what `async_complete_event` leaves: no event of the id, and the recording's
-- fingerprint among those remembered.
use ha_reolink_battery.Base.{
  ℕ, ◌-◌, ◌≤◌, zero, suc, String, ◌≡◌, refl, inl, inr, Bool, true, false, Option, none, some, List,
  [], ◌∷◌, ◌++◌, arith, ltb, length, length-append, drop, eq_refl, contains, contains-discard, keys,
  keys-erase, Bool-cases,
}
use ha_reolink_battery.Event.{CompletedRecording, max_completed_recordings}
use ha_reolink_battery.Queue.{EventQueue, ids, fingerprints, remove, remember_completed_recording}
use ha_reolink_battery.Queue.Invariant.Calls.{ids-without}
use ha_reolink_battery.Coordinator.{
  Coordinator, save, save_if, pending_events, is_event_deferred, remember, async_complete_event,
}

contains-drop :
    (r : CompletedRecording) (n : ℕ) (rs : List CompletedRecording)
    → n ≤ length rs
    → contains r.fingerprint (fingerprints (drop n (rs ++ r ∷ []))) ≡ true
unfolding contains
contains-drop r zero [] h = ground (arith, eq_refl r.fingerprint)
contains-drop r zero (x ∷ rs) h = ground (arith, contains-drop r zero rs (omega arith))
contains-drop r (suc n) [] h = absurd (omega arith)
contains-drop r (suc n) (x ∷ rs) h = contains-drop r n rs (omega (arith, h))

contains-remember :
    (r : CompletedRecording) (q : EventQueue)
    → contains r.fingerprint
        (fingerprints (remember_completed_recording r q).0.completed_recordings)
      ≡ true
unfolding remember_completed_recording
contains-remember r q =
    let rs = q.completed_recordings in
    elim (Bool-cases (contains r.fingerprint (fingerprints rs))) [
      | inl old ↦ rw (old, old) refl
      | inr new ↦ elim (Bool-cases (ltb max_completed_recordings (length (rs ++ r ∷ [])))) [
        | inl full ↦
            rw (new, full)
              (contains-drop r (length (rs ++ r ∷ []) - 256) rs
                (omega (arith, length-append rs (r ∷ []))))
        | inr room ↦ rw (new, room) (contains-drop r 0 rs (omega arith))
      ]
    ]

pub queue-save_if : (b : Bool) (c : Coordinator) → (save_if b c).queue ≡ c.queue
unfolding save_if save
queue-save_if true c = refl
queue-save_if false c = refl

pub pending-remember :
    (r : Option CompletedRecording) (q : EventQueue) → (remember r q).0.pending ≡ q.pending
unfolding remember remember_completed_recording
pending-remember none q = refl
pending-remember (some r) q = ground arith

pub deferred-remember :
    (r : Option CompletedRecording) (q : EventQueue) → (remember r q).0.deferred ≡ q.deferred
unfolding remember remember_completed_recording
deferred-remember none q = refl
deferred-remember (some r) q = ground arith

module _ (x : String) (r : Option CompletedRecording) (c : Coordinator) where
  pub async_complete_event_removes :
      contains x (ids (pending_events (async_complete_event x r c).0)) ≡ false
  unfolding async_complete_event remove
  async_complete_event_removes =
      rw (queue-save_if, pending-remember, ids-without x c.queue.pending)
        (ground (arith, contains-discard x x (ids c.queue.pending), eq_refl x))

  pub async_complete_event_undefers : is_event_deferred x (async_complete_event x r c).0 ≡ false
  unfolding async_complete_event remove is_event_deferred
  async_complete_event_undefers =
      rw (queue-save_if, deferred-remember, keys-erase x c.queue.deferred)
        (ground (arith, contains-discard x x (keys c.queue.deferred), eq_refl x))

pub async_complete_event_remembers :
    (x : String) (r : CompletedRecording) (c : Coordinator)
    → contains r.fingerprint
        (fingerprints (async_complete_event x (some r) c).0.queue.completed_recordings)
      ≡ true
unfolding async_complete_event remember
async_complete_event_remembers x r c = rw queue-save_if (contains-remember r _)
