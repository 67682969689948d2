-- ===== src/Worker/Manual/Admits.antt =====
-- recording_worker_v138.py: after the recovery button every pending Android event is work.
use ha_reolink_battery.Base.{
  ℕ, String, ◌≡◌, refl, ◌∙◌, inl, inr, true, false, List, [], ◌∷◌, arith, if◌then◌else◌, keep, ◌==◌,
  eq_iff, eq_refl, contains, contains-insert, insert,
}
use ha_reolink_battery.Event.{CloudEvent}
use ha_reolink_battery.Coordinator.{Coordinator, is_event_deferred, pending_events}
use ha_reolink_battery.Coordinator.Deferral.{
  pending-async_rearm_event, is_event_deferred-async_rearm_event,
}
use ha_reolink_battery.Worker.State.{Worker}
use ha_reolink_battery.Worker.{pending, is_android, refresh_pending_counts}
use ha_reolink_battery.Worker.Pick.{In, IsWork, keep-In}
use ha_reolink_battery.Worker.Manual.{
  rearm_one, rearm_all, insert_all, recover, request_manual_recovery,
}

-- One rearming takes the id out of the deferred ones, if it is there, and leaves the others.
deferred-rearm_one :
    (x y : String) (c : Coordinator) (n : ℕ)
    → is_event_deferred y (rearm_one x (c, n)).0 ≡ (if x == y then false else is_event_deferred y c)
unfolding rearm_one
deferred-rearm_one x y c n = ground (arith, is_event_deferred-async_rearm_event x y c, eq_iff x y)

pending-rearm_one :
    (x : String) (c : Coordinator) (n : ℕ)
    → pending_events (rearm_one x (c, n)).0 ≡ pending_events c
unfolding rearm_one
pending-rearm_one x c n = ground (arith, pending-async_rearm_event x c)

pending-rearm_all :
    (es : List CloudEvent) (c : Coordinator) (n : ℕ)
    → pending_events (rearm_all es (c, n)).0 ≡ pending_events c
unfolding rearm_all
pending-rearm_all [] c n = refl
pending-rearm_all (e ∷ es) c n =
    pending-rearm_all es (rearm_one e.event_id (c, n)).0 (rearm_one e.event_id (c, n)).1
    ∙ pending-rearm_one e.event_id c n

rearm_all_keeps :
    (es : List CloudEvent) (y : String) (c : Coordinator) (n : ℕ)
    → is_event_deferred y c ≡ false
    → is_event_deferred y (rearm_all es (c, n)).0 ≡ false
unfolding rearm_all
rearm_all_keeps [] y c n h = h
rearm_all_keeps (e ∷ es) y c n h =
    rearm_all_keeps es y _ _ (ground (arith, deferred-rearm_one e.event_id y c n))

rearm_all_frees :
    (e : CloudEvent) (es : List CloudEvent) (c : Coordinator) (n : ℕ)
    → In e es
    → is_event_deferred e.event_id (rearm_all es (c, n)).0 ≡ false
unfolding rearm_all
rearm_all_frees e [] c n h = elim h [ ]
rearm_all_frees e (x ∷ es) c n (inl p) =
    rearm_all_keeps es e.event_id _ _
      (rw p (ground (arith, deferred-rearm_one e.event_id e.event_id c n, eq_refl e.event_id)))
rearm_all_frees e (x ∷ es) c n (inr q) =
    rearm_all_frees e es (rearm_one x.event_id (c, n)).0 (rearm_one x.event_id (c, n)).1 q

insert_all_keeps :
    (es : List CloudEvent) (y : String) (xs : List String)
    → contains y xs ≡ true
    → contains y (insert_all es xs) ≡ true
unfolding insert_all
insert_all_keeps [] y xs h = h
insert_all_keeps (e ∷ es) y xs h =
    insert_all_keeps es y _ (ground (arith, contains-insert y e.event_id xs))

insert_all_hits :
    (e : CloudEvent) (es : List CloudEvent) (xs : List String)
    → In e es
    → contains e.event_id (insert_all es xs) ≡ true
unfolding insert_all
insert_all_hits e [] xs h = elim h [ ]
insert_all_hits e (x ∷ es) xs (inl p) =
    insert_all_keeps es e.event_id _
      (rw p (ground (arith, contains-insert e.event_id e.event_id xs, eq_refl e.event_id)))
insert_all_hits e (x ∷ es) xs (inr q) = insert_all_hits e es (insert x.event_id xs) q

pending-recover :
    (now : ℕ) (w : Worker) (es : List CloudEvent) → pending (recover es now w).0 ≡ pending w
unfolding recover refresh_pending_counts
pending-recover now w [] = refl
pending-recover now w (x ∷ es) = pending-rearm_all (x ∷ es) w.coordinator 0

recover-admits :
    (now later : ℕ) (w : Worker) (e : CloudEvent) (es : List CloudEvent)
    → In e es
    → is_android e ≡ true
    → IsWork (recover es now w).0 later e
unfolding recover refresh_pending_counts
recover-admits now later w e [] h android = elim h [ ]
recover-admits now later w e (x ∷ es) h android = record {
  android = android;
  waiting = unfold is_event_deferred in rearm_all_frees e (x ∷ es) w.coordinator 0 h;
  admitted = inl (insert_all_hits e (x ∷ es) w.manual h);
}

-- After the recovery button every Android event that was pending is work, at whatever later time
-- and whatever its age was, and the pending events are the same.
pub request_manual_recovery-IsWork :
    (now later : ℕ) (w : Worker) (e : CloudEvent)
    → In e (pending w)
    → is_android e ≡ true
    → let w' = (request_manual_recovery now w).0 in (pending w' ≡ pending w) × IsWork w' later e
unfolding request_manual_recovery
request_manual_recovery-IsWork now later w e h android = (
  pending-recover now w (keep is_android (pending w)),
  recover-admits now later w e (keep is_android (pending w))
      (keep-In is_android e (pending w) h android) android,
)
