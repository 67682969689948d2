-- ===== src/Queue/Sample.antt =====
-- Two events and a queue that holds them, for the tests.
use ha_reolink_battery.Base.{ℕ, String, refl, some, [], ◌∷◌, arith, contains}
use ha_reolink_battery.Event.{CloudEvent}
use ha_reolink_battery.Queue.{EventQueue}
use ha_reolink_battery.Queue.Invariant.{IsValid}

abbrev pub motion : String → ℕ → CloudEvent
motion id at = record {
  event_id = id;
  uid = "U";
  alarm_time = at;
  alarm_type = "MOTION";
  ai_types = [];
  source = "android_notification";
  device_name = "Yard";
  notification_post_time = some at;
  title = "Camera Alert";
  text = "An alarm from Yard";
}

-- One deferred event and one that is not.
abbrev pub stored : EventQueue
stored = record {
  processed = "a" ∷ "b" ∷ [];
  processed_set = "a" ∷ "b" ∷ [];
  pending = motion "a" 10 ∷ motion "b" 20 ∷ [];
  completed_recordings = [];
  deferred = ("a", record { event_id = "a"; reason = "late"; deferred_at = 30 }) ∷ [];
}

pub stored-IsValid : IsValid stored
unfolding contains
stored-IsValid = record {
  processed_bound = omega arith;
  pending_bound = omega arith;
  completed_bound = omega arith;
  processed_distinct = (refl, (refl, tt));
  pending_distinct = (refl, (refl, tt));
  fingerprints_distinct = tt;
  processed_known = λ x h. h;
  pending_known = λ x h. h;
  deferred_pending = λ x h. ground (arith, h);
}
