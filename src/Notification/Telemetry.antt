-- ===== src/Notification/Telemetry.antt =====
-- notification_bridge.py: what the bridge keeps, how it starts, and the notes that it makes of a
-- notification.
use ha_reolink_battery.Base.{
  ℕ, ◌+◌, ◌-◌, ◌*◌, String, Bool, true, false, not, ◌&&◌, Option, none, some, [], ◌∷◌, ◌==◌,
  if◌then◌else◌, ltb, leb, nat_eq, append, ℤ, pos, negsuc,
}
use ha_reolink_battery.Python.Time.{second, epoch}
use ha_reolink_battery.Event.{CloudEvent, div_thousand, event_time, is_automatic_event_fresh}
use ha_reolink_battery.Notification.{Services}

pub record Bridge : Type 0 where
  pub last_reolink_notification_time : Option ℕ
  pub last_reolink_notification_camera : String
  pub last_event_matched : Bool
  pub last_camera_mapped : Bool
  pub last_event_queued : Bool
  pub last_duplicate_rejected : Bool
  pub sensor_state_change_count : ℕ
  pub matched_notification_update_count : ℕ
  pub last_sensor_state_change_time : Option ℕ
  pub last_notification_post_time_ms : Option ℤ
  pub last_post_time_changed : Option Bool
  pub last_event_fingerprint : String
  pub last_processing_lag_ms : Option ℕ
  pub telemetry_restored_from_pending : Bool
  pub stale_repost_promoted_count : ℕ
  pub stale_repost_suppressed_count : ℕ
  pub last_stale_repost_promoted : Bool
  pub last_effective_event_time : Option ℕ
  pub last_effective_event_time_source : String
  pub last_source_event_id : String
  pub last_source_observed_at : Option ℕ

abbrev pub stale_repost_min_age_ms : ℕ
stale_repost_min_age_ms = 300 * 1000

abbrev pub stale_repost_debounce : ℕ
stale_repost_debounce = 15 * second

abbrev pub minus : ℕ → ℤ
minus n = if nat_eq n 0 then pos 0 else negsuc (n - 1)

-- `round(time.timestamp() * 1000)`
unfoldable pub timestamp_ms : ℕ → ℤ
timestamp_ms t =
    if leb epoch t then pos (div_thousand (t - epoch)) else minus (div_thousand (epoch - t))

-- `round(max(0.0, (observed_at - post_time).total_seconds()), 3)`, in milliseconds
unfoldable pub lag_ms : ℕ → ℕ → ℕ
lag_ms observed post = div_thousand (observed - post)

abbrev pub same_ms : ℤ → ℤ → Bool
same_ms (pos a) (pos b) = nat_eq a b
same_ms (negsuc a) (negsuc b) = nat_eq a b
same_ms _ _ = false

abbrev pub changed_ms : Option ℤ → ℤ → Bool
changed_ms none now = true
changed_ms (some before) now = not (same_ms before now)

abbrev pub within_debounce : Option ℕ → ℕ → Bool
within_debounce none observed = false
within_debounce (some before) observed = ltb observed (before + stale_repost_debounce)

unfoldable pub same_source_recent : Bridge → CloudEvent → ℕ → Bool
same_source_recent b e observed =
    b.last_source_event_id == e.event_id && within_debounce b.last_source_observed_at observed

unfoldable pub is_stale_repost : Bool → CloudEvent → ℕ → Bool
is_stale_repost allowed e observed =
    allowed && leb stale_repost_min_age_ms (lag_ms observed (event_time e))

unfoldable pub source_can_wake : Bool → Bool → CloudEvent → ℕ → Bool
source_can_wake allow_wake allow_repost e observed =
    allow_wake
    && not (is_stale_repost allow_repost e observed)
    && is_automatic_event_fresh e observed

-- `_promote_stale_repost`
unfoldable pub promote_stale_repost : Services → CloudEvent → ℕ → CloudEvent
promote_stale_repost sv e observed = record e {
  event_id =
      append "android-repost:" (sv.digest (e.event_id ∷ sv.show_ms (timestamp_ms observed) ∷ []));
  alarm_time = observed;
  notification_post_time = some observed;
}

-- The telemetry that a matched update writes before the ingestion; `short_id` is the fingerprint.
unfoldable pub note_match : (String → String) → CloudEvent → ℕ → Bridge → Bridge
note_match short_id e observed b = record b {
  matched_notification_update_count = b.matched_notification_update_count + 1;
  last_post_time_changed =
      some (changed_ms b.last_notification_post_time_ms (timestamp_ms (event_time e)));
  last_notification_post_time_ms = some (timestamp_ms (event_time e));
  last_event_fingerprint = short_id e.event_id;
  last_processing_lag_ms = some (lag_ms observed (event_time e));
  telemetry_restored_from_pending = false;
  last_event_matched = true;
  last_camera_mapped = true;
  last_reolink_notification_time = e.notification_post_time;
  last_reolink_notification_camera = e.device_name;
  last_effective_event_time = some (event_time e);
  last_effective_event_time_source = "notification_post_time";
}

unfoldable pub note_sensor : ℕ → Bridge → Bridge
note_sensor observed b = record b {
  sensor_state_change_count = b.sensor_state_change_count + 1;
  last_sensor_state_change_time = some observed;
  last_stale_repost_promoted = false;
}

unfoldable pub note_promotion : ℕ → Bridge → Bridge
note_promotion observed b = record b {
  stale_repost_promoted_count = b.stale_repost_promoted_count + 1;
  last_stale_repost_promoted = true;
  last_effective_event_time = some observed;
  last_effective_event_time_source = "sensor_callback_repost";
  last_reolink_notification_time = some observed;
}

-- `__init__`, from the latest Android event that is pending.
abbrev pub blank_bridge : Bridge
blank_bridge = record {
  last_reolink_notification_time = none;
  last_reolink_notification_camera = "";
  last_event_matched = false;
  last_camera_mapped = false;
  last_event_queued = false;
  last_duplicate_rejected = false;
  sensor_state_change_count = 0;
  matched_notification_update_count = 0;
  last_sensor_state_change_time = none;
  last_notification_post_time_ms = none;
  last_post_time_changed = none;
  last_event_fingerprint = "";
  last_processing_lag_ms = none;
  telemetry_restored_from_pending = false;
  stale_repost_promoted_count = 0;
  stale_repost_suppressed_count = 0;
  last_stale_repost_promoted = false;
  last_effective_event_time = none;
  last_effective_event_time_source = "";
  last_source_event_id = "";
  last_source_observed_at = none;
}

unfoldable pub restore_bridge : (String → String) → String → CloudEvent → Bridge
restore_bridge short_id expected e =
    let camera = if e.device_name == "" then expected else e.device_name in
    record blank_bridge {
      last_reolink_notification_time = some (event_time e);
      last_reolink_notification_camera = camera;
      last_event_matched = true;
      last_camera_mapped = not (camera == "");
      last_event_queued = true;
      last_notification_post_time_ms = some (timestamp_ms (event_time e));
      last_event_fingerprint = short_id e.event_id;
      last_effective_event_time = some (event_time e);
      last_effective_event_time_source = "restored_pending";
      last_source_event_id = e.event_id;
      telemetry_restored_from_pending = true;
    }

unfoldable pub initial_bridge : (String → String) → String → Option CloudEvent → Bridge
initial_bridge short_id expected none = blank_bridge
initial_bridge short_id expected (some e) =
    if e.source == "android_notification" then restore_bridge short_id expected e else blank_bridge
