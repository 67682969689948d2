-- ===== src/Notification.antt =====
-- custom_components/reolink_battery/notification_bridge.py: Android notifications of the Reolink
-- app become events of the queue.
pub mod Telemetry
pub mod Bridge
pub mod Wakes
mod Tests
use ha_reolink_battery.Base.{
  ℕ, String, Bool, true, false, not, ◌&&◌, ◌||◌, Option, none, some, List, [], ◌∷◌, ◌==◌,
  if◌then◌else◌, append, ℤ,
}
use ha_reolink_battery.Python.{Result, Runtime, ok, raise}
use ha_reolink_battery.Python.Documents.{
  Fields, Json, null, bool, int, float, str, arr, obj, get_or_null,
}
use ha_reolink_battery.Event.{CloudEvent, parse_alarm_time}

-- Text services that stay abstract: the first group of `_ENGLISH_ALARM`, `rstrip(".")`,
-- `_normalized`, `needle in text`, the SHA-256 digest of texts joined by a separator, and
-- `str(int(float(value)))`.
pub record Services : Type 0 where
  pub english_alarm : String → Option String
  pub rstrip_dots : String → String
  pub normalized : String → String
  pub is_within : String → String → Bool
  pub digest : List String → String
  pub whole : Json → String
  pub show_ms : ℤ → String

abbrev pub reolink_android_package : String
reolink_android_package = "com.mcu.reolink"

abbrev pub reolink_notification_channel : String
reolink_notification_channel = "push.wav"

module _ (sv : Services) (rt : Runtime) where
  -- `_text`
  unfoldable pub text_of : Json → String
  text_of null = ""
  text_of (str s) = rt.strip s
  text_of value = rt.strip (rt.show value)

  unfoldable pub text_at : String → Fields → String
  text_at key fs = text_of (get_or_null key fs)

  unfoldable pub extract_camera_name : String → Option String
  extract_camera_name body = elim (sv.english_alarm body) [
    | none ↦ none
    | some group ↦
        let name = sv.rstrip_dots (rt.strip group) in if name == "" then none else some name
  ]

  -- Whether the notification is an alarm of the expected camera.
  unfoldable pub is_camera_alarm : String → String → String → String → Bool
  is_camera_alarm expected title body channel = elim (extract_camera_name body) [
    | some name ↦ sv.normalized name == sv.normalized expected
    | none ↦
        (sv.normalized title == "camera alert" || channel == reolink_notification_channel)
        && sv.is_within (sv.normalized expected) (sv.normalized body)
  ]

  -- The post time as a number: a text is read as an int, and anything else must be a number.
  unfoldable pub numeric_post_time : Json → Option Json
  numeric_post_time (str s) = elim (rt.parse_int s) [ none ↦ none | some n ↦ some (int n) ]
  numeric_post_time (bool b) = some (bool b)
  numeric_post_time (int n) = some (int n)
  numeric_post_time (float m) = some (float m)
  numeric_post_time _ = none

  unfoldable pub notification_event :
      String → String → String → String → Json → Result ℕ → Option CloudEvent
  notification_event expected uid title body post_time (raise _) = none
  notification_event expected uid title body post_time (ok at) = some (record {
    event_id =
        append "android:"
          (sv.digest (reolink_android_package ∷ sv.whole post_time ∷ title ∷ body ∷ expected ∷ []));
    uid = uid;
    alarm_time = at;
    alarm_type = "MOTION";
    ai_types = [];
    source = "android_notification";
    device_name = expected;
    notification_post_time = some at;
    title = title;
    text = body;
  })

  unfoldable pub timed_event : String → String → String → String → Option Json → Option CloudEvent
  timed_event expected uid title body none = none
  timed_event expected uid title body (some post_time) =
      notification_event expected uid title body post_time (parse_alarm_time rt post_time)

  unfoldable pub notification_event_from_attributes : String → String → Fields → Option CloudEvent
  notification_event_from_attributes expected uid fs =
      let title = text_at "android.title" fs in
      let big_text = text_at "android.bigText" fs in
      let body = if big_text == "" then text_at "android.text" fs else big_text in
      if not (text_at "package" fs == reolink_android_package)
      then none
      else if body == ""
      then none
      else if not (is_camera_alarm expected title body (text_at "channel_id" fs))
      then none
      else timed_event expected uid title body (numeric_post_time (get_or_null "post_time" fs))
