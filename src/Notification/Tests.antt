-- ===== src/Notification/Tests.antt =====
-- notification_bridge.py: the theorem at a repost of a notification.
use ha_reolink_battery.Base.{◌≤◌, String, true, some, List, [], ◌∷◌, pos, append}
use ha_reolink_battery.Python.Documents.{Fields, end, field, int, str}
use ha_reolink_battery.Python.Sample.{sample}
use ha_reolink_battery.Worker.Sample.{on_duty}
use ha_reolink_battery.Notification.{Services}
use ha_reolink_battery.Notification.Bridge.{handle_state_change}
use ha_reolink_battery.Notification.Telemetry.{blank_bridge}
use ha_reolink_battery.Notification.Wakes.{Allowed, handle_state_change-wakes, wakes}

abbrev joined : List String → String
joined [] = ""
joined (x ∷ xs) = append x (joined xs)

abbrev services : Services
services = record {
  english_alarm = λ s. some "Yard";
  rstrip_dots = λ s. s;
  normalized = λ s. s;
  is_within = λ x y. true;
  digest = joined;
  whole = λ j. "1000";
  show_ms = λ n. "2000";
}

abbrev posted : Fields
posted = field "package" (str "com.mcu.reolink") (
    field "android.title" (str "Camera Alert")
      (field "android.text" (str "An alarm from Yard") (field "post_time" (int (pos 1000)) end)))

handle_state_change-wakes_example :
    let r =
      handle_state_change services sample
        (λ s. s)
        "Yard"
        "U"
        (some posted)
        posted
        62135597900000000
        62135597900000001
        blank_bridge
        on_duty in
    (wakes r.ingested ≤ 1) × Allowed "U" 62135597900000000 r.ingested
handle_state_change-wakes_example =
    handle_state_change-wakes services sample (λ s. s) "Yard" "U" (some posted) posted
      62135597900000000 62135597900000001 blank_bridge on_duty
