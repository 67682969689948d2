-- ===== src/Status/Tests.antt =====
-- device_status.py: the theorems at concrete data.
use ha_reolink_battery.Base.{◌≡◌, refl, none, some, [], ◌∷◌, pos, negsuc}
use ha_reolink_battery.Python.Documents.{Fields, end, field, int, str}
use ha_reolink_battery.Python.Sample.{sample}
use ha_reolink_battery.Status.{DeviceState, LocalState}
use ha_reolink_battery.Status.Parse.{parse_local_state}
use ha_reolink_battery.Status.Sane.{IsSane, parse_local_state-IsSane}
use ha_reolink_battery.Status.Merge.{known, refresh_all, refresh_all-known}

abbrev answer : Fields
answer = field "batteryPercent" (int (pos 80)) (field "chargeStatus" (str "charging") end)

abbrev disk : Fields
disk = field "capacity" (int (pos 32)) (field "size" (int (pos 8)) end)

parse_local_state-IsSane_example :
    IsSane
      (parse_local_state sample (λ s. s) 10 none (some answer) (some (disk ∷ [])) (int (negsuc 59)))
parse_local_state-IsSane_example =
    parse_local_state-IsSane sample (λ s. s) 10 none (some answer) (some (disk ∷ []))
      (int (negsuc 59))

-- A snapshot with a signal, and a later one without.
abbrev early : LocalState
early = record {
  refreshed_at = 10;
  device_info = record { model = some "Argus 2E"; firmware = none; hardware = none };
  battery = none;
  storage = none;
  wifi_rssi_dbm = some (negsuc 59);
}

abbrev late : LocalState
late = record early { refreshed_at = 20; wifi_rssi_dbm = none }

abbrev cache : DeviceState
cache = record {
  cloud = record {
    model = none;
    status = none;
    last_event_at = none;
    last_event_type = none;
    last_event_ai_types = [];
  };
  local = some early;
}

refresh_all-known_example : (refresh_all (late ∷ []) cache).local ≡ some (known early (late ∷ []))
refresh_all-known_example = refresh_all-known (late ∷ []) early cache refl
