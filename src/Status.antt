-- ===== src/Status.antt =====
-- custom_components/reolink_battery/device_status.py: the status snapshot of the camera and the
-- cache that merges short refreshes.
pub mod Parse
pub mod Sane
pub mod Merge
mod Tests
use ha_reolink_battery.Base.{
  ℕ, ◌+◌, ◌-◌, ◌*◌, String, Bool, true, false, not, ◌&&◌, ◌||◌, Option, none, some, List, [], ◌∷◌,
  ◌==◌, if◌then◌else◌, ltb, leb, nat_eq, contains, keep, ℤ, pos, negsuc, is_zero,
}
use ha_reolink_battery.Python.{Runtime}
use ha_reolink_battery.Python.Documents.{
  Fields, Json, null, bool, int, float, str, arr, obj, end, get, get_or_null, truthy,
}
use ha_reolink_battery.Event.Storage.{py_str}

pub record BatteryState : Type 0 where
  pub percent : ℤ
  pub charging : Option Bool
  pub charge_status : String
  pub power_source : String
  pub adapter_status : String
  pub low_power : Option Bool
  pub temperature : Option ℤ

pub record StorageState : Type 0 where
  pub is_present : Bool
  pub status : String
  pub total_bytes : Option ℕ
  pub used_bytes : Option ℕ
  pub free_bytes : Option ℕ

pub record DeviceInfo : Type 0 where
  pub model : Option String
  pub firmware : Option String
  pub hardware : Option String

pub record LocalState : Type 0 where
  pub refreshed_at : ℕ
  pub device_info : DeviceInfo
  pub battery : Option BatteryState
  pub storage : Option StorageState
  pub wifi_rssi_dbm : Option ℤ

pub record CloudState : Type 0 where
  pub model : Option String
  pub status : Option String
  pub last_event_at : Option ℕ
  pub last_event_type : Option String
  pub last_event_ai_types : List String

pub record DeviceState : Type 0 where
  pub cloud : CloudState
  pub local : Option LocalState

-- Python's `a or b` on a text that may be `None`: the empty text is false.
abbrev pub text_or_else : Option String → Option String → Option String
text_or_else none b = b
text_or_else (some s) b = if s == "" then b else some s

abbrev pub value_or_else {ℓ} : {A : Type ℓ} → Option A → Option A → Option A
value_or_else none b = b
value_or_else (some a) b = some a

abbrev pub list_or_else : List String → List String → List String
list_or_else [] b = b
list_or_else (x ∷ xs) b = x ∷ xs

unfoldable pub merge_local : LocalState → LocalState → LocalState
merge_local previous current = record {
  refreshed_at = current.refreshed_at;
  device_info = record {
    model = text_or_else current.device_info.model previous.device_info.model;
    firmware = text_or_else current.device_info.firmware previous.device_info.firmware;
    hardware = text_or_else current.device_info.hardware previous.device_info.hardware;
  };
  battery = value_or_else current.battery previous.battery;
  storage = value_or_else current.storage previous.storage;
  wifi_rssi_dbm = value_or_else current.wifi_rssi_dbm previous.wifi_rssi_dbm;
}

unfoldable pub update_cloud : CloudState → DeviceState → DeviceState
update_cloud cloud s = record s {
  cloud = record {
    model = text_or_else cloud.model s.cloud.model;
    status = text_or_else cloud.status s.cloud.status;
    last_event_at = value_or_else cloud.last_event_at s.cloud.last_event_at;
    last_event_type = text_or_else cloud.last_event_type s.cloud.last_event_type;
    last_event_ai_types = list_or_else cloud.last_event_ai_types s.cloud.last_event_ai_types;
  };
}

abbrev pub merged : Option LocalState → LocalState → LocalState
merged none current = current
merged (some previous) current = merge_local previous current

unfoldable pub update_local : LocalState → DeviceState → DeviceState
update_local local s = record s { local = some (merged s.local local) }
