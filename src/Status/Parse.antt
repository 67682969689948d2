-- ===== src/Status/Parse.antt =====
-- device_status.py: the parsers of the answers of the camera.
use ha_reolink_battery.Base.{
  ℕ, ◌+◌, ◌-◌, ◌*◌, String, Bool, true, false, not, ◌&&◌, ◌||◌, Option, none, some, List, [], ◌∷◌,
  ◌==◌, if◌then◌else◌, ltb, leb, nat_eq, contains, keep, ℤ, pos, negsuc, is_zero,
}
use ha_reolink_battery.Python.{Runtime}
use ha_reolink_battery.Python.Documents.{
  Fields, Json, null, int, str, end, get, get_or_null, truthy,
}
use ha_reolink_battery.Event.Storage.{py_str}
use ha_reolink_battery.Status.{BatteryState, DeviceInfo, LocalState, StorageState}

abbrev pub in_percent : ℤ → Bool
in_percent (pos n) = leb n 100
in_percent (negsuc n) = false

abbrev pub in_dbm : ℤ → Bool
in_dbm (pos n) = nat_eq n 0
in_dbm (negsuc n) = leb (n + 1) 127

abbrev pub is_one : Option ℤ → Bool
is_one (some (pos n)) = nat_eq n 1
is_one _ = false

abbrev pub decimal_megabyte : ℕ
decimal_megabyte = 1000000

unfoldable pub charge_status_of : String → String
charge_status_of key =
    if contains key ("0" ∷ "none" ∷ "discharging" ∷ [])
    then "discharging"
    else if contains key ("1" ∷ "charging" ∷ [])
    then "charging"
    else if contains key ("2" ∷ "complete" ∷ "completed" ∷ "chargecomplete" ∷ [])
    then "complete"
    else "unknown"

unfoldable pub charging_of : String → Option Bool
charging_of status =
    if status == "discharging"
    then some false
    else if status == "charging"
    then some true
    else if status == "complete"
    then some false
    else none

abbrev pub is_false : Option Bool → Bool
is_false (some false) = true
is_false _ = false

unfoldable pub power_source_of : String → String → Option Bool → String
power_source_of adapter_key power_status charging =
    if adapter_key == "solarpanels"
    then "solar"
    else if contains adapter_key ("adapter" ∷ "acadapter" ∷ "dcadapter" ∷ [])
        || contains power_status ("normal" ∷ "lowchargeonly" ∷ [])
    then "external"
    else if adapter_key == "none" && is_false charging
    then "battery"
    else "unknown"

abbrev pub failed_storage : StorageState
failed_storage = record {
  is_present = true;
  status = "error";
  total_bytes = none;
  used_bytes = none;
  free_bytes = none;
}

-- The sizes in decimal megabytes, if they make sense together.
unfoldable pub sized_storage : String → Option ℤ → Option ℤ → StorageState
sized_storage status (some (pos total)) (some (pos free)) =
    if ltb total free then failed_storage else record {
      is_present = true;
      status = status;
      total_bytes = some (total * decimal_megabyte);
      used_bytes = some (total * decimal_megabyte - free * decimal_megabyte);
      free_bytes = some (free * decimal_megabyte);
    }
sized_storage status _ _ = failed_storage

abbrev pub value_in : Option Json → Json → Json
value_in none default = default
value_in (some v) default = v

module _ (rt : Runtime) (casefold : String → String) where
  -- `_integer`
  unfoldable pub integer : Json → Option ℤ
  integer (int n) = some n
  integer (str s) = rt.parse_int (rt.strip s)
  integer _ = none

  -- `_optional_text`
  unfoldable pub optional_text : Json → Option String
  optional_text (str s) = let t = rt.strip s in if t == "" then none else some t
  optional_text _ = none

  abbrev pub charge_key : Json → String
  charge_key null = ""
  charge_key raw = casefold (rt.strip (py_str rt raw))

  abbrev pub or_unknown : Option String → String
  or_unknown none = "unknown"
  or_unknown (some s) = s

  abbrev pub as_flag : Option ℤ → Option Bool
  as_flag none = none
  as_flag (some n) = some (not (is_zero n))

  unfoldable pub battery_of : ℤ → Fields → BatteryState
  battery_of percent fs =
      let status = charge_status_of (charge_key (get_or_null "chargeStatus" fs)) in
      let adapter = or_unknown (optional_text (get_or_null "adapterStatus" fs)) in
      let supply = get_or_null "powerSupplyStatus" fs in
      record {
        percent = percent;
        charging = charging_of status;
        charge_status = status;
        power_source =
            power_source_of (casefold adapter)
              (casefold (if truthy supply then py_str rt supply else "")) (charging_of status);
        adapter_status = adapter;
        low_power = as_flag (integer (get_or_null "lowPower" fs));
        temperature = integer (get_or_null "temperature" fs);
      }

  unfoldable pub checked_battery : Option ℤ → Fields → Option BatteryState
  checked_battery none fs = none
  checked_battery (some percent) fs =
      if in_percent percent then some (battery_of percent fs) else none

  unfoldable pub parse_battery_info : Option Fields → Option BatteryState
  parse_battery_info none = none
  parse_battery_info (some fs) = checked_battery (integer (get_or_null "batteryPercent" fs)) fs

  -- `str(disk.get("storageType", 2)).casefold() in {...}`
  unfoldable pub is_sd_card : Fields → Bool
  is_sd_card disk =
      contains (casefold (py_str rt (value_in (get "storageType" disk) (int (pos 2)))))
        ("2" ∷ "sd" ∷ "sdcard" ∷ "sd_card" ∷ [])

  unfoldable pub storage_of : List Fields → StorageState
  storage_of [] = record {
    is_present = false;
    status = "absent";
    total_bytes = none;
    used_bytes = none;
    free_bytes = none;
  }
  storage_of (disk ∷ _) =
      let healthy =
        is_one (integer (get_or_null "format" disk))
        && is_one (integer (get_or_null "mount" disk)) in
      sized_storage (if healthy then "normal" else "error") (integer (get_or_null "capacity" disk))
        (integer (get_or_null "size" disk))

  unfoldable pub parse_storage_info : Option (List Fields) → Option StorageState
  parse_storage_info none = none
  parse_storage_info (some disks) = some (storage_of (keep is_sd_card disks))

  abbrev pub fields_or_empty : Option Fields → Fields
  fields_or_empty none = end
  fields_or_empty (some fs) = fs

  unfoldable pub parse_device_info : Option Fields → DeviceInfo
  parse_device_info info =
      let fs = fields_or_empty info in
      let kind = get_or_null "type" fs in
      record {
        model = optional_text (if truthy kind then kind else get_or_null "model" fs);
        firmware = optional_text (get_or_null "firmwareVersion" fs);
        hardware = optional_text (get_or_null "hardwareVersion" fs);
      }

  abbrev pub signal_in_range : Option ℤ → Option ℤ
  signal_in_range none = none
  signal_in_range (some n) = if in_dbm n then some n else none

  unfoldable pub parse_wifi_rssi : Json → Option ℤ
  parse_wifi_rssi value = signal_in_range (integer value)

  unfoldable pub parse_local_state :
      ℕ → Option Fields → Option Fields → Option (List Fields) → Json → LocalState
  parse_local_state refreshed_at device_info battery storage wifi_signal = record {
    refreshed_at = refreshed_at;
    device_info = parse_device_info device_info;
    battery = parse_battery_info battery;
    storage = parse_storage_info storage;
    wifi_rssi_dbm = parse_wifi_rssi wifi_signal;
  }
