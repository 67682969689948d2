-- ===== src/Status/Sane.antt =====
-- device_status.py: the values that a parsed snapshot may hold.
use mathlib.Core.Bool.{false≢true}
use ha_reolink_battery.Base.{
  ℕ, ◌+◌, ◌≤◌, suc, String, ◌≡◌, refl, sym, ◌∙◌, inl, inr, Bool, true, false, ◌&&◌, ◌||◌, Option,
  none, some, List, [], ◌∷◌, arith, ◌==◌, if◌then◌else◌, ltb, leb, nat_eq, keep, contains, ℤ, pos,
  negsuc, Bool-cases,
}
use ha_reolink_battery.Python.{Runtime}
use ha_reolink_battery.Python.Documents.{Fields, Json}
use ha_reolink_battery.Status.{BatteryState, LocalState, StorageState}
use ha_reolink_battery.Status.Parse.{
  battery_of, checked_battery, in_percent, integer, is_false, parse_battery_info, parse_local_state,
  parse_storage_info, parse_wifi_rssi, power_source_of, signal_in_range, sized_storage, storage_of,
  is_sd_card,
}

-- A percentage, and a camera that is said to run on its battery does not charge.
abbrev pub SaneBattery : Option BatteryState → Type 0
SaneBattery none = Unit
SaneBattery (some b) =
    ((n : ℕ) × (b.percent ≡ pos n) × (n ≤ 100))
    × ((b.power_source == "battery") ≡ true → b.charging ≡ some false)

abbrev Sizes : Option ℕ → Option ℕ → Option ℕ → Type 0
Sizes none none none = Unit
Sizes (some total) (some used) (some free) = used + free ≡ total
Sizes _ _ _ = ⊥

-- Used and free bytes make up the total, or no size is known.
abbrev pub SaneStorage : Option StorageState → Type 0
SaneStorage none = Unit
SaneStorage (some s) = Sizes s.total_bytes s.used_bytes s.free_bytes

-- From -127 to 0 dBm.
abbrev pub SaneSignal : Option ℤ → Type 0
SaneSignal none = Unit
SaneSignal (some (pos n)) = n ≡ 0
SaneSignal (some (negsuc n)) = suc n ≤ 127

pub record IsSane (s : LocalState) : Type 0 where
  pub battery : SaneBattery s.battery
  pub storage : SaneStorage s.storage
  pub signal : SaneSignal s.wifi_rssi_dbm

is_false-some : (o : Option Bool) → is_false o ≡ true → o ≡ some false
is_false-some none h = cc
is_false-some (some true) h = cc
is_false-some (some false) h = refl

-- A text that an `if` gives and its first branch does not is that of the second.
not_first :
    (b : Bool) (x y : String)
    → (x == "battery") ≡ false
    → ((if b then x else y) == "battery") ≡ true
    → (y == "battery") ≡ true
not_first true x y h k = absurd (false≢true (sym h ∙ k))
not_first false x y h k = k

first_taken :
    (b : Bool) (x y : String)
    → (y == "battery") ≡ false
    → ((if b then x else y) == "battery") ≡ true
    → b ≡ true
first_taken true x y h k = refl
first_taken false x y h k = absurd (false≢true (sym h ∙ k))

second_test : (a b : Bool) → (a && b) ≡ true → b ≡ true
second_test true b h = h
second_test false b h = absurd (false≢true h)

power_source_of-battery :
    (adapter supply : String) (charging : Option Bool)
    → (power_source_of adapter supply charging == "battery") ≡ true
    → charging ≡ some false
unfolding power_source_of
power_source_of-battery adapter supply charging h =
    let outer = not_first (adapter == "solarpanels") "solar" _ refl h in
    let inner =
      not_first
        (contains adapter ("adapter" ∷ "acadapter" ∷ "dcadapter" ∷ [])
          || contains supply ("normal" ∷ "lowchargeonly" ∷ []))
        "external" _ refl outer in
    is_false-some charging (
      second_test (adapter == "none") (is_false charging)
        (first_taken (adapter == "none" && is_false charging) "battery" "unknown" refl inner))

percent-pos : (n : ℤ) → in_percent n ≡ true → (m : ℕ) × (n ≡ pos m) × (m ≤ 100)
percent-pos (pos m) h = (m, refl, ground arith)
percent-pos (negsuc m) h = cc

SaneBattery-if :
    (b : Bool) (o : Option BatteryState)
    → (b ≡ true → SaneBattery o)
    → SaneBattery (if b then o else none)
SaneBattery-if true o h = h refl
SaneBattery-if false o h = tt

sized_storage-Sane :
    (status : String) (total free : Option ℤ) → SaneStorage (some (sized_storage status total free))
unfolding sized_storage
sized_storage-Sane status none free = tt
sized_storage-Sane status (some (negsuc n)) free = tt
sized_storage-Sane status (some (pos n)) none = tt
sized_storage-Sane status (some (pos n)) (some (negsuc m)) = tt
sized_storage-Sane status (some (pos n)) (some (pos m)) = elim (Bool-cases (ltb n m)) [
  | inl wrong ↦ rw wrong tt
  | inr right ↦ rw right (ground arith)
]

module _ (rt : Runtime) (casefold : String → String) where
  signal_in_range-Sane : (o : Option ℤ) → SaneSignal (signal_in_range rt casefold o)
  signal_in_range-Sane none = tt
  signal_in_range-Sane (some (pos n)) = elim (Bool-cases (nat_eq n 0)) [
    | inl h ↦ rw h (ground arith)
    | inr h ↦ rw h tt
  ]
  signal_in_range-Sane (some (negsuc n)) = elim (Bool-cases (leb (n + 1) 127)) [
    | inl h ↦ rw h (ground arith)
    | inr h ↦ rw h tt
  ]

  battery_of-Sane :
      (percent : ℤ) (fs : Fields)
      → in_percent percent ≡ true
      → SaneBattery (some (battery_of rt casefold percent fs))
  unfolding battery_of
  battery_of-Sane percent fs h = (percent-pos percent h, power_source_of-battery _ _ _)

  checked_battery-Sane :
      (percent : Option ℤ) (fs : Fields) → SaneBattery (checked_battery rt casefold percent fs)
  unfolding checked_battery
  checked_battery-Sane none fs = tt
  checked_battery-Sane (some percent) fs =
      SaneBattery-if (in_percent percent) (some (battery_of rt casefold percent fs))
        (battery_of-Sane percent fs)

  parse_battery_info-Sane : (o : Option Fields) → SaneBattery (parse_battery_info rt casefold o)
  unfolding parse_battery_info
  parse_battery_info-Sane none = tt
  parse_battery_info-Sane (some fs) = checked_battery-Sane _ fs

  storage_of-Sane : (disks : List Fields) → SaneStorage (some (storage_of rt casefold disks))
  unfolding storage_of
  storage_of-Sane [] = tt
  storage_of-Sane (disk ∷ disks) = sized_storage-Sane _ _ _

  parse_storage_info-Sane :
      (o : Option (List Fields)) → SaneStorage (parse_storage_info rt casefold o)
  unfolding parse_storage_info
  parse_storage_info-Sane none = tt
  parse_storage_info-Sane (some disks) = storage_of-Sane (keep (is_sd_card rt casefold) disks)

  -- Whatever the camera's answers are, a parsed snapshot holds a percentage for the battery, never
  -- a camera that runs on its battery and charges, used and free bytes that make up the total, and
  -- a signal from -127 to 0 dBm, each where it holds one at all.
  pub parse_local_state-IsSane :
      (at : ℕ) (info battery : Option Fields) (storage : Option (List Fields)) (wifi : Json)
      → IsSane (parse_local_state rt casefold at info battery storage wifi)
  unfolding parse_local_state parse_wifi_rssi
  parse_local_state-IsSane at info battery storage wifi = record {
    battery = parse_battery_info-Sane battery;
    storage = parse_storage_info-Sane storage;
    signal = signal_in_range-Sane (integer rt casefold wifi);
  }
