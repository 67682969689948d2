-- ===== src/Status/Merge.antt =====
-- device_status.py: what the cache knows after a history of short refreshes.
use ha_reolink_battery.Base.{
  ℕ, String, ◌≡◌, refl, ◌∙◌, ap, inl, inr, Option, none, some, List, [], ◌∷◌, map, ◌==◌, Bool-cases,
}
use ha_reolink_battery.Status.{
  DeviceState, LocalState, merge_local, merged, text_or_else, update_local, value_or_else,
}

unfoldable pub refresh_all : List LocalState → DeviceState → DeviceState
refresh_all [] s = s
refresh_all (l ∷ ls) s = refresh_all ls (update_local l s)

-- The newest value that a history holds, if it holds one; the empty text is none.
abbrev pub newest_value {ℓ} : {A : Type ℓ} → List (Option A) → Option A
newest_value [] = none
newest_value (x ∷ xs) = value_or_else (newest_value xs) x

abbrev pub newest_text : List (Option String) → Option String
newest_text [] = none
newest_text (x ∷ xs) = text_or_else (newest_text xs) x

abbrev pub newest_time : ℕ → List LocalState → ℕ
newest_time t [] = t
newest_time t (l ∷ ls) = newest_time l.refreshed_at ls

-- The snapshot that a description by fields gives.
abbrev pub known : LocalState → List LocalState → LocalState
known l ls = record {
  refreshed_at = newest_time l.refreshed_at ls;
  device_info = record {
    model = text_or_else (newest_text (map (λ x. x.device_info.model) ls)) l.device_info.model;
    firmware =
        text_or_else (newest_text (map (λ x. x.device_info.firmware) ls)) l.device_info.firmware;
    hardware =
        text_or_else (newest_text (map (λ x. x.device_info.hardware) ls)) l.device_info.hardware;
  };
  battery = value_or_else (newest_value (map (λ x. x.battery) ls)) l.battery;
  storage = value_or_else (newest_value (map (λ x. x.storage) ls)) l.storage;
  wifi_rssi_dbm = value_or_else (newest_value (map (λ x. x.wifi_rssi_dbm) ls)) l.wifi_rssi_dbm;
}

value_or_else_assoc {ℓ} :
    {A : Type ℓ} (c b a : Option A)
    → value_or_else c (value_or_else b a) ≡ value_or_else (value_or_else c b) a
value_or_else_assoc none b a = refl
value_or_else_assoc (some c) b a = refl

text_or_else_assoc :
    (c b a : Option String) → text_or_else c (text_or_else b a) ≡ text_or_else (text_or_else c b) a
text_or_else_assoc none b a = refl
text_or_else_assoc (some c) b a = elim (Bool-cases (c == "")) [
  | inl empty ↦ rw empty refl
  | inr full ↦ rw (full, full) refl
]

known-merge_local :
    (l m : LocalState) (ls : List LocalState) → known (merge_local l m) ls ≡ known l (m ∷ ls)
unfolding merge_local
known-merge_local l m ls = λ i. record {
  refreshed_at = newest_time m.refreshed_at ls;
  device_info = record {
    model =
        text_or_else_assoc (newest_text (map (λ x. x.device_info.model) ls)) m.device_info.model
          l.device_info.model i;
    firmware =
        text_or_else_assoc (newest_text (map (λ x. x.device_info.firmware) ls))
          m.device_info.firmware l.device_info.firmware i;
    hardware =
        text_or_else_assoc (newest_text (map (λ x. x.device_info.hardware) ls))
          m.device_info.hardware l.device_info.hardware i;
  };
  battery = value_or_else_assoc (newest_value (map (λ x. x.battery) ls)) m.battery l.battery i;
  storage = value_or_else_assoc (newest_value (map (λ x. x.storage) ls)) m.storage l.storage i;
  wifi_rssi_dbm =
      value_or_else_assoc (newest_value (map (λ x. x.wifi_rssi_dbm) ls)) m.wifi_rssi_dbm
        l.wifi_rssi_dbm i;
}

-- After any number of refreshes a cache that held a snapshot holds, for every field on its own, the
-- newest value that any of them or that snapshot held, and the time of the last refresh: a short
-- refresh that omits a value never loses it.
pub refresh_all-known :
    (ls : List LocalState) (l : LocalState) (s : DeviceState)
    → s.local ≡ some l
    → (refresh_all ls s).local ≡ some (known l ls)
unfolding refresh_all update_local
refresh_all-known [] l s h = h
refresh_all-known (m ∷ ls) l s h =
    refresh_all-known ls (merge_local l m) _ (ap (λ o. some (merged o m)) h)
    ∙ ap some (known-merge_local l m ls)
