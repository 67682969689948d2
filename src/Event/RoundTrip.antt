-- ===== src/Event/RoundTrip.antt =====
-- events.py: what `as_storage` writes, `from_storage` reads back.
use ha_reolink_battery.Base.{
  ℕ, String, ◌≡◌, refl, false, Option, none, some, List, [], ◌∷◌, map, arith, ap, if◌then◌else◌,
  ◌==◌, eq_iff, not, ℤ, pos, negsuc, is_zero,
}
use ha_reolink_battery.Python.{Runtime, IsIso, ok}
use ha_reolink_battery.Python.Documents.{str, items, of_items}
use ha_reolink_battery.Python.Time.{Stamp, aware}
use ha_reolink_battery.Event.{CloudEvent, CompletedRecording, DeferredEvent, parse_alarm_time}
use ha_reolink_battery.Event.Storage.{
  event_as_storage, event_from_storage, recording_as_storage, recording_from_storage,
  deferral_as_storage, deferral_from_storage, py_str, py_time, optional_time, time_or_null,
}

module _ (rt : Runtime) (iso : IsIso rt) where
  parse_alarm_time-isoformat : (t : ℕ) → parse_alarm_time rt (str (rt.isoformat (aware t))) ≡ ok t
  unfolding parse_alarm_time
  parse_alarm_time-isoformat t = rw (iso.is_text (aware t), iso.has_no_z, iso.reads_back)

  map-py_str : (ss : List String) → map (py_str rt) (items (of_items (map str ss))) ≡ ss
  map-py_str [] = refl
  map-py_str (s ∷ ss) = ap (◌∷◌ s) (map-py_str ss)

  optional_time-time_or_null : (o : Option ℕ) → optional_time rt (time_or_null rt o) ≡ ok o
  unfolding optional_time
  optional_time-time_or_null none = refl
  optional_time-time_or_null (some t) = rw (parse_alarm_time-isoformat t)

  or_empty : (s : String) → (if not (s == "") then s else "") ≡ s
  or_empty s = ground (arith, eq_iff s "")

  -- An event with a source reads back as it was stored.
  pub event_storage_roundtrip :
      (e : CloudEvent)
      → (e.source == "") ≡ false
      → event_from_storage rt (event_as_storage rt e) ≡ ok e
  unfolding event_from_storage event_as_storage
  event_storage_roundtrip e sourced =
      simp (parse_alarm_time-isoformat, map-py_str, optional_time-time_or_null, or_empty, sourced)

  py_time-isoformat : (t : Stamp) → py_time rt (str (rt.isoformat t)) ≡ ok t
  unfolding py_time
  py_time-isoformat t = rw (iso.reads_back, py_time)

  or_zero : (n : ℤ) → (if not (is_zero n) then ok n else ok (pos 0)) ≡ ok n
  or_zero (pos n) = ground arith
  or_zero (negsuc n) = refl

  -- A finished recording reads back as it was stored, with any clock and any size.
  pub recording_storage_roundtrip :
      (r : CompletedRecording) → recording_from_storage rt (recording_as_storage rt r) ≡ ok r
  unfolding recording_from_storage recording_as_storage
  recording_storage_roundtrip r = simp (py_time-isoformat, or_zero)

  -- A deferral with a reason reads back as it was stored.
  pub deferral_storage_roundtrip :
      (d : DeferredEvent)
      → (d.reason == "") ≡ false
      → deferral_from_storage rt (deferral_as_storage rt d) ≡ ok d
  unfolding deferral_from_storage deferral_as_storage
  deferral_storage_roundtrip d given = simp (parse_alarm_time-isoformat, given)
