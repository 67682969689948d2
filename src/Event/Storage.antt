-- ===== src/Event/Storage.antt =====
-- events.py: `as_storage` and `from_storage` of the three records, as JSON documents.
use ha_reolink_battery.Base.{
  ℕ, ◌/◌, String, true, false, Option, none, some, List, [], ◌∷◌, map, if◌then◌else◌, ℤ, pos,
}
use ha_reolink_battery.Python.{
  Runtime, Result, ok, raise, key_error, type_error, value_error, ◌>>=◌,
}
use ha_reolink_battery.Python.Documents.{
  Json, null, bool, int, float, str, arr, obj, Fields, end, field, items, of_items, get,
  get_or_null, truthy,
}
use ha_reolink_battery.Python.Time.{Stamp, aware, second}
use ha_reolink_battery.Event.{CloudEvent, CompletedRecording, DeferredEvent, parse_alarm_time}

-- `data[key]`
unfoldable pub item : String → Fields → Result Json
item k fs = elim (get k fs) [ none ↦ raise key_error | some v ↦ ok v ]

-- The characters of a text, as texts.
abbrev pub characters : String → List String
characters String.[] = []
characters (String.◌∷◌ c s) = (String.◌∷◌ c String.[]) ∷ characters s

abbrev pub keys_of : Fields → List String
keys_of end = []
keys_of (field k _ fs) = k ∷ keys_of fs

module _ (rt : Runtime) where
  -- `str(value)`
  abbrev pub py_str : Json → String
  py_str (str s) = s
  py_str j = rt.show j

  -- `str(data.get(key) or default)`
  unfoldable pub text_or : String → String → Fields → String
  text_or k default fs = let v = get_or_null k fs in if truthy v then py_str v else default

  -- `tuple(str(value) for value in data.get(key, []))`
  unfoldable pub texts : Option Json → Result (List String)
  texts none = ok []
  texts (some (arr js)) = ok (map py_str (items js))
  texts (some (str s)) = ok (characters s)
  texts (some (obj fs)) = ok (keys_of fs)
  texts (some _) = raise type_error

  -- `int(value)`
  unfoldable pub py_int : Json → Result ℤ
  py_int (bool true) = ok (pos 1)
  py_int (bool false) = ok (pos 0)
  py_int (int n) = ok n
  py_int (float micros) = ok (pos (micros / second))
  py_int (str s) = elim (rt.parse_int s) [ none ↦ raise value_error | some n ↦ ok n ]
  py_int _ = raise type_error

  abbrev pub time_or_null : Option ℕ → Json
  time_or_null none = null
  time_or_null (some t) = str (rt.isoformat (aware t))

  -- `CloudEvent.as_storage`
  unfoldable pub event_as_storage : CloudEvent → Fields
  event_as_storage e = field "event_id" (str e.event_id) (
      field "uid" (str e.uid) (
        field "alarm_time" (str (rt.isoformat (aware e.alarm_time))) (
          field "alarm_type" (str e.alarm_type) (
            field "ai_types" (arr (of_items (map str e.ai_types))) (
              field "source" (str e.source) (
                field "device_name" (str e.device_name) (
                  field "notification_post_time" (time_or_null e.notification_post_time)
                    (field "title" (str e.title) (field "text" (str e.text) end)))))))))

  -- `parse_alarm_time(value) if value is not None else None`
  unfoldable pub optional_time : Json → Result (Option ℕ)
  optional_time null = ok none
  optional_time v = do t ← parse_alarm_time rt v; ok (some t)

  -- `CloudEvent.from_storage`
  unfoldable pub event_from_storage : Fields → Result CloudEvent
  unfolding item text_or texts optional_time
  event_from_storage fs = do
    event_id ← item "event_id" fs
    uid ← item "uid" fs
    alarm_at ← item "alarm_time" fs
    alarm_time ← parse_alarm_time rt alarm_at
    ai_types ← texts (get "ai_types" fs)
    post_time ← optional_time (get_or_null "notification_post_time" fs)
    ok (record {
      event_id = py_str event_id;
      uid = py_str uid;
      alarm_time = alarm_time;
      alarm_type = text_or "alarm_type" "" fs;
      ai_types = ai_types;
      source = text_or "source" "message_center" fs;
      device_name = text_or "device_name" "" fs;
      notification_post_time = post_time;
      title = text_or "title" "" fs;
      text = text_or "text" "" fs;
    })

  -- `datetime.fromisoformat(str(value))`
  unfoldable pub py_time : Json → Result Stamp
  py_time j = elim (rt.fromisoformat (py_str j)) [ none ↦ raise value_error | some t ↦ ok t ]

  -- `CompletedRecording.as_storage`
  unfoldable pub recording_as_storage : CompletedRecording → Fields
  recording_as_storage r = field "fingerprint" (str r.fingerprint) (
      field "start_time" (str (rt.isoformat r.start_time))
        (field "end_time" (str (rt.isoformat r.end_time)) (field "size" (int r.size) end)))

  -- `int(data.get("size") or 0)`
  unfoldable pub size_or_zero : Fields → Result ℤ
  unfolding py_int
  size_or_zero fs = let v = get_or_null "size" fs in if truthy v then py_int v else ok (pos 0)

  -- `CompletedRecording.from_storage`
  unfoldable pub recording_from_storage : Fields → Result CompletedRecording
  unfolding item py_time size_or_zero
  recording_from_storage fs = do
    fingerprint ← item "fingerprint" fs
    start ← item "start_time" fs
    start_time ← py_time start
    finish ← item "end_time" fs
    end_time ← py_time finish
    size ← size_or_zero fs
    ok (record {
      fingerprint = py_str fingerprint;
      start_time = start_time;
      end_time = end_time;
      size = size;
    })

  -- `DeferredEvent.as_storage`
  unfoldable pub deferral_as_storage : DeferredEvent → Fields
  deferral_as_storage d = field "event_id" (str d.event_id) (
      field "reason" (str d.reason)
        (field "deferred_at" (str (rt.isoformat (aware d.deferred_at))) end))

  -- `DeferredEvent.from_storage`
  unfoldable pub deferral_from_storage : Fields → Result DeferredEvent
  unfolding item text_or
  deferral_from_storage fs = do
    event_id ← item "event_id" fs
    deferred ← item "deferred_at" fs
    deferred_at ← parse_alarm_time rt deferred
    ok (record {
      event_id = py_str event_id;
      reason = text_or "reason" "unspecified" fs;
      deferred_at = deferred_at;
    })
