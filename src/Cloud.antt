-- ===== src/Cloud.antt =====
-- custom_components/reolink_battery/events.py: `parse_cloud_events`, the Message Center's page as
-- events.
pub mod Sound
mod Tests
use ha_reolink_battery.Base.{
  ℕ, String, Bool, true, false, not, ◌&&◌, ◌||◌, Option, none, some, List, [], ◌∷◌, map, ◌==◌,
  if◌then◌else◌, append, contains, keep,
}
use ha_reolink_battery.Python.{Result, Runtime, ok, raise, type_error, ◌>>=◌}
use ha_reolink_battery.Python.Documents.{
  Fields, Items, Json, null, bool, int, float, str, arr, obj, end, field, nil, cons, get_or_null,
  items,
}
use ha_reolink_battery.Event.{CloudEvent, parse_alarm_time}
use ha_reolink_battery.Event.Storage.{py_str, text_or}

abbrev pub meaningful_alarm_types : List String
meaningful_alarm_types = "AI" ∷ "MD" ∷ "MOTION" ∷ "PEOPLE" ∷ "PERSON" ∷ []

-- `(item for item in values if isinstance(item, dict))`
abbrev pub dicts : Items → List Fields
dicts nil = []
dicts (cons (obj fs) js) = fs ∷ dicts js
dicts (cons _ js) = dicts js

abbrev pub as_list : Json → Option Items
as_list (arr js) = some js
as_list _ = none

-- The first of the keys under which a list stands.
unfoldable pub first_list : List String → Fields → Option Items
first_list [] fs = none
first_list (k ∷ ks) fs = elim (as_list (get_or_null k fs)) [
  | some js ↦ some js
  | none ↦ first_list ks fs
]

abbrev pub list_keys : List String
list_keys = "items" ∷ "messages" ∷ "msgs" ∷ "list" ∷ []

-- `_items`; the second function is its call on the value under "data".
unfoldable mutual
  pub messages : Json → List Fields
  messages (arr js) = dicts js
  messages (obj fs) =
      let inner = messages_of_data fs in
      elim (first_list list_keys fs) [ some js ↦ dicts js | none ↦ inner ]
  messages _ = []

  pub messages_of_data : Fields → List Fields
  messages_of_data end = []
  messages_of_data (field k v fs) =
      let here = messages v in
      let there = messages_of_data fs in if k == "data" then here else there

-- `tuple(dict.fromkeys(value for value in values if value))`
unfoldable pub distinct_texts : List String → List String → List String
distinct_texts seen [] = []
distinct_texts seen (x ∷ xs) =
    let rest = distinct_texts seen xs in
    let more = distinct_texts (x ∷ seen) xs in if x == "" || contains x seen then rest else x ∷ more

abbrev pub as_dict : Json → Option Fields
as_dict (obj fs) = some fs
as_dict _ = none

-- `uid in {...}`, which hashes its left side.
abbrev pub is_hashable : Json → Bool
is_hashable (arr _) = false
is_hashable (obj _) = false
is_hashable _ = true

abbrev pub uid_is : String → Json → Bool
uid_is expected (str uid) = uid == expected || uid == append expected "_00"
uid_is expected _ = false

-- `isinstance(event_id, (str, int))`
abbrev pub is_id : Json → Bool
is_id (str _) = true
is_id (int _) = true
is_id (bool _) = true
is_id _ = false

abbrev pub is_null : Json → Bool
is_null null = true
is_null _ = false

abbrev pub is_nil : List String → Bool
is_nil [] = true
is_nil (_ ∷ _) = false

module _ (rt : Runtime) where
  -- `_ai_types`
  unfoldable pub ai_types_of : Json → List String
  ai_types_of (str s) = distinct_texts [] (map rt.strip (rt.split_commas s))
  ai_types_of (arr js) = distinct_texts [] (map (λ j. rt.strip (py_str rt j)) (items js))
  ai_types_of _ = []

  -- `raw["alarm"]`, if both are dictionaries
  unfoldable pub alarm_of : Fields → Option Fields
  alarm_of fs = elim (as_dict (get_or_null "raw" fs)) [
    | none ↦ none
    | some raw ↦ as_dict (get_or_null "alarm" raw)
  ]

  abbrev pub type_in : Option Fields → String
  type_in none = ""
  type_in (some alarm) = rt.upper (text_or rt "type" "" alarm)

  abbrev pub ai_in : Option Fields → List String
  ai_in none = []
  ai_in (some alarm) = ai_types_of (get_or_null "aiType" alarm)

  unfoldable pub alarm_type_of : Fields → String
  alarm_type_of fs =
      let t = type_in (alarm_of fs) in
      if t == "" then rt.upper (text_or rt "alarmType" "" fs) else t

  unfoldable pub ai_of : Fields → List String
  ai_of fs =
      let ai = ai_in (alarm_of fs) in
      if is_nil ai then ai_types_of (get_or_null "aiType" fs) else ai

  -- The test that makes the loop `continue`, negated.
  unfoldable pub is_wanted : String → Fields → Bool
  is_wanted expected fs =
      is_id (get_or_null "id" fs)
      && uid_is expected (get_or_null "uid" fs)
      && not (is_null (get_or_null "alarmAt" fs))
      && (contains (alarm_type_of fs) meaningful_alarm_types || not (is_nil (ai_of fs)))

  unfoldable pub message_event : String → Fields → Result ℕ → Option CloudEvent
  message_event expected fs (raise _) = none
  message_event expected fs (ok at) = some (record {
    event_id = py_str rt (get_or_null "id" fs);
    uid = expected;
    alarm_time = at;
    alarm_type = alarm_type_of fs;
    ai_types = ai_of fs;
    source = "message_center";
    device_name = "";
    notification_post_time = none;
    title = "";
    text = "";
  })

  unfoldable pub wanted_event : String → Fields → Option CloudEvent
  wanted_event expected fs =
      if is_wanted expected fs
      then message_event expected fs (parse_alarm_time rt (get_or_null "alarmAt" fs))
      else none

  abbrev pub put_first : Option CloudEvent → List CloudEvent → List CloudEvent
  put_first none es = es
  put_first (some e) es = e ∷ es

  unfoldable pub parse_messages : String → List Fields → Result (List CloudEvent)
  parse_messages expected [] = ok []
  parse_messages expected (fs ∷ rest) =
      let more = parse_messages expected rest in
      if is_hashable (get_or_null "uid" fs)
      then more >>= (λ es. ok (put_first (wanted_event expected fs) es))
      else raise type_error

  unfoldable pub parse_cloud_events : Json → String → Result (List CloudEvent)
  parse_cloud_events payload expected = parse_messages expected (messages payload)
