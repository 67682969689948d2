-- ===== src/Cloud/Sound.antt =====
-- events.py: what `parse_cloud_events` lets through, and when it gives up.
use ha_reolink_battery.Base.{
  ◌≤◌, String, ◌≡◌, Bool, true, false, not, ◌||◌, Option, none, some, List, contains, All, length,
  Distinct,
}
use ha_reolink_battery.Python.{Result, Runtime, ok, raise, type_error}
use ha_reolink_battery.Python.Documents.{Fields, get_or_null}
use ha_reolink_battery.Event.{CloudEvent}
use ha_reolink_battery.Cloud.{is_hashable, is_nil, meaningful_alarm_types}

-- No text is empty, and none is there twice.
abbrev pub Tags : List String → Type 0
Tags xs = Distinct xs × (contains "" xs ≡ false)

-- An event of the camera with a meaningful alarm type or some AI type, each AI type once.
abbrev pub Meaningful : String → CloudEvent → Type 0
Meaningful expected e =
    (e.uid ≡ expected)
    × (e.source ≡ "message_center")
    × Tags e.ai_types
    × ((contains e.alarm_type meaningful_alarm_types || not (is_nil e.ai_types)) ≡ true)

module _ (rt : Runtime) where
  -- What one message may add.
  abbrev Fits : String → Option CloudEvent → Type 0
  Fits expected none = Unit
  Fits expected (some e) = Meaningful expected e

  -- The outcome for a list of messages: events that are meaningful, at most one for a message; or
  -- the failure of a message whose UID is a list or an object.
  abbrev pub Parsed : String → List Fields → Result (List CloudEvent) → Type 0
  Parsed expected ms (ok es) =
      All (Meaningful expected) es
      × (length es ≤ length ms)
      × All (λ m. is_hashable (get_or_null "uid" m) ≡ true) ms
  Parsed expected ms (raise x) =
      (x ≡ type_error) × ¬ All (λ m. is_hashable (get_or_null "uid" m) ≡ true) ms
