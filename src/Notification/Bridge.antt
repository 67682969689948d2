-- ===== src/Notification/Bridge.antt =====
-- notification_bridge.py: what `NotificationBridge` does with a notification and with a repost of
-- an old one.
use ha_reolink_battery.Base.{
  ℕ, ◌+◌, String, Bool, true, false, not, Option, none, some, List, [], ◌∷◌, ◌==◌, if◌then◌else◌,
  nat_eq,
}
use ha_reolink_battery.Python.{Runtime}
use ha_reolink_battery.Python.Documents.{Fields}
use ha_reolink_battery.Event.{CloudEvent, is_automatic_event_fresh}
use ha_reolink_battery.Worker.State.{Worker}
use ha_reolink_battery.Worker.Outside.{ingest_notification}
use ha_reolink_battery.Notification.{Services, notification_event_from_attributes}
use ha_reolink_battery.Notification.Telemetry.{
  Bridge, is_stale_repost, note_match, note_promotion, note_sensor, promote_stale_repost,
  same_source_recent, source_can_wake,
}

-- The events ingested, each with whether it may wake the camera, and what `_ingest_event` says.
pub record Ingested : Type 0 where
  pub bridge : Bridge
  pub worker : Worker
  pub ingested : List (CloudEvent × Bool)
  pub added : Bool

-- The repost of an old notification; `recent` is that its source was seen moments ago.
unfoldable pub repost : Services → Bool → CloudEvent → ℕ → ℕ → Ingested → Ingested
repost sv true e observed now s = record s {
  bridge = record s.bridge {
    stale_repost_suppressed_count = s.bridge.stale_repost_suppressed_count + 1;
  };
}
repost sv false e observed now s =
    let promoted = promote_stale_repost sv e observed in
    let (w, added) = ingest_notification promoted true now s.worker in
    let again : Ingested = record s { worker = w; ingested = (promoted, true) ∷ s.ingested } in
    if nat_eq added 0
    then again
    else record again { bridge = note_promotion observed s.bridge; added = true }

-- `self._last_source_event_id = ...` to the end.
unfoldable pub note_source : CloudEvent → ℕ → Ingested → Ingested
note_source e observed s = record s {
  bridge = record s.bridge {
    last_source_event_id = e.event_id;
    last_source_observed_at = some observed;
    last_event_queued = s.added;
    last_duplicate_rejected = not s.added;
  };
}

unfoldable pub ingest_source : CloudEvent → Bool → ℕ → Bridge → Worker → Ingested
ingest_source e wake now b w =
    let (w', added) = ingest_notification e wake now w in
    record { bridge = b; worker = w'; ingested = (e, wake) ∷ []; added = not (nat_eq added 0) }

unfoldable pub process_event :
    Services → (String → String) → Bool → Bool → CloudEvent → ℕ → ℕ → Bridge → Worker → Ingested
process_event sv short_id allow_repost allow_wake e observed now b w =
    let recent = same_source_recent b e observed in
    let source =
      ingest_source e (source_can_wake allow_wake allow_repost e observed) now
        (note_match short_id e observed b) w in
    note_source e observed (
      if is_stale_repost allow_repost e observed
      then repost sv recent e observed now source
      else source)

unfoldable pub process_match :
    Services
    → (String → String)
    → Bool
    → Bool
    → Option CloudEvent
    → ℕ
    → ℕ
    → Bridge
    → Worker
    → Ingested
process_match sv short_id allow_repost allow_wake none observed now b w = record {
  bridge = b;
  worker = w;
  ingested = [];
  added = false;
}
process_match sv short_id allow_repost allow_wake (some e) observed now b w =
    process_event sv short_id allow_repost allow_wake e observed now b w

-- `async_process_attributes`; `expected` and `uid` are the bridge's own, and `now` is the clock that
-- the ingestion reads.
unfoldable pub process_attributes :
    Services
    → Runtime
    → (String → String)
    → String
    → String
    → Bool
    → Bool
    → Fields
    → ℕ
    → ℕ
    → Bridge
    → Worker
    → Ingested
process_attributes sv rt short_id expected uid allow_repost allow_wake fs observed now b w =
    process_match sv short_id allow_repost allow_wake
      (notification_event_from_attributes sv rt expected uid fs) observed now
      (note_sensor observed b) w

abbrev pub same_event : Option CloudEvent → Option CloudEvent → Bool
same_event (some a) (some b) = a.event_id == b.event_id
same_event _ _ = false

abbrev pub fresh_event : Option CloudEvent → ℕ → Bool
fresh_event none observed = false
fresh_event (some e) observed = is_automatic_event_fresh e observed

abbrev pub event_of : Services → Runtime → String → String → Option Fields → Option CloudEvent
event_of sv rt expected uid none = none
event_of sv rt expected uid (some fs) = notification_event_from_attributes sv rt expected uid fs

-- `_handle_state_change` for a new state, with the task that it creates.
unfoldable pub handle_state_change :
    Services
    → Runtime
    → (String → String)
    → String
    → String
    → Option Fields
    → Fields
    → ℕ
    → ℕ
    → Bridge
    → Worker
    → Ingested
handle_state_change sv rt short_id expected uid old fs observed now b w =
    let new = notification_event_from_attributes sv rt expected uid fs in
    process_attributes sv rt short_id expected uid
      (same_event (event_of sv rt expected uid old) new) (fresh_event new observed) fs observed now
      b w
