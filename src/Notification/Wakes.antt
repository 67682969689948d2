-- ===== src/Notification/Wakes.antt =====
-- notification_bridge.py: what one update of the notification may wake.
use ha_reolink_battery.Base.{
  ℕ, ◌+◌, ◌≤◌, String, ◌≡◌, refl, Bool, true, false, not, Option, none, some, List, [], ◌∷◌, arith,
  ◌==◌, if◌then◌else◌, nat_eq, All,
}
use ha_reolink_battery.Python.{Result, Runtime, ok, raise}
use ha_reolink_battery.Python.Documents.{Fields, Json, get_or_null}
use ha_reolink_battery.Event.{CloudEvent, event_time, is_automatic_event_fresh, parse_alarm_time}
use ha_reolink_battery.Worker.State.{Worker}
use ha_reolink_battery.Worker.Outside.{ingest_notification}
use ha_reolink_battery.Notification.{
  Services, is_camera_alarm, notification_event, notification_event_from_attributes,
  numeric_post_time, text_at, timed_event,
}
use ha_reolink_battery.Notification.Bridge.{
  Ingested, event_of, fresh_event, handle_state_change, ingest_source, note_source,
  process_attributes, process_event, process_match, repost, same_event,
}
use ha_reolink_battery.Notification.Telemetry.{
  Bridge, is_stale_repost, note_match, note_sensor, promote_stale_repost, same_source_recent,
  source_can_wake,
}

-- How many of the ingested events may wake the camera.
abbrev pub wakes : List (CloudEvent × Bool) → ℕ
wakes [] = 0
wakes ((e, wake) ∷ es) = (if wake then 1 else 0) + wakes es

-- An event that may wake the camera is at most ten minutes old when the update is observed, and
-- it is an Android event of the camera's UID.
abbrev pub Allowed : String → ℕ → List (CloudEvent × Bool) → Type 0
Allowed uid observed es =
    All
      (λ x.
        (x.1 ≡ true → observed ≤ event_time x.0 + 600000000)
        × (x.0.source ≡ "android_notification")
        × (x.0.uid ≡ uid))
      es

abbrev Careful : String → ℕ → Ingested → Type 0
Careful uid observed r = (wakes r.ingested ≤ 1) × Allowed uid observed r.ingested

-- What the bridge reads off a notification.
abbrev Ours : String → Option CloudEvent → Type 0
Ours uid none = Unit
Ours uid (some e) = (e.source ≡ "android_notification") × (e.uid ≡ uid)

Ours-if :
    (b : Bool) (uid : String) (x y : Option CloudEvent)
    → Ours uid x
    → Ours uid y
    → Ours uid (if b then x else y)
Ours-if true uid x y h k = h
Ours-if false uid x y h k = k

module _ (sv : Services) (rt : Runtime) (expected uid : String) where
  notification_event-Ours :
      (title body : String) (j : Json) (r : Result ℕ)
      → Ours uid (notification_event sv rt expected uid title body j r)
  unfolding notification_event
  notification_event-Ours title body j (raise x) = tt
  notification_event-Ours title body j (ok at) = (refl, refl)

  timed_event-Ours :
      (title body : String) (o : Option Json)
      → Ours uid (timed_event sv rt expected uid title body o)
  unfolding timed_event
  timed_event-Ours title body none = tt
  timed_event-Ours title body (some j) =
      notification_event-Ours title body j (parse_alarm_time rt j)

  from_attributes-Ours :
      (fs : Fields) → Ours uid (notification_event_from_attributes sv rt expected uid fs)
  unfolding notification_event_from_attributes
  from_attributes-Ours fs =
      let title = text_at sv rt "android.title" fs in
      let big_text = text_at sv rt "android.bigText" fs in
      let body = if big_text == "" then text_at sv rt "android.text" fs else big_text in
      let post_time = numeric_post_time sv rt (get_or_null "post_time" fs) in
      let found = timed_event sv rt expected uid title body post_time in
      let alarm = is_camera_alarm sv rt expected title body (text_at sv rt "channel_id" fs) in
      let named = if not alarm then none else found in
      Ours-if (not (text_at sv rt "package" fs == "com.mcu.reolink")) uid none
        (if body == "" then none else named) tt
        (Ours-if (body == "") uid none named tt
          (Ours-if (not alarm) uid none found tt (timed_event-Ours title body post_time)))

Careful-if :
    (b : Bool) (uid : String) (observed : ℕ) (r s : Ingested)
    → Careful uid observed r
    → Careful uid observed s
    → Careful uid observed (if b then r else s)
Careful-if true uid observed r s h k = h
Careful-if false uid observed r s h k = k

Careful-when :
    (b : Bool) (uid : String) (observed : ℕ) (r s : Ingested)
    → (b ≡ true → Careful uid observed r)
    → Careful uid observed s
    → Careful uid observed (if b then r else s)
Careful-when true uid observed r s h k = h refl
Careful-when false uid observed r s h k = k

module _ (sv : Services) (short_id : String → String) (uid : String) where
  fresh_now :
      (e : CloudEvent) (observed : ℕ)
      → is_automatic_event_fresh e observed ≡ true
      → observed ≤ event_time e + 600000000
  unfolding is_automatic_event_fresh
  fresh_now e observed h = ground arith

  -- The ingestion of the source event: nothing wakes that is a repost.
  source-Careful :
      (allow_repost allow_wake : Bool) (e : CloudEvent) (observed now : ℕ) (b : Bridge) (w : Worker)
      → Ours uid (some e)
      → let wake = source_can_wake allow_wake allow_repost e observed in
        let r = ingest_source e wake now b w in
        Careful uid observed r
        × (is_stale_repost allow_repost e observed ≡ true → wakes r.ingested ≡ 0)
  unfolding ingest_source source_can_wake
  source-Careful allow_repost allow_wake e observed now b w ours = (
    (ground arith, ((λ h. fresh_now e observed (ground arith), ours.0, ours.1), tt)),
    λ stale. ground arith,
  )

  repost-Careful :
      (recent : Bool) (e : CloudEvent) (observed now : ℕ) (r : Ingested)
      → Ours uid (some e)
      → Careful uid observed r
      → wakes r.ingested ≡ 0
      → Careful uid observed (repost sv recent e observed now r)
  unfolding repost promote_stale_repost
  repost-Careful true e observed now r ours c none_yet = c
  repost-Careful false e observed now r ours c none_yet =
      let promoted = promote_stale_repost sv e observed in
      let added = (ingest_notification promoted true now r.worker).1 in
      let careful : (wakes ((promoted, true) ∷ r.ingested) ≤ 1)
          × Allowed uid observed ((promoted, true) ∷ r.ingested) =
        (omega (arith, none_yet), ((λ _. omega arith, ours.0, ours.1), c.1)) in
      Careful-if (nat_eq added 0) uid observed _ _ careful careful

  process_event-Careful :
      (allow_repost allow_wake : Bool) (e : CloudEvent) (observed now : ℕ) (b : Bridge) (w : Worker)
      → Ours uid (some e)
      → Careful uid observed (process_event sv short_id allow_repost allow_wake e observed now b w)
  unfolding process_event note_source
  process_event-Careful allow_repost allow_wake e observed now b w ours =
      let noted = note_match short_id e observed b in
      let source =
        ingest_source e (source_can_wake allow_wake allow_repost e observed) now noted w in
      let (careful, quiet) = source-Careful allow_repost allow_wake e observed now noted w ours in
      Careful-when (is_stale_repost allow_repost e observed) uid observed
        (repost sv (same_source_recent b e observed) e observed now source) source
        (λ stale.
          repost-Careful (same_source_recent b e observed) e observed now source ours careful
            (quiet stale))
        careful

  process_match-Careful :
      (allow_repost allow_wake : Bool) (o : Option CloudEvent) (observed now : ℕ) (b : Bridge)
      (w : Worker)
      → Ours uid o
      → Careful uid observed (process_match sv short_id allow_repost allow_wake o observed now b w)
  unfolding process_match
  process_match-Careful allow_repost allow_wake none observed now b w ours = (omega arith, tt)
  process_match-Careful allow_repost allow_wake (some e) observed now b w ours =
      process_event-Careful allow_repost allow_wake e observed now b w ours

-- Whatever the sensor's old and new attributes are, one update of it ingests at most one event
-- that may wake the camera; that event is at most ten minutes old at the time of the update; and
-- every event ingested is an Android event of the camera's UID.
pub handle_state_change-wakes :
    (sv : Services) (rt : Runtime) (short_id : String → String) (expected uid : String)
    (old : Option Fields) (fs : Fields) (observed now : ℕ) (b : Bridge) (w : Worker)
    → let r = handle_state_change sv rt short_id expected uid old fs observed now b w in
      (wakes r.ingested ≤ 1) × Allowed uid observed r.ingested
unfolding handle_state_change process_attributes
handle_state_change-wakes sv rt short_id expected uid old fs observed now b w =
    let new = notification_event_from_attributes sv rt expected uid fs in
    process_match-Careful sv short_id uid (same_event (event_of sv rt expected uid old) new)
      (fresh_event new observed) new observed now (note_sensor observed b) w
      (from_attributes-Ours sv rt expected uid fs)
