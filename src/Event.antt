-- ===== src/Event.antt =====
-- custom_components/reolink_battery/events.py and const.py: the records of an event, of a
-- finished recording and of a deferral, the freshness of an event, and the reading of alarm times.
pub mod Storage
pub mod RoundTrip
use ha_reolink_battery.Base.{
  ℕ, ◌+◌, ◌-◌, ◌*◌, ◌/◌, ◌%◌, String, Bool, true, false, Option, none, some, List, ltb, leb, nat_eq,
  or_else, if◌then◌else◌, ◌==◌, ℤ, pos, negsuc,
}
use ha_reolink_battery.Python.{Runtime, Result, ok, raise, value_error, overflow_error}
use ha_reolink_battery.Python.Documents.{Json, null, bool, int, float, str, arr, obj}
use ha_reolink_battery.Python.Time.{Stamp, naive, aware, second, epoch, last_second, age_within}

pub record CloudEvent : Type 0 where
  pub event_id : String
  pub uid : String
  pub alarm_time : ℕ
  pub alarm_type : String
  pub ai_types : List String
  pub source : String
  pub device_name : String
  pub notification_post_time : Option ℕ
  pub title : String
  pub text : String

pub record CompletedRecording : Type 0 where
  pub fingerprint : String
  pub start_time : Stamp
  pub end_time : Stamp
  pub size : ℤ

pub record DeferredEvent : Type 0 where
  pub event_id : String
  pub reason : String
  pub deferred_at : ℕ

-- timedelta(minutes=10)
abbrev pub automatic_recording_event_max_age : ℕ
automatic_recording_event_max_age = 600 * second

abbrev pub max_processed_event_ids : ℕ
max_processed_event_ids = 512

abbrev pub max_pending_events : ℕ
max_pending_events = 100

abbrev pub max_completed_recordings : ℕ
max_completed_recordings = 256

-- `event.notification_post_time or event.alarm_time`
abbrev pub event_time : CloudEvent → ℕ
event_time e = or_else e.notification_post_time e.alarm_time

unfoldable pub is_automatic_event_fresh : CloudEvent → ℕ → Bool
is_automatic_event_fresh e now = age_within automatic_recording_event_max_age now (event_time e)

-- `datetime.fromtimestamp(seconds, UTC)` at a count of microseconds: the year must be 9999 at
-- most, and from 67768036191676800 seconds the C library gives up before `datetime` does.
unfoldable pub from_micros : ℕ → Result ℕ
from_micros m =
    if ltb m (last_second * second)
    then ok (epoch + m)
    else if ltb m (67768036191676800 * second)
    then raise value_error
    else raise overflow_error

-- The same below 1970, at minus `m` microseconds.
unfoldable pub from_negative_micros : ℕ → Result ℕ
from_negative_micros m =
    if leb m epoch
    then ok (epoch - m)
    else if ltb m (67768040609740800 * second)
    then raise value_error
    else raise overflow_error

-- Rounds `m / 1000` to the nearest, ties to even.
unfoldable pub div_thousand : ℕ → ℕ
div_thousand m =
    let q = m / 1000 in
    let r = m % 1000 in if ltb r 500 then q else if ltb 500 r then q + 1 else q + q % 2

-- A value above ten thousand million is in milliseconds.
unfoldable pub from_number : ℕ → Result ℕ
unfolding from_micros div_thousand
from_number micros =
    if ltb (10000000000 * second) micros
    then from_micros (div_thousand micros)
    else from_micros micros

module _ (rt : Runtime) where
  -- A naive result is taken for UTC.
  unfoldable pub utc : Option Stamp → Result ℕ
  utc none = raise value_error
  utc (some (naive t)) = ok t
  utc (some (aware t)) = ok t

  unfoldable pub parse_alarm_time : Json → Result ℕ
  unfolding from_number from_negative_micros utc
  parse_alarm_time (bool true) = from_number second
  parse_alarm_time (bool false) = from_number 0
  parse_alarm_time (int (pos n)) = from_number (n * second)
  parse_alarm_time (int (negsuc n)) = from_negative_micros ((n + 1) * second)
  parse_alarm_time (float micros) = from_number micros
  parse_alarm_time (str s) =
      if s == "" then raise value_error else utc (rt.fromisoformat (rt.replace_z s))
  parse_alarm_time _ = raise value_error
