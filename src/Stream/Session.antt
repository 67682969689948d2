-- ===== src/Stream/Session.antt =====
-- `async_stream_media` of live_stream.py: one live session from the search of the camera to the
-- release of all it took. A script says how each call that the session waits for ends.
pub mod Sound
pub mod Releases
use ha_reolink_battery.Base.{
  ℕ, Bool, true, false, not, ◌&&◌, ◌||◌, Option, none, some, String, nat_eq, if◌then◌else◌,
}

-- The exceptions that the handlers tell apart; `other_error` is any other, such as a cancellation.
pub data Fault : Type 0 where
  reolink_error : Option ℕ → Fault
  os_error timeout_error runtime_error value_error other_error : Fault
  -- `LiveStreamError` with its stage, the type of its cause and the response code
  live_stream_error : String → String → Option ℕ → Fault

abbrev pub failure_type : Fault → String
failure_type (reolink_error _) = "ReolinkError"
failure_type os_error = "OSError"
failure_type timeout_error = "TimeoutError"
failure_type runtime_error = "RuntimeError"
failure_type value_error = "ValueError"
failure_type other_error = ""
failure_type (live_stream_error _ kind _) = kind

-- The except clauses, with the stage that was reached.
unfoldable pub convert : String → Fault → Fault
convert stage (reolink_error code) = live_stream_error stage "ReolinkError" code
convert stage other_error = other_error
convert stage (live_stream_error s kind code) = live_stream_error s kind code
convert stage fault = live_stream_error stage (failure_type fault) none

-- `with suppress(ReolinkError, OSError, TimeoutError, asyncio.TimeoutError)`
unfoldable pub suppress : Option Fault → Option Fault
suppress (some (reolink_error _)) = none
suppress (some os_error) = none
suppress (some timeout_error) = none
suppress fault = fault

pub data Answer : Type 0 where
  answer : ℕ → Answer
  no_answer : Fault → Answer

pub record Script : Type 0 where
  pub find_interface : Option Fault
  pub resolve_uid : Option Fault
  pub validate_route : Option Fault
  pub make_host : Option Fault
  pub make_connection : Option Fault
  pub connect : Option Fault
  -- the connection took the socket out of the lease
  pub adopts : Bool
  pub login : Option Fault
  pub build_wires : Option Fault
  pub is_live_protocol : Bool
  pub start_keepalive : Option Fault
  pub send_start : Option Fault
  pub start_answer : Answer
  -- the wait for the end: a fault, or whether the connection is open and the stop event is set
  pub wait : Option Fault
  pub open_after_wait : Bool
  pub is_stop_set : Bool
  pub send_stop : Option Fault
  pub stop_answer : Answer
  pub logout : Option Fault
  pub open_at_end : Bool
  pub close : Option Fault

pub data Lease : Type 0 where
  unresolved held adopted closed : Lease

pub record LiveSession : Type 0 where
  pub lease : Lease
  pub has_host : Bool
  pub has_connection : Bool
  pub is_decrypting : Bool
  pub has_sinks : Bool
  pub is_armed : Bool
  pub is_stopping : Bool
  pub failure_stage : String
  pub start_response_code : Option ℕ
  pub start_accepted : Bool
  pub stop_response_code : Option ℕ
  pub stop_accepted : Bool

abbrev pub fresh : LiveSession
fresh = record {
  lease = unresolved;
  has_host = false;
  has_connection = false;
  is_decrypting = false;
  has_sinks = false;
  is_armed = false;
  is_stopping = false;
  failure_stage = "UID_RESOLVE_ERROR";
  start_response_code = none;
  start_accepted = false;
  stop_response_code = none;
  stop_accepted = false;
}

-- How the session's body ends: with a reason, or with a fault.
pub data Ending : Type 0 where
  finished : String → Ending
  faulted : Fault → Ending

abbrev pub Ended : Type 0
Ended = LiveSession × Ending

-- A call and what follows if it does not raise.
abbrev pub attempt : Option Fault → LiveSession → (LiveSession → Ended) → Ended
attempt (some fault) session next = (session, faulted fault)
attempt none session next = next session

abbrev pub await_answer : Answer → LiveSession → (ℕ → LiveSession → Ended) → Ended
await_answer (no_answer fault) session next = (session, faulted fault)
await_answer (answer code) session next = next code session

abbrev pub require : Bool → Fault → LiveSession → (LiveSession → Ended) → Ended
require false fault session next = (session, faulted fault)
require true fault session next = next session

-- `code in ACCEPTED_RESPONSE_CODES`
abbrev pub accepts : ℕ → Bool
accepts code = nat_eq code 0 || nat_eq code 200

-- The search of the camera: from here the session holds a lease on the socket that found it.
unfoldable pub find_camera : Script → LiveSession → (LiveSession → Ended) → Ended
find_camera script session next = attempt script.find_interface session λ s.
    attempt script.resolve_uid s λ s. attempt script.validate_route (record s { lease = held }) next

unfoldable pub make_parts : Script → LiveSession → (LiveSession → Ended) → Ended
make_parts script session next = attempt script.make_host session λ s.
    attempt script.make_connection (record s { has_host = true })
      λ s. next (record s { has_connection = true })

unfoldable pub wake_camera : Script → LiveSession → (LiveSession → Ended) → Ended
wake_camera script session next =
    attempt script.connect (record session { failure_stage = "LIVE_WAKE_ERROR" })
      λ s. require script.adopts runtime_error s λ s. next (record s { lease = adopted })

unfoldable pub authenticate : Script → LiveSession → (LiveSession → Ended) → Ended
authenticate script session next =
    attempt script.login (record session { failure_stage = "LIVE_AUTH_ERROR" })
      λ s.
        attempt script.build_wires (record s { is_decrypting = true; has_sinks = true })
          λ s.
            require script.is_live_protocol runtime_error s
              λ s. attempt script.start_keepalive (record s { is_armed = true }) next

unfoldable pub start_stream : Script → LiveSession → (LiveSession → Ended) → Ended
start_stream script session next =
    attempt script.send_start (record session { failure_stage = "LIVE_STREAM_START_ERROR" })
      λ s. await_answer script.start_answer s λ code s.
        require (accepts code) (live_stream_error "LIVE_STREAM_REJECTED" "" (some code))
          (record s { start_response_code = some code; start_accepted = accepts code }) next

-- The stop request and its answer, where the listed exceptions are suppressed.
unfoldable pub request_stop : Option Fault → Answer → LiveSession → LiveSession × Option Fault
request_stop (some fault) stop_answer session = (session, suppress (some fault))
request_stop none (no_answer fault) session = (session, suppress (some fault))
request_stop none (answer code) session =
    (record session { stop_response_code = some code; stop_accepted = accepts code }, none)

unfoldable pub stop_stream : Script → LiveSession → (LiveSession → Ended) → Ended
stop_stream script session next =
    let asked = request_stop script.send_stop script.stop_answer session in
    if script.open_after_wait then attempt asked.1 asked.0 next else next session

unfoldable pub follow_stream : Script → LiveSession → Ended
follow_stream script session = attempt script.wait session λ s.
    stop_stream script s λ s.
      (s, finished (if script.is_stop_set then "consumer_disconnected" else "connection_closed"))

-- The `try` block.
unfoldable pub stream_body : Script → Ended
stream_body script = find_camera script fresh λ s. make_parts script s λ s.
    wake_camera script s
      λ s. authenticate script s λ s. start_stream script s λ s. follow_stream script s

-- What the `finally` block calls.
pub record Released : Type 0 where
  pub session : LiveSession
  pub logged_out : Bool
  pub closed_connection : Bool
  pub ending : Ending

-- A fault of the clean-up takes the place of how the session ended.
abbrev overridden : Option Fault → Ending → Ending
overridden none ending = ending
overridden (some fault) ending = faulted fault

abbrev when : Bool → Option Fault → Option Fault
when true fault = fault
when false fault = none

abbrev close_lease : Lease → Lease
close_lease held = closed
close_lease lease = lease

unfoldable pub release : Script → Ended → Released
release script (session, ending) =
    let closes = session.has_connection && script.open_at_end in
    record {
      session = record session {
        lease = close_lease session.lease;
        is_decrypting = session.is_decrypting && not session.has_connection;
        has_sinks = session.has_sinks && not session.has_connection;
        is_armed = session.is_armed && not (session.has_connection && script.is_live_protocol);
        is_stopping = true;
      };
      logged_out = session.has_host;
      closed_connection = closes;
      ending =
          overridden (when closes (suppress script.close))
            (overridden (when session.has_host (suppress script.logout)) ending);
    }

abbrev converted : LiveSession → Ending → Ending
converted session (finished reason) = finished reason
converted session (faulted fault) = faulted (convert session.failure_stage fault)

unfoldable pub async_stream_media : Script → Released
async_stream_media script =
    let ended = stream_body script in release script (ended.0, converted ended.0 ended.1)
