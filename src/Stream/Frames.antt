-- ===== src/Stream/Frames.antt =====
-- The live messages of live_stream.py: their headers, written by `_build_preview_wire` and read by
-- `_live_frame`, and `parse_bc_data` of `_LiveStreamProtocol`, which cuts them out of the bytes
-- received. The bytes that are no live message go to the method of the base class.
pub mod Cuts
pub mod Wires
use ha_reolink_battery.Base.{
  ℕ, zero, suc, ◌+◌, ◌%◌, ◌^◌, min, Bool, true, false, not, ◌&&◌, ◌||◌, List, [], ◌∷◌, ◌++◌, Option,
  none, some, String, length, take, drop, nat_eq, ltb, is_some, or_else, if◌then◌else◌,
}
use ha_reolink_battery.Wire.{Bytes, slice, from_bytes, to_bytes, encoded, decimal}

abbrev pub live_start_cmd_id : ℕ
live_start_cmd_id = 3

abbrev pub live_stop_cmd_id : ℕ
live_stop_cmd_id = 4

abbrev pub live_message_class : ℕ
live_message_class = 0x6414

abbrev pub live_channel_id : ℕ
live_channel_id = 0

abbrev pub baichuan_magic : Bytes
baichuan_magic = 0xf0 ∷ 0xde ∷ 0xbc ∷ 0x0a ∷ []

-- The message number that is stored and returned.
unfoldable pub next_live_msg_num : ℕ → ℕ
next_live_msg_num mess_id = (mess_id + 1) % 2 ^ 16

pub data StreamKind : Type 0 where
  main_stream sub_stream : StreamKind

-- The stream's code, its handle and its name.
unfoldable pub stream_layout : StreamKind → ℕ × ℕ × String
stream_layout main_stream = (0, 0, "mainStream")
stream_layout sub_stream = (1, 256, "subStream")

stream_xml : Option String → Bytes
stream_xml none = []
stream_xml (some name) = encoded "<streamType>" ++ encoded name ++ encoded "</streamType>"

unfoldable pub preview_xml : ℕ → Option String → Bytes
unfolding stream_xml
preview_xml handle stream_name =
    encoded
      "<?xml version=\"1.0\" encoding=\"UTF-8\" ?>\n<body>\n<Preview version=\"1.1\"><channelId>"
    ++ decimal live_channel_id
    ++ encoded "</channelId><handle>"
    ++ decimal handle
    ++ encoded "</handle>"
    ++ stream_xml stream_name
    ++ encoded "</Preview>\n</body>"

abbrev pub wire_header : (cmd_id body_length stream_code msg_num : ℕ) → Bytes
wire_header cmd_id body_length stream_code msg_num =
    baichuan_magic
    ++ (to_bytes 4 cmd_id
        ++ (to_bytes 4 body_length
            ++ (to_bytes 1 live_channel_id
                ++ (to_bytes 1 stream_code
                    ++ (to_bytes 2 msg_num
                        ++ (to_bytes 2 0 ++ (to_bytes 2 live_message_class ++ to_bytes 4 0)))))))

-- The wire and the message number. `none` is the `OverflowError` of a body that is too long.
unfoldable pub build_preview_wire : (Bytes → Bytes) → ℕ → ℕ → StreamKind → Option Bytes × ℕ
build_preview_wire aes_encrypt mess_id cmd_id stream =
    let (stream_code, handle, stream_name) = stream_layout stream in
    let msg_num = next_live_msg_num mess_id in
    let body =
      aes_encrypt
        (preview_xml handle (if nat_eq cmd_id live_start_cmd_id then some stream_name else none)) in
    (
      if ltb cmd_id (256 ^ 4) && ltb (length body) (256 ^ 4)
          then some (wire_header cmd_id (length body) stream_code msg_num ++ body)
          else none,
      msg_num,
    )

pub record RawLiveFrame : Type 0 where
  pub cmd_id : ℕ
  pub response_code : ℕ
  pub message_class : ℕ
  pub header_channel_id : ℕ
  pub stream_type : ℕ
  pub msg_num : ℕ
  pub body_length : ℕ
  pub payload_offset : ℕ
  pub header : Bytes
  pub body : Bytes

-- `24 if message_class in (0x0000, 0x6414, 0x6482) else 20`
unfoldable pub header_length : ℕ → ℕ
header_length message_class =
    if nat_eq message_class 0 || nat_eq message_class 0x6414 || nat_eq message_class 0x6482
    then 24
    else 20

-- The frame once its whole message is there.
abbrev pub read_frame : Bytes → RawLiveFrame
read_frame raw =
    let message_class = from_bytes (slice 18 2 raw) in
    let body_length = from_bytes (slice 8 4 raw) in
    record {
      cmd_id = from_bytes (slice 4 4 raw);
      response_code = from_bytes (slice 16 2 raw);
      message_class = message_class;
      header_channel_id = from_bytes (slice 12 1 raw);
      stream_type = from_bytes (slice 13 1 raw);
      msg_num = from_bytes (slice 14 2 raw);
      body_length = body_length;
      payload_offset =
          min (if nat_eq (header_length message_class) 24 then from_bytes (slice 20 4 raw) else 0)
            body_length;
      header = take (header_length message_class) raw;
      body = slice (header_length message_class) body_length raw;
    }

abbrev pub message_length : RawLiveFrame → ℕ
message_length frame = header_length frame.message_class + frame.body_length

-- The conditions on a message once the live stream has the number `live_msg_num`.
unfoldable pub is_live : ℕ → Bytes → Bool
is_live live_msg_num raw =
    let cmd_id = from_bytes (slice 4 4 raw) in
    not (ltb (length raw) 20)
    && (nat_eq cmd_id live_start_cmd_id || nat_eq cmd_id live_stop_cmd_id)
    && not
        (nat_eq cmd_id live_start_cmd_id && not (nat_eq (from_bytes (slice 14 2 raw)) live_msg_num))
    && not (ltb (length raw) (message_length (read_frame raw)))

unfoldable pub live_frame : Option ℕ → Bytes → Option RawLiveFrame
live_frame none raw = none
live_frame (some live_msg_num) raw =
    if is_live live_msg_num raw then some (read_frame raw) else none

pub data Future : Type 0 where
  pending : Future
  resolved : RawLiveFrame → Future
  cancelled : Future
  failed : Future

-- `_LiveStreamProtocol`: `received` is `_data`.
pub record Protocol : Type 0 where
  pub live_msg_num : Option ℕ
  pub has_observer : Bool
  pub start_future : Option Future
  pub stop_future : Option Future
  pub received : Bytes

unfoldable pub arm_live : ℕ → Protocol → Protocol
arm_live start_msg_num protocol = record {
  live_msg_num = some start_msg_num;
  has_observer = true;
  start_future = some pending;
  stop_future = some pending;
  received = protocol.received;
}

-- `future.cancel()` unless it is done. What happens to the future is the second of the pair that
-- `clear_live` returns, since the protocol forgets the futures.
unfoldable pub cancel : Option Future → Option Future
cancel (some pending) = some cancelled
cancel future = future

unfoldable pub clear_live : Protocol → Protocol × Option Future × Option Future
clear_live protocol = (
  record {
    live_msg_num = none;
    has_observer = false;
    start_future = none;
    stop_future = none;
    received = protocol.received;
  },
  cancel protocol.start_future,
  cancel protocol.stop_future,
)

unfoldable pub fail : Option Future → Option Future
fail (some pending) = some failed
fail future = future

unfoldable pub connection_lost : Protocol → Protocol
connection_lost protocol = record {
  live_msg_num = protocol.live_msg_num;
  has_observer = protocol.has_observer;
  start_future = fail protocol.start_future;
  stop_future = fail protocol.stop_future;
  received = protocol.received;
}

-- `future.set_result(frame)` unless it is done
unfoldable pub resolve : RawLiveFrame → Option Future → Option Future
resolve frame (some pending) = some (resolved frame)
resolve frame future = future

-- One frame: the future of its command, and the bytes behind it.
unfoldable pub take_frame : RawLiveFrame → Protocol → Protocol
take_frame frame protocol =
    let is_start = nat_eq frame.cmd_id live_start_cmd_id in
    record {
      live_msg_num = protocol.live_msg_num;
      has_observer = protocol.has_observer;
      start_future =
          if is_start then resolve frame protocol.start_future else protocol.start_future;
      stop_future = if is_start then protocol.stop_future else resolve frame protocol.stop_future;
      received = drop (message_length frame) protocol.received;
    }

-- How `parse_bc_data` ends: `handed_over` if the base class's method got the bytes that are left.
pub record Outcome : Type 0 where
  pub observed : List RawLiveFrame
  pub protocol : Protocol
  pub handed_over : Bool

abbrev pub observing : RawLiveFrame → Protocol → Option Outcome → Option Outcome
observing frame protocol none = none
observing frame protocol (some outcome) = some (record {
  observed = if protocol.has_observer then frame ∷ outcome.observed else outcome.observed;
  protocol = outcome.protocol;
  handed_over = outcome.handed_over;
})

abbrev pub stop_at : Protocol → Bool → Option Outcome
stop_at protocol handed_over =
    some (record { observed = []; protocol = protocol; handed_over = handed_over })

abbrev is_empty : Bytes → Bool
is_empty [] = true
is_empty (x ∷ xs) = false

-- One turn on the frame that was read, with the turns that follow as `next`.
unfoldable pub frame_turn :
    Protocol → (Protocol → Option Outcome) → Option RawLiveFrame → Option Outcome
frame_turn protocol next none = stop_at protocol true
frame_turn protocol next (some frame) =
    let after = take_frame frame protocol in
    if ltb (length protocol.received) (message_length frame)
    then stop_at protocol false
    else observing frame protocol
        (if is_empty after.received then stop_at after false else next after)

-- The loop of `parse_bc_data`; `none` if the fuel runs out.
unfoldable pub frame_loop : ℕ → Protocol → Option Outcome
frame_loop zero protocol = none
frame_loop (suc fuel) protocol =
    frame_turn protocol (frame_loop fuel) (live_frame protocol.live_msg_num protocol.received)

-- A frame takes at least twenty bytes, so this is enough.
abbrev pub parse_bc_data : Protocol → Option Outcome
parse_bc_data protocol = frame_loop (suc (length protocol.received)) protocol
