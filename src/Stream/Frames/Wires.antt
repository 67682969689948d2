-- ===== src/Stream/Frames/Wires.antt =====
-- A preview request that the client builds, read by the reader of live messages.
use ha_reolink_battery.Base.{
  ℕ, ◌+◌, ◌%◌, ◌^◌, ◌<◌, ◌≡◌, refl, min, true, false, ◌&&◌, ◌||◌, ◌++◌, none, some, arith, length,
  length-append, ltb, nat_eq, if◌then◌else◌,
}
use ha_reolink_battery.Wire.{Bytes, slice, from_bytes, take_exact, from_bytes-to_bytes}
use ha_reolink_battery.Stream.Frames.{
  RawLiveFrame, header_length, read_frame, is_live, live_frame, live_start_cmd_id, live_stop_cmd_id,
  live_message_class, live_channel_id, StreamKind, main_stream, sub_stream, stream_layout,
  preview_xml, next_live_msg_num, wire_header, build_preview_wire,
}

-- The body of a request.
abbrev pub request_body : (Bytes → Bytes) → ℕ → StreamKind → Bytes
request_body aes_encrypt cmd_id stream = aes_encrypt (
    preview_xml (stream_layout stream).1
      (if nat_eq cmd_id live_start_cmd_id then some (stream_layout stream).2 else none))

-- A request as its reader sees it.
abbrev pub request_frame : (cmd_id stream_code msg_num : ℕ) → Bytes → RawLiveFrame
request_frame cmd_id stream_code msg_num body = record {
  cmd_id = cmd_id;
  response_code = 0;
  message_class = live_message_class;
  header_channel_id = live_channel_id;
  stream_type = stream_code;
  msg_num = msg_num;
  body_length = length body;
  payload_offset = 0;
  header = wire_header cmd_id (length body) stream_code msg_num;
  body = body;
}

header_length_live : header_length live_message_class ≡ 24
unfolding header_length
header_length_live = refl

module _ (cmd_id stream_code msg_num : ℕ) (body rest : Bytes) (is_command : cmd_id < 256 ^ 4)
    (is_code : stream_code < 256) (is_number : msg_num < 256 ^ 2)
    (fits : length body < 256 ^ 4) where
  abbrev message : Bytes
  message = wire_header cmd_id (length body) stream_code msg_num ++ (body ++ rest)

  cmd_id_read : from_bytes (slice 4 4 message) ≡ cmd_id
  cmd_id_read = from_bytes-to_bytes 4 cmd_id is_command

  body_length_read : from_bytes (slice 8 4 message) ≡ length body
  body_length_read = from_bytes-to_bytes 4 (length body) fits

  stream_type_read : from_bytes (slice 13 1 message) ≡ stream_code
  stream_type_read = from_bytes-to_bytes 1 stream_code is_code

  msg_num_read : from_bytes (slice 14 2 message) ≡ msg_num
  msg_num_read = from_bytes-to_bytes 2 msg_num is_number

  class_read : from_bytes (slice 18 2 message) ≡ live_message_class
  class_read = refl

  body_read : slice 24 (length body) message ≡ body
  body_read = take_exact body rest

  read_frame-message : read_frame message ≡ request_frame cmd_id stream_code msg_num body
  unfolding header_length
  read_frame-message =
      let no_offset : min 0 (length body) ≡ 0 = omega arith in
      rw (cmd_id_read, body_length_read, stream_type_read, msg_num_read, body_read, no_offset) refl

  is_live-message :
      (nat_eq cmd_id live_start_cmd_id || nat_eq cmd_id live_stop_cmd_id) ≡ true
      → is_live msg_num message ≡ true
  unfolding is_live header_length
  is_live-message known =
      let long : ltb (length message) 20 ≡ false = ground (arith, length-append body rest) in
      let whole : ltb (length message) (24 + length body) ≡ false =
        ground (arith, length-append body rest) in
      let same : nat_eq msg_num msg_num ≡ true = ground arith in
      rw (cmd_id_read, msg_num_read, body_length_read, same) (ground (arith, long, whole, known))

  live_frame-message :
      (nat_eq cmd_id live_start_cmd_id || nat_eq cmd_id live_stop_cmd_id) ≡ true
      → live_frame (some msg_num) message ≡ some (request_frame cmd_id stream_code msg_num body)
  unfolding live_frame
  live_frame-message known = rw (is_live-message known, read_frame-message) refl

next_live_msg_num_small : (mess_id : ℕ) → next_live_msg_num mess_id < 256 ^ 2
unfolding next_live_msg_num
next_live_msg_num_small mess_id = omega arith

stream_code_small : (stream : StreamKind) → (stream_layout stream).0 < 256
unfolding stream_layout
stream_code_small main_stream = omega arith
stream_code_small sub_stream = omega arith

-- A start or stop request whose encrypted body is shorter than 4 GiB is built, with the number
-- after the last one modulo 65536, and its bytes, whatever follows them, are read as one message
-- with that command, number, stream, class and body.
pub live_frame-build_preview_wire :
    (aes_encrypt : Bytes → Bytes) (mess_id cmd_id : ℕ) (stream : StreamKind) (rest : Bytes)
    → (nat_eq cmd_id live_start_cmd_id || nat_eq cmd_id live_stop_cmd_id) ≡ true
    → length (request_body aes_encrypt cmd_id stream) < 256 ^ 4
    → (wire : Bytes) × (build_preview_wire aes_encrypt mess_id cmd_id stream
        ≡ (some wire, (mess_id + 1) % 2 ^ 16))
      × (live_frame (some ((mess_id + 1) % 2 ^ 16)) (wire ++ rest)
          ≡ some (
              request_frame cmd_id
                (stream_layout stream).0
                ((mess_id + 1) % 2 ^ 16)
                (request_body aes_encrypt cmd_id stream)))
unfolding build_preview_wire next_live_msg_num
live_frame-build_preview_wire aes_encrypt mess_id cmd_id stream rest known fits =
    let small : cmd_id < 256 ^ 4 = ground (arith, known) in
    let size : (ltb cmd_id (256 ^ 4)
          && ltb (length (request_body aes_encrypt cmd_id stream)) (256 ^ 4))
        ≡ true =
      ground (arith, small, fits) in
    (
      wire_header cmd_id (length (request_body aes_encrypt cmd_id stream)) (stream_layout stream).0
            ((mess_id + 1) % 2 ^ 16)
          ++ request_body aes_encrypt cmd_id stream,
      rw size refl,
      live_frame-message cmd_id (stream_layout stream).0 ((mess_id + 1) % 2 ^ 16)
          (request_body aes_encrypt cmd_id stream) rest small (stream_code_small stream)
          (omega arith) fits known,
    )
