-- ===== src/Stream/Tests.antt =====
-- live_stream.py: the theorems at a short stream of one video frame and one audio packet, and at a
-- small session.
use ha_reolink_battery.Base.{
  ◌≡◌, refl, sym, ap, ℕ, ◌+◌, ◌-◌, true, false, List, [], ◌∷◌, ◌++◌, none, some, arith, map, length,
  take, drop, All, pos,
}
use ha_reolink_battery.Wire.{Bytes, find}
use ha_reolink_battery.Stream.{
  parse_packets, quad, aac_magic, one_of, video_magics, audio_magics, loop, turn, turn_at, padding8,
  least_offset, aligned_turn, dispatch, video_turn,
}
use ha_reolink_battery.Stream.Buffer.{Sinks, Account}
use ha_reolink_battery.Stream.Chunks.{Ends, parse_packets-Ends, join, parse_packets-append}
use ha_reolink_battery.Stream.Feed.{IsShort, concat, read_at_once}
use ha_reolink_battery.Stream.Sender.{Sent, sent_video, sent_audio, send_all, received}
use ha_reolink_battery.Stream.Sender.Received.{parse_packets-send_all}
use ha_reolink_battery.Stream.Frames.{
  RawLiveFrame, Protocol, pending, parse_bc_data, live_frame, sub_stream, stream_layout,
  build_preview_wire, live_start_cmd_id,
}
use ha_reolink_battery.Stream.Frames.Cuts.{Cuts, parse_bc_data-Cuts}
use ha_reolink_battery.Stream.Frames.Wires.{
  request_body, request_frame, live_frame-build_preview_wire,
}
use ha_reolink_battery.Stream.Chunk.{
  Library, KeepsLength, media_chunk_from_frame, length-media_chunk_from_frame, observe_all,
  observed_chunks, observed_chunk, observe_all-read_at_once,
}
use ha_reolink_battery.Stream.Ack.{ack_payload, ack_payload-flagged, flagged, flags, waits, highest}
use ha_reolink_battery.Stream.Session.{Script, answer}
use ha_reolink_battery.Stream.Beats.{
  Act, Cipher, Connection, starts_heartbeat, starts_keepalive, keeps_alive, stops, act_all,
}
use ha_reolink_battery.Stream.Beats.Counted.{IsCounted, act_all-IsCounted}

abbrev frame_magic : Bytes
frame_magic = quad b'0' b'0' b'd' b'c'

abbrev stamp : Bytes
stamp = 1 ∷ 2 ∷ 3 ∷ 4 ∷ 5 ∷ 6 ∷ 7 ∷ 8 ∷ []

abbrev sent : List Sent
sent =
    sent_video frame_magic true stamp (9 ∷ []) (10 ∷ 11 ∷ 12 ∷ [])
    ∷ sent_audio aac_magic (13 ∷ 14 ∷ [])
    ∷ []

known_magics : (one_of frame_magic video_magics ≡ true) × (one_of aac_magic audio_magics ≡ true)
unfolding one_of
known_magics = (refl, refl)

parse_packets-send_all_example : parse_packets (send_all sent) ≡ some (map received sent, [])
parse_packets-send_all_example = parse_packets-send_all sent (
  (known_magics.0, refl, omega arith, omega arith, omega arith),
  ((known_magics.1, omega arith, omega arith), tt),
)

abbrev noise : Bytes
noise = 7 ∷ b'0' ∷ b'0' ∷ send_all sent

parse_packets-Ends_example : Ends (parse_packets noise)
parse_packets-Ends_example = parse_packets-Ends noise

-- The stream cut inside the header of the frame.
abbrev head : Bytes
head = take 10 (send_all sent)

abbrev tail : Bytes
tail = drop 10 (send_all sent)

head_waits : parse_packets head ≡ some ([], head)
unfolding loop turn turn_at least_offset find aligned_turn dispatch one_of video_turn
head_waits = refl

parse_packets-append_example : parse_packets (head ++ tail) ≡ some (join [] (map received sent, []))
parse_packets-append_example =
    parse_packets-append head tail head [] (map received sent, []) head_waits
      parse_packets-send_all_example

-- A cipher that leaves the bytes as they are.
abbrev plain : Library
plain = record { int_of = λ text. some (pos (length text)); decrypt = λ x header. some x }

plain-KeepsLength : KeepsLength plain
plain-KeepsLength x header y h = let same : x ≡ y = cc h in ap length (sym same)

abbrev media_frame : ℕ → Bytes → RawLiveFrame
media_frame offset body = record {
  cmd_id = live_start_cmd_id;
  response_code = 200;
  message_class = 0x6414;
  header_channel_id = 0;
  stream_type = 0;
  msg_num = 1;
  body_length = length body;
  payload_offset = offset;
  header = [];
  body = body;
}

length-media_chunk_from_frame_example :
    length (media_chunk_from_frame plain (media_frame 2 (1 ∷ 2 ∷ 3 ∷ []))) ≡ 1
length-media_chunk_from_frame_example =
    length-media_chunk_from_frame plain (media_frame 2 (1 ∷ 2 ∷ 3 ∷ [])) plain-KeepsLength

abbrev both_sinks : Sinks
both_sinks = record { has_h264 = true; has_audio = true }

abbrev no_account : Account
no_account = record { h264_frames = 0; aac_packets = 0; delivered = [] }

abbrev live_frames : List RawLiveFrame
live_frames = media_frame 0 head ∷ media_frame 0 [] ∷ media_frame 0 tail ∷ []

live_frames-IsShort : All IsShort (observed_chunks plain live_frames)
unfolding observed_chunk media_chunk_from_frame padding8
live_frames-IsShort = (omega arith, (omega arith, (omega arith, tt)))

observe_all-read_at_once_example :
    observe_all plain both_sinks (record { media_buffer = []; account = no_account }) live_frames
    ≡ read_at_once both_sinks no_account (concat (observed_chunks plain live_frames))
observe_all-read_at_once_example =
    observe_all-read_at_once plain both_sinks no_account live_frames live_frames-IsShort

-- A stop request of the sub stream, with a body of two bytes.
abbrev short_body : Bytes → Bytes
short_body x = 1 ∷ 2 ∷ []

live_frame-build_preview_wire_example :
    (wire : Bytes) × (build_preview_wire short_body 65535 4 sub_stream ≡ (some wire, 0))
    × (live_frame (some 0) (wire ++ 9 ∷ [])
        ≡ some
            (request_frame 4 (stream_layout sub_stream).0 0 (request_body short_body 4 sub_stream)))
live_frame-build_preview_wire_example =
    live_frame-build_preview_wire short_body 65535 4 sub_stream (9 ∷ []) refl (omega arith)

abbrev armed : Protocol
armed = record {
  live_msg_num = some 5;
  has_observer = true;
  start_future = some pending;
  stop_future = some pending;
  received =
      0xf0 ∷ 0xde ∷ 0xbc ∷ 0x0a ∷ 3 ∷ 0 ∷ 0 ∷ 0 ∷ 1 ∷ 0 ∷ 0 ∷ 0 ∷ 0 ∷ 0 ∷ 5 ∷ 0 ∷ 200 ∷ 0 ∷ 1 ∷ 1
      ∷ 77 ∷ 88 ∷ [];
}

parse_bc_data-Cuts_example : Cuts armed (parse_bc_data armed)
parse_bc_data-Cuts_example = parse_bc_data-Cuts armed refl

ack_payload-flagged_example :
    (length (ack_payload 4 (6 ∷ 9 ∷ [])) ≡ highest (6 ∷ 9 ∷ []) - 4)
    × ((i : ℕ) → flagged i (ack_payload 4 (6 ∷ 9 ∷ [])) ≡ waits (4 + 1 + i) (6 ∷ 9 ∷ []))
ack_payload-flagged_example = ack_payload-flagged 4 (6 ∷ 9 ∷ [])

ack_payload_run : ack_payload 4 (6 ∷ 9 ∷ []) ≡ 0 ∷ 1 ∷ 0 ∷ 0 ∷ 1 ∷ []
unfolding ack_payload flags waits highest
ack_payload_run = refl

-- A session that runs until its viewer leaves.
abbrev watched : Script
watched = record {
  find_interface = none;
  resolve_uid = none;
  validate_route = none;
  make_host = none;
  make_connection = none;
  connect = none;
  adopts = true;
  login = none;
  build_wires = none;
  is_live_protocol = true;
  start_keepalive = none;
  send_start = none;
  start_answer = answer 200;
  wait = none;
  open_after_wait = true;
  is_stop_set = true;
  send_stop = none;
  stop_answer = answer 200;
  logout = none;
  open_at_end = true;
  close = none;
}

abbrev no_cipher : Cipher
no_cipher = record { encrypt_udp = λ x n. x; calc_crc = λ x. [] }

abbrev connected : Connection
connected = record {
  is_live_protocol = true;
  has_transport = true;
  client_id = some 1;
  host_id = some 2;
  fresh_heartbeat_tid_enabled = false;
  handoff_transaction_id = some 3;
  heartbeat_task = false;
  media_keepalive_task = false;
  media_keepalive_msg_num = none;
  p2p_heartbeat_count = 0;
  media_keepalive_count = 0;
  heartbeats = [];
  keepalives = [];
}

abbrev signs : List Act
signs =
    starts_heartbeat 1
    ∷ starts_keepalive true true 2
    ∷ keeps_alive ((true, true, true, 3) ∷ (true, true, false, 4) ∷ [])
    ∷ stops
    ∷ []

act_all-IsCounted_example : IsCounted (act_all no_cipher signs connected)
act_all-IsCounted_example =
    act_all-IsCounted no_cipher signs connected
      (record { heartbeats_counted = refl; keepalives_counted = refl; alike = refl })
