-- ===== src/Stream/Buffer.antt =====
-- What `_parse_rolling_bcmedia` (live_stream.py) does with the packets it finds, its counters and
-- its sinks, and the rolling buffer of `observe_live_frame`.
use Prim.Native.String.{String}
use ha_reolink_battery.Base.{
  ℕ, ◌+◌, ◌-◌, Bool, List, [], ◌∷◌, ◌++◌, Option, none, some, length, drop, ltb, if◌then◌else◌,
  ◌==◌,
}
use ha_reolink_battery.Wire.{Bytes}
use ha_reolink_battery.Stream.{
  Packet, info, h264, h265, audio, Parsed, parse_packets, max_rolling_buffer_bytes,
}

-- What the sinks were called with.
pub data Delivery : Type 0 where
  video_frame : Bytes → String → Delivery
  audio_frame : Bytes → String → Delivery

pub record Sinks : Type 0 where
  pub has_h264 : Bool
  pub has_audio : Bool

-- The trace's two counters and the calls of the sinks.
pub record Account : Type 0 where
  pub h264_frames : ℕ
  pub aac_packets : ℕ
  pub delivered : List Delivery

deliver : Bool → Delivery → List Delivery → List Delivery
deliver has_sink delivery delivered = if has_sink then delivered ++ delivery ∷ [] else delivered

unfoldable pub enter : Sinks → Packet → Account → Account
unfolding deliver
enter sinks info account = account
enter sinks (h264 payload kind) account = record {
  h264_frames = account.h264_frames + 1;
  aac_packets = account.aac_packets;
  delivered = deliver sinks.has_h264 (video_frame payload kind) account.delivered;
}
enter sinks h265 account = account
enter sinks (audio payload name) account = record {
  h264_frames = account.h264_frames;
  aac_packets = account.aac_packets + (if name == "aac" then 1 else 0);
  delivered = deliver sinks.has_audio (audio_frame payload name) account.delivered;
}

unfoldable pub enter_all : Sinks → List Packet → Account → Account
enter_all sinks [] account = account
enter_all sinks (packet ∷ packets) account = enter_all sinks packets (enter sinks packet account)

-- The parser's arguments that it changes.
pub record Rolling : Type 0 where
  pub media_buffer : Bytes
  pub account : Account

-- The effects of a call that parsed these packets; the number of them is what it returns.
abbrev pub settle : Sinks → Account → Option Parsed → Option (Rolling × ℕ)
settle sinks account none = none
settle sinks account (some (packets, rest)) =
    some (record { media_buffer = rest; account = enter_all sinks packets account }, length packets)

abbrev pub parse_rolling_bcmedia : Sinks → Rolling → Option (Rolling × ℕ)
parse_rolling_bcmedia sinks rolling =
    settle sinks rolling.account (parse_packets rolling.media_buffer)

-- The end of `observe_live_frame`: the chunk enters the buffer, which keeps its last 8 MiB.
abbrev pub capped : Bytes → Bytes
capped buffer =
    if ltb max_rolling_buffer_bytes (length buffer)
    then drop (length buffer - max_rolling_buffer_bytes) buffer
    else buffer

abbrev pub rolling_only : Option (Rolling × ℕ) → Option Rolling
rolling_only none = none
rolling_only (some (rolling, parsed)) = some rolling

unfoldable pub extend_media : Sinks → Rolling → Bytes → Option Rolling
extend_media sinks rolling chunk = rolling_only (
    parse_rolling_bcmedia sinks
      (record rolling { media_buffer = capped (rolling.media_buffer ++ chunk) }))
