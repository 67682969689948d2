-- ===== src/Stream.antt =====
-- The media parser of live_stream.py: `_parse_rolling_bcmedia` on the rolling buffer of a live
-- session. One turn of its loop is `turn`: `halt` is a `break`, `skip` and `took` are the two
-- kinds of `continue`, each with the buffer it leaves. The counters and the sinks never change
-- what is parsed, so Buffer has them take the packets in their order.
pub mod Scan
pub mod Resume
pub mod Progress
pub mod Chunks
pub mod Buffer
pub mod Feed
pub mod Tests
pub mod Sender
pub mod Frames
pub mod Ack
pub mod Beats
pub mod Session
pub mod Chunk
use Prim.Native.String.{String}
use ha_reolink_battery.Base.{
  ℕ, zero, suc, ◌+◌, ◌-◌, ◌*◌, ◌%◌, ◌^◌, Bool, not, ◌||◌, List, [], ◌∷◌, ◌++◌, Option, none, some,
  length, take, take_last, drop, any, nat_eq, ltb, if◌then◌else◌, ◌==◌,
}
use ha_reolink_battery.Wire.{Bytes, bytes_eq, slice, from_bytes, find}

abbrev pub quad : ℕ → ℕ → ℕ → ℕ → Bytes
quad a b c d = a ∷ b ∷ c ∷ d ∷ []

abbrev pub info_magics : List Bytes
info_magics = quad b'1' b'0' b'0' b'1' ∷ quad b'1' b'0' b'0' b'2' ∷ []

-- The two frame types of each channel.
abbrev pub magics_of : List ℕ → List Bytes
magics_of [] = []
magics_of (channel ∷ channels) =
    quad (b'0' + channel) b'0' b'd' b'c' ∷ quad (b'0' + channel) b'1' b'd' b'c' ∷ magics_of channels

abbrev pub video_magics : List Bytes
video_magics = magics_of (0 ∷ 1 ∷ 2 ∷ 3 ∷ 4 ∷ 5 ∷ 6 ∷ 7 ∷ 8 ∷ 9 ∷ [])

abbrev pub aac_magic : Bytes
aac_magic = quad b'0' b'5' b'w' b'b'

abbrev pub audio_magics : List Bytes
audio_magics = aac_magic ∷ quad b'0' b'1' b'w' b'b' ∷ []

abbrev pub all_magics : List Bytes
all_magics = info_magics ++ video_magics ++ audio_magics

abbrev pub h264_codec : Bytes
h264_codec = quad b'H' b'2' b'6' b'4'

abbrev pub h265_codec : Bytes
h265_codec = quad b'H' b'2' b'6' b'5'

abbrev pub max_media_packet_bytes : ℕ
max_media_packet_bytes = 4 * 1024 * 1024

abbrev pub max_additional_header_bytes : ℕ
max_additional_header_bytes = 64 * 1024

abbrev pub max_rolling_buffer_bytes : ℕ
max_rolling_buffer_bytes = 8 * 1024 * 1024

-- `magic in magics`
unfoldable pub one_of : Bytes → List Bytes → Bool
one_of magic magics = any (bytes_eq magic) magics

unfoldable pub padding8 : ℕ → ℕ
padding8 payload_size = if nat_eq (payload_size % 8) 0 then 0 else 8 - payload_size % 8

unfoldable pub least : Option ℕ → Option ℕ → Option ℕ
least none b = b
least (some a) none = some a
least (some a) (some b) = some (if ltb b a then b else a)

-- `min` of the offsets at which the magics are found
unfoldable pub least_offset : List Bytes → Bytes → Option ℕ
unfolding least
least_offset [] buffer = none
least_offset (magic ∷ magics) buffer = least (find magic buffer) (least_offset magics buffer)

abbrev pub earliest_magic_offset : Bytes → Option ℕ
earliest_magic_offset = least_offset all_magics

pub data Packet : Type 0 where
  info : Packet
  h264 : Bytes → String → Packet
  h265 : Packet
  audio : Bytes → String → Packet

pub data Turn : Type 0 where
  halt : Bytes → Turn
  skip : Bytes → Turn
  took : Packet → Bytes → Turn

-- A buffer with an `info` magic at its start.
unfoldable pub info_turn : Bytes → Turn
info_turn buffer =
    if ltb (length buffer) 32
    then halt buffer
    else if not (nat_eq (from_bytes (slice 4 4 buffer)) 32)
    then skip (drop 1 buffer)
    else took info (drop 32 buffer)

-- `"iframe" if magic[1:2] == b"0" else "pframe"`
unfoldable pub frame_type : Bytes → String
frame_type magic = if bytes_eq (slice 1 1 magic) (b'0' ∷ []) then "iframe" else "pframe"

abbrev pub video_packet : Bytes → Bytes → ℕ → ℕ → Bytes → Packet
video_packet magic codec payload_size additional_header_size buffer =
    if bytes_eq codec h264_codec
    then h264 (slice (24 + additional_header_size) payload_size buffer) (frame_type magic)
    else h265

abbrev pub video_packet_size : ℕ → ℕ → ℕ
video_packet_size payload_size additional_header_size =
    24 + additional_header_size + payload_size + padding8 payload_size

abbrev pub refuses_video : ℕ → ℕ → Bool
refuses_video payload_size additional_header_size =
    nat_eq payload_size 0
    || ltb max_media_packet_bytes payload_size
    || ltb max_additional_header_bytes additional_header_size

-- The part of a video turn behind the reading of the two sizes.
unfoldable pub sized_video_turn : Bytes → Bytes → ℕ → ℕ → Bytes → Turn
sized_video_turn magic codec payload_size additional_header_size buffer =
    let packet_size = video_packet_size payload_size additional_header_size in
    if refuses_video payload_size additional_header_size
    then skip (drop 1 buffer)
    else if ltb (max_media_packet_bytes + max_additional_header_bytes + 32) packet_size
    then skip (drop 1 buffer)
    else if ltb (length buffer) packet_size
    then halt buffer
    else took (video_packet magic codec payload_size additional_header_size buffer)
        (drop packet_size buffer)

-- A buffer with a video magic at its start.
unfoldable pub video_turn : Bytes → Bytes → Turn
video_turn magic buffer =
    let codec = slice 4 4 buffer in
    if ltb (length buffer) 24
    then halt buffer
    else if not (one_of codec (h264_codec ∷ h265_codec ∷ []))
    then skip (drop 1 buffer)
    else sized_video_turn magic codec (from_bytes (slice 8 4 buffer))
        (from_bytes (slice 12 4 buffer)) buffer

abbrev pub refuses_audio : ℕ → ℕ → Bool
refuses_audio payload_size duplicate_size =
    nat_eq payload_size 0
    || not (nat_eq payload_size duplicate_size)
    || ltb max_media_packet_bytes payload_size

-- `"aac" if magic == b"05wb" else "adpcm"`
unfoldable pub codec_name : Bytes → String
codec_name magic = if bytes_eq magic aac_magic then "aac" else "adpcm"

unfoldable pub sized_audio_turn : Bytes → ℕ → ℕ → Bytes → Turn
sized_audio_turn magic payload_size duplicate_size buffer =
    let packet_size = 8 + payload_size + padding8 payload_size in
    if refuses_audio payload_size duplicate_size
    then skip (drop 1 buffer)
    else if ltb (length buffer) packet_size
    then halt buffer
    else took (audio (slice 8 payload_size buffer) (codec_name magic)) (drop packet_size buffer)

-- A buffer with an audio magic at its start.
unfoldable pub audio_turn : Bytes → Bytes → Turn
audio_turn magic buffer =
    if ltb (length buffer) 8
    then halt buffer
    else sized_audio_turn magic (from_bytes (slice 4 2 buffer)) (from_bytes (slice 6 2 buffer))
        buffer

-- The turn by the magic that the buffer starts with.
unfoldable pub dispatch : Bytes → Bytes → Turn
dispatch magic buffer =
    if one_of magic info_magics
    then info_turn buffer
    else if one_of magic video_magics
    then video_turn magic buffer
    else if one_of magic audio_magics
    then audio_turn magic buffer
    else skip (drop 1 buffer)

-- The buffer once the bytes before the magic are gone.
unfoldable pub aligned_turn : Bytes → Turn
aligned_turn buffer = if ltb (length buffer) 4 then halt buffer else dispatch (take 4 buffer) buffer

-- `none` where no magic is found: at most three bytes are kept, which may begin one.
unfoldable pub turn_at : Bytes → Option ℕ → Turn
turn_at buffer none = halt (if ltb 3 (length buffer) then take_last 3 buffer else buffer)
turn_at buffer (some offset) = aligned_turn (drop offset buffer)

-- One turn of `while buffer:`.
unfoldable pub turn : Bytes → Turn
turn [] = halt []
turn (x ∷ buffer) = turn_at (x ∷ buffer) (earliest_magic_offset (x ∷ buffer))

abbrev pub Parsed : Type 0
Parsed = List Packet × Bytes

abbrev pub prepend : Packet → Option Parsed → Option Parsed
prepend packet none = none
prepend packet (some (packets, rest)) = some (packet ∷ packets, rest)

-- What a turn does to the loop, with the turns that follow as `next`.
abbrev pub follow : Turn → (Bytes → Option Parsed) → Option Parsed
follow (halt rest) next = some ([], rest)
follow (skip rest) next = next rest
follow (took packet rest) next = prepend packet (next rest)

-- The packets in their order and the buffer that remains; `none` if the fuel runs out.
unfoldable pub loop : ℕ → Bytes → Option Parsed
loop zero buffer = none
loop (suc fuel) buffer = follow (turn buffer) (loop fuel)

-- A turn that goes on shortens the buffer, so this is enough.
abbrev pub parse_packets : Bytes → Option Parsed
parse_packets buffer = loop (suc (length buffer)) buffer
