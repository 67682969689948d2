-- ===== src/Stream/Sender.antt =====
-- The other side of the media parser: packets as the camera lays them out, one after the other,
-- and the proof that the parser gives them back.
pub mod Audio
pub mod Video
pub mod Received
use ha_reolink_battery.Base.{
  ℕ, zero, suc, ◌+◌, ◌-◌, ◌*◌, ◌/◌, ◌%◌, ◌^◌, ◌≤◌, ◌<◌, ◌≡◌, refl, sym, ap, ◌∙◌, subst, inl, inr,
  Bool, true, false, not, ◌&&◌, List, [], ◌∷◌, ◌++◌, map, Option, none, some, arith, length,
  length-append, take, drop, any, All, Bool-cases, ltb, nat_eq, if◌then◌else◌,
}
use ha_reolink_battery.Wire.{
  Bytes, bytes_eq, bytes_eq_sound, slice, starts_with, from_bytes, to_bytes, take_exact, drop_exact,
  take-append, length-to_bytes, from_bytes-to_bytes,
}
use ha_reolink_battery.Stream.{
  Packet, info, h264, h265, audio, Turn, halt, skip, took, turn, aligned_turn, dispatch, one_of,
  info_magics, video_magics, audio_magics, info_turn, video_turn, sized_video_turn, audio_turn,
  sized_audio_turn, padding8, frame_type, codec_name, h264_codec, h265_codec, video_packet,
  video_packet_size, max_media_packet_bytes, max_additional_header_bytes, loop, parse_packets,
  prepend, refuses_video, refuses_audio,
}
use ha_reolink_battery.Stream.Scan.{at_magic, at_magic-append, seek, seek_turn, turn-seek}

-- What the camera sends: each with its magic, a video frame with its header's last eight bytes and
-- the additional header.
pub data Sent : Type 0 where
  sent_info : Bytes → Bytes → Sent
  sent_video : Bytes → (is_h264 : Bool) (stamp additional payload : Bytes) → Sent
  sent_audio : Bytes → Bytes → Sent

abbrev pub zeros : ℕ → Bytes
zeros zero = []
zeros (suc n) = 0 ∷ zeros n

abbrev pub codec_of : Bool → Bytes
codec_of is_h264 = if is_h264 then h264_codec else h265_codec

-- The packet's bytes, with what follows it.
abbrev pub send : Sent → Bytes → Bytes
send (sent_info magic content) rest = magic ++ (to_bytes 4 32 ++ (content ++ rest))
send (sent_video magic is_h264 stamp additional payload) rest =
    magic
    ++ (codec_of is_h264
        ++ (to_bytes 4 (length payload)
            ++ (to_bytes 4 (length additional)
                ++ (stamp
                    ++ (additional ++ (payload ++ (zeros (padding8 (length payload)) ++ rest)))))))
send (sent_audio magic payload) rest =
    magic
    ++ (to_bytes 2 (length payload)
        ++ (to_bytes 2 (length payload)
            ++ (payload ++ (zeros (padding8 (length payload)) ++ rest))))

abbrev pub send_all : List Sent → Bytes
send_all [] = []
send_all (s ∷ ss) = send s (send_all ss)

-- The packet as the client knows it.
abbrev pub received : Sent → Packet
received (sent_info magic content) = info
received (sent_video magic is_h264 stamp additional payload) =
    if is_h264 then h264 payload (frame_type magic) else h265
received (sent_audio magic payload) = audio payload (codec_name magic)

-- The magic belongs to the kind, and the parts have the sizes that the format gives them.
abbrev pub IsSendable : Sent → Type 0
IsSendable (sent_info magic content) = (one_of magic info_magics ≡ true) × (length content ≡ 24)
IsSendable (sent_video magic is_h264 stamp additional payload) =
    (one_of magic video_magics ≡ true)
    × (length stamp ≡ 8)
    × (length additional ≤ max_additional_header_bytes)
    × (0 < length payload)
    × (length payload ≤ max_media_packet_bytes)
IsSendable (sent_audio magic payload) =
    (one_of magic audio_magics ≡ true) × (0 < length payload) × (length payload < 65536)

abbrev pub all_true : (Bytes → Bool) → List Bytes → Bool
all_true q [] = true
all_true q (m ∷ ms) = q m && all_true q ms

-- A test that holds of every listed magic holds of one of them.
pub one_of_all :
    (q : Bytes → Bool) (magic : Bytes) (magics : List Bytes)
    → one_of magic magics ≡ true
    → all_true q magics ≡ true
    → q magic ≡ true
unfolding one_of
one_of_all q magic [] h w = absurd (ground (arith, h))
one_of_all q magic (m ∷ magics) h w = elim (Bool-cases (bytes_eq magic m)) [
  | inl here ↦ subst (λ t. q t ≡ true) (sym (bytes_eq_sound magic m here)) (ground (arith, w))
  | inr later ↦ one_of_all q magic magics (ground (arith, h, later)) (ground (arith, w))
]

-- What is asked of a magic at the head of a buffer.
abbrev pub begins_packet : Bytes → Bool
begins_packet m = nat_eq (length m) 4 && at_magic m

pub aligned_at_magic :
    (magic body : Bytes)
    → begins_packet magic ≡ true
    → turn (magic ++ body) ≡ dispatch magic (magic ++ body)
unfolding seek seek_turn aligned_turn
aligned_at_magic [] body h = absurd (ground (arith, h))
aligned_at_magic (x ∷ m) body h =
    let four : length (x ∷ m) ≡ 4 = ground (arith, h) in
    let here : at_magic (x ∷ m ++ body) ≡ true =
      at_magic-append (x ∷ m) body (omega (arith, four)) ∙ (ground (arith, h)) in
    let long : ltb (length (x ∷ m ++ body)) 4 ≡ false =
      ground (arith, four, length-append (x ∷ m) body) in
    let head : take 4 (x ∷ m ++ body) ≡ x ∷ m =
      ap (λ n. take n (x ∷ m ++ body)) (sym four) ∙ take_exact (x ∷ m) body in
    turn-seek (x ∷ m ++ body) ∙ rw (here, long, head) refl

pub slice_skip :
    (p x : Bytes) (m n count : ℕ) → length p + m ≡ n → slice n count (p ++ x) ≡ slice m count x
slice_skip [] x m n count h = ap (λ k. slice k count x) (omega (arith, h))
slice_skip (y ∷ p) x m zero count h = absurd (omega (arith, h))
slice_skip (y ∷ p) x m (suc n) count h = slice_skip p x m n count (omega (arith, h))

pub drop_skip : (p x : Bytes) (m n : ℕ) → length p + m ≡ n → drop n (p ++ x) ≡ drop m x
drop_skip [] x m n h = ap (λ k. drop k x) (omega (arith, h))
drop_skip (y ∷ p) x m zero h = absurd (omega (arith, h))
drop_skip (y ∷ p) x m (suc n) h = drop_skip p x m n (omega (arith, h))

pub slice_here : (p x : Bytes) (n : ℕ) → length p ≡ n → slice 0 n (p ++ x) ≡ p
slice_here p x n h = ap (λ k. take k (p ++ x)) (sym h) ∙ take_exact p x

pub length-zeros : (n : ℕ) → length (zeros n) ≡ n
length-zeros zero = refl
length-zeros (suc n) = omega (arith, length-zeros n)

pub number_here :
    (count value : ℕ) (x : Bytes)
    → value < 256 ^ count
    → from_bytes (slice 0 count (to_bytes count value ++ x)) ≡ value
number_here count value x h =
    ap from_bytes (slice_here (to_bytes count value) x count (length-to_bytes count value))
    ∙ from_bytes-to_bytes count value h
