-- ===== src/Stream/Progress.antt =====
-- The loop of the media parser ends: a turn that goes on shortens the buffer, and a turn that
-- waits keeps less than one packet.
use ha_reolink_battery.Base.{
  ℕ, ◌+◌, ◌≤◌, ◌<◌, ◌≡◌, refl, sym, ap, ◌∙◌, subst, ◌⊎◌, inl, inr, Bool, true, false, not, [], ◌∷◌,
  some, arith, length, length-drop, take, length-take_last, drop, Bool-cases, Option-cases, ltb,
  nat_eq, if◌then◌else◌,
}
use ha_reolink_battery.Wire.{Bytes, slice, from_bytes}
use ha_reolink_battery.Stream.{
  Packet, Turn, halt, skip, took, aligned_turn, dispatch, turn, info_turn, video_turn, audio_turn,
  sized_video_turn, sized_audio_turn, video_packet, video_packet_size, refuses_video, refuses_audio,
  info, audio, codec_name, padding8, one_of, info_magics, video_magics, audio_magics, h264_codec,
  h265_codec, max_media_packet_bytes, max_additional_header_bytes,
}
use ha_reolink_battery.Stream.Scan.{at_magic, seek, seek_turn, turn-seek}

-- No packet that the parser waits for is longer.
abbrev pub longest_packet : ℕ
longest_packet = max_media_packet_bytes + max_additional_header_bytes + 32

-- A turn on the aligned buffer `a`.
abbrev pub Advances : Bytes → Turn → Type 0
Advances a (halt rest) = (rest ≡ a) × (length a < longest_packet)
Advances a (skip rest) = length rest < length a
Advances a (took packet rest) = length rest < length a

Advances-if :
    (t : Bool) (a : Bytes) (x y : Turn)
    → (t ≡ true → Advances a x)
    → (t ≡ false → Advances a y)
    → Advances a (if t then x else y)
Advances-if true a x y p q = p refl
Advances-if false a x y p q = q refl

Advances-skip : (a : Bytes) → 1 ≤ length a → Advances a (skip (drop 1 a))
Advances-skip a h = omega (arith, h, length-drop 1 a)

Advances-took :
    (packet : Packet) (n : ℕ) (a : Bytes)
    → 1 ≤ n
    → n ≤ length a
    → Advances a (took packet (drop n a))
Advances-took packet n a p h = omega (arith, p, h, length-drop n a)

info_turn-Advances : (a : Bytes) → 1 ≤ length a → Advances a (info_turn a)
unfolding info_turn
info_turn-Advances a h =
    Advances-if (ltb (length a) 32) a _ _ (λ short. (refl, ground (arith, short)))
      λ long.
        Advances-if (not (nat_eq (from_bytes (slice 4 4 a)) 32)) a _ _ (λ _. Advances-skip a h)
          λ _. Advances-took info 32 a (omega arith) (ground (arith, long))

sized_video_turn-Advances :
    (magic codec : Bytes) (payload_size additional : ℕ) (a : Bytes)
    → 1 ≤ length a
    → Advances a (sized_video_turn magic codec payload_size additional a)
unfolding sized_video_turn
sized_video_turn-Advances magic codec payload_size additional a h =
    Advances-if (refuses_video payload_size additional) a _ _ (λ _. Advances-skip a h)
      λ _.
        Advances-if (ltb longest_packet (video_packet_size payload_size additional)) a _ _
          (λ _. Advances-skip a h)
          λ fits.
            Advances-if (ltb (length a) (video_packet_size payload_size additional)) a _ _
              (λ short. (refl, ground (arith, short, fits)))
              λ long.
                Advances-took (video_packet magic codec payload_size additional a)
                  (video_packet_size payload_size additional) a (omega arith) (ground (arith, long))

video_turn-Advances : (magic a : Bytes) → 1 ≤ length a → Advances a (video_turn magic a)
unfolding video_turn
video_turn-Advances magic a h =
    Advances-if (ltb (length a) 24) a _ _ (λ short. (refl, ground (arith, short)))
      λ _.
        Advances-if (not (one_of (slice 4 4 a) (h264_codec ∷ h265_codec ∷ []))) a _ _
          (λ _. Advances-skip a h)
          λ _.
            sized_video_turn-Advances magic (slice 4 4 a) (from_bytes (slice 8 4 a))
              (from_bytes (slice 12 4 a)) a h

padding8_small : (n : ℕ) → padding8 n ≤ 7
unfolding padding8
padding8_small n = ground arith

sized_audio_turn-Advances :
    (magic : Bytes) (payload_size duplicate_size : ℕ) (a : Bytes)
    → 1 ≤ length a
    → Advances a (sized_audio_turn magic payload_size duplicate_size a)
unfolding sized_audio_turn
sized_audio_turn-Advances magic payload_size duplicate_size a h =
    Advances-if (refuses_audio payload_size duplicate_size) a _ _ (λ _. Advances-skip a h)
      λ fits.
        Advances-if (ltb (length a) (8 + payload_size + padding8 payload_size)) a _ _
          (λ short. (refl, ground (arith, short, fits, padding8_small payload_size)))
          λ long.
            Advances-took (audio (slice 8 payload_size a) (codec_name magic))
              (8 + payload_size + padding8 payload_size) a (omega arith) (ground (arith, long))

audio_turn-Advances : (magic a : Bytes) → 1 ≤ length a → Advances a (audio_turn magic a)
unfolding audio_turn
audio_turn-Advances magic a h =
    Advances-if (ltb (length a) 8) a _ _ (λ short. (refl, ground (arith, short)))
      λ _. sized_audio_turn-Advances magic (from_bytes (slice 4 2 a)) (from_bytes (slice 6 2 a)) a h

dispatch-Advances : (magic a : Bytes) → 1 ≤ length a → Advances a (dispatch magic a)
unfolding dispatch
dispatch-Advances magic a h =
    Advances-if (one_of magic info_magics) a _ _ (λ _. info_turn-Advances a h)
      λ _.
        Advances-if (one_of magic video_magics) a _ _ (λ _. video_turn-Advances magic a h)
          λ _.
            Advances-if (one_of magic audio_magics) a _ _ (λ _. audio_turn-Advances magic a h)
              λ _. Advances-skip a h

pub aligned_turn-Advances : (a : Bytes) → Advances a (aligned_turn a)
unfolding aligned_turn
aligned_turn-Advances a =
    Advances-if (ltb (length a) 4) a _ _ (λ short. (refl, ground (arith, short)))
      λ long. dispatch-Advances (take 4 a) a (ground (arith, long))

length-seek : (a s : Bytes) → seek a ≡ some s → length s ≤ length a
unfolding seek
length-seek [] s h = cc h
length-seek (x ∷ a) s h = elim (Bool-cases (at_magic (x ∷ a))) [
  | inl here ↦ let e : x ∷ a ≡ s = ground (arith, h, here) in omega (arith, ap length e)
  | inr later ↦ omega (arith, length-seek a s (ground (arith, h, later)))
]

-- A turn on any buffer `a`.
abbrev pub Shortens : Bytes → Turn → Type 0
Shortens a (halt rest) = (length rest ≤ length a) × (length rest < longest_packet)
Shortens a (skip rest) = length rest < length a
Shortens a (took packet rest) = length rest < length a

Shortens-Advances : (a s : Bytes) (t : Turn) → length s ≤ length a → Advances s t → Shortens a t
Shortens-Advances a s (halt rest) h v = omega (arith, h, ap length v.0, v.1)
Shortens-Advances a s (skip rest) h v = omega (arith, h, v)
Shortens-Advances a s (took packet rest) h v = omega (arith, h, v)

pub turn-Shortens : (a : Bytes) → Shortens a (turn a)
unfolding seek_turn
turn-Shortens a = elim (Option-cases (seek a)) [
  | inl h ↦
      subst (Shortens a) (sym (turn-seek a ∙ ap (seek_turn a) h))
        (omega (arith, length-take_last 3 a))
  | inr (s, h) ↦
      subst (Shortens a) (sym (turn-seek a ∙ ap (seek_turn a) h))
        (Shortens-Advances a s (aligned_turn s) (length-seek a s h) (aligned_turn-Advances s))
]

pub Turn-cases :
    (t : Turn)
    → ((r : Bytes) × (t ≡ halt r))
      ⊎ ((r : Bytes) × (t ≡ skip r))
      ⊎ ((p : Packet) × (r : Bytes) × (t ≡ took p r))
Turn-cases (halt r) = inl (r, refl)
Turn-cases (skip r) = inr (inl (r, refl))
Turn-cases (took p r) = inr (inr (p, r, refl))
