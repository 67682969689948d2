-- ===== src/Stream/Sender/Video.antt =====
-- A video packet as the camera lays it out, read by the media parser.
use ha_reolink_battery.Base.{
  ℕ, ◌+◌, ◌^◌, ◌≤◌, ◌<◌, ◌≡◌, refl, ap, ◌∙◌, inl, inr, Bool, true, false, [], ◌∷◌, ◌++◌, arith,
  length, length-append, take, drop, Bool-cases, ltb,
}
use ha_reolink_battery.Wire.{Bytes, slice, from_bytes, to_bytes}
use ha_reolink_battery.Stream.{
  took, one_of, video_turn, sized_video_turn, padding8, h264_codec, h265_codec, video_packet,
  video_packet_size, max_media_packet_bytes, max_additional_header_bytes, refuses_video,
}
use ha_reolink_battery.Stream.Sender.{
  sent_video, zeros, codec_of, send, received, slice_skip, drop_skip, slice_here, length-zeros,
  number_here,
}

-- What stands behind the codec, behind the sizes and behind the additional header.
module _ (is_h264 : Bool) (stamp additional payload rest : Bytes) where
  abbrev padded_video_of : Bytes
  padded_video_of = payload ++ (zeros (padding8 (length payload)) ++ rest)

  abbrev behind_sizes_of : Bytes
  behind_sizes_of = stamp ++ (additional ++ padded_video_of)

  abbrev behind_codec_of : Bytes
  behind_codec_of =
      to_bytes 4 (length payload) ++ (to_bytes 4 (length additional) ++ behind_sizes_of)

  abbrev pub behind_codec : Bytes
  behind_codec = codec_of is_h264 ++ behind_codec_of

-- A video packet behind its magic `m`.
module _ (m : Bytes) (is_h264 : Bool) (stamp additional payload rest : Bytes) (four : length m ≡ 4)
    (eight : length stamp ≡ 8) where
  abbrev padded_video : Bytes
  padded_video = padded_video_of is_h264 stamp additional payload rest

  abbrev behind_sizes : Bytes
  behind_sizes = behind_sizes_of is_h264 stamp additional payload rest

  abbrev coded : Bytes
  coded = behind_codec_of is_h264 stamp additional payload rest

  abbrev video_bytes : Bytes
  video_bytes = send (sent_video m is_h264 stamp additional payload) rest

  length-codec_of : length (codec_of is_h264) ≡ 4
  length-codec_of = ground arith

  codec_here : slice 4 4 video_bytes ≡ codec_of is_h264
  codec_here =
      slice_skip m (codec_of is_h264 ++ coded) 0 4 4 (omega (arith, four))
      ∙ slice_here (codec_of is_h264) coded 4 length-codec_of

  slice_behind_codec :
      (low high count : ℕ) → 8 + low ≡ high → slice high count video_bytes ≡ slice low count coded
  slice_behind_codec low high count h =
      slice_skip m (codec_of is_h264 ++ coded) (4 + low) high count (omega (arith, four, h))
      ∙ slice_skip (codec_of is_h264) coded low (4 + low) count (omega (arith, length-codec_of))

  video_sizes :
      length payload < 256 ^ 4
      → length additional < 256 ^ 4
      → (from_bytes (slice 8 4 video_bytes) ≡ length payload)
        × (from_bytes (slice 12 4 video_bytes) ≡ length additional)
  video_sizes h k = (
    ap from_bytes (slice_behind_codec 0 8 4 refl)
        ∙ number_here 4 (length payload) (to_bytes 4 (length additional) ++ behind_sizes) h,
    ap from_bytes (slice_behind_codec 4 12 4 refl)
        ∙ number_here 4 (length additional) behind_sizes k,
  )

  length-video_bytes :
      length video_bytes ≡ video_packet_size (length payload) (length additional) + length rest
  length-video_bytes = omega (
    arith,
    four,
    eight,
    length-codec_of,
    length-append m (codec_of is_h264 ++ coded),
    length-append (codec_of is_h264) coded,
    length-append stamp (additional ++ padded_video),
    length-append additional padded_video,
    length-append payload (zeros (padding8 (length payload)) ++ rest),
    length-append (zeros (padding8 (length payload))) rest,
    length-zeros (padding8 (length payload)),
  )

  drop_behind_header :
      (low high : ℕ)
      → 24 + length additional + low ≡ high
      → drop high video_bytes ≡ drop low padded_video
  drop_behind_header low high h =
      drop_skip m (codec_of is_h264 ++ coded) (20 + length additional + low) high
        (omega (arith, four, h))
      ∙ drop_skip (codec_of is_h264) coded (16 + length additional + low)
          (20 + length additional + low) (omega (arith, length-codec_of))
      ∙ drop_skip (to_bytes 4 (length payload)) (to_bytes 4 (length additional) ++ behind_sizes)
          (12 + length additional + low) (16 + length additional + low) (omega arith)
      ∙ drop_skip (to_bytes 4 (length additional)) behind_sizes (8 + length additional + low)
          (12 + length additional + low) (omega arith)
      ∙ drop_skip stamp (additional ++ padded_video) (length additional + low)
          (8 + length additional + low) (omega (arith, eight))
      ∙ drop_skip additional padded_video low (length additional + low) (omega arith)

  drop-video_bytes :
      drop (video_packet_size (length payload) (length additional)) video_bytes ≡ rest
  drop-video_bytes =
      drop_behind_header (length payload + padding8 (length payload))
        (video_packet_size (length payload) (length additional)) (omega arith)
      ∙ drop_skip payload (zeros (padding8 (length payload)) ++ rest) (padding8 (length payload))
          (length payload + padding8 (length payload)) (omega arith)
      ∙ drop_skip (zeros (padding8 (length payload))) rest 0 (padding8 (length payload))
          (omega (arith, length-zeros (padding8 (length payload))))

  slice-video_bytes : slice (24 + length additional) (length payload) video_bytes ≡ payload
  slice-video_bytes =
      ap (take (length payload)) (drop_behind_header 0 (24 + length additional) (omega arith))
      ∙ slice_here payload (zeros (padding8 (length payload)) ++ rest) (length payload) refl

  codec_known : one_of (codec_of is_h264) (h264_codec ∷ h265_codec ∷ []) ≡ true
  unfolding one_of
  codec_known = elim (Bool-cases is_h264) [ inl h ↦ rw h refl | inr h ↦ rw h refl ]

  packet_known :
      video_packet m (codec_of is_h264) (length payload) (length additional) video_bytes
      ≡ received (sent_video m is_h264 stamp additional payload)
  packet_known = elim (Bool-cases is_h264) [
    | inl h ↦ rw (slice-video_bytes, h) refl
    | inr h ↦ rw h refl
  ]

  padded_limit :
      length payload ≤ max_media_packet_bytes
      → length payload + padding8 (length payload) ≤ max_media_packet_bytes
  unfolding padding8
  padded_limit h = ground (arith, h)

  pub video_received :
      length additional ≤ max_additional_header_bytes
      → 0 < length payload
      → length payload ≤ max_media_packet_bytes
      → video_turn m video_bytes
        ≡ took (received (sent_video m is_h264 stamp additional payload)) rest
  unfolding video_turn sized_video_turn
  video_received extra positive small =
      let (first, second) = video_sizes (omega (arith, small)) (omega (arith, extra)) in
      let fits : refuses_video (length payload) (length additional) ≡ false =
        ground (arith, extra, positive, small) in
      let under : ltb (max_media_packet_bytes + max_additional_header_bytes + 32)
            (video_packet_size (length payload) (length additional))
          ≡ false =
        ground (arith, padded_limit small, extra) in
      let whole : ltb (length video_bytes) (video_packet_size (length payload) (length additional))
          ≡ false =
        ground (arith, length-video_bytes) in
      let long : ltb (length video_bytes) 24 ≡ false = ground (arith, length-video_bytes) in
      rw
        (
          long, codec_here, codec_known, first, second, fits, under, whole, packet_known,
          drop-video_bytes,
        )
        refl
