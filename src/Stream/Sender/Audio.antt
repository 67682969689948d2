-- ===== src/Stream/Sender/Audio.antt =====
-- An audio packet as the camera lays it out, read by the media parser.
use ha_reolink_battery.Base.{
  ◌+◌, ◌<◌, ◌≡◌, refl, ap, ◌∙◌, false, ◌++◌, arith, length, length-append, drop, ltb,
}
use ha_reolink_battery.Wire.{Bytes, slice, from_bytes, to_bytes}
use ha_reolink_battery.Stream.{
  audio, took, audio_turn, sized_audio_turn, padding8, codec_name, refuses_audio,
}
use ha_reolink_battery.Stream.Sender.{
  sent_audio, zeros, send, slice_skip, drop_skip, slice_here, length-zeros, number_here,
}

-- An audio packet behind its magic `m`.
module _ (m payload rest : Bytes) (four : length m ≡ 4) where
  abbrev audio_bytes : Bytes
  audio_bytes = send (sent_audio m payload) rest

  abbrev padded_audio : Bytes
  padded_audio = payload ++ (zeros (padding8 (length payload)) ++ rest)

  audio_sizes :
      length payload < 65536
      → (from_bytes (slice 4 2 audio_bytes) ≡ length payload)
        × (from_bytes (slice 6 2 audio_bytes) ≡ length payload)
  audio_sizes h = (
    ap from_bytes (
          slice_skip m
            (to_bytes 2 (length payload) ++ (to_bytes 2 (length payload) ++ padded_audio)) 0 4 2
            (omega (arith, four)))
        ∙ number_here 2 (length payload) (to_bytes 2 (length payload) ++ padded_audio)
            (omega (arith, h)),
    ap from_bytes (
          slice_skip m
            (to_bytes 2 (length payload) ++ (to_bytes 2 (length payload) ++ padded_audio)) 2 6 2
            (omega (arith, four)))
        ∙ number_here 2 (length payload) padded_audio (omega (arith, h)),
  )

  length-audio_bytes :
      length audio_bytes ≡ 8 + length payload + padding8 (length payload) + length rest
  length-audio_bytes = omega (
    arith,
    four,
    length-append m (to_bytes 2 (length payload) ++ (to_bytes 2 (length payload) ++ padded_audio)),
    length-append payload (zeros (padding8 (length payload)) ++ rest),
    length-append (zeros (padding8 (length payload))) rest,
    length-zeros (padding8 (length payload)),
  )

  drop-audio_bytes : drop (8 + length payload + padding8 (length payload)) audio_bytes ≡ rest
  drop-audio_bytes =
      drop_skip m (to_bytes 2 (length payload) ++ (to_bytes 2 (length payload) ++ padded_audio))
        (4 + length payload + padding8 (length payload))
        (8 + length payload + padding8 (length payload)) (omega (arith, four))
      ∙ drop_skip (to_bytes 2 (length payload)) (to_bytes 2 (length payload) ++ padded_audio)
          (2 + length payload + padding8 (length payload))
          (4 + length payload + padding8 (length payload)) (omega arith)
      ∙ drop_skip (to_bytes 2 (length payload)) padded_audio
          (length payload + padding8 (length payload))
          (2 + length payload + padding8 (length payload)) (omega arith)
      ∙ drop_skip payload (zeros (padding8 (length payload)) ++ rest) (padding8 (length payload))
          (length payload + padding8 (length payload)) (omega arith)
      ∙ drop_skip (zeros (padding8 (length payload))) rest 0 (padding8 (length payload))
          (omega (arith, length-zeros (padding8 (length payload))))

  slice-audio_bytes : slice 8 (length payload) audio_bytes ≡ payload
  slice-audio_bytes =
      slice_skip m (to_bytes 2 (length payload) ++ (to_bytes 2 (length payload) ++ padded_audio)) 4
        8 (length payload) (omega (arith, four))
      ∙ slice_here payload (zeros (padding8 (length payload)) ++ rest) (length payload) refl

  pub audio_received :
      0 < length payload
      → length payload < 65536
      → audio_turn m audio_bytes ≡ took (audio payload (codec_name m)) rest
  unfolding audio_turn sized_audio_turn
  audio_received positive small =
      let (first, second) = audio_sizes small in
      let fits : refuses_audio (length payload) (length payload) ≡ false =
        ground (arith, positive, small) in
      let whole : ltb (length audio_bytes) (8 + length payload + padding8 (length payload))
          ≡ false =
        ground (arith, length-audio_bytes) in
      let long : ltb (length audio_bytes) 8 ≡ false = ground (arith, length-audio_bytes) in
      rw (long, first, second, fits, whole, slice-audio_bytes, drop-audio_bytes) refl
