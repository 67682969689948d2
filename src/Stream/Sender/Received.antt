-- ===== src/Stream/Sender/Received.antt =====
-- Every packet that the camera lays out is read back by the media parser.
use ha_reolink_battery.Base.{
  ℕ, zero, suc, ◌<◌, ◌≡◌, refl, ap, ◌∙◌, subst, Bool, true, false, not, List, [], ◌∷◌, ◌++◌, map,
  some, arith, length, length-append, drop, All, ltb,
}
use ha_reolink_battery.Wire.{Bytes, slice, from_bytes, to_bytes}
use ha_reolink_battery.Stream.{
  info, took, turn, dispatch, one_of, info_magics, video_magics, audio_magics, info_turn, padding8,
  loop, parse_packets, prepend,
}
use ha_reolink_battery.Stream.Scan.{at_magic}
use ha_reolink_battery.Stream.Sender.{
  Sent, sent_info, sent_video, sent_audio, zeros, send, send_all, received, IsSendable, one_of_all,
  all_true, begins_packet, aligned_at_magic, slice_skip, drop_skip,
}
use ha_reolink_battery.Stream.Sender.Audio.{audio_received}
use ha_reolink_battery.Stream.Sender.Video.{behind_codec, video_received}
use ha_reolink_battery.Stream.Progress.{Shortens, turn-Shortens}

-- An information packet behind its magic `m`.
info_received :
    (m content rest : Bytes)
    → length m ≡ 4
    → length content ≡ 24
    → info_turn (send (sent_info m content) rest) ≡ took info rest
unfolding info_turn
info_received m content rest four h =
    let long : ltb (length (send (sent_info m content) rest)) 32 ≡ false = ground (
      arith,
      four,
      h,
      length-append m (to_bytes 4 32 ++ (content ++ rest)),
      length-append content rest,
    ) in
    let size : from_bytes (slice 4 4 (send (sent_info m content) rest)) ≡ 32 =
      ap from_bytes
        (slice_skip m (to_bytes 4 32 ++ (content ++ rest)) 0 4 4 (omega (arith, four))) in
    let behind : drop 32 (send (sent_info m content) rest) ≡ rest =
      drop_skip m (to_bytes 4 32 ++ (content ++ rest)) 28 32 (omega (arith, four))
      ∙ drop_skip content rest 0 24 (omega (arith, h)) in
    rw (long, size, behind) refl

-- A magic's length, and what stands in front of a packet.
abbrev Leads : Bytes → Type 0
Leads m = (length m ≡ 4) × (begins_packet m ≡ true)

Leads-one_of :
    (m : Bytes) (magics : List Bytes)
    → one_of m magics ≡ true
    → all_true begins_packet magics ≡ true
    → Leads m
Leads-one_of m magics known w =
    let begins = one_of_all begins_packet m magics known w in (ground (arith, begins), begins)

-- A magic of one kind is of no other kind.
others : List Bytes → List Bytes → Bool
others magics strangers = all_true (λ t. not (one_of t strangers)) magics

not_other :
    (m : Bytes) (magics strangers : List Bytes)
    → one_of m magics ≡ true
    → others magics strangers ≡ true
    → one_of m strangers ≡ false
unfolding others
not_other m magics strangers known w =
    ground (arith, one_of_all (λ t. not (one_of t strangers)) m magics known w)

info_Leads : (m : Bytes) → one_of m info_magics ≡ true → Leads m
unfolding at_magic
info_Leads m known = Leads-one_of m info_magics known refl

video_Leads : (m : Bytes) → one_of m video_magics ≡ true → Leads m × (one_of m info_magics ≡ false)
unfolding at_magic others one_of
video_Leads m known =
    (Leads-one_of m video_magics known refl, not_other m video_magics info_magics known refl)

audio_Leads :
    (m : Bytes)
    → one_of m audio_magics ≡ true
    → Leads m × (one_of m info_magics ≡ false) × (one_of m video_magics ≡ false)
unfolding at_magic others one_of
audio_Leads m known = (
  Leads-one_of m audio_magics known refl,
  not_other m audio_magics info_magics known refl,
  not_other m audio_magics video_magics known refl,
)

send_received :
    (s : Sent) (rest : Bytes) → IsSendable s → turn (send s rest) ≡ took (received s) rest
unfolding dispatch
send_received (sent_info m content) rest (known, h) =
    let (four, begins) = info_Leads m known in
    aligned_at_magic m (to_bytes 4 32 ++ (content ++ rest)) begins
    ∙ rw known (info_received m content rest four h)
send_received (sent_video m is_h264 stamp additional payload) rest
      (known, eight, extra, positive, small) =
    let ((four, begins), not_info) = video_Leads m known in
    aligned_at_magic m (behind_codec is_h264 stamp additional payload rest) begins
    ∙ rw (not_info, known)
        (video_received m is_h264 stamp additional payload rest four eight extra positive small)
send_received (sent_audio m payload) rest (known, positive, small) =
    let ((four, begins), not_info, not_video) = audio_Leads m known in
    aligned_at_magic m
      (to_bytes 2 (length payload)
        ++ (to_bytes 2 (length payload)
            ++ (payload ++ (zeros (padding8 (length payload)) ++ rest))))
      begins
    ∙ rw (not_info, not_video, known) (audio_received m payload rest four positive small)

loop-send_all :
    (f : ℕ) (ss : List Sent)
    → All IsSendable ss
    → length (send_all ss) < f
    → loop f (send_all ss) ≡ some (map received ss, [])
unfolding loop turn
loop-send_all zero ss ok h = absurd (omega (arith, h))
loop-send_all (suc f) [] ok h = refl
loop-send_all (suc f) (s ∷ ss) ok h =
    let e = send_received s (send_all ss) ok.0 in
    let less = subst (Shortens (send s (send_all ss))) e (turn-Shortens (send s (send_all ss))) in
    rw (e, loop) (ap (prepend (received s)) (loop-send_all f ss ok.1 (omega (arith, h, less))))

-- Whatever packets the camera lays out one after the other, each with a magic of its kind and of a
-- size within the parser's limits, the parser gives back just those packets in their order, with
-- each payload as it was, and keeps nothing.
pub parse_packets-send_all :
    (ss : List Sent) → All IsSendable ss → parse_packets (send_all ss) ≡ some (map received ss, [])
parse_packets-send_all ss ok = loop-send_all (suc (length (send_all ss))) ss ok (omega arith)
