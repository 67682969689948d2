-- ===== src/Stream/Resume.antt =====
-- One turn of the media parser on a buffer that later bytes continue: what it decided stands, and
-- what it waited for is decided by the bytes it kept.
use ha_reolink_battery.Base.{
  ℕ, suc, ◌+◌, ◌-◌, ◌≤◌, ◌≡◌, refl, sym, ap, ◌∙◌, inl, inr, Bool, true, false, [], ◌∷◌, ◌++◌, none,
  some, arith, length, length-append, length-drop, take, take_last, take_last_all, drop, Bool-cases,
  ltb, nat_eq, not, if◌then◌else◌,
}
use ha_reolink_battery.Wire.{Bytes, slice, take-append, drop-append, from_bytes}
use ha_reolink_battery.Stream.{
  Turn, halt, skip, took, aligned_turn, dispatch, info_turn, video_turn, audio_turn,
  sized_video_turn, sized_audio_turn, video_packet, video_packet_size, refuses_video, refuses_audio,
  info, audio, codec_name, padding8, one_of, info_magics, video_magics, audio_magics, h264_codec,
  h265_codec, max_media_packet_bytes, max_additional_header_bytes,
}
use ha_reolink_battery.Stream.Scan.{at_magic, at_magic_long, at_magic-append, seek}

seek_long : (a s : Bytes) → seek a ≡ some s → 4 ≤ length a
unfolding seek
seek_long [] s h = cc h
seek_long (x ∷ a) s h = elim (Bool-cases (at_magic (x ∷ a))) [
  | inl here ↦ at_magic_long (x ∷ a) here
  | inr later ↦ omega (arith, seek_long a s (ground (arith, h, later)))
]

pub seek-append : (a s b : Bytes) → seek a ≡ some s → seek (a ++ b) ≡ some (s ++ b)
unfolding seek
seek-append [] s b h = cc h
seek-append (x ∷ a) s b h = elim (Bool-cases (at_magic (x ∷ a))) [
  | inl here ↦
      let same = at_magic-append (x ∷ a) b (at_magic_long (x ∷ a) here) in
      let e : x ∷ a ≡ s = ground (arith, h, here) in rw (same, here, ← e) refl
  | inr later ↦
      let found : seek a ≡ some s = ground (arith, h, later) in
      let same = at_magic-append (x ∷ a) b (omega (arith, seek_long a s found)) in
      rw (same, later) (seek-append a s b found)
]

take_last_cons : (x : ℕ) (a : Bytes) → 3 ≤ length a → take_last 3 (x ∷ a) ≡ take_last 3 a
take_last_cons x a h =
    let e : suc (length a) - 3 ≡ suc (length a - 3) = omega (arith, h) in ap (λ n. drop n (x ∷ a)) e

-- Of the bytes without a magic, only the last three matter.
pub seek-take_last : (a b : Bytes) → seek a ≡ none → seek (a ++ b) ≡ seek (take_last 3 a ++ b)
unfolding seek
seek-take_last [] b h = refl
seek-take_last (x ∷ a) b h = elim (Bool-cases (ltb (length a) 3)) [
  | inl short ↦ ap (λ t. seek (t ++ b)) (sym (take_last_all 3 (x ∷ a) (ground (arith, short))))
  | inr long ↦
      let not_here : at_magic (x ∷ a) ≡ false = ground (arith, h) in
      let later : seek a ≡ none = ground (arith, h) in
      let same = at_magic-append (x ∷ a) b (ground (arith, long)) in
      rw (same, not_here, take_last_cons x a (ground (arith, long))) (seek-take_last a b later)
]

pub take_last-take_last : (a b : Bytes) → take_last 3 (a ++ b) ≡ take_last 3 (take_last 3 a ++ b)
take_last-take_last [] b = refl
take_last-take_last (x ∷ a) b = elim (Bool-cases (ltb (length a) 3)) [
  | inl short ↦
      ap (λ t. take_last 3 (t ++ b)) (sym (take_last_all 3 (x ∷ a) (ground (arith, short))))
  | inr long ↦
      let grown : 3 ≤ length (a ++ b) = ground (arith, long, length-append a b) in
      rw (take_last_cons x (a ++ b) grown, take_last_cons x a (ground (arith, long)))
        (take_last-take_last a b)
]

-- A later turn on the whole buffer agrees with this one.
abbrev pub Extends : Bytes → Turn → Turn → Type 0
Extends b (halt rest) whole = Unit {0}
Extends b (skip rest) whole = whole ≡ skip (rest ++ b)
Extends b (took packet rest) whole = whole ≡ took packet (rest ++ b)

Extends-halt_if :
    (t : Bool) (b rest : Bytes) (x y : Turn)
    → (t ≡ false → Extends b x y)
    → Extends b (if t then halt rest else x) y
Extends-halt_if true b rest x y h = tt
Extends-halt_if false b rest x y h = h refl

Extends-if :
    (t : Bool) (b : Bytes) (x y x' y' : Turn)
    → Extends b x x'
    → Extends b y y'
    → Extends b (if t then x else y) (if t then x' else y')
Extends-if true b x y x' y' p q = p
Extends-if false b x y x' y' p q = q

slice-append :
    (low count : ℕ) (a b : Bytes)
    → low + count ≤ length a
    → slice low count (a ++ b) ≡ slice low count a
slice-append low count a b h =
    ap (take count) (drop-append low a b (omega (arith, h)))
    ∙ take-append count (drop low a) b (omega (arith, h, length-drop low a))

long_append : (n : ℕ) (a b : Bytes) → ltb (length a) n ≡ false → ltb (length (a ++ b)) n ≡ false
long_append n a b h = ground (arith, h, length-append a b)

skip_append : (a b : Bytes) → 1 ≤ length a → skip (drop 1 (a ++ b)) ≡ skip (drop 1 a ++ b)
skip_append a b h = ap skip (drop-append 1 a b h)

info_turn-Extends : (a b : Bytes) → Extends b (info_turn a) (info_turn (a ++ b))
unfolding info_turn
info_turn-Extends a b = Extends-halt_if (ltb (length a) 32) b a _ _ λ long.
    let size : 32 ≤ length a = ground (arith, long) in
    rw (long_append 32 a b long, slice-append 4 4 a b (omega (arith, size)))
      (Extends-if (not (nat_eq (from_bytes (slice 4 4 a)) 32)) b _ _ _ _
        (skip_append a b (omega (arith, size))) (ap (took info) (drop-append 32 a b size)))

sized_video_turn-Extends :
    (magic codec : Bytes) (payload_size additional : ℕ) (a b : Bytes)
    → 1 ≤ length a
    → Extends b
        (sized_video_turn magic codec payload_size additional a)
        (sized_video_turn magic codec payload_size additional (a ++ b))
unfolding sized_video_turn
sized_video_turn-Extends magic codec payload_size additional a b h =
    Extends-if (refuses_video payload_size additional) b _ _ _ _ (skip_append a b h) (
      Extends-if
        (ltb (max_media_packet_bytes + max_additional_header_bytes + 32)
          (video_packet_size payload_size additional))
        b _ _ _ _ (skip_append a b h)
        (Extends-halt_if (ltb (length a) (video_packet_size payload_size additional)) b a _ _
          λ long.
            let size : video_packet_size payload_size additional ≤ length a =
              ground (arith, long) in
            rw
              (
                long_append (video_packet_size payload_size additional) a b long,
                slice-append (24 + additional) payload_size a b (omega (arith, size)),
              )
              (ap (took (video_packet magic codec payload_size additional a))
                (drop-append (video_packet_size payload_size additional) a b size))))

video_turn-Extends :
    (magic a b : Bytes) → Extends b (video_turn magic a) (video_turn magic (a ++ b))
unfolding video_turn
video_turn-Extends magic a b = Extends-halt_if (ltb (length a) 24) b a _ _ λ long.
    let size : 24 ≤ length a = ground (arith, long) in
    rw
      (
        long_append 24 a b long,
        slice-append 4 4 a b (omega (arith, size)),
        slice-append 8 4 a b (omega (arith, size)),
        slice-append 12 4 a b (omega (arith, size)),
      )
      (Extends-if (not (one_of (slice 4 4 a) (h264_codec ∷ h265_codec ∷ []))) b _ _ _ _
        (skip_append a b (omega (arith, size)))
        (sized_video_turn-Extends magic (slice 4 4 a) (from_bytes (slice 8 4 a))
          (from_bytes (slice 12 4 a)) a b (omega (arith, size))))

sized_audio_turn-Extends :
    (magic : Bytes) (payload_size duplicate_size : ℕ) (a b : Bytes)
    → 1 ≤ length a
    → Extends b
        (sized_audio_turn magic payload_size duplicate_size a)
        (sized_audio_turn magic payload_size duplicate_size (a ++ b))
unfolding sized_audio_turn
sized_audio_turn-Extends magic payload_size duplicate_size a b h =
    Extends-if (refuses_audio payload_size duplicate_size) b _ _ _ _ (skip_append a b h) (
      Extends-halt_if (ltb (length a) (8 + payload_size + padding8 payload_size)) b a _ _ λ long.
        let size : 8 + payload_size + padding8 payload_size ≤ length a = ground (arith, long) in
        rw
          (
            long_append (8 + payload_size + padding8 payload_size) a b long,
            slice-append 8 payload_size a b (omega (arith, size)),
          )
          (ap (took (audio (slice 8 payload_size a) (codec_name magic)))
            (drop-append (8 + payload_size + padding8 payload_size) a b size)))

audio_turn-Extends :
    (magic a b : Bytes) → Extends b (audio_turn magic a) (audio_turn magic (a ++ b))
unfolding audio_turn
audio_turn-Extends magic a b = Extends-halt_if (ltb (length a) 8) b a _ _ λ long.
    let size : 8 ≤ length a = ground (arith, long) in
    rw
      (
        long_append 8 a b long,
        slice-append 4 2 a b (omega (arith, size)),
        slice-append 6 2 a b (omega (arith, size)),
      )
      (sized_audio_turn-Extends magic (from_bytes (slice 4 2 a)) (from_bytes (slice 6 2 a)) a b
        (omega (arith, size)))

dispatch-Extends :
    (magic a b : Bytes) → 1 ≤ length a → Extends b (dispatch magic a) (dispatch magic (a ++ b))
unfolding dispatch
dispatch-Extends magic a b h =
    Extends-if (one_of magic info_magics) b _ _ _ _ (info_turn-Extends a b) (
      Extends-if (one_of magic video_magics) b _ _ _ _ (video_turn-Extends magic a b) (
        Extends-if (one_of magic audio_magics) b _ _ _ _ (audio_turn-Extends magic a b)
          (skip_append a b h)))

pub aligned_turn-Extends : (a b : Bytes) → Extends b (aligned_turn a) (aligned_turn (a ++ b))
unfolding aligned_turn
aligned_turn-Extends a b = Extends-halt_if (ltb (length a) 4) b a _ _ λ long.
    let size : 4 ≤ length a = ground (arith, long) in
    rw (long_append 4 a b long, take-append 4 a b size)
      (dispatch-Extends (take 4 a) a b (omega (arith, size)))
