-- ===== src/Stream/Frames/Cuts.antt =====
-- What `parse_bc_data` does with the bytes: every message is cut out whole and in its order, and
-- the first answer settles a future.
use ha_reolink_battery.Base.{
  ℕ, zero, suc, ◌+◌, ◌≤◌, ◌<◌, ◌≡◌, refl, sym, ap, ◌∙◌, subst, ◌⊎◌, inl, inr, Bool, true, false,
  not, List, [], ◌∷◌, ◌++◌, Option, none, some, arith, length, length-drop, take, drop, Bool-cases,
  ltb, nat_eq, if◌then◌else◌,
}
use mathlib.Core.List.{append_assoc}
use ha_reolink_battery.Wire.{Bytes, slice, from_bytes}
use ha_reolink_battery.Stream.Frames.{
  RawLiveFrame, header_length, read_frame, message_length, is_live, live_frame, Future, pending,
  resolved, cancelled, failed, Protocol, resolve, take_frame, Outcome, observing, stop_at, is_empty,
  frame_turn, frame_loop, parse_bc_data, live_start_cmd_id,
}

-- The bytes of the messages, one after the other.
abbrev pub bytes_of : List RawLiveFrame → Bytes
bytes_of [] = []
bytes_of (frame ∷ frames) = (frame.header ++ frame.body) ++ bytes_of frames

abbrev pub is_start : RawLiveFrame → Bool
is_start frame = nat_eq frame.cmd_id live_start_cmd_id

-- The first frame that the test takes.
abbrev pub first : (RawLiveFrame → Bool) → List RawLiveFrame → Option RawLiveFrame
first test [] = none
first test (frame ∷ frames) =
    let rest = first test frames in if test frame then some frame else rest

-- A future that takes its first answer.
abbrev pub answered : Option RawLiveFrame → Option Future → Option Future
answered none future = future
answered (some frame) future = resolve frame future

pub record IsCut (protocol : Protocol) (outcome : Outcome) : Type 0 where
  pub splits : protocol.received ≡ bytes_of outcome.observed ++ outcome.protocol.received
  pub start_answered :
      outcome.protocol.start_future
      ≡ answered (first is_start outcome.observed) protocol.start_future
  pub stop_answered :
      outcome.protocol.stop_future
      ≡ answered (first (λ f. not (is_start f)) outcome.observed) protocol.stop_future
  pub same_number : outcome.protocol.live_msg_num ≡ protocol.live_msg_num
  pub left_over :
      ((outcome.handed_over ≡ true)
        × (live_frame outcome.protocol.live_msg_num outcome.protocol.received ≡ none))
      ⊎ ((outcome.handed_over ≡ false) × (outcome.protocol.received ≡ []))

abbrev pub Cuts : Protocol → Option Outcome → Type 0
Cuts protocol o = (outcome : Outcome) × (o ≡ some outcome) × IsCut protocol outcome

take-drop : (k : ℕ) (xs : Bytes) → xs ≡ take k xs ++ drop k xs
take-drop zero xs = refl
take-drop (suc k) [] = refl
take-drop (suc k) (x ∷ xs) = ap (λ t. x ∷ t) (take-drop k xs)

take-slice :
    (n m k : ℕ) (raw : Bytes) → n + m ≡ k → raw ≡ (take n raw ++ slice n m raw) ++ drop k raw
take-slice zero m k raw h = take-drop m raw ∙ ap (λ i. take m raw ++ drop i raw) (omega (arith, h))
take-slice (suc n) m zero raw h = absurd (omega (arith, h))
take-slice (suc n) zero (suc k) [] h = refl
take-slice (suc n) (suc m) (suc k) [] h = refl
take-slice (suc n) m (suc k) (x ∷ raw) h = ap (λ t. x ∷ t) (take-slice n m k raw (omega (arith, h)))

-- What is known of a frame that was read from the bytes `raw`.
abbrev Read : Bytes → RawLiveFrame → Type 0
Read raw frame =
    (ltb (length raw) (message_length frame) ≡ false)
    × (20 ≤ message_length frame)
    × (raw ≡ (frame.header ++ frame.body) ++ drop (message_length frame) raw)

header_length_least : (c : ℕ) → 20 ≤ header_length c
unfolding header_length
header_length_least c = ground arith

is_live_whole :
    (n : ℕ) (raw : Bytes)
    → is_live n raw ≡ true
    → ltb (length raw) (message_length (read_frame raw)) ≡ false
unfolding is_live
is_live_whole n raw h = ground (arith, h)

live_frame-Read :
    (number : Option ℕ) (raw : Bytes) (frame : RawLiveFrame)
    → live_frame number raw ≡ some frame
    → Read raw frame
unfolding live_frame
live_frame-Read none raw frame h = cc h
live_frame-Read (some n) raw frame h = elim (Bool-cases (is_live n raw)) [
  | inl live ↦
      let e : read_frame raw ≡ frame = ground (arith, h, live) in
      subst (Read raw) e (
        is_live_whole n raw live,
        omega (arith, header_length_least (from_bytes (slice 18 2 raw))),
        take-slice (header_length (from_bytes (slice 18 2 raw))) (from_bytes (slice 8 4 raw))
            (message_length (read_frame raw)) raw refl,
      )
  | inr dead ↦ absurd (ground (arith, h, dead))
]

IsCut_end :
    (protocol : Protocol) (handed_over : Bool)
    → ((handed_over ≡ true) × (live_frame protocol.live_msg_num protocol.received ≡ none))
      ⊎ ((handed_over ≡ false) × (protocol.received ≡ []))
    → Cuts protocol (stop_at protocol handed_over)
IsCut_end protocol handed_over left = (
  record { observed = []; protocol = protocol; handed_over = handed_over },
  refl,
  record {
    splits = refl;
    start_answered = refl;
    stop_answered = refl;
    same_number = refl;
    left_over = left;
  },
)

-- The future of one command, after a frame of some command and the answers that follow.
answered_next :
    (test : Bool) (frame : RawLiveFrame) (later : Option RawLiveFrame) (future : Option Future)
    → answered later (if test then resolve frame future else future)
      ≡ answered (if test then some frame else later) future
unfolding resolve
answered_next true frame none future = refl
answered_next true frame (some f) none = refl
answered_next true frame (some f) (some pending) = refl
answered_next true frame (some f) (some (resolved g)) = refl
answered_next true frame (some f) (some cancelled) = refl
answered_next true frame (some f) (some failed) = refl
answered_next false frame later future = refl

if_not : (b : Bool) (x y : Option Future) → (if b then x else y) ≡ (if not b then y else x)
if_not true x y = refl
if_not false x y = refl

Cuts-observing :
    (frame : RawLiveFrame) (protocol : Protocol) (o : Option Outcome)
    → protocol.has_observer ≡ true
    → Read protocol.received frame
    → Cuts (take_frame frame protocol) o
    → Cuts protocol (observing frame protocol o)
unfolding take_frame
Cuts-observing frame protocol o watching read (outcome, e, cut) = (
  record {
    observed = frame ∷ outcome.observed;
    protocol = outcome.protocol;
    handed_over = outcome.handed_over;
  },
  ap (observing frame protocol) e ∙ rw watching refl,
  record {
    splits =
        read.2
        ∙ ap (λ t. (frame.header ++ frame.body) ++ t) cut.splits
        ∙ sym (
            append_assoc (frame.header ++ frame.body) (bytes_of outcome.observed)
              outcome.protocol.received);
    start_answered =
        cut.start_answered
        ∙ answered_next (is_start frame) frame (first is_start outcome.observed)
            protocol.start_future;
    stop_answered =
        cut.stop_answered
        ∙ ap (answered (first (λ f. not (is_start f)) outcome.observed))
            (if_not (is_start frame) protocol.stop_future (resolve frame protocol.stop_future))
        ∙ answered_next (not (is_start frame)) frame
            (first (λ f. not (is_start f)) outcome.observed) protocol.stop_future;
    same_number = cut.same_number;
    left_over = cut.left_over;
  },
)

is_empty_nil : (xs : Bytes) → is_empty xs ≡ true → xs ≡ []
is_empty_nil [] h = refl
is_empty_nil (x ∷ xs) h = cc h

Cuts-if :
    (b : Bool) (protocol : Protocol) (x y : Option Outcome)
    → (b ≡ true → Cuts protocol x)
    → (b ≡ false → Cuts protocol y)
    → Cuts protocol (if b then x else y)
Cuts-if true protocol x y p q = p refl
Cuts-if false protocol x y p q = q refl

has_observer-take_frame :
    (frame : RawLiveFrame) (protocol : Protocol)
    → (take_frame frame protocol).has_observer ≡ protocol.has_observer
unfolding take_frame
has_observer-take_frame frame protocol = refl

received-take_frame :
    (frame : RawLiveFrame) (protocol : Protocol)
    → (take_frame frame protocol).received ≡ drop (message_length frame) protocol.received
unfolding take_frame
received-take_frame frame protocol = refl

frame_turn-Cuts :
    (protocol : Protocol) (next : Protocol → Option Outcome) (o : Option RawLiveFrame)
    → protocol.has_observer ≡ true
    → live_frame protocol.live_msg_num protocol.received ≡ o
    → ((later : Protocol)
        → later.has_observer ≡ true
        → length later.received < length protocol.received
        → Cuts later (next later))
    → Cuts protocol (frame_turn protocol next o)
unfolding frame_turn
frame_turn-Cuts protocol next none watching h ih = IsCut_end protocol true (inl (refl, h))
frame_turn-Cuts protocol next (some frame) watching h ih =
    let read = live_frame-Read protocol.live_msg_num protocol.received frame h in
    let after = take_frame frame protocol in
    let onward : Cuts after (if is_empty after.received then stop_at after false else next after) =
      Cuts-if (is_empty after.received) after (stop_at after false) (next after)
        (λ e. IsCut_end after false (inr (refl, is_empty_nil after.received e)))
        λ _. ih after (has_observer-take_frame frame protocol ∙ watching) (
          ground (
            arith,
            read.0,
            read.1,
            ap length (received-take_frame frame protocol),
            length-drop (message_length frame) protocol.received,
          )) in
    rw read.0 (Cuts-observing frame protocol _ watching read onward)

frame_loop-Cuts :
    (f : ℕ) (protocol : Protocol)
    → protocol.has_observer ≡ true
    → length protocol.received < f
    → Cuts protocol (frame_loop f protocol)
unfolding frame_loop
frame_loop-Cuts zero protocol watching h = absurd (omega (arith, h))
frame_loop-Cuts (suc f) protocol watching h =
    frame_turn-Cuts protocol (frame_loop f) (live_frame protocol.live_msg_num protocol.received)
      watching refl λ later armed less. frame_loop-Cuts f later armed (omega (arith, h, less))

-- While an observer is set, `parse_bc_data` ends on any bytes. The messages that the observer got
-- and the bytes that are left make up all the bytes received, in their order; each future has the
-- first answer to its command unless it was done before; and what is left starts with no live
-- message and went to the base class's method, or it is empty.
pub parse_bc_data-Cuts :
    (protocol : Protocol) → protocol.has_observer ≡ true → Cuts protocol (parse_bc_data protocol)
parse_bc_data-Cuts protocol watching =
    frame_loop-Cuts (suc (length protocol.received)) protocol watching (omega arith)
