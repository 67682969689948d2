-- ===== src/Stream/Feed.antt =====
-- The rolling buffer over a whole session: chunk after chunk, the sinks get what one reading of the
-- whole stream gives.
use ha_reolink_battery.Base.{
  inl, inr, ◌+◌, ◌≤◌, ◌<◌, ◌≡◌, refl, ap, ◌∙◌, List, [], ◌∷◌, ◌++◌, Option, none, some, arith,
  length, length-append, All, Bool-cases, ltb,
}
use mathlib.Core.List.{append_assoc, append-nil}
use ha_reolink_battery.Wire.{Bytes}
use ha_reolink_battery.Stream.{loop, turn, Packet, parse_packets, max_rolling_buffer_bytes}
use ha_reolink_battery.Stream.Buffer.{
  rolling_only, Sinks, Account, enter, enter_all, Rolling, capped, parse_rolling_bcmedia,
  extend_media,
}
use ha_reolink_battery.Stream.Progress.{longest_packet}
use ha_reolink_battery.Stream.Chunks.{parse_packets-Ends, parse_packets-append}

abbrev pub and_then : Option Rolling → (Rolling → Option Rolling) → Option Rolling
and_then none next = none
and_then (some rolling) next = next rolling

-- The chunks of a session, in their order.
unfoldable pub extend_all : Sinks → Rolling → List Bytes → Option Rolling
extend_all sinks rolling [] = some rolling
extend_all sinks rolling (chunk ∷ chunks) =
    and_then (extend_media sinks rolling chunk) (λ next. extend_all sinks next chunks)

abbrev pub concat : List Bytes → Bytes
concat [] = []
concat (chunk ∷ chunks) = chunk ++ concat chunks

-- No chunk is so long that the buffer would be cut.
abbrev pub IsShort : Bytes → Type 0
IsShort chunk = length chunk + longest_packet ≤ max_rolling_buffer_bytes

enter_all-append :
    (sinks : Sinks) (p q : List Packet) (account : Account)
    → enter_all sinks (p ++ q) account ≡ enter_all sinks q (enter_all sinks p account)
unfolding enter_all
enter_all-append sinks [] q account = refl
enter_all-append sinks (packet ∷ p) q account =
    enter_all-append sinks p q (enter sinks packet account)

capped_short : (buffer : Bytes) → length buffer ≤ max_rolling_buffer_bytes → capped buffer ≡ buffer
capped_short buffer h = elim (Bool-cases (ltb max_rolling_buffer_bytes (length buffer))) [
  | inl long ↦ absurd (ground (arith, long, h))
  | inr short ↦ rw short refl
]

-- The state after some bytes in which the parser found `packets` and of which it kept `rest`.
abbrev rolled : Sinks → Account → List Packet → Bytes → Rolling
rolled sinks account packets rest = record {
  media_buffer = rest;
  account = enter_all sinks packets account;
}

-- What one reading of all the bytes leaves.
abbrev pub read_at_once : Sinks → Account → Bytes → Option Rolling
read_at_once sinks account whole =
    rolling_only (parse_rolling_bcmedia sinks (record { media_buffer = whole; account = account }))

extend_media_lem :
    (sinks : Sinks) (account : Account) (p q : List Packet) (rest rest' chunk : Bytes)
    → length rest < longest_packet
    → IsShort chunk
    → parse_packets (rest ++ chunk) ≡ some (q, rest')
    → extend_media sinks (rolled sinks account p rest) chunk
      ≡ some (rolled sinks account (p ++ q) rest')
unfolding extend_media
extend_media_lem sinks account p q rest rest' chunk small short h =
    let fits : length (rest ++ chunk) ≤ max_rolling_buffer_bytes =
      omega (arith, small, short, length-append rest chunk) in
    rw (capped_short (rest ++ chunk) fits, h, enter_all-append sinks p q account) refl

extend_all-parsed :
    (sinks : Sinks) (account : Account) (seen rest : Bytes) (p : List Packet) (chunks : List Bytes)
    → All IsShort chunks
    → parse_packets seen ≡ some (p, rest)
    → length rest < longest_packet
    → extend_all sinks (rolled sinks account p rest) chunks
      ≡ read_at_once sinks account (seen ++ concat chunks)
unfolding extend_all
extend_all-parsed sinks account seen rest p [] short h small = rw (append-nil seen, h) refl
extend_all-parsed sinks account seen rest p (chunk ∷ chunks) short h small =
    let ((q, rest'), next, small') = parse_packets-Ends (rest ++ chunk) in
    let whole = parse_packets-append seen chunk rest p (q, rest') h next in
    ap (λ o. and_then o (λ r. extend_all sinks r chunks))
      (extend_media_lem sinks account p q rest rest' chunk small short.0 next)
    ∙ extend_all-parsed sinks account (seen ++ chunk) rest' (p ++ q) chunks short.1 whole small'
    ∙ ap (read_at_once sinks account) (append_assoc seen chunk (concat chunks))

-- A session that starts with an empty buffer and gets chunks of at most 4,128,736 bytes calls the
-- sinks, counts the frames and keeps the rest exactly as one reading of all its bytes at once
-- would: the buffer's limit never cuts the stream.
pub extend_all-concat :
    (sinks : Sinks) (account : Account) (chunks : List Bytes)
    → All IsShort chunks
    → extend_all sinks (record { media_buffer = []; account = account }) chunks
      ≡ read_at_once sinks account (concat chunks)
unfolding loop turn enter_all
extend_all-concat sinks account chunks short =
    extend_all-parsed sinks account [] [] [] chunks short refl (omega arith)
