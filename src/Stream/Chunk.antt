-- ===== src/Stream/Chunk.antt =====
-- `observe_live_frame` of live_stream.py: the media chunk of a live message, with its encrypted
-- prefix decrypted, enters the rolling buffer. The decryption is the camera library's.
use ha_reolink_battery.Base.{
  ℕ, zero, suc, ◌+◌, ◌-◌, ◌≡◌, refl, ap, ◌∙◌, inl, inr, min, not, ◌&&◌, List, [], ◌∷◌, ◌++◌, Option,
  none, some, arith, length, length-append, length-drop, take, drop, All, Bool-cases, ltb, nat_eq,
  or_else, if◌then◌else◌, ℤ, pos, negsuc,
}
use ha_reolink_battery.Wire.{Bytes, find, encoded, slice, length-take}
use ha_reolink_battery.Stream.Buffer.{Sinks, Account, Rolling, extend_media}
use ha_reolink_battery.Stream.Feed.{
  and_then, extend_all, concat, IsShort, read_at_once, extend_all-concat,
}
use ha_reolink_battery.Stream.Frames.{RawLiveFrame, live_start_cmd_id}

-- `int(text.strip())` on bytes, `none` where it raises `ValueError`; and the decryptor, `none`
-- where it raises or gives no bytes.
pub record Library : Type 0 where
  pub int_of : Bytes → Option ℤ
  pub decrypt : Bytes → Bytes → Option Bytes

abbrev length_between : Library → Bytes → Option ℕ → Option ℕ → Option ℤ
length_between lib extension none end_at = none
length_between lib extension (some start) none = none
length_between lib extension (some start) (some end_at) =
    if ltb start end_at
    then lib.int_of (
        slice (start + length (encoded "<encryptLen>"))
          (end_at - (start + length (encoded "<encryptLen>"))) extension)
    else none

unfoldable pub extension_encrypt_len : Library → Bytes → Option ℤ
extension_encrypt_len lib extension =
    length_between lib extension (find (encoded "<encryptLen>") extension)
      (find (encoded "</encryptLen>") extension)

-- `_try_aes` once the decryptor is set
unfoldable pub try_aes : Library → Bytes → Bytes → Option Bytes
try_aes lib [] header = none
try_aes lib (x ∷ xs) header = lib.decrypt (x ∷ xs) header

abbrev with_prefix : Option Bytes → Bytes → Bytes → Bytes
with_prefix none payload behind = payload
with_prefix (some prefix) payload behind = prefix ++ behind

-- The payload by the length that the extension gives.
unfoldable pub decrypted_payload : Library → Bytes → Bytes → Option ℤ → Bytes
decrypted_payload lib header payload (some (pos (suc n))) =
    let encrypt_len = min (suc n) (length payload) in
    with_prefix (try_aes lib (take encrypt_len payload) header) payload (drop encrypt_len payload)
decrypted_payload lib header payload encrypt_len = payload

payload_chunk : Library → Bytes → Bytes → Bytes → Bytes
payload_chunk lib header enc_extension [] = []
payload_chunk lib header enc_extension (x ∷ payload) =
    decrypted_payload lib header (x ∷ payload)
      (extension_encrypt_len lib (or_else (try_aes lib enc_extension header) []))

unfoldable pub media_chunk_from_frame : Library → RawLiveFrame → Bytes
unfolding payload_chunk
media_chunk_from_frame lib frame =
    if nat_eq frame.payload_offset 0
    then frame.body
    else payload_chunk lib frame.header (take frame.payload_offset frame.body)
        (drop frame.payload_offset frame.body)

-- A chunk that is not empty enters the buffer.
unfoldable pub add_chunk : Sinks → Rolling → Bytes → Option Rolling
add_chunk sinks rolling [] = some rolling
add_chunk sinks rolling (x ∷ chunk) = extend_media sinks rolling (x ∷ chunk)

-- The chunk of a frame, empty for a frame that is passed over.
unfoldable pub observed_chunk : Library → RawLiveFrame → Bytes
observed_chunk lib frame =
    if nat_eq frame.cmd_id live_start_cmd_id && not (nat_eq (length frame.body) 0)
    then media_chunk_from_frame lib frame
    else []

abbrev pub observe_live_frame : Library → Sinks → Rolling → RawLiveFrame → Option Rolling
observe_live_frame lib sinks rolling frame = add_chunk sinks rolling (observed_chunk lib frame)

unfoldable pub observe_all : Library → Sinks → Rolling → List RawLiveFrame → Option Rolling
observe_all lib sinks rolling [] = some rolling
observe_all lib sinks rolling (frame ∷ frames) =
    and_then (observe_live_frame lib sinks rolling frame)
      (λ next. observe_all lib sinks next frames)

abbrev pub observed_chunks : Library → List RawLiveFrame → List Bytes
observed_chunks lib [] = []
observed_chunks lib (frame ∷ frames) = observed_chunk lib frame ∷ observed_chunks lib frames

abbrev filled : List Bytes → List Bytes
filled [] = []
filled ([] ∷ chunks) = filled chunks
filled ((x ∷ chunk) ∷ chunks) = (x ∷ chunk) ∷ filled chunks

concat-filled : (chunks : List Bytes) → concat (filled chunks) ≡ concat chunks
concat-filled [] = refl
concat-filled ([] ∷ chunks) = concat-filled chunks
concat-filled ((x ∷ chunk) ∷ chunks) = ap (λ t. (x ∷ chunk) ++ t) (concat-filled chunks)

All-filled : (chunks : List Bytes) → All IsShort chunks → All IsShort (filled chunks)
All-filled [] h = tt
All-filled ([] ∷ chunks) h = All-filled chunks h.1
All-filled ((x ∷ chunk) ∷ chunks) h = (h.0, All-filled chunks h.1)

add_chunk-extend_all :
    (sinks : Sinks) (rolling : Rolling) (chunk : Bytes) (chunks : List Bytes)
    → and_then (add_chunk sinks rolling chunk) (λ next. extend_all sinks next (filled chunks))
      ≡ extend_all sinks rolling (filled (chunk ∷ chunks))
unfolding add_chunk extend_all
add_chunk-extend_all sinks rolling [] chunks = refl
add_chunk-extend_all sinks rolling (x ∷ chunk) chunks = refl

and_then_ext :
    (o : Option Rolling) (f g : Rolling → Option Rolling)
    → ((r : Rolling) → f r ≡ g r)
    → and_then o f ≡ and_then o g
and_then_ext none f g h = refl
and_then_ext (some r) f g h = h r

observe_all-extend_all :
    (lib : Library) (sinks : Sinks) (rolling : Rolling) (frames : List RawLiveFrame)
    → observe_all lib sinks rolling frames
      ≡ extend_all sinks rolling (filled (observed_chunks lib frames))
unfolding observe_all extend_all
observe_all-extend_all lib sinks rolling [] = refl
observe_all-extend_all lib sinks rolling (frame ∷ frames) =
    and_then_ext (observe_live_frame lib sinks rolling frame)
      (λ next. observe_all lib sinks next frames)
      (λ next. extend_all sinks next (filled (observed_chunks lib frames)))
      (λ next. observe_all-extend_all lib sinks next frames)
    ∙ add_chunk-extend_all sinks rolling (observed_chunk lib frame) (observed_chunks lib frames)

-- Over the messages of a session, each with a chunk of at most 4,128,736 bytes, the sinks get what
-- one reading of the chunks of all its start messages gives, whatever other messages stand between
-- them and wherever a media packet is cut.
pub observe_all-read_at_once :
    (lib : Library) (sinks : Sinks) (account : Account) (frames : List RawLiveFrame)
    → All IsShort (observed_chunks lib frames)
    → observe_all lib sinks (record { media_buffer = []; account = account }) frames
      ≡ read_at_once sinks account (concat (observed_chunks lib frames))
observe_all-read_at_once lib sinks account frames short =
    observe_all-extend_all lib sinks (record { media_buffer = []; account = account }) frames
    ∙ extend_all-concat sinks account (filled (observed_chunks lib frames))
        (All-filled (observed_chunks lib frames) short)
    ∙ ap (read_at_once sinks account) (concat-filled (observed_chunks lib frames))

-- The cipher gives as many bytes as it takes.
abbrev pub KeepsLength : Library → Type 0
KeepsLength lib = (x header y : Bytes) → lib.decrypt x header ≡ some y → length y ≡ length x

length-try_aes :
    (lib : Library) (x header y : Bytes)
    → KeepsLength lib
    → try_aes lib x header ≡ some y
    → length y ≡ length x
unfolding try_aes
length-try_aes lib [] header y keeps h = cc h
length-try_aes lib (a ∷ x) header y keeps h = keeps (a ∷ x) header y h

length-with_prefix :
    (lib : Library) (header payload : Bytes) (n : ℕ) (o : Option Bytes)
    → KeepsLength lib
    → try_aes lib (take n payload) header ≡ o
    → length (with_prefix o payload (drop n payload)) ≡ length payload
length-with_prefix lib header payload n none keeps h = refl
length-with_prefix lib header payload n (some y) keeps h = omega (
  arith,
  length-append y (drop n payload),
  length-drop n payload,
  length-try_aes lib (take n payload) header y keeps h,
  length-take n payload,
)

length-decrypted_payload :
    (lib : Library) (header payload : Bytes) (encrypt_len : Option ℤ)
    → KeepsLength lib
    → length (decrypted_payload lib header payload encrypt_len) ≡ length payload
unfolding decrypted_payload
length-decrypted_payload lib header payload none keeps = refl
length-decrypted_payload lib header payload (some (pos zero)) keeps = refl
length-decrypted_payload lib header payload (some (negsuc n)) keeps = refl
length-decrypted_payload lib header payload (some (pos (suc n))) keeps =
    length-with_prefix lib header payload (min (suc n) (length payload)) _ keeps refl

length-payload_chunk :
    (lib : Library) (header enc_extension payload : Bytes)
    → KeepsLength lib
    → length (payload_chunk lib header enc_extension payload) ≡ length payload
unfolding payload_chunk
length-payload_chunk lib header enc_extension [] keeps = refl
length-payload_chunk lib header enc_extension (x ∷ payload) keeps =
    length-decrypted_payload lib header (x ∷ payload)
      (extension_encrypt_len lib (or_else (try_aes lib enc_extension header) [])) keeps

-- If the cipher gives as many bytes as it takes, then whatever the extension says, and whether or
-- not its length is a number or the decryption works, a message's chunk has as many bytes as its
-- body behind the extension: no media byte is lost or added.
pub length-media_chunk_from_frame :
    (lib : Library) (frame : RawLiveFrame)
    → KeepsLength lib
    → length (media_chunk_from_frame lib frame) ≡ length frame.body - frame.payload_offset
unfolding media_chunk_from_frame
length-media_chunk_from_frame lib frame keeps = elim (Bool-cases (nat_eq frame.payload_offset 0)) [
  | inl zero_offset ↦ rw zero_offset (ground (arith, zero_offset))
  | inr offset ↦ rw offset (
      length-payload_chunk lib frame.header (take frame.payload_offset frame.body)
        (drop frame.payload_offset frame.body) keeps
      ∙ length-drop frame.payload_offset frame.body)
]
