-- ===== src/Transport/Replies.antt =====
-- The replies that `_parse_reply` takes, against the layout of a discovery packet.
use ha_reolink_battery.Base.{
  ℕ, ◌+◌, ◌≤◌, ◌<◌, ◌^◌, ◌≡◌, refl, sym, ap, ◌∙◌, inl, inr, Bool, true, false, not, ◌||◌, Option,
  none, some, ◌++◌, arith, length, length-append, take, drop, ltb, Bool-cases, Option-cases,
  if◌then◌else◌, ◌==◌, eq_iff,
}
use mathlib.Core.List.{append_assoc}
use ha_reolink_battery.Wire.{
  Bytes, bytes_eq, bytes_eq_sound, bytes_eq_refl, slice, from_bytes, take_exact, drop_exact,
  from_bytes-to_bytes,
}
use ha_reolink_battery.Transport.{
  Codec, Reply, discovery_magic, wrap_payload, device_of, parse_reply,
}

-- What holds of a packet that gives a device id.
pub record IsReply (codec : Codec) (received : Bytes) (expected device_id : ℕ) : Type 0 where
  pub magic : take 4 received ≡ discovery_magic
  pub whole : 20 + from_bytes (slice 4 4 received) ≤ length received
  pub checksum :
      codec.calc_crc (slice 20 (from_bytes (slice 4 4 received)) received) ≡ slice 16 4 received
  pub answer : Reply
  pub read :
      codec.read_reply
        (slice 20 (from_bytes (slice 4 4 received)) received)
        (from_bytes (slice 12 4 received))
      ≡ some answer
  pub to_client : answer.cid ≡ some (codec.str_of expected)
  pub device : answer.did ≡ some device_id

device_of-some :
    (codec : Codec) (expected device_id : ℕ) (o : Option Reply)
    → device_of codec expected o ≡ some device_id
    → (r : Reply) × (o ≡ some r) × (r.cid ≡ some (codec.str_of expected)) × (r.did ≡ some device_id)
unfolding device_of
device_of-some codec expected device_id none h = cc h
device_of-some codec expected device_id (some r) h = elim (Option-cases r.cid) [
  | inl missing ↦ absurd (cc (rw missing at h))
  | inr (cid, e) ↦
      let g : (if cid == codec.str_of expected then r.did else none) ≡ some device_id = rw e at h in
      elim (Bool-cases (cid == codec.str_of expected)) [
        | inl same ↦
            let text : cid ≡ codec.str_of expected = (eq_iff cid (codec.str_of expected)).0 same in
            (r, refl, e ∙ ap some text, (rw same at g))
        | inr other ↦ absurd (cc (rw other at g))
      ]
]

none_if_true :
    (b : Bool) (x : Option ℕ) (d : ℕ)
    → (if b then none else x) ≡ some d
    → (b ≡ false) × (x ≡ some d)
none_if_true true x d h = cc h
none_if_true false x d h = (refl, h)

-- A device id comes only from a packet with the magic, as long as it says and with its payload's
-- checksum, whose payload is a reply to this client that names the device.
pub parse_reply-IsReply :
    (codec : Codec) (received : Bytes) (expected device_id : ℕ)
    → parse_reply codec received expected ≡ some device_id
    → IsReply codec received expected device_id
unfolding parse_reply
parse_reply-IsReply codec received expected device_id h =
    let payload_length = from_bytes (slice 4 4 received) in
    let payload = slice 20 payload_length received in
    let strange = ltb (length received) 20 || not (bytes_eq (take 4 received) discovery_magic) in
    let cut = ltb (length received) (20 + payload_length) in
    let damaged = not (bytes_eq (codec.calc_crc payload) (slice 16 4 received)) in
    let named =
      device_of codec expected (codec.read_reply payload (from_bytes (slice 12 4 received))) in
    let unharmed : Option ℕ = if damaged then none else named in
    let (first, rest) = none_if_true strange (if cut then none else unharmed) device_id h in
    let (second, rest') = none_if_true cut unharmed device_id rest in
    let (third, found) = none_if_true damaged named device_id rest' in
    let (r, read, cid, did) =
      device_of-some codec expected device_id
        (codec.read_reply payload (from_bytes (slice 12 4 received))) found in
    record {
      magic = bytes_eq_sound (take 4 received) discovery_magic (ground (arith, first));
      whole = ground (arith, second);
      checksum =
          bytes_eq_sound (codec.calc_crc payload) (slice 16 4 received) (ground (arith, third));
      answer = r;
      read = read;
      to_client = cid;
      device = did;
    }

-- A packet that the other side wraps, its checksum of four bytes, is unwrapped to its payload and
-- its transaction id, whatever bytes follow: the device id is the one that the reply names, if it
-- is a reply to this client.
pub parse_reply-wrap_payload :
    (codec : Codec) (transaction_id expected : ℕ) (payload rest : Bytes)
    → length payload < 256 ^ 4
    → transaction_id < 256 ^ 4
    → length (codec.calc_crc payload) ≡ 4
    → parse_reply codec (wrap_payload codec transaction_id payload ++ rest) expected
      ≡ device_of codec expected (codec.read_reply payload transaction_id)
unfolding parse_reply
parse_reply-wrap_payload codec transaction_id expected payload rest small known four =
    let crc = codec.calc_crc payload in
    let whole = wrap_payload codec transaction_id payload ++ rest in
    let behind : drop 20 whole ≡ payload ++ rest =
      ap (drop 4) (append_assoc crc payload rest)
      ∙ ap (λ n. drop n (crc ++ (payload ++ rest))) (sym four)
      ∙ drop_exact crc (payload ++ rest) in
    let size : from_bytes (slice 4 4 whole) ≡ length payload =
      from_bytes-to_bytes 4 (length payload) small in
    let number : from_bytes (slice 12 4 whole) ≡ transaction_id =
      from_bytes-to_bytes 4 transaction_id known in
    let sum : slice 16 4 whole ≡ crc =
      ap (take 4) (append_assoc crc payload rest)
      ∙ ap (λ n. take n (crc ++ (payload ++ rest))) (sym four)
      ∙ take_exact crc (payload ++ rest) in
    let content : take (length payload) (drop 20 whole) ≡ payload =
      ap (take (length payload)) behind ∙ take_exact payload rest in
    let total : length whole ≡ 20 + length payload + length rest =
      omega (arith, four, length-append (crc ++ payload) rest, length-append crc payload) in
    let long : ltb (length whole) 20 ≡ false = ground (arith, total) in
    let enough : ltb (length whole) (20 + length payload) ≡ false = ground (arith, total) in
    rw (long, size, enough, content, sum, bytes_eq_refl crc, number) refl
