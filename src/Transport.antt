-- ===== src/Transport.antt =====
-- transport.py: the route to the camera, the packets of the discovery layer, and the search for the
-- camera on the local network, up to the lease on the socket that found it. Addresses are 32-bit
-- numbers, instants are microseconds; the checksum, the cipher and the XML reader are the camera
-- library's and the standard library's.
pub mod Route
pub mod Replies
pub mod Searches
pub mod Handoff
mod Tests
use ha_reolink_battery.Base.{
  ℕ, zero, suc, ◌+◌, ◌-◌, ◌*◌, ◌/◌, ◌%◌, ◌^◌, Bool, true, false, not, ◌&&◌, ◌||◌, String, Option,
  none, some, List, [], ◌∷◌, ◌++◌, length, take, drop, nat_eq, ltb, leb, if◌then◌else◌, ◌==◌,
}
use Prim.Native.Nat.{bit_and}
use ha_reolink_battery.Wire.{Bytes, bytes_eq, slice, from_bytes, to_bytes}

-- A line of the route table with its fields read, its metric not negative and its numbers of 32
-- bits; `none` in place of it for a line that is short
-- or raises `ValueError`.
pub record RouteLine : Type 0 where
  pub name : String
  pub network : ℕ
  pub flags : ℕ
  pub metric : ℕ
  pub mask : ℕ

bits : ℕ → ℕ → ℕ
bits zero value = 0
bits (suc fuel) value = value % 2 + bits fuel (value / 2)

-- `mask.bit_count()` of a 32-bit mask
unfoldable pub bit_count : ℕ → ℕ
unfolding bits
bit_count mask = bits 32 mask

-- `flags & 1 and target & mask == network & mask`
unfoldable pub leads_to : ℕ → RouteLine → Bool
leads_to target line =
    nat_eq (bit_and line.flags 1) 1
    && nat_eq (bit_and target line.mask) (bit_and line.network line.mask)

-- `candidate > best` on the triples of prefix length, negative metric and name; `text_above` is the
-- order of texts.
unfoldable pub is_better : (String → String → Bool) → RouteLine → RouteLine → Bool
is_better text_above line best =
    let long = bit_count line.mask in
    let best_long = bit_count best.mask in
    ltb best_long long
    || (nat_eq best_long long
        && (ltb line.metric best.metric
            || (nat_eq line.metric best.metric && text_above line.name best.name)))

module _ (text_above : String → String → Bool) where
  improve : RouteLine → Option RouteLine → Option RouteLine
  improve line none = some line
  improve line (some best) = if is_better text_above line best then some line else some best

  -- The loop over the lines, with the best so far.
  unfoldable pub best_route : ℕ → List (Option RouteLine) → Option RouteLine → Option RouteLine
  unfolding improve
  best_route target [] best = best
  best_route target (none ∷ lines) best = best_route target lines best
  best_route target (some line ∷ lines) best =
      best_route target lines (if leads_to target line then improve line best else best)

abbrev name_of : Option RouteLine → Option String
name_of none = none
name_of (some line) = some line.name

-- `none` is the `OSError` that there is no route.
unfoldable pub linux_route_interface :
    (String → String → Bool) → ℕ → List (Option RouteLine) → Option String
linux_route_interface text_above target lines = name_of (best_route text_above target lines none)

-- Whether the camera's address is accepted; `in_network` is the interface's network.
abbrev is_route : String → Option String → Bool
is_route interface_name none = false
is_route interface_name (some name) = name == interface_name

unfoldable pub validate_local_lan_route :
    (String → String → Bool) → (in_network : ℕ → Bool) → ℕ → String → List (Option RouteLine) → Bool
validate_local_lan_route text_above in_network camera interface_name lines =
    in_network camera && is_route interface_name (linux_route_interface text_above camera lines)

abbrev pub discovery_magic : Bytes
discovery_magic = 0x3a ∷ 0xcf ∷ 0x87 ∷ 0x2a ∷ []

-- What a reply says: the texts of `cid` and `did` under `D2C_C_R`, and `int(did)`.
pub record Reply : Type 0 where
  pub cid : Option String
  pub did : Option ℕ

pub record Codec : Type 0 where
  pub encrypt_udp : Bytes → ℕ → Bytes
  pub calc_crc : Bytes → Bytes
  -- `XML.fromstring(decrypt_udp_baichuan(...)).find("D2C_C_R")`, `none` for what is not there or
  -- raises one of the listed exceptions
  pub read_reply : Bytes → ℕ → Option Reply
  pub str_of : ℕ → String

abbrev pub wrap_payload : Codec → ℕ → Bytes → Bytes
wrap_payload codec transaction_id payload =
    discovery_magic
    ++ (to_bytes 4 (length payload)
        ++ (to_bytes 4 1 ++ (to_bytes 4 transaction_id ++ (codec.calc_crc payload ++ payload))))

-- `_packet`, with the random number that the transaction id is made of
unfoldable pub packet : Codec → ℕ → Bytes → Bytes
packet codec draw body =
    let transaction_id = draw % 999000 + 1000 in
    wrap_payload codec transaction_id (codec.encrypt_udp body transaction_id)

-- The device id of a reply to the client.
unfoldable pub device_of : Codec → ℕ → Option Reply → Option ℕ
device_of codec expected none = none
device_of codec expected (some reply) = elim reply.cid [
  | none ↦ none
  | some cid ↦ if cid == codec.str_of expected then reply.did else none
]

unfoldable pub parse_reply : Codec → Bytes → ℕ → Option ℕ
unfolding device_of
parse_reply codec received expected =
    let payload_length = from_bytes (slice 4 4 received) in
    let payload = slice 20 payload_length received in
    if ltb (length received) 20 || not (bytes_eq (take 4 received) discovery_magic)
    then none
    else if ltb (length received) (20 + payload_length)
    then none
    else if not (bytes_eq (codec.calc_crc payload) (slice 16 4 received))
    then none
    else device_of codec expected (codec.read_reply payload (from_bytes (slice 12 4 received)))

-- The socket of the search.
pub data Socket : Type 0 where
  opened closed : Socket

pub record Trace : Type 0 where
  pub send_rounds : ℕ
  pub datagrams_sent : ℕ
  pub succeeded : Bool

-- One turn of the search: the two clock readings, and what the socket does. `breaks` is any other
-- exception of the turn, before or after its packets were sent.
pub data Reception : Type 0 where
  silent : Reception
  datagram : Bytes → ℕ → Reception
  breaks_sending breaks_receiving : Reception

pub record SearchTurn : Type 0 where
  pub checked : ℕ
  pub now : ℕ
  pub reception : Reception

pub record Search : Type 0 where
  pub socket : Socket
  pub trace : Trace
  pub next_send : ℕ

pub data Found : Type 0 where
  -- the host's address and the device id; the lease holds the socket
  lease : ℕ → ℕ → Found
  timed_out broken : Found
  -- the readings of the clock that are given are used up
  searching : Found

abbrev pub resend_interval : ℕ
resend_interval = 500000

-- The packets of a turn whose time has come, one for each target.
unfoldable pub send_due : ℕ → ℕ → Search → Search
send_due targets now search = if ltb now search.next_send then search else record {
  socket = search.socket;
  trace = record search.trace {
    send_rounds = search.trace.send_rounds + 1;
    datagrams_sent = search.trace.datagrams_sent + targets;
  };
  next_send = now + resend_interval;
}

abbrev pub close_socket : Search → Search
close_socket search = record search { socket = closed }

-- A device id ends the search, and the lease takes the socket.
abbrev adopt : ℕ → Option ℕ → Search → Search × Found → Search × Found
adopt address none search rest = rest
adopt address (some device_id) search rest =
    (record search { trace = record search.trace { succeeded = true } }, lease address device_id)

module _ (codec : Codec) (targets client_id deadline : ℕ) where
  unfoldable receive : Reception → Search → Search → Search × Found → Search × Found
  receive silent before search rest = rest
  receive (datagram received address) before search rest =
      adopt address (parse_reply codec received client_id) search rest
  receive breaks_sending before search rest = (close_socket before, broken)
  receive breaks_receiving before search rest = (close_socket search, broken)

  unfoldable pub search_loop : List SearchTurn → Search → Search × Found
  unfolding receive
  search_loop [] search = (search, searching)
  search_loop (turn ∷ turns) search =
      let sent = send_due targets turn.now search in
      let rest = search_loop turns sent in
      if ltb turn.checked deadline
      then receive turn.reception search sent rest
      else (close_socket search, timed_out)
