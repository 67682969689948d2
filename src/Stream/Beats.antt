-- ===== src/Stream/Beats.antt =====
-- The two signs of life of `_LiveStreamConnection` (live_stream.py): the heartbeat of the discovery
-- layer and the media keepalive, with their counters. `heartbeats` and `keepalives` are the packets
-- that went out, the last one first; a random number is an argument.
pub mod Counted
use ha_reolink_battery.Base.{
  ℕ, zero, suc, ◌+◌, ◌%◌, ◌≤◌, ◌<◌, ◌≡◌, refl, sym, ap, ◌∙◌, Bool, true, false, not, ◌&&◌, ◌||◌,
  List, [], ◌∷◌, ◌++◌, Option, none, some, arith, length, All, is_some, if◌then◌else◌,
}
use ha_reolink_battery.Wire.{Bytes, to_bytes, encoded, decimal}
use ha_reolink_battery.Stream.Frames.{baichuan_magic, live_message_class}

-- `encrypt_udp_baichuan` and `calc_crc` of the camera library
pub record Cipher : Type 0 where
  pub encrypt_udp : Bytes → ℕ → Bytes
  pub calc_crc : Bytes → Bytes

pub record Connection : Type 0 where
  pub is_live_protocol : Bool
  pub has_transport : Bool
  pub client_id : Option ℕ
  pub host_id : Option ℕ
  pub fresh_heartbeat_tid_enabled : Bool
  pub handoff_transaction_id : Option ℕ
  -- whether the task exists and is not done
  pub heartbeat_task : Bool
  pub media_keepalive_task : Bool
  pub media_keepalive_msg_num : Option ℕ
  pub p2p_heartbeat_count : ℕ
  pub media_keepalive_count : ℕ
  pub heartbeats : List Bytes
  pub keepalives : List Bytes

unfoldable pub encode_p2p_heartbeat : Cipher → ℕ → ℕ → ℕ → Bytes
encode_p2p_heartbeat cipher transaction_id client_id device_id =
    let payload =
      cipher.encrypt_udp
        (encoded "<P2P><C2D_HB><cid>"
          ++ (decimal client_id
              ++ (encoded "</cid><did>" ++ (decimal device_id ++ encoded "</did></C2D_HB></P2P>"))))
        transaction_id in
    (0x3a ∷ 0xcf ∷ 0x87 ∷ 0x2a ∷ [])
    ++ (to_bytes 4 (length payload)
        ++ ((1 ∷ 0 ∷ 0 ∷ 0 ∷ [])
            ++ (to_bytes 4 transaction_id ++ (cipher.calc_crc payload ++ payload))))

-- `secrets.randbelow(999_000) + 1_000`, from any random number
abbrev drawn_id : ℕ → ℕ
drawn_id draw = draw % 999000 + 1000

abbrev handoff_id : ℕ → Option ℕ → ℕ
handoff_id draw none = drawn_id draw
handoff_id draw (some transaction_id) = transaction_id

abbrev pub heartbeat_id : ℕ → Connection → ℕ
heartbeat_id draw connection =
    if connection.fresh_heartbeat_tid_enabled
    then drawn_id draw
    else handoff_id draw connection.handoff_transaction_id

module _ (cipher : Cipher) where
  heartbeat_to : ℕ → Connection → Option ℕ → Option ℕ → Connection × Bool
  heartbeat_to draw connection (some client_id) (some host_id) = (
    record connection {
      p2p_heartbeat_count = connection.p2p_heartbeat_count + 1;
      heartbeats =
          encode_p2p_heartbeat cipher (heartbeat_id draw connection) client_id host_id
          ∷ connection.heartbeats;
    },
    true,
  )
  heartbeat_to draw connection client_id host_id = (connection, false)

  unfoldable pub send_p2p_heartbeat : ℕ → Connection → Connection × Bool
  unfolding heartbeat_to
  send_p2p_heartbeat draw connection =
      if connection.is_live_protocol && connection.has_transport
      then heartbeat_to draw connection connection.client_id connection.host_id
      else (connection, false)

  -- The loop's turns: the two readings of `connection_open`, and a random number.
  unfoldable pub heartbeat_loop : List (Bool × Bool × ℕ) → Connection → Connection
  heartbeat_loop [] connection = connection
  heartbeat_loop ((open_before, open_after, draw) ∷ turns) connection =
      let next = if open_after then (send_p2p_heartbeat draw connection).0 else connection in
      let later = heartbeat_loop turns next in if open_before then later else connection

  unfoldable pub start_heartbeat : ℕ → Connection → Connection
  start_heartbeat draw connection =
      if connection.heartbeat_task
      then connection
      else record (send_p2p_heartbeat draw connection).0 { heartbeat_task = true }

unfoldable pub stop_heartbeat : Connection → Connection
stop_heartbeat connection = record connection { heartbeat_task = false }

-- The number is drawn once.
abbrev keepalive_number : ℕ → Option ℕ → ℕ
keepalive_number draw none = draw % 65536
keepalive_number draw (some number) = number

abbrev pub keepalive_wire : ℕ → Bytes
keepalive_wire number =
    baichuan_magic
    ++ (to_bytes 4 234
        ++ (to_bytes 4 0
            ++ (to_bytes 1 0
                ++ (to_bytes 1 0
                    ++ (to_bytes 2 number
                        ++ (to_bytes 2 0 ++ (to_bytes 2 live_message_class ++ to_bytes 4 0)))))))

unfoldable pub build_media_keepalive_wire : ℕ → Connection → Bytes × Connection
build_media_keepalive_wire draw connection =
    let number = keepalive_number draw connection.media_keepalive_msg_num in
    (keepalive_wire number, record connection { media_keepalive_msg_num = some number })

abbrev count_keepalive : Bytes → Connection → Connection
count_keepalive wire connection = record connection {
  media_keepalive_count = connection.media_keepalive_count + 1;
  keepalives = wire ∷ connection.keepalives;
}

-- `is_sent` says that the send raised none of the exceptions that are caught.
unfoldable pub send_media_keepalive : (is_open is_sent : Bool) → ℕ → Connection → Connection
send_media_keepalive is_open is_sent draw connection =
    let (wire, after) = build_media_keepalive_wire draw connection in
    if is_open then (if is_sent then count_keepalive wire after else after) else connection

unfoldable pub media_keepalive_loop : List (Bool × Bool × Bool × ℕ) → Connection → Connection
media_keepalive_loop [] connection = connection
media_keepalive_loop ((open_before, open_after, is_sent, draw) ∷ turns) connection =
    let later =
      media_keepalive_loop turns (send_media_keepalive open_after is_sent draw connection) in
    if open_before then later else connection

unfoldable pub start_media_keepalive : (is_open is_sent : Bool) → ℕ → Connection → Connection
start_media_keepalive is_open is_sent draw connection =
    if connection.media_keepalive_task
    then connection
    else record (send_media_keepalive is_open is_sent draw connection) {
      media_keepalive_task = true;
    }

unfoldable pub stop_media_keepalive : Connection → Connection
stop_media_keepalive connection = record connection { media_keepalive_task = false }

-- `close` up to the base class's method
unfoldable pub close : Connection → Connection
close connection = stop_heartbeat (stop_media_keepalive connection)

-- What the connection does, and what its two tasks do, in any order.
pub data Act : Type 0 where
  starts_heartbeat : ℕ → Act
  beats : List (Bool × Bool × ℕ) → Act
  starts_keepalive : Bool → Bool → ℕ → Act
  keeps_alive : List (Bool × Bool × Bool × ℕ) → Act
  logs_in stops : Act

unfoldable pub act : Cipher → Act → Connection → Connection
act cipher (starts_heartbeat draw) connection = start_heartbeat cipher draw connection
act cipher (beats turns) connection = heartbeat_loop cipher turns connection
act cipher (starts_keepalive is_open is_sent draw) connection =
    start_media_keepalive is_open is_sent draw connection
act cipher (keeps_alive turns) connection = media_keepalive_loop turns connection
act cipher logs_in connection = record connection { fresh_heartbeat_tid_enabled = true }
act cipher stops connection = close connection

unfoldable pub act_all : Cipher → List Act → Connection → Connection
act_all cipher [] connection = connection
act_all cipher (a ∷ acts) connection = act_all cipher acts (act cipher a connection)
