-- ===== src/Stream/Beats/Counted.antt =====
-- The counters of the signs of life count what went out, and all keepalives are alike.
use ha_reolink_battery.Base.{
  ℕ, ◌≡◌, refl, Bool, true, false, ◌&&◌, List, [], ◌∷◌, Option, none, some, arith, length, All,
  if◌then◌else◌,
}
use ha_reolink_battery.Wire.{Bytes}
use ha_reolink_battery.Stream.Beats.{
  Cipher, Connection, heartbeat_to, send_p2p_heartbeat, heartbeat_loop, start_heartbeat,
  stop_heartbeat, keepalive_number, keepalive_wire, build_media_keepalive_wire, count_keepalive,
  send_media_keepalive, media_keepalive_loop, start_media_keepalive, stop_media_keepalive, close,
  Act, starts_heartbeat, beats, starts_keepalive, keeps_alive, logs_in, stops, act, act_all,
}

-- Every keepalive that went out is the one of the number that is stored.
abbrev pub AreAlike : Option ℕ → List Bytes → Type 0
AreAlike none keepalives = keepalives ≡ []
AreAlike (some number) keepalives = All (λ (wire : Bytes). wire ≡ keepalive_wire number) keepalives

pub record IsCounted (connection : Connection) : Type 0 where
  pub heartbeats_counted : length connection.heartbeats ≡ connection.p2p_heartbeat_count
  pub keepalives_counted : length connection.keepalives ≡ connection.media_keepalive_count
  pub alike : AreAlike connection.media_keepalive_msg_num connection.keepalives

-- A step that leaves what is counted alone, but for the flags.
IsCounted-if :
    (b : Bool) (x y : Connection) → IsCounted x → IsCounted y → IsCounted (if b then x else y)
IsCounted-if true x y p q = p
IsCounted-if false x y p q = q

AreAlike-keepalive_number :
    (draw : ℕ) (number : Option ℕ) (keepalives : List Bytes)
    → AreAlike number keepalives
    → AreAlike (some (keepalive_number draw number)) keepalives
AreAlike-keepalive_number draw none [] h = tt
AreAlike-keepalive_number draw none (x ∷ xs) h = cc h
AreAlike-keepalive_number draw (some number) keepalives h = h

module _ (cipher : Cipher) where
  IsCounted-if_sent :
      (b : Bool) (x y : Connection × Bool)
      → IsCounted x.0
      → IsCounted y.0
      → IsCounted (if b then x else y).0
  IsCounted-if_sent true x y p q = p
  IsCounted-if_sent false x y p q = q

  heartbeat_to-IsCounted :
      (draw : ℕ) (connection : Connection) (client_id host_id : Option ℕ)
      → IsCounted connection
      → IsCounted (heartbeat_to cipher draw connection client_id host_id).0
  unfolding heartbeat_to
  heartbeat_to-IsCounted draw connection none host_id h = h
  heartbeat_to-IsCounted draw connection (some c) none h = h
  heartbeat_to-IsCounted draw connection (some c) (some d) h = record {
    heartbeats_counted = omega (arith, h.heartbeats_counted);
    keepalives_counted = h.keepalives_counted;
    alike = h.alike;
  }

  send_p2p_heartbeat-IsCounted :
      (draw : ℕ) (connection : Connection)
      → IsCounted connection
      → IsCounted (send_p2p_heartbeat cipher draw connection).0
  unfolding send_p2p_heartbeat
  send_p2p_heartbeat-IsCounted draw connection h =
      IsCounted-if_sent (connection.is_live_protocol && connection.has_transport) _ _
        (heartbeat_to-IsCounted draw connection connection.client_id connection.host_id h) h

  heartbeat_loop-IsCounted :
      (turns : List (Bool × Bool × ℕ)) (connection : Connection)
      → IsCounted connection
      → IsCounted (heartbeat_loop cipher turns connection)
  unfolding heartbeat_loop
  heartbeat_loop-IsCounted [] connection h = h
  heartbeat_loop-IsCounted ((open_before, open_after, draw) ∷ turns) connection h =
      let next = if open_after then (send_p2p_heartbeat cipher draw connection).0 else connection in
      IsCounted-if open_before (heartbeat_loop cipher turns next) connection
        (heartbeat_loop-IsCounted turns next (
          IsCounted-if open_after (send_p2p_heartbeat cipher draw connection).0 connection
            (send_p2p_heartbeat-IsCounted draw connection h) h))
        h

  start_heartbeat-IsCounted :
      (draw : ℕ) (connection : Connection)
      → IsCounted connection
      → IsCounted (start_heartbeat cipher draw connection)
  unfolding start_heartbeat
  start_heartbeat-IsCounted draw connection h =
      let sent = send_p2p_heartbeat-IsCounted draw connection h in
      IsCounted-if connection.heartbeat_task connection _ h (record {
        heartbeats_counted = sent.heartbeats_counted;
        keepalives_counted = sent.keepalives_counted;
        alike = sent.alike;
      })

build_media_keepalive_wire-IsCounted :
    (draw : ℕ) (connection : Connection)
    → IsCounted connection
    → IsCounted (build_media_keepalive_wire draw connection).1
unfolding build_media_keepalive_wire
build_media_keepalive_wire-IsCounted draw connection h = record {
  heartbeats_counted = h.heartbeats_counted;
  keepalives_counted = h.keepalives_counted;
  alike =
      AreAlike-keepalive_number draw connection.media_keepalive_msg_num connection.keepalives
        h.alike;
}

count_keepalive-IsCounted :
    (draw : ℕ) (connection : Connection)
    → IsCounted connection
    → IsCounted (
        count_keepalive
          (build_media_keepalive_wire draw connection).0
          (build_media_keepalive_wire draw connection).1)
unfolding build_media_keepalive_wire
count_keepalive-IsCounted draw connection h = record {
  heartbeats_counted = h.heartbeats_counted;
  keepalives_counted = omega (arith, h.keepalives_counted);
  alike = (
    refl,
    AreAlike-keepalive_number draw connection.media_keepalive_msg_num connection.keepalives h.alike,
  );
}

send_media_keepalive-IsCounted :
    (is_open is_sent : Bool) (draw : ℕ) (connection : Connection)
    → IsCounted connection
    → IsCounted (send_media_keepalive is_open is_sent draw connection)
unfolding send_media_keepalive
send_media_keepalive-IsCounted is_open is_sent draw connection h =
    IsCounted-if is_open _ connection
      (IsCounted-if is_sent _ _ (count_keepalive-IsCounted draw connection h)
        (build_media_keepalive_wire-IsCounted draw connection h))
      h

media_keepalive_loop-IsCounted :
    (turns : List (Bool × Bool × Bool × ℕ)) (connection : Connection)
    → IsCounted connection
    → IsCounted (media_keepalive_loop turns connection)
unfolding media_keepalive_loop
media_keepalive_loop-IsCounted [] connection h = h
media_keepalive_loop-IsCounted ((open_before, open_after, is_sent, draw) ∷ turns) connection h =
    IsCounted-if open_before _ connection
      (media_keepalive_loop-IsCounted turns
        (send_media_keepalive open_after is_sent draw connection)
        (send_media_keepalive-IsCounted open_after is_sent draw connection h))
      h

start_media_keepalive-IsCounted :
    (is_open is_sent : Bool) (draw : ℕ) (connection : Connection)
    → IsCounted connection
    → IsCounted (start_media_keepalive is_open is_sent draw connection)
unfolding start_media_keepalive
start_media_keepalive-IsCounted is_open is_sent draw connection h =
    let sent = send_media_keepalive-IsCounted is_open is_sent draw connection h in
    IsCounted-if connection.media_keepalive_task connection _ h (record {
      heartbeats_counted = sent.heartbeats_counted;
      keepalives_counted = sent.keepalives_counted;
      alike = sent.alike;
    })

act-IsCounted :
    (cipher : Cipher) (a : Act) (connection : Connection)
    → IsCounted connection
    → IsCounted (act cipher a connection)
unfolding act close stop_heartbeat stop_media_keepalive
act-IsCounted cipher (starts_heartbeat draw) connection h =
    start_heartbeat-IsCounted cipher draw connection h
act-IsCounted cipher (beats turns) connection h = heartbeat_loop-IsCounted cipher turns connection h
act-IsCounted cipher (starts_keepalive is_open is_sent draw) connection h =
    start_media_keepalive-IsCounted is_open is_sent draw connection h
act-IsCounted cipher (keeps_alive turns) connection h =
    media_keepalive_loop-IsCounted turns connection h
act-IsCounted cipher logs_in connection h = record {
  heartbeats_counted = h.heartbeats_counted;
  keepalives_counted = h.keepalives_counted;
  alike = h.alike;
}
act-IsCounted cipher stops connection h = record {
  heartbeats_counted = h.heartbeats_counted;
  keepalives_counted = h.keepalives_counted;
  alike = h.alike;
}

-- Whatever a live connection and its two tasks do, the trace counts the heartbeats and the
-- keepalives that went out, no more and no fewer, and every keepalive of the connection carries
-- the one number that was drawn for the first.
pub act_all-IsCounted :
    (cipher : Cipher) (acts : List Act) (connection : Connection)
    → IsCounted connection
    → IsCounted (act_all cipher acts connection)
unfolding act_all
act_all-IsCounted cipher [] connection h = h
act_all-IsCounted cipher (a ∷ acts) connection h =
    act_all-IsCounted cipher acts (act cipher a connection) (act-IsCounted cipher a connection h)
