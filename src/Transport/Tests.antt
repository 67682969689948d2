-- ===== src/Transport/Tests.antt =====
-- transport.py: the theorems at two routes, a reply of nine bytes, and a search that finds a camera.
use ha_reolink_battery.Base.{
  ◌+◌, ◌-◌, ◌*◌, ◌≤◌, ◌≡◌, refl, Bool, true, false, not, String, Option, none, some, List, [], ◌∷◌,
  ◌++◌, arith, any, ltb,
}
use mathlib.Core.Logic.{◌≢◌}
use ha_reolink_battery.Wire.{Bytes}
use ha_reolink_battery.Transport.{
  RouteLine, best_route, Codec, wrap_payload, device_of, parse_reply, SearchTurn, silent, datagram,
  searching, search_loop, opened,
}
use ha_reolink_battery.Transport.Route.{IsBest, best_route-IsBest}
use ha_reolink_battery.Transport.Replies.{IsReply, parse_reply-IsReply, parse_reply-wrap_payload}
use ha_reolink_battery.Transport.Searches.{Disposed, new_search, search_loop_bounds}
use ha_reolink_battery.Transport.Handoff.{UidLanLease, BoundConnection}

abbrev default_line : RouteLine
default_line = record { name = "wan"; network = 0; flags = 3; metric = 100; mask = 0 }

abbrev lan_line : RouteLine
lan_line = record { name = "lan"; network = 43200; flags = 1; metric = 0; mask = 65535 }

abbrev lines : List (Option RouteLine)
lines = some default_line ∷ none ∷ some lan_line ∷ []

abbrev no_order : String → String → Bool
no_order a b = false

best_route-IsBest_example : IsBest 43200 lines (best_route no_order 43200 lines none)
best_route-IsBest_example = best_route-IsBest no_order 43200 lines

-- A payload is its own reply, to the client "7" from the device 8.
abbrev codec : Codec
codec = record {
  encrypt_udp = λ x n. x;
  calc_crc = λ x. 1 ∷ 2 ∷ 3 ∷ 4 ∷ [];
  read_reply = λ x n. some (record { cid = some "7"; did = some 8 });
  str_of = λ n. "7";
}

abbrev reply : Bytes
reply = wrap_payload codec 5000 (9 ∷ []) ++ 0 ∷ []

parse_reply-wrap_payload_example :
    parse_reply codec reply 7 ≡ device_of codec 7 (codec.read_reply (9 ∷ []) 5000)
parse_reply-wrap_payload_example =
    parse_reply-wrap_payload codec 5000 7 (9 ∷ []) (0 ∷ []) (omega arith) (omega arith) refl

reply_taken : parse_reply codec reply 7 ≡ some 8
unfolding device_of
reply_taken = parse_reply-wrap_payload_example

parse_reply-IsReply_example : IsReply codec reply 7 8
parse_reply-IsReply_example = parse_reply-IsReply codec reply 7 8 reply_taken

abbrev turns : List SearchTurn
turns =
    record { checked = 1000; now = 1000; reception = silent }
    ∷ record { checked = 400000; now = 400000; reception = silent }
    ∷ record { checked = 600000; now = 600000; reception = datagram reply 3 }
    ∷ []

search_loop_bounds_example :
    let (search, found) = search_loop codec 4 7 15001000 turns new_search in
    (search.trace.send_rounds * 500000 ≤ (600000 - 1000) + 500000)
    × (search.trace.datagrams_sent ≡ search.trace.send_rounds * 4)
    × Disposed search found
    × (any (λ t. not (ltb t.checked 15001000)) turns ≡ true → found ≢ searching)
search_loop_bounds_example =
    search_loop_bounds codec 4 7 15001000 1000 600000 turns
      ((omega arith, omega arith), ((omega arith, omega arith), ((omega arith, omega arith), tt)))

abbrev found_lease : UidLanLease
found_lease = record {
  host = "camera";
  port = 2018;
  source_ip = "here";
  client_id = 7;
  device_id = 8;
  transaction_id = 5000;
  socket = some opened;
}

abbrev leased : BoundConnection
leased = record {
  host = "camera";
  source_ip = "here";
  lease = found_lease;
  handoff_mode = true;
  is_held = true;
  handoff_active = false;
  handoff_transaction_id = none;
  port = none;
  protocol_ids = none;
  socket = none;
  connection_open = false;
}
