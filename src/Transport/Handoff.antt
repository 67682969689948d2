-- ===== src/Transport/Handoff.antt =====
-- The lease of transport.py and `BoundBaichuanUdpConnection`: the socket of the search passes once
-- from the lease to the connection. The lease object is shared by the session and the connection,
-- so it stands in the state once; `is_held` says whether the connection still refers to it.
use ha_reolink_battery.Base.{
  ℕ, ◌≡◌, Bool, true, false, not, ◌||◌, String, Option, none, some, ◌==◌, if◌then◌else◌,
}
use ha_reolink_battery.Transport.{Socket, opened, closed}

pub record UidLanLease : Type 0 where
  pub host : String
  pub port : ℕ
  pub source_ip : String
  pub client_id : ℕ
  pub device_id : ℕ
  pub transaction_id : ℕ
  pub socket : Option Socket

pub record BoundConnection : Type 0 where
  pub host : String
  pub source_ip : String
  pub lease : UidLanLease
  pub handoff_mode : Bool
  pub is_held : Bool
  pub handoff_active : Bool
  pub handoff_transaction_id : Option ℕ
  pub port : Option ℕ
  -- the protocol's `client_id` and `host_id`
  pub protocol_ids : Option (ℕ × ℕ)
  -- the socket under the connection's transport
  pub socket : Option Socket
  pub connection_open : Bool

pub data Connected : Type 0 where
  connected : Connected
  -- `OSError`, `RuntimeError` and `ReolinkConnectionError` of the code itself
  mismatched no_socket cannot_reopen not_opened : Connected
  -- an exception of the endpoint's creation
  endpoint_failed : Connected

-- `detach_socket`, `none` where it raises
unfoldable pub detach_socket : UidLanLease → Option (UidLanLease × Socket)
detach_socket lease = elim lease.socket [
  | some opened ↦ some (record lease { socket = none }, opened)
  | some closed ↦ none
  | none ↦ none
]

-- `close` of the lease; the second part says whether a disconnect was sent.
unfoldable pub close_lease : UidLanLease → UidLanLease × Bool
close_lease lease = elim lease.socket [
  | some opened ↦ (record lease { socket = none }, true)
  | some closed ↦ (lease, false)
  | none ↦ (lease, false)
]

-- The endpoint on the lease's socket: what `_create_connection` does once the socket is taken. The
-- base class's `connect` then says whether the connection is open.
unfoldable pub open_endpoint :
    (is_made reports_open : Bool) → BoundConnection → BoundConnection × Connected
open_endpoint false reports_open connection =
    (record connection { socket = some closed }, endpoint_failed)
open_endpoint true false connection = (
  record connection {
    socket = some opened;
    port = some connection.lease.port;
    protocol_ids = some (connection.lease.client_id, connection.lease.device_id);
  },
  not_opened,
)
open_endpoint true true connection = (
  record connection {
    socket = some opened;
    port = some connection.lease.port;
    protocol_ids = some (connection.lease.client_id, connection.lease.device_id);
    connection_open = true;
  },
  connected,
)

after_detach :
    (is_made reports_open : Bool)
    → BoundConnection
    → Option (UidLanLease × Socket)
    → BoundConnection × Connected
after_detach is_made reports_open connection none = (connection, no_socket)
after_detach is_made reports_open connection (some (lease, socket)) =
    open_endpoint is_made reports_open (record connection {
      lease = lease;
      is_held = false;
      handoff_active = true;
      handoff_transaction_id = some lease.transaction_id;
    })

-- `_take_handoff_socket` and what follows it, for a lease that the connection refers to.
unfoldable pub adopt_lease :
    (is_made reports_open : Bool) → BoundConnection → BoundConnection × Connected
unfolding after_detach
adopt_lease is_made reports_open connection =
    if not (connection.lease.host == connection.host)
      || not (connection.lease.source_ip == connection.source_ip)
    then (connection, mismatched)
    else after_detach is_made reports_open connection (detach_socket connection.lease)

-- `connect` in the handoff mode
unfoldable pub connect :
    (is_made reports_open : Bool) → BoundConnection → BoundConnection × Connected
connect is_made reports_open connection =
    if connection.connection_open
    then (connection, connected)
    else if connection.is_held
    then adopt_lease is_made reports_open connection
    else (connection, cannot_reopen)

-- One owner: a lease with an open socket is still held, and the connection has none; a connection
-- that is open has the open socket; and what the connection took, the lease no longer has.
pub record IsOwned (connection : BoundConnection) : Type 0 where
  pub lease_first : connection.lease.socket ≡ some opened → connection.socket ≡ none
  pub open_has_socket : connection.connection_open ≡ true → connection.socket ≡ some opened
  pub taken_once : connection.is_held ≡ false → connection.lease.socket ≡ none

-- What a connect means: it succeeds over the one socket that the lease gave up, and on every other
-- way the open socket is the lease's still, the connection's, or closed.
abbrev pub Handed : BoundConnection → Connected → BoundConnection → Type 0
Handed before connected after = (after.connection_open ≡ true) × (after.lease.socket ≡ none)
Handed before mismatched after = after ≡ before
Handed before no_socket after = after ≡ before
Handed before cannot_reopen after = after ≡ before
Handed before not_opened after = (after.socket ≡ some opened) × (after.lease.socket ≡ none)
Handed before endpoint_failed after = (after.socket ≡ some closed) × (after.lease.socket ≡ none)

module _ (before : BoundConnection) where
  abbrev Hands : BoundConnection × Connected → Type 0
  Hands (after, how) = IsOwned after × Handed before how after

abbrev socket_of : Option (UidLanLease × Socket) → Option Socket
socket_of none = none
socket_of (some (lease, s)) = lease.socket
