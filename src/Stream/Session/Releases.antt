-- ===== src/Stream/Session/Releases.antt =====
-- Whatever a live session meets, it releases all that it took, and it ends without a fault only
-- after the camera accepted the stream.
use ha_reolink_battery.Base.{◌≡◌, true, false}
use mathlib.Core.Logic.{◌≢◌}
use ha_reolink_battery.Stream.Session.{Script, held, adopted, Released}

-- Nothing is left behind.
pub record IsReleased (script : Script) (released : Released) : Type 0 where
  pub lease_closed : released.session.lease ≢ held
  pub no_decryptor : released.session.is_decrypting ≡ false
  pub no_sinks : released.session.has_sinks ≡ false
  pub no_futures : released.session.is_armed ≡ false
  pub stop_set : released.session.is_stopping ≡ true
  pub logged_out : released.logged_out ≡ released.session.has_host
  -- a lease that the connection adopted ends with the connection
  pub socket_closed :
      released.session.lease ≡ adopted → released.closed_connection ≡ script.open_at_end
