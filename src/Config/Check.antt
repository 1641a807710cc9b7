-- ===== src/Config/Check.antt =====
-- The checks of `main` after `load_config`, in their order.
use lane_cove_tunnel.Prelude.{not, ◌||◌, List, ◌==◌, length, if◌then◌else◌}
use lane_cove_tunnel.Prelude.Int.{pos, is_positive, leb_int, magnitude}
use lane_cove_tunnel.Node.{PeerConfig, Timers}
use lane_cove_tunnel.Config.{Settings}

-- The first check that fails, or none of them.
pub data Verdict : Type 0 where
  no_interface no_peers bad_port bad_keepalive bad_rekey bad_reconnect bad_expiry : Verdict
  bad_grace bad_timeout bad_cooldown passed : Verdict

unfoldable pub check_config : Settings → List PeerConfig → Verdict
check_config s peers =
    if length s.tunnel == 0
    then no_interface
    else if length peers == 0
    then no_peers
    else if not (is_positive s.port) || not (leb_int s.port (pos 65535))
    then bad_port
    else if not (is_positive s.keepalive_interval)
    then bad_keepalive
    else if not (is_positive s.rekey_after)
    then bad_rekey
    else if not (is_positive s.reconnect_interval)
    then bad_reconnect
    else if leb_int s.session_expiry s.rekey_after
    then bad_expiry
    else if not (is_positive s.prev_key_grace)
    then bad_grace
    else if not (is_positive s.handshake_timeout)
    then bad_timeout
    else if not (is_positive s.handshake_cooldown)
    then bad_cooldown
    else passed

-- The settings that `event_loop` reads, once they are known to be positive.
unfoldable pub timers_of : Settings → Timers
timers_of s = record {
  rekey_after = magnitude s.rekey_after;
  reconnect_interval = magnitude s.reconnect_interval;
  session_expiry = magnitude s.session_expiry;
  prev_key_grace = magnitude s.prev_key_grace;
  handshake_timeout = magnitude s.handshake_timeout;
  handshake_cooldown = magnitude s.handshake_cooldown;
  keepalive_interval = magnitude s.keepalive_interval;
}
