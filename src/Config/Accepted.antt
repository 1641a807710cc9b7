-- ===== src/Config/Accepted.antt =====
-- What the checks of `main` (src/peer.c) ensure.
use lane_cove_tunnel.Prelude.{◌≤◌, ◌<◌, ◌≡◌, ◌↔◌, List, arith, length}
use lane_cove_tunnel.Prelude.Int.{magnitude}
use lane_cove_tunnel.Node.{PeerConfig, Timers}
use lane_cove_tunnel.Config.{Settings}
use lane_cove_tunnel.Config.Check.{passed, check_config, timers_of}

-- The numbers are positive, and a session expires only after it is due for a new key.
pub record IsTimers (t : Timers) : Type 0 where
  pub keepalive_ok : 0 < t.keepalive_interval
  pub rekey_ok : 0 < t.rekey_after
  pub reconnect_ok : 0 < t.reconnect_interval
  pub expiry_ok : t.rekey_after < t.session_expiry
  pub grace_ok : 0 < t.prev_key_grace
  pub timeout_ok : 0 < t.handshake_timeout
  pub cooldown_ok : 0 < t.handshake_cooldown

pub record IsAccepted (s : Settings) (peers : List PeerConfig) : Type 0 where
  pub has_interface : 0 < length s.tunnel
  pub has_peers : 0 < length peers
  pub port_low : 0 < magnitude s.port
  pub port_high : magnitude s.port ≤ 65535
  pub timers_ok : IsTimers (timers_of s)

-- `main` goes on to the keys and the tunnel just where there are an interface and a peer, the port
-- is from 1 to 65535, the timers are positive, and `session_expiry` is above `rekey_after`.
pub check_config-IsAccepted :
    (s : Settings) (peers : List PeerConfig) → (check_config s peers ≡ passed) ↔ IsAccepted s peers
unfolding check_config timers_of
check_config-IsAccepted s peers = (
  λ h. record {
    has_interface = ground (arith, h);
    has_peers = ground (arith, h);
    port_low = ground (arith, h);
    port_high = ground (arith, h);
    timers_ok = record {
      keepalive_ok = ground (arith, h);
      rekey_ok = ground (arith, h);
      reconnect_ok = ground (arith, h);
      expiry_ok = ground (arith, h);
      grace_ok = ground (arith, h);
      timeout_ok = ground (arith, h);
      cooldown_ok = ground (arith, h);
    };
  },
  λ a. ground (arith, a.has_interface),
)
