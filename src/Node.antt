-- ===== src/Node.antt =====
-- The state of a running peer: the static variables of src/peer.c and the structures they hold.
-- An array with its count is a list; times are seconds, as `time_t` counts them.
use lane_cove_tunnel.Prelude.{ℕ, Bool, false, Option, none, List, [], replicate, get_or, set}
use lane_cove_tunnel.Prelude.Bytes.{Bytes}
use lane_cove_tunnel.World.{Addr}
use lane_cove_tunnel.Replay.{Window, empty_window}
use lane_cove_tunnel.Handshake.Client.{HsClientState}

abbrev pub max_peers : ℕ
max_peers = 64

abbrev pub max_routes_per_peer : ℕ
max_routes_per_peer = 16

-- ip_prefix_t
pub record IpPrefix : Type 0 where
  pub network : ℕ
  pub mask : ℕ
  pub prefix_len : ℕ

-- peer_config_t; `routes` has `route_count` entries.
pub record PeerConfig : Type 0 where
  pub pub_key : Bytes
  pub routes : List IpPrefix
  pub has_endpoint : Bool
  pub endpoint : Addr
  pub endpoint_host : List ℕ
  pub endpoint_port : ℕ
  pub last_attempt : ℕ

-- peer_session_t; `window` is `recv_seq_highest` with `recv_seq_window`.
pub record Session : Type 0 where
  pub active : Bool
  pub addr : Addr
  pub static_pub : Bytes
  pub session_key : Bytes
  pub prev_session_key : Bytes
  pub prev_key_active : Bool
  pub prev_key_expires : ℕ
  pub last_seen : ℕ
  pub last_sent : ℕ
  pub last_handshake : ℕ
  pub rekey_deadline : ℕ
  pub rekeying : Bool
  pub send_seq : ℕ
  pub window : Window
  pub routes : List IpPrefix
  pub is_outbound : Bool

-- pending_hs_t
pub record PendingHs (PKey : Type 0) : Type 0 where
  pub active : Bool
  pub cfg_idx : ℕ
  pub sent_at : ℕ
  pub hs_state : HsClientState PKey
  pub server_addr : Addr

-- The `cfg_...` variables, which `main` has checked to be positive, and `keepalive_interval`.
pub record Timers : Type 0 where
  pub rekey_after : ℕ
  pub reconnect_interval : ℕ
  pub session_expiry : ℕ
  pub prev_key_grace : ℕ
  pub handshake_timeout : ℕ
  pub handshake_cooldown : ℕ
  pub keepalive_interval : ℕ

-- What `event_loop` is called with.
pub record Self (PKey : Type 0) : Type 0 where
  pub static_key : PKey
  pub static_pub : Bytes
  pub psk_key : Option Bytes
  pub timers : Timers

-- The tables, and `last_rekey_check` of the loop.
pub record Node (PKey : Type 0) : Type 0 where
  pub peer_configs : List PeerConfig
  pub sessions : List Session
  pub pending_hs : List (PendingHs PKey)
  pub precomp_eph_key : Option PKey
  pub precomp_eph_pub : Bytes
  pub last_rekey_check : ℕ

-- Static storage begins with zeros.
abbrev pub zero_addr : Addr
zero_addr = record { ip = 0; port = 0 }

unfoldable pub zero_config : PeerConfig
zero_config = record {
  pub_key = replicate 32 0;
  routes = [];
  has_endpoint = false;
  endpoint = zero_addr;
  endpoint_host = [];
  endpoint_port = 0;
  last_attempt = 0;
}

unfoldable pub zero_session : Session
zero_session = record {
  active = false;
  addr = zero_addr;
  static_pub = replicate 32 0;
  session_key = replicate 32 0;
  prev_session_key = replicate 32 0;
  prev_key_active = false;
  prev_key_expires = 0;
  last_seen = 0;
  last_sent = 0;
  last_handshake = 0;
  rekey_deadline = 0;
  rekeying = false;
  send_seq = 0;
  window = empty_window;
  routes = [];
  is_outbound = false;
}

unfoldable pub zero_pending : {PKey : Type 0} → PendingHs PKey
zero_pending = record {
  active = false;
  cfg_idx = 0;
  sent_at = 0;
  hs_state = record { eph_key = none; eph_pub = replicate 32 0; ecdh_ec_ss = replicate 32 0 };
  server_addr = zero_addr;
}

-- `peer_configs[i]`, read and written
module _ {PKey : Type 0} where
  abbrev pub config_at : Node PKey → ℕ → PeerConfig
  config_at node i = get_or node.peer_configs i zero_config

  abbrev pub set_config : Node PKey → ℕ → PeerConfig → Node PKey
  set_config node i cfg = record node { peer_configs = set node.peer_configs i cfg }

  -- `pending_hs[j]`, read and written
  abbrev pub pending_at : Node PKey → ℕ → PendingHs PKey
  pending_at node j = get_or node.pending_hs j zero_pending

  abbrev pub set_pending : Node PKey → ℕ → PendingHs PKey → Node PKey
  set_pending node j p = record node { pending_hs = set node.pending_hs j p }

  abbrev pub set_session : Node PKey → ℕ → Session → Node PKey
  set_session node i s = record node { sessions = set node.sessions i s }
