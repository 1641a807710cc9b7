-- ===== src/Config.antt =====
-- `load_config` of src/peer.c, and the checks that `main` makes of what it loaded. `Values` has what
-- a value does to the settings and to a peer, `Load` the state machine over the events of libyaml,
-- `Check` the checks.
pub mod Values
pub mod Load
pub mod Check
pub mod Bounds
pub mod Invariant
pub mod Sound
pub mod Ends
pub mod Accepted
pub mod Written
pub mod Texts
pub mod Reading
pub mod Peers
pub mod RoundTrip
use Prim.Native.Char.{code}
use Prim.Native.String
use Prim.Native.String.{String}
use lane_cove_tunnel.Prelude.{ℕ, Bool, false, List, [], ◌∷◌}
use lane_cove_tunnel.Prelude.Int.{ℤ, pos}
use lane_cove_tunnel.Prelude.Bytes.{Bytes, bytes_eq}
use lane_cove_tunnel.Node.{PeerConfig}

-- The bytes of an ASCII literal.
abbrev pub codes : String → Bytes
codes String.[] = []
codes (String.◌∷◌ c s) = code c ∷ codes s

-- `strcmp(text, literal) == 0`
abbrev pub is_text : Bytes → String → Bool
is_text text literal = bytes_eq text (codes literal)

-- The events of libyaml that `load_config` tells apart. A scalar has its value up to the first NUL.
pub data YamlEvent : Type 0 where
  scalar : Bytes → YamlEvent
  sequence_start sequence_end mapping_start mapping_end stream_end other_event : YamlEvent

-- What the root of the file sets: locals of `main`, the `cfg_...` variables, and `log_level`. A
-- buffer of characters is the string in it.
pub record Settings : Type 0 where
  pub tunnel : Bytes
  pub address : Bytes
  pub port : ℤ
  pub keepalive_interval : ℤ
  pub rekey_after : ℤ
  pub reconnect_interval : ℤ
  pub session_expiry : ℤ
  pub prev_key_grace : ℤ
  pub handshake_timeout : ℤ
  pub handshake_cooldown : ℤ
  pub keyfile : Bytes
  pub psk : Bytes
  pub has_psk : Bool
  pub log_level : ℕ

-- What they are before a file is read.
unfoldable pub default_settings : Settings
default_settings = record {
  tunnel = [];
  address = [];
  port = pos 5040;
  keepalive_interval = pos 25;
  rekey_after = pos 180;
  reconnect_interval = pos 30;
  session_expiry = pos 540;
  prev_key_grace = pos 90;
  handshake_timeout = pos 5;
  handshake_cooldown = pos 5;
  keyfile = codes "peer.key";
  psk = [];
  has_psk = false;
  log_level = 0;
}

-- S_ROOT and the others
pub data LoadState : Type 0 where
  root root_val peers_seq peer_map peer_val allowed_ips_seq : LoadState

-- What the loop of `load_config` works on.
pub record Loading : Type 0 where
  pub state : LoadState
  pub key : Bytes
  pub peer_key : Bytes
  pub settings : Settings
  pub peer_configs : List PeerConfig

unfoldable pub start_loading : Loading
start_loading = record {
  state = root;
  key = [];
  peer_key = [];
  settings = default_settings;
  peer_configs = [];
}
