-- ===== src/Config/Written.antt =====
-- A configuration as it is written for `load_config` (src/peer.c): the events of the file.
use lane_cove_tunnel.Prelude.{
  ℕ, ◌-◌, ◌*◌, ◌/◌, ◌^◌, ◌≤◌, ◌<◌, ◌≡◌, Bool, true, false, ◌||◌, ◌==◌, Option, none, some, List, [],
  ◌∷◌, ◌++◌, length,
}
use lane_cove_tunnel.Prelude.Int.{pos}
use lane_cove_tunnel.Prelude.Bytes.{Bytes, IsBytes}
use lane_cove_tunnel.World.{Env, Addr}
use lane_cove_tunnel.Decimal.{decimal}
use lane_cove_tunnel.Hex.{bytes_to_hex}
use lane_cove_tunnel.Node.{IpPrefix, PeerConfig, max_routes_per_peer, zero_config}
use lane_cove_tunnel.Config.{
  codes, YamlEvent, scalar, sequence_start, sequence_end, mapping_start, mapping_end, Settings,
  other_event,
}

-- A key at the root with its value.
pub data Setting : Type 0 where
  interface address private_key_file pre_shared_key : Bytes → Setting
  port keepalive_interval rekey_after reconnect_interval session_expiry prev_key_grace : ℕ → Setting
  handshake_timeout handshake_cooldown : ℕ → Setting
  verbose : Bool → Setting

pub record Endpoint : Type 0 where
  pub host : Bytes
  pub port : ℕ
  pub addr : Addr

-- An address, as text and in host byte order, and the length of the prefix.
pub record Route : Type 0 where
  pub address : Bytes
  pub ip : ℕ
  pub prefix_len : ℕ

pub record Peer : Type 0 where
  pub pub_key : Bytes
  pub endpoint : Option Endpoint
  pub routes : List Route

-- What stands at the root, in the order of the file, and the peers.
pub record Written : Type 0 where
  pub settings : List Setting
  pub peers : List Peer

-- How it is written.
unfoldable pub key_of : Setting → Bytes
key_of (interface v) = codes "interface"
key_of (address v) = codes "address"
key_of (private_key_file v) = codes "private_key_file"
key_of (pre_shared_key v) = codes "pre_shared_key"
key_of (port n) = codes "port"
key_of (keepalive_interval n) = codes "keepalive_interval"
key_of (rekey_after n) = codes "rekey_after"
key_of (reconnect_interval n) = codes "reconnect_interval"
key_of (session_expiry n) = codes "session_expiry"
key_of (prev_key_grace n) = codes "prev_key_grace"
key_of (handshake_timeout n) = codes "handshake_timeout"
key_of (handshake_cooldown n) = codes "handshake_cooldown"
key_of (verbose on) = codes "verbose"

unfoldable pub value_of : Setting → Bytes
value_of (interface v) = v
value_of (address v) = v
value_of (private_key_file v) = v
value_of (pre_shared_key v) = v
value_of (port n) = decimal n
value_of (keepalive_interval n) = decimal n
value_of (rekey_after n) = decimal n
value_of (reconnect_interval n) = decimal n
value_of (session_expiry n) = decimal n
value_of (prev_key_grace n) = decimal n
value_of (handshake_timeout n) = decimal n
value_of (handshake_cooldown n) = decimal n
value_of (verbose true) = codes "true"
value_of (verbose false) = codes "false"

abbrev pub endpoint_text : Endpoint → Bytes
endpoint_text endpoint = endpoint.host ++ (b':' ∷ decimal endpoint.port)

abbrev pub route_text : Route → Bytes
route_text r = r.address ++ (b'/' ∷ decimal r.prefix_len)

unfoldable pub endpoint_events : Option Endpoint → List YamlEvent
endpoint_events none = []
endpoint_events (some endpoint) = scalar (codes "endpoint") ∷ (scalar (endpoint_text endpoint) ∷ [])

unfoldable pub route_events : List Route → List YamlEvent
route_events [] = []
route_events (r ∷ routes) = scalar (route_text r) ∷ route_events routes

unfoldable pub peer_events : Peer → List YamlEvent
peer_events p =
    (mapping_start ∷ (scalar (codes "public_key") ∷ (scalar (bytes_to_hex p.pub_key) ∷ [])))
    ++ (endpoint_events p.endpoint
        ++ ((scalar (codes "allowed_ips") ∷ (sequence_start ∷ []))
            ++ (route_events p.routes ++ (sequence_end ∷ (mapping_end ∷ [])))))

unfoldable pub peers_events : List Peer → List YamlEvent
peers_events [] = []
peers_events (p ∷ peers) = peer_events p ++ peers_events peers

unfoldable pub setting_events : List Setting → List YamlEvent
setting_events [] = []
setting_events (x ∷ settings) = scalar (key_of x) ∷ (scalar (value_of x) ∷ setting_events settings)

-- The events up to the end of the stream.
unfoldable pub written_events : Written → List YamlEvent
written_events f =
    (other_event ∷ (other_event ∷ (mapping_start ∷ [])))
    ++ (setting_events f.settings
        ++ ((scalar (codes "peers") ∷ (sequence_start ∷ []))
            ++ (peers_events f.peers ++ (sequence_end ∷ (mapping_end ∷ [])))))

-- What the file means.
unfoldable pub apply_setting : Setting → Settings → Settings
apply_setting (interface v) s = record s { tunnel = v }
apply_setting (address v) s = record s { address = v }
apply_setting (private_key_file v) s = record s { keyfile = v }
apply_setting (pre_shared_key v) s = record s { psk = v; has_psk = true }
apply_setting (port n) s = record s { port = pos n }
apply_setting (keepalive_interval n) s = record s { keepalive_interval = pos n }
apply_setting (rekey_after n) s = record s { rekey_after = pos n }
apply_setting (reconnect_interval n) s = record s { reconnect_interval = pos n }
apply_setting (session_expiry n) s = record s { session_expiry = pos n }
apply_setting (prev_key_grace n) s = record s { prev_key_grace = pos n }
apply_setting (handshake_timeout n) s = record s { handshake_timeout = pos n }
apply_setting (handshake_cooldown n) s = record s { handshake_cooldown = pos n }
apply_setting (verbose true) s = record s { log_level = 1 }
apply_setting (verbose false) s = s

unfoldable pub apply_settings : List Setting → Settings → Settings
apply_settings [] s = s
apply_settings (x ∷ settings) s = apply_settings settings (apply_setting x s)

unfoldable pub with_endpoint : Option Endpoint → PeerConfig → PeerConfig
with_endpoint none cfg = cfg
with_endpoint (some endpoint) cfg = record cfg {
  has_endpoint = true;
  endpoint = endpoint.addr;
  endpoint_host = endpoint.host;
  endpoint_port = endpoint.port;
}

-- The leading bits of the address, and as many ones.
unfoldable pub prefix_of_route : Route → IpPrefix
prefix_of_route r = record {
  network = r.ip / 2 ^ (32 - r.prefix_len) * 2 ^ (32 - r.prefix_len);
  mask = (2 ^ r.prefix_len - 1) * 2 ^ (32 - r.prefix_len);
  prefix_len = r.prefix_len;
}

abbrev pub prefixes : List Route → List IpPrefix
prefixes [] = []
prefixes (r ∷ routes) = prefix_of_route r ∷ prefixes routes

unfoldable pub config_of : Peer → PeerConfig
config_of p = record (with_endpoint p.endpoint (record zero_config { pub_key = p.pub_key })) {
  routes = prefixes p.routes;
}

-- The texts fit the buffers that they are copied to, and the numbers are an `int`.
unfoldable pub IsSetting : Setting → Type 0
IsSetting (interface v) = length v ≤ 15
IsSetting (address v) = length v ≤ 63
IsSetting (private_key_file v) = length v ≤ 255
IsSetting (pre_shared_key v) = length v ≤ 255
IsSetting (port n) = n < 2 ^ 31
IsSetting (keepalive_interval n) = n < 2 ^ 31
IsSetting (rekey_after n) = n < 2 ^ 31
IsSetting (reconnect_interval n) = n < 2 ^ 31
IsSetting (session_expiry n) = n < 2 ^ 31
IsSetting (prev_key_grace n) = n < 2 ^ 31
IsSetting (handshake_timeout n) = n < 2 ^ 31
IsSetting (handshake_cooldown n) = n < 2 ^ 31
IsSetting (verbose on) = Unit {0}

abbrev pub AreSettings : List Setting → Type 0
AreSettings [] = Unit {0}
AreSettings (x ∷ settings) = IsSetting x × AreSettings settings

abbrev pub has_slash : Bytes → Bool
has_slash [] = false
has_slash (b ∷ bytes) = (b == b'/') || has_slash bytes

module _ {PKey : Type 0} (e : Env PKey) (inet_pton : Bytes → Option ℕ) where
  -- A port, and a host that fits the buffer with it and that is resolved.
  pub record IsEndpoint (endpoint : Endpoint) : Type 0 where
    pub named : 0 < length endpoint.host
    pub sized : length endpoint.host ≤ 248
    pub low : 1 ≤ endpoint.port
    pub high : endpoint.port ≤ 65535
    pub resolved :
        (n : ℕ) → e.getaddrinfo n endpoint.host (decimal endpoint.port) ≡ some endpoint.addr

  -- An address that `inet_pton` reads, and the length of a prefix.
  pub record IsRoute (r : Route) : Type 0 where
    pub read : inet_pton r.address ≡ some r.ip
    pub plain : has_slash r.address ≡ false
    pub sized : length r.address ≤ 15
    pub ipv4 : r.ip < 2 ^ 32
    pub short : r.prefix_len ≤ 32

  abbrev pub AreRoutes : List Route → Type 0
  AreRoutes [] = Unit {0}
  AreRoutes (r ∷ routes) = IsRoute r × AreRoutes routes

  abbrev pub IsEndpoint? : Option Endpoint → Type 0
  IsEndpoint? none = Unit {0}
  IsEndpoint? (some endpoint) = IsEndpoint endpoint

  pub record IsPeer (p : Peer) : Type 0 where
    pub bytes : IsBytes p.pub_key
    pub sized : length p.pub_key ≡ 32
    pub reached : IsEndpoint? p.endpoint
    pub routed : AreRoutes p.routes
    pub bounded : length p.routes ≤ max_routes_per_peer

  abbrev pub ArePeers : List Peer → Type 0
  ArePeers [] = Unit {0}
  ArePeers (p ∷ peers) = IsPeer p × ArePeers peers
