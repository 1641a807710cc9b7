-- ===== src/Config/Values.antt =====
-- What a value in the file does: to the settings, by the key at the root, and to the last peer, by
-- the key of the peer. `strncpy` into a buffer keeps as many characters as fit before the NUL.
use lane_cove_tunnel.Prelude.{
  ℕ, ◌-◌, Bool, true, false, ◌&&◌, Option, none, some, List, [], ◌∷◌, ◌++◌, leb, ◌==◌,
  if◌then◌else◌, length, take, get_or, set,
}
use lane_cove_tunnel.Prelude.Int.{pos, negsuc}
use lane_cove_tunnel.Prelude.Bytes.{Bytes}
use lane_cove_tunnel.Crypto.{Crypto}
use lane_cove_tunnel.World.{Env, World}
use lane_cove_tunnel.Hex.{hex_to_bytes}
use lane_cove_tunnel.Node.{PeerConfig, max_routes_per_peer, zero_config}
use lane_cove_tunnel.Cidr.{atoi, parse_cidr}
use lane_cove_tunnel.Loop.Send.{resolve_endpoint}
use lane_cove_tunnel.Config.{is_text, Settings, Loading}

-- The chain of `strcmp` in S_ROOT_VAL.
unfoldable pub set_setting : Bytes → Bytes → Settings → Settings
set_setting key v s =
    if is_text key "interface"
    then record s { tunnel = take 15 v }
    else if is_text key "address"
    then record s { address = take 63 v }
    else if is_text key "port"
    then record s { port = atoi v }
    else if is_text key "keepalive_interval"
    then record s { keepalive_interval = atoi v }
    else if is_text key "rekey_after"
    then record s { rekey_after = atoi v }
    else if is_text key "reconnect_interval"
    then record s { reconnect_interval = atoi v }
    else if is_text key "session_expiry"
    then record s { session_expiry = atoi v }
    else if is_text key "prev_key_grace"
    then record s { prev_key_grace = atoi v }
    else if is_text key "handshake_timeout"
    then record s { handshake_timeout = atoi v }
    else if is_text key "handshake_cooldown"
    then record s { handshake_cooldown = atoi v }
    else if is_text key "private_key_file"
    then record s { keyfile = take 255 v }
    else if is_text key "verbose" && is_text v "true"
    then record s { log_level = 1 }
    else if is_text key "pre_shared_key"
    then record s { psk = take 255 v; has_psk = true }
    else s

-- `strrchr(buf, ':')`: what stands before and behind the last colon.
unfoldable pub split_colon : Bytes → Option (Bytes × Bytes)
split_colon [] = none
split_colon (c ∷ s) = elim (split_colon s) [
  | some (before, after) ↦ some (c ∷ before, after)
  | none ↦ if c == b':' then some ([], s) else none
]

-- `host:port`. A text of 255 characters or more leaves `buf` without its NUL, which is not defined;
-- here it is cut.
unfoldable pub parse_endpoint : Bytes → Option (Bytes × ℕ)
parse_endpoint v = elim (split_colon (take 255 v)) [
  | none ↦ none
  | some ([], after) ↦ none
  | some (c ∷ before, after) ↦ elim (atoi after) [
    | pos n ↦ if leb 1 n && leb n 65535 then some (c ∷ before, n) else none
    | negsuc n ↦ none
  ]
]

-- `peer_configs[peer_config_count - 1]`, read and written
abbrev pub last_config : List PeerConfig → PeerConfig
last_config configs = get_or configs (length configs - 1) zero_config

abbrev pub set_last : Loading → PeerConfig → Loading
set_last ld cfg = record ld { peer_configs = set ld.peer_configs (length ld.peer_configs - 1) cfg }

-- A route for the last peer; `false` stands for `ok = 0`. `inet_pton` as in `parse_cidr`.
unfoldable pub add_route : (Bytes → Option ℕ) → Bytes → Loading → Bool × Loading
add_route inet_pton v ld =
    let cfg = last_config ld.peer_configs in
    if leb max_routes_per_peer (length cfg.routes)
    then (false, ld)
    else elim (parse_cidr inet_pton v) [
      | none ↦ (false, ld)
      | some r ↦ (true, set_last ld (record cfg { routes = cfg.routes ++ (r ∷ []) }))
    ]

module _ {PKey Ctx : Type 0} (c : Crypto PKey Ctx) (e : Env PKey) where
  -- An endpoint that cannot be resolved stays written, but the program ends.
  unfoldable pub set_endpoint : Bytes → PeerConfig → World → Bool × PeerConfig × World
  set_endpoint v cfg w = elim (parse_endpoint v) [
    | none ↦ (false, cfg, w)
    | some (host, port) ↦
        let named : PeerConfig = record cfg {
          endpoint_host = host;
          endpoint_port = port;
          endpoint = record cfg.endpoint { port = port };
        } in
        let (resolved, found, w) = resolve_endpoint c e named w in
        (resolved, if resolved then record found { has_endpoint = true } else found, w)
  ]

  -- A scalar in S_PEER_VAL.
  unfoldable pub set_peer : Bytes → Bytes → PeerConfig → World → Bool × PeerConfig × World
  set_peer key v cfg w =
      if is_text key "public_key"
      then (elim (hex_to_bytes v 32) [
        | none ↦ (false, cfg, w)
        | some pub_key ↦ (true, record cfg { pub_key = pub_key }, w)
      ])
      else if is_text key "endpoint"
      then set_endpoint v cfg w
      else (true, cfg, w)
