-- ===== src/Config/Sound.antt =====
-- `load_config` (src/peer.c) as a whole: the values of a peer, the `switch`, the loop.
use lane_cove_tunnel.Prelude.{
  ℕ, zero, suc, ◌≤◌, ◌≡◌, inl, inr, refl, Bool, true, ◌&&◌, not, Option, none, some, Option-cases,
  Bool-cases, if_both, arith,
}
use mathlib.Core.Path.{subst}
use lane_cove_tunnel.Prelude.Bytes.{Bytes}
use lane_cove_tunnel.Crypto.{Crypto}
use lane_cove_tunnel.World.{Env, World}
use lane_cove_tunnel.Hex.{hex_to_bytes}
use lane_cove_tunnel.Node.{PeerConfig}
use lane_cove_tunnel.Loop.Send.{resolve_endpoint}
use lane_cove_tunnel.Config.{
  is_text, YamlEvent, scalar, sequence_start, sequence_end, mapping_start, mapping_end, stream_end,
  other_event, LoadState, root, root_val, peers_seq, peer_map, peer_val, allowed_ips_seq, Loading,
  start_loading,
}
use lane_cove_tunnel.Config.Values.{parse_endpoint, last_config, set_last, set_endpoint, set_peer}
use lane_cove_tunnel.Config.Load.{
  in_peer_val, in_allowed_ips_seq, is_end, load_in, load_loop, load_config,
}
use lane_cove_tunnel.Config.Bounds.{IsPeerConfig, length-hex_to_bytes}
use lane_cove_tunnel.Config.Invariant.{
  is_in_peer, IsLoading, start_loading-IsLoading, same_peers-IsLoading, in_root-IsLoading,
  in_root_val-IsLoading, in_peers_seq-IsLoading, in_peer_map-IsLoading, set_last-IsLoading,
  last_config-IsPeerConfig, add_route-IsLoading,
}

-- The state that a result carries.
abbrev IsLoaded : Option (Bool × Loading × World) → Type 0
IsLoaded none = Unit {0}
IsLoaded (some (ok, ld, w)) = IsLoading ld

parse_endpoint-bound :
    (v host : Bytes) (port : ℕ) → parse_endpoint v ≡ some (host, port) → (1 ≤ port) × (port ≤ 65535)
unfolding parse_endpoint
parse_endpoint-bound v host port h = ground arith

in_allowed_ips_seq-IsLoading :
    (inet_pton : Bytes → Option ℕ) (ev : YamlEvent) (ld : Loading)
    → is_in_peer ld.state ≡ true
    → IsLoading ld
    → IsLoading (in_allowed_ips_seq inet_pton ev ld).1
unfolding in_allowed_ips_seq
in_allowed_ips_seq-IsLoading inet_pton (scalar v) ld s h = add_route-IsLoading inet_pton v ld h
in_allowed_ips_seq-IsLoading inet_pton sequence_end ld s h =
    same_peers-IsLoading ld _ h refl (ground (arith, h.has_peer))
in_allowed_ips_seq-IsLoading inet_pton sequence_start ld s h = h
in_allowed_ips_seq-IsLoading inet_pton mapping_start ld s h = h
in_allowed_ips_seq-IsLoading inet_pton mapping_end ld s h = h
in_allowed_ips_seq-IsLoading inet_pton stream_end ld s h = h
in_allowed_ips_seq-IsLoading inet_pton other_event ld s h = h

module _ {PKey Ctx : Type 0} (c : Crypto PKey Ctx) (e : Env PKey) where
  -- The resolver changes the address alone.
  resolve_endpoint-same :
      (cfg : PeerConfig) (w : World)
      → let cfg' = (resolve_endpoint c e cfg w).1 in
        (cfg'.pub_key ≡ cfg.pub_key)
        × (cfg'.routes ≡ cfg.routes)
        × (cfg'.has_endpoint ≡ cfg.has_endpoint)
        × (cfg'.endpoint_port ≡ cfg.endpoint_port)
  unfolding resolve_endpoint
  resolve_endpoint-same cfg w = ground arith

  set_endpoint-IsPeerConfig :
      (v : Bytes) (cfg : PeerConfig) (w : World)
      → IsPeerConfig cfg
      → IsPeerConfig (set_endpoint c e v cfg w).1
  unfolding set_endpoint
  set_endpoint-IsPeerConfig v cfg w ok = elim (Option-cases (parse_endpoint v)) [
    | inl bad ↦ rw (bad, set_endpoint) ok
    | inr ((host, port), good) ↦
        let named : PeerConfig = record cfg {
          endpoint_host = host;
          endpoint_port = port;
          endpoint = record cfg.endpoint { port = port };
        } in
        let (key, routes, has, at) = resolve_endpoint-same named w in
        let range = parse_endpoint-bound v host port good in
        rw (good, set_endpoint)
          (if_both IsPeerConfig (resolve_endpoint c e named w).0 _ _
            (record {
              key_size = rw key ok.key_size;
              few_routes = rw routes ok.few_routes;
              routes_ok = rw routes ok.routes_ok;
              port_ok = inr (rw at range);
            })
            (record {
              key_size = rw key ok.key_size;
              few_routes = rw routes ok.few_routes;
              routes_ok = rw routes ok.routes_ok;
              port_ok = inr (rw at range);
            }))
  ]

  set_peer-IsPeerConfig :
      (key v : Bytes) (cfg : PeerConfig) (w : World)
      → IsPeerConfig cfg
      → IsPeerConfig (set_peer c e key v cfg w).1
  unfolding set_peer
  set_peer-IsPeerConfig key v cfg w ok = elim (Bool-cases (is_text key "public_key")) [
    | inl is_key ↦ elim (Option-cases (hex_to_bytes v 32)) [
      | inl bad ↦ rw (is_key, bad, set_peer) ok
      | inr (pub_key, good) ↦
          rw (is_key, good, set_peer)
            (record {
              key_size = length-hex_to_bytes v 32 {bytes = pub_key} good;
              few_routes = ok.few_routes;
              routes_ok = ok.routes_ok;
              port_ok = ok.port_ok;
            })
    ]
    | inr no_key ↦ elim (Bool-cases (is_text key "endpoint")) [
      | inl is_endpoint ↦ rw (no_key, is_endpoint, set_peer) (set_endpoint-IsPeerConfig v cfg w ok)
      | inr other ↦ rw (no_key, other, set_peer) ok
    ]
  ]

  in_peer_val-IsLoading :
      (ev : YamlEvent) (ld : Loading) (w : World)
      → is_in_peer ld.state ≡ true
      → IsLoading ld
      → IsLoading (in_peer_val c e ev ld w).1
  unfolding in_peer_val
  in_peer_val-IsLoading (scalar v) ld w s h =
      let (ok, cfg, w') = set_peer c e ld.peer_key v (last_config ld.peer_configs) w in
      let kept = set_last-IsLoading ld cfg h (
        set_peer-IsPeerConfig ld.peer_key v (last_config ld.peer_configs) w
          (last_config-IsPeerConfig ld h)) in
      if_both IsLoading ok _ _
        (same_peers-IsLoading (set_last ld cfg) _ kept refl (ground (arith, s, kept.has_peer))) kept
  in_peer_val-IsLoading sequence_start ld w s h =
      if_both IsLoading (is_text ld.peer_key "allowed_ips") _ _
        (same_peers-IsLoading ld _ h refl (ground (arith, h.has_peer))) h
  in_peer_val-IsLoading sequence_end ld w s h = h
  in_peer_val-IsLoading mapping_start ld w s h = h
  in_peer_val-IsLoading mapping_end ld w s h = h
  in_peer_val-IsLoading stream_end ld w s h = h
  in_peer_val-IsLoading other_event ld w s h = h

  module _ (inet_pton : Bytes → Option ℕ) where
    load_in-IsLoading :
        (state : LoadState) (ev : YamlEvent) (ld : Loading) (w : World)
        → ld.state ≡ state
        → IsLoading ld
        → IsLoading (load_in c e inet_pton state ev ld w).1
    unfolding load_in
    load_in-IsLoading root ev ld w s h = in_root-IsLoading ev ld h
    load_in-IsLoading root_val ev ld w s h = in_root_val-IsLoading ev ld h
    load_in-IsLoading peers_seq ev ld w s h = in_peers_seq-IsLoading ev ld h
    load_in-IsLoading peer_map ev ld w s h = in_peer_map-IsLoading ev ld (rw s refl) h
    load_in-IsLoading peer_val ev ld w s h = in_peer_val-IsLoading ev ld w (rw s refl) h
    load_in-IsLoading allowed_ips_seq ev ld w s h =
        in_allowed_ips_seq-IsLoading inet_pton ev ld (rw s refl) h

    load_loop-IsLoading :
        (yaml : ℕ → Option YamlEvent) (fuel n : ℕ) (ld : Loading) (w : World)
        → IsLoading ld
        → IsLoaded (load_loop c e inet_pton yaml fuel n ld w)
    unfolding load_loop
    load_loop-IsLoading yaml zero n ld w h = tt
    load_loop-IsLoading yaml (suc fuel) n ld w h = elim (Option-cases (yaml n)) [
      | inl broken ↦ rw (broken, load_loop) h
      | inr (ev, parsed) ↦
          let (ok, ld', w') = load_in c e inet_pton ld.state ev ld w in
          let h' = load_in-IsLoading ld.state ev ld w refl h in
          rw (parsed, load_loop)
            (if_both IsLoaded (ok && not (is_end ev)) _ _
              (load_loop-IsLoading yaml fuel (suc n) ld' w' h') h')
    ]

    -- Whatever events libyaml gives and whatever the resolver answers: the peers that `load_config`
    -- has read are at most `max_peers`, each with a key of 32 bytes, at most `max_routes_per_peer`
    -- routes, every route a prefix of at most 32 bits with the mask of that length, and with a port
    -- from 1 to 65535 if it has an endpoint. In the states that write to the last peer there is one.
    pub load_config-IsLoading :
        (opens initializes : Bool) (yaml : ℕ → Option YamlEvent) (fuel : ℕ) (w : World) {ok : Bool}
        {ld : Loading} {w' : World}
        → load_config c e inet_pton opens initializes yaml fuel w ≡ some (ok, ld, w')
        → IsLoading ld
    unfolding load_config
    load_config-IsLoading opens initializes yaml fuel w h = subst IsLoaded h (
        if_both IsLoaded (opens && initializes) _ _
          (load_loop-IsLoading yaml fuel 0 start_loading w start_loading-IsLoading)
          start_loading-IsLoading)
