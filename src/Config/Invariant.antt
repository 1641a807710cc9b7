-- ===== src/Config/Invariant.antt =====
-- The loop of `load_config` (src/peer.c): what its state has between two events.
use lane_cove_tunnel.Prelude.{
  ℕ, ◌-◌, ◌<◌, ◌≡◌, ◌⊎◌, inl, inr, refl, Bool, true, false, Option, Option-cases, Bool-cases,
  if_both, [], ◌∷◌, arith, length, leb, length-append, length-set,
}
use lane_cove_tunnel.Prelude.Bytes.{Bytes}
use lane_cove_tunnel.Node.{PeerConfig, max_peers, max_routes_per_peer, zero_config}
use lane_cove_tunnel.Cidr.{parse_cidr}
use lane_cove_tunnel.Config.{
  is_text, YamlEvent, scalar, sequence_start, sequence_end, mapping_start, mapping_end, stream_end,
  other_event, LoadState, peer_map, peer_val, allowed_ips_seq, Loading, start_loading,
}
use lane_cove_tunnel.Config.Values.{last_config, set_last, add_route}
use lane_cove_tunnel.Config.Load.{in_root, in_root_val, in_peers_seq, in_peer_map}
use lane_cove_tunnel.Config.Bounds.{
  IsPeerConfig, IsConfig, empty-IsConfig, grown-IsConfig, set-IsConfig, AllRoutes-append,
  parse_cidr-IsRoute,
}

-- The states that write to the last peer.
abbrev pub is_in_peer : LoadState → Bool
is_in_peer peer_map = true
is_in_peer peer_val = true
is_in_peer allowed_ips_seq = true
is_in_peer _ = false

-- The configurations are well formed, and in a peer there is one to write to.
pub record IsLoading (ld : Loading) : Type 0 where
  pub configs_ok : IsConfig ld.peer_configs
  pub has_peer : (is_in_peer ld.state ≡ false) ⊎ (0 < length ld.peer_configs)

pub start_loading-IsLoading : IsLoading start_loading
unfolding start_loading
start_loading-IsLoading = record { configs_ok = empty-IsConfig; has_peer = inl refl }

-- A state with the same peers.
pub same_peers-IsLoading :
    (ld ld' : Loading)
    → IsLoading ld
    → ld'.peer_configs ≡ ld.peer_configs
    → (is_in_peer ld'.state ≡ false) ⊎ (0 < length ld.peer_configs)
    → IsLoading ld'
same_peers-IsLoading ld ld' h same has = record {
  configs_ok = rw same h.configs_ok;
  has_peer = rw same has;
}

pub in_root-IsLoading : (ev : YamlEvent) (ld : Loading) → IsLoading ld → IsLoading (in_root ev ld)
unfolding in_root
in_root-IsLoading (scalar v) ld h = same_peers-IsLoading ld _ h refl (inl refl)
in_root-IsLoading sequence_start ld h = h
in_root-IsLoading sequence_end ld h = h
in_root-IsLoading mapping_start ld h = h
in_root-IsLoading mapping_end ld h = h
in_root-IsLoading stream_end ld h = h
in_root-IsLoading other_event ld h = h

pub in_root_val-IsLoading :
    (ev : YamlEvent) (ld : Loading) → IsLoading ld → IsLoading (in_root_val ev ld)
unfolding in_root_val
in_root_val-IsLoading (scalar v) ld h = same_peers-IsLoading ld _ h refl (inl refl)
in_root_val-IsLoading sequence_start ld h =
    if_both IsLoading (is_text ld.key "peers") _ _ (same_peers-IsLoading ld _ h refl (inl refl)) h
in_root_val-IsLoading sequence_end ld h = h
in_root_val-IsLoading mapping_start ld h = h
in_root_val-IsLoading mapping_end ld h = h
in_root_val-IsLoading stream_end ld h = h
in_root_val-IsLoading other_event ld h = h

pub in_peers_seq-IsLoading :
    (ev : YamlEvent) (ld : Loading) → IsLoading ld → IsLoading (in_peers_seq ev ld).1
unfolding in_peers_seq
in_peers_seq-IsLoading sequence_end ld h = same_peers-IsLoading ld _ h refl (inl refl)
in_peers_seq-IsLoading mapping_start ld h =
    elim (Bool-cases (leb max_peers (length ld.peer_configs))) [
      | inl full ↦ rw (full, in_peers_seq) h
      | inr room ↦
          rw (room, in_peers_seq)
            (record {
              configs_ok = grown-IsConfig ld.peer_configs h.configs_ok (ground (arith, room));
              has_peer = inr (omega (arith, length-append ld.peer_configs (zero_config ∷ [])));
            })
    ]
in_peers_seq-IsLoading (scalar v) ld h = h
in_peers_seq-IsLoading sequence_start ld h = h
in_peers_seq-IsLoading mapping_end ld h = h
in_peers_seq-IsLoading stream_end ld h = h
in_peers_seq-IsLoading other_event ld h = h

pub in_peer_map-IsLoading :
    (ev : YamlEvent) (ld : Loading)
    → is_in_peer ld.state ≡ true
    → IsLoading ld
    → IsLoading (in_peer_map ev ld)
unfolding in_peer_map
in_peer_map-IsLoading (scalar v) ld s h =
    same_peers-IsLoading ld _ h refl (ground (arith, h.has_peer))
in_peer_map-IsLoading mapping_end ld s h = same_peers-IsLoading ld _ h refl (inl refl)
in_peer_map-IsLoading sequence_start ld s h = h
in_peer_map-IsLoading sequence_end ld s h = h
in_peer_map-IsLoading mapping_start ld s h = h
in_peer_map-IsLoading stream_end ld s h = h
in_peer_map-IsLoading other_event ld s h = h

-- Writing a well-formed peer.
pub set_last-IsLoading :
    (ld : Loading) (cfg : PeerConfig)
    → IsLoading ld
    → IsPeerConfig cfg
    → IsLoading (set_last ld cfg)
set_last-IsLoading ld cfg h ok = record {
  configs_ok = set-IsConfig ld.peer_configs (length ld.peer_configs - 1) cfg h.configs_ok ok;
  has_peer =
      ground (arith, h.has_peer, length-set ld.peer_configs (length ld.peer_configs - 1) cfg);
}

pub last_config-IsPeerConfig :
    (ld : Loading) → IsLoading ld → IsPeerConfig (last_config ld.peer_configs)
last_config-IsPeerConfig ld h = h.configs_ok.peers_ok (length ld.peer_configs - 1)

pub add_route-IsLoading :
    (inet_pton : Bytes → Option ℕ) (v : Bytes) (ld : Loading)
    → IsLoading ld
    → IsLoading (add_route inet_pton v ld).1
unfolding add_route
add_route-IsLoading inet_pton v ld h =
    let cfg = last_config ld.peer_configs in
    let ok = last_config-IsPeerConfig ld h in
    elim (Bool-cases (leb max_routes_per_peer (length cfg.routes))) [
      | inl full ↦ rw (full, add_route) h
      | inr room ↦ elim (Option-cases (parse_cidr inet_pton v)) [
        | inl bad ↦ rw (room, bad, add_route) h
        | inr (r, good) ↦
            rw (room, good, add_route)
              (set_last-IsLoading ld _ h (record {
                key_size = ok.key_size;
                few_routes = ground (arith, room, length-append cfg.routes (r ∷ []));
                routes_ok =
                    AllRoutes-append cfg.routes r ok.routes_ok
                      (parse_cidr-IsRoute inet_pton v r good);
                port_ok = ok.port_ok;
              }))
      ]
    ]
