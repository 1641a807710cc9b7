-- ===== src/Config/Peers.antt =====
-- Steps of `load_config` (src/peer.c) over written peers, and its loop up to the stream's end.
use mathlib.Core.List.{append_assoc, append-nil}
use lane_cove_tunnel.Prelude.{
  ℕ, zero, suc, ◌+◌, ◌≤◌, ◌<◌, ◌≡◌, refl, ap, ◌∙◌, true, not, ◌&&◌, Option, none, some, List, [],
  ◌∷◌, ◌++◌, length, get_elem?, map, length-append, arith, Bool-cases, inl, inr,
}
use lane_cove_tunnel.Prelude.Bytes.{Bytes, bytes_eq}
use lane_cove_tunnel.Crypto.{Crypto}
use lane_cove_tunnel.World.{Env, World}
use lane_cove_tunnel.Node.{PeerConfig, max_peers, zero_config}
use lane_cove_tunnel.Config.{
  codes, YamlEvent, scalar, sequence_start, sequence_end, mapping_end, stream_end, Settings, root,
  peers_seq, peer_map, allowed_ips_seq, Loading,
}
use lane_cove_tunnel.Config.Load.{
  in_root, in_peer_map, in_peer_val, in_allowed_ips_seq, is_end, load_in, load_loop,
}
use lane_cove_tunnel.Config.Ends.{load_loop-some}
use lane_cove_tunnel.Config.Written.{
  Endpoint, Peer, endpoint_events, route_events, peer_events, peers_events, with_endpoint,
  config_of, IsPeer, ArePeers,
}
use lane_cove_tunnel.Config.Reading.{
  at, read, read-append, read-routes, read-pub_key, read-endpoint,
}

no_routes :
    (endpoint : Option Endpoint) (pub_key : Bytes)
    → (with_endpoint endpoint (record zero_config { pub_key = pub_key })).routes ≡ []
unfolding with_endpoint zero_config
no_routes none pub_key = refl
no_routes (some endpoint) pub_key = refl

module _ {PKey Ctx : Type 0} (c : Crypto PKey Ctx) (e : Env PKey)
    (inet_pton : Bytes → Option ℕ) where
  module _ (key : Bytes) (s : Settings) where
    abbrev close : List YamlEvent
    close = sequence_end ∷ (mapping_end ∷ [])

    abbrev rest : Peer → List YamlEvent
    rest p =
        (scalar (codes "allowed_ips") ∷ (sequence_start ∷ [])) ++ (route_events p.routes ++ close)

    opened :
        (cfg : PeerConfig) (configs : List PeerConfig) (peer_key : Bytes) (w : World)
        (events : List YamlEvent)
        → read c e inet_pton
            (scalar (codes "allowed_ips") ∷ (sequence_start ∷ events))
            (at peer_map key peer_key s (configs ++ cfg ∷ []))
            w
          ≡ read c e inet_pton events
              (at allowed_ips_seq key (codes "allowed_ips") s (configs ++ cfg ∷ []))
              w
    unfolding read load_in in_peer_map in_peer_val bytes_eq
    opened cfg configs peer_key w events = refl

    closed :
        (cfg : PeerConfig) (configs : List PeerConfig) (w : World)
        → read c e inet_pton close
            (at allowed_ips_seq key (codes "allowed_ips") s (configs ++ cfg ∷ []))
            w
          ≡ some (at peers_seq key (codes "allowed_ips") s (configs ++ cfg ∷ []), w)
    unfolding read load_in in_allowed_ips_seq in_peer_map
    closed cfg configs w = refl

    -- One peer, between two mappings of the list.
    read-peer :
        (p : Peer) (configs : List PeerConfig) (peer_key : Bytes) (w : World)
        → IsPeer e inet_pton p
        → length configs + 1 ≤ max_peers
        → (peer_key' : Bytes) × (w' : World) × (read c e inet_pton
              (peer_events p)
              (at peers_seq key peer_key s configs)
              w
            ≡ some (at peers_seq key peer_key' s (configs ++ config_of p ∷ []), w'))
    unfolding peer_events config_of
    read-peer p configs peer_key w h room =
        let first : PeerConfig = record zero_config { pub_key = p.pub_key } in
        let begins =
          read-pub_key c e inet_pton key s configs peer_key p.pub_key w h.bytes h.sized
            (omega (arith, room)) in
        let (k, w', reached) =
          read-endpoint c e inet_pton key s configs p.endpoint first (codes "public_key") w
            h.reached in
        let cfg = with_endpoint p.endpoint first in
        let fits = no_routes p.endpoint p.pub_key in
        let routed =
          read-routes c e inet_pton key s configs p.routes cfg (codes "allowed_ips") w' h.routed
            (rw fits (omega (arith, h.bounded))) in
        (
          codes "allowed_ips",
          w',
          read-append c e inet_pton _ (endpoint_events p.endpoint ++ rest p) _ _ w w begins
              ∙ (read-append c e inet_pton (endpoint_events p.endpoint) (rest p) _ _ w w' reached
                  ∙ (opened cfg configs k w' (route_events p.routes ++ close)
                      ∙ (read-append c e inet_pton (route_events p.routes) close _ _ w' w' routed
                          ∙ closed _ configs w'
                          ∙ rw fits))),
        )

    pub read-peers :
        (peers : List Peer) (configs : List PeerConfig) (peer_key : Bytes) (w : World)
        → ArePeers e inet_pton peers
        → length configs + length peers ≤ max_peers
        → (peer_key' : Bytes) × (w' : World) × (read c e inet_pton
              (peers_events peers)
              (at peers_seq key peer_key s configs)
              w
            ≡ some (at peers_seq key peer_key' s (configs ++ map config_of peers), w'))
    unfolding read peers_events
    read-peers [] configs peer_key w h room = (peer_key, w, rw (append-nil configs))
    read-peers (p ∷ peers) configs peer_key w (here, h) room =
        let (k, v, reads) = read-peer p configs peer_key w here (omega (arith, room)) in
        let (k', v', later) =
          read-peers peers (configs ++ config_of p ∷ []) k v h
            (omega (arith, room, length-append configs (config_of p ∷ []))) in
        (
          k',
          v',
          read-append c e inet_pton (peer_events p) (peers_events peers) _ _ w v reads
              ∙ (rw (append_assoc configs (config_of p ∷ []) (map config_of peers)) at later),
        )

  module _ (key peer_key : Bytes) (s : Settings) (configs : List PeerConfig) where
    abbrev done : Loading
    done = at root key peer_key s configs

    load_loop-end :
        (yaml : ℕ → Option YamlEvent) (n fuel : ℕ) (w : World)
        → yaml n ≡ some stream_end
        → load_loop c e inet_pton yaml (suc fuel) n done w ≡ some (true, done, w)
    unfolding load_in in_root
    load_loop-end yaml n fuel w ends =
        load_loop-some c e inet_pton yaml fuel n done w stream_end ends

    -- The loop over events that are read, and then the end of the stream.
    pub load_loop-read :
        (yaml : ℕ → Option YamlEvent) (events : List YamlEvent) (n fuel : ℕ) (ld : Loading)
        (w w' : World)
        → ((k : ℕ) → yaml (n + k) ≡ get_elem? (events ++ stream_end ∷ []) k)
        → read c e inet_pton events ld w ≡ some (done, w')
        → length events < fuel
        → load_loop c e inet_pton yaml fuel n ld w ≡ some (true, done, w')
    unfolding read
    load_loop-read yaml events n zero ld w w' fed reads lt = absurd (omega arith)
    load_loop-read yaml [] n (suc fuel) ld w w' fed reads lt =
        let same : ld ≡ done = cc reads in
        let same_world : w ≡ w' = cc reads in
        let ends : yaml n ≡ some stream_end = ap yaml (omega arith) ∙ fed 0 in
        ap (λ (l : Loading). load_loop c e inet_pton yaml (suc fuel) n l w) same
        ∙ (load_loop-end yaml n fuel w ends ∙ ap (λ (v : World). some (true, done, v)) same_world)
    load_loop-read yaml (ev ∷ events) n (suc fuel) ld w w' fed reads lt =
        let (ok, ld₁, w₁) = load_in c e inet_pton ld.state ev ld w in
        let here : yaml n ≡ some ev = ap yaml (omega arith) ∙ fed 0 in
        elim (Bool-cases (ok && not (is_end ev))) [
          | inr off ↦
              let h : ◌≡◌ {A = Option (Loading × World)} none (some (done, w')) = rw off at reads in
              cc h
          | inl on ↦
              load_loop-some c e inet_pton yaml fuel n ld w ev here
              ∙ rw on (
                  load_loop-read yaml events (suc n) fuel ld₁ w₁ w'
                    (λ k. ap yaml (omega arith) ∙ fed (suc k)) (rw on at reads) (omega arith))
        ]
