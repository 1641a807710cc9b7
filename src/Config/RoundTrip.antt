-- ===== src/Config/RoundTrip.antt =====
-- `load_config` (src/peer.c) reads back a written configuration.
use lane_cove_tunnel.Prelude.{
  ℕ, ◌≤◌, ◌<◌, ◌≡◌, refl, ap, ◌∙◌, arith, true, Option, some, List, [], ◌∷◌, ◌++◌, length,
  get_elem?, map,
}
use lane_cove_tunnel.Prelude.Bytes.{Bytes, bytes_eq}
use lane_cove_tunnel.Crypto.{Crypto}
use lane_cove_tunnel.World.{Env, World}
use lane_cove_tunnel.Node.{PeerConfig, max_peers}
use lane_cove_tunnel.Config.{
  codes, YamlEvent, scalar, sequence_start, sequence_end, mapping_start, mapping_end, stream_end,
  other_event, Settings, default_settings, root, peers_seq, Loading, start_loading,
}
use lane_cove_tunnel.Config.Load.{in_root, in_root_val, in_peers_seq, load_in, load_config}
use lane_cove_tunnel.Config.Written.{
  Written, peers_events, setting_events, written_events, apply_settings, config_of, ArePeers,
  AreSettings,
}
use lane_cove_tunnel.Config.Reading.{at, read, read-append, read-settings}
use lane_cove_tunnel.Config.Peers.{read-peers, load_loop-read}

module _ {PKey Ctx : Type 0} (c : Crypto PKey Ctx) (e : Env PKey)
    (inet_pton : Bytes → Option ℕ) where
  abbrev prologue : List YamlEvent
  prologue = other_event ∷ (other_event ∷ (mapping_start ∷ []))

  abbrev close : List YamlEvent
  close = sequence_end ∷ (mapping_end ∷ [])

  begun :
      (w : World)
      → read c e inet_pton prologue start_loading w ≡ some (at root [] [] default_settings [], w)
  unfolding read load_in in_root start_loading
  begun w = refl

  opened :
      (key : Bytes) (s : Settings) (w : World) (events : List YamlEvent)
      → read c e inet_pton
          (scalar (codes "peers") ∷ (sequence_start ∷ events))
          (at root key [] s [])
          w
        ≡ read c e inet_pton events (at peers_seq (codes "peers") [] s []) w
  unfolding read load_in in_root in_root_val bytes_eq
  opened key s w events = refl

  closed :
      (peer_key : Bytes) (s : Settings) (configs : List PeerConfig) (w : World)
      → read c e inet_pton close (at peers_seq (codes "peers") peer_key s configs) w
        ≡ some (at root (codes "peers") peer_key s configs, w)
  unfolding read load_in in_peers_seq in_root
  closed peer_key s configs w = refl

  read-written_events :
      (f : Written) (w : World)
      → AreSettings f.settings
      → ArePeers e inet_pton f.peers
      → length f.peers ≤ max_peers
      → (peer_key : Bytes) × (w' : World) × (read c e inet_pton (written_events f) start_loading w
          ≡ some (
            at root
                (codes "peers")
                peer_key
                (apply_settings f.settings default_settings)
                (map config_of f.peers),
            w',
          ))
  unfolding written_events
  read-written_events f w keys peers fit =
      let s = apply_settings f.settings default_settings in
      let (key, set_up) = read-settings c e inet_pton f.settings [] [] default_settings [] w keys in
      let (peer_key, w', reads) =
        read-peers c e inet_pton (codes "peers") s f.peers [] [] w peers (omega (arith, fit)) in
      (
        peer_key,
        w',
        read-append c e inet_pton prologue _ _ _ w w (begun w)
            ∙ (read-append c e inet_pton (setting_events f.settings) _ _ _ w w set_up
                ∙ (opened key s w (peers_events f.peers ++ close)
                    ∙ (read-append c e inet_pton (peers_events f.peers) close _ _ w w' reads
                        ∙ closed peer_key s (map config_of f.peers) w'))),
      )

  -- A written configuration is loaded back. A file has settings, with texts that fit their buffers and
  -- numbers below 2 ^ 31 written in decimal, and at most `max_peers` peers: each has a key of 32 bytes
  -- in hexadecimal, an endpoint `host:port` or none, where the host has 1 to 248 characters and is
  -- resolved and the port is from 1 to 65535, and at most `max_routes_per_peer` routes
  -- `address/length`, where `inet_pton` reads the address. Where libyaml gives the events of the file,
  -- `load_config` succeeds with any fuel above the number of these events. Each setting of the file
  -- has set its variable and no other, on top of the defaults, the later ones last; the peers are
  -- those of the file in their order, each with its key, its endpoint, and its routes with the leading
  -- bits of their addresses.
  pub load_config-written_events :
      (f : Written) (yaml : ℕ → Option YamlEvent) (fuel : ℕ) (w : World)
      → AreSettings f.settings
      → ArePeers e inet_pton f.peers
      → length f.peers ≤ max_peers
      → ((k : ℕ) → yaml k ≡ get_elem? (written_events f ++ stream_end ∷ []) k)
      → length (written_events f) < fuel
      → (ld : Loading) × (w' : World) × ((load_config c e inet_pton true true yaml fuel w
            ≡ some (true, ld, w'))
          × (ld.settings ≡ apply_settings f.settings default_settings)
          × (ld.peer_configs ≡ map config_of f.peers))
  unfolding load_config
  load_config-written_events f yaml fuel w keys peers fit fed lt =
      let (peer_key, w', reads) = read-written_events f w keys peers fit in
      let s = apply_settings f.settings default_settings in
      let configs = map config_of f.peers in
      (
        at root (codes "peers") peer_key s configs,
        w',
        (
          load_loop-read c e inet_pton (codes "peers") peer_key s configs yaml (written_events f) 0
              fuel start_loading w w' (λ k. ap yaml (omega arith) ∙ fed k) reads lt,
          refl,
          refl,
        ),
      )
