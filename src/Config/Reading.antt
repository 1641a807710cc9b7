-- ===== src/Config/Reading.antt =====
-- Steps of `load_config` (src/peer.c) over the events of a written configuration.
use mathlib.Core.List.{append_assoc, append-nil}
use lane_cove_tunnel.Prelude.{
  ℕ, ◌+◌, ◌-◌, ◌≤◌, ◌<◌, ◌≡◌, refl, ap, sym, ◌∙◌, true, false, not, ◌&&◌, Option, none, some, List,
  [], ◌∷◌, ◌++◌, leb, if◌then◌else◌, length, get_or, set, length-append, arith, Bool-cases, inl,
  inr,
}
use lane_cove_tunnel.Prelude.Bytes.{Bytes, IsBytes, bytes_eq}
use lane_cove_tunnel.Crypto.{Crypto}
use lane_cove_tunnel.World.{Env, World}
use lane_cove_tunnel.Hex.{bytes_to_hex, hex_to_bytes}
use lane_cove_tunnel.Hex.RoundTrip.{hex_to_bytes-bytes_to_hex}
use lane_cove_tunnel.Node.{PeerConfig, max_peers, max_routes_per_peer, zero_config}
use lane_cove_tunnel.Config.{
  codes, YamlEvent, scalar, mapping_start, Settings, LoadState, root, peers_seq, peer_map,
  allowed_ips_seq, Loading,
}
use lane_cove_tunnel.Config.Values.{add_route, set_endpoint, set_peer}
use lane_cove_tunnel.Config.Load.{
  in_root, in_root_val, in_peers_seq, in_peer_map, in_peer_val, in_allowed_ips_seq, is_end, load_in,
}
use lane_cove_tunnel.Loop.Send.{resolve_endpoint}
use lane_cove_tunnel.Config.Texts.{
  take-key_of, set_setting-value_of, parse_endpoint-decimal, parse_cidr-route_text,
}
use lane_cove_tunnel.Config.Written.{
  Endpoint, Route, endpoint_events, route_events, setting_events, apply_settings, with_endpoint,
  prefixes, IsEndpoint, AreRoutes, IsEndpoint?, AreSettings, Setting, key_of, apply_setting,
  endpoint_text, route_text, prefix_of_route, IsRoute,
}

module _ {ℓ} {A : Type ℓ} where
  end_at : (xs : List A) (x : A) → length (xs ++ x ∷ []) - 1 ≡ length xs
  end_at xs x = omega (arith, length-append xs (x ∷ []))

  get_or-length : (xs : List A) (x d : A) → get_or (xs ++ x ∷ []) (length xs) d ≡ x
  get_or-length [] x d = refl
  get_or-length (y ∷ xs) x d = get_or-length xs x d

  set-length : (xs : List A) (x v : A) → set (xs ++ x ∷ []) (length xs) v ≡ xs ++ v ∷ []
  set-length [] x v = refl
  set-length (y ∷ xs) x v = ap (◌∷◌ y) (set-length xs x v)

  get_or-end : (xs : List A) (x d : A) → get_or (xs ++ x ∷ []) (length (xs ++ x ∷ []) - 1) d ≡ x
  get_or-end xs x d = rw (end_at xs x) (get_or-length xs x d)

  set-end :
      (xs : List A) (x v : A) → set (xs ++ x ∷ []) (length (xs ++ x ∷ []) - 1) v ≡ xs ++ v ∷ []
  set-end xs x v = rw (end_at xs x) (set-length xs x v)

abbrev pub at : LoadState → Bytes → Bytes → Settings → List PeerConfig → Loading
at state key peer_key s configs = record {
  state = state;
  key = key;
  peer_key = peer_key;
  settings = s;
  peer_configs = configs;
}

module _ {PKey Ctx : Type 0} (c : Crypto PKey Ctx) (e : Env PKey)
    (inet_pton : Bytes → Option ℕ) where
  -- What the loop makes of some events, `none` where it would end.
  unfoldable pub read : List YamlEvent → Loading → World → Option (Loading × World)
  read [] ld w = some (ld, w)
  read (ev ∷ events) ld w =
      let (ok, ld', w') = load_in c e inet_pton ld.state ev ld w in
      let rest = read events ld' w' in if ok && not (is_end ev) then rest else none

  pub read-append :
      (xs ys : List YamlEvent) (ld ld' : Loading) (w w' : World)
      → read xs ld w ≡ some (ld', w')
      → read (xs ++ ys) ld w ≡ read ys ld' w'
  unfolding read
  read-append [] ys ld ld' w w' h =
      ap (λ (o : Option (Loading × World)). elim o [ none ↦ none | some (l, v) ↦ read ys l v ]) h
  read-append (ev ∷ xs) ys ld ld' w w' h =
      let (ok, ld₁, w₁) = load_in c e inet_pton ld.state ev ld w in
      elim (Bool-cases (ok && not (is_end ev))) [
        | inl on ↦ rw on (read-append xs ys ld₁ ld' w₁ w' (rw on at h))
        | inr off ↦
            let h' : ◌≡◌ {A = Option (Loading × World)} none (some (ld', w')) = rw off at h in cc h'
      ]

  pub read-settings :
      (settings : List Setting) (key peer_key : Bytes) (s : Settings) (configs : List PeerConfig)
      (w : World)
      → AreSettings settings
      → (key' : Bytes) × (read (setting_events settings) (at root key peer_key s configs) w
          ≡ some (at root key' peer_key (apply_settings settings s) configs, w))
  unfolding read setting_events apply_settings load_in in_root in_root_val
  read-settings [] key peer_key s configs w h = (key, refl)
  read-settings (x ∷ settings) key peer_key s configs w (here, h) =
      let (key', reads) =
        read-settings settings (key_of x) peer_key (apply_setting x s) configs w h in
      (key', rw (take-key_of x, set_setting-value_of x s here) reads)

  set_endpoint-some :
      (endpoint : Endpoint) (cfg : PeerConfig) (w : World)
      → IsEndpoint e inet_pton endpoint
      → set_endpoint c e (endpoint_text endpoint) cfg w
        ≡ (true, with_endpoint (some endpoint) cfg, record w { calls = w.calls + 1 })
  unfolding set_endpoint with_endpoint resolve_endpoint
  set_endpoint-some endpoint cfg w h =
      rw
        (
          parse_endpoint-decimal endpoint.host endpoint.port h.named h.sized h.low h.high,
          set_endpoint,
          h.resolved w.calls,
          resolve_endpoint,
        )
        refl

  -- The last peer, in the middle of its mapping.
  module _ (key : Bytes) (s : Settings) (configs : List PeerConfig) where
    added :
        (cfg : PeerConfig) (r : Route) (peer_key : Bytes)
        → IsRoute e inet_pton r
        → length cfg.routes < max_routes_per_peer
        → add_route inet_pton
            (route_text r)
            (at allowed_ips_seq key peer_key s (configs ++ cfg ∷ []))
          ≡ (
            true,
            at allowed_ips_seq key peer_key s
                (configs ++ (record cfg { routes = cfg.routes ++ prefix_of_route r ∷ [] }) ∷ []),
          )
    unfolding add_route
    added cfg r peer_key parsed room =
        let open_place : leb max_routes_per_peer (length cfg.routes) ≡ false = ground arith in
        let last = get_or-end configs cfg zero_config in
        rw (last, open_place, parse_cidr-route_text e inet_pton r parsed, set-end) (rw last)

    pub read-routes :
        (routes : List Route) (cfg : PeerConfig) (peer_key : Bytes) (w : World)
        → AreRoutes e inet_pton routes
        → length cfg.routes + length routes ≤ max_routes_per_peer
        → read (route_events routes) (at allowed_ips_seq key peer_key s (configs ++ cfg ∷ [])) w
          ≡ some (
            at allowed_ips_seq key peer_key s
                (configs ++ (record cfg { routes = cfg.routes ++ prefixes routes }) ∷ []),
            w,
          )
    unfolding read route_events load_in in_allowed_ips_seq
    read-routes [] cfg peer_key w h fit = rw (append-nil cfg.routes)
    read-routes (r ∷ routes) cfg peer_key w (parsed, h) fit =
        let cfg' : PeerConfig = record cfg { routes = cfg.routes ++ prefix_of_route r ∷ [] } in
        let later =
          read-routes routes cfg' peer_key w h
            (omega (arith, fit, length-append cfg.routes (prefix_of_route r ∷ []))) in
        rw (added cfg r peer_key parsed (omega (arith, fit)))
          (rw (append_assoc cfg.routes (prefix_of_route r ∷ []) (prefixes routes)) at later)

    -- The key of a new peer.
    pub read-pub_key :
        (peer_key pub_key : Bytes) (w : World)
        → IsBytes pub_key
        → length pub_key ≡ 32
        → length configs < max_peers
        → read
            (mapping_start ∷ (scalar (codes "public_key") ∷ (scalar (bytes_to_hex pub_key) ∷ [])))
            (at peers_seq key peer_key s configs)
            w
          ≡ some (
            at peer_map key
                (codes "public_key")
                s
                (configs ++ (record zero_config { pub_key = pub_key }) ∷ []),
            w,
          )
    unfolding read load_in in_peers_seq in_peer_map in_peer_val set_peer bytes_eq
    read-pub_key peer_key pub_key w bytes sized room =
        let open_place : leb max_peers (length configs) ≡ false = ground arith in
        let reads : hex_to_bytes (bytes_to_hex pub_key) 32 ≡ some pub_key =
          ap (λ (n : ℕ). hex_to_bytes (bytes_to_hex pub_key) n) (sym sized)
          ∙ hex_to_bytes-bytes_to_hex pub_key bytes in
        let last = get_or-end configs zero_config zero_config in
        rw (open_place, last, reads, set-end) (rw last)

    -- Its endpoint.
    pub read-endpoint :
        (endpoint : Option Endpoint) (cfg : PeerConfig) (peer_key : Bytes) (w : World)
        → IsEndpoint? e inet_pton endpoint
        → (peer_key' : Bytes) × (w' : World) × (read
              (endpoint_events endpoint)
              (at peer_map key peer_key s (configs ++ cfg ∷ []))
              w
            ≡ some (at peer_map key peer_key' s (configs ++ with_endpoint endpoint cfg ∷ []), w'))
    unfolding read endpoint_events load_in in_peer_map in_peer_val set_peer bytes_eq with_endpoint
    read-endpoint none cfg peer_key w h = (peer_key, w, refl)
    read-endpoint (some endpoint) cfg peer_key w h =
        let last = get_or-end configs cfg zero_config in
        (
          codes "endpoint",
          record w { calls = w.calls + 1 },
          rw (last, set_endpoint-some endpoint cfg w h, set-end) refl,
        )
