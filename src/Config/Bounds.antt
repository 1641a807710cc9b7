-- ===== src/Config/Bounds.antt =====
-- What every configuration that `load_config` (src/peer.c) builds has, whether it is accepted or not.
use lane_cove_tunnel.Prelude.{
  ℕ, zero, suc, ◌≤◌, ◌<◌, ◌≡◌, ◌⊎◌, inl, inr, refl, false, Option, none, some, Option-cases, List,
  [], ◌∷◌, ◌++◌, arith, length, get_or, set, length-append, length-set, get_or-set_both,
  get_or-append_default, drop, take,
}
use lane_cove_tunnel.Prelude.Bytes.{Bytes}
use lane_cove_tunnel.Hex.{hex_loop, hex_to_bytes, scan_hex}
use lane_cove_tunnel.Node.{IpPrefix, PeerConfig, max_peers, max_routes_per_peer, zero_config}
use lane_cove_tunnel.Cidr.{split_slash, prefix_of, prefix_at, parse_cidr}
use lane_cove_tunnel.Cidr.Mask.{prefix_of-bound}

-- A prefix of at most 32 bits, with its mask, and an address cut to it.
abbrev pub IsRoute : IpPrefix → Type 0
IsRoute r = (addr : ℕ) × (p : ℕ) × (p ≤ 32) × (r ≡ prefix_at addr p)

abbrev pub AllRoutes : List IpPrefix → Type 0
AllRoutes [] = Unit {0}
AllRoutes (r ∷ routes) = IsRoute r × AllRoutes routes

pub record IsPeerConfig (cfg : PeerConfig) : Type 0 where
  pub key_size : length cfg.pub_key ≡ 32
  pub few_routes : length cfg.routes ≤ max_routes_per_peer
  pub routes_ok : AllRoutes cfg.routes
  pub port_ok : (cfg.has_endpoint ≡ false) ⊎ ((1 ≤ cfg.endpoint_port) × (cfg.endpoint_port ≤ 65535))

pub record IsConfig (configs : List PeerConfig) : Type 0 where
  pub few_peers : length configs ≤ max_peers
  pub peers_ok : (i : ℕ) → IsPeerConfig (get_or configs i zero_config)

zero_config-IsPeerConfig : IsPeerConfig zero_config
unfolding zero_config
zero_config-IsPeerConfig = record {
  key_size = refl;
  few_routes = omega arith;
  routes_ok = tt;
  port_ok = inl refl;
}

pub empty-IsConfig : IsConfig []
empty-IsConfig = record { few_peers = omega arith; peers_ok = λ i. zero_config-IsPeerConfig }

pub grown-IsConfig :
    (configs : List PeerConfig)
    → IsConfig configs
    → length configs < max_peers
    → IsConfig (configs ++ (zero_config ∷ []))
grown-IsConfig configs h room = record {
  few_peers = omega (arith, length-append configs (zero_config ∷ []));
  peers_ok = λ i. rw (get_or-append_default configs i zero_config) (h.peers_ok i);
}

pub set-IsConfig :
    (configs : List PeerConfig) (i : ℕ) (cfg : PeerConfig)
    → IsConfig configs
    → IsPeerConfig cfg
    → IsConfig (set configs i cfg)
set-IsConfig configs i cfg h ok = record {
  few_peers = omega (arith, h.few_peers, length-set configs i cfg);
  peers_ok = λ j. get_or-set_both IsPeerConfig configs i j cfg zero_config ok (h.peers_ok j);
}

pub AllRoutes-append :
    (routes : List IpPrefix) (r : IpPrefix)
    → AllRoutes routes
    → IsRoute r
    → AllRoutes (routes ++ (r ∷ []))
AllRoutes-append [] r h ok = (ok, tt)
AllRoutes-append (s ∷ routes) r h ok = (h.0, AllRoutes-append routes r h.1 ok)

pub parse_cidr-IsRoute :
    (inet_pton : Bytes → Option ℕ) (v : Bytes) (r : IpPrefix)
    → parse_cidr inet_pton v ≡ some r
    → IsRoute r
unfolding parse_cidr
parse_cidr-IsRoute inet_pton v r h =
    let (address, length_part) = split_slash (take 31 v) in
    elim (Option-cases (prefix_of length_part)) [
      | inl bad ↦
          let h' : ◌≡◌ {A = Option IpPrefix} none (some r) = rw (parse_cidr, bad) at h in cc h'
      | inr (p, good) ↦ elim (Option-cases (inet_pton address)) [
        | inl bad ↦
            let h' : ◌≡◌ {A = Option IpPrefix} none (some r) = rw (parse_cidr, good, bad) at h in
            cc h'
        | inr (addr, known) ↦
            let h' : some (prefix_at addr p) ≡ some r = rw (parse_cidr, good, known) at h in
            (addr, p, prefix_of-bound length_part p good, cc h')
      ]
    ]

length-hex_loop :
    (n : ℕ) (hex : Bytes) {bytes : Bytes} → hex_loop n hex ≡ some bytes → length bytes ≡ n
unfolding hex_loop
length-hex_loop zero hex {bytes} h = ground arith
length-hex_loop (suc n) hex {bytes} h = elim (Option-cases (scan_hex 0 hex)) [
  | inl bad ↦ let h' : ◌≡◌ {A = Option Bytes} none (some bytes) = rw (hex_loop, bad) at h in cc h'
  | inr (r, good) ↦ elim (Option-cases (hex_loop n (drop 2 hex))) [
    | inl bad ↦ ground (arith, good, bad)
    | inr (rest, found) ↦ ground (arith, good, found, length-hex_loop n (drop 2 hex) {bytes = rest})
  ]
]

pub length-hex_to_bytes :
    (v : Bytes) (n : ℕ) {bytes : Bytes} → hex_to_bytes v n ≡ some bytes → length bytes ≡ n
unfolding hex_to_bytes
length-hex_to_bytes v n {bytes} h = ground (arith, length-hex_loop n v {bytes = bytes})
