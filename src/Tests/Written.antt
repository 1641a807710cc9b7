-- ===== src/Tests/Written.antt =====
-- A written configuration that is loaded back.
use lane_cove_tunnel.Prelude.{
  ℕ, zero, suc, ◌≡◌, refl, true, Option, some, none, [], ◌∷◌, ◌++◌, map, replicate, get_elem?,
  if◌then◌else◌, arith,
}
use lane_cove_tunnel.Prelude.Bytes.{Bytes, IsBytes, bytes_eq}
use lane_cove_tunnel.Prelude.Int.{pos}
use lane_cove_tunnel.World.{Env, World}
use lane_cove_tunnel.Config.{codes, stream_end, default_settings, Loading}
use lane_cove_tunnel.Config.Load.{load_config}
use lane_cove_tunnel.Config.Written.{
  interface, port, verbose, apply_setting, IsSetting, IsRoute, Endpoint, Route, Peer, Written,
  endpoint_events, route_events, peer_events, peers_events, setting_events, written_events,
  apply_settings, config_of, IsPeer,
}
use lane_cove_tunnel.Config.RoundTrip.{load_config-written_events}
use lane_cove_tunnel.Tests.Toy.{toy, toy_env, start}

abbrev pton : Bytes → Option ℕ
pton s = if bytes_eq s (codes "10.9.5.7") then some 0x0a090507 else none

-- Every host is 192.168.0.1.
abbrev env : Env ℕ
env = record toy_env {
  getaddrinfo = λ n host service. some (record { ip = 0xc0a80001; port = 5040 });
}

abbrev endpoint : Endpoint
endpoint = record {
  host = codes "vpn";
  port = 5040;
  addr = record { ip = 0xc0a80001; port = 5040 };
}

abbrev route : Route
route = record { address = codes "10.9.5.7"; ip = 0x0a090507; prefix_len = 24 }

abbrev peer : Peer
peer = record {
  pub_key = replicate 32 171;
  endpoint = some endpoint;
  routes = route ∷ (route ∷ []);
}

abbrev file : Written
file = record {
  settings = interface (codes "tun0") ∷ (port 4000 ∷ (verbose true ∷ []));
  peers = peer ∷ [];
}

filled-IsBytes : (n : ℕ) → IsBytes (replicate n 171)
filled-IsBytes zero = tt
filled-IsBytes (suc n) = (omega arith, filled-IsBytes n)

route-IsRoute : IsRoute env pton route
unfolding bytes_eq
route-IsRoute = record {
  read = refl;
  plain = refl;
  sized = omega arith;
  ipv4 = omega arith;
  short = omega arith;
}

peer-IsPeer : IsPeer env pton peer
peer-IsPeer = record {
  bytes = filled-IsBytes 32;
  sized = refl;
  reached = record {
    named = omega arith;
    sized = omega arith;
    low = omega arith;
    high = omega arith;
    resolved = λ n. refl;
  };
  routed = (route-IsRoute, (route-IsRoute, tt));
  bounded = omega arith;
}

-- The settings of the file, written out.
settings_are :
    apply_settings file.settings default_settings
    ≡ record default_settings { tunnel = codes "tun0"; port = pos 4000; log_level = 1 }
unfolding apply_settings apply_setting
settings_are = refl

load_config-written_events_example :
    (ld : Loading) × (w' : World) × ((load_config toy env pton true true
          (get_elem? (written_events file ++ stream_end ∷ []))
          40
          start
        ≡ some (true, ld, w'))
      × (ld.settings ≡ apply_settings file.settings default_settings)
      × (ld.peer_configs ≡ map config_of file.peers))
unfolding written_events setting_events peers_events peer_events endpoint_events route_events
    IsSetting
load_config-written_events_example =
    load_config-written_events toy env pton file
      (get_elem? (written_events file ++ stream_end ∷ [])) 40 start
      (omega arith, (omega arith, (tt, tt))) (peer-IsPeer, tt) (omega arith) (λ k. refl)
      (omega arith)
