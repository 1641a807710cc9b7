-- ===== src/Tests/Routes.antt =====
-- The session table and the routes.
use lane_cove_tunnel.Prelude.{
  ℕ, ◌≡◌, ◌↔◌, ◌⊎◌, refl, true, some, none, List, [], ◌∷◌, set, replicate,
}
use lane_cove_tunnel.Prelude.Bytes.{Bytes}
use lane_cove_tunnel.World.{Addr}
use lane_cove_tunnel.Node.{IpPrefix, Session, Timers, zero_session}
use lane_cove_tunnel.Sessions.{
  slot, find_index, find_session_by_addr, alloc_session, session_init, check_allowed_src,
  route_lookup, route_lookup_from, route_lookup_in, consider,
}
use lane_cove_tunnel.Sessions.Unique.{IsTable, empty-IsTable, session_init-IsTable}
use lane_cove_tunnel.Sessions.Route.{Covers}
use lane_cove_tunnel.Sessions.Lookup.{
  IsLongest, IsUnserved, route_lookup-IsLongest, route_lookup-none, check_allowed_src_iff,
}
use lane_cove_tunnel.Tests.Toy.{toy_env, start}

abbrev pub peer_addr : Addr
peer_addr = record { ip = 0x0a000001; port = 5040 }

abbrev pub timers : Timers
timers = record {
  rekey_after = 300;
  reconnect_interval = 30;
  session_expiry = 900;
  prev_key_grace = 30;
  handshake_timeout = 10;
  handshake_cooldown = 10;
  keepalive_interval = 25;
}

-- 10.9.0.0/16 and 10.9.5.0/24
abbrev wide : IpPrefix
wide = record { network = 0x0a090000; mask = 0xffff0000; prefix_len = 16 }

abbrev narrow : IpPrefix
narrow = record { network = 0x0a090500; mask = 0xffffff00; prefix_len = 24 }

abbrev table : List Session
table =
    record zero_session { active = true; routes = wide ∷ [] }
    ∷ (record zero_session { active = true; routes = narrow ∷ wide ∷ [] } ∷ [])

narrow_wins : route_lookup 0x0a090507 table ≡ some 1
unfolding route_lookup route_lookup_from route_lookup_in consider
narrow_wins = refl

route_lookup-IsLongest_example : IsLongest 0x0a090507 table 1
route_lookup-IsLongest_example = route_lookup-IsLongest 0x0a090507 table 1 narrow_wins

route_lookup-none_example : route_lookup 0x0b000001 table ≡ none ↔ IsUnserved 0x0b000001 table
route_lookup-none_example = route_lookup-none 0x0b000001 table

check_allowed_src_iff_example :
    check_allowed_src (narrow ∷ []) 0x0a090507 ≡ true
    ↔ (narrow ∷ [] ≡ [] ⊎ ((len : ℕ) × Covers 0x0a090507 (narrow ∷ []) len))
check_allowed_src_iff_example = check_allowed_src_iff (narrow ∷ []) 0x0a090507

abbrev pub peer_key : Bytes
peer_key = replicate 32 5

first_slot : alloc_session peer_key peer_addr [] ≡ some (0, zero_session ∷ [])
unfolding alloc_session find_session_by_addr find_index
first_slot = refl

-- The table with one session.
abbrev pub started : List Session
started =
    set (zero_session ∷ []) 0
      (session_init toy_env timers (slot (zero_session ∷ []) 0) peer_addr peer_key (replicate 32 9)
        none true start).0

session_init-IsTable_example : IsTable started
session_init-IsTable_example =
    session_init-IsTable toy_env timers peer_key (replicate 32 9) peer_addr none true []
      (zero_session ∷ []) 0 start empty-IsTable first_slot

pub started-IsTable : IsTable started
started-IsTable =
    session_init-IsTable toy_env timers peer_key (replicate 32 9) peer_addr none true []
      (zero_session ∷ []) 0 start empty-IsTable first_slot
