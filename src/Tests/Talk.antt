-- ===== src/Tests/Talk.antt =====
-- Two peers that meet and then carry packets.
use lane_cove_tunnel.Prelude.{
  ℕ, ◌≡◌, refl, true, false, some, inl, inr, [], ◌∷◌, ◌++◌, replicate, arith,
}
use lane_cove_tunnel.Crypto.{unseal}
use lane_cove_tunnel.Handshake.Client.{handshake_client_send, generate_eph_keypair}
use lane_cove_tunnel.Handshake.Client.Recv.{client_session_key, handshake_client_recv}
use lane_cove_tunnel.Handshake.Server.{handshake_server_respond}
use lane_cove_tunnel.Handshake.{
  x25519_shared_secret, encrypt_identity, append_mac, compute_hmac, check_mac, decrypt_identity,
  derive_session_key,
}
use lane_cove_tunnel.World.{sendto}
use lane_cove_tunnel.Hex.{bytes_to_hex, hex_digit}
use lane_cove_tunnel.Loop.Inbound.{admit, answer, break_tie, cooling, handle_inbound}
use lane_cove_tunnel.Loop.Periodic.{set_rekeying, stop_rekeying}
use lane_cove_tunnel.Loop.Report.{count_active, peer_lines, print_sessions}
use lane_cove_tunnel.Loop.Response.{start_session, take_response}
use lane_cove_tunnel.Loop.Send.{initiate_outbound_handshake, refresh_precomp_eph}
use lane_cove_tunnel.Loop.Step.{handle_udp}
use lane_cove_tunnel.Node.{zero_session}
use lane_cove_tunnel.Prelude.Bytes.{of_be}
use lane_cove_tunnel.Sessions.{
  check_allowed_src, consider, keep_prev_key, log_session, route_lookup_in, session_init, slot,
  time_now, route_lookup, route_lookup_from,
}
use lane_cove_tunnel.Tunnel.Stream.{receive_all}
use lane_cove_tunnel.Prelude.Bytes.{Bytes, bytes_eq}
use lane_cove_tunnel.Crypto.{seal}
use lane_cove_tunnel.World.{Addr}
use lane_cove_tunnel.Node.{IpPrefix, PeerConfig, Self, Node, zero_config, zero_pending}
use lane_cove_tunnel.Sessions.{
  find_peer_config, find_index, find_session_by_addr, find_session_by_pub, alloc_session,
}
use lane_cove_tunnel.Tunnel.Talk.{carry-meet}
use lane_cove_tunnel.Tunnel.Send.{IsReliable}
use lane_cove_tunnel.Tunnel.Stream.{Ends, Schedule, arrived, carry, IsCarried}
use lane_cove_tunnel.Tunnel.Begin.{IsNew}
use lane_cove_tunnel.Tunnel.Able.{IsAble}
use lane_cove_tunnel.Tunnel.Meet.{meet, CanMeet}
use lane_cove_tunnel.Tunnel.Connect.{meet-IsNew}
use lane_cove_tunnel.Tests.Toy.{toy, toy-IsCrypto, toy_env, toy_env-IsEnv, start}
use lane_cove_tunnel.Tests.Routes.{timers}

pub toy_env-IsReliable : IsReliable toy_env
toy_env-IsReliable = record {
  rand_bytes-some = λ n k. (_, refl);
  keygen-some = λ n. (_, refl);
  sendto_ok-true = λ n. refl;
  write_ok-true = λ n. refl;
}

pub toy-IsAble : IsAble toy
unfolding seal
toy-IsAble = record {
  seals = λ key iv plain. (_, refl);
  hmac-some = λ key msg. (_, refl);
  raw_public_key-some = λ key. (_, refl);
  derive-some = λ key peer. (_, refl);
}

-- The peer with key 3 at 1.0.0.1 for 10.9.0.1, and the peer with key 5 at 1.0.0.2 for 10.9.0.2.
abbrev pub a_addr : Addr
a_addr = record { ip = 0x01000001; port = 5040 }

abbrev pub b_addr : Addr
b_addr = record { ip = 0x01000002; port = 5040 }

abbrev pub self_of : ℕ → Self ℕ
self_of k = record {
  static_key = k;
  static_pub = replicate 32 k;
  psk_key = some (1 ∷ 2 ∷ []);
  timers = timers;
}

abbrev pub host_route : ℕ → IpPrefix
host_route ip = record { network = ip; mask = 0xffffffff; prefix_len = 32 }

abbrev pub config_of : ℕ → ℕ → Addr → PeerConfig
config_of k ip addr = record zero_config {
  pub_key = replicate 32 k;
  routes = host_route ip ∷ [];
  has_endpoint = true;
  endpoint = addr;
}

abbrev pub node_for : PeerConfig → Node ℕ
node_for cfg = record {
  peer_configs = cfg ∷ [];
  sessions = [];
  pending_hs = zero_pending ∷ [];
  precomp_eph_key = some 7;
  precomp_eph_pub = replicate 32 7;
  last_rekey_check = 0;
}

abbrev pub apart : Ends ℕ
apart = record {
  sender = node_for (config_of 5 0x0a090002 b_addr);
  sender_world = start;
  receiver = node_for (config_of 3 0x0a090001 a_addr);
  receiver_world = start;
}

pub apart-CanMeet :
    CanMeet toy (self_of 3) (self_of 5) a_addr 0 0 0 (config_of 3 0x0a090001 a_addr) apart
unfolding find_peer_config bytes_eq find_index zero_pending find_session_by_addr find_session_by_pub
    alloc_session
apart-CanMeet = record {
  eph = 7;
  place = 0;
  senders = _;
  receivers = _;
  a_key = refl;
  b_key = refl;
  same_psk = refl;
  pinned = refl;
  configured = refl;
  free = refl;
  uncalled = refl;
  uncalled' = refl;
  apart = refl;
  apart' = refl;
  unknown = refl;
  eph_made = refl;
  eph_key = refl;
  allocated = refl;
  allocated' = refl;
}

meet-IsNew_example :
    (key : Bytes) × IsNew
      (replicate 32 3)
      a_addr
      key
      (host_route 0x0a090001 ∷ [])
      0
      (meet toy toy_env toy_env (self_of 3) (self_of 5) a_addr 0 apart).receiver.sessions
    × IsNew
        (replicate 32 5)
        b_addr
        key
        (host_route 0x0a090002 ∷ [])
        0
        (meet toy toy_env toy_env (self_of 3) (self_of 5) a_addr 0 apart).sender.sessions
meet-IsNew_example =
    meet-IsNew toy toy-IsCrypto toy-IsAble toy_env toy_env toy_env-IsReliable toy_env-IsReliable
      (self_of 3) (self_of 5) a_addr 0 0 0 (config_of 3 0x0a090001 a_addr) apart apart-CanMeet

abbrev pub together : Ends ℕ
together = meet toy toy_env toy_env (self_of 3) (self_of 5) a_addr 0 apart

-- IPv4 packets from 10.9.0.1 to 10.9.0.2.
abbrev pub packet_of : ℕ → Bytes
packet_of n = 0x45 ∷ replicate 11 0 ++ (10 ∷ 9 ∷ 0 ∷ 1 ∷ (10 ∷ 9 ∷ 0 ∷ 2 ∷ (n ∷ [])))

-- The network loses the second of three.
abbrev pub schedule : Schedule
schedule = (packet_of 1, true) ∷ ((packet_of 2, false) ∷ ((packet_of 3, true) ∷ []))

pub packet_of-IsCarried :
    (n : ℕ)
    → IsCarried
        (some (1 ∷ 2 ∷ []))
        0
        0
        together.sender.sessions
        together.receiver.sessions
        (packet_of n)
unfolding unseal handshake_client_send generate_eph_keypair client_session_key handshake_client_recv
    handshake_server_respond x25519_shared_secret encrypt_identity append_mac compute_hmac check_mac
    decrypt_identity derive_session_key sendto bytes_to_hex hex_digit admit answer break_tie cooling
    handle_inbound set_rekeying stop_rekeying count_active peer_lines print_sessions start_session
    take_response initiate_outbound_handshake refresh_precomp_eph handle_udp zero_session of_be
    check_allowed_src consider keep_prev_key log_session route_lookup_in session_init slot time_now
    route_lookup route_lookup_from receive_all meet find_index zero_pending seal bytes_eq
    zero_config alloc_session find_peer_config find_session_by_addr find_session_by_pub
packet_of-IsCarried n = record {
  ipv4 = refl;
  route = refl;
  size = λ same. absurd (omega arith);
  allowed = (λ empty. absurd (omega arith), inr (inr refl));
  here = inl refl;
}

carry-meet_example :
    (carry toy toy_env toy_env (self_of 5) a_addr b_addr schedule together).receiver_world.written
    ≡ packet_of 3 ∷ (packet_of 1 ∷ together.receiver_world.written)
unfolding arrived
carry-meet_example =
    carry-meet toy toy-IsCrypto toy-IsAble toy_env toy_env toy_env-IsEnv toy_env-IsReliable
      toy_env-IsReliable (self_of 3) (self_of 5) a_addr 0 0 0 (config_of 3 0x0a090001 a_addr) apart
      apart-CanMeet schedule (omega arith)
      (packet_of-IsCarried 1, (packet_of-IsCarried 2, (packet_of-IsCarried 3, tt)))
