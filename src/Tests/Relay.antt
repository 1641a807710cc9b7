-- ===== src/Tests/Relay.antt =====
-- A stream through a tunnel, and a packet by way of a third peer.
use lane_cove_tunnel.Prelude.{ℕ, ◌≡◌, refl, true, inl, inr, List, [], ◌∷◌, replicate, arith}
use lane_cove_tunnel.Prelude.Bytes.{bytes_eq, be64, of_be}
use lane_cove_tunnel.Crypto.{seal, unseal}
use lane_cove_tunnel.World.{Addr, Datagram, sendto}
use lane_cove_tunnel.Packet.{encrypt_packet, decrypt_packet}
use lane_cove_tunnel.Replay.{check_replay, advance, mark, is_marked, shift_words, shifted_word}
use lane_cove_tunnel.Node.{Session, Node, zero_session, zero_config, zero_pending}
use lane_cove_tunnel.Sessions.{
  slot, time_now, find_index, find_session_by_addr, route_lookup, route_lookup_from,
  route_lookup_in, consider, check_allowed_src,
}
use lane_cove_tunnel.Loop.Send.{note_sent, forward_to_peer}
use lane_cove_tunnel.Loop.Data.{
  check_payload, check_plain, open_data, forward_at, deliver_payload, handle_data, handle_tun,
}
use lane_cove_tunnel.Loop.Step.{handle_udp}
use lane_cove_tunnel.Tunnel.Stream.{arrived, carry, IsReady}
use lane_cove_tunnel.Tunnel.Arrival.{carry-written}
use lane_cove_tunnel.Tunnel.Delivery.{IsLink, handle_udp-relay}
use lane_cove_tunnel.Tunnel.Connect.{meet-IsNew}
use lane_cove_tunnel.Tunnel.Talk.{IsNew-IsReady}
use lane_cove_tunnel.Tests.Toy.{toy, toy-IsCrypto, toy_env, toy_env-IsEnv, start}
use lane_cove_tunnel.Tests.Tunnel.{first}
use lane_cove_tunnel.Tests.Talk.{
  toy-IsAble, toy_env-IsReliable, a_addr, b_addr, self_of, host_route, config_of, node_for, apart,
  apart-CanMeet, together, packet_of, schedule, packet_of-IsCarried,
}

together-IsReady : IsReady a_addr b_addr 0 0 together 3
together-IsReady =
    let (key, there, back) =
      meet-IsNew toy toy-IsCrypto toy-IsAble toy_env toy_env toy_env-IsReliable toy_env-IsReliable
        (self_of 3) (self_of 5) a_addr 0 0 0 (config_of 3 0x0a090001 a_addr) apart apart-CanMeet in
    IsNew-IsReady (replicate 32 3) (replicate 32 5) key a_addr b_addr _ _ 0 0 3 together there back
      (omega arith)

carry-written_example :
    (carry toy toy_env toy_env (self_of 5) a_addr b_addr schedule together).receiver_world.written
    ≡ packet_of 3 ∷ (packet_of 1 ∷ together.receiver_world.written)
unfolding arrived
carry-written_example =
    carry-written toy toy-IsCrypto toy-IsAble.seals toy_env toy_env toy_env-IsEnv toy_env-IsReliable
      toy_env-IsReliable (self_of 5) a_addr b_addr 0 0 schedule together together-IsReady
      (packet_of-IsCarried 1, (packet_of-IsCarried 2, (packet_of-IsCarried 3, tt)))

-- The relay is at `b_addr`; the peer behind it has 10.9.0.2.
abbrev c_addr : Addr
c_addr = record { ip = 0x01000003; port = 5040 }

abbrev session_at : ℕ → Addr → ℕ → Session
session_at key addr ip = record zero_session {
  active = true;
  addr = addr;
  session_key = replicate 32 key;
  routes = host_route ip ∷ [];
}

abbrev node_with : List Session → Node ℕ
node_with sessions = record (node_for (config_of 5 0 b_addr)) { sessions = sessions }

abbrev outer : Node ℕ
outer = node_with (session_at 8 b_addr 0x0a090002 ∷ [])

abbrev relay : Node ℕ
relay = node_with (session_at 8 a_addr 0x0a090001 ∷ (session_at 9 c_addr 0x0a090002 ∷ []))

abbrev inner : Node ℕ
inner = node_with (session_at 9 b_addr 0x0a090001 ∷ [])

abbrev leaves : Datagram
leaves = first (handle_tun toy toy_env (packet_of 1) outer start).1.sent

abbrev goes_on : Datagram
goes_on = first (handle_udp toy toy_env (self_of 5) a_addr leaves.bytes relay start).1.sent

session_at-IsLink :
    (key : ℕ) (to from : Addr)
    → IsLink (session_at key to 0x0a090002) (session_at key from 0x0a090001) (packet_of 1)
unfolding zero_session check_allowed_src check_replay advance mark shift_words shifted_word
    is_marked of_be
session_at-IsLink key to from = record {
  same_key = refl;
  small = omega arith;
  fresh = refl;
  allowed = (λ empty. absurd (omega arith), inr (inr refl));
}

handle_udp-relay_example :
    (goes_on.to ≡ c_addr)
    × ((handle_udp toy toy_env (self_of 5) a_addr leaves.bytes relay start).1.written
        ≡ start.written)
    × ((handle_udp toy toy_env (self_of 6) b_addr goes_on.bytes inner start).1.written
        ≡ packet_of 1 ∷ start.written)
unfolding zero_session zero_config zero_pending route_lookup route_lookup_from route_lookup_in
    consider of_be handle_tun forward_at forward_to_peer encrypt_packet seal note_sent sendto be64
    find_session_by_addr find_index slot handle_udp unseal check_payload check_plain deliver_payload
    handle_data open_data decrypt_packet bytes_eq advance check_replay is_marked mark shift_words
    shifted_word check_allowed_src time_now
handle_udp-relay_example =
    handle_udp-relay toy toy-IsCrypto toy_env toy_env-IsEnv toy_env (self_of 5) a_addr (packet_of 1)
      outer relay 0 0 start start {d = leaves} refl refl refl refl refl
      (session_at-IsLink 8 b_addr a_addr) 1 0 toy_env (self_of 6) b_addr inner start {d' = goes_on}
      toy_env-IsEnv refl (λ same. absurd (omega (arith, same))) refl refl refl
      (session_at-IsLink 9 c_addr b_addr) (inl refl) refl
