-- ===== src/Tunnel/Meet.antt =====
-- The first handshake of two peers (src/peer.c), from the call to the two sessions.
use lane_cove_tunnel.Prelude.{ℕ, ◌≡◌, not, none, some, List, []}
use lane_cove_tunnel.Crypto.{Crypto}
use lane_cove_tunnel.World.{Env, Addr}
use lane_cove_tunnel.Node.{PeerConfig, Session, Self, config_at}
use lane_cove_tunnel.Sessions.{
  find_index, find_peer_config, find_session_by_addr, find_session_by_pub, alloc_session,
}
use lane_cove_tunnel.Loop.Send.{initiate_outbound_handshake}
use lane_cove_tunnel.Loop.Response.{awaits}
use lane_cove_tunnel.Tunnel.Stream.{Ends, receive_all}

-- The sender calls the peer of its configuration i, the receiver gets what was sent and answers to
-- the address it comes from, and the sender gets the answer.
module _ {PKey Ctx : Type 0} (c : Crypto PKey Ctx) (e e' : Env PKey) (a b : Self PKey)
    (a_addr : Addr) (i : ℕ) where
  unfoldable pub meet : Ends PKey → Ends PKey
  meet n =
      let b_addr = (config_at n.sender i).endpoint in
      let call =
        initiate_outbound_handshake c e a i n.sender (record n.sender_world { sent = [] }) in
      let there =
        receive_all c e' b a_addr b_addr call.2.sent
          (n.receiver, record n.receiver_world { sent = [] }) in
      let back = receive_all c e a b_addr a_addr there.1.sent (call.1, call.2) in
      record {
        sender = back.0;
        sender_world = back.1;
        receiver = there.0;
        receiver_world = there.1;
      }

-- Two peers that may meet: each has the other's true static public key, both have one pre-shared
-- key or none, neither has called the other's address or has a session for it, the sessions k and l
-- can be had, and the receiver has its ephemeral key pair and no session for the sender's key.
pub record CanMeet {PKey Ctx : Type 0} (c : Crypto PKey Ctx) (a b : Self PKey) (a_addr : Addr)
    (i k l : ℕ) (cfg : PeerConfig) (n : Ends PKey) : Type 0 where
  pub eph : PKey
  pub place : ℕ
  pub senders : List Session
  pub receivers : List Session
  pub a_key : c.raw_public_key a.static_key ≡ some a.static_pub
  pub b_key : c.raw_public_key b.static_key ≡ some b.static_pub
  pub same_psk : a.psk_key ≡ b.psk_key
  pub pinned : (config_at n.sender i).pub_key ≡ b.static_pub
  pub configured : find_peer_config a.static_pub n.receiver.peer_configs ≡ some cfg
  pub free : find_index (λ p. not p.active) n.sender.pending_hs ≡ some place
  pub uncalled : find_index (awaits (config_at n.sender i).endpoint) n.sender.pending_hs ≡ none
  pub uncalled' : find_index (awaits a_addr) n.receiver.pending_hs ≡ none
  pub apart : find_session_by_addr (config_at n.sender i).endpoint n.sender.sessions ≡ none
  pub apart' : find_session_by_addr a_addr n.receiver.sessions ≡ none
  pub unknown : find_session_by_pub a.static_pub n.receiver.sessions ≡ none
  pub eph_made : n.receiver.precomp_eph_key ≡ some eph
  pub eph_key : c.raw_public_key eph ≡ some n.receiver.precomp_eph_pub
  pub allocated :
      alloc_session b.static_pub (config_at n.sender i).endpoint n.sender.sessions
      ≡ some (k, senders)
  pub allocated' : alloc_session a.static_pub a_addr n.receiver.sessions ≡ some (l, receivers)
