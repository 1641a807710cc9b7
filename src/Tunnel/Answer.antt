-- ===== src/Tunnel/Answer.antt =====
-- The side that is called (src/peer.c): `event_loop` with the handshake of a peer it has no session
-- with.
use lane_cove_tunnel.Prelude.{ℕ, ◌+◌, ◌≡◌, Bool, true, false, none, some, arith, ◌∙◌}
use lane_cove_tunnel.Prelude.Bytes.{Bytes}
use lane_cove_tunnel.Crypto.{Crypto}
use lane_cove_tunnel.World.{Env, World, Addr}
use lane_cove_tunnel.Handshake.Server.{handshake_server_respond}
use lane_cove_tunnel.Handshake.Client.{generate_eph_keypair}
use lane_cove_tunnel.Node.{PeerConfig, Self, Node}
use lane_cove_tunnel.Sessions.{
  find_index, find_peer_config, find_session_by_addr, find_session_by_pub, time_now, session_init,
  keep_prev_key, log_session,
}
use lane_cove_tunnel.Loop.Send.{refresh_precomp_eph}
use lane_cove_tunnel.Loop.Report.{print_sessions}
use lane_cove_tunnel.Loop.Response.{is_handshake, awaits, start_session}
use lane_cove_tunnel.Loop.Inbound.{cooling, admit, answer}
use lane_cove_tunnel.Loop.Collision.{handle_untied, handle_udp-untied}
use lane_cove_tunnel.Loop.Checks.{refresh-sessions}
use lane_cove_tunnel.Loop.Step.{handle_udp}

module _ {PKey Ctx : Type 0} (c : Crypto PKey Ctx) (e : Env PKey) where
  pub refresh-sent :
      (node : Node PKey) (w : World) → (refresh_precomp_eph c e node w).1.sent ≡ w.sent
  unfolding refresh_precomp_eph generate_eph_keypair
  refresh-sent node w = ground arith

  refresh-configs :
      (node : Node PKey) (w : World)
      → (refresh_precomp_eph c e node w).0.peer_configs ≡ node.peer_configs
  unfolding refresh_precomp_eph
  refresh-configs node w = ground arith

  admitted :
      (self : Self PKey) (now : ℕ) (src : Addr) (peer_pub session_key : Bytes) (node : Node PKey)
      (w : World) (cfg : PeerConfig)
      → find_peer_config peer_pub node.peer_configs ≡ some cfg
      → find_session_by_pub peer_pub node.sessions ≡ none
      → admit c e self now src peer_pub session_key node w
        ≡ start_session e self peer_pub src session_key cfg false node w
  unfolding admit cooling
  admitted self now src peer_pub session_key node w cfg known unknown =
      rw (admit, known, unknown, cooling)

  -- The call of a known peer, without a session so far, starts one.
  pub answered :
      (self : Self PKey) (src : Addr) (pkt : Bytes) (node : Node PKey) (w v : World)
      (result : Bytes × Bytes) (cfg : PeerConfig)
      → is_handshake self.psk_key pkt ≡ true
      → find_index (awaits src) node.pending_hs ≡ none
      → find_session_by_addr src node.sessions ≡ none
      → handshake_server_respond c e pkt src self.psk_key self.static_key self.static_pub
          node.precomp_eph_key node.precomp_eph_pub
          (record w { calls = w.calls + 1 })
        ≡ (some result, v)
      → find_peer_config result.0 node.peer_configs ≡ some cfg
      → find_session_by_pub result.0 node.sessions ≡ none
      → handle_udp c e self src pkt node w
        ≡ start_session e self result.0 src result.1 cfg false
            (refresh_precomp_eph c e node v).0
            (refresh_precomp_eph c e node v).1
  unfolding handle_untied answer cooling time_now
  answered self src pkt node w v result cfg handshake unasked new responds known unknown =
      handle_udp-untied c e self src pkt node w
      ∙ rw (handshake, handle_untied, unasked, answer, new, cooling, responds)
          (rw responds (
            admitted self (e.clock w.calls) src result.0 result.1 (refresh_precomp_eph c e node v).0
              (refresh_precomp_eph c e node v).1 cfg (rw (refresh-configs node v) known)
              (rw (refresh-sessions c e node v) unknown)))

module _ {PKey : Type 0} (e : Env PKey) where
  pub start_session-sent :
      (self : Self PKey) (key : Bytes) (src : Addr) (session_key : Bytes) (cfg : PeerConfig)
      (is_outbound : Bool) (node : Node PKey) (w : World)
      → (start_session e self key src session_key cfg is_outbound node w).1.sent ≡ w.sent
  unfolding start_session session_init keep_prev_key log_session print_sessions time_now
  start_session-sent self key src session_key cfg is_outbound node w = ground arith
