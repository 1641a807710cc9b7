-- ===== src/Loop/Response.antt =====
-- The part of `event_loop` that takes a datagram for the response to a pending handshake, and the
-- start of a session, which this part and `Inbound` share.
use lane_cove_tunnel.Prelude.{ℕ, Bool, true, false, ◌&&◌, ◌==◌, Option, none, some, length, take}
use lane_cove_tunnel.Prelude.Bytes.{Bytes, bytes_eq}
use lane_cove_tunnel.Crypto.{Crypto}
use lane_cove_tunnel.World.{Env, World, Addr}
use lane_cove_tunnel.Handshake.{header_size, pkt_header, hs_size}
use lane_cove_tunnel.Handshake.Client.Recv.{handshake_client_recv}
use lane_cove_tunnel.Node.{
  PeerConfig, PendingHs, Self, Node, config_at, pending_at, set_pending, set_session,
}
use lane_cove_tunnel.Sessions.{same_addr, alloc_session, session_init, slot}
use lane_cove_tunnel.Loop.Report.{print_sessions}
use lane_cove_tunnel.Loop.Periodic.{stop_rekeying}

-- `nr == hs_size && memcmp(wire_buf, pkt_header, HEADER_SIZE) == 0`
abbrev pub is_handshake : Option Bytes → Bytes → Bool
is_handshake psk_key wire_buf =
    length wire_buf == hs_size psk_key && bytes_eq (take header_size wire_buf) pkt_header

-- A pending handshake whose server has this address.
abbrev pub awaits : {PKey : Type 0} → Addr → PendingHs PKey → Bool
awaits src p = p.active && same_addr p.server_addr src

-- A full table leaves everything as it is.
module _ {PKey : Type 0} (e : Env PKey) where
  unfoldable pub start_session :
      Self PKey → Bytes → Addr → Bytes → PeerConfig → Bool → Node PKey → World → Node PKey × World
  start_session self key src session_key cfg is_outbound node w =
      elim (alloc_session key src node.sessions) [
        | none ↦ (node, w)
        | some (i, sessions) ↦
            let (s, w) =
              session_init e self.timers (slot sessions i) src key session_key (some cfg)
                is_outbound w in
            let node : Node PKey = set_session (record node { sessions = sessions }) i s in
            (node, print_sessions node.sessions w)
      ]

module _ {PKey Ctx : Type 0} (c : Crypto PKey Ctx) (e : Env PKey) where
  -- The body of the loop for the pending handshake j, the first that awaits the address.
  unfoldable pub take_response :
      Self PKey → Addr → Bytes → ℕ → Node PKey → World → Node PKey × World
  take_response self src wire_buf j node w =
      let p : PendingHs PKey = pending_at node j in
      let cfg = config_at node p.cfg_idx in
      let (session_key, hs_state) =
        handshake_client_recv c wire_buf self.psk_key self.static_key self.static_pub cfg.pub_key
          p.hs_state in
      let node = set_pending node j (record p { active = false; hs_state = hs_state }) in
      elim session_key [
        | none ↦ (stop_rekeying cfg.pub_key node, w)
        | some key ↦ start_session e self cfg.pub_key src key cfg true node w
      ]
