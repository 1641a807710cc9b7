-- ===== src/Loop/Inbound.antt =====
-- The part of `event_loop` that answers the handshake of another peer.
use lane_cove_tunnel.Prelude.{
  ℕ, ◌+◌, Bool, true, false, Option, none, some, List, ltb, if◌then◌else◌,
}
use lane_cove_tunnel.Prelude.Bytes.{Bytes, bytes_gt}
use lane_cove_tunnel.Crypto.{Crypto}
use lane_cove_tunnel.World.{Env, World, Addr}
use lane_cove_tunnel.Handshake.Server.{handshake_server_respond}
use lane_cove_tunnel.Node.{
  Session, PendingHs, Timers, Self, Node, config_at, pending_at, set_pending,
}
use lane_cove_tunnel.Sessions.{
  find_index, find_peer_config, find_session_by_addr, find_session_by_pub, slot,
}
use lane_cove_tunnel.Loop.Send.{refresh_precomp_eph}
use lane_cove_tunnel.Loop.Periodic.{stop_rekeying}
use lane_cove_tunnel.Loop.Response.{awaits, start_session}

-- `s && now - s->last_handshake < cfg_handshake_cooldown`
unfoldable pub cooling : Timers → ℕ → Option ℕ → List Session → Bool
cooling timers now none sessions = false
cooling timers now (some i) sessions =
    ltb now ((slot sessions i).last_handshake + timers.handshake_cooldown)

module _ {PKey : Type 0} where
  -- The tie-breaking: `skip`, and the node.
  unfoldable pub break_tie : Self PKey → Addr → Node PKey → Bool × Node PKey
  break_tie self src node = elim (find_index (awaits src) node.pending_hs) [
    | none ↦ (false, node)
    | some j ↦
        let p : PendingHs PKey = pending_at node j in
        let key = (config_at node p.cfg_idx).pub_key in
        if bytes_gt self.static_pub key then (true, node) else (
          false,
          stop_rekeying key (
              set_pending node j
                (record p { active = false; hs_state = record p.hs_state { eph_key = none } })),
        )
  ]

module _ {PKey Ctx : Type 0} (c : Crypto PKey Ctx) (e : Env PKey) where
  -- From `find_peer_config` on, for the key that the handshake proved.
  unfoldable pub admit :
      Self PKey → ℕ → Addr → Bytes → Bytes → Node PKey → World → Node PKey × World
  unfolding cooling
  admit self now src peer_pub session_key node w =
      elim (find_peer_config peer_pub node.peer_configs) [
        | none ↦ (node, w)
        | some cfg ↦
            if cooling self.timers now (find_session_by_pub peer_pub node.sessions) node.sessions
            then (node, w)
            else start_session e self peer_pub src session_key cfg false node w
      ]

  -- The handler after the tie-breaking.
  unfoldable pub answer : Self PKey → ℕ → Addr → Bytes → Node PKey → World → Node PKey × World
  answer self now src wire_buf node w =
      if cooling self.timers now (find_session_by_addr src node.sessions) node.sessions
      then (node, w)
      else (let (responded, w) =
            handshake_server_respond c e wire_buf src self.psk_key self.static_key self.static_pub
              node.precomp_eph_key node.precomp_eph_pub w in
          elim responded [
            | none ↦ (node, w)
            | some (peer_pub, session_key) ↦
                let (node, w) = refresh_precomp_eph c e node w in
                admit self now src peer_pub session_key node w
          ])

  unfoldable pub handle_inbound :
      Self PKey → ℕ → Addr → Bytes → Node PKey → World → Node PKey × World
  handle_inbound self now src wire_buf node w =
      let (skip, node) = break_tie self src node in
      if skip then (node, w) else answer self now src wire_buf node w
