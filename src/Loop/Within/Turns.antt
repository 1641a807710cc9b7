-- ===== src/Loop/Within/Turns.antt =====
-- The indices of `pending_hs` through the turns of `event_loop` (src/peer.c).
use lane_cove_tunnel.Prelude.{
  ℕ, refl, Bool, true, false, ◌&&◌, Option-cases, Bool-cases, inl, inr, if_both, List, [], ◌∷◌,
}
use lane_cove_tunnel.Prelude.Bytes.{Bytes, bytes_gt}
use lane_cove_tunnel.Crypto.{Crypto}
use lane_cove_tunnel.World.{Env, World, Addr}
use lane_cove_tunnel.Handshake.Client.Recv.{handshake_client_recv}
use lane_cove_tunnel.Handshake.Server.{handshake_server_respond}
use lane_cove_tunnel.Node.{PeerConfig, PendingHs, Self, Node, config_at, pending_at}
use lane_cove_tunnel.Sessions.{
  find_index, find_session_by_pub, find_session_by_addr, find_peer_config, time_now, alloc_session,
}
use lane_cove_tunnel.Loop.Report.{Flags, handle_signals}
use lane_cove_tunnel.Loop.Response.{is_handshake, awaits, start_session, take_response}
use lane_cove_tunnel.Loop.Inbound.{cooling, break_tie, admit, answer, handle_inbound}
use lane_cove_tunnel.Loop.Step.{
  Event, from_tun, from_udp, failed, handle_udp, handle_events, Wait, interrupted, wait_failed,
  woken, Turn, after_wait, turn, run_turns, event_loop,
}
use lane_cove_tunnel.Loop.Within.{
  IsWithin, same-IsWithin, stop_rekeying-IsWithin, drop_pending-IsWithin, refresh-IsWithin,
  periodic-IsWithin,
}
use lane_cove_tunnel.Loop.Within.Packets.{handle_tun-IsWithin, handle_data-IsWithin}

module _ {PKey : Type 0} (n : ℕ) where
  start_session-IsWithin :
      (e : Env PKey) (self : Self PKey) (key : Bytes) (src : Addr) (session_key : Bytes)
      (cfg : PeerConfig) (is_outbound : Bool) (node : Node PKey) (w : World)
      → IsWithin n node
      → IsWithin n (start_session e self key src session_key cfg is_outbound node w).0
  unfolding start_session
  start_session-IsWithin e self key src session_key cfg is_outbound node w h =
      elim (Option-cases (alloc_session key src node.sessions)) [
        | inl full ↦ rw (full, start_session) h
        | inr ((i, sessions), found) ↦
            rw (found, start_session) (same-IsWithin n node _ refl refl h)
      ]

  break_tie-IsWithin :
      (self : Self PKey) (src : Addr) (node : Node PKey)
      → IsWithin n node
      → IsWithin n (break_tie self src node).1
  unfolding break_tie
  break_tie-IsWithin self src node h =
      elim (Option-cases (find_index (awaits src) node.pending_hs)) [
        | inl no_one ↦ rw (no_one, break_tie) h
        | inr (j, found) ↦
            let key = (config_at node (pending_at node j).cfg_idx).pub_key in
            rw (found, break_tie)
              (if_both (λ (r : Bool × Node PKey). IsWithin n r.1) (bytes_gt self.static_pub key) _ _
                h (stop_rekeying-IsWithin n key _ (drop_pending-IsWithin n node j _ refl h)))
      ]

module _ {PKey Ctx : Type 0} (c : Crypto PKey Ctx) (e : Env PKey) (n : ℕ) where
  take_response-IsWithin :
      (self : Self PKey) (src : Addr) (wire_buf : Bytes) (j : ℕ) (node : Node PKey) (w : World)
      → IsWithin n node
      → IsWithin n (take_response c e self src wire_buf j node w).0
  unfolding take_response
  take_response-IsWithin self src wire_buf j node w h =
      let p : PendingHs PKey = pending_at node j in
      let cfg = config_at node p.cfg_idx in
      let answer_of =
        handshake_client_recv c wire_buf self.psk_key self.static_key self.static_pub cfg.pub_key
          p.hs_state in
      let h' =
        drop_pending-IsWithin n node j (record p { active = false; hs_state = answer_of.1 }) refl
          h in
      elim (Option-cases answer_of.0) [
        | inl refused ↦ rw (refused, take_response) (stop_rekeying-IsWithin n cfg.pub_key _ h')
        | inr (key, agreed) ↦
            rw (agreed, take_response)
              (start_session-IsWithin n e self cfg.pub_key src key cfg true _ w h')
      ]

  admit-IsWithin :
      (self : Self PKey) (now : ℕ) (src : Addr) (peer_pub session_key : Bytes) (node : Node PKey)
      (w : World)
      → IsWithin n node
      → IsWithin n (admit c e self now src peer_pub session_key node w).0
  unfolding admit
  admit-IsWithin self now src peer_pub session_key node w h =
      elim (Option-cases (find_peer_config peer_pub node.peer_configs)) [
        | inl unknown ↦ rw (unknown, admit) h
        | inr (cfg, known) ↦
            rw (known, admit)
              (if_both (λ (r : Node PKey × World). IsWithin n r.0)
                (cooling self.timers now (find_session_by_pub peer_pub node.sessions) node.sessions)
                _ _ h (start_session-IsWithin n e self peer_pub src session_key cfg false node w h))
      ]

  answer-IsWithin :
      (self : Self PKey) (now : ℕ) (src : Addr) (wire_buf : Bytes) (node : Node PKey) (w : World)
      → IsWithin n node
      → IsWithin n (answer c e self now src wire_buf node w).0
  unfolding answer
  answer-IsWithin self now src wire_buf node w h =
      elim (Bool-cases
        (cooling self.timers now (find_session_by_addr src node.sessions) node.sessions)) [
          | inl cools ↦ rw (cools, answer) h
          | inr ready_now ↦
              elim (Option-cases
                (handshake_server_respond c e wire_buf src self.psk_key self.static_key
                  self.static_pub node.precomp_eph_key node.precomp_eph_pub w).0) [
                    | inl refused ↦ rw (ready_now, refused, answer) h
                    | inr ((peer_pub, session_key), agreed) ↦
                        rw (ready_now, agreed, answer)
                          (admit-IsWithin self now src peer_pub session_key _ _
                            (refresh-IsWithin c e n node _ h))
                  ]
        ]

  handle_inbound-IsWithin :
      (self : Self PKey) (now : ℕ) (src : Addr) (wire_buf : Bytes) (node : Node PKey) (w : World)
      → IsWithin n node
      → IsWithin n (handle_inbound c e self now src wire_buf node w).0
  unfolding handle_inbound
  handle_inbound-IsWithin self now src wire_buf node w h =
      let h' = break_tie-IsWithin n self src node h in
      if_both (λ (r : Node PKey × World). IsWithin n r.0) (break_tie self src node).0 _ _ h'
        (answer-IsWithin self now src wire_buf _ w h')

  handle_udp-IsWithin :
      (self : Self PKey) (src : Addr) (wire_buf : Bytes) (node : Node PKey) (w : World)
      → IsWithin n node
      → IsWithin n (handle_udp c e self src wire_buf node w).0
  unfolding handle_udp
  handle_udp-IsWithin self src wire_buf node w h =
      let (now, w') = time_now e w in
      elim (Bool-cases (is_handshake self.psk_key wire_buf)) [
        | inr data_packet ↦
            rw (data_packet, handle_udp) (handle_data-IsWithin c e n now src wire_buf node w' h)
        | inl handshake ↦ elim (Option-cases (find_index (awaits src) node.pending_hs)) [
          | inl unasked ↦
              rw (handshake, unasked, handle_udp)
                (handle_inbound-IsWithin self now src wire_buf node w' h)
          | inr (j, asked) ↦
              rw (handshake, asked, handle_udp)
                (take_response-IsWithin self src wire_buf j node w' h)
        ]
      ]

  handle_events-IsWithin :
      (self : Self PKey) (events : List Event) (node : Node PKey) (w : World)
      → IsWithin n node
      → IsWithin n (handle_events c e self events node w).1
  unfolding handle_events
  handle_events-IsWithin self [] node w h = h
  handle_events-IsWithin self (failed ∷ events) node w h = h
  handle_events-IsWithin self (from_tun packet ∷ events) node w h =
      handle_events-IsWithin self events _ _ (handle_tun-IsWithin c e n packet node w h)
  handle_events-IsWithin self (from_udp src wire_buf ∷ events) node w h =
      handle_events-IsWithin self events _ _ (handle_udp-IsWithin self src wire_buf node w h)

  after_wait-IsWithin :
      (self : Self PKey) (wait : Wait) (flags : Flags) (node : Node PKey) (w : World)
      → IsWithin n node
      → IsWithin n (after_wait c e self wait flags node w).2
  unfolding after_wait
  after_wait-IsWithin self interrupted flags node w h = h
  after_wait-IsWithin self wait_failed flags node w h = h
  after_wait-IsWithin self (woken events) flags node w h =
      handle_events-IsWithin self events node _ h

  run_turns-IsWithin :
      (self : Self PKey) (turns : List Turn) (flags : Flags) (node : Node PKey) (w : World)
      → IsWithin n node
      → IsWithin n (run_turns c e self turns flags node w).0
  unfolding run_turns turn
  run_turns-IsWithin self [] flags node w h = h
  run_turns-IsWithin self (t ∷ turns) flags node w h =
      let read = handle_signals t.before flags in
      let (now, v) = time_now e w in
      let h' =
        after_wait-IsWithin self t.wait (handle_signals t.during read) _ _
          (periodic-IsWithin c e n self now node v h) in
      let (goes_on, flags', node', w') = turn c e self t read node w in
      if_both (λ (r : Node PKey × World). IsWithin n r.0) read.stop _ _ h
        (if_both (λ (r : Node PKey × World). IsWithin n r.0) goes_on _ _
          (run_turns-IsWithin self turns flags' node' w' h') h')

  -- Whatever a run of the loop meets, `peer_configs` keeps its n entries and `pending_hs` its
  -- `max_peers` slots, and the index `cfg_idx` in an active slot, with which the code reads
  -- `peer_configs`, stays below n, if all this holds before.
  pub event_loop-IsWithin :
      (self : Self PKey) (got_contexts got_epoll : Bool) (turns : List Turn) (flags : Flags)
      (node : Node PKey) (w : World)
      → IsWithin n node
      → IsWithin n (event_loop c e self got_contexts got_epoll turns flags node w).0
  unfolding event_loop
  event_loop-IsWithin self got_contexts got_epoll turns flags node w h =
      if_both (λ (r : Node PKey × World). IsWithin n r.0) (got_contexts && got_epoll) _ _
        (run_turns-IsWithin self turns flags _ w (same-IsWithin n node _ refl refl h)) h
