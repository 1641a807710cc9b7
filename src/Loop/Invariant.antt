-- ===== src/Loop/Invariant.antt =====
-- The session table through the turns of `event_loop` (src/peer.c).
use lane_cove_tunnel.Prelude.{
  Bool, ℕ, true, false, List, [], ◌∷◌, Bool-cases, if_both, Option-cases, inl, inr, ◌&&◌,
}
use lane_cove_tunnel.Prelude.Bytes.{Bytes}
use lane_cove_tunnel.Crypto.{Crypto}
use lane_cove_tunnel.World.{Env, World, Addr}
use lane_cove_tunnel.Handshake.Client.Recv.{handshake_client_recv}
use lane_cove_tunnel.Handshake.Server.{handshake_server_respond}
use lane_cove_tunnel.Node.{PendingHs, Self, Node, config_at, pending_at}
use lane_cove_tunnel.Sessions.{
  find_index, find_session_by_pub, find_session_by_addr, find_peer_config, time_now,
}
use lane_cove_tunnel.Sessions.Unique.{IsTable}
use lane_cove_tunnel.Loop.Response.{is_handshake, awaits, take_response}
use lane_cove_tunnel.Loop.Inbound.{cooling, break_tie, admit, answer, handle_inbound}
use lane_cove_tunnel.Loop.Step.{
  Event, from_tun, from_udp, failed, handle_udp, handle_events, Wait, interrupted, wait_failed,
  woken, Turn, after_wait, turn, run_turns, event_loop,
}
use lane_cove_tunnel.Loop.Report.{Flags, handle_signals}
use lane_cove_tunnel.Loop.Table.{
  HasTable, stop_rekeying-HasTable, start_session-HasTable, break_tie-HasTable,
}
use lane_cove_tunnel.Loop.Still.{handle_tun-HasTable, handle_data-HasTable}
use lane_cove_tunnel.Loop.Checks.{refresh-HasTable, periodic-HasTable}

module _ {PKey Ctx : Type 0} (c : Crypto PKey Ctx) (e : Env PKey) where
  take_response-HasTable :
      (self : Self PKey) (src : Addr) (wire_buf : Bytes) (j : ℕ) (node : Node PKey) (w : World)
      → HasTable node
      → HasTable (take_response c e self src wire_buf j node w).0
  unfolding take_response
  take_response-HasTable self src wire_buf j node w t =
      let p : PendingHs PKey = pending_at node j in
      let cfg = config_at node p.cfg_idx in
      elim (Option-cases
        (handshake_client_recv c wire_buf self.psk_key self.static_key self.static_pub cfg.pub_key
          p.hs_state).0) [
            | inl refused ↦ rw (refused, take_response) (stop_rekeying-HasTable cfg.pub_key _ t)
            | inr (key, agreed) ↦
                rw (agreed, take_response)
                  (start_session-HasTable e self cfg.pub_key src key cfg true _ w t)
          ]

  admit-HasTable :
      (self : Self PKey) (now : ℕ) (src : Addr) (peer_pub session_key : Bytes) (node : Node PKey)
      (w : World)
      → HasTable node
      → HasTable (admit c e self now src peer_pub session_key node w).0
  unfolding admit
  admit-HasTable self now src peer_pub session_key node w t =
      elim (Option-cases (find_peer_config peer_pub node.peer_configs)) [
        | inl unknown ↦ rw (unknown, admit) t
        | inr (cfg, known) ↦
            elim (Bool-cases (
              cooling self.timers now (find_session_by_pub peer_pub node.sessions) node.sessions)) [
                | inl cools ↦ rw (known, cools, admit) t
                | inr ready ↦
                    rw (known, ready, admit)
                      (start_session-HasTable e self peer_pub src session_key cfg false node w t)
              ]
      ]

  answer-HasTable :
      (self : Self PKey) (now : ℕ) (src : Addr) (wire_buf : Bytes) (node : Node PKey) (w : World)
      → HasTable node
      → HasTable (answer c e self now src wire_buf node w).0
  unfolding answer
  answer-HasTable self now src wire_buf node w t =
      elim (Bool-cases
        (cooling self.timers now (find_session_by_addr src node.sessions) node.sessions)) [
          | inl cools ↦ rw (cools, answer) t
          | inr ready ↦
              elim (Option-cases
                (handshake_server_respond c e wire_buf src self.psk_key self.static_key
                  self.static_pub node.precomp_eph_key node.precomp_eph_pub w).0) [
                    | inl refused ↦ rw (ready, refused, answer) t
                    | inr ((peer_pub, session_key), agreed) ↦
                        rw (ready, agreed, answer)
                          (admit-HasTable self now src peer_pub session_key _ _
                            (refresh-HasTable c e node _ t))
                  ]
        ]

  handle_inbound-HasTable :
      (self : Self PKey) (now : ℕ) (src : Addr) (wire_buf : Bytes) (node : Node PKey) (w : World)
      → HasTable node
      → HasTable (handle_inbound c e self now src wire_buf node w).0
  unfolding handle_inbound
  handle_inbound-HasTable self now src wire_buf node w t =
      let t' = break_tie-HasTable self src node t in
      elim (Bool-cases (break_tie self src node).0) [
        | inl skips ↦ rw (skips, handle_inbound) t'
        | inr goes_on ↦ rw (goes_on, handle_inbound) (answer-HasTable self now src wire_buf _ w t')
      ]

  handle_udp-HasTable :
      (self : Self PKey) (src : Addr) (wire_buf : Bytes) (node : Node PKey) (w : World)
      → HasTable node
      → HasTable (handle_udp c e self src wire_buf node w).0
  unfolding handle_udp
  handle_udp-HasTable self src wire_buf node w t =
      let (now, w') = time_now e w in
      elim (Bool-cases (is_handshake self.psk_key wire_buf)) [
        | inr data_packet ↦
            rw (data_packet, handle_udp) (handle_data-HasTable c e now src wire_buf node w' t)
        | inl handshake ↦ elim (Option-cases (find_index (awaits src) node.pending_hs)) [
          | inl unasked ↦
              rw (handshake, unasked, handle_udp)
                (handle_inbound-HasTable self now src wire_buf node w' t)
          | inr (j, asked) ↦
              rw (handshake, asked, handle_udp)
                (take_response-HasTable self src wire_buf j node w' t)
        ]
      ]

  handle_events-HasTable :
      (self : Self PKey) (events : List Event) (node : Node PKey) (w : World)
      → HasTable node
      → HasTable (handle_events c e self events node w).1
  unfolding handle_events
  handle_events-HasTable self [] node w t = t
  handle_events-HasTable self (failed ∷ events) node w t = t
  handle_events-HasTable self (from_tun packet ∷ events) node w t =
      handle_events-HasTable self events _ _ (handle_tun-HasTable c e packet node w t)
  handle_events-HasTable self (from_udp src wire_buf ∷ events) node w t =
      handle_events-HasTable self events _ _ (handle_udp-HasTable self src wire_buf node w t)

  after_wait-HasTable :
      (self : Self PKey) (wait : Wait) (flags : Flags) (node : Node PKey) (w : World)
      → HasTable node
      → HasTable (after_wait c e self wait flags node w).2
  unfolding after_wait
  after_wait-HasTable self interrupted flags node w t = t
  after_wait-HasTable self wait_failed flags node w t = t
  after_wait-HasTable self (woken events) flags node w t =
      handle_events-HasTable self events node _ t

  turn-HasTable :
      (self : Self PKey) (t : Turn) (flags : Flags) (node : Node PKey) (w : World)
      → HasTable node
      → HasTable (turn c e self t flags node w).2
  unfolding turn time_now
  turn-HasTable self t flags node w h =
      after_wait-HasTable self t.wait _ _ _
        (periodic-HasTable c e self (time_now e w).0 node (time_now e w).1 h)

  run_turns-HasTable :
      (self : Self PKey) (turns : List Turn) (flags : Flags) (node : Node PKey) (w : World)
      → HasTable node
      → HasTable (run_turns c e self turns flags node w).0
  unfolding run_turns
  run_turns-HasTable self [] flags node w h = h
  run_turns-HasTable self (t ∷ turns) flags node w h =
      let read = handle_signals t.before flags in
      let h' = turn-HasTable self t read node w h in
      let (goes_on, flags', node', w') = turn c e self t read node w in
      if_both (λ (r : Node PKey × World). HasTable r.0) read.stop _ _ h
        (if_both (λ (r : Node PKey × World). HasTable r.0) goes_on _ _
          (run_turns-HasTable self turns flags' node' w' h') h')

  -- Whatever packets, datagrams, signals and errors a run of the loop meets, and whatever the clock,
  -- the resolver and the random generator answer: a session table with at most `max_peers` slots
  -- whose active sessions belong to different keys stays one.
  pub event_loop-IsTable :
      (self : Self PKey) (got_contexts got_epoll : Bool) (turns : List Turn) (flags : Flags)
      (node : Node PKey) (w : World)
      → IsTable node.sessions
      → IsTable (event_loop c e self got_contexts got_epoll turns flags node w).0.sessions
  unfolding event_loop
  event_loop-IsTable self got_contexts got_epoll turns flags node w h =
      elim (Bool-cases (got_contexts && got_epoll)) [
        | inl got ↦ rw (got, event_loop) (run_turns-HasTable self turns flags _ w h)
        | inr missing ↦ rw (missing, event_loop) h
      ]
