-- ===== src/Loop/Periodic.antt =====
-- The checks at the head of `event_loop`, made when ten seconds have passed: reconnecting and
-- rekeying, timed-out handshakes, silent sessions, keepalives. A difference of two times that is
-- compared with a number is written as a sum, since the clock may have been set back.
use lane_cove_tunnel.Prelude.{
  ℕ, zero, suc, ◌+◌, ◌*◌, ◌/◌, Bool, true, false, not, ◌&&◌, ◌||◌, Option, none, some, List, [],
  ◌∷◌, ltb, leb, if◌then◌else◌, length,
}
use lane_cove_tunnel.Prelude.Bytes.{Bytes}
use lane_cove_tunnel.Crypto.{Crypto}
use lane_cove_tunnel.World.{Env, World}
use lane_cove_tunnel.Node.{
  Session, PendingHs, Self, Node, Timers, max_peers, config_at, set_config, pending_at, set_pending,
  set_session,
}
use lane_cove_tunnel.Sessions.{find_session_by_pub, slot}
use lane_cove_tunnel.Loop.Send.{resolve_endpoint, forward_to_peer, initiate_outbound_handshake}

module _ {PKey : Type 0} where
  -- `if (s) s->rekeying = flag` for the session at an index.
  unfoldable pub set_rekeying : Bool → Option ℕ → Node PKey → Node PKey
  set_rekeying flag none node = node
  set_rekeying flag (some i) node =
      set_session node i (record (slot node.sessions i) { rekeying = flag })

  -- `find_session_by_pub(pub)` and then `rekeying = 0`.
  unfoldable pub stop_rekeying : Bytes → Node PKey → Node PKey
  unfolding set_rekeying
  stop_rekeying key node = set_rekeying false (find_session_by_pub key node.sessions) node

  -- The body of the second loop: pending slot j, if its time is up.
  unfoldable pub expire_pending : Timers → ℕ → ℕ → Node PKey → Node PKey
  expire_pending timers now j node =
      let p : PendingHs PKey = pending_at node j in
      if not p.active || ltb now (p.sent_at + timers.handshake_timeout)
      then node
      else stop_rekeying (config_at node p.cfg_idx).pub_key (
          set_pending node j
            (record p { active = false; hs_state = record p.hs_state { eph_key = none } }))

  -- `for (j = i; j < i + n; j++)`
  unfoldable pub expire_pendings : Timers → ℕ → ℕ → ℕ → Node PKey → Node PKey
  expire_pendings timers now zero j node = node
  expire_pendings timers now (suc n) j node =
      expire_pendings timers now n (suc j) (expire_pending timers now j node)

unfoldable pub needs_handshake : Timers → ℕ → Option ℕ → List Session → Bool
needs_handshake timers now none sessions = true
needs_handshake timers now (some i) sessions =
    leb ((slot sessions i).last_handshake + timers.rekey_after * 4 / 5) now
    && not (slot sessions i).rekeying

-- The third loop, slot by slot.
unfoldable pub expire_session : Timers → ℕ → Session → Session
expire_session timers now s =
    if not s.active
    then s
    else (let ref = if ltb 0 s.last_seen then s.last_seen else s.last_handshake in
        if leb now (ref + timers.session_expiry) then s else record s { active = false })

unfoldable pub expire_sessions : Timers → ℕ → List Session → List Session
expire_sessions timers now [] = []
expire_sessions timers now (s ∷ sessions) =
    expire_session timers now s ∷ expire_sessions timers now sessions

module _ {PKey Ctx : Type 0} (c : Crypto PKey Ctx) (e : Env PKey) where
  -- The body of the first loop: peer configuration i.
  unfoldable pub reconnect : Self PKey → ℕ → ℕ → Node PKey → World → Node PKey × World
  reconnect self now i node w =
      let cfg = config_at node i in
      let s = find_session_by_pub cfg.pub_key node.sessions in
      let needs = needs_handshake self.timers now s node.sessions in
      let ready = leb (cfg.last_attempt + self.timers.reconnect_interval) now in
      if cfg.has_endpoint && (needs && ready)
      then (let (_, cfg, w) = resolve_endpoint c e cfg w in
          let node = set_rekeying true s (set_config node i cfg) in
          let (sent, node, w) = initiate_outbound_handshake c e self i node w in
          (if sent then node else set_rekeying false s node, w))
      else (node, w)

  unfoldable pub reconnects : Self PKey → ℕ → ℕ → ℕ → Node PKey → World → Node PKey × World
  reconnects self now zero i node w = (node, w)
  reconnects self now (suc n) i node w =
      let (node, w) = reconnect self now i node w in reconnects self now n (suc i) node w

  -- The last loop, slot by slot: `forward_to_peer` with no payload.
  unfoldable pub keepalive : Timers → ℕ → Session → World → Session × World
  keepalive timers now s w =
      if not s.active || ltb now (s.last_sent + timers.keepalive_interval)
      then (s, w)
      else forward_to_peer c e s [] w

  unfoldable pub keepalives : Timers → ℕ → List Session → World → List Session × World
  keepalives timers now [] w = ([], w)
  keepalives timers now (s ∷ sessions) w =
      let (s, w) = keepalive timers now s w in
      let (sessions, w) = keepalives timers now sessions w in (s ∷ sessions, w)

  unfoldable pub periodic : Self PKey → ℕ → Node PKey → World → Node PKey × World
  periodic self now node w =
      if ltb now (node.last_rekey_check + 10)
      then (node, w)
      else (let node = record node { last_rekey_check = now } in
          let (node, w) = reconnects self now (length node.peer_configs) 0 node w in
          let node = expire_pendings self.timers now max_peers 0 node in
          let node = record node { sessions = expire_sessions self.timers now node.sessions } in
          let (sessions, w) = keepalives self.timers now node.sessions w in
          (record node { sessions = sessions }, w))
