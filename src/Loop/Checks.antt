-- ===== src/Loop/Checks.antt =====
-- The session table through the checks at the head of `event_loop` (src/peer.c).
use lane_cove_tunnel.Prelude.{
  ℕ, zero, suc, ◌+◌, ◌≡◌, true, false, Bool-cases, inl, inr, arith, length, ltb, leb, ◌&&◌,
}
use lane_cove_tunnel.Crypto.{Crypto}
use lane_cove_tunnel.World.{Env, World}
use lane_cove_tunnel.Node.{Self, Node, config_at, set_config, max_peers}
use lane_cove_tunnel.Sessions.{find_session_by_pub}
use lane_cove_tunnel.Loop.Send.{resolve_endpoint, refresh_precomp_eph, initiate_outbound_handshake}
use lane_cove_tunnel.Loop.Periodic.{set_rekeying, needs_handshake, reconnect, reconnects, periodic}
use lane_cove_tunnel.Loop.Table.{
  HasTable, set_rekeying-HasTable, expire_pendings-HasTable, each-IsTable, expire_sessions-IsTable,
}
use lane_cove_tunnel.Loop.Still.{keepalives-IsTable}

module _ {PKey Ctx : Type 0} (c : Crypto PKey Ctx) (e : Env PKey) where
  pub refresh-sessions :
      (node : Node PKey) (w : World) → (refresh_precomp_eph c e node w).0.sessions ≡ node.sessions
  unfolding refresh_precomp_eph
  refresh-sessions node w = ground arith

  pub refresh-HasTable :
      (node : Node PKey) (w : World) → HasTable node → HasTable (refresh_precomp_eph c e node w).0
  refresh-HasTable node w t = rw (refresh-sessions node w) t

  pub initiate-sessions :
      (self : Self PKey) (i : ℕ) (node : Node PKey) (w : World)
      → (initiate_outbound_handshake c e self i node w).1.sessions ≡ node.sessions
  unfolding initiate_outbound_handshake
  initiate-sessions self i node w = ground arith

  initiate-HasTable :
      (self : Self PKey) (i : ℕ) (node : Node PKey) (w : World)
      → HasTable node
      → HasTable (initiate_outbound_handshake c e self i node w).1
  initiate-HasTable self i node w t = rw (initiate-sessions self i node w) t

  reconnect-HasTable :
      (self : Self PKey) (now i : ℕ) (node : Node PKey) (w : World)
      → HasTable node
      → HasTable (reconnect c e self now i node w).0
  unfolding reconnect
  reconnect-HasTable self now i node w t =
      let cfg = config_at node i in
      let s = find_session_by_pub cfg.pub_key node.sessions in
      let (_, cfg', w') = resolve_endpoint c e cfg w in
      let marked = set_rekeying true s (set_config node i cfg') in
      let t' = initiate-HasTable self i marked w' (set_rekeying-HasTable true s _ t) in
      elim (Bool-cases (
        cfg.has_endpoint
        && (needs_handshake self.timers now s node.sessions
            && leb (cfg.last_attempt + self.timers.reconnect_interval) now))) [
              | inr idle ↦ rw (idle, reconnect) t
              | inl due ↦ elim (Bool-cases (initiate_outbound_handshake c e self i marked w').0) [
                | inl sent ↦ rw (due, reconnect, sent) t'
                | inr unsent ↦ rw (due, reconnect, unsent) (set_rekeying-HasTable false s _ t')
              ]
            ]

  reconnects-HasTable :
      (self : Self PKey) (now n i : ℕ) (node : Node PKey) (w : World)
      → HasTable node
      → HasTable (reconnects c e self now n i node w).0
  unfolding reconnects
  reconnects-HasTable self now zero i node w t = t
  reconnects-HasTable self now (suc n) i node w t =
      reconnects-HasTable self now n (suc i) _ _ (reconnect-HasTable self now i node w t)

  pub periodic-HasTable :
      (self : Self PKey) (now : ℕ) (node : Node PKey) (w : World)
      → HasTable node
      → HasTable (periodic c e self now node w).0
  unfolding periodic
  periodic-HasTable self now node w t = elim (Bool-cases (ltb now (node.last_rekey_check + 10))) [
    | inl early ↦ rw (early, periodic) t
    | inr due ↦
        let (node₁, w₁) =
          reconnects c e self now (length node.peer_configs) 0
            (record node { last_rekey_check = now }) w in
        let t₁ =
          reconnects-HasTable self now (length node.peer_configs) 0
            (record node { last_rekey_check = now }) w t in
        let t₂ = expire_pendings-HasTable self.timers now max_peers 0 _ t₁ in
        let t₃ = expire_sessions-IsTable self.timers now _ t₂ in
        let sent = keepalives-IsTable c e self.timers now _ w₁ in
        rw (due, periodic) (each-IsTable _ _ sent.0 sent.1 t₃)
  ]
