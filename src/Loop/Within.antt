-- ===== src/Loop/Within.antt =====
-- The indices that the tables of src/peer.c hold: an active handshake of `pending_hs` points at a
-- peer configuration.
pub mod Packets
pub mod Turns
use lane_cove_tunnel.Prelude.{
  ℕ, zero, suc, ◌+◌, ◌≤◌, ◌<◌, ◌≡◌, refl, sym, ap, ◌∙◌, Bool, true, false, not, ◌&&◌, ◌||◌, Option,
  none, some, Option-cases, Bool-cases, inl, inr, if_both, List, [], ◌∷◌, arith, length, ltb, leb,
  length-set, get_or-set_both, set, if◌then◌else◌,
}
use lane_cove_tunnel.Prelude.Bytes.{Bytes, bytes_gt}
use lane_cove_tunnel.Crypto.{Crypto}
use lane_cove_tunnel.World.{Env, World, Addr}
use lane_cove_tunnel.Handshake.Client.{handshake_client_send}
use lane_cove_tunnel.Node.{
  PeerConfig, PendingHs, Self, Node, Timers, max_peers, config_at, set_config, pending_at,
  set_pending, zero_pending,
}
use lane_cove_tunnel.Sessions.{find_index, find_session_by_pub, time_now}
use lane_cove_tunnel.Loop.Send.{
  refresh_precomp_eph, resolve_endpoint, initiate_in_slot, initiate_outbound_handshake,
}
use lane_cove_tunnel.Loop.Periodic.{
  set_rekeying, stop_rekeying, needs_handshake, reconnect, reconnects, expire_pending,
  expire_pendings, periodic,
}

-- `pending_hs` has its `max_peers` slots, `peer_configs` its n entries, and the configuration of an
-- active handshake is one of them.
pub record IsWithin {PKey : Type 0} (n : ℕ) (node : Node PKey) : Type 0 where
  pub configs : length node.peer_configs ≡ n
  pub pendings : length node.pending_hs ≡ max_peers
  pub indices : (j : ℕ) → (pending_at node j).active ≡ true → (pending_at node j).cfg_idx < n

module _ {PKey : Type 0} (n : ℕ) where
  pub same-IsWithin :
      (node node' : Node PKey)
      → node'.peer_configs ≡ node.peer_configs
      → node'.pending_hs ≡ node.pending_hs
      → IsWithin n node
      → IsWithin n node'
  same-IsWithin node node' same same' h = record {
    configs = rw (same) h.configs;
    pendings = rw (same') h.pendings;
    indices = λ j. rw (same') (h.indices j);
  }

  pub set_config-IsWithin :
      (node : Node PKey) (i : ℕ) (cfg : PeerConfig)
      → IsWithin n node
      → IsWithin n (set_config node i cfg)
  set_config-IsWithin node i cfg h = record {
    configs = length-set node.peer_configs i cfg ∙ h.configs;
    pendings = h.pendings;
    indices = h.indices;
  }

  pub set_pending-IsWithin :
      (node : Node PKey) (j : ℕ) (p : PendingHs PKey)
      → (p.active ≡ true → p.cfg_idx < n)
      → IsWithin n node
      → IsWithin n (set_pending node j p)
  set_pending-IsWithin node j p ok h = record {
    configs = h.configs;
    pendings = length-set node.pending_hs j p ∙ h.pendings;
    indices = λ k.
        get_or-set_both (λ (q : PendingHs PKey). q.active ≡ true → q.cfg_idx < n) node.pending_hs j
          k p zero_pending ok (h.indices k);
  }

  pub set_rekeying-IsWithin :
      (flag : Bool) (found : Option ℕ) (node : Node PKey)
      → IsWithin n node
      → IsWithin n (set_rekeying flag found node)
  unfolding set_rekeying
  set_rekeying-IsWithin flag none node h = h
  set_rekeying-IsWithin flag (some i) node h =
      same-IsWithin node (set_rekeying flag (some i) node) refl refl h

  pub stop_rekeying-IsWithin :
      (key : Bytes) (node : Node PKey) → IsWithin n node → IsWithin n (stop_rekeying key node)
  unfolding stop_rekeying
  stop_rekeying-IsWithin key node h = set_rekeying-IsWithin false _ node h

  -- A handshake that is over.
  pub drop_pending-IsWithin :
      (node : Node PKey) (j : ℕ) (p : PendingHs PKey)
      → p.active ≡ false
      → IsWithin n node
      → IsWithin n (set_pending node j p)
  drop_pending-IsWithin node j p off h = set_pending-IsWithin node j p (λ on. cc (off, on)) h

  expire_pending-IsWithin :
      (timers : Timers) (now j : ℕ) (node : Node PKey)
      → IsWithin n node
      → IsWithin n (expire_pending timers now j node)
  unfolding expire_pending
  expire_pending-IsWithin timers now j node h =
      if_both (IsWithin n)
        (not (pending_at node j).active
          || ltb now ((pending_at node j).sent_at + timers.handshake_timeout))
        _ _ h (stop_rekeying-IsWithin _ _ (drop_pending-IsWithin node j _ refl h))

  expire_pendings-IsWithin :
      (timers : Timers) (now k j : ℕ) (node : Node PKey)
      → IsWithin n node
      → IsWithin n (expire_pendings timers now k j node)
  unfolding expire_pendings
  expire_pendings-IsWithin timers now zero j node h = h
  expire_pendings-IsWithin timers now (suc k) j node h =
      expire_pendings-IsWithin timers now k (suc j) _ (expire_pending-IsWithin timers now j node h)

module _ {PKey Ctx : Type 0} (c : Crypto PKey Ctx) (e : Env PKey) (n : ℕ) where
  pub refresh-IsWithin :
      (node : Node PKey) (w : World)
      → IsWithin n node
      → IsWithin n (refresh_precomp_eph c e node w).0
  unfolding refresh_precomp_eph
  refresh-IsWithin node w h =
      same-IsWithin n node (refresh_precomp_eph c e node w).0 (ground arith) (ground arith) h

  initiate-IsWithin :
      (self : Self PKey) (i : ℕ) (node : Node PKey) (w : World)
      → i < n
      → IsWithin n node
      → IsWithin n (initiate_outbound_handshake c e self i node w).1
  unfolding initiate_outbound_handshake time_now
  initiate-IsWithin self i node w below h =
      let (now, w') = time_now e w in
      let cfg : PeerConfig = record (config_at node i) { last_attempt = now } in
      let h' = set_config-IsWithin n node i cfg h in
      elim (Option-cases (find_index (λ (p : PendingHs PKey). not p.active) node.pending_hs)) [
        | inl full ↦ rw (full, initiate_outbound_handshake) h'
        | inr (j, free) ↦
            elim (Option-cases
              (handshake_client_send c e cfg.endpoint self.psk_key self.static_pub
                (some cfg.pub_key) w').0) [
                  | inl unsent ↦ rw (free, initiate_outbound_handshake, unsent, initiate_in_slot) h'
                  | inr (state, sent) ↦
                      rw (free, initiate_outbound_handshake, sent, initiate_in_slot)
                        (set_pending-IsWithin n (set_config node i cfg) j _ (λ on. below) h')
                ]
      ]

  reconnect-IsWithin :
      (self : Self PKey) (now i : ℕ) (node : Node PKey) (w : World)
      → i < n
      → IsWithin n node
      → IsWithin n (reconnect c e self now i node w).0
  unfolding reconnect
  reconnect-IsWithin self now i node w below h =
      let cfg = config_at node i in
      let s = find_session_by_pub cfg.pub_key node.sessions in
      let (_, cfg', w') = resolve_endpoint c e cfg w in
      let marked = set_rekeying true s (set_config node i cfg') in
      let (sent, left, w₂) = initiate_outbound_handshake c e self i marked w' in
      let h' =
        initiate-IsWithin self i marked w' below
          (set_rekeying-IsWithin n true s _ (set_config-IsWithin n node i cfg' h)) in
      if_both (λ (r : Node PKey × World). IsWithin n r.0)
        (cfg.has_endpoint
          && (needs_handshake self.timers now s node.sessions
              && leb (cfg.last_attempt + self.timers.reconnect_interval) now))
        _ _ (if_both (IsWithin n) sent _ _ h' (set_rekeying-IsWithin n false s left h')) h

  reconnects-IsWithin :
      (self : Self PKey) (now k i : ℕ) (node : Node PKey) (w : World)
      → i + k ≤ n
      → IsWithin n node
      → IsWithin n (reconnects c e self now k i node w).0
  unfolding reconnects
  reconnects-IsWithin self now zero i node w fits h = h
  reconnects-IsWithin self now (suc k) i node w fits h =
      reconnects-IsWithin self now k (suc i) _ _ (omega arith)
        (reconnect-IsWithin self now i node w (omega arith) h)

  pub periodic-IsWithin :
      (self : Self PKey) (now : ℕ) (node : Node PKey) (w : World)
      → IsWithin n node
      → IsWithin n (periodic c e self now node w).0
  unfolding periodic
  periodic-IsWithin self now node w h =
      let begun : Node PKey = record node { last_rekey_check = now } in
      let (node₁, w₁) = reconnects c e self now (length node.peer_configs) 0 begun w in
      let node₂ = expire_pendings self.timers now max_peers 0 node₁ in
      let h₂ = expire_pendings-IsWithin n self.timers now max_peers 0 node₁ (
        reconnects-IsWithin self now (length node.peer_configs) 0 begun w (omega (arith, h.configs))
          (same-IsWithin n node begun refl refl h)) in
      if_both (λ (r : Node PKey × World). IsWithin n r.0) (ltb now (node.last_rekey_check + 10)) _ _
        h (same-IsWithin n node₂ _ refl refl h₂)
