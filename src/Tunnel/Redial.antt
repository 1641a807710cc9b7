-- ===== src/Tunnel/Redial.antt =====
-- The reconnecting of `event_loop` (src/peer.c): who is called.
use lane_cove_tunnel.Prelude.{
  ℕ, zero, suc, ◌+◌, ◌≤◌, ◌<◌, ◌≡◌, ◌≢◌, refl, ap, ◌∙◌, true, ◌&&◌, Option, some, [], ◌∷◌, ◌++◌,
  leb, ltb, length, get_or-set_self, get_or-set_related, arith, Bool-cases, Option-cases, inl, inr,
}
use lane_cove_tunnel.Prelude.Bytes.{Bytes}
use lane_cove_tunnel.Crypto.{Crypto, IsCrypto}
use lane_cove_tunnel.World.{Env, World, Addr}
use lane_cove_tunnel.World.{sendto}
use lane_cove_tunnel.Handshake.{pkt_header, x25519_shared_secret}
use lane_cove_tunnel.Handshake.Client.{generate_eph_keypair, handshake_client_send}
use lane_cove_tunnel.Decimal.{decimal}
use lane_cove_tunnel.Node.{PeerConfig, Self, Node, config_at, set_config, zero_config, zero_pending}
use lane_cove_tunnel.Sessions.{find_index, find_session_by_pub, time_now}
use lane_cove_tunnel.Loop.Send.{resolve_endpoint, initiate_in_slot, initiate_outbound_handshake}
use lane_cove_tunnel.Loop.Periodic.{set_rekeying, needs_handshake, reconnect, reconnects}
use lane_cove_tunnel.Tunnel.Send.{IsReliable}
use lane_cove_tunnel.Tunnel.Able.{IsAble, encrypt_identity-some, append_mac-some}
use lane_cove_tunnel.Tunnel.Ask.{initiated}
use lane_cove_tunnel.Tunnel.Connect.{initiates}
use lane_cove_tunnel.Tunnel.Slots.{
  Grown, is_free, count_free, IsCalling, free_slot, Filled-IsCalling, Filled-count_free,
}
use lane_cove_tunnel.Tunnel.Due.{reconnect-IsStep, IsDue, step-IsDue, resolve-pub_key}

module _ {PKey Ctx : Type 0} (c : Crypto PKey Ctx) (ok : IsCrypto c) (able : IsAble c)
    (e : Env PKey) (reliable : IsReliable e) where
  client-Grown :
      (to : Addr) (psk : Option Bytes) (static_pub server_pub : Bytes) (w : World)
      → Grown w.sent (handshake_client_send c e to psk static_pub (some server_pub) w).1.sent
  unfolding handshake_client_send generate_eph_keypair sendto
  client-Grown to psk static_pub server_pub w =
      let (key, drawn) = reliable.keygen-some w.calls in
      let (eph_pub, own) = able.raw_public_key-some key in
      elim (Option-cases (x25519_shared_secret c key server_pub)) [
        | inl fails ↦ ([], rw (drawn, own, fails))
        | inr (ss, secret) ↦
            let (enc, encrypted) = encrypt_identity-some c ok able ss static_pub in
            let (mac, authentic) = append_mac-some c ok able psk (eph_pub ++ enc) in
            (
              record { to = to; bytes = pkt_header ++ ((eph_pub ++ enc) ++ mac) } ∷ [],
              rw (drawn, own, secret, encrypted, authentic, sendto, reliable.sendto_ok-true),
            )
      ]

  initiate-Grown :
      (self : Self PKey) (j : ℕ) (node : Node PKey) (w : World)
      → Grown w.sent (initiate_outbound_handshake c e self j node w).2.sent
  unfolding initiate_outbound_handshake time_now
  initiate-Grown self j node w =
      let cfg = config_at node j in
      let v : World = record w { calls = w.calls + 1 } in
      let grown = client-Grown cfg.endpoint self.psk_key self.static_pub cfg.pub_key v in
      elim (Option-cases (find_index is_free node.pending_hs)) [
        | inl full ↦ ([], rw (full, initiate_outbound_handshake))
        | inr (place, free) ↦
            elim (Option-cases
              (handshake_client_send c e cfg.endpoint self.psk_key self.static_pub
                (some cfg.pub_key) v).0) [
                  | inl fails ↦
                      rw (free, initiate_outbound_handshake, fails, initiate_in_slot) grown
                  | inr (state, asks) ↦
                      rw (free, initiate_outbound_handshake, asks, initiate_in_slot) grown
                ]
      ]

  resolve-sent : (cfg : PeerConfig) (w : World) → (resolve_endpoint c e cfg w).2.sent ≡ w.sent
  unfolding resolve_endpoint
  resolve-sent cfg w =
      elim (Option-cases (e.getaddrinfo w.calls cfg.endpoint_host (decimal cfg.endpoint_port))) [
        | inl unresolved ↦ rw (unresolved, resolve_endpoint) refl
        | inr (addr, resolved) ↦ rw (resolved, resolve_endpoint) refl
      ]

  reconnect-Grown :
      (self : Self PKey) (now j : ℕ) (node : Node PKey) (w : World)
      → Grown w.sent (reconnect c e self now j node w).1.sent
  unfolding reconnect
  reconnect-Grown self now j node w =
      let cfg = config_at node j in
      let s = find_session_by_pub cfg.pub_key node.sessions in
      let (_, cfg', v) = resolve_endpoint c e cfg w in
      let marked = set_rekeying true s (set_config node j cfg') in
      let (newer, grown) = initiate-Grown self j marked v in
      elim (Bool-cases (
        cfg.has_endpoint
        && (needs_handshake self.timers now s node.sessions
            && leb (cfg.last_attempt + self.timers.reconnect_interval) now))) [
              | inr idle ↦ ([], rw (idle, reconnect))
              | inl due ↦
                  (newer, rw (due, reconnect) (grown ∙ ap (◌++◌ newer) (resolve-sent cfg w)))
            ]

  reconnect-IsCalling :
      (self : Self PKey) (now i : ℕ) (node : Node PKey) (w : World)
      → 0 < count_free node.pending_hs
      → IsDue c e self now i node
      → let (node', w') = reconnect c e self now i node w in IsCalling i node'.pending_hs w'.sent
  unfolding reconnect set_rekeying needs_handshake
  reconnect-IsCalling self now i node w free due =
      let (_, cfg', v) = resolve_endpoint c e (config_at node i) w in
      let node' = set_config node i cfg' in
      let same : (config_at node' i).pub_key ≡ (config_at node i).pub_key =
        get_or-set_related (λ (a b : PeerConfig). b.pub_key ≡ a.pub_key) node.peer_configs i i cfg'
          zero_config (λ a. refl) (resolve-pub_key c e (config_at node i) w) in
      let (place, found) = free_slot node.pending_hs free in
      let goes =
        initiates c ok able e self i place due.key node' v reliable found (rw same due.own_key) in
      let h = initiated c e self i node' v goes in
      let ready : leb ((config_at node i).last_attempt + self.timers.reconnect_interval) now
          ≡ true =
        ground (arith, due.ready) in
      let set_to =
        get_or-set_self node.pending_hs h.place
          (record {
            active = true;
            cfg_idx = i;
            sent_at = h.sent_at;
            hs_state = h.state;
            server_addr = (config_at node' i).endpoint;
          })
          zero_pending h.inside in
      rw (due.unknown, due.endpoint, ready, goes, h.asked)
        (record {
          place = h.place;
          active = rw set_to;
          whom = rw set_to;
          asked = rw set_to (h.call.pkt, [], v.sent, h.call.delivered);
        })

  keeps-IsCalling :
      (self : Self PKey) (now n k i : ℕ) (node : Node PKey) (w : World)
      → IsCalling i node.pending_hs w.sent
      → let (node', w') = reconnects c e self now n k node w in IsCalling i node'.pending_hs w'.sent
  unfolding reconnects
  keeps-IsCalling self now zero k i node w calling = calling
  keeps-IsCalling self now (suc n) k i node w calling = keeps-IsCalling self now n (suc k) i _ _ (
      Filled-IsCalling i node.pending_hs _ w.sent _ (reconnect-IsStep c e self now k node w).filled
        (reconnect-Grown self now k node w) calling)

  called :
      (self : Self PKey) (now n k i : ℕ) (node : Node PKey) (w : World)
      → IsDue c e self now i node
      → k ≤ i
      → i < k + n
      → n ≤ count_free node.pending_hs
      → let (node', w') = reconnects c e self now n k node w in IsCalling i node'.pending_hs w'.sent
  unfolding reconnects
  called self now zero k i node w due from below fits = absurd (omega arith)
  called self now (suc n) k i node w due from below fits =
      let step = reconnect-IsStep c e self now k node w in
      elim (Bool-cases (ltb k i)) [
        | inl later ↦
            let apart : k ≢ i = λ same. ground (arith, later, same) in
            let fewer = Filled-count_free node.pending_hs _ step.filled in
            called self now n (suc k) i _ _ (step-IsDue c e self now i k node _ apart step due)
              (ground (arith, later)) (omega arith) (omega (arith, fewer, fits))
        | inr here ↦
            let same : k ≡ i = ground (arith, here, from) in
            keeps-IsCalling self now n (suc k) i _ _
              (rw same (reconnect-IsCalling self now i node w (omega (arith, fits)) due))
      ]

  -- Who is to be called is called. Where the calls of the system and of libcrypto do not fail, and
  -- there are at least as many free slots for handshakes as configured peers, the first loop of the
  -- periodic checks leaves, for every peer of the configuration that has an endpoint and a key that
  -- is one, has no active session, and was last called at least `reconnect_interval` seconds ago, a
  -- pending handshake, and a datagram sent to the address that this handshake waits for.
  pub reconnects-IsCalling :
      (self : Self PKey) (now i : ℕ) (node : Node PKey) (w : World)
      → i < length node.peer_configs
      → length node.peer_configs ≤ count_free node.pending_hs
      → IsDue c e self now i node
      → let (node', w') = reconnects c e self now (length node.peer_configs) 0 node w in
        IsCalling i node'.pending_hs w'.sent
  reconnects-IsCalling self now i node w below fits due =
      called self now (length node.peer_configs) 0 i node w due (omega arith) (omega (arith, below))
        fits
