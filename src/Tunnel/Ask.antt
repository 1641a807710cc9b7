-- ===== src/Tunnel/Ask.antt =====
-- The side that calls (src/peer.c): `initiate_outbound_handshake`, and the response to it.
use lane_cove_tunnel.Prelude.{
  ℕ, ◌+◌, ◌<◌, ◌≡◌, refl, true, false, not, none, Option, some, List, length, set, inl, inr, arith,
  Option-cases, get_or-set_self, get_or-set_related, take,
}
use lane_cove_tunnel.Prelude.Bytes.{Bytes, bytes_eq_refl}
use lane_cove_tunnel.Crypto.{Crypto}
use lane_cove_tunnel.World.{Env, World, Datagram}
use lane_cove_tunnel.Handshake.{hs_size, header_size, pkt_header}
use lane_cove_tunnel.Handshake.Client.{HsClientState, handshake_client_send}
use lane_cove_tunnel.Handshake.Client.Recv.{handshake_client_recv}
use lane_cove_tunnel.Handshake.Sent.{ClientSent, client_sent}
use lane_cove_tunnel.Handshake.Safety.{handshake_client_recv-pinned}
use lane_cove_tunnel.Node.{
  PeerConfig, PendingHs, Self, Node, config_at, pending_at, set_pending, zero_config, zero_pending,
}
use lane_cove_tunnel.Sessions.{find_index, time_now}
use lane_cove_tunnel.Sessions.Find.{find_index-hit, find_index-set_hit}
use lane_cove_tunnel.Loop.Send.{initiate_in_slot, initiate_outbound_handshake}
use lane_cove_tunnel.Loop.Response.{is_handshake, awaits, start_session, take_response}
use lane_cove_tunnel.Loop.Step.{handle_udp}

authentic :
    (psk : Option Bytes) (resp : Bytes)
    → length resp ≡ hs_size psk
    → take header_size resp ≡ pkt_header
    → is_handshake psk resp ≡ true
authentic psk resp size magic = rw magic (ground (arith, bytes_eq_refl pkt_header))

module _ {PKey Ctx : Type 0} (c : Crypto PKey Ctx) where
  -- A node that has called the peer of configuration i.
  pub record HasAsked (self : Self PKey) (i : ℕ) (node node' : Node PKey)
      (before after : List Datagram) : Type 0 where
    pub place : ℕ
    pub state : HsClientState PKey
    pub attempt : ℕ
    pub sent_at : ℕ
    pub inside : place < length node.pending_hs
    pub call :
        ClientSent c
          (config_at node i).endpoint
          self.psk_key
          self.static_pub
          (config_at node i).pub_key
          state
          before
          after
    pub asked : node' ≡ record node {
      peer_configs = set node.peer_configs i (record (config_at node i) { last_attempt = attempt });
      pending_hs = set node.pending_hs place (record {
        active = true;
        cfg_idx = i;
        sent_at = sent_at;
        hs_state = state;
        server_addr = (config_at node i).endpoint;
      });
    }

  pub initiated :
      (e : Env PKey) (self : Self PKey) (i : ℕ) (node : Node PKey) (w : World)
      → (initiate_outbound_handshake c e self i node w).0 ≡ true
      → HasAsked self i node
          (initiate_outbound_handshake c e self i node w).1
          w.sent
          (initiate_outbound_handshake c e self i node w).2.sent
  unfolding initiate_outbound_handshake time_now
  initiated e self i node w h =
      elim (Option-cases (find_index (λ p. not p.active) node.pending_hs)) [
        | inl full ↦ let h' : false ≡ true = rw (full, initiate_outbound_handshake) at h in cc h'
        | inr (place, free) ↦
            let v : World = record w { calls = w.calls + 1 } in
            let run =
              handshake_client_send c e (config_at node i).endpoint self.psk_key self.static_pub
                (some (config_at node i).pub_key) v in
            elim (Option-cases run.0) [
              | inl fails ↦
                  let h' : false ≡ true =
                    rw (free, initiate_outbound_handshake, fails, initiate_in_slot) at h in
                  cc h'
              | inr (state, asks) ↦
                  rw (free, initiate_outbound_handshake, asks, initiate_in_slot)
                    (record {
                      place = place;
                      state = state;
                      attempt = e.clock w.calls;
                      sent_at = e.clock run.1.calls;
                      inside = (find_index-hit _ zero_pending node.pending_hs place free).0;
                      call =
                          client_sent c e (config_at node i).endpoint self.psk_key self.static_pub
                            (config_at node i).pub_key v run.1 {st = state} (cc asks);
                      asked = refl;
                    })
            ]
      ]

  -- The response that the handshake accepts starts a session for the peer that was called.
  module _ (e : Env PKey) (self : Self PKey) (i : ℕ) (node node' : Node PKey)
      (before after : List Datagram) (h : HasAsked self i node node' before after)
      (unasked : find_index (awaits (config_at node i).endpoint) node.pending_hs ≡ none) where
    taken_slot : PendingHs PKey
    taken_slot = record {
      active = true;
      cfg_idx = i;
      sent_at = h.sent_at;
      hs_state = h.state;
      server_addr = (config_at node i).endpoint;
    }

    found : find_index (awaits (config_at node i).endpoint) node'.pending_hs ≡ some h.place
    unfolding taken_slot
    found = rw h.asked (
        find_index-set_hit (awaits (config_at node i).endpoint) node.pending_hs h.place taken_slot
          unasked h.inside (ground arith))

    same_pending : pending_at node' h.place ≡ taken_slot
    unfolding taken_slot
    same_pending =
        rw h.asked (get_or-set_self node.pending_hs h.place taken_slot zero_pending h.inside)

    same_config :
        ((config_at node' i).pub_key ≡ (config_at node i).pub_key)
        × ((config_at node' i).routes ≡ (config_at node i).routes)
    same_config = rw h.asked (
        get_or-set_related (λ (a b : PeerConfig). (b.pub_key ≡ a.pub_key) × (b.routes ≡ a.routes))
          node.peer_configs i i _ zero_config (λ a. (refl, refl)) (refl, refl))

    pub response_taken :
        (resp key : Bytes) (st : HsClientState PKey) (v : World)
        → handshake_client_recv c resp self.psk_key self.static_key self.static_pub
            (config_at node i).pub_key
            h.state
          ≡ (some key, st)
        → (node'' : Node PKey) × (cfg : PeerConfig) × (node''.sessions ≡ node.sessions)
          × (cfg.routes ≡ (config_at node i).routes)
          × (handle_udp c e self (config_at node i).endpoint resp node' v
              ≡ start_session e self
                  (config_at node i).pub_key
                  (config_at node i).endpoint
                  key
                  cfg
                  true
                  node''
                  (record v { calls = v.calls + 1 }))
    unfolding handle_udp take_response time_now taken_slot
    response_taken resp key st v accepts =
        let auth =
          (handshake_client_recv-pinned c resp self.psk_key self.static_key self.static_pub
            (config_at node i).pub_key key h.state st accepts).0 in
        (
          set_pending node' h.place (record taken_slot { active = false; hs_state = st }),
          config_at node' i,
          rw h.asked,
          same_config.1,
          rw
              (
                authentic self.psk_key resp auth.size auth.magic,
                handle_udp,
                found,
                take_response,
                same_pending,
                same_config.0,
                accepts,
              )
              (rw (same_pending, same_config.0, accepts)),
        )
