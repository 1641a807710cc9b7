-- ===== src/Tunnel/Due.antt =====
-- One turn of the first loop of the periodic checks (`event_loop`, src/peer.c).
use lane_cove_tunnel.Prelude.{
  ℕ, zero, suc, ◌+◌, ◌≤◌, ◌≡◌, ◌≢◌, refl, ◌∙◌, Bool, true, false, ◌&&◌, Option, none, some, List,
  [], ◌∷◌, leb, set, get_or-set_ne, arith, Bool-cases, Option-cases, inl, inr,
}
use lane_cove_tunnel.Prelude.Bytes.{Bytes}
use lane_cove_tunnel.Crypto.{Crypto}
use lane_cove_tunnel.World.{Env, World}
use lane_cove_tunnel.Handshake.Client.{handshake_client_send}
use lane_cove_tunnel.Decimal.{decimal}
use lane_cove_tunnel.Node.{PeerConfig, Session, Self, Node, config_at, set_config, zero_config}
use lane_cove_tunnel.Sessions.{find_index, find_session_by_pub, has_pub, slot, time_now}
use lane_cove_tunnel.Loop.Send.{resolve_endpoint, initiate_in_slot, initiate_outbound_handshake}
use lane_cove_tunnel.Loop.Periodic.{set_rekeying, needs_handshake, reconnect}
use lane_cove_tunnel.Tunnel.Slots.{is_free, Filled}

module _ {PKey Ctx : Type 0} (c : Crypto PKey Ctx) (e : Env PKey) where
  -- What the turn of configuration j changes in the node.
  pub record IsStep (j : ℕ) (node node' : Node PKey) : Type 0 where
    pub filled : Filled node.pending_hs node'.pending_hs
    pub others : (i : ℕ) → j ≢ i → config_at node' i ≡ config_at node i
    pub unknown :
        (key : Bytes)
        → find_session_by_pub key node.sessions ≡ none
        → find_session_by_pub key node'.sessions ≡ none

  rekeying-none :
      (test : Session → Bool) (sessions : List Session) (i : ℕ) (flag : Bool)
      → ((s : Session) → test (record s { rekeying = flag }) ≡ test s)
      → find_index test sessions ≡ none
      → find_index test (set sessions i (record (slot sessions i) { rekeying = flag })) ≡ none
  unfolding find_index slot
  rekeying-none test [] i flag same h = refl
  rekeying-none test (s ∷ sessions) zero flag same h = let here = same s in ground (arith, h, here)
  rekeying-none test (s ∷ sessions) (suc i) flag same h =
      let later = rekeying-none test sessions i flag same in ground (arith, h, later)

  set_rekeying-IsStep :
      (j : ℕ) (flag : Bool) (found : Option ℕ) (node : Node PKey)
      → IsStep j node (set_rekeying flag found node)
  unfolding set_rekeying find_session_by_pub
  set_rekeying-IsStep j flag none node = record {
    filled = inl refl;
    others = λ i ne. refl;
    unknown = λ key h. h;
  }
  set_rekeying-IsStep j flag (some i) node = record {
    filled = inl refl;
    others = λ k ne. refl;
    unknown = λ key h. rekeying-none (has_pub key) node.sessions i flag (λ s. refl) h;
  }

  set_config-IsStep :
      (j : ℕ) (cfg : PeerConfig) (node : Node PKey) → IsStep j node (set_config node j cfg)
  set_config-IsStep j cfg node = record {
    filled = inl refl;
    others = λ i ne. get_or-set_ne node.peer_configs j i cfg zero_config ne;
    unknown = λ key h. h;
  }

  initiate-IsStep :
      (self : Self PKey) (j : ℕ) (node : Node PKey) (w : World)
      → IsStep j node (initiate_outbound_handshake c e self j node w).1
  unfolding initiate_outbound_handshake time_now
  initiate-IsStep self j node w =
      let v : World = record w { calls = w.calls + 1 } in
      elim (Option-cases (find_index is_free node.pending_hs)) [
        | inl full ↦ rw (full, initiate_outbound_handshake) (set_config-IsStep j _ node)
        | inr (place, free) ↦
            elim (Option-cases
              (handshake_client_send c e (config_at node j).endpoint self.psk_key self.static_pub
                (some (config_at node j).pub_key) v).0) [
                  | inl fails ↦
                      rw (free, initiate_outbound_handshake, fails, initiate_in_slot)
                        (set_config-IsStep j _ node)
                  | inr (state, asks) ↦
                      rw (free, initiate_outbound_handshake, asks, initiate_in_slot)
                        (record {
                          filled = inr (place, _, (free, refl));
                          others = (set_config-IsStep j _ node).others;
                          unknown = λ key h. h;
                        })
                ]
      ]

  -- Steps that fill no slot come before one that may.
  after-IsStep :
      (j : ℕ) (a b d : Node PKey)
      → b.pending_hs ≡ a.pending_hs
      → IsStep j a b
      → IsStep j b d
      → IsStep j a d
  after-IsStep j a b d same first then_this = record {
    filled = rw same at then_this.filled;
    others = λ i ne. then_this.others i ne ∙ first.others i ne;
    unknown = λ key h. then_this.unknown key (first.unknown key h);
  }

  set_rekeying-pending :
      (flag : Bool) (found : Option ℕ) (node : Node PKey)
      → (set_rekeying flag found node).pending_hs ≡ node.pending_hs
  unfolding set_rekeying
  set_rekeying-pending flag none node = refl
  set_rekeying-pending flag (some i) node = refl

  mark-IsStep :
      (j : ℕ) (flag : Bool) (found : Option ℕ) (a b : Node PKey)
      → IsStep j a b
      → IsStep j a (set_rekeying flag found b)
  mark-IsStep j flag found a b step =
      let mark = set_rekeying-IsStep j flag found b in
      record {
        filled = rw (set_rekeying-pending flag found b) step.filled;
        others = λ i ne. mark.others i ne ∙ step.others i ne;
        unknown = λ key h. mark.unknown key (step.unknown key h);
      }

  pub reconnect-IsStep :
      (self : Self PKey) (now j : ℕ) (node : Node PKey) (w : World)
      → IsStep j node (reconnect c e self now j node w).0
  unfolding reconnect
  reconnect-IsStep self now j node w =
      let cfg = config_at node j in
      let s = find_session_by_pub cfg.pub_key node.sessions in
      let (_, cfg', v) = resolve_endpoint c e cfg w in
      let marked = set_rekeying true s (set_config node j cfg') in
      let (sent, called, v') = initiate_outbound_handshake c e self j marked v in
      let before =
        after-IsStep j node (set_config node j cfg') marked refl (set_config-IsStep j cfg' node)
          (set_rekeying-IsStep j true s (set_config node j cfg')) in
      let calls =
        after-IsStep j node marked called (set_rekeying-pending true s (set_config node j cfg'))
          before (initiate-IsStep self j marked v) in
      elim (Bool-cases (
        cfg.has_endpoint
        && (needs_handshake self.timers now s node.sessions
            && leb (cfg.last_attempt + self.timers.reconnect_interval) now))) [
              | inr idle ↦
                  rw (idle, reconnect)
                    (record { filled = inl refl; others = λ i ne. refl; unknown = λ key h. h })
              | inl due ↦ elim (Bool-cases sent) [
                | inl goes ↦ rw (due, reconnect, goes) calls
                | inr stays ↦ rw (due, reconnect, stays) (mark-IsStep j false s node called calls)
              ]
            ]

  -- The peer of configuration i is to be called: it has an endpoint and no active session, and its
  -- last call is `reconnect_interval` seconds ago.
  pub record IsDue (self : Self PKey) (now i : ℕ) (node : Node PKey) : Type 0 where
    pub key : PKey
    pub own_key : c.raw_public_key key ≡ some (config_at node i).pub_key
    pub endpoint : (config_at node i).has_endpoint ≡ true
    pub unknown : find_session_by_pub (config_at node i).pub_key node.sessions ≡ none
    pub ready : (config_at node i).last_attempt + self.timers.reconnect_interval ≤ now

  pub step-IsDue :
      (self : Self PKey) (now i j : ℕ) (node node' : Node PKey)
      → j ≢ i
      → IsStep j node node'
      → IsDue self now i node
      → IsDue self now i node'
  step-IsDue self now i j node node' ne step due =
      let same = step.others i ne in
      record {
        key = due.key;
        own_key = rw same due.own_key;
        endpoint = rw same due.endpoint;
        unknown = rw same (step.unknown (config_at node i).pub_key due.unknown);
        ready = rw same due.ready;
      }

  pub resolve-pub_key :
      (cfg : PeerConfig) (w : World) → (resolve_endpoint c e cfg w).1.pub_key ≡ cfg.pub_key
  unfolding resolve_endpoint
  resolve-pub_key cfg w =
      elim (Option-cases (e.getaddrinfo w.calls cfg.endpoint_host (decimal cfg.endpoint_port))) [
        | inl unresolved ↦ rw (unresolved, resolve_endpoint) refl
        | inr (addr, resolved) ↦ rw (resolved, resolve_endpoint) refl
      ]
