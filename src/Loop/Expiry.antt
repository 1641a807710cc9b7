-- ===== src/Loop/Expiry.antt =====
-- Which sessions the checks at the head of `event_loop` (src/peer.c) end.
use lane_cove_tunnel.Prelude.{
  ℕ, zero, suc, ◌≤◌, ◌+◌, ◌≡◌, refl, ap, ◌∙◌, Bool, true, false, not, ◌&&◌, ◌||◌, Option, none,
  some, Option-cases, inl, inr, if_both, get_or-set_related, List, [], ◌∷◌, ◌++◌, arith, length,
  ltb, leb, if◌then◌else◌,
}
use lane_cove_tunnel.Prelude.Bytes.{Bytes, be64}
use lane_cove_tunnel.Crypto.{Crypto}
use lane_cove_tunnel.World.{Env, World}
use lane_cove_tunnel.Handshake.{pkt_header}
use lane_cove_tunnel.Packet.{encrypt_packet}
use lane_cove_tunnel.Node.{
  Session, Self, Node, Timers, max_peers, config_at, set_config, pending_at, zero_session,
}
use lane_cove_tunnel.Sessions.{slot, find_session_by_pub}
use lane_cove_tunnel.Loop.Send.{
  note_sent, forward_to_peer, resolve_endpoint, initiate_outbound_handshake,
}
use lane_cove_tunnel.Loop.Periodic.{
  set_rekeying, stop_rekeying, needs_handshake, reconnect, reconnects, expire_pending,
  expire_pendings, expire_session, expire_sessions, keepalive, keepalives, periodic,
}
use lane_cove_tunnel.Loop.Table.{slot-expire_sessions}
use lane_cove_tunnel.Loop.Checks.{initiate-sessions}

-- A session that has received something in the last `session_expiry` seconds, or whose
-- handshake is as recent where it has received nothing.
abbrev pub is_live : Timers → ℕ → Session → Bool
is_live timers now s =
    s.active
    && leb now
        ((if ltb 0 s.last_seen then s.last_seen else s.last_handshake) + timers.session_expiry)

-- The fields that decide on it.
abbrev IsSameAge : Session → Session → Type 0
IsSameAge old new =
    (new.active ≡ old.active)
    × (new.last_seen ≡ old.last_seen)
    × (new.last_handshake ≡ old.last_handshake)

record AreSameAge (old new : List Session) : Type 0 where
  at : (i : ℕ) → IsSameAge (slot old i) (slot new i)

same_ages : {old : List Session} → AreSameAge old old
same_ages = record { at = λ i. (refl, refl, refl) }

then_age :
    {old mid new : List Session} → AreSameAge old mid → AreSameAge mid new → AreSameAge old new
then_age f g = record {
  at = λ i. ((g.at i).0 ∙ (f.at i).0, (g.at i).1 ∙ (f.at i).1, (g.at i).2 ∙ (f.at i).2);
}

expire_session_active :
    (timers : Timers) (now : ℕ) (s : Session)
    → (expire_session timers now s).active ≡ is_live timers now s
unfolding expire_session
expire_session_active timers now s = ground arith

is_live_same :
    (timers : Timers) (now : ℕ) (old new : Session)
    → IsSameAge old new
    → is_live timers now new ≡ is_live timers now old
is_live_same timers now old new (p, q, r) = ground (arith, p, q, r)

module _ {PKey : Type 0} where
  set_rekeying-AreSameAge :
      (flag : Bool) (found : Option ℕ) (node : Node PKey)
      → AreSameAge node.sessions (set_rekeying flag found node).sessions
  unfolding set_rekeying slot
  set_rekeying-AreSameAge flag none node = same_ages
  set_rekeying-AreSameAge flag (some j) node = record {
    at = λ i.
        get_or-set_related IsSameAge node.sessions j i _ zero_session (λ s. (refl, refl, refl))
          (refl, refl, refl);
  }

  stop_rekeying-AreSameAge :
      (key : Bytes) (node : Node PKey) → AreSameAge node.sessions (stop_rekeying key node).sessions
  unfolding stop_rekeying
  stop_rekeying-AreSameAge key node = set_rekeying-AreSameAge false _ node

  expire_pending-AreSameAge :
      (timers : Timers) (now j : ℕ) (node : Node PKey)
      → AreSameAge node.sessions (expire_pending timers now j node).sessions
  unfolding expire_pending
  expire_pending-AreSameAge timers now j node =
      if_both (λ (n : Node PKey). AreSameAge node.sessions n.sessions)
        (not (pending_at node j).active
          || ltb now ((pending_at node j).sent_at + timers.handshake_timeout))
        _ _ same_ages (stop_rekeying-AreSameAge _ _)

  expire_pendings-AreSameAge :
      (timers : Timers) (now n j : ℕ) (node : Node PKey)
      → AreSameAge node.sessions (expire_pendings timers now n j node).sessions
  unfolding expire_pendings
  expire_pendings-AreSameAge timers now zero j node = same_ages
  expire_pendings-AreSameAge timers now (suc n) j node =
      then_age (expire_pending-AreSameAge timers now j node)
        (expire_pendings-AreSameAge timers now n (suc j) (expire_pending timers now j node))

module _ {PKey Ctx : Type 0} (c : Crypto PKey Ctx) (e : Env PKey) where
  reconnect-AreSameAge :
      (self : Self PKey) (now i : ℕ) (node : Node PKey) (w : World)
      → AreSameAge node.sessions (reconnect c e self now i node w).0.sessions
  unfolding reconnect
  reconnect-AreSameAge self now i node w =
      let cfg = config_at node i in
      let s = find_session_by_pub cfg.pub_key node.sessions in
      let (_, cfg', w') = resolve_endpoint c e cfg w in
      let marked = set_rekeying true s (set_config node i cfg') in
      let (sent, left, w₂) = initiate_outbound_handshake c e self i marked w' in
      let t' : AreSameAge node.sessions left.sessions =
        rw (initiate-sessions c e self i marked w')
          (set_rekeying-AreSameAge true s (set_config node i cfg')) in
      if_both (λ (r : Node PKey × World). AreSameAge node.sessions r.0.sessions)
        (cfg.has_endpoint
          && (needs_handshake self.timers now s node.sessions
              && leb (cfg.last_attempt + self.timers.reconnect_interval) now))
        _ _
        (if_both (λ (n : Node PKey). AreSameAge node.sessions n.sessions) sent _ _ t'
          (then_age t' (set_rekeying-AreSameAge false s left)))
        same_ages

  reconnects-AreSameAge :
      (self : Self PKey) (now n i : ℕ) (node : Node PKey) (w : World)
      → AreSameAge node.sessions (reconnects c e self now n i node w).0.sessions
  unfolding reconnects
  reconnects-AreSameAge self now zero i node w = same_ages
  reconnects-AreSameAge self now (suc n) i node w =
      let (node', w') = reconnect c e self now i node w in
      then_age (reconnect-AreSameAge self now i node w)
        (reconnects-AreSameAge self now n (suc i) node' w')

  note_sent_active :
      (s : Session) (r : Option (Unit {0}) × World) → (note_sent c e s r).0.active ≡ s.active
  unfolding note_sent
  note_sent_active s (none, w) = refl
  note_sent_active s (some _, w) = refl

  forward_to_peer_active :
      (s : Session) (payload : Bytes) (w : World)
      → (forward_to_peer c e s payload w).0.active ≡ s.active
  unfolding forward_to_peer
  forward_to_peer_active s payload w =
      elim (Option-cases
        (encrypt_packet c e s.session_key (pkt_header ++ (be64 s.send_seq ++ payload)) w).0) [
          | inl fails ↦ rw (fails, forward_to_peer) refl
          | inr (wire, sealed) ↦ rw (sealed, forward_to_peer) (note_sent_active _ _)
        ]

  keepalive_active :
      (timers : Timers) (now : ℕ) (s : Session) (w : World)
      → (keepalive c e timers now s w).0.active ≡ s.active
  unfolding keepalive
  keepalive_active timers now s w =
      if_both (λ (r : Session × World). r.0.active ≡ s.active)
        (not s.active || ltb now (s.last_sent + timers.keepalive_interval)) _ _ refl
        (forward_to_peer_active s [] w)

  keepalives_active :
      (timers : Timers) (now i : ℕ) (sessions : List Session) (w : World)
      → (slot (keepalives c e timers now sessions w).0 i).active ≡ (slot sessions i).active
  unfolding keepalives slot
  keepalives_active timers now i [] w = refl
  keepalives_active timers now zero (s ∷ sessions) w = keepalive_active timers now s w
  keepalives_active timers now (suc i) (s ∷ sessions) w =
      keepalives_active timers now i sessions (keepalive c e timers now s w).1

  -- Ten seconds after the last checks, the checks leave awake exactly the sessions that were awake
  -- and have received something in the last `session_expiry` seconds, or have received nothing yet
  -- and had their handshake in that time.
  pub periodic-active :
      (self : Self PKey) (now : ℕ) (node : Node PKey) (w : World)
      → node.last_rekey_check + 10 ≤ now
      → (i : ℕ)
      → (slot (periodic c e self now node w).0.sessions i).active
        ≡ is_live self.timers now (slot node.sessions i)
  unfolding periodic
  periodic-active self now node w due i =
      let begun : Node PKey = record node { last_rekey_check = now } in
      let (node₁, w₁) = reconnects c e self now (length node.peer_configs) 0 begun w in
      let node₂ = expire_pendings self.timers now max_peers 0 node₁ in
      let ages =
        (then_age (reconnects-AreSameAge self now (length node.peer_configs) 0 begun w)
            (expire_pendings-AreSameAge self.timers now max_peers 0 node₁)).at
          i in
      let late : ltb now (node.last_rekey_check + 10) ≡ false = ground (arith, due) in
      rw (late, periodic)
        (keepalives_active self.timers now i (expire_sessions self.timers now node₂.sessions) w₁
          ∙ (ap (λ (s : Session). s.active) (slot-expire_sessions self.timers now i node₂.sessions)
              ∙ (expire_session_active self.timers now (slot node₂.sessions i)
                  ∙ is_live_same self.timers now (slot node.sessions i) (slot node₂.sessions i)
                      ages)))
