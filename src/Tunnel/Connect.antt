-- ===== src/Tunnel/Connect.antt =====
-- Two peers that may meet (`Meet`) come to the two ends of a tunnel.
use lane_cove_tunnel.Prelude.{
  ℕ, ◌+◌, ◌≡◌, refl, arith, Bool, true, false, not, none, Option, some, [], ◌∷◌, ◌∙◌, sym, ap,
}
use lane_cove_tunnel.Prelude.Bytes.{Bytes}
use lane_cove_tunnel.Crypto.{Crypto, IsCrypto}
use lane_cove_tunnel.World.{Env, World, Addr}
use lane_cove_tunnel.Handshake.Client.Recv.{handshake_client_recv}
use lane_cove_tunnel.Handshake.Server.{handshake_server_respond}
use lane_cove_tunnel.Handshake.Sent.{ServerSent, server_sent}
use lane_cove_tunnel.Handshake.Agreement.{Read, ClientSent-Read, x25519_comm, agreed}
use lane_cove_tunnel.Node.{PeerConfig, Self, Node, config_at}
use lane_cove_tunnel.Sessions.{find_index, same_addr, time_now}
use lane_cove_tunnel.Loop.Send.{initiate_in_slot, initiate_outbound_handshake, refresh_precomp_eph}
use lane_cove_tunnel.Loop.Checks.{refresh-sessions}
use lane_cove_tunnel.Loop.Response.{is_handshake, start_session}
use lane_cove_tunnel.Loop.Step.{handle_udp}
use lane_cove_tunnel.Tunnel.Send.{IsReliable}
use lane_cove_tunnel.Tunnel.Stream.{Ends, receive_all}
use lane_cove_tunnel.Tunnel.Begin.{IsNew, start_session-IsNew}
use lane_cove_tunnel.Tunnel.Ask.{HasAsked, initiated, response_taken}
use lane_cove_tunnel.Tunnel.Answer.{answered, refresh-sent, start_session-sent}
use lane_cove_tunnel.Tunnel.Able.{IsAble, client_sends, server_responds}
use lane_cove_tunnel.Tunnel.Meet.{meet, CanMeet}

same_addr_refl : (a : Addr) → same_addr a a ≡ true
same_addr_refl a = ground arith

module _ {PKey Ctx : Type 0} (c : Crypto PKey Ctx) (ok : IsCrypto c) (able : IsAble c) where
  pub initiates :
      (e : Env PKey) (self : Self PKey) (i place : ℕ) (key : PKey) (node : Node PKey) (w : World)
      → IsReliable e
      → find_index (λ p. not p.active) node.pending_hs ≡ some place
      → c.raw_public_key key ≡ some (config_at node i).pub_key
      → (initiate_outbound_handshake c e self i node w).0 ≡ true
  unfolding initiate_outbound_handshake time_now
  initiates e self i place key node w reliable free known =
      let (st, sends) =
        client_sends c ok able e reliable (config_at node i).endpoint self.psk_key self.static_pub
          (config_at node i).pub_key key (record w { calls = w.calls + 1 }) known in
      rw (free, initiate_outbound_handshake, sends, initiate_in_slot)

  same_call :
      (e : Env PKey) (pkt : Bytes) (to : Addr) (psk psk' : Option Bytes) (key : PKey)
      (static_pub static_pub' : Bytes) (eph eph' : Option PKey) (eph_pub : Bytes) (w : World)
      (r : Option (Bytes × Bytes) × World)
      → psk ≡ psk'
      → static_pub ≡ static_pub'
      → eph ≡ eph'
      → handshake_server_respond c e pkt to psk key static_pub eph eph_pub w ≡ r
      → handshake_server_respond c e pkt to psk' key static_pub' eph' eph_pub w ≡ r
  same_call e pkt to psk psk' key static_pub static_pub' eph eph' eph_pub w r p q s h =
      rw (← p, ← q, ← s) h

  -- One datagram on the way.
  receive_one :
      (e : Env PKey) (self : Self PKey) (src there : Addr) (bytes : Bytes) (node : Node PKey)
      (w : World)
      → receive_all c e self src there (record { to = there; bytes = bytes } ∷ []) (node, w)
        ≡ handle_udp c e self src bytes node w
  unfolding receive_all
  receive_one e self src there bytes node w = rw (same_addr_refl there)

  module _ (e e' : Env PKey) (reliable : IsReliable e) (reliable' : IsReliable e') (a b : Self PKey)
      (a_addr : Addr) (i k l : ℕ) (cfg : PeerConfig) (n : Ends PKey)
      (m : CanMeet c a b a_addr i k l cfg n) where
    abbrev b_addr : Addr
    b_addr = (config_at n.sender i).endpoint

    abbrev b_pub : Bytes
    b_pub = (config_at n.sender i).pub_key

    b_known : c.raw_public_key b.static_key ≡ some b_pub
    b_known = rw m.pinned m.b_key

    abbrev call : Bool × Node PKey × World
    call = initiate_outbound_handshake c e a i n.sender (record n.sender_world { sent = [] })

    asked : HasAsked c a i n.sender call.1 [] call.2.sent
    asked =
        initiated c e a i n.sender (record n.sender_world { sent = [] })
          (initiates e a i m.place b.static_key n.sender _ reliable m.free b_known)

    abbrev request : Bytes
    request = asked.call.pkt

    reads : Read c ok asked.state.ecdh_ec_ss a.static_pub a.psk_key asked.state.eph_pub request
    reads =
        ClientSent-Read c ok b_addr a.psk_key a.static_key a.static_pub b_pub asked.state _ _
          m.a_key asked.call

    abbrev ready : World
    ready = record n.receiver_world { sent = []; calls = n.receiver_world.calls + 1 }

    -- The receiver's answer, as both sides see it.
    record HasAnswered : Type 0 where
      result : Bytes × Bytes
      after : World
      responds :
          handshake_server_respond c e' request a_addr a.psk_key b.static_key b_pub
            (some m.eph)
            n.receiver.precomp_eph_pub
            ready
          ≡ (some result, after)

    responded : HasAnswered
    responded =
        let (result, some_result) =
          server_responds c ok able e' reliable' request a_addr a.psk_key b.static_key m.eph
            a.static_key asked.call.key b_pub n.receiver.precomp_eph_pub a.static_pub
            asked.state.eph_pub asked.state.ecdh_ec_ss ready reads m.a_key asked.call.own_pub
            (x25519_comm c ok b.static_key asked.call.key b_known asked.call.own_pub
              ∙ asked.call.secret) in
        record {
          result = result;
          after =
              (handshake_server_respond c e' request a_addr a.psk_key b.static_key b_pub
                (some m.eph) n.receiver.precomp_eph_pub ready).1;
          responds = cc some_result;
        }

    server :
        ServerSent c request a_addr a.psk_key b.static_key b_pub m.eph n.receiver.precomp_eph_pub
          responded.result [] responded.after.sent
    server =
        server_sent c e' request a_addr a.psk_key b.static_key b_pub m.eph
          n.receiver.precomp_eph_pub ready responded.after responded.responds

    -- The receiver has read the sender's key, and the sender comes to the receiver's session key.
    agreement :
        (responded.result.0 ≡ a.static_pub)
        × (handshake_client_recv c server.resp a.psk_key a.static_key a.static_pub b_pub asked.state
            ≡ (some responded.result.1, record asked.state { eph_key = none }))
    agreement =
        agreed c ok b_addr a_addr a.psk_key a.static_key b.static_key m.eph a.static_pub b_pub
          n.receiver.precomp_eph_pub asked.state request responded.result m.a_key b_known m.eph_key
          _ _ _ _ asked.call server refl

    arrives : is_handshake b.psk_key request ≡ true
    arrives =
        let read : is_handshake a.psk_key request ≡ true = rw (reads.sized, reads.magic) in
        ap (λ psk. is_handshake psk request) (sym m.same_psk) ∙ read

    -- The receiver's side.
    started_there :
        (node : Node PKey) × (w : World) × (node.sessions ≡ n.receiver.sessions)
        × (w.sent ≡ record { to = a_addr; bytes = server.resp } ∷ [])
        × (handle_udp c e' b a_addr request n.receiver (record n.receiver_world { sent = [] })
            ≡ start_session e' b a.static_pub a_addr responded.result.1 cfg false node w)
    started_there =
        let same = agreement.0 in
        let responds =
          same_call e' request a_addr a.psk_key b.psk_key b.static_key b_pub b.static_pub
            (some m.eph) n.receiver.precomp_eph_key n.receiver.precomp_eph_pub ready _ m.same_psk
            m.pinned (sym m.eph_made) responded.responds in
        (
          (refresh_precomp_eph c e' n.receiver responded.after).0,
          (refresh_precomp_eph c e' n.receiver responded.after).1,
          refresh-sessions c e' n.receiver responded.after,
          refresh-sent c e' n.receiver responded.after ∙ server.delivered,
          answered c e' b a_addr request n.receiver (record n.receiver_world { sent = [] })
                responded.after responded.result cfg arrives m.uncalled' m.apart' responds
                (rw same m.configured) (rw same m.unknown)
              ∙ ap
                  (λ key.
                    start_session e' b key a_addr responded.result.1 cfg false
                      (refresh_precomp_eph c e' n.receiver responded.after).0
                      (refresh_precomp_eph c e' n.receiver responded.after).1)
                  same,
        )

    there_is :
        receive_all c e' b a_addr b_addr call.2.sent
          (n.receiver, record n.receiver_world { sent = [] })
        ≡ handle_udp c e' b a_addr request n.receiver (record n.receiver_world { sent = [] })
    there_is =
        rw asked.call.delivered (
          receive_one e' b a_addr b_addr request n.receiver (record n.receiver_world { sent = [] }))

    -- When one peer calls another for the first time, in surroundings that refuse nothing and over a
    -- network that loses nothing, both come to an active session for the other's static public key
    -- and address, with one session key, the routes of the configuration and fresh counters. Each
    -- has the other's true key and a slot, both have one pre-shared key or none, the called peer has
    -- its ephemeral key pair, and neither has dealings with the other's address so far.
    pub meet-IsNew :
        (key : Bytes) × IsNew a.static_pub a_addr key cfg.routes l
          (meet c e e' a b a_addr i n).receiver.sessions
        × IsNew b.static_pub
            (config_at n.sender i).endpoint
            key
            (config_at n.sender i).routes
            k
            (meet c e e' a b a_addr i n).sender.sessions
    unfolding meet
    meet-IsNew =
        let (node, w, same, sent, starts) = started_there in
        let (node', cfg', same', routes, starts') =
          response_taken c e a i n.sender call.1 [] call.2.sent asked m.uncalled server.resp
            responded.result.1 _ call.2 agreement.1 in
        let back = receive_one e a b_addr a_addr server.resp call.1 call.2 ∙ starts' in
        let sent_back =
          start_session-sent e' b a.static_pub a_addr responded.result.1 cfg false node w ∙ sent in
        (
          responded.result.1,
          rw (there_is, starts)
              (start_session-IsNew e' b a.static_pub a_addr responded.result.1 cfg false node w l
                m.receivers (rw same m.apart') (rw same m.allocated')),
          rw (there_is, starts, sent_back, back)
              (rw (m.pinned, ← routes)
                (start_session-IsNew e a b.static_pub b_addr responded.result.1 cfg' true node' _ k
                  m.senders (rw same' m.apart) (rw same' m.allocated))),
        )
