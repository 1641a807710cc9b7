-- ===== src/Tunnel/Arrival.antt =====
-- The stream of `Stream` arrives.
use lane_cove_tunnel.Prelude.{
  ℕ, suc, ◌+◌, ◌≡◌, ◌≢◌, refl, Bool, true, false, Option, [], ◌∷◌, if◌then◌else◌, length, arith,
  ◌∙◌, ap,
}
use lane_cove_tunnel.Prelude.Bytes.{Bytes}
use lane_cove_tunnel.Crypto.{Crypto, IsCrypto}
use lane_cove_tunnel.World.{Env, World, Addr, Datagram, IsEnv}
use lane_cove_tunnel.Handshake.{hs_size}
use lane_cove_tunnel.Node.{Self}
use lane_cove_tunnel.Sessions.{same_addr, slot}
use lane_cove_tunnel.Loop.Data.{forward_at, handle_tun}
use lane_cove_tunnel.Loop.Forward.{forward_to_peer-opens}
use lane_cove_tunnel.Loop.Response.{is_handshake}
use lane_cove_tunnel.Tunnel.Lookup.{route_lookup-below}
use lane_cove_tunnel.Tunnel.Send.{IsReliable, Seals, forward_to_peer-Counted, forward_to_peer-sends}
use lane_cove_tunnel.Tunnel.Receive.{opened_node}
use lane_cove_tunnel.Tunnel.Delivery.{IsLink, handle_tun-route, delivered}
use lane_cove_tunnel.Tunnel.Stream.{
  Ends, Schedule, arrived, receive_all, hop, carry, check_replay-IsBehind, IsCarried, AllCarried,
  IsReady,
}
use lane_cove_tunnel.Tunnel.Steps.{
  IsSent, set-IsSent, IsTaken, lost-IsTaken, received-IsTaken, AllCarried-kept, IsReady-kept,
}

same_addr_refl : (a : Addr) → same_addr a a ≡ true
same_addr_refl a = ground arith

sized :
    (psk : Option Bytes) (wire : Bytes) → length wire ≢ hs_size psk → is_handshake psk wire ≡ false
sized psk wire h = ground arith

module _ {PKey Ctx : Type 0} (c : Crypto PKey Ctx) (ok : IsCrypto c) (seals : Seals c)
    (e e' : Env PKey) (random : IsEnv e) (reliable : IsReliable e) (reliable' : IsReliable e')
    (self : Self PKey) (src there : Addr) (i j : ℕ) where
  abbrev Carried : Ends PKey → Schedule → Type 0
  Carried n schedule = AllCarried self.psk_key i j n.sender.sessions n.receiver.sessions schedule

  module _ (packet : Bytes) (n : Ends PKey) (left : ℕ) (ready : IsReady src there i j n (suc left))
      (carried : IsCarried self.psk_key i j n.sender.sessions n.receiver.sessions packet) where
    emptied : World
    emptied = record n.sender_world { sent = [] }

    link : IsLink (slot n.sender.sessions i) (slot n.receiver.sessions j) packet
    link = record {
      same_key = ready.same_key;
      small = omega (arith, ready.room);
      fresh = (check_replay-IsBehind _ _ ready.behind).0;
      allowed = carried.allowed;
    }

    sends :
        (d : Datagram) × ((handle_tun c e packet n.sender emptied).1.sent ≡ d ∷ [])
        × (length d.bytes ≡ length packet + 44)
    unfolding forward_at emptied
    sends =
        let (d, sent) =
          forward_to_peer-sends c e reliable seals (slot n.sender.sessions i) packet emptied in
        let (_, size, _) =
          forward_to_peer-opens c e ok random (slot n.sender.sessions i) packet emptied {d = d}
            sent in
        (
          d,
          rw (handle_tun-route c e packet n.sender emptied i carried.ipv4 carried.route) sent,
          size,
        )

    hop-IsSent :
        (arrives : Bool)
        → IsSent i n.sender.sessions (hop c e e' self src there (packet, arrives) n).sender.sessions
    unfolding hop forward_at
    hop-IsSent arrives =
        rw
          (handle_tun-route c e packet n.sender (record n.sender_world { sent = [] }) i carried.ipv4
            carried.route)
          (set-IsSent i n.sender.sessions _ (route_lookup-below _ n.sender.sessions i carried.route)
            (omega (arith, ready.room))
            (forward_to_peer-Counted c e (slot n.sender.sessions i) packet _))

    -- The datagram reaches the receiver.
    receives :
        ((hop c e e' self src there (packet, true) n).receiver
          ≡ opened_node e' j (slot n.sender.sessions i).send_seq n.receiver n.receiver_world)
        × ((hop c e e' self src there (packet, true) n).receiver_world.written
            ≡ packet ∷ n.receiver_world.written)
    unfolding hop receive_all emptied
    receives =
        let (d, sent, size) = sends in
        let (to, node, written) =
          delivered c ok e random e' self src packet n.sender n.receiver i j emptied
            n.receiver_world {d = d} carried.ipv4 carried.route sent
            (sized self.psk_key d.bytes (λ same. carried.size (omega (arith, size, same))))
            ready.found link carried.here (reliable'.write_ok-true _) in
        let here : same_addr d.to there ≡ true = rw (to, ready.to) (same_addr_refl there) in
        (rw (sent, receive_all, here) node, rw (sent, receive_all, here) written)

    hop-IsTaken :
        (arrives : Bool)
        → IsTaken src j
            (slot n.sender.sessions i).send_seq
            n.receiver.sessions
            (hop c e e' self src there (packet, arrives) n).receiver.sessions
    unfolding hop
    hop-IsTaken false = lost-IsTaken src j _ n.receiver.sessions ready.behind
    hop-IsTaken true =
        rw receives.0 (received-IsTaken src j _ _ n.receiver.sessions ready.found ready.behind)

    hop-written :
        (arrives : Bool)
        → (hop c e e' self src there (packet, arrives) n).receiver_world.written
          ≡ (if arrives then packet ∷ n.receiver_world.written else n.receiver_world.written)
    unfolding hop
    hop-written false = refl
    hop-written true = receives.1

    next-IsReady :
        (arrives : Bool)
        → IsReady src there i j (hop c e e' self src there (packet, arrives) n) left
    next-IsReady arrives =
        IsReady-kept src there i j left n _ ready (hop-IsSent arrives) (hop-IsTaken arrives)

    next-Carried :
        (arrives : Bool) (schedule : Schedule)
        → Carried n schedule
        → Carried (hop c e e' self src there (packet, arrives) n) schedule
    next-Carried arrives schedule all =
        AllCarried-kept src i j _ _ _ _ _ (hop-IsSent arrives) (hop-IsTaken arrives) self.psk_key
          schedule all

  -- A stream of packets for the TUN device of one peer, each with a route to session i, whose end at
  -- the other peer is session j: whatever the network loses, the receiver writes to its TUN device
  -- the packets whose datagrams come through, each once, unchanged and in order. The operating
  -- system and the encryption refuse nothing, no datagram has the size of a handshake, the receiver
  -- takes each packet and has no route that leads it on, and the sender's counter does not wrap.
  pub carry-written :
      (schedule : Schedule) (n : Ends PKey)
      → IsReady src there i j n (length schedule)
      → AllCarried self.psk_key i j n.sender.sessions n.receiver.sessions schedule
      → (carry c e e' self src there schedule n).receiver_world.written
        ≡ arrived schedule n.receiver_world.written
  unfolding carry arrived
  carry-written [] n ready all = refl
  carry-written ((packet, true) ∷ schedule) n ready (carried, all) =
      carry-written schedule _ (next-IsReady packet n (length schedule) ready carried true)
        (next-Carried packet n (length schedule) ready carried true schedule all)
      ∙ ap (arrived schedule) (hop-written packet n (length schedule) ready carried true)
  carry-written ((packet, false) ∷ schedule) n ready (carried, all) =
      carry-written schedule _ (next-IsReady packet n (length schedule) ready carried false)
        (next-Carried packet n (length schedule) ready carried false schedule all)
      ∙ ap (arrived schedule) (hop-written packet n (length schedule) ready carried false)
