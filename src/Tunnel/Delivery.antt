-- ===== src/Tunnel/Delivery.antt =====
-- A packet from the TUN device of one peer (src/peer.c) to that of another, directly or by way of a
-- third peer.
use lane_cove_tunnel.Prelude.{ℕ, ◌+◌, ◌^◌, ◌<◌, ◌≡◌, ◌≢◌, true, false, some, ◌∷◌, arith, sym}
use lane_cove_tunnel.Prelude.Bytes.{Bytes}
use lane_cove_tunnel.Crypto.{Crypto, IsCrypto}
use lane_cove_tunnel.World.{Env, World, Addr, Datagram, IsEnv, sendto}
use lane_cove_tunnel.Packet.{encrypt_packet, decrypt_packet}
use lane_cove_tunnel.Replay.{check_replay}
use lane_cove_tunnel.Node.{Session, Self, Node}
use lane_cove_tunnel.Sessions.{slot, find_session_by_addr, route_lookup}
use lane_cove_tunnel.Sessions.Find.{slot-set_ne}
use lane_cove_tunnel.Loop.Send.{framed, note_sent, forward_to_peer}
use lane_cove_tunnel.Loop.Data.{is_ipv4, dst_ip, forward_at, handle_tun}
use lane_cove_tunnel.Loop.Delivery.{IsAllowed}
use lane_cove_tunnel.Loop.Response.{is_handshake}
use lane_cove_tunnel.Loop.Step.{handle_udp}
use lane_cove_tunnel.Loop.Forward.{forward_to_peer-opens}
use lane_cove_tunnel.Tunnel.Receive.{IsLocal, opened_node, handle_udp-writes, handle_udp-relays}

-- The sender's session s and the receiver's session r are two ends of a tunnel, and r takes this
-- packet.
pub record IsLink (s r : Session) (packet : Bytes) : Type 0 where
  pub same_key : s.session_key ≡ r.session_key
  pub small : s.send_seq < 2 ^ 64
  pub fresh : (check_replay s.send_seq r.window).0 ≡ true
  pub allowed : IsAllowed r packet

module _ {PKey Ctx : Type 0} (c : Crypto PKey Ctx) (e : Env PKey) where
  pub handle_tun-route :
      (packet : Bytes) (node : Node PKey) (w : World) (i : ℕ)
      → is_ipv4 packet ≡ true
      → route_lookup (dst_ip packet) node.sessions ≡ some i
      → handle_tun c e packet node w ≡ forward_at c e i packet node w
  unfolding handle_tun
  handle_tun-route packet node w i ipv4 route = rw (ipv4, handle_tun, route)

  note_sent-written :
      (s t : Session) (wire : Bytes) (w : World)
      → (note_sent c e s (sendto e t.addr wire w)).1.written ≡ w.written
  unfolding note_sent sendto
  note_sent-written s t wire w = ground arith

  pub forward_at-written :
      (i : ℕ) (packet : Bytes) (node : Node PKey) (w : World)
      → (forward_at c e i packet node w).1.written ≡ w.written
  unfolding forward_at forward_to_peer encrypt_packet note_sent sendto
  forward_at-written i packet node w = ground arith

  module _ (ok : IsCrypto c) (random : IsEnv e) where
    -- What a session sends opens under the key of the other end.
    pub forward_at-opens :
        (i : ℕ) (packet : Bytes) (node : Node PKey) (w : World) (r : Session) {d : Datagram}
        → (forward_at c e i packet node w).1.sent ≡ d ∷ w.sent
        → (slot node.sessions i).session_key ≡ r.session_key
        → (d.to ≡ (slot node.sessions i).addr)
          × (decrypt_packet c r.session_key d.bytes
              ≡ some (framed (slot node.sessions i).send_seq packet))
    unfolding forward_at
    forward_at-opens i packet node w r {d} h same =
        let (to_peer, _, opens) =
          forward_to_peer-opens c e ok random (slot node.sessions i) packet w {d = d} h in
        (to_peer, rw same at opens)

-- From the TUN device of one peer to that of another, which has its own environment.
module _ {PKey Ctx : Type 0} (c : Crypto PKey Ctx) (ok : IsCrypto c) (e : Env PKey)
    (random : IsEnv e) (e' : Env PKey) (self : Self PKey) (src : Addr) (packet : Bytes)
    (sender receiver : Node PKey) (i j : ℕ) (w v : World) {d : Datagram}
    (ipv4 : is_ipv4 packet ≡ true) (route : route_lookup (dst_ip packet) sender.sessions ≡ some i)
    (sends : (handle_tun c e packet sender w).1.sent ≡ d ∷ w.sent)
    (plain : is_handshake self.psk_key d.bytes ≡ false)
    (found : find_session_by_addr src receiver.sessions ≡ some j)
    (link : IsLink (slot sender.sessions i) (slot receiver.sessions j) packet) where
  opens :
      (d.to ≡ (slot sender.sessions i).addr)
      × (decrypt_packet c (slot receiver.sessions j).session_key d.bytes
          ≡ some (framed (slot sender.sessions i).send_seq packet))
  opens =
      forward_at-opens c e ok random i packet sender w (slot receiver.sessions j) {d = d}
        (rw (handle_tun-route c e packet sender w i ipv4 route) at sends) link.same_key

  pub delivered :
      IsLocal packet j receiver.sessions
      → e'.write_ok (v.calls + 1) ≡ true
      → (d.to ≡ (slot sender.sessions i).addr)
        × ((handle_udp c e' self src d.bytes receiver v).0
            ≡ opened_node e' j (slot sender.sessions i).send_seq receiver v)
        × ((handle_udp c e' self src d.bytes receiver v).1.written ≡ packet ∷ v.written)
  delivered here writes =
      let (node, written) =
        handle_udp-writes c e' self src packet d.bytes (slot sender.sessions i).send_seq j receiver
          v plain found opens.1 link.small link.fresh link.allowed here writes in
      (opens.0, node, written)

  -- The datagram of a relayed packet is that of the session at index k.
  relays :
      (k : ℕ)
      → route_lookup (dst_ip packet) receiver.sessions ≡ some k
      → k ≢ j
      → (handle_udp c e' self src d.bytes receiver v
          ≡ forward_at c e' k packet
              (opened_node e' j (slot sender.sessions i).send_seq receiver v)
              (record v { calls = v.calls + 1 }))
        × (slot (opened_node e' j (slot sender.sessions i).send_seq receiver v).sessions k
            ≡ slot receiver.sessions k)
  relays k onwards other = (
    handle_udp-relays c e' self src packet d.bytes (slot sender.sessions i).send_seq j receiver v
        plain found opens.1 link.small link.fresh link.allowed k ipv4 onwards other,
    slot-set_ne receiver.sessions j k _ (λ same. other (sym same)),
  )

  -- A packet that one peer reads from its TUN device with a route to the session of another goes
  -- out to that session's address; the other peer, which has the session for the address the
  -- datagram comes from, holds the same key, accepts the sequence number, allows the packet and
  -- has no route that leads it on to a third, writes exactly this packet to its TUN device.
  pub handle_udp-handle_tun :
      IsLocal packet j receiver.sessions
      → e'.write_ok (v.calls + 1) ≡ true
      → (d.to ≡ (slot sender.sessions i).addr)
        × ((handle_udp c e' self src d.bytes receiver v).1.written ≡ packet ∷ v.written)
  handle_udp-handle_tun here writes = let (to, _, written) = delivered here writes in (to, written)

  -- By way of a third peer: the one that has the datagram sends the packet on by its own route
  -- and writes nothing to its TUN device, and the peer at the end of that route writes the packet.
  pub handle_udp-relay :
      (k l : ℕ) (e'' : Env PKey) (last : Self PKey) (via : Addr) (end : Node PKey) (u : World)
      {d' : Datagram}
      → IsEnv e'
      → route_lookup (dst_ip packet) receiver.sessions ≡ some k
      → k ≢ j
      → (handle_udp c e' self src d.bytes receiver v).1.sent ≡ d' ∷ v.sent
      → is_handshake last.psk_key d'.bytes ≡ false
      → find_session_by_addr via end.sessions ≡ some l
      → IsLink (slot receiver.sessions k) (slot end.sessions l) packet
      → IsLocal packet l end.sessions
      → e''.write_ok (u.calls + 1) ≡ true
      → (d'.to ≡ (slot receiver.sessions k).addr)
        × ((handle_udp c e' self src d.bytes receiver v).1.written ≡ v.written)
        × ((handle_udp c e'' last via d'.bytes end u).1.written ≡ packet ∷ u.written)
  handle_udp-relay k l e'' last via end u {d'} random' onwards other sends' plain' found' link' here
        writes =
      let (goes_on, same) = relays k onwards other in
      let (to, opens') =
        forward_at-opens c e' ok random' k packet _ _ (slot end.sessions l) {d = d'}
          (rw goes_on at sends') (rw same link'.same_key) in
      let opens'' = rw same at opens' in
      let (_, written) =
        handle_udp-writes c e'' last via packet d'.bytes (slot receiver.sessions k).send_seq l end u
          plain' found' opens'' link'.small link'.fresh link'.allowed here writes in
      (rw same at to, rw goes_on (forward_at-written c e' k packet _ _), written)
