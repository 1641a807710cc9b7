-- ===== src/Tunnel/Receive.antt =====
-- The receiver's half: the datagram is opened (`event_loop` of src/peer.c), and the packet in it is
-- written to the TUN device or, the relay shortcut, sent on.
use lane_cove_tunnel.Prelude.{
  ℕ, ◌+◌, ◌^◌, ◌<◌, ◌≡◌, ◌≢◌, ◌⊎◌, refl, true, false, none, some, List, ◌∷◌, inl, inr, arith, ◌∙◌,
}
use lane_cove_tunnel.Prelude.Bytes.{Bytes}
use lane_cove_tunnel.Crypto.{Crypto}
use lane_cove_tunnel.World.{Env, World, Addr, write_tun}
use lane_cove_tunnel.Packet.{decrypt_packet}
use lane_cove_tunnel.Replay.{check_replay}
use lane_cove_tunnel.Node.{Session, Self, Node, set_session}
use lane_cove_tunnel.Sessions.{slot, find_session_by_addr, route_lookup, time_now}
use lane_cove_tunnel.Loop.Data.{is_ipv4, dst_ip, forward_at, deliver_payload, handle_data}
use lane_cove_tunnel.Loop.Delivery.{IsAllowed}
use lane_cove_tunnel.Loop.Response.{is_handshake}
use lane_cove_tunnel.Loop.Send.{framed}
use lane_cove_tunnel.Loop.Step.{handle_udp}
use lane_cove_tunnel.Loop.Forward.{after_fresh, open_data-framed}
use lane_cove_tunnel.Tunnel.Lookup.{Keeps, route_lookup-set}

-- The packet is for this peer: no session has a route to it, or only the one it came from.
abbrev pub IsLocal : Bytes → ℕ → List Session → Type 0
IsLocal packet j sessions =
    (route_lookup (dst_ip packet) sessions ≡ none)
    ⊎ (route_lookup (dst_ip packet) sessions ≡ some j)

-- The session after the packet.
abbrev pub received : ℕ → Session → ℕ → Session
received now r seq = after_fresh (record r { last_seen = now; prev_key_active = false }) seq

pub received-Keeps : (now : ℕ) (r : Session) (seq : ℕ) → Keeps r (received now r seq)
received-Keeps now r seq = record { active = refl; addr = refl; session_key = refl; routes = refl }

module _ {PKey : Type 0} (e : Env PKey) where
  -- The node after a packet with this sequence number from the session at index j.
  abbrev pub opened_node : ℕ → ℕ → Node PKey → World → Node PKey
  opened_node j seq node w =
      set_session node j (received (e.clock w.calls) (slot node.sessions j) seq)

module _ {PKey Ctx : Type 0} (c : Crypto PKey Ctx) (e : Env PKey) where
  deliver_payload-local :
      (j : ℕ) (packet : Bytes) (node : Node PKey) (w : World)
      → IsLocal packet j node.sessions
      → deliver_payload c e j packet node w ≡ (node, (write_tun e packet w).1)
  unfolding deliver_payload
  deliver_payload-local j packet node w (inl nowhere) = ground (arith)
  deliver_payload-local j packet node w (inr back) = ground (arith)

  deliver_payload-relayed :
      (j k : ℕ) (packet : Bytes) (node : Node PKey) (w : World)
      → is_ipv4 packet ≡ true
      → route_lookup (dst_ip packet) node.sessions ≡ some k
      → k ≢ j
      → deliver_payload c e j packet node w ≡ forward_at c e k packet node w
  unfolding deliver_payload
  deliver_payload-relayed j k packet node w ipv4 route other = ground (arith)

  written-write_tun :
      (packet : Bytes) (w : World)
      → e.write_ok w.calls ≡ true
      → (write_tun e packet w).1.written ≡ packet ∷ w.written
  unfolding write_tun
  written-write_tun packet w ok = rw ok

  -- A datagram of the session at index j, with a packet of the tunnel in it.
  module _ (self : Self PKey) (src : Addr) (packet wire : Bytes) (seq j : ℕ) (node : Node PKey)
      (w : World) (plain : is_handshake self.psk_key wire ≡ false)
      (found : find_session_by_addr src node.sessions ≡ some j)
      (opens : decrypt_packet c (slot node.sessions j).session_key wire ≡ some (framed seq packet))
      (small : seq < 2 ^ 64) (fresh : (check_replay seq (slot node.sessions j).window).0 ≡ true)
      (allowed : IsAllowed (slot node.sessions j) packet) where
    handle_data-opens :
        (now : ℕ) (v : World)
        → handle_data c e now src wire node v
          ≡ deliver_payload c e j packet
              (set_session node j (received now (slot node.sessions j) seq))
              v
    unfolding handle_data
    handle_data-opens now v =
        let reads =
          open_data-framed c now (slot node.sessions j) wire packet seq opens small fresh allowed in
        rw (found, handle_data, reads) (rw reads)

    handle_udp-opens :
        handle_udp c e self src wire node w
        ≡ deliver_payload c e j packet
            (opened_node e j seq node w)
            (record w { calls = w.calls + 1 })
    unfolding handle_udp time_now
    handle_udp-opens = rw (plain, handle_udp) (handle_data-opens (e.clock w.calls) _)

    -- It is written to the TUN device.
    pub handle_udp-writes :
        IsLocal packet j node.sessions
        → e.write_ok (w.calls + 1) ≡ true
        → ((handle_udp c e self src wire node w).0 ≡ opened_node e j seq node w)
          × ((handle_udp c e self src wire node w).1.written ≡ packet ∷ w.written)
    handle_udp-writes here ok =
        let same =
          route_lookup-set (dst_ip packet) node.sessions j _
            (received-Keeps (e.clock w.calls) (slot node.sessions j) seq) in
        let local : IsLocal packet j (opened_node e j seq node w).sessions = rw same here in
        rw
          (
            handle_udp-opens,
            deliver_payload-local j packet (opened_node e j seq node w)
                (record w { calls = w.calls + 1 }) local,
          )
          (refl, written-write_tun packet (record w { calls = w.calls + 1 }) ok)

    -- Or it goes on to the session at index k.
    pub handle_udp-relays :
        (k : ℕ)
        → is_ipv4 packet ≡ true
        → route_lookup (dst_ip packet) node.sessions ≡ some k
        → k ≢ j
        → handle_udp c e self src wire node w
          ≡ forward_at c e k packet (opened_node e j seq node w) (record w { calls = w.calls + 1 })
    handle_udp-relays k ipv4 route other =
        let same =
          route_lookup-set (dst_ip packet) node.sessions j _
            (received-Keeps (e.clock w.calls) (slot node.sessions j) seq) in
        handle_udp-opens
        ∙ deliver_payload-relayed j k packet (opened_node e j seq node w)
            (record w { calls = w.calls + 1 }) ipv4 (same ∙ route) other
