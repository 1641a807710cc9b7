-- ===== src/Loop/Size.antt =====
-- The buffers of `event_loop` (src/peer.c): `buffer` of BUFFER_SIZE bytes, `wire_buf` of BUFFER_SIZE +
-- WIRE_OVERHEAD, and the MTU of the TUN device (src/common.h).
use lane_cove_tunnel.Prelude.{
  ℕ, ◌≤◌, ◌+◌, ◌-◌, ◌≡◌, ◌↔◌, some, ◌∷◌, inl, inr, length, arith, length-drop,
}
use lane_cove_tunnel.Prelude.Bytes.{Bytes}
use lane_cove_tunnel.Crypto.{Crypto, IsCrypto}
use lane_cove_tunnel.World.{Env, World, Datagram, IsEnv}
use lane_cove_tunnel.Packet.{crypto_overhead}
use lane_cove_tunnel.Packet.RoundTrip.{length-decrypt_packet}
use lane_cove_tunnel.Handshake.{header_size}
use lane_cove_tunnel.Node.{Session}
use lane_cove_tunnel.Loop.Send.{forward_to_peer}
use lane_cove_tunnel.Loop.Data.{seq_size, open_data}
use lane_cove_tunnel.Loop.Delivery.{Opens, open_data-authentic}
use lane_cove_tunnel.Loop.Forward.{forward_to_peer-opens}

-- WIRE_OVERHEAD
abbrev pub wire_overhead : ℕ
wire_overhead = header_size + seq_size + crypto_overhead

-- TUN_MTU
abbrev pub tun_mtu : ℕ
tun_mtu = 1500 - 20 - 8 - wire_overhead

-- BUFFER_SIZE
abbrev pub buffer_size : ℕ
buffer_size = 2048

module _ {PKey Ctx : Type 0} (c : Crypto PKey Ctx) (ok : IsCrypto c) where
  -- A payload of the size of `buffer` is sent in a datagram that fits `wire_buf`; with its IP and UDP
  -- headers the datagram fits an Ethernet frame of 1500 bytes exactly where the payload is within
  -- TUN_MTU.
  pub forward_to_peer_fits :
      (e : Env PKey)
      → IsEnv e
      → (s : Session) (payload : Bytes) (w : World) {d : Datagram}
      → (forward_to_peer c e s payload w).1.sent ≡ d ∷ w.sent
      → length payload ≤ buffer_size
      → (length d.bytes ≤ buffer_size + wire_overhead)
        × ((20 + 8 + length d.bytes ≤ 1500) ↔ (length payload ≤ tun_mtu))
  forward_to_peer_fits e random s payload w h small =
      let (_, size, _) = forward_to_peer-opens c e ok random s payload w h in
      (omega (arith, size), (λ p. omega (arith, size), λ p. omega (arith, size)))

  opened_size :
      (now : ℕ) (s : Session) (wire_buf plain : Bytes)
      → Opens c now s wire_buf plain
      → length wire_buf ≡ length plain + crypto_overhead
  opened_size now s wire_buf plain (inl (opened, fresh)) =
      length-decrypt_packet c ok s.session_key wire_buf {plain = plain} opened
  opened_size now s wire_buf plain (inr (fails, on, opened)) =
      length-decrypt_packet c ok s.prev_session_key wire_buf {plain = plain} opened

  -- A payload that goes on from a datagram is shorter than the datagram by WIRE_OVERHEAD: what came
  -- into `wire_buf` leaves a payload of at most BUFFER_SIZE bytes, which fits the buffers it goes to.
  pub open_data_fits :
      (now : ℕ) (s : Session) (wire_buf : Bytes) {payload : Bytes}
      → (open_data c now s wire_buf).1 ≡ some payload
      → length wire_buf ≤ buffer_size + wire_overhead
      → (length payload + wire_overhead ≡ length wire_buf) × (length payload ≤ buffer_size)
  open_data_fits now s wire_buf {payload} h small =
      let (plain, opens, (long, header, rest), allowed) =
        open_data-authentic c now s wire_buf {payload = payload} h in
      let size = opened_size now s wire_buf plain opens in
      let cut : length payload ≡ length plain - (header_size + seq_size) =
        rw (rest) (length-drop (header_size + seq_size) plain) in
      (omega (arith, size, cut, long), omega (arith, size, cut, long))
