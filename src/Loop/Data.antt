-- ===== src/Loop/Data.antt =====
-- The part of `event_loop` that opens a data packet, and the two ways on: to the TUN device or,
-- the relay shortcut, to another peer. The packet inside is read as `event_loop` reads it.
use lane_cove_tunnel.Prelude.{
  ℕ, ◌+◌, ◌/◌, Bool, true, false, not, ◌&&◌, ◌||◌, Option, none, some, ltb, leb, ◌==◌,
  if◌then◌else◌, length, take, drop, get_or,
}
use lane_cove_tunnel.Prelude.Bytes.{Bytes, bytes_eq, of_be}
use lane_cove_tunnel.Crypto.{Crypto}
use lane_cove_tunnel.World.{Env, World, Addr, write_tun}
use lane_cove_tunnel.Replay.{check_replay}
use lane_cove_tunnel.Packet.{decrypt_packet}
use lane_cove_tunnel.Handshake.{header_size, pkt_header}
use lane_cove_tunnel.Node.{Session, Node, set_session}
use lane_cove_tunnel.Sessions.{slot, check_allowed_src, find_session_by_addr, route_lookup}
use lane_cove_tunnel.Loop.Send.{forward_to_peer}

abbrev pub seq_size : ℕ
seq_size = 8

-- `payload_len >= 20 && (payload[0] >> 4) == 4`
abbrev pub is_ipv4 : Bytes → Bool
is_ipv4 payload = leb 20 (length payload) && get_or payload 0 0 / 16 == 4

-- `ntohl(*(uint32_t *)(payload + n))`
abbrev pub word_at : ℕ → Bytes → ℕ
word_at n payload = of_be 0 (take 4 (drop n payload))

abbrev pub src_ip : Bytes → ℕ
src_ip payload = word_at 12 payload

abbrev pub dst_ip : Bytes → ℕ
dst_ip payload = word_at 16 payload

-- The checks on the payload itself: not empty, its source among the AllowedIPs.
unfoldable pub check_payload : Session → Bytes → Option Bytes
check_payload s payload =
    if length payload == 0
    then none
    else if (ltb 0 (length s.routes) && is_ipv4 payload)
        && not (check_allowed_src s.routes (src_ip payload))
    then none
    else some payload

-- What follows a successful decryption: the header, the replay check unless the previous key was
-- used, the payload.
unfoldable pub check_plain : Session → Bytes → Bool → Session × Option Bytes
check_plain s plain used_prev_key =
    let payload = drop (header_size + seq_size) plain in
    let (passes, window) =
      check_replay (of_be 0 (take seq_size (drop header_size plain))) s.window in
    if ltb (length plain) (header_size + seq_size)
      || not (bytes_eq (take header_size plain) pkt_header)
    then (s, none)
    else if used_prev_key
    then (s, check_payload s payload)
    else if passes
    then (record s { window = window }, check_payload s payload)
    else (s, none)

module _ {PKey Ctx : Type 0} (c : Crypto PKey Ctx) where
  -- The session after a datagram at its address, and the payload that goes on.
  unfoldable pub open_data : ℕ → Session → Bytes → Session × Option Bytes
  open_data now s wire_buf =
      let seen : Session = record s { last_seen = now } in
      elim (decrypt_packet c s.session_key wire_buf) [
        | some plain ↦ check_plain (record seen { prev_key_active = false }) plain false
        | none ↦
            if s.prev_key_active && leb now s.prev_key_expires
            then (elim (decrypt_packet c s.prev_session_key wire_buf) [
              | some plain ↦ check_plain seen plain true
              | none ↦ (seen, none)
            ])
            else (seen, none)
      ]

  module _ (e : Env PKey) where
    -- `forward_to_peer` for the session at index i.
    unfoldable pub forward_at : ℕ → Bytes → Node PKey → World → Node PKey × World
    forward_at i payload node w =
        let (s, w) = forward_to_peer c e (slot node.sessions i) payload w in
        (set_session node i s, w)

    -- A payload from session i.
    unfoldable pub deliver_payload : ℕ → Bytes → Node PKey → World → Node PKey × World
    deliver_payload i payload node w =
        elim (if is_ipv4 payload then route_lookup (dst_ip payload) node.sessions else none) [
          | none ↦ (node, (write_tun e payload w).1)
          | some fwd ↦
              if fwd == i then (node, (write_tun e payload w).1) else forward_at fwd payload node w
        ]

    unfoldable pub handle_data : ℕ → Addr → Bytes → Node PKey → World → Node PKey × World
    handle_data now src wire_buf node w = elim (find_session_by_addr src node.sessions) [
      | none ↦ (node, w)
      | some i ↦
          let (s, payload) = open_data now (slot node.sessions i) wire_buf in
          let node = set_session node i s in
          elim payload [ none ↦ (node, w) | some p ↦ deliver_payload i p node w ]
    ]

    -- What `read(tun_fd, ...)` gave.
    unfoldable pub handle_tun : Bytes → Node PKey → World → Node PKey × World
    handle_tun packet node w =
        elim (if is_ipv4 packet then route_lookup (dst_ip packet) node.sessions else none) [
          | none ↦ (node, w)
          | some i ↦ forward_at i packet node w
        ]
