-- ===== src/Loop/Send.antt =====
-- `resolve_endpoint`, `refresh_precomp_eph`, `forward_to_peer` and `initiate_outbound_handshake`.
use lane_cove_tunnel.Prelude.{
  ℕ, ◌+◌, ◌%◌, ◌^◌, Bool, true, false, not, Option, none, some, ◌++◌, set,
}
use lane_cove_tunnel.Prelude.Bytes.{Bytes, be64}
use lane_cove_tunnel.Crypto.{Crypto}
use lane_cove_tunnel.World.{Env, World, Addr, sendto}
use lane_cove_tunnel.Decimal.{decimal}
use lane_cove_tunnel.Packet.{encrypt_packet}
use lane_cove_tunnel.Handshake.{pkt_header}
use lane_cove_tunnel.Handshake.Client.{generate_eph_keypair, handshake_client_send}
use lane_cove_tunnel.Node.{PeerConfig, Session, Self, Node, config_at, set_config}
use lane_cove_tunnel.Sessions.{find_index, time_now}

-- `plain_buf` of `forward_to_peer`.
abbrev pub framed : ℕ → Bytes → Bytes
framed seq payload = pkt_header ++ (be64 seq ++ payload)

module _ {PKey Ctx : Type 0} (c : Crypto PKey Ctx) (e : Env PKey) where
  -- `getaddrinfo`, for the host and, as text, the port of the configuration.
  abbrev look_up : PeerConfig → ℕ → Option Addr
  look_up cfg n = e.getaddrinfo n cfg.endpoint_host (decimal cfg.endpoint_port)

  -- `true` stands for 0. A failed resolution leaves the endpoint as it was.
  unfoldable pub resolve_endpoint : PeerConfig → World → Bool × PeerConfig × World
  resolve_endpoint cfg w =
      let w' : World = record w { calls = w.calls + 1 } in
      elim (look_up cfg w.calls) [
        | none ↦ (false, cfg, w')
        | some addr ↦ (true, record cfg { endpoint = addr }, w')
      ]

  -- A failed generation keeps the old key pair.
  unfoldable pub refresh_precomp_eph : Node PKey → World → Node PKey × World
  refresh_precomp_eph node w =
      let (made, w) = generate_eph_keypair c e w in
      (
        elim made [
          | none ↦ node
          | some (key, key_pub) ↦ record node {
            precomp_eph_key = some key;
            precomp_eph_pub = key_pub;
          }
        ],
        w,
      )

  -- What follows `sendto`: `last_sent` is set if the datagram went out.
  unfoldable pub note_sent : Session → Option (Unit {0}) × World → Session × World
  unfolding time_now
  note_sent s (none, w) = (s, w)
  note_sent s (some _, w) = let (now, w) = time_now e w in (record s { last_sent = now }, w)

  -- `send_seq++` counts also a packet that cannot be encrypted.
  unfoldable pub forward_to_peer : Session → Bytes → World → Session × World
  forward_to_peer s payload w =
      let counted : Session = record s { send_seq = (s.send_seq + 1) % 2 ^ 64 } in
      let (wire, w) = encrypt_packet c e s.session_key (framed s.send_seq payload) w in
      elim wire [
        | none ↦ (counted, w)
        | some wire_buf ↦ note_sent counted (sendto e s.addr wire_buf w)
      ]

  -- From `pending_hs_t *p` on, for the slot that was found. A handshake that could not be sent
  -- leaves the slot free.
  unfoldable pub initiate_in_slot :
      Self PKey → ℕ → ℕ → PeerConfig → Node PKey → World → Bool × Node PKey × World
  unfolding time_now
  initiate_in_slot self slot cfg_idx cfg node w =
      let (state, w) =
        handshake_client_send c e cfg.endpoint self.psk_key self.static_pub (some cfg.pub_key) w in
      elim state [
        | none ↦ (false, node, w)
        | some hs_state ↦
            let (sent_at, w) = time_now e w in
            (
              true,
              record node {
                pending_hs = set node.pending_hs slot (record {
                  active = true;
                  cfg_idx = cfg_idx;
                  sent_at = sent_at;
                  hs_state = hs_state;
                  server_addr = cfg.endpoint;
                });
              },
              w,
            )
      ]

  -- `true` stands for 0.
  unfoldable pub initiate_outbound_handshake :
      Self PKey → ℕ → Node PKey → World → Bool × Node PKey × World
  unfolding time_now initiate_in_slot
  initiate_outbound_handshake self cfg_idx node w =
      let (now, w) = time_now e w in
      let cfg : PeerConfig = record (config_at node cfg_idx) { last_attempt = now } in
      let node = set_config node cfg_idx cfg in
      elim (find_index (λ p. not p.active) node.pending_hs) [
        | none ↦ (false, node, w)
        | some slot ↦ initiate_in_slot self slot cfg_idx cfg node w
      ]
