-- ===== src/Loop/Forward.antt =====
-- A packet from one end of a tunnel to the other: `forward_to_peer` and then the other peer's
-- handling of the datagram.
use lane_cove_tunnel.Prelude.{
  ℕ, ◌≤◌, ◌+◌, ◌%◌, ◌^◌, ◌<◌, ◌≡◌, ◌≢◌, refl, true, false, some, Option-cases, Bool-cases, inl, inr,
  length, take, drop, arith, List, ◌∷◌, ap, ltb, not, ◌||◌,
}
use lane_cove_tunnel.Prelude.Bytes.{Bytes, be64, of_be-be64, bytes_eq, bytes_eq_refl}
use lane_cove_tunnel.Crypto.{Crypto, IsCrypto}
use lane_cove_tunnel.World.{Env, World, Datagram, IsEnv, sendto}
use lane_cove_tunnel.Replay.{check_replay}
use lane_cove_tunnel.Packet.{encrypt_packet, decrypt_packet}
use lane_cove_tunnel.Packet.RoundTrip.{decrypt_packet-encrypt_packet}
use lane_cove_tunnel.Handshake.{header_size, pkt_header}
use lane_cove_tunnel.Node.{Session}
use lane_cove_tunnel.Loop.Send.{framed, note_sent, forward_to_peer}
use lane_cove_tunnel.Loop.Data.{seq_size, check_payload, check_plain, open_data}
use lane_cove_tunnel.Loop.Delivery.{IsAllowed, seq_of}

pub framed-parts :
    (seq : ℕ) (payload : Bytes)
    → (take header_size (framed seq payload) ≡ pkt_header)
      × (take seq_size (drop header_size (framed seq payload)) ≡ be64 seq)
      × (drop (header_size + seq_size) (framed seq payload) ≡ payload)
      × (length (framed seq payload) ≡ header_size + seq_size + length payload)
unfolding be64
framed-parts seq payload = (refl, refl, refl, omega arith)

pub check_payload-IsAllowed :
    (s : Session) (payload : Bytes) → IsAllowed s payload → check_payload s payload ≡ some payload
unfolding check_payload
check_payload-IsAllowed s payload (full, allowed) = ground (arith, allowed)

-- The session after a packet whose sequence number is new.
abbrev pub after_fresh : Session → ℕ → Session
after_fresh r seq = record r { window = (check_replay seq r.window).1 }

check_plain-good :
    (r : Session) (plain payload : Bytes)
    → header_size + seq_size ≤ length plain
    → take header_size plain ≡ pkt_header
    → (check_replay (seq_of plain) r.window).0 ≡ true
    → check_payload r (drop (header_size + seq_size) plain) ≡ some payload
    → check_plain r plain false ≡ (after_fresh r (seq_of plain), some payload)
unfolding check_plain
check_plain-good r plain payload long header fresh passed =
    let good : ltb (length plain) (header_size + seq_size)
          || not (bytes_eq (take header_size plain) pkt_header)
        ≡ false =
      rw (header, bytes_eq_refl pkt_header) (ground arith) in
    rw (check_plain, good, fresh, passed)

check_plain-framed :
    (r : Session) (seq : ℕ) (payload : Bytes)
    → seq < 2 ^ 64
    → (check_replay seq r.window).0 ≡ true
    → IsAllowed r payload
    → check_plain r (framed seq payload) false ≡ (after_fresh r seq, some payload)
check_plain-framed r seq payload small fresh allowed =
    let (header, number, rest, size) = framed-parts seq payload in
    let seq_is : seq_of (framed seq payload) ≡ seq = rw (number) (of_be-be64 seq small) in
    let reads =
      check_plain-good r (framed seq payload) payload (omega (arith, size)) header
        (rw (seq_is) fresh) (rw (rest) (check_payload-IsAllowed r payload allowed)) in
    rw (seq_is) at reads

module _ {PKey Ctx : Type 0} (c : Crypto PKey Ctx) where
  -- A datagram that opens to a packet of the tunnel under the session's key.
  pub open_data-framed :
      (now : ℕ) (r : Session) (wire payload : Bytes) (seq : ℕ)
      → decrypt_packet c r.session_key wire ≡ some (framed seq payload)
      → seq < 2 ^ 64
      → (check_replay seq r.window).0 ≡ true
      → IsAllowed r payload
      → open_data c now r wire
        ≡ (after_fresh (record r { last_seen = now; prev_key_active = false }) seq, some payload)
  unfolding open_data
  open_data-framed now r wire payload seq opens small fresh allowed =
      rw (open_data, opens) (check_plain-framed _ seq payload small fresh allowed)

module _ {PKey Ctx : Type 0} (c : Crypto PKey Ctx) (e : Env PKey) where
  sent-encrypt_packet :
      (key plain : Bytes) (w : World) → (encrypt_packet c e key plain w).1.sent ≡ w.sent
  unfolding encrypt_packet
  sent-encrypt_packet key plain w = ground arith

  grows : (d : Datagram) (ds : List Datagram) → ds ≢ d ∷ ds
  grows d ds h = absurd (omega (arith, ap length h))

  sendto-sent :
      (s : Session) (wire : Bytes) (w : World) {d : Datagram}
      → (note_sent c e s (sendto e s.addr wire w)).1.sent ≡ d ∷ w.sent
      → (d.to ≡ s.addr) × (d.bytes ≡ wire)
  unfolding note_sent sendto
  sendto-sent s wire w {d} h = elim (Bool-cases (e.sendto_ok w.calls)) [
    | inl ok ↦
        let h' : record { to = s.addr; bytes = wire } ∷ w.sent ≡ d ∷ w.sent =
          rw (ok, note_sent, sendto) at h in
        (cc h', cc h')
    | inr lost ↦
        let h' : w.sent ≡ d ∷ w.sent = rw (lost, note_sent, sendto) at h in
        absurd (grows d w.sent h')
  ]

  module _ (ok : IsCrypto c) (random : IsEnv e) where
    -- The datagram, and what it opens to under the sender's key.
    pub forward_to_peer-opens :
        (s : Session) (payload : Bytes) (w : World) {d : Datagram}
        → (forward_to_peer c e s payload w).1.sent ≡ d ∷ w.sent
        → (d.to ≡ s.addr)
          × (length d.bytes ≡ length payload + 44)
          × (decrypt_packet c s.session_key d.bytes ≡ some (framed s.send_seq payload))
    unfolding forward_to_peer
    forward_to_peer-opens s payload w {d} h =
        let counted : Session = record s { send_seq = (s.send_seq + 1) % 2 ^ 64 } in
        let run = encrypt_packet c e s.session_key (framed s.send_seq payload) w in
        let quiet = sent-encrypt_packet s.session_key (framed s.send_seq payload) w in
        elim (Option-cases run.0) [
          | inl fails ↦
              let h' : run.1.sent ≡ d ∷ w.sent = rw (forward_to_peer, fails) at h in
              absurd (grows d w.sent (cc (quiet, h')))
          | inr (wire, sealed) ↦
              let h' : (note_sent c e counted (sendto e s.addr wire run.1)).1.sent
                  ≡ d ∷ run.1.sent =
                rw (quiet) (rw (forward_to_peer, sealed) at h) in
              let (to_peer, on_wire) = sendto-sent counted wire run.1 h' in
              let (size, opened) =
                decrypt_packet-encrypt_packet c ok e random s.session_key
                  (framed s.send_seq payload) w run.1 {out = wire} (cc sealed) in
              (
                to_peer,
                rw (on_wire) (omega (arith, size, (framed-parts s.send_seq payload).3)),
                rw (on_wire) opened,
              )
        ]

    -- A payload that is sent to a peer arrives: the datagram that `forward_to_peer` puts on the
    -- wire goes to the session's address and is 44 bytes longer than the payload, and a session
    -- that holds the same key, accepts the sequence number and allows the payload opens it to
    -- exactly this payload.
    pub open_data-forward_to_peer :
        (s r : Session) (payload : Bytes) (now : ℕ) (w : World) {d : Datagram}
        → (forward_to_peer c e s payload w).1.sent ≡ d ∷ w.sent
        → s.session_key ≡ r.session_key
        → s.send_seq < 2 ^ 64
        → (check_replay s.send_seq r.window).0 ≡ true
        → IsAllowed r payload
        → (d.to ≡ s.addr)
          × (length d.bytes ≡ length payload + 44)
          × ((open_data c now r d.bytes).1 ≡ some payload)
    open_data-forward_to_peer s r payload now w {d} h same small fresh allowed =
        let (to_peer, size, opened) = forward_to_peer-opens s payload w h in
        let reads =
          open_data-framed c now r d.bytes payload s.send_seq (rw (← same) opened) small fresh
            allowed in
        (to_peer, size, rw reads)
