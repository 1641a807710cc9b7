-- ===== src/Tunnel/Send.antt =====
-- The sender's half: a packet of the TUN device (`handle_tun` of src/peer.c) becomes a datagram.
use lane_cove_tunnel.Prelude.{
  ℕ, ◌+◌, ◌%◌, ◌^◌, ◌≡◌, refl, true, none, Option, some, ◌∷◌, ◌++◌, inl, inr, Option-cases, ap, ◌∙◌,
}
use lane_cove_tunnel.Prelude.Bytes.{Bytes}
use lane_cove_tunnel.Crypto.{Crypto, seal}
use lane_cove_tunnel.World.{Env, World, Datagram, sendto}
use lane_cove_tunnel.Packet.{encrypt_packet}
use lane_cove_tunnel.Node.{Session}
use lane_cove_tunnel.Loop.Send.{framed, note_sent, forward_to_peer}
use lane_cove_tunnel.Tunnel.Lookup.{Keeps}

-- The operating system refuses nothing.
pub record IsReliable {PKey : Type 0} (e : Env PKey) : Type 0 where
  pub rand_bytes-some : (n k : ℕ) → (bytes : Bytes) × (e.rand_bytes n k ≡ some bytes)
  pub keygen-some : (n : ℕ) → (key : PKey) × (e.keygen n ≡ some key)
  pub sendto_ok-true : (n : ℕ) → e.sendto_ok n ≡ true
  pub write_ok-true : (n : ℕ) → e.write_ok n ≡ true

-- The calls of libcrypto that encrypt do not fail.
abbrev pub Seals : {PKey Ctx : Type 0} → Crypto PKey Ctx → Type 0
Seals c = (key iv plain : Bytes) → (out : Bytes × Bytes) × (seal c key iv plain ≡ some out)

-- The session after a packet: counted, and otherwise the same to every search.
pub record Counted (s s' : Session) : Type 0 where
  pub keeps : Keeps s s'
  pub count : s'.send_seq ≡ (s.send_seq + 1) % 2 ^ 64

module _ {PKey Ctx : Type 0} (c : Crypto PKey Ctx) (e : Env PKey) where
  note_sent-Counted :
      (s : Session) (r : Option (Unit {0}) × World)
      → Counted s (note_sent c e (record s { send_seq = (s.send_seq + 1) % 2 ^ 64 }) r).0
  unfolding note_sent
  note_sent-Counted s (none, w) = record {
    keeps = record { active = refl; addr = refl; session_key = refl; routes = refl };
    count = refl;
  }
  note_sent-Counted s (some _, w) = record {
    keeps = record { active = refl; addr = refl; session_key = refl; routes = refl };
    count = refl;
  }

  pub forward_to_peer-Counted :
      (s : Session) (payload : Bytes) (w : World) → Counted s (forward_to_peer c e s payload w).0
  unfolding forward_to_peer
  forward_to_peer-Counted s payload w =
      elim (Option-cases (encrypt_packet c e s.session_key (framed s.send_seq payload) w).0) [
        | inl fails ↦
            rw (fails, forward_to_peer)
              (record {
                keeps = record { active = refl; addr = refl; session_key = refl; routes = refl };
                count = refl;
              })
        | inr (wire, sealed) ↦ rw (sealed, forward_to_peer) (note_sent-Counted s _)
      ]

  module _ (reliable : IsReliable e) (seals : Seals c) where
    encrypts :
        (key plain : Bytes) (w : World)
        → (wire : Bytes) × ((encrypt_packet c e key plain w).0 ≡ some wire)
          × ((encrypt_packet c e key plain w).1.sent ≡ w.sent)
    unfolding encrypt_packet
    encrypts key plain w =
        let (iv, drawn) = reliable.rand_bytes-some w.calls 12 in
        let ((ct, tag), sealed) = seals key iv plain in
        (iv ++ (ct ++ tag), rw (drawn, sealed), rw (drawn, sealed))

    passes_on :
        (s : Session) (wire : Bytes) (v : World)
        → (note_sent c e s (sendto e s.addr wire v)).1.sent
          ≡ record { to = s.addr; bytes = wire } ∷ v.sent
    unfolding note_sent sendto
    passes_on s wire v = rw (reliable.sendto_ok-true v.calls, sendto, note_sent)

    -- Then a packet that is to be sent is sent.
    pub forward_to_peer-sends :
        (s : Session) (payload : Bytes) (w : World)
        → (d : Datagram) × ((forward_to_peer c e s payload w).1.sent ≡ d ∷ w.sent)
    unfolding forward_to_peer
    forward_to_peer-sends s payload w =
        let (wire, sealed, quiet) = encrypts s.session_key (framed s.send_seq payload) w in
        let counted : Session = record s { send_seq = (s.send_seq + 1) % 2 ^ 64 } in
        let v = (encrypt_packet c e s.session_key (framed s.send_seq payload) w).1 in
        (
          record { to = s.addr; bytes = wire },
          rw (sealed, forward_to_peer)
              (passes_on counted wire v ∙ ap (◌∷◌ (record { to = s.addr; bytes = wire })) quiet),
        )
