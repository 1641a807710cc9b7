-- ===== src/Handshake/Agreement.antt =====
-- The two sides of a handshake (src/common.c) together.
use lane_cove_tunnel.Prelude.{
  ◌≡◌, ◌∙◌, Option, none, some, List, ◌∷◌, ◌++◌, true, length, take, ◌==◌, arith,
}
use lane_cove_tunnel.Prelude.Bytes.{Bytes, bytes_eq, bytes_eq_refl}
use lane_cove_tunnel.Crypto.{Crypto, IsCrypto}
use lane_cove_tunnel.World.{Env, World, Addr, Datagram}
use lane_cove_tunnel.Handshake.{
  pkt_header, header_size, hs_size, eph_pub_of, enc_static_of, x25519_shared_secret,
  derive_session_key, decrypt_identity, check_mac,
}
use lane_cove_tunnel.Handshake.Wire.{
  length-packet, eph_pub_of-packet, enc_static_of-packet, check_mac-packet, length-append_mac,
  length-encrypt_identity, decrypt_identity-encrypt_identity,
}
use lane_cove_tunnel.Handshake.Client.{HsClientState, handshake_client_send}
use lane_cove_tunnel.Handshake.Client.Recv.{client_session_key, handshake_client_recv}
use lane_cove_tunnel.Handshake.Server.{handshake_server_respond}
use lane_cove_tunnel.Handshake.Sent.{Sent, ClientSent, client_sent, ServerSent, server_sent}

module _ {PKey Ctx : Type 0} (c : Crypto PKey Ctx) (ok : IsCrypto c) where
  -- Either side may hold the private key.
  pub x25519_comm :
      (a b : PKey) {ra rb : Bytes}
      → c.raw_public_key a ≡ some ra
      → c.raw_public_key b ≡ some rb
      → x25519_shared_secret c a rb ≡ x25519_shared_secret c b ra
  unfolding x25519_shared_secret
  x25519_comm a b {ra} {rb} ha hb =
      let (pa, la) = ok.new_raw_public_key-raw_public_key a ha in
      let (pb, lb) = ok.new_raw_public_key-raw_public_key b hb in
      rw (la, lb) (ok.derive_comm a b pa pb ha hb la lb)

  -- What a receiver finds in a packet that was sent with a 32-byte key.
  pub record Read (secret static_pub : Bytes) (psk : Option Bytes) (eph_pub pkt : Bytes)
      : Type 0 where
    pub sized : (length pkt == hs_size psk) ≡ true
    pub magic : bytes_eq (take header_size pkt) pkt_header ≡ true
    pub checked : check_mac c psk pkt ≡ some tt
    pub ephemeral : eph_pub_of pkt ≡ eph_pub
    pub identity : decrypt_identity c secret (enc_static_of pkt) ≡ some static_pub

  Sent-Read :
      (secret static_pub : Bytes) (psk : Option Bytes) (eph_pub pkt : Bytes)
      → length eph_pub ≡ 32
      → length static_pub ≡ 32
      → Sent c secret static_pub psk eph_pub pkt
      → Read secret static_pub psk eph_pub pkt
  Sent-Read secret static_pub psk eph_pub pkt hp hs s =
      let he : length s.enc ≡ 48 =
        omega (arith, hs, length-encrypt_identity c ok secret static_pub s.encrypted) in
      let hm = length-append_mac c ok psk (eph_pub ++ s.enc) s.authentic in
      rw s.layout (record {
        sized = length-packet eph_pub s.enc s.mac hp he psk hm;
        magic = bytes_eq_refl pkt_header;
        checked = check_mac-packet c ok psk eph_pub s.enc hp he s.authentic;
        ephemeral = eph_pub_of-packet eph_pub s.enc s.mac hp he;
        identity =
            rw (enc_static_of-packet eph_pub s.enc s.mac hp he)
              (decrypt_identity-encrypt_identity c ok secret static_pub hs s.encrypted);
      })

  -- A server's view of the packet that a client has sent.
  pub ClientSent-Read :
      (server_addr : Addr) (psk : Option Bytes) (client_key : PKey) (client_pub server_pub : Bytes)
      (st : HsClientState PKey) (before after : List Datagram)
      → c.raw_public_key client_key ≡ some client_pub
      → (a : ClientSent c server_addr psk client_pub server_pub st before after)
      → Read st.ecdh_ec_ss client_pub psk st.eph_pub a.pkt
  ClientSent-Read server_addr psk client_key client_pub server_pub st before after kc a =
      Sent-Read st.ecdh_ec_ss client_pub psk st.eph_pub a.pkt
        (ok.length-raw_public_key a.key a.own_pub) (ok.length-raw_public_key client_key kc) a.sent

  received :
      (resp : Bytes) (psk : Option Bytes) (client_key key : PKey)
      (client_pub server_pub eph_pub : Bytes) (st : HsClientState PKey) (ee sc : Bytes)
      → Read ee server_pub psk eph_pub resp
      → st.eph_key ≡ some key
      → x25519_shared_secret c key eph_pub ≡ some ee
      → x25519_shared_secret c client_key eph_pub ≡ some sc
      → client_session_key c resp psk client_key client_pub server_pub st
        ≡ some (derive_session_key c ee sc st.ecdh_ec_ss st.eph_pub eph_pub client_pub server_pub)
  unfolding client_session_key
  received resp psk client_key key client_pub server_pub eph_pub st ee sc r own dh_eph dh_static =
      rw (
        r.sized,
        r.magic,
        r.checked,
        own,
        r.ephemeral,
        dh_eph,
        r.identity,
        bytes_eq_refl server_pub,
        dh_static,
      )

  -- The same, for the packet that a server sent: its secrets are the client's.
  module _ (server_addr client_addr : Addr) (psk : Option Bytes)
      (client_key server_key eph_key : PKey) (client_pub server_pub eph_pub : Bytes)
      (st : HsClientState PKey) (pkt : Bytes) (result : Bytes × Bytes)
      (kc : c.raw_public_key client_key ≡ some client_pub)
      (ks : c.raw_public_key server_key ≡ some server_pub)
      (ke : c.raw_public_key eph_key ≡ some eph_pub) (before after before' after' : List Datagram)
      (a : ClientSent c server_addr psk client_pub server_pub st before after)
      (b : ServerSent c pkt client_addr psk server_key server_pub eph_key eph_pub result before'
        after')
      (arrives : a.pkt ≡ pkt) where
    first-Read : Read st.ecdh_ec_ss client_pub psk st.eph_pub pkt
    first-Read =
        rw (← arrives)
          (ClientSent-Read server_addr psk client_key client_pub server_pub st before after kc a)

    same_secret : b.ecdh_ec_ss ≡ st.ecdh_ec_ss
    same_secret =
        cc (
          b.client_secret,
          first-Read.ephemeral,
          x25519_comm server_key a.key ks a.own_pub,
          a.secret,
        )

    same_identity : result.0 ≡ client_pub
    same_identity = cc (b.client_identity, same_secret, first-Read.identity)

    accepted :
        client_session_key c b.resp psk client_key client_pub server_pub st
        ≡ some (
            derive_session_key c b.ecdh_eph b.ecdh_sc_es st.ecdh_ec_ss st.eph_pub eph_pub client_pub
              server_pub)
    accepted =
        received b.resp psk client_key a.key client_pub server_pub eph_pub st b.ecdh_eph
          b.ecdh_sc_es
          (Sent-Read b.ecdh_eph server_pub psk eph_pub b.resp (ok.length-raw_public_key eph_key ke)
            (ok.length-raw_public_key server_key ks) b.sent)
          a.own_key
          (x25519_comm a.key eph_key a.own_pub ke ∙ cc (b.eph_secret, first-Read.ephemeral))
          (x25519_comm client_key eph_key kc ke ∙ cc (b.static_secret, same_identity))

    same_session :
        derive_session_key c b.ecdh_eph b.ecdh_sc_es st.ecdh_ec_ss st.eph_pub eph_pub client_pub
          server_pub
        ≡ result.1
    same_session = rw (← same_secret, ← first-Read.ephemeral, ← same_identity) b.session

    -- What the client then makes of the server's packet.
    pub agreed :
        (result.0 ≡ client_pub)
        × (handshake_client_recv c b.resp psk client_key client_pub server_pub st
            ≡ (some result.1, record st { eph_key = none }))
    unfolding handshake_client_recv
    agreed = (same_identity, rw (accepted, handshake_client_recv) (rw same_session))

  -- Two ends that hold each other's static public key, one pre-shared key or none, whose calls that
  -- send succeed and whose packets arrive: the server reads the client's true identity, and the
  -- client accepts the answer, comes to the server's session key and frees its ephemeral key.
  pub handshake_agrees :
      (e e' : Env PKey) (server_addr client_addr : Addr) (psk : Option Bytes)
      (client_key server_key eph_key : PKey) (client_pub server_pub eph_pub : Bytes)
      (w w' v v' : World) (st : HsClientState PKey) (pkt resp : Bytes) (result : Bytes × Bytes)
      → c.raw_public_key client_key ≡ some client_pub
      → c.raw_public_key server_key ≡ some server_pub
      → c.raw_public_key eph_key ≡ some eph_pub
      → handshake_client_send c e server_addr psk client_pub (some server_pub) w ≡ (some st, w')
      → w'.sent ≡ record { to = server_addr; bytes = pkt } ∷ w.sent
      → handshake_server_respond c e' pkt client_addr psk server_key server_pub
          (some eph_key)
          eph_pub
          v
        ≡ (some result, v')
      → v'.sent ≡ record { to = client_addr; bytes = resp } ∷ v.sent
      → (result.0 ≡ client_pub)
        × (handshake_client_recv c resp psk client_key client_pub server_pub st
            ≡ (some result.1, record st { eph_key = none }))
  handshake_agrees e e' server_addr client_addr psk client_key server_key eph_key client_pub
        server_pub eph_pub w w' v v' st pkt resp result kc ks ke sends arrives answers returns =
      let a = client_sent c e server_addr psk client_pub server_pub w w' sends in
      let b =
        server_sent c e' pkt client_addr psk server_key server_pub eph_key eph_pub v v' answers in
      let there : a.pkt ≡ pkt = cc (a.delivered, arrives) in
      let back : b.resp ≡ resp = cc (b.delivered, returns) in
      rw (← back) (
        agreed server_addr client_addr psk client_key server_key eph_key client_pub server_pub
          eph_pub st pkt result kc ks ke w.sent w'.sent v.sent v'.sent a b there)
