-- ===== src/Handshake/Sent.antt =====
-- What the two senders of a handshake have done when they succeed.
use lane_cove_tunnel.Prelude.{
  ◌≡◌, refl, Option, some, List, ◌∷◌, ◌++◌, true, length, take, ◌==◌, arith,
}
use lane_cove_tunnel.Prelude.Bytes.{Bytes, bytes_eq}
use lane_cove_tunnel.Prelude.Partial.{guard, guard-eq-some}
use lane_cove_tunnel.Crypto.{Crypto}
use lane_cove_tunnel.World.{
  Env, World, Addr, Datagram, after-eq-some, lift-eq-some, sendto-eq-some, pure-eq-some,
}
use lane_cove_tunnel.Handshake.{
  pkt_header, header_size, hs_size, eph_pub_of, enc_static_of, x25519_shared_secret,
  derive_session_key, encrypt_identity, decrypt_identity, append_mac, check_mac,
}
use lane_cove_tunnel.Handshake.Wire.{packet}
use lane_cove_tunnel.Handshake.Client.{HsClientState, generate_eph_keypair, handshake_client_send}
use lane_cove_tunnel.Handshake.Server.{handshake_server_respond}

module _ {PKey Ctx : Type 0} (c : Crypto PKey Ctx) where
  -- What a packet that was sent holds, for whoever sent it: the sender's ephemeral public key, and
  -- its static one under a shared secret.
  pub record Sent (secret static_pub : Bytes) (psk : Option Bytes) (eph_pub pkt : Bytes)
      : Type 0 where
    pub enc : Bytes
    pub mac : Bytes
    pub encrypted : encrypt_identity c secret static_pub ≡ some enc
    pub authentic : append_mac c psk (eph_pub ++ enc) ≡ some mac
    pub layout : pkt ≡ packet eph_pub enc mac

  -- What a client that has sent its packet knows.
  pub record ClientSent (to : Addr) (psk : Option Bytes) (static_pub server_pub : Bytes)
      (st : HsClientState PKey) (before after : List Datagram) : Type 0 where
    pub key : PKey
    pub pkt : Bytes
    pub own_key : st.eph_key ≡ some key
    pub own_pub : c.raw_public_key key ≡ some st.eph_pub
    pub secret : x25519_shared_secret c key server_pub ≡ some st.ecdh_ec_ss
    pub sent : Sent st.ecdh_ec_ss static_pub psk st.eph_pub pkt
    pub delivered : after ≡ record { to = to; bytes = pkt } ∷ before

  keypair-made :
      (e : Env PKey) (w v : World) (key : PKey) (eph_pub : Bytes)
      → generate_eph_keypair c e w ≡ (some (key, eph_pub), v)
      → (c.raw_public_key key ≡ some eph_pub) × (v.sent ≡ w.sent)
  unfolding generate_eph_keypair
  keypair-made e w v key eph_pub h = ground arith

  pub client_sent :
      (e : Env PKey) (to : Addr) (psk : Option Bytes) (static_pub server_pub : Bytes) (w w' : World)
      {st : HsClientState PKey}
      → handshake_client_send c e to psk static_pub (some server_pub) w ≡ (some st, w')
      → ClientSent to psk static_pub server_pub st w.sent w'.sent
  unfolding handshake_client_send
  client_sent e to psk static_pub server_pub w w' {st} h =
      after-eq-some (generate_eph_keypair c e w) _ h λ (key, eph_pub) v made h₁.
        lift-eq-some (x25519_shared_secret c key server_pub) _ v h₁ λ ss secret h₂.
          lift-eq-some (encrypt_identity c ss static_pub) _ v h₂ λ enc encrypted h₃.
            lift-eq-some (append_mac c psk (eph_pub ++ enc)) _ v h₃ λ mac authentic h₄.
              sendto-eq-some e to (packet eph_pub enc mac) _ v h₄ λ u delivered h₅.
                let own = keypair-made e w v key eph_pub made in
                record {
                  key = key;
                  pkt = packet eph_pub enc mac;
                  own_key = cc h₅;
                  own_pub = cc (own.0, h₅);
                  secret = cc (secret, h₅);
                  sent = record {
                    enc = enc;
                    mac = mac;
                    encrypted = cc (encrypted, h₅);
                    authentic = cc (authentic, h₅);
                    layout = cc h₅;
                  };
                  delivered = cc (delivered, own.1, h₅);
                }

  -- What a server that has answered `pkt` knows.
  pub record ServerSent (pkt : Bytes) (to : Addr) (psk : Option Bytes) (static_key : PKey)
      (static_pub : Bytes) (eph_key : PKey) (eph_pub : Bytes) (result : Bytes × Bytes)
      (before after : List Datagram) : Type 0 where
    pub resp : Bytes
    pub ecdh_ec_ss : Bytes
    pub ecdh_eph : Bytes
    pub ecdh_sc_es : Bytes
    pub sized : (length pkt == hs_size psk) ≡ true
    pub magic : bytes_eq (take header_size pkt) pkt_header ≡ true
    pub checked : check_mac c psk pkt ≡ some tt
    pub client_secret : x25519_shared_secret c static_key (eph_pub_of pkt) ≡ some ecdh_ec_ss
    pub client_identity : decrypt_identity c ecdh_ec_ss (enc_static_of pkt) ≡ some result.0
    pub eph_secret : x25519_shared_secret c eph_key (eph_pub_of pkt) ≡ some ecdh_eph
    pub sent : Sent ecdh_eph static_pub psk eph_pub resp
    pub delivered : after ≡ record { to = to; bytes = resp } ∷ before
    pub static_secret : x25519_shared_secret c eph_key result.0 ≡ some ecdh_sc_es
    pub session :
        derive_session_key c ecdh_eph ecdh_sc_es ecdh_ec_ss
          (eph_pub_of pkt)
          eph_pub
          result.0
          static_pub
        ≡ result.1

  pub server_sent :
      (e : Env PKey) (pkt : Bytes) (to : Addr) (psk : Option Bytes) (static_key : PKey)
      (static_pub : Bytes) (eph_key : PKey) (eph_pub : Bytes) (w w' : World)
      {result : Bytes × Bytes}
      → handshake_server_respond c e pkt to psk static_key static_pub (some eph_key) eph_pub w
        ≡ (some result, w')
      → ServerSent pkt to psk static_key static_pub eph_key eph_pub result w.sent w'.sent
  unfolding handshake_server_respond
  server_sent e pkt to psk static_key static_pub eph_key eph_pub w w' {result} h =
      lift-eq-some (guard (length pkt == hs_size psk)) _ w h λ _ sized h₁.
        lift-eq-some (guard (bytes_eq (take header_size pkt) pkt_header)) _ w h₁ λ _ magic h₂.
          lift-eq-some (check_mac c psk pkt) _ w h₂ λ _ checked h₃.
            lift-eq-some (x25519_shared_secret c static_key (eph_pub_of pkt)) _ w h₃
              λ ss client_secret h₄.
                lift-eq-some (decrypt_identity c ss (enc_static_of pkt)) _ w h₄
                  λ cpub client_identity h₅.
                    lift-eq-some (x25519_shared_secret c eph_key (eph_pub_of pkt)) _ w h₅
                      λ ee eph_secret h₆.
                        lift-eq-some (encrypt_identity c ee static_pub) _ w h₆ λ enc encrypted h₇.
                          lift-eq-some (append_mac c psk (eph_pub ++ enc)) _ w h₇
                            λ mac authentic h₈.
                              sendto-eq-some e to (packet eph_pub enc mac) _ w h₈ λ u delivered h₉.
                                lift-eq-some (x25519_shared_secret c eph_key cpub) _ u h₉
                                  λ sc static_secret done.
                                    let (same_result, same_world) =
                                      pure-eq-some _ result u w' done in
                                    rw (← same_result, ← same_world)
                                      (record {
                                        resp = packet eph_pub enc mac;
                                        ecdh_ec_ss = ss;
                                        ecdh_eph = ee;
                                        ecdh_sc_es = sc;
                                        sized = guard-eq-some _ sized;
                                        magic = guard-eq-some _ magic;
                                        checked = checked;
                                        client_secret = client_secret;
                                        client_identity = client_identity;
                                        eph_secret = eph_secret;
                                        sent = record {
                                          enc = enc;
                                          mac = mac;
                                          encrypted = encrypted;
                                          authentic = authentic;
                                          layout = refl;
                                        };
                                        delivered = delivered;
                                        static_secret = static_secret;
                                        session = refl;
                                      })
