-- ===== src/Tunnel/Able.antt =====
-- A handshake (src/common.c) between two peers whose surroundings refuse nothing.
use lane_cove_tunnel.Prelude.{◌≡◌, refl, none, Option, some, ◌++◌, replicate}
use lane_cove_tunnel.Prelude.Bytes.{Bytes}
use lane_cove_tunnel.Crypto.{Crypto, IsCrypto}
use lane_cove_tunnel.World.{Env, World, Addr, sendto}
use lane_cove_tunnel.Handshake.{
  x25519_shared_secret, derive_session_key, encrypt_identity, append_mac, compute_hmac,
}
use lane_cove_tunnel.Handshake.Client.{HsClientState, generate_eph_keypair, handshake_client_send}
use lane_cove_tunnel.Handshake.Server.{handshake_server_respond}
use lane_cove_tunnel.Handshake.Agreement.{Read}
use lane_cove_tunnel.Tunnel.Send.{IsReliable, Seals}

-- The calls of libcrypto do not fail.
pub record IsAble {PKey Ctx : Type 0} (c : Crypto PKey Ctx) : Type 0 where
  pub seals : Seals c
  pub hmac-some : (key msg : Bytes) → (mac : Bytes) × (c.hmac key msg ≡ some mac)
  pub raw_public_key-some : (key : PKey) → (raw : Bytes) × (c.raw_public_key key ≡ some raw)
  pub derive-some :
      (key : PKey) (peer : c.Public) → (secret : Bytes) × (c.derive key peer ≡ some secret)

module _ {PKey Ctx : Type 0} (c : Crypto PKey Ctx) (ok : IsCrypto c) (able : IsAble c) where
  x25519-some :
      (key peer : PKey) (raw : Bytes)
      → c.raw_public_key peer ≡ some raw
      → (secret : Bytes) × (x25519_shared_secret c key raw ≡ some secret)
  unfolding x25519_shared_secret
  x25519-some key peer raw known =
      let (loaded, loads) = ok.new_raw_public_key-raw_public_key peer {r = raw} known in
      let (secret, derives) = able.derive-some key loaded in (secret, rw (loads, derives))

  pub encrypt_identity-some :
      (secret static_pub : Bytes)
      → (enc : Bytes) × (encrypt_identity c secret static_pub ≡ some enc)
  unfolding encrypt_identity
  encrypt_identity-some secret static_pub =
      let ((ct, tag), sealed) = able.seals (c.sha256 secret) (replicate 12 0) static_pub in
      (ct ++ tag, rw sealed)

  pub append_mac-some :
      (psk : Option Bytes) (body : Bytes) → (mac : Bytes) × (append_mac c psk body ≡ some mac)
  unfolding append_mac compute_hmac
  append_mac-some none body = (_, refl)
  append_mac-some (some psk) body = able.hmac-some psk body

  module _ (e : Env PKey) (reliable : IsReliable e) where
    pub client_sends :
        (to : Addr) (psk : Option Bytes) (static_pub server_pub : Bytes) (server_key : PKey)
        (w : World)
        → c.raw_public_key server_key ≡ some server_pub
        → (st : HsClientState PKey) × ((handshake_client_send c e to psk static_pub
              (some server_pub)
              w).0
            ≡ some st)
    unfolding handshake_client_send generate_eph_keypair sendto
    client_sends to psk static_pub server_pub server_key w known =
        let (key, drawn) = reliable.keygen-some w.calls in
        let (eph_pub, own) = able.raw_public_key-some key in
        let (ss, secret) = x25519-some key server_key server_pub known in
        let (enc, encrypted) = encrypt_identity-some ss static_pub in
        let (mac, authentic) = append_mac-some psk (eph_pub ++ enc) in
        (
          record { eph_key = some key; eph_pub = eph_pub; ecdh_ec_ss = ss },
          rw (drawn, own, secret, encrypted, authentic, sendto, reliable.sendto_ok-true),
        )

    -- The server answers what it reads.
    pub server_responds :
        (pkt : Bytes) (to : Addr) (psk : Option Bytes) (static_key eph_key client_key key : PKey)
        (static_pub eph_pub client_pub client_eph secret : Bytes) (w : World)
        → Read c ok secret client_pub psk client_eph pkt
        → c.raw_public_key client_key ≡ some client_pub
        → c.raw_public_key key ≡ some client_eph
        → x25519_shared_secret c static_key client_eph ≡ some secret
        → (result : Bytes × Bytes) × ((handshake_server_respond c e pkt to psk static_key static_pub
              (some eph_key)
              eph_pub
              w).0
            ≡ some result)
    unfolding handshake_server_respond sendto
    server_responds pkt to psk static_key eph_key client_key key static_pub eph_pub client_pub
          client_eph secret w r known ephemeral shared =
        let (ee, eph_secret) = x25519-some eph_key key client_eph ephemeral in
        let (enc, encrypted) = encrypt_identity-some ee static_pub in
        let (mac, authentic) = append_mac-some psk (eph_pub ++ enc) in
        let (sc, static_secret) = x25519-some eph_key client_key client_pub known in
        (
          (client_pub, derive_session_key c ee sc secret client_eph eph_pub client_pub static_pub),
          rw (
            r.sized, r.magic, r.checked, r.ephemeral, shared, r.identity, eph_secret, encrypted,
            authentic, sendto, reliable.sendto_ok-true, static_secret,
          ),
        )
