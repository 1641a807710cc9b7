-- ===== src/Handshake/Client.antt =====
-- `generate_eph_keypair` and `handshake_client_send` of src/common.c; `Recv` is the other half.
pub mod Recv
use lane_cove_tunnel.Prelude.{ℕ, Option, none, some, ◌++◌, ◌==◌, length}
use lane_cove_tunnel.Prelude.Bytes.{Bytes, bytes_eq}
use lane_cove_tunnel.Prelude.Partial
use lane_cove_tunnel.Prelude.Partial.{guard}
use lane_cove_tunnel.Crypto.{Crypto}
use lane_cove_tunnel.World.{Env, Addr, Act, pure, lift, ◌>>=◌, ◌>>◌, try_ask, sendto}
use lane_cove_tunnel.Handshake.{
  pkt_header, header_size, hs_size, eph_pub_of, enc_static_of, x25519_shared_secret,
  derive_session_key, encrypt_identity, decrypt_identity, append_mac, check_mac,
}

-- hs_client_state_t. `eph_key` is NULL after `EVP_PKEY_free`.
pub record HsClientState (PKey : Type 0) : Type 0 where
  pub eph_key : Option PKey
  pub eph_pub : Bytes
  pub ecdh_ec_ss : Bytes

module _ {PKey Ctx : Type 0} (c : Crypto PKey Ctx) where
  unfoldable pub generate_eph_keypair : Env PKey → Act (PKey × Bytes)
  generate_eph_keypair e = do
    pkey ← try_ask e.keygen
    pub_key ← lift (c.raw_public_key pkey)
    pure (pkey, pub_key)

  -- From the encryption of the identity on.
  unfoldable pub send_identity :
      Env PKey → Addr → Option Bytes → Bytes → PKey → Bytes → Bytes → Act (HsClientState PKey)
  send_identity e server_addr psk_key static_pub eph_key eph_pub ecdh_ec_ss = do
    enc_static ← lift (encrypt_identity c ecdh_ec_ss static_pub)
    mac ← lift (append_mac c psk_key (eph_pub ++ enc_static))
    sendto e server_addr (pkt_header ++ ((eph_pub ++ enc_static) ++ mac))
    pure (record { eph_key = some eph_key; eph_pub = eph_pub; ecdh_ec_ss = ecdh_ec_ss })

  -- From `eph_key` on, for a server whose static public key is there.
  unfoldable pub call_server :
      Env PKey → Addr → Option Bytes → Bytes → Bytes → Act (HsClientState PKey)
  unfolding send_identity
  call_server e server_addr psk_key static_pub server_static_pub = do
    (eph_key, eph_pub) ← generate_eph_keypair e
    ecdh_ec_ss ← lift (x25519_shared_secret c eph_key server_static_pub)
    send_identity e server_addr psk_key static_pub eph_key eph_pub ecdh_ec_ss

  -- `server_static_pub` may be NULL, which is refused. The static private key is not used.
  unfoldable pub handshake_client_send :
      Env PKey → Addr → Option Bytes → Bytes → Option Bytes → Act (HsClientState PKey)
  unfolding call_server
  handshake_client_send e server_addr psk_key static_pub server_static_pub = do
    server_static_pub ← lift server_static_pub
    call_server e server_addr psk_key static_pub server_static_pub
