-- ===== src/Handshake/Server.antt =====
-- `handshake_server_respond` of src/common.c.
use lane_cove_tunnel.Prelude.{Option, ◌++◌, ◌==◌, length, take}
use lane_cove_tunnel.Prelude.Bytes.{Bytes, bytes_eq}
use lane_cove_tunnel.Prelude.Partial.{guard}
use lane_cove_tunnel.Crypto.{Crypto}
use lane_cove_tunnel.World.{Env, Addr, Act, pure, lift, ◌>>=◌, ◌>>◌, sendto}
use lane_cove_tunnel.Handshake.{
  pkt_header, header_size, hs_size, eph_pub_of, enc_static_of, x25519_shared_secret,
  derive_session_key, encrypt_identity, decrypt_identity, append_mac, check_mac,
}

module _ {PKey Ctx : Type 0} (c : Crypto PKey Ctx) where
  -- After the response: `ecdh_sc_es` and the session key.
  unfoldable pub finish_response :
      Bytes → Bytes → PKey → Bytes → Bytes → Bytes → Bytes → Act (Bytes × Bytes)
  finish_response pkt static_pub eph_key eph_pub ecdh_ec_ss ecdh_eph client_static_pub = do
    ecdh_sc_es ← lift (x25519_shared_secret c eph_key client_static_pub)
    pure (
      client_static_pub,
      derive_session_key c ecdh_eph ecdh_sc_es ecdh_ec_ss (eph_pub_of pkt) eph_pub client_static_pub
          static_pub,
    )

  -- From `eph_key` on, for the client that the request names. A precomputed key that is still NULL
  -- fails where it is first used.
  unfoldable pub respond_to_client :
      Env PKey
      → Bytes
      → Addr
      → Option Bytes
      → Bytes
      → Option PKey
      → Bytes
      → Bytes
      → Bytes
      → Act (Bytes × Bytes)
  unfolding finish_response
  respond_to_client e pkt peer_addr psk_key static_pub precomp_eph_key eph_pub ecdh_ec_ss
        client_static_pub =
      do
        eph_key ← lift precomp_eph_key
        ecdh_eph ← lift (x25519_shared_secret c eph_key (eph_pub_of pkt))
        enc_server_static ← lift (encrypt_identity c ecdh_eph static_pub)
        mac ← lift (append_mac c psk_key (eph_pub ++ enc_server_static))
        sendto e peer_addr (pkt_header ++ ((eph_pub ++ enc_server_static) ++ mac))
        finish_response pkt static_pub eph_key eph_pub ecdh_ec_ss ecdh_eph client_static_pub

  -- From `ecdh_ec_ss` on, for a request that passed its checks: who sent it.
  unfoldable pub identify_client :
      Env PKey
      → Bytes
      → Addr
      → Option Bytes
      → PKey
      → Bytes
      → Option PKey
      → Bytes
      → Act (Bytes × Bytes)
  unfolding respond_to_client
  identify_client e pkt peer_addr psk_key static_key static_pub precomp_eph_key eph_pub = do
    ecdh_ec_ss ← lift (x25519_shared_secret c static_key (eph_pub_of pkt))
    client_static_pub ← lift (decrypt_identity c ecdh_ec_ss (enc_static_of pkt))
    respond_to_client e pkt peer_addr psk_key static_pub precomp_eph_key eph_pub ecdh_ec_ss
        client_static_pub

  -- The checks on the request. The result is the client's static public key and
  -- the session key.
  unfoldable pub handshake_server_respond :
      Env PKey
      → Bytes
      → Addr
      → Option Bytes
      → PKey
      → Bytes
      → Option PKey
      → Bytes
      → Act (Bytes × Bytes)
  unfolding identify_client
  handshake_server_respond e pkt peer_addr psk_key static_key static_pub precomp_eph_key eph_pub =
      do
        lift (guard (length pkt == hs_size psk_key))
        lift (guard (bytes_eq (take header_size pkt) pkt_header))
        lift (check_mac c psk_key pkt)
        identify_client e pkt peer_addr psk_key static_key static_pub precomp_eph_key eph_pub
