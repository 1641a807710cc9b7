-- ===== src/Handshake/Client/Recv.antt =====
-- `handshake_client_recv` of src/common.c.
use lane_cove_tunnel.Prelude.{Option, none, some, ◌==◌, length, take}
use lane_cove_tunnel.Prelude.Bytes.{Bytes, bytes_eq}
use lane_cove_tunnel.Prelude.Partial.{◌>>=◌, ◌>>◌, guard}
use lane_cove_tunnel.Crypto.{Crypto}
use lane_cove_tunnel.Handshake.{
  pkt_header, header_size, hs_size, eph_pub_of, enc_static_of, x25519_shared_secret,
  derive_session_key, decrypt_identity, check_mac,
}
use lane_cove_tunnel.Handshake.Client.{HsClientState}

module _ {PKey Ctx : Type 0} (c : Crypto PKey Ctx) where
  -- The session key, or an early return.
  unfoldable pub client_session_key :
      Bytes → Option Bytes → PKey → Bytes → Bytes → HsClientState PKey → Option Bytes
  client_session_key resp psk_key static_key static_pub server_static_pub state = do
    guard (length resp == hs_size psk_key)
    guard (bytes_eq (take header_size resp) pkt_header)
    check_mac c psk_key resp
    eph_key ← state.eph_key
    ecdh_eph ← x25519_shared_secret c eph_key (eph_pub_of resp)
    server_static_pub_recv ← decrypt_identity c ecdh_eph (enc_static_of resp)
    guard (bytes_eq server_static_pub_recv server_static_pub)
    ecdh_sc_es ← x25519_shared_secret c static_key (eph_pub_of resp)
    some (
        derive_session_key c ecdh_eph ecdh_sc_es state.ecdh_ec_ss state.eph_pub (eph_pub_of resp)
          static_pub server_static_pub_recv)

  -- Success frees the ephemeral key; a failure leaves the state as it was.
  unfoldable pub handshake_client_recv :
      Bytes
      → Option Bytes
      → PKey
      → Bytes
      → Bytes
      → HsClientState PKey
      → Option Bytes × HsClientState PKey
  handshake_client_recv resp psk_key static_key static_pub server_static_pub state =
      elim (client_session_key resp psk_key static_key static_pub server_static_pub state) [
        | none ↦ (none, state)
        | some key ↦ (some key, record state { eph_key = none })
      ]
