-- ===== src/Handshake.antt =====
-- The handshake of src/common.c: [8 magic][32 eph_pub][48 encrypted static_pub][32 HMAC]?, the HMAC
-- only with a pre-shared key. Here are the parts that both sides share; `Client`, `Server` and
-- their meeting in `Agreement` are the children.
pub mod Client
pub mod Server
pub mod Wire
pub mod Sent
pub mod Agreement
pub mod Safety
use lane_cove_tunnel.Prelude.{
  ℕ, ◌+◌, Option, none, some, List, [], ◌∷◌, ◌++◌, take, drop, replicate,
}
use lane_cove_tunnel.Prelude.Bytes.{Bytes, bytes_eq}
use lane_cove_tunnel.Prelude.Partial.{◌>>=◌, guard}
use lane_cove_tunnel.Crypto.{Crypto, seal, unseal}

abbrev pub header_size : ℕ
header_size = 8

abbrev pub dh_pubkey_len : ℕ
dh_pubkey_len = 32

-- HS_ENCRYPTED_PUB_LEN
abbrev pub hs_encrypted_pub_len : ℕ
hs_encrypted_pub_len = dh_pubkey_len + 16

abbrev pub hmac_len : ℕ
hmac_len = 32

abbrev pub pkt_header : Bytes
pkt_header = 0xde ∷ 0xad ∷ 0xbe ∷ 0xef ∷ 0xca ∷ 0xfe ∷ 0xba ∷ 0xbe ∷ []

-- The size of a handshake packet: `psk_key ? HMAC_LEN : 0` at its end.
abbrev pub mac_size : Option Bytes → ℕ
mac_size none = 0
mac_size (some psk) = hmac_len

abbrev pub hs_size : Option Bytes → ℕ
hs_size psk = header_size + dh_pubkey_len + hs_encrypted_pub_len + mac_size psk

-- The fields of a handshake packet, by their offsets.
abbrev pub eph_pub_of : Bytes → Bytes
eph_pub_of pkt = take dh_pubkey_len (drop header_size pkt)

abbrev pub enc_static_of : Bytes → Bytes
enc_static_of pkt = take hs_encrypted_pub_len (drop (header_size + dh_pubkey_len) pkt)

-- What the HMAC is over: eph_pub and the encrypted static_pub.
abbrev pub body_of : Bytes → Bytes
body_of pkt = take (dh_pubkey_len + hs_encrypted_pub_len) (drop header_size pkt)

abbrev pub mac_of : Bytes → Bytes
mac_of pkt = take hmac_len (drop (header_size + dh_pubkey_len + hs_encrypted_pub_len) pkt)

abbrev pub zero_iv : Bytes
zero_iv = replicate 12 0

-- `input` of `derive_session_key`, all of whose parts have 32 bytes.
abbrev pub session_key_input : Bytes → Bytes → Bytes → Bytes → Bytes → Bytes → Bytes → Bytes
session_key_input ecdh_eph ecdh_sc_es ecdh_ec_ss client_eph_pub server_eph_pub client_static_pub
      server_static_pub =
    ecdh_eph
    ++ (ecdh_sc_es
        ++ (ecdh_ec_ss
            ++ (client_eph_pub ++ (server_eph_pub ++ (client_static_pub ++ server_static_pub)))))

module _ {PKey Ctx : Type 0} (c : Crypto PKey Ctx) where
  unfoldable pub derive_key : Bytes → Bytes
  derive_key psk = c.sha256 psk

  unfoldable pub x25519_shared_secret : PKey → Bytes → Option Bytes
  x25519_shared_secret my_key peer_pub = do
    peer_key ← c.new_raw_public_key peer_pub
    c.derive my_key peer_key

  unfoldable pub derive_session_key : Bytes → Bytes → Bytes → Bytes → Bytes → Bytes → Bytes → Bytes
  derive_session_key ecdh_eph ecdh_sc_es ecdh_ec_ss client_eph_pub server_eph_pub client_static_pub
        server_static_pub =
      c.sha256 (
        session_key_input ecdh_eph ecdh_sc_es ecdh_ec_ss client_eph_pub server_eph_pub
          client_static_pub server_static_pub)

  unfoldable pub compute_hmac : Bytes → Bytes → Option Bytes
  compute_hmac psk_key msg = c.hmac psk_key msg

  -- `key` and `iv` of the two functions that follow: the key is fresh in each handshake.
  abbrev pub identity_key : Bytes → Bytes
  identity_key key_material = c.sha256 key_material

  unfoldable pub encrypt_identity : Bytes → Bytes → Option Bytes
  encrypt_identity key_material pub_key = do
    (ciphertext, tag) ← seal c (identity_key key_material) zero_iv pub_key
    some (ciphertext ++ tag)

  unfoldable pub decrypt_identity : Bytes → Bytes → Option Bytes
  decrypt_identity key_material input =
      unseal c (identity_key key_material) zero_iv (take dh_pubkey_len input)
        (take 16 (drop dh_pubkey_len input))

  -- `if (psk_key) { ... }` of the two senders: the HMAC behind the packet, if there is a key.
  unfoldable pub append_mac : Option Bytes → Bytes → Option Bytes
  append_mac none body = some []
  append_mac (some psk) body = compute_hmac psk body

  -- `if (psk_key) { ... }` of the two receivers.
  unfoldable pub check_mac : Option Bytes → Bytes → Option (Unit {0})
  check_mac none pkt = some tt
  check_mac (some psk) pkt = do
    expected_hmac ← compute_hmac psk (body_of pkt)
    guard (bytes_eq (mac_of pkt) expected_hmac)
