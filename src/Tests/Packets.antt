-- ===== src/Tests/Packets.antt =====
-- Packets and handshakes.
use lane_cove_tunnel.Prelude.{
  ℕ, ◌+◌, ◌≡◌, refl, Option, some, none, List, [], ◌∷◌, length, replicate, arith,
}
use lane_cove_tunnel.Prelude.Bytes.{Bytes, bytes_eq}
use lane_cove_tunnel.Crypto.{seal, unseal}
use lane_cove_tunnel.World.{Addr, World, Datagram, sendto}
use lane_cove_tunnel.Packet.{encrypt_packet, decrypt_packet, crypto_overhead}
use lane_cove_tunnel.Packet.RoundTrip.{decrypt_packet-encrypt_packet}
use lane_cove_tunnel.Handshake.{
  derive_key, x25519_shared_secret, compute_hmac, encrypt_identity, decrypt_identity, append_mac,
  check_mac, eph_pub_of, enc_static_of,
}
use lane_cove_tunnel.Handshake.Client.{HsClientState, generate_eph_keypair, handshake_client_send}
use lane_cove_tunnel.Handshake.Client.Recv.{handshake_client_recv}
use lane_cove_tunnel.Handshake.Server.{handshake_server_respond}
use lane_cove_tunnel.Handshake.Agreement.{handshake_agrees}
use lane_cove_tunnel.Handshake.Safety.{
  IsAuthentic, handshake_server_respond-forged, handshake_client_recv-pinned,
}
use lane_cove_tunnel.Tests.Toy.{toy, toy-IsCrypto, toy_env, toy_env-IsEnv, start}

abbrev the {ℓ} : {A : Type ℓ} → A → Option A → A
the d none = d
the d (some a) = a

abbrev bytes_of : List Datagram → Bytes
bytes_of [] = []
bytes_of (d ∷ ds) = d.bytes

abbrev key : Bytes
key = replicate 32 9

abbrev plain : Bytes
plain = 1 ∷ 2 ∷ 3 ∷ []

abbrev wire : Bytes
wire = the [] (encrypt_packet toy toy_env key plain start).0

encrypts :
    encrypt_packet toy toy_env key plain start
    ≡ (some wire, (encrypt_packet toy toy_env key plain start).1)
unfolding encrypt_packet seal
encrypts = refl

decrypt_packet-encrypt_packet_example :
    (length wire ≡ length plain + crypto_overhead) × (decrypt_packet toy key wire ≡ some plain)
decrypt_packet-encrypt_packet_example =
    decrypt_packet-encrypt_packet toy toy-IsCrypto toy_env toy_env-IsEnv key plain start
      (encrypt_packet toy toy_env key plain start).1 {out = wire} encrypts

-- A client with key 3, a server with key 5, and its ephemeral key 7.
abbrev psk : Option Bytes
psk = some (1 ∷ 2 ∷ [])

abbrev pub_of : ℕ → Bytes
pub_of k = replicate 32 k

abbrev server_addr : Addr
server_addr = record { ip = 1; port = 5040 }

abbrev client_addr : Addr
client_addr = record { ip = 2; port = 5040 }

abbrev asked : Option (HsClientState ℕ) × World
asked = handshake_client_send toy toy_env server_addr psk (pub_of 3) (some (pub_of 5)) start

abbrev no_state : HsClientState ℕ
no_state = record { eph_key = none; eph_pub = []; ecdh_ec_ss = [] }

abbrev state : HsClientState ℕ
state = the no_state asked.0

abbrev request : Bytes
request = bytes_of asked.1.sent

abbrev answered : Option (Bytes × Bytes) × World
answered =
    handshake_server_respond toy toy_env request client_addr psk 5 (pub_of 5) (some 7) (pub_of 7)
      start

abbrev response : Bytes
response = bytes_of answered.1.sent

abbrev agreed : Bytes × Bytes
agreed = the ([], []) answered.0

asks : asked ≡ (some state, asked.1)
unfolding handshake_client_send generate_eph_keypair x25519_shared_secret encrypt_identity
    append_mac compute_hmac derive_key seal sendto
asks = refl

requested : asked.1.sent ≡ record { to = server_addr; bytes = request } ∷ start.sent
unfolding handshake_client_send generate_eph_keypair x25519_shared_secret encrypt_identity
    append_mac compute_hmac derive_key seal sendto
requested = refl

answers : answered ≡ (some agreed, answered.1)
unfolding handshake_client_send generate_eph_keypair x25519_shared_secret encrypt_identity
    append_mac compute_hmac derive_key seal sendto handshake_server_respond decrypt_identity
    check_mac unseal bytes_eq
answers = refl

responded : answered.1.sent ≡ record { to = client_addr; bytes = response } ∷ start.sent
unfolding handshake_client_send generate_eph_keypair x25519_shared_secret encrypt_identity
    append_mac compute_hmac derive_key seal sendto handshake_server_respond decrypt_identity
    check_mac unseal bytes_eq
responded = refl

handshake_agrees_example :
    (agreed.0 ≡ pub_of 3)
    × (handshake_client_recv toy response psk 3 (pub_of 3) (pub_of 5) state
        ≡ (some agreed.1, record state { eph_key = none }))
handshake_agrees_example =
    handshake_agrees toy toy-IsCrypto toy_env toy_env server_addr client_addr psk 3 5 7 (pub_of 3)
      (pub_of 5) (pub_of 7) start asked.1 start answered.1 state request response agreed refl refl
      refl asks requested answers responded

accepts :
    handshake_client_recv toy response psk 3 (pub_of 3) (pub_of 5) state
    ≡ (some agreed.1, record state { eph_key = none })
accepts =
    (handshake_agrees toy toy-IsCrypto toy_env toy_env server_addr client_addr psk 3 5 7 (pub_of 3)
      (pub_of 5) (pub_of 7) start asked.1 start answered.1 state request response agreed refl refl
      refl asks requested answers responded).1

handshake_client_recv-pinned_example :
    IsAuthentic toy psk response
    × ((eph_key : ℕ) × (secret : Bytes) × (state.eph_key ≡ some eph_key)
        × (x25519_shared_secret toy eph_key (eph_pub_of response) ≡ some secret)
        × (decrypt_identity toy secret (enc_static_of response) ≡ some (pub_of 5)))
handshake_client_recv-pinned_example =
    handshake_client_recv-pinned toy response psk 3 (pub_of 3) (pub_of 5) agreed.1 state
      (record state { eph_key = none }) accepts

too_short : ¬ IsAuthentic toy psk plain
too_short h = absurd (omega (arith, h.size))

handshake_server_respond-forged_example :
    handshake_server_respond toy toy_env plain client_addr psk 5
      (pub_of 5)
      (some 7)
      (pub_of 7)
      start
    ≡ (none, start)
handshake_server_respond-forged_example =
    handshake_server_respond-forged toy toy_env plain client_addr psk 5 (pub_of 5) (some 7)
      (pub_of 7) start too_short
