-- ===== src/Common.antt =====
-- What src/common.h declares for src/peer.c, and what the functions of src/common.c promise two peers
-- that call them, without a word of how they are made.
use lane_cove_tunnel.Prelude.{ℕ, ◌+◌, ◌≡◌, Option, some, ◌∷◌, length}
use lane_cove_tunnel.Prelude.Bytes.{Bytes, IsBytes}
use lane_cove_tunnel.Crypto.{Crypto, IsCrypto}
use lane_cove_tunnel.World.{Env, IsEnv, Act, World, Addr}
use lane_cove_tunnel.Hex.{bytes_to_hex, hex_to_bytes}
use lane_cove_tunnel.Hex.RoundTrip.{hex_to_bytes-bytes_to_hex}
use lane_cove_tunnel.Packet.{encrypt_packet, decrypt_packet}
use lane_cove_tunnel.Packet.RoundTrip.{decrypt_packet-encrypt_packet}
use lane_cove_tunnel.Handshake.{derive_key}
use lane_cove_tunnel.Handshake.Client.{HsClientState, generate_eph_keypair, handshake_client_send}
use lane_cove_tunnel.Handshake.Client.Recv.{handshake_client_recv}
use lane_cove_tunnel.Handshake.Server.{handshake_server_respond}
use lane_cove_tunnel.Handshake.Agreement.{handshake_agrees}
use lane_cove_tunnel.Keys.{
  Disk, KeyFiles, load_static_key, load_public_key, load_or_generate_static_key,
}
use lane_cove_tunnel.Start.{Host, open_tunnel}

-- The tunnel, keys, hexadecimal text and packets.
pub record Common (PKey : Type 0) : Type 0 where
  pub open_tun : Bytes → Option (ℕ × Bytes)
  pub derive : Bytes → Bytes
  pub to_hex : Bytes → Bytes
  pub from_hex : Bytes → ℕ → Option Bytes
  pub generate : Act (PKey × Bytes)
  pub load_or_generate : Bytes → Disk → World → Option (PKey × Bytes) × Disk × World
  pub load_static : Bytes → Disk → Option (PKey × Bytes)
  pub load_public : Bytes → Disk → Option Bytes
  pub encrypt : Bytes → Bytes → Act Bytes
  pub decrypt : Bytes → Bytes → Option Bytes

-- The handshake: an address, the pre-shared key, the own key pair and the public key of the other
-- side. `State` is what the caller carries from the sending to the receiving.
pub record Handshakes (PKey State : Type 0) : Type 0 where
  pub client_send : Addr → Option Bytes → PKey → Bytes → Option Bytes → Act State
  pub client_recv : Bytes → Option Bytes → PKey → Bytes → Bytes → State → Option Bytes × State
  pub server_respond :
      Bytes → Addr → Option Bytes → PKey → Bytes → Option PKey → Bytes → Act (Bytes × Bytes)

module _ {PKey Ctx : Type 0} (c : Crypto PKey Ctx) (e : Env PKey) where
  abbrev pub common : KeyFiles PKey → Host → Common PKey
  common files host = record {
    open_tun = open_tunnel host;
    derive = derive_key c;
    to_hex = bytes_to_hex;
    from_hex = hex_to_bytes;
    generate = generate_eph_keypair c e;
    load_or_generate = load_or_generate_static_key c files e;
    load_static = load_static_key c files;
    load_public = load_public_key c files;
    encrypt = encrypt_packet c e;
    decrypt = decrypt_packet c;
  }

  -- `handshake_client_send` does not use the static private key.
  abbrev pub handshakes : Handshakes PKey (HsClientState PKey)
  handshakes = record {
    client_send = λ to psk static_key. handshake_client_send c e to psk;
    client_recv = handshake_client_recv c;
    server_respond = handshake_server_respond c e;
  }

-- What peer a may rely on when peer b calls the same functions; `public_of` is the public key of a
-- private one.
pub record AreConnected {PKey State : Type 0} (public_of : PKey → Option Bytes) (a b : Common PKey)
    (client server : Handshakes PKey State) : Type 0 where
  -- A key that is printed is read by the other.
  pub readable :
      (bytes : Bytes) → IsBytes bytes → b.from_hex (a.to_hex bytes) (length bytes) ≡ some bytes
  -- A packet that is encrypted is decrypted by the other, and has 28 bytes more.
  pub decrypted :
      (key plain out : Bytes) (w w' : World)
      → a.encrypt key plain w ≡ (some out, w')
      → (length out ≡ length plain + 28) × (b.decrypt key out ≡ some plain)
  -- A handshake whose two packets arrive ends with one key, and the server knows the client.
  pub agreed :
      (server_addr client_addr : Addr) (psk : Option Bytes) (client_key server_key eph_key : PKey)
      (client_pub server_pub eph_pub : Bytes) (w w' v v' : World) (st : State) (pkt resp : Bytes)
      (result : Bytes × Bytes)
      → public_of client_key ≡ some client_pub
      → public_of server_key ≡ some server_pub
      → public_of eph_key ≡ some eph_pub
      → client.client_send server_addr psk client_key client_pub (some server_pub) w ≡ (some st, w')
      → w'.sent ≡ record { to = server_addr; bytes = pkt } ∷ w.sent
      → server.server_respond pkt client_addr psk server_key server_pub (some eph_key) eph_pub v
        ≡ (some result, v')
      → v'.sent ≡ record { to = client_addr; bytes = resp } ∷ v.sent
      → (result.0 ≡ client_pub)
        × ((client.client_recv resp psk client_key client_pub server_pub st).0 ≡ some result.1)

-- Two peers that are built with the functions of src/common.c are connected, whatever their
-- surroundings answer: each reads the keys that the other prints, decrypts the packets that the other
-- encrypts, and agrees with the other in a handshake, where libcrypto does what it documents and the
-- random generator fills the buffers.
common-AreConnected :
    {PKey Ctx : Type 0} (c : Crypto PKey Ctx)
    → IsCrypto c
    → (e e' : Env PKey) → IsEnv e
    → (files files' : KeyFiles PKey) (host host' : Host)
    → AreConnected c.raw_public_key
        (common c e files host)
        (common c e' files' host')
        (handshakes c e)
        (handshakes c e')
common-AreConnected c ok e e' random files files' host host' = record {
  readable = hex_to_bytes-bytes_to_hex;
  decrypted = λ key plain out w w' h.
      decrypt_packet-encrypt_packet c ok e random key plain w w' {out = out} h;
  agreed =
      λ server_addr client_addr psk client_key server_key eph_key client_pub server_pub eph_pub w w'
          v v' st pkt resp result kc ks ke sends arrives answers returns.
        let (known, same) =
          handshake_agrees c ok e e' server_addr client_addr psk client_key server_key eph_key
            client_pub server_pub eph_pub w w' v v' st pkt resp result kc ks ke sends arrives
            answers returns in
        (known, cc same);
}
