-- ===== src/Packet.antt =====
-- `encrypt_packet` and `decrypt_packet` of src/common.c: [12 IV][ciphertext][16 tag].
pub mod RoundTrip
use lane_cove_tunnel.Prelude.{
  ℕ, ◌-◌, ◌+◌, Option, none, some, ◌++◌, ltb, if◌then◌else◌, length, take, drop,
}
use lane_cove_tunnel.Prelude.Bytes.{Bytes}
use lane_cove_tunnel.Crypto.{Crypto, seal, unseal, tag_len}
use lane_cove_tunnel.World.{Env, Act, pure, lift, ◌>>=◌, try_ask}

-- CRYPTO_IV_LEN
abbrev pub iv_len : ℕ
iv_len = 12

-- CRYPTO_OVERHEAD
abbrev pub crypto_overhead : ℕ
crypto_overhead = iv_len + tag_len

module _ {PKey Ctx : Type 0} (c : Crypto PKey Ctx) where
  -- The result is what the buffer `out` holds up to `*out_len`.
  unfoldable pub encrypt_packet : Env PKey → Bytes → Bytes → Act Bytes
  encrypt_packet e key plain = do
    iv ← try_ask (λ n. e.rand_bytes n iv_len)
    (ciphertext, tag) ← lift (seal c key iv plain)
    pure (iv ++ (ciphertext ++ tag))

  unfoldable pub decrypt_packet : Bytes → Bytes → Option Bytes
  decrypt_packet key input =
      if ltb (length input) crypto_overhead
      then none
      else (let iv = take iv_len input in
          let ciphertext_len = length input - crypto_overhead in
          let ciphertext = take ciphertext_len (drop iv_len input) in
          let tag = drop (length input - tag_len) input in unseal c key iv ciphertext tag)
