-- ===== src/Packet/RoundTrip.antt =====
-- `encrypt_packet` and `decrypt_packet` (src/common.c) together.
use lane_cove_tunnel.Prelude.{
  ℕ, ◌-◌, ◌+◌, ◌≡◌, some, ◌++◌, length, take, drop, arith, length-append, take-append, drop-append,
  length-take, length-drop, ◌∙◌, sym,
}
use mathlib.Core.List.{append_assoc}
use lane_cove_tunnel.Prelude.Bytes.{Bytes}
use lane_cove_tunnel.Crypto.{Crypto, IsCrypto, seal, unseal}
use lane_cove_tunnel.World.{Env, World, IsEnv, after-eq-some, lift-eq-some, try_ask}
use lane_cove_tunnel.Packet.{encrypt_packet, decrypt_packet, iv_len, crypto_overhead}

-- A sealed packet of the three parts is cut where it was joined.
module _ {PKey Ctx : Type 0} (c : Crypto PKey Ctx) where
  decrypt_packet-parts :
      (key iv ct tag : Bytes)
      → length iv ≡ 12
      → length tag ≡ 16
      → decrypt_packet c key (iv ++ (ct ++ tag)) ≡ unseal c key iv ct tag
  unfolding decrypt_packet
  decrypt_packet-parts key iv ct tag hi ht =
      let input : Bytes = iv ++ (ct ++ tag) in
      let size : length input ≡ 28 + length ct =
        omega (arith, length-append iv (ct ++ tag), length-append ct tag) in
      let front : take 12 input ≡ iv = take-append iv (ct ++ tag) 12 (sym hi) in
      let middle : take (length input - 28) (drop 12 input) ≡ ct =
        rw (drop-append iv (ct ++ tag) 12 (sym hi))
          (take-append ct tag (length input - 28) (omega (arith, size))) in
      let back : drop (length input - 16) input ≡ tag = rw (← append_assoc iv ct tag) (
        drop-append (iv ++ ct) tag _
          (omega (arith, length-append (iv ++ ct) tag, length-append iv ct))) in
      ground (arith, size, front, middle, back)

  module _ (ok : IsCrypto c) (e : Env PKey) (random : IsEnv e) where
    sealed_packet :
        (key plain iv ct tag out : Bytes)
        → length iv ≡ iv_len
        → seal c key iv plain ≡ some (ct, tag)
        → iv ++ (ct ++ tag) ≡ out
        → (length out ≡ length plain + crypto_overhead) × (decrypt_packet c key out ≡ some plain)
    sealed_packet key plain iv ct tag out hi sealed e =
        let sizes = ok.length-seal key iv plain sealed in
        rw (← e) (
          omega (arith, hi, sizes, length-append iv (ct ++ tag), length-append ct tag),
          decrypt_packet-parts key iv ct tag hi sizes.1 ∙ ok.unseal-seal key iv plain sealed,
        )

    -- A packet that was encrypted is `crypto_overhead` bytes longer than its plaintext and is
    -- decrypted to it under the same key.
    pub decrypt_packet-encrypt_packet :
        (key plain : Bytes) (w w' : World) {out : Bytes}
        → encrypt_packet c e key plain w ≡ (some out, w')
        → (length out ≡ length plain + crypto_overhead) × (decrypt_packet c key out ≡ some plain)
    unfolding encrypt_packet
    decrypt_packet-encrypt_packet key plain w w' {out} h =
        after-eq-some (try_ask (λ n. e.rand_bytes n iv_len) w) _ h λ iv v drawn rest.
          lift-eq-some (seal c key iv plain) _ v rest λ (ct, tag) sealed done.
            sealed_packet key plain iv ct tag out
              (random.length-rand_bytes w.calls iv_len (cc drawn)) sealed (cc done)

  -- A packet that can be decrypted is `crypto_overhead` bytes longer than its plaintext.
  pub length-decrypt_packet :
      IsCrypto c
      → (key input : Bytes) {plain : Bytes} → decrypt_packet c key input ≡ some plain
      → length input ≡ length plain + crypto_overhead
  unfolding decrypt_packet
  length-decrypt_packet ok key input {plain} h =
      let n : ℕ = length input - 28 in
      let ct : Bytes = take n (drop 12 input) in
      let opened =
        ok.length-unseal key (take 12 input) ct (drop (length input - 16) input) {plain = plain} in
      ground (arith, opened, length-take n (drop 12 input), length-drop 12 input)
