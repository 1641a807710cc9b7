-- ===== src/Handshake/Wire.antt =====
-- The layout of a handshake packet: what a receiver cuts out of what a sender put together.
use lane_cove_tunnel.Prelude.{
  ℕ, ◌+◌, ◌≡◌, refl, sym, ◌∙◌, Option, none, some, [], ◌++◌, true, length, take, drop, replicate,
  ◌==◌, arith, length-append, take-append, drop-append, ap,
}
use mathlib.Core.List.{append_assoc, append-nil}
use lane_cove_tunnel.Prelude.Bytes.{Bytes, bytes_eq_refl}
use lane_cove_tunnel.Prelude.Partial.{>>=-eq-some}
use lane_cove_tunnel.Crypto.{Crypto, IsCrypto, seal, unseal}
use lane_cove_tunnel.Handshake.{
  pkt_header, hs_size, mac_size, eph_pub_of, enc_static_of, body_of, mac_of, compute_hmac,
  encrypt_identity, decrypt_identity, append_mac, check_mac,
}

abbrev pub packet : Bytes → Bytes → Bytes → Bytes
packet eph_pub enc mac = pkt_header ++ ((eph_pub ++ enc) ++ mac)

take_all : (xs : Bytes) (n : ℕ) → length xs ≡ n → take n xs ≡ xs
take_all xs n h = ap (take n) (sym (append-nil xs)) ∙ take-append xs [] n (sym h)

module _ (p enc mac : Bytes) (hp : length p ≡ 32) (he : length enc ≡ 48) where
  pub length-packet :
      (psk : Option Bytes)
      → length mac ≡ mac_size psk
      → (length (packet p enc mac) == hs_size psk) ≡ true
  length-packet none hm = ground (arith, length-append (p ++ enc) mac, length-append p enc)
  length-packet (some psk) hm = ground (arith, length-append (p ++ enc) mac, length-append p enc)

  pub body_of-packet : body_of (packet p enc mac) ≡ p ++ enc
  body_of-packet = take-append (p ++ enc) mac 80 (omega (arith, length-append p enc))

  drop-body : drop 80 ((p ++ enc) ++ mac) ≡ mac
  drop-body = drop-append (p ++ enc) mac 80 (omega (arith, length-append p enc))

  pub eph_pub_of-packet : eph_pub_of (packet p enc mac) ≡ p
  eph_pub_of-packet = rw (append_assoc p enc mac) (take-append p (enc ++ mac) 32 (sym hp))

  pub enc_static_of-packet : enc_static_of (packet p enc mac) ≡ enc
  enc_static_of-packet =
      rw (append_assoc p enc mac, drop-append p (enc ++ mac) 32 (sym hp))
        (take-append enc mac 48 (sym he))

  pub mac_of-packet : length mac ≡ 32 → mac_of (packet p enc mac) ≡ mac
  mac_of-packet hm = rw drop-body (take_all mac 32 hm)

module _ {PKey Ctx : Type 0} (c : Crypto PKey Ctx) (ok : IsCrypto c) where
  pub length-append_mac :
      (psk : Option Bytes) (body : Bytes) {mac : Bytes}
      → append_mac c psk body ≡ some mac
      → length mac ≡ mac_size psk
  unfolding append_mac compute_hmac
  length-append_mac none body h = ground arith
  length-append_mac (some psk) body h = ok.length-hmac psk body h

  -- The HMAC that a sender appends passes the receiver's check under the same key.
  pub check_mac-packet :
      (psk : Option Bytes) (p enc : Bytes) {mac : Bytes}
      → length p ≡ 32
      → length enc ≡ 48
      → append_mac c psk (p ++ enc) ≡ some mac
      → check_mac c psk (packet p enc mac) ≡ some tt
  unfolding append_mac check_mac
  check_mac-packet none p enc hp he h = refl
  check_mac-packet (some psk) p enc {mac} hp he h =
      let sent : compute_hmac c psk (p ++ enc) ≡ some mac = h in
      let size : length mac ≡ 32 = ok.length-hmac psk (p ++ enc) (unfold compute_hmac in sent) in
      rw (
        body_of-packet p enc mac hp he,
        sent,
        mac_of-packet p enc mac hp he size,
        bytes_eq_refl mac,
      )

  pub length-encrypt_identity :
      (key_material pub_key : Bytes) {enc : Bytes}
      → encrypt_identity c key_material pub_key ≡ some enc
      → length enc ≡ length pub_key + 16
  unfolding encrypt_identity
  length-encrypt_identity key_material pub_key {enc} h =
      (>>=-eq-some (seal c (c.sha256 key_material) (replicate 12 0) pub_key) _ h
        λ (ct, tag) sealed done.
          encrypted_length ct tag enc (ok.length-seal _ _ _ sealed) (cc done))
    where
      encrypted_length :
          (ct tag enc : Bytes)
          → (length ct ≡ length pub_key) × (length tag ≡ 16)
          → ct ++ tag ≡ enc
          → length enc ≡ length pub_key + 16
      encrypted_length ct tag enc sizes e = rw (← e) (omega (arith, sizes, length-append ct tag))

  -- An identity that was encrypted is decrypted with the same shared secret.
  pub decrypt_identity-encrypt_identity :
      (key_material pub_key : Bytes) {enc : Bytes}
      → length pub_key ≡ 32
      → encrypt_identity c key_material pub_key ≡ some enc
      → decrypt_identity c key_material enc ≡ some pub_key
  unfolding encrypt_identity decrypt_identity
  decrypt_identity-encrypt_identity key_material pub_key {enc} hp h =
      (>>=-eq-some (seal c (c.sha256 key_material) (replicate 12 0) pub_key) _ h
        λ (ct, tag) sealed done.
          decrypted ct tag enc (ok.length-seal _ _ _ sealed) (ok.unseal-seal _ _ _ sealed)
            (cc done))
    where
      decrypted :
          (ct tag enc : Bytes)
          → (length ct ≡ length pub_key) × (length tag ≡ 16)
          → unseal c (c.sha256 key_material) (replicate 12 0) ct tag ≡ some pub_key
          → ct ++ tag ≡ enc
          → decrypt_identity c key_material enc ≡ some pub_key
      decrypted ct tag enc sizes opened e =
          rw
            (
              ← e,
              take-append ct tag 32 (omega (arith, sizes)),
              drop-append ct tag 32 (omega (arith, sizes)),
              take_all tag 16 sizes.1,
            )
            opened
