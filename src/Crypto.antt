-- ===== src/Crypto.antt =====
-- The calls of OpenSSL's libcrypto that src/common.c makes. That library is not part of the
-- program: its functions are the fields of `Crypto`, which the model takes as a parameter, and
-- what it documents of them is `IsCrypto`. A field is `none` where the call does not return 1, or
-- returns NULL.
use lane_cove_tunnel.Prelude.{ℕ, ◌≡◌, Option, some, ◌++◌, length}
use lane_cove_tunnel.Prelude.Bytes.{Bytes}
use lane_cove_tunnel.Prelude.Partial.{◌>>=◌}

-- `PKey` is an `EVP_PKEY` with its private key, `Public` one that has the public key only; `Ctx` is the
-- state of an `EVP_CIPHER_CTX`.
pub record Crypto (PKey Ctx : Type 0) : Type 1 where
  pub Public : Type 0
  -- SHA256
  pub sha256 : Bytes → Bytes
  -- HMAC with EVP_sha256: key, message
  pub hmac : Bytes → Bytes → Option Bytes
  -- EVP_PKEY_get_raw_public_key
  pub raw_public_key : PKey → Option Bytes
  -- EVP_PKEY_new_raw_public_key for EVP_PKEY_X25519
  pub new_raw_public_key : Bytes → Option Public
  -- EVP_PKEY_CTX_new, EVP_PKEY_derive_init, EVP_PKEY_derive_set_peer, EVP_PKEY_derive
  pub derive : PKey → Public → Option Bytes
  -- EVP_EncryptInit_ex with EVP_aes_256_gcm: key, IV
  pub encrypt_init : Bytes → Bytes → Option Ctx
  pub encrypt_update : Ctx → Bytes → Option (Ctx × Bytes)
  pub encrypt_final : Ctx → Option (Ctx × Bytes)
  -- EVP_CIPHER_CTX_ctrl with EVP_CTRL_GCM_GET_TAG
  pub get_tag : Ctx → ℕ → Option Bytes
  pub decrypt_init : Bytes → Bytes → Option Ctx
  pub decrypt_update : Ctx → Bytes → Option (Ctx × Bytes)
  -- EVP_CIPHER_CTX_ctrl with EVP_CTRL_GCM_SET_TAG
  pub set_tag : Ctx → Bytes → Option Ctx
  pub decrypt_final : Ctx → Option (Ctx × Bytes)

-- CRYPTO_TAG_LEN
abbrev pub tag_len : ℕ
tag_len = 16

module _ {PKey Ctx : Type 0} (c : Crypto PKey Ctx) where
  -- The four EVP calls that `encrypt_packet` and `encrypt_identity` make in a row, up to `err`:
  -- the ciphertext, in the two parts in which it is written, and the tag.
  unfoldable pub seal : Bytes → Bytes → Bytes → Option (Bytes × Bytes)
  seal key iv plain = do
    ctx ← c.encrypt_init key iv
    (ctx, head) ← c.encrypt_update ctx plain
    (ctx, last) ← c.encrypt_final ctx
    tag ← c.get_tag ctx tag_len
    some (head ++ last, tag)

  -- The four EVP calls of `decrypt_packet` and `decrypt_identity`.
  unfoldable pub unseal : Bytes → Bytes → Bytes → Bytes → Option Bytes
  unseal key iv ciphertext tag = do
    ctx ← c.decrypt_init key iv
    (ctx, head) ← c.decrypt_update ctx ciphertext
    ctx ← c.set_tag ctx tag
    (ctx, last) ← c.decrypt_final ctx
    some (head ++ last)

  -- What the documentation of libcrypto promises, and the code relies on.
  pub record IsCrypto : Type 0 where
    pub length-sha256 : (m : Bytes) → length (c.sha256 m) ≡ 32
    pub length-hmac : (k m : Bytes) {h : Bytes} → c.hmac k m ≡ some h → length h ≡ 32
    pub length-raw_public_key : (k : PKey) {p : Bytes} → c.raw_public_key k ≡ some p → length p ≡ 32
    -- X25519 is commutative: each side holds its own private key and the other's public key.
    pub derive_comm :
        (a b : PKey) (pa pb : c.Public) {ra rb : Bytes}
        → c.raw_public_key a ≡ some ra
        → c.raw_public_key b ≡ some rb
        → c.new_raw_public_key ra ≡ some pa
        → c.new_raw_public_key rb ≡ some pb
        → c.derive a pb ≡ c.derive b pa
    -- A raw key that was read from a key can be loaded.
    pub new_raw_public_key-raw_public_key :
        (k : PKey) {r : Bytes}
        → c.raw_public_key k ≡ some r
        → (p : c.Public) × (c.new_raw_public_key r ≡ some p)
    -- AES-256-GCM: the ciphertext is as long as the plaintext, the tag as long as asked, and what
    -- was sealed can be opened with the same key and IV.
    pub length-seal :
        (key iv plain : Bytes) {ct tag : Bytes}
        → seal key iv plain ≡ some (ct, tag)
        → (length ct ≡ length plain) × (length tag ≡ 16)
    pub unseal-seal :
        (key iv plain : Bytes) {ct tag : Bytes}
        → seal key iv plain ≡ some (ct, tag)
        → unseal key iv ct tag ≡ some plain
    pub length-unseal :
        (key iv ct tag : Bytes) {plain : Bytes}
        → unseal key iv ct tag ≡ some plain
        → length plain ≡ length ct
