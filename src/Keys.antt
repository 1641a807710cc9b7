-- ===== src/Keys.antt =====
-- The key files of src/common.c: `load_static_key`, `load_public_key`, `load_or_generate_static_key`.
pub mod Again
use lane_cove_tunnel.Prelude.{ℕ, Bool, Option, none, some, ◌==◌, if◌then◌else◌, length, take}
use lane_cove_tunnel.Prelude.Bytes.{Bytes, bytes_eq}
use lane_cove_tunnel.Prelude.Partial.{◌>>=◌, ◌>>◌, guard}
use lane_cove_tunnel.Crypto.{Crypto}
use lane_cove_tunnel.World.{Env, World}
use lane_cove_tunnel.Handshake.Client.{generate_eph_keypair}

-- The content of the file at a path, `none` where `fopen` for reading fails.
abbrev pub Disk : Type 0
Disk = Bytes → Option Bytes

-- A file with this content, whatever was there before.
unfoldable pub write_file : Bytes → Bytes → Disk → Disk
write_file path content disk p = if bytes_eq p path then some content else disk p

-- The calls of libcrypto on private keys and on PEM files, the files by their content; whether a path
-- can be opened for writing, and how much of what is written to it is there in the end. `Public` is
-- an `EVP_PKEY` that has the public key only.
pub record KeyFiles (PKey : Type 0) : Type 1 where
  pub Public : Type 0
  -- PEM_read_PrivateKey, PEM_read_PUBKEY
  pub read_private_key : Bytes → Option PKey
  pub read_pubkey : Bytes → Option Public
  -- EVP_PKEY_get_raw_public_key of such a key
  pub raw_pubkey : Public → Option Bytes
  -- EVP_PKEY_new_raw_private_key for EVP_PKEY_X25519, EVP_PKEY_get_raw_private_key
  pub new_raw_private_key : Bytes → Option PKey
  pub raw_private_key : PKey → Option Bytes
  -- fopen(path, "wb")
  pub can_write : Bytes → Bool
  -- the bytes that `fwrite` and `fclose` bring to the file, at most: fewer on a full disk
  pub room : Bytes → ℕ

module _ {PKey Ctx : Type 0} (c : Crypto PKey Ctx) (files : KeyFiles PKey) where
  -- The PEM file of a private key, once it is open.
  unfoldable pub read_static_key : Bytes → Option (PKey × Bytes)
  read_static_key content = do
    pkey ← files.read_private_key content
    pub_key ← c.raw_public_key pkey
    some (pkey, pub_key)

  unfoldable pub load_static_key : Bytes → Disk → Option (PKey × Bytes)
  unfolding read_static_key
  load_static_key path disk = do content ← disk path; read_static_key content

  -- The PEM file of a public key, once it is open.
  unfoldable pub read_public_key : Bytes → Option Bytes
  read_public_key content = do pkey ← files.read_pubkey content; files.raw_pubkey pkey

  unfoldable pub load_public_key : Bytes → Disk → Option Bytes
  unfolding read_public_key
  load_public_key path disk = do content ← disk path; read_public_key content

  -- A key file that could be opened.
  unfoldable pub parse_static_key : Bytes → Option (PKey × Bytes)
  parse_static_key content = do
    guard (length (take 32 content) == 32)
    pkey ← files.new_raw_private_key (take 32 content)
    pub_key ← c.raw_public_key pkey
    some (pkey, pub_key)

  -- A new key into a file. What `fwrite` and `fclose` return is not looked at.
  unfoldable pub save_static_key : Bytes → PKey → Disk → Option Disk
  save_static_key path pkey disk = do
    priv ← files.raw_private_key pkey
    guard (files.can_write path)
    some (write_file path (take (files.room path) (take 32 priv)) disk)

  -- What follows the generation of a key.
  unfoldable pub keep_static_key :
      Bytes → Disk → Option (PKey × Bytes) → Option (PKey × Bytes) × Disk
  keep_static_key path disk none = (none, disk)
  keep_static_key path disk (some (pkey, pub_key)) = elim (save_static_key path pkey disk) [
    | none ↦ (none, disk)
    | some disk' ↦ (some (pkey, pub_key), disk')
  ]

  unfoldable pub load_or_generate_static_key :
      Env PKey → Bytes → Disk → World → Option (PKey × Bytes) × Disk × World
  load_or_generate_static_key e path disk w = elim (disk path) [
    | some content ↦ (parse_static_key content, disk, w)
    | none ↦
        let (made, w) = generate_eph_keypair c e w in
        let (kept, disk') = keep_static_key path disk made in (kept, disk', w)
  ]
