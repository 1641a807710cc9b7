-- ===== src/Tests/Toy.antt =====
-- A stand-in for libcrypto and for the operating system on which the model runs. It keeps no
-- secret; it satisfies `IsCrypto` and `IsEnv`.
use lane_cove_tunnel.Prelude.{
  ℕ, ◌+◌, ◌%◌, ◌≡◌, refl, true, none, some, [], ◌∷◌, ◌++◌, length, replicate, get_or, if◌then◌else◌,
  arith, ap, length-replicate,
}
use lane_cove_tunnel.Prelude.Bytes.{Bytes, bytes_eq, bytes_eq_refl}
use lane_cove_tunnel.Crypto.{Crypto, IsCrypto, seal, unseal}
use lane_cove_tunnel.World.{Env, IsEnv, World}

-- The key, what has been read, and the tag to compare with.
pub record Cipher : Type 0 where
  pub key : Bytes
  pub seen : Bytes
  pub tag : Bytes

abbrev pub checksum : Bytes → ℕ
checksum [] = 7
checksum (b ∷ bytes) = (b + checksum bytes) % 256

abbrev pub tag_of : Cipher → ℕ → Bytes
tag_of ctx n = replicate n (checksum (ctx.key ++ ctx.seen))

abbrev pub toy : Crypto ℕ Cipher
toy = record {
  Public = ℕ;
  sha256 = λ m. replicate 32 (checksum m);
  hmac = λ k m. some (replicate 32 (checksum (k ++ m)));
  raw_public_key = λ k. some (replicate 32 k);
  new_raw_public_key = λ r. some (get_or r 0 0);
  derive = λ a p. some (replicate 32 (a + p));
  encrypt_init = λ key iv. some (record { key = key; seen = []; tag = [] });
  encrypt_update = λ ctx plain. some (record ctx { seen = plain }, plain);
  encrypt_final = λ ctx. some (ctx, []);
  get_tag = λ ctx n. some (tag_of ctx n);
  decrypt_init = λ key iv. some (record { key = key; seen = []; tag = [] });
  decrypt_update = λ ctx ciphertext. some (record ctx { seen = ciphertext }, ciphertext);
  set_tag = λ ctx tag. some (record ctx { tag = tag });
  decrypt_final = λ ctx. if bytes_eq ctx.tag (tag_of ctx 16) then some (ctx, []) else none;
}

pub append_nil : (a : Bytes) → a ++ [] ≡ a
append_nil [] = refl
append_nil (x ∷ a) = cc (append_nil a)

seal-toy :
    (key iv plain : Bytes) {ct tag : Bytes}
    → seal toy key iv plain ≡ some (ct, tag)
    → (plain ≡ ct) × (replicate 16 (checksum (key ++ plain)) ≡ tag)
unfolding seal
seal-toy key iv plain h = (cc (append_nil plain, h), cc h)

unseal-toy :
    (key iv plain : Bytes)
    → unseal toy key iv plain (replicate 16 (checksum (key ++ plain))) ≡ some plain
unfolding unseal
unseal-toy key iv plain =
    rw (bytes_eq_refl (replicate 16 (checksum (key ++ plain)))) (cc (append_nil plain))

length-seal-toy :
    (key iv plain ct tag : Bytes)
    → seal toy key iv plain ≡ some (ct, tag)
    → (length ct ≡ length plain) × (length tag ≡ 16)
length-seal-toy key iv plain ct tag h =
    let (same, tagged) = seal-toy key iv plain h in
    (rw (← same) refl, rw (← tagged) (length-replicate 16 (checksum (key ++ plain))))

unseal-seal-toy :
    (key iv plain ct tag : Bytes)
    → seal toy key iv plain ≡ some (ct, tag)
    → unseal toy key iv ct tag ≡ some plain
unseal-seal-toy key iv plain ct tag h =
    let (same, tagged) = seal-toy key iv plain h in rw (← same, ← tagged) (unseal-toy key iv plain)

length-unseal-toy :
    (key iv ct tag : Bytes) {plain : Bytes}
    → unseal toy key iv ct tag ≡ some plain
    → length plain ≡ length ct
unfolding unseal
length-unseal-toy key iv ct tag {plain} h = ground (arith, append_nil ct)

pub length-filled : (n a : ℕ) (h : Bytes) → some (replicate n a) ≡ some h → length h ≡ n
length-filled n a h e = let same : replicate n a ≡ h = cc e in rw (← same) (length-replicate n a)

pub loaded :
    (k p : ℕ) (r : Bytes) → some (replicate 32 k) ≡ some r → some (get_or r 0 0) ≡ some p → k ≡ p
loaded k p r read load =
    let same : replicate 32 k ≡ r = cc read in
    let load' : some k ≡ some p = rw (← same) at load in cc load'

derive_comm-toy :
    (a b pa pb : ℕ) (ra rb : Bytes)
    → toy.raw_public_key a ≡ some ra
    → toy.raw_public_key b ≡ some rb
    → toy.new_raw_public_key ra ≡ some pa
    → toy.new_raw_public_key rb ≡ some pb
    → toy.derive a pb ≡ toy.derive b pa
derive_comm-toy a b pa pb ra rb ka kb na nb =
    let same : a + pb ≡ b + pa = omega (arith, loaded a pa ra ka na, loaded b pb rb kb nb) in
    ap (λ (n : ℕ). some (replicate 32 n)) same

pub toy-IsCrypto : IsCrypto toy
toy-IsCrypto = record {
  length-sha256 = λ m. refl;
  length-hmac = λ k m {h} e. length-filled 32 (checksum (k ++ m)) h e;
  length-raw_public_key = λ k {p} e. length-filled 32 k p e;
  derive_comm = λ a b pa pb {ra} {rb} ka kb na nb. derive_comm-toy a b pa pb ra rb ka kb na nb;
  new_raw_public_key-raw_public_key = λ k {r} e. (get_or r 0 0, refl);
  length-seal = λ key iv plain {ct} {tag} e. length-seal-toy key iv plain ct tag e;
  unseal-seal = λ key iv plain {ct} {tag} e. unseal-seal-toy key iv plain ct tag e;
  length-unseal = length-unseal-toy;
}

abbrev pub toy_env : Env ℕ
toy_env = record {
  rand_bytes = λ n k. some (replicate k (n % 256));
  keygen = λ n. some (n + 1);
  sendto_ok = λ n. true;
  write_ok = λ n. true;
  clock = λ n. 100 + n;
  getaddrinfo = λ n host port. none;
}

pub toy_env-IsEnv : IsEnv toy_env
toy_env-IsEnv = record { length-rand_bytes = λ n k {bytes} e. length-filled k (n % 256) bytes e }

-- Nothing done yet.
abbrev pub start : World
start = record { calls = 0; sent = []; written = []; log = [] }
