-- ===== src/Keys/Again.antt =====
-- A second run of `load_or_generate_static_key` (src/common.c) after a first.
use lane_cove_tunnel.Prelude.{
  ◌≡◌, refl, Option, none, some, Option-cases, inl, inr, length, take, arith, ◌∙◌, sym, ap,
  take_whole, take_short, ◌≤◌,
}
use lane_cove_tunnel.Prelude.Partial.{>>=-eq-some}
use lane_cove_tunnel.Prelude.Bytes.{Bytes, bytes_eq_refl}
use lane_cove_tunnel.Crypto.{Crypto}
use lane_cove_tunnel.World.{Env, World}
use lane_cove_tunnel.Handshake.Client.{generate_eph_keypair}
use lane_cove_tunnel.Keys.{
  Disk, KeyFiles, write_file, parse_static_key, save_static_key, keep_static_key,
  load_or_generate_static_key,
}

module _ {PKey Ctx : Type 0} (c : Crypto PKey Ctx) (files : KeyFiles PKey) where
  -- What libcrypto documents of raw private keys: they have 32 bytes, and a key that is made of
  -- them has the same public key.
  pub record IsKeyFiles : Type 0 where
    pub reload :
        (k : PKey) {r p : Bytes}
        → files.raw_private_key k ≡ some r
        → c.raw_public_key k ≡ some p
        → (length r ≡ 32)
          × (k' : PKey) × (files.new_raw_private_key r ≡ some k')
          × (c.raw_public_key k' ≡ some p)

  module _ (e : Env PKey) (path : Bytes) where
    -- A key file that is there is read, and nothing else happens.
    load_present :
        (disk : Disk) (w : World) (content : Bytes)
        → disk path ≡ some content
        → load_or_generate_static_key c files e path disk w
          ≡ (parse_static_key c files content, disk, w)
    unfolding load_or_generate_static_key
    load_present disk w content here = rw (load_or_generate_static_key, here) refl

    load_absent :
        (disk : Disk) (w : World)
        → disk path ≡ none
        → let (made, v) = generate_eph_keypair c e w in
          let (kept, disk') = keep_static_key c files path disk made in
          load_or_generate_static_key c files e path disk w ≡ (kept, disk', v)
    unfolding load_or_generate_static_key
    load_absent disk w absent = rw (load_or_generate_static_key, absent) refl

    generated_pub :
        (w : World) {k : PKey} {p : Bytes}
        → (generate_eph_keypair c e w).0 ≡ some (k, p)
        → c.raw_public_key k ≡ some p
    unfolding generate_eph_keypair
    generated_pub w {k} {p} h = ground (arith, h)

  parse_raw :
      (r : Bytes) (k : PKey) (p : Bytes)
      → length r ≡ 32
      → files.new_raw_private_key r ≡ some k
      → c.raw_public_key k ≡ some p
      → parse_static_key c files r ≡ some (k, p)
  unfolding parse_static_key
  parse_raw r k p sized made pub_ok =
      rw (parse_static_key, take_whole r 32 sized, sized, made, pub_ok) refl

  parse_saved :
      IsKeyFiles
      → (path : Bytes) (disk : Disk) (k : PKey) (p : Bytes) {disk' : Disk} → 32 ≤ files.room path
      → c.raw_public_key k ≡ some p
      → save_static_key c files path k disk ≡ some disk'
      → (content : Bytes) × (k' : PKey) × (disk' path ≡ some content)
        × (parse_static_key c files content ≡ some (k', p))
  unfolding save_static_key write_file
  parse_saved laws path disk k p {disk'} room pub_ok saved =
      >>=-eq-some (files.raw_private_key k) _ saved (λ r read saved₁.
        let (sized, k', again, same) = laws.reload k read pub_ok in
        let kept : write_file path (take (files.room path) (take 32 r)) disk ≡ disk' =
          ground (arith, saved₁) in
        let content : disk' path ≡ some r =
          sym (ap (λ (d : Disk). d path) kept)
          ∙ rw
              (
                write_file,
                bytes_eq_refl path,
                take_whole r 32 sized,
                take_short r (files.room path) (omega (arith, sized, room)),
              )
              refl in
        (r, k', content, parse_raw r k' p sized again same))

  again_absent :
      IsKeyFiles
      → (path : Bytes) (disk : Disk) (made : Option (PKey × Bytes)) {k : PKey} {p : Bytes}
        {disk' : Disk}
      → 32 ≤ files.room path
      → ((k₀ : PKey) (p₀ : Bytes) → made ≡ some (k₀, p₀) → c.raw_public_key k₀ ≡ some p₀)
      → keep_static_key c files path disk made ≡ (some (k, p), disk')
      → (content : Bytes) × (k' : PKey) × (disk' path ≡ some content)
        × (parse_static_key c files content ≡ some (k', p))
  unfolding keep_static_key
  again_absent laws path disk none room pub_ok h = cc h
  again_absent laws path disk (some (k₀, p₀)) {k} {p} {disk'} room pub_ok h =
      elim (Option-cases (save_static_key c files path k₀ disk)) [
        | inl unsaved ↦
            let h' : ◌≡◌ {A = Option (PKey × Bytes) × Disk} (none, disk) (some (k, p), disk') =
              rw (keep_static_key, unsaved) at h in
            cc h'
        | inr (disk₁, saved) ↦
            let h' : (some (k₀, p₀), disk₁) ≡ (some (k, p), disk') =
              rw (keep_static_key, saved) at h in
            let same : p₀ ≡ p = cc h' in
            let left : disk₁ ≡ disk' = cc h' in
            parse_saved laws path disk k₀ p room (pub_ok k₀ p₀ refl ∙ ap some same)
              (saved ∙ ap some left)
      ]

  -- A key file that is there keeps its content, and a missing one gets a content that is read back.
  again :
      IsKeyFiles
      → (e : Env PKey) (path : Bytes) (disk : Disk) (w : World) {k : PKey} {p : Bytes}
        {disk' : Disk} {w' : World}
      → 32 ≤ files.room path
      → load_or_generate_static_key c files e path disk w ≡ (some (k, p), disk', w')
      → (content : Bytes) × (k' : PKey) × (disk' path ≡ some content)
        × (parse_static_key c files content ≡ some (k', p))
  again laws e path disk w {k} {p} {disk'} {w'} room h = elim (Option-cases (disk path)) [
    | inr (content, here) ↦
        let read : (parse_static_key c files content, disk, w) ≡ (some (k, p), disk', w') =
          sym (load_present e path disk w content here) ∙ h in
        (content, k, cc (read, here), cc read)
    | inl absent ↦
        again_absent laws path disk (generate_eph_keypair c e w).0 room
          (λ k₀ p₀ from. generated_pub e path w from)
          (sym (ap (λ r. (r.0, r.1)) (load_absent e path disk w absent)) ∙ ap (λ r. (r.0, r.1)) h)
  ]

  -- A run of `load_or_generate_static_key` that succeeds leaves a file with which every later run
  -- succeeds, with the same public key, and without a change to the files or to the world: the
  -- identity of a peer survives a restart. The disk has room for the 32 bytes of a key that is
  -- generated (the function does not look at whether it was written); libcrypto's raw private keys have 32 bytes, and the key
  -- made of them has the same public key.
  pub load_or_generate_again :
      IsKeyFiles
      → (e : Env PKey) (path : Bytes) (disk : Disk) (w : World) {k : PKey} {p : Bytes}
        {disk' : Disk} {w' : World}
      → 32 ≤ files.room path
      → load_or_generate_static_key c files e path disk w ≡ (some (k, p), disk', w')
      → (k' : PKey) × ((e' : Env PKey) (v : World)
          → load_or_generate_static_key c files e' path disk' v ≡ (some (k', p), disk', v))
  load_or_generate_again laws e path disk w {k} {p} {disk'} room h =
      let (content, k', here, read) = again laws e path disk w room h in
      (k', λ e' v. load_present e' path disk' v content here ∙ rw read refl)
