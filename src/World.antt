-- ===== src/World.antt =====
-- What the program asks of its surroundings while it runs, and what it does to them.
use lane_cove_tunnel.Prelude.{
  ℕ, ◌+◌, Bool, Option, none, some, List, ◌∷◌, if◌then◌else◌, ◌≡◌, refl, length, inl, inr,
  Bool-cases,
}
use lane_cove_tunnel.Prelude.Bytes.{Bytes}

-- struct sockaddr_in: `sin_addr.s_addr` and `sin_port`, both in host byte order.
pub record Addr : Type 0 where
  pub ip : ℕ
  pub port : ℕ

pub record Datagram : Type 0 where
  pub to : Addr
  pub bytes : Bytes

-- The answers of the operating system and of the random generator. Each gets the number of the
-- call, so that no answer is bound to repeat.
pub record Env (PKey : Type 0) : Type 0 where
  -- RAND_bytes
  pub rand_bytes : ℕ → ℕ → Option Bytes
  -- EVP_PKEY_CTX_new_id, EVP_PKEY_keygen_init, EVP_PKEY_keygen for EVP_PKEY_X25519
  pub keygen : ℕ → Option PKey
  -- `sendto(...) >= 0`
  pub sendto_ok : ℕ → Bool
  -- `write(tun_fd, ...) >= 0`
  pub write_ok : ℕ → Bool
  -- time(NULL)
  pub clock : ℕ → ℕ
  -- getaddrinfo for a host and a port, both as text
  pub getaddrinfo : ℕ → List ℕ → List ℕ → Option Addr

-- A line of the log. `print_sessions`: the number of active peers; an active peer, whether we called
-- it, its address, the first 8 bytes of its key in hexadecimal, the number of its routes.
-- `session_init`: a peer that is new, has a new key, or has a new address besides (the old one
-- first), with its address and the first 8 bytes of its key. `event_loop`: how it ended.
pub data LogLine : Type 0 where
  active_peers : ℕ → LogLine
  active_peer : Bool → Addr → List ℕ → ℕ → LogLine
  peer_connected : Addr → List ℕ → LogLine
  peer_rekeyed : Addr → List ℕ → LogLine
  address_changed : Addr → Addr → List ℕ → LogLine
  caught_signal loop_terminated : LogLine

-- The calls made so far; the datagrams sent and the packets written to the TUN device, the latest
-- first; the lines logged, in order.
pub record World : Type 0 where
  pub calls : ℕ
  pub sent : List Datagram
  pub written : List Bytes
  pub log : List LogLine

-- A piece of the program that may fail, as functions that return -1 do. What it did to the world
-- before it failed stays done.
abbrev pub Act {ℓ} : Type ℓ → Type ℓ
Act A = World → Option A × World

abbrev pub pure {ℓ} : {A : Type ℓ} → A → Act A
pure a w = (some a, w)

abbrev pub lift {ℓ} : {A : Type ℓ} → Option A → Act A
lift o w = (o, w)

-- What follows a call, unless it failed.
abbrev pub after {ℓ κ} :
    {A : Type ℓ} {B : Type κ} → Option A × World → (A → Act B) → Option B × World
after (none, w) f = (none, w)
after (some a, w) f = f a w

infixl 5 ◌>>=◌ ◌>>◌
abbrev pub ◌>>=◌ {ℓ κ} : {A : Type ℓ} {B : Type κ} → Act A → (A → Act B) → Act B
◌>>=◌ m f w = after (m w) f

abbrev pub ◌>>◌ {κ} : {B : Type κ} → Act (Unit {0}) → Act B → Act B
m >> k = m >>= λ _. k

-- What a chain has done when it succeeds, handed on to the rest of a proof.
pub after-eq-some {ℓ κ ι} :
    {A : Type ℓ} {B : Type κ} {G : Type ι} (r : Option A × World) (f : A → Act B) {b : B}
    {w' : World}
    → after r f ≡ (some b, w')
    → ((a : A) (v : World) → r ≡ (some a, v) → f a v ≡ (some b, w') → G)
    → G
after-eq-some (none, v) f h k = cc
after-eq-some (some a, v) f h k = k a v refl h

pub lift-eq-some {ℓ κ ι} :
    {A : Type ℓ} {B : Type κ} {G : Type ι} (o : Option A) (f : A → Act B) (w : World) {b : B}
    {w' : World}
    → (lift o >>= f) w ≡ (some b, w')
    → ((a : A) → o ≡ some a → f a w ≡ (some b, w') → G)
    → G
lift-eq-some none f w h k = cc
lift-eq-some (some a) f w h k = k a refl h

pub pure-eq-some {ℓ} :
    {A : Type ℓ} (a b : A) (u w : World) → pure a u ≡ (some b, w) → (a ≡ b) × (u ≡ w)
pure-eq-some a b u w h = (cc h, cc h)

-- One call of the environment.
abbrev pub ask {ℓ} : {A : Type ℓ} → (ℕ → A) → Act A
ask f w = (some (f w.calls), record w { calls = w.calls + 1 })

abbrev pub try_ask {ℓ} : {A : Type ℓ} → (ℕ → Option A) → Act A
try_ask f w = (f w.calls, record w { calls = w.calls + 1 })

-- RAND_bytes fills as many bytes as it was asked for.
pub record IsEnv {PKey : Type 0} (e : Env PKey) : Type 0 where
  pub length-rand_bytes :
      (n k : ℕ) {bytes : Bytes} → e.rand_bytes n k ≡ some bytes → length bytes ≡ k

module _ {PKey : Type 0} (e : Env PKey) where
  -- `sendto`, which fails or passes the datagram on.
  unfoldable pub sendto : Addr → Bytes → Act (Unit {0})
  sendto to bytes w =
      if e.sendto_ok w.calls
      then (
        some tt,
        record w { calls = w.calls + 1; sent = record { to = to; bytes = bytes } ∷ w.sent },
      )
      else (none, record w { calls = w.calls + 1 })

  -- `write(tun_fd, ...)`
  unfoldable pub write_tun : Bytes → Act (Unit {0})
  write_tun bytes w =
      if e.write_ok w.calls
      then (some tt, record w { calls = w.calls + 1; written = bytes ∷ w.written })
      else (none, record w { calls = w.calls + 1 })

  pub sendto-eq-some {κ ι} :
      {B : Type κ} {G : Type ι} (to : Addr) (bytes : Bytes) (f : Unit {0} → Act B) (w : World)
      {b : B} {w' : World}
      → (sendto to bytes >>= f) w ≡ (some b, w')
      → ((v : World)
          → v.sent ≡ record { to = to; bytes = bytes } ∷ w.sent
          → f tt v ≡ (some b, w')
          → G)
      → G
  unfolding sendto
  sendto-eq-some {B} to bytes f w {b} {w'} h k = elim (Bool-cases (e.sendto_ok w.calls)) [
    | inl sends ↦
        k (record w { calls = w.calls + 1; sent = record { to = to; bytes = bytes } ∷ w.sent }) refl
          (rw sends at h)
    | inr fails ↦
        let h' : ◌≡◌ {A = Option B × World} (none, record w { calls = w.calls + 1 }) (some b, w') =
          rw fails at h in
        cc h'
  ]
