-- ===== src/Cidr/Mask.antt =====
-- The masks of `parse_cidr` (src/peer.c), and what a parsed prefix matches.
use lane_cove_tunnel.Prelude.{
  ℕ, zero, suc, ◌-◌, ◌*◌, ◌/◌, ◌^◌, ◌≤◌, ◌<◌, ◌≡◌, ◌↔◌, refl, sym, ◌∙◌, ap, Bool, true, ◌&&◌, ◌==◌,
  Option, none, some, List, arith, bit_and, Option-cases, Bool-cases, inl, inr, ==_iff, take,
}
use native.Mathlib.Nat.{
  pow-suc, one-le-pow, div-div-eq-div-mul, mul_comm, mul-one, div-one, mul-div_cancel,
  div-lt_iff_lt-mul,
}
use lane_cove_tunnel.Prelude.Bits.{bit_and-halves, bit_and-none}
use lane_cove_tunnel.Node.{IpPrefix}
use lane_cove_tunnel.Sessions.{route_match}
use lane_cove_tunnel.Cidr.{split_slash, prefix_of, mask_of, prefix_at, parse_cidr}

-- p ones keep a number below 2 ^ p.
bit_and-ones : (p x : ℕ) → x < 2 ^ p → bit_and x (2 ^ p - 1) ≡ x
bit_and-ones zero x h = omega (arith, bit_and-none x x (omega arith))
bit_and-ones (suc p) x h =
    let half : (2 ^ suc p - 1) / 2 ≡ 2 ^ p - 1 = omega (arith, pow-suc 2 p, one-le-pow p 2) in
    omega (
      arith,
      pow-suc 2 p,
      one-le-pow p 2,
      bit_and-halves x (2 ^ suc p - 1),
      ap (bit_and (x / 2)) half,
      bit_and-ones p (x / 2) (omega (arith, pow-suc 2 p)),
    )

twice : (m k : ℕ) → m * 2 ^ suc k ≡ 2 * (m * 2 ^ k)
twice m k = omega (arith, ap (λ (t : ℕ). m * t) (pow-suc 2 k))

-- k zeros at the end of a mask clear k digits.
bit_and-shl : (k m x : ℕ) → bit_and x (m * 2 ^ k) ≡ bit_and (x / 2 ^ k) m * 2 ^ k
bit_and-shl zero m x = rw (mul-one, div-one, mul-one)
bit_and-shl (suc k) m x =
    let half : m * 2 ^ suc k / 2 ≡ m * 2 ^ k = omega (arith, twice m k) in
    let rest : x / 2 ^ suc k ≡ x / 2 / 2 ^ k =
      rw (pow-suc 2 k, mul_comm (2 ^ k) 2, ← div-div-eq-div-mul x 2 (2 ^ k)) in
    rw rest (
      omega (
        arith,
        bit_and-halves x (m * 2 ^ suc k),
        twice m k,
        ap (bit_and (x / 2)) half,
        bit_and-shl k m (x / 2),
        twice (bit_and (x / 2 / 2 ^ k) m) k,
      ))

-- What holds of the numbers up to a bound is seen by trying them.
holds_to : ℕ → (ℕ → Bool) → Bool
holds_to zero test = test zero
holds_to (suc n) test = test (suc n) && holds_to n test

holds_to_sound : (n : ℕ) (test : ℕ → Bool) (k : ℕ) → holds_to n test ≡ true → k ≤ n → test k ≡ true
unfolding holds_to
holds_to_sound zero test k h le = let none_left : k ≡ 0 = omega arith in rw none_left h
holds_to_sound (suc n) test k h le = elim (Bool-cases (k == suc n)) [
  | inl last ↦ rw ((==_iff k (suc n)).0 last) (ground arith)
  | inr other ↦ holds_to_sound n test k (ground arith) (ground (arith, (==_iff k (suc n)).1))
]

mask_test :
    holds_to 32 (λ p. mask_of p == (2 ^ p - 1) * 2 ^ (32 - p) && 2 ^ p * 2 ^ (32 - p) == 2 ^ 32)
    ≡ true
unfolding holds_to mask_of
mask_test = refl

pub mask_of-ones :
    (p : ℕ) → p ≤ 32 → (mask_of p ≡ (2 ^ p - 1) * 2 ^ (32 - p)) × (2 ^ p * 2 ^ (32 - p) ≡ 2 ^ 32)
mask_of-ones p le =
    let both =
      holds_to_sound 32
        (λ p. mask_of p == (2 ^ p - 1) * 2 ^ (32 - p) && 2 ^ p * 2 ^ (32 - p) == 2 ^ 32) p mask_test
        le in
    ((==_iff _ _).0 (ground arith), (==_iff _ _).0 (ground arith))

pub bit_and-mask_of :
    (p x : ℕ) → p ≤ 32 → x < 2 ^ 32 → bit_and x (mask_of p) ≡ x / 2 ^ (32 - p) * 2 ^ (32 - p)
bit_and-mask_of p x le h =
    let (ones, whole) = mask_of-ones p le in
    let few : x / 2 ^ (32 - p) < 2 ^ p =
      (div-lt_iff_lt-mul (one-le-pow (32 - p) 2 (omega arith))).1 (omega (arith, whole)) in
    rw ones (
      bit_and-shl (32 - p) (2 ^ p - 1) x
      ∙ ap (λ (t : ℕ). t * 2 ^ (32 - p)) (bit_and-ones p (x / 2 ^ (32 - p)) few))

prefix_at-matches :
    (addr p ip : ℕ)
    → p ≤ 32
    → addr < 2 ^ 32
    → ip < 2 ^ 32
    → route_match ip (prefix_at addr p) ≡ true ↔ (ip / 2 ^ (32 - p) ≡ addr / 2 ^ (32 - p))
unfolding prefix_at
prefix_at-matches addr p ip le ha hi =
    let k : ℕ = 2 ^ (32 - p) in
    let some_unit : 1 ≤ k = one-le-pow (32 - p) 2 (omega arith) in
    let mine = bit_and-mask_of p ip le hi in
    let its = bit_and-mask_of p addr le ha in
    (
      λ h.
          let same : ip / k * k ≡ addr / k * k = sym mine ∙ (==_iff _ _).0 h ∙ its in
          sym (mul-div_cancel (ip / k) some_unit)
          ∙ ap (λ (t : ℕ). t / k) same
          ∙ mul-div_cancel (addr / k) some_unit,
      λ h. (==_iff _ _).1 (mine ∙ ap (λ (t : ℕ). t * k) h ∙ sym its),
    )

pub prefix_of-bound : (s : Option (List ℕ)) (p : ℕ) → prefix_of s ≡ some p → p ≤ 32
unfolding prefix_of
prefix_of-bound none p h = ground arith
prefix_of-bound (some s) p h = ground arith

-- A CIDR that is accepted has a prefix length of 32 at most and an address before the slash, and its
-- route matches exactly the addresses that share the leading bits of that length with it.
pub parse_cidr-matches :
    (inet_pton : List ℕ → Option ℕ) (cidr : List ℕ) (r : IpPrefix) (addr ip : ℕ)
    → parse_cidr inet_pton cidr ≡ some r
    → inet_pton (split_slash (take 31 cidr)).0 ≡ some addr
    → addr < 2 ^ 32
    → ip < 2 ^ 32
    → (r.prefix_len ≤ 32)
      × (route_match ip r ≡ true ↔ (ip / 2 ^ (32 - r.prefix_len) ≡ addr / 2 ^ (32 - r.prefix_len)))
unfolding parse_cidr prefix_at
parse_cidr-matches inet_pton cidr r addr ip h known ha hi =
    elim (Option-cases (prefix_of (split_slash (take 31 cidr)).1)) [
      | inl bad ↦
          let h' : ◌≡◌ {A = Option IpPrefix} none (some r) = rw (parse_cidr, bad) at h in cc h'
      | inr (p, good) ↦
          let h' : some (prefix_at addr p) ≡ some r = rw (parse_cidr, good, known) at h in
          let same : prefix_at addr p ≡ r = cc h' in
          let le = prefix_of-bound _ p good in
          rw (← same) (le, prefix_at-matches addr p ip le ha hi)
    ]
