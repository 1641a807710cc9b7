-- ===== src/Decimal/RoundTrip.antt =====
-- Numbers that are printed by `%d` and read by `atoi` (src/peer.c).
use lane_cove_tunnel.Prelude.{
  ℕ, zero, suc, ◌+◌, ◌-◌, ◌*◌, ◌/◌, ◌%◌, ◌^◌, ◌≤◌, ◌<◌, ◌≡◌, refl, ◌∙◌, ap, sym, true, ◌&&◌,
  Bool-cases, if_both, inl, inr, [], ◌∷◌, ltb, leb, min, length, arith,
}
use lane_cove_tunnel.Prelude.Bytes.{Bytes}
use lane_cove_tunnel.Prelude.Int.{pos}
use lane_cove_tunnel.Hex.{is_space}
use lane_cove_tunnel.Cidr.{read_digits, strtol, int_of, atoi}
use lane_cove_tunnel.Decimal.{digits, decimal}

read_digit :
    (m d : ℕ) (acc : Bytes)
    → d < 10
    → read_digits m ((b'0' + d) ∷ acc) ≡ read_digits (m * 10 + d) acc
unfolding read_digits
read_digit m d acc h =
    let is_digit : (leb b'0' (b'0' + d) && leb (b'0' + d) b'9') ≡ true = ground arith in
    rw (read_digits, is_digit) (ap (λ (k : ℕ). read_digits k acc) (omega arith))

read_digits-digits :
    (fuel n : ℕ) (acc : Bytes)
    → n ≤ fuel
    → read_digits 0 (digits (suc fuel) n acc) ≡ read_digits n acc
unfolding digits
read_digits-digits zero n acc h =
    let small : ltb n 10 ≡ true = ground arith in
    rw (digits, small)
      (read_digit 0 (n % 10) acc (omega arith) ∙ ap (λ (k : ℕ). read_digits k acc) (omega arith))
read_digits-digits (suc fuel) n acc h = elim (Bool-cases (ltb n 10)) [
  | inl small ↦
      rw (small, digits)
        (read_digit 0 (n % 10) acc (omega arith)
          ∙ ap (λ (k : ℕ). read_digits k acc) (ground (arith, small)))
  | inr big ↦
      rw (big, digits)
        (read_digits-digits fuel (n / 10) ((b'0' + n % 10) ∷ acc) (ground (arith, big))
          ∙ (read_digit (n / 10) (n % 10) acc (omega arith)
              ∙ ap (λ (k : ℕ). read_digits k acc) (omega arith)))
]

-- The first character is a digit.
digits_head :
    (fuel n : ℕ) (acc : Bytes)
    → (d : ℕ) × (rest : Bytes) × (d < 10) × (digits (suc fuel) n acc ≡ (b'0' + d) ∷ rest)
unfolding digits
digits_head zero n acc = elim (Bool-cases (ltb n 10)) [
  | inl small ↦ (n % 10, acc, omega arith, rw (small, digits) refl)
  | inr big ↦ (n % 10, acc, omega arith, rw (big, digits) refl)
]
digits_head (suc fuel) n acc = elim (Bool-cases (ltb n 10)) [
  | inl small ↦ (n % 10, acc, omega arith, rw (small, digits) refl)
  | inr big ↦
      let (d, rest, low, same) = digits_head fuel (n / 10) ((b'0' + n % 10) ∷ acc) in
      (d, rest, low, rw (big, digits) same)
]

strtol_digit :
    (d : ℕ) (rest : Bytes)
    → d < 10
    → strtol ((b'0' + d) ∷ rest) ≡ pos (read_digits 0 ((b'0' + d) ∷ rest))
unfolding strtol is_space
strtol_digit d rest low = ground (arith, low)

read_digits_nil : (n : ℕ) → read_digits n [] ≡ n
unfolding read_digits
read_digits_nil n = refl

int_of_small : (n : ℕ) → n < 2 ^ 31 → int_of (pos n) ≡ pos n
int_of_small n h =
    let kept : min n (2 ^ 63 - 1) % 2 ^ 32 ≡ n = omega (arith, h) in
    let low : ltb n (2 ^ 31) ≡ true = ground (arith, h) in rw kept (rw low refl)

strtol-decimal : (n : ℕ) → strtol (decimal n) ≡ pos n
unfolding decimal
strtol-decimal n =
    let (d, rest, low, same) = digits_head n n [] in
    let read : read_digits 0 ((b'0' + d) ∷ rest) ≡ n =
      ap (read_digits 0) (sym same)
      ∙ (read_digits-digits n n [] (omega arith) ∙ read_digits_nil n) in
    ap strtol same ∙ (strtol_digit d rest low ∙ ap pos read)

-- `atoi` reads back the numbers that are an `int`.
pub atoi-decimal : (n : ℕ) → n < 2 ^ 31 → atoi (decimal n) ≡ pos n
unfolding atoi
atoi-decimal n h = ap int_of (strtol-decimal n) ∙ int_of_small n h

-- k digits are enough below 10 ^ k.
length-digits :
    (fuel k n : ℕ) (acc : Bytes)
    → n ≤ fuel
    → n < 10 ^ suc k
    → length (digits (suc fuel) n acc) ≤ length acc + suc k
unfolding digits
length-digits zero k n acc h lt =
    if_both (λ (s : Bytes). length s ≤ length acc + suc k) (ltb n 10) _ _ (omega arith)
      (omega arith)
length-digits (suc fuel) zero n acc h lt =
    let small : ltb n 10 ≡ true = ground arith in rw (small, digits) (omega arith)
length-digits (suc fuel) (suc k) n acc h lt = elim (Bool-cases (ltb n 10)) [
  | inl small ↦ rw (small, digits) (omega arith)
  | inr big ↦
      let power : 10 ^ suc (suc k) ≡ 10 * 10 ^ suc k = omega arith in
      let later =
        length-digits fuel k (n / 10) ((b'0' + n % 10) ∷ acc) (ground (arith, big))
          (omega (arith, power)) in
      rw (big, digits) (omega (arith, later))
]

-- The text of a port has at most 5 characters, which fit `port_str` in resolve_endpoint.
pub length-decimal : (port : ℕ) → port ≤ 65535 → length (decimal port) ≤ 5
unfolding decimal
length-decimal port h = length-digits port 4 port [] (omega arith) (omega arith)

-- And that of a prefix length at most 2.
pub length-decimal_short : (n : ℕ) → n ≤ 99 → length (decimal n) ≤ 2
unfolding decimal
length-decimal_short n h = length-digits n 1 n [] (omega arith) (omega arith)
