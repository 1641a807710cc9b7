-- ===== src/Prelude/Bits.antt =====
-- The binary digits of a machine word, and what the shifts, `|` and `&` of C do to each.
use Prim.Native.Nat.{ℕ, zero, suc, ◌+◌, ◌-◌, ◌*◌, ◌/◌, ◌%◌, ◌^◌, ◌≤◌, ◌<◌, min, max}
use Prim.Native.Nat.{bit_and, bit_or, digits, bitwise, bit_and-bitwise, bit_or-bitwise}
use mathlib.Core.Path.{◌≡◌, refl, ap, ◌∙◌}
use mathlib.Core.Logic.{◌≢◌}
use Prim.Native.Nat.add
use native.Mathlib.Nat.{
  pow-suc, one-le-pow, mul-one, div-one, mul_comm, mul_assoc, div-div-eq-div-mul, div-add-mod,
  mod-lt, mod-eq_of_lt, add-mul-mod_self_left,
}
use native.Mathlib.Omega.{arith}

-- Digit k of w, 0 or 1.
abbrev pub bit : ℕ → ℕ → ℕ
bit w zero = w % 2
bit w (suc k) = bit (w / 2) k

-- `&` and `|` are defined with fuel for the digits. Fuel to spare changes nothing, and so both go
-- digit by digit.
module _ (rest : ℕ → ℕ) (op : ℕ → ℕ → ℕ) where
  spare_fuel : (n x y : ℕ) → x ≤ n → digits rest op (suc n) x y ≡ digits rest op n x y
  spare_fuel (suc n) (suc x) y h = rw (spare_fuel n (suc x / 2) (y / 2) (omega arith)) refl
  spare_fuel zero (suc x) y h = absurd (omega arith)
  spare_fuel zero zero y h = refl
  spare_fuel (suc n) zero y h = refl

  much_fuel : (extra n x y : ℕ) → n ≡ extra + x → digits rest op n x y ≡ digits rest op x x y
  much_fuel zero n x y e =
      let same : n ≡ x = omega arith in ap (λ (m : ℕ). digits rest op m x y) same
  much_fuel (suc extra) n x y e =
      let less : n ≡ suc (extra + x) = omega arith in
      ap (λ (m : ℕ). digits rest op m x y) less
      ∙ (spare_fuel (extra + x) x y (omega arith) ∙ much_fuel extra (extra + x) x y refl)

  bitwise-halves :
      (x y : ℕ)
      → rest y ≡ op 0 (y % 2) + 2 * rest (y / 2)
      → bitwise rest op x y ≡ op (x % 2) (y % 2) + 2 * bitwise rest op (x / 2) (y / 2)
  bitwise-halves zero y none_left = none_left
  bitwise-halves (suc x) y none_left =
      let half : ℕ = suc x / 2 in omega (arith, much_fuel (x - half) x half (y / 2) (omega arith))

pub bit_or-halves : (x y : ℕ) → bit_or x y ≡ max (x % 2) (y % 2) + 2 * bit_or (x / 2) (y / 2)
bit_or-halves x y = simp bit_or-bitwise (bitwise-halves (λ y. y) max x y (omega arith))

pub bit_and-halves : (x y : ℕ) → bit_and x y ≡ min (x % 2) (y % 2) + 2 * bit_and (x / 2) (y / 2)
bit_and-halves x y = simp bit_and-bitwise (bitwise-halves (λ y. 0) min x y (omega arith))

pub bit-le : (w k : ℕ) → bit w k ≤ 1
bit-le w zero = omega arith
bit-le w (suc k) = bit-le (w / 2) k

pub bit-zero : (k : ℕ) → bit 0 k ≡ 0
bit-zero zero = refl
bit-zero (suc k) = bit-zero k

-- `a | b`, digit by digit.
pub bit-bit_or : (k a b : ℕ) → bit (bit_or a b) k ≡ max (bit a k) (bit b k)
bit-bit_or zero a b = omega (arith, bit_or-halves a b)
bit-bit_or (suc k) a b =
    let halved : bit_or a b / 2 ≡ bit_or (a / 2) (b / 2) = omega (arith, bit_or-halves a b) in
    rw halved (bit-bit_or k (a / 2) (b / 2))

two-mul-half : (w n : ℕ) → w * 2 ^ suc n ≡ 2 * (w * 2 ^ n)
two-mul-half w n = omega (arith, ap (λ (t : ℕ). w * t) (pow-suc 2 n))

-- `w << n` has zeros below digit n, and the digits of w from there on.
pub bit-shl_low : (n k w : ℕ) → k < n → bit (w * 2 ^ n) k ≡ 0
bit-shl_low zero k w h = absurd (omega arith)
bit-shl_low (suc n) zero w h = omega (arith, two-mul-half w n)
bit-shl_low (suc n) (suc k) w h =
    let halved : w * 2 ^ suc n / 2 ≡ w * 2 ^ n = omega (arith, two-mul-half w n) in
    rw halved (bit-shl_low n k w (omega arith))

pub bit-shl_high : (n k w : ℕ) → bit (w * 2 ^ n) (n + k) ≡ bit w k
bit-shl_high zero k w = rw (add.zero, mul-one)
bit-shl_high (suc n) k w =
    let halved : w * 2 ^ suc n / 2 ≡ w * 2 ^ n = omega (arith, two-mul-half w n) in
    rw (add.suc n k) (ap (λ (t : ℕ). bit t (n + k)) halved ∙ bit-shl_high n k w)

-- `w >> n` drops the n lowest digits.
pub bit-shr : (n k w : ℕ) → bit (w / 2 ^ n) k ≡ bit w (n + k)
bit-shr zero k w = rw (add.zero, div-one)
bit-shr (suc n) k w =
    let halved : w / 2 ^ suc n ≡ w / 2 / 2 ^ n =
      rw (pow-suc 2 n, mul_comm (2 ^ n) 2, ← div-div-eq-div-mul w 2 (2 ^ n)) in
    rw (add.suc n k, halved) (bit-shr n k (w / 2))

-- The lowest digit and the rest of `w % 2 ^ suc m`.
mod-two-pow-suc : (m w : ℕ) → w % 2 ^ suc m ≡ w % 2 + 2 * (w / 2 % 2 ^ m)
mod-two-pow-suc m w =
    let p : ℕ = 2 ^ m in
    let r : ℕ = w % 2 + 2 * (w / 2 % p) in
    let q : ℕ = w / 2 / p in
    let e : 2 * p * q ≡ 2 * (p * q) = mul_assoc 2 p q in
    let split : w ≡ r + 2 * p * q = omega (arith, e, div-add-mod (w / 2) p) in
    let fits : r < 2 * p =
      omega (arith, one-le-pow m 2, mod-lt (w / 2) (one-le-pow m 2 (omega arith))) in
    let double : 2 ^ suc m ≡ 2 * p = omega (arith, pow-suc 2 m) in
    rw double
      (ap (λ (t : ℕ). t % (2 * p)) split ∙ add-mul-mod_self_left r (2 * p) q ∙ mod-eq_of_lt fits)

-- Cutting a number to m digits leaves those digits alone.
pub bit-mod : (m k w : ℕ) → k < m → bit (w % 2 ^ m) k ≡ bit w k
bit-mod zero k w h = absurd (omega arith)
bit-mod (suc m) zero w h = omega (arith, mod-two-pow-suc m w)
bit-mod (suc m) (suc k) w h =
    let halved : w % 2 ^ suc m / 2 ≡ w / 2 % 2 ^ m = omega (arith, mod-two-pow-suc m w) in
    rw halved (bit-mod m k (w / 2) (omega arith))

-- A word below 2 ^ m has no digit from m on.
pub bit_above : (m k w : ℕ) → w < 2 ^ m → m ≤ k → bit w k ≡ 0
bit_above zero k w h le = let none_left : w ≡ 0 = omega arith in rw none_left (bit-zero k)
bit_above (suc m) zero w h le = absurd (omega arith)
bit_above (suc m) (suc k) w h le = bit_above m k (w / 2) (omega (arith, pow-suc 2 m)) (omega arith)

-- `1 << n` has digit n alone.
pub bit-one-shl_self : (n : ℕ) → bit (2 ^ n) n ≡ 1
bit-one-shl_self zero = refl
bit-one-shl_self (suc n) =
    let halved : 2 ^ suc n / 2 ≡ 2 ^ n = omega (arith, pow-suc 2 n) in
    rw halved (bit-one-shl_self n)

pub bit-one-shl_ne : (n k : ℕ) → n ≢ k → bit (2 ^ n) k ≡ 0
bit-one-shl_ne zero zero ne = absurd (ne refl)
bit-one-shl_ne zero (suc k) ne = bit-zero k
bit-one-shl_ne (suc n) zero ne = omega (arith, pow-suc 2 n)
bit-one-shl_ne (suc n) (suc k) ne =
    let halved : 2 ^ suc n / 2 ≡ 2 ^ n = omega (arith, pow-suc 2 n) in
    rw halved (bit-one-shl_ne n k (λ e. ne (ap suc e)))

-- No digit of 0 is set; `most` bounds the number.
pub bit_and-none : (x most : ℕ) → x ≤ most → bit_and x 0 ≡ 0
bit_and-none zero most h = refl
bit_and-none (suc x) (suc most) h =
    omega (arith, bit_and-none (suc x / 2) most (omega arith), bit_and-halves (suc x) 0)
bit_and-none (suc x) zero h = absurd (omega arith)

-- `w & (1 << n)` is digit n in its place: non-zero exactly when the digit is set.
pub bit_and-one-shl : (n w : ℕ) → bit_and w (2 ^ n) ≡ bit w n * 2 ^ n
bit_and-one-shl zero w =
    omega (arith, bit_and-halves w 1, bit_and-none (w / 2) (w / 2) (omega arith))
bit_and-one-shl (suc n) w =
    let halved : 2 ^ suc n / 2 ≡ 2 ^ n = omega (arith, pow-suc 2 n) in
    omega (
      arith,
      bit_and-halves w (2 ^ suc n),
      pow-suc 2 n,
      ap (bit_and (w / 2)) halved,
      bit_and-one-shl n (w / 2),
      two-mul-half (bit (w / 2) n) n,
    )

-- `a | b` of two words is a word.
pub bit_or-lt : (m a b : ℕ) → a < 2 ^ m → b < 2 ^ m → bit_or a b < 2 ^ m
bit_or-lt zero a b p q =
    let a0 : a ≡ 0 = omega arith in let b0 : b ≡ 0 = omega arith in rw (a0, b0) (omega arith)
bit_or-lt (suc m) a b p q = omega (
  arith,
  pow-suc 2 m,
  bit_or-halves a b,
  bit_or-lt m (a / 2) (b / 2) (omega (arith, pow-suc 2 m)) (omega (arith, pow-suc 2 m)),
)
