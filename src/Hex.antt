-- ===== src/Hex.antt =====
-- `bytes_to_hex` and `hex_to_bytes` of src/common.c. Strings are lists of character codes,
-- without the closing NUL.
pub mod RoundTrip
use lane_cove_tunnel.Prelude.{
  ℕ, zero, suc, ◌+◌, ◌-◌, ◌*◌, ◌/◌, ◌%◌, Bool, false, ◌&&◌, ◌||◌, Option, none, some, List, [], ◌∷◌,
  ltb, leb, ◌==◌, if◌then◌else◌, length, drop,
}

-- One digit of `%x`.
unfoldable pub hex_digit : ℕ → ℕ
hex_digit d = if ltb d 10 then b'0' + d else b'a' + (d - 10)

-- `sprintf(hex_out + i * 2, "%02x", bytes[i])` for each byte.
unfoldable pub bytes_to_hex : List ℕ → List ℕ
bytes_to_hex [] = []
bytes_to_hex (b ∷ bytes) = hex_digit (b / 16) ∷ hex_digit (b % 16) ∷ bytes_to_hex bytes

-- The value of a hexadecimal digit, in either case.
unfoldable pub digit_value : ℕ → Option ℕ
digit_value c =
    if leb b'0' c && leb c b'9'
    then some (c - b'0')
    else if leb b'a' c && leb c b'f'
    then some (c - b'a' + 10)
    else if leb b'A' c && leb c b'F'
    then some (c - b'A' + 10)
    else none

-- `isspace` of the C locale.
unfoldable pub is_space : ℕ → Bool
is_space c = c == 32 || (leb 9 c && leb c 13)

-- What `sscanf(s, "%02x%n", &byte, &n) == 1` leaves in `byte`, cut to an `unsigned char`, and in `n`.
pub record Scan : Type 0 where
  pub byte : ℕ
  pub n : ℕ

-- The second of the two characters that the width allows, after a first digit.
unfoldable pub scan_second : ℕ → ℕ → List ℕ → Option Scan
scan_second d n [] = some (record { byte = d; n = n + 1 })
scan_second d n (c ∷ s) = elim (digit_value c) [
  | none ↦ some (record { byte = d; n = n + 1 })
  | some e ↦ some (record { byte = d * 16 + e; n = n + 2 })
]

-- The one digit that the width leaves after a sign; a minus negates modulo 2 ^ 32.
unfoldable pub scan_signed : Bool → ℕ → List ℕ → Option Scan
scan_signed minus n [] = none
scan_signed minus n (c ∷ s) = elim (digit_value c) [
  | none ↦ none
  | some d ↦ some (record { byte = if minus then (256 - d) % 256 else d; n = n + 2 })
]

abbrev is_prefix : ℕ → List ℕ → Bool
is_prefix c [] = false
is_prefix c (x ∷ s) = c == b'0' && (x == b'x' || x == b'X')

-- `%02x`: white space is skipped outside the width of 2, then a sign or a digit comes. The
-- input `0x` is the beginning of a longer number and so no match at this width.
unfoldable pub scan_hex : ℕ → List ℕ → Option Scan
scan_hex n [] = none
scan_hex n (c ∷ s) =
    let rest = scan_hex (n + 1) s in
    if is_space c
    then rest
    else if c == b'+' || c == b'-'
    then scan_signed (c == b'-') n s
    else if is_prefix c s
    then none
    else elim (digit_value c) [ none ↦ none | some d ↦ scan_second d n s ]

-- The loop of `hex_to_bytes`, with `expected_len - i` rounds left and `hex + i * 2` at hand.
unfoldable pub hex_loop : ℕ → List ℕ → Option (List ℕ)
hex_loop zero hex = some []
hex_loop (suc left) hex = elim (scan_hex 0 hex) [
  | none ↦ none
  | some r ↦
      if r.n == 2
      then (elim (hex_loop left (drop 2 hex)) [ none ↦ none | some bytes ↦ some (r.byte ∷ bytes) ])
      else none
]

-- `none` is the return value -1.
unfoldable pub hex_to_bytes : List ℕ → ℕ → Option (List ℕ)
hex_to_bytes hex expected_len =
    if length hex == expected_len * 2 then hex_loop expected_len hex else none
