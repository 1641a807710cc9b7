-- ===== src/Hex/RoundTrip.antt =====
-- Printing and reading keys in hexadecimal.
use lane_cove_tunnel.Prelude.{
  ℕ, ◌+◌, ◌*◌, ◌/◌, ◌%◌, ◌<◌, ◌≡◌, refl, some, List, [], ◌∷◌, ◌==◌, length, arith, false,
}
use lane_cove_tunnel.Prelude.Bytes.{IsBytes}
use lane_cove_tunnel.Hex.{
  hex_digit, bytes_to_hex, digit_value, is_space, scan_hex, scan_second, hex_loop, hex_to_bytes,
}

length-bytes_to_hex : (bytes : List ℕ) → length (bytes_to_hex bytes) ≡ length bytes * 2
unfolding bytes_to_hex
length-bytes_to_hex [] = omega arith
length-bytes_to_hex (b ∷ bytes) = omega (arith, length-bytes_to_hex bytes)

digit_value-hex_digit : (d : ℕ) → d < 16 → digit_value (hex_digit d) ≡ some d
unfolding digit_value hex_digit
digit_value-hex_digit d h = ground arith

hex_digit_plain :
    (d : ℕ)
    → d < 16
    → (is_space (hex_digit d) ≡ false)
      × ((hex_digit d == b'+') ≡ false)
      × ((hex_digit d == b'-') ≡ false)
      × ((hex_digit d == b'x') ≡ false)
      × ((hex_digit d == b'X') ≡ false)
unfolding is_space hex_digit
hex_digit_plain d h = ground arith

scan_hex_pair :
    (a b : ℕ) (s : List ℕ)
    → a < 16
    → b < 16
    → scan_hex 0 (hex_digit a ∷ hex_digit b ∷ s) ≡ some (record { byte = a * 16 + b; n = 2 })
unfolding scan_hex scan_second
scan_hex_pair a b s ha hb =
    ground (
      arith,
      digit_value-hex_digit a,
      digit_value-hex_digit b,
      hex_digit_plain a,
      hex_digit_plain b,
    )

hex_loop-bytes_to_hex :
    (bytes : List ℕ) → IsBytes bytes → hex_loop (length bytes) (bytes_to_hex bytes) ≡ some bytes
unfolding hex_loop bytes_to_hex
hex_loop-bytes_to_hex [] h = refl
hex_loop-bytes_to_hex (b ∷ bytes) h =
    ground
      (arith, scan_hex_pair (b / 16) (b % 16) (bytes_to_hex bytes), hex_loop-bytes_to_hex bytes)

-- Reading back what was printed gives the bytes again, whatever their number.
pub hex_to_bytes-bytes_to_hex :
    (bytes : List ℕ) → IsBytes bytes → hex_to_bytes (bytes_to_hex bytes) (length bytes) ≡ some bytes
unfolding hex_to_bytes
hex_to_bytes-bytes_to_hex bytes h =
    ground (arith, length-bytes_to_hex bytes, hex_loop-bytes_to_hex bytes h)
