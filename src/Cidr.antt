-- ===== src/Cidr.antt =====
-- `parse_cidr` of src/peer.c. `inet_pton` followed by `ntohl` is a parameter: the address in host
-- byte order, or `none`.
pub mod Mask
use lane_cove_tunnel.Prelude.{
  ℕ, zero, ◌+◌, ◌-◌, ◌*◌, ◌%◌, ◌^◌, Bool, true, false, ◌&&◌, ◌||◌, Option, none, some, List, [],
  ◌∷◌, ltb, leb, min, ◌==◌, if◌then◌else◌, take, bit_and,
}
use lane_cove_tunnel.Prelude.Int.{ℤ, pos, negsuc, neg}
use lane_cove_tunnel.Hex.{is_space}
use lane_cove_tunnel.Node.{IpPrefix}

-- The digits that `atoi` reads.
unfoldable pub read_digits : ℕ → List ℕ → ℕ
read_digits n [] = n
read_digits n (c ∷ s) =
    let rest = read_digits (n * 10 + (c - b'0')) s in if leb b'0' c && leb c b'9' then rest else n

-- The number, before it is brought to the range of `long`.
unfoldable pub strtol : List ℕ → ℤ
unfolding neg
strtol [] = pos 0
strtol (c ∷ s) =
    let rest = strtol s in
    if is_space c
    then rest
    else if c == b'-'
    then neg (read_digits 0 s)
    else if c == b'+'
    then pos (read_digits 0 s)
    else pos (read_digits 0 (c ∷ s))

-- `(int) n` for the low 32 bits of n.
abbrev pub to_int : ℕ → ℤ
to_int n = if ltb n (2 ^ 31) then pos n else negsuc (2 ^ 32 - 1 - n)

-- A number out of the range of `long` is brought to its bound, and of a `long` the low 32 bits are
-- taken, as glibc does.
abbrev pub int_of : ℤ → ℤ
int_of (pos n) = to_int (min n (2 ^ 63 - 1) % 2 ^ 32)
int_of (negsuc n) = to_int (2 ^ 32 - 1 - min n (2 ^ 63 - 1) % 2 ^ 32)

unfoldable pub atoi : List ℕ → ℤ
atoi s = int_of (strtol s)

-- `strchr(buf, '/')`: what stands before and, if there is one, behind the first slash.
unfoldable pub split_slash : List ℕ → List ℕ × Option (List ℕ)
split_slash [] = ([], none)
split_slash (c ∷ s) =
    let (before, after) = split_slash s in if c == b'/' then ([], some s) else (c ∷ before, after)

-- The prefix length, 32 without a slash.
unfoldable pub prefix_of : Option (List ℕ) → Option ℕ
prefix_of none = some 32
prefix_of (some s) = elim (atoi s) [ pos n ↦ if ltb 32 n then none else some n | negsuc n ↦ none ]

-- `prefix_len == 0 ? 0u : (~0u << (32 - prefix_len))`
unfoldable pub mask_of : ℕ → ℕ
mask_of prefix_len = if prefix_len == 0 then 0 else (2 ^ 32 - 1) * 2 ^ (32 - prefix_len) % 2 ^ 32

unfoldable pub prefix_at : ℕ → ℕ → IpPrefix
prefix_at addr prefix_len = record {
  network = bit_and addr (mask_of prefix_len);
  mask = mask_of prefix_len;
  prefix_len = prefix_len;
}

-- `strncpy` keeps 31 characters.
unfoldable pub parse_cidr : (List ℕ → Option ℕ) → List ℕ → Option IpPrefix
parse_cidr inet_pton cidr =
    let (address, length_part) = split_slash (take 31 cidr) in
    elim (prefix_of length_part) [
      | none ↦ none
      | some prefix_len ↦ elim (inet_pton address) [
        | none ↦ none
        | some addr ↦ some (prefix_at addr prefix_len)
      ]
    ]
