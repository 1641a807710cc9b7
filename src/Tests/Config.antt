-- ===== src/Tests/Config.antt =====
-- The configuration: a CIDR.
use lane_cove_tunnel.Prelude.{
  ℕ, ◌/◌, ◌^◌, ◌≤◌, ◌≡◌, ◌↔◌, refl, true, Option, some, none, List, [], ◌∷◌, take, if◌then◌else◌,
  arith,
}
use lane_cove_tunnel.Prelude.Bytes.{bytes_eq}
use lane_cove_tunnel.Prelude.Int.{neg}
use lane_cove_tunnel.Hex.{is_space}
use lane_cove_tunnel.Node.{IpPrefix}
use lane_cove_tunnel.Sessions.{route_match}
use lane_cove_tunnel.Cidr.{
  read_digits, atoi, strtol, split_slash, prefix_of, mask_of, prefix_at, parse_cidr,
}
use lane_cove_tunnel.Cidr.Mask.{parse_cidr-matches}

-- 10.9.5.7
abbrev address : List ℕ
address = b'1' ∷ b'0' ∷ b'.' ∷ b'9' ∷ b'.' ∷ b'5' ∷ b'.' ∷ b'7' ∷ []

abbrev cidr : List ℕ
cidr = b'1' ∷ b'0' ∷ b'.' ∷ b'9' ∷ b'.' ∷ b'5' ∷ b'.' ∷ b'7' ∷ b'/' ∷ b'2' ∷ b'4' ∷ []

abbrev pton : List ℕ → Option ℕ
pton s = if bytes_eq s address then some 0x0a090507 else none

abbrev route : IpPrefix
route = record { network = 0x0a090500; mask = 0xffffff00; prefix_len = 24 }

parses : parse_cidr pton cidr ≡ some route
unfolding parse_cidr split_slash prefix_of atoi strtol neg read_digits is_space mask_of prefix_at
    bytes_eq
parses = refl

finds : pton (split_slash (take 31 cidr)).0 ≡ some 0x0a090507
unfolding split_slash bytes_eq
finds = refl

parse_cidr-matches_example :
    (24 ≤ 32) × (route_match 0x0a0905ff route ≡ true ↔ (0x0a0905ff / 2 ^ 8 ≡ 0x0a090507 / 2 ^ 8))
parse_cidr-matches_example =
    parse_cidr-matches pton cidr route 0x0a090507 0x0a0905ff parses finds (omega arith)
      (omega arith)

-- `atoi` takes what is no number for 0: a route to everything.
not_a_number : prefix_of (some (b'x' ∷ b'x' ∷ [])) ≡ some 0
unfolding prefix_of atoi strtol neg read_digits is_space
not_a_number = refl
