-- ===== src/Tests/Addresses.antt =====
-- The theorems on addresses (packages/research/src/ip.ts) at concrete inputs.
use open_blog_agent.Prelude.{
  ℕ, ◌<◌, ◌≡◌, ◌⊎◌, ◌≤◌, ◌≢◌, ◌+◌, refl, false, some, List, [], ◌∷◌, length, arith, if◌then◌else◌,
  any, nat_eq,
}
use open_blog_agent.Research.Codes.{Codes}
use open_blog_agent.Research.Codes.{
  split, decimal, split_pairs, to_hex, at_last, before, hexadecimal,
}
use open_blog_agent.Research.Ip.{
  Octets, octets, Groups, is_blocked_ipv4, is_blocked_ipv6, parse_ipv4, four, octet, groups_to_ipv4,
  ipv4_in_range, is_reserved_ipv6, to_int,
}
use open_blog_agent.Research.Addresses.{
  without_tail, rewrite_tail, read_halves, both, to_groups, collect_groups, hex_group, fill, zeros,
  only, blocks_ipv4, blocks_ipv6, destructured,
}
use open_blog_agent.Research.Ip.Ranges.{
  IsOctets, is_special, is_blocked_ipv4-eq-is_special, mapped, nat64, six_to_four,
  is_blocked_ipv6-embedded, is_blocked_ipv6-false,
}
use open_blog_agent.Research.Addresses.{is_private_address, drop_open, drop_close, parse_ipv6}
use open_blog_agent.Research.Addresses.Reading.{
  IsGroups, parse_ipv6-IsGroups, IsPublic, is_private_address-IsPublic,
}

abbrev metadata : Octets
metadata = octets 169 254 169 254

abbrev metadata_octets : IsOctets metadata
metadata_octets = record { o0 = omega arith; o1 = omega arith; o2 = omega arith; o3 = omega arith }

is_blocked_ipv4-eq-is_special_example : is_blocked_ipv4 metadata ≡ is_special metadata
is_blocked_ipv4-eq-is_special_example = is_blocked_ipv4-eq-is_special metadata metadata_octets

abbrev global : Groups
global = record { g0 = 0x2606; g1 = 0x4700; g2 = 0; g3 = 0; g4 = 0; g5 = 0; g6 = 0; g7 = 0x1111 }

is_blocked_ipv6-embedded_example :
    (is_blocked_ipv6 (mapped metadata) ≡ is_blocked_ipv4 metadata)
    × (is_blocked_ipv6 (nat64 metadata) ≡ is_blocked_ipv4 metadata)
    × (is_blocked_ipv6 (six_to_four metadata global) ≡ is_blocked_ipv4 metadata)
is_blocked_ipv6-embedded_example = is_blocked_ipv6-embedded metadata global metadata_octets

global_open : is_blocked_ipv6 global ≡ false
unfolding is_blocked_ipv6
global_open = refl

is_blocked_ipv6-false_example :
    (0 < 0x2606 + 0x4700 + 0 + 0 + 0 + 0)
    × ((0x2606 < 0xfc00) ⊎ ((0xfe00 ≤ 0x2606) × (0x2606 < 0xfe80)))
    × ((◌≢◌ {A = ℕ} 0x2606 0x2001) ⊎ ((◌≢◌ {A = ℕ} 0x4700 0) × (◌≢◌ {A = ℕ} 0x4700 0xdb8)))
is_blocked_ipv6-false_example = is_blocked_ipv6-false global (omega arith) global_open

-- "[64:ff9b::8.8.8.8]"
abbrev text : Codes
text =
    b'[' ∷ b'6' ∷ b'4' ∷ b':' ∷ b'f' ∷ b'f' ∷ b'9' ∷ b'b' ∷ b':' ∷ b':' ∷ b'8' ∷ b'.' ∷ b'8' ∷ b'.'
    ∷ b'8' ∷ b'.' ∷ b'8' ∷ b']' ∷ []

abbrev groups : List ℕ
groups = 0x64 ∷ 0xff9b ∷ 0 ∷ 0 ∷ 0 ∷ 0 ∷ 0x808 ∷ 0x808 ∷ []

text_read : parse_ipv6 (drop_close (drop_open text)) ≡ some groups
unfolding parse_ipv6 drop_close without_tail at_last before drop_open rewrite_tail parse_ipv4 split
    decimal read_halves split_pairs to_hex both to_groups collect_groups hex_group fill hexadecimal
    zeros only four octet
text_read = refl

parse_ipv6-IsGroups_example : (length groups ≡ 8) × IsGroups groups
parse_ipv6-IsGroups_example = parse_ipv6-IsGroups (drop_close (drop_open text)) groups text_read

-- An address with a colon is one of version 6.
abbrev is_ip : Codes → ℕ
is_ip address = if any (λ c. nat_eq c b':') address then 6 else 4

text_public : is_private_address is_ip text ≡ false
unfolding is_private_address parse_ipv6 drop_close without_tail at_last before drop_open
    rewrite_tail parse_ipv4 split decimal read_halves split_pairs to_hex both to_groups
    collect_groups hex_group fill hexadecimal zeros only four octet blocks_ipv4 blocks_ipv6
    destructured groups_to_ipv4 ipv4_in_range is_blocked_ipv4 is_blocked_ipv6 is_reserved_ipv6
    to_int
text_public = refl

is_private_address-IsPublic_example : IsPublic is_ip (drop_close (drop_open text))
is_private_address-IsPublic_example = is_private_address-IsPublic is_ip text text_public
