-- ===== src/Research/Ip.antt =====
-- packages/research/src/ip.ts: which addresses must not be fetched.
-- Shifts and masks are written as products and quotients: `x & mask` with a mask of the high bits
-- is compared by the quotient, `x >> 8` is `x / 256` and `x & 0xff` is `x % 256`.
pub mod Ranges
use open_blog_agent.Prelude.{
  ℕ, zero, suc, ◌+◌, ◌*◌, ◌-◌, ◌/◌, ◌%◌, ◌^◌, Bool, true, false, ◌&&◌, ◌||◌, not, Option, none,
  some, List, [], ◌∷◌, ◌++◌, if◌then◌else◌, leb, ltb, nat_eq, all, any, length, map,
}
use open_blog_agent.Research.Codes.{Codes, split, is_digit, decimal, is_hex_letter, hexadecimal}

-- four octets and eight groups of 16 bits
pub record Octets : Type 0 where
  pub o0 : ℕ
  pub o1 : ℕ
  pub o2 : ℕ
  pub o3 : ℕ

pub record Groups : Type 0 where
  pub g0 : ℕ
  pub g1 : ℕ
  pub g2 : ℕ
  pub g3 : ℕ
  pub g4 : ℕ
  pub g5 : ℕ
  pub g6 : ℕ
  pub g7 : ℕ

abbrev pub octets : ℕ → ℕ → ℕ → ℕ → Octets
octets a b c d = record { o0 = a; o1 = b; o2 = c; o3 = d }

-- `/^\d{1,3}$/.test(part) ? Number(part) : NaN`, and the bound of 255
unfoldable pub octet : Codes → Option ℕ
octet part =
    if leb 1 (length part) && (leb (length part) 3 && all is_digit part)
    then if leb (decimal 0 part) 255 then some (decimal 0 part) else none
    else none

unfoldable pub four : List (Option ℕ) → Option Octets
four (some a ∷ some b ∷ some c ∷ some d ∷ []) = some (octets a b c d)
four _ = none

unfoldable pub parse_ipv4 : Codes → Option Octets
unfolding octet four
parse_ipv4 address = four (map octet (split b'.' address))

unfoldable pub to_int : Octets → ℕ
to_int o = ((o.o0 * 256 + o.o1) * 256 + o.o2) * 256 + o.o3

-- the first `bits` bits agree
unfoldable pub ipv4_in_range : Octets → Octets → ℕ → Bool
unfolding to_int
ipv4_in_range o base bits = nat_eq (to_int o / 2 ^ (32 - bits)) (to_int base / 2 ^ (32 - bits))

-- IPV4_BLOCKED
abbrev pub ipv4_blocked : List (Octets × ℕ)
ipv4_blocked =
    (octets 0 0 0 0, 8)
    ∷ (octets 10 0 0 0, 8)
    ∷ (octets 100 64 0 0, 10)
    ∷ (octets 127 0 0 0, 8)
    ∷ (octets 169 254 0 0, 16)
    ∷ (octets 172 16 0 0, 12)
    ∷ (octets 192 0 0 0, 24)
    ∷ (octets 192 0 2 0, 24)
    ∷ (octets 192 88 99 0, 24)
    ∷ (octets 192 168 0 0, 16)
    ∷ (octets 198 18 0 0, 15)
    ∷ (octets 198 51 100 0, 24)
    ∷ (octets 203 0 113 0, 24)
    ∷ (octets 224 0 0 0, 4)
    ∷ (octets 240 0 0 0, 4)
    ∷ []

unfoldable pub is_blocked_ipv4 : Octets → Bool
is_blocked_ipv4 o = any (λ (r : Octets × ℕ). ipv4_in_range o r.0 r.1) ipv4_blocked

unfoldable pub groups_to_ipv4 : ℕ → ℕ → Octets
groups_to_ipv4 high low = octets (high / 256) (high % 256) (low / 256) (low % 256)

abbrev pub first_five_zero : Groups → Bool
first_five_zero g =
    nat_eq g.g0 0 && (nat_eq g.g1 0 && (nat_eq g.g2 0 && (nat_eq g.g3 0 && nat_eq g.g4 0)))

abbrev pub is_nat64 : Groups → Bool
is_nat64 g =
    nat_eq g.g0 0x64
    && (nat_eq g.g1 0xff9b
        && (nat_eq g.g2 0 && (nat_eq g.g3 0 && (nat_eq g.g4 0 && nat_eq g.g5 0))))

-- the tests of `isBlockedIPv6` that look at no embedded address
unfoldable pub is_reserved_ipv6 : Groups → Bool
is_reserved_ipv6 g =
    nat_eq g.g0 0x100 && (nat_eq g.g1 0 && (nat_eq g.g2 0 && nat_eq g.g3 0))
    || (nat_eq g.g0 0x2001 && (nat_eq g.g1 0 || nat_eq g.g1 0xdb8)
        || (nat_eq (g.g0 / 512) 0x7e
            || (nat_eq (g.g0 / 64) 0x3fa
                || (nat_eq (g.g0 / 64) 0x3fb || nat_eq (g.g0 / 256) 0xff))))

unfoldable pub is_blocked_ipv6 : Groups → Bool
unfolding groups_to_ipv4 is_reserved_ipv6
is_blocked_ipv6 g =
    if first_five_zero g && nat_eq g.g5 0
    then true
    else if first_five_zero g && nat_eq g.g5 0xffff
    then is_blocked_ipv4 (groups_to_ipv4 g.g6 g.g7)
    else if is_nat64 g
    then is_blocked_ipv4 (groups_to_ipv4 g.g6 g.g7)
    else if nat_eq g.g0 0x2002
    then is_blocked_ipv4 (groups_to_ipv4 g.g1 g.g2)
    else is_reserved_ipv6 g
