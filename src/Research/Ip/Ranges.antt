-- ===== src/Research/Ip/Ranges.antt =====
-- The addresses that packages/research/src/ip.ts blocks, described octet by octet.
use open_blog_agent.Prelude.{
  ℕ, ◌<◌, ◌≡◌, ◌&&◌, ◌||◌, ◌*◌, ◌+◌, ◌≤◌, ◌⊎◌, ◌≢◌, arith, leb, nat_eq, Bool, false, ap,
}
use open_blog_agent.Research.Ip.{
  Octets, octets, ipv4_in_range, Groups, is_blocked_ipv6, is_blocked_ipv4, groups_to_ipv4,
}

-- Every octet is below 256.
pub record IsOctets (o : Octets) : Type 0 where
  pub o0 : o.o0 < 256
  pub o1 : o.o1 < 256
  pub o2 : o.o2 < 256
  pub o3 : o.o3 < 256

-- The blocked networks, written out octet by octet.
pub is_special : Octets → Bool
is_special o =
    nat_eq o.o0 0
    || (nat_eq o.o0 10
        || (nat_eq o.o0 100 && (leb 64 o.o1 && leb o.o1 127)
            || (nat_eq o.o0 127
                || (nat_eq o.o0 169 && nat_eq o.o1 254
                    || (nat_eq o.o0 172 && (leb 16 o.o1 && leb o.o1 31)
                        || (nat_eq o.o0 192
                              && (nat_eq o.o1 0 && (nat_eq o.o2 0 || nat_eq o.o2 2)
                                  || (nat_eq o.o1 88 && nat_eq o.o2 99 || nat_eq o.o1 168))
                            || (nat_eq o.o0 198
                                  && (leb 18 o.o1 && leb o.o1 19
                                      || nat_eq o.o1 51 && nat_eq o.o2 100)
                                || (nat_eq o.o0 203 && (nat_eq o.o1 0 && nat_eq o.o2 113)
                                    || leb 224 o.o0))))))))

module _ (o : Octets) (v : IsOctets o) where
  by_8 : (a : ℕ) → ipv4_in_range o (octets a 0 0 0) 8 ≡ nat_eq o.o0 a
  unfolding ipv4_in_range
  by_8 a = ground arith

  by_16 :
      (a b : ℕ) → b < 256 → ipv4_in_range o (octets a b 0 0) 16 ≡ (nat_eq o.o0 a && nat_eq o.o1 b)
  unfolding ipv4_in_range
  by_16 a b h = ground arith

  by_24 :
      (a b c : ℕ)
      → b < 256
      → c < 256
      → ipv4_in_range o (octets a b c 0) 24 ≡ (nat_eq o.o0 a && (nat_eq o.o1 b && nat_eq o.o2 c))
  unfolding ipv4_in_range
  by_24 a b c h k = ground arith

  cgnat :
      ipv4_in_range o (octets 100 64 0 0) 10 ≡ (nat_eq o.o0 100 && (leb 64 o.o1 && leb o.o1 127))
  unfolding ipv4_in_range
  cgnat = ground arith

  private_12 :
      ipv4_in_range o (octets 172 16 0 0) 12 ≡ (nat_eq o.o0 172 && (leb 16 o.o1 && leb o.o1 31))
  unfolding ipv4_in_range
  private_12 = ground arith

  benchmarking :
      ipv4_in_range o (octets 198 18 0 0) 15 ≡ (nat_eq o.o0 198 && (leb 18 o.o1 && leb o.o1 19))
  unfolding ipv4_in_range
  benchmarking = ground arith

  multicast : ipv4_in_range o (octets 224 0 0 0) 4 ≡ (leb 224 o.o0 && leb o.o0 239)
  unfolding ipv4_in_range
  multicast = ground arith

  reserved : ipv4_in_range o (octets 240 0 0 0) 4 ≡ leb 240 o.o0
  unfolding ipv4_in_range
  reserved = ground arith

  -- An address of four octets is blocked exactly when it lies in one of the special networks: this
  -- network, private, shared, loopback, link-local, protocol assignments, documentation, relay,
  -- benchmarking, multicast or reserved.
  pub is_blocked_ipv4-eq-is_special : is_blocked_ipv4 o ≡ is_special o
  unfolding is_blocked_ipv4 is_special
  is_blocked_ipv4-eq-is_special =
      simp
        (
          by_8 0,
          by_8 10,
          by_8 127,
          by_16 169 254 (omega arith),
          by_16 192 168 (omega arith),
          by_24 192 0 0 (omega arith) (omega arith),
          by_24 192 0 2 (omega arith) (omega arith),
          by_24 192 88 99 (omega arith) (omega arith),
          by_24 198 51 100 (omega arith) (omega arith),
          by_24 203 0 113 (omega arith) (omega arith),
          cgnat,
          private_12,
          benchmarking,
          multicast,
          reserved,
        )
        (ground arith)

-- The group that holds two octets.
abbrev pub group : ℕ → ℕ → ℕ
group high low = high * 256 + low

abbrev pub mapped : Octets → Groups
mapped o = record {
  g0 = 0;
  g1 = 0;
  g2 = 0;
  g3 = 0;
  g4 = 0;
  g5 = 0xffff;
  g6 = group o.o0 o.o1;
  g7 = group o.o2 o.o3;
}

abbrev pub nat64 : Octets → Groups
nat64 o = record {
  g0 = 0x64;
  g1 = 0xff9b;
  g2 = 0;
  g3 = 0;
  g4 = 0;
  g5 = 0;
  g6 = group o.o0 o.o1;
  g7 = group o.o2 o.o3;
}

abbrev pub six_to_four : Octets → Groups → Groups
six_to_four o g = record g { g0 = 0x2002; g1 = group o.o0 o.o1; g2 = group o.o2 o.o3 }

groups_to_ipv4-group :
    (o : Octets) → IsOctets o → groups_to_ipv4 (group o.o0 o.o1) (group o.o2 o.o3) ≡ o
unfolding groups_to_ipv4
groups_to_ipv4-group o v = ground arith

-- An IPv6 address that stands for an IPv4 address (mapped, translated by NAT64, or 6to4 with any
-- rest) is blocked exactly when the IPv4 address is.
pub is_blocked_ipv6-embedded :
    (o : Octets) (rest : Groups)
    → IsOctets o
    → (is_blocked_ipv6 (mapped o) ≡ is_blocked_ipv4 o)
      × (is_blocked_ipv6 (nat64 o) ≡ is_blocked_ipv4 o)
      × (is_blocked_ipv6 (six_to_four o rest) ≡ is_blocked_ipv4 o)
unfolding is_blocked_ipv6
is_blocked_ipv6-embedded o rest v =
    let same = ap is_blocked_ipv4 (groups_to_ipv4-group o v) in (same, same, same)

-- An IPv6 address that is not blocked is neither unspecified, loopback nor compatible with IPv4, is
-- neither unique local, link-local, site-local nor multicast, and is neither Teredo nor
-- documentation.
pub is_blocked_ipv6-false :
    (g : Groups)
    → g.g0 < 65536
    → is_blocked_ipv6 g ≡ false
    → (0 < g.g0 + g.g1 + g.g2 + g.g3 + g.g4 + g.g5)
      × ((g.g0 < 0xfc00) ⊎ ((0xfe00 ≤ g.g0) × (g.g0 < 0xfe80)))
      × ((g.g0 ≢ 0x2001) ⊎ ((g.g1 ≢ 0) × (g.g1 ≢ 0xdb8)))
unfolding is_blocked_ipv6
is_blocked_ipv6-false g fits h = ground arith
