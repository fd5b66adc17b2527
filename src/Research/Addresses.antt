-- ===== src/Research/Addresses.antt =====
-- packages/research/src/ip.ts: reading an IPv6 address and `isPrivateAddress`. Texts are lists of
-- character codes; `isIP` of node:net is a parameter.
pub mod Reading
use open_blog_agent.Prelude.{
  ℕ, zero, suc, ◌+◌, ◌*◌, ◌-◌, ◌/◌, ◌%◌, Bool, true, ◌&&◌, ◌||◌, Option, none, some, List, [], ◌∷◌,
  ◌++◌, if◌then◌else◌, leb, ltb, nat_eq, all, length, map, any,
}
use open_blog_agent.Research.Codes.{
  Codes, grow, split, split_pairs, before, at_last, is_hex, hexadecimal, to_hex,
}
use open_blog_agent.Research.Ip.{
  Octets, octets, Groups, parse_ipv4, is_blocked_ipv4, is_blocked_ipv6,
}

-- `/^[0-9a-f]{1,4}$/i.test(group) ? parseInt(group, 16) : NaN`
unfoldable pub hex_group : Codes → Option ℕ
hex_group part =
    if leb 1 (length part) && (leb (length part) 4 && all is_hex part)
    then some (hexadecimal 0 part)
    else none

-- null when one of the groups is NaN
unfoldable pub collect_groups : List (Option ℕ) → Option (List ℕ)
collect_groups [] = some []
collect_groups (none ∷ gs) = none
collect_groups (some g ∷ gs) = elim (collect_groups gs) [
  | none ↦ none
  | some rest ↦ some (g ∷ rest)
]

unfoldable pub to_groups : Codes → Option (List ℕ)
to_groups [] = some []
to_groups (c ∷ cs) = collect_groups (map hex_group (split b':' (c ∷ cs)))

-- the embedded IPv4 tail, rewritten as two groups
unfoldable pub rewrite_tail : Codes → Codes → Option Codes
rewrite_tail head tail = elim (parse_ipv4 tail) [
  | none ↦ none
  | some o ↦ some (head ++ (to_hex (o.o0 * 256 + o.o1) ++ b':' ∷ to_hex (o.o2 * 256 + o.o3)))
]

-- the text without its zone, with an IPv4 tail rewritten; none where the tail is no IPv4 address
unfoldable pub without_tail : Codes → Option Codes
without_tail text = elim (at_last b':' text) [
  | none ↦ some text
  | some p ↦ if any (λ c. nat_eq c b'.') p.1 then rewrite_tail p.0 p.1 else some text
]

unfoldable pub zeros : ℕ → List ℕ
zeros zero = []
zeros (suc n) = 0 ∷ zeros n

-- the groups in front of and behind the `::`
unfoldable pub fill : List ℕ → List ℕ → Option (List ℕ)
fill head rest =
    let given = length head + length rest in
    if leb 8 given then none else some (head ++ (zeros (8 - given) ++ rest))

unfoldable pub both : Option (List ℕ) → Option (List ℕ) → Option (List ℕ)
both (some head) (some rest) = fill head rest
both _ _ = none

unfoldable pub only : Option (List ℕ) → Option (List ℕ)
only none = none
only (some head) = if nat_eq (length head) 8 then some head else none

unfoldable pub read_halves : List Codes → Option (List ℕ)
read_halves (half ∷ []) = only (to_groups half)
read_halves (left ∷ right ∷ []) = both (to_groups left) (to_groups right)
read_halves _ = none

unfoldable pub parse_ipv6 : Codes → Option (List ℕ)
parse_ipv6 address = elim (without_tail (before b'%' address)) [
  | none ↦ none
  | some text ↦ read_halves (split_pairs b':' text)
]

-- `const [g0, …, g7] = groups`; eight groups are given
unfoldable pub destructured : List ℕ → Option Groups
destructured (a ∷ b ∷ c ∷ d ∷ e ∷ f ∷ g ∷ h ∷ []) =
    some record { g0 = a; g1 = b; g2 = c; g3 = d; g4 = e; g5 = f; g6 = g; g7 = h }
destructured _ = none

unfoldable pub blocks_ipv4 : Option Octets → Bool
blocks_ipv4 none = true
blocks_ipv4 (some o) = is_blocked_ipv4 o

unfoldable pub blocks_ipv6 : Option (List ℕ) → Bool
blocks_ipv6 none = true
blocks_ipv6 (some groups) = elim (destructured groups) [ none ↦ true | some g ↦ is_blocked_ipv6 g ]

-- `address.replace(/^\[|\]$/g, "")`
unfoldable pub drop_open : Codes → Codes
drop_open [] = []
drop_open (c ∷ cs) = if nat_eq c b'[' then cs else c ∷ cs

unfoldable pub drop_close : Codes → Codes
drop_close [] = []
drop_close (c ∷ []) = if nat_eq c b']' then [] else c ∷ []
drop_close (c ∷ d ∷ ds) = c ∷ drop_close (d ∷ ds)

unfoldable pub is_private_address : (Codes → ℕ) → Codes → Bool
is_private_address is_ip address =
    let bare = drop_close (drop_open address) in
    if nat_eq (is_ip bare) 4
    then blocks_ipv4 (parse_ipv4 bare)
    else if nat_eq (is_ip bare) 6
    then blocks_ipv6 (parse_ipv6 bare)
    else true
