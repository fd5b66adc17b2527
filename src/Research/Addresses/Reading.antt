-- ===== src/Research/Addresses/Reading.antt =====
-- What `parseIPv6` and `isPrivateAddress` of packages/research/src/ip.ts return.
use open_blog_agent.Prelude.{
  if◌then◌else◌, ℕ, zero, suc, ◌+◌, ◌-◌, ◌<◌, ◌≡◌, inl, inr, Bool, true, false, Option, none, some,
  List, [], ◌∷◌, ◌++◌, length, All, arith, map, refl, Bool-cases, nat_eq, leb, subst, ap,
  All-append, length-append, sym, ◌∙◌,
}
use open_blog_agent.Research.Codes.{Codes, is_hex, hexadecimal, split, hex_value}
use open_blog_agent.Research.Ip.{Octets, Groups, octet, four, parse_ipv4, is_blocked_ipv6}
use open_blog_agent.Research.Ip.Ranges.{IsOctets, is_special, is_blocked_ipv4-eq-is_special}
use open_blog_agent.Research.Addresses.{
  hex_group, collect_groups, to_groups, zeros, fill, both, only, read_halves, parse_ipv6,
  destructured, is_private_address, blocks_ipv4, blocks_ipv6, drop_open, drop_close, without_tail,
  before, split_pairs,
}

octet-bound : (part : Codes) (n : ℕ) → octet part ≡ some n → n < 256
unfolding octet
octet-bound part n h = ground arith

-- What a list of octets is read as holds octets only.
abbrev Reads : Option Octets → Type 0
Reads none = Unit
Reads (some o) = IsOctets o

abbrev IsOctet : Option ℕ → Type 0
IsOctet x = (n : ℕ) → x ≡ some n → n < 256

four-Reads : (os : List (Option ℕ)) → All IsOctet os → Reads (four os)
unfolding four
four-Reads [] bs = tt
four-Reads (none ∷ os) bs = tt
four-Reads (some a ∷ []) bs = tt
four-Reads (some a ∷ none ∷ os) bs = tt
four-Reads (some a ∷ some b ∷ []) bs = tt
four-Reads (some a ∷ some b ∷ none ∷ os) bs = tt
four-Reads (some a ∷ some b ∷ some c ∷ []) bs = tt
four-Reads (some a ∷ some b ∷ some c ∷ none ∷ os) bs = tt
four-Reads (some a ∷ some b ∷ some c ∷ some d ∷ x ∷ os) bs = tt
four-Reads (some a ∷ some b ∷ some c ∷ some d ∷ []) (ba, (bb, (bc, (bd, _)))) = record {
  o0 = ba a refl;
  o1 = bb b refl;
  o2 = bc c refl;
  o3 = bd d refl;
}

map-octet-All : (ps : List Codes) → All IsOctet (map octet ps)
map-octet-All [] = tt
map-octet-All (p ∷ ps) = (octet-bound p, map-octet-All ps)

pub parse_ipv4-IsOctets : (address : Codes) (o : Octets) → parse_ipv4 address ≡ some o → IsOctets o
unfolding parse_ipv4
parse_ipv4-IsOctets address o h =
    subst Reads h (four-Reads (map octet (split b'.' address)) (map-octet-All (split b'.' address)))

hex_value-bound : (c : ℕ) → is_hex c ≡ true → hex_value c < 16
hex_value-bound c h = ground arith

hex_group-bound : (part : Codes) (n : ℕ) → hex_group part ≡ some n → n < 65536
unfolding hex_group hexadecimal
hex_group-bound [] n h = ground arith
hex_group-bound (a ∷ []) n h = ground (arith, hex_value-bound a)
hex_group-bound (a ∷ b ∷ []) n h = ground (arith, hex_value-bound a, hex_value-bound b)
hex_group-bound (a ∷ b ∷ c ∷ []) n h =
    ground (arith, hex_value-bound a, hex_value-bound b, hex_value-bound c)
hex_group-bound (a ∷ b ∷ c ∷ d ∷ []) n h =
    ground (arith, hex_value-bound a, hex_value-bound b, hex_value-bound c, hex_value-bound d)
hex_group-bound (a ∷ b ∷ c ∷ d ∷ e ∷ r) n h = ground arith

-- Groups of 16 bits.
pub IsGroups : List ℕ → Type 0
IsGroups = All (λ g. g < 65536)

-- What is read as a list of groups holds groups only.
abbrev ReadsGroups : Option (List ℕ) → Type 0
ReadsGroups none = Unit
ReadsGroups (some gs) = IsGroups gs

cons-ReadsGroups :
    (n : ℕ) (rest : Option (List ℕ))
    → n < 65536
    → ReadsGroups rest
    → ReadsGroups (elim rest [ none ↦ none | some r ↦ some (n ∷ r) ])
unfolding IsGroups
cons-ReadsGroups n none b r = tt
cons-ReadsGroups n (some rs) b r = (b, r)

abbrev IsGroup : Option ℕ → Type 0
IsGroup x = (n : ℕ) → x ≡ some n → n < 65536

collect_groups-ReadsGroups :
    (os : List (Option ℕ)) → All IsGroup os → ReadsGroups (collect_groups os)
unfolding collect_groups IsGroups
collect_groups-ReadsGroups [] bs = tt
collect_groups-ReadsGroups (none ∷ os) bs = tt
collect_groups-ReadsGroups (some n ∷ os) (b, bs) =
    cons-ReadsGroups n (collect_groups os) (b n refl) (collect_groups-ReadsGroups os bs)

map-hex_group-All : (ps : List Codes) → All IsGroup (map hex_group ps)
map-hex_group-All [] = tt
map-hex_group-All (p ∷ ps) = (hex_group-bound p, map-hex_group-All ps)

to_groups-ReadsGroups : (part : Codes) → ReadsGroups (to_groups part)
unfolding to_groups IsGroups
to_groups-ReadsGroups [] = tt
to_groups-ReadsGroups (c ∷ cs) =
    collect_groups-ReadsGroups (map hex_group (split b':' (c ∷ cs)))
      (map-hex_group-All (split b':' (c ∷ cs)))

zeros-IsGroups : (n : ℕ) → IsGroups (zeros n)
unfolding zeros IsGroups
zeros-IsGroups zero = tt
zeros-IsGroups (suc n) = (omega arith, zeros-IsGroups n)

length-zeros : (n : ℕ) → length (zeros n) ≡ n
unfolding zeros
length-zeros zero = refl
length-zeros (suc n) = ap suc (length-zeros n)

-- What an IPv6 address is read as: eight groups of 16 bits.
abbrev ReadsEight : Option (List ℕ) → Type 0
ReadsEight none = Unit
ReadsEight (some gs) = (length gs ≡ 8) × IsGroups gs

length-fill :
    (hs rs : List ℕ)
    → leb 8 (length hs + length rs) ≡ false
    → length (hs ++ (zeros (8 - (length hs + length rs)) ++ rs)) ≡ 8
length-fill hs rs e =
    let missing = 8 - (length hs + length rs) in
    ground (
      arith,
      length-append hs (zeros missing ++ rs),
      length-append (zeros missing) rs,
      length-zeros missing,
    )

filled-IsGroups :
    (hs rs : List ℕ) (n : ℕ) → IsGroups hs → IsGroups rs → IsGroups (hs ++ (zeros n ++ rs))
unfolding IsGroups
filled-IsGroups hs rs n bh br =
    let P = λ (g : ℕ). g < 65536 in
    All-append P hs (zeros n ++ rs) bh (All-append P (zeros n) rs (zeros-IsGroups n) br)

fill-ReadsEight : (hs rs : List ℕ) → IsGroups hs → IsGroups rs → ReadsEight (fill hs rs)
unfolding fill
fill-ReadsEight hs rs bh br = elim (Bool-cases (leb 8 (length hs + length rs))) [
  | inl e ↦ rw e tt
  | inr e ↦ rw e (length-fill hs rs e, filled-IsGroups hs rs (8 - (length hs + length rs)) bh br)
]

both-ReadsEight : (h r : Option (List ℕ)) → ReadsGroups h → ReadsGroups r → ReadsEight (both h r)
unfolding both
both-ReadsEight none r bh br = tt
both-ReadsEight (some hs) none bh br = tt
both-ReadsEight (some hs) (some rs) bh br = fill-ReadsEight hs rs bh br

only-ReadsEight : (h : Option (List ℕ)) → ReadsGroups h → ReadsEight (only h)
unfolding only
only-ReadsEight none bh = tt
only-ReadsEight (some hs) bh = elim (Bool-cases (nat_eq (length hs) 8)) [
  | inl e ↦ rw e (ground arith, bh)
  | inr e ↦ rw e tt
]

read_halves-ReadsEight : (hs : List Codes) → ReadsEight (read_halves hs)
unfolding read_halves
read_halves-ReadsEight [] = tt
read_halves-ReadsEight (a ∷ []) = only-ReadsEight (to_groups a) (to_groups-ReadsGroups a)
read_halves-ReadsEight (a ∷ b ∷ []) =
    both-ReadsEight (to_groups a) (to_groups b) (to_groups-ReadsGroups a) (to_groups-ReadsGroups b)
read_halves-ReadsEight (a ∷ b ∷ c ∷ r) = tt

read_text-ReadsEight :
    (t : Option Codes)
    → ReadsEight (elim t [ none ↦ none | some text ↦ read_halves (split_pairs b':' text) ])
read_text-ReadsEight none = tt
read_text-ReadsEight (some text) = read_halves-ReadsEight (split_pairs b':' text)

-- An IPv6 address, when it is read, is read as exactly eight groups, each of 16 bits.
pub parse_ipv6-IsGroups :
    (address : Codes) (gs : List ℕ) → parse_ipv6 address ≡ some gs → (length gs ≡ 8) × IsGroups gs
unfolding parse_ipv6
parse_ipv6-IsGroups address gs h =
    subst ReadsEight h (read_text-ReadsEight (without_tail (before b'%' address)))

-- Why an address may be fetched.
abbrev pub listed : Groups → List ℕ
listed g = g.g0 ∷ g.g1 ∷ g.g2 ∷ g.g3 ∷ g.g4 ∷ g.g5 ∷ g.g6 ∷ g.g7 ∷ []

pub data IsPublic (is_ip : Codes → ℕ) (bare : Codes) : Type 0 where
  public_v4 :
      (o : Octets)
      → is_ip bare ≡ 4
      → parse_ipv4 bare ≡ some o
      → IsOctets o
      → is_special o ≡ false
      → IsPublic is_ip bare
  public_v6 :
      (g : Groups)
      → is_ip bare ≡ 6
      → parse_ipv6 bare ≡ some (listed g)
      → IsGroups (listed g)
      → is_blocked_ipv6 g ≡ false
      → IsPublic is_ip bare

eight-listed :
    (gs : List ℕ) → length gs ≡ 8 → (g : Groups) × (gs ≡ listed g) × (destructured gs ≡ some g)
unfolding destructured
eight-listed ([]) len = ground arith
eight-listed (a ∷ []) len = ground arith
eight-listed (a ∷ b ∷ []) len = ground arith
eight-listed (a ∷ b ∷ c ∷ []) len = ground arith
eight-listed (a ∷ b ∷ c ∷ d ∷ []) len = ground arith
eight-listed (a ∷ b ∷ c ∷ d ∷ e ∷ []) len = ground arith
eight-listed (a ∷ b ∷ c ∷ d ∷ e ∷ f ∷ []) len = ground arith
eight-listed (a ∷ b ∷ c ∷ d ∷ e ∷ f ∷ g ∷ []) len = ground arith
eight-listed (a ∷ b ∷ c ∷ d ∷ e ∷ f ∷ g ∷ h ∷ []) len =
    (record { g0 = a; g1 = b; g2 = c; g3 = d; g4 = e; g5 = f; g6 = g; g7 = h }, refl, refl)
eight-listed (a ∷ b ∷ c ∷ d ∷ e ∷ f ∷ g ∷ h ∷ i ∷ rest) len = ground arith

IsPublic-v6 :
    (is_ip : Codes → ℕ) (bare : Codes) (gs : Option (List ℕ))
    → is_ip bare ≡ 6
    → parse_ipv6 bare ≡ gs
    → blocks_ipv6 gs ≡ false
    → IsPublic is_ip bare
unfolding blocks_ipv6
IsPublic-v6 is_ip bare none six read h = ground arith
IsPublic-v6 is_ip bare (some gs) six read h =
    let checked = parse_ipv6-IsGroups bare gs read in
    let eight = eight-listed gs checked.0 in
    public_v6 eight.0 six (read ∙ ap some eight.1) (subst IsGroups eight.1 checked.1) (ground arith)

IsPublic-v4 :
    (is_ip : Codes → ℕ) (bare : Codes) (o : Option Octets)
    → is_ip bare ≡ 4
    → parse_ipv4 bare ≡ o
    → blocks_ipv4 o ≡ false
    → IsPublic is_ip bare
unfolding blocks_ipv4
IsPublic-v4 is_ip bare none four read h = ground arith
IsPublic-v4 is_ip bare (some o) four read h =
    let v = parse_ipv4-IsOctets bare o read in
    public_v4 o four read v (sym (is_blocked_ipv4-eq-is_special o v) ∙ h)

IsPublic-by_version :
    (is_ip : Codes → ℕ) (bare : Codes) (four six : Bool)
    → (four ≡ true → is_ip bare ≡ 4)
    → (six ≡ true → is_ip bare ≡ 6)
    → (if four
        then blocks_ipv4 (parse_ipv4 bare)
        else if six
        then blocks_ipv6 (parse_ipv6 bare)
        else true)
      ≡ false
    → IsPublic is_ip bare
IsPublic-by_version is_ip bare true six f s h =
    IsPublic-v4 is_ip bare (parse_ipv4 bare) (f refl) refl h
IsPublic-by_version is_ip bare false true f s h =
    IsPublic-v6 is_ip bare (parse_ipv6 bare) (s refl) refl h
IsPublic-by_version is_ip bare false false f s h = ground arith

-- An address that is not private is, behind its brackets, an IPv4 address outside the special
-- networks, or an IPv6 address of eight groups that is not blocked: what cannot be read is private.
pub is_private_address-IsPublic :
    (is_ip : Codes → ℕ) (address : Codes)
    → is_private_address is_ip address ≡ false
    → IsPublic is_ip (drop_close (drop_open address))
unfolding is_private_address
is_private_address-IsPublic is_ip address h =
    let bare = drop_close (drop_open address) in
    IsPublic-by_version is_ip bare (nat_eq (is_ip bare) 4) (nat_eq (is_ip bare) 6)
      (λ e. ground arith) (λ e. ground arith) h
