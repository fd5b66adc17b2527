-- ===== src/Research/Codes.antt =====
-- Texts as lists of character codes: JavaScript's `split`, `slice` and `Number` on them.
use text.Mathlib.TextBridge.{to_list}
use Prim.Native.Char.{code}
use open_blog_agent.Prelude.{
  any, String, map, ℕ, ◌+◌, ◌*◌, ◌-◌, Bool, ◌&&◌, ◌||◌, List, [], ◌∷◌, if◌then◌else◌, leb, ltb,
  nat_eq, true, false, Option, none, some, ◌/◌, ◌%◌,
}

abbrev pub Codes : Type 0
Codes = List ℕ

-- the first piece gets one more character in front
abbrev pub grow : ℕ → List Codes → List Codes
grow c [] = (c ∷ []) ∷ []
grow c (p ∷ ps) = (c ∷ p) ∷ ps

-- `text.split(c)` at a single character
unfoldable pub split : ℕ → Codes → List Codes
split c [] = [] ∷ []
split c (x ∷ xs) = let rest = split c xs in if nat_eq x c then [] ∷ rest else grow x rest

abbrev pub is_digit : ℕ → Bool
is_digit c = leb b'0' c && leb c b'9'

-- `Number(text)` of a text of digits, behind the number read so far
unfoldable pub decimal : ℕ → Codes → ℕ
decimal n [] = n
decimal n (c ∷ cs) = decimal (n * 10 + (c - b'0')) cs

abbrev pub is_hex_letter : ℕ → Bool
is_hex_letter c = leb b'a' c && leb c b'f' || leb b'A' c && leb c b'F'

abbrev pub hex_value : ℕ → ℕ
hex_value c = if is_digit c then c - b'0' else if leb b'a' c then c - 87 else c - 55

-- `parseInt(text, 16)` of a text of hexadecimal digits
unfoldable pub hexadecimal : ℕ → Codes → ℕ
hexadecimal n [] = n
hexadecimal n (c ∷ cs) = hexadecimal (n * 16 + hex_value c) cs

abbrev pub is_hex : ℕ → Bool
is_hex c = is_digit c || is_hex_letter c

abbrev hex_digit : ℕ → ℕ
hex_digit d = if ltb d 10 then b'0' + d else 87 + d

-- `n.toString(16)` of a number of 16 bits, without leading zeros
unfoldable pub to_hex : ℕ → Codes
to_hex n =
    if ltb n 0x10
    then hex_digit n ∷ []
    else if ltb n 0x100
    then hex_digit (n / 0x10) ∷ hex_digit (n % 0x10) ∷ []
    else if ltb n 0x1000
    then hex_digit (n / 0x100) ∷ hex_digit (n / 0x10 % 0x10) ∷ hex_digit (n % 0x10) ∷ []
    else hex_digit (n / 0x1000)
      ∷ hex_digit (n / 0x100 % 0x10)
      ∷ hex_digit (n / 0x10 % 0x10)
      ∷ hex_digit (n % 0x10)
      ∷ []

-- `text.split(cc)` at a doubled character
unfoldable pub split_pairs : ℕ → Codes → List Codes
split_pairs c [] = [] ∷ []
split_pairs c (x ∷ []) = (x ∷ []) ∷ []
split_pairs c (x ∷ y ∷ ys) = elim (nat_eq x c && nat_eq y c) [
  | true ↦ [] ∷ split_pairs c ys
  | false ↦ grow x (split_pairs c (y ∷ ys))
]

-- `text.split(c)[0]`
unfoldable pub before : ℕ → Codes → Codes
before c [] = []
before c (x ∷ xs) = let rest = before c xs in if nat_eq x c then [] else x ∷ rest

-- the text through the last `c`, and the text behind it; none where there is no `c`
unfoldable pub at_last : ℕ → Codes → Option (Codes × Codes)
at_last c [] = none
at_last c (x ∷ xs) = elim (at_last c xs) [
  | some p ↦ some (x ∷ p.0, p.1)
  | none ↦ if nat_eq x c then some (x ∷ [], xs) else none
]

-- the character codes of a text
unfoldable pub codes : String → Codes
codes text = map code (to_list text)

-- `toLowerCase` of an ASCII letter
abbrev pub lower : ℕ → ℕ
lower c = if leb b'A' c && leb c b'Z' then c + 32 else c

unfoldable pub is_prefix : Codes → Codes → Bool
is_prefix [] text = true
is_prefix (c ∷ cs) [] = false
is_prefix (c ∷ cs) (d ∷ ds) = nat_eq c d && is_prefix cs ds

unfoldable pub codes_eq : Codes → Codes → Bool
codes_eq [] [] = true
codes_eq (c ∷ cs) (d ∷ ds) = nat_eq c d && codes_eq cs ds
codes_eq _ _ = false

-- the white space and line ends that `trim` removes
abbrev is_space : ℕ → Bool
is_space c =
    leb 9 c && leb c 13
    || (any (nat_eq c)
          (32 ∷ 0xa0 ∷ 0x1680 ∷ 0x2028 ∷ 0x2029 ∷ 0x202f ∷ 0x205f ∷ 0x3000 ∷ 0xfeff ∷ [])
        || leb 0x2000 c && leb c 0x200a)

unfoldable pub trim_start : Codes → Codes
trim_start [] = []
trim_start (c ∷ cs) = let rest = trim_start cs in if is_space c then rest else c ∷ cs

abbrev trimmed_cons : ℕ → Codes → Codes
trimmed_cons c [] = if is_space c then [] else c ∷ []
trimmed_cons c (d ∷ ds) = c ∷ d ∷ ds

unfoldable pub trim_end : Codes → Codes
trim_end [] = []
trim_end (c ∷ cs) = trimmed_cons c (trim_end cs)
