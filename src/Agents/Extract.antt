-- ===== src/Agents/Extract.antt =====
-- `extractJsonCandidates` of packages/agents/src/structured-output.ts: where JSON may stand in a
-- reply. Texts are lists of character codes.
use open_blog_agent.Prelude.{
  ℕ, true, false, Option, none, some, List, [], ◌∷◌, ◌++◌, if◌then◌else◌, any, length, ltb, nat_eq,
  map,
}
use open_blog_agent.Research.Codes.{
  Codes, codes_eq, is_prefix, lower, trim_start, trim_end, at_last,
}

pub data Shape : Type 0 where
  object array : Shape

abbrev pub open_of : Shape → ℕ
open_of object = b'{'
open_of array = b'['

abbrev pub close_of : Shape → ℕ
close_of object = b'}'
close_of array = b']'

abbrev pub trim : Codes → Codes
trim text = trim_end (trim_start text)

abbrev fence : Codes
fence = b'`' ∷ b'`' ∷ b'`' ∷ []

-- the text behind a prefix of three characters, or of four
abbrev skip_three : Codes → Codes
skip_three (a ∷ b ∷ c ∷ rest) = rest
skip_three text = []

abbrev skip_four : Codes → Codes
skip_four (a ∷ b ∷ c ∷ d ∷ rest) = rest
skip_four text = []

-- behind the first fence
unfoldable pub after_fence : Codes → Option Codes
after_fence [] = none
after_fence (c ∷ cs) =
    let rest = after_fence cs in
    if is_prefix fence (c ∷ cs) then some (skip_three (c ∷ cs)) else rest

-- up to the next fence; none where there is none
unfoldable pub until_fence : Codes → Option Codes
until_fence [] = none
until_fence (c ∷ cs) = elim (is_prefix fence (c ∷ cs)) [
  | true ↦ some []
  | false ↦ elim (until_fence cs) [ none ↦ none | some inner ↦ some (c ∷ inner) ]
]

abbrev without_json : Codes → Codes
without_json text =
    if is_prefix (b'j' ∷ b's' ∷ b'o' ∷ b'n' ∷ []) (map lower text) then skip_four text else text

-- ````/```(?:json)?\s*([\s\S]*?)```/i````, trimmed; none where it is empty
unfoldable pub fenced : Codes → Option Codes
unfolding after_fence until_fence
fenced text = elim (after_fence text) [
  | none ↦ none
  | some behind ↦ elim (until_fence (without_json behind)) [
    | none ↦ none
    | some inner ↦ if ltb 0 (length (trim inner)) then some (trim inner) else none
  ]
]

-- from the first `c` on
unfoldable pub from_first : ℕ → Codes → Codes
from_first c [] = []
from_first c (x ∷ xs) = let rest = from_first c xs in if nat_eq x c then x ∷ xs else rest

-- from the first opening bracket through the last closing one behind it
unfoldable pub bracketed : Shape → Codes → Option Codes
unfolding from_first
bracketed shape text = elim (at_last (close_of shape) (from_first (open_of shape) text)) [
  | none ↦ none
  | some p ↦ some p.0
]

abbrev push_if : Option Codes → List Codes → List Codes
push_if none texts = texts
push_if (some text) texts = texts ++ (text ∷ [])

abbrev bracketed_all : Shape → List Codes → List Codes → List Codes
bracketed_all shape [] texts = texts
bracketed_all shape (s ∷ sources) texts =
    bracketed_all shape sources (push_if (bracketed shape s) texts)

-- `[...new Set(texts)]`
unfoldable pub distinct : List Codes → List Codes → List Codes
distinct seen [] = []
distinct seen (t ∷ ts) = elim (any (codes_eq t) seen) [
  | true ↦ distinct seen ts
  | false ↦ t ∷ distinct (t ∷ seen) ts
]

unfoldable pub extract_json_candidates : Codes → Shape → List Codes
unfolding fenced bracketed distinct
extract_json_candidates raw shape =
    let sources = push_if (fenced (trim raw)) (trim raw ∷ []) in
    distinct [] (bracketed_all shape sources sources)
