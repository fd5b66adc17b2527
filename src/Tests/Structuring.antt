-- ===== src/Tests/Structuring.antt =====
-- The theorem on structured output (packages/agents/src/structured-output.ts) at a concrete input.
use open_blog_agent.Prelude.{
  ℕ, ◌≡◌, Option, none, some, [], ◌∷◌, if◌then◌else◌, first, length, ltb, nat_eq,
}
use open_blog_agent.Research.Codes.{Codes, codes}
use open_blog_agent.Agents.Extract.{object}
use open_blog_agent.Agents.Structured.{
  Validated, valid, invalid, Request, attempts_of, generate_structured,
}
use open_blog_agent.Agents.Structured.Attempts.{Ends, generate_structured-Ends}

-- what begins with a bracket is JSON, and it fits when it is longer than two characters
abbrev read : Codes → Validated Codes
read [] = invalid (codes "unexpected end")
read (c ∷ text) = if nat_eq c b'{' then valid (c ∷ text) else invalid (codes "unexpected token")

abbrev fit : Codes → Validated ℕ
fit text = if ltb 2 (length text) then valid (length text) else invalid (codes "(root): empty")

abbrev request : Request Codes ℕ
request = record {
  prompt = codes "Write.";
  label = "SEO agent";
  max_attempts = none;
  shape = object;
  json = read;
  schema = fit;
  check = λ n. valid n;
}

-- The first reply is empty JSON in a sentence, the second stands in a fence.
abbrev model : ℕ → Codes → Option Codes
model calls prompt =
    some (codes (if nat_eq calls 0 then "Here: {}" else "Sure:\n```json\n{\"a\": 1}\n```"))

generate_structured-Ends_example :
    (first (generate_structured request model).1 ≡ some request.prompt)
    × Ends request model
        (attempts_of request)
        (length (generate_structured request model).1)
        (generate_structured request model).0
generate_structured-Ends_example = generate_structured-Ends request model
