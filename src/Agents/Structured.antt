-- ===== src/Agents/Structured.antt =====
-- packages/agents/src/structured-output.ts: asking a model for JSON until it fits. `JSON.parse`, the
-- schema with the text of its issues, and the caller's check are parameters. Texts are lists of
-- character codes.
pub mod Attempts
use open_blog_agent.Prelude.{
  ℕ, zero, suc, String, Option, none, some, List, [], ◌∷◌, ◌++◌, max, or_else, if◌then◌else◌, ltb,
  length, take,
}
use open_blog_agent.Research.Codes.{Codes, codes}
use open_blog_agent.Agents.Extract.{Shape, array, object, extract_json_candidates}

pub data Validated (T : Type 0) : Type 0 where
  valid : T → Validated T
  invalid : Codes → Validated T

-- A request, and what validates a reply: JSON values are of type `J`. `check` is the identity where
-- the caller gives none.
pub record Request (J T : Type 0) : Type 0 where
  pub prompt : Codes
  pub label : String
  pub max_attempts : Option ℕ
  pub shape : Shape
  pub json : Codes → Validated J
  pub schema : J → Validated T
  pub check : T → Validated T

-- What ends a request: a value, the `StructuredOutputError`, or an error of the provider.
pub data Structured (T : Type 0) : Type 0 where
  value : T → Structured T
  gave_up : ℕ → Codes → Codes → Structured T
  provider_failed : Structured T

unfoldable pub truncate : Codes → Codes
truncate text = if ltb 2000 (length text) then take 2000 text ++ (0x2026 ∷ []) else text

abbrev pub missing : Shape → Codes
missing object = codes "no JSON object found in the reply"
missing array = codes "no JSON array found in the reply"

-- the prompt after a reply that was rejected: the lines, joined
unfoldable pub retry_prompt : Codes → Codes → Codes → Codes
retry_prompt prompt error response =
    prompt
    ++ (codes "\n\nYour previous reply was rejected:\n"
        ++ (error
            ++ (codes "\n\nPrevious reply (truncated):\n"
                ++ (response
                    ++ codes
                        "\n\nReturn a corrected reply as valid JSON only, following the same rules as above."))))

abbrev pub sent_first : {T : Type 0} → Codes → Structured T × List Codes → Structured T × List Codes
sent_first prompt rest = (rest.0, prompt ∷ rest.1)

module _ {J T : Type 0} where
  abbrev pub checked : Request J T → Validated T → Validated T
  checked r (invalid issues) = invalid (codes "schema validation failed: " ++ issues)
  checked r (valid found) = r.check found

  abbrev pub through_schema : Request J T → Validated J → Validated T
  through_schema r (invalid message) = invalid (codes "invalid JSON: " ++ message)
  through_schema r (valid parsed) = checked r (r.schema parsed)

  unfoldable pub try_candidate : Request J T → Codes → Validated T
  try_candidate r candidate = through_schema r (r.json candidate)

  -- the first candidate that passes, with the error so far
  unfoldable pub first_valid : Request J T → Codes → List Codes → Validated T
  unfolding try_candidate
  first_valid r error [] = invalid error
  first_valid r error (candidate ∷ candidates) = elim (try_candidate r candidate) [
    | valid found ↦ valid found
    | invalid later ↦ first_valid r later candidates
  ]

  unfoldable pub parse_and_validate : Request J T → Codes → Validated T
  unfolding first_valid
  parse_and_validate r raw = first_valid r (missing r.shape) (extract_json_candidates raw r.shape)

  -- `Math.max(1, request.maxAttempts ?? DEFAULT_STRUCTURED_MAX_ATTEMPTS)`
  abbrev pub attempts_of : Request J T → ℕ
  attempts_of r = max 1 (or_else r.max_attempts 3)

  -- The loop, where `left` attempts remain: how it ends, and the prompts that were sent. `model`
  -- answers a prompt by the number of calls made before; none is an error of it.
  unfoldable pub attempt_from :
      Request J T
      → (ℕ → Codes → Option Codes)
      → ℕ
      → ℕ
      → Codes
      → Codes
      → Codes
      → Structured T × List Codes
  unfolding parse_and_validate truncate retry_prompt
  attempt_from r model zero calls prompt error response =
      (gave_up (attempts_of r) error response, [])
  attempt_from r model (suc left) calls prompt error response = elim (model calls prompt) [
    | none ↦ (provider_failed, prompt ∷ [])
    | some text ↦ elim (parse_and_validate r text) [
      | valid found ↦ (value found, prompt ∷ [])
      | invalid later ↦ sent_first prompt (
          attempt_from r model left (suc calls) (retry_prompt r.prompt later (truncate text)) later
            (truncate text))
    ]
  ]

  unfoldable pub generate_structured :
      Request J T → (ℕ → Codes → Option Codes) → Structured T × List Codes
  unfolding attempt_from
  generate_structured r model = attempt_from r model (attempts_of r) 0 r.prompt [] []
