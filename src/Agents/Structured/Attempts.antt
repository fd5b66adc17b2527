-- ===== src/Agents/Structured/Attempts.antt =====
-- What `generateStructured` of packages/agents/src/structured-output.ts returns, and how often it asks.
use open_blog_agent.Prelude.{
  ◌⊎◌, subst, ◌∙◌, ℕ, zero, suc, ◌≤◌, ◌≡◌, Option, some, List, [], ◌∷◌, Member, arith, refl, inl,
  inr, Option-cases, ◌-◌, length, max, or_else, first, sym,
}
use open_blog_agent.Research.Codes.{Codes}
use open_blog_agent.Agents.Extract.{extract_json_candidates}
use open_blog_agent.Agents.Structured.{
  Validated, valid, invalid, Request, Structured, value, gave_up, provider_failed, checked,
  through_schema, try_candidate, first_valid, parse_and_validate, attempts_of, attempt_from,
  generate_structured, missing, retry_prompt, truncate,
}

Validated-cases :
    {T : Type 0} (x : Validated T) → ((v : T) × (x ≡ valid v)) ⊎ ((e : Codes) × (x ≡ invalid e))
Validated-cases (valid v) = inl (v, refl)
Validated-cases (invalid e) = inr (e, refl)

never : {T : Type 0} (error : Codes) (v : T) → Path (Validated T) (invalid error) (valid v) → ⊥
never error v h = cc

max-IsPositive : (n : ℕ) → (m : ℕ) × (max 1 n ≡ suc m)
max-IsPositive n = (max 1 n - 1, omega arith)

module _ {J T : Type 0} where
  -- A value is what the schema and the check make of JSON that stands in a reply.
  pub record IsRead (r : Request J T) (reply : Codes) (v : T) : Type 0 where
    pub candidate : Codes
    pub stands : Member candidate (extract_json_candidates reply r.shape)
    pub parsed : J
    pub is_json : r.json candidate ≡ valid parsed
    pub fitting : T
    pub fits : r.schema parsed ≡ valid fitting
    pub passes : r.check fitting ≡ valid v

  -- How the loop ends after `n` prompts, when `most` attempts were left.
  unfoldable pub Ends : Request J T → (ℕ → Codes → Option Codes) → ℕ → ℕ → Structured T → Type 0
  Ends r model most n (value v) =
      (n ≤ most)
      × ((reply : Codes) × (calls : ℕ) × (prompt : Codes) × (model calls prompt ≡ some reply)
          × IsRead r reply v)
  Ends r model most n (gave_up attempts error response) = (n ≡ most) × (attempts ≡ attempts_of r)
  Ends r model most n provider_failed = n ≤ most

  IsTried : Request J T → Codes → Validated T → Type 0
  IsTried r candidate (invalid e) = Unit
  IsTried r candidate (valid v) =
      (j : J) × (t : T) × (r.json candidate ≡ valid j)
      × (r.schema j ≡ valid t)
      × (r.check t ≡ valid v)

  last-IsTried :
      (r : Request J T) (candidate : Codes) (j : J) (t : T) (c : Validated T)
      → r.json candidate ≡ valid j
      → r.schema j ≡ valid t
      → r.check t ≡ c
      → IsTried r candidate c
  unfolding IsTried
  last-IsTried r candidate j t (invalid e) h k l = tt
  last-IsTried r candidate j t (valid v) h k l = (j, t, h, k, l)

  checked-IsTried :
      (r : Request J T) (candidate : Codes) (j : J) (s : Validated T)
      → r.json candidate ≡ valid j
      → r.schema j ≡ s
      → IsTried r candidate (checked r s)
  unfolding IsTried
  checked-IsTried r candidate j (invalid e) h k = tt
  checked-IsTried r candidate j (valid t) h k = last-IsTried r candidate j t (r.check t) h k refl

  schema-IsTried :
      (r : Request J T) (candidate : Codes) (j : Validated J)
      → r.json candidate ≡ j
      → IsTried r candidate (through_schema r j)
  unfolding IsTried
  schema-IsTried r candidate (invalid e) h = tt
  schema-IsTried r candidate (valid j) h = checked-IsTried r candidate j (r.schema j) h refl

  tried-IsRead :
      (r : Request J T) (reply candidate : Codes) (v : T)
      → Member candidate (extract_json_candidates reply r.shape)
      → try_candidate r candidate ≡ valid v
      → IsRead r reply v
  unfolding try_candidate IsTried
  tried-IsRead r reply candidate v m h =
      let tried =
        subst (IsTried r candidate) h (schema-IsTried r candidate (r.json candidate) refl) in
      record {
        candidate = candidate;
        stands = m;
        parsed = tried.0;
        is_json = tried.2;
        fitting = tried.1;
        fits = tried.3;
        passes = tried.4;
      }

  first_valid-hit :
      (r : Request J T) (error c : Codes) (cs : List Codes) (w : T)
      → try_candidate r c ≡ valid w
      → first_valid r error (c ∷ cs) ≡ valid w
  unfolding first_valid
  first_valid-hit r error c cs w e = rw (e, first_valid) refl

  first_valid-miss :
      (r : Request J T) (error later c : Codes) (cs : List Codes)
      → try_candidate r c ≡ invalid later
      → first_valid r error (c ∷ cs) ≡ first_valid r later cs
  unfolding first_valid
  first_valid-miss r error later c cs e = rw (e, first_valid) refl

  first_valid-IsRead :
      (r : Request J T) (reply error : Codes) (cs : List Codes) (v : T)
      → ((c : Codes) → Member c cs → Member c (extract_json_candidates reply r.shape))
      → first_valid r error cs ≡ valid v
      → IsRead r reply v
  unfolding first_valid
  first_valid-IsRead r reply error [] v all h = absurd (never error v h)
  first_valid-IsRead r reply error (c ∷ cs) v all h = elim (Validated-cases (try_candidate r c)) [
    | inl (w, e) ↦
        tried-IsRead r reply c v (all c (inl refl))
          (e ∙ (sym (first_valid-hit r error c cs w e) ∙ h))
    | inr (later, e) ↦
        first_valid-IsRead r reply later cs v (λ d m. all d (inr m))
          (sym (first_valid-miss r error later c cs e) ∙ h)
  ]

  parse_and_validate-IsRead :
      (r : Request J T) (reply : Codes) (v : T)
      → parse_and_validate r reply ≡ valid v
      → IsRead r reply v
  unfolding parse_and_validate
  parse_and_validate-IsRead r reply v h =
      first_valid-IsRead r reply (missing r.shape) (extract_json_candidates reply r.shape) v
        (λ c m. m) h

  counted_more :
      (r : Request J T) (model : ℕ → Codes → Option Codes) (left n : ℕ) (s : Structured T)
      → Ends r model left n s
      → Ends r model (suc left) (suc n) s
  unfolding Ends
  counted_more r model left n (value v) h = (omega (arith, h.0), h.1)
  counted_more r model left n (gave_up a e x) h = (ground (arith, h.0), h.1)
  counted_more r model left n provider_failed h = omega (arith, h)

  attempt_from-Ends :
      (r : Request J T) (model : ℕ → Codes → Option Codes) (left calls : ℕ)
      (prompt error response : Codes)
      → let e = attempt_from r model left calls prompt error response in
        Ends r model left (length e.1) e.0
  unfolding attempt_from Ends
  attempt_from-Ends r model zero calls prompt error response = (refl, refl)
  attempt_from-Ends r model (suc left) calls prompt error response =
      elim (Option-cases (model calls prompt)) [
        | inl e ↦ rw (e, attempt_from) (omega arith)
        | inr (text, e) ↦ elim (Validated-cases (parse_and_validate r text)) [
          | inl (v, k) ↦
              rw (e, k, attempt_from)
                (omega arith, (text, calls, prompt, e, parse_and_validate-IsRead r text v k))
          | inr (later, k) ↦
              rw (e, k, attempt_from)
                (counted_more r model left _ _ (
                  attempt_from-Ends r model left (suc calls)
                    (retry_prompt r.prompt later (truncate text)) later (truncate text)))
        ]
      ]

  attempt_from-first :
      (r : Request J T) (model : ℕ → Codes → Option Codes) (left calls : ℕ)
      (prompt error response : Codes)
      → first (attempt_from r model (suc left) calls prompt error response).1 ≡ some prompt
  unfolding attempt_from
  attempt_from-first r model left calls prompt error response =
      elim (Option-cases (model calls prompt)) [
        | inl e ↦ rw (e, attempt_from) refl
        | inr (text, e) ↦ elim (Validated-cases (parse_and_validate r text)) [
          | inl (v, k) ↦ rw (e, k, attempt_from) refl
          | inr (later, k) ↦ rw (e, k, attempt_from) refl
        ]
      ]

  -- A request for structured output sends at most as many prompts as it may, and at least one, the
  -- first being its own. It ends with a value that the schema and the check make of JSON that stands
  -- in a reply, or gives up after all of its attempts, or with an error of the provider.
  pub generate_structured-Ends :
      (r : Request J T) (model : ℕ → Codes → Option Codes)
      → let e = generate_structured r model in
        (first e.1 ≡ some r.prompt) × Ends r model (attempts_of r) (length e.1) e.0
  unfolding generate_structured
  generate_structured-Ends r model =
      let most = max-IsPositive (or_else r.max_attempts 3) in
      (
        subst (λ n. first (attempt_from r model n 0 r.prompt [] []).1 ≡ some r.prompt) (sym most.1)
            (attempt_from-first r model most.0 0 r.prompt [] []),
        attempt_from-Ends r model (attempts_of r) 0 r.prompt [] [],
      )
