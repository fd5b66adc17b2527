-- ===== src/Budget/Accounting.antt =====
-- What a run has counted of its calls (packages/graph/src/usage.ts).
use open_blog_agent.Prelude.{
  ◌++◌, ℕ, ◌+◌, String, ◌≡◌, true, false, Option, none, some, List, [], ◌∷◌, arith, refl,
  Bool-cases, inl, inr, ap, ◌∙◌, subst, sym, ◌<◌, append-nil, ◌⊎◌, map, append_assoc,
}
use open_blog_agent.Types.Usage.{LlmUsage, add_usage}
use open_blog_agent.Budget.{
  Reported, UsageBudget, Reply, Tracked, over_budget, is_exceeded, counted, count_reply, send,
  generate, generate_all, or_else,
}

-- What the model reports of a call: nothing where it fails or reports no usage, and where there is no
-- total, the sum of its parts.
abbrev pub reported_tokens : Option Reply → ℕ
reported_tokens none = 0
reported_tokens (some reply) = elim reply.usage [
  | none ↦ 0
  | some r ↦ elim r.total_tokens [
    | some n ↦ n
    | none ↦ or_else r.prompt_tokens 0 + or_else r.completion_tokens 0
  ]
]

abbrev pub reported_cost : Option Reply → ℕ
reported_cost none = 0
reported_cost (some reply) = elim reply.usage [ none ↦ 0 | some r ↦ or_else r.cost 0 ]

pub reported_tokens-counted :
    (u : Option Reported) (text model : String)
    → (counted u).total_tokens
      ≡ reported_tokens (some (record { text = text; model = model; usage = u }))
unfolding counted
reported_tokens-counted none text model = refl
reported_tokens-counted (some r) text model = ground arith

pub reported_cost-counted :
    (u : Option Reported) (text model : String)
    → (counted u).cost_usd ≡ reported_cost (some (record { text = text; model = model; usage = u }))
unfolding counted
reported_cost-counted none text model = refl
reported_cost-counted (some r) text model = refl

-- what the calls report together
pub total_reported : (Option Reply → ℕ) → List (String × Option Reply) → ℕ
total_reported report [] = 0
total_reported report (c ∷ cs) = report c.1 + total_reported report cs

-- The counters are above a limit of the budget.
abbrev pub IsOver : UsageBudget → LlmUsage → Type 0
IsOver budget u =
    ((most : ℕ) × (budget.max_tokens ≡ some most) × (most < u.total_tokens))
    ⊎ ((most : ℕ) × (budget.max_cost_usd ≡ some most) × (most < u.cost_usd))

exceeded :
    (limit : Option ℕ) (used : ℕ)
    → is_exceeded limit used ≡ true
    → (most : ℕ) × (limit ≡ some most) × (most < used)
exceeded none used h = cc
exceeded (some most) used h = (most, refl, ground arith)

over_budget-IsOver :
    (budget : UsageBudget) (u : LlmUsage) → over_budget u budget ≡ true → IsOver budget u
unfolding over_budget
over_budget-IsOver budget u h = elim (Bool-cases (is_exceeded budget.max_tokens u.total_tokens)) [
  | inl tokens ↦ inl (exceeded budget.max_tokens u.total_tokens tokens)
  | inr few ↦ inr (exceeded budget.max_cost_usd u.cost_usd (ground arith))
]

-- The calls `made` were sent to the model and counted, in their order, and the calls `left` were not.
pub record IsAccounted (budget : UsageBudget) (cs : List (String × Option Reply)) (u : LlmUsage)
    (t t' : Tracked) : Type 0 where
  pub made : List (String × Option Reply)
  pub left : List (String × Option Reply)
  pub split : cs ≡ made ++ left
  pub prompts : t'.sent ≡ t.sent ++ map (λ (c : String × Option Reply). c.0) made
  pub usage : LlmUsage
  pub stored : t'.usage ≡ some usage
  pub tokens : usage.total_tokens ≡ u.total_tokens + total_reported reported_tokens made
  pub cost : usage.cost_usd ≡ u.cost_usd + total_reported reported_cost made
  pub stopped : (left ≡ []) ⊎ IsOver budget usage

-- What one call does when the budget allows it.
record IsStep (prompt : String) (answer : Option Reply) (u : LlmUsage) (t t' : Tracked)
    : Type 0 where
  pub usage : LlmUsage
  pub stored : t'.usage ≡ some usage
  pub tokens : usage.total_tokens ≡ u.total_tokens + reported_tokens answer
  pub cost : usage.cost_usd ≡ u.cost_usd + reported_cost answer
  pub prompts : t'.sent ≡ t.sent ++ (prompt ∷ [])

module _ (budget : UsageBudget) (hash : String → String) where
  abbrev fields : Option LlmUsage → Tracked → Tracked
  fields u t = record t { usage = u }

  fields-IsStep :
      (answer : Option Reply) (prompt : String) (u : LlmUsage) (t : Tracked)
      → over_budget u budget ≡ false
      → IsStep prompt answer u t (generate budget hash answer prompt (fields (some u) t)).1
  unfolding generate send count_reply
  fields-IsStep none prompt u t e = rw e (record {
    usage = u;
    stored = refl;
    tokens = omega arith;
    cost = omega arith;
    prompts = refl;
  })
  fields-IsStep (some reply) prompt u t e =
      let after = add_usage u (counted reply.usage) in
      let tokens : after.total_tokens ≡ u.total_tokens + reported_tokens (some reply) =
        unfold add_usage in
        ap (λ n. u.total_tokens + n) (reported_tokens-counted reply.usage reply.text reply.model) in
      let cost : after.cost_usd ≡ u.cost_usd + reported_cost (some reply) =
        unfold add_usage in
        ap (λ n. u.cost_usd + n) (reported_cost-counted reply.usage reply.text reply.model) in
      elim (Bool-cases (over_budget after budget)) [
        | inl f ↦
            rw (e, f)
              (record {
                usage = after;
                stored = refl;
                tokens = tokens;
                cost = cost;
                prompts = refl;
              })
        | inr f ↦
            rw (e, f)
              (record {
                usage = after;
                stored = refl;
                tokens = tokens;
                cost = cost;
                prompts = refl;
              })
      ]

  generate-IsStep :
      (answer : Option Reply) (prompt : String) (u : LlmUsage) (t : Tracked)
      → t.usage ≡ some u
      → over_budget u budget ≡ false
      → IsStep prompt answer u t (generate budget hash answer prompt t).1
  generate-IsStep answer prompt u t e under =
      subst
        (λ (x : Option LlmUsage).
          IsStep prompt answer u t (generate budget hash answer prompt (fields x t)).1)
        (sym e) (fields-IsStep answer prompt u t under)

  over_fields :
      (answer : Option Reply) (prompt : String) (u : LlmUsage) (ms hs ss : List String)
      → over_budget u budget ≡ true
      → (generate budget hash answer prompt
          (record { usage = some u; models = ms; prompt_hashes = hs; sent = ss })).1
        ≡ record { usage = some u; models = ms; prompt_hashes = hs; sent = ss }
  unfolding generate
  over_fields answer prompt u ms hs ss e = rw (e, generate) refl

  pub generate_all-over :
      (cs : List (String × Option Reply)) (u : LlmUsage) (ms hs ss : List String)
      → over_budget u budget ≡ true
      → generate_all budget hash cs
          (record { usage = some u; models = ms; prompt_hashes = hs; sent = ss })
        ≡ record { usage = some u; models = ms; prompt_hashes = hs; sent = ss }
  unfolding generate_all
  generate_all-over [] u ms hs ss e = refl
  generate_all-over (c ∷ cs) u ms hs ss e =
      ap (generate_all budget hash cs) (over_fields c.1 c.0 u ms hs ss e)
      ∙ generate_all-over cs u ms hs ss e

  stopped-IsAccounted :
      (cs : List (String × Option Reply)) (t : Tracked) (u : LlmUsage)
      → t.usage ≡ some u
      → over_budget u budget ≡ true
      → IsAccounted budget cs u t (generate_all budget hash cs t)
  stopped-IsAccounted cs t u e over =
      let same : generate_all budget hash cs t ≡ t =
        subst (λ (x : Option LlmUsage). generate_all budget hash cs (fields x t) ≡ fields x t)
          (sym e) (generate_all-over cs u t.models t.prompt_hashes t.sent over) in
      subst (IsAccounted budget cs u t) (sym same) (record {
        made = [];
        left = cs;
        split = refl;
        prompts = sym (append-nil t.sent);
        usage = u;
        stored = e;
        tokens = unfold total_reported in omega arith;
        cost = unfold total_reported in omega arith;
        stopped = inr (over_budget-IsOver budget u over);
      })

  IsAccounted-step :
      (c : String × Option Reply) (cs : List (String × Option Reply)) (u : LlmUsage)
      (t t' t'' : Tracked) (s : IsStep c.0 c.1 u t t')
      → IsAccounted budget cs s.usage t' t''
      → IsAccounted budget (c ∷ cs) u t t''
  unfolding total_reported
  IsAccounted-step c cs u t t' t'' s h = record {
    made = c ∷ h.made;
    left = h.left;
    split = ap (λ (l : List (String × Option Reply)). c ∷ l) h.split;
    prompts =
        h.prompts
        ∙ (ap (λ (l : List String). l ++ map (λ (d : String × Option Reply). d.0) h.made) s.prompts
            ∙ append_assoc t.sent (c.0 ∷ []) (map (λ (d : String × Option Reply). d.0) h.made));
    usage = h.usage;
    stored = h.stored;
    tokens = omega (arith, s.tokens, h.tokens);
    cost = omega (arith, s.cost, h.cost);
    stopped = h.stopped;
  }

  pub generate_all-IsAccounted :
      (cs : List (String × Option Reply)) (t : Tracked) (u : LlmUsage)
      → t.usage ≡ some u
      → IsAccounted budget cs u t (generate_all budget hash cs t)
  unfolding generate_all
  generate_all-IsAccounted [] t u e = record {
    made = [];
    left = [];
    split = refl;
    prompts = sym (append-nil t.sent);
    usage = u;
    stored = e;
    tokens = unfold total_reported in omega arith;
    cost = unfold total_reported in omega arith;
    stopped = inl refl;
  }
  generate_all-IsAccounted (c ∷ cs) t u e = elim (Bool-cases (over_budget u budget)) [
    | inl over ↦ stopped-IsAccounted (c ∷ cs) t u e over
    | inr under ↦
        let s = generate-IsStep c.1 c.0 u t e under in
        IsAccounted-step c cs u t (generate budget hash c.1 c.0 t).1 _ s
          (generate_all-IsAccounted cs (generate budget hash c.1 c.0 t).1 s.usage s.stored)
  ]
