-- ===== src/Budget.antt =====
-- packages/graph/src/usage.ts: the counters of a run and its budget. The language model is a
-- parameter; the hash of a prompt is a port, log lines are left out.
pub mod Accounting
pub mod Overshoot
use open_blog_agent.Prelude.{
  ℕ, ◌+◌, suc, String, Bool, true, false, ◌||◌, ◌==◌, Option, none, some, List, [], ◌∷◌, ◌++◌,
  if◌then◌else◌, ltb, or_else,
}
use open_blog_agent.Types.Usage.{LlmUsage, add_usage}

pub record UsageBudget : Type 0 where
  pub max_tokens : Option ℕ
  pub max_cost_usd : Option ℕ

-- What a provider reports of a call.
pub record Reported : Type 0 where
  pub prompt_tokens : Option ℕ
  pub completion_tokens : Option ℕ
  pub total_tokens : Option ℕ
  pub cost : Option ℕ

pub record Reply : Type 0 where
  pub text : String
  pub model : String
  pub usage : Option Reported

-- The stores of one run; `usage` is none outside a run. `sent` are the prompts given to the model.
pub record Tracked : Type 0 where
  pub usage : Option LlmUsage
  pub models : List String
  pub prompt_hashes : List String
  pub sent : List String

pub data Generated : Type 0 where
  replied : Reply → Generated
  over_budget_error : LlmUsage → Generated
  provider_error : Generated

-- `max !== undefined && used > max`
abbrev pub is_exceeded : Option ℕ → ℕ → Bool
is_exceeded none used = false
is_exceeded (some most) used = ltb most used

unfoldable pub over_budget : LlmUsage → UsageBudget → Bool
over_budget usage budget =
    is_exceeded budget.max_tokens usage.total_tokens
    || is_exceeded budget.max_cost_usd usage.cost_usd

-- what one reply adds
unfoldable pub counted : Option Reported → LlmUsage
counted none = record {
  calls = 1;
  prompt_tokens = 0;
  completion_tokens = 0;
  total_tokens = 0;
  cost_usd = 0;
}
counted (some r) =
    let prompt = or_else r.prompt_tokens 0 in
    let completion = or_else r.completion_tokens 0 in
    record {
      calls = 1;
      prompt_tokens = prompt;
      completion_tokens = completion;
      total_tokens = or_else r.total_tokens (prompt + completion);
      cost_usd = or_else r.cost 0;
    }

abbrev pub push_model : String → List String → List String
push_model model models = if model == "" then models else models ++ (model ∷ [])

-- The counters are brought up to date, and only then is the budget looked at again.
unfoldable pub count_reply : UsageBudget → Reply → Tracked → Generated × Tracked
unfolding over_budget counted
count_reply budget reply t = elim t.usage [
  | none ↦ (replied reply, record t { models = push_model reply.model t.models })
  | some usage ↦
      let after = add_usage usage (counted reply.usage) in
      let t' = record t { usage = some after; models = push_model reply.model t.models } in
      if over_budget after budget then (over_budget_error after, t') else (replied reply, t')
]

-- the call of the model; none is an error of it
unfoldable pub send :
    UsageBudget → (String → String) → Option Reply → String → Tracked → Generated × Tracked
unfolding count_reply
send budget hash answer prompt t =
    let t' = record t {
      prompt_hashes = t.prompt_hashes ++ (hash prompt ∷ []);
      sent = t.sent ++ (prompt ∷ []);
    } in
    elim answer [ none ↦ (provider_error, t') | some reply ↦ count_reply budget reply t' ]

unfoldable pub generate :
    UsageBudget → (String → String) → Option Reply → String → Tracked → Generated × Tracked
unfolding over_budget send
generate budget hash answer prompt t = elim t.usage [
  | none ↦ send budget hash answer prompt t
  | some usage ↦
      if over_budget usage budget
      then (over_budget_error usage, t)
      else send budget hash answer prompt t
]

-- Calls one after the other, each a prompt and what the model answers.
unfoldable pub generate_all :
    UsageBudget → (String → String) → List (String × Option Reply) → Tracked → Tracked
unfolding generate
generate_all budget hash [] t = t
generate_all budget hash (c ∷ cs) t = generate_all budget hash cs (generate budget hash c.1 c.0 t).1
