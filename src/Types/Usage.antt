-- ===== src/Types/Usage.antt =====
-- packages/graph/src/usage.ts: the usage record and its sums.
use open_blog_agent.Prelude.{ℕ, ◌+◌, ◌-◌}

pub record LlmUsage : Type 0 where
  pub calls : ℕ
  pub prompt_tokens : ℕ
  pub completion_tokens : ℕ
  pub total_tokens : ℕ
  pub cost_usd : ℕ

abbrev pub empty_usage : LlmUsage
empty_usage = record {
  calls = 0;
  prompt_tokens = 0;
  completion_tokens = 0;
  total_tokens = 0;
  cost_usd = 0;
}

unfoldable pub add_usage : LlmUsage → LlmUsage → LlmUsage
add_usage a b = record {
  calls = a.calls + b.calls;
  prompt_tokens = a.prompt_tokens + b.prompt_tokens;
  completion_tokens = a.completion_tokens + b.completion_tokens;
  total_tokens = a.total_tokens + b.total_tokens;
  cost_usd = a.cost_usd + b.cost_usd;
}

-- Called with a later value of a counter that only grows, so that no field is below zero; in units
-- of 1e-9 USD the rounding of the cost is the identity.
unfoldable pub usage_since : LlmUsage → LlmUsage → LlmUsage
usage_since before after = record {
  calls = after.calls - before.calls;
  prompt_tokens = after.prompt_tokens - before.prompt_tokens;
  completion_tokens = after.completion_tokens - before.completion_tokens;
  total_tokens = after.total_tokens - before.total_tokens;
  cost_usd = after.cost_usd - before.cost_usd;
}
