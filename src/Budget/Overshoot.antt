-- ===== src/Budget/Overshoot.antt =====
-- How far a run can go over its budget (packages/graph/src/usage.ts).
use open_blog_agent.Prelude.{
  ℕ, ◌+◌, ◌≤◌, String, ◌≡◌, true, false, Option, none, some, List, [], ◌∷◌, All, arith, Bool-cases,
  inl, inr, subst, sym,
}
use open_blog_agent.Types.Usage.{LlmUsage, add_usage}
use open_blog_agent.Budget.Accounting.{
  reported_tokens, reported_cost, reported_tokens-counted, reported_cost-counted, IsAccounted,
  generate_all-IsAccounted, generate_all-over,
}
use open_blog_agent.Budget.{
  UsageBudget, Reply, Tracked, over_budget, is_exceeded, counted, count_reply, send, generate,
  generate_all,
}

-- A call reports at most these tokens and this cost.
unfoldable pub IsWithin : ℕ → ℕ → Option Reply → Type 0
IsWithin tokens cost answer = (reported_tokens answer ≤ tokens) × (reported_cost answer ≤ cost)

abbrev AtMost : Option ℕ → ℕ → ℕ → Type 0
AtMost none more used = Unit
AtMost (some most) more used = used ≤ most + more

-- The run has used at most its budget and one call more.
unfoldable pub IsNearBudget : UsageBudget → ℕ → ℕ → Option LlmUsage → Type 0
IsNearBudget budget tokens cost none = Unit
IsNearBudget budget tokens cost (some u) =
    AtMost budget.max_tokens tokens u.total_tokens × AtMost budget.max_cost_usd cost u.cost_usd

added-AtMost :
    (most : Option ℕ) (more used extra : ℕ)
    → is_exceeded most used ≡ false
    → extra ≤ more
    → AtMost most more (used + extra)
added-AtMost none more used extra h k = tt
added-AtMost (some most) more used extra h k = ground arith

added-IsNearBudget :
    (budget : UsageBudget) (tokens cost : ℕ) (u : LlmUsage) (reply : Reply)
    → IsWithin tokens cost (some reply)
    → over_budget u budget ≡ false
    → IsNearBudget budget tokens cost (some (add_usage u (counted reply.usage)))
unfolding over_budget IsNearBudget IsWithin add_usage
added-IsNearBudget budget tokens cost u reply within under =
    let same = reported_tokens-counted reply.usage reply.text reply.model in
    let cheap = reported_cost-counted reply.usage reply.text reply.model in
    (
      added-AtMost budget.max_tokens tokens u.total_tokens (counted reply.usage).total_tokens
          (ground (arith, under)) (subst (λ n. n ≤ tokens) (sym same) within.0),
      added-AtMost budget.max_cost_usd cost u.cost_usd (counted reply.usage).cost_usd
          (ground (arith, under)) (subst (λ n. n ≤ cost) (sym cheap) within.1),
    )

module _ (budget : UsageBudget) (hash : String → String) (tokens cost : ℕ) where
  abbrev Near : Option LlmUsage → Type 0
  Near = IsNearBudget budget tokens cost

  fields-IsNearBudget :
      (answer : Option Reply) (prompt : String) (u : Option LlmUsage) (ms hs ss : List String)
      → IsWithin tokens cost answer
      → Near u
      → Near
          (generate budget hash answer prompt
            (record { usage = u; models = ms; prompt_hashes = hs; sent = ss })).1.usage
  unfolding generate send count_reply
  fields-IsNearBudget none prompt none ms hs ss within near = near
  fields-IsNearBudget (some reply) prompt none ms hs ss within near = near
  fields-IsNearBudget none prompt (some u) ms hs ss within near =
      elim (Bool-cases (over_budget u budget)) [ inl e ↦ rw e near | inr e ↦ rw e near ]
  fields-IsNearBudget (some reply) prompt (some u) ms hs ss within near =
      elim (Bool-cases (over_budget u budget)) [
        | inl e ↦ rw e near
        | inr e ↦
            let after = added-IsNearBudget budget tokens cost u reply within e in
            elim (Bool-cases (over_budget (add_usage u (counted reply.usage)) budget)) [
              | inl f ↦ rw (e, f) after
              | inr f ↦ rw (e, f) after
            ]
      ]

  generate_all-IsNearBudget :
      (cs : List (String × Option Reply)) (t : Tracked)
      → All (λ (c : String × Option Reply). IsWithin tokens cost c.1) cs
      → Near t.usage
      → Near (generate_all budget hash cs t).usage
  unfolding generate_all
  generate_all-IsNearBudget [] t within near = near
  generate_all-IsNearBudget (c ∷ cs) t within near =
      generate_all-IsNearBudget cs (generate budget hash c.1 c.0 t).1 within.1
        (fields-IsNearBudget c.1 c.0 t.usage t.models t.prompt_hashes t.sent within.0 near)

-- However many calls a run makes, it sends the prompts of the calls in their order up to some call,
-- stopping before one only where it is over its budget; it has counted exactly the tokens and the cost
-- that the model reported of them; and that is at most its budget and what one call reports, when no
-- call reports more than `tokens` and `cost` and it starts so. From where it is over its budget, no
-- prompt is sent to the model any more and nothing is counted.
pub generate_all-IsLimited :
    (budget : UsageBudget) (hash : String → String) (tokens cost : ℕ)
    (cs : List (String × Option Reply)) (t : Tracked) (u : LlmUsage)
    → t.usage ≡ some u
    → All (λ (c : String × Option Reply). IsWithin tokens cost c.1) cs
    → IsNearBudget budget tokens cost t.usage
    → IsAccounted budget cs u t (generate_all budget hash cs t)
      × IsNearBudget budget tokens cost (generate_all budget hash cs t).usage
      × ((v : LlmUsage)
          → over_budget v budget ≡ true
          → generate_all budget hash cs (record t { usage = some v }) ≡ record t { usage = some v })
generate_all-IsLimited budget hash tokens cost cs t u e within near = (
  generate_all-IsAccounted budget hash cs t u e,
  generate_all-IsNearBudget budget hash tokens cost cs t within near,
  (λ v over. generate_all-over budget hash cs v t.models t.prompt_hashes t.sent over),
)
