-- ===== src/Tests/Budgets.antt =====
-- The theorem on the budget of a run (packages/graph/src/usage.ts) at a concrete input.
use open_blog_agent.Prelude.{
  ℕ, String, ◌≡◌, true, Option, none, some, List, [], ◌∷◌, All, arith, refl,
}
use open_blog_agent.Types.Usage.{LlmUsage, empty_usage}
use open_blog_agent.Budget.{UsageBudget, Reply, Tracked, over_budget, generate_all}
use open_blog_agent.Budget.Accounting.{IsAccounted}
use open_blog_agent.Budget.Overshoot.{IsWithin, IsNearBudget, generate_all-IsLimited}

abbrev budget : UsageBudget
budget = record { max_tokens = some 100; max_cost_usd = none }

-- The second reply brings the run over its budget, so the third is not asked for.
abbrev reply : ℕ → Option Reply
reply n = some (record {
  text = "text";
  model = "model";
  usage = some (record {
    prompt_tokens = some 10;
    completion_tokens = some 20;
    total_tokens = some n;
    cost = none;
  });
})

abbrev calls : List (String × Option Reply)
calls = ("plan", reply 60) ∷ ("write", reply 70) ∷ ("edit", reply 30) ∷ []

abbrev start : Tracked
start = record { usage = some empty_usage; models = []; prompt_hashes = []; sent = [] }

calls-IsWithin : All (λ (c : String × Option Reply). IsWithin 70 0 c.1) calls
unfolding IsWithin
calls-IsWithin =
    ((omega arith, omega arith), ((omega arith, omega arith), ((omega arith, omega arith), tt)))

start-IsNearBudget : IsNearBudget budget 70 0 start.usage
unfolding IsNearBudget
start-IsNearBudget = (omega arith, tt)

generate_all-IsLimited_example :
    IsAccounted budget calls empty_usage start (generate_all budget (λ s. s) calls start)
    × IsNearBudget budget 70 0 (generate_all budget (λ s. s) calls start).usage
    × ((u : LlmUsage)
        → over_budget u budget ≡ true
        → generate_all budget (λ s. s) calls (record start { usage = some u })
          ≡ record start { usage = some u })
generate_all-IsLimited_example =
    generate_all-IsLimited budget (λ s. s) 70 0 calls start empty_usage refl calls-IsWithin
      start-IsNearBudget
