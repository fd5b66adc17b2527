-- ===== src/Storage/Steps.antt =====
-- packages/storage/src/repositories/step-repository.ts and decision-repository.ts
use Prim.Native.Nat.{max}
use open_blog_agent.Prelude.{
  ℕ, ◌+◌, String, Bool, true, false, ◌&&◌, ◌==◌, Option, none, some, List, [], ◌∷◌, ◌++◌, keep, ltb,
  nat_eq, if◌then◌else◌, is_some,
}
use open_blog_agent.Types.Usage.{LlmUsage}
use open_blog_agent.Types.Article.{Update}
use open_blog_agent.Storage.Models.{StepStatus, succeeded, StepRecord, DecisionRecord, Db}
use open_blog_agent.Storage.Tables.{order_by, then_by}

-- The rows of one step of one run.
abbrev pub is_execution : String → String → StepRecord → Bool
is_execution workflow_id step s = s.workflow_id == workflow_id && s.step == step

-- COALESCE(MAX(attempt), 0)
unfoldable pub last_attempt : String → String → List StepRecord → ℕ
last_attempt workflow_id step [] = 0
last_attempt workflow_id step (s ∷ ss) =
    max (if is_execution workflow_id step s then s.attempt else 0)
      (last_attempt workflow_id step ss)

-- `model` without its attempt, which follows the earlier ones of the same step
unfoldable pub append : StepRecord → Db → Db
append model db = record db {
  steps =
      db.steps
      ++ record model { attempt = last_attempt model.workflow_id model.step db.steps + 1 } ∷ [];
}

-- ORDER BY completed_at ASC, attempt ASC, rowid ASC
unfoldable pub finished_before : StepRecord → StepRecord → Bool
finished_before a b =
    then_by (ltb a.completed_at b.completed_at) (nat_eq a.completed_at b.completed_at)
      (ltb a.attempt b.attempt)

unfoldable pub get_by_workflow_id : String → Db → List StepRecord
get_by_workflow_id workflow_id db =
    order_by finished_before (keep (λ s. s.workflow_id == workflow_id) db.steps)

-- `tokens ?? 0` of a row without usage
abbrev pub tokens_of : Option LlmUsage → ℕ
tokens_of none = 0
tokens_of (some u) = u.total_tokens

abbrev pub cost_of : Option LlmUsage → ℕ
cost_of none = 0
cost_of (some u) = u.cost_usd

-- One run of `totalsByWorkflow`: its tokens and cost, over the rows of the table.
unfoldable pub totals : String → List StepRecord → ℕ × ℕ
totals workflow_id [] = (0, 0)
totals workflow_id (s ∷ ss) =
    let (tokens, cost) = totals workflow_id ss in
    if s.workflow_id == workflow_id
    then (tokens_of s.usage + tokens, cost_of s.usage + cost)
    else (tokens, cost)

abbrev pub is_succeeded : StepStatus → Bool
is_succeeded succeeded = true
is_succeeded _ = false

-- The last output that `latestOutputs` keeps for one run.
abbrev pub last_output : Option Update → List StepRecord → Option Update
last_output latest [] = latest
last_output latest (s ∷ ss) = last_output (s.output) ss

unfoldable pub latest_output : String → String → Db → Option Update
latest_output workflow_id step db = last_output none (
    order_by finished_before (
      keep (λ s. is_execution workflow_id step s && (is_succeeded s.status && is_some s.output))
        db.steps))

unfoldable pub append_decision : DecisionRecord → Db → Db
append_decision d db = record db { decisions = db.decisions ++ d ∷ [] }

-- ORDER BY created_at, rowid
unfoldable pub get_decisions : String → Db → List DecisionRecord
get_decisions workflow_id db =
    order_by (λ a b. ltb a.created_at b.created_at)
      (keep (λ d. d.workflow_id == workflow_id) db.decisions)
