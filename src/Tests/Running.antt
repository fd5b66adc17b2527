-- ===== src/Tests/Running.antt =====
-- The theorems on the workflow (packages/graph/src/workflows/article-generation-workflow.ts) at
-- concrete inputs.
use open_blog_agent.Workflow.Errors.{
  Result, Thrown, as_step_error, step_error, error_code, plain_error, err,
}
use open_blog_agent.Workflow.Ports.{Ports}
use open_blog_agent.Workflow.Exec.{World}
use open_blog_agent.Workflow.State.{merge, invoked}
use open_blog_agent.Workflow.Outcome.{WorkflowResult}
use open_blog_agent.Types.Article.{no_update}
use open_blog_agent.Types.Usage.{empty_usage}
use open_blog_agent.Storage.Models.{WorkflowStatus, WorkflowRecord}
use open_blog_agent.Storage.Memory.{save_prompt, mark_running}
use open_blog_agent.Prelude.{◌≡◌, refl, false, none, some, [], ◌∷◌, arith}
use open_blog_agent.Storage.Workflows
use open_blog_agent.Storage.Articles
use open_blog_agent.Storage.Steps
use open_blog_agent.Workflow.Nodes
use open_blog_agent.Workflow.Graph.{run_from, invoke, step, body, finish_step, proceed, entry}
use open_blog_agent.Workflow.Graph
use open_blog_agent.Workflow.Restore.{is_skipped, restore_state}
use open_blog_agent.Workflow.Execute.{conclude, execute, attempt}
use open_blog_agent.Workflow.Reviews.{approve, reject}
use open_blog_agent.Workflow.Frames.{IsFramed, run_from-IsFramed}
use open_blog_agent.Workflow.Sending.{IsSafe, invoke-IsSafe}
use open_blog_agent.Workflow.Termination.{IsAnswered, invoke-IsAnswered}
use open_blog_agent.Workflow.Guards.{IsGuarded, approve-IsGuarded, IsRejection, reject-IsRejection}
use open_blog_agent.Workflow.Endings.{IsConcluded, conclude-IsConcluded}
use open_blog_agent.Workflow.Resuming.{resumed-IsAnswered, restore_state-is_skipped}
use open_blog_agent.Workflow.Publications.{IsModest, execute-IsModest}
use open_blog_agent.Workflow.Finality.{IsFinal, reject_workflow-IsFinal}
use open_blog_agent.Workflow.Failures.{failed_row, execute-failed}
use open_blog_agent.Storage.MemoryReviews.{
  record_step, load_article, reject_workflow, LoadedArticle,
}
use open_blog_agent.Tests.Data.{
  options, ports, world, fresh, final, brief, run_row, step_row, db, article_row,
}

run_found : Workflows.get_by_id "run-1" world.db ≡ some run_row
unfolding Workflows.get_by_id
run_found = refl

invoke-IsSafe_example : IsSafe options world (invoke options ports fresh world)
invoke-IsSafe_example = invoke-IsSafe options ports fresh world

approve-IsGuarded_example :
    IsGuarded options ports "run-1" "ann" none world
      (approve options ports "run-1" "ann" none world)
approve-IsGuarded_example = approve-IsGuarded options ports "run-1" "ann" none world

conclude-IsConcluded_example :
    IsConcluded options ports brief "run-1" final.quality_passed final.publish_result world
      (conclude options ports brief (some "run-1") final world)
conclude-IsConcluded_example =
    conclude-IsConcluded options ports brief "run-1" final world run_row refl run_found

invoke-IsAnswered_example : IsAnswered (invoke options ports fresh world).0
invoke-IsAnswered_example = invoke-IsAnswered options ports fresh world refl (omega arith)

reject-IsRejection_example :
    IsRejection options ports "run-1" "ann" "dull" world
      (reject options ports "run-1" "ann" "dull" world)
reject-IsRejection_example = reject-IsRejection options ports "run-1" "ann" "dull" world

run_from-IsFramed_example : IsFramed world (run_from options ports 25 Graph.planner fresh world).1
run_from-IsFramed_example = run_from-IsFramed options ports 25 Graph.planner fresh world

restore_state-is_skipped_example : is_skipped (restore_state (step_row ∷ [])) ≡ false
restore_state-is_skipped_example = restore_state-is_skipped (step_row ∷ [])

resumed-IsAnswered_example :
    IsAnswered
      (invoke options ports
        (invoked (restore_state (step_row ∷ [])) brief false (some "run-1"))
        world).0
resumed-IsAnswered_example =
    resumed-IsAnswered options ports (step_row ∷ []) brief false (some "run-1") world (omega arith)

abbrev loaded : LoadedArticle
loaded = record { workflow_status = WorkflowStatus.awaiting_approval; article = article_row }

article_found : load_article "run-1" db ≡ some loaded
unfolding load_article Workflows.get_by_id Articles.get_by_workflow_id
article_found = refl

abbrev rejected : World
rejected = record world { db = reject_workflow "decision-1" "run-1" "ann" "dull" 9 db }

reject_workflow-IsFinal_example : IsFinal options ports "run-1" rejected
reject_workflow-IsFinal_example =
    reject_workflow-IsFinal options ports "run-1" rejected db loaded "decision-1" "ann" "dull" 9
      refl article_found refl

-- The planner's provider is down.
abbrev broken : Ports
broken = record ports { planner = λ n i. err (plain_error "down") }

abbrev down : Thrown
down = record {
  step = some "planner";
  code = some "step_failed";
  name = some "WorkflowStepError";
  message = "down";
}

abbrev attempted : Result WorkflowResult × World
attempted = attempt options broken brief (some "run-1") false no_update empty_usage world

abbrev running_row : WorkflowRecord
running_row = record run_row {
  status = WorkflowStatus.running;
  completed_at = none;
  updated_at = 10;
}

planner_fails : attempted.0 ≡ err down
unfolding attempt invoke run_from step body Nodes.planner finish_step as_step_error step_error
    error_code proceed entry merge invoked save_prompt Graph.name_of
planner_fails = refl

row_kept : Workflows.get_by_id "run-1" attempted.1.db ≡ some running_row
unfolding attempt invoke run_from step body Nodes.planner finish_step as_step_error step_error
    error_code proceed entry merge invoked save_prompt mark_running Workflows.get_by_id record_step
    Steps.append Workflows.update_status
row_kept = refl

execute-failed_example :
    let (r, w) = execute options broken brief (some "run-1") false no_update empty_usage world in
    (r ≡ err down)
    × (Workflows.get_by_id "run-1" w.db ≡ some (failed_row down attempted.1.calls running_row))
execute-failed_example =
    execute-failed options broken brief "run-1" false no_update empty_usage world down running_row
      refl planner_fails row_kept

execute-IsModest_example :
    IsModest options world
      (execute options ports brief (some "run-1") false no_update empty_usage world).1
execute-IsModest_example =
    execute-IsModest options ports brief (some "run-1") false no_update empty_usage world
