-- ===== src/Workflow/Failures.antt =====
-- How a run that throws is stored (`execute` of
-- packages/graph/src/workflows/article-generation-workflow.ts).
use open_blog_agent.Prelude.{
  ◌≡◌, refl, String, Bool, true, Option, none, some, ℕ, eq_refl, if◌then◌else◌, is_some, Bool-cases,
  inl, inr,
}
use open_blog_agent.Types.Brief.{ResolvedBrief}
use open_blog_agent.Types.Usage.{LlmUsage}
use open_blog_agent.Types.Article.{Update}
use open_blog_agent.Storage.Models.{WorkflowStatus, WorkflowRecord, Db}
use open_blog_agent.Storage.Workflows
use open_blog_agent.Storage.Workflows.{apply_change}
use open_blog_agent.Storage.Memory.{fail_workflow}
use open_blog_agent.Storage.Views.{run-update_status}
use open_blog_agent.Workflow.Errors.{Thrown, err, error_code}
use open_blog_agent.Workflow.Ports.{Options, Ports}
use open_blog_agent.Workflow.Exec.{World}
use open_blog_agent.Workflow.Execute.{attempt, record_failure, execute}

-- The row of a run that threw.
pub failed_row : Thrown → ℕ → WorkflowRecord → WorkflowRecord
failed_row e now row = record row {
  status = WorkflowStatus.failed;
  completed_at = some now;
  error_message = some e.message;
  error_code = if is_some e.step then some (error_code e) else none;
  failed_step = e.step;
  updated_at = now;
}

module _ (o : Options) (p : Ports) (brief : ResolvedBrief) (id : String) where
  run-fail_workflow :
      (message : String) (step code : Option String) (now : ℕ) (db : Db) (row : WorkflowRecord)
      → Workflows.get_by_id id db ≡ some row
      → Workflows.get_by_id id (fail_workflow id message step code now db)
        ≡ some (record row {
          status = WorkflowStatus.failed;
          completed_at = some now;
          error_message = some message;
          error_code = code;
          failed_step = step;
          updated_at = now;
        })
  unfolding fail_workflow apply_change
  run-fail_workflow message step code now db row found = simp (run-update_status, eq_refl, found)

  record_failure-stored :
      (e : Thrown) (w : World) (row : WorkflowRecord)
      → o.memory ≡ true
      → Workflows.get_by_id id w.db ≡ some row
      → ((record_failure o p brief (some id) e w).0 ≡ err e)
        × (Workflows.get_by_id id (record_failure o p brief (some id) e w).1.db
            ≡ some (failed_row e (p.clock w.calls) row))
  unfolding record_failure failed_row
  record_failure-stored e w row there found =
      let stored =
        run-fail_workflow e.message e.step (if is_some e.step then some (error_code e) else none)
          (p.clock w.calls) w.db row found in
      elim (Bool-cases o.notifier) [
        | inl loud ↦ rw (there, loud) (refl, stored)
        | inr silent ↦ rw (there, silent) (refl, stored)
      ]

  -- When a stored run throws, the error is thrown on unchanged, and the run, if it is still there, is
  -- stored as failed with the message of the error, and with its step and code when a step threw.
  pub execute-failed :
      (force : Bool) (restored : Update) (prior : LlmUsage) (w : World) (e : Thrown)
      (row : WorkflowRecord)
      → o.memory ≡ true
      → (attempt o p brief (some id) force restored prior w).0 ≡ err e
      → Workflows.get_by_id id (attempt o p brief (some id) force restored prior w).1.db ≡ some row
      → let (r, w'') = execute o p brief (some id) force restored prior w in
        let now = p.clock (attempt o p brief (some id) force restored prior w).1.calls in
        (r ≡ err e) × (Workflows.get_by_id id w''.db ≡ some (failed_row e now row))
  unfolding execute
  execute-failed force restored prior w e row there thrown found =
      let w' = (attempt o p brief (some id) force restored prior w).1 in
      rw thrown (record_failure-stored e w' row there found)
