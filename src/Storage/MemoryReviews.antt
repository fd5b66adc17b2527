-- ===== src/Storage/MemoryReviews.antt =====
-- packages/storage/src/memory/service.ts: the stored article of a run, its approval, rejection and
-- revision, and the record of its steps.
use open_blog_agent.Prelude.{ℕ, String, Option, none, some, List, or_else, if◌then◌else◌}
use open_blog_agent.Types.Publish.{PublishResult}
use open_blog_agent.Types.Article.{MatchedOn}
use open_blog_agent.Storage.Models.{
  WorkflowStatus, Metadata, WorkflowRecord, ArticleRecord, DecisionAction, reject, revise,
  StepRecord, Db,
}
use open_blog_agent.Storage.Workflows
use open_blog_agent.Storage.Articles
use open_blog_agent.Storage.Steps
use open_blog_agent.Storage.Memory.{publish_remote}

pub record LoadedArticle : Type 0 where
  pub workflow_status : WorkflowStatus
  pub article : ArticleRecord

abbrev pub both_loaded : Option WorkflowRecord → Option ArticleRecord → Option LoadedArticle
both_loaded none a = none
both_loaded (some w) none = none
both_loaded (some w) (some a) = some (record { workflow_status = w.status; article = a })

unfoldable pub load_article : String → Db → Option LoadedArticle
load_article workflow_id db =
    both_loaded (Workflows.get_by_id workflow_id db) (Articles.get_by_workflow_id workflow_id db)

unfoldable pub begin_approval : String → String → Option String → ℕ → Db → Db
begin_approval workflow_id approved_by override_reason now db =
    Articles.mark_approved workflow_id approved_by override_reason now db

unfoldable pub append_decision : String → String → DecisionAction → String → String → ℕ → Db → Db
append_decision id workflow_id action actor note now db =
    Steps.append_decision
      (record {
        id = id;
        workflow_id = workflow_id;
        action = action;
        actor = actor;
        note = note;
        created_at = now;
      })
      db

unfoldable pub reject_workflow : String → String → String → String → ℕ → Db → Db
reject_workflow id workflow_id actor note now db = Articles.mark_rejected workflow_id now (
    Workflows.update_status workflow_id
      (record {
        status = WorkflowStatus.rejected;
        completed_at = some now;
        error_message = none;
        error_code = none;
        failed_step = none;
      })
      now (append_decision id workflow_id reject actor note now db))

unfoldable pub record_revision : String → String → String → String → ℕ → Db → Db
record_revision id workflow_id actor note now db =
    append_decision id workflow_id revise actor note now db

unfoldable pub complete_approval : String → PublishResult → ℕ → Db → Db
complete_approval workflow_id result now db =
    let stored =
      Articles.record_approval_publish workflow_id result.success result
        (publish_remote (some result)) now db in
    if result.success
    then Workflows.update_status workflow_id
        (record {
          status = WorkflowStatus.published;
          completed_at = some now;
          error_message = none;
          error_code = none;
          failed_step = none;
        })
        now stored
    else stored

-- `record` without its attempt
unfoldable pub record_step : StepRecord → Db → Db
record_step model db = Steps.append model db

pub record LoadedWorkflow : Type 0 where
  pub topic : String
  pub status : WorkflowStatus
  pub metadata : Metadata
  pub steps : List StepRecord

unfoldable pub load_workflow : String → Db → Option LoadedWorkflow
load_workflow workflow_id db = elim (Workflows.get_by_id workflow_id db) [
  | none ↦ none
  | some w ↦ some (record {
    topic = w.topic;
    status = w.status;
    metadata = w.metadata;
    steps = Steps.get_by_workflow_id workflow_id db;
  })
]

unfoldable pub find_duplicate_article :
    (String → String) → String → String → String → Db → Option (String × MatchedOn)
find_duplicate_article lower workflow_id slug title db =
    Articles.find_duplicate lower slug title workflow_id db

unfoldable pub list_published_articles :
    (String → String) → Option String → Option ℕ → Db → List ArticleRecord
list_published_articles lower publisher_id limit db =
    Articles.list_published lower publisher_id (or_else limit 500) db
