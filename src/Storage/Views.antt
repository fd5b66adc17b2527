-- ===== src/Storage/Views.antt =====
-- What a run and its article look like after each operation of the memory service
-- (packages/storage/src/memory/service.ts).
use open_blog_agent.Prelude.{ℕ, String, ◌≡◌, refl, Bool, true, Option, some, ◌==◌, if◌then◌else◌}
use open_blog_agent.Types.Publish.{PublishResult}
use open_blog_agent.Storage.Models.{WorkflowRecord, ArticleRecord, Db, ReviewState, DecisionRecord}
use open_blog_agent.Storage.Tables.Lookup.{changed, upserted, row-update_where, row-upsert}
use open_blog_agent.Storage.Workflows
use open_blog_agent.Storage.Workflows.{StatusChange, apply_change}
use open_blog_agent.Storage.Articles
use open_blog_agent.Storage.Steps
use open_blog_agent.Storage.Articles.{Remote}

-- The run with the id `id` after an update of the run with the id `i`.
pub run-update_status :
    (i id : String) (c : StatusChange) (now : ℕ) (db : Db)
    → Workflows.get_by_id id (Workflows.update_status i c now db) ≡ (
        if i == id
        then changed (apply_change c now) (Workflows.get_by_id id db)
        else Workflows.get_by_id id db)
unfolding Workflows.update_status Workflows.get_by_id apply_change
run-update_status i id c now db =
    row-update_where (λ w. w.id) (apply_change c now) i id (λ w. refl) db.workflows

pub run-mark_duplicate :
    (i id : String) (original : Option String) (now : ℕ) (db : Db)
    → Workflows.get_by_id id (Workflows.mark_duplicate i original now db) ≡ (
        if i == id
        then changed
            (λ w. record w {
              is_duplicate = true;
              duplicate_of_workflow_id = original;
              updated_at = now;
            })
            (Workflows.get_by_id id db)
        else Workflows.get_by_id id db)
unfolding Workflows.mark_duplicate Workflows.get_by_id
run-mark_duplicate i id original now db =
    row-update_where (λ w. w.id) _ i id (λ w. refl) db.workflows

pub run-save :
    (model : WorkflowRecord) (id : String) (db : Db)
    → Workflows.get_by_id id (Workflows.save model db) ≡ (
        if model.id == id
        then some (
            upserted
              (λ w. record model { id = w.id; created_at = w.created_at })
              model
              (Workflows.get_by_id id db))
        else Workflows.get_by_id id db)
unfolding Workflows.save Workflows.get_by_id
run-save model id db = row-upsert (λ w. w.id) _ model model.id id (λ r h. h) refl db.workflows

pub article-save :
    (model : ArticleRecord) (id : String) (db : Db)
    → Articles.get_by_workflow_id id (Articles.save model db) ≡ (
        if model.workflow_id == id
        then some (
            upserted
              (λ a. record model {
                id = a.id;
                workflow_id = a.workflow_id;
                created_at = a.created_at;
              })
              model
              (Articles.get_by_workflow_id id db))
        else Articles.get_by_workflow_id id db)
unfolding Articles.save Articles.get_by_workflow_id
article-save model id db =
    row-upsert (λ a. a.workflow_id) _ model model.workflow_id id (λ r h. h) refl db.articles

pub article-mark_approved :
    (i id by : String) (reason : Option String) (now : ℕ) (db : Db)
    → Articles.get_by_workflow_id id (Articles.mark_approved i by reason now db) ≡ (
        if i == id
        then changed
            (λ a. record a {
              review_state = ReviewState.approved;
              approved_by = some by;
              approved_at = some now;
              approval_override_reason = reason;
              updated_at = now;
            })
            (Articles.get_by_workflow_id id db)
        else Articles.get_by_workflow_id id db)
unfolding Articles.mark_approved Articles.get_by_workflow_id
article-mark_approved i id by reason now db =
    row-update_where (λ a. a.workflow_id) _ i id (λ a. refl) db.articles

pub article-mark_rejected :
    (i id : String) (now : ℕ) (db : Db)
    → Articles.get_by_workflow_id id (Articles.mark_rejected i now db) ≡ (
        if i == id
        then changed
            (λ a. record a { review_state = ReviewState.rejected; updated_at = now })
            (Articles.get_by_workflow_id id db)
        else Articles.get_by_workflow_id id db)
unfolding Articles.mark_rejected Articles.get_by_workflow_id
article-mark_rejected i id now db =
    row-update_where (λ a. a.workflow_id) _ i id (λ a. refl) db.articles

pub article-record_approval_publish :
    (i id : String) (published : Bool) (result : PublishResult) (remote : Remote) (now : ℕ)
    (db : Db)
    → Articles.get_by_workflow_id id
        (Articles.record_approval_publish i published result remote now db)
      ≡ (if i == id
          then changed
              (λ a. record a {
                review_state = if published then ReviewState.published else ReviewState.approved;
                publish_result = some result;
                publish_remote_id = remote.id;
                publish_remote_url = remote.url;
                publish_remote_status = remote.status;
                updated_at = now;
              })
              (Articles.get_by_workflow_id id db)
          else Articles.get_by_workflow_id id db)
unfolding Articles.record_approval_publish Articles.get_by_workflow_id
article-record_approval_publish i id published result remote now db =
    row-update_where (λ a. a.workflow_id) _ i id (λ a. refl) db.articles

-- A view of the runs leaves the articles alone, and the other way round.
pub article-update_status :
    (i id : String) (c : StatusChange) (now : ℕ) (db : Db)
    → Articles.get_by_workflow_id id (Workflows.update_status i c now db)
      ≡ Articles.get_by_workflow_id id db
unfolding Workflows.update_status Articles.get_by_workflow_id
article-update_status i id c now db = refl

pub run-article_save :
    (model : ArticleRecord) (id : String) (db : Db)
    → Workflows.get_by_id id (Articles.save model db) ≡ Workflows.get_by_id id db
unfolding Articles.save Workflows.get_by_id
run-article_save model id db = refl

pub run-mark_rejected :
    (i id : String) (now : ℕ) (db : Db)
    → Workflows.get_by_id id (Articles.mark_rejected i now db) ≡ Workflows.get_by_id id db
unfolding Articles.mark_rejected Workflows.get_by_id
run-mark_rejected i id now db = refl

pub run-mark_approved :
    (i id by : String) (reason : Option String) (now : ℕ) (db : Db)
    → Workflows.get_by_id id (Articles.mark_approved i by reason now db) ≡ Workflows.get_by_id id db
unfolding Articles.mark_approved Workflows.get_by_id
run-mark_approved i id by reason now db = refl

pub run-record_approval_publish :
    (i id : String) (published : Bool) (result : PublishResult) (remote : Remote) (now : ℕ)
    (db : Db)
    → Workflows.get_by_id id (Articles.record_approval_publish i published result remote now db)
      ≡ Workflows.get_by_id id db
unfolding Articles.record_approval_publish Workflows.get_by_id
run-record_approval_publish i id published result remote now db = refl

pub run-append_decision :
    (id : String) (d : DecisionRecord) (db : Db)
    → Workflows.get_by_id id (Steps.append_decision d db) ≡ Workflows.get_by_id id db
unfolding Steps.append_decision Workflows.get_by_id
run-append_decision id d db = refl

pub article-append_decision :
    (id : String) (d : DecisionRecord) (db : Db)
    → Articles.get_by_workflow_id id (Steps.append_decision d db)
      ≡ Articles.get_by_workflow_id id db
unfolding Steps.append_decision Articles.get_by_workflow_id
article-append_decision id d db = refl

-- What each operation does to the runs and articles that are read.
pub ruleset views = (
  run-update_status, run-mark_duplicate, run-save, run-article_save, run-mark_rejected,
  run-mark_approved, run-record_approval_publish, run-append_decision, article-save,
  article-update_status, article-mark_approved, article-mark_rejected,
  article-record_approval_publish, article-append_decision,
)
