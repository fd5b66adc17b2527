-- ===== src/Storage/Finished.antt =====
-- The row of the article that `finishWorkflow` of packages/storage/src/memory/service.ts leaves, and
-- the row of its run.
use open_blog_agent.Prelude.{
  Bool, ℕ, String, ◌≡◌, refl, Option, none, some, ◌∷◌, [], eq_refl, arith, List, find, eq_iff, true,
  ap, ◌∙◌, or_option,
}
use open_blog_agent.Storage.Models.{WorkflowStatus, ReviewState, ArticleRecord, Db}
use open_blog_agent.Storage.Tables.Lookup.{changed, upserted}
use open_blog_agent.Storage.Workflows
use open_blog_agent.Storage.Workflows.{apply_change}
use open_blog_agent.Storage.Articles
use open_blog_agent.Storage.Memory.{
  FinalStatus, FinishParams, as_status, review_state_of, default_gate, finished_row,
  finish_workflow, publish_remote,
}
use open_blog_agent.Storage.Views.{
  run-update_status, article-save, article-update_status, run-article_save,
}

-- What each final status means: for the run, for the review of its article, and for the verdict of
-- the gate where none is given.
pub record Final : Type 0 where
  pub run : WorkflowStatus
  pub review : ReviewState
  pub verdict : Option Bool

pub meaning : FinalStatus → Final
meaning FinalStatus.published = record {
  run = WorkflowStatus.published;
  review = ReviewState.published;
  verdict = some true;
}
meaning FinalStatus.awaiting_approval = record {
  run = WorkflowStatus.awaiting_approval;
  review = ReviewState.needs_review;
  verdict = some true;
}
meaning FinalStatus.needs_review = record {
  run = WorkflowStatus.needs_review;
  review = ReviewState.needs_review;
  verdict = none;
}
meaning FinalStatus.failed = record {
  run = WorkflowStatus.failed;
  review = ReviewState.needs_review;
  verdict = none;
}

pub as_status-meaning : (s : FinalStatus) → as_status s ≡ (meaning s).run
unfolding as_status meaning
as_status-meaning FinalStatus.published = refl
as_status-meaning FinalStatus.awaiting_approval = refl
as_status-meaning FinalStatus.needs_review = refl
as_status-meaning FinalStatus.failed = refl

-- the field of the stored article, or of a first one
abbrev pub kept {ℓ} : {A : Type ℓ} → (ArticleRecord → A) → A → Option ArticleRecord → A
kept field new none = new
kept field new (some a) = field a

-- The article that is read back after `finishWorkflow`: a first one, or the stored one with its id
-- and its creation time and everything else replaced.
pub finished_article : String → FinishParams → ℕ → Option ArticleRecord → ArticleRecord
finished_article id p now stored = record {
  id = kept (λ a. a.id) id stored;
  workflow_id = p.workflow_id;
  topic = p.topic;
  title = some p.seo_output.title;
  slug = some p.seo_output.slug;
  category = some p.category;
  tags = p.tags;
  article_markdown = p.article;
  edited_markdown = p.edited_text;
  seo = record {
    title = some p.seo_output.title;
    slug = some p.seo_output.slug;
    meta_description = some p.seo_output.meta_description;
  };
  publish_result = p.publish_result;
  publish_remote_id = (publish_remote p.publish_result).id;
  publish_remote_url = (publish_remote p.publish_result).url;
  publish_remote_status = (publish_remote p.publish_result).status;
  review_state = (meaning p.status).review;
  gate_passed = or_option p.gate_passed (meaning p.status).verdict;
  approved_by = none;
  approved_at = none;
  approval_override_reason = none;
  created_at = kept (λ a. a.created_at) now stored;
  updated_at = now;
}

pub finished_article-gate_passed :
    (id : String) (p : FinishParams) (now : ℕ) (a : Option ArticleRecord) (passed : Bool)
    → p.gate_passed ≡ some passed
    → (finished_article id p now a).gate_passed ≡ some passed
unfolding finished_article
finished_article-gate_passed id p now a passed h = rw h refl

review_state_of-meaning : (s : FinalStatus) → review_state_of s ≡ (meaning s).review
unfolding review_state_of meaning
review_state_of-meaning FinalStatus.published = refl
review_state_of-meaning FinalStatus.awaiting_approval = refl
review_state_of-meaning FinalStatus.needs_review = refl
review_state_of-meaning FinalStatus.failed = refl

default_gate-meaning : (s : FinalStatus) → default_gate s ≡ (meaning s).verdict
unfolding default_gate meaning
default_gate-meaning FinalStatus.published = refl
default_gate-meaning FinalStatus.awaiting_approval = refl
default_gate-meaning FinalStatus.needs_review = refl
default_gate-meaning FinalStatus.failed = refl

-- what the upsert of the new row leaves
upserted-finished_row :
    (id : String) (p : FinishParams) (now : ℕ) (stored : Option ArticleRecord)
    → ((a : ArticleRecord) → stored ≡ some a → a.workflow_id ≡ p.workflow_id)
    → upserted
        (λ a. record (finished_row id p now) {
          id = a.id;
          workflow_id = a.workflow_id;
          created_at = a.created_at;
        })
        (finished_row id p now)
        stored
      ≡ finished_article id p now stored
unfolding finished_article finished_row
upserted-finished_row id p now none key =
    rw (review_state_of-meaning p.status, default_gate-meaning p.status) refl
upserted-finished_row id p now (some a) key =
    rw (key a refl, review_state_of-meaning p.status, default_gate-meaning p.status) refl

-- the articles are found by the id of their run
found-workflow_id :
    (id : String) (rs : List ArticleRecord) (a : ArticleRecord)
    → find (Articles.is_of id) rs ≡ some a
    → a.workflow_id ≡ id
found-workflow_id id [] a e = cc
found-workflow_id id (r ∷ rs) a e =
    ground (arith, found-workflow_id id rs a, eq_iff r.workflow_id id)

key_of_found :
    (id : String) (db : Db) (a : ArticleRecord)
    → Articles.get_by_workflow_id id db ≡ some a
    → a.workflow_id ≡ id
unfolding Articles.get_by_workflow_id
key_of_found id db a e = found-workflow_id id db.articles a e

module _ (id : String) (p : FinishParams) (now : ℕ) (db : Db) where
  saved_row :
      Articles.get_by_workflow_id p.workflow_id (finish_workflow id p now db)
      ≡ some (
          upserted
            (λ a. record (finished_row id p now) {
              id = a.id;
              workflow_id = a.workflow_id;
              created_at = a.created_at;
            })
            (finished_row id p now)
            (Articles.get_by_workflow_id p.workflow_id db))
  unfolding finish_workflow finished_row
  saved_row = simp (article-save, article-update_status, eq_refl)

  pub article-finish_workflow :
      Articles.get_by_workflow_id p.workflow_id (finish_workflow id p now db)
      ≡ some (finished_article id p now (Articles.get_by_workflow_id p.workflow_id db))
  article-finish_workflow =
      saved_row
      ∙ ap some (
          upserted-finished_row id p now (Articles.get_by_workflow_id p.workflow_id db)
            (key_of_found p.workflow_id db))

  pub run-finish_workflow :
      Workflows.get_by_id p.workflow_id (finish_workflow id p now db)
      ≡ changed
          (apply_change
            (record {
              status = as_status p.status;
              completed_at = some now;
              error_message = p.error_message;
              error_code = p.error_code;
              failed_step = p.failed_step;
            })
            now)
          (Workflows.get_by_id p.workflow_id db)
  unfolding finish_workflow
  run-finish_workflow = simp (run-article_save, run-update_status, eq_refl)
