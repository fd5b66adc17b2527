-- ===== src/Storage/Memory.antt =====
-- packages/storage/src/memory/service.ts. A method is a function of the database, the ids it draws
-- and the time it reads; a transaction is one such function.
use open_blog_agent.Prelude.{
  ℕ, ◌+◌, ◌-◌, ◌*◌, String, Bool, true, Option, none, some, List, [], ◌∷◌, ◌++◌, or_else, or_option,
  is_some,
}
use open_blog_agent.Types.Publish.{Value, text, number, other, PublishMetadata, PublishResult}
use open_blog_agent.Types.Article.{SeoOutput}
use open_blog_agent.Storage.Models.{
  WorkflowStatus, Metadata, WorkflowRecord, TopicRecord, PromptType, StoredSeo, ReviewState,
  ArticleRecord, Db,
}
use open_blog_agent.Storage.Workflows
use open_blog_agent.Storage.Topics
use open_blog_agent.Storage.Articles
use open_blog_agent.Storage.Articles.{Remote}

-- `text` of `publishRemote`: a text or a printed number
unfoldable pub value_text : Option Value → Option String
value_text none = none
value_text (some (text s)) = some s
value_text (some (number s)) = some s
value_text (some other) = none

abbrev pub as_text : Option String → Option Value
as_text none = none
as_text (some s) = some (text s)

abbrev pub no_metadata : PublishMetadata
no_metadata = record { id = none; remote_id = none; url = none; link = none; status = none }

unfoldable pub publish_remote_of : PublishMetadata → Option String → Remote
unfolding value_text
publish_remote_of m output_path = record {
  id = value_text (or_option m.id m.remote_id);
  url = value_text (or_option (or_option m.url m.link) (as_text output_path));
  status = value_text m.status;
}

unfoldable pub publish_remote : Option PublishResult → Remote
unfolding publish_remote_of
publish_remote none = publish_remote_of no_metadata none
publish_remote (some r) = publish_remote_of (or_else r.metadata no_metadata) r.output_path

pub record StartResult : Type 0 where
  pub workflow_id : String
  pub is_duplicate : Bool
  pub duplicate_of_workflow_id : Option String

abbrev pub id_of : Option WorkflowRecord → Option String
id_of none = none
id_of (some w) = some w.id

-- the topic's row, new or seen again
unfoldable pub count_topic : Option TopicRecord → String → String → String → String → ℕ → Db → Db
count_topic (some t) topic_id topic normalized workflow_id now db =
    Topics.save (record t { hit_count = t.hit_count + 1; last_seen_at = now }) db
count_topic none topic_id topic normalized workflow_id now db =
    Topics.save
      (record {
        id = topic_id;
        normalized_topic = normalized;
        first_topic = topic;
        first_workflow_id = workflow_id;
        hit_count = 1;
        created_at = now;
        last_seen_at = now;
      })
      db

-- the row that `beginWorkflow` saves
unfoldable pub started_row :
    String → String → String → String → Metadata → Option WorkflowRecord → ℕ → WorkflowRecord
started_row id name topic normalized metadata original now = record {
  id = id;
  name = name;
  topic = topic;
  topic_normalized = normalized;
  status = WorkflowStatus.started;
  is_duplicate = is_some original;
  duplicate_of_workflow_id = id_of original;
  metadata = metadata;
  error_message = none;
  error_code = none;
  failed_step = none;
  started_at = now;
  completed_at = none;
  created_at = now;
  updated_at = now;
}

module _ (normalize_topic : String → String) where
  -- `workflow_id` and `topic_id` are the random ids that the call draws.
  unfoldable pub begin_workflow :
      String → String → String → String → Metadata → ℕ → Db → Db × StartResult
  begin_workflow workflow_id topic_id name topic metadata now db =
      let normalized = normalize_topic topic in
      let existing = Topics.get_by_normalized_topic normalized db in
      let original = Workflows.find_first_published_by_topic normalized db in
      let saved =
        Workflows.save (started_row workflow_id name topic normalized metadata original now) db in
      (
        count_topic existing topic_id topic normalized workflow_id now saved,
        record {
          workflow_id = workflow_id;
          is_duplicate = is_some original;
          duplicate_of_workflow_id = id_of original;
        },
      )

unfoldable pub save_prompt : String → String → PromptType → String → ℕ → Db → Db
save_prompt id workflow_id prompt_type content now db = record db {
  prompts =
      db.prompts
      ++ record {
        id = id;
        workflow_id = workflow_id;
        prompt_type = prompt_type;
        content = content;
        created_at = now;
      }
        ∷ [];
}

unfoldable pub mark_running : String → ℕ → Db → Db
mark_running id now db =
    Workflows.update_status id
      (record {
        status = WorkflowStatus.running;
        completed_at = none;
        error_message = none;
        error_code = none;
        failed_step = none;
      })
      now db

-- the loop over the stale runs; `message` is what it stores of each
unfoldable pub interrupt_all : List String → String → ℕ → Db → Db
interrupt_all [] message now db = db
interrupt_all (id ∷ ids) message now db = interrupt_all ids message now (
    Workflows.update_status id
      (record {
        status = WorkflowStatus.interrupted;
        completed_at = none;
        error_message = some message;
        error_code = none;
        failed_step = none;
      })
      now db)

-- `now` is the caller's clock, `written` the time that the updates read; a cutoff before the epoch
-- is the epoch
unfoldable pub recover_stale_runs : ℕ → ℕ → ℕ → (ℕ → String) → Db → Db × List String
recover_stale_runs stale_after_minutes now written message db =
    let cutoff = now - stale_after_minutes * 60000 in
    let ids = Workflows.find_stale_active cutoff db in
    (interrupt_all ids (message cutoff) written db, ids)

pub data FinalStatus : Type 0 where
  published awaiting_approval needs_review failed : FinalStatus

unfoldable pub as_status : FinalStatus → WorkflowStatus
as_status published = WorkflowStatus.published
as_status awaiting_approval = WorkflowStatus.awaiting_approval
as_status needs_review = WorkflowStatus.needs_review
as_status failed = WorkflowStatus.failed

pub record FinishParams : Type 0 where
  pub workflow_id : String
  pub status : FinalStatus
  pub topic : String
  pub article : String
  pub edited_text : String
  pub seo_output : SeoOutput
  pub category : String
  pub tags : List String
  pub publish_result : Option PublishResult
  pub gate_passed : Option Bool
  pub failed_step : Option String
  pub error_code : Option String
  pub error_message : Option String

unfoldable pub review_state_of : FinalStatus → ReviewState
review_state_of published = ReviewState.published
review_state_of _ = ReviewState.needs_review

unfoldable pub default_gate : FinalStatus → Option Bool
default_gate published = some true
default_gate awaiting_approval = some true
default_gate _ = none

abbrev pub stored_seo : SeoOutput → StoredSeo
stored_seo s = record {
  title = some s.title;
  slug = some s.slug;
  meta_description = some s.meta_description;
}

-- the row that `finishWorkflow` saves
unfoldable pub finished_row : String → FinishParams → ℕ → ArticleRecord
finished_row id p now =
    let remote = publish_remote p.publish_result in
    record {
      id = id;
      workflow_id = p.workflow_id;
      topic = p.topic;
      title = some p.seo_output.title;
      slug = some p.seo_output.slug;
      category = some p.category;
      tags = p.tags;
      article_markdown = p.article;
      edited_markdown = p.edited_text;
      seo = stored_seo p.seo_output;
      publish_result = p.publish_result;
      publish_remote_id = remote.id;
      publish_remote_url = remote.url;
      publish_remote_status = remote.status;
      review_state = review_state_of p.status;
      gate_passed = or_option p.gate_passed (default_gate p.status);
      approved_by = none;
      approved_at = none;
      approval_override_reason = none;
      created_at = now;
      updated_at = now;
    }

unfoldable pub finish_workflow : String → FinishParams → ℕ → Db → Db
finish_workflow id p now db = Articles.save (finished_row id p now) (
    Workflows.update_status p.workflow_id
      (record {
        status = as_status p.status;
        completed_at = some now;
        error_message = p.error_message;
        error_code = p.error_code;
        failed_step = p.failed_step;
      })
      now db)

unfoldable pub mark_duplicate : String → Option String → String → String → String → ℕ → Db → Db
mark_duplicate workflow_id original failed_step error_code error_message now db =
    Workflows.mark_duplicate workflow_id original now (
      Workflows.update_status workflow_id
        (record {
          status = WorkflowStatus.duplicate;
          completed_at = some now;
          error_message = some error_message;
          error_code = some error_code;
          failed_step = some failed_step;
        })
        now db)

unfoldable pub fail_workflow : String → String → Option String → Option String → ℕ → Db → Db
fail_workflow workflow_id error_message failed_step error_code now db =
    Workflows.update_status workflow_id
      (record {
        status = WorkflowStatus.failed;
        completed_at = some now;
        error_message = some error_message;
        error_code = error_code;
        failed_step = failed_step;
      })
      now db
