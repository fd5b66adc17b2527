-- ===== src/Storage/Models.antt =====
-- packages/storage/src/repositories/models.ts and the tables of packages/storage/src/database.
-- A table is the list of its rows in the order of their row ids.
use open_blog_agent.Prelude.{ℕ, String, Bool, Option, List, []}
use open_blog_agent.Types.Brief.{ArticleBrief}
use open_blog_agent.Types.Usage.{LlmUsage}
use open_blog_agent.Types.Publish.{PublishResult}
use open_blog_agent.Types.Article.{Update}

pub data WorkflowStatus : Type 0 where
  started running published awaiting_approval needs_review failed duplicate rejected interrupted :
      WorkflowStatus

pub data ReviewState : Type 0 where
  needs_review approved published rejected : ReviewState

-- The metadata of a run: its brief, where it parses as one, and the `force` flag.
pub record Metadata : Type 0 where
  pub brief : Option ArticleBrief
  pub force : Bool

pub record WorkflowRecord : Type 0 where
  pub id : String
  pub name : String
  pub topic : String
  pub topic_normalized : String
  pub status : WorkflowStatus
  pub is_duplicate : Bool
  pub duplicate_of_workflow_id : Option String
  pub metadata : Metadata
  pub error_message : Option String
  pub error_code : Option String
  pub failed_step : Option String
  pub started_at : ℕ
  pub completed_at : Option ℕ
  pub created_at : ℕ
  pub updated_at : ℕ

pub record TopicRecord : Type 0 where
  pub id : String
  pub normalized_topic : String
  pub first_topic : String
  pub first_workflow_id : String
  pub hit_count : ℕ
  pub created_at : ℕ
  pub last_seen_at : ℕ

pub data PromptType : Type 0 where
  planner writer : PromptType

pub record PromptRecord : Type 0 where
  pub id : String
  pub workflow_id : String
  pub prompt_type : PromptType
  pub content : String
  pub created_at : ℕ

-- The SEO object as stored: a key is `some` where its value is a text.
pub record StoredSeo : Type 0 where
  pub title : Option String
  pub slug : Option String
  pub meta_description : Option String

pub record ArticleRecord : Type 0 where
  pub id : String
  pub workflow_id : String
  pub topic : String
  pub title : Option String
  pub slug : Option String
  pub category : Option String
  pub tags : List String
  pub article_markdown : String
  pub edited_markdown : String
  pub seo : StoredSeo
  pub publish_result : Option PublishResult
  pub publish_remote_id : Option String
  pub publish_remote_url : Option String
  pub publish_remote_status : Option String
  pub review_state : ReviewState
  pub gate_passed : Option Bool
  pub approved_by : Option String
  pub approved_at : Option ℕ
  pub approval_override_reason : Option String
  pub created_at : ℕ
  pub updated_at : ℕ

pub data DecisionAction : Type 0 where
  reject revise : DecisionAction

pub record DecisionRecord : Type 0 where
  pub id : String
  pub workflow_id : String
  pub action : DecisionAction
  pub actor : String
  pub note : String
  pub created_at : ℕ

pub data StepStatus : Type 0 where
  succeeded failed : StepStatus

pub record StepRecord : Type 0 where
  pub id : String
  pub workflow_id : String
  pub step : String
  pub status : StepStatus
  pub attempt : ℕ
  pub output : Option Update
  pub error_code : Option String
  pub error_message : Option String
  pub started_at : ℕ
  pub completed_at : ℕ
  pub usage : Option LlmUsage
  pub model : Option String
  pub prompt_hash : Option String

pub record Db : Type 0 where
  pub workflows : List WorkflowRecord
  pub topics : List TopicRecord
  pub prompts : List PromptRecord
  pub articles : List ArticleRecord
  pub steps : List StepRecord
  pub decisions : List DecisionRecord

abbrev pub empty_db : Db
empty_db = record {
  workflows = [];
  topics = [];
  prompts = [];
  articles = [];
  steps = [];
  decisions = [];
}
