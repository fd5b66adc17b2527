-- ===== src/Workflow/Ports.antt =====
-- What the workflow calls and what it is configured with (packages/graph/src/ports.ts and the
-- options in packages/graph/src/workflows/article-generation-workflow.ts).
-- A port is a function of the number of calls made before, so that it may answer the same question
-- differently each time. The agents, the quality gate and the choice of links stand behind their
-- functions of packages/agents.
use open_blog_agent.Prelude.{ℕ, String, Bool, Option, List}
use open_blog_agent.Types.Brief.{ResolvedBrief}
use open_blog_agent.Types.Usage.{LlmUsage}
use open_blog_agent.Types.Publish.{PublishArticle, PublishResult, ExistingPost}
use open_blog_agent.Types.Article.{
  SeoOutput, QualityViolation, SourceDocument, InternalLink, EditorialReview,
}
use open_blog_agent.Storage.Models.{ArticleRecord}
use open_blog_agent.Workflow.Errors.{Result}

pub data PublicationPolicy : Type 0 where
  draft publish_after_approval publish_if_gate_passes : PublicationPolicy

pub record SourceOptions : Type 0 where
  pub allow_partial : Bool
  pub max_chars_per_source : ℕ
  pub max_chars_total : ℕ

-- The options with their defaults settled. `memory` and `notifier`: the port is there.
-- `recursion_limit` is that of the graph library.
pub record Options : Type 0 where
  pub memory : Bool
  pub notifier : Bool
  pub default_category : String
  pub max_tags : ℕ
  pub content_language : String
  pub allow_duplicates : Bool
  pub policy : PublicationPolicy
  pub review_enabled : Bool
  pub review_min_score : ℕ
  pub sources : Option SourceOptions
  pub max_links : ℕ
  pub links_publisher_id : Option String
  pub site_origin : Option String
  pub max_regenerations : ℕ
  pub min_words : ℕ
  pub max_words : ℕ
  pub recursion_limit : ℕ

pub record SourceNote : Type 0 where
  pub url : String
  pub title : Option String
  pub text : String

pub record PlannerInput : Type 0 where
  pub topic : String
  pub brief : ResolvedBrief
  pub sources : Option (List SourceNote)

pub record WriterInput : Type 0 where
  pub topic : String
  pub outline : List String
  pub feedback : Option String
  pub reviewer_feedback : Option String
  pub previous_article : Option String
  pub brief : ResolvedBrief
  pub sources : Option (List SourceNote)
  pub internal_links : Option (List InternalLink)
  pub min_words : ℕ
  pub max_words : ℕ

pub record SeoInput : Type 0 where
  pub outline : List String
  pub article_text : String
  pub brief : ResolvedBrief

pub record ReviewInput : Type 0 where
  pub outline : List String
  pub article_text : String
  pub title : String
  pub meta_description : String

pub record ClassificationInput : Type 0 where
  pub article_text : String
  pub available_categories : List String
  pub available_tags : List String
  pub max_tags : ℕ

pub record RelatedQuery : Type 0 where
  pub topic : String
  pub target_keyword : Option String
  pub secondary_keywords : Option (List String)
  pub outline : Option (List String)

pub record LinkRules : Type 0 where
  pub urls : List String
  pub origins : List String

-- The arguments of `validateArticle`.
pub record QualityInput : Type 0 where
  pub article : String
  pub draft : Option String
  pub outline : Option (List String)
  pub seo : Option SeoOutput
  pub keyword : Option String
  pub language : String
  pub sources : Option (List String)
  pub internal_links : Option LinkRules
  pub min_words : ℕ
  pub max_words : ℕ

-- the events of runs
pub data Event : Type 0 where
  published awaiting_approval needs_review failed budget_exceeded duplicate : Event

-- RunNotification
pub record Notification : Type 0 where
  pub event : Event
  pub workflow_id : Option String
  pub topic : String
  pub title : Option String
  pub error_code : Option String
  pub error_message : Option String

pub record Ports : Type 0 where
  -- the time and a random id after a number of calls
  pub clock : ℕ → ℕ
  pub uuid : ℕ → String
  -- JavaScript's `trim` and SQLite's `lower`
  pub trim : String → String
  pub lower : String → String
  pub normalize_topic : String → String
  -- agents, with what a call spent and the model and prompt that the calls of a step report
  pub planner : ℕ → PlannerInput → Result (List String)
  pub writer : ℕ → WriterInput → Result String
  pub editor : ℕ → String → ResolvedBrief → Result String
  pub seo : ℕ → SeoInput → Result SeoOutput
  pub review : ℕ → ReviewInput → Result EditorialReview
  pub classification : ℕ → ClassificationInput → Result (String × List String)
  pub spent : ℕ → LlmUsage
  pub model_used : ℕ → ℕ → Option String
  pub prompt_used : ℕ → ℕ → Option String
  pub planner_prompt : PlannerInput → String
  pub writer_prompt : WriterInput → String
  -- the source reader, and a URL without its query
  pub read : ℕ → String → ℕ → Result SourceDocument
  pub address : String → String
  -- the gate, its feedback, and the choice of links
  pub validate : QualityInput → Bool × List QualityViolation
  pub format_violations : List QualityViolation → String
  pub select_related : RelatedQuery → List ArticleRecord → ℕ → List InternalLink
  -- the taxonomy and the publisher
  pub list_categories : Option (ℕ → Result (List String))
  pub list_tags : ℕ → Result (List String)
  pub publish : ℕ → PublishArticle → Result PublishResult
  pub find_existing : Option (ℕ → String → Result (Option ExistingPost))
  -- a number as a text
  pub show_number : ℕ → String
