-- ===== src/Types/Article.antt =====
-- What the steps of a run produce: the schemas of
-- packages/graph/src/workflows/article-generation-workflow.ts and the outputs of packages/agents.
use open_blog_agent.Prelude.{ℕ, String, Bool, Option, none, List}
use open_blog_agent.Types.Usage.{LlmUsage}
use open_blog_agent.Types.Publish.{PublishResult}

-- seoOutputSchema; the remaining fields are stored and printed only
pub record SeoOutput : Type 0 where
  pub title : String
  pub slug : String
  pub meta_description : String

pub data Severity : Type 0 where
  error warning : Severity

pub record QualityViolation : Type 0 where
  pub code : String
  pub severity : Severity
  pub message : String

pub data MatchedOn : Type 0 where
  topic slug title remote : MatchedOn

pub record DuplicateInfo : Type 0 where
  pub matched_on : MatchedOn
  pub workflow_id : Option String
  pub remote : Option String

pub record SourceDocument : Type 0 where
  pub url : String
  pub final_url : String
  pub title : Option String
  pub text : String
  pub truncated : Bool

pub record SkippedSource : Type 0 where
  pub url : String
  pub code : String
  pub message : String

pub record InternalLink : Type 0 where
  pub workflow_id : String
  pub title : String
  pub url : String

-- EditorialReview; scores and the overall mark in hundredths of a point
pub record EditorialReview : Type 0 where
  pub overall : ℕ
  pub rationale : String

-- ArticleWorkflowUpdate: `none` is a key that is absent. `duplicate_check` gives its key always, as
-- `some none` where it found nothing.
pub record Update : Type 0 where
  pub sources : Option (List SourceDocument)
  pub skipped_sources : Option (List SkippedSource)
  pub internal_links : Option (List InternalLink)
  pub outline : Option (List String)
  pub article : Option String
  pub edited_text : Option String
  pub seo_output : Option SeoOutput
  pub category : Option String
  pub tags : Option (List String)
  pub publish_result : Option PublishResult
  pub regenerations : Option ℕ
  pub quality_passed : Option Bool
  pub quality_violations : Option (List QualityViolation)
  pub quality_feedback : Option String
  pub reviewer_feedback : Option String
  pub previous_article : Option String
  pub own_slug : Option String
  pub duplicate : Option (Option DuplicateInfo)
  pub llm_usage : Option LlmUsage
  pub review : Option EditorialReview
  pub completed_steps : Option (List String)

abbrev pub no_update : Update
no_update = record {
  sources = none;
  skipped_sources = none;
  internal_links = none;
  outline = none;
  article = none;
  edited_text = none;
  seo_output = none;
  category = none;
  tags = none;
  publish_result = none;
  regenerations = none;
  quality_passed = none;
  quality_violations = none;
  quality_feedback = none;
  reviewer_feedback = none;
  previous_article = none;
  own_slug = none;
  duplicate = none;
  llm_usage = none;
  review = none;
  completed_steps = none;
}
