-- ===== src/Workflow/State.antt =====
-- The state of the workflow graph and its merge with what a node returns
-- (packages/graph/src/workflows/article-generation-workflow.ts).
use open_blog_agent.Prelude.{ℕ, String, Bool, false, Option, none, some, List, or_else, or_option}
use open_blog_agent.Types.Brief.{ResolvedBrief}
use open_blog_agent.Types.Usage.{LlmUsage}
use open_blog_agent.Types.Publish.{PublishResult}
use open_blog_agent.Types.Article.{
  SeoOutput, QualityViolation, DuplicateInfo, SourceDocument, SkippedSource, InternalLink,
  EditorialReview, Update,
}

-- graphState
pub record State : Type 0 where
  pub topic : String
  pub brief : Option ResolvedBrief
  pub workflow_id : Option String
  pub sources : Option (List SourceDocument)
  pub skipped_sources : Option (List SkippedSource)
  pub internal_links : Option (List InternalLink)
  pub outline : Option (List String)
  pub article : Option String
  pub edited_text : Option String
  pub seo_output : Option SeoOutput
  pub category : Option String
  pub tags : Option (List String)
  pub publish_result : Option PublishResult
  pub regenerations : ℕ
  pub quality_passed : Option Bool
  pub quality_violations : Option (List QualityViolation)
  pub quality_feedback : Option String
  pub reviewer_feedback : Option String
  pub previous_article : Option String
  pub own_slug : Option String
  pub force : Bool
  pub duplicate : Option DuplicateInfo
  pub llm_usage : Option LlmUsage
  pub review : Option EditorialReview
  pub completed_steps : Option (List String)

-- The reducers: a key that is given replaces the value.
unfoldable pub merge : State → Update → State
merge s u = record s {
  sources = or_option u.sources s.sources;
  skipped_sources = or_option u.skipped_sources s.skipped_sources;
  internal_links = or_option u.internal_links s.internal_links;
  outline = or_option u.outline s.outline;
  article = or_option u.article s.article;
  edited_text = or_option u.edited_text s.edited_text;
  seo_output = or_option u.seo_output s.seo_output;
  category = or_option u.category s.category;
  tags = or_option u.tags s.tags;
  publish_result = or_option u.publish_result s.publish_result;
  regenerations = or_else u.regenerations s.regenerations;
  quality_passed = or_option u.quality_passed s.quality_passed;
  quality_violations = or_option u.quality_violations s.quality_violations;
  quality_feedback = or_option u.quality_feedback s.quality_feedback;
  reviewer_feedback = or_option u.reviewer_feedback s.reviewer_feedback;
  previous_article = or_option u.previous_article s.previous_article;
  own_slug = or_option u.own_slug s.own_slug;
  duplicate = or_else u.duplicate s.duplicate;
  llm_usage = or_option u.llm_usage s.llm_usage;
  review = or_option u.review s.review;
  completed_steps = or_option u.completed_steps s.completed_steps;
}

abbrev pub initial : State
initial = record {
  topic = "";
  brief = none;
  workflow_id = none;
  sources = none;
  skipped_sources = none;
  internal_links = none;
  outline = none;
  article = none;
  edited_text = none;
  seo_output = none;
  category = none;
  tags = none;
  publish_result = none;
  regenerations = 0;
  quality_passed = none;
  quality_violations = none;
  quality_feedback = none;
  reviewer_feedback = none;
  previous_article = none;
  own_slug = none;
  force = false;
  duplicate = none;
  llm_usage = none;
  review = none;
  completed_steps = none;
}

-- The input of `workflow.invoke`: what was restored, and the fields of the run.
unfoldable pub invoked : Update → ResolvedBrief → Bool → Option String → State
unfolding merge
invoked restored brief force workflow_id = record (merge initial restored) {
  topic = brief.brief.topic;
  brief = some brief;
  force = force;
  workflow_id = workflow_id;
}
