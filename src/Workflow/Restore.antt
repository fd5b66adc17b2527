-- ===== src/Workflow/Restore.antt =====
-- What a resumed or revised run takes over from the steps that were stored: `stepOutputSchemas`,
-- `restoreState`, `storedBrief` (packages/graph/src/workflows/article-generation-workflow.ts).
-- A stored output is what a step returned, so the schema of the step picks the keys it names.
use open_blog_agent.Prelude.{
  String, Bool, true, false, not, ◌||◌, ◌==◌, Option, none, some, List, [], ◌∷◌, ◌++◌,
  if◌then◌else◌, or_option, or_else,
}
use open_blog_agent.Types.Brief.{ArticleBrief}
use open_blog_agent.Types.Publish.{PublishResult}
use open_blog_agent.Types.Article.{Update, no_update, DuplicateInfo}
use open_blog_agent.Storage.Models.{StepRecord, Metadata}
use open_blog_agent.Storage.Steps.{is_succeeded}

-- The steps whose output is restored.
pub data Stored : Type 0 where
  read_sources planner find_links writer editor seo duplicate_check quality editorial_review
        classification publisher :
      Stored

unfoldable pub schema_of : String → Option Stored
schema_of step =
    if step == "read_sources"
    then some read_sources
    else if step == "planner"
    then some planner
    else if step == "find_links"
    then some find_links
    else if step == "writer"
    then some writer
    else if step == "editor"
    then some editor
    else if step == "seo"
    then some seo
    else if step == "duplicate_check"
    then some duplicate_check
    else if step == "quality"
    then some quality
    else if step == "editorial_review"
    then some editorial_review
    else if step == "classification"
    then some classification
    else if step == "publisher"
    then some publisher
    else none

-- `schema.parse(output)`: the keys of the schema; an absent `duplicate` stays absent
abbrev pub present : Option (Option DuplicateInfo) → Option (Option DuplicateInfo)
present none = none
present (some none) = none
present (some (some d)) = some (some d)

unfoldable pub parse : Stored → Update → Update
parse read_sources u = record no_update { sources = u.sources; skipped_sources = u.skipped_sources }
parse planner u = record no_update { outline = u.outline }
parse find_links u = record no_update { internal_links = u.internal_links }
parse writer u = record no_update { article = u.article }
parse editor u = record no_update { edited_text = u.edited_text }
parse seo u = record no_update { seo_output = u.seo_output }
parse duplicate_check u = record no_update { duplicate = present u.duplicate }
parse quality u = record no_update {
  quality_passed = u.quality_passed;
  quality_violations = u.quality_violations;
  llm_usage = u.llm_usage;
}
parse editorial_review u = record no_update {
  review = u.review;
  quality_passed = u.quality_passed;
  quality_violations = u.quality_violations;
}
parse classification u = record no_update { category = u.category; tags = u.tags }
parse publisher u = record no_update { publish_result = u.publish_result }

-- `latest.set(stored.step, stored)`: a Map keeps the place of the first insertion
unfoldable pub set_latest : StepRecord → List StepRecord → List StepRecord
set_latest s [] = s ∷ []
set_latest s (t ∷ ts) = let rest = set_latest s ts in if t.step == s.step then s ∷ ts else t ∷ rest

unfoldable pub latest_from : List StepRecord → List StepRecord → List StepRecord
unfolding set_latest
latest_from latest [] = latest
latest_from latest (s ∷ ss) =
    latest_from (if is_succeeded s.status then set_latest s latest else latest) ss

-- the three tests that skip an output
abbrev pub is_failed_publish : Option PublishResult → Bool
is_failed_publish none = false
is_failed_publish (some r) = not r.success

abbrev pub is_collision : Option (Option DuplicateInfo) → Bool
is_collision (some (some d)) = true
is_collision _ = false

abbrev pub is_false : Option Bool → Bool
is_false (some false) = true
is_false _ = false

unfoldable pub is_skipped : Update → Bool
is_skipped u =
    is_failed_publish u.publish_result || (is_collision u.duplicate || is_false u.quality_passed)

-- `Object.assign(restored, output)`
unfoldable pub assign : Update → Update → Update
assign r u = record {
  sources = or_option u.sources r.sources;
  skipped_sources = or_option u.skipped_sources r.skipped_sources;
  internal_links = or_option u.internal_links r.internal_links;
  outline = or_option u.outline r.outline;
  article = or_option u.article r.article;
  edited_text = or_option u.edited_text r.edited_text;
  seo_output = or_option u.seo_output r.seo_output;
  category = or_option u.category r.category;
  tags = or_option u.tags r.tags;
  publish_result = or_option u.publish_result r.publish_result;
  regenerations = or_option u.regenerations r.regenerations;
  quality_passed = or_option u.quality_passed r.quality_passed;
  quality_violations = or_option u.quality_violations r.quality_violations;
  quality_feedback = or_option u.quality_feedback r.quality_feedback;
  reviewer_feedback = or_option u.reviewer_feedback r.reviewer_feedback;
  previous_article = or_option u.previous_article r.previous_article;
  own_slug = or_option u.own_slug r.own_slug;
  duplicate = or_option u.duplicate r.duplicate;
  llm_usage = or_option u.llm_usage r.llm_usage;
  review = or_option u.review r.review;
  completed_steps = or_option u.completed_steps r.completed_steps;
}

-- one round of the loop over the latest executions
unfoldable pub restore_step :
    Option Stored → StepRecord → Update × List String → Update × List String
unfolding parse is_skipped assign
restore_step none s (restored, completed) = (restored, completed)
restore_step (some k) s (restored, completed) =
    let output = parse k (or_else s.output no_update) in
    if is_skipped output
    then (restored, completed)
    else (assign restored output, completed ++ s.step ∷ [])

unfoldable pub restore_all : List StepRecord → Update × List String → Update × List String
unfolding restore_step schema_of
restore_all [] acc = acc
restore_all (s ∷ ss) acc = restore_all ss (restore_step (schema_of s.step) s acc)

unfoldable pub restore_state : List StepRecord → Update
unfolding restore_all latest_from
restore_state steps =
    let (restored, completed) = restore_all (latest_from [] steps) (no_update, []) in
    record restored { completed_steps = some completed }

-- a brief with nothing but its topic
abbrev pub topic_brief : String → ArticleBrief
topic_brief topic = record {
  topic = topic;
  language = none;
  audience = none;
  tone = none;
  target_keyword = none;
  secondary_keywords = none;
  min_words = none;
  max_words = none;
  notes = none;
  sources = none;
}

unfoldable pub stored_brief : String → Metadata → ArticleBrief
stored_brief topic m = or_else m.brief (topic_brief topic)
