-- ===== src/Tests/Data.antt =====
-- A brief, an article, ports that answer the same each time, and a store with one run, for
-- packages/graph/src/workflows/article-generation-workflow.ts and packages/storage/src/memory.
use open_blog_agent.Prelude.{true, false, none, some, [], ◌∷◌}
use open_blog_agent.Types.Brief.{ArticleBrief, ResolvedBrief}
use open_blog_agent.Types.Usage.{empty_usage}
use open_blog_agent.Types.Publish.{PublishResult}
use open_blog_agent.Types.Article.{SeoOutput, EditorialReview, SourceDocument, no_update}
use open_blog_agent.Storage.Models.{
  WorkflowStatus, ReviewState, WorkflowRecord, ArticleRecord, StepRecord, succeeded, Db, Metadata,
}
use open_blog_agent.Storage.Memory.{FinalStatus, FinishParams}
use open_blog_agent.Workflow.State.{State, initial}
use open_blog_agent.Workflow.Errors.{ok}
use open_blog_agent.Workflow.Ports.{Options, Ports, publish_if_gate_passes}
use open_blog_agent.Workflow.Exec.{World}

abbrev pub seo_output : SeoOutput
seo_output = record { title = "Cats"; slug = "cats"; meta_description = "On cats" }

abbrev pub article_brief : ArticleBrief
article_brief = record {
  topic = "cats";
  language = none;
  audience = none;
  tone = none;
  target_keyword = none;
  secondary_keywords = none;
  min_words = none;
  max_words = none;
  notes = none;
  sources = none;
}

abbrev pub brief : ResolvedBrief
brief = record { brief = article_brief; language = "en"; min_words = 300; max_words = 900 }

abbrev pub result : PublishResult
result = record {
  success = true;
  publisher_id = "blog";
  publisher_name = "Blog";
  output_path = none;
  metadata = none;
  error = none;
}

abbrev pub options : Options
options = record {
  memory = true;
  notifier = true;
  default_category = "General";
  max_tags = 5;
  content_language = "en";
  allow_duplicates = false;
  policy = publish_if_gate_passes;
  review_enabled = false;
  review_min_score = 700;
  sources = none;
  max_links = 0;
  links_publisher_id = none;
  site_origin = none;
  max_regenerations = 1;
  min_words = 300;
  max_words = 900;
  recursion_limit = 25;
}

abbrev pub review : EditorialReview
review = record { overall = 800; rationale = "good" }

abbrev pub page : SourceDocument
page = record { url = "u"; final_url = "u"; title = none; text = "text"; truncated = false }

abbrev pub ports : Ports
ports = record {
  clock = λ n. n;
  uuid = λ n. "id";
  trim = λ s. s;
  lower = λ s. s;
  normalize_topic = λ s. s;
  planner = λ n i. ok ("Intro" ∷ []);
  writer = λ n i. ok "# Cats";
  editor = λ n t b. ok "# Cats!";
  seo = λ n i. ok seo_output;
  review = λ n i. ok review;
  classification = λ n i. ok ("General", "cat" ∷ []);
  spent = λ n. record empty_usage { calls = 1 };
  model_used = λ n m. none;
  prompt_used = λ n m. none;
  planner_prompt = λ i. "plan";
  writer_prompt = λ i. "write";
  read = λ n u m. ok page;
  address = λ s. s;
  validate = λ i. (true, []);
  format_violations = λ vs. "";
  select_related = λ q rs n. [];
  list_categories = none;
  list_tags = λ n. ok [];
  publish = λ n a. ok result;
  find_existing = none;
  show_number = λ n. "7";
}

abbrev pub metadata : Metadata
metadata = record { brief = some article_brief; force = false }

abbrev pub run_row : WorkflowRecord
run_row = record {
  id = "run-1";
  name = "article-generation-workflow";
  topic = "cats";
  topic_normalized = "cats";
  status = WorkflowStatus.awaiting_approval;
  is_duplicate = false;
  duplicate_of_workflow_id = none;
  metadata = metadata;
  error_message = none;
  error_code = none;
  failed_step = none;
  started_at = 1;
  completed_at = some 5;
  created_at = 1;
  updated_at = 5;
}

abbrev pub article_row : ArticleRecord
article_row = record {
  id = "article-1";
  workflow_id = "run-1";
  topic = "cats";
  title = some "Cats";
  slug = some "cats";
  category = some "General";
  tags = "cat" ∷ [];
  article_markdown = "# Cats";
  edited_markdown = "# Cats!";
  seo = record { title = some "Cats"; slug = some "cats"; meta_description = some "On cats" };
  publish_result = none;
  publish_remote_id = none;
  publish_remote_url = none;
  publish_remote_status = none;
  review_state = ReviewState.needs_review;
  gate_passed = some true;
  approved_by = none;
  approved_at = none;
  approval_override_reason = none;
  created_at = 5;
  updated_at = 5;
}

abbrev pub step_row : StepRecord
step_row = record {
  id = "step-1";
  workflow_id = "run-1";
  step = "planner";
  status = succeeded;
  attempt = 1;
  output = some (record no_update { outline = some ("Intro" ∷ []) });
  error_code = none;
  error_message = none;
  started_at = 1;
  completed_at = 2;
  usage = none;
  model = none;
  prompt_hash = none;
}

abbrev pub db : Db
db = record {
  workflows = run_row ∷ [];
  topics = [];
  prompts = [];
  articles = article_row ∷ [];
  steps = step_row ∷ [];
  decisions = [];
}

abbrev pub world : World
world = record { db = db; calls = 10; usage = empty_usage; sent = []; told = [] }

abbrev pub fresh : State
fresh = record initial { topic = "cats"; brief = some brief; workflow_id = some "run-1" }

-- the state that the graph ends in
abbrev pub final : State
final = record fresh {
  outline = some ("Intro" ∷ []);
  article = some "# Cats";
  edited_text = some "# Cats!";
  seo_output = some seo_output;
  category = some "General";
  tags = some ("cat" ∷ []);
  quality_passed = some true;
  publish_result = some result;
}

abbrev pub finish_params : FinishParams
finish_params = record {
  workflow_id = "run-1";
  status = FinalStatus.published;
  topic = "cats";
  article = "# Cats";
  edited_text = "# Cats!";
  seo_output = seo_output;
  category = "General";
  tags = "cat" ∷ [];
  publish_result = some result;
  gate_passed = some true;
  failed_step = none;
  error_code = none;
  error_message = none;
}
