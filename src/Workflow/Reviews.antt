-- ===== src/Workflow/Reviews.antt =====
-- What a reviewer does with a stored article: `approve`, `reject`, `revise`
-- (packages/graph/src/workflows/article-generation-workflow.ts). Of the errors the code is modelled,
-- which stands for its message too.
use open_blog_agent.Prelude.{
  ℕ, String, Bool, true, false, not, ◌&&◌, ◌||◌, ◌==◌, Option, none, some, List, [], ◌∷◌, ◌++◌,
  if◌then◌else◌, or_else, is_some,
}
use open_blog_agent.Types.Usage.{empty_usage}
use open_blog_agent.Types.Publish.{PostStatus, PublishArticle, PublishResult}
use open_blog_agent.Types.Article.{Update, no_update}
use open_blog_agent.Storage.Models.{WorkflowStatus, ReviewState, StepRecord, ArticleRecord}
use open_blog_agent.Storage.Steps.{is_succeeded}
use open_blog_agent.Storage.MemoryReviews.{
  LoadedWorkflow, LoadedArticle, load_workflow, load_article, begin_approval, complete_approval,
  reject_workflow, record_revision,
}
use open_blog_agent.Workflow.Errors.{Thrown, coded_error}
use open_blog_agent.Workflow.Ports.{Options, Ports}
use open_blog_agent.Workflow.Exec.{Exec, pure, throw, get_world, with_db, with_id, ◌>>=◌, ◌>>◌}
use open_blog_agent.Workflow.Gates.{includes}
use open_blog_agent.Workflow.Gates
use open_blog_agent.Workflow.Outcome.{WorkflowResult, Failure, is_success, publisher_failure}
use open_blog_agent.Workflow.Execute.{execute}
use open_blog_agent.Workflow.Restore.{restore_state, stored_brief}
use open_blog_agent.Workflow.Begin.{resolve_brief, spent_before}

abbrev pub approval_error : String → Thrown
approval_error code = coded_error "ApprovalError" code code

abbrev pub review_error : String → Thrown
review_error code = coded_error "ReviewError" code code

-- `text?.trim() || undefined`
abbrev pub trimmed_text : (String → String) → Option String → Option String
trimmed_text trim none = none
trimmed_text trim (some s) = if trim s == "" then none else some (trim s)

abbrev pub is_rejected : WorkflowStatus → ReviewState → Bool
is_rejected WorkflowStatus.rejected r = true
is_rejected _ ReviewState.rejected = true
is_rejected _ _ = false

abbrev pub is_published : ReviewState → Bool
is_published ReviewState.published = true
is_published _ = false

-- `article.gatePassed === true`
abbrev pub gate_is_passed : Option Bool → Bool
gate_is_passed (some true) = true
gate_is_passed _ = false

-- a text that is there and not empty
abbrev pub usable : Option String → Option String
usable none = none
usable (some s) = if s == "" then none else some s

-- The title, slug and description of an article that can be published.
pub record Publishable : Type 0 where
  pub title : String
  pub slug : String
  pub description : String

abbrev pub publishable_parts : Option String → Option String → Option String → Option Publishable
publishable_parts (some t) (some s) (some d) =
    some (record { title = t; slug = s; description = d })
publishable_parts _ _ _ = none

unfoldable pub publishable : ArticleRecord → Option Publishable
publishable a = publishable_parts (usable a.title) (usable a.slug) a.seo.meta_description

-- The refusal of an approval, if there is one.
unfoldable pub approval_refusal : LoadedArticle → Option String → Option String
unfolding publishable
approval_refusal l reason =
    if is_rejected l.workflow_status l.article.review_state
    then some "already_rejected"
    else if is_published l.article.review_state
    then some "already_published"
    else if not (gate_is_passed l.article.gate_passed) && not (is_some reason)
    then some "gate_not_passed"
    else if is_some (publishable l.article)
    then none
    else some "not_publishable"

pub record ApprovalResult : Type 0 where
  pub published : Bool
  pub workflow_id : String
  pub title : String
  pub slug : String
  pub publish_result : PublishResult
  pub failure : Option Failure

abbrev pub language_of : Option LoadedWorkflow → Option String
language_of none = none
language_of (some w) = (stored_brief w.topic w.metadata).language

unfoldable pub approval_result : String → Publishable → PublishResult → ApprovalResult
approval_result id t r = record {
  published = r.success;
  workflow_id = id;
  title = t.title;
  slug = t.slug;
  publish_result = r;
  failure = if r.success then none else some (publisher_failure (some r));
}

-- the status that forbids a review, as `loadReviewable` tests it
unfoldable pub review_refusal : WorkflowStatus → Option String
review_refusal WorkflowStatus.published = some "already_published"
review_refusal WorkflowStatus.rejected = some "already_rejected"
review_refusal WorkflowStatus.needs_review = none
review_refusal WorkflowStatus.awaiting_approval = none
review_refusal _ = some "invalid_state"

unfoldable pub reviewable : Option LoadedWorkflow → Exec LoadedWorkflow
unfolding review_refusal
reviewable none = throw (review_error "not_found")
reviewable (some stored) = elim (review_refusal stored.status) [
  | some code ↦ throw (review_error code)
  | none ↦ pure stored
]

-- the last stored publication succeeded
unfoldable pub sent_draft : Bool → List StepRecord → Bool
sent_draft sent [] = sent
sent_draft sent (s ∷ ss) =
    sent_draft
      (if s.step == "publisher" && is_succeeded s.status
        then is_success (or_else s.output no_update).publish_result
        else sent)
      ss

abbrev pub kept_steps : Bool → Bool → List String
kept_steps sources links =
    (if sources then "read_sources" ∷ [] else [])
    ++ "planner" ∷ (if links then "find_links" ∷ [] else [])

abbrev pub slug_of : Option LoadedArticle → Option String
slug_of none = none
slug_of (some l) = l.article.slug

abbrev pub text_of : Option LoadedArticle → Option String
text_of none = none
text_of (some l) = some l.article.edited_markdown

-- what a revision takes over: the outline, and what the writer saw
unfoldable pub revision_of : String → List StepRecord → Option LoadedArticle → Update
unfolding sent_draft
revision_of feedback steps article =
    let restored = restore_state steps in
    let done = or_else restored.completed_steps [] in
    let keep_outline = includes done "planner" in
    let keep_sources = includes done "read_sources" in
    let keep_links = includes done "find_links" in
    record no_update {
      outline = if keep_outline then restored.outline else none;
      completed_steps = if keep_outline then some (kept_steps keep_sources keep_links) else none;
      sources = if keep_sources then restored.sources else none;
      internal_links = if keep_links then restored.internal_links else none;
      reviewer_feedback = some feedback;
      previous_article = text_of article;
      own_slug = if sent_draft false steps then slug_of article else none;
    }

module _ (o : Options) (p : Ports) where
  -- what is sent when an article is approved
  unfoldable pub approved_post :
      ArticleRecord → Publishable → Option LoadedWorkflow → ℕ → PublishArticle
  approved_post a t stored now = record {
    title = t.title;
    slug = t.slug;
    summary = t.description;
    content = a.edited_markdown;
    created_at = now;
    updated_at = now;
    tags = a.tags;
    category = or_else a.category o.default_category;
    author = "OpenBlogAgent";
    language = or_else (language_of stored) o.content_language;
    status = some PostStatus.publish;
    revises_draft = none;
    publisher_id = none;
  }

  -- an approval that was not refused
  unfoldable pub publish_approved :
      String → String → Option String → ArticleRecord → Publishable → Exec ApprovalResult
  unfolding approved_post approval_result
  publish_approved id by reason a t = do
    with_db p
        (λ now. begin_approval id by (if gate_is_passed a.gate_passed then none else reason) now)
    w ← get_world
    result ← Gates.publish o p (approved_post a t (load_workflow id w.db) (p.clock w.calls))
    with_db p (λ now. complete_approval id result now)
    pure (approval_result id t result)

  unfoldable pub approve_loaded :
      String → String → Option String → Option LoadedArticle → Exec ApprovalResult
  unfolding approval_refusal publish_approved
  approve_loaded id by reason none = throw (approval_error "not_found")
  approve_loaded id by reason (some l) = elim (approval_refusal l reason) [
    | some code ↦ throw (approval_error code)
    | none ↦ elim (publishable l.article) [
      | none ↦ throw (approval_error "not_publishable")
      | some t ↦ publish_approved id by reason l.article t
    ]
  ]

  unfoldable pub approve : String → String → Option String → Exec ApprovalResult
  unfolding approve_loaded
  approve id by override_reason =
      if not o.memory then throw (approval_error "memory_unavailable") else do
        w ← get_world
        approve_loaded id by (trimmed_text p.trim override_reason) (load_article id w.db)

  unfoldable pub load_reviewable : String → Exec LoadedWorkflow
  unfolding reviewable
  load_reviewable id =
      if not o.memory
      then throw (review_error "memory_unavailable")
      else do w ← get_world; reviewable (load_workflow id w.db)

  unfoldable pub reject : String → String → String → Exec (Unit {0})
  unfolding load_reviewable
  reject id by reason = if p.trim reason == "" then throw (review_error "invalid_input") else do
    load_reviewable id
    with_id p (λ decision now. reject_workflow decision id by (p.trim reason) now)

  -- `revise`: the check, then `execute` of the pending run
  unfoldable pub revise : String → String → String → Exec WorkflowResult
  unfolding load_reviewable revision_of
  revise id by feedback = if p.trim feedback == "" then throw (review_error "invalid_input") else do
    stored ← load_reviewable id
    w ← get_world
    let article : Option LoadedArticle = load_article id w.db
    with_id p (λ decision now. record_revision decision id by (p.trim feedback) now)
    r ← resolve_brief o p (stored_brief stored.topic stored.metadata)
    execute o p r (some id) (stored.metadata.force || o.allow_duplicates)
        (revision_of (p.trim feedback) stored.steps article) (spent_before empty_usage stored.steps)
