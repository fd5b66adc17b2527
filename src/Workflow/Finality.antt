-- ===== src/Workflow/Finality.antt =====
-- A rejected run stays rejected
-- (packages/graph/src/workflows/article-generation-workflow.ts).
use open_blog_agent.Prelude.{
  ◌≡◌, refl, String, Bool, true, Option, some, ℕ, arith, Option-cases, inl, inr, ap, ◌∙◌,
  Bool-cases, if◌then◌else◌, ◌==◌,
}
use open_blog_agent.Storage.Models.{WorkflowStatus, Db}
use open_blog_agent.Storage.Workflows
use open_blog_agent.Storage.Articles
use open_blog_agent.Storage.Steps
use open_blog_agent.Storage.Workflows.{apply_change}
use open_blog_agent.Storage.MemoryReviews.{
  LoadedArticle, LoadedWorkflow, load_article, load_workflow, reject_workflow,
}
use open_blog_agent.Storage.RoundTrips.{load_article-reject_workflow}
use open_blog_agent.Workflow.Errors.{err}
use open_blog_agent.Workflow.Ports.{Options, Ports}
use open_blog_agent.Workflow.Exec.{World}
use open_blog_agent.Workflow.Begin.{resume, resume_loaded, resume_refusal, resume_error}
use open_blog_agent.Workflow.Reviews.{
  approve, approve_loaded, approval_refusal, load_reviewable, reviewable, review_refusal,
  approval_error, review_error, reject, revise,
}

-- A run with an article is loaded with the status that its article is loaded with.
load_workflow-load_article :
    (id : String) (db : Db) (l : LoadedArticle)
    → load_article id db ≡ some l
    → (l' : LoadedWorkflow) × (load_workflow id db ≡ some l') × (l'.status ≡ l.workflow_status)
unfolding load_workflow load_article
load_workflow-load_article id db l found = elim (Option-cases (Workflows.get_by_id id db)) [
  | inl missing ↦ ground arith
  | inr (w, stored) ↦
      let same : w.status ≡ l.workflow_status =
        elim (Option-cases (Articles.get_by_workflow_id id db)) [
          | inl missing ↦ ground arith
          | inr (a, article) ↦ ground arith
        ] in
      (
        record {
          topic = w.topic;
          status = w.status;
          metadata = w.metadata;
          steps = Steps.get_by_workflow_id id db;
        },
        rw (stored, load_workflow) refl,
        same,
      )
]

module _ (o : Options) (p : Ports) (id : String) where
  -- What every entry point does with a run that was rejected: it throws, and the world stays as it
  -- was. A review without a text is invalid before the run is looked at.
  pub record IsFinal (w : World) : Type 0 where
    pub approval :
        (by : String) (reason : Option String)
        → approve o p id by reason w ≡ (err (approval_error "already_rejected"), w)
    pub rejection :
        (by reason : String)
        → reject o p id by reason w ≡ (
          err (review_error (if p.trim reason == "" then "invalid_input" else "already_rejected")),
          w,
        )
    pub revision :
        (by feedback : String)
        → revise o p id by feedback w ≡ (
          err (
              review_error (if p.trim feedback == "" then "invalid_input" else "already_rejected")),
          w,
        )
    pub resumption :
        (force : Bool) → resume o p id force w ≡ (err (resume_error "already_rejected"), w)

  approve-rejected :
      (w : World) (l : LoadedArticle) (by : String) (reason : Option String)
      → o.memory ≡ true
      → load_article id w.db ≡ some l
      → l.workflow_status ≡ WorkflowStatus.rejected
      → approve o p id by reason w ≡ (err (approval_error "already_rejected"), w)
  unfolding approve approve_loaded approval_refusal
  approve-rejected w l by reason there found gone = rw (there, found, gone) refl

  review-rejected :
      (w : World) (l : LoadedWorkflow)
      → o.memory ≡ true
      → load_workflow id w.db ≡ some l
      → l.status ≡ WorkflowStatus.rejected
      → load_reviewable o p id w ≡ (err (review_error "already_rejected"), w)
  unfolding load_reviewable reviewable review_refusal
  review-rejected w l there found gone = rw (there, found, gone) refl

  reject-rejected :
      (w : World) (by reason : String)
      → load_reviewable o p id w ≡ (err (review_error "already_rejected"), w)
      → reject o p id by reason w ≡ (
        err (review_error (if p.trim reason == "" then "invalid_input" else "already_rejected")),
        w,
      )
  unfolding reject
  reject-rejected w by reason h = elim (Bool-cases (p.trim reason == "")) [
    | inl empty ↦ rw empty refl
    | inr said ↦ rw (said, h) refl
  ]

  revise-rejected :
      (w : World) (by feedback : String)
      → load_reviewable o p id w ≡ (err (review_error "already_rejected"), w)
      → revise o p id by feedback w ≡ (
        err (review_error (if p.trim feedback == "" then "invalid_input" else "already_rejected")),
        w,
      )
  unfolding revise
  revise-rejected w by feedback h = elim (Bool-cases (p.trim feedback == "")) [
    | inl empty ↦ rw empty refl
    | inr said ↦ rw (said, h) refl
  ]

  resume-rejected :
      (w : World) (l : LoadedWorkflow) (force : Bool)
      → o.memory ≡ true
      → load_workflow id w.db ≡ some l
      → l.status ≡ WorkflowStatus.rejected
      → resume o p id force w ≡ (err (resume_error "already_rejected"), w)
  unfolding resume resume_loaded resume_refusal
  resume-rejected w l force there found gone = rw (there, found, gone) refl

  -- Once a run with an article is rejected, neither an approval, nor a further rejection, nor a
  -- revision, nor a resumption, forced or not, does anything: each throws that the run was rejected,
  -- or, for a rejection or a revision with no text, that the input is invalid, and leaves the world as
  -- it was.
  pub reject_workflow-IsFinal :
      (w : World) (db : Db) (l : LoadedArticle) (decision actor note : String) (now : ℕ)
      → o.memory ≡ true
      → load_article id db ≡ some l
      → w.db ≡ reject_workflow decision id actor note now db
      → IsFinal w
  reject_workflow-IsFinal w db l decision actor note now there found after =
      let rejected = (load_article-reject_workflow id now db decision actor note l found).0 in
      let read = ap (load_article id) after ∙ rejected in
      let (l', run, status) = load_workflow-load_article id w.db _ read in
      let closed = review-rejected w l' there run status in
      record {
        approval = λ by reason. approve-rejected w _ by reason there read refl;
        rejection = λ by reason. reject-rejected w by reason closed;
        revision = λ by feedback. revise-rejected w by feedback closed;
        resumption = λ force. resume-rejected w l' force there run status;
      }
