-- ===== src/Workflow/Outcome.antt =====
-- How a run that went through the graph ends
-- (`execute` of packages/graph/src/workflows/article-generation-workflow.ts).
use open_blog_agent.Prelude.{
  String, Bool, true, false, not, ◌&&◌, ◌||◌, Option, none, some, List, [], ◌∷◌, map, keep,
  if◌then◌else◌, join,
}
use open_blog_agent.Types.Brief.{ResolvedBrief}
use open_blog_agent.Types.Publish.{PublishResult, PublisherError}
use open_blog_agent.Types.Article.{
  SeoOutput, QualityViolation, Severity, DuplicateInfo, EditorialReview,
}
use open_blog_agent.Storage.Memory.{FinalStatus}
use open_blog_agent.Workflow.Ports.{
  PublicationPolicy, draft, publish_after_approval, publish_if_gate_passes, Event,
}

-- WorkflowFailure
pub record Failure : Type 0 where
  pub step : String
  pub code : String
  pub message : String

-- ArticleWorkflowOutput
pub record Output : Type 0 where
  pub workflow_id : Option String
  pub article : String
  pub category : String
  pub edited_text : String
  pub seo_output : SeoOutput
  pub tags : List String
  pub topic : String
  pub brief : ResolvedBrief
  pub review : Option EditorialReview

-- ArticleWorkflowResult
pub data WorkflowResult : Type 0 where
  published : Output → PublishResult → WorkflowResult
  awaiting_approval : Output → Option PublishResult → WorkflowResult
  needs_review : Output → Failure → List QualityViolation → WorkflowResult
  failed : Output → Failure → Option PublishResult → WorkflowResult
  duplicate : Option String → ResolvedBrief → Failure → DuplicateInfo → WorkflowResult

-- `publishResult?.success === true`
abbrev pub is_success : Option PublishResult → Bool
is_success none = false
is_success (some r) = r.success

unfoldable pub is_awaiting : PublicationPolicy → Bool → Option PublishResult → Bool
is_awaiting publish_after_approval needs result = not needs
is_awaiting draft needs result = not needs && is_success result
is_awaiting publish_if_gate_passes needs result = false

abbrev pub is_error : Severity → Bool
is_error Severity.error = true
is_error Severity.warning = false

-- `list.join(", ")`
unfoldable pub comma_joined : List String → String
comma_joined [] = ""
comma_joined (c ∷ []) = c
comma_joined (c ∷ d ∷ ds) = join c (join ", " (comma_joined (d ∷ ds)))

unfoldable pub gate_failure : List QualityViolation → Failure
unfolding comma_joined
gate_failure violations = record {
  step = "quality";
  code = "quality_gate_failed";
  message =
      join "Article rejected by the quality gate: "
        (comma_joined (map (λ v. v.code) (keep (λ v. is_error v.severity) violations)));
}

abbrev pub error_of : Option PublishResult → Option PublisherError
error_of none = none
error_of (some r) = r.error

abbrev pub failure_of_error : Option PublisherError → Failure
failure_of_error none = record {
  step = "publisher";
  code = "publish_failed";
  message = "Publisher did not confirm the publication";
}
failure_of_error (some e) = record { step = "publisher"; code = e.code; message = e.message }

unfoldable pub publisher_failure : Option PublishResult → Failure
publisher_failure r = failure_of_error (error_of r)

-- `failure`
unfoldable pub failure_of :
    Bool → Bool → Option PublishResult → List QualityViolation → Option Failure
unfolding gate_failure publisher_failure
failure_of needs awaiting result violations =
    if needs
    then some (gate_failure violations)
    else if awaiting || is_success result
    then none
    else some (publisher_failure result)

-- `status`, which is also the event that is announced
unfoldable pub status_of : Bool → Bool → Option Failure → FinalStatus
status_of true awaiting failure = FinalStatus.needs_review
status_of false awaiting (some f) = FinalStatus.failed
status_of false true none = FinalStatus.awaiting_approval
status_of false false none = FinalStatus.published

unfoldable pub event_of : FinalStatus → Event
event_of FinalStatus.published = Event.published
event_of FinalStatus.awaiting_approval = Event.awaiting_approval
event_of FinalStatus.needs_review = Event.needs_review
event_of FinalStatus.failed = Event.failed
