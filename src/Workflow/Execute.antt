-- ===== src/Workflow/Execute.antt =====
-- Executing a registered run: `execute`, `stopAsDuplicate`, `announce`
-- (packages/graph/src/workflows/article-generation-workflow.ts).
use open_blog_agent.Prelude.{
  ℕ, String, Bool, true, false, not, ◌==◌, Option, none, some, List, [], ◌∷◌, ◌++◌, if◌then◌else◌,
  or_else, join, is_some,
}
use open_blog_agent.Types.Brief.{ResolvedBrief}
use open_blog_agent.Types.Usage.{LlmUsage}
use open_blog_agent.Types.Publish.{PublishResult}
use open_blog_agent.Types.Article.{QualityViolation, MatchedOn, DuplicateInfo, Update}
use open_blog_agent.Storage.Models.{Db}
use open_blog_agent.Storage.Memory.{
  FinalStatus, finish_workflow, mark_running, mark_duplicate, fail_workflow,
}
use open_blog_agent.Workflow.State.{State, invoked}
use open_blog_agent.Workflow.Errors.{Thrown, Result, ok, err, error_code}
use open_blog_agent.Workflow.Ports.{Options, Ports, Notification, Event}
use open_blog_agent.Workflow.Exec.{
  World, Exec, pure, throw, required, with_db, with_id, ◌>>=◌, ◌>>◌,
}
use open_blog_agent.Workflow.Graph.{invoke}
use open_blog_agent.Workflow.Outcome.{
  Failure, Output, WorkflowResult, published, awaiting_approval, needs_review, failed, duplicate,
  is_awaiting, failure_of, status_of, event_of,
}

-- the end of a `duplicate_…` code
abbrev pub matched_name : MatchedOn → String
matched_name MatchedOn.topic = "topic"
matched_name MatchedOn.slug = "slug"
matched_name MatchedOn.title = "title"
matched_name MatchedOn.remote = "remote"

abbrev pub duplicate_where : DuplicateInfo → String
duplicate_where d = elim d.workflow_id [
  | none ↦ or_else d.remote "undefined"
  | some id ↦ join "run " id
]

unfoldable pub duplicate_message : MatchedOn → String → String
duplicate_message MatchedOn.topic place =
    join "This topic was already published (" (join place "); use --force to generate it again")
duplicate_message MatchedOn.slug place =
    join "An article with the same slug already exists ("
      (join place "); use --force to publish anyway")
duplicate_message MatchedOn.title place =
    join "An article with the same title already exists ("
      (join place "); use --force to publish anyway")
duplicate_message MatchedOn.remote place =
    join "An article with the same slug already exists ("
      (join place "); use --force to publish anyway")

unfoldable pub duplicate_failure : DuplicateInfo → String → Failure
unfolding duplicate_message
duplicate_failure d step = record {
  step = step;
  code = join "duplicate_" (matched_name d.matched_on);
  message = duplicate_message d.matched_on (duplicate_where d);
}

-- the fields that a finished run must have
unfoldable pub output_of : ResolvedBrief → Option String → State → Exec Output
output_of brief run s = do
  article ← required s.article "article"
  category ← required s.category "category"
  edited ← required s.edited_text "editedText"
  seo ← required s.seo_output "seoOutput"
  tags ← required s.tags "tags"
  pure (record {
    workflow_id = run;
    article = article;
    category = category;
    edited_text = edited;
    seo_output = seo;
    tags = tags;
    topic = s.topic;
    brief = brief;
    review = s.review;
  })

abbrev pub step_of : Option Failure → Option String
step_of none = none
step_of (some f) = some f.step

abbrev pub code_of : Option Failure → Option String
code_of none = none
code_of (some f) = some f.code

abbrev pub message_of : Option Failure → Option String
message_of none = none
message_of (some f) = some f.message

-- the value that is returned
unfoldable pub result_of :
    Bool
    → Bool
    → Option Failure
    → Output
    → List QualityViolation
    → Option PublishResult
    → Exec WorkflowResult
result_of true awaiting (some f) output violations result = pure (needs_review output f violations)
result_of true true none output violations result = pure (awaiting_approval output result)
result_of false true failure output violations result = pure (awaiting_approval output result)
result_of needs false (some f) output violations result = pure (failed output f result)
result_of needs false none output violations result = do
  r ← required result "publishResult"
  pure (published output r)

module _ (o : Options) (p : Ports) where
  -- A failed delivery is logged and changes nothing.
  abbrev pub announce : Notification → Exec (Unit {0})
  announce n w = (ok tt, if o.notifier then record w { told = w.told ++ n ∷ [] } else w)

  -- `if (memory && workflowMemory) …`
  abbrev pub when_stored : Option String → (String → ℕ → Db → Db) → Exec (Unit {0})
  when_stored none f = pure tt
  when_stored (some id) f = if o.memory then with_db p (f id) else pure tt

  unfoldable pub stop_as_duplicate :
      ResolvedBrief → Option String → DuplicateInfo → String → Exec WorkflowResult
  unfolding duplicate_failure
  stop_as_duplicate brief run d step = do
    let failure : Failure = duplicate_failure d step
    when_stored run
        (λ id now. mark_duplicate id d.workflow_id failure.step failure.code failure.message now)
    announce (record {
      event = Event.duplicate;
      workflow_id = run;
      topic = brief.brief.topic;
      title = none;
      error_code = some failure.code;
      error_message = some failure.message;
    })
    pure (duplicate run brief failure d)

  -- `memory.finishWorkflow(…)`
  unfoldable pub store_outcome :
      Option String
      → Output
      → FinalStatus
      → Bool
      → Option PublishResult
      → Option Failure
      → Exec (Unit {0})
  store_outcome none output status gate_passed result failure = pure tt
  store_outcome (some id) output status gate_passed result failure =
      if o.memory
      then with_id p (λ article_id now.
        finish_workflow article_id
          (record {
            workflow_id = id;
            status = status;
            topic = output.topic;
            article = output.article;
            edited_text = output.edited_text;
            seo_output = output.seo_output;
            category = output.category;
            tags = output.tags;
            publish_result = result;
            gate_passed = some gate_passed;
            failed_step = step_of failure;
            error_code = code_of failure;
            error_message = message_of failure;
          })
          now)
      else pure tt

  -- the end of a run whose graph is done
  unfoldable pub conclude : ResolvedBrief → Option String → State → Exec WorkflowResult
  unfolding output_of is_awaiting failure_of status_of store_outcome event_of result_of
  conclude brief run s = do
    output ← output_of brief run s
    passed ← required s.quality_passed "qualityPassed"
    let needs : Bool = not passed
    let violations : List QualityViolation = or_else s.quality_violations []
    let awaiting : Bool = is_awaiting o.policy needs s.publish_result
    let failure : Option Failure = failure_of needs awaiting s.publish_result violations
    let status : FinalStatus = status_of needs awaiting failure
    store_outcome run output status passed s.publish_result failure
    announce (record {
      event = event_of status;
      workflow_id = run;
      topic = brief.brief.topic;
      title = some output.seo_output.title;
      error_code = code_of failure;
      error_message = message_of failure;
    })
    result_of needs awaiting failure output violations s.publish_result

  -- `if (finalState.duplicate && !force)`
  unfoldable pub finish : ResolvedBrief → Option String → Bool → State → Exec WorkflowResult
  unfolding stop_as_duplicate conclude
  finish brief run force s = elim s.duplicate [
    | none ↦ conclude brief run s
    | some d ↦
        if force then conclude brief run s else stop_as_duplicate brief run d "duplicate_check"
  ]

  -- the body of the `try` block; the usage counter of the run starts at `prior`
  unfoldable pub attempt :
      ResolvedBrief → Option String → Bool → Update → LlmUsage → Exec WorkflowResult
  unfolding finish
  attempt brief run force restored prior = do
    when_stored run (λ id now. mark_running id now)
    s ← λ w. invoke o p (invoked restored brief force run) (record w { usage = prior })
    finish brief run force s

  -- the `catch` block, which throws the error again
  unfoldable pub record_failure : ResolvedBrief → Option String → Thrown → Exec WorkflowResult
  record_failure brief run e = do
    when_stored run (λ id now.
        fail_workflow id e.message e.step (if is_some e.step then some (error_code e) else none)
          now)
    announce (record {
      event = if error_code e == "budget_exceeded" then Event.budget_exceeded else Event.failed;
      workflow_id = run;
      topic = brief.brief.topic;
      title = none;
      error_code = some (error_code e);
      error_message = some e.message;
    })
    throw e

  abbrev pub caught :
      ResolvedBrief → Option String → Result WorkflowResult → World → Result WorkflowResult × World
  caught brief run (ok r) w = (ok r, w)
  caught brief run (err e) w = record_failure brief run e w

  unfoldable pub execute :
      ResolvedBrief → Option String → Bool → Update → LlmUsage → Exec WorkflowResult
  unfolding attempt record_failure
  execute brief run force restored prior w =
      let (r, w') = attempt brief run force restored prior w in caught brief run r w'
