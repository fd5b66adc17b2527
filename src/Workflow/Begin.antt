-- ===== src/Workflow/Begin.antt =====
-- Starting and resuming runs: `resolveBrief`, `begin`, `run`, `resume`
-- (packages/graph/src/workflows/article-generation-workflow.ts).
use open_blog_agent.Prelude.{
  suc, String, Bool, false, not, ◌&&◌, ◌||◌, Option, none, some, List, [], ◌∷◌, if◌then◌else◌,
  or_else, ltb, is_some, join,
}
use open_blog_agent.Types.Brief.{ArticleBrief, ResolvedBrief, valid_word_range}
use open_blog_agent.Types.Usage.{LlmUsage, empty_usage, add_usage}
use open_blog_agent.Types.Article.{no_update, MatchedOn, DuplicateInfo}
use open_blog_agent.Storage.Models.{WorkflowStatus, StepRecord, Metadata}
use open_blog_agent.Storage.Memory.{StartResult, begin_workflow}
use open_blog_agent.Storage.MemoryReviews.{LoadedWorkflow, load_workflow}
use open_blog_agent.Workflow.Errors.{Thrown, ok, schema_error, coded_error}
use open_blog_agent.Workflow.Ports.{Options, Ports}
use open_blog_agent.Workflow.Exec.{Exec, pure, throw, get_world, ◌>>=◌}
use open_blog_agent.Workflow.Outcome.{WorkflowResult}
use open_blog_agent.Workflow.Execute.{stop_as_duplicate, execute}
use open_blog_agent.Workflow.Restore.{restore_state, stored_brief}

-- PendingRun, with what its `execute` closes over
pub record PendingRun : Type 0 where
  pub brief : ResolvedBrief
  pub force : Bool
  pub stored : Option StartResult

-- the brief as it is stored: with the language that it resolved to
abbrev pub stored_metadata : ResolvedBrief → Bool → Metadata
stored_metadata r force = record {
  brief = some (record r.brief { language = some r.language });
  force = force;
}

abbrev pub run_id : Option StartResult → Option String
run_id none = none
run_id (some s) = some s.workflow_id

abbrev pub topic_duplicate : StartResult → DuplicateInfo
topic_duplicate s = record {
  matched_on = MatchedOn.topic;
  workflow_id = s.duplicate_of_workflow_id;
  remote = none;
}

-- what the stored steps of a run have spent
unfoldable pub spent_before : LlmUsage → List StepRecord → LlmUsage
spent_before total [] = total
spent_before total (s ∷ ss) = spent_before (add_usage total (or_else s.usage empty_usage)) ss

-- the status that forbids a resumption
unfoldable pub resume_refusal : WorkflowStatus → Option String
resume_refusal WorkflowStatus.published = some "already_published"
resume_refusal WorkflowStatus.rejected = some "already_rejected"
resume_refusal _ = none

abbrev pub resume_error : String → Thrown
resume_error code = coded_error "WorkflowResumeError" code code

module _ (o : Options) (p : Ports) where
  -- the brief with the configuration's language and word range where it has none
  unfoldable pub resolved : ArticleBrief → ResolvedBrief
  resolved b = record {
    brief = b;
    language = or_else b.language o.content_language;
    min_words = or_else b.min_words o.min_words;
    max_words = or_else b.max_words o.max_words;
  }

  -- a range that the configuration alone makes empty is left to the gate
  unfoldable pub resolve_brief : ArticleBrief → Exec ResolvedBrief
  unfolding resolved
  resolve_brief b =
      let r = resolved b in
      if (is_some b.min_words || is_some b.max_words) && ltb r.max_words r.min_words
      then throw (
          schema_error (
            join "The word range " (
              join (p.show_number r.min_words) (
                join "-" (
                  join (p.show_number r.max_words)
                    " is empty once combined with the quality limits (OPENBLOG_QUALITY_MIN_WORDS/MAX_WORDS); give both minWords and maxWords")))))
      else pure r

  -- `memory.beginWorkflow(…)`, which draws two ids
  unfoldable pub register : ResolvedBrief → Bool → Exec (Option StartResult)
  register r force w =
      let (db, started) =
        begin_workflow p.normalize_topic (p.uuid w.calls) (p.uuid (suc w.calls))
          "article-generation-workflow" r.brief.topic (stored_metadata r force) (p.clock w.calls)
          w.db in
      if o.memory
      then (ok (some started), record w { db = db; calls = suc (suc w.calls) })
      else (ok none, w)

  -- `begin`; the input is a brief whose fields have parsed, and the `force` option
  unfoldable pub begin : ArticleBrief → Option Bool → Exec PendingRun
  unfolding resolve_brief register
  begin b requested_force =
      if not (valid_word_range b.min_words b.max_words)
      then throw (schema_error "minWords must not be greater than maxWords")
      else do
        r ← resolve_brief b
        let force : Bool = or_else requested_force false || o.allow_duplicates
        stored ← register r force
        pure (record { brief = r; force = force; stored = stored })

  -- `execute` of a pending run
  unfoldable pub execute_pending : PendingRun → Exec WorkflowResult
  execute_pending r = elim r.stored [
    | none ↦ execute o p r.brief none r.force no_update empty_usage
    | some s ↦
        if s.is_duplicate && not r.force
        then stop_as_duplicate o p r.brief (some s.workflow_id) (topic_duplicate s)
            "duplicate_topic_check"
        else execute o p r.brief (some s.workflow_id) r.force no_update empty_usage
  ]

  unfoldable pub run : ArticleBrief → Option Bool → Exec WorkflowResult
  unfolding begin execute_pending
  run b requested_force = do pending ← begin b requested_force; execute_pending pending

  unfoldable pub resume_loaded : String → Bool → Option LoadedWorkflow → Exec WorkflowResult
  unfolding resolve_brief resume_refusal spent_before
  resume_loaded id force none = throw (resume_error "not_found")
  resume_loaded id force (some stored) = elim (resume_refusal stored.status) [
    | some code ↦ throw (resume_error code)
    | none ↦ do
      r ← resolve_brief (stored_brief stored.topic stored.metadata)
      execute o p r (some id) (force || o.allow_duplicates) (restore_state stored.steps)
          (spent_before empty_usage stored.steps)
  ]

  unfoldable pub resume : String → Bool → Exec WorkflowResult
  unfolding resume_loaded
  resume id force =
      if not o.memory
      then throw (resume_error "memory_unavailable")
      else do w ← get_world; resume_loaded id force (load_workflow id w.db)
