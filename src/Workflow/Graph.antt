-- ===== src/Workflow/Graph.antt =====
-- The step wrapper and the graph of nodes
-- (packages/graph/src/workflows/article-generation-workflow.ts). The graph library runs one node
-- after the other and gives up after `recursion_limit` of them.
use open_blog_agent.Prelude.{
  ℕ, zero, suc, String, Bool, true, false, not, ◌&&◌, Option, none, some, List, [], ◌∷◌,
  if◌then◌else◌, or_else, ltb, is_some,
}
use open_blog_agent.Types.Brief.{ResolvedBrief}
use open_blog_agent.Types.Usage.{usage_since}
use open_blog_agent.Types.Article.{Update, no_update}
use open_blog_agent.Storage.Models.{succeeded, failed, StepRecord}
use open_blog_agent.Storage.MemoryReviews.{record_step}
use open_blog_agent.Workflow.State.{State, merge}
use open_blog_agent.Workflow.Errors.{Thrown, Result, ok, err, as_step_error, error_code}
use open_blog_agent.Workflow.Ports.{Options, Ports, PublicationPolicy, publish_after_approval}
use open_blog_agent.Workflow.Exec.{World, Exec, throw}
use open_blog_agent.Workflow.Nodes
use open_blog_agent.Workflow.Gates
use open_blog_agent.Workflow.Gates.{includes}

pub data Node : Type 0 where
  read_sources planner find_links writer editor seo duplicate_check quality editorial_review
        regenerate classification publisher :
      Node

unfoldable pub name_of : Node → String
name_of read_sources = "read_sources"
name_of planner = "planner"
name_of find_links = "find_links"
name_of writer = "writer"
name_of editor = "editor"
name_of seo = "seo"
name_of duplicate_check = "duplicate_check"
name_of quality = "quality"
name_of editorial_review = "editorial_review"
name_of regenerate = "regenerate"
name_of classification = "classification"
name_of publisher = "publisher"

abbrev pub is_true : Option Bool → Bool
is_true (some true) = true
is_true _ = false

abbrev pub after_approval : PublicationPolicy → Bool
after_approval publish_after_approval = true
after_approval _ = false

abbrev pub is_nonempty : List String → Bool
is_nonempty [] = false
is_nonempty (u ∷ us) = true

-- `state.brief?.sources?.length`
abbrev pub has_sources : Option ResolvedBrief → Bool
has_sources none = false
has_sources (some b) = is_nonempty (or_else b.brief.sources [])

abbrev pub recursion_error : Thrown
recursion_error = record {
  step = none;
  code = none;
  name = some "GraphRecursionError";
  message = "Recursion limit reached without hitting a stop condition";
}

module _ (o : Options) (p : Ports) where
  -- the function of a node
  unfoldable pub body : Node → State → Exec Update
  body read_sources = Nodes.read_sources o p
  body planner = Nodes.planner o p
  body find_links = Nodes.find_links o p
  body writer = Nodes.writer o p
  body editor = Nodes.editor o p
  body seo = Nodes.seo o p
  body duplicate_check = Gates.duplicate_check o p
  body quality = Gates.quality o p
  body editorial_review = Gates.editorial_review o p
  body regenerate = Gates.regenerate o p
  body classification = Gates.classification o p
  body publisher = Gates.publisher o p

  -- `record`: nothing without a store or a stored run
  unfoldable pub record_execution : Option String → StepRecord → World → World
  record_execution none r w = w
  record_execution (some id) r w =
      if o.memory
      then record w {
        db = record_step (record r { workflow_id = id; id = p.uuid w.calls }) w.db;
        calls = suc w.calls;
      }
      else w

  -- the row of an execution, from the world it began in and the one it ended in
  unfoldable pub execution_row : String → World → World → StepRecord
  execution_row name before after = record {
    id = "";
    workflow_id = "";
    step = name;
    status = succeeded;
    attempt = 0;
    output = none;
    error_code = none;
    error_message = none;
    started_at = p.clock before.calls;
    completed_at = p.clock after.calls;
    usage = some (usage_since before.usage after.usage);
    model = p.model_used before.calls after.calls;
    prompt_hash = p.prompt_used before.calls after.calls;
  }

  unfoldable pub finish_step :
      String → State → World → Result Update → World → Result Update × World
  unfolding record_execution execution_row
  finish_step name s before (ok output) w = (
    ok output,
    record_execution s.workflow_id (record (execution_row name before w) { output = some output })
        w,
  )
  finish_step name s before (err e) w =
      let error = as_step_error name e in
      (
        err error,
        record_execution s.workflow_id
            (record (execution_row name before w) {
              status = failed;
              error_code = some (error_code error);
              error_message = some error.message;
            })
            w,
      )

  -- `step`: a step that a previous attempt completed is skipped
  unfoldable pub step : String → (State → Exec Update) → State → Exec Update
  step name fn s w =
      let (r, w') = fn s w in
      if includes (or_else s.completed_steps []) name
      then (ok no_update, w)
      else finish_step name s w r w'

  abbrev pub links_enabled : Bool
  links_enabled = ltb 0 o.max_links && o.memory

  -- the edges
  unfoldable pub entry : State → Node
  entry s = if has_sources s.brief then read_sources else planner

  unfoldable pub next : Node → State → Option Node
  next read_sources s = some planner
  next planner s = some (if links_enabled then find_links else writer)
  next find_links s = some writer
  next writer s = some editor
  next editor s = some seo
  next seo s = some duplicate_check
  next duplicate_check s = if is_some s.duplicate && not s.force then none else some quality
  next quality s = some (
      if not (is_true s.quality_passed)
      then if ltb s.regenerations o.max_regenerations then regenerate else classification
      else if o.review_enabled
      then editorial_review
      else classification)
  next editorial_review s = some classification
  next regenerate s = some writer
  next classification s =
      if is_true s.quality_passed && not (after_approval o.policy) then some publisher else none
  next publisher s = none

  -- the edge that is taken, or the end
  unfoldable pub follow : (Node → State → Exec State) → State → Option Node → Exec State
  follow go s none w = (ok s, w)
  follow go s (some n) w = go n s w

  unfoldable pub proceed :
      (Node → State → Exec State) → Node → State → Result Update → World → Result State × World
  unfolding follow
  proceed go n s (err e) w = (err e, w)
  proceed go n s (ok update) w = let s' = merge s update in follow go s' (next n s') w

  unfoldable pub run_from : ℕ → Node → State → Exec State
  run_from zero n s w = throw recursion_error w
  run_from (suc limit) n s w =
      let (r, w') = step (name_of n) (body n) s w in proceed (run_from limit) n s r w'

  -- `workflow.invoke`
  unfoldable pub invoke : State → Exec State
  invoke s = run_from o.recursion_limit (entry s) s
