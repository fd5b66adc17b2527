-- ===== src/Workflow/Frames.antt =====
-- What the nodes of the workflow graph leave alone
-- (packages/graph/src/workflows/article-generation-workflow.ts).
use open_blog_agent.Prelude.{
  ℕ, zero, suc, ◌≡◌, refl, String, Option, none, some, List, [], ◌∷◌, ◌++◌, arith, or_else, inl,
  inr, Bool-cases, length, Option-cases, ◌⊎◌,
}
use open_blog_agent.Storage.Memory.{save_prompt}
use open_blog_agent.Storage.Steps
use open_blog_agent.Storage.MemoryReviews.{record_step}
use open_blog_agent.Types.Article.{Update, SkippedSource, SourceDocument}
use open_blog_agent.Workflow.State.{State, merge}
use open_blog_agent.Workflow.Unrolling.{unroll, fails, ends, goes}
use open_blog_agent.Workflow.Errors.{Result, ok, err, Result-cases}
use open_blog_agent.Workflow.Ports.{Options, Ports, SourceOptions}
use open_blog_agent.Workflow.Exec.{World}
use open_blog_agent.Workflow.Nodes
use open_blog_agent.Workflow.Nodes.{page_share}
use open_blog_agent.Workflow.Gates
use open_blog_agent.Workflow.Graph.{
  read_sources, planner, find_links, writer, editor, seo, duplicate_check, quality,
  editorial_review, regenerate, classification, Node, publisher, body, finish_step, step, name_of,
  run_from,
}
use open_blog_agent.Workflow.Gates.{includes}

-- The runs, articles, decisions and notifications are those of before.
pub record IsFramed (w w' : World) : Type 0 where
  pub workflows : w'.db.workflows ≡ w.db.workflows
  pub articles : w'.db.articles ≡ w.db.articles
  pub decisions : w'.db.decisions ≡ w.db.decisions
  pub told : w'.told ≡ w.told

-- The same, and nothing was sent.
pub record IsQuiet (w w' : World) : Type 0 where
  pub frame : IsFramed w w'
  pub sent : w'.sent ≡ w.sent

after_call : (w w' : World) → IsQuiet (record w { calls = suc w.calls }) w' → IsQuiet w w'
after_call w w' h = ground arith

module _ (o : Options) (p : Ports) where
  read_pages-IsQuiet :
      (r : SourceOptions) (max_chars : ℕ) (urls : List String) (ds : List SourceDocument)
      (ks : List SkippedSource) (w : World)
      → IsQuiet w (Nodes.read_pages o p r max_chars urls ds ks w).1
  unfolding Nodes.read_pages
  read_pages-IsQuiet r m [] ds ks w = ground arith
  read_pages-IsQuiet r m (u ∷ us) ds ks w =
      let w' = record w { calls = suc w.calls } in
      elim (Result-cases (p.read w.calls u m)) [
        | inl (d, e) ↦
            rw (e, Nodes.read_pages)
              (after_call w _ (read_pages-IsQuiet r m us (ds ++ d ∷ []) ks w'))
        | inr (x, e) ↦ elim (Bool-cases r.allow_partial) [
          | inl partial ↦
              rw (e, partial, Nodes.read_pages) (after_call w _ (read_pages-IsQuiet r m us ds _ w'))
          | inr strict ↦ rw (e, strict, Nodes.read_pages) (ground arith)
        ]
      ]

  read_with-IsQuiet :
      (r : Option SourceOptions) (urls : List String) (w : World)
      → IsQuiet w (Nodes.read_with o p r urls w).1
  unfolding Nodes.read_with
  read_with-IsQuiet none urls w = ground arith
  read_with-IsQuiet (some r) urls w =
      ground (arith, read_pages-IsQuiet r (page_share r (length urls)) urls [] [] w)

  read_sources-IsQuiet : (s : State) (w : World) → IsQuiet w (Nodes.read_sources o p s w).1
  read_sources-IsQuiet s w = elim (Option-cases s.brief) [
    | inl missing ↦ unfold Nodes.read_sources in rw missing (ground arith)
    | inr (b, found) ↦
        unfold Nodes.read_sources in
        rw found (read_with-IsQuiet o.sources (or_else b.brief.sources []) w)
  ]

  planner-IsQuiet : (s : State) (w : World) → IsQuiet w (Nodes.planner o p s w).1
  unfolding Nodes.planner save_prompt
  planner-IsQuiet s w = ground arith

  find_links-IsQuiet : (s : State) (w : World) → IsQuiet w (Nodes.find_links o p s w).1
  unfolding Nodes.find_links
  find_links-IsQuiet s w = ground arith

  writer-IsQuiet : (s : State) (w : World) → IsQuiet w (Nodes.writer o p s w).1
  unfolding Nodes.writer save_prompt
  writer-IsQuiet s w = ground arith

  editor-IsQuiet : (s : State) (w : World) → IsQuiet w (Nodes.editor o p s w).1
  unfolding Nodes.editor
  editor-IsQuiet s w = ground arith

  seo-IsQuiet : (s : State) (w : World) → IsQuiet w (Nodes.seo o p s w).1
  unfolding Nodes.seo
  seo-IsQuiet s w = ground arith

  duplicate_check-IsQuiet : (s : State) (w : World) → IsQuiet w (Gates.duplicate_check o p s w).1
  unfolding Gates.duplicate_check
  duplicate_check-IsQuiet s w = ground arith

  quality-IsQuiet : (s : State) (w : World) → IsQuiet w (Gates.quality o p s w).1
  unfolding Gates.quality
  quality-IsQuiet s w = ground arith

  editorial_review-IsQuiet : (s : State) (w : World) → IsQuiet w (Gates.editorial_review o p s w).1
  unfolding Gates.editorial_review
  editorial_review-IsQuiet s w = ground arith

  regenerate-IsQuiet : (s : State) (w : World) → IsQuiet w (Gates.regenerate o p s w).1
  unfolding Gates.regenerate
  regenerate-IsQuiet s w = ground arith

  classification-IsQuiet : (s : State) (w : World) → IsQuiet w (Gates.classification o p s w).1
  unfolding Gates.classification
  classification-IsQuiet s w = ground arith

  publisher-IsFramed : (s : State) (w : World) → IsFramed w (Gates.publisher o p s w).1
  unfolding Gates.publisher
  publisher-IsFramed s w = ground arith

  -- No node but the publisher sends anything, and no node touches runs, articles, decisions or
  -- notifications.
  pub body-IsQuiet :
      (n : Node) (s : State) (w : World) → (n ≡ publisher) ⊎ IsQuiet w (body o p n s w).1
  unfolding body
  body-IsQuiet read_sources s w = inr (read_sources-IsQuiet s w)
  body-IsQuiet planner s w = inr (planner-IsQuiet s w)
  body-IsQuiet find_links s w = inr (find_links-IsQuiet s w)
  body-IsQuiet writer s w = inr (writer-IsQuiet s w)
  body-IsQuiet editor s w = inr (editor-IsQuiet s w)
  body-IsQuiet seo s w = inr (seo-IsQuiet s w)
  body-IsQuiet duplicate_check s w = inr (duplicate_check-IsQuiet s w)
  body-IsQuiet quality s w = inr (quality-IsQuiet s w)
  body-IsQuiet editorial_review s w = inr (editorial_review-IsQuiet s w)
  body-IsQuiet regenerate s w = inr (regenerate-IsQuiet s w)
  body-IsQuiet classification s w = inr (classification-IsQuiet s w)
  body-IsQuiet publisher s w = inl refl

  pub body-IsFramed : (n : Node) (s : State) (w : World) → IsFramed w (body o p n s w).1
  body-IsFramed n s w = elim (body-IsQuiet n s w) [
    | inl e ↦ rw e (unfold body in publisher-IsFramed s w)
    | inr q ↦ q.frame
  ]

  pub finish_step-IsQuiet :
      (name : String) (s : State) (before : World) (r : Result Update) (w : World)
      → IsQuiet w (finish_step o p name s before r w).1
  unfolding finish_step record_step Steps.append
  finish_step-IsQuiet name s before (ok u) w = ground arith
  finish_step-IsQuiet name s before (err e) w = ground arith

  IsFramed-trans : (w w' w'' : World) → IsFramed w w' → IsFramed w' w'' → IsFramed w w''
  IsFramed-trans w w' w'' h k = ground arith

  IsFramed-refl : (w : World) → IsFramed w w
  IsFramed-refl w = ground arith

  IsFramed-quiet : (w w' w'' : World) → IsFramed w w' → IsQuiet w' w'' → IsFramed w w''
  IsFramed-quiet w w' w'' h k = IsFramed-trans w w' w'' h k.frame

  IsQuiet-trans : (w w' w'' : World) → IsQuiet w w' → IsQuiet w' w'' → IsQuiet w w''
  IsQuiet-trans w w' w'' h k = ground arith

  IsQuiet-refl : (w : World) → IsQuiet w w
  IsQuiet-refl w = ground arith

  pub step-IsFramed :
      (n : Node) (s : State) (w : World) → IsFramed w (step o p (name_of n) (body o p n) s w).1
  unfolding step
  step-IsFramed n s w = elim (Bool-cases (includes (or_else s.completed_steps []) (name_of n))) [
    | inl skipped ↦ rw skipped (IsFramed-refl w)
    | inr due ↦
        let (r, w') = body o p n s w in
        rw due
          (IsFramed-quiet w w' _ (body-IsFramed n s w) (finish_step-IsQuiet (name_of n) s w r w'))
  ]

  pub step-IsQuiet :
      (n : Node) (s : State) (w : World)
      → (n ≡ publisher) ⊎ IsQuiet w (step o p (name_of n) (body o p n) s w).1
  unfolding step
  step-IsQuiet n s w = elim (Bool-cases (includes (or_else s.completed_steps []) (name_of n))) [
    | inl skipped ↦ inr (rw skipped (IsQuiet-refl w))
    | inr due ↦
        let (r, w') = body o p n s w in
        let stored = finish_step-IsQuiet (name_of n) s w r w' in
        elim (body-IsQuiet n s w) [
          | inl e ↦ inl e
          | inr q ↦ inr (rw due (IsQuiet-trans w w' _ q stored))
        ]
  ]

  -- A run of the graph touches no run, article, decision or notification, wherever it starts and
  -- however it ends.
  pub run_from-IsFramed :
      (limit : ℕ) (n : Node) (s : State) (w : World) → IsFramed w (run_from o p limit n s w).1
  run_from-IsFramed zero n s w = unfold run_from in IsFramed-refl w
  run_from-IsFramed (suc limit) n s w =
      let w' = (step o p (name_of n) (body o p n) s w).1 in
      let first = step-IsFramed n s w in
      elim (unroll o p limit n s w) [
        | fails e h q ↦ rw q first
        | ends u h last q ↦ rw q first
        | goes u n' h more q ↦
            rw q (IsFramed-trans w w' _ first (run_from-IsFramed limit n' (merge s u) w'))
      ]
