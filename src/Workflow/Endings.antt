-- ===== src/Workflow/Endings.antt =====
-- How a run ends (`execute` of packages/graph/src/workflows/article-generation-workflow.ts).
use open_blog_agent.Prelude.{
  ◌≡◌, refl, ◌∙◌, ◌⊎◌, inl, inr, String, Bool, true, false, not, Option, none, some, List, [], ◌∷◌,
  ◌++◌, ℕ, if◌then◌else◌, arith, Bool-cases, Option-cases, or_else, suc, ap, sym,
}
use open_blog_agent.Types.Brief.{ResolvedBrief}
use open_blog_agent.Types.Publish.{PublishResult}
use open_blog_agent.Types.Article.{QualityViolation}
use open_blog_agent.Storage.Models.{WorkflowRecord}
use open_blog_agent.Storage.Memory.{FinalStatus, as_status, finish_workflow, FinishParams}
use open_blog_agent.Storage.Workflows
use open_blog_agent.Storage.MemoryReviews.{LoadedArticle, load_article}
use open_blog_agent.Storage.Finished.{as_status-meaning, finished_article-gate_passed}
use open_blog_agent.Storage.RoundTrips.{load_article-finish_workflow}
use open_blog_agent.Workflow.State.{State}
use open_blog_agent.Workflow.Errors.{Thrown, Result, ok, err}
use open_blog_agent.Workflow.Ports.{
  Options, Ports, PublicationPolicy, publish_if_gate_passes, draft, publish_after_approval,
  Notification,
}
use open_blog_agent.Workflow.Exec.{World, Exec, ◌>>=◌, required}
use open_blog_agent.Workflow.Outcome.{
  publisher_failure, WorkflowResult, Failure, Output, published, awaiting_approval, needs_review,
  failed, duplicate, is_success, is_awaiting, failure_of, status_of, event_of,
}
use open_blog_agent.Workflow.Execute.{
  store_outcome, conclude, output_of, result_of, step_of, code_of, message_of,
}

-- What the end of a run decides, from the gate and the publisher's answer.
abbrev pub decided : PublicationPolicy → Bool → Option PublishResult → FinalStatus
decided policy true result = FinalStatus.needs_review
decided publish_after_approval false result = FinalStatus.awaiting_approval
decided draft false result =
    if is_success result then FinalStatus.awaiting_approval else FinalStatus.failed
decided publish_if_gate_passes false result =
    if is_success result then FinalStatus.published else FinalStatus.failed

-- The status that a result stands for.
abbrev pub status_in : WorkflowResult → Option FinalStatus
status_in (published output r) = some FinalStatus.published
status_in (awaiting_approval output r) = some FinalStatus.awaiting_approval
status_in (needs_review output f vs) = some FinalStatus.needs_review
status_in (failed output f r) = some FinalStatus.failed
status_in (duplicate run brief f d) = none

status_of-decided :
    (policy : PublicationPolicy) (needs : Bool) (result : Option PublishResult)
    (vs : List QualityViolation)
    → let awaiting = is_awaiting policy needs result in
      status_of needs awaiting (failure_of needs awaiting result vs) ≡ decided policy needs result
unfolding status_of failure_of is_awaiting
status_of-decided draft true result vs = ground arith
status_of-decided draft false result vs = ground arith
status_of-decided publish_after_approval true result vs = ground arith
status_of-decided publish_after_approval false result vs = ground arith
status_of-decided publish_if_gate_passes true result vs = ground arith
status_of-decided publish_if_gate_passes false result vs = ground arith

-- The result that is returned has the decided status, and there always is one.
abbrev HasStatus : FinalStatus → World → Result WorkflowResult × World → Type 0
HasStatus status w r = (res : WorkflowResult) × (r ≡ (ok res, w)) × (status_in res ≡ some status)

result_of-HasStatus :
    (policy : PublicationPolicy) (needs : Bool) (result : Option PublishResult)
    (vs : List QualityViolation) (output : Output) (w : World)
    → let awaiting = is_awaiting policy needs result in
      HasStatus
        (decided policy needs result)
        w
        (result_of needs awaiting (failure_of needs awaiting result vs) output vs result w)
unfolding result_of failure_of is_awaiting
result_of-HasStatus draft true result vs output w = (needs_review output _ vs, refl, refl)
result_of-HasStatus draft false none vs output w = (failed output _ none, refl, refl)
result_of-HasStatus draft false (some r) vs output w = elim (Bool-cases r.success) [
  | inl done ↦ (awaiting_approval output (some r), simp (done), simp (done))
  | inr other ↦ (failed output (publisher_failure (some r)) (some r), simp (other), simp (other))
]
result_of-HasStatus publish_after_approval true result vs output w =
    (needs_review output _ vs, refl, refl)
result_of-HasStatus publish_after_approval false result vs output w =
    (awaiting_approval output result, refl, refl)
result_of-HasStatus publish_if_gate_passes true result vs output w =
    (needs_review output _ vs, refl, refl)
result_of-HasStatus publish_if_gate_passes false none vs output w =
    (failed output _ none, refl, refl)
result_of-HasStatus publish_if_gate_passes false (some r) vs output w =
    elim (Bool-cases r.success) [
      | inl done ↦ (published output r, simp (done), simp (done))
      | inr other ↦
          (failed output (publisher_failure (some r)) (some r), simp (other), simp (other))
    ]

-- A value or an error, with the world as it was.
abbrev pub IsStill : {A : Type 0} → World → Result A × World → Type 0
IsStill {A} w r = ((e : Thrown) × (r ≡ (err e, w))) ⊎ ((a : A) × (r ≡ (ok a, w)))

IsStill-required :
    {A B : Type 0} (a : Option A) (field : String) (f : A → Exec B) (w : World)
    → ((x : A) → IsStill w (f x w))
    → IsStill w ((required a field >>= f) w)
IsStill-required none field f w h = inl (_, refl)
IsStill-required (some a) field f w h = h a

pub output_of-IsStill :
    (brief : ResolvedBrief) (run : Option String) (s : State) (w : World)
    → IsStill w (output_of brief run s w)
unfolding output_of
output_of-IsStill brief run s w = IsStill-required s.article _ _ w λ article.
    IsStill-required s.category _ _ w λ category. IsStill-required s.edited_text _ _ w λ edited.
      IsStill-required s.seo_output _ _ w λ seo. IsStill-required s.tags _ _ w λ tags. inr (_, refl)

module _ (o : Options) (p : Ports) (brief : ResolvedBrief) (id : String) where
  -- The end of a stored run whose graph is done: it lacks a field and nothing happens, or it returns
  -- the decided result, the run is read back with the same status, and the article with the verdict
  -- of the gate.
  pub data IsConcluded (gate : Option Bool) (sent : Option PublishResult) (w : World)
      (r : Result WorkflowResult × World) : Type 0 where
    incomplete : (e : Thrown) → r ≡ (err e, w) → IsConcluded gate sent w r
    concluded :
        (passed : Bool) (res : WorkflowResult) (l : LoadedArticle)
        → gate ≡ some passed
        → r.0 ≡ ok res
        → status_in res ≡ some (decided o.policy (not passed) sent)
        → load_article id r.1.db ≡ some l
        → l.workflow_status ≡ as_status (decided o.policy (not passed) sent)
        → l.article.gate_passed ≡ some passed
        → r.1.sent ≡ w.sent
        → IsConcluded gate sent w r

  params : Output → FinalStatus → Bool → Option PublishResult → Option Failure → FinishParams
  params output status passed result failure = record {
    workflow_id = id;
    status = status;
    topic = output.topic;
    article = output.article;
    edited_text = output.edited_text;
    seo_output = output.seo_output;
    category = output.category;
    tags = output.tags;
    publish_result = result;
    gate_passed = some passed;
    failed_step = step_of failure;
    error_code = code_of failure;
    error_message = message_of failure;
  }

  store_outcome-stored :
      (output : Output) (status : FinalStatus) (passed : Bool) (result : Option PublishResult)
      (failure : Option Failure) (w : World)
      → o.memory ≡ true
      → store_outcome o p (some id) output status passed result failure w ≡ (
        ok tt,
        record w {
          db =
              finish_workflow
                (p.uuid w.calls)
                (params output status passed result failure)
                (p.clock w.calls)
                w.db;
          calls = suc w.calls;
        },
      )
  unfolding store_outcome params
  store_outcome-stored output status passed result failure w there = rw there refl

  said :
      (b : Bool) (n : Notification) (w : World)
      → let w' = if b then record w { told = w.told ++ n ∷ [] } else w in
        (w'.db ≡ w.db) × (w'.sent ≡ w.sent)
  said true n w = (refl, refl)
  said false n w = (refl, refl)

  ended :
      (announced : Bool) (n : Notification) (output : Output) (passed : Bool)
      (result : Option PublishResult) (vs : List QualityViolation) (failure : Option Failure)
      (article_id : String) (now : ℕ) (w w' : World) (row : WorkflowRecord)
      → Workflows.get_by_id id w.db ≡ some row
      → w'.db
        ≡ finish_workflow article_id
            (params output
              (status_of
                (not passed)
                (is_awaiting o.policy (not passed) result)
                (failure_of (not passed) (is_awaiting o.policy (not passed) result) result vs))
              passed
              result
              failure)
            now
            w.db
      → w'.sent ≡ w.sent
      → IsConcluded (some passed) result w (
          result_of
            (not passed)
            (is_awaiting o.policy (not passed) result)
            (failure_of (not passed) (is_awaiting o.policy (not passed) result) result vs)
            output
            vs
            result
            (if announced then record w' { told = w'.told ++ n ∷ [] } else w'))
  unfolding params
  ended announced n output passed result vs failure aid now w w' row found db sent =
      let (res, eq, status) =
        result_of-HasStatus o.policy (not passed) result vs output
          (if announced then record w' { told = w'.told ++ n ∷ [] } else w') in
      let same = status_of-decided o.policy (not passed) result vs in
      let kept = said announced n w' in
      let given =
        params output
          (status_of (not passed) (is_awaiting o.policy (not passed) result)
            (failure_of (not passed) (is_awaiting o.policy (not passed) result) result vs))
          passed result failure in
      let read = load_article-finish_workflow aid given now w.db row found in
      rw eq (
        concluded passed res _ refl refl status (ap (load_article id) (kept.0 ∙ db) ∙ read)
          (sym (as_status-meaning given.status) ∙ ap as_status same)
          (finished_article-gate_passed aid given now _ passed refl) (kept.1 ∙ sent))

  -- The end of a stored run, when there is a store: it throws with the world as it was, or its
  -- result has the decided status, the run is read back with that status, its article with the
  -- verdict of the gate, and nothing more is sent.
  pub conclude-IsConcluded :
      (s : State) (w : World) (row : WorkflowRecord)
      → o.memory ≡ true
      → Workflows.get_by_id id w.db ≡ some row
      → IsConcluded s.quality_passed s.publish_result w (conclude o p brief (some id) s w)
  unfolding conclude
  conclude-IsConcluded s w row there found = elim (output_of-IsStill brief (some id) s w) [
    | inl (e, lost) ↦ rw lost (incomplete e refl)
    | inr (output, kept) ↦ elim (Option-cases s.quality_passed) [
      | inl missing ↦ rw (kept, missing) (incomplete _ refl)
      | inr (passed, gate) ↦
          let vs = or_else s.quality_violations [] in
          let awaiting = is_awaiting o.policy (not passed) s.publish_result in
          let failure = failure_of (not passed) awaiting s.publish_result vs in
          rw
            (
              kept,
              gate,
              store_outcome-stored output (status_of (not passed) awaiting failure) passed
                  s.publish_result failure w there,
            )
            (ended o.notifier
              (record {
                event = event_of (status_of (not passed) awaiting failure);
                workflow_id = some id;
                topic = brief.brief.topic;
                title = some output.seo_output.title;
                error_code = code_of failure;
                error_message = message_of failure;
              })
              output passed s.publish_result vs failure (p.uuid w.calls) (p.clock w.calls) w
              (record w {
                db =
                    finish_workflow (p.uuid w.calls)
                      (params output (status_of (not passed) awaiting failure) passed
                        s.publish_result failure)
                      (p.clock w.calls) w.db;
                calls = suc w.calls;
              })
              row found refl refl)
    ]
  ]
