-- ===== src/Storage/RoundTrips.antt =====
-- What is read back after a run is finished, rejected or approved
-- (packages/storage/src/memory/service.ts).
use open_blog_agent.Prelude.{
  ℕ, String, ◌≡◌, refl, Option, none, some, ◌++◌, ◌∷◌, [], eq_refl, arith, if◌then◌else◌,
  Bool-cases, inl, inr,
}
use open_blog_agent.Types.Publish.{PublishResult}
use open_blog_agent.Storage.Models.{
  WorkflowStatus, ReviewState, WorkflowRecord, ArticleRecord, Db, reject,
}
use open_blog_agent.Storage.Workflows
use open_blog_agent.Storage.Workflows.{apply_change}
use open_blog_agent.Storage.Articles
use open_blog_agent.Storage.Finished.{
  meaning, as_status-meaning, finished_article, article-finish_workflow, run-finish_workflow,
}
use open_blog_agent.Storage.Memory.{FinishParams, finish_workflow, publish_remote}
use open_blog_agent.Storage.MemoryReviews.{
  LoadedArticle, both_loaded, load_article, complete_approval, reject_workflow, append_decision,
}
use open_blog_agent.Storage.Steps
use open_blog_agent.Storage.Views.{views}

both_loaded-eq-some :
    (w : Option WorkflowRecord) (a : Option ArticleRecord) (l : LoadedArticle)
    → both_loaded w a ≡ some l
    → (w' : WorkflowRecord) × (a' : ArticleRecord) × (w ≡ some w')
      × (a ≡ some a')
      × (l ≡ record { workflow_status = w'.status; article = a' })
both_loaded-eq-some (some w) (some a) l e = (w, a, refl, refl, ground arith)
both_loaded-eq-some (some w) none l e = cc
both_loaded-eq-some none a l e = cc

module _ (id : String) (p : FinishParams) (now : ℕ) (db : Db) where
  -- A finished run is read back with its final status and exactly the article that was given: its
  -- texts, metadata, tags and publication, reviewed and passed as the final status says, under the id
  -- and the creation time of the article that was stored, if there was one.
  pub load_article-finish_workflow :
      (w : WorkflowRecord)
      → Workflows.get_by_id p.workflow_id db ≡ some w
      → load_article p.workflow_id (finish_workflow id p now db)
        ≡ some (record {
          workflow_status = (meaning p.status).run;
          article = finished_article id p now (Articles.get_by_workflow_id p.workflow_id db);
        })
  unfolding load_article apply_change
  load_article-finish_workflow w e =
      simp (run-finish_workflow, article-finish_workflow, e, as_status-meaning)

module _ (workflow_id : String) (now : ℕ) (db : Db) where
  -- A rejected article is read back as rejected, in a rejected run, with nothing else of its text
  -- changed; and the decision is the last one stored.
  pub load_article-reject_workflow :
      (id actor note : String) (l : LoadedArticle)
      → load_article workflow_id db ≡ some l
      → let db' = reject_workflow id workflow_id actor note now db in
        (load_article workflow_id db'
          ≡ some (record {
            workflow_status = WorkflowStatus.rejected;
            article = record l.article { review_state = ReviewState.rejected; updated_at = now };
          }))
        × (db'.decisions
            ≡ db.decisions
              ++ record {
                id = id;
                workflow_id = workflow_id;
                action = reject;
                actor = actor;
                note = note;
                created_at = now;
              }
                ∷ [])
  unfolding load_article reject_workflow append_decision apply_change
  load_article-reject_workflow id actor note l e =
      let (w, a, found, stored, same) = both_loaded-eq-some _ _ l e in
      (
        rw (same) (simp (views, eq_refl, found, stored)),
        unfold Articles.mark_rejected Workflows.update_status Steps.append_decision in refl,
      )

  -- An approval that was published makes the run and its article published; one that was not leaves
  -- the status of the run as it was and the article approved. The rest of the article stays.
  pub load_article-complete_approval :
      (result : PublishResult) (l : LoadedArticle)
      → load_article workflow_id db ≡ some l
      → load_article workflow_id (complete_approval workflow_id result now db)
        ≡ some (record {
          workflow_status = if result.success then WorkflowStatus.published else l.workflow_status;
          article = record l.article {
            review_state = if result.success then ReviewState.published else ReviewState.approved;
            publish_result = some result;
            publish_remote_id = (publish_remote (some result)).id;
            publish_remote_url = (publish_remote (some result)).url;
            publish_remote_status = (publish_remote (some result)).status;
            updated_at = now;
          };
        })
  unfolding load_article complete_approval apply_change
  load_article-complete_approval result l e =
      let (w, a, found, stored, same) = both_loaded-eq-some _ _ l e in
      elim (Bool-cases result.success) [
        | inl done ↦ rw (same, done) (simp (views, eq_refl, found, stored))
        | inr other ↦ rw (same, other) (simp (views, eq_refl, found, stored))
      ]
