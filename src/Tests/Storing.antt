-- ===== src/Tests/Storing.antt =====
-- The theorems on the store (packages/storage/src) at concrete inputs.
use open_blog_agent.Prelude.{
  ◌+◌, ◌-◌, ◌*◌, ◌≡◌, refl, ◌↔◌, true, false, ◌&&◌, ◌==◌, some, [], ◌∷◌, any, All, Member,
  if◌then◌else◌,
}
use open_blog_agent.Storage.Models.{WorkflowStatus, ReviewState, reject, Db}
use open_blog_agent.Storage.Workflows
use open_blog_agent.Storage.Workflows.{apply_change, completed_before, is_stale}
use open_blog_agent.Storage.Articles
use open_blog_agent.Storage.Steps
use open_blog_agent.Storage.Tables.{order_by}
use open_blog_agent.Storage.Tables.Lookup.{changed}
use open_blog_agent.Storage.Memory.{
  begin_workflow, recover_stale_runs, finish_workflow, publish_remote,
}
use open_blog_agent.Storage.MemoryReviews.{
  LoadedArticle, load_article, reject_workflow, complete_approval,
}
use open_blog_agent.Storage.Finished.{meaning, finished_article}
use open_blog_agent.Storage.RoundTrips.{
  load_article-finish_workflow, load_article-reject_workflow, load_article-complete_approval,
}
use open_blog_agent.Storage.Duplicates.{
  is_original, hits, find_first_published_by_topic-some, begin_workflow-is_duplicate_iff,
  hits-begin_workflow,
}
use open_blog_agent.Storage.Recovery.{interruption, listed, run-recover_stale_runs}
use open_blog_agent.Storage.Attempts.{IsNumbered, append-IsNumbered}
use open_blog_agent.Tests.Data.{db, run_row, article_row, step_row, metadata, finish_params, result}

run_found : Workflows.get_by_id "run-1" db ≡ some run_row
unfolding Workflows.get_by_id
run_found = refl

abbrev loaded : LoadedArticle
loaded = record { workflow_status = WorkflowStatus.awaiting_approval; article = article_row }

article_found : load_article "run-1" db ≡ some loaded
unfolding load_article Workflows.get_by_id Articles.get_by_workflow_id
article_found = refl

load_article-finish_workflow_example :
    load_article "run-1" (finish_workflow "article-2" finish_params 9 db)
    ≡ some (record {
      workflow_status = (meaning finish_params.status).run;
      article =
          finished_article "article-2" finish_params 9 (Articles.get_by_workflow_id "run-1" db);
    })
load_article-finish_workflow_example =
    load_article-finish_workflow "article-2" finish_params 9 db run_row run_found

load_article-reject_workflow_example :
    let db' = reject_workflow "decision-1" "run-1" "ann" "dull" 9 db in
    (load_article "run-1" db'
      ≡ some (record {
        workflow_status = WorkflowStatus.rejected;
        article = record article_row { review_state = ReviewState.rejected; updated_at = 9 };
      }))
    × (db'.decisions
        ≡ record {
          id = "decision-1";
          workflow_id = "run-1";
          action = reject;
          actor = "ann";
          note = "dull";
          created_at = 9;
        }
          ∷ [])
load_article-reject_workflow_example =
    load_article-reject_workflow "run-1" 9 db "decision-1" "ann" "dull" loaded article_found

load_article-complete_approval_example :
    load_article "run-1" (complete_approval "run-1" result 9 db)
    ≡ some (record {
      workflow_status = WorkflowStatus.published;
      article = record article_row {
        review_state = ReviewState.published;
        publish_result = some result;
        publish_remote_id = (publish_remote (some result)).id;
        publish_remote_url = (publish_remote (some result)).url;
        publish_remote_status = (publish_remote (some result)).status;
        updated_at = 9;
      };
    })
load_article-complete_approval_example =
    load_article-complete_approval "run-1" 9 db result loaded article_found

begin_workflow-is_duplicate_iff_example :
    ((begin_workflow (λ s. s) "run-2" "topic-1" "w" "cats" metadata 9 db).1.is_duplicate ≡ true)
    ↔ (any (is_original "cats") db.workflows ≡ true)
begin_workflow-is_duplicate_iff_example =
    begin_workflow-is_duplicate_iff (λ s. s) "run-2" "topic-1" "w" "cats" metadata 9 db

original_found : Workflows.find_first_published_by_topic "cats" db ≡ some run_row
unfolding Workflows.find_first_published_by_topic order_by Workflows.counts_as_original
original_found = refl

find_first_published_by_topic-some_example :
    Member run_row db.workflows
    × (is_original "cats" run_row ≡ true)
    × All (λ v. is_original "cats" v ≡ true → completed_before v run_row ≡ false) db.workflows
find_first_published_by_topic-some_example =
    find_first_published_by_topic-some "cats" db run_row original_found

hits-begin_workflow_example :
    hits "cats" (begin_workflow (λ s. s) "run-2" "topic-1" "w" "cats" metadata 9 db).0
    ≡ hits "cats" db + (if "cats" == "cats" then 1 else 0)
hits-begin_workflow_example =
    hits-begin_workflow (λ s. s) "run-2" "topic-1" "w" "cats" "cats" metadata 9 db

abbrev stale_db : Db
stale_db = record db { workflows = record run_row { status = WorkflowStatus.running } ∷ [] }

run-recover_stale_runs_example :
    let (db', ids) = recover_stale_runs 1 90000 90001 (λ n. "stale") stale_db in
    let cutoff = 90000 - 1 * 60000 in
    (Workflows.get_by_id "run-1" db' ≡ (
      if any (λ w. w.id == "run-1" && is_stale cutoff stale_db w) stale_db.workflows
      then changed
          (apply_change (interruption "stale") 90001)
          (Workflows.get_by_id "run-1" stale_db)
      else Workflows.get_by_id "run-1" stale_db))
    × (listed "run-1" ids
        ≡ any (λ w. w.id == "run-1" && is_stale cutoff stale_db w) stale_db.workflows)
    × (db'.steps ≡ stale_db.steps)
    × (db'.articles ≡ stale_db.articles)
run-recover_stale_runs_example =
    run-recover_stale_runs 1 90000 90001 (λ n. "stale") "run-1" stale_db

append-IsNumbered_example : IsNumbered (Steps.append step_row db).steps
append-IsNumbered_example = append-IsNumbered step_row db (tt, tt)
