-- ===== src/Storage/Workflows.antt =====
-- packages/storage/src/repositories/workflow-repository.ts
use open_blog_agent.Prelude.{
  ℕ, String, Bool, true, false, not, ◌&&◌, ◌==◌, Option, List, map, keep, find, any, take, ltb, leb,
}
use open_blog_agent.Prelude.{first}
use open_blog_agent.Storage.Models.{
  WorkflowStatus, started, running, published, awaiting_approval, WorkflowRecord, StepRecord, Db,
}
use open_blog_agent.Storage.Tables.{update_where, upsert, order_by, null_ltb, then_by}

abbrev pub has_id : String → WorkflowRecord → Bool
has_id id w = w.id == id

unfoldable pub get_by_id : String → Db → Option WorkflowRecord
get_by_id id db = find (has_id id) db.workflows

-- on a conflict every column but `id` and `created_at` is replaced
unfoldable pub save : WorkflowRecord → Db → Db
unfolding upsert
save model db = record db {
  workflows =
      upsert (has_id model.id) (λ w. record model { id = w.id; created_at = w.created_at }) model
        db.workflows;
}

unfoldable pub counts_as_original : WorkflowStatus → Bool
counts_as_original published = true
counts_as_original awaiting_approval = true
counts_as_original _ = false

-- ORDER BY completed_at ASC, created_at ASC
unfoldable pub completed_before : WorkflowRecord → WorkflowRecord → Bool
unfolding null_ltb
completed_before a b =
    then_by (null_ltb a.completed_at b.completed_at) (not (null_ltb b.completed_at a.completed_at))
      (ltb a.created_at b.created_at)

unfoldable pub find_first_published_by_topic : String → Db → Option WorkflowRecord
find_first_published_by_topic topic db = first (
    order_by completed_before
      (keep (λ w. w.topic_normalized == topic && counts_as_original w.status) db.workflows))

-- ORDER BY created_at DESC, rowid DESC: later rows stand before earlier ones of the same time
unfoldable pub newest_first : WorkflowRecord → WorkflowRecord → Bool
newest_first a b = leb b.created_at a.created_at

unfoldable pub list_recent : ℕ → Db → List WorkflowRecord
list_recent limit db = take limit (order_by newest_first db.workflows)

unfoldable pub is_active : WorkflowStatus → Bool
is_active started = true
is_active running = true
is_active _ = false

-- The WHERE clause of `findStaleActive`.
unfoldable pub is_stale : ℕ → Db → WorkflowRecord → Bool
unfolding is_active
is_stale cutoff db w =
    is_active w.status
    && (ltb w.updated_at cutoff
        && not
            (any (λ (s : StepRecord). s.workflow_id == w.id && leb cutoff s.completed_at) db.steps))

unfoldable pub find_stale_active : ℕ → Db → List String
find_stale_active cutoff db =
    map (λ w. w.id)
      (order_by (λ a b. ltb a.created_at b.created_at) (keep (is_stale cutoff db) db.workflows))

unfoldable pub mark_duplicate : String → Option String → ℕ → Db → Db
unfolding update_where
mark_duplicate id original now db = record db {
  workflows =
      update_where (has_id id)
        (λ w. record w {
          is_duplicate = true;
          duplicate_of_workflow_id = original;
          updated_at = now;
        })
        db.workflows;
}

-- What a call of `updateStatus` writes.
pub record StatusChange : Type 0 where
  pub status : WorkflowStatus
  pub completed_at : Option ℕ
  pub error_message : Option String
  pub error_code : Option String
  pub failed_step : Option String

unfoldable pub apply_change : StatusChange → ℕ → WorkflowRecord → WorkflowRecord
apply_change c now w = record w {
  status = c.status;
  completed_at = c.completed_at;
  error_message = c.error_message;
  error_code = c.error_code;
  failed_step = c.failed_step;
  updated_at = now;
}

unfoldable pub update_status : String → StatusChange → ℕ → Db → Db
unfolding update_where apply_change
update_status id c now db = record db {
  workflows = update_where (has_id id) (apply_change c now) db.workflows;
}
