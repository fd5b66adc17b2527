-- ===== src/Storage/Recovery.antt =====
-- Recovery of abandoned runs: `recoverStaleRuns` and `findStaleActive`
-- (packages/storage/src/memory/service.ts, packages/storage/src/repositories/workflow-repository.ts).
use open_blog_agent.Prelude.{
  ℕ, ◌-◌, ◌*◌, String, ◌≡◌, refl, Bool, true, false, ◌&&◌, ◌||◌, Option, none, some, List, [], ◌∷◌,
  map, ◌==◌, arith, if◌then◌else◌, any, keep, ◌∙◌,
}
use open_blog_agent.Storage.Models.{WorkflowStatus, WorkflowRecord, Db}
use open_blog_agent.Storage.Tables.{order_by, insert_by}
use open_blog_agent.Storage.Tables.Lookup.{changed}
use open_blog_agent.Storage.Workflows
use open_blog_agent.Storage.Workflows.{StatusChange, apply_change, is_stale}
use open_blog_agent.Storage.Memory.{interrupt_all, recover_stale_runs}
use open_blog_agent.Storage.Views.{run-update_status}

abbrev pub listed : String → List String → Bool
listed id ids = any (λ i. i == id) ids

-- The change that recovery writes.
abbrev pub interruption : String → StatusChange
interruption message = record {
  status = WorkflowStatus.interrupted;
  completed_at = none;
  error_message = some message;
  error_code = none;
  failed_step = none;
}

interrupt_again :
    (message : String) (now : ℕ) (o : Option WorkflowRecord)
    → changed
        (apply_change (interruption message) now)
        (changed (apply_change (interruption message) now) o)
      ≡ changed (apply_change (interruption message) now) o
unfolding apply_change
interrupt_again message now none = refl
interrupt_again message now (some w) = refl

interrupt-branches :
    (later first : Bool) (message : String) (now : ℕ) (o o' : Option WorkflowRecord)
    → o' ≡ (if first then changed (apply_change (interruption message) now) o else o)
    → (if later then changed (apply_change (interruption message) now) o' else o')
      ≡ (if first || later then changed (apply_change (interruption message) now) o else o)
interrupt-branches true true message now o o' e = rw e (interrupt_again message now o)
interrupt-branches true false message now o o' e = rw e
interrupt-branches false true message now o o' e = e
interrupt-branches false false message now o o' e = e

run-interrupt_all :
    (ids : List String) (message : String) (now : ℕ) (id : String) (db : Db)
    → Workflows.get_by_id id (interrupt_all ids message now db) ≡ (
        if listed id ids
        then changed (apply_change (interruption message) now) (Workflows.get_by_id id db)
        else Workflows.get_by_id id db)
unfolding interrupt_all
run-interrupt_all [] message now id db = refl
run-interrupt_all (i ∷ ids) message now id db =
    let db' = Workflows.update_status i (interruption message) now db in
    run-interrupt_all ids message now id db'
    ∙ interrupt-branches (listed id ids) (i == id) message now _ _
        (run-update_status i id (interruption message) now db)

steps-interrupt_all :
    (ids : List String) (message : String) (now : ℕ) (db : Db)
    → (interrupt_all ids message now db).steps ≡ db.steps
unfolding interrupt_all Workflows.update_status
steps-interrupt_all [] message now db = refl
steps-interrupt_all (i ∷ ids) message now db = steps-interrupt_all ids message now _

articles-interrupt_all :
    (ids : List String) (message : String) (now : ℕ) (db : Db)
    → (interrupt_all ids message now db).articles ≡ db.articles
unfolding interrupt_all Workflows.update_status
articles-interrupt_all [] message now db = refl
articles-interrupt_all (i ∷ ids) message now db = articles-interrupt_all ids message now _

any-insert_by :
    {A : Type 0} (before : A → A → Bool) (p : A → Bool) (r : A) (rs : List A)
    → any p (insert_by before r rs) ≡ (p r || any p rs)
unfolding insert_by
any-insert_by before p r [] = refl
any-insert_by before p r (s ∷ ss) = ground (arith, any-insert_by before p r ss)

any-order_by :
    {A : Type 0} (before : A → A → Bool) (p : A → Bool) (rs : List A)
    → any p (order_by before rs) ≡ any p rs
unfolding order_by
any-order_by before p [] = refl
any-order_by before p (r ∷ rs) =
    any-insert_by before p r (order_by before rs) ∙ rw (any-order_by before p rs)

any-map :
    {A B : Type 0} (f : A → B) (p : B → Bool) (rs : List A)
    → any p (map f rs) ≡ any (λ r. p (f r)) rs
any-map f p [] = refl
any-map f p (r ∷ rs) = rw (any-map f p rs)

any-keep :
    {A : Type 0} (q p : A → Bool) (rs : List A) → any p (keep q rs) ≡ any (λ r. p r && q r) rs
any-keep q p [] = refl
any-keep q p (r ∷ rs) = ground (arith, any-keep q p rs)

-- The runs found are those with a row that is stale: `started` or `running`, not written since the
-- cutoff, and with no step completed since the cutoff.
pub listed-find_stale_active :
    (id : String) (cutoff : ℕ) (db : Db)
    → listed id (Workflows.find_stale_active cutoff db)
      ≡ any (λ w. w.id == id && is_stale cutoff db w) db.workflows
unfolding Workflows.find_stale_active
listed-find_stale_active id cutoff db =
    any-map (λ w. w.id) (λ i. i == id) _
    ∙ any-order_by _ _ _
    ∙ any-keep (is_stale cutoff db) (λ w. w.id == id) db.workflows

-- Exactly the runs that `findStaleActive` found are interrupted, and are the ids returned; every
-- other run, every step and every article stays as it was.
pub run-recover_stale_runs :
    (minutes now written : ℕ) (message : ℕ → String) (id : String) (db : Db)
    → let (db', ids) = recover_stale_runs minutes now written message db in
      let cutoff = now - minutes * 60000 in
      (Workflows.get_by_id id db' ≡ (
        if any (λ w. w.id == id && is_stale cutoff db w) db.workflows
        then changed
            (apply_change (interruption (message cutoff)) written)
            (Workflows.get_by_id id db)
        else Workflows.get_by_id id db))
      × (listed id ids ≡ any (λ w. w.id == id && is_stale cutoff db w) db.workflows)
      × (db'.steps ≡ db.steps)
      × (db'.articles ≡ db.articles)
unfolding recover_stale_runs
run-recover_stale_runs minutes now written message id db =
    let cutoff = now - minutes * 60000 in
    let found = listed-find_stale_active id cutoff db in
    let ids = Workflows.find_stale_active cutoff db in
    (
      run-interrupt_all ids (message cutoff) written id db ∙ (rw found),
      found,
      steps-interrupt_all ids (message cutoff) written db,
      articles-interrupt_all ids (message cutoff) written db,
    )
