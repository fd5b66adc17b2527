-- ===== src/Storage/Attempts.antt =====
-- The attempt numbers of stored steps (packages/storage/src/repositories/step-repository.ts).
use open_blog_agent.Prelude.{◌<◌, ◌≡◌, true, List, [], ◌∷◌, ◌++◌, eq_iff, arith, All, All-append}
use open_blog_agent.Storage.Models.{StepRecord, Db}
use open_blog_agent.Storage.Steps
use open_blog_agent.Storage.Steps.{is_execution, last_attempt}

-- Executions of one step of one run are numbered upwards in the order in which they are stored, so
-- that the table's UNIQUE (workflow_id, step, attempt) holds.
abbrev pub IsAfter : StepRecord → StepRecord → Type 0
IsAfter s t = is_execution s.workflow_id s.step t ≡ true → s.attempt < t.attempt

abbrev pub IsNumbered : List StepRecord → Type 0
IsNumbered [] = Unit
IsNumbered (s ∷ ss) = All (IsAfter s) ss × IsNumbered ss

IsAfter-last :
    (s t : StepRecord) (ss : List StepRecord)
    → last_attempt t.workflow_id t.step (s ∷ ss) < t.attempt
    → IsAfter s t
unfolding last_attempt
IsAfter-last s t ss h same = ground (
  arith,
  eq_iff t.workflow_id s.workflow_id,
  eq_iff t.step s.step,
  eq_iff s.workflow_id t.workflow_id,
  eq_iff s.step t.step,
)

IsNumbered-append :
    (ss : List StepRecord) (t : StepRecord)
    → last_attempt t.workflow_id t.step ss < t.attempt
    → IsNumbered ss
    → IsNumbered (ss ++ t ∷ [])
unfolding last_attempt
IsNumbered-append [] t h n = (tt, tt)
IsNumbered-append (s ∷ ss) t h n = (
  All-append (IsAfter s) ss (t ∷ []) n.0 (IsAfter-last s t ss h, tt),
  IsNumbered-append ss t (omega arith) n.1,
)

-- Appending an execution numbers it after every earlier one of the same step and run, and keeps the
-- numbering of the table.
pub append-IsNumbered :
    (model : StepRecord) (db : Db) → IsNumbered db.steps → IsNumbered (Steps.append model db).steps
unfolding Steps.append
append-IsNumbered model db n = IsNumbered-append db.steps _ (omega arith) n
