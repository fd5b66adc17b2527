-- ===== src/Workflow/Resuming.antt =====
-- What a resumed run takes over (`restoreState` of
-- packages/graph/src/workflows/article-generation-workflow.ts).
use open_blog_agent.Prelude.{
  ◌+◌, ◌*◌, ◌≤◌, ap, ◌∙◌, ◌≡◌, refl, subst, inl, inr, String, false, Option, none, some, List, [],
  ◌∷◌, ◌++◌, arith, Bool-cases, ◌==◌, or_else, eq_iff, Bool,
}
use open_blog_agent.Types.Article.{Update, no_update}
use open_blog_agent.Storage.Models.{StepRecord}
use open_blog_agent.Workflow.Gates.{includes}
use open_blog_agent.Types.Brief.{ResolvedBrief}
use open_blog_agent.Workflow.State.{invoked, merge}
use open_blog_agent.Workflow.Ports.{Options, Ports}
use open_blog_agent.Workflow.Exec.{World}
use open_blog_agent.Workflow.Graph.{invoke}
use open_blog_agent.Workflow.Termination.{IsAnswered, invoke-IsAnswered}
use open_blog_agent.Workflow.Restore.{
  Stored, schema_of, parse, is_skipped, assign, restore_step, restore_all, restore_state,
  latest_from,
}

schema_of-none : (k : Stored) → ¬ (schema_of "regenerate" ≡ some k)
unfolding schema_of
schema_of-none k h = ground arith

schema_of-regenerate :
    (name : String) (k : Stored) → schema_of name ≡ some k → (name == "regenerate") ≡ false
schema_of-regenerate name k h = elim (Bool-cases (name == "regenerate")) [
  | inr other ↦ other
  | inl same ↦
      absurd
        (schema_of-none k (subst (λ n. schema_of n ≡ some k) ((eq_iff name "regenerate").0 same) h))
]

includes-append :
    (xs : List String) (x name : String)
    → includes xs name ≡ false
    → (x == name) ≡ false
    → includes (xs ++ x ∷ []) name ≡ false
includes-append [] x name h e = ground arith
includes-append (y ∷ ys) x name h e = ground (arith, includes-append ys x name)

restore_step-completed :
    (k : Option Stored) (s : StepRecord) (restored : Update) (completed : List String)
    → schema_of s.step ≡ k
    → includes completed "regenerate" ≡ false
    → includes (restore_step k s (restored, completed)).1 "regenerate" ≡ false
unfolding restore_step
restore_step-completed none s restored completed e h = h
restore_step-completed (some k) s restored completed e h =
    ground
      (arith, includes-append completed s.step "regenerate" h (schema_of-regenerate s.step k e))

restore_all-completed :
    (ss : List StepRecord) (restored : Update) (completed : List String)
    → includes completed "regenerate" ≡ false
    → includes (restore_all ss (restored, completed)).1 "regenerate" ≡ false
unfolding restore_all
restore_all-completed [] restored completed h = h
restore_all-completed (s ∷ ss) restored completed h =
    restore_all-completed ss _ _
      (restore_step-completed (schema_of s.step) s restored completed refl h)

-- A resumed run never takes "regenerate" for a completed step, whatever was stored.
pub restore_state-completed :
    (steps : List StepRecord)
    → includes (or_else (restore_state steps).completed_steps []) "regenerate" ≡ false
unfolding restore_state
restore_state-completed steps = restore_all-completed (latest_from [] steps) no_update [] refl

assign-is_skipped :
    (r u : Update) → is_skipped r ≡ false → is_skipped u ≡ false → is_skipped (assign r u) ≡ false
unfolding is_skipped assign
assign-is_skipped r u h k = ground arith

restore_step-kept :
    (k : Option Stored) (s : StepRecord) (restored : Update) (completed : List String)
    → is_skipped restored ≡ false
    → is_skipped (restore_step k s (restored, completed)).0 ≡ false
unfolding restore_step
restore_step-kept none s restored completed h = h
restore_step-kept (some k) s restored completed h =
    elim (Bool-cases (is_skipped (parse k (or_else s.output no_update)))) [
      | inl skip ↦ rw skip h
      | inr useful ↦
          rw useful (assign-is_skipped restored (parse k (or_else s.output no_update)) h useful)
    ]

restore_all-kept :
    (ss : List StepRecord) (restored : Update) (completed : List String)
    → is_skipped restored ≡ false
    → is_skipped (restore_all ss (restored, completed)).0 ≡ false
unfolding restore_all
restore_all-kept [] restored completed h = h
restore_all-kept (s ∷ ss) restored completed h =
    restore_all-kept ss _ _ (restore_step-kept (schema_of s.step) s restored completed h)

none_skipped : is_skipped no_update ≡ false
unfolding is_skipped
none_skipped = refl

restored-is_skipped :
    (r : Update) (completed : Option (List String))
    → is_skipped r ≡ false
    → is_skipped (record r { completed_steps = completed }) ≡ false
unfolding is_skipped
restored-is_skipped r completed h = h

-- What a resumed run takes over holds no failed publication, no duplicate and no failed gate,
-- whatever was stored: the last attempts of those steps run again.
pub restore_state-is_skipped : (steps : List StepRecord) → is_skipped (restore_state steps) ≡ false
unfolding restore_state
restore_state-is_skipped steps =
    restored-is_skipped (restore_all (latest_from [] steps) (no_update, [])).0
      (some (restore_all (latest_from [] steps) (no_update, [])).1)
      (restore_all-kept (latest_from [] steps) no_update [] none_skipped)

invoked-completed :
    (u : Update) (brief : ResolvedBrief) (force : Bool) (run : Option String)
    → or_else (invoked u brief force run).completed_steps [] ≡ or_else u.completed_steps []
unfolding invoked merge
invoked-completed u brief force run = ground arith

-- A run that is resumed from whatever steps were stored, with a limit of the graph library that
-- allows eleven nodes and six more for each regeneration, ends in a state or with the error of a
-- step, never because the limit was reached.
pub resumed-IsAnswered :
    (o : Options) (p : Ports) (steps : List StepRecord) (brief : ResolvedBrief) (force : Bool)
    (run : Option String) (w : World)
    → 11 + 6 * o.max_regenerations ≤ o.recursion_limit
    → IsAnswered (invoke o p (invoked (restore_state steps) brief force run) w).0
resumed-IsAnswered o p steps brief force run w enough =
    let open_steps =
      ap (λ l. includes l "regenerate") (invoked-completed (restore_state steps) brief force run)
      ∙ restore_state-completed steps in
    invoke-IsAnswered o p (invoked (restore_state steps) brief force run) w open_steps enough
