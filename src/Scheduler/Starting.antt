-- ===== src/Scheduler/Starting.antt =====
-- How a round of packages/app/src/scheduler.ts starts and executes a run.
use open_blog_agent.Prelude.{
  true, not, ◌&&◌, String, ◌≡◌, ◌≢◌, inl, inr, true, ◌&&◌, not, Option, none, some, List, arith,
  refl, Bool-cases, Option-cases, ap, ◌∙◌, sym, subst,
}
use open_blog_agent.Types.Brief.{ArticleBrief}
use open_blog_agent.Storage.Memory.{StartResult}
use open_blog_agent.Backlog.{CandidateRow, Outcome, done, refused, by_id}
use open_blog_agent.Types.Article.{no_update}
use open_blog_agent.Types.Usage.{empty_usage}
use open_blog_agent.Workflow.Begin.{topic_duplicate}
use open_blog_agent.Backlog.Decide.{mark_used}
use open_blog_agent.Workflow.Errors.{Thrown, Result, ok, err, Result-cases}
use open_blog_agent.Workflow.Ports.{Options, Ports}
use open_blog_agent.Workflow.Exec.{World}
use open_blog_agent.Workflow.Outcome.{WorkflowResult}
use open_blog_agent.Workflow.Begin.{PendingRun, begin, resolve_brief, register, execute_pending}
use open_blog_agent.Workflow.Publications.{
  IsModest, IsModest-before, unsent, execute-IsModest, sent-stop_as_duplicate,
}
use open_blog_agent.Scheduler.Round.{
  Limits, RoundPorts, Site, Act, of_workflow, ◌>>>◌, settle_mark, mark, start_run, now_of,
}
use open_blog_agent.Scheduler.Marking.{IsUsedBy, mark_used-IsUsedBy}

module _ (o : Options) (p : Ports) where
  sent-begin : (b : ArticleBrief) (w : World) → (begin o p b none w).1.sent ≡ w.sent
  unfolding begin resolve_brief register
  sent-begin b w = ground arith

  begin-stored :
      (b : ArticleBrief) (w : World) (pending : PendingRun)
      → o.memory ≡ true
      → (begin o p b none w).0 ≡ ok pending
      → pending.stored ≢ none
  unfolding begin resolve_brief register
  begin-stored b w pending m h = ground arith

  execute_pending-IsModest : (r : PendingRun) (w : World) → IsModest o w (execute_pending o p r w).1
  unfolding execute_pending
  execute_pending-IsModest r w = elim (Option-cases r.stored) [
    | inl e ↦ rw e (execute-IsModest o p r.brief none r.force no_update empty_usage w)
    | inr (started, e) ↦ elim (Bool-cases (started.is_duplicate && not r.force)) [
      | inl dup ↦
          rw (e, dup)
            (unsent (
              sent-stop_as_duplicate o p r.brief (some started.workflow_id)
                (topic_duplicate started) "duplicate_topic_check" w))
      | inr fresh ↦
          rw (e, fresh)
            (execute-IsModest o p r.brief (some started.workflow_id) r.force no_update empty_usage
              w)
    ]
  ]

pub then-ok :
    {A B : Type 0} (m : Act A) (f : A → Act B) (s : Site) (a : A)
    → (m s).0 ≡ ok a
    → (m >>> f) s ≡ f a (m s).1
then-ok m f s a h = rw (h, ◌>>>◌) refl

pub then-err :
    {A B : Type 0} (m : Act A) (f : A → Act B) (s : Site) (e : Thrown)
    → (m s).0 ≡ err e
    → (m >>> f) s ≡ (err e, (m s).1)
then-err m f s e h = rw (h, ◌>>>◌) refl

-- A run was begun for the brief and executed, and the result is what the execution answered: at most
-- one article was sent, with the status of the policy, and where runs are stored the candidate is used
-- by that run.
pub record IsExecuted (o : Options) (p : Ports) (candidate : CandidateRow) (brief : ArticleBrief)
    (w : World) (r : Result WorkflowResult × Site) : Type 0 where
  pub pending : PendingRun
  pub begins : (begin o p brief none w).0 ≡ ok pending
  pub answer : r.0 ≡ (execute_pending o p pending (begin o p brief none w).1).0
  pub world : r.1.world ≡ (execute_pending o p pending (begin o p brief none w).1).1
  pub modest : IsModest o w r.1.world
  pub marked :
      o.memory ≡ true
      → (run : StartResult) × (pending.stored ≡ some run)
        × IsUsedBy candidate.id run.workflow_id r.1.candidates

module _ (o : Options) (p : Ports) (c : Limits) (q : RoundPorts) where
  settle_mark-world :
      (m : Outcome CandidateRow × List CandidateRow) (s : Site)
      → (settle_mark m s).1.world ≡ s.world
  unfolding settle_mark
  settle_mark-world (done row, rows) s = refl
  settle_mark-world (refused code, rows) s = refl

  settle_mark-done :
      (m : Outcome CandidateRow × List CandidateRow) (s : Site)
      → (settle_mark m s).0 ≡ ok tt
      → (row : CandidateRow) × (m.0 ≡ done row) × ((settle_mark m s).1.candidates ≡ m.1)
  unfolding settle_mark
  settle_mark-done (done row, rows) s h = (row, refl, refl)
  settle_mark-done (refused code, rows) s h = ground arith

  mark-world :
      (id : String) (st : Option StartResult) (s : Site) → (mark o p c q id st s).1.world ≡ s.world
  unfolding mark
  mark-world id none s = refl
  mark-world id (some started) s =
      settle_mark-world (mark_used id started.workflow_id (now_of o p c q s) s.candidates) s

  mark-IsUsedBy :
      (id : String) (started : StartResult) (s : Site) (x : CandidateRow)
      → by_id id s.candidates ≡ some x
      → (mark o p c q id (some started) s).0 ≡ ok tt
      → IsUsedBy id started.workflow_id (mark o p c q id (some started) s).1.candidates
  unfolding mark
  mark-IsUsedBy id started s x found h =
      let now = now_of o p c q s in
      let m = mark_used id started.workflow_id now s.candidates in
      let d = settle_mark-done m s h in
      subst (IsUsedBy id started.workflow_id) (sym d.2)
        (mark_used-IsUsedBy id started.workflow_id now s.candidates x d.0 found d.1)

  abbrev begun : ArticleBrief → Site → Site
  begun brief s = record s { world = (begin o p brief none s.world).1 }

  -- What starting a run for a candidate does: nothing was sent and it throws, or the run was executed.
  pub data IsStarted (candidate : CandidateRow) (brief : ArticleBrief) (s : Site)
      (r : Result WorkflowResult × Site) : Type 0 where
    not_started :
        (e : Thrown) → r.0 ≡ err e → r.1.world.sent ≡ s.world.sent → IsStarted candidate brief s r
    executed : IsExecuted o p candidate brief s.world r → IsStarted candidate brief s r

  marked-IsExecuted :
      (candidate x : CandidateRow) (brief : ArticleBrief) (s : Site) (pending : PendingRun)
      → by_id candidate.id s.candidates ≡ some x
      → (begin o p brief none s.world).0 ≡ ok pending
      → (mark o p c q candidate.id pending.stored (begun brief s)).0 ≡ ok tt
      → IsExecuted o p candidate brief s.world (
          of_workflow
            (execute_pending o p pending)
            (mark o p c q candidate.id pending.stored (begun brief s)).1)
  marked-IsExecuted candidate x brief s pending found started marked =
      let s2 = (mark o p c q candidate.id pending.stored (begun brief s)).1 in
      let same : s2.world.sent ≡ s.world.sent =
        ap (λ (w : World). w.sent) (mark-world candidate.id pending.stored (begun brief s))
        ∙ sent-begin o p brief s.world in
      let began : s2.world ≡ (begin o p brief none s.world).1 =
        mark-world candidate.id pending.stored (begun brief s) in
      record {
        pending = pending;
        begins = started;
        answer = ap (λ (w : World). (execute_pending o p pending w).0) began;
        world = ap (λ (w : World). (execute_pending o p pending w).1) began;
        modest =
            IsModest-before o s.world s2.world _ same
              (execute_pending-IsModest o p pending s2.world);
        marked = λ m. elim (Option-cases pending.stored) [
          | inl missing ↦ absurd (begin-stored o p brief s.world pending m started missing)
          | inr there ↦ (
            there.0,
            there.1,
            subst
                (λ st.
                  IsUsedBy candidate.id there.0.workflow_id
                    (mark o p c q candidate.id st (begun brief s)).1.candidates)
                (sym there.1)
                (mark-IsUsedBy candidate.id there.0 (begun brief s) x found (
                  subst (λ st. (mark o p c q candidate.id st (begun brief s)).0 ≡ ok tt) there.1
                    marked)),
          )
        ];
      }

  -- what follows the begin of a run
  abbrev go_on : CandidateRow → PendingRun → Act WorkflowResult
  go_on candidate pending =
      mark o p c q candidate.id pending.stored >>> λ _. of_workflow (execute_pending o p pending)

  go_on-IsStarted :
      (candidate x : CandidateRow) (brief : ArticleBrief) (s : Site) (pending : PendingRun)
      → by_id candidate.id s.candidates ≡ some x
      → (begin o p brief none s.world).0 ≡ ok pending
      → IsStarted candidate brief s (go_on candidate pending (begun brief s))
  go_on-IsStarted candidate x brief s pending found h =
      let m = mark o p c q candidate.id pending.stored in
      let f = λ (_ : Unit {0}). of_workflow (execute_pending o p pending) in
      elim (Result-cases (m (begun brief s)).0) [
        | inr (e, thrown) ↦
            subst (IsStarted candidate brief s) (sym (then-err m f (begun brief s) e thrown)) (
              not_started e refl (
                ap (λ (w : World). w.sent) (mark-world candidate.id pending.stored (begun brief s))
                ∙ sent-begin o p brief s.world))
        | inl (_, marked) ↦
            subst (IsStarted candidate brief s) (sym (then-ok m f (begun brief s) tt marked))
              (executed (marked-IsExecuted candidate x brief s pending found h marked))
      ]

  pub start_run-IsStarted :
      (candidate x : CandidateRow) (brief : ArticleBrief) (s : Site)
      → by_id candidate.id s.candidates ≡ some x
      → IsStarted candidate brief s (start_run o p c q candidate brief s)
  unfolding start_run
  start_run-IsStarted candidate x brief s found =
      let m = of_workflow (begin o p brief none) in
      elim (Result-cases (m s).0) [
        | inr (e, thrown) ↦
            subst (IsStarted candidate brief s) (sym (then-err m (go_on candidate) s e thrown))
              (not_started e refl (sent-begin o p brief s.world))
        | inl (pending, h) ↦
            subst (IsStarted candidate brief s) (sym (then-ok m (go_on candidate) s pending h))
              (go_on-IsStarted candidate x brief s pending found h)
      ]
