-- ===== src/Scheduler/Deciding.antt =====
-- What a round of packages/app/src/scheduler.ts decides once it has recovered and collected.
use open_blog_agent.Prelude.{
  false, true, String, ◌≡◌, inl, inr, true, Option, none, some, List, [], arith, refl, Option-cases,
  sym, subst, Bool, suc, first, if◌then◌else◌,
}
use open_blog_agent.Types.Brief.{ArticleBrief}
use open_blog_agent.Backlog.{CandidateStatus, CandidateRow, by_id, list}
use open_blog_agent.Backlog.Getting.{first-list-by_id}
use open_blog_agent.Workflow.Errors.{Thrown, err, Result, ok, Result-cases}
use open_blog_agent.Workflow.Ports.{Options, Ports}
use open_blog_agent.Workflow.Outcome.{WorkflowResult}
use open_blog_agent.Scheduler.Round.{
  Limits, RoundPorts, Site, Act, ◌>>>◌, start_run, now_of, run_candidate, RoundOutcome, Counts,
  limit_hit, ran, nothing_to_do, limit_reached, picked, LimitReason, round_within, notify_limit,
}
use open_blog_agent.Scheduler.Allowance.{IsFree, limit_hit-IsFree, limit_hit-not_free}
use open_blog_agent.Storage.Memory.{recover_stale_runs}
use open_blog_agent.Workflow.Exec.{World}
use open_blog_agent.Scheduler.Starting.{
  then-ok, then-err, IsExecuted, IsStarted, not_started, executed, start_run-IsStarted,
}

module _ (o : Options) (p : Ports) (c : Limits) (q : RoundPorts) where
  -- the world and the candidates after the recovery of stale runs and the collection, if it is wanted
  abbrev pub recovered_world : World → World
  recovered_world w =
      let now = p.clock w.calls in
      record w {
        db =
            if o.memory
            then (recover_stale_runs c.stale_after_minutes now now q.stale_message w.db).0
            else w.db;
      }

  abbrev pub recovered_ids : World → List String
  recovered_ids w =
      let now = p.clock w.calls in
      if o.memory
      then (recover_stale_runs c.stale_after_minutes now now q.stale_message w.db).1
      else []

  abbrev pub gathered_world : Bool → World → World
  gathered_world false w = recovered_world w
  gathered_world true w = record (recovered_world w) { calls = suc w.calls }

  abbrev pub gathered : Bool → World → List CandidateRow → List CandidateRow
  gathered false w rows = rows
  gathered true w rows = (q.collect w.calls rows).1

  -- what the collection answers: nothing where it is not wanted
  abbrev pub counts_of : Result Counts → Result (Option Counts)
  counts_of (ok counts) = ok (some counts)
  counts_of (err e) = err e

  abbrev pub collected : Bool → World → List CandidateRow → Result (Option Counts)
  collected false w rows = ok none
  collected true w rows = counts_of (q.collect w.calls rows).0

  -- the accepted candidate that comes first
  abbrev pub best : List CandidateRow → Option CandidateRow
  best rows = first (list (some CandidateStatus.accepted) (some 1) rows)

  abbrev pub Free : World → Type 0
  Free w = IsFree c q.minute (p.clock w.calls) w.db

  -- what a round answers where the execution of a run answered `r`
  abbrev pub reported :
      List String → Option Counts → CandidateRow → Result WorkflowResult → Result RoundOutcome
  reported ids counts candidate (ok result) = ok (ran ids counts candidate result)
  reported ids counts candidate (err e) = err e

  -- What a round that may go on decides, in the world `w` with the candidates `rows`.
  pub data IsDecided (ids : List String) (counts : Option Counts) (w : World)
      (rows : List CandidateRow) (r : Result RoundOutcome × Site) : Type 0 where
    limited :
        (reason : LimitReason)
        → (Free w → ⊥)
        → r.0 ≡ ok (limit_reached ids counts reason)
        → r.1.world ≡ w
        → r.1.candidates ≡ rows
        → IsDecided ids counts w rows r
    nothing :
        Free w
        → best rows ≡ none
        → r.0 ≡ ok (nothing_to_do ids counts)
        → r.1.world ≡ w
        → r.1.candidates ≡ rows
        → IsDecided ids counts w rows r
    not_executed :
        (candidate : CandidateRow) (e : Thrown)
        → Free w
        → best rows ≡ some candidate
        → r.0 ≡ err e
        → r.1.world.sent ≡ w.sent
        → IsDecided ids counts w rows r
    executed_for :
        (candidate : CandidateRow) (brief : ArticleBrief) (res : Result WorkflowResult)
        → Free w
        → best rows ≡ some candidate
        → q.parse_brief candidate ≡ ok brief
        → IsExecuted o p candidate brief w (res, r.1)
        → r.0 ≡ reported ids counts candidate res
        → IsDecided ids counts w rows r

  pub sent-gathered : (wants : Bool) (w : World) → (gathered_world wants w).sent ≡ w.sent
  sent-gathered false w = refl
  sent-gathered true w = refl

  -- what is returned after the run of a candidate
  abbrev report : List String → Option Counts → CandidateRow → WorkflowResult → Act RoundOutcome
  report ids counts candidate result s = (ok (ran ids counts candidate result), s)

  reported-IsDecided :
      (ids : List String) (counts : Option Counts) (s : Site) (candidate : CandidateRow)
      (brief : ArticleBrief) (m : Act WorkflowResult)
      → Free s.world
      → best s.candidates ≡ some candidate
      → q.parse_brief candidate ≡ ok brief
      → IsStarted o p c q candidate brief s (m s)
      → IsDecided ids counts s.world s.candidates ((m >>> report ids counts candidate) s)
  reported-IsDecided ids counts s candidate brief m free h parsed (not_started e thrown quiet) =
      subst (IsDecided ids counts s.world s.candidates)
        (sym (then-err m (report ids counts candidate) s e thrown))
        (not_executed candidate e free h refl quiet)
  reported-IsDecided ids counts s candidate brief m free h parsed (executed run) =
      elim (Result-cases (m s).0) [
        | inl (res, returned) ↦
            subst (IsDecided ids counts s.world s.candidates)
              (sym (then-ok m (report ids counts candidate) s res returned))
              (executed_for candidate brief (ok res) free h parsed
                (subst
                  (λ (x : Result WorkflowResult).
                    IsExecuted o p candidate brief s.world (x, (m s).1))
                  returned run)
                refl)
        | inr (e, thrown) ↦
            subst (IsDecided ids counts s.world s.candidates)
              (sym (then-err m (report ids counts candidate) s e thrown))
              (executed_for candidate brief (err e) free h parsed
                (subst
                  (λ (x : Result WorkflowResult).
                    IsExecuted o p candidate brief s.world (x, (m s).1))
                  thrown run)
                refl)
      ]

  started-IsDecided :
      (ids : List String) (counts : Option Counts) (s : Site) (candidate : CandidateRow)
      (brief : ArticleBrief)
      → Free s.world
      → best s.candidates ≡ some candidate
      → q.parse_brief candidate ≡ ok brief
      → IsDecided ids counts s.world s.candidates
          ((start_run o p c q candidate brief >>> report ids counts candidate) s)
  started-IsDecided ids counts s candidate brief free h parsed =
      elim (Option-cases (by_id candidate.id s.candidates)) [
        | inl missing ↦
            absurd (first-list-by_id CandidateStatus.accepted 1 s.candidates candidate h missing)
        | inr (x, found) ↦
            reported-IsDecided ids counts s candidate brief (start_run o p c q candidate brief) free
              h parsed (start_run-IsStarted o p c q candidate x brief s found)
      ]

  run_candidate-IsDecided :
      (ids : List String) (counts : Option Counts) (s : Site) (found : Option CandidateRow)
      → Free s.world
      → best s.candidates ≡ found
      → IsDecided ids counts s.world s.candidates (run_candidate o p c q ids counts found s)
  unfolding run_candidate
  run_candidate-IsDecided ids counts s none free h = nothing free h refl refl refl
  run_candidate-IsDecided ids counts s (some candidate) free h =
      elim (Result-cases (q.parse_brief candidate)) [
        | inr (e, bad) ↦ rw (bad, run_candidate) (not_executed candidate e free h refl refl)
        | inl (brief, parsed) ↦
            rw (parsed, run_candidate)
              (started-IsDecided ids counts s candidate brief free h parsed)
      ]

  world-notify_limit :
      (reason : LimitReason) (s : Site) → (notify_limit o p c q reason s).world ≡ s.world
  world-notify_limit reason s = ground arith

  candidates-notify_limit :
      (reason : LimitReason) (s : Site) → (notify_limit o p c q reason s).candidates ≡ s.candidates
  candidates-notify_limit reason s = ground arith

  pub round_within-IsDecided :
      (ids : List String) (counts : Option Counts) (s : Site) (limit : Option LimitReason)
      → limit_hit c q.minute (now_of o p c q s) s.world.db ≡ limit
      → IsDecided ids counts s.world s.candidates (round_within o p c q ids counts limit s)
  unfolding round_within
  round_within-IsDecided ids counts s none h =
      run_candidate-IsDecided ids counts s (picked o p c q s)
        (limit_hit-IsFree c q.minute (now_of o p c q s) s.world.db h) refl
  round_within-IsDecided ids counts s (some reason) h =
      limited reason (limit_hit-not_free c q.minute (now_of o p c q s) s.world.db reason h) refl
        (world-notify_limit reason s) (candidates-notify_limit reason s)
