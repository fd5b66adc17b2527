-- ===== src/Scheduler/Round.antt =====
-- packages/app/src/scheduler.ts: one round of the scheduler. The collection of candidates, the
-- parsing of a stored brief and the local time are ports; log lines are left out.
use open_blog_agent.Prelude.{
  ℕ, ◌*◌, ◌-◌, suc, String, Bool, true, false, ◌&&◌, ◌||◌, not, Option, none, some, List, [], ◌∷◌,
  ◌++◌, ltb, leb, if◌then◌else◌, first,
}
use open_blog_agent.Types.Brief.{ArticleBrief}
use open_blog_agent.Storage.Models.{Db}
use open_blog_agent.Storage.Memory.{StartResult, recover_stale_runs}
use open_blog_agent.Backlog.{
  CandidateStatus, CandidateRow, BacklogErrorCode, not_found, ambiguous_id, invalid_state, Outcome,
  done, refused, list,
}
use open_blog_agent.Backlog.Decide.{mark_used}
use open_blog_agent.Scheduler.{
  Lock, LockResult, acquired, held, acquire_lock, release_lock, usage_since,
}
use open_blog_agent.Workflow.Errors.{Result, ok, err, coded_error}
use open_blog_agent.Workflow.Ports.{Options, Ports}
use open_blog_agent.Workflow.Exec.{World, Exec}
use open_blog_agent.Workflow.Outcome.{WorkflowResult}
use open_blog_agent.Workflow.Begin.{begin, execute_pending}

pub data LimitReason : Type 0 where
  outside_window max_runs_per_day max_cost_per_day : LimitReason

-- The counts of a collection.
pub record Counts : Type 0 where
  pub created : ℕ
  pub refreshed : ℕ
  pub unchanged : ℕ
  pub skipped : ℕ
  pub auto_accepted : ℕ

-- The configuration; a window is its start and its end in minutes of the day.
pub record Limits : Type 0 where
  pub window : Option (ℕ × ℕ)
  pub max_runs : Option ℕ
  pub max_cost : Option ℕ
  pub lock_ttl_minutes : ℕ
  pub stale_after_minutes : ℕ

-- What a round calls, by the number of calls made before. `minute` is the local time of a time.
pub record RoundPorts : Type 0 where
  pub collect : ℕ → List CandidateRow → Result Counts × List CandidateRow
  pub parse_brief : CandidateRow → Result ArticleBrief
  pub minute : ℕ → ℕ
  pub stale_message : ℕ → String
  pub owner : String

-- `notified` are the reasons that the notifier was told of.
pub record Site : Type 0 where
  pub world : World
  pub candidates : List CandidateRow
  pub locks : List Lock
  pub notified : List LimitReason

pub data RoundOutcome : Type 0 where
  ran : List String → Option Counts → CandidateRow → WorkflowResult → RoundOutcome
  nothing_to_do : List String → Option Counts → RoundOutcome
  limit_reached : List String → Option Counts → LimitReason → RoundOutcome
  locked : String → ℕ → RoundOutcome

abbrev pub lock_name : String
lock_name = "schedule-run-once"

abbrev pub day_ms : ℕ
day_ms = 86400000

-- a window that ends before it starts crosses midnight
unfoldable pub in_window : ℕ × ℕ → ℕ → Bool
in_window w minute =
    if ltb w.0 w.1 then leb w.0 minute && ltb minute w.1 else leb w.0 minute || ltb minute w.1

unfoldable pub outside : Option (ℕ × ℕ) → ℕ → Bool
unfolding in_window
outside none minute = false
outside (some w) minute = not (in_window w minute)

-- `max !== undefined && used >= max`
abbrev pub is_reached : Option ℕ → ℕ → Bool
is_reached none used = false
is_reached (some most) used = leb most used

unfoldable pub limit_hit : Limits → (ℕ → ℕ) → ℕ → Db → Option LimitReason
unfolding outside usage_since
limit_hit c minute now db =
    let used = usage_since (now - day_ms) db in
    if outside c.window (minute now)
    then some outside_window
    else if is_reached c.max_runs used.runs
    then some max_runs_per_day
    else if is_reached c.max_cost used.cost_usd
    then some max_cost_per_day
    else none

abbrev pub Act : Type 0 → Type 0
Act A = Site → Result A × Site

infixl 10 ◌>>>◌
abbrev pub ◌>>>◌ : {A B : Type 0} → Act A → (A → Act B) → Act B
◌>>>◌ m f s = elim ((m s).0) [ ok a ↦ f a (m s).1 | err e ↦ (err e, (m s).1) ]

abbrev pub of_workflow : {A : Type 0} → Exec A → Act A
of_workflow m s = ((m s.world).0, record s { world = (m s.world).1 })

abbrev pub code_of : BacklogErrorCode → String
code_of not_found = "not_found"
code_of ambiguous_id = "ambiguous_id"
code_of invalid_state = "invalid_state"

-- what `markUsed` returns is not read; its error is thrown on
unfoldable pub settle_mark : Outcome CandidateRow × List CandidateRow → Act (Unit {0})
settle_mark (done row, rows) s = (ok tt, record s { candidates = rows })
settle_mark (refused code, rows) s =
    (err (coded_error "BacklogError" (code_of code) (code_of code)), record s { candidates = rows })

module _ (o : Options) (p : Ports) (c : Limits) (q : RoundPorts) where
  -- `clock()`
  abbrev pub now_of : Site → ℕ
  now_of s = p.clock s.world.calls

  -- `memory?.recoverStaleRuns?.(…) ?? []`
  unfoldable pub recover : Act (List String)
  recover s =
      let recovered =
        recover_stale_runs c.stale_after_minutes (now_of s) (now_of s) q.stale_message s.world.db in
      if o.memory
      then (ok recovered.1, record s { world = record s.world { db = recovered.0 } })
      else (ok [], s)

  -- `collect ? (await research.collect()).counts : undefined`
  unfoldable pub collect_if : Bool → Act (Option Counts)
  collect_if false s = (ok none, s)
  collect_if true s =
      let answer = q.collect s.world.calls s.candidates in
      let after = record s {
        world = record s.world { calls = suc s.world.calls };
        candidates = answer.1;
      } in
      elim answer.0 [ ok counts ↦ (ok (some counts), after) | err e ↦ (err e, after) ]

  -- being outside the window is no news
  abbrev pub notify_limit : LimitReason → Site → Site
  notify_limit outside_window s = s
  notify_limit reason s =
      if o.notifier then record s { notified = s.notified ++ (reason ∷ []) } else s

  -- `research.markUsed(candidate.id, pending.workflowId)` where the run is stored
  unfoldable pub mark : String → Option StartResult → Act (Unit {0})
  unfolding settle_mark
  mark id none s = (ok tt, s)
  mark id (some started) s =
      settle_mark (mark_used id started.workflow_id (now_of s) s.candidates) s

  unfoldable pub start_run : CandidateRow → ArticleBrief → Act WorkflowResult
  unfolding mark
  start_run candidate brief = of_workflow (begin o p brief none) >>> λ pending.
      mark candidate.id pending.stored >>> λ _. of_workflow (execute_pending o p pending)

  unfoldable pub run_candidate :
      List String → Option Counts → Option CandidateRow → Act RoundOutcome
  unfolding start_run
  run_candidate recovered collected none s = (ok (nothing_to_do recovered collected), s)
  run_candidate recovered collected (some candidate) s = elim (q.parse_brief candidate) [
    | err e ↦ (err e, s)
    | ok brief ↦
        (start_run candidate brief >>> λ result.
        λ s'. (ok (ran recovered collected candidate result), s'))
          s
  ]

  -- `const [candidate] = research.list({ status: "accepted", limit: 1 })`
  abbrev pub picked : Site → Option CandidateRow
  picked s = first (list (some CandidateStatus.accepted) (some 1) s.candidates)

  unfoldable pub round_within : List String → Option Counts → Option LimitReason → Act RoundOutcome
  unfolding run_candidate
  round_within recovered collected (some reason) s =
      (ok (limit_reached recovered collected reason), notify_limit reason s)
  round_within recovered collected none s = run_candidate recovered collected (picked s) s

  -- the body of the `try`
  unfoldable pub attempt : Bool → Act RoundOutcome
  unfolding recover collect_if limit_hit round_within
  attempt wants = recover >>> λ recovered. collect_if wants >>> λ collected.
      λ s. round_within recovered collected (limit_hit c q.minute (now_of s) s.world.db) s

  -- the `finally`
  abbrev pub release : Result RoundOutcome × Site → Result RoundOutcome × Site
  release r = (r.0, record r.1 { locks = release_lock lock_name q.owner r.1.locks })

  unfoldable pub round_locked : Bool → LockResult × List Lock → Act RoundOutcome
  unfolding attempt release_lock
  round_locked wants (held owner expires_at, locks) s = (ok (locked owner expires_at), s)
  round_locked wants (acquired expires_at, locks) s =
      release (attempt wants (record s { locks = locks }))

  unfoldable pub run_once : Bool → Act RoundOutcome
  unfolding round_locked acquire_lock
  run_once wants s =
      round_locked wants
        (acquire_lock lock_name q.owner (c.lock_ttl_minutes * 60000) (now_of s) s.locks) s
