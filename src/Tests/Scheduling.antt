-- ===== src/Tests/Scheduling.antt =====
-- The theorems on the scheduler (packages/storage/src/scheduler/store.ts and
-- packages/app/src/scheduler.ts) at concrete inputs.
use open_blog_agent.Prelude.{
  List, All, String, ◌≡◌, ◌≢◌, refl, true, false, none, some, [], ◌∷◌, inl, inr, arith, ◌==◌,
  eq_iff, List,
}
use open_blog_agent.Tests.Data.{options, ports, world, article_brief}
use open_blog_agent.Backlog.{CandidateRow, CandidateStatus}
use open_blog_agent.Workflow.Errors.{ok}
use open_blog_agent.Scheduler.{acquired, held, acquire_lock}
use open_blog_agent.Scheduler.Exclusion.{
  IsForeign, Call, taking, freeing, all_called, acquire_lock-excludes,
}
use open_blog_agent.Scheduler.Round.{Limits, RoundPorts, Site, run_once}
use open_blog_agent.Scheduler.Rounds.{IsRound, run_once-IsRound}

differ : (s t : String) → (s == t) ≡ false → s ≢ t
differ s t h e = let same = (eq_iff s t).1 e in cc

-- "b" tries to take the lock and to free it, and takes another one.
abbrev calls : List Call
calls = taking "lock" "b" 50 20 ∷ freeing "lock" "b" ∷ taking "other" "b" 50 200 ∷ []

b_is_other : ◌≢◌ {A = String} "b" "a"
b_is_other = differ "b" "a" refl

lock_taken : (acquire_lock "lock" "a" 100 10 []).0 ≡ acquired 110
unfolding acquire_lock
lock_taken = refl

calls-IsForeign : All (IsForeign "lock" "a" 110) calls
unfolding IsForeign
calls-IsForeign =
    (inr (b_is_other, omega arith), (inr b_is_other, (inl (differ "other" "lock" refl), tt)))

acquire_lock-excludes_example :
    acquire_lock "lock" "b" 50 99 (all_called calls (acquire_lock "lock" "a" 100 10 []).1)
    ≡ (held "a" 110, all_called calls (acquire_lock "lock" "a" 100 10 []).1)
acquire_lock-excludes_example =
    acquire_lock-excludes "lock" "a" "b" 100 10 110 50 99 [] calls lock_taken calls-IsForeign
      b_is_other (omega arith)

abbrev limits : Limits
limits = record {
  window = some (1320, 360);
  max_runs = some 3;
  max_cost = none;
  lock_ttl_minutes = 60;
  stale_after_minutes = 30;
}

abbrev candidate : CandidateRow
candidate = record {
  id = "c";
  title = "cats";
  title_normalized = "cats";
  url = "x/1";
  url_key = "x/1";
  source = "feed";
  summary = none;
  published_at = none;
  collected_at = 1;
  score = 50;
  breakdown = "";
  motivation = "";
  status = CandidateStatus.accepted;
  brief = none;
  decided_by = some "me";
  decision_note = none;
  decided_at = some 2;
  workflow_id = none;
  enrichment = none;
  created_at = 1;
  updated_at = 2;
}

abbrev round_ports : RoundPorts
round_ports = record {
  collect = λ n rows. (
    ok (record { created = 0; refreshed = 0; unchanged = 0; skipped = 0; auto_accepted = 0 }),
    rows,
  );
  parse_brief = λ r. ok article_brief;
  minute = λ t. 60;
  stale_message = λ t. "stale";
  owner = "host:1";
}

abbrev site : Site
site = record { world = world; candidates = candidate ∷ []; locks = []; notified = [] }

run_once-IsRound_example :
    IsRound options ports limits round_ports true site
      (run_once options ports limits round_ports true site)
run_once-IsRound_example = run_once-IsRound options ports limits round_ports true site
