-- ===== src/Scheduler.antt =====
-- packages/storage/src/scheduler/store.ts: the named locks and what the runs of a period used.
-- Times are in milliseconds.
pub mod Exclusion
pub mod Round
pub mod Marking
pub mod Starting
pub mod Allowance
pub mod Deciding
pub mod Rounds
use open_blog_agent.Prelude.{
  ℕ, ◌+◌, String, Bool, true, false, ◌&&◌, not, ◌==◌, Option, none, some, List, [], ◌∷◌, keep, find,
  length, ltb, leb, if◌then◌else◌, or_else,
}
use open_blog_agent.Types.Usage.{LlmUsage}
use open_blog_agent.Storage.Models.{Db, WorkflowRecord, StepRecord}
use open_blog_agent.Storage.Tables.{upsert}

pub record Lock : Type 0 where
  pub name : String
  pub owner : String
  pub acquired_at : ℕ
  pub expires_at : ℕ

pub data LockResult : Type 0 where
  acquired : ℕ → LockResult
  held : String → ℕ → LockResult

abbrev pub lock_named : String → List Lock → Option Lock
lock_named name locks = find (λ l. l.name == name) locks

-- `current && current.owner !== owner && current.expires_at > now`
unfoldable pub is_held : String → ℕ → Option Lock → Bool
is_held owner now none = false
is_held owner now (some l) = not (l.owner == owner) && ltb now l.expires_at

unfoldable pub take_lock : String → String → ℕ → ℕ → List Lock → List Lock
unfolding upsert
take_lock name owner now expires_at locks =
    let new : Lock = record {
      name = name;
      owner = owner;
      acquired_at = now;
      expires_at = expires_at;
    } in
    upsert (λ l. l.name == name)
      (λ l. record l { owner = owner; acquired_at = now; expires_at = expires_at }) new locks

unfoldable pub acquire_free :
    String → String → ℕ → ℕ → Option Lock → List Lock → LockResult × List Lock
unfolding take_lock is_held
acquire_free name owner ttl now none locks =
    (acquired (now + ttl), take_lock name owner now (now + ttl) locks)
acquire_free name owner ttl now (some l) locks =
    if is_held owner now (some l)
    then (held l.owner l.expires_at, locks)
    else (acquired (now + ttl), take_lock name owner now (now + ttl) locks)

unfoldable pub acquire_lock : String → String → ℕ → ℕ → List Lock → LockResult × List Lock
unfolding acquire_free
acquire_lock name owner ttl now locks =
    acquire_free name owner ttl now (lock_named name locks) locks

unfoldable pub release_lock : String → String → List Lock → List Lock
release_lock name owner locks = keep (λ l. not (l.name == name && l.owner == owner)) locks

pub record UsageSince : Type 0 where
  pub runs : ℕ
  pub cost_usd : ℕ

abbrev pub step_cost : StepRecord → ℕ
step_cost s = elim s.usage [ none ↦ 0 | some u ↦ u.cost_usd ]

-- SUM, and 0 where there is no row
unfoldable pub total_cost : List StepRecord → ℕ
total_cost [] = 0
total_cost (s ∷ ss) = step_cost s + total_cost ss

unfoldable pub usage_since : ℕ → Db → UsageSince
unfolding total_cost
usage_since since db = record {
  runs = length (keep (λ (w : WorkflowRecord). leb since w.created_at) db.workflows);
  cost_usd = total_cost (keep (λ (s : StepRecord). leb since s.completed_at) db.steps);
}
