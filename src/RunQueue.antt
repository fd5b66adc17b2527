-- ===== src/RunQueue.antt =====
-- apps/server/src/run-queue.ts: the bounded in-memory job queue of the server.
-- A slot is numbered by the call of `reserve` that handed it out, and its job by its slot: a slot
-- runs at most one job. A job is an async function, so it never throws before it has returned its
-- promise; `settle` is the `finally` handler of that promise.
pub mod Bounds
pub mod Order
pub mod Drain
use open_blog_agent.Prelude.{
  ℕ, suc, ◌+◌, ◌-◌, Bool, true, false, ◌||◌, ◌&&◌, not, Option, none, some, List, [], ◌∷◌, ◌++◌,
  length, get_elem?, set, leb, ltb, nat_eq, if◌then◌else◌,
}

-- RunQueueOptions; `onError` only logs
pub record Options : Type 0 where
  pub concurrency : ℕ
  pub max_queued : ℕ

-- `used` holds the flag of each slot handed out so far
pub record RunQueue : Type 0 where
  pub running : ℕ
  pub reserved : ℕ
  pub waiting : List ℕ
  pub active : List ℕ
  pub closed : Bool
  pub used : List Bool

abbrev pub empty : RunQueue
empty = record { running = 0; reserved = 0; waiting = []; active = []; closed = false; used = [] }

-- `get size()`
unfoldable pub size : RunQueue → ℕ
size q = q.running + length q.waiting + q.reserved

unfoldable pub reserve : Options → RunQueue → RunQueue × Option ℕ
unfolding size
reserve o q =
    if q.closed || leb (o.concurrency + o.max_queued) (size q)
    then (q, none)
    else (record q { reserved = q.reserved + 1; used = q.used ++ false ∷ [] }, some (length q.used))

-- `execute` of `start`: the job is called and its promise joins the active set
unfoldable pub execute : ℕ → RunQueue → RunQueue
execute job q = record q { running = q.running + 1; active = q.active ++ job ∷ [] }

-- A queue after a call, and the jobs that the call started.
abbrev pub Effect : Type 0
Effect = RunQueue × List ℕ

unfoldable pub start : Options → ℕ → RunQueue → Effect
unfolding execute
start o job q =
    if ltb q.running o.concurrency
    then (execute job q, job ∷ [])
    else (record q { waiting = q.waiting ++ job ∷ [] }, [])

-- the closures of `reserve`, on the flag of their slot
unfoldable pub run_flag : Options → ℕ → Option Bool → RunQueue → Effect
unfolding start
run_flag o slot none q = (q, [])
run_flag o slot (some true) q = (q, [])
run_flag o slot (some false) q =
    start o slot (record q { used = set q.used slot true; reserved = q.reserved - 1 })

-- QueueSlot.run
unfoldable pub run : Options → ℕ → RunQueue → Effect
unfolding run_flag
run o slot q = run_flag o slot (get_elem? q.used slot) q

unfoldable pub release_flag : ℕ → Option Bool → RunQueue → RunQueue
release_flag slot none q = q
release_flag slot (some true) q = q
release_flag slot (some false) q = record q {
  used = set q.used slot true;
  reserved = q.reserved - 1;
}

-- QueueSlot.release
unfoldable pub release : ℕ → RunQueue → RunQueue
unfolding release_flag
release slot q = release_flag slot (get_elem? q.used slot) q

-- `active.delete`
unfoldable pub delete : ℕ → List ℕ → List ℕ
delete job [] = []
delete job (j ∷ js) = let rest = delete job js in if nat_eq j job then js else j ∷ rest

-- `waiting.shift()?.()`
unfoldable pub shift : List ℕ → RunQueue → Effect
unfolding execute
shift [] q = (q, [])
shift (job ∷ rest) q = (execute job (record q { waiting = rest }), job ∷ [])

-- the `finally` handler of the promise of `job`
unfoldable pub settle : ℕ → RunQueue → Effect
unfolding delete shift
settle job q = shift q.waiting (record q { running = q.running - 1; active = delete job q.active })

-- `close` up to its first wait, and the test of its loop
unfoldable pub close : RunQueue → RunQueue
close q = record q { closed = true }

unfoldable pub is_idle : RunQueue → Bool
is_idle q = nat_eq (length q.active) 0 && nat_eq (length q.waiting) 0

-- What happens to the queue, one turn of the event loop at a time.
pub data Event : Type 0 where
  reserved : Event
  ran : ℕ → Event
  released : ℕ → Event
  settled : ℕ → Event
  closing : Event

abbrev pub mem : ℕ → List ℕ → Bool
mem job [] = false
mem job (j ∷ js) = nat_eq j job || mem job js

-- Only a promise that is pending settles.
unfoldable pub step : Options → Event → RunQueue → Effect
unfolding reserve run release settle close
step o reserved q = ((reserve o q).0, [])
step o (ran slot) q = run o slot q
step o (released slot) q = (release slot q, [])
step o (settled job) q = if mem job q.active then settle job q else (q, [])
step o closing q = (close q, [])

unfoldable pub steps : Options → List Event → RunQueue → Effect
unfolding step
steps o [] q = (q, [])
steps o (e ∷ es) q =
    let (q', started) = step o e q in let (q'', later) = steps o es q' in (q'', started ++ later)
