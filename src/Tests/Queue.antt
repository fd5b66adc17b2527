-- ===== src/Tests/Queue.antt =====
-- The theorems on the run queue (apps/server/src/run-queue.ts) at concrete inputs.
use open_blog_agent.Prelude.{
  ℕ, ◌≤◌, ◌≡◌, refl, ◌↔◌, true, false, none, List, [], ◌∷◌, ◌++◌, length, arith,
}
use open_blog_agent.RunQueue.{
  Options, RunQueue, empty, Event, reserved, ran, closing, steps, close, is_idle, mem, reserve,
}
use open_blog_agent.RunQueue.Bounds.{reached_bounds}
use open_blog_agent.RunQueue.Order.{submitted, started_in_order, times, started_once}
use open_blog_agent.RunQueue.Drain.{
  pending, Settles, settle_all, close_ends, waits_for_running, closed_refuses,
}

abbrev options : Options
options = record { concurrency = 1; max_queued = 2 }

-- Two jobs are handed in, in the opposite order of their slots.
abbrev events : List Event
events = reserved ∷ reserved ∷ ran 1 ∷ ran 0 ∷ []

abbrev busy : RunQueue
busy = (steps options events empty).0

abbrev closed : RunQueue
closed = close busy

reached_bounds_example :
    (busy.running ≡ length busy.active) × (length busy.active ≤ 1) × (length busy.waiting ≤ 2)
reached_bounds_example = reached_bounds options events

started_in_order_example :
    (steps options events empty).1 ++ busy.waiting ≡ submitted options events empty
started_in_order_example = started_in_order options events

started_once_example : times 1 (steps options events empty).1 ≤ 1
started_once_example = started_once options events 1

settles : Settles closed (1 ∷ 0 ∷ [])
unfolding steps close
settles = (refl, (refl, tt))

close_ends_example :
    (is_idle (settle_all closed (1 ∷ 0 ∷ [])) ≡ true)
    ↔ (length {A = ℕ} (1 ∷ 0 ∷ []) ≡ pending closed)
close_ends_example = close_ends options events (1 ∷ 0 ∷ []) settles

busy_not_idle : is_idle busy ≡ false
unfolding is_idle steps
busy_not_idle = refl

waits_for_running_example : (job : ℕ) × (mem job busy.active ≡ true)
waits_for_running_example = waits_for_running options events (omega arith) busy_not_idle

closed_refuses_example :
    let q = (steps options (closing ∷ reserved ∷ []) busy).0 in
    (q.closed ≡ true) × (reserve options q ≡ (q, none))
closed_refuses_example = closed_refuses options (reserved ∷ []) busy
