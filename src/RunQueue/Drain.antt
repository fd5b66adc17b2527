-- ===== src/RunQueue/Drain.antt =====
-- How a closed run queue comes to rest: the loop of `close` (apps/server/src/run-queue.ts).
use open_blog_agent.Prelude.{
  ℕ, suc, ◌+◌, ◌-◌, ◌<◌, ◌≡◌, ◌↔◌, refl, true, false, none, List, [], ◌∷◌, arith, length,
  length-append, ap, ◌∙◌,
}
use open_blog_agent.RunQueue.{
  Options, RunQueue, empty, reserve, reserved, ran, released, settled, delete, shift, settle, close,
  is_idle, Event, closing, mem, step, steps,
}
use open_blog_agent.RunQueue.Bounds.{steps-IsBounded, empty-IsBounded, length-delete}

-- Jobs that `close` waits for.
pub pending : RunQueue → ℕ
pending q = length q.active + length q.waiting

-- The promises of `js` settle in this order; each is pending when its turn comes.
abbrev pub Settles : RunQueue → List ℕ → Type 0
Settles q [] = Unit
Settles q (j ∷ js) = (mem j q.active ≡ true) × Settles (settle j q).0 js

pub settle_all : RunQueue → List ℕ → RunQueue
settle_all q [] = q
settle_all q (j ∷ js) = settle_all (settle j q).0 js

pending-shift :
    (q : RunQueue) (waiting : List ℕ)
    → q.waiting ≡ waiting
    → pending (shift waiting q).0 ≡ pending q
unfolding pending shift
pending-shift q [] e = refl
pending-shift q (job ∷ rest) e = omega (arith, length-append q.active (job ∷ []), ap length e)

pending-settle :
    (q : RunQueue) (job : ℕ) → mem job q.active ≡ true → suc (pending (settle job q).0) ≡ pending q
unfolding settle
pending-settle q job h =
    let r = record q { running = q.running - 1; active = delete job q.active } in
    ap suc (pending-shift r q.waiting refl)
    ∙ (unfold pending in omega (arith, length-delete job q.active h))

pending-settle_all :
    (q : RunQueue) (js : List ℕ) → Settles q js → pending (settle_all q js) + length js ≡ pending q
unfolding settle_all
pending-settle_all q [] h = omega arith
pending-settle_all q (j ∷ js) h =
    omega (arith, pending-settle q j h.0, pending-settle_all (settle j q).0 js h.1)

is_idle_iff : (q : RunQueue) → (is_idle q ≡ true) ↔ (pending q ≡ 0)
unfolding is_idle pending
is_idle_iff q = (λ h. ground arith, λ h. ground arith)

-- The loop of `close` ends after exactly as many settlements as there are jobs running or waiting,
-- in whatever order they settle, and not before.
pub close_ends :
    (o : Options) (es : List Event) (js : List ℕ)
    → Settles (close (steps o es empty).0) js
    → (is_idle (settle_all (close (steps o es empty).0) js) ≡ true)
      ↔ (length js ≡ pending (close (steps o es empty).0))
close_ends o es js h =
    let q = close (steps o es empty).0 in
    let left = pending-settle_all q js h in
    let (to, from) = is_idle_iff (settle_all q js) in
    (λ e. omega (arith, left, to e), λ e. from (omega (arith, left, e)))

mem-head : (j : ℕ) (js : List ℕ) → mem j (j ∷ js) ≡ true
mem-head j js = ground arith

some_active :
    (q : RunQueue) (active : List ℕ)
    → q.active ≡ active
    → 0 < length active
    → (job : ℕ) × (mem job q.active ≡ true)
some_active q [] e h = absurd (omega arith)
some_active q (j ∷ js) e h = (j, rw e (mem-head j js))

-- While the loop of a queue with a positive concurrency is not over some job is running, so it is
-- never left waiting for a job that nothing will start.
pub waits_for_running :
    (o : Options) (es : List Event)
    → 0 < o.concurrency
    → is_idle (steps o es empty).0 ≡ false
    → (job : ℕ) × (mem job (steps o es empty).0.active ≡ true)
unfolding is_idle
waits_for_running o es h busy =
    let q = (steps o es empty).0 in
    let v = steps-IsBounded o es empty (empty-IsBounded o) in
    some_active q q.active refl (ground (arith, v.busy, v.counted, h))

closed-shift : (waiting : List ℕ) (q : RunQueue) → (shift waiting q).0.closed ≡ q.closed
unfolding shift
closed-shift [] q = refl
closed-shift (job ∷ rest) q = refl

closed-step :
    (o : Options) (e : Event) (q : RunQueue) → q.closed ≡ true → (step o e q).0.closed ≡ true
unfolding step
closed-step o reserved q h = ground arith
closed-step o (ran slot) q h = ground arith
closed-step o (released slot) q h = ground arith
closed-step o (settled job) q h = ground (
  arith,
  closed-shift q.waiting (record q { running = q.running - 1; active = delete job q.active }),
)
closed-step o closing q h = refl

closed-steps :
    (o : Options) (es : List Event) (q : RunQueue)
    → q.closed ≡ true
    → (steps o es q).0.closed ≡ true
unfolding steps
closed-steps o [] q h = h
closed-steps o (e ∷ es) q h = closed-steps o es (step o e q).0 (closed-step o e q h)

-- A closed queue stays closed whatever happens to it, and `reserve` then refuses and changes nothing.
pub closed_refuses :
    (o : Options) (es : List Event) (q : RunQueue)
    → let q' = (steps o (closing ∷ es) q).0 in (q'.closed ≡ true) × (reserve o q' ≡ (q', none))
unfolding reserve
closed_refuses o es q =
    let h : (steps o (closing ∷ es) q).0.closed ≡ true =
      unfold steps step close in closed-steps o es (close q) refl in
    (h, ground arith)
