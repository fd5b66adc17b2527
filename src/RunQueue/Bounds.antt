-- ===== src/RunQueue/Bounds.antt =====
-- Bounds of the run queue (apps/server/src/run-queue.ts).
use open_blog_agent.Prelude.{
  ℕ, zero, suc, ◌+◌, ◌-◌, ◌≤◌, ◌≡◌, refl, ◌⊎◌, Bool, true, false, some, List, [], ◌∷◌, ◌++◌, arith,
  length, length-append, get_elem?, set, ap, Bool-cases, inl, inr,
}
use open_blog_agent.RunQueue.{
  Options, RunQueue, empty, size, reserve, run, release, delete, shift, settle, close, Event,
  reserved, ran, released, settled, closing, mem, step, steps,
}

-- Slots handed out and neither run nor released.
abbrev unused : List Bool → ℕ
unused [] = 0
unused (true ∷ fs) = unused fs
unused (false ∷ fs) = suc (unused fs)

pub record IsBounded (o : Options) (q : RunQueue) : Type 0 where
  pub counted : q.running ≡ length q.active
  pub slots : q.reserved ≡ unused q.used
  pub parallel : q.running ≤ o.concurrency
  pub busy : (q.waiting ≡ []) ⊎ (q.running ≡ o.concurrency)
  pub fits : size q ≤ o.concurrency + o.max_queued

unused-append : (fs : List Bool) → unused (fs ++ false ∷ []) ≡ suc (unused fs)
unused-append [] = refl
unused-append (true ∷ fs) = unused-append fs
unused-append (false ∷ fs) = omega (arith, unused-append fs)

unused-set :
    (fs : List Bool) (i : ℕ)
    → get_elem? fs i ≡ some false
    → suc (unused (set fs i true)) ≡ unused fs
unused-set [] i h = ground arith
unused-set (true ∷ fs) zero h = ground arith
unused-set (false ∷ fs) zero h = refl
unused-set (true ∷ fs) (suc i) h = unused-set fs i h
unused-set (false ∷ fs) (suc i) h = omega (arith, unused-set fs i h)

pub length-delete :
    (job : ℕ) (js : List ℕ) → mem job js ≡ true → suc (length (delete job js)) ≡ length js
unfolding delete
length-delete job [] h = ground arith
length-delete job (j ∷ js) h = ground (arith, length-delete job js)

module _ (o : Options) where
  reserve-IsBounded : (q : RunQueue) → IsBounded o q → IsBounded o (reserve o q).0
  unfolding reserve
  reserve-IsBounded q v = ground (arith, unused-append q.used)

  run-IsBounded : (q : RunQueue) (slot : ℕ) → IsBounded o q → IsBounded o (run o slot q).0
  unfolding run size
  run-IsBounded q slot v = ground (
    arith,
    unused-set q.used slot,
    length-append q.waiting (slot ∷ []),
    length-append q.active (slot ∷ []),
  )

  release-IsBounded : (q : RunQueue) (slot : ℕ) → IsBounded o q → IsBounded o (release slot q)
  unfolding release size
  release-IsBounded q slot v = ground (arith, unused-set q.used slot)

  shift-IsBounded :
      (q : RunQueue)
      → q.running ≡ length q.active
      → q.reserved ≡ unused q.used
      → suc q.running ≤ o.concurrency
      → (q.waiting ≡ []) ⊎ (suc q.running ≡ o.concurrency)
      → suc (size q) ≤ o.concurrency + o.max_queued
      → (waiting : List ℕ) → q.waiting ≡ waiting
      → IsBounded o (shift waiting q).0
  unfolding shift size
  shift-IsBounded q c s p b f [] e = ground arith
  shift-IsBounded q c s p b f (job ∷ rest) e =
      ground (arith, length-append q.active (job ∷ []), ap length e)

  pub settle-IsBounded :
      (q : RunQueue) (job : ℕ)
      → mem job q.active ≡ true
      → IsBounded o q
      → IsBounded o (settle job q).0
  unfolding settle size
  settle-IsBounded q job pending v =
      let smaller = length-delete job q.active pending in
      shift-IsBounded (record q { running = q.running - 1; active = delete job q.active })
        (omega arith) v.slots (omega arith) (ground arith) (omega arith) q.waiting refl

  pub step-IsBounded : (e : Event) (q : RunQueue) → IsBounded o q → IsBounded o (step o e q).0
  unfolding step close size
  step-IsBounded reserved q v = reserve-IsBounded q v
  step-IsBounded (ran slot) q v = run-IsBounded q slot v
  step-IsBounded (released slot) q v = release-IsBounded q slot v
  step-IsBounded (settled job) q v = elim (Bool-cases (mem job q.active)) [
    | inl pending ↦ rw pending (settle-IsBounded q job pending v)
    | inr other ↦ rw other v
  ]
  step-IsBounded closing q v = ground arith

  pub steps-IsBounded :
      (es : List Event) (q : RunQueue) → IsBounded o q → IsBounded o (steps o es q).0
  unfolding steps
  steps-IsBounded [] q v = v
  steps-IsBounded (e ∷ es) q v = steps-IsBounded es (step o e q).0 (step-IsBounded e q v)

  pub empty-IsBounded : IsBounded o empty
  unfolding size
  empty-IsBounded = ground arith

  -- Whatever calls and settlements reach a queue from the empty one, in any order, its counter is
  -- the number of pending jobs, at most `concurrency` jobs run and at most `max_queued` jobs wait.
  pub reached_bounds :
      (es : List Event)
      → let q = (steps o es empty).0 in
        (q.running ≡ length q.active)
        × (length q.active ≤ o.concurrency)
        × (length q.waiting ≤ o.max_queued)
  unfolding size
  reached_bounds es =
      let v = steps-IsBounded es empty empty-IsBounded in
      (v.counted, omega (arith, v.parallel, v.counted), ground (arith, v.fits, v.busy))
