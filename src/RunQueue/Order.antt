-- ===== src/RunQueue/Order.antt =====
-- The order in which the run queue starts its jobs, and how it drains
-- (apps/server/src/run-queue.ts).
use open_blog_agent.Prelude.{
  ℕ, zero, suc, ◌+◌, ◌≤◌, ◌≡◌, refl, inl, inr, Bool, true, false, Option, none, some, List, [], ◌∷◌,
  ◌++◌, append-nil, append_assoc, arith, get_elem?, set, nat_eq, if◌then◌else◌, Bool-cases, sym, ap,
  ◌∙◌,
}
use open_blog_agent.RunQueue.{
  Options, RunQueue, empty, run, shift, settle, Event, reserved, ran, released, settled, closing,
  mem, step, steps,
}
use open_blog_agent.RunQueue.Bounds.{IsBounded, step-IsBounded, empty-IsBounded}

-- The job that an event hands to the queue, if its slot is unused.
abbrev accepted_by : ℕ → Option Bool → List ℕ
accepted_by slot none = []
accepted_by slot (some true) = []
accepted_by slot (some false) = slot ∷ []

pub accepted : Event → RunQueue → List ℕ
accepted (ran slot) q = accepted_by slot (get_elem? q.used slot)
accepted _ q = []

-- The jobs handed to the queue by a sequence of events, in that order.
pub submitted : Options → List Event → RunQueue → List ℕ
submitted o [] q = []
submitted o (e ∷ es) q = accepted e q ++ submitted o es (step o e q).0

module _ (o : Options) where
  shift-order :
      (waiting : List ℕ) (q : RunQueue)
      → q.waiting ≡ waiting
      → (shift waiting q).1 ++ (shift waiting q).0.waiting ≡ waiting
  unfolding shift
  shift-order [] q e = e
  shift-order (job ∷ rest) q e = refl

  run-order :
      (slot : ℕ) (q : RunQueue)
      → IsBounded o q
      → (run o slot q).1 ++ (run o slot q).0.waiting
        ≡ q.waiting ++ accepted_by slot (get_elem? q.used slot)
  unfolding run
  run-order slot q v = ground (arith, v.busy, append-nil q.waiting)

  settle-order : (job : ℕ) (q : RunQueue) → (settle job q).1 ++ (settle job q).0.waiting ≡ q.waiting
  unfolding settle
  settle-order job q = shift-order q.waiting _ refl

  step-order :
      (e : Event) (q : RunQueue)
      → IsBounded o q
      → (step o e q).1 ++ (step o e q).0.waiting ≡ q.waiting ++ accepted e q
  unfolding step accepted
  step-order reserved q v = ground (arith, append-nil q.waiting)
  step-order (ran slot) q v = run-order slot q v
  step-order (released slot) q v = ground (arith, append-nil q.waiting)
  step-order (settled job) q v = elim (Bool-cases (mem job q.active)) [
    | inl pending ↦ rw (pending, append-nil) (settle-order job q)
    | inr other ↦ rw (other, append-nil)
  ]
  step-order closing q v = sym (append-nil _)

  steps-order :
      (es : List Event) (q : RunQueue)
      → IsBounded o q
      → (steps o es q).1 ++ (steps o es q).0.waiting ≡ q.waiting ++ submitted o es q
  unfolding steps submitted
  steps-order [] q v = sym (append-nil _)
  steps-order (e ∷ es) q v =
      let (q', first) = step o e q in
      let (q'', later) = steps o es q' in
      let ih = steps-order es q' (step-IsBounded o e q v) in
      append_assoc first later q''.waiting
      ∙ ap (λ l. first ++ l) ih
      ∙ sym (append_assoc first q'.waiting _)
      ∙ ap (λ l. l ++ submitted o es q') (step-order e q v)
      ∙ append_assoc q.waiting _ _

  -- First come, first served: the jobs started so far, in the order of their start, followed by the
  -- jobs still waiting, are the jobs that were handed to the queue in the order of their `run`.
  pub started_in_order :
      (es : List Event)
      → (steps o es empty).1 ++ (steps o es empty).0.waiting ≡ submitted o es empty
  started_in_order es = steps-order es empty (empty-IsBounded o)

abbrev pub times : ℕ → List ℕ → ℕ
times a [] = 0
times a (x ∷ xs) = (if nat_eq x a then 1 else 0) + times a xs

pub times-append :
    (job : ℕ) (first later : List ℕ)
    → times job (first ++ later) ≡ times job first + times job later
times-append job [] later = omega arith
times-append job (j ∷ rest) later = let tail = times-append job rest later in omega (arith, tail)

-- 1 if the slot may still hand its job in, else 0.
abbrev room : Option Bool → ℕ
room (some true) = 0
room _ = 1

get_elem?-append :
    (fs : List Bool) (i : ℕ) → room (get_elem? (fs ++ false ∷ []) i) ≤ room (get_elem? fs i)
get_elem?-append [] zero = omega arith
get_elem?-append [] (suc i) = omega arith
get_elem?-append (f ∷ fs) zero = omega arith
get_elem?-append (f ∷ fs) (suc i) = get_elem?-append fs i

get_elem?-set :
    (fs : List Bool) (j i : ℕ)
    → get_elem? fs j ≡ some false
    → room (get_elem? (set fs j true) i) + times i (accepted_by j (get_elem? fs j))
      ≤ room (get_elem? fs i)
get_elem?-set [] j i h = ground arith
get_elem?-set (f ∷ fs) zero zero h = ground arith
get_elem?-set (f ∷ fs) zero (suc i) h = ground arith
get_elem?-set (f ∷ fs) (suc j) zero h = ground arith
get_elem?-set (f ∷ fs) (suc j) (suc i) h = ground (arith, get_elem?-set fs j i h)

step-room :
    (o : Options) (e : Event) (q : RunQueue) (slot : ℕ)
    → room (get_elem? (step o e q).0.used slot) + times slot (accepted e q)
      ≤ room (get_elem? q.used slot)
unfolding step accepted
step-room o reserved q slot = ground (arith, get_elem?-append q.used slot)
step-room o (ran j) q slot = ground (arith, get_elem?-set q.used j slot)
step-room o (released j) q slot = ground (arith, get_elem?-set q.used j slot)
step-room o (settled job) q slot = ground arith
step-room o closing q slot = omega arith

-- A slot hands in at most one job, however often it is run or released.
pub times-submitted-le :
    (o : Options) (es : List Event) (q : RunQueue) (slot : ℕ)
    → times slot (submitted o es q) ≤ room (get_elem? q.used slot)
unfolding submitted
times-submitted-le o [] q slot = omega arith
times-submitted-le o (e ∷ es) q slot = omega (
  arith,
  step-room o e q slot,
  times-submitted-le o es (step o e q).0 slot,
  times-append slot (accepted e q) (submitted o es (step o e q).0),
)

-- No job is started twice.
pub started_once : (o : Options) (es : List Event) (slot : ℕ) → times slot (steps o es empty).1 ≤ 1
started_once o es slot = omega (
  arith,
  times-append slot (steps o es empty).1 (steps o es empty).0.waiting,
  ap (times slot) (started_in_order o es),
  times-submitted-le o es empty slot,
)
