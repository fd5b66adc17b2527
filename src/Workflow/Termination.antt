-- ===== src/Workflow/Termination.antt =====
-- The graph of the workflow ends
-- (packages/graph/src/workflows/article-generation-workflow.ts).
use open_blog_agent.Prelude.{
  ℕ, zero, suc, ◌+◌, ◌*◌, ◌-◌, ◌≡◌, refl, subst, Bool, true, none, some, [], arith, or_else, inl,
  inr, Bool-cases, ◌⊎◌, is_some, ◌<◌, false, ◌≤◌, String, List, not, keep, ◌∷◌,
}
use open_blog_agent.Types.Article.{Update}
use open_blog_agent.Workflow.State.{State, merge}
use open_blog_agent.Workflow.Errors.{
  Result, ok, err, Thrown, as_step_error, step_error, Result-cases,
}
use open_blog_agent.Workflow.Ports.{Options, Ports}
use open_blog_agent.Workflow.Exec.{World}
use open_blog_agent.Workflow.Nodes
use open_blog_agent.Workflow.Gates
use open_blog_agent.Workflow.Gates.{includes, redo}
use open_blog_agent.Workflow.Graph
use open_blog_agent.Workflow.Graph.{
  Node, name_of, step, run_from, invoke, next, entry, body, finish_step,
}
use open_blog_agent.Workflow.Unrolling.{taken, unroll, fails, ends, goes}

-- The graph ended in a state, or a step threw: the graph library did not give up.
pub IsAnswered : Result State → Type 0
IsAnswered (ok s) = Unit {0}
IsAnswered (err e) = is_some e.step ≡ true

-- An upper bound on the nodes that run from a node on, with regenerations left.
cost : Node → ℕ → ℕ
cost Graph.read_sources r = 11 + 6 * r
cost Graph.planner r = 10 + 6 * r
cost Graph.find_links r = 9 + 6 * r
cost Graph.writer r = 8 + 6 * r
cost Graph.editor r = 7 + 6 * r
cost Graph.seo r = 6 + 6 * r
cost Graph.duplicate_check r = 5 + 6 * r
cost Graph.quality r = 4 + 6 * r
cost Graph.editorial_review r = 3
cost Graph.regenerate zero = 9
cost Graph.regenerate (suc r) = 9 + 6 * r
cost Graph.classification r = 2
cost Graph.publisher r = 1

-- What a node returns leaves the counter of regenerations and the completed steps.
record IsPlain (u : Update) : Type 0 where
  regenerations : u.regenerations ≡ none
  completed_steps : u.completed_steps ≡ none

includes-keep :
    (f : String → Bool) (xs : List String) (name : String)
    → includes xs name ≡ false
    → includes (keep f xs) name ≡ false
includes-keep f [] name h = refl
includes-keep f (x ∷ xs) name h = ground (arith, includes-keep f xs name)

cost-positive : (n : Node) (r : ℕ) → ¬ (cost n r ≤ 0)
unfolding cost
cost-positive n r h = ground arith

module _ (o : Options) (p : Ports) where
  planner-IsPlain :
      (s : State) (w : World) (u : Update) → (Nodes.planner o p s w).0 ≡ ok u → IsPlain u
  unfolding Nodes.planner
  planner-IsPlain s w u h = ground arith

  read_sources-IsPlain :
      (s : State) (w : World) (u : Update) → (Nodes.read_sources o p s w).0 ≡ ok u → IsPlain u
  unfolding Nodes.read_sources Nodes.read_with Nodes.sources_update
  read_sources-IsPlain s w u h = ground arith

  find_links-IsPlain :
      (s : State) (w : World) (u : Update) → (Nodes.find_links o p s w).0 ≡ ok u → IsPlain u
  unfolding Nodes.find_links
  find_links-IsPlain s w u h = ground arith

  writer-IsPlain :
      (s : State) (w : World) (u : Update) → (Nodes.writer o p s w).0 ≡ ok u → IsPlain u
  unfolding Nodes.writer
  writer-IsPlain s w u h = ground arith

  editor-IsPlain :
      (s : State) (w : World) (u : Update) → (Nodes.editor o p s w).0 ≡ ok u → IsPlain u
  unfolding Nodes.editor
  editor-IsPlain s w u h = ground arith

  seo-IsPlain : (s : State) (w : World) (u : Update) → (Nodes.seo o p s w).0 ≡ ok u → IsPlain u
  unfolding Nodes.seo
  seo-IsPlain s w u h = ground arith

  duplicate_check-IsPlain :
      (s : State) (w : World) (u : Update) → (Gates.duplicate_check o p s w).0 ≡ ok u → IsPlain u
  unfolding Gates.duplicate_check
  duplicate_check-IsPlain s w u h = ground arith

  quality-IsPlain :
      (s : State) (w : World) (u : Update) → (Gates.quality o p s w).0 ≡ ok u → IsPlain u
  unfolding Gates.quality
  quality-IsPlain s w u h = ground arith

  editorial_review-IsPlain :
      (s : State) (w : World) (u : Update) → (Gates.editorial_review o p s w).0 ≡ ok u → IsPlain u
  unfolding Gates.editorial_review
  editorial_review-IsPlain s w u h = ground arith

  classification-IsPlain :
      (s : State) (w : World) (u : Update) → (Gates.classification o p s w).0 ≡ ok u → IsPlain u
  unfolding Gates.classification
  classification-IsPlain s w u h = ground arith

  publisher-IsPlain :
      (s : State) (w : World) (u : Update) → (Gates.publisher o p s w).0 ≡ ok u → IsPlain u
  unfolding Gates.publisher
  publisher-IsPlain s w u h = ground arith

  body-IsPlain :
      (n : Node) (s : State) (w : World) (u : Update)
      → (body o p n s w).0 ≡ ok u
      → (n ≡ Graph.regenerate) ⊎ IsPlain u
  unfolding body
  body-IsPlain Graph.read_sources s w u h = inr (read_sources-IsPlain s w u h)
  body-IsPlain Graph.planner s w u h = inr (planner-IsPlain s w u h)
  body-IsPlain Graph.find_links s w u h = inr (find_links-IsPlain s w u h)
  body-IsPlain Graph.writer s w u h = inr (writer-IsPlain s w u h)
  body-IsPlain Graph.editor s w u h = inr (editor-IsPlain s w u h)
  body-IsPlain Graph.seo s w u h = inr (seo-IsPlain s w u h)
  body-IsPlain Graph.duplicate_check s w u h = inr (duplicate_check-IsPlain s w u h)
  body-IsPlain Graph.quality s w u h = inr (quality-IsPlain s w u h)
  body-IsPlain Graph.editorial_review s w u h = inr (editorial_review-IsPlain s w u h)
  body-IsPlain Graph.regenerate s w u h = inl refl
  body-IsPlain Graph.classification s w u h = inr (classification-IsPlain s w u h)
  body-IsPlain Graph.publisher s w u h = inr (publisher-IsPlain s w u h)

  -- The step wrapper names its step in what it throws.
  taken-IsAnswered :
      (n : Node) (s : State) (w : World) (e : Thrown)
      → (taken o p n s w).0 ≡ err e
      → is_some e.step ≡ true
  unfolding step finish_step as_step_error step_error
  taken-IsAnswered n s w e h = ground arith

  taken-IsPlain :
      (n : Node) (s : State) (w : World) (u : Update)
      → (taken o p n s w).0 ≡ ok u
      → (n ≡ Graph.regenerate) ⊎ IsPlain u
  unfolding step finish_step
  taken-IsPlain n s w u h =
      elim (Bool-cases (includes (or_else s.completed_steps []) (name_of n))) [
        | inl skipped ↦ inr (ground arith)
        | inr due ↦ elim (Result-cases (body o p n s w).0) [
          | inl (v, done) ↦ ground (arith, body-IsPlain n s w v done)
          | inr (e, thrown) ↦ ground arith
        ]
      ]

  abbrev left : State → ℕ
  left s = o.max_regenerations - s.regenerations

  abbrev is_stuck : State → Bool
  is_stuck s = includes (or_else s.completed_steps []) "regenerate"

  next-cost :
      (n n' : Node) (s : State)
      → next o p n s ≡ some n'
      → (n ≡ Graph.regenerate) ⊎ (cost n' (left s) < cost n (left s))
  unfolding next cost
  next-cost Graph.read_sources n' s h = inr (ground arith)
  next-cost Graph.planner n' s h = inr (ground arith)
  next-cost Graph.find_links n' s h = inr (ground arith)
  next-cost Graph.writer n' s h = inr (ground arith)
  next-cost Graph.editor n' s h = inr (ground arith)
  next-cost Graph.seo n' s h = inr (ground arith)
  next-cost Graph.duplicate_check n' s h = inr (ground arith)
  next-cost Graph.quality n' s h = inr (ground arith)
  next-cost Graph.editorial_review n' s h = inr (ground arith)
  next-cost Graph.regenerate n' s h = inl refl
  next-cost Graph.classification n' s h = inr (ground arith)
  next-cost Graph.publisher n' s h = ground arith

  merge-left :
      (s : State) (u : Update)
      → IsPlain u
      → (left (merge s u) ≡ left s) × (is_stuck (merge s u) ≡ is_stuck s)
  unfolding merge
  merge-left s u h = ground arith

  taken-regenerate :
      (s : State) (w : World) (u : Update)
      → is_stuck s ≡ false
      → (taken o p Graph.regenerate s w).0 ≡ ok u
      → (left (merge s u) ≡ left s - 1) × (is_stuck (merge s u) ≡ false)
  unfolding step finish_step merge body name_of Gates.regenerate
  taken-regenerate s w u stuck h = ground (
    arith,
    includes-keep (λ name. not (includes redo name)) (or_else s.completed_steps []) "regenerate"
        stuck,
  )

  pred-cost : (r r' : ℕ) → r' ≡ r - 1 → cost Graph.writer r' < cost Graph.regenerate r
  unfolding cost
  pred-cost zero r' h = ground arith
  pred-cost (suc r) r' h = ground arith

  regenerate_case :
      (n n' : Node) (s : State) (w : World) (u : Update)
      → n ≡ Graph.regenerate
      → is_stuck s ≡ false
      → (taken o p n s w).0 ≡ ok u
      → next o p n (merge s u) ≡ some n'
      → (cost n' (left (merge s u)) < cost n (left s)) × (is_stuck (merge s u) ≡ false)
  unfolding next
  regenerate_case n n' s w u e stuck done more =
      let (fewer, kept) =
        taken-regenerate s w u stuck (subst (λ m. (taken o p m s w).0 ≡ ok u) e done) in
      let to_writer : Graph.writer ≡ n' =
        ground (arith, subst (λ m. next o p m (merge s u) ≡ some n') e more) in
      (rw (e, ← to_writer) (pred-cost (left s) (left (merge s u)) fewer), kept)

  -- Every step leads to a node with a smaller bound, and "regenerate" is never marked as completed.
  taken-cost :
      (n n' : Node) (s : State) (w : World) (u : Update)
      → is_stuck s ≡ false
      → (taken o p n s w).0 ≡ ok u
      → next o p n (merge s u) ≡ some n'
      → (cost n' (left (merge s u)) < cost n (left s)) × (is_stuck (merge s u) ≡ false)
  taken-cost n n' s w u stuck done more = elim (taken-IsPlain n s w u done) [
    | inl e ↦ regenerate_case n n' s w u e stuck done more
    | inr plain ↦ elim (next-cost n n' (merge s u) more) [
      | inl e ↦ regenerate_case n n' s w u e stuck done more
      | inr less ↦ ground (arith, merge-left s u plain)
    ]
  ]

  run_from-IsAnswered :
      (limit : ℕ) (n : Node) (s : State) (w : World)
      → is_stuck s ≡ false
      → cost n (left s) ≤ limit
      → IsAnswered (run_from o p limit n s w).0
  unfolding IsAnswered
  run_from-IsAnswered zero n s w stuck enough = absurd (cost-positive n (left s) enough)
  run_from-IsAnswered (suc limit) n s w stuck enough = elim (unroll o p limit n s w) [
    | fails e thrown q ↦ rw q (taken-IsAnswered n s w e thrown)
    | ends u done last q ↦ rw q tt
    | goes u n' done more q ↦
        let (less, kept) = taken-cost n n' s w u stuck done more in
        rw q (run_from-IsAnswered limit n' (merge s u) _ kept (omega arith))
  ]

  entry-cost : (s : State) (r : ℕ) → cost (entry o p s) r ≤ 11 + 6 * r
  unfolding entry cost
  entry-cost s r = ground arith

  -- When "regenerate" is not among the completed steps and the graph library's limit allows eleven
  -- nodes and six more for each regeneration, the graph ends in a state or with the error of a
  -- step, never because the limit was reached.
  pub invoke-IsAnswered :
      (s : State) (w : World)
      → includes (or_else s.completed_steps []) "regenerate" ≡ false
      → 11 + 6 * o.max_regenerations ≤ o.recursion_limit
      → IsAnswered (invoke o p s w).0
  unfolding invoke
  invoke-IsAnswered s w stuck enough =
      run_from-IsAnswered o.recursion_limit (entry o p s) s w stuck
        (omega (arith, entry-cost s (left s)))
