-- ===== src/Workflow/Unrolling.antt =====
-- One round of the workflow graph, as a case analysis.
use open_blog_agent.Prelude.{ℕ, suc, ◌≡◌, refl, none, some, Option-cases, inl, inr}
use open_blog_agent.Types.Article.{Update}
use open_blog_agent.Workflow.State.{State, merge}
use open_blog_agent.Workflow.Errors.{Thrown, Result, ok, err, Result-cases}
use open_blog_agent.Workflow.Ports.{Options, Ports}
use open_blog_agent.Workflow.Exec.{World}
use open_blog_agent.Workflow.Graph.{Node, name_of, body, step, next, proceed, follow, run_from}

module _ (o : Options) (p : Ports) where
  -- A node's execution by the step wrapper.
  abbrev pub taken : Node → State → World → Result Update × World
  taken n s w = step o p (name_of n) (body o p n) s w

  -- The step throws, or it is the last one, or another node follows.
  pub data IsUnrolled (limit : ℕ) (n : Node) (s : State) (w : World) : Type 0 where
    fails :
        (e : Thrown)
        → (taken n s w).0 ≡ err e
        → run_from o p (suc limit) n s w ≡ (err e, (taken n s w).1)
        → IsUnrolled limit n s w
    ends :
        (u : Update)
        → (taken n s w).0 ≡ ok u
        → next o p n (merge s u) ≡ none
        → run_from o p (suc limit) n s w ≡ (ok (merge s u), (taken n s w).1)
        → IsUnrolled limit n s w
    goes :
        (u : Update) (n' : Node)
        → (taken n s w).0 ≡ ok u
        → next o p n (merge s u) ≡ some n'
        → run_from o p (suc limit) n s w ≡ run_from o p limit n' (merge s u) (taken n s w).1
        → IsUnrolled limit n s w

  pub unroll : (limit : ℕ) (n : Node) (s : State) (w : World) → IsUnrolled limit n s w
  unfolding run_from proceed follow
  unroll limit n s w = elim (Result-cases (taken n s w).0) [
    | inr (e, thrown) ↦ fails e thrown (rw thrown refl)
    | inl (u, done) ↦ elim (Option-cases (next o p n (merge s u))) [
      | inl last ↦ ends u done last (rw (done, last) refl)
      | inr (n', more) ↦ goes u n' done more (rw (done, more) refl)
    ]
  ]
