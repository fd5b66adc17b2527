-- ===== src/Workflow/Sending.antt =====
-- What a run gives to the publisher
-- (packages/graph/src/workflows/article-generation-workflow.ts).
use open_blog_agent.Prelude.{
  ℕ, zero, suc, ◌≡◌, refl, String, true, false, Option, none, some, [], ◌∷◌, ◌++◌, if◌then◌else◌,
  arith, or_else, inl, inr, Bool-cases, Option-cases, ◌⊎◌, ◌≢◌, ◌∙◌, ap,
}
use open_blog_agent.Types.Publish.{PublishArticle, PostStatus, PublishResult}
use open_blog_agent.Types.Article.{Update}
use open_blog_agent.Workflow.State.{State, merge}
use open_blog_agent.Workflow.Errors.{Result, ok, err, Result-cases}
use open_blog_agent.Workflow.Ports.{Options, Ports}
use open_blog_agent.Workflow.Exec.{World, Exec, ◌>>=◌, required, pure}
use open_blog_agent.Workflow.Gates
use open_blog_agent.Workflow.Graph
use open_blog_agent.Workflow.Frames.{IsQuiet, finish_step-IsQuiet, step-IsQuiet}
use open_blog_agent.Workflow.Unrolling.{unroll, fails, ends, goes, taken}
use open_blog_agent.Workflow.Nodes.{current_article}
use open_blog_agent.Workflow.Gates.{is_live_policy, includes}
use open_blog_agent.Workflow.Graph.{
  Node, publisher, step, run_from, invoke, after_approval, body, finish_step, next, name_of, entry,
}

-- The status of what a run sends: a draft, unless articles that pass the gate go live.
abbrev pub status_for : Options → Option PostStatus
status_for o = some (if is_live_policy o.policy then PostStatus.publish else PostStatus.draft)

-- Nothing was sent, or one article.
pub data HasOffered (o : Options) (w w' : World) : Type 0 where
  kept : w'.sent ≡ w.sent → HasOffered o w w'
  offered :
      (post : PublishArticle)
      → w'.sent ≡ w.sent ++ post ∷ []
      → post.status ≡ status_for o
      → HasOffered o w w'

-- The state that a run of the graph ends in passed the quality gate. Nothing is said of an error.
pub IsPassed : Result State → Type 0
IsPassed (ok s) = s.quality_passed ≡ some true
IsPassed (err e) = Unit {0}

-- A run of the graph sends nothing, or one article, with the status of the policy, which is not to
-- wait for an approval, after the gate passed.
pub data IsSafe (o : Options) (w : World) (r : Result State × World) : Type 0 where
  quiet : r.1.sent ≡ w.sent → IsSafe o w r
  posted :
      (post : PublishArticle)
      → r.1.sent ≡ w.sent ++ post ∷ []
      → post.status ≡ status_for o
      → after_approval o.policy ≡ false
      → IsPassed r.0
      → IsSafe o w r

-- The node may run: the publisher only after the gate, and not under a policy of approval.
pub record IsAllowed (o : Options) (s : State) : Type 0 where
  pub passed : s.quality_passed ≡ some true
  pub policy : after_approval o.policy ≡ false

publisher-cases : (n : Node) → (n ≡ publisher) ⊎ (n ≢ publisher)
publisher-cases Graph.read_sources = inr (ground arith)
publisher-cases Graph.planner = inr (ground arith)
publisher-cases Graph.find_links = inr (ground arith)
publisher-cases Graph.writer = inr (ground arith)
publisher-cases Graph.editor = inr (ground arith)
publisher-cases Graph.seo = inr (ground arith)
publisher-cases Graph.duplicate_check = inr (ground arith)
publisher-cases Graph.quality = inr (ground arith)
publisher-cases Graph.editorial_review = inr (ground arith)
publisher-cases Graph.regenerate = inr (ground arith)
publisher-cases Graph.classification = inr (ground arith)
publisher-cases Graph.publisher = inl refl

module _ (o : Options) (p : Ports) where
  offered_required :
      {A B : Type 0} (a : Option A) (field : String) (f : A → Exec B) (w : World)
      → ((x : A) → HasOffered o w (f x w).1)
      → HasOffered o w ((required a field >>= f) w).1
  offered_required none field f w h = kept refl
  offered_required (some a) field f w h = h a

  offered_publish :
      (post : PublishArticle) (f : PublishResult → Update) (w : World)
      → post.status ≡ status_for o
      → HasOffered o w ((Gates.publish o p post >>= λ r. pure (f r)) w).1
  unfolding Gates.publish
  offered_publish post f w h = elim (Result-cases (p.publish w.calls post)) [
    | inl (r, done) ↦ rw done (offered post refl h)
    | inr (e, thrown) ↦ rw thrown (offered post refl h)
  ]

  offered_article :
      {B : Type 0} (s : State) (f : String → Exec B) (w : World)
      → ((x : String) → HasOffered o w (f x w).1)
      → HasOffered o w ((current_article s >>= f) w).1
  unfolding current_article
  offered_article s f w h = elim (Option-cases s.edited_text) [
    | inl missing ↦ rw missing (offered_required s.article _ f w h)
    | inr (text, found) ↦ rw found (h text)
  ]

  publisher-HasOffered : (s : State) (w : World) → HasOffered o w (Gates.publisher o p s w).1
  unfolding Gates.publisher
  publisher-HasOffered s w = offered_required s.seo_output _ _ w λ out.
      offered_article s _ w λ content. offered_required s.tags _ _ w λ tags.
        offered_required s.category _ _ w
          λ category. offered_required s.brief _ _ w λ brief. offered_publish _ _ w refl

  publisher-quality :
      (s : State) (w : World) (u : Update)
      → (Gates.publisher o p s w).0 ≡ ok u
      → u.quality_passed ≡ none
  unfolding Gates.publisher Gates.publish
  publisher-quality s w u h = ground arith

  offered_quiet : (w w' w'' : World) → HasOffered o w w' → IsQuiet w' w'' → HasOffered o w w''
  offered_quiet w w' w'' (kept e) q = kept (q.sent ∙ e)
  offered_quiet w w' w'' (offered post e h) q = offered post (q.sent ∙ e) h

  publisher_step-HasOffered : (s : State) (w : World) → HasOffered o w (taken o p publisher s w).1
  unfolding step body name_of
  publisher_step-HasOffered s w =
      elim (Bool-cases (includes (or_else s.completed_steps []) "publisher")) [
        | inl skipped ↦ rw skipped (kept refl)
        | inr due ↦
            let (r, w') = Gates.publisher o p s w in
            rw due (
              offered_quiet w w' _ (publisher-HasOffered s w)
                (finish_step-IsQuiet o p "publisher" s w r w'))
      ]

  -- The publisher does not change what the gate said.
  publisher_step-quality :
      (s : State) (w : World) (u : Update)
      → (taken o p publisher s w).0 ≡ ok u
      → (merge s u).quality_passed ≡ s.quality_passed
  unfolding step body merge finish_step name_of
  publisher_step-quality s w u h =
      elim (Bool-cases (includes (or_else s.completed_steps []) "publisher")) [
        | inl skipped ↦ ground arith
        | inr due ↦ elim (Result-cases (Gates.publisher o p s w).0) [
          | inl (v, done) ↦ ground (arith, publisher-quality s w v done)
          | inr (e, thrown) ↦ ground arith
        ]
      ]

  -- The publisher is entered only from the classification, when the gate passed and articles do not
  -- wait for an approval.
  pub next-publisher : (n : Node) (s : State) → next o p n s ≡ some publisher → IsAllowed o s
  unfolding next
  next-publisher Graph.read_sources s h = ground arith
  next-publisher Graph.planner s h = ground arith
  next-publisher Graph.find_links s h = ground arith
  next-publisher Graph.writer s h = ground arith
  next-publisher Graph.editor s h = ground arith
  next-publisher Graph.seo s h = ground arith
  next-publisher Graph.duplicate_check s h = ground arith
  next-publisher Graph.quality s h = ground arith
  next-publisher Graph.editorial_review s h = ground arith
  next-publisher Graph.regenerate s h = ground arith
  next-publisher Graph.classification s h = ground arith
  next-publisher Graph.publisher s h = ground arith

  IsSafe-after :
      (w : World) (r : Result State × World)
      → HasOffered o w r.1
      → after_approval o.policy ≡ false
      → IsPassed r.0
      → IsSafe o w r
  IsSafe-after w r (kept e) h q = quiet e
  IsSafe-after w r (offered post e status) h q = posted post e status h q

  -- The publisher is the last node.
  publisher_step-IsSafe :
      (limit : ℕ) (s : State) (w : World)
      → IsAllowed o s
      → IsSafe o w (run_from o p (suc limit) publisher s w)
  unfolding IsPassed next
  publisher_step-IsSafe limit s w h =
      let sends = publisher_step-HasOffered s w in
      elim (unroll o p limit publisher s w) [
        | fails e thrown q ↦ rw q (IsSafe-after w (err e, _) sends h.policy tt)
        | ends u done last q ↦ rw q (
            IsSafe-after w (ok (merge s u), _) sends h.policy
              (publisher_step-quality s w u done ∙ h.passed))
        | goes u n' done more q ↦ absurd (ground arith)
      ]

  IsSafe-kept :
      (w w' : World) (r : Result State × World) → w'.sent ≡ w.sent → IsSafe o w' r → IsSafe o w r
  IsSafe-kept w w' r e (quiet q) = quiet (q ∙ e)
  IsSafe-kept w w' r e (posted post q status h passed) =
      posted post (q ∙ ap (λ l. l ++ post ∷ []) e) status h passed

  run_from-IsSafe :
      (limit : ℕ) (n : Node) (s : State) (w : World)
      → (n ≢ publisher) ⊎ IsAllowed o s
      → IsSafe o w (run_from o p limit n s w)
  run_from-IsSafe zero n s w h = unfold run_from in quiet refl
  run_from-IsSafe (suc limit) n s w h = elim (step-IsQuiet o p n s w) [
    | inl e ↦ elim h [
      | inl other ↦ absurd (other e)
      | inr allowed ↦ rw e (publisher_step-IsSafe limit s w allowed)
    ]
    | inr silent ↦ elim (unroll o p limit n s w) [
      | fails e thrown q ↦ rw q (quiet silent.sent)
      | ends u done last q ↦ rw q (quiet silent.sent)
      | goes u n' done more q ↦ rw q (
          IsSafe-kept w _ _ silent.sent (
            run_from-IsSafe limit n' (merge s u) _ (elim (publisher-cases n') [
              | inl is ↦ inr (next-publisher n _ (more ∙ ap some is))
              | inr other ↦ inl other
            ])))
    ]
  ]

  entry-other : (s : State) → entry o p s ≢ publisher
  unfolding entry
  entry-other s h = ground arith

  -- A run of the graph, from its start, sends nothing or one article, with the status of the
  -- policy; it sends only when articles do not wait for an approval, and when it returns a state
  -- after it has sent one, the gate passed in that state.
  pub invoke-IsSafe : (s : State) (w : World) → IsSafe o w (invoke o p s w)
  unfolding invoke
  invoke-IsSafe s w = run_from-IsSafe o.recursion_limit (entry o p s) s w (inl (entry-other s))
