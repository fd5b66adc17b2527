-- ===== src/Workflow/Guards.antt =====
-- When a stored article may be approved, rejected, revised or resumed
-- (packages/graph/src/workflows/article-generation-workflow.ts).
use open_blog_agent.Prelude.{
  ◌≡◌, refl, ◌⊎◌, suc, or_else, inl, inr, String, Bool, true, false, not, Option, none, some, [],
  ◌∷◌, ◌++◌, ℕ, if◌then◌else◌, arith, Bool-cases, Option-cases, ◌==◌, subst,
}
use open_blog_agent.Types.Publish.{PostStatus, PublishArticle, PublishResult}
use open_blog_agent.Storage.Models.{Db}
use open_blog_agent.Workflow.Outcome.{publisher_failure}
use open_blog_agent.Storage.MemoryReviews.{
  LoadedArticle, LoadedWorkflow, load_article, load_workflow, begin_approval, complete_approval,
  reject_workflow,
}
use open_blog_agent.Workflow.Errors.{Thrown, Result, ok, err, Result-cases}
use open_blog_agent.Workflow.Ports.{Options, Ports}
use open_blog_agent.Workflow.Exec.{World, Exec}
use open_blog_agent.Workflow.Gates
use open_blog_agent.Workflow.Reviews.{
  ApprovalResult, Publishable, approval_refusal, approval_result, approved_post, gate_is_passed,
  publishable, language_of, trimmed_text, approve, approve_loaded, publish_approved, reject,
  load_reviewable, reviewable, review_refusal, review_error,
}
use open_blog_agent.Workflow.Approvable.{
  IsApprovable, approval_refusal-IsApprovable, IsApprovable-allowed,
}

-- the reason that is stored with an approval: none where the gate was passed
abbrev pub kept_reason : Option Bool → Option String → Option String
kept_reason (some true) why = none
kept_reason (some false) why = why
kept_reason none why = why

kept_reason-eq :
    (g : Option Bool) (why : Option String)
    → (if gate_is_passed g then none else why) ≡ kept_reason g why
kept_reason-eq none why = refl
kept_reason-eq (some true) why = refl
kept_reason-eq (some false) why = refl

module _ (o : Options) (p : Ports) (id by : String) (reason : Option String) where
  abbrev pub override : Option String
  override = trimmed_text p.trim reason

  -- the store after the approval was noted
  abbrev pub noted : LoadedArticle → World → Db
  noted l w =
      begin_approval id by (kept_reason l.article.gate_passed override) (p.clock w.calls) w.db

  -- the article that must be sent: the edited text of the stored one, to be published
  abbrev pub post_of : LoadedArticle → Publishable → World → PublishArticle
  post_of l t w = record {
    title = t.title;
    slug = t.slug;
    summary = t.description;
    content = l.article.edited_markdown;
    created_at = p.clock w.calls;
    updated_at = p.clock w.calls;
    tags = l.article.tags;
    category = or_else l.article.category o.default_category;
    author = "OpenBlogAgent";
    language = or_else (language_of (load_workflow id (noted l w))) o.content_language;
    status = some PostStatus.publish;
    revises_draft = none;
    publisher_id = none;
  }

  -- what an approval returns when the publisher answered
  abbrev pub answered : Publishable → PublishResult → ApprovalResult
  answered t result = record {
    published = result.success;
    workflow_id = id;
    title = t.title;
    slug = t.slug;
    publish_result = result;
    failure = if result.success then none else some (publisher_failure (some result));
  }

  -- There is no store, or no stored article of the run that could be approved.
  abbrev pub Unapprovable : World → Type 0
  Unapprovable w =
      (o.memory ≡ false)
      ⊎ ((l : LoadedArticle)
          → load_article id w.db ≡ some l
          → (t : Publishable) → IsApprovable l override t
          → ⊥)

  -- How an approval ends: refused, with nothing changed and nothing sent; or the article could be
  -- approved, exactly one article was sent, and the publisher threw, or answered.
  pub data IsGuarded (w : World) (r : Result ApprovalResult × World) : Type 0 where
    refused : (e : Thrown) → Unapprovable w → r ≡ (err e, w) → IsGuarded w r
    unsettled :
        (l : LoadedArticle) (t : Publishable) (e : Thrown)
        → load_article id w.db ≡ some l
        → IsApprovable l override t
        → p.publish w.calls (post_of l t w) ≡ err e
        → r.0 ≡ err e
        → r.1.sent ≡ w.sent ++ post_of l t w ∷ []
        → r.1.db ≡ noted l w
        → IsGuarded w r
    settled :
        (l : LoadedArticle) (t : Publishable) (result : PublishResult)
        → load_article id w.db ≡ some l
        → IsApprovable l override t
        → p.publish w.calls (post_of l t w) ≡ ok result
        → r.0 ≡ ok (answered t result)
        → r.1.sent ≡ w.sent ++ post_of l t w ∷ []
        → r.1.db ≡ complete_approval id result (p.clock (suc w.calls)) (noted l w)
        → IsGuarded w r

  publish_approved-IsGuarded :
      (l : LoadedArticle) (t : Publishable) (w : World)
      → load_article id w.db ≡ some l
      → IsApprovable l override t
      → IsGuarded w (publish_approved o p id by override l.article t w)
  unfolding publish_approved Gates.publish approved_post approval_result
  publish_approved-IsGuarded l t w found h =
      rw (kept_reason-eq l.article.gate_passed override)
        (elim (Result-cases (p.publish w.calls (post_of l t w))) [
          | inl (result, done) ↦ rw done (settled l t result found h done refl refl refl)
          | inr (e, thrown) ↦ rw thrown (unsettled l t e found h thrown refl refl refl)
        ])

  unloaded : (w : World) → load_article id w.db ≡ none → Unapprovable w
  unloaded w missing = inr (λ l found t h. cc)

  loaded_once :
      (w : World) (l : LoadedArticle)
      → load_article id w.db ≡ some l
      → ((t : Publishable) → IsApprovable l override t → ⊥)
      → Unapprovable w
  loaded_once w l found never = inr (λ l' found' t h.
      let same : l' ≡ l = cc in
      never t (subst (λ (x : LoadedArticle). IsApprovable x override t) same h))

  approve_loaded-IsGuarded :
      (w : World) (l : Option LoadedArticle)
      → load_article id w.db ≡ l
      → IsGuarded w (approve_loaded o p id by override l w)
  unfolding approve_loaded
  approve_loaded-IsGuarded w none found = refused _ (unloaded w found) refl
  approve_loaded-IsGuarded w (some l) found = elim (Option-cases (approval_refusal l override)) [
    | inr (code, stop) ↦
        rw (stop, approve_loaded)
          (refused _
            (loaded_once w l found
              (λ t h. let free = (IsApprovable-allowed l override t h).0 in cc))
            refl)
    | inl allowed ↦ elim (Option-cases (publishable l.article)) [
      | inl missing ↦
          rw (allowed, missing, approve_loaded)
            (refused _
              (loaded_once w l found
                (λ t h. let parts = (IsApprovable-allowed l override t h).1 in cc))
              refl)
      | inr (t, parts) ↦
          rw (allowed, parts, approve_loaded)
            (publish_approved-IsGuarded l t w found
              (approval_refusal-IsApprovable l override t allowed parts))
    ]
  ]

  IsGuarded-if :
      (b : Bool) (m n : Exec ApprovalResult) (w : World)
      → (b ≡ true → IsGuarded w (m w))
      → (b ≡ false → IsGuarded w (n w))
      → IsGuarded w ((if b then m else n) w)
  IsGuarded-if true m n w h k = h refl
  IsGuarded-if false m n w h k = k refl

  -- An approval is refused with the world as it was, and only where there is no store or no stored
  -- article that may be approved, or the stored article is neither rejected nor published, has passed
  -- the gate or is approved with a reason, has a title, a slug and a description, and exactly one
  -- article is sent, with the edited text that is stored, to be published. Where the publisher throws,
  -- its error is thrown and only the approval is stored; where it answers, exactly its answer is
  -- returned and stored.
  pub approve-IsGuarded : (w : World) → IsGuarded w (approve o p id by reason w)
  unfolding approve
  approve-IsGuarded w =
      IsGuarded-if (not o.memory) _ _ w (λ missing. refused _ (inl (ground arith)) refl)
        (λ there. approve_loaded-IsGuarded w (load_article id w.db) refl)

module _ (o : Options) (p : Ports) (id by reason : String) where
  -- How a rejection ends.
  pub data IsRejection (w : World) (r : Result (Unit {0}) × World) : Type 0 where
    refused : (e : Thrown) → r ≡ (err e, w) → IsRejection w r
    stored :
        (l : LoadedWorkflow) (decision : String) (now : ℕ)
        → load_workflow id w.db ≡ some l
        → review_refusal l.status ≡ none
        → r.0 ≡ ok tt
        → r.1.db ≡ reject_workflow decision id by (p.trim reason) now w.db
        → r.1.sent ≡ w.sent
        → IsRejection w r

  IsRejection-if :
      (b : Bool) (m n : Exec (Unit {0})) (w : World)
      → IsRejection w (m w)
      → IsRejection w (n w)
      → IsRejection w ((if b then m else n) w)
  IsRejection-if true m n w h k = h
  IsRejection-if false m n w h k = k

  load_reviewable-cases :
      (w : World)
      → ((e : Thrown) × (load_reviewable o p id w ≡ (err e, w)))
        ⊎ ((l : LoadedWorkflow) × (load_workflow id w.db ≡ some l)
            × (review_refusal l.status ≡ none)
            × (load_reviewable o p id w ≡ (ok l, w)))
  unfolding load_reviewable reviewable
  load_reviewable-cases w = elim (Bool-cases o.memory) [
    | inr missing ↦ inl (review_error "memory_unavailable", rw missing refl)
    | inl there ↦ elim (Option-cases (load_workflow id w.db)) [
      | inl missing ↦ inl (review_error "not_found", rw (there, missing) refl)
      | inr (l, found) ↦ elim (Option-cases (review_refusal l.status)) [
        | inr (code, stop) ↦ inl (review_error code, rw (there, found, stop, reviewable) refl)
        | inl allowed ↦ inr (l, found, allowed, rw (there, found, allowed, reviewable) refl)
      ]
    ]
  ]

  -- A rejection is refused with the world as it was, or the run waits for a review and what is
  -- stored is the rejection with the trimmed reason, and nothing is sent.
  pub reject-IsRejection : (w : World) → IsRejection w (reject o p id by reason w)
  unfolding reject
  reject-IsRejection w =
      IsRejection-if (p.trim reason == "") _ _ w (refused _ refl) (elim (load_reviewable-cases w) [
        | inl (e, stop) ↦ rw stop (refused e refl)
        | inr (l, found, allowed, same) ↦ rw same (stored l _ _ found allowed refl refl refl)
      ])
