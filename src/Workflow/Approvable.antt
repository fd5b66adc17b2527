-- ===== src/Workflow/Approvable.antt =====
-- Which stored articles may be approved (packages/graph/src/workflows/article-generation-workflow.ts).
use open_blog_agent.Prelude.{
  ◌≡◌, ◌≢◌, refl, ◌⊎◌, inl, inr, String, Bool, true, false, Option, none, some, arith, Bool-cases,
  Option-cases, ◌==◌, ap, subst,
}
use open_blog_agent.Storage.Models.{WorkflowStatus, ReviewState, ArticleRecord}
use open_blog_agent.Storage.MemoryReviews.{LoadedArticle}
use open_blog_agent.Workflow.Reviews.{
  Publishable, approval_refusal, is_rejected, gate_is_passed, publishable, publishable_parts,
  usable, is_published,
}

-- What an approval needs: no rejection, no publication yet, the gate or a reason to override it,
-- and a title, a slug and a description.
pub record IsApprovable (l : LoadedArticle) (reason : Option String) (t : Publishable)
    : Type 0 where
  pub unrejected_run : l.workflow_status ≢ WorkflowStatus.rejected
  pub unrejected : l.article.review_state ≢ ReviewState.rejected
  pub unpublished : l.article.review_state ≢ ReviewState.published
  pub gate : (l.article.gate_passed ≡ some true) ⊎ ((why : String) × (reason ≡ some why))
  pub titled : (l.article.title ≡ some t.title) × ((t.title == "") ≡ false)
  pub slugged : (l.article.slug ≡ some t.slug) × ((t.slug == "") ≡ false)
  pub described : l.article.seo.meta_description ≡ some t.description

gate_is_passed-eq : (g : Option Bool) → gate_is_passed g ≡ true → g ≡ some true
gate_is_passed-eq none h = cc
gate_is_passed-eq (some true) h = refl
gate_is_passed-eq (some false) h = cc

unrefused :
    (s : WorkflowStatus) (r : ReviewState) → is_rejected s r ≡ false → s ≢ WorkflowStatus.rejected
unrefused s r h e = ground arith

unrefused_article :
    (s : WorkflowStatus) (r : ReviewState) → is_rejected s r ≡ false → r ≢ ReviewState.rejected
unrefused_article s r h e = ground arith

usable-eq :
    (text : Option String) (s : String)
    → usable text ≡ some s
    → (text ≡ some s) × ((s == "") ≡ false)
usable-eq none s h = cc
usable-eq (some x) s h = elim (Bool-cases (x == "")) [
  | inl empty ↦ ground arith
  | inr given ↦
      let same : x ≡ s = ground arith in (ap some same, subst (λ y. (y == "") ≡ false) same given)
]

publishable_parts-eq :
    (a b d : Option String) (t : Publishable)
    → publishable_parts a b d ≡ some t
    → (a ≡ some t.title) × (b ≡ some t.slug) × (d ≡ some t.description)
publishable_parts-eq none b d t h = cc
publishable_parts-eq (some a) none d t h = cc
publishable_parts-eq (some a) (some b) none t h = cc
publishable_parts-eq (some a) (some b) (some d) t h = (ground arith, ground arith, ground arith)

pub approval_refusal-IsApprovable :
    (l : LoadedArticle) (reason : Option String) (t : Publishable)
    → approval_refusal l reason ≡ none
    → publishable l.article ≡ some t
    → IsApprovable l reason t
unfolding approval_refusal publishable
approval_refusal-IsApprovable l reason t h k =
    let parts =
      publishable_parts-eq (usable l.article.title) (usable l.article.slug)
        l.article.seo.meta_description t k in
    let free : is_rejected l.workflow_status l.article.review_state ≡ false = ground arith in
    record {
      unrejected_run = unrefused _ _ free;
      unrejected = unrefused_article l.workflow_status _ free;
      unpublished = ground arith;
      gate = elim (Bool-cases (gate_is_passed l.article.gate_passed)) [
        | inl passed ↦ inl (gate_is_passed-eq l.article.gate_passed passed)
        | inr failed ↦ elim (Option-cases reason) [
          | inl missing ↦ absurd (ground arith)
          | inr why ↦ inr why
        ]
      ];
      titled = usable-eq _ _ parts.0;
      slugged = usable-eq _ _ parts.1;
      described = parts.2;
    }

not_rejected :
    (s : WorkflowStatus) (r : ReviewState)
    → s ≢ WorkflowStatus.rejected
    → r ≢ ReviewState.rejected
    → is_rejected s r ≡ false
not_rejected s r h k = ground arith

not_published : (r : ReviewState) → r ≢ ReviewState.published → is_published r ≡ false
not_published r h = ground arith

publishable-eq :
    (a : ArticleRecord) (t : Publishable)
    → (a.title ≡ some t.title) × ((t.title == "") ≡ false)
    → (a.slug ≡ some t.slug) × ((t.slug == "") ≡ false)
    → a.seo.meta_description ≡ some t.description
    → publishable a ≡ some t
unfolding publishable
publishable-eq a t h k d = simp (h.0, h.1, k.0, k.1, d)

-- what is approvable is not refused
pub IsApprovable-allowed :
    (l : LoadedArticle) (reason : Option String) (t : Publishable)
    → IsApprovable l reason t
    → (approval_refusal l reason ≡ none) × (publishable l.article ≡ some t)
unfolding approval_refusal
IsApprovable-allowed l reason t h =
    let free =
      not_rejected l.workflow_status l.article.review_state h.unrejected_run h.unrejected in
    let fresh = not_published l.article.review_state h.unpublished in
    let parts = publishable-eq l.article t h.titled h.slugged h.described in
    elim h.gate [
      | inl passed ↦ (ground (arith, free, fresh, parts, passed), parts)
      | inr (why, said) ↦ (ground (arith, free, fresh, parts, said), parts)
    ]
