-- ===== src/Workflow/Gates.antt =====
-- The nodes after the SEO step: duplicates, quality gate, review, classification, publication
-- (packages/graph/src/workflows/article-generation-workflow.ts).
use open_blog_agent.Prelude.{
  suc, ◌+◌, String, Bool, true, false, not, ◌||◌, ◌==◌, Option, none, some, List, [], ◌∷◌, ◌++◌,
  map, keep, if◌then◌else◌, or_else, or_option, leb, join,
}
use open_blog_agent.Types.Publish.{PostStatus, PublishArticle, PublishResult, ExistingPost}
use open_blog_agent.Types.Article.{
  SeoOutput, QualityViolation, Severity, DuplicateInfo, MatchedOn, SourceDocument, InternalLink,
  EditorialReview, Update, no_update,
}
use open_blog_agent.Storage.MemoryReviews.{find_duplicate_article}
use open_blog_agent.Workflow.State.{State}
use open_blog_agent.Workflow.Ports.{
  Options, Ports, PublicationPolicy, publish_if_gate_passes, LinkRules,
}
use open_blog_agent.Workflow.Exec.{Exec, ◌>>=◌, pure, ask, ask_agent, get_world, required}
use open_blog_agent.Workflow.Nodes.{current_article, required_brief}

-- the steps that run again after a regeneration
abbrev pub redo : List String
redo = "writer" ∷ "editor" ∷ "seo" ∷ "duplicate_check" ∷ "quality" ∷ "editorial_review" ∷ []

-- `list.includes(name)`
abbrev pub includes : List String → String → Bool
includes [] name = false
includes (x ∷ xs) name = x == name || includes xs name

-- `state.ownSlug === slug`
abbrev pub is_slug : Option String → String → Bool
is_slug none slug = false
is_slug (some s) slug = s == slug

-- `[...new Set(urls)]`
unfoldable pub unique : List String → List String → List String
unique seen [] = seen
unique seen (u ∷ us) = unique (if includes seen u then seen else seen ++ u ∷ []) us

abbrev pub both_urls : List SourceDocument → List String
both_urls [] = []
both_urls (d ∷ ds) = d.url ∷ d.final_url ∷ both_urls ds

abbrev pub stored_duplicate : Option (String × MatchedOn) → Option DuplicateInfo
stored_duplicate none = none
stored_duplicate (some (id, on)) =
    some (record { matched_on = on; workflow_id = some id; remote = none })

unfoldable pub remote_duplicate :
    Option String → String → Option ExistingPost → Option DuplicateInfo
remote_duplicate own slug none = none
remote_duplicate own slug (some post) =
    if is_slug own slug
    then none
    else some (record {
      matched_on = MatchedOn.remote;
      workflow_id = none;
      remote = some (or_else (or_option post.url post.id) slug);
    })

abbrev pub source_urls : Option (List SourceDocument) → Option (List String)
source_urls none = none
source_urls (some ds) = some (unique [] (both_urls ds))

abbrev pub is_live_policy : PublicationPolicy → Bool
is_live_policy publish_if_gate_passes = true
is_live_policy _ = false

module _ (o : Options) (p : Ports) where
  -- `memory && state.workflowId ? await memory.findDuplicateArticle(…) : null`
  unfoldable pub find_stored : Option String → SeoOutput → Exec (Option DuplicateInfo)
  find_stored none out = pure none
  find_stored (some id) out = do
    w ← get_world
    pure (
        if o.memory
        then stored_duplicate (find_duplicate_article p.lower id out.slug out.title w.db)
        else none)

  -- `publisher.findExisting?.(…)`
  unfoldable pub find_remote : String → Exec (Option ExistingPost)
  find_remote slug = elim p.find_existing [ none ↦ pure none | some find ↦ ask (λ n. find n slug) ]

  unfoldable pub duplicate_of :
      Option String → String → Option DuplicateInfo → Exec (Option DuplicateInfo)
  unfolding find_remote remote_duplicate
  duplicate_of own slug (some d) = pure (some d)
  duplicate_of own slug none = do remote ← find_remote slug; pure (remote_duplicate own slug remote)

  unfoldable pub duplicate_check : State → Exec Update
  unfolding find_stored duplicate_of
  duplicate_check s = do
    out ← required s.seo_output "seoOutput"
    stored ← find_stored s.workflow_id out
    duplicate ← duplicate_of s.own_slug out.slug stored
    pure (record no_update { duplicate = some duplicate })

  abbrev pub link_rules : Option (List InternalLink) → Option LinkRules
  link_rules none = none
  link_rules (some links) = some (record {
    urls = map (λ l. l.url) links;
    origins = elim o.site_origin [ none ↦ [] | some origin ↦ origin ∷ [] ];
  })

  unfoldable pub quality : State → Exec Update
  unfolding current_article
  quality s = do
    text ← current_article s
    brief ← required_brief s
    w ← get_world
    let verdict : Bool × List QualityViolation = p.validate (record {
      article = text;
      draft = s.article;
      outline = s.outline;
      seo = s.seo_output;
      keyword = brief.brief.target_keyword;
      language = brief.language;
      sources = source_urls s.sources;
      internal_links = link_rules s.internal_links;
      min_words = brief.min_words;
      max_words = brief.max_words;
    })
    pure (record no_update {
      quality_passed = some verdict.0;
      quality_violations = some verdict.1;
      llm_usage = some w.usage;
    })

  -- the message begins with the marks and ends with the reviewer's reason
  abbrev pub below_threshold : EditorialReview → QualityViolation
  below_threshold r = record {
    code = "editorial_review_below_threshold";
    severity = Severity.error;
    message = join "Editorial review scored " (
        join (p.show_number r.overall) (
          join "/10, below the minimum "
            (join (p.show_number o.review_min_score) (join ": " r.rationale))));
  }

  unfoldable pub editorial_review : State → Exec Update
  unfolding current_article
  editorial_review s = do
    out ← required s.seo_output "seoOutput"
    outline ← required s.outline "outline"
    text ← current_article s
    review ← ask_agent p (λ n. p.review n (record {
      outline = outline;
      article_text = text;
      title = out.title;
      meta_description = out.meta_description;
    }))
    pure (
        if leb o.review_min_score review.overall
        then record no_update { review = some review }
        else record no_update {
          review = some review;
          quality_passed = some false;
          quality_violations =
              some (or_else s.quality_violations [] ++ below_threshold review ∷ []);
        })

  unfoldable pub regenerate : State → Exec Update
  regenerate s = pure (record no_update {
    regenerations = some (s.regenerations + 1);
    quality_feedback = some (p.format_violations (or_else s.quality_violations []));
    completed_steps = some (keep (λ name. not (includes redo name)) (or_else s.completed_steps []));
  })

  -- `taxonomy ? await taxonomy.listCategories() : [defaultCategory]`, and the tags
  unfoldable pub taxonomy_choices : Exec (List String × List String)
  taxonomy_choices = elim p.list_categories [
    | none ↦ pure (o.default_category ∷ [], [])
    | some list_categories ↦ do
      categories ← ask list_categories
      tags ← ask p.list_tags
      pure (categories, tags)
  ]

  unfoldable pub classification : State → Exec Update
  unfolding current_article taxonomy_choices
  classification s = do
    choices ← taxonomy_choices
    text ← current_article s
    chosen ← ask_agent p (λ n. p.classification n (record {
      article_text = text;
      available_categories = choices.0;
      available_tags = choices.1;
      max_tags = o.max_tags;
    }))
    pure (record no_update { category = some chosen.0; tags = some chosen.1 })

  -- `publisher.publish(article)`: the article is sent, whatever comes back
  unfoldable pub publish : PublishArticle → Exec PublishResult
  publish article w =
      (p.publish w.calls article, record w { calls = suc w.calls; sent = w.sent ++ article ∷ [] })

  unfoldable pub publisher : State → Exec Update
  unfolding current_article publish
  publisher s = do
    out ← required s.seo_output "seoOutput"
    content ← current_article s
    tags ← required s.tags "tags"
    category ← required s.category "category"
    brief ← required_brief s
    w ← get_world
    result ← publish (record {
      title = out.title;
      slug = out.slug;
      summary = out.meta_description;
      content = content;
      created_at = p.clock w.calls;
      updated_at = p.clock w.calls;
      tags = tags;
      category = category;
      author = "OpenBlogAgent";
      language = brief.language;
      status = some (if is_live_policy o.policy then PostStatus.publish else PostStatus.draft);
      revises_draft = some (is_slug s.own_slug out.slug);
      publisher_id = none;
    })
    pure (record no_update { publish_result = some result })
