-- ===== src/Workflow/Nodes.antt =====
-- The nodes of the workflow graph (packages/graph/src/workflows/article-generation-workflow.ts).
use open_blog_agent.Prelude.{
  ℕ, suc, ◌/◌, String, Option, none, some, List, [], ◌∷◌, ◌++◌, map, if◌then◌else◌, or_else, min,
  length, join,
}
use open_blog_agent.Types.Brief.{ResolvedBrief}
use open_blog_agent.Types.Article.{SourceDocument, SkippedSource, Update, no_update}
use open_blog_agent.Storage.Models.{PromptType}
use open_blog_agent.Storage.Memory.{save_prompt}
use open_blog_agent.Storage.MemoryReviews.{list_published_articles}
use open_blog_agent.Workflow.State.{State}
use open_blog_agent.Workflow.Errors.{ok, err, error_code, coded_error}
use open_blog_agent.Workflow.Ports.{
  Options, Ports, SourceOptions, SourceNote, PlannerInput, WriterInput,
}
use open_blog_agent.Workflow.Exec.{
  Exec, ◌>>=◌, ◌>>◌, pure, throw, ask_agent, with_id, get_world, required, non_empty_text,
}

-- `currentArticle`
unfoldable pub current_article : State → Exec String
current_article s = elim s.edited_text [
  | some text ↦ pure text
  | none ↦ required s.article "article"
]

-- `sourceNotes`
abbrev pub note_of : SourceDocument → SourceNote
note_of d = record { url = d.url; title = d.title; text = d.text }

unfoldable pub source_notes : State → Option (List SourceNote)
source_notes s = elim s.sources [ none ↦ none | some ds ↦ some (map note_of ds) ]

abbrev pub required_brief : State → Exec ResolvedBrief
required_brief s = required s.brief "brief"

-- every page gets an equal share of the budget, at most the limit of a page
unfoldable pub page_share : SourceOptions → ℕ → ℕ
page_share r pages = min r.max_chars_per_source (r.max_chars_total / pages)

unfoldable pub sources_update : List SourceDocument × List SkippedSource → Exec Update
sources_update ([], skipped) =
    throw (coded_error "SourceError" "sources_failed" "None of the source pages could be read")
sources_update (d ∷ ds, []) = pure (record no_update { sources = some (d ∷ ds) })
sources_update (d ∷ ds, k ∷ ks) =
    pure (record no_update { sources = some (d ∷ ds); skipped_sources = some (k ∷ ks) })

module _ (o : Options) (p : Ports) where
  -- the loop over the URLs of `read_sources`, with the pages read and skipped so far
  unfoldable pub read_pages :
      SourceOptions
      → ℕ
      → List String
      → List SourceDocument
      → List SkippedSource
      → Exec (List SourceDocument × List SkippedSource)
  read_pages r max_chars [] documents skipped w = (ok (documents, skipped), w)
  read_pages r max_chars (url ∷ urls) documents skipped w =
      let w' = record w { calls = suc w.calls } in
      elim (p.read w.calls url max_chars) [
        | ok document ↦ read_pages r max_chars urls (documents ++ document ∷ []) skipped w'
        | err e ↦
            let message = join (p.address url) (join ": " e.message) in
            let next =
              read_pages r max_chars urls documents
                (skipped ++ record { url = url; code = error_code e; message = message } ∷ []) w' in
            if r.allow_partial
            then next
            else (err (coded_error "SourceError" (error_code e) message), w')
      ]

  unfoldable pub read_with : Option SourceOptions → List String → Exec Update
  unfolding read_pages page_share sources_update
  read_with none urls = throw (
      coded_error "SourceError" "sources_unavailable"
        "The brief names source pages but no source reader is configured")
  read_with (some r) urls = do
    pages ← read_pages r (page_share r (length urls)) urls [] []
    sources_update pages

  unfoldable pub read_sources : State → Exec Update
  unfolding read_with
  read_sources s = do brief ← required_brief s; read_with o.sources (or_else brief.brief.sources [])

  -- `if (memory && state.workflowId) await memory.savePrompt(…)`
  unfoldable pub save_prompt_of : PromptType → Option String → String → Exec (Unit {0})
  save_prompt_of kind none content = pure tt
  save_prompt_of kind (some id) content =
      if o.memory
      then with_id p (λ prompt_id now. save_prompt prompt_id id kind content now)
      else pure tt

  unfoldable pub planner : State → Exec Update
  unfolding source_notes save_prompt_of
  planner s = do
    brief ← required_brief s
    let input : PlannerInput = record { topic = s.topic; brief = brief; sources = source_notes s }
    save_prompt_of PromptType.planner s.workflow_id (p.planner_prompt input)
    outline ← ask_agent p (λ n. p.planner n input)
    pure (record no_update { outline = some outline })

  unfoldable pub find_links : State → Exec Update
  find_links s = do
    brief ← required_brief s
    w ← get_world
    let published = list_published_articles p.lower o.links_publisher_id none w.db
    pure (record no_update {
      internal_links = some (
          p.select_related
            (record {
              topic = s.topic;
              target_keyword = brief.brief.target_keyword;
              secondary_keywords = brief.brief.secondary_keywords;
              outline = s.outline;
            })
            published o.max_links);
    })

  unfoldable pub writer : State → Exec Update
  unfolding source_notes save_prompt_of
  writer s = do
    outline ← required s.outline "outline"
    brief ← required_brief s
    let input : WriterInput = record {
      topic = s.topic;
      outline = outline;
      feedback = s.quality_feedback;
      reviewer_feedback = s.reviewer_feedback;
      previous_article = s.previous_article;
      brief = brief;
      sources = source_notes s;
      internal_links = s.internal_links;
      min_words = brief.min_words;
      max_words = brief.max_words;
    }
    save_prompt_of PromptType.writer s.workflow_id (p.writer_prompt input)
    text ← ask_agent p (λ n. p.writer n input)
    article ← non_empty_text p text
    pure (record no_update { article = some article })

  unfoldable pub editor : State → Exec Update
  editor s = do
    raw ← required s.article "article"
    brief ← required_brief s
    text ← ask_agent p (λ n. p.editor n raw brief)
    edited ← non_empty_text p text
    pure (record no_update { edited_text = some edited })

  unfoldable pub seo : State → Exec Update
  unfolding current_article
  seo s = do
    outline ← required s.outline "outline"
    text ← current_article s
    brief ← required_brief s
    output ←
        ask_agent p
          (λ n. p.seo n (record { outline = outline; article_text = text; brief = brief }))
    pure (record no_update { seo_output = some output })
