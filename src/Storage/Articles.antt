-- ===== src/Storage/Articles.antt =====
-- packages/storage/src/repositories/article-repository.ts. `lower` is SQLite's function; the query
-- with `json_extract` reads the publisher's id from the stored result.
use open_blog_agent.Prelude.{
  ℕ, String, Bool, true, false, not, ◌&&◌, ◌||◌, ◌==◌, Option, none, some, List, find, keep, take,
  ltb, leb, or_else, if◌then◌else◌,
}
use text.Mathlib.Text.{starts_with}
use open_blog_agent.Types.Publish.{PublishResult}
use open_blog_agent.Types.Article.{MatchedOn, InternalLink}
use open_blog_agent.Storage.Models.{
  WorkflowStatus, awaiting_approval, WorkflowRecord, ReviewState, ArticleRecord, Db,
}
use open_blog_agent.Storage.Tables.{update_where, upsert, order_by}
use open_blog_agent.Storage.Workflows
use open_blog_agent.Prelude.{first}

abbrev pub is_of : String → ArticleRecord → Bool
is_of workflow_id a = a.workflow_id == workflow_id

unfoldable pub get_by_workflow_id : String → Db → Option ArticleRecord
get_by_workflow_id workflow_id db = find (is_of workflow_id) db.articles

-- on a conflict every column but `id`, `workflow_id` and `created_at` is replaced
unfoldable pub save : ArticleRecord → Db → Db
unfolding upsert
save model db = record db {
  articles =
      upsert (is_of model.workflow_id)
        (λ a. record model { id = a.id; workflow_id = a.workflow_id; created_at = a.created_at })
        model db.articles;
}

unfoldable pub mark_approved : String → String → Option String → ℕ → Db → Db
unfolding update_where
mark_approved workflow_id approved_by override_reason now db = record db {
  articles =
      update_where (is_of workflow_id)
        (λ a. record a {
          review_state = ReviewState.approved;
          approved_by = some approved_by;
          approved_at = some now;
          approval_override_reason = override_reason;
          updated_at = now;
        })
        db.articles;
}

unfoldable pub mark_rejected : String → ℕ → Db → Db
unfolding update_where
mark_rejected workflow_id now db = record db {
  articles =
      update_where (is_of workflow_id)
        (λ a. record a { review_state = ReviewState.rejected; updated_at = now }) db.articles;
}

-- The identifiers that a publisher reports.
pub record Remote : Type 0 where
  pub id : Option String
  pub url : Option String
  pub status : Option String

unfoldable pub record_approval_publish : String → Bool → PublishResult → Remote → ℕ → Db → Db
unfolding update_where
record_approval_publish workflow_id published result remote now db = record db {
  articles =
      update_where (is_of workflow_id)
        (λ a. record a {
          review_state = if published then ReviewState.published else ReviewState.approved;
          publish_result = some result;
          publish_remote_id = remote.id;
          publish_remote_url = remote.url;
          publish_remote_status = remote.status;
          updated_at = now;
        })
        db.articles;
}

unfoldable pub is_parked_or_published : WorkflowStatus → Bool
is_parked_or_published WorkflowStatus.published = true
is_parked_or_published awaiting_approval = true
is_parked_or_published WorkflowStatus.needs_review = true
is_parked_or_published _ = false

-- A test on the status of the run that an article joins with; a row without its run is not selected.
abbrev pub joined : (WorkflowStatus → Bool) → Option WorkflowRecord → Bool
joined p none = false
joined p (some w) = p w.status

-- `column = ?`, which a `null` column never meets
abbrev pub column_is : Option String → String → Bool
column_is none s = false
column_is (some c) s = c == s

abbrev pub lowered : (String → String) → Option String → Option String
lowered lower none = none
lowered lower (some s) = some (lower s)

module _ (lower : String → String) where
  -- The WHERE clause of `findDuplicate`.
  unfoldable pub repeats : String → String → String → Db → ArticleRecord → Bool
  unfolding is_parked_or_published Workflows.get_by_id
  repeats slug title exclude db a =
      not (a.workflow_id == exclude)
      && (joined is_parked_or_published (Workflows.get_by_id a.workflow_id db)
          && (column_is a.slug slug || column_is (lowered lower a.title) (lower title)))

  -- `matchedOn` of the row that was found
  abbrev pub match_of : String → ArticleRecord → String × MatchedOn
  match_of slug a =
      (a.workflow_id, if column_is a.slug slug then MatchedOn.slug else MatchedOn.title)

  abbrev pub match_option : String → Option ArticleRecord → Option (String × MatchedOn)
  match_option slug none = none
  match_option slug (some a) = some (match_of slug a)

  unfoldable pub find_duplicate : String → String → String → Db → Option (String × MatchedOn)
  find_duplicate slug title exclude db = match_option slug (
      first (
        order_by (λ a b. ltb a.created_at b.created_at)
          (keep (repeats slug title exclude db) db.articles)))

abbrev pub is_published : WorkflowStatus → Bool
is_published WorkflowStatus.published = true
is_published _ = false

abbrev pub is_review_published : ReviewState → Bool
is_review_published ReviewState.published = true
is_review_published _ = false

-- `LIKE 'http%'`, which ignores the case of ASCII letters
abbrev pub is_http : (String → String) → Option String → Bool
is_http lower none = false
is_http lower (some url) = starts_with (lower url) "http"

abbrev pub published_through : Option String → Option PublishResult → Bool
published_through none r = true
published_through (some id) none = false
published_through (some id) (some r) = r.publisher_id == id

module _ (lower : String → String) where
  -- The WHERE clause of `listPublished`.
  unfoldable pub is_live : Option String → Db → ArticleRecord → Bool
  unfolding Workflows.get_by_id
  is_live publisher_id db a =
      joined is_published (Workflows.get_by_id a.workflow_id db)
      && (is_review_published a.review_state
          && (has_title a.title
              && (is_http lower a.publish_remote_url
                  && published_through publisher_id a.publish_result)))
    where
      has_title : Option String → Bool
      has_title none = false
      has_title (some t) = true

  -- The row as an address that an article can link to.
  abbrev pub link_of : ArticleRecord → InternalLink
  link_of a = record {
    workflow_id = a.workflow_id;
    title = or_else a.title "";
    url = or_else a.publish_remote_url "";
  }

  unfoldable pub list_published : Option String → ℕ → Db → List ArticleRecord
  list_published publisher_id limit db =
      take limit (
        order_by (λ a b. leb b.updated_at a.updated_at)
          (keep (is_live publisher_id db) db.articles))
