-- ===== src/Backlog.antt =====
-- packages/storage/src/backlog/store.ts: the rows of `topic_candidates` and what is read from them.
-- The table is the list of its rows in the order of their row ids. Times are in milliseconds, and
-- the objects that are stored as JSON are kept as their texts.
pub mod Collect
pub mod Decide
pub mod Keys
pub mod Stored
pub mod Again
pub mod Getting
pub mod Following
pub mod Lifecycle
use open_blog_agent.Prelude.{
  ℕ, String, Bool, true, false, ◌&&◌, ◌||◌, not, ◌==◌, Option, none, some, List, [], ◌∷◌, keep,
  find, map, take, length, leb, ltb, nat_eq, all, or_else, if◌then◌else◌,
}
use open_blog_agent.Types.Usage.{LlmUsage}
use open_blog_agent.Research.Codes.{Codes, codes, is_hex, lower, is_prefix}
use open_blog_agent.Storage.Tables.{order_by, null_ltb, then_by}

pub data CandidateStatus : Type 0 where
  new accepted dropped used : CandidateStatus

abbrev pub status_eq : CandidateStatus → CandidateStatus → Bool
status_eq new new = true
status_eq accepted accepted = true
status_eq dropped dropped = true
status_eq used used = true
status_eq _ _ = false

pub record CandidateEnrichment : Type 0 where
  pub angle : String
  pub working_title : String
  pub target_keyword : String
  pub motivation : String
  pub model : Option String
  pub generated_at : ℕ
  pub usage : LlmUsage

-- The note of a decision: the text for a score that reached the threshold, or a reason.
pub data Note : Type 0 where
  reached : ℕ → Note
  reason : String → Note

pub record CandidateRow : Type 0 where
  pub id : String
  pub title : String
  pub title_normalized : String
  pub url : String
  pub url_key : String
  pub source : String
  pub summary : Option String
  pub published_at : Option ℕ
  pub collected_at : ℕ
  pub score : ℕ
  pub breakdown : String
  pub motivation : String
  pub status : CandidateStatus
  pub brief : Option String
  pub decided_by : Option String
  pub decision_note : Option Note
  pub decided_at : Option ℕ
  pub workflow_id : Option String
  pub enrichment : Option CandidateEnrichment
  pub created_at : ℕ
  pub updated_at : ℕ

pub record CandidateInput : Type 0 where
  pub title : String
  pub url : String
  pub url_key : String
  pub source : String
  pub summary : Option String
  pub published_at : Option ℕ
  pub score : ℕ
  pub breakdown : String
  pub motivation : String

pub data BacklogErrorCode : Type 0 where
  not_found ambiguous_id invalid_state : BacklogErrorCode

-- What an operation returns, or the code of the `BacklogError` that it throws.
pub data Outcome (A : Type 0) : Type 0 where
  done : A → Outcome A
  refused : BacklogErrorCode → Outcome A

-- `SELECT * … WHERE id = ?`
abbrev pub by_id : String → List CandidateRow → Option CandidateRow
by_id id rows = find (λ r. r.id == id) rows

unfoldable pub must_get : String → List CandidateRow → Outcome CandidateRow
must_get id rows = elim (by_id id rows) [ none ↦ refused not_found | some r ↦ done r ]

-- `idOrPrefix.length >= MIN_ID_PREFIX && /^[0-9a-f-]+$/i.test(idOrPrefix)`
unfoldable pub is_prefix_text : Codes → Bool
is_prefix_text text = leb 4 (length text) && all (λ c. is_hex c || nat_eq c b'-') text

-- `WHERE id LIKE ?` with the prefix in lower case; LIKE does not tell the case of ASCII letters
unfoldable pub has_prefix : Codes → CandidateRow → Bool
has_prefix text r = is_prefix (map lower text) (map lower (codes r.id))

unfoldable pub get_among : List CandidateRow → Outcome CandidateRow
get_among [] = refused not_found
get_among (r ∷ []) = done r
get_among (r ∷ s ∷ rest) = refused ambiguous_id

unfoldable pub get_by_prefix : Codes → List CandidateRow → Outcome CandidateRow
unfolding is_prefix_text has_prefix get_among
get_by_prefix text rows =
    if is_prefix_text text
    then get_among (take 2 (keep (has_prefix text) rows))
    else refused not_found

unfoldable pub get : String → List CandidateRow → Outcome CandidateRow
unfolding get_by_prefix
get id_or_prefix rows = elim (by_id id_or_prefix rows) [
  | some r ↦ done r
  | none ↦ get_by_prefix (codes id_or_prefix) rows
]

-- ORDER BY score DESC, published_at DESC, created_at DESC
unfoldable pub better : CandidateRow → CandidateRow → Bool
unfolding null_ltb
better a b = then_by (ltb b.score a.score) (nat_eq a.score b.score) (
    then_by (null_ltb b.published_at a.published_at) (not (null_ltb a.published_at b.published_at))
      (ltb b.created_at a.created_at))

abbrev pub in_status : Option CandidateStatus → CandidateRow → Bool
in_status none r = true
in_status (some s) r = status_eq r.status s

unfoldable pub list : Option CandidateStatus → Option ℕ → List CandidateRow → List CandidateRow
unfolding better order_by
list status limit rows = take (or_else limit 100) (order_by better (keep (in_status status) rows))
