-- ===== src/Backlog/Collect.antt =====
-- `upsertCollected` of packages/storage/src/backlog/store.ts.
use open_blog_agent.Prelude.{
  ℕ, String, Bool, false, ◌==◌, Option, none, some, List, [], ◌∷◌, ◌++◌, find, leb, or_option,
  if◌then◌else◌,
}
use open_blog_agent.Storage.Tables.{update_where}
use open_blog_agent.Backlog.{
  CandidateStatus, CandidateRow, CandidateInput, reached, Outcome, done, refused, must_get,
  status_eq,
}

-- What `upsertCollected` returns; `UpsertOutcome` in the code.
pub record Upserted : Type 0 where
  pub created : List CandidateRow
  pub refreshed : List CandidateRow
  pub unchanged : List CandidateRow

-- What one call works with: `normalizeTopic`, the time and `autoAcceptMinScore`.
pub record Settings : Type 0 where
  pub normalize : String → String
  pub now : ℕ
  pub auto_accept_min_score : Option ℕ

-- An input with the id that `randomUUID` gives it if it is stored as a new row.
pub record Collected : Type 0 where
  pub id : String
  pub input : CandidateInput

-- what the outcome is after an input, and the rows
abbrev pub Step : Type 0
Step = Upserted × List CandidateRow

abbrev pub push_created : CandidateRow → Upserted → Upserted
push_created r u = record u { created = u.created ++ (r ∷ []) }

abbrev pub push_refreshed : CandidateRow → Upserted → Upserted
push_refreshed r u = record u { refreshed = u.refreshed ++ (r ∷ []) }

abbrev pub push_unchanged : CandidateRow → Upserted → Upserted
push_unchanged r u = record u { unchanged = u.unchanged ++ (r ∷ []) }

-- `push(this.mustGet(id))`
abbrev pub pushed :
    (CandidateRow → Upserted → Upserted) → Upserted → String → List CandidateRow → Outcome Step
pushed push u id rows = elim (must_get id rows) [
  | refused code ↦ refused code
  | done r ↦ done (push r u, rows)
]

module _ (o : Settings) where
  abbrev pub find_existing : CandidateInput → List CandidateRow → Option CandidateRow
  find_existing input rows =
      or_option (find (λ r. r.url_key == input.url_key) rows)
        (find (λ r. r.title_normalized == o.normalize input.title) rows)

  abbrev pub auto : CandidateInput → Bool
  auto input = elim o.auto_accept_min_score [ none ↦ false | some least ↦ leb least input.score ]

  abbrev pub auto_status : CandidateInput → CandidateStatus
  auto_status input = if auto input then CandidateStatus.accepted else CandidateStatus.new

  unfoldable pub new_row : Collected → CandidateRow
  new_row c =
      let input = c.input in
      record {
        id = c.id;
        title = input.title;
        title_normalized = o.normalize input.title;
        url = input.url;
        url_key = input.url_key;
        source = input.source;
        summary = input.summary;
        published_at = input.published_at;
        collected_at = o.now;
        score = input.score;
        breakdown = input.breakdown;
        motivation = input.motivation;
        status = auto_status input;
        brief = none;
        decided_by = if auto input then some "auto" else none;
        decision_note = if auto input then some (reached input.score) else none;
        decided_at = if auto input then some o.now else none;
        workflow_id = none;
        enrichment = none;
        created_at = o.now;
        updated_at = o.now;
      }

  unfoldable pub refresh : CandidateInput → CandidateRow → CandidateRow
  refresh input r = record r {
    score = input.score;
    breakdown = input.breakdown;
    motivation = input.motivation;
    summary = or_option input.summary r.summary;
    published_at = or_option input.published_at r.published_at;
    collected_at = o.now;
    status = auto_status input;
    decided_by = if auto input then some "auto" else none;
    decision_note = if auto input then some (reached input.score) else none;
    decided_at = if auto input then some o.now else none;
    updated_at = o.now;
  }

  unfoldable pub upsert_found :
      Collected → Option CandidateRow → Upserted → List CandidateRow → Outcome Step
  unfolding new_row refresh update_where must_get
  upsert_found c none u rows = pushed push_created u c.id (rows ++ (new_row c ∷ []))
  upsert_found c (some existing) u rows =
      if status_eq existing.status CandidateStatus.new
      then pushed push_refreshed u existing.id
          (update_where (λ r. r.id == existing.id) (refresh c.input) rows)
      else done (push_unchanged existing u, rows)

  unfoldable pub upsert_one : Collected → Upserted → List CandidateRow → Outcome Step
  unfolding upsert_found
  upsert_one c u rows = upsert_found c (find_existing c.input rows) u rows

  unfoldable pub upsert_all : List Collected → Upserted → List CandidateRow → Outcome Step
  unfolding upsert_one
  upsert_all [] u rows = done (u, rows)
  upsert_all (c ∷ cs) u rows = elim (upsert_one c u rows) [
    | refused code ↦ refused code
    | done s ↦ upsert_all cs s.0 s.1
  ]

  -- a transaction: when it throws, nothing is stored
  unfoldable pub upsert_collected :
      List Collected → List CandidateRow → Outcome Upserted × List CandidateRow
  unfolding upsert_all
  upsert_collected cs rows =
      elim (upsert_all cs (record { created = []; refreshed = []; unchanged = [] }) rows) [
        | refused code ↦ (refused code, rows)
        | done s ↦ (done s.0, s.1)
      ]
