-- ===== src/Backlog/Decide.antt =====
-- The decisions on a candidate: `accept`, `drop`, `markUsed` and `setEnrichment` of
-- packages/storage/src/backlog/store.ts.
use open_blog_agent.Prelude.{
  ℕ, String, Bool, true, false, ◌==◌, Option, none, some, List, or_option,
}
use open_blog_agent.Storage.Tables.{update_where}
use open_blog_agent.Backlog.{
  CandidateStatus, CandidateRow, CandidateEnrichment, Note, reason, invalid_state, Outcome, done,
  refused, must_get, get,
}

-- what the operation returns, and the rows after it
abbrev pub Decided : Type 0
Decided = Outcome CandidateRow × List CandidateRow

-- `UPDATE … WHERE id = ?`, then `mustGet`
unfoldable pub update_row : (CandidateRow → CandidateRow) → String → List CandidateRow → Decided
unfolding update_where must_get
update_row f id rows =
    let after = update_where (λ r. r.id == id) f rows in (must_get id after, after)

-- the update of a candidate that is found and whose status allows it
unfoldable pub decide :
    (CandidateStatus → Bool)
    → (CandidateRow → CandidateRow)
    → Outcome CandidateRow
    → List CandidateRow
    → Decided
unfolding update_row
decide allowed f (refused code) rows = (refused code, rows)
decide allowed f (done r) rows = elim (allowed r.status) [
  | true ↦ update_row f r.id rows
  | false ↦ (refused invalid_state, rows)
]

abbrev pub is_open : CandidateStatus → Bool
is_open CandidateStatus.used = false
is_open _ = true

abbrev pub is_startable : CandidateStatus → Bool
is_startable CandidateStatus.used = false
is_startable CandidateStatus.dropped = false
is_startable _ = true

abbrev pub any_status : CandidateStatus → Bool
any_status _ = true

unfoldable pub accepted_row : String → Option String → ℕ → CandidateRow → CandidateRow
accepted_row by brief now r = record r {
  status = CandidateStatus.accepted;
  brief = or_option brief r.brief;
  decided_by = some by;
  decision_note = none;
  decided_at = some now;
  updated_at = now;
}

unfoldable pub accept : String → String → Option String → ℕ → List CandidateRow → Decided
unfolding decide accepted_row
accept id_or_prefix by brief now rows =
    decide is_open (accepted_row by brief now) (get id_or_prefix rows) rows

abbrev note_of : Option String → Option Note
note_of none = none
note_of (some text) = some (reason text)

unfoldable pub dropped_row : String → Option String → ℕ → CandidateRow → CandidateRow
dropped_row by why now r = record r {
  status = CandidateStatus.dropped;
  decided_by = some by;
  decision_note = note_of why;
  decided_at = some now;
  updated_at = now;
}

unfoldable pub drop : String → String → Option String → ℕ → List CandidateRow → Decided
unfolding decide dropped_row
drop id_or_prefix by why now rows =
    decide is_open (dropped_row by why now) (get id_or_prefix rows) rows

unfoldable pub used_row : String → ℕ → CandidateRow → CandidateRow
used_row workflow_id now r = record r {
  status = CandidateStatus.used;
  workflow_id = some workflow_id;
  updated_at = now;
}

unfoldable pub mark_used : String → String → ℕ → List CandidateRow → Decided
unfolding decide used_row
mark_used id_or_prefix workflow_id now rows =
    decide is_startable (used_row workflow_id now) (get id_or_prefix rows) rows

unfoldable pub enriched_row : CandidateEnrichment → CandidateRow → CandidateRow
enriched_row e r = record r { enrichment = some e; updated_at = e.generated_at }

unfoldable pub set_enrichment : String → CandidateEnrichment → List CandidateRow → Decided
unfolding decide enriched_row
set_enrichment id_or_prefix e rows = decide any_status (enriched_row e) (get id_or_prefix rows) rows
