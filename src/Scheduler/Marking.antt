-- ===== src/Scheduler/Marking.antt =====
-- The candidate of a round is marked as used (packages/app/src/scheduler.ts and the backlog).
use open_blog_agent.Prelude.{
  ◌==◌, ℕ, String, ◌≡◌, inl, inr, ◌==◌, some, List, [], ◌∷◌, arith, refl, Bool-cases, ap, ◌∙◌, sym,
  subst, eq_iff,
}
use open_blog_agent.Storage.Tables.Lookup.{row-update_where}
use open_blog_agent.Backlog.{
  CandidateStatus, CandidateRow, Outcome, done, refused, by_id, invalid_state,
}
use open_blog_agent.Backlog.Getting.{get-exact}
use open_blog_agent.Backlog.Decide.{mark_used, decide, update_row, used_row, is_startable}

-- The candidate with the id is used by the run.
unfoldable pub IsUsedBy : String → String → List CandidateRow → Type 0
IsUsedBy id run rows =
    (r : CandidateRow) × (by_id id rows ≡ some r)
    × (r.status ≡ CandidateStatus.used)
    × (r.workflow_id ≡ some run)

by_id-id :
    (id : String) (rows : List CandidateRow) (r : CandidateRow) → by_id id rows ≡ some r → r.id ≡ id
by_id-id id [] r h = cc
by_id-id id (s ∷ rows) r h = elim (Bool-cases (s.id == id)) [
  | inl here ↦
      let same : s ≡ r = ground arith in
      ap (λ (x : CandidateRow). x.id) (sym same) ∙ (eq_iff s.id id).0 here
  | inr later ↦ by_id-id id rows r (ground arith)
]

kept_id : (run : String) (now : ℕ) (r : CandidateRow) → (used_row run now r).id ≡ r.id
unfolding used_row
kept_id run now r = refl

used_row-marks :
    (run : String) (now : ℕ) (r : CandidateRow)
    → ((used_row run now r).status ≡ CandidateStatus.used)
      × ((used_row run now r).workflow_id ≡ some run)
unfolding used_row
used_row-marks run now r = (refl, refl)

nope : (row : CandidateRow) → Path (Outcome CandidateRow) (refused invalid_state) (done row) → ⊥
nope row h = cc

started_decision-IsUsedBy :
    (id run : String) (now : ℕ) (rows : List CandidateRow) (x row : CandidateRow)
    → by_id id rows ≡ some x
    → x.id ≡ id
    → (decide is_startable (used_row run now) (done x) rows).0 ≡ done row
    → IsUsedBy id run (decide is_startable (used_row run now) (done x) rows).1
unfolding decide update_row IsUsedBy
started_decision-IsUsedBy id run now rows x row found same h =
    elim (Bool-cases (is_startable x.status)) [
      | inl may ↦
          rw (may, decide)
            (
              used_row run now x,
              row-update_where (λ (r : CandidateRow). r.id) (used_row run now) x.id id
                    (kept_id run now) rows
                  ∙ rw ((eq_iff x.id id).1 same, found) refl,
              (used_row-marks run now x).0,
              (used_row-marks run now x).1,
            )
      | inr may_not ↦
          let bad : Path (Outcome CandidateRow) (refused invalid_state) (done row) =
            (rw (may_not, decide) at h) in
          absurd (nope row bad)
    ]

pub mark_used-IsUsedBy :
    (id run : String) (now : ℕ) (rows : List CandidateRow) (x row : CandidateRow)
    → by_id id rows ≡ some x
    → (mark_used id run now rows).0 ≡ done row
    → IsUsedBy id run (mark_used id run now rows).1
unfolding mark_used
mark_used-IsUsedBy id run now rows x row found h =
    let got = get-exact id rows x found in
    let decided = λ (g : Outcome CandidateRow). decide is_startable (used_row run now) g rows in
    subst (λ g. IsUsedBy id run (decided g).1) (sym got)
      (started_decision-IsUsedBy id run now rows x row found (by_id-id id rows x found)
        (subst (λ g. (decided g).0 ≡ done row) got h))
