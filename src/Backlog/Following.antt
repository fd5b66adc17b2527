-- ===== src/Backlog/Following.antt =====
-- What a decision of packages/storage/src/backlog/store.ts keeps of every candidate.
use open_blog_agent.Prelude.{
  String, ◌≡◌, ◌≢◌, Bool, true, false, some, List, ◌==◌, Bool-cases, inl, inr, refl, ap, ◌∙◌, sym,
  subst,
}
use open_blog_agent.Storage.Tables.{update_where}
use open_blog_agent.Storage.Tables.Lookup.{row-update_where, changed}
use open_blog_agent.Storage.Tables.Unique.{update_where-IsUnique}
use open_blog_agent.Backlog.{
  CandidateStatus, CandidateRow, Outcome, done, refused, by_id, status_eq, get,
}
use open_blog_agent.Backlog.Decide.{decide, update_row}
use open_blog_agent.Backlog.Keys.{IsKeyed, IsKept, same_row}
use open_blog_agent.Backlog.Getting.{get-by_id}

-- A used candidate stays used, by the same run; one that is not new is never new again.
pub record IsFollowed (r later : CandidateRow) : Type 0 where
  pub same_id : later.id ≡ r.id
  pub stays_used :
      r.status ≡ CandidateStatus.used
      → (later.status ≡ CandidateStatus.used) × (later.workflow_id ≡ r.workflow_id)
  pub stays_decided : r.status ≢ CandidateStatus.new → later.status ≢ CandidateStatus.new

-- Every candidate is still stored, and follows the one that was.
unfoldable pub Follows : List CandidateRow → List CandidateRow → Type 0
Follows rows later =
    (j : String) (r : CandidateRow)
    → by_id j rows ≡ some r
    → (s : CandidateRow) × (by_id j later ≡ some s) × IsFollowed r s

pub IsFollowed-refl : (r : CandidateRow) → IsFollowed r r
IsFollowed-refl r = record { same_id = refl; stays_used = λ e. (e, refl); stays_decided = λ n. n }

pub IsFollowed-trans : (r s t : CandidateRow) → IsFollowed r s → IsFollowed s t → IsFollowed r t
IsFollowed-trans r s t a b = record {
  same_id = b.same_id ∙ a.same_id;
  stays_used = λ e.
      let first_step = a.stays_used e in
      let second_step = b.stays_used first_step.0 in (second_step.0, second_step.1 ∙ first_step.1);
  stays_decided = λ n. b.stays_decided (a.stays_decided n);
}

pub Follows-refl : (rows : List CandidateRow) → Follows rows rows
unfolding Follows
Follows-refl rows j r h = (r, h, IsFollowed-refl r)

ne_new : (s : CandidateStatus) → s ≢ CandidateStatus.new → status_eq s CandidateStatus.new ≡ false
ne_new CandidateStatus.new n = absurd (n refl)
ne_new CandidateStatus.accepted n = refl
ne_new CandidateStatus.dropped n = refl
ne_new CandidateStatus.used n = refl

pub IsKept-IsFollowed : (r s : CandidateRow) → IsKept r s → IsFollowed r s
IsKept-IsFollowed r s k = record {
  same_id = k.id;
  stays_used = λ e.
      let same : s ≡ r =
        k.decided (subst (λ t. status_eq t CandidateStatus.new ≡ false) (sym e) refl) in
      (ap (λ (x : CandidateRow). x.status) same ∙ e, ap (λ (x : CandidateRow). x.workflow_id) same);
  stays_decided =
      λ n. λ e. n (ap (λ (x : CandidateRow). x.status) (sym (k.decided (ne_new r.status n))) ∙ e);
}

-- An update that keeps the keys of a row and follows it where the status allows it.
pub record IsDecision (allowed : CandidateStatus → Bool) (f : CandidateRow → CandidateRow)
    : Type 0 where
  pub id : (r : CandidateRow) → (f r).id ≡ r.id
  pub url_key : (r : CandidateRow) → (f r).url_key ≡ r.url_key
  pub title : (r : CandidateRow) → (f r).title_normalized ≡ r.title_normalized
  pub follows : (r : CandidateRow) → allowed r.status ≡ true → IsFollowed r (f r)

module _ (allowed : CandidateStatus → Bool) (f : CandidateRow → CandidateRow)
    (d : IsDecision allowed f) where
  update-IsKeyed :
      (id : String) (rows : List CandidateRow)
      → IsKeyed rows
      → IsKeyed (update_where (λ r. r.id == id) f rows)
  update-IsKeyed id rows k = record {
    ids = update_where-IsUnique (λ r. r.id) (λ r. r.id == id) f rows d.id k.ids;
    urls = update_where-IsUnique (λ r. r.url_key) (λ r. r.id == id) f rows d.url_key k.urls;
    titles =
        update_where-IsUnique (λ r. r.title_normalized) (λ r. r.id == id) f rows d.title k.titles;
  }

  update-Follows :
      (e : CandidateRow) (rows : List CandidateRow)
      → by_id e.id rows ≡ some e
      → allowed e.status ≡ true
      → Follows rows (update_where (λ r. r.id == e.id) f rows)
  unfolding Follows
  update-Follows e rows found may j r h =
      let after = row-update_where (λ (r : CandidateRow). r.id) f e.id j d.id rows in
      elim (Bool-cases (e.id == j)) [
        | inl here ↦
            let same : e ≡ r = same_row e r j rows found h here in
            (
              f r,
              after ∙ rw here (ap (changed f) h),
              d.follows r (subst (λ x. allowed x.status ≡ true) same may),
            )
        | inr there ↦ (r, after ∙ rw there h, IsFollowed-refl r)
      ]

  decided-Follows :
      (rows : List CandidateRow) (g : Outcome CandidateRow)
      → IsKeyed rows
      → ((e : CandidateRow) → g ≡ done e → by_id e.id rows ≡ some e)
      → IsKeyed (decide allowed f g rows).1 × Follows rows (decide allowed f g rows).1
  unfolding decide update_row
  decided-Follows rows (refused code) k found = (k, Follows-refl rows)
  decided-Follows rows (done e) k found = elim (Bool-cases (allowed e.status)) [
    | inl may ↦
        rw (may, decide) (update-IsKeyed e.id rows k, update-Follows e rows (found e refl) may)
    | inr may_not ↦ rw (may_not, decide) (k, Follows-refl rows)
  ]

  pub decide-Follows :
      (id : String) (rows : List CandidateRow)
      → IsKeyed rows
      → IsKeyed (decide allowed f (get id rows) rows).1
        × Follows rows (decide allowed f (get id rows) rows).1
  decide-Follows id rows k = decided-Follows rows (get id rows) k (λ e h. get-by_id id rows e k h)
