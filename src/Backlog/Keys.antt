-- ===== src/Backlog/Keys.antt =====
-- What `upsertCollected` of packages/storage/src/backlog/store.ts keeps of the table.
use mathlib.Core.Option.{some_inj}
use open_blog_agent.Prelude.{
  if◌then◌else◌, ℕ, ◌+◌, String, ◌≡◌, Bool, true, false, some, List, [], ◌∷◌, ◌++◌, find, arith,
  ◌==◌, eq_iff, Bool-cases, inl, inr, refl, Option-cases, length, ◌∙◌, ap, subst, sym,
}
use open_blog_agent.Storage.Tables.{update_where}
use open_blog_agent.Storage.Tables.Lookup.{changed, row-update_where}
use open_blog_agent.Storage.Tables.Unique.{
  row-append, IsUnique, update_where-IsUnique, row-find, row-append,
}
use open_blog_agent.Backlog.{CandidateStatus, CandidateRow, CandidateInput, by_id, status_eq}
use open_blog_agent.Backlog.Collect.{Settings, Upserted, find_existing, refresh}

-- The PRIMARY KEY and the UNIQUE columns of `topic_candidates`.
pub record IsKeyed (rows : List CandidateRow) : Type 0 where
  pub ids : IsUnique (λ (r : CandidateRow). r.id) rows
  pub urls : IsUnique (λ (r : CandidateRow). r.url_key) rows
  pub titles : IsUnique (λ (r : CandidateRow). r.title_normalized) rows

-- What a call keeps of a stored candidate: its keys, and all of it once it is decided.
pub record IsKept (r later : CandidateRow) : Type 0 where
  pub id : later.id ≡ r.id
  pub url_key : later.url_key ≡ r.url_key
  pub title : later.title_normalized ≡ r.title_normalized
  pub created_at : later.created_at ≡ r.created_at
  pub decided : status_eq r.status CandidateStatus.new ≡ false → later ≡ r

-- Every candidate of the table is still stored, and kept.
pub Keeps : List CandidateRow → List CandidateRow → Type 0
Keeps rows later =
    (j : String) (r : CandidateRow)
    → by_id j rows ≡ some r
    → (s : CandidateRow) × (by_id j later ≡ some s) × IsKept r s

pub Keeps-at :
    (rows later : List CandidateRow) (j : String) (r : CandidateRow)
    → Keeps rows later
    → by_id j rows ≡ some r
    → (s : CandidateRow) × (by_id j later ≡ some s) × IsKept r s
unfolding Keeps
Keeps-at rows later j r keeps h = keeps j r h

-- How many inputs an outcome counts.
abbrev pub counted : Upserted → ℕ
counted u = length u.created + (length u.refreshed + length u.unchanged)

pub IsKept-refl : (r : CandidateRow) → IsKept r r
IsKept-refl r = record {
  id = refl;
  url_key = refl;
  title = refl;
  created_at = refl;
  decided = λ _. refl;
}

pub Keeps-refl : (rows : List CandidateRow) → Keeps rows rows
unfolding Keeps
Keeps-refl rows j r h = (r, h, IsKept-refl r)

IsKept-trans : (r s t : CandidateRow) → IsKept r s → IsKept s t → IsKept r t
IsKept-trans r s t a b = record {
  id = b.id ∙ a.id;
  url_key = b.url_key ∙ a.url_key;
  title = b.title ∙ a.title;
  created_at = b.created_at ∙ a.created_at;
  decided = λ e.
      let same = a.decided e in
      subst (λ x. t ≡ x) same
        (b.decided (subst (λ x. status_eq x.status CandidateStatus.new ≡ false) (sym same) e));
}

pub Keeps-trans : (a b c : List CandidateRow) → Keeps a b → Keeps b c → Keeps a c
unfolding Keeps
Keeps-trans a b c h k j r e =
    let m = h j r e in let n = k j m.0 m.1 in (n.0, n.1, IsKept-trans r m.0 n.0 m.2 n.2)

-- Two rows that are found by one id are one.
pub same_row :
    (e r : CandidateRow) (j : String) (rows : List CandidateRow)
    → by_id e.id rows ≡ some e
    → by_id j rows ≡ some r
    → (e.id == j) ≡ true
    → e ≡ r
same_row e r j rows found h here =
    let names : e.id ≡ j = (eq_iff e.id j).0 here in
    some_inj.0 (sym found ∙ (ap (λ k. by_id k rows) names ∙ h))

absurd_of : {A : Type 0} (b : Bool) → b ≡ true → b ≡ false → A
absurd_of b t f = cc

module _ (o : Settings) where
  pub refresh-keys :
      (input : CandidateInput) (r : CandidateRow)
      → ((refresh o input r).id ≡ r.id)
        × ((refresh o input r).url_key ≡ r.url_key)
        × ((refresh o input r).title_normalized ≡ r.title_normalized)
        × ((refresh o input r).created_at ≡ r.created_at)
  unfolding refresh
  refresh-keys input r = (refl, refl, refl, refl)

  abbrev pub refresh_all : String → CandidateInput → List CandidateRow → List CandidateRow
  refresh_all id input rows = update_where (λ r. r.id == id) (refresh o input) rows

  pub refresh_all-IsKeyed :
      (id : String) (input : CandidateInput) (rows : List CandidateRow)
      → IsKeyed rows
      → IsKeyed (refresh_all id input rows)
  refresh_all-IsKeyed id input rows k =
      let test = λ (r : CandidateRow). r.id == id in
      record {
        ids =
            update_where-IsUnique (λ r. r.id) test (refresh o input) rows
              (λ r. (refresh-keys input r).0) k.ids;
        urls =
            update_where-IsUnique (λ r. r.url_key) test (refresh o input) rows
              (λ r. (refresh-keys input r).1) k.urls;
        titles =
            update_where-IsUnique (λ r. r.title_normalized) test (refresh o input) rows
              (λ r. (refresh-keys input r).2) k.titles;
      }

  -- The row that is found is the row with its id.
  pub find_existing-by_id :
      (input : CandidateInput) (rows : List CandidateRow) (e : CandidateRow)
      → IsKeyed rows
      → find_existing o input rows ≡ some e
      → by_id e.id rows ≡ some e
  find_existing-by_id input rows e k h =
      let by_url = λ (r : CandidateRow). r.url_key == input.url_key in
      let by_title = λ (r : CandidateRow). r.title_normalized == o.normalize input.title in
      elim (Option-cases (find by_url rows)) [
        | inl e1 ↦ row-find (λ r. r.id) by_title rows e k.ids (ground (arith, e1))
        | inr e2 ↦ row-find (λ r. r.id) by_url rows e k.ids (ground (arith, e2))
      ]

  pub refreshed-row :
      (input : CandidateInput) (rows : List CandidateRow) (id j : String)
      → by_id j (refresh_all id input rows)
        ≡ (if id == j then changed (refresh o input) (by_id j rows) else by_id j rows)
  refreshed-row input rows id j =
      row-update_where (λ r. r.id) (refresh o input) id j (λ r. (refresh-keys input r).0) rows

  refresh-IsKept :
      (input : CandidateInput) (r : CandidateRow)
      → status_eq r.status CandidateStatus.new ≡ true
      → IsKept r (refresh o input r)
  refresh-IsKept input r undecided =
      let keys = refresh-keys input r in
      record {
        id = keys.0;
        url_key = keys.1;
        title = keys.2;
        created_at = keys.3;
        decided = λ d. absurd_of (status_eq r.status CandidateStatus.new) undecided d;
      }

  pub refresh_all-Keeps :
      (input : CandidateInput) (rows : List CandidateRow) (e : CandidateRow)
      → by_id e.id rows ≡ some e
      → status_eq e.status CandidateStatus.new ≡ true
      → Keeps rows (refresh_all e.id input rows)
  unfolding Keeps
  refresh_all-Keeps input rows e found undecided j r h = elim (Bool-cases (e.id == j)) [
    | inl here ↦
        let same : e ≡ r = same_row e r j rows found h here in
        (
          refresh o input r,
          refreshed-row input rows e.id j ∙ rw here (ap (changed (refresh o input)) h),
          refresh-IsKept input r
              (subst (λ x. status_eq x.status CandidateStatus.new ≡ true) same undecided),
        )
    | inr there ↦ (r, refreshed-row input rows e.id j ∙ rw there h, IsKept-refl r)
  ]

pub append-Keeps : (s : CandidateRow) (rows : List CandidateRow) → Keeps rows (rows ++ (s ∷ []))
unfolding Keeps
append-Keeps s rows j r h = (r, row-append (λ t. t.id) j rows s ∙ rw h refl, IsKept-refl r)
