-- ===== src/Backlog/Getting.antt =====
-- Which row `get` of packages/storage/src/backlog/store.ts returns, and the order of `list`.
use open_blog_agent.Storage.Tables.{order_by, null_ltb}
use open_blog_agent.Storage.Tables.Sorting.{
  IsStrictOrder, first-order_by-IsLeast, first-order_by-All, All-keep, All-keep_converse, keep-All,
}
use open_blog_agent.Backlog.{better, list, in_status}
use open_blog_agent.Prelude.{All-mono, eq_refl, ◌≢◌, zero, suc, All}
use open_blog_agent.Prelude.{
  ℕ, String, ◌≡◌, Bool, true, false, none, some, List, [], ◌∷◌, find, keep, take, first, arith,
  ◌==◌, inl, inr, refl, Option-cases, ap, ◌∙◌, sym,
}
use open_blog_agent.Storage.Tables.Unique.{row-find}
use open_blog_agent.Research.Codes.{codes}
use open_blog_agent.Backlog.{
  CandidateStatus, CandidateRow, Outcome, done, by_id, status_eq, get, get_among, get_by_prefix,
  has_prefix, Codes,
}
use open_blog_agent.Backlog.Keys.{IsKeyed}

-- The test of `get` finds a row of the table.
get_among-first :
    (rows : List CandidateRow) (r : CandidateRow)
    → get_among (take 2 rows) ≡ done r
    → first rows ≡ some r
unfolding get_among
get_among-first [] r h = ground arith
get_among-first (s ∷ []) r h = ground arith
get_among-first (s ∷ t ∷ rows) r h = ground arith

first-keep :
    (p : CandidateRow → Bool) (rows : List CandidateRow) → first (keep p rows) ≡ find p rows
first-keep p [] = refl
first-keep p (r ∷ rows) = ground (arith, first-keep p rows)

pub get-exact :
    (id : String) (rows : List CandidateRow) (r : CandidateRow)
    → by_id id rows ≡ some r
    → get id rows ≡ done r
unfolding get
get-exact id rows r h = rw (h, get) refl

pub get-prefix :
    (id : String) (rows : List CandidateRow)
    → by_id id rows ≡ none
    → get id rows ≡ get_by_prefix (codes id) rows
unfolding get
get-prefix id rows h = rw (h, get) refl

get_by_prefix-first :
    (text : Codes) (rows : List CandidateRow) (r : CandidateRow)
    → get_by_prefix text rows ≡ done r
    → first (keep (has_prefix text) rows) ≡ some r
unfolding get_by_prefix
get_by_prefix-first text rows r h = get_among-first (keep (has_prefix text) rows) r (ground arith)

done_inj : {A : Type 0} (a b : A) → Path (Outcome A) (done a) (done b) → a ≡ b
done_inj a b h = cc

-- What `get` returns is a row of the table, found by its own id.
pub get-by_id :
    (id : String) (rows : List CandidateRow) (r : CandidateRow)
    → IsKeyed rows
    → get id rows ≡ done r
    → by_id r.id rows ≡ some r
get-by_id id rows r k h = elim (Option-cases (by_id id rows)) [
  | inl e1 ↦
      let text = codes id in
      let found = get_by_prefix-first text rows r (sym (get-prefix id rows e1) ∙ h) in
      row-find (λ r. r.id) (has_prefix text) rows r k.ids
        (sym (first-keep (has_prefix text) rows) ∙ found)
  | inr e2 ↦
      let same : e2.0 ≡ r = done_inj e2.0 r (sym (get-exact id rows e2.0 e2.1) ∙ h) in
      row-find (λ r. r.id) (λ r. r.id == id) rows r k.ids (e2.1 ∙ ap some same)
]

first-take :
    {A : Type 0} (n : ℕ) (rs : List A) (r : A) → first (take n rs) ≡ some r → first rs ≡ some r
first-take zero rs r h = cc
first-take (suc n) [] r h = h
first-take (suc n) (s ∷ rs) r h = h

better-IsStrictOrder : IsStrictOrder better
unfolding better null_ltb
better-IsStrictOrder = record { asym = λ r s. ground arith; split = λ r s t. ground arith }

-- The first candidate of a list of one status has that status, and no stored candidate of that
-- status comes before it in the order of score, date and creation.
pub first-list-IsBest :
    (status : CandidateStatus) (limit : ℕ) (rows : List CandidateRow) (r : CandidateRow)
    → first (list (some status) (some limit) rows) ≡ some r
    → (status_eq r.status status ≡ true)
      × All (λ s. status_eq s.status status ≡ true → better s r ≡ false) rows
unfolding list
first-list-IsBest status limit rows r h =
    let passing = keep (in_status (some status)) rows in
    let found = first-take limit (order_by better passing) r h in
    (
      first-order_by-All better (λ s. status_eq s.status status ≡ true) passing r
          (All-keep (in_status (some status)) rows) found,
      All-keep_converse (in_status (some status)) (λ s. better s r ≡ false) rows
          (first-order_by-IsLeast better better-IsStrictOrder passing r found),
    )

found_id_mono :
    (r s : CandidateRow) (rows : List CandidateRow)
    → by_id r.id rows ≢ none
    → by_id r.id (s ∷ rows) ≢ none
found_id_mono r s rows h = ground (arith, h)

by_id-All : (rows : List CandidateRow) → All (λ r. by_id r.id rows ≢ none) rows
by_id-All [] = tt
by_id-All (s ∷ rows) = (
  ground (arith, eq_refl s.id),
  All-mono (λ r. by_id r.id rows ≢ none) (λ r. by_id r.id (s ∷ rows) ≢ none)
      (λ r h. found_id_mono r s rows h) rows (by_id-All rows),
)

-- What a list begins with is stored.
pub first-list-by_id :
    (status : CandidateStatus) (limit : ℕ) (rows : List CandidateRow) (r : CandidateRow)
    → first (list (some status) (some limit) rows) ≡ some r
    → by_id r.id rows ≢ none
unfolding list
first-list-by_id status limit rows r h =
    let passing = keep (in_status (some status)) rows in
    first-order_by-All better (λ s. by_id s.id rows ≢ none) passing r
      (keep-All (in_status (some status)) (λ s. by_id s.id rows ≢ none) rows (by_id-All rows))
      (first-take limit (order_by better passing) r h)
