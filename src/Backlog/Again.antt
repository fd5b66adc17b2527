-- ===== src/Backlog/Again.antt =====
-- Collecting twice: `upsertCollected` of packages/storage/src/backlog/store.ts is idempotent.
use open_blog_agent.Prelude.{
  ℕ, String, ◌≡◌, ◌≢◌, ◌⊎◌, Bool, true, false, none, some, List, [], ◌∷◌, All, find, arith, ◌==◌,
  eq_iff, Bool-cases, inl, inr, refl, Option-cases, length, map, ap, ◌∙◌, sym, subst,
}
use open_blog_agent.Storage.Tables.Unique.{find-All}
use open_blog_agent.Backlog.{CandidateRow, CandidateInput, Outcome, done, by_id}
use open_blog_agent.Backlog.Collect.{
  Settings, Collected, Upserted, find_existing, new_row, upsert_all, upsert_collected, Step,
}
use open_blog_agent.Backlog.Keys.{
  IsKeyed, Keeps, Keeps-at, Keeps-refl, Keeps-trans, find_existing-by_id,
}
use open_blog_agent.Backlog.Stored.{
  IsFresh, IsOne, nothing, IsFresh-Leaves, upsert_found-IsOne, IsOne, upsert_all-done,
}

find-none-All :
    {A : Type 0} (p : A → Bool) (rows : List A) → find p rows ≡ none → All (λ r. p r ≡ false) rows
find-none-All p [] h = tt
find-none-All p (r ∷ rows) h = elim (Bool-cases (p r)) [
  | inl e ↦ ground arith
  | inr e ↦ (e, find-none-All p rows (ground arith))
]

find-passes :
    {A : Type 0} (p : A → Bool) (rows : List A) (r : A) → find p rows ≡ some r → p r ≡ true
find-passes p [] r h = cc
find-passes p (s ∷ rows) r h = elim (Bool-cases (p s)) [
  | inl e ↦ let same : s ≡ r = ground arith in subst (λ x. p x ≡ true) same e
  | inr e ↦ find-passes p rows r (ground arith)
]

-- What a row in the table passes is found.
find-by_id :
    (p : CandidateRow → Bool) (rows : List CandidateRow) (j : String) (s : CandidateRow)
    → by_id j rows ≡ some s
    → p s ≡ true
    → find p rows ≢ none
find-by_id p rows j s h t e =
    let f : p s ≡ false =
      find-All (λ r. r.id) (λ r. p r ≡ false) (λ r. r.id == j) rows s (find-none-All p rows e) h in
    cc

module _ (o : Settings) where
  -- A row with the URL or the title of the input is stored.
  IsCovered : CandidateInput → List CandidateRow → Type 0
  IsCovered input rows = find_existing o input rows ≢ none

  covered-ne :
      (input : CandidateInput) (rows : List CandidateRow)
      → IsCovered input rows
      → find_existing o input rows ≢ none
  unfolding IsCovered
  covered-ne input rows h = h

  url-IsCovered :
      (input : CandidateInput) (rows : List CandidateRow) (j : String) (s : CandidateRow)
      → by_id j rows ≡ some s
      → s.url_key ≡ input.url_key
      → IsCovered input rows
  unfolding IsCovered
  url-IsCovered input rows j s h e =
      let found =
        find-by_id (λ r. r.url_key == input.url_key) rows j s h
          ((eq_iff s.url_key input.url_key).1 e) in
      λ missing. found (ground arith)

  title-IsCovered :
      (input : CandidateInput) (rows : List CandidateRow) (j : String) (s : CandidateRow)
      → by_id j rows ≡ some s
      → s.title_normalized ≡ o.normalize input.title
      → IsCovered input rows
  unfolding IsCovered
  title-IsCovered input rows j s h e =
      let found =
        find-by_id (λ r. r.title_normalized == o.normalize input.title) rows j s h
          ((eq_iff s.title_normalized (o.normalize input.title)).1 e) in
      λ missing. found (ground arith)

  -- The row that is found has the URL or the title of the input.
  find_existing-keys :
      (input : CandidateInput) (rows : List CandidateRow) (e : CandidateRow)
      → find_existing o input rows ≡ some e
      → (e.url_key ≡ input.url_key) ⊎ (e.title_normalized ≡ o.normalize input.title)
  find_existing-keys input rows e h =
      elim (Option-cases (find (λ (r : CandidateRow). r.url_key == input.url_key) rows)) [
        | inl e1 ↦
            let found : find (λ (r : CandidateRow). r.title_normalized == o.normalize input.title)
                  rows
                ≡ some e =
              ground (arith, e1) in
            inr (
              (eq_iff e.title_normalized (o.normalize input.title)).0
                (find-passes (λ r. r.title_normalized == o.normalize input.title) rows e found))
        | inr e2 ↦
            let found : find (λ (r : CandidateRow). r.url_key == input.url_key) rows ≡ some e =
              ground (arith, e2) in
            inl (
              (eq_iff e.url_key input.url_key).0
                (find-passes (λ r. r.url_key == input.url_key) rows e found))
      ]

  found-IsCovered :
      (input : CandidateInput) (rows later : List CandidateRow) (e : CandidateRow)
      → IsKeyed rows
      → Keeps rows later
      → find_existing o input rows ≡ some e
      → IsCovered input later
  found-IsCovered input rows later e k keeps h =
      let m = Keeps-at rows later e.id e keeps (find_existing-by_id o input rows e k h) in
      elim (find_existing-keys input rows e h) [
        | inl same ↦ url-IsCovered input later e.id m.0 m.1 (m.2.url_key ∙ same)
        | inr same ↦ title-IsCovered input later e.id m.0 m.1 (m.2.title ∙ same)
      ]

  Keeps-IsCovered :
      (input : CandidateInput) (rows later : List CandidateRow)
      → IsKeyed rows
      → Keeps rows later
      → IsCovered input rows
      → IsCovered input later
  unfolding IsCovered
  Keeps-IsCovered input rows later k keeps c = elim (Option-cases (find_existing o input rows)) [
    | inl e ↦ absurd (c e)
    | inr e ↦ found-IsCovered input rows later e.0 k keeps e.1
  ]

  -- After an input, it is covered.
  one-IsCovered :
      (c : Collected) (u : Upserted) (rows : List CandidateRow) (s : Step)
      → IsKeyed rows
      → IsOne o c (find_existing o c.input rows) u rows s
      → IsCovered c.input s.1
  unfolding new_row
  one-IsCovered c u rows s k one = elim (Option-cases (find_existing o c.input rows)) [
    | inl e ↦ url-IsCovered c.input s.1 c.id (new_row o c) (one.stored e) refl
    | inr e ↦ found-IsCovered c.input rows s.1 e.0 k one.step.keeps e.1
  ]

  abbrev AllCovered : List CandidateInput → List CandidateRow → Type 0
  AllCovered inputs rows = All (λ input. IsCovered input rows) inputs

  Keeps-AllCovered :
      (inputs : List CandidateInput) (rows later : List CandidateRow)
      → IsKeyed rows
      → Keeps rows later
      → AllCovered inputs rows
      → AllCovered inputs later
  Keeps-AllCovered [] rows later k keeps h = tt
  Keeps-AllCovered (input ∷ inputs) rows later k keeps h =
      (Keeps-IsCovered input rows later k keeps h.0, Keeps-AllCovered inputs rows later k keeps h.1)

  abbrev pub inputs_of : List Collected → List CandidateInput
  inputs_of cs = map (λ (c : Collected). c.input) cs

  upsert_all-AllCovered :
      (cs : List Collected) (u : Upserted) (rows : List CandidateRow)
      → IsKeyed rows
      → IsFresh cs rows
      → (s : Step) × (upsert_all o cs u rows ≡ done s)
        × IsKeyed s.1
        × Keeps rows s.1
        × AllCovered (inputs_of cs) s.1
  unfolding upsert_all IsFresh
  upsert_all-AllCovered [] u rows k f = ((u, rows), refl, k, Keeps-refl rows, tt)
  upsert_all-AllCovered (c ∷ cs) u rows k f =
      let one = upsert_found-IsOne o c u rows (find_existing o c.input rows) k f.0 refl in
      let s = one.0 in
      let keyed = one.2.step.keyed in
      let rest =
        upsert_all-AllCovered cs s.0 s.1 keyed
          (IsFresh-Leaves cs c.id rows s.1 one.2.leaves f.1 f.2) in
      (
        rest.0,
        upsert_all-done o c cs u s rows one.1 ∙ rest.1,
        rest.2,
        Keeps-trans rows s.1 rest.0.1 one.2.step.keeps rest.3,
        (
          Keeps-IsCovered c.input s.1 rest.0.1 keyed rest.3 (one-IsCovered c u rows s k one.2),
          rest.4,
        ),
      )

  -- Where every input is covered, no row is added.
  covered-upsert_all :
      (cs : List Collected) (u : Upserted) (rows : List CandidateRow)
      → IsKeyed rows
      → IsFresh cs rows
      → AllCovered (inputs_of cs) rows
      → (s : Step) × (upsert_all o cs u rows ≡ done s)
        × (s.0.created ≡ u.created)
        × (length s.1 ≡ length rows)
  unfolding upsert_all IsFresh
  covered-upsert_all [] u rows k f h = ((u, rows), refl, refl, refl)
  covered-upsert_all (c ∷ cs) u rows k f h =
      let one = upsert_found-IsOne o c u rows (find_existing o c.input rows) k f.0 refl in
      let s = one.0 in
      let known = one.2.known (covered-ne c.input rows h.0) in
      let rest =
        covered-upsert_all cs s.0 s.1 one.2.step.keyed
          (IsFresh-Leaves cs c.id rows s.1 one.2.leaves f.1 f.2)
          (Keeps-AllCovered (inputs_of cs) rows s.1 k one.2.step.keeps h.1) in
      (rest.0, upsert_all-done o c cs u s rows one.1 ∙ rest.1, rest.2 ∙ known.0, rest.3 ∙ known.1)

upsert_collected-done :
    (o : Settings) (cs : List Collected) (rows : List CandidateRow) (s : Step)
    → upsert_all o cs nothing rows ≡ done s
    → upsert_collected o cs rows ≡ (done s.0, s.1)
unfolding upsert_collected
upsert_collected-done o cs rows s h = rw (h, upsert_collected) refl

upsert_collected-rows :
    (o : Settings) (cs : List Collected) (rows : List CandidateRow) (s : Step)
    → upsert_all o cs nothing rows ≡ done s
    → (upsert_collected o cs rows).1 ≡ s.1
upsert_collected-rows o cs rows s h =
    ap (λ (r : Outcome Upserted × List CandidateRow). r.1) (upsert_collected-done o cs rows s h)

-- Collecting the same inputs again, at any time and with any new ids, creates nothing: it is done,
-- and the table has as many rows as before.
pub upsert_collected-again :
    (o : Settings) (cs again : List Collected) (later : ℕ) (rows : List CandidateRow)
    → IsKeyed rows
    → IsFresh cs rows
    → map (λ (c : Collected). c.input) again ≡ map (λ (c : Collected). c.input) cs
    → IsFresh again (upsert_collected o cs rows).1
    → (u : Upserted) × (after : List CandidateRow) × (upsert_collected
          (record o { now = later })
          again
          (upsert_collected o cs rows).1
        ≡ (done u, after))
      × (u.created ≡ [])
      × (length after ≡ length (upsert_collected o cs rows).1)
unfolding IsCovered
upsert_collected-again o cs again later rows k f same fresh =
    let o' : Settings = record o { now = later } in
    let all = upsert_all-AllCovered o cs nothing rows k f in
    let rows' = (upsert_collected o cs rows).1 in
    let done_first : rows' ≡ all.0.1 = upsert_collected-rows o cs rows all.0 all.1 in
    let keyed : IsKeyed rows' = subst IsKeyed (sym done_first) all.2 in
    let covered : AllCovered o' (map (λ (c : Collected). c.input) again) rows' =
      subst (λ is. AllCovered o' is rows') (sym same)
        (subst (AllCovered o (map (λ (c : Collected). c.input) cs)) (sym done_first) all.4) in
    let second = covered-upsert_all o' again nothing rows' keyed fresh covered in
    (
      second.0.0,
      second.0.1,
      upsert_collected-done o' again rows' second.0 second.1,
      second.2,
      second.3,
    )
