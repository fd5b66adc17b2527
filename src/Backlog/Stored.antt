-- ===== src/Backlog/Stored.antt =====
-- `upsertCollected` of packages/storage/src/backlog/store.ts as a whole.
use open_blog_agent.Storage.Tables.{update_where}
use open_blog_agent.Prelude.{
  Bool, ap, ℕ, suc, ◌+◌, String, ◌≡◌, ◌≢◌, true, Option, none, some, List, [], ◌∷◌, ◌++◌, All,
  arith, ◌==◌, Bool-cases, inl, inr, refl, eq_refl, length, length-append, ◌∙◌, sym, subst,
}
use open_blog_agent.Storage.Tables.Unique.{
  IsAbsent, append-IsUnique, append-IsAbsent, update_where-IsAbsent, find-IsAbsent, row-IsAbsent,
  row-append,
}
use open_blog_agent.Backlog.{CandidateStatus, CandidateRow, done, must_get, by_id, status_eq}
use open_blog_agent.Backlog.Collect.{
  Settings, Collected, Upserted, find_existing, new_row, refresh, upsert_found, upsert_one,
  upsert_all, upsert_collected, pushed, push_created, push_refreshed, push_unchanged, Step,
}
use open_blog_agent.Backlog.Keys.{
  IsKeyed, Keeps, Keeps-refl, Keeps-trans, append-Keeps, counted, refresh_all, refresh_all-IsKeyed,
  refresh_all-Keeps, refresh-keys, find_existing-by_id, refreshed-row,
}

-- The ids of the inputs are new: none is stored, and no two are the same.
unfoldable pub IsFresh : List Collected → List CandidateRow → Type 0
IsFresh [] rows = Unit
IsFresh (c ∷ cs) rows =
    IsAbsent (λ (r : CandidateRow). r.id) c.id rows
    × All (λ (d : Collected). d.id ≢ c.id) cs
    × IsFresh cs rows

-- One step is done, with one more input counted.
pub record IsStep (n : ℕ) (rows : List CandidateRow) (s : Step) : Type 0 where
  pub total : counted s.0 ≡ n
  pub keyed : IsKeyed s.1
  pub keeps : Keeps rows s.1

-- No id but `id` is new among the rows.
pub Leaves : String → List CandidateRow → List CandidateRow → Type 0
Leaves id rows later =
    (k : String)
    → k ≢ id
    → IsAbsent (λ (r : CandidateRow). r.id) k rows
    → IsAbsent (λ (r : CandidateRow). r.id) k later

pub IsFresh-Leaves :
    (cs : List Collected) (id : String) (rows later : List CandidateRow)
    → Leaves id rows later
    → All (λ (d : Collected). d.id ≢ id) cs
    → IsFresh cs rows
    → IsFresh cs later
unfolding IsFresh Leaves
IsFresh-Leaves [] id rows later l others f = tt
IsFresh-Leaves (c ∷ cs) id rows later l others f =
    (l c.id others.0 f.0, f.1, IsFresh-Leaves cs id rows later l others.1 f.2)

abbrev pub nothing : Upserted
nothing = record { created = []; refreshed = []; unchanged = [] }

length-update_where :
    (p : CandidateRow → Bool) (f : CandidateRow → CandidateRow) (rows : List CandidateRow)
    → length (update_where p f rows) ≡ length rows
unfolding update_where
length-update_where p f [] = refl
length-update_where p f (r ∷ rows) = ap suc (length-update_where p f rows)

pushed-done :
    (push : CandidateRow → Upserted → Upserted) (u : Upserted) (id : String)
    (rows : List CandidateRow) (r : CandidateRow)
    → by_id id rows ≡ some r
    → pushed push u id rows ≡ done (push r u, rows)
unfolding must_get
pushed-done push u id rows r h = rw (h, pushed) refl

module _ (o : Settings) where
  append-IsKeyed :
      (c : Collected) (rows : List CandidateRow)
      → IsKeyed rows
      → IsAbsent (λ (r : CandidateRow). r.id) c.id rows
      → find_existing o c.input rows ≡ none
      → IsKeyed (rows ++ (new_row o c ∷ []))
  unfolding new_row
  append-IsKeyed c rows k fresh unseen = record {
    ids = append-IsUnique (λ r. r.id) rows (new_row o c) k.ids fresh;
    urls =
        append-IsUnique (λ r. r.url_key) rows (new_row o c) k.urls
          (find-IsAbsent (λ r. r.url_key) c.input.url_key rows (ground arith));
    titles =
        append-IsUnique (λ r. r.title_normalized) rows (new_row o c) k.titles
          (find-IsAbsent (λ r. r.title_normalized) (o.normalize c.input.title) rows (ground arith));
  }

  pub new_row-by_id :
      (c : Collected) (rows : List CandidateRow)
      → IsAbsent (λ (r : CandidateRow). r.id) c.id rows
      → by_id c.id (rows ++ (new_row o c ∷ [])) ≡ some (new_row o c)
  unfolding new_row
  new_row-by_id c rows fresh =
      row-append (λ r. r.id) c.id rows (new_row o c)
      ∙ rw (row-IsAbsent (λ r. r.id) c.id rows fresh, eq_refl c.id) refl

  -- One input is done: a new row for an input that is not there yet, else no new row.
  pub record IsOne (c : Collected) (e : Option CandidateRow) (u : Upserted)
      (rows : List CandidateRow) (s : Step) : Type 0 where
    pub step : IsStep (suc (counted u)) rows s
    pub leaves : Leaves c.id rows s.1
    pub stored : e ≡ none → by_id c.id s.1 ≡ some (new_row o c)
    pub known : e ≢ none → (s.0.created ≡ u.created) × (length s.1 ≡ length rows)

  refreshed-IsOne :
      (c : Collected) (u : Upserted) (rows : List CandidateRow) (e : CandidateRow)
      → IsKeyed rows
      → find_existing o c.input rows ≡ some e
      → status_eq e.status CandidateStatus.new ≡ true
      → (s : Step) × (pushed push_refreshed u e.id (refresh_all o e.id c.input rows) ≡ done s)
        × IsOne c (some e) u rows s
  unfolding must_get Leaves
  refreshed-IsOne c u rows e k seen undecided =
      let found = find_existing-by_id o c.input rows e k seen in
      let after = refresh_all o e.id c.input rows in
      let stored : by_id e.id after ≡ some (refresh o c.input e) =
        refreshed-row o c.input rows e.id e.id ∙ rw (eq_refl e.id, found) refl in
      (
        (push_refreshed (refresh o c.input e) u, after),
        pushed-done push_refreshed u e.id after (refresh o c.input e) stored,
        record {
          step = record {
            total = ground (arith, length-append u.refreshed (refresh o c.input e ∷ []));
            keyed = refresh_all-IsKeyed o e.id c.input rows k;
            keeps = refresh_all-Keeps o c.input rows e found undecided;
          };
          leaves = λ k n h.
              update_where-IsAbsent (λ r. r.id) (λ r. r.id == e.id) (refresh o c.input) k rows
                (λ r. (refresh-keys o c.input r).0) h;
          stored = λ missing. cc;
          known = λ _. (refl, length-update_where (λ r. r.id == e.id) (refresh o c.input) rows);
        },
      )

  pub upsert_found-IsOne :
      (c : Collected) (u : Upserted) (rows : List CandidateRow) (e : Option CandidateRow)
      → IsKeyed rows
      → IsAbsent (λ (r : CandidateRow). r.id) c.id rows
      → find_existing o c.input rows ≡ e
      → (s : Step) × (upsert_found o c e u rows ≡ done s) × IsOne c e u rows s
  unfolding upsert_found must_get Leaves
  upsert_found-IsOne c u rows none k fresh unseen =
      let after = rows ++ (new_row o c ∷ []) in
      let stored : by_id c.id after ≡ some (new_row o c) = new_row-by_id c rows fresh in
      (
        (push_created (new_row o c) u, after),
        pushed-done push_created u c.id after (new_row o c) stored,
        record {
          step = record {
            total = ground (arith, length-append u.created (new_row o c ∷ []));
            keyed = append-IsKeyed c rows k fresh unseen;
            keeps = append-Keeps (new_row o c) rows;
          };
          leaves = λ k n h. append-IsAbsent (λ r. r.id) k rows (new_row o c) h (λ e. n (sym e));
          stored = λ _. stored;
          known = λ there. absurd (there refl);
        },
      )
  upsert_found-IsOne c u rows (some e) k fresh seen =
      elim (Bool-cases (status_eq e.status CandidateStatus.new)) [
        | inl undecided ↦ rw undecided (refreshed-IsOne c u rows e k seen undecided)
        | inr decided ↦ rw decided (
          (push_unchanged e u, rows),
          refl,
          record {
            step = record {
              total = ground (arith, length-append u.unchanged (e ∷ []));
              keyed = k;
              keeps = Keeps-refl rows;
            };
            leaves = λ k n h. h;
            stored = λ missing. cc;
            known = λ _. (refl, refl);
          },
        )
      ]

  pub upsert_all-done :
      (c : Collected) (cs : List Collected) (u : Upserted) (s : Step) (rows : List CandidateRow)
      → upsert_found o c (find_existing o c.input rows) u rows ≡ done s
      → upsert_all o (c ∷ cs) u rows ≡ upsert_all o cs s.0 s.1
  unfolding upsert_all
  upsert_all-done c cs u s rows h = rw (h, upsert_all) refl

  pub upsert_all-IsStored :
      (cs : List Collected) (u : Upserted) (rows : List CandidateRow)
      → IsKeyed rows
      → IsFresh cs rows
      → (s : Step) × (upsert_all o cs u rows ≡ done s) × IsStep (counted u + length cs) rows s
  unfolding upsert_all upsert_one IsFresh
  upsert_all-IsStored [] u rows k f =
      ((u, rows), refl, record { total = omega arith; keyed = k; keeps = Keeps-refl rows })
  upsert_all-IsStored (c ∷ cs) u rows k f =
      let one = upsert_found-IsOne c u rows (find_existing o c.input rows) k f.0 refl in
      let s = one.0 in
      let rest =
        upsert_all-IsStored cs s.0 s.1 one.2.step.keyed
          (IsFresh-Leaves cs c.id rows s.1 one.2.leaves f.1 f.2) in
      (
        rest.0,
        upsert_all-done c cs u s rows one.1 ∙ rest.1,
        record {
          total = ground (arith, rest.2.total, one.2.step.total);
          keyed = rest.2.keyed;
          keeps = Keeps-trans rows s.1 rest.0.1 one.2.step.keeps rest.2.keeps;
        },
      )

  -- A collection never throws when its rows have the keys that the table asks for and its ids are
  -- new: the rows have such keys again, every input is counted once, and every stored candidate is
  -- still stored under its keys and, once it was decided, as it was.
  pub upsert_collected-IsStored :
      (cs : List Collected) (rows : List CandidateRow)
      → IsKeyed rows
      → IsFresh cs rows
      → (u : Upserted) × (later : List CandidateRow) × (upsert_collected o cs rows
          ≡ (done u, later))
        × IsStep (length cs) rows (u, later)
  unfolding upsert_collected
  upsert_collected-IsStored cs rows k f =
      let all = upsert_all-IsStored cs nothing rows k f in
      let total : counted nothing + length cs ≡ length cs = omega arith in
      (
        all.0.0,
        all.0.1,
        rw (all.1, upsert_collected) refl,
        subst (λ n. IsStep n rows all.0) total all.2,
      )
