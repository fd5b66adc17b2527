-- ===== src/Storage/Tables/Lookup.antt =====
-- Selecting a row by its key after an update or an upsert by key.
use open_blog_agent.Prelude.{
  String, ◌≡◌, Option, none, some, List, [], ◌∷◌, find, if◌then◌else◌, arith, ◌==◌, eq_iff,
}
use open_blog_agent.Storage.Tables.{update_where, upsert}

abbrev pub changed {ℓ} : {A : Type ℓ} → (A → A) → Option A → Option A
changed f none = none
changed f (some r) = some (f r)

abbrev pub upserted {ℓ} : {A : Type ℓ} → (A → A) → A → Option A → A
upserted f new none = new
upserted f new (some r) = f r

module _ {A : Type 0} (key : A → String) where
  -- The row with the key `j`.
  abbrev pub row : String → List A → Option A
  row j rs = find (λ r. key r == j) rs

  pub row-update_where :
      (f : A → A) (i j : String)
      → ((r : A) → key (f r) ≡ key r)
      → (rs : List A)
      → row j (update_where (λ r. key r == i) f rs)
        ≡ (if i == j then changed f (row j rs) else row j rs)
  unfolding update_where
  row-update_where f i j same [] = ground arith
  row-update_where f i j same (r ∷ rs) = ground (
    arith,
    row-update_where f i j same rs,
    same r,
    eq_iff i j,
    eq_iff (key r) i,
    eq_iff (key r) j,
  )

  pub row-upsert :
      (f : A → A) (new : A) (i j : String)
      → ((r : A) → key r ≡ i → key (f r) ≡ i)
      → key new ≡ i
      → (rs : List A)
      → row j (upsert (λ r. key r == i) f new rs)
        ≡ (if i == j then some (upserted f new (row j rs)) else row j rs)
  unfolding upsert
  row-upsert f new i j same e [] = ground (arith, eq_iff i j)
  row-upsert f new i j same e (r ∷ rs) = ground (
    arith,
    row-upsert f new i j same e rs,
    same r,
    eq_iff i j,
    eq_iff (key r) i,
    eq_iff (key r) j,
    eq_iff (key (f r)) j,
  )
