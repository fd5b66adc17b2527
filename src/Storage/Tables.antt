-- ===== src/Storage/Tables.antt =====
-- The SQL that the repositories use, on lists of rows: upserts, updates, ordered selections.
pub mod Lookup
pub mod Sorting
pub mod Unique
use open_blog_agent.Prelude.{
  ℕ, Bool, true, false, ◌||◌, ◌&&◌, Option, none, some, List, [], ◌∷◌, ltb, if◌then◌else◌,
}

module _ {ℓ} {A : Type ℓ} where
  -- UPDATE … WHERE
  unfoldable pub update_where : (A → Bool) → (A → A) → List A → List A
  update_where p f [] = []
  update_where p f (r ∷ rs) = (if p r then f r else r) ∷ update_where p f rs

  -- INSERT … ON CONFLICT DO UPDATE: `f` on the row in conflict, else a new last row
  unfoldable pub upsert : (A → Bool) → (A → A) → A → List A → List A
  upsert p f new [] = new ∷ []
  upsert p f new (r ∷ rs) = let rest = upsert p f new rs in if p r then f r ∷ rs else r ∷ rest

  -- ORDER BY, keeping the order of rows that no key tells apart; `before a b` is strict
  unfoldable pub insert_by : (A → A → Bool) → A → List A → List A
  insert_by before r [] = r ∷ []
  insert_by before r (s ∷ ss) =
      let rest = insert_by before r ss in if before s r then s ∷ rest else r ∷ s ∷ ss

  unfoldable pub order_by : (A → A → Bool) → List A → List A
  unfolding insert_by
  order_by before [] = []
  order_by before (r ∷ rs) = insert_by before r (order_by before rs)

-- Ascending order of a column, `null` first, as SQLite sorts.
unfoldable pub null_ltb : Option ℕ → Option ℕ → Bool
null_ltb none none = false
null_ltb none (some b) = true
null_ltb (some a) none = false
null_ltb (some a) (some b) = ltb a b

-- Two columns: the second decides where the first ties.
abbrev pub then_by : Bool → Bool → Bool → Bool
then_by less tie second = less || (tie && second)
