-- ===== src/Storage/Tables/Sorting.antt =====
-- The first row of an ordered selection.
use open_blog_agent.Prelude.{
  ◌≡◌, inl, inr, Bool, false, List, [], ◌∷◌, All, Bool-cases, some, none, true, keep, ◌≢◌, any,
  arith, refl,
}
use open_blog_agent.Prelude.{All-mono, first}
use mathlib.Core.Path.{subst}
use open_blog_agent.Storage.Tables.{insert_by, order_by}

module _ {A : Type 0} (before : A → A → Bool) where
  -- A predicate that holds of every row holds of every row of the ordered table.
  insert_by-All :
      (P : A → Type 0) (r : A) (rs : List A) → P r → All P rs → All P (insert_by before r rs)
  unfolding insert_by
  insert_by-All P r [] p h = (p, tt)
  insert_by-All P r (s ∷ ss) p h = elim (Bool-cases (before s r)) [
    | inl later ↦ rw later (h.0, insert_by-All P r ss p h.1)
    | inr here ↦ rw here (p, h)
  ]

  pub order_by-All : (P : A → Type 0) (rs : List A) → All P rs → All P (order_by before rs)
  unfolding order_by
  order_by-All P [] h = tt
  order_by-All P (r ∷ rs) h = insert_by-All P r (order_by before rs) h.0 (order_by-All P rs h.1)

  insert_by-All_converse :
      (P : A → Type 0) (r : A) (rs : List A) → All P (insert_by before r rs) → P r × All P rs
  unfolding insert_by
  insert_by-All_converse P r [] h = (h.0, tt)
  insert_by-All_converse P r (s ∷ ss) h = elim (Bool-cases (before s r)) [
    | inl later ↦
        let h' : P s × All P (insert_by before r ss) = rw later at h in
        let (p, rest) = insert_by-All_converse P r ss h'.1 in (p, (h'.0, rest))
    | inr here ↦ let h' : P r × All P (s ∷ ss) = rw here at h in h'
  ]

  pub order_by-All_converse : (P : A → Type 0) (rs : List A) → All P (order_by before rs) → All P rs
  unfolding order_by
  order_by-All_converse P [] h = tt
  order_by-All_converse P (r ∷ rs) h =
      let (p, rest) = insert_by-All_converse P r (order_by before rs) h in
      (p, order_by-All_converse P rs rest)

-- A strict order of rows in which any number of rows may tie.
pub record IsStrictOrder {A : Type 0} (before : A → A → Bool) : Type 0 where
  pub asym : (r s : A) → before r s ≡ true → before s r ≡ false
  pub split : (r s t : A) → before s r ≡ false → before t s ≡ false → before t r ≡ false

module _ {A : Type 0} (before : A → A → Bool) (order : IsStrictOrder before) where
  -- No row of `rs` comes before `r`.
  abbrev pub IsLeast : A → List A → Type 0
  IsLeast r rs = All (λ s. before s r ≡ false) rs

  abbrev IsSortedBy : List A → Type 0
  IsSortedBy [] = Unit
  IsSortedBy (r ∷ rs) = IsLeast r rs × IsSortedBy rs

  insert_by-IsSortedBy : (r : A) (rs : List A) → IsSortedBy rs → IsSortedBy (insert_by before r rs)
  unfolding insert_by
  insert_by-IsSortedBy r [] h = (tt, tt)
  insert_by-IsSortedBy r (s ∷ ss) h = elim (Bool-cases (before s r)) [
    | inl later ↦ rw later (
      insert_by-All before (λ w. before w s ≡ false) r ss (order.asym s r later) h.0,
      insert_by-IsSortedBy r ss h.1,
    )
    | inr here ↦ rw here (
      (
        here,
        All-mono (λ w. before w s ≡ false) (λ w. before w r ≡ false)
            (λ w k. order.split r s w here k) ss h.0,
      ),
      h,
    )
  ]

  order_by-IsSortedBy : (rs : List A) → IsSortedBy (order_by before rs)
  unfolding order_by
  order_by-IsSortedBy [] = tt
  order_by-IsSortedBy (r ∷ rs) =
      insert_by-IsSortedBy r (order_by before rs) (order_by-IsSortedBy rs)

  irrefl : (r : A) → before r r ≡ false
  irrefl r = elim (Bool-cases (before r r)) [ inl h ↦ order.asym r r h | inr h ↦ h ]

  head-IsLeast : (rs : List A) (r : A) → IsSortedBy rs → first rs ≡ some r → IsLeast r rs
  head-IsLeast [] r h e = cc
  head-IsLeast (s ∷ ss) r h e =
      let same : s ≡ r = cc in subst (λ t. IsLeast t (s ∷ ss)) same (irrefl s, h.0)

  -- No row of the table comes before the first row of the ordered table.
  pub first-order_by-IsLeast :
      (rs : List A) (r : A) → first (order_by before rs) ≡ some r → IsLeast r rs
  first-order_by-IsLeast rs r e =
      order_by-All_converse before (λ s. before s r ≡ false) rs
        (head-IsLeast (order_by before rs) r (order_by-IsSortedBy rs) e)

first-All : {A : Type 0} (P : A → Type 0) (rs : List A) (r : A) → All P rs → first rs ≡ some r → P r
first-All P [] r h e = cc
first-All P (s ∷ ss) r h e = let same : s ≡ r = cc in rw (← same) h.0

-- What holds of every row holds of the first row of the ordered table.
pub first-order_by-All :
    {A : Type 0} (before : A → A → Bool) (P : A → Type 0) (rs : List A) (r : A)
    → All P rs
    → first (order_by before rs) ≡ some r
    → P r
first-order_by-All before P rs r h e =
    first-All P (order_by before rs) r (order_by-All before P rs h) e

first-insert_by-ne :
    {A : Type 0} (before : A → A → Bool) (r : A) (rs : List A)
    → first (insert_by before r rs) ≢ none
unfolding insert_by
first-insert_by-ne before r [] = ground arith
first-insert_by-ne before r (s ∷ ss) = ground arith

-- The ordered table is empty only if the table is.
pub first-order_by-none :
    {A : Type 0} (before : A → A → Bool) (rs : List A) → first (order_by before rs) ≡ none → rs ≡ []
unfolding order_by
first-order_by-none before [] e = refl
first-order_by-none before (r ∷ rs) e = absurd (first-insert_by-ne before r (order_by before rs) e)

module _ {A : Type 0} (p : A → Bool) where
  pub All-keep : (rs : List A) → All (λ r. p r ≡ true) (keep p rs)
  All-keep [] = tt
  All-keep (r ∷ rs) = elim (Bool-cases (p r)) [
    | inl h ↦ rw h (h, All-keep rs)
    | inr h ↦ rw h (All-keep rs)
  ]

  pub keep-All : (P : A → Type 0) (rs : List A) → All P rs → All P (keep p rs)
  keep-All P [] h = tt
  keep-All P (r ∷ rs) h = elim (Bool-cases (p r)) [
    | inl e ↦ rw e (h.0, keep-All P rs h.1)
    | inr e ↦ rw e (keep-All P rs h.1)
  ]

  -- What holds of every row that is kept holds of every row of the table that passes the test.
  pub All-keep_converse :
      (P : A → Type 0) (rs : List A) → All P (keep p rs) → All (λ r. p r ≡ true → P r) rs
  All-keep_converse P [] h = tt
  All-keep_converse P (r ∷ rs) h = elim (Bool-cases (p r)) [
    | inl e ↦
        let h' : P r × All P (keep p rs) = rw e at h in ((λ _. h'.0), All-keep_converse P rs h'.1)
    | inr e ↦ let h' : All P (keep p rs) = rw e at h in ((λ k. cc), All-keep_converse P rs h')
  ]

  pub keep-nil : (rs : List A) → keep p rs ≡ [] → any p rs ≡ false
  keep-nil [] e = refl
  keep-nil (r ∷ rs) e = ground (arith, keep-nil rs)
