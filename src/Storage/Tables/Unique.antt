-- ===== src/Storage/Tables/Unique.antt =====
-- Tables in which no two rows have the same key, as a UNIQUE column asks.
use open_blog_agent.Prelude.{
  String, ◌≡◌, ◌≢◌, Bool, none, some, List, [], ◌∷◌, ◌++◌, All, find, arith, ◌==◌, eq_iff,
  Bool-cases, inl, inr, refl, if◌then◌else◌, sym, subst,
}
use open_blog_agent.Storage.Tables.{update_where}
use open_blog_agent.Storage.Tables.Lookup.{row}

module _ {A : Type 0} (key : A → String) where
  -- No row has the key `k`.
  unfoldable pub IsAbsent : String → List A → Type 0
  IsAbsent k = All (λ r. key r ≢ k)

  -- No two rows have the same key.
  unfoldable pub IsUnique : List A → Type 0
  unfolding IsAbsent
  IsUnique [] = Unit
  IsUnique (r ∷ rs) = IsAbsent (key r) rs × IsUnique rs

  pub update_where-IsAbsent :
      (p : A → Bool) (f : A → A) (k : String) (rs : List A)
      → ((r : A) → key (f r) ≡ key r)
      → IsAbsent k rs
      → IsAbsent k (update_where p f rs)
  unfolding IsAbsent update_where
  update_where-IsAbsent p f k [] same h = tt
  update_where-IsAbsent p f k (r ∷ rs) same h =
      (ground (arith, same r, h.0), update_where-IsAbsent p f k rs same h.1)

  pub update_where-IsUnique :
      (p : A → Bool) (f : A → A) (rs : List A)
      → ((r : A) → key (f r) ≡ key r)
      → IsUnique rs
      → IsUnique (update_where p f rs)
  unfolding IsUnique update_where
  update_where-IsUnique p f [] same h = tt
  update_where-IsUnique p f (r ∷ rs) same h =
      let kept : key (if p r then f r else r) ≡ key r = ground (arith, same r) in
      (
        subst (λ k. IsAbsent k (update_where p f rs)) (sym kept)
            (update_where-IsAbsent p f (key r) rs same h.0),
        update_where-IsUnique p f rs same h.1,
      )

  pub append-IsAbsent :
      (k : String) (rs : List A) (s : A) → IsAbsent k rs → key s ≢ k → IsAbsent k (rs ++ (s ∷ []))
  unfolding IsAbsent
  append-IsAbsent k [] s h n = (n, tt)
  append-IsAbsent k (r ∷ rs) s h n = (h.0, append-IsAbsent k rs s h.1 n)

  pub append-IsUnique :
      (rs : List A) (s : A) → IsUnique rs → IsAbsent (key s) rs → IsUnique (rs ++ (s ∷ []))
  unfolding IsUnique IsAbsent
  append-IsUnique [] s h n = (tt, tt)
  append-IsUnique (r ∷ rs) s h n =
      (append-IsAbsent (key r) rs s h.0 (λ e. n.0 (sym e)), append-IsUnique rs s h.1 n.1)

  pub find-IsAbsent : (k : String) (rs : List A) → row key k rs ≡ none → IsAbsent k rs
  unfolding IsAbsent
  find-IsAbsent k [] h = tt
  find-IsAbsent k (r ∷ rs) h =
      ((λ e. ground (arith, eq_iff (key r) k)), find-IsAbsent k rs (ground arith))

  pub row-IsAbsent : (k : String) (rs : List A) → IsAbsent k rs → row key k rs ≡ none
  unfolding IsAbsent
  row-IsAbsent k [] h = refl
  row-IsAbsent k (r ∷ rs) h = ground (arith, row-IsAbsent k rs h.1, eq_iff (key r) k, h.0)

  pub find-All :
      (P : A → Type 0) (p : A → Bool) (rs : List A) (r : A) → All P rs → find p rs ≡ some r → P r
  find-All P p [] r h e = cc
  find-All P p (s ∷ rs) r h e = elim (Bool-cases (p s)) [
    | inl here ↦ let same : s ≡ r = ground arith in subst P same h.0
    | inr later ↦ find-All P p rs r h.1 (ground arith)
  ]

  -- A row that is found by any test is the row with its key.
  pub row-find :
      (p : A → Bool) (rs : List A) (r : A)
      → IsUnique rs
      → find p rs ≡ some r
      → row key (key r) rs ≡ some r
  unfolding IsUnique
  row-find p [] r u h = ground arith
  row-find p (s ∷ rs) r u h = elim (Bool-cases (p s)) [
    | inl here ↦ ground (arith, eq_iff (key s) (key r))
    | inr later ↦
        let found : find p rs ≡ some r = ground arith in
        let other : key r ≢ key s = find-All (λ t. key t ≢ key s) p rs r u.0 found in
        ground (arith, eq_iff (key s) (key r), row-find p rs r u.1 found)
  ]

  pub row-append :
      (k : String) (rs : List A) (s : A)
      → row key k (rs ++ (s ∷ []))
        ≡ (elim (row key k rs) [ some r ↦ some r | none ↦ if key s == k then some s else none ])
  row-append k [] s = ground arith
  row-append k (r ∷ rs) s = ground (arith, row-append k rs s)
