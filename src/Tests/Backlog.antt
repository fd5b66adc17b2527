-- ===== src/Tests/Backlog.antt =====
-- The theorems on the backlog (packages/storage/src/backlog/store.ts) at concrete inputs.
use open_blog_agent.Prelude.{
  ℕ, String, ◌≡◌, ◌≢◌, ◌==◌, eq_iff, refl, true, false, none, some, List, [], ◌∷◌, length, first,
  All,
}
use open_blog_agent.Storage.Tables.Unique.{IsAbsent, IsUnique}
use open_blog_agent.Backlog.{
  CandidateStatus, CandidateRow, CandidateInput, done, refused, invalid_state, status_eq, list,
  better,
}
use open_blog_agent.Backlog.Collect.{Settings, Collected, Upserted, new_row, upsert_collected}
use open_blog_agent.Backlog.Decide.{accept, drop, mark_used}
use open_blog_agent.Backlog.Keys.{IsKeyed}
use open_blog_agent.Backlog.Stored.{IsFresh, IsStep, upsert_collected-IsStored}
use open_blog_agent.Backlog.Again.{upsert_collected-again}
use open_blog_agent.Backlog.Getting.{first-list-IsBest}
use open_blog_agent.Backlog.Following.{Follows}
use open_blog_agent.Backlog.Lifecycle.{
  Changes, unchanged, then_one, dropping, Changes-Follows, used_is_final,
}

abbrev settings : Settings
settings = record { normalize = λ t. t; now = 10; auto_accept_min_score = some 70 }

abbrev input : String → String → ℕ → CandidateInput
input title key score = record {
  title = title;
  url = key;
  url_key = key;
  source = "feed";
  summary = none;
  published_at = none;
  score = score;
  breakdown = "";
  motivation = "";
}

-- The second has the title of the first, the third reaches the threshold.
abbrev collected : List Collected
collected =
    (record { id = "a"; input = input "Rust" "x/1" 50 })
    ∷ (record { id = "b"; input = input "Rust" "x/2" 60 })
    ∷ (record { id = "c"; input = input "Go" "x/3" 80 })
    ∷ []

abbrev again : List Collected
again =
    (record { id = "d"; input = input "Rust" "x/1" 50 })
    ∷ (record { id = "e"; input = input "Rust" "x/2" 60 })
    ∷ (record { id = "f"; input = input "Go" "x/3" 80 })
    ∷ []

empty-IsKeyed : IsKeyed []
unfolding IsUnique
empty-IsKeyed = record { ids = tt; urls = tt; titles = tt }

differ : (s t : String) → (s == t) ≡ false → s ≢ t
differ s t h e = let same = (eq_iff s t).1 e in cc

collected-IsFresh : IsFresh collected []
unfolding IsFresh IsAbsent
collected-IsFresh = (
  tt,
  (differ "b" "a" refl, (differ "c" "a" refl, tt)),
  (tt, (differ "c" "b" refl, tt), (tt, tt, tt)),
)

upsert_collected-IsStored_example :
    (u : Upserted) × (later : List CandidateRow) × (upsert_collected settings collected []
      ≡ (done u, later))
    × IsStep 3 [] (u, later)
upsert_collected-IsStored_example =
    upsert_collected-IsStored settings collected [] empty-IsKeyed collected-IsFresh

abbrev stored : List CandidateRow
stored = (upsert_collected settings collected []).1

again-IsFresh : IsFresh again stored
unfolding IsFresh IsAbsent upsert_collected
again-IsFresh = (
  (differ "a" "d" refl, (differ "c" "d" refl, tt)),
  (differ "e" "d" refl, (differ "f" "d" refl, tt)),
  (
    (differ "a" "e" refl, (differ "c" "e" refl, tt)),
    (differ "f" "e" refl, tt),
    ((differ "a" "f" refl, (differ "c" "f" refl, tt)), tt, tt),
  ),
)

upsert_collected-again_example :
    (u : Upserted) × (after : List CandidateRow) × (upsert_collected
        (record settings { now = 20 })
        again
        stored
      ≡ (done u, after))
    × (u.created ≡ [])
    × (length after ≡ length stored)
upsert_collected-again_example =
    upsert_collected-again settings collected again 20 [] empty-IsKeyed collected-IsFresh refl
      again-IsFresh

-- "a" stays new, "c" reached the threshold.
stored-first :
    (r : CandidateRow) × (first (list (some CandidateStatus.accepted) (some 1) stored) ≡ some r)
unfolding list upsert_collected
stored-first = (new_row settings (record { id = "c"; input = input "Go" "x/3" 80 }), refl)

first-list-IsBest_example :
    (status_eq stored-first.0.status CandidateStatus.accepted ≡ true)
    × All
        (λ s. status_eq s.status CandidateStatus.accepted ≡ true → better s stored-first.0 ≡ false)
        stored
first-list-IsBest_example =
    first-list-IsBest CandidateStatus.accepted 1 stored stored-first.0 stored-first.1

-- One candidate, used by a run and then offered for a rejection.
abbrev one_row : CandidateRow
one_row = record {
  id = "a";
  title = "Rust";
  title_normalized = "rust";
  url = "x/1";
  url_key = "x/1";
  source = "feed";
  summary = none;
  published_at = none;
  collected_at = 1;
  score = 50;
  breakdown = "";
  motivation = "";
  status = CandidateStatus.used;
  brief = none;
  decided_by = none;
  decision_note = none;
  decided_at = none;
  workflow_id = some "w";
  enrichment = none;
  created_at = 1;
  updated_at = 1;
}

one-IsKeyed : IsKeyed (one_row ∷ [])
unfolding IsUnique IsAbsent
one-IsKeyed = record { ids = (tt, tt); urls = (tt, tt); titles = (tt, tt) }

abbrev after_drop : List CandidateRow
after_drop = (drop "a" "me" none 5 (one_row ∷ [])).1

abbrev offered : Changes (one_row ∷ []) after_drop
offered = then_one unchanged (dropping "a" "me" none 5)

Changes-Follows_example : IsKeyed after_drop × Follows (one_row ∷ []) after_drop
Changes-Follows_example = Changes-Follows (one_row ∷ []) after_drop one-IsKeyed offered

used_is_final_example :
    (accept "a" "me" none 9 after_drop ≡ (refused invalid_state, after_drop))
    × (drop "a" "me" none 9 after_drop ≡ (refused invalid_state, after_drop))
    × (mark_used "a" "v" 9 after_drop ≡ (refused invalid_state, after_drop))
used_is_final_example =
    used_is_final (one_row ∷ []) after_drop "a" one_row "me" none "v" 9 one-IsKeyed offered refl
      refl
