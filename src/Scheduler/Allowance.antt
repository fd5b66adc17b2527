-- ===== src/Scheduler/Allowance.antt =====
-- The limits of the scheduler (packages/app/src/scheduler.ts), against what they mean.
use open_blog_agent.Prelude.{
  ℕ, ◌+◌, ◌-◌, ◌≤◌, ◌<◌, ◌⊎◌, inl, inr, true, false, ◌≡◌, Option, none, some, List, [], ◌∷◌, arith,
  refl, keep, length, leb, ltb, if◌then◌else◌, Bool-cases, ap, sym, subst,
}
use open_blog_agent.Storage.Models.{Db, StepRecord, WorkflowRecord}
use open_blog_agent.Scheduler.{step_cost, total_cost, usage_since}
use open_blog_agent.Scheduler.Round.{
  Limits, LimitReason, in_window, outside, is_reached, limit_hit, day_ms,
}

-- how many runs were created from a time on
pub runs_from : ℕ → List WorkflowRecord → ℕ
runs_from since [] = 0
runs_from since (w ∷ ws) = (if leb since w.created_at then 1 else 0) + runs_from since ws

-- what the steps cost that were completed from a time on
pub cost_from : ℕ → List StepRecord → ℕ
cost_from since [] = 0
cost_from since (s ∷ ss) =
    (if leb since s.completed_at then step_cost s else 0) + cost_from since ss

-- A minute of the day is in a window; one that ends before it starts crosses midnight.
abbrev pub IsInside : ℕ × ℕ → ℕ → Type 0
IsInside w minute =
    ((w.0 < w.1) × (w.0 ≤ minute) × (minute < w.1))
    ⊎ ((w.1 ≤ w.0) × ((w.0 ≤ minute) ⊎ (minute < w.1)))

-- A round may run: the time is in the window, and what was used in the last day is below the limits,
-- where there are any.
pub record IsFree (c : Limits) (minute : ℕ → ℕ) (now : ℕ) (db : Db) : Type 0 where
  pub inside : (w : ℕ × ℕ) → c.window ≡ some w → IsInside w (minute now)
  pub runs : (most : ℕ) → c.max_runs ≡ some most → runs_from (now - day_ms) db.workflows < most
  pub cost : (most : ℕ) → c.max_cost ≡ some most → cost_from (now - day_ms) db.steps < most

runs_from-length :
    (since : ℕ) (ws : List WorkflowRecord)
    → length (keep (λ (w : WorkflowRecord). leb since w.created_at) ws) ≡ runs_from since ws
unfolding runs_from
runs_from-length since [] = refl
runs_from-length since (w ∷ ws) = ground (arith, runs_from-length since ws)

cost_from-total_cost :
    (since : ℕ) (ss : List StepRecord)
    → total_cost (keep (λ (s : StepRecord). leb since s.completed_at) ss) ≡ cost_from since ss
unfolding cost_from total_cost
cost_from-total_cost since [] = refl
cost_from-total_cost since (s ∷ ss) = elim (Bool-cases (leb since s.completed_at)) [
  | inl late ↦ rw late (ap (λ n. step_cost s + n) (cost_from-total_cost since ss))
  | inr early ↦ rw early (omega (arith, cost_from-total_cost since ss))
]

in_window-IsInside : (w : ℕ × ℕ) (minute : ℕ) → in_window w minute ≡ true → IsInside w minute
unfolding in_window
in_window-IsInside w minute h = elim (Bool-cases (ltb w.0 w.1)) [
  | inl day ↦ inl (ground arith, ground arith, ground arith)
  | inr night ↦ elim (Bool-cases (leb w.0 minute)) [
    | inl late ↦ inr (ground arith, inl (ground arith))
    | inr early ↦ inr (ground arith, inr (ground arith))
  ]
]

outside-IsInside :
    (window : Option (ℕ × ℕ)) (w : ℕ × ℕ) (minute : ℕ)
    → outside window minute ≡ false
    → window ≡ some w
    → IsInside w minute
unfolding outside
outside-IsInside none w minute h e = cc
outside-IsInside (some v) w minute h e =
    let same : v ≡ w = cc in
    subst (λ (x : ℕ × ℕ). IsInside x minute) same (in_window-IsInside v minute (ground arith))

outside-not_inside :
    (window : Option (ℕ × ℕ)) (minute : ℕ)
    → outside window minute ≡ true
    → ((w : ℕ × ℕ) → window ≡ some w → IsInside w minute)
    → ⊥
unfolding outside in_window
outside-not_inside none minute h inside = cc
outside-not_inside (some v) minute h inside = let at = inside v refl in ground arith

below_of :
    (limit : Option ℕ) (used most : ℕ)
    → is_reached limit used ≡ false
    → limit ≡ some most
    → used < most
below_of none used most h e = cc
below_of (some n) used most h e = ground arith

reached_of :
    (limit : Option ℕ) (used : ℕ)
    → is_reached limit used ≡ true
    → ((most : ℕ) → limit ≡ some most → used < most)
    → ⊥
reached_of none used h below = cc
reached_of (some n) used h below = let at = below n refl in ground arith

module _ (c : Limits) (minute : ℕ → ℕ) (now : ℕ) (db : Db) where
  pub limit_hit-IsFree : limit_hit c minute now db ≡ none → IsFree c minute now db
  unfolding limit_hit usage_since
  limit_hit-IsFree h =
      let runs = runs_from-length (now - day_ms) db.workflows in
      let cost = cost_from-total_cost (now - day_ms) db.steps in
      record {
        inside = λ w e. outside-IsInside c.window w (minute now) (ground arith) e;
        runs = λ most e. subst (λ n. n < most) runs (below_of c.max_runs _ most (ground arith) e);
        cost = λ most e. subst (λ n. n < most) cost (below_of c.max_cost _ most (ground arith) e);
      }

  pub limit_hit-not_free :
      (reason : LimitReason) → limit_hit c minute now db ≡ some reason → IsFree c minute now db → ⊥
  unfolding limit_hit usage_since
  limit_hit-not_free reason h free =
      let runs = runs_from-length (now - day_ms) db.workflows in
      let cost = cost_from-total_cost (now - day_ms) db.steps in
      elim (Bool-cases (outside c.window (minute now))) [
        | inl away ↦ outside-not_inside c.window (minute now) away free.inside
        | inr within ↦
            elim (Bool-cases (is_reached c.max_runs (usage_since (now - day_ms) db).runs)) [
              | inl many ↦
                  reached_of c.max_runs _ many
                    (λ most e. subst (λ n. n < most) (sym runs) (free.runs most e))
              | inr few ↦
                  reached_of c.max_cost (usage_since (now - day_ms) db).cost_usd (ground arith)
                    (λ most e. subst (λ n. n < most) (sym cost) (free.cost most e))
            ]
      ]
