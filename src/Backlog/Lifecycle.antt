-- ===== src/Backlog/Lifecycle.antt =====
-- The life of a candidate: what any sequence of operations of the store in
-- packages/storage/src/backlog/store.ts makes of it.
use open_blog_agent.Prelude.{
  ℕ, String, ◌≡◌, ◌≢◌, Bool, true, false, Option, some, List, arith, refl, ap, ◌∙◌, sym, subst,
}
use open_blog_agent.Backlog.{
  CandidateStatus, CandidateRow, CandidateEnrichment, Outcome, done, refused, by_id, get,
  invalid_state,
}
use open_blog_agent.Backlog.Collect.{Settings, Collected, upsert_collected, Upserted}
use open_blog_agent.Backlog.Decide.{
  decide, is_open, is_startable, any_status, accepted_row, accept, dropped_row, drop, used_row,
  mark_used, enriched_row, set_enrichment,
}
use open_blog_agent.Backlog.Keys.{IsKeyed, Keeps-at}
use open_blog_agent.Backlog.Stored.{IsFresh, upsert_collected-IsStored}
use open_blog_agent.Backlog.Getting.{get-exact}
use open_blog_agent.Backlog.Following.{
  IsFollowed-trans, IsKept-IsFollowed, Follows, Follows-refl, IsDecision, decide-Follows,
}

-- One operation of the store, by the rows before and after it. The ids of a collection are new.
pub data Change (rows : List CandidateRow) : List CandidateRow → Type 0 where
  collecting :
      (o : Settings) (cs : List Collected)
      → IsFresh cs rows
      → Change rows (upsert_collected o cs rows).1
  accepting :
      (id by : String) (brief : Option String) (now : ℕ)
      → Change rows (accept id by brief now rows).1
  dropping :
      (id by : String) (why : Option String) (now : ℕ) → Change rows (drop id by why now rows).1
  using_up : (id workflow_id : String) (now : ℕ) → Change rows (mark_used id workflow_id now rows).1
  enriching : (id : String) (e : CandidateEnrichment) → Change rows (set_enrichment id e rows).1

-- Any sequence of operations.
pub data Changes (rows : List CandidateRow) : List CandidateRow → Type 0 where
  unchanged : Changes rows rows
  then_one :
      {between later : List CandidateRow}
      → Changes rows between
      → Change between later
      → Changes rows later

open_ne : (s : CandidateStatus) → is_open s ≡ true → s ≢ CandidateStatus.used
open_ne s h = ground arith

startable_ne : (s : CandidateStatus) → is_startable s ≡ true → s ≢ CandidateStatus.used
startable_ne s h = ground arith

accepted_row-IsDecision :
    (by : String) (brief : Option String) (now : ℕ) → IsDecision is_open (accepted_row by brief now)
unfolding accepted_row
accepted_row-IsDecision by brief now = record {
  id = λ r. refl;
  url_key = λ r. refl;
  title = λ r. refl;
  follows = λ r may. record {
    same_id = refl;
    stays_used = λ e. absurd (open_ne r.status may e);
    stays_decided = λ n. λ e. cc;
  };
}

dropped_row-IsDecision :
    (by : String) (why : Option String) (now : ℕ) → IsDecision is_open (dropped_row by why now)
unfolding dropped_row
dropped_row-IsDecision by why now = record {
  id = λ r. refl;
  url_key = λ r. refl;
  title = λ r. refl;
  follows = λ r may. record {
    same_id = refl;
    stays_used = λ e. absurd (open_ne r.status may e);
    stays_decided = λ n. λ e. cc;
  };
}

used_row-IsDecision :
    (workflow_id : String) (now : ℕ) → IsDecision is_startable (used_row workflow_id now)
unfolding used_row
used_row-IsDecision workflow_id now = record {
  id = λ r. refl;
  url_key = λ r. refl;
  title = λ r. refl;
  follows = λ r may. record {
    same_id = refl;
    stays_used = λ e. absurd (startable_ne r.status may e);
    stays_decided = λ n. λ e. cc;
  };
}

enriched_row-IsDecision : (e : CandidateEnrichment) → IsDecision any_status (enriched_row e)
unfolding enriched_row
enriched_row-IsDecision e = record {
  id = λ r. refl;
  url_key = λ r. refl;
  title = λ r. refl;
  follows = λ r may. record { same_id = refl; stays_used = λ e. (e, refl); stays_decided = λ n. n };
}

collected-Follows :
    (o : Settings) (cs : List Collected) (rows : List CandidateRow)
    → IsKeyed rows
    → IsFresh cs rows
    → IsKeyed (upsert_collected o cs rows).1 × Follows rows (upsert_collected o cs rows).1
unfolding Follows
collected-Follows o cs rows k f =
    let all = upsert_collected-IsStored o cs rows k f in
    let same : all.1 ≡ (upsert_collected o cs rows).1 =
      ap (λ (r : Outcome Upserted × List CandidateRow). r.1) (sym all.2) in
    subst (λ later. IsKeyed later × Follows rows later) same
      (
        all.3.keyed,
        (λ j r h.
            let m = Keeps-at rows all.1 j r all.3.keeps h in
            (m.0, m.1, IsKept-IsFollowed r m.0 m.2)),
      )

Change-Follows :
    (rows later : List CandidateRow)
    → IsKeyed rows
    → Change rows later
    → IsKeyed later × Follows rows later
unfolding accept drop mark_used set_enrichment
Change-Follows rows _ k (collecting o cs f) = collected-Follows o cs rows k f
Change-Follows rows _ k (accepting id by brief now) =
    decide-Follows is_open (accepted_row by brief now) (accepted_row-IsDecision by brief now) id
      rows k
Change-Follows rows _ k (dropping id by why now) =
    decide-Follows is_open (dropped_row by why now) (dropped_row-IsDecision by why now) id rows k
Change-Follows rows _ k (using_up id workflow_id now) =
    decide-Follows is_startable (used_row workflow_id now) (used_row-IsDecision workflow_id now) id
      rows k
Change-Follows rows _ k (enriching id e) =
    decide-Follows any_status (enriched_row e) (enriched_row-IsDecision e) id rows k

-- Whatever operations follow one another, the keys of the table stay unique and every candidate
-- stays stored: one that is used stays used by the same run, and one that is not new, a dropped one
-- too, is never new again.
pub Changes-Follows :
    (rows later : List CandidateRow)
    → IsKeyed rows
    → Changes rows later
    → IsKeyed later × Follows rows later
unfolding Follows
Changes-Follows rows _ k unchanged = (k, Follows-refl rows)
Changes-Follows rows _ k (then_one {between} {later} cs c) =
    let before = Changes-Follows rows between k cs in
    let after = Change-Follows between later before.0 c in
    (
      after.0,
      (λ j r h.
          let m = before.1 j r h in
          let n = after.1 j m.0 m.1 in (n.0, n.1, IsFollowed-trans r m.0 n.0 m.2 n.2)),
    )

closed_at :
    (allowed : CandidateStatus → Bool) (r : CandidateRow)
    → allowed CandidateStatus.used ≡ false
    → r.status ≡ CandidateStatus.used
    → allowed r.status ≡ false
closed_at allowed r e u = ap allowed u ∙ e

refusing :
    (allowed : CandidateStatus → Bool) (f : CandidateRow → CandidateRow) (rows : List CandidateRow)
    (r : CandidateRow) (g : Outcome CandidateRow)
    → g ≡ done r
    → allowed r.status ≡ false
    → decide allowed f g rows ≡ (refused invalid_state, rows)
unfolding decide
refusing allowed f rows r g got closed = rw (got, closed, decide) refl

-- Once a candidate is used, it is refused whatever comes: no decision that names it by its id does
-- anything, after any operations, and a second run is never recorded for it.
pub used_is_final :
    (rows later : List CandidateRow) (id : String) (r : CandidateRow) (by : String)
    (brief : Option String) (workflow_id : String) (now : ℕ)
    → IsKeyed rows
    → Changes rows later
    → by_id id rows ≡ some r
    → r.status ≡ CandidateStatus.used
    → (accept id by brief now later ≡ (refused invalid_state, later))
      × (drop id by brief now later ≡ (refused invalid_state, later))
      × (mark_used id workflow_id now later ≡ (refused invalid_state, later))
unfolding accept drop mark_used Follows
used_is_final rows later id r by brief workflow_id now k cs h u =
    let m = (Changes-Follows rows later k cs).1 id r h in
    let got = get-exact id later m.0 m.1 in
    let still = (m.2.stays_used u).0 in
    (
      refusing is_open (accepted_row by brief now) later m.0 (get id later) got
          (closed_at is_open m.0 refl still),
      refusing is_open (dropped_row by brief now) later m.0 (get id later) got
          (closed_at is_open m.0 refl still),
      refusing is_startable (used_row workflow_id now) later m.0 (get id later) got
          (closed_at is_startable m.0 refl still),
    )
