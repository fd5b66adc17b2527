-- ===== src/Scheduler/Rounds.antt =====
-- What one round of the scheduler (packages/app/src/scheduler.ts) does.
use open_blog_agent.Scheduler.{Lock, LockResult, acquired, held, acquire_lock, release_lock}
use open_blog_agent.Prelude.{
  false, true, any, ◌&&◌, ◌==◌, ℕ, String, ◌≡◌, inl, inr, true, ◌&&◌, ◌==◌, Option, List, [], ◌∷◌,
  arith, refl, Bool-cases, ap, ◌∙◌, sym, subst, Bool, ◌*◌,
}
use open_blog_agent.Types.Brief.{ArticleBrief}
use open_blog_agent.Backlog.{CandidateRow}
use open_blog_agent.Workflow.Errors.{Thrown, err, Result, ok, Result-cases}
use open_blog_agent.Workflow.Ports.{Options, Ports}
use open_blog_agent.Workflow.Outcome.{WorkflowResult}
use open_blog_agent.Scheduler.Round.{
  Limits, RoundPorts, Site, Act, ◌>>>◌, now_of, RoundOutcome, Counts, limit_hit, round_within,
  attempt, recover, collect_if, release, run_once, round_locked, lock_name, locked,
}
use open_blog_agent.Workflow.Exec.{World}
use open_blog_agent.Scheduler.Starting.{then-ok, then-err, IsExecuted}
use open_blog_agent.Scheduler.Deciding.{
  recovered_world, recovered_ids, gathered_world, gathered, collected, IsDecided,
  round_within-IsDecided, sent-gathered, limited, nothing, not_executed, executed_for,
}

released :
    (name owner : String) (locks : List Lock)
    → any (λ (l : Lock). l.name == name && l.owner == owner) (release_lock name owner locks) ≡ false
unfolding release_lock
released name owner [] = refl
released name owner (l ∷ locks) = ground (arith, released name owner locks)

then-eq_ok :
    {A B : Type 0} (m : Act A) (f : A → Act B) (s s' : Site) (a : A)
    → m s ≡ (ok a, s')
    → (m >>> f) s ≡ f a s'
then-eq_ok {A} m f s s' a h =
    then-ok m f s a (ap (λ (r : Result A × Site). r.0) h) ∙ ap (λ (r : Result A × Site). f a r.1) h

then-eq_err :
    {A B : Type 0} (m : Act A) (f : A → Act B) (s s' : Site) (e : Thrown)
    → m s ≡ (err e, s')
    → (m >>> f) s ≡ (err e, s')
then-eq_err {A} {B} m f s s' e h =
    let pack : Result A × Site → Result B × Site = λ r. (err e, r.1) in
    then-err m f s e (ap (λ (r : Result A × Site). r.0) h) ∙ ap pack h

module _ (o : Options) (p : Ports) (c : Limits) (q : RoundPorts) where
  -- What the body of a round does, from the world `w` and the candidates `rows`: the collection threw
  -- its error and no more was done, or the round decided by what was recovered and collected.
  pub data IsAttempt (wants : Bool) (w : World) (rows : List CandidateRow)
      (r : Result RoundOutcome × Site) : Type 0 where
    not_collected :
        (e : Thrown)
        → collected o p c q wants w rows ≡ err e
        → r.0 ≡ err e
        → r.1.world.sent ≡ w.sent
        → IsAttempt wants w rows r
    decided :
        (counts : Option Counts)
        → collected o p c q wants w rows ≡ ok counts
        → IsDecided o p c q
            (recovered_ids o p c q w)
            counts
            (gathered_world o p c q wants w)
            (gathered o p c q wants w rows)
            r
        → IsAttempt wants w rows r

  -- what follows the recovery of stale runs, and the collection
  abbrev decide_on : List String → Option Counts → Act RoundOutcome
  decide_on ids counts s =
      round_within o p c q ids counts (limit_hit c q.minute (now_of o p c q s) s.world.db) s

  abbrev collect_then : Bool → List String → Act RoundOutcome
  collect_then wants ids = collect_if o p c q wants >>> decide_on ids

  recover_lem :
      (s : Site)
      → recover o p c q s
        ≡ (ok (recovered_ids o p c q s.world), record s { world = recovered_world o p c q s.world })
  unfolding recover
  recover_lem s = elim (Bool-cases o.memory) [ inl e ↦ rw e refl | inr e ↦ rw e refl ]

  -- the site after the recovery, and after the collection
  abbrev recovered_site : Site → Site
  recovered_site s = record s { world = recovered_world o p c q s.world }

  abbrev gathered_site : Bool → Site → Site
  gathered_site wants s = record s {
    world = gathered_world o p c q wants s.world;
    candidates = gathered o p c q wants s.world s.candidates;
  }

  collect_if_lem :
      (wants : Bool) (s : Site)
      → collect_if o p c q wants (recovered_site s)
        ≡ (collected o p c q wants s.world s.candidates, gathered_site wants s)
  unfolding collect_if
  collect_if_lem false s = refl
  collect_if_lem true s = elim (Result-cases (q.collect s.world.calls s.candidates).0) [
    | inl (counts, e) ↦ rw (e, collect_if) refl
    | inr (e, thrown) ↦ rw (thrown, collect_if) refl
  ]

  collect_then-IsAttempt :
      (wants : Bool) (s : Site)
      → IsAttempt wants s.world s.candidates
          (collect_then wants (recovered_ids o p c q s.world) (recovered_site s))
  collect_then-IsAttempt wants s =
      let ids = recovered_ids o p c q s.world in
      let at = collect_if_lem wants s in
      elim (Result-cases (collected o p c q wants s.world s.candidates)) [
        | inl (counts, done) ↦
            subst (IsAttempt wants s.world s.candidates)
              (sym (
                then-eq_ok (collect_if o p c q wants) (decide_on ids) (recovered_site s)
                  (gathered_site wants s) counts
                  (at ∙ ap (λ (r : Result (Option Counts)). (r, gathered_site wants s)) done)))
              (decided counts done
                (round_within-IsDecided o p c q ids counts (gathered_site wants s) _ refl))
        | inr (e, thrown) ↦
            subst (IsAttempt wants s.world s.candidates)
              (sym (
                then-eq_err (collect_if o p c q wants) (decide_on ids) (recovered_site s)
                  (gathered_site wants s) e
                  (at ∙ ap (λ (r : Result (Option Counts)). (r, gathered_site wants s)) thrown)))
              (not_collected e thrown refl (sent-gathered o p c q wants s.world))
      ]

  attempt-IsAttempt :
      (wants : Bool) (s : Site) → IsAttempt wants s.world s.candidates (attempt o p c q wants s)
  unfolding attempt
  attempt-IsAttempt wants s =
      subst (IsAttempt wants s.world s.candidates)
        (sym (
          then-eq_ok (recover o p c q) (collect_then wants) s (recovered_site s)
            (recovered_ids o p c q s.world) (recover_lem s)))
        (collect_then-IsAttempt wants s)

  -- What a round does: it is turned away while another owner holds the lock, and changes nothing, or
  -- it leaves no lock of its own, whether it returns or throws.
  pub data IsRound (wants : Bool) (s : Site) (r : Result RoundOutcome × Site) : Type 0 where
    turned_away :
        (owner : String) (expires : ℕ)
        → (acquire_lock lock_name q.owner (c.lock_ttl_minutes * 60000) (now_of o p c q s) s.locks).0
          ≡ held owner expires
        → r ≡ (ok (locked owner expires), s)
        → IsRound wants s r
    completed :
        any (λ (l : Lock). l.name == lock_name && l.owner == q.owner) r.1.locks ≡ false
        → IsAttempt wants s.world s.candidates r
        → IsRound wants s r

  release-IsExecuted :
      (candidate : CandidateRow) (brief : ArticleBrief) (w : World) (res : Result WorkflowResult)
      (r : Result RoundOutcome × Site)
      → IsExecuted o p candidate brief w (res, r.1)
      → IsExecuted o p candidate brief w (res, (release o p c q r).1)
  release-IsExecuted candidate brief w res r h = record {
    pending = h.pending;
    begins = h.begins;
    answer = h.answer;
    world = h.world;
    modest = h.modest;
    marked = h.marked;
  }

  release-IsDecided :
      (ids : List String) (counts : Option Counts) (w : World) (rows : List CandidateRow)
      (r : Result RoundOutcome × Site)
      → IsDecided o p c q ids counts w rows r
      → IsDecided o p c q ids counts w rows (release o p c q r)
  release-IsDecided ids counts w rows r (limited reason hit told kept same) =
      limited reason hit told kept same
  release-IsDecided ids counts w rows r (nothing free empty told kept same) =
      nothing free empty told kept same
  release-IsDecided ids counts w rows r (not_executed candidate e free h thrown quiet) =
      not_executed candidate e free h thrown quiet
  release-IsDecided ids counts w rows r (executed_for candidate brief res free h parsed run told) =
      executed_for candidate brief res free h parsed
        (release-IsExecuted candidate brief w res r run) told

  release-IsAttempt :
      (wants : Bool) (w : World) (rows : List CandidateRow) (r : Result RoundOutcome × Site)
      → IsAttempt wants w rows r
      → IsAttempt wants w rows (release o p c q r)
  release-IsAttempt wants w rows r (not_collected e failed thrown quiet) =
      not_collected e failed thrown quiet
  release-IsAttempt wants w rows r (decided counts done h) = decided counts done (
      release-IsDecided (recovered_ids o p c q w) counts (gathered_world o p c q wants w)
        (gathered o p c q wants w rows) r h)

  round_locked-IsRound :
      (wants : Bool) (s : Site) (taken : LockResult × List Lock)
      → acquire_lock lock_name q.owner (c.lock_ttl_minutes * 60000) (now_of o p c q s) s.locks
        ≡ taken
      → IsRound wants s (round_locked o p c q wants taken s)
  unfolding round_locked
  round_locked-IsRound wants s (held owner expires, locks) h =
      turned_away owner expires (ap (λ (r : LockResult × List Lock). r.0) h) refl
  round_locked-IsRound wants s (acquired expires, locks) h =
      let inner : Site = record s { locks = locks } in
      let r = attempt o p c q wants inner in
      completed (released lock_name q.owner r.1.locks)
        (release-IsAttempt wants s.world s.candidates r (attempt-IsAttempt wants inner))

  -- A round of the scheduler is turned away while another owner holds the lock and changes nothing,
  -- or it leaves no lock of its own, whether it returns or throws. Then the collection threw, which
  -- sends nothing, or the round decides by the store as the recovery of stale runs left it and by the
  -- candidates as the collection left them: it reports a limit, and that and nothing more is done, when
  -- the time is outside the window or what was used in the last day reaches a limit; else it has nothing
  -- to do when no candidate is accepted; else, for the accepted candidate that comes first, it throws
  -- and sends nothing, or it executes a run that was begun for the brief of that candidate, sends at
  -- most one article, as the policy allows, reports what the execution answered, and where runs are
  -- stored has marked the candidate as used by that run.
  pub run_once-IsRound : (wants : Bool) (s : Site) → IsRound wants s (run_once o p c q wants s)
  unfolding run_once
  run_once-IsRound wants s =
      round_locked-IsRound wants s
        (acquire_lock lock_name q.owner (c.lock_ttl_minutes * 60000) (now_of o p c q s) s.locks)
        refl
