-- ===== src/Workflow/Publications.antt =====
-- What a whole execution of a run gives to the publisher
-- (`execute` of packages/graph/src/workflows/article-generation-workflow.ts).
use open_blog_agent.Prelude.{
  ℕ, ap, ◌≡◌, refl, ◌∙◌, ◌++◌, ◌∷◌, [], String, Bool, true, false, Option, none, some, List, arith,
  inl, inr, Option-cases, Bool-cases, if◌then◌else◌, or_else, not,
}
use open_blog_agent.Types.Brief.{ResolvedBrief}
use open_blog_agent.Types.Usage.{LlmUsage}
use open_blog_agent.Types.Publish.{PublishArticle, PublishResult}
use open_blog_agent.Types.Article.{Update, DuplicateInfo, QualityViolation}
use open_blog_agent.Workflow.State.{State, invoked}
use open_blog_agent.Workflow.Errors.{Thrown, Result, ok, Result-cases}
use open_blog_agent.Workflow.Ports.{Options, Ports, Notification}
use open_blog_agent.Workflow.Exec.{World}
use open_blog_agent.Workflow.Graph.{after_approval, invoke}
use open_blog_agent.Workflow.Outcome.{Failure, Output, is_awaiting, failure_of, status_of}
use open_blog_agent.Workflow.Endings.{output_of-IsStill}
use open_blog_agent.Storage.Memory.{FinalStatus, mark_running}
use open_blog_agent.Storage.Models.{Db}
use open_blog_agent.Workflow.Sending.{status_for, IsSafe, quiet, posted, invoke-IsSafe}
use open_blog_agent.Workflow.Execute.{
  attempt, record_failure, execute, finish, conclude, stop_as_duplicate, when_stored, store_outcome,
  result_of,
}

-- Nothing was sent, or one article, with the status of the policy, which is not to wait for an
-- approval.
pub data IsModest (o : Options) (w w' : World) : Type 0 where
  unsent : w'.sent ≡ w.sent → IsModest o w w'
  sent :
      (post : PublishArticle)
      → w'.sent ≡ w.sent ++ post ∷ []
      → post.status ≡ status_for o
      → after_approval o.policy ≡ false
      → IsModest o w w'

IsModest-invoked :
    (o : Options) (w : World) (r : Result State × World) → IsSafe o w r → IsModest o w r.1
IsModest-invoked o w r (quiet e) = unsent e
IsModest-invoked o w r (posted post e status policy passed) = sent post e status policy

pub IsModest-before :
    (o : Options) (w w' w'' : World) → w'.sent ≡ w.sent → IsModest o w' w'' → IsModest o w w''
IsModest-before o w w' w'' e (unsent q) = unsent (q ∙ e)
IsModest-before o w w' w'' e (sent post q status policy) =
    sent post (q ∙ ap (λ l. l ++ post ∷ []) e) status policy

IsModest-after :
    (o : Options) (w w' w'' : World) → IsModest o w w' → w''.sent ≡ w'.sent → IsModest o w w''
IsModest-after o w w' w'' (unsent e) q = unsent (q ∙ e)
IsModest-after o w w' w'' (sent post e status policy) q = sent post (q ∙ e) status policy

module _ (o : Options) (p : Ports) (brief : ResolvedBrief) (run : Option String) where
  pub sent-stop_as_duplicate :
      (d : DuplicateInfo) (step : String) (w : World)
      → (stop_as_duplicate o p brief run d step w).1.sent ≡ w.sent
  unfolding stop_as_duplicate
  sent-stop_as_duplicate d step w = ground arith

  sent-record_failure :
      (e : Thrown) (w : World) → (record_failure o p brief run e w).1.sent ≡ w.sent
  unfolding record_failure
  sent-record_failure e w = ground arith

  sent-result_of :
      (needs awaiting : Bool) (failure : Option Failure) (output : Output)
      (vs : List QualityViolation) (result : Option PublishResult) (w : World)
      → (result_of needs awaiting failure output vs result w).1.sent ≡ w.sent
  unfolding result_of
  sent-result_of true awaiting (some f) output vs result w = refl
  sent-result_of true true none output vs result w = refl
  sent-result_of true false none output vs none w = refl
  sent-result_of true false none output vs (some r) w = refl
  sent-result_of false true failure output vs result w = refl
  sent-result_of false false (some f) output vs result w = refl
  sent-result_of false false none output vs none w = refl
  sent-result_of false false none output vs (some r) w = refl

  sent-store_outcome :
      (output : Output) (status : FinalStatus) (passed : Bool) (result : Option PublishResult)
      (failure : Option Failure) (w : World)
      → let (r, w') = store_outcome o p run output status passed result failure w in
        (r ≡ ok tt) × (w'.sent ≡ w.sent)
  unfolding store_outcome
  sent-store_outcome output status passed result failure w = ground arith

  sent-announced :
      (b : Bool) (n : Notification) (w : World)
      → (if b then record w { told = w.told ++ n ∷ [] } else w).sent ≡ w.sent
  sent-announced true n w = refl
  sent-announced false n w = refl

  sent-conclude : (s : State) (w : World) → (conclude o p brief run s w).1.sent ≡ w.sent
  unfolding conclude
  sent-conclude s w = elim (output_of-IsStill brief run s w) [
    | inl (e, lost) ↦ rw lost refl
    | inr (output, kept) ↦ elim (Option-cases s.quality_passed) [
      | inl missing ↦ rw (kept, missing) refl
      | inr (passed, gate) ↦
          let vs = or_else s.quality_violations [] in
          let awaiting = is_awaiting o.policy (not passed) s.publish_result in
          let failure = failure_of (not passed) awaiting s.publish_result vs in
          let (done, same) =
            sent-store_outcome output (status_of (not passed) awaiting failure) passed
              s.publish_result failure w in
          rw (kept, gate, done)
            (sent-result_of (not passed) awaiting failure output vs s.publish_result _
              ∙ sent-announced o.notifier _ _
              ∙ same)
    ]
  ]

  sent-finish :
      (force : Bool) (s : State) (w : World) → (finish o p brief run force s w).1.sent ≡ w.sent
  unfolding finish
  sent-finish force s w = elim (Option-cases s.duplicate) [
    | inl unique ↦ rw unique (sent-conclude s w)
    | inr (d, found) ↦ elim (Bool-cases force) [
      | inl forced ↦ rw (found, forced) (sent-conclude s w)
      | inr held ↦ rw (found, held) (sent-stop_as_duplicate d "duplicate_check" w)
    ]
  ]

  sent-when_stored :
      (f : String → ℕ → Db → Db) (w : World)
      → let (r, w') = when_stored o p run f w in (r ≡ ok tt) × (w'.sent ≡ w.sent)
  sent-when_stored f w = ground arith

  attempt-IsModest :
      (force : Bool) (restored : Update) (prior : LlmUsage) (w : World)
      → IsModest o w (attempt o p brief run force restored prior w).1
  unfolding attempt
  attempt-IsModest force restored prior w =
      let (marked, same) = sent-when_stored (λ id now. mark_running id now) w in
      let w' = record (when_stored o p run (λ id now. mark_running id now) w).1 { usage = prior } in
      let s = invoked restored brief force run in
      let done = IsModest-before o w w' _ same (IsModest-invoked o w' _ (invoke-IsSafe o p s w')) in
      elim (Result-cases (invoke o p s w').0) [
        | inl (end, ended) ↦
            rw (marked, ended)
              (IsModest-after o w (invoke o p s w').1 _ done
                (sent-finish force end (invoke o p s w').1))
        | inr (e, thrown) ↦ rw (marked, thrown) done
      ]

  -- An execution of a run, however it ends, sends nothing or one article, with the status of the
  -- policy, and only when articles do not wait for an approval.
  pub execute-IsModest :
      (force : Bool) (restored : Update) (prior : LlmUsage) (w : World)
      → IsModest o w (execute o p brief run force restored prior w).1
  unfolding execute
  execute-IsModest force restored prior w =
      let first = attempt-IsModest force restored prior w in
      elim (Result-cases (attempt o p brief run force restored prior w).0) [
        | inl (res, done) ↦ rw done first
        | inr (e, thrown) ↦ rw thrown (
            IsModest-after o w (attempt o p brief run force restored prior w).1 _ first
              (sent-record_failure e (attempt o p brief run force restored prior w).1))
      ]
