-- ===== src/Storage/Duplicates.antt =====
-- Duplicate detection and the topic counters of `beginWorkflow`
-- (packages/storage/src/memory/service.ts, packages/storage/src/repositories).
use open_blog_agent.Prelude.{
  [], ◌∷◌, find, ℕ, ◌+◌, String, ◌≡◌, ◌↔◌, refl, Bool, true, false, ◌&&◌, Option, none, some, List,
  ◌==◌, eq_iff, arith, if◌then◌else◌, All, Member, All-Member, any, keep, Option-cases, inl, inr,
  ◌∷◌, ap,
}
use open_blog_agent.Storage.Models.{Metadata, WorkflowRecord, TopicRecord, Db}
use open_blog_agent.Storage.Tables.{null_ltb}
use open_blog_agent.Storage.Tables.Lookup.{row-upsert}
use open_blog_agent.Storage.Tables.Sorting.{
  IsStrictOrder, first-order_by-IsLeast, first-order_by-All, first-order_by-none, All-keep,
  All-keep_converse, keep-nil, keep-All,
}
use open_blog_agent.Storage.Workflows
use open_blog_agent.Storage.Workflows.{counts_as_original, completed_before}
use open_blog_agent.Storage.Topics
use open_blog_agent.Storage.Memory.{begin_workflow, count_topic}

-- A run that a new run on the topic would duplicate.
pub is_original : String → WorkflowRecord → Bool
is_original topic w = w.topic_normalized == topic && counts_as_original w.status

completed_before-IsStrictOrder : IsStrictOrder completed_before
unfolding completed_before null_ltb
completed_before-IsStrictOrder = record {
  asym = λ r s h. ground arith;
  split = λ r s t h k. ground arith;
}

-- The reference for duplicate detection is a stored run on the topic that is published or waits for
-- approval, and no such run was completed before it, or at the same time and created before it.
pub find_first_published_by_topic-some :
    (topic : String) (db : Db) (w : WorkflowRecord)
    → Workflows.find_first_published_by_topic topic db ≡ some w
    → Member w db.workflows
      × (is_original topic w ≡ true)
      × All (λ v. is_original topic v ≡ true → completed_before v w ≡ false) db.workflows
unfolding Workflows.find_first_published_by_topic is_original
find_first_published_by_topic-some topic db w e =
    let rows = keep (is_original topic) db.workflows in
    (
      first-order_by-All completed_before (λ v. Member v db.workflows) rows w
          (keep-All (is_original topic) (λ v. Member v db.workflows) db.workflows
            (All-Member db.workflows))
          e,
      first-order_by-All completed_before (λ v. is_original topic v ≡ true) rows w
          (All-keep (is_original topic) db.workflows) e,
      All-keep_converse (is_original topic) (λ v. completed_before v w ≡ false) db.workflows
          (first-order_by-IsLeast completed_before completed_before-IsStrictOrder rows w e),
    )

find_first_published_by_topic-none :
    (topic : String) (db : Db)
    → Workflows.find_first_published_by_topic topic db ≡ none
    → any (is_original topic) db.workflows ≡ false
unfolding Workflows.find_first_published_by_topic is_original
find_first_published_by_topic-none topic db e =
    keep-nil _ db.workflows (first-order_by-none completed_before _ e)

some_original :
    (topic : String) (rs : List WorkflowRecord) (w : WorkflowRecord)
    → Member w rs
    → is_original topic w ≡ true
    → any (is_original topic) rs ≡ true
some_original topic [] w m h = elim m [ ]
some_original topic (r ∷ rs) w m h = ground (arith, some_original topic rs w)

module _ (normalize : String → String) (id topic_id name topic : String) (metadata : Metadata)
    (now : ℕ) (db : Db) where
  begun : Db
  begun = (begin_workflow normalize id topic_id name topic metadata now db).0

  -- A new run is flagged as a duplicate exactly when the store holds a run on the same normalized
  -- topic that is published or waits for approval.
  pub begin_workflow-is_duplicate_iff :
      ((begin_workflow normalize id topic_id name topic metadata now db).1.is_duplicate ≡ true)
      ↔ (any (is_original (normalize topic)) db.workflows ≡ true)
  unfolding begin_workflow
  begin_workflow-is_duplicate_iff =
      elim (Option-cases (Workflows.find_first_published_by_topic (normalize topic) db)) [
        | inl none_found ↦
            let no_original = find_first_published_by_topic-none (normalize topic) db none_found in
            ((λ h. ground arith), (λ h. ground arith))
        | inr (w, found) ↦
            let (m, h, _) = find_first_published_by_topic-some (normalize topic) db w found in
            ((λ _. some_original (normalize topic) db.workflows w m h), (λ _. rw found))
      ]

-- How often a topic was seen.
abbrev pub hits_of : Option TopicRecord → ℕ
hits_of none = 0
hits_of (some t) = t.hit_count

pub hits : String → Db → ℕ
hits topic db = hits_of (Topics.get_by_normalized_topic topic db)

hits-save :
    (model : TopicRecord) (topic : String) (db : Db)
    → hits topic (Topics.save model db)
      ≡ (if model.normalized_topic == topic then model.hit_count else hits topic db)
unfolding hits Topics.save Topics.get_by_normalized_topic
hits-save model topic db = ground (
  arith,
  row-upsert (λ (t : TopicRecord). t.normalized_topic)
      (λ (t : TopicRecord). record t {
        hit_count = model.hit_count;
        last_seen_at = model.last_seen_at;
      })
      model model.normalized_topic topic (λ r h. h) refl db.topics,
)

row-key :
    (topic : String) (rs : List TopicRecord) (t : TopicRecord)
    → find (λ r. r.normalized_topic == topic) rs ≡ some t
    → t.normalized_topic ≡ topic
row-key topic [] t e = cc
row-key topic (r ∷ rs) t e = ground (arith, row-key topic rs t, eq_iff r.normalized_topic topic)

found_topic :
    (topic : String) (db : Db) (t : TopicRecord)
    → Topics.get_by_normalized_topic topic db ≡ some t
    → t.normalized_topic ≡ topic
unfolding Topics.get_by_normalized_topic
found_topic topic db t e = row-key topic db.topics t e

hits-run_save :
    (topic : String) (w : WorkflowRecord) (db : Db)
    → hits topic (Workflows.save w db) ≡ hits topic db
unfolding hits Workflows.save Topics.get_by_normalized_topic
hits-run_save topic w db = refl

hits-count_topic :
    (o : Option TopicRecord) (n other topic_id topic id : String) (now : ℕ) (w : WorkflowRecord)
    (db : Db)
    → Topics.get_by_normalized_topic n db ≡ o
    → hits other (count_topic o topic_id topic n id now (Workflows.save w db))
      ≡ hits other db + (if n == other then 1 else 0)
unfolding count_topic
hits-count_topic none n other topic_id topic id now w db e =
    let fresh : hits n db ≡ 0 = unfold hits in ap hits_of e in
    let new : TopicRecord = record {
      id = topic_id;
      normalized_topic = n;
      first_topic = topic;
      first_workflow_id = id;
      hit_count = 1;
      created_at = now;
      last_seen_at = now;
    } in
    ground
      (arith, hits-save new other (Workflows.save w db), hits-run_save other w db, eq_iff n other)
hits-count_topic (some t) n other topic_id topic id now w db e =
    let seen : hits n db ≡ t.hit_count = unfold hits in ap hits_of e in
    ground (
      arith,
      hits-save (record t { hit_count = t.hit_count + 1; last_seen_at = now }) other
          (Workflows.save w db),
      hits-run_save other w db,
      eq_iff n other,
      found_topic n db t e,
    )

-- Every start of a run adds one to the counter of its topic and leaves the other topics' alone.
pub hits-begin_workflow :
    (normalize : String → String) (id topic_id name topic other : String) (metadata : Metadata)
    (now : ℕ) (db : Db)
    → hits other (begin_workflow normalize id topic_id name topic metadata now db).0
      ≡ hits other db + (if normalize topic == other then 1 else 0)
unfolding begin_workflow
hits-begin_workflow normalize id topic_id name topic other metadata now db =
    hits-count_topic (Topics.get_by_normalized_topic (normalize topic) db) (normalize topic) other
      topic_id topic id now _ db refl
