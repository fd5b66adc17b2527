-- ===== src/Storage/Topics.antt =====
-- packages/storage/src/repositories/topic-repository.ts
use open_blog_agent.Prelude.{String, Bool, Option, find, ◌==◌}
use open_blog_agent.Storage.Models.{TopicRecord, Db}
use open_blog_agent.Storage.Tables.{upsert}

abbrev pub is_for : String → TopicRecord → Bool
is_for topic t = t.normalized_topic == topic

unfoldable pub get_by_normalized_topic : String → Db → Option TopicRecord
get_by_normalized_topic topic db = find (is_for topic) db.topics

unfoldable pub save : TopicRecord → Db → Db
unfolding upsert
save model db = record db {
  topics =
      upsert (is_for model.normalized_topic)
        (λ t. record t { hit_count = model.hit_count; last_seen_at = model.last_seen_at }) model
        db.topics;
}
