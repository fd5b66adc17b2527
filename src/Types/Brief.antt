-- ===== src/Types/Brief.antt =====
-- packages/types/src/brief.ts: the article brief and its word range.
use open_blog_agent.Prelude.{ℕ, String, Bool, true, Option, none, some, List, ltb, not}

-- articleBriefShape; every field but the topic is optional
pub record ArticleBrief : Type 0 where
  pub topic : String
  pub language : Option String
  pub audience : Option String
  pub tone : Option String
  pub target_keyword : Option String
  pub secondary_keywords : Option (List String)
  pub min_words : Option ℕ
  pub max_words : Option ℕ
  pub notes : Option String
  pub sources : Option (List String)

-- `checkBriefWordRange` adds no issue
unfoldable pub valid_word_range : Option ℕ → Option ℕ → Bool
valid_word_range (some low) (some high) = not (ltb high low)
valid_word_range none high = true
valid_word_range (some low) none = true

-- ResolvedArticleBrief: the brief as given and its settled fields
pub record ResolvedBrief : Type 0 where
  pub brief : ArticleBrief
  pub language : String
  pub min_words : ℕ
  pub max_words : ℕ
