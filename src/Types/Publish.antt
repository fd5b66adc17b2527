-- ===== src/Types/Publish.antt =====
-- packages/publishers/src/types.ts: what is sent to a publisher and what it answers.
use open_blog_agent.Prelude.{ℕ, String, Bool, Option, List}

pub data PostStatus : Type 0 where
  draft publish : PostStatus

pub record PublishArticle : Type 0 where
  pub title : String
  pub slug : String
  pub summary : String
  pub content : String
  pub created_at : ℕ
  pub updated_at : ℕ
  pub tags : List String
  pub category : String
  pub author : String
  pub language : String
  pub status : Option PostStatus
  pub revises_draft : Option Bool
  pub publisher_id : Option String

pub record PublisherError : Type 0 where
  pub code : String
  pub message : String

-- A value of the free-form metadata: a text, a number as JavaScript prints it, or anything else.
pub data Value : Type 0 where
  text : String → Value
  number : String → Value
  other : Value

-- The keys of the metadata that the program reads; an absent key and `null` are `none`.
pub record PublishMetadata : Type 0 where
  pub id : Option Value
  pub remote_id : Option Value
  pub url : Option Value
  pub link : Option Value
  pub status : Option Value

pub record PublishResult : Type 0 where
  pub success : Bool
  pub publisher_id : String
  pub publisher_name : String
  pub output_path : Option String
  pub metadata : Option PublishMetadata
  pub error : Option PublisherError

pub record ExistingPost : Type 0 where
  pub id : Option String
  pub url : Option String
