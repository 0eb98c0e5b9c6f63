-- ===== src/Knowledge.antt =====
-- The data of the knowledge service: the messages of proto/knowledge.proto, the table row of
-- common/include/deviceops/db/knowledge_entity.h, and their conversion
-- (services/knowledge_service/src/knowledge_repository.cc).
pub mod Repository
pub mod Index
pub mod Service
mod Tests
use device_ops.Prelude.{ℕ, ℤ, Option}
use device_ops.Str.{Str}
use device_ops.StdMap.{StdMap}
use device_ops.Odb.Calls.{nullable_string}

pub record KnowledgeEntity : Type 0 where
  pub id : ℕ
  pub document_id : Str
  pub title : Str
  pub category : Str
  pub device_type : Option Str
  pub error_code : Option Str
  pub content : Str
  pub status : Str
  pub created_by : ℕ
  pub created_at : ℤ
  pub updated_at : ℤ

pub record KnowledgeDocument : Type 0 where
  pub document_id : Str
  pub title : Str
  pub category : Str
  pub device_type : Str
  pub error_code : Str
  pub content : Str
  pub status : Str
  pub created_at : ℤ
  pub updated_at : ℤ

-- The score counts halves: the source adds 3.0, 1.5, 2.0 and 1.0, which doubles hold exactly.
pub record KnowledgeSnippet : Type 0 where
  pub document_id : Str
  pub chunk_id : Str
  pub title : Str
  pub content : Str
  pub score : ℕ
  pub metadata : StdMap Str

unfoldable pub to_proto : KnowledgeEntity → KnowledgeDocument
to_proto entity = record {
  document_id = entity.document_id;
  title = entity.title;
  category = entity.category;
  device_type = nullable_string entity.device_type;
  error_code = nullable_string entity.error_code;
  content = entity.content;
  status = entity.status;
  created_at = entity.created_at;
  updated_at = entity.updated_at;
}

pub record CreateKnowledgeDocumentRequest : Type 0 where
  pub title : Str
  pub category : Str
  pub device_type : Str
  pub error_code : Str
  pub content : Str
  pub created_by : ℕ

pub record SearchKnowledgeRequest : Type 0 where
  pub query : Str
  pub device_type : Str
  pub error_code : Str
  pub top_k : ℤ

pub record KnowledgeListFilter : Type 0 where
  pub page : ℤ
  pub page_size : ℤ
  pub category : Str
  pub device_type : Str
  pub keyword : Str
  pub status : Str
