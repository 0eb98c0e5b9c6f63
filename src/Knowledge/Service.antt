-- ===== src/Knowledge/Service.antt =====
-- services/knowledge_service/src/knowledge_service_impl.cc: the handlers of KnowledgeService. A
-- publish only logs when it fails, so a handler gives the publications that it asks for.
pub mod Indexing
use device_ops.Prelude.{ℕ, ℤ, pos, Bool, Option, none, some, List, [], ◌∷◌, if◌then◌else◌}
use device_ops.Str.{Str, lit}
use device_ops.Paging.{page_or_default, page_size_or_default}
use device_ops.Rpc.{CommonResponse, PageRequest, PageResponse, set_response}
use device_ops.Mq.{Publication, Field, text, flag, knowledge_index_requested_route}
use device_ops.Sorting.{Sort}
use device_ops.Odb.{Odb}
use device_ops.Odb.Transaction.{Outcome, returned, thrown, Reply, accepted, rejected}
use device_ops.Rag.{Post, RagConfig}
use device_ops.Rag.Reading.{RagJson}
use device_ops.Knowledge.{
  KnowledgeEntity, KnowledgeDocument, KnowledgeSnippet, CreateKnowledgeDocumentRequest,
  SearchKnowledgeRequest, KnowledgeListFilter,
}
use device_ops.Knowledge.Repository.{Knowledge, create, get, list, search}
use device_ops.Knowledge.Index.{request_index}

-- CreateKnowledgeDocumentResponse and GetKnowledgeDocumentResponse have the same fields.
pub record KnowledgeDocumentResponse : Type 0 where
  pub response : CommonResponse
  pub document : Option KnowledgeDocument

pub record ListKnowledgeDocumentsRequest : Type 0 where
  pub page : PageRequest
  pub category : Str
  pub device_type : Str
  pub keyword : Str
  pub status : Str

pub record ListKnowledgeDocumentsResponse : Type 0 where
  pub response : CommonResponse
  pub page : PageResponse
  pub documents : List KnowledgeDocument

pub record SearchKnowledgeResponse : Type 0 where
  pub response : CommonResponse
  pub snippets : List KnowledgeSnippet

pub record RequestKnowledgeIndexRequest : Type 0 where
  pub document_id : Str
  pub force_rebuild : Bool

pub record RequestKnowledgeIndexResponse : Type 0 where
  pub response : CommonResponse
  pub task_id : Str

answer : Reply KnowledgeDocument → KnowledgeDocumentResponse
answer (accepted document) = record {
  response = set_response 0 (lit "ok");
  document = some document;
}
answer (rejected e) = record { response = set_response 400 e; document = none }

answer_found : Option KnowledgeDocument → KnowledgeDocumentResponse
answer_found (some document) = record {
  response = set_response 0 (lit "ok");
  document = some document;
}
answer_found none = record {
  response = set_response 404 (lit "document not found");
  document = none;
}

unfoldable pub list_filter : ListKnowledgeDocumentsRequest → KnowledgeListFilter
list_filter request = record {
  page = pos (page_or_default request.page.page);
  page_size = pos (page_size_or_default request.page.page_size);
  category = request.category;
  device_type = request.device_type;
  keyword = request.keyword;
  status = request.status;
}

module _ {D : Type 0} where
  unfoldable pub index_payload : KnowledgeDocument → Str → Bool → List (Str × Field D)
  index_payload document task_id force_rebuild =
      (lit "document_id", text document.document_id)
      ∷ (lit "task_id", text task_id)
      ∷ (lit "force_rebuild", flag force_rebuild)
      ∷ (lit "title", text document.title)
      ∷ (lit "category", text document.category)
      ∷ (lit "device_type", text document.device_type)
      ∷ (lit "error_code", text document.error_code)
      ∷ (lit "status", text document.status)
      ∷ []

  -- What RequestKnowledgeIndex answers and publishes. `publishing` is
  -- `_event_publisher != nullptr && _event_publisher->enabled()`.
  unfoldable pub answer_index :
      Bool
      → KnowledgeDocument
      → Bool
      → Outcome (Reply Str)
      → Outcome (RequestKnowledgeIndexResponse × List (Publication D))
  answer_index publishing document force_rebuild (thrown e) = thrown e
  answer_index publishing document force_rebuild (returned (rejected error)) =
      returned (record { response = set_response 503 error; task_id = [] }, [])
  answer_index publishing document force_rebuild (returned (accepted task_id)) = returned (
    record { response = set_response 0 (lit "ok"); task_id = task_id },
    if publishing
        then record {
          route = knowledge_index_requested_route;
          payload = index_payload document task_id force_rebuild;
          trace_id = task_id;
        }
          ∷ []
        else [],
  )

module _ {DB : Type 0} (o : Odb KnowledgeEntity DB) where
  unfoldable pub create_knowledge_document :
      CreateKnowledgeDocumentRequest → ℤ → Knowledge DB → KnowledgeDocumentResponse × Knowledge DB
  unfolding answer
  create_knowledge_document request now s =
      let (reply, s') = create o request now s in (answer reply, s')

  unfoldable pub get_knowledge_document : Str → DB → KnowledgeDocumentResponse
  unfolding answer_found
  get_knowledge_document document_id db = answer_found (get o document_id db)

  unfoldable pub list_knowledge_documents :
      Sort KnowledgeDocument → ListKnowledgeDocumentsRequest → DB → ListKnowledgeDocumentsResponse
  list_knowledge_documents sort request db =
      let (documents, total) = list o sort (list_filter request) db in
      record {
        response = set_response 0 (lit "ok");
        page = record {
          page = page_or_default request.page.page;
          page_size = page_size_or_default request.page.page_size;
          total = total;
        };
        documents = documents;
      }

  unfoldable pub search_knowledge :
      Sort KnowledgeSnippet → SearchKnowledgeRequest → DB → SearchKnowledgeResponse
  search_knowledge sort request db = record {
    response = set_response 0 (lit "ok");
    snippets = search o sort request db;
  }

  unfoldable pub request_knowledge_index :
      {V D W : Type 0}
      → RagJson V D
      → Post W
      → RagConfig
      → Bool
      → RequestKnowledgeIndexRequest
      → DB
      → W
      → Outcome (RequestKnowledgeIndexResponse × List (Publication D)) × W
  request_knowledge_index j post config publishing request db w =
      elim (get o request.document_id db) [
        | none ↦ (
          returned
              (record { response = set_response 404 (lit "document not found"); task_id = [] }, []),
          w,
        )
        | some document ↦
            let (reply, w') = request_index j post config document request.force_rebuild w in
            (answer_index publishing document request.force_rebuild reply, w')
      ]
