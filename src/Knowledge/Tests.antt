-- ===== src/Knowledge/Tests.antt =====
-- Runs of the knowledge service on a table in memory and a RAG service that answers one text, and the
-- theorems at concrete inputs.
use device_ops.Prelude.{some, ◌+◌, ℕ, ◌≤◌, pos, ◌≡◌, refl, ap, true, [], ◌∷◌, length}
use device_ops.Str.{Str, lit, str_eq, str_eq_iff, str_eq_refl, decimal, signed_decimal}
use device_ops.StdMap.{lookup}
use device_ops.Rpc.{set_response}
use device_ops.Mq.{Publication, knowledge_index_requested_route}
use device_ops.Sorting.Insertion.{insertion_sort, insertion_sort-IsSort}
use device_ops.Odb.{Odb, Column, IsOdb}
use device_ops.Odb.Calls.{insert_row, get_row}
use device_ops.Odb.Transaction.{returned, thrown, accepted, transaction, catching}
use device_ops.Odb.Memory.{Rows, memory, find_in, memory-IsOdb}
use device_ops.Rag.{Post, answered, read_transfer}
use device_ops.Rag.Reading.{RagJson}
use device_ops.Rag.Sample.{Value, number, members, reading, reading-IsRagJson}
use device_ops.Knowledge.{
  KnowledgeEntity, to_proto, CreateKnowledgeDocumentRequest, SearchKnowledgeRequest,
}
use device_ops.Knowledge.Repository.{Knowledge, new_entity, next_document_id, create, get, search}
use device_ops.Knowledge.Repository.Search.{search_lem}
use device_ops.Knowledge.Repository.Changes.{document_column}
use device_ops.Knowledge.Index.{default_config, request_index, parse_task_id}
use device_ops.Knowledge.Service.{
  RequestKnowledgeIndexRequest, RequestKnowledgeIndexResponse, index_payload, answer_index,
  request_knowledge_index,
}
use device_ops.Knowledge.Service.Indexing.{
  IsIndexAnswer, request_knowledge_index_lem, request_knowledge_index_escapes,
}

abbrev column : Column KnowledgeEntity
column = document_column str_eq

abbrev table : Odb KnowledgeEntity (Rows KnowledgeEntity)
table = memory column

str_eq_congr : (s t u : Str) → str_eq s t ≡ true → str_eq s u ≡ str_eq t u
str_eq_congr s t u h = ap (λ (x : Str). str_eq x u) ((str_eq_iff s t).0 h)

table-IsOdb : IsOdb table column (find_in column)
table-IsOdb = memory-IsOdb column str_eq_refl str_eq_congr (λ n r. refl) (λ n r. refl)

abbrev none_yet : Knowledge (Rows KnowledgeEntity)
none_yet = record { db = record { rows = []; next = 1 }; sequence = 1 }

abbrev manual : CreateKnowledgeDocumentRequest
manual = record {
  title = lit "Motor";
  category = lit "manual";
  device_type = lit "robot";
  error_code = lit "MOTOR_002";
  content = lit "check the motor";
  created_by = 7;
}

abbrev first_id : Str
first_id = next_document_id (pos 5) 1

manual_row : KnowledgeEntity
unfolding new_entity
manual_row = record (new_entity manual (pos 5) first_id) { id = 1 }

one_document : Knowledge (Rows KnowledgeEntity)
unfolding manual_row
one_document = record { db = record { rows = manual_row ∷ []; next = 2 }; sequence = 2 }

create-manual :
    create table manual (pos 5) none_yet ≡ (accepted (to_proto manual_row), one_document)
unfolding create insert_row transaction catching memory new_entity manual_row one_document
create-manual = refl

abbrev question : SearchKnowledgeRequest
question = record { query = lit "MOTOR"; device_type = []; error_code = []; top_k = pos 0 }

search_lem_example : length (search table insertion_sort question one_document.db) ≤ 50
search_lem_example =
    (search_lem table insertion_sort insertion_sort-IsSort question one_document.db).1

-- The RAG service answers every request with 200, and counts them.
abbrev post : Post ℕ
post timeout url body n = (answered 200 (lit "{}"), n + 1)

abbrev index_manual : RequestKnowledgeIndexRequest
index_manual = record { document_id = first_id; force_rebuild = true }

abbrev broken : RagJson Value ℕ
broken = reading number 0

abbrev accepting : RagJson Value ℕ
accepting = reading (members ((lit "task_id", lit "t1") ∷ [])) 0

get_manual : get table first_id one_document.db ≡ some (to_proto manual_row)
unfolding get get_row transaction memory str_eq one_document manual_row new_entity next_document_id
    decimal signed_decimal
get_manual = refl

abbrev task_answer : RequestKnowledgeIndexResponse
task_answer = record { response = set_response 0 (lit "ok"); task_id = lit "t1" }

abbrev task_publication : Publication ℕ
task_publication = record {
  route = knowledge_index_requested_route;
  payload = index_payload (to_proto manual_row) (lit "t1") true;
  trace_id = lit "t1";
}

index_manual_runs :
    request_knowledge_index table accepting post default_config true index_manual one_document.db 0
    ≡ (returned (task_answer, task_publication ∷ []), 1)
unfolding request_knowledge_index get get_row transaction memory str_eq one_document manual_row
    new_entity next_document_id decimal signed_decimal request_index answer_index read_transfer
    parse_task_id reading lookup
index_manual_runs = refl

request_knowledge_index_lem_example :
    IsIndexAnswer table accepting post default_config true index_manual one_document.db 0 1
      task_answer
      (task_publication ∷ [])
request_knowledge_index_lem_example =
    request_knowledge_index_lem table accepting post default_config true index_manual
      one_document.db 0 1 task_answer (task_publication ∷ []) index_manual_runs

request_knowledge_index_escapes_example :
    (e : Str) × ((request_knowledge_index table broken post default_config true index_manual
        one_document.db 0).0
      ≡ thrown e)
request_knowledge_index_escapes_example =
    request_knowledge_index_escapes table broken post default_config true index_manual
      one_document.db 0 (to_proto manual_row) 200 (lit "{}") number (reading-IsRagJson number 0)
      get_manual refl refl (unfold reading in refl) (unfold reading in refl)
      (unfold reading in refl)
