-- ===== src/Knowledge/Service/Indexing.antt =====
-- What RequestKnowledgeIndex answers, asks of the RAG service and publishes.
use device_ops.Prelude.{
  ◌≡◌, refl, ◌∙◌, sym, Bool, false, none, some, Option-cases, List, [], ◌∷◌, ◌++◌, ◌⊎◌, inl, inr,
  ltb, not, ◌||◌, if◌then◌else◌, arith, ℕ,
}
use device_ops.Str.{Str, lit}
use device_ops.Rpc.{set_response}
use device_ops.Json.Tree.{Members, text, flag, object, no_members, set}
use device_ops.Mq.{Publication, Field, knowledge_index_requested_route}
use device_ops.Odb.{Odb}
use device_ops.Odb.Transaction.{Outcome, returned, thrown, Reply, accepted, rejected}
use device_ops.Rag.{Post, Transfer, read_transfer, RagConfig, answered, read_transfer_ok}
use device_ops.Rag.Reading.{RagJson, IsRagJson}
use device_ops.Knowledge.{KnowledgeEntity, KnowledgeDocument}
use device_ops.Knowledge.Repository.{get}
use device_ops.Knowledge.Index.{request_index, parse_task_id, read_task, to_json_body}
use device_ops.Knowledge.Index.Answers.{HasTask, HasNoTask, read_task-accepted, read_task-rejected}
use device_ops.Knowledge.Service.{
  RequestKnowledgeIndexRequest, RequestKnowledgeIndexResponse, index_payload, answer_index,
  request_knowledge_index,
}

-- The publication of an accepted index request.
abbrev pub index_notice : {D : Type 0} → KnowledgeDocument → Str → Bool → Publication D
index_notice document task_id force_rebuild = record {
  route = knowledge_index_requested_route;
  payload =
      (lit "document_id", Field.text document.document_id)
      ∷ (lit "task_id", Field.text task_id)
      ∷ (lit "force_rebuild", Field.flag force_rebuild)
      ∷ (lit "title", Field.text document.title)
      ∷ (lit "category", Field.text document.category)
      ∷ (lit "device_type", Field.text document.device_type)
      ∷ (lit "error_code", Field.text document.error_code)
      ∷ (lit "status", Field.text document.status)
      ∷ [];
  trace_id = task_id;
}

module _ {V D W DB : Type 0} (o : Odb KnowledgeEntity DB) (j : RagJson V D) (post : Post W)
    (config : RagConfig) where
  answer_index_of :
      (publishing : Bool) (document : KnowledgeDocument) (force_rebuild : Bool)
      (x : Outcome (Reply Str)) (response : RequestKnowledgeIndexResponse)
      (publications : List (Publication D))
      → answer_index publishing document force_rebuild x ≡ returned (response, publications)
      → ((x ≡ returned (accepted response.task_id))
          × (response.response ≡ set_response 0 (lit "ok"))
          × (publications ≡ (
              if publishing
              then index_notice document response.task_id force_rebuild ∷ []
              else [])))
        ⊎ ((e : Str) × (x ≡ returned (rejected e))
            × (response.response ≡ set_response 503 e)
            × (publications ≡ []))
  unfolding answer_index index_payload
  answer_index_of publishing document force_rebuild (thrown e) response publications h = cc
  answer_index_of publishing document force_rebuild (returned (rejected e)) response publications
        h =
      inr (e, refl, cc, cc)
  answer_index_of publishing document force_rebuild (returned (accepted task_id)) response
        publications h =
      inl (cc, cc, cc)

  handler-missing :
      (publishing : Bool) (request : RequestKnowledgeIndexRequest) (db : DB) (w : W)
      → get o request.document_id db ≡ none
      → request_knowledge_index o j post config publishing request db w ≡ (
        returned
            (record { response = set_response 404 (lit "document not found"); task_id = [] }, []),
        w,
      )
  unfolding request_knowledge_index
  handler-missing publishing request db w h = ground (arith, h)

  handler-found :
      (publishing : Bool) (request : RequestKnowledgeIndexRequest) (db : DB) (w : W)
      (document : KnowledgeDocument)
      → get o request.document_id db ≡ some document
      → let (reply, asked) = request_index j post config document request.force_rebuild w in
        request_knowledge_index o j post config publishing request db w
        ≡ (answer_index publishing document request.force_rebuild reply, asked)
  unfolding request_knowledge_index
  handler-found publishing request db w document h = ground (arith, h)

  -- The request to the RAG service, a POST to /index of the document.
  abbrev pub asked : KnowledgeDocument → RequestKnowledgeIndexRequest → W → Transfer × W
  asked document request w =
      let metadata : Members V D = set (lit "category") (text document.category) (
        set (lit "device_type") (text document.device_type) (
          set (lit "error_code") (text document.error_code)
            (set (lit "status") (text document.status) no_members))) in
      post config.timeout_ms (config.base_url ++ lit "/index")
        (j.write (
          object (
            set (lit "document_id") (text document.document_id) (
              set (lit "title") (text document.title) (
                set (lit "content") (text document.content) (
                  set (lit "force_rebuild") (flag request.force_rebuild)
                    (set (lit "metadata") (object metadata) no_members)))))))
        w

  sent :
      (w' : W) (request : RequestKnowledgeIndexRequest) (document : KnowledgeDocument) (w : W)
      → w' ≡ (request_index j post config document request.force_rebuild w).1
      → w' ≡ (asked document request w).1
  unfolding request_index to_json_body
  sent w' request document w h = h

  -- 404: no document; 0: the task id in the answer of the RAG service; 503: no transfer, or no task id
  -- in it.
  abbrev pub IsIndexAnswer :
      Bool
      → RequestKnowledgeIndexRequest
      → DB
      → W
      → W
      → RequestKnowledgeIndexResponse
      → List (Publication D)
      → Type 0
  IsIndexAnswer publishing request db w w' response publications =
      ((response.response ≡ set_response 404 (lit "document not found"))
        × (get o request.document_id db ≡ none)
        × (publications ≡ [])
        × (w' ≡ w))
      ⊎ ((document : KnowledgeDocument) × (get o request.document_id db ≡ some document)
          × (w' ≡ (asked document request w).1)
          × (((body : Str) × (read_transfer (asked document request w).0 ≡ accepted body)
                × HasTask j body response.task_id
                × (response.response ≡ set_response 0 (lit "ok"))
                × (publications ≡ (
                    if publishing
                    then index_notice document response.task_id request.force_rebuild ∷ []
                    else [])))
              ⊎ ((e : Str) × ((read_transfer (asked document request w).0 ≡ rejected e)
                    ⊎ ((body : Str) × (read_transfer (asked document request w).0 ≡ accepted body)
                        × HasNoTask j body
                        × (e ≡ lit "rag-service response missing task_id")))
                  × (response.response ≡ set_response 503 e)
                  × (publications ≡ []))))

  found_of :
      (publishing : Bool) (request : RequestKnowledgeIndexRequest) (document : KnowledgeDocument)
      (db : DB) (w w' : W) (response : RequestKnowledgeIndexResponse)
      (publications : List (Publication D))
      → get o request.document_id db ≡ some document
      → w' ≡ (asked document request w).1
      → answer_index publishing document request.force_rebuild
          (request_index j post config document request.force_rebuild w).0
        ≡ returned (response, publications)
      → IsIndexAnswer publishing request db w w' response publications
  unfolding request_index to_json_body
  found_of publishing request document db w w' response publications held sent h =
      let transfer = read_transfer (asked document request w).0 in
      elim (answer_index_of publishing document request.force_rebuild (read_task j transfer)
        response publications h) [
          | inl (read, ok, told) ↦
              let (body, arrived, task) = read_task-accepted j transfer response.task_id read in
              inr (document, held, sent, inl (body, arrived, task, ok, told))
          | inr (e, read, code, told) ↦
              inr (document, held, sent, inr (e, read_task-rejected j transfer e read, code, told))
        ]

  -- RequestKnowledgeIndex, where no exception leaves it, asks the RAG service for a document that there
  -- is. It answers 0 with the text of `task_id` in the JSON that came back, and then, if the publisher is
  -- on, asks for one publication of the document under that task id; or it answers 503 with the
  -- transfer's error, or where what came back is not JSON or has no `task_id`. Where there is no document
  -- it answers 404 and does not ask the RAG service. With 503 and 404 it asks for no publication.
  pub request_knowledge_index_lem :
      (publishing : Bool) (request : RequestKnowledgeIndexRequest) (db : DB) (w w' : W)
      (response : RequestKnowledgeIndexResponse) (publications : List (Publication D))
      → request_knowledge_index o j post config publishing request db w
        ≡ (returned (response, publications), w')
      → IsIndexAnswer publishing request db w w' response publications
  request_knowledge_index_lem publishing request db w w' response publications h =
      elim (Option-cases (get o request.document_id db)) [
        | inl absent ↦
            let e = sym h ∙ handler-missing publishing request db w absent in
            inl (cc, absent, cc, cc)
        | inr (document, held) ↦
            let e = sym h ∙ handler-found publishing request db w document held in
            found_of publishing request document db w w' response publications held
              (sent w' request document w (cc)) (cc)
      ]

  parse_task_id-throws :
      (body : Str) (v : V) (e : Str)
      → j.parse body ≡ returned (accepted v)
      → j.is_member v (lit "task_id") ≡ thrown e
      → parse_task_id j body ≡ thrown e
  unfolding parse_task_id
  parse_task_id-throws body v e parsed throws = ground (arith, parsed, throws)

  request_index-throws :
      (document : KnowledgeDocument) (force_rebuild : Bool) (w : W) (code : ℕ) (body : Str) (v : V)
      → IsRagJson j
      → (post config.timeout_ms
          (config.base_url ++ lit "/index")
          (to_json_body j document force_rebuild)
          w).0
        ≡ answered code body
      → (ltb code 200 || not (ltb code 300)) ≡ false
      → j.parse body ≡ returned (accepted v)
      → j.is_object v ≡ false
      → j.is_null v ≡ false
      → (e : Str) × ((request_index j post config document force_rebuild w).0 ≡ thrown e)
  unfolding request_index
  request_index-throws document force_rebuild w code body v laws sent ok parsed other nonnull =
      let (e, throws) = laws.is_member_throws v (lit "task_id") other nonnull in
      (
        e,
        rw sent (
            rw (read_transfer_ok code body ok)
              (rw (parse_task_id-throws body v e parsed throws) refl)),
      )

  -- A 2xx response whose body is JSON but neither an object nor null makes jsoncpp throw, and the
  -- exception leaves RequestKnowledgeIndex: it is not answered.
  pub request_knowledge_index_escapes :
      (publishing : Bool) (request : RequestKnowledgeIndexRequest) (db : DB) (w : W)
      (document : KnowledgeDocument) (code : ℕ) (body : Str) (v : V)
      → IsRagJson j
      → get o request.document_id db ≡ some document
      → (post config.timeout_ms
          (config.base_url ++ lit "/index")
          (to_json_body j document request.force_rebuild)
          w).0
        ≡ answered code body
      → (ltb code 200 || not (ltb code 300)) ≡ false
      → j.parse body ≡ returned (accepted v)
      → j.is_object v ≡ false
      → j.is_null v ≡ false
      → (e : Str) × ((request_knowledge_index o j post config publishing request db w).0 ≡ thrown e)
  unfolding answer_index
  request_knowledge_index_escapes publishing request db w document code body v laws held sent ok
        parsed other nonnull =
      let (e, throws) =
        request_index-throws document request.force_rebuild w code body v laws sent ok parsed other
          nonnull in
      (e, rw (handler-found publishing request db w document held) (rw throws refl))
