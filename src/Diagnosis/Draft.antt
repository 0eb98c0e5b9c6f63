-- ===== src/Diagnosis/Draft.antt =====
-- services/diagnosis_service/src/diagnosis_rag_client.cc: DiagnosisRagClient, which asks the RAG
-- service for the draft of a report. The transfer and jsoncpp are parameters.
use device_ops.Prelude.{pos, Option, none, some, List, [], ◌∷◌, ◌++◌, if◌then◌else◌}
use device_ops.Str.{Str, lit, is_empty}
use device_ops.Json.Tree.{
  Tree, Members, Items, text, int64, embedded, object, array, no_members, set, no_items, item,
}
use device_ops.Odb.Transaction.{Outcome, returned, Reply, accepted, rejected}
use device_ops.Rag.{Post, RagConfig, read_transfer}
use device_ops.Rag.Reading.{RagJson}
use device_ops.Outcome.{◌>>=◌}
use device_ops.Diagnosis.{FaultRecord, StartDiagnosisRequest, DiagnosisDraft}
use device_ops.Diagnosis.Status.{fault_status_number}

abbrev pub default_config : RagConfig
default_config = record { base_url = lit "http://127.0.0.1:9601"; timeout_ms = pos 5000 }

module _ {V D : Type 0} where
  -- A member that is there only with a fault, before the others.
  fault_member : Option FaultRecord → Members V D → Members V D
  fault_member none rest = rest
  fault_member (some fault) rest =
      set (lit "fault")
        (object (
          set (lit "fault_id") (text fault.fault_id) (
            set (lit "device_id") (text fault.device_id) (
              set (lit "event_id") (text fault.event_id) (
                set (lit "fault_type") (text fault.fault_type) (
                  set (lit "symptom") (text fault.symptom) (
                    set (lit "status") (int64 (pos (fault_status_number fault.status)))
                      no_members)))))))
        rest

  unfoldable pub build_request_body : StartDiagnosisRequest → Option FaultRecord → Tree V D
  unfolding fault_member
  build_request_body request fault =
      let title =
        if is_empty request.engineer_note
        then lit "Device fault diagnosis"
        else request.engineer_note in
      let event : Members V D = set (lit "event_id") (text request.event_id) (
        set (lit "device_id") (text request.device_id)
          (set (lit "title") (text title) no_members)) in
      object (
        set (lit "event") (object event) (
          set (lit "engineer_note") (text request.engineer_note) (
            fault_member fault (
              set (lit "knowledge_snippets") (array no_items)
                (set (lit "logs") (array no_items) no_members)))))

  text_items : List Str → Items V D
  text_items [] = no_items
  text_items (value ∷ values) =
      let rest = text_items values in if is_empty value then rest else item (text value) rest

module _ {V D : Type 0} (j : RagJson V D) where
  unfoldable pub array_json : List Str → Str
  unfolding text_items
  array_json values = j.write (array (text_items values))

  -- The text of a member, the value with the member, which is null if there was none.
  text_member : V → Str → Outcome (Str × V)
  text_member root name = do
    (member, root') ← j.index root name
    value ← j.as_string member
    returned (value, root')

  draft_of : Str → D → Str → V → DiagnosisDraft D
  draft_of summary confidence model root = record {
    summary = summary;
    possible_causes_json = array_json (lit "RAG MVP generated diagnosis" ∷ []);
    recommended_actions_json = array_json (
        lit "Review event details"
        ∷ lit "Check device telemetry"
        ∷ lit "Inspect related logs"
        ∷ []);
    evidence_json = j.write (object (set (lit "rag_response") (embedded root) no_members));
    ai_model = if is_empty model then lit "deviceops-rag-mvp" else model;
    confidence = confidence;
  }

  -- `model` is read twice in the source, which gives the same text.
  unfoldable pub parse_response : Str → Outcome (Reply (DiagnosisDraft D))
  unfolding text_member draft_of
  parse_response body = do
    parsed ← j.parse body
    elim parsed [
      | rejected errors ↦ returned (rejected errors)
      | accepted root ↦ do
        (summary, root1) ← text_member root (lit "diagnosis")
        (member, root2) ← j.index root1 (lit "confidence")
        confidence ← j.as_double member
        (model, root3) ← text_member root2 (lit "model")
        returned (accepted (draft_of summary confidence model root3))
    ]

  read_draft : Reply Str → Outcome (Reply (DiagnosisDraft D))
  read_draft (rejected error) = returned (rejected error)
  read_draft (accepted response) = parse_response response

  -- The draft or the error. What jsoncpp throws leaves the method.
  unfoldable pub diagnose :
      {W : Type 0}
      → Post W
      → RagConfig
      → StartDiagnosisRequest
      → Option FaultRecord
      → W
      → Outcome (Reply (DiagnosisDraft D)) × W
  unfolding read_draft
  diagnose post config request fault w =
      let (transfer, w') =
        post config.timeout_ms (config.base_url ++ lit "/diagnose")
          (j.write (build_request_body request fault)) w in
      (read_draft (read_transfer transfer), w')
