-- ===== src/Knowledge/Index.antt =====
-- services/knowledge_service/src/rag_client.cc: RagClient, which asks the RAG service to index a
-- document. The transfer and jsoncpp are parameters.
pub mod Answers
use device_ops.Prelude.{pos, Bool, true, false, Option, none, some, ◌++◌}
use device_ops.Str.{Str, lit}
use device_ops.Json.Tree.{Members, text, flag, object, no_members, set}
use device_ops.Odb.Transaction.{Outcome, returned, Reply, accepted, rejected}
use device_ops.Rag.{Post, RagConfig, read_transfer}
use device_ops.Rag.Reading.{RagJson}
use device_ops.Outcome.{◌>>=◌}
use device_ops.Knowledge.{KnowledgeDocument}

abbrev pub default_config : RagConfig
default_config = record { base_url = lit "http://127.0.0.1:9601"; timeout_ms = pos 3000 }

module _ {V D : Type 0} (j : RagJson V D) where
  unfoldable pub to_json_body : KnowledgeDocument → Bool → Str
  to_json_body document force_rebuild =
      let metadata : Members V D = set (lit "category") (text document.category) (
        set (lit "device_type") (text document.device_type) (
          set (lit "error_code") (text document.error_code)
            (set (lit "status") (text document.status) no_members))) in
      j.write (
        object (
          set (lit "document_id") (text document.document_id) (
            set (lit "title") (text document.title) (
              set (lit "content") (text document.content) (
                set (lit "force_rebuild") (flag force_rebuild)
                  (set (lit "metadata") (object metadata) no_members))))))

  task_id_of : V → Bool → Outcome (Option Str)
  task_id_of root false = returned none
  task_id_of root true = do
    (member, root') ← j.index root (lit "task_id")
    task_id ← j.as_string member
    returned (some task_id)

  unfoldable pub parse_task_id : Str → Outcome (Option Str)
  unfolding task_id_of
  parse_task_id response = do
    parsed ← j.parse response
    elim parsed [
      | rejected errors ↦ returned none
      | accepted root ↦ do found ← j.is_member root (lit "task_id"); task_id_of root found
    ]

  task_or_missing : Option Str → Outcome (Reply Str)
  task_or_missing none = returned (rejected (lit "rag-service response missing task_id"))
  task_or_missing (some task_id) = returned (accepted task_id)

  -- The task id or the error. What jsoncpp throws leaves the method.
  pub read_task : Reply Str → Outcome (Reply Str)
  unfolding task_or_missing
  read_task (rejected error) = returned (rejected error)
  read_task (accepted response) = do found ← parse_task_id response; task_or_missing found

  unfoldable pub request_index :
      {W : Type 0} → Post W → RagConfig → KnowledgeDocument → Bool → W → Outcome (Reply Str) × W
  unfolding read_task
  request_index post config document force_rebuild w =
      let (transfer, w') =
        post config.timeout_ms (config.base_url ++ lit "/index")
          (to_json_body document force_rebuild) w in
      (read_task (read_transfer transfer), w')
