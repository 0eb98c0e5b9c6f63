-- ===== src/Knowledge/Repository/Changes.antt =====
-- What a create does to the document table, by the documented behaviour of the session.
use device_ops.Prelude.{ℕ, ◌+◌, ◌%◌, ◌^◌, ℤ, ◌≡◌, Bool, false, Option, some, if◌then◌else◌, arith}
use device_ops.Str.{Str, is_empty}
use device_ops.Odb.{Odb, Column, IsOdb}
use device_ops.Odb.Calls.{insert_row}
use device_ops.Odb.Calls.Laws.{insert_row-accepted}
use device_ops.Odb.Transaction.{accepted}
use device_ops.Knowledge.{
  KnowledgeEntity, KnowledgeDocument, to_proto, CreateKnowledgeDocumentRequest,
}
use device_ops.Knowledge.Repository.{Knowledge, next_document_id, new_entity, create}

abbrev pub document_column : (Str → Str → Bool) → Column KnowledgeEntity
document_column same = record {
  key = λ r. r.document_id;
  ident = λ r. r.id;
  with_ident = λ n r. record r { id = n };
  same = same;
}

-- The three texts that a create asks for.
abbrev pub IsComplete : CreateKnowledgeDocumentRequest → Type 0
IsComplete request =
    (is_empty request.title ≡ false)
    × (is_empty request.category ≡ false)
    × (is_empty request.content ≡ false)

module _ {DB : Type 0} (o : Odb KnowledgeEntity DB) where
  create-eq-accepted :
      (request : CreateKnowledgeDocumentRequest) (now : ℤ) (s s' : Knowledge DB)
      (r : KnowledgeDocument)
      → create o request now s ≡ (accepted r, s')
      → IsComplete request
        × (insert_row o to_proto (new_entity request now (next_document_id now s.sequence)) s.db
            ≡ (accepted r, s'.db))
        × (s'.sequence ≡ (s.sequence + 1) % 2 ^ 64)
  unfolding create
  create-eq-accepted request now s s' r h = ground arith

module _ {DB : Type 0} (o : Odb KnowledgeEntity DB) (same : Str → Str → Bool)
    (find : DB → Str → Option KnowledgeEntity) (laws : IsOdb o (document_column same) find) where
  -- An accepted create had a title, a category and a content; it stores the request's document, active,
  -- under the id made of the clock and the sequence number, with the identity that the database chose;
  -- that document is the reply; the other keys are as before; and the sequence is one further.
  pub create_document_stored :
      (request : CreateKnowledgeDocumentRequest) (now : ℤ) (s s' : Knowledge DB)
      (r : KnowledgeDocument)
      → create o request now s ≡ (accepted r, s')
      → let document_id = next_document_id now s.sequence in
        IsComplete request
        × (s'.sequence ≡ (s.sequence + 1) % 2 ^ 64)
        × ((id : ℕ) × (r ≡ to_proto (record (new_entity request now document_id) { id = id }))
            × ((k : Str)
                → find s'.db k ≡ (
                    if same document_id k
                    then some (record (new_entity request now document_id) { id = id })
                    else find s.db k)))
  unfolding new_entity
  create_document_stored request now s s' r h =
      let document_id = next_document_id now s.sequence in
      let (complete, stored, counted) = create-eq-accepted o request now s s' r h in
      (
        complete,
        counted,
        insert_row-accepted o (document_column same) find laws to_proto
            (new_entity request now document_id) s.db s'.db r stored,
      )
