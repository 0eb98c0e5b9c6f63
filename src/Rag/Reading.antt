-- ===== src/Rag/Reading.antt =====
-- What the clients of the RAG service ask of jsoncpp, as a parameter: to write a request and to read
-- a response. A call whose documented precondition fails throws.
use device_ops.Prelude.{◌≡◌, Bool, false}
use device_ops.Str.{Str}
use device_ops.Odb.Transaction.{Outcome, thrown, Reply}
use device_ops.Json.Tree.{Tree}

pub record RagJson (V D : Type 0) : Type 0 where
  -- Json::writeString with no indentation.
  pub write : Tree V D → Str
  -- Json::parseFromStream: the value, or the reader's errors. It throws for a text nested too deeply.
  pub parse : Str → Outcome (Reply V)
  pub is_object : V → Bool
  pub is_null : V → Bool
  pub is_member : V → Str → Outcome Bool
  -- operator[] of a value that is not const: the member, and the value, which has a null member of
  -- that name from then on if it had none.
  pub index : V → Str → Outcome (V × V)
  pub as_string : V → Outcome Str
  pub as_double : V → Outcome D

-- isMember and operator[] ask for an object or null; on any other value they throw.
pub record IsRagJson {V D : Type 0} (j : RagJson V D) : Type 0 where
  pub is_member_throws :
      (v : V) (k : Str)
      → j.is_object v ≡ false
      → j.is_null v ≡ false
      → (e : Str) × (j.is_member v k ≡ thrown e)
  pub index_throws :
      (v : V) (k : Str)
      → j.is_object v ≡ false
      → j.is_null v ≡ false
      → (e : Str) × (j.index v k ≡ thrown e)
