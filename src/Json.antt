-- ===== src/Json.antt =====
-- jsoncpp as a parameter: the calls of Json::Value and of its reader and writer that the gateway
-- makes. A call whose documented precondition fails throws.
pub mod Tree
use device_ops.Prelude.{ℤ, ◌≡◌, Bool, true, false, Option, List}
use device_ops.Str.{Str}
use device_ops.Odb.Transaction.{Outcome, returned, thrown}

pub record Json (V D : Type 0) : Type 0 where
  -- Json::parseFromStream, which throws for a text nested too deeply, and Json::writeString with no
  -- indentation.
  pub parse : Str → Outcome (Option V)
  pub write : V → Str
  pub is_object : V → Bool
  pub is_array : V → Bool
  pub is_string : V → Bool
  pub is_numeric : V → Bool
  pub is_bool : V → Bool
  pub is_member : V → Str → Outcome Bool
  pub member : V → Str → Outcome V
  pub as_string : V → Outcome Str
  pub as_int64 : V → Outcome ℤ
  pub as_double : V → Outcome D
  pub as_bool : V → Outcome Bool
  -- The elements of an array, and the names of an object's members.
  pub elements : V → List V
  pub member_names : V → List Str

-- isMember asks for an object or null; on any other value it throws.
pub record IsJson {V D : Type 0} (j : Json V D) (is_null : V → Bool) : Type 0 where
  pub is_member_throws :
      (v : V) (k : Str)
      → j.is_object v ≡ false
      → is_null v ≡ false
      → (e : Str) × (j.is_member v k ≡ thrown e)
  pub is_member_returns :
      (v : V) (k : Str) → j.is_object v ≡ true → (b : Bool) × (j.is_member v k ≡ returned b)
