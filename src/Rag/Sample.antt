-- ===== src/Rag/Sample.antt =====
-- A reader that meets `IsRagJson`: it knows numbers, texts and objects of texts, and reads every body
-- as one given value.
use device_ops.Prelude.{◌≡◌, refl, Bool, true, false, none, some}
use device_ops.Str.{Str, lit}
use device_ops.StdMap.{StdMap, lookup}
use device_ops.Odb.Transaction.{Outcome, returned, thrown, accepted}
use device_ops.Rag.Reading.{RagJson, IsRagJson}

pub data Value : Type 0 where
  null : Value
  number : Value
  word : Str → Value
  members : StdMap Str → Value

is_object : Value → Bool
is_object (members ms) = true
is_object other = false

is_null : Value → Bool
is_null null = true
is_null other = false

abbrev no_object : Str
no_object = lit "in Json::Value: requires objectValue"

is_member : Value → Str → Outcome Bool
is_member (members ms) k = elim (lookup k ms) [ none ↦ returned false | some s ↦ returned true ]
is_member null k = returned false
is_member number k = thrown no_object
is_member (word s) k = thrown no_object

index : Value → Str → Outcome (Value × Value)
index (members ms) k = elim (lookup k ms) [
  | none ↦ returned (null, members ms)
  | some s ↦ returned (word s, members ms)
]
index null k = returned (null, null)
index number k = thrown no_object
index (word s) k = thrown no_object

as_string : Value → Outcome Str
as_string null = returned (lit "")
as_string (word s) = returned s
as_string number = returned (lit "0")
as_string (members ms) = thrown (lit "Type is not convertible to string")

unfoldable pub reading : {D : Type 0} → Value → D → RagJson Value D
unfolding is_object is_null is_member index as_string
reading v d = record {
  write = λ tree. lit "{}";
  parse = λ text. returned (accepted v);
  is_object = is_object;
  is_null = is_null;
  is_member = is_member;
  index = index;
  as_string = as_string;
  as_double = λ w. returned d;
}

is_member_throws :
    (v : Value) (k : Str)
    → is_object v ≡ false
    → is_null v ≡ false
    → (e : Str) × (is_member v k ≡ thrown e)
unfolding is_object is_null is_member
is_member_throws null k other nonnull = cc
is_member_throws number k other nonnull = (no_object, refl)
is_member_throws (word s) k other nonnull = (no_object, refl)
is_member_throws (members ms) k other nonnull = cc

index_throws :
    (v : Value) (k : Str)
    → is_object v ≡ false
    → is_null v ≡ false
    → (e : Str) × (index v k ≡ thrown e)
unfolding is_object is_null index
index_throws null k other nonnull = cc
index_throws number k other nonnull = (no_object, refl)
index_throws (word s) k other nonnull = (no_object, refl)
index_throws (members ms) k other nonnull = cc

pub reading-IsRagJson : {D : Type 0} (v : Value) (d : D) → IsRagJson (reading v d)
unfolding reading
reading-IsRagJson v d = record { is_member_throws = is_member_throws; index_throws = index_throws }
