-- ===== src/Odb/Calls.antt =====
-- The transactions that the repositories share: a row persisted, found, changed, or all rows read,
-- each in its try block; and a nullable column.
pub mod Laws
use device_ops.Prelude.{Bool, true, false, Option, none, some, List, [], map, if◌then◌else◌, ℤ, pos}
use device_ops.Str.{Str, lit, is_empty}
use device_ops.Odb.{Odb}
use device_ops.Odb.Transaction.{
  Outcome, returned, thrown, Reply, accepted, rejected, Session, ◌>>=◌, pure, reads, writes,
  transaction, catching,
}

abbrev pub nullable_string : Option Str → Str
nullable_string (some s) = s
nullable_string none = []

abbrev pub nullable_int64 : Option ℤ → ℤ
nullable_int64 (some n) = n
nullable_int64 none = pos 0

-- if (!s.empty()) { column = s; } on a column that is null.
abbrev pub unless_empty : Str → Option Str
unless_empty s = if is_empty s then none else some s

module _ {Row DB A : Type 0} (o : Odb Row DB) (to_proto : Row → A) where
  persisting : Row → Session DB (Reply A)
  persisting row = do row' ← o.persist row; pure (accepted (to_proto row'))

  unfoldable pub insert_row : Row → DB → Reply A × DB
  unfolding persisting
  insert_row row db = catching db (transaction o.begin o.commit (persisting row) db)

  -- An exception reads as no row.
  unfoldable pub get_row : Str → DB → Option A
  get_row key db = elim (transaction o.begin o.commit (reads (o.query_one key)) db) [
    | thrown e ↦ none
    | returned (found, _) ↦ elim found [ none ↦ none | some row ↦ some (to_proto row) ]
  ]

  -- An exception reads as no rows.
  unfoldable pub all_rows : DB → List A
  all_rows db = elim (transaction o.begin o.commit (reads o.query) db) [
    | thrown e ↦ []
    | returned (rows, _) ↦ map to_proto rows
  ]

  changing : Str → (Row → Row) → Option Row → Session DB (Reply A)
  changing not_found change none = pure (rejected not_found)
  changing not_found change (some row) =
      writes (accepted (to_proto (change row))) (o.update (change row))

  unfoldable pub change_row : Str → (Row → Row) → Str → DB → Reply A × DB
  unfolding changing
  change_row not_found change key db = catching db (
      transaction o.begin o.commit (do row ← reads (o.query_one key); changing not_found change row)
        db)
