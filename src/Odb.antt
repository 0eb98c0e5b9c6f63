-- ===== src/Odb.antt =====
-- The ODB session that the repositories work on (odb::database, odb::transaction, odb::query): a
-- library, so its calls are a parameter. The documented behaviour that the repositories rely on is
-- `IsOdb`: one table, its rows found by one unique text column, under the column's collation.
pub mod Transaction
pub mod Memory
pub mod Calls
pub mod Config
pub mod Schema
mod Tests
use device_ops.Prelude.{ℕ, ◌≡◌, Bool, true, Option, none, some, List, if◌then◌else◌}
use device_ops.Str.{Str}
use Transaction.{Outcome, returned, thrown}

pub record Odb (Row DB : Type 0) : Type 0 where
  -- begin() and commit(): nothing, or the what() of the exception.
  pub begin : DB → Option Str
  pub commit : DB → Option Str
  -- query_one<T>(column == key), query<T>(), persist(row) and update(row). persist gives the row the
  -- identity that the database chose.
  pub query_one : Str → DB → Outcome (Option Row)
  pub query : DB → Outcome (List Row)
  pub persist : Row → DB → Outcome (Row × DB)
  pub update : Row → DB → Outcome DB

-- How the key column compares two texts.
pub record Column (Row : Type 0) : Type 0 where
  pub key : Row → Str
  pub ident : Row → ℕ
  pub with_ident : ℕ → Row → Row
  pub same : Str → Str → Bool

-- `find db k` is the row that the database holds under the key `k`.
pub record IsOdb {Row DB : Type 0} (o : Odb Row DB) (c : Column Row) (find : DB → Str → Option Row)
    : Type 0 where
  pub same_refl : (s : Str) → c.same s s ≡ true
  pub same_congr : (s t u : Str) → c.same s t ≡ true → c.same s u ≡ c.same t u
  pub find_key : (db : DB) (k : Str) (r : Row) → find db k ≡ some r → c.same (c.key r) k ≡ true
  pub find_same : (db : DB) (s t : Str) → c.same s t ≡ true → find db s ≡ find db t
  pub query_one_find :
      (k : Str) (db : DB) (found : Option Row)
      → o.query_one k db ≡ returned found
      → found ≡ find db k
  pub persist_ident :
      (r r' : Row) (db db' : DB)
      → o.persist r db ≡ returned (r', db')
      → r' ≡ c.with_ident (c.ident r') r
  pub persist_find :
      (r r' : Row) (db db' : DB) (k : Str)
      → o.persist r db ≡ returned (r', db')
      → find db' k ≡ (if c.same (c.key r) k then some r' else find db k)
  -- update writes the row with the given row's identity. Where that is the row under its key:
  pub update_find :
      (r old : Row) (db db' : DB) (k : Str)
      → find db (c.key r) ≡ some old
      → c.ident old ≡ c.ident r
      → o.update r db ≡ returned db'
      → find db' k ≡ (if c.same (c.key r) k then some r else find db k)

-- The session answers a question about the key: the database can be reached.
pub record Answers {Row DB : Type 0} (o : Odb Row DB) (db : DB) (k : Str) (found : Option Row)
    : Type 0 where
  pub begins : o.begin db ≡ none
  pub answers : o.query_one k db ≡ returned found
  pub commits : o.commit db ≡ none
