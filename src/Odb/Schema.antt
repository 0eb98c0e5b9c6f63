-- ===== src/Odb/Schema.antt =====
-- The start-up of the schema (common/src/odb_database.cc). The MySQL server and ODB's schema catalog
-- are parameters: calls on the state of the server, each of which returns or throws, and which may
-- have changed the server also where it throws.
pub mod Tables
pub mod Refusal
use device_ops.Prelude.{ℕ, ◌-◌, ◌%◌, ◌^◌, ℤ, pos, negsuc, List, [], ◌∷◌, ◌++◌}
use device_ops.Str.{Str, lit}
use device_ops.Odb.Transaction.{Outcome, returned, thrown}
use device_ops.Odb.Config.{OdbConfig, quote_identifier}
use Tables.{supplemental_tables}

-- The what() of the exception, and the server after the call.
abbrev pub Call : Type 0 → Type 0 → Type 0
Call S A = S → Outcome A × S

-- tewodb::mysql_settings, as far as they are set.
pub record MysqlSettings : Type 0 where
  pub host : Str
  pub port : ℕ
  pub user : Str
  pub passwd : Str
  pub db : Str
  pub cset : Str

-- static_cast<unsigned int> of an int.
abbrev unsigned : ℤ → ℕ
unsigned (pos n) = n % 2 ^ 32
unsigned (negsuc n) = 2 ^ 32 - 1 - n % 2 ^ 32

-- A connection to a database of the server that is at the state `S`. `rollback` is what the
-- destructor of a transaction that has not been committed does.
pub record Server (Conn S : Type 0) : Type 0 where
  pub connect : MysqlSettings → Call S Conn
  pub begin : Conn → Call S (Unit {0})
  pub execute : Conn → Str → Call S (Unit {0})
  pub create_schema : Conn → Call S (Unit {0})
  pub commit : Conn → Call S (Unit {0})
  pub rollback : Conn → S → S

abbrev then_call : {S A B : Type 0} → Outcome A × S → (A → Call S B) → Outcome B × S
then_call (thrown e, s) f = (thrown e, s)
then_call (returned a, s) f = f a s

infixl 5 ◌>>=◌
abbrev ◌>>=◌ : {S A B : Type 0} → Call S A → (A → Call S B) → Call S B
◌>>=◌ m f s = then_call (m s) f

module _ {Conn S : Type 0} (server : Server Conn S) where
  unfoldable pub connect_with_database : OdbConfig → Str → Call S Conn
  connect_with_database config database = server.connect (record {
    host = config.host;
    port = unsigned config.port;
    user = config.user;
    passwd = config.password;
    db = database;
    cset = lit "utf8mb4";
  })

  unfoldable pub create_odb_database : OdbConfig → Call S Conn
  create_odb_database config = connect_with_database config config.database

  end_of : {A : Type 0} → Conn → Outcome A × S → Outcome (Unit {0}) × S
  end_of conn (thrown e, s) = (thrown e, server.rollback conn s)
  end_of conn (returned a, s) = server.commit conn s

  -- odb::transaction tx(db->begin()); …; tx.commit();
  in_transaction : Conn → Call S (Unit {0}) → Call S (Unit {0})
  unfolding end_of
  in_transaction conn body = do _ ← server.begin conn; λ s. end_of conn (body s)

  execute_all : Conn → List Str → Call S (Unit {0})
  execute_all conn [] s = (returned tt, s)
  execute_all conn (statement ∷ statements) s =
      (do _ ← server.execute conn statement; execute_all conn statements) s

  unfoldable pub ensure_supplemental_tables : Conn → Call S (Unit {0})
  unfolding in_transaction execute_all
  ensure_supplemental_tables conn = in_transaction conn (execute_all conn supplemental_tables)

  -- CREATE DATABASE, for a name that can be quoted.
  create_database : Conn → OdbConfig → Call S (Unit {0})
  create_database conn config s = elim (quote_identifier config.database) [
    | thrown e ↦ (thrown e, s)
    | returned quoted ↦
        server.execute conn
          (lit "CREATE DATABASE IF NOT EXISTS "
            ++ (quoted ++ lit " DEFAULT CHARACTER SET utf8mb4 COLLATE utf8mb4_unicode_ci"))
          s
  ]

  -- The exceptions of the calls are odb::exception, which the source drops here.
  unfoldable pub create_schema_once : Conn → S → S
  unfolding in_transaction
  create_schema_once conn s = (in_transaction conn (server.create_schema conn) s).1

  unfoldable pub ensure_odb_schema : OdbConfig → Call S (Unit {0})
  unfolding in_transaction create_database
  ensure_odb_schema config = do
    bootstrap ← connect_with_database config (lit "mysql")
    _ ← in_transaction bootstrap (create_database bootstrap config)
    db ← create_odb_database config
    λ s. ensure_supplemental_tables db (create_schema_once db s)
