-- ===== src/Odb/Schema/Refusal.antt =====
-- A database name that cannot be quoted stops the start-up before any statement.
use device_ops.Prelude.{◌≡◌, refl, ◌∙◌, List, arith}
use device_ops.Str.{Str, lit}
use device_ops.Odb.Transaction.{Outcome, returned, thrown}
use device_ops.Odb.Config.{OdbConfig, quote_identifier}
use device_ops.Odb.Schema.{
  Call, MysqlSettings, Server, connect_with_database, then_call, end_of, in_transaction,
  create_database, ensure_odb_schema,
}

-- A result that is an exception and has executed no more than had been.
abbrev pub IsRefused : {S A : Type 0} → (S → List Str) → List Str → Outcome A × S → Type 0
IsRefused executed before (result, s) =
    ((why : Str) × (result ≡ thrown why)) × (executed s ≡ before)

module _ {S : Type 0} (executed : S → List Str) (before : List Str) where
  after_quiet :
      {A B : Type 0} (x : Outcome A × S) (f : A → Call S B)
      → executed x.1 ≡ before
      → ((a : A) (s : S) → executed s ≡ before → IsRefused executed before (f a s))
      → IsRefused executed before (then_call x f)
  after_quiet (thrown e, s) f kept h = ((e, refl), kept)
  after_quiet (returned a, s) f kept h = h a s kept

  refusal_kept :
      {A B : Type 0} (x : Outcome A × S) (f : A → Call S B)
      → IsRefused executed before x
      → IsRefused executed before (then_call x f)
  refusal_kept (thrown e, s) f h = ((e, refl), h.1)
  refusal_kept (returned a, s) f h = cc

module _ {Conn S : Type 0} (server : Server Conn S) (executed : S → List Str) where
  -- Neither connecting nor beginning nor rolling back executes a statement.
  pub record IsQuiet : Type 0 where
    pub connects :
        (settings : MysqlSettings) (s : S) → executed (server.connect settings s).1 ≡ executed s
    pub begins : (conn : Conn) (s : S) → executed (server.begin conn s).1 ≡ executed s
    pub rolls_back : (conn : Conn) (s : S) → executed (server.rollback conn s) ≡ executed s

  module _ (quiet : IsQuiet) (config : OdbConfig) (e : Str)
      (unquotable : quote_identifier config.database ≡ thrown e) (before : List Str) where
    create_database-refused :
        (conn : Conn) (s : S) → create_database server conn config s ≡ (thrown e, s)
    unfolding create_database
    create_database-refused conn s = ground (arith, unquotable)

    create_database-IsRefused :
        (conn : Conn) (s : S)
        → executed s ≡ before
        → IsRefused executed before (end_of server conn (create_database server conn config s))
    unfolding end_of
    create_database-IsRefused conn s kept =
        rw (create_database-refused conn s) ((e, refl), quiet.rolls_back conn s ∙ kept)

    bootstrap-IsRefused :
        (conn : Conn) (s : S)
        → executed s ≡ before
        → IsRefused executed before
            (in_transaction server conn (create_database server conn config) s)
    unfolding in_transaction
    bootstrap-IsRefused conn s kept =
        after_quiet executed before (server.begin conn s)
          (λ _ s'. end_of server conn (create_database server conn config s'))
          (quiet.begins conn s ∙ kept) (λ _ s' h. create_database-IsRefused conn s' h)

  -- On a server that executes no statement when it connects, begins or rolls back: if the name of the
  -- configured database is no identifier that can be quoted, the start-up of the schema throws, and no
  -- statement has been executed.
  pub ensure_odb_schema-IsRefused :
      IsQuiet
      → (config : OdbConfig) (e : Str) (s : S) → quote_identifier config.database ≡ thrown e
      → IsRefused executed (executed s) (ensure_odb_schema server config s)
  unfolding ensure_odb_schema connect_with_database
  ensure_odb_schema-IsRefused quiet config e s unquotable =
      after_quiet executed (executed s) (connect_with_database server config (lit "mysql") s) _
        (quiet.connects _ s)
        (λ bootstrap s' kept.
          refusal_kept executed (executed s)
            (in_transaction server bootstrap (create_database server bootstrap config) s') _
            (bootstrap-IsRefused quiet config e unquotable (executed s) bootstrap s' kept))
