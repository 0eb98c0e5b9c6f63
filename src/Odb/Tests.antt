-- ===== src/Odb/Tests.antt =====
-- The theorems on the configuration and the schema at concrete names, on a server that records what
-- it executes.
use device_ops.Prelude.{◌≡◌, refl, List, [], ◌∷◌, ◌⊎◌, All, false, length, ◌++◌}
use device_ops.Str.{Str, lit, is_empty}
use device_ops.Odb.Transaction.{returned, thrown}
use device_ops.Odb.Config.{
  OdbConfig, default_config, IsWord, quote_identifier, quote_identifier_lem,
}
use device_ops.Odb.Schema.{
  Server, connect_with_database, create_odb_database, ensure_supplemental_tables,
  create_schema_once, ensure_odb_schema,
}
use device_ops.Odb.Schema.Tables.{supplemental_tables}
use device_ops.Odb.Schema.Refusal.{IsRefused, ensure_odb_schema-IsRefused}

abbrev recording : Server (Unit {0}) (List Str)
recording = record {
  connect = λ settings s. (returned tt, s);
  begin = λ conn s. (returned tt, s);
  execute = λ conn statement s. (returned tt, s ++ statement ∷ []);
  create_schema = λ conn s. (returned tt, s);
  commit = λ conn s. (returned tt, s);
  rollback = λ conn s. s;
}

abbrev dashed : OdbConfig
dashed = record default_config { database = lit "device-ops" }

ensure_odb_schema-IsRefused_example : IsRefused (λ s. s) [] (ensure_odb_schema recording dashed [])
ensure_odb_schema-IsRefused_example =
    ensure_odb_schema-IsRefused recording (λ s. s)
      (record {
        connects = λ settings s. refl;
        begins = λ conn s. refl;
        rolls_back = λ conn s. refl;
      })
      dashed (lit "invalid MySQL identifier: device-ops") [] (unfold quote_identifier in refl)

four_statements : length (ensure_odb_schema recording default_config []).1 ≡ 4
unfolding ensure_odb_schema quote_identifier connect_with_database create_odb_database
    ensure_supplemental_tables supplemental_tables create_schema_once
four_statements = refl

quote_identifier_lem_example :
    ((is_empty (lit "a`b") ≡ false)
      × All IsWord (lit "a`b")
      × (quote_identifier (lit "a`b") ≡ returned (b'`' ∷ lit "a`b" ++ b'`' ∷ []))
      × All (λ ch. ¬ (ch ≡ b'`')) (lit "a`b"))
    ⊎ (¬ ((is_empty (lit "a`b") ≡ false) × All IsWord (lit "a`b"))
        × ((e : Str) × (quote_identifier (lit "a`b") ≡ thrown e)))
quote_identifier_lem_example = quote_identifier_lem (lit "a`b")
