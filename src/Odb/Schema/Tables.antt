-- ===== src/Odb/Schema/Tables.antt =====
-- ensureSupplementalTables of common/src/odb_database.cc: the statements that it executes, in order.
use device_ops.Prelude.{List, [], ◌∷◌, ◌++◌}
use device_ops.Str.{Str, lit}

unfoldable knowledge_documents_table : Str
knowledge_documents_table =
    lit "CREATE TABLE IF NOT EXISTS `knowledge_documents` ("
    ++ lit "`id` BIGINT UNSIGNED NOT NULL PRIMARY KEY AUTO_INCREMENT,"
    ++ lit "`document_id` VARCHAR(128) NOT NULL,"
    ++ lit "`title` TEXT NOT NULL,"
    ++ lit "`category` VARCHAR(128) NOT NULL,"
    ++ lit "`device_type` VARCHAR(128) NULL,"
    ++ lit "`error_code` VARCHAR(128) NULL,"
    ++ lit "`content` LONGTEXT NOT NULL,"
    ++ lit "`status` VARCHAR(32) NOT NULL,"
    ++ lit "`created_by` BIGINT UNSIGNED NOT NULL,"
    ++ lit "`created_at` BIGINT NOT NULL,"
    ++ lit "`updated_at` BIGINT NOT NULL,"
    ++ lit "UNIQUE INDEX `document_id_i` (`document_id`)"
    ++ lit ") ENGINE=InnoDB DEFAULT CHARSET=utf8mb4 COLLATE=utf8mb4_unicode_ci"

unfoldable fault_records_table : Str
fault_records_table =
    lit "CREATE TABLE IF NOT EXISTS `fault_records` ("
    ++ lit "`id` BIGINT UNSIGNED NOT NULL PRIMARY KEY AUTO_INCREMENT,"
    ++ lit "`fault_id` VARCHAR(128) NOT NULL,"
    ++ lit "`device_id` VARCHAR(128) NOT NULL,"
    ++ lit "`event_id` VARCHAR(128) NULL,"
    ++ lit "`owner_user_id` BIGINT UNSIGNED NOT NULL,"
    ++ lit "`fault_type` VARCHAR(128) NOT NULL,"
    ++ lit "`severity` VARCHAR(32) NOT NULL,"
    ++ lit "`status` VARCHAR(32) NOT NULL,"
    ++ lit "`symptom` LONGTEXT NOT NULL,"
    ++ lit "`root_cause` LONGTEXT NULL,"
    ++ lit "`solution` LONGTEXT NULL,"
    ++ lit "`started_at` BIGINT NOT NULL,"
    ++ lit "`resolved_at` BIGINT NULL,"
    ++ lit "`created_at` BIGINT NOT NULL,"
    ++ lit "`updated_at` BIGINT NOT NULL,"
    ++ lit "UNIQUE INDEX `fault_id_i` (`fault_id`),"
    ++ lit "INDEX `fault_device_time_i` (`device_id`, `started_at`),"
    ++ lit "INDEX `fault_status_i` (`status`),"
    ++ lit "INDEX `fault_event_i` (`event_id`)"
    ++ lit ") ENGINE=InnoDB DEFAULT CHARSET=utf8mb4 COLLATE=utf8mb4_unicode_ci"

unfoldable diagnosis_reports_table : Str
diagnosis_reports_table =
    lit "CREATE TABLE IF NOT EXISTS `diagnosis_reports` ("
    ++ lit "`id` BIGINT UNSIGNED NOT NULL PRIMARY KEY AUTO_INCREMENT,"
    ++ lit "`report_id` VARCHAR(128) NOT NULL,"
    ++ lit "`device_id` VARCHAR(128) NOT NULL,"
    ++ lit "`event_id` VARCHAR(128) NULL,"
    ++ lit "`fault_id` VARCHAR(128) NULL,"
    ++ lit "`created_by` BIGINT UNSIGNED NOT NULL,"
    ++ lit "`report_type` VARCHAR(32) NOT NULL,"
    ++ lit "`status` VARCHAR(32) NOT NULL,"
    ++ lit "`summary` LONGTEXT NOT NULL,"
    ++ lit "`possible_causes_json` LONGTEXT NULL,"
    ++ lit "`recommended_actions_json` LONGTEXT NULL,"
    ++ lit "`evidence_json` LONGTEXT NULL,"
    ++ lit "`ai_model` VARCHAR(128) NULL,"
    ++ lit "`confidence` DOUBLE NOT NULL,"
    ++ lit "`created_at` BIGINT NOT NULL,"
    ++ lit "`updated_at` BIGINT NOT NULL,"
    ++ lit "UNIQUE INDEX `report_id_i` (`report_id`),"
    ++ lit "INDEX `report_device_time_i` (`device_id`, `created_at`),"
    ++ lit "INDEX `report_event_i` (`event_id`),"
    ++ lit "INDEX `report_fault_i` (`fault_id`),"
    ++ lit "INDEX `report_status_i` (`status`)"
    ++ lit ") ENGINE=InnoDB DEFAULT CHARSET=utf8mb4 COLLATE=utf8mb4_unicode_ci"

unfoldable pub supplemental_tables : List Str
unfolding knowledge_documents_table fault_records_table diagnosis_reports_table
supplemental_tables = knowledge_documents_table ∷ fault_records_table ∷ diagnosis_reports_table ∷ []
