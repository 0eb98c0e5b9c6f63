-- ===== src/Event/Tests.antt =====
-- Runs of the event service on a table in memory, and the theorems at concrete inputs.
use device_ops.Prelude.{ℕ, pos, ◌≡◌, refl, ap, true, [], ◌∷◌}
use device_ops.Str.{Str, lit, str_eq, str_eq_iff, str_eq_refl, decimal, signed_decimal}
use device_ops.Odb.{Odb, Column, IsOdb}
use device_ops.Odb.Transaction.{accepted, transaction, catching}
use device_ops.Odb.Memory.{Rows, memory, find_in, memory-IsOdb}
use device_ops.Event.{EventEntity, critical, severity_eq, CreateEventRequest}
use device_ops.Event.Status.{resolved, status_eq}
use device_ops.Event.Repository.{
  Events, new_entity, moved_entity, next_event_id, to_proto, create, update_status,
}
use device_ops.Event.Repository.Changes.{event_column, create_stored, update_status_lem}
use device_ops.Event.Service.{create_event}
use device_ops.Event.Service.Alarms.{create_event_announces}

abbrev column : Column EventEntity
column = event_column str_eq

abbrev table : Odb EventEntity (Rows EventEntity)
table = memory column

str_eq_congr : (s t u : Str) → str_eq s t ≡ true → str_eq s u ≡ str_eq t u
str_eq_congr s t u h = ap (λ (x : Str). str_eq x u) ((str_eq_iff s t).0 h)

table-IsOdb : IsOdb table column (find_in column)
table-IsOdb = memory-IsOdb column str_eq_refl str_eq_congr (λ n r. refl) (λ n r. refl)

abbrev none_yet : Events (Rows EventEntity)
none_yet = record { db = record { rows = []; next = 1 }; sequence = 1 }

abbrev overheat : CreateEventRequest
overheat = record {
  trace_id = lit "t";
  device_id = lit "r1";
  event_type = lit "overheat";
  severity = critical;
  error_code = [];
  title = lit "hot";
  description = [];
  metric_snapshot_json = [];
  rule_name = [];
  occurred_at = pos 4;
}

abbrev first_id : Str
first_id = next_event_id (pos 5) 1

overheat_row : EventEntity
unfolding new_entity
overheat_row = record (new_entity overheat (pos 5) first_id) { id = 1 }

one_event : Events (Rows EventEntity)
unfolding overheat_row
one_event = record { db = record { rows = overheat_row ∷ []; next = 2 }; sequence = 2 }

create-overheat :
    create table overheat (pos 5) none_yet ≡ (accepted (to_proto overheat_row), one_event)
unfolding create transaction catching memory new_entity overheat_row one_event severity_eq
create-overheat = refl

create_stored_example : one_event.sequence ≡ 2
create_stored_example =
    (create_stored table str_eq (find_in column) table-IsOdb overheat (pos 5) none_yet one_event
      (to_proto overheat_row) create-overheat).4

moved_row : EventEntity
unfolding overheat_row moved_entity new_entity
moved_row = moved_entity resolved (pos 9) overheat_row

moved_table : Rows EventEntity
unfolding moved_row
moved_table = record { rows = moved_row ∷ []; next = 2 }

resolve_overheat :
    update_status table first_id resolved (pos 9) one_event.db
    ≡ (accepted (to_proto moved_row), moved_table)
unfolding update_status transaction catching memory str_eq one_event moved_row moved_table
    overheat_row moved_entity next_event_id decimal signed_decimal status_eq new_entity
resolve_overheat = refl

update_status_lem_example : (to_proto moved_row).status ≡ resolved
update_status_lem_example =
    (update_status_lem table str_eq (find_in column) table-IsOdb first_id resolved (pos 9)
      one_event.db moved_table (to_proto moved_row) resolve_overheat).2

create_event_announces_example :
    (create_event {D = ℕ}
      (λ v. lit "CRITICAL")
      (λ v. lit "OPEN")
      table
      true
      overheat
      (pos 5)
      none_yet).1
    ≡ (create table overheat (pos 5) none_yet).1
create_event_announces_example =
    (create_event_announces {D = ℕ} (λ v. lit "CRITICAL") (λ v. lit "OPEN") table true overheat
      (pos 5) none_yet).0
