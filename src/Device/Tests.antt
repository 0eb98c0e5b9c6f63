-- ===== src/Device/Tests.antt =====
-- Runs of the device service on a table in memory, and the theorems at concrete inputs.
use device_ops.Prelude.{All, pos, ◌≡◌, refl, ap, true, none, some, [], ◌∷◌, inl, arith}
use device_ops.Str.{Str, lit, str_eq, str_eq_iff, str_eq_refl, decimal}
use device_ops.Odb.{Odb, Column, IsOdb, Answers}
use device_ops.Odb.Transaction.{accepted, rejected, transaction, catching}
use device_ops.Odb.Memory.{Rows, memory, find_in, memory-IsOdb}
use device_ops.Paging.{page_or_default, page_size_or_default}
use device_ops.Device.{
  DeviceEntity, unspecified, disabled, CreateDeviceRequest, UpdateDeviceRequest, to_record,
  status_eq, status_to_string,
}
use device_ops.Device.Repository.{create, update, verify_access, new_entity, changed_entity}
use device_ops.Device.Repository.Changes.{device_column, create_accepted, update_accepted}
use device_ops.Device.Repository.Access.{verify_access-create, verify_access-update_disabled}
use device_ops.Device.Token.{hash_access_token}
use device_ops.Device.Service.{list_devices, ListDevicesRequest}
use device_ops.Device.Service.Listing.{IsAsked, list_devices_lem}

abbrev column : Column DeviceEntity
column = device_column str_eq

abbrev table : Odb DeviceEntity (Rows DeviceEntity)
table = memory column

str_eq_congr : (s t u : Str) → str_eq s t ≡ true → str_eq s u ≡ str_eq t u
str_eq_congr s t u h = ap (λ (x : Str). str_eq x u) ((str_eq_iff s t).0 h)

table-IsOdb : IsOdb table column (find_in column)
table-IsOdb = memory-IsOdb column str_eq_refl str_eq_congr (λ n r. refl) (λ n r. refl)

abbrev empty_table : Rows DeviceEntity
empty_table = record { rows = []; next = 1 }

abbrev robot_request : CreateDeviceRequest
robot_request = record {
  device_id = lit "r1";
  device_name = lit "robot";
  device_type = lit "robot";
  model = [];
  manufacturer = [];
  location = lit "hall";
  access_token = lit "s";
  protocol = [];
  description = [];
}

robot : DeviceEntity
unfolding new_entity
robot = record (new_entity robot_request (pos 5)) { id = 1 }

robot_table : Rows DeviceEntity
unfolding robot
robot_table = record { rows = robot ∷ []; next = 2 }

create-robot :
    create table robot_request (pos 5) empty_table ≡ (accepted (to_record robot), robot_table)
unfolding create transaction catching memory new_entity robot robot_table
create-robot = refl

create_accepted_example : find_in column empty_table (lit "r1") ≡ none
create_accepted_example =
    (create_accepted table str_eq (find_in column) table-IsOdb robot_request (pos 5) empty_table
      robot_table (to_record robot) create-robot).1

robot-Answers : Answers table robot_table (lit "r1") (some robot)
unfolding memory str_eq robot_table
robot-Answers = record { begins = refl; answers = refl; commits = refl }

verify_access-create_example :
    verify_access table (lit "r1") (lit "t") [] robot_table ≡ rejected (lit "access token mismatch")
unfolding str_eq hash_access_token decimal
verify_access-create_example =
    verify_access-create table str_eq (find_in column) table-IsOdb robot_request (pos 5) empty_table
      robot_table (to_record robot) (lit "t") [] (some robot) create-robot robot-Answers

disable_robot : UpdateDeviceRequest
disable_robot = record {
  device_id = lit "r1";
  device_name = [];
  device_type = [];
  model = lit "RBT-A1";
  manufacturer = [];
  location = [];
  status = disabled;
  description = [];
}

disabled_robot : DeviceEntity
unfolding new_entity changed_entity disable_robot status_eq status_to_string
disabled_robot = changed_entity disable_robot (pos 9) robot

abbrev disabled_table : Rows DeviceEntity
disabled_table = record { rows = disabled_robot ∷ []; next = 2 }

update_robot :
    update table disable_robot (pos 9) robot_table
    ≡ (accepted (to_record disabled_robot), disabled_table)
unfolding update transaction catching memory str_eq disable_robot robot_table disabled_robot
    changed_entity
update_robot = refl

update_accepted_example :
    find_in column disabled_table (lit "r2") ≡ find_in column robot_table (lit "r2")
unfolding disable_robot str_eq
update_accepted_example =
    (update_accepted table str_eq (find_in column) table-IsOdb disable_robot (pos 9) robot_table
        disabled_table (to_record disabled_robot) update_robot).4
      (lit "r2")

disabled-Answers : Answers table disabled_table (lit "r1") (some disabled_robot)
unfolding memory str_eq disabled_robot robot
disabled-Answers = record { begins = refl; answers = refl; commits = refl }

verify_access-update_disabled_example :
    verify_access table (lit "r1") (lit "s") (lit "mqtt") disabled_table
    ≡ rejected (lit "device is not enabled")
unfolding disable_robot
verify_access-update_disabled_example =
    verify_access-update_disabled table str_eq (find_in column) table-IsOdb disable_robot (pos 9)
      robot_table disabled_table (to_record disabled_robot) (lit "s") (lit "mqtt")
      (some disabled_robot) (inl refl) update_robot disabled-Answers

abbrev every_robot : ListDevicesRequest
every_robot = record {
  page = record { page = pos 0; page_size = pos 10 };
  device_type = lit "robot";
  status = unspecified;
  keyword = [];
}

list_devices_lem_example :
    All (IsAsked every_robot) (list_devices table every_robot robot_table).devices
list_devices_lem_example =
    (list_devices_lem table every_robot robot_table
      (unfold page_or_default page_size_or_default in omega arith)).2
