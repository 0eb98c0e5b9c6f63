-- ===== src/Device.antt =====
-- The data of the device service: the messages of proto/device.proto and proto/common.proto, the
-- table row of common/include/deviceops/db/device_entity.h, and their conversions
-- (services/device_service/src/device_repository.cc).
pub mod Token
pub mod Repository
pub mod Service
mod Tests
use device_ops.Prelude.{
  ℕ, ℤ, Bool, true, false, Option, none, some, List, [], ◌∷◌, ◌==◌, if◌then◌else◌,
}
use device_ops.Str.{Str, lit, str_eq}

-- A proto3 enum is open: any other number is kept as it is.
pub data DeviceStatus : Type 0 where
  unspecified enabled disabled maintenance : DeviceStatus
  unrecognized : ℕ → DeviceStatus

unfoldable pub status_eq : DeviceStatus → DeviceStatus → Bool
status_eq unspecified unspecified = true
status_eq enabled enabled = true
status_eq disabled disabled = true
status_eq maintenance maintenance = true
status_eq (unrecognized m) (unrecognized n) = m == n
status_eq s t = false

unfoldable pub status_from_string : Str → DeviceStatus
status_from_string s =
    if str_eq s (lit "enabled")
    then enabled
    else if str_eq s (lit "disabled")
    then disabled
    else if str_eq s (lit "maintenance")
    then maintenance
    else unspecified

unfoldable pub status_to_string : DeviceStatus → Str
status_to_string enabled = lit "enabled"
status_to_string disabled = lit "disabled"
status_to_string maintenance = lit "maintenance"
status_to_string s = lit "unspecified"

pub record DeviceEntity : Type 0 where
  pub id : ℕ
  pub device_id : Str
  pub device_name : Str
  pub device_type : Str
  pub model : Option Str
  pub manufacturer : Option Str
  pub location : Option Str
  pub status : Str
  pub access_token_hash : Option Str
  pub protocol : Str
  pub description : Option Str
  pub created_at : ℤ
  pub updated_at : ℤ

pub record Device : Type 0 where
  pub id : ℕ
  pub device_id : Str
  pub device_name : Str
  pub device_type : Str
  pub model : Str
  pub manufacturer : Str
  pub location : Str
  pub status : DeviceStatus
  pub protocol : Str
  pub description : Str
  pub created_at : ℤ
  pub updated_at : ℤ

pub record DeviceRecord : Type 0 where
  pub device : Device
  pub access_token_hash : Str

abbrev pub nullable_string : Option Str → Str
nullable_string (some s) = s
nullable_string none = []

unfoldable pub to_proto : DeviceEntity → Device
to_proto entity = record {
  id = entity.id;
  device_id = entity.device_id;
  device_name = entity.device_name;
  device_type = entity.device_type;
  model = nullable_string entity.model;
  manufacturer = nullable_string entity.manufacturer;
  location = nullable_string entity.location;
  status = status_from_string entity.status;
  protocol = entity.protocol;
  description = nullable_string entity.description;
  created_at = entity.created_at;
  updated_at = entity.updated_at;
}

-- The record that create, update, get and list build from a row.
abbrev pub to_record : DeviceEntity → DeviceRecord
to_record entity = record {
  device = to_proto entity;
  access_token_hash = nullable_string entity.access_token_hash;
}

pub record CreateDeviceRequest : Type 0 where
  pub device_id : Str
  pub device_name : Str
  pub device_type : Str
  pub model : Str
  pub manufacturer : Str
  pub location : Str
  pub access_token : Str
  pub protocol : Str
  pub description : Str

pub record UpdateDeviceRequest : Type 0 where
  pub device_id : Str
  pub device_name : Str
  pub device_type : Str
  pub model : Str
  pub manufacturer : Str
  pub location : Str
  pub status : DeviceStatus
  pub description : Str

pub record ListDeviceFilter : Type 0 where
  pub page : ℤ
  pub page_size : ℤ
  pub device_type : Str
  pub status : DeviceStatus
  pub keyword : Str
