-- ===== src/Device/Repository.antt =====
-- services/device_service/src/device_repository.cc: the device table behind DeviceRepository. The
-- clock is read once for a request and is an argument, `now`.
pub mod Access
pub mod Changes
use device_ops.Prelude.{
  ℕ, ℤ, pos, Bool, true, false, not, ◌&&◌, ◌||◌, Option, none, some, List, [], ◌∷◌, map, keep_if,
  length, if◌then◌else◌,
}
use device_ops.Str.{Str, lit, is_empty, str_eq, finds}
use device_ops.Paging.{normalize_page, normalize_page_size, page_slice}
use device_ops.Odb.{Odb}
use device_ops.Odb.Transaction.{
  Outcome, returned, thrown, Reply, accepted, rejected, Session, ◌>>=◌, pure, reads, writes,
  transaction, catching,
}
use device_ops.Device.{
  DeviceEntity, Device, DeviceRecord, DeviceStatus, unspecified, enabled, status_eq,
  status_to_string, nullable_string, to_proto, to_record, CreateDeviceRequest, UpdateDeviceRequest,
  ListDeviceFilter,
}
use device_ops.Device.Token.{hash_access_token}

unfoldable pub contains : Str → Str → Bool
contains value keyword = is_empty keyword || finds value keyword

-- A nullable column is set only from a text that is not empty.
abbrev pub unless_empty : Str → Option Str → Option Str
unless_empty s old = if is_empty s then old else some s

unfoldable pub new_entity : CreateDeviceRequest → ℤ → DeviceEntity
new_entity request now = record {
  id = 0;
  device_id = request.device_id;
  device_name = request.device_name;
  device_type = request.device_type;
  model = unless_empty request.model none;
  manufacturer = unless_empty request.manufacturer none;
  location = unless_empty request.location none;
  status = lit "enabled";
  access_token_hash = some (hash_access_token request.access_token);
  protocol = if is_empty request.protocol then lit "mqtt" else request.protocol;
  description = unless_empty request.description none;
  created_at = now;
  updated_at = now;
}

abbrev pub or_keep : Str → Str → Str
or_keep s old = if is_empty s then old else s

unfoldable pub changed_entity : UpdateDeviceRequest → ℤ → DeviceEntity → DeviceEntity
changed_entity request now entity = record entity {
  device_name = or_keep request.device_name entity.device_name;
  device_type = or_keep request.device_type entity.device_type;
  model = unless_empty request.model entity.model;
  manufacturer = unless_empty request.manufacturer entity.manufacturer;
  location = unless_empty request.location entity.location;
  status =
      if status_eq request.status unspecified
      then entity.status
      else status_to_string request.status;
  description = unless_empty request.description entity.description;
  updated_at = now;
}

-- The tests of the list loop that end in `continue`, negated.
unfoldable pub passes : ListDeviceFilter → Device → Bool
passes filter proto =
    (is_empty filter.device_type || str_eq proto.device_type filter.device_type)
    && (status_eq filter.status unspecified || status_eq proto.status filter.status)
    && (is_empty filter.keyword
        || contains proto.device_id filter.keyword
        || contains proto.device_name filter.keyword
        || contains proto.model filter.keyword
        || contains proto.location filter.keyword)

module _ {DB : Type 0} (o : Odb DeviceEntity DB) where
  insert_new : CreateDeviceRequest → ℤ → Option DeviceEntity → Session DB (Reply DeviceRecord)
  insert_new request now (some existing) = pure (rejected (lit "device_id already exists"))
  insert_new request now none = do
    entity ← o.persist (new_entity request now)
    pure (accepted (to_record entity))

  unfoldable pub create : CreateDeviceRequest → ℤ → DB → Reply DeviceRecord × DB
  unfolding insert_new
  create request now db =
      if is_empty request.device_id
      then (rejected (lit "device_id is required"), db)
      else if is_empty request.device_name
      then (rejected (lit "device_name is required"), db)
      else if is_empty request.device_type
      then (rejected (lit "device_type is required"), db)
      else catching db (
          transaction o.begin o.commit
            (do existing ← reads (o.query_one request.device_id); insert_new request now existing)
            db)

  write_changes : UpdateDeviceRequest → ℤ → Option DeviceEntity → Session DB (Reply DeviceRecord)
  write_changes request now none = pure (rejected (lit "device not found"))
  write_changes request now (some entity) =
      let entity' = changed_entity request now entity in
      writes (accepted (to_record entity')) (o.update entity')

  unfoldable pub update : UpdateDeviceRequest → ℤ → DB → Reply DeviceRecord × DB
  unfolding write_changes
  update request now db =
      if is_empty request.device_id
      then (rejected (lit "device_id is required"), db)
      else catching db (
          transaction o.begin o.commit
            (do entity ← reads (o.query_one request.device_id); write_changes request now entity)
            db)

  -- An exception reads as no device.
  unfoldable pub get : Str → DB → Option DeviceRecord
  get device_id db = elim (transaction o.begin o.commit (reads (o.query_one device_id)) db) [
    | thrown e ↦ none
    | returned (found, _) ↦ elim found [ none ↦ none | some entity ↦ some (to_record entity) ]
  ]

  unfoldable pub matched : ListDeviceFilter → DB → List DeviceRecord
  matched filter db = elim (transaction o.begin o.commit (reads o.query) db) [
    | thrown e ↦ []
    | returned (rows, _) ↦ keep_if (λ r. passes filter r.device) (map to_record rows)
  ]

  -- The page and `*total`.
  unfoldable pub list : ListDeviceFilter → DB → List DeviceRecord × ℕ
  list filter db =
      let all = matched filter db in
      (
        page_slice all (normalize_page filter.page) (normalize_page_size filter.page_size),
        length all,
      )

  unfoldable pub verify_access : Str → Str → Str → DB → Reply DeviceRecord
  verify_access device_id access_token protocol db = elim (get device_id db) [
    | none ↦ rejected (lit "device not found")
    | some found ↦
        if not (status_eq found.device.status enabled)
        then rejected (lit "device is not enabled")
        else if not (is_empty protocol) && not (str_eq found.device.protocol protocol)
        then rejected (lit "protocol mismatch")
        else if not (str_eq found.access_token_hash (hash_access_token access_token))
        then rejected (lit "access token mismatch")
        else accepted found
  ]
