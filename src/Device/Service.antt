-- ===== src/Device/Service.antt =====
-- services/device_service/src/device_service_impl.cc: the handlers of DeviceService, over the
-- repository. A field that a handler leaves alone is absent or empty in the response.
pub mod Codes
pub mod Listing
use device_ops.Prelude.{
  ℕ, ℤ, pos, Bool, true, false, Option, none, some, List, [], map, if◌then◌else◌,
}
use device_ops.Str.{Str, lit, str_eq}
use device_ops.Paging.{page_or_default, page_size_or_default}
use device_ops.Rpc.{CommonResponse, PageRequest, PageResponse, set_response}
use device_ops.Odb.{Odb}
use device_ops.Odb.Transaction.{Reply, accepted, rejected}
use device_ops.Device.{
  DeviceEntity, Device, DeviceRecord, DeviceStatus, CreateDeviceRequest, UpdateDeviceRequest,
  ListDeviceFilter,
}
use device_ops.Device.Repository.{create, update, get, list, verify_access}

-- CreateDeviceResponse, UpdateDeviceResponse and GetDeviceResponse have the same fields.
pub record DeviceResponse : Type 0 where
  pub response : CommonResponse
  pub device : Option Device

pub record VerifyDeviceAccessRequest : Type 0 where
  pub device_id : Str
  pub access_token : Str
  pub protocol : Str

pub record VerifyDeviceAccessResponse : Type 0 where
  pub response : CommonResponse
  pub allowed : Bool
  pub device : Option Device

pub record ListDevicesRequest : Type 0 where
  pub page : PageRequest
  pub device_type : Str
  pub status : DeviceStatus
  pub keyword : Str

pub record ListDevicesResponse : Type 0 where
  pub response : CommonResponse
  pub page : PageResponse
  pub devices : List Device

answer : (Str → ℕ) → Reply DeviceRecord → DeviceResponse
answer code_of (accepted r) = record {
  response = set_response 0 (lit "ok");
  device = some r.device;
}
answer code_of (rejected e) = record { response = set_response (code_of e) e; device = none }

unfoldable pub list_filter : ListDevicesRequest → ListDeviceFilter
list_filter request = record {
  page = pos (page_or_default request.page.page);
  page_size = pos (page_size_or_default request.page.page_size);
  device_type = request.device_type;
  status = request.status;
  keyword = request.keyword;
}

module _ {DB : Type 0} (o : Odb DeviceEntity DB) where
  unfoldable pub create_device : CreateDeviceRequest → ℤ → DB → DeviceResponse × DB
  unfolding answer
  create_device request now db =
      let (reply, db') = create o request now db in
      (answer (λ e. if str_eq e (lit "device_id already exists") then 409 else 400) reply, db')

  unfoldable pub update_device : UpdateDeviceRequest → ℤ → DB → DeviceResponse × DB
  unfolding answer
  update_device request now db =
      let (reply, db') = update o request now db in
      (answer (λ e. if str_eq e (lit "device not found") then 404 else 400) reply, db')

  unfoldable pub get_device : Str → DB → DeviceResponse
  get_device device_id db = elim (get o device_id db) [
    | none ↦ record { response = set_response 404 (lit "device not found"); device = none }
    | some r ↦ record { response = set_response 0 (lit "ok"); device = some r.device }
  ]

  unfoldable pub list_devices : ListDevicesRequest → DB → ListDevicesResponse
  unfolding list_filter
  list_devices request db =
      let filter = list_filter request in
      let (devices, total) = list o filter db in
      record {
        response = set_response 0 (lit "ok");
        page = record {
          page = page_or_default request.page.page;
          page_size = page_size_or_default request.page.page_size;
          total = total;
        };
        devices = map (λ (r : DeviceRecord). r.device) devices;
      }

  unfoldable pub verify_device_access : VerifyDeviceAccessRequest → DB → VerifyDeviceAccessResponse
  verify_device_access request db =
      elim (verify_access o request.device_id request.access_token request.protocol db) [
        | rejected e ↦ record { response = set_response 403 e; allowed = false; device = none }
        | accepted r ↦ record {
          response = set_response 0 (lit "ok");
          allowed = true;
          device = some r.device;
        }
      ]
