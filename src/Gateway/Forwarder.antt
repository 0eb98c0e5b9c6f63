-- ===== src/Gateway/Forwarder.antt =====
-- services/device_gateway/src/downstream_forwarder.cc: what the gateway asks of the services for a
-- message. The stubs and the JSON library are parameters: a call gives the response, or the text of
-- a controller that failed.
pub mod Requests
pub mod Registered
pub mod Readmission
use device_ops.Prelude.{
  ℕ, ◌+◌, ℤ, pos, Bool, true, false, not, ◌&&◌, ◌||◌, List, [], ◌∷◌, ◌++◌, map, ltb, ◌==◌,
  if◌then◌else◌,
}
use device_ops.Str.{Str, lit, str_eq}
use device_ops.StdMap.{StdMap, assign}
use device_ops.Json.{Json}
use device_ops.Rpc.{CommonResponse}
use device_ops.Odb.Transaction.{Outcome, returned, thrown, Reply, accepted, rejected}
use device_ops.Device.{CreateDeviceRequest}
use device_ops.Device.Service.{VerifyDeviceAccessRequest, VerifyDeviceAccessResponse}
use device_ops.Telemetry.{DeviceTelemetry}
use device_ops.Telemetry.Service.{UploadTelemetryRequest}
use device_ops.Event.{EventSeverity, info, warning, critical, CreateEventRequest}
use device_ops.Log.{LogEntry}
use device_ops.Gateway.{ParsedMqttMessage}
use Requests.{create_device_request, verify_request, telemetry_request, event_request, log_request}

-- A call of a stub over the state of the services.
abbrev pub Call : Type 0 → Type 0 → Type 0 → Type 0
Call F A B = A → F → Reply B × F

-- `_config.enabled`, which stubs there are, and their methods.
pub record DownstreamForwarder (D F : Type 0) : Type 0 where
  pub enabled : Bool
  pub device_stub : Bool
  pub telemetry_stub : Bool
  pub event_stub : Bool
  pub log_stub : Bool
  pub create_device : Call F CreateDeviceRequest CommonResponse
  pub verify_device_access : Call F VerifyDeviceAccessRequest VerifyDeviceAccessResponse
  pub upload_telemetry : Call F (UploadTelemetryRequest D) CommonResponse
  pub create_event : Call F CreateEventRequest CommonResponse
  pub write_log : Call F LogEntry CommonResponse

unfoldable pub is_ok_response : CommonResponse → Reply (Unit {0})
is_ok_response response = if response.code == 0 then accepted tt else rejected response.message

unfoldable pub finished : {F : Type 0} → Reply CommonResponse × F → Outcome (Reply (Unit {0})) × F
finished (rejected e, f) = (returned (rejected e), f)
finished (accepted response, f) = (returned (is_ok_response response), f)

-- A request is filled in before the call; an exception on the way leaves the services alone.
unfoldable pub send :
    {A F : Type 0}
    → Outcome A
    → (A → F → Outcome (Reply (Unit {0})) × F)
    → F
    → Outcome (Reply (Unit {0})) × F
send (thrown e) call f = (thrown e, f)
send (returned request) call f = call request f

module _ {V D : Type 0} (j : Json V D) where
  module _ {F : Type 0} (d : DownstreamForwarder D F) where
    -- What VerifyDeviceAccess tells of a device that exists.
    unfoldable pub verified : Reply VerifyDeviceAccessResponse × F → Outcome (Reply (Unit {0})) × F
    verified (rejected e, f) = (returned (rejected e), f)
    verified (accepted response, f) =
        if not (response.response.code == 0)
        then (returned (rejected response.response.message), f)
        else if not response.allowed
        then (returned (rejected (lit "device access denied")), f)
        else (returned (accepted tt), f)

    unfoldable pub created :
        ParsedMqttMessage V → Reply CommonResponse × F → Outcome (Reply (Unit {0})) × F
    created message (rejected e, f) = (returned (rejected e), f)
    created message (accepted response, f) =
        if response.code == 0
        then (returned (accepted tt), f)
        else if not (response.code == 409)
        then (returned (is_ok_response response), f)
        else send (verify_request j message)
            (λ request g. verified (d.verify_device_access request g)) f

    unfoldable pub forward_register : ParsedMqttMessage V → F → Outcome (Reply (Unit {0})) × F
    forward_register message f =
        if not d.device_stub
        then (returned (rejected (lit "device downstream channel is not ready")), f)
        else send (create_device_request j message)
            (λ request g. created message (d.create_device request g)) f

    forward_telemetry : D → ParsedMqttMessage V → F → Outcome (Reply (Unit {0})) × F
    forward_telemetry zero_double message f =
        if not d.telemetry_stub
        then (returned (rejected (lit "telemetry downstream channel is not ready")), f)
        else send (telemetry_request j zero_double message)
            (λ request g. finished (d.upload_telemetry request g)) f

    forward_alarm : ParsedMqttMessage V → F → Outcome (Reply (Unit {0})) × F
    forward_alarm message f =
        if not d.event_stub
        then (returned (rejected (lit "event downstream channel is not ready")), f)
        else send (event_request j message) (λ request g. finished (d.create_event request g)) f

    forward_log : ParsedMqttMessage V → F → Outcome (Reply (Unit {0})) × F
    forward_log message f =
        if not d.log_stub
        then (returned (rejected (lit "log downstream channel is not ready")), f)
        else send (log_request j message) (λ request g. finished (d.write_log request g)) f

    unfoldable pub forward : D → ParsedMqttMessage V → F → Outcome (Reply (Unit {0})) × F
    unfolding forward_telemetry forward_alarm forward_log
    forward zero_double message f =
        if not d.enabled
        then (returned (accepted tt), f)
        else if str_eq message.message_type (lit "register")
        then forward_register message f
        else if str_eq message.message_type (lit "telemetry")
        then forward_telemetry zero_double message f
        else if str_eq message.message_type (lit "alarm")
        then forward_alarm message f
        else if str_eq message.message_type (lit "log")
        then forward_log message f
        else if str_eq message.message_type (lit "heartbeat")
        then (returned (accepted tt), f)
        else (returned (rejected (lit "unsupported message type: " ++ message.message_type)), f)
