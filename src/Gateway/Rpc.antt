-- ===== src/Gateway/Rpc.antt =====
-- services/device_gateway/src/gateway_rpc_service.cc: what the gateway tells of itself, with start,
-- stop and currentStatus of gateway_server.cc. The MQTT client is a parameter.
use device_ops.Prelude.{ℤ, pos, Bool, true, false, not, ◌||◌, List, [], ◌∷◌, if◌then◌else◌}
use device_ops.Str.{Str, lit, is_empty, str_eq}
use device_ops.Paging.{page_or_default, page_size_or_default}
use device_ops.Rpc.{CommonResponse, PageRequest, PageResponse, set_response}
use device_ops.Gateway.Config.{GatewayConfig}
use device_ops.Gateway.{
  GatewayServer, ConnectedDeviceRecord, ForwardingCounter, connected_devices, forwarding_stats,
}

pub record GatewayStatus : Type 0 where
  pub gateway_id : Str
  pub mqtt_broker : Str
  pub mqtt_connected : Bool
  pub started_at : ℤ
  pub updated_at : ℤ
  pub subscribed_topics : List Str

-- tewmqtt::MqttClient over its state.
pub record MqttClient (M : Type 0) : Type 0 where
  pub subscribe : Str → M → M
  pub connect : M → Bool × M
  pub disconnect : M → M
  pub connected : M → Bool

-- The server while it runs: its MQTT client, `_rpc_server != nullptr`, `_running` and `_started_at`.
pub record Process (M : Type 0) : Type 0 where
  pub server : GatewayServer
  pub client : M
  pub rpc_server : Bool
  pub running : Bool
  pub started_at : ℤ

module _ {M : Type 0} (mqtt : MqttClient M) (config : GatewayConfig) where
  subscribe_all : List Str → M → M
  subscribe_all [] m = m
  subscribe_all (topic ∷ topics) m = subscribe_all topics (mqtt.subscribe topic m)

  unfoldable pub start : ℤ → Process M → Bool × Process M
  unfolding subscribe_all
  start now p =
      let server = record p.server { updated_at = now } in
      let (ok, client) = mqtt.connect (subscribe_all config.subscribe_topics p.client) in
      if ok
      then (
        true,
        record {
          server = server;
          client = client;
          rpc_server = true;
          running = true;
          started_at = now;
        },
      )
      else (false, record p { server = server; client = client; started_at = now })

  unfoldable pub stop : Process M → Process M
  stop p = record p { running = false; rpc_server = false; client = mqtt.disconnect p.client }

  unfoldable pub current_status : Process M → GatewayStatus
  current_status p = record {
    gateway_id = config.gateway_id;
    mqtt_broker = p.server.broker_uri;
    mqtt_connected = mqtt.connected p.client;
    started_at = p.started_at;
    updated_at = p.server.updated_at;
    subscribed_topics = config.subscribe_topics;
  }

pub record GetGatewayStatusResponse : Type 0 where
  pub response : CommonResponse
  pub status : List GatewayStatus

pub record ListConnectedDevicesRequest : Type 0 where
  pub page : PageRequest
  pub gateway_id : Str
  pub keyword : Str

pub record ListConnectedDevicesResponse : Type 0 where
  pub response : CommonResponse
  pub page : PageResponse
  pub devices : List ConnectedDeviceRecord

pub record GetForwardingStatsResponse : Type 0 where
  pub response : CommonResponse
  pub stats : List (Str × ForwardingCounter)

unfoldable pub gateway_matches : Str → GatewayConfig → Bool
gateway_matches requested config = is_empty requested || str_eq requested config.gateway_id

module _ {M : Type 0} (mqtt : MqttClient M) (config : GatewayConfig) where
  -- `status` is empty where the response's status is not set.
  unfoldable pub get_gateway_status : Str → Process M → GetGatewayStatusResponse
  get_gateway_status gateway_id p =
      if not (gateway_matches gateway_id config)
      then record { response = set_response 404 (lit "gateway not found"); status = [] }
      else record {
        response = set_response 0 (lit "ok");
        status = current_status mqtt config p ∷ [];
      }

unfoldable pub list_connected_devices :
    GatewayConfig → ListConnectedDevicesRequest → GatewayServer → ListConnectedDevicesResponse
list_connected_devices config request g =
    if not (gateway_matches request.gateway_id config)
    then record {
      response = set_response 404 (lit "gateway not found");
      page = record { page = 0; page_size = 0; total = 0 };
      devices = [];
    }
    else let page = page_or_default request.page.page in
      let page_size = page_size_or_default request.page.page_size in
      let (devices, total) = connected_devices request.keyword (pos page) (pos page_size) g in
      record {
        response = set_response 0 (lit "ok");
        page = record { page = page; page_size = page_size; total = total };
        devices = devices;
      }

unfoldable pub get_forwarding_stats :
    GatewayConfig → Str → Str → GatewayServer → GetForwardingStatsResponse
get_forwarding_stats config gateway_id message_type g =
    if not (gateway_matches gateway_id config)
    then record { response = set_response 404 (lit "gateway not found"); stats = [] }
    else record { response = set_response 0 (lit "ok"); stats = forwarding_stats message_type g }
