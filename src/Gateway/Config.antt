-- ===== src/Gateway/Config.antt =====
-- loadGatewayConfigFromEnv of services/device_gateway/src/gateway_config.cc.
use device_ops.Prelude.{ℤ, pos, Bool, true, List, [], ◌∷◌}
use device_ops.Str.{Str, lit}
use device_ops.Env.{Env, getenv_or_default, getenv_int_or_default, getenv_bool_or_default}

pub record MqttConfig : Type 0 where
  pub host : Str
  pub port : ℤ
  pub client_id : Str
  pub username : Str
  pub password : Str
  pub keep_alive_seconds : ℤ
  pub connect_timeout_seconds : ℤ
  pub retry_interval_seconds : ℤ

pub record DownstreamRpcConfig : Type 0 where
  pub enabled : Bool
  pub device_addr : Str
  pub telemetry_addr : Str
  pub event_addr : Str
  pub log_addr : Str
  pub timeout_ms : ℤ

pub record GatewayConfig : Type 0 where
  pub gateway_id : Str
  pub rpc_port : ℤ
  pub mqtt : MqttConfig
  pub downstream : DownstreamRpcConfig
  pub subscribe_topics : List Str

-- The settings of the MQTT client, which the simulator reads in the same way.
unfoldable pub load_mqtt_config : Env → Str → MqttConfig
load_mqtt_config env client_id = record {
  host = getenv_or_default env (lit "DEVICEOPS_MQTT_HOST") (lit "127.0.0.1");
  port = getenv_int_or_default env (lit "DEVICEOPS_MQTT_PORT") (pos 1883);
  client_id = getenv_or_default env (lit "DEVICEOPS_MQTT_CLIENT_ID") client_id;
  username = getenv_or_default env (lit "DEVICEOPS_MQTT_USERNAME") [];
  password = getenv_or_default env (lit "DEVICEOPS_MQTT_PASSWORD") [];
  keep_alive_seconds = getenv_int_or_default env (lit "DEVICEOPS_MQTT_KEEPALIVE_SECONDS") (pos 60);
  connect_timeout_seconds =
      getenv_int_or_default env (lit "DEVICEOPS_MQTT_CONNECT_TIMEOUT_SECONDS") (pos 5);
  retry_interval_seconds =
      getenv_int_or_default env (lit "DEVICEOPS_MQTT_RETRY_INTERVAL_SECONDS") (pos 2);
}

unfoldable pub load_gateway_config_from_env : Env → GatewayConfig
load_gateway_config_from_env env =
    let gateway_id =
      getenv_or_default env (lit "DEVICEOPS_GATEWAY_ID") (lit "device-gateway-001") in
    record {
      gateway_id = gateway_id;
      rpc_port = getenv_int_or_default env (lit "DEVICEOPS_GATEWAY_RPC_PORT") (pos 9101);
      mqtt = load_mqtt_config env gateway_id;
      downstream = record {
        enabled =
            getenv_bool_or_default env (lit "DEVICEOPS_DOWNSTREAM_RPC_ENABLED")
              (lit "1" ∷ lit "true" ∷ lit "TRUE" ∷ lit "yes" ∷ lit "YES" ∷ []) true;
        device_addr =
            getenv_or_default env (lit "DEVICEOPS_DEVICE_RPC_ADDR") (lit "127.0.0.1:9201");
        telemetry_addr =
            getenv_or_default env (lit "DEVICEOPS_TELEMETRY_RPC_ADDR") (lit "127.0.0.1:9301");
        event_addr = getenv_or_default env (lit "DEVICEOPS_EVENT_RPC_ADDR") (lit "127.0.0.1:9401");
        log_addr = getenv_or_default env (lit "DEVICEOPS_LOG_RPC_ADDR") (lit "127.0.0.1:9501");
        timeout_ms =
            getenv_int_or_default env (lit "DEVICEOPS_DOWNSTREAM_RPC_TIMEOUT_MS") (pos 10000);
      };
      subscribe_topics =
          lit "device/+/register"
          ∷ lit "device/+/telemetry"
          ∷ lit "device/+/alarm"
          ∷ lit "device/+/log"
          ∷ lit "device/+/heartbeat"
          ∷ [];
    }
