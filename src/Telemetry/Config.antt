-- ===== src/Telemetry/Config.antt =====
-- loadRedisConfigFromEnv of services/telemetry_service/src/telemetry_repository.cc, and what the
-- constructor of TelemetryRepository makes of it. Redis is a parameter.
use device_ops.Prelude.{ℤ, pos, Bool, false, none, some, [], ◌∷◌, if◌then◌else◌}
use device_ops.Str.{Str, lit}
use device_ops.Odb.Transaction.{Outcome, returned, thrown}
use device_ops.Env.{Env, getenv_or_default, getenv_int_or_default, getenv_bool_or_default}
use device_ops.Telemetry.{Repository}

pub record RedisConfig : Type 0 where
  pub enabled : Bool
  pub host : Str
  pub port : ℤ
  pub user : Str
  pub password : Str
  pub db : ℤ
  pub offline_timeout_ms : ℤ

unfoldable pub load_redis_config_from_env : Env → RedisConfig
load_redis_config_from_env env = record {
  enabled =
      getenv_bool_or_default env (lit "DEVICEOPS_REDIS_ENABLED")
        (lit "1" ∷ lit "true" ∷ lit "TRUE" ∷ lit "on" ∷ []) false;
  host = getenv_or_default env (lit "DEVICEOPS_REDIS_HOST") (lit "127.0.0.1");
  port = getenv_int_or_default env (lit "DEVICEOPS_REDIS_PORT") (pos 6379);
  user = getenv_or_default env (lit "DEVICEOPS_REDIS_USER") (lit "default");
  password = getenv_or_default env (lit "DEVICEOPS_REDIS_PASSWORD") [];
  db = getenv_int_or_default env (lit "DEVICEOPS_REDIS_DB") (pos 0);
  offline_timeout_ms =
      getenv_int_or_default env (lit "DEVICEOPS_TELEMETRY_OFFLINE_TIMEOUT_MS") (pos 90000);
}

-- The constructor: `connect` creates the client and pings the server, or throws.
unfoldable pub telemetry_repository :
    {D R : Type 0} → (RedisConfig → Outcome R) → RedisConfig → Repository D R
telemetry_repository connect config = record {
  latest = [];
  history = [];
  offline_timeout_ms = config.offline_timeout_ms;
  redis =
      if config.enabled
      then elim (connect config) [ thrown e ↦ none | returned r ↦ some r ]
      else none;
}
