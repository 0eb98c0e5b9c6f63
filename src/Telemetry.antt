-- ===== src/Telemetry.antt =====
-- services/telemetry_service/src/telemetry_repository.cc: the latest telemetry and the history of
-- each device in memory, and the copy in Redis. A double is a value of the parameter `D`, which the
-- repository only copies; the Redis client and the JSON writer are parameters too.
pub mod History
pub mod Online
pub mod Service
pub mod Config
mod Tests
use device_ops.Prelude.{
  ℕ, ℤ, pos, Bool, true, false, not, ◌&&◌, ◌||◌, ◌-ℤ◌, Option, none, some, List, [], ◌∷◌, ◌++◌, map,
  keep_if, length, ltb_ℤ, is_positive, if◌then◌else◌,
}
use device_ops.Str.{Str, lit, is_empty, str_eq}
use device_ops.StdMap.{StdMap, lookup, assign, index_or}
use device_ops.Paging.{normalize_page, normalize_page_size, page_slice}
use device_ops.Odb.Transaction.{Outcome, returned, thrown}

pub record DeviceTelemetry (D : Type 0) : Type 0 where
  pub device_id : Str
  pub online : Bool
  pub battery : D
  pub temperature : D
  pub speed : D
  pub run_mode : Str
  pub error_code : Str
  pub reported_at : ℤ
  pub metrics : StdMap D

pub record ListTelemetryFilter : Type 0 where
  pub page : ℤ
  pub page_size : ℤ
  pub device_ids : List Str
  pub only_online : Bool

pub record QueryHistoryFilter : Type 0 where
  pub device_id : Str
  pub start_time : ℤ
  pub end_time : ℤ
  pub page : ℤ
  pub page_size : ℤ

-- sw::redis::Redis::set over the server's state.
abbrev pub RedisSet : Type 0 → Type 0
RedisSet R = Str → Str → R → Outcome R

-- `redis` is there if Redis is enabled and answered the constructor's ping.
pub record Repository (D R : Type 0) : Type 0 where
  pub offline_timeout_ms : ℤ
  pub redis : Option R
  pub latest : StdMap (DeviceTelemetry D)
  pub history : StdMap (List (DeviceTelemetry D))

unfoldable pub status_key : Str → Str
status_key device_id = lit "deviceops:device:status:" ++ device_id

unfoldable pub online_key : Str → Str
online_key device_id = lit "deviceops:device:online:" ++ device_id

-- A device's telemetry with the time of its arrival where it has none of its own.
unfoldable pub normalize : {D : Type 0} → ℤ → DeviceTelemetry D → DeviceTelemetry D
normalize now telemetry =
    if is_positive telemetry.reported_at then telemetry else record telemetry { reported_at = now }

module _ {D R : Type 0} (set : RedisSet R) (to_json : DeviceTelemetry D → Str) where
  -- An exception of a set is logged; what was set before it stays.
  write_keys : DeviceTelemetry D → R → R
  write_keys telemetry r = elim (set (status_key telemetry.device_id) (to_json telemetry) r) [
    | thrown e ↦ r
    | returned r' ↦
        elim (set (online_key telemetry.device_id) (if telemetry.online then lit "1" else lit "0")
          r') [ thrown e ↦ r' | returned r'' ↦ r'' ]
  ]

  unfoldable pub write_redis : DeviceTelemetry D → Repository D R → Repository D R
  unfolding write_keys
  write_redis telemetry s = elim s.redis [
    | none ↦ s
    | some r ↦ record s { redis = some (write_keys telemetry r) }
  ]

  unfoldable pub upload : DeviceTelemetry D → ℤ → Repository D R → Repository D R
  upload telemetry now s =
      let normalized = normalize now telemetry in
      let past = index_or [] normalized.device_id s.history in
      write_redis normalized (record s {
        latest = assign normalized.device_id normalized s.latest;
        history = assign normalized.device_id (past ++ normalized ∷ []) s.history;
      })

unfoldable pub with_computed_online_status :
    {D : Type 0} → ℤ → ℤ → DeviceTelemetry D → DeviceTelemetry D
with_computed_online_status offline_timeout_ms now telemetry =
    if not (is_positive offline_timeout_ms) || not (is_positive telemetry.reported_at)
    then telemetry
    else if ltb_ℤ offline_timeout_ms (now -ℤ telemetry.reported_at)
    then record telemetry {
      online = false;
      run_mode =
          if is_empty telemetry.run_mode || str_eq telemetry.run_mode (lit "auto")
          then lit "offline"
          else telemetry.run_mode;
    }
    else telemetry

abbrev pub any_eq : Str → List Str → Bool
any_eq id [] = false
any_eq id (x ∷ xs) = str_eq x id || any_eq id xs

abbrev pub is_none_listed : List Str → Bool
is_none_listed [] = true
is_none_listed (x ∷ xs) = false

module _ {D : Type 0} where
  unfoldable pub listed : ListTelemetryFilter → DeviceTelemetry D → Bool
  listed filter telemetry =
      (is_none_listed filter.device_ids || any_eq telemetry.device_id filter.device_ids)
      && (not filter.only_online || telemetry.online)

  unfoldable pub in_range : QueryHistoryFilter → DeviceTelemetry D → Bool
  in_range filter telemetry =
      not (is_positive filter.start_time && ltb_ℤ telemetry.reported_at filter.start_time)
      && not (is_positive filter.end_time && ltb_ℤ filter.end_time telemetry.reported_at)

module _ {D R : Type 0} where
  unfoldable pub get_realtime : Str → ℤ → Repository D R → Option (DeviceTelemetry D)
  get_realtime device_id now s = elim (lookup device_id s.latest) [
    | none ↦ none
    | some telemetry ↦ some (with_computed_online_status s.offline_timeout_ms now telemetry)
  ]

  unfoldable pub matched_realtime :
      ListTelemetryFilter → ℤ → Repository D R → List (DeviceTelemetry D)
  matched_realtime filter now s = keep_if (listed filter) (
      map
        (λ (item : Str × DeviceTelemetry D).
          with_computed_online_status s.offline_timeout_ms now item.1)
        s.latest)

  -- The page and `*total`.
  unfoldable pub list_realtime :
      ListTelemetryFilter → ℤ → Repository D R → List (DeviceTelemetry D) × ℕ
  list_realtime filter now s =
      let all = matched_realtime filter now s in
      (
        page_slice all (normalize_page filter.page) (normalize_page_size filter.page_size),
        length all,
      )

  unfoldable pub matched_history : QueryHistoryFilter → Repository D R → List (DeviceTelemetry D)
  matched_history filter s = keep_if (in_range filter) (index_or [] filter.device_id s.history)

  unfoldable pub query_history : QueryHistoryFilter → Repository D R → List (DeviceTelemetry D) × ℕ
  query_history filter s =
      let all = matched_history filter s in
      (
        page_slice all (normalize_page filter.page) (normalize_page_size filter.page_size),
        length all,
      )
