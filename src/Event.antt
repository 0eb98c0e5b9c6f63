-- ===== src/Event.antt =====
-- The data of the event service: the messages of proto/event.proto and proto/common.proto, the table
-- row of common/include/deviceops/db/event_entity.h, and their conversions
-- (services/event_service/src/event_repository.cc).
pub mod Status
pub mod Repository
pub mod Service
mod Tests
use device_ops.Prelude.{
  ℕ, ℤ, pos, ◌≡◌, refl, Bool, true, false, Option, none, some, List, [], ◌∷◌, ◌==◌, if◌then◌else◌,
}
use device_ops.Str.{Str, lit, str_eq}

pub data EventSeverity : Type 0 where
  unspecified info warning critical : EventSeverity
  unrecognized : ℕ → EventSeverity

unfoldable pub severity_eq : EventSeverity → EventSeverity → Bool
severity_eq unspecified unspecified = true
severity_eq info info = true
severity_eq warning warning = true
severity_eq critical critical = true
severity_eq (unrecognized m) (unrecognized n) = m == n
severity_eq s t = false

unfoldable pub severity_from_string : Str → EventSeverity
severity_from_string s =
    if str_eq s (lit "info")
    then info
    else if str_eq s (lit "warning")
    then warning
    else if str_eq s (lit "critical")
    then critical
    else unspecified

unfoldable pub severity_to_string : EventSeverity → Str
severity_to_string info = lit "info"
severity_to_string warning = lit "warning"
severity_to_string critical = lit "critical"
severity_to_string s = lit "unspecified"

-- What a severity reads as once it has been stored.
abbrev pub stored_severity : EventSeverity → EventSeverity
stored_severity (unrecognized n) = unspecified
stored_severity s = s

pub severity_from_string-to_string :
    (s : EventSeverity) → severity_from_string (severity_to_string s) ≡ stored_severity s
unfolding severity_from_string severity_to_string str_eq
severity_from_string-to_string unspecified = refl
severity_from_string-to_string info = refl
severity_from_string-to_string warning = refl
severity_from_string-to_string critical = refl
severity_from_string-to_string (unrecognized n) = refl

pub record EventEntity : Type 0 where
  pub id : ℕ
  pub event_id : Str
  pub device_id : Str
  pub event_type : Str
  pub severity : Str
  pub status : Str
  pub error_code : Option Str
  pub title : Str
  pub description : Option Str
  pub metric_snapshot_json : Option Str
  pub rule_name : Option Str
  pub occurred_at : ℤ
  pub resolved_at : Option ℤ
  pub created_at : ℤ
  pub updated_at : ℤ

abbrev pub nullable_string : Option Str → Str
nullable_string (some s) = s
nullable_string none = []

abbrev pub nullable_int64 : Option ℤ → ℤ
nullable_int64 (some n) = n
nullable_int64 none = pos 0

pub record CreateEventRequest : Type 0 where
  pub trace_id : Str
  pub device_id : Str
  pub event_type : Str
  pub severity : EventSeverity
  pub error_code : Str
  pub title : Str
  pub description : Str
  pub metric_snapshot_json : Str
  pub rule_name : Str
  pub occurred_at : ℤ
