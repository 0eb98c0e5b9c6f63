-- ===== src/Event/Status.antt =====
-- EventStatus: the enum of proto/common.proto and the texts that the table keeps for it
-- (services/event_service/src/event_repository.cc).
use device_ops.Prelude.{ℕ, ◌≡◌, refl, Bool, true, false, ◌==◌, if◌then◌else◌}
use device_ops.Str.{Str, lit, str_eq}

pub data EventStatus : Type 0 where
  unspecified opened processing resolved closed : EventStatus
  unrecognized : ℕ → EventStatus

unfoldable pub status_eq : EventStatus → EventStatus → Bool
status_eq unspecified unspecified = true
status_eq opened opened = true
status_eq processing processing = true
status_eq resolved resolved = true
status_eq closed closed = true
status_eq (unrecognized m) (unrecognized n) = m == n
status_eq s t = false

unfoldable pub status_from_string : Str → EventStatus
status_from_string s =
    if str_eq s (lit "open")
    then opened
    else if str_eq s (lit "processing")
    then processing
    else if str_eq s (lit "resolved")
    then resolved
    else if str_eq s (lit "closed")
    then closed
    else unspecified

unfoldable pub status_to_string : EventStatus → Str
status_to_string opened = lit "open"
status_to_string processing = lit "processing"
status_to_string resolved = lit "resolved"
status_to_string closed = lit "closed"
status_to_string s = lit "unspecified"

-- What a status reads as once it has been stored: itself, but for a number that the enum does not
-- name, which is lost.
abbrev pub stored : EventStatus → EventStatus
stored (unrecognized n) = unspecified
stored s = s

pub status_from_string-to_string :
    (s : EventStatus) → status_from_string (status_to_string s) ≡ stored s
unfolding status_from_string status_to_string str_eq
status_from_string-to_string unspecified = refl
status_from_string-to_string opened = refl
status_from_string-to_string processing = refl
status_from_string-to_string resolved = refl
status_from_string-to_string closed = refl
status_from_string-to_string (unrecognized n) = refl
