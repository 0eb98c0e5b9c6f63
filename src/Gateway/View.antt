-- ===== src/Gateway/View.antt =====
-- The view of connected devices: what one message changes in it, and what every state of it shows.
use device_ops.Prelude.{
  ℤ, ◌≡◌, sym, ap, ◌∙◌, Bool, Option, none, some, Option-cases, Bool-cases, inl, inr, is_positive,
  is_zero, if◌then◌else◌, arith,
}
use device_ops.Str.{Str, lit, is_empty, str_eq, str_eq_iff}
use device_ops.StdMap.{lookup, index_or, lookup-assign, IsSorted, assign-IsSorted}
use device_ops.Json.{Json}
use device_ops.Odb.Transaction.{Outcome, returned, thrown, Reply, accepted, rejected}
use device_ops.Gateway.{
  GatewayServer, ConnectedDeviceRecord, ForwardingCounter, zero_device, Clock, MqttMessage,
  ParsedMqttMessage, Forward, mark, mark_received, mark_forwarded, mark_dropped, mark_failed,
  seen_device, beat, update_device_view, handle_mqtt_message, handle_parsed, settle, parse_payload,
}

-- The record of the device after a message of its.
abbrev pub refreshed :
    {V : Type 0} → ParsedMqttMessage V → ℤ → GatewayServer → ConnectedDeviceRecord
refreshed parsed now g = beat (str_eq parsed.message_type (lit "heartbeat")) parsed.timestamp now (
    seen_device g.broker_uri parsed.device_id now (index_or zero_device parsed.device_id g.devices))

lookup-update_device_view :
    {V : Type 0} (parsed : ParsedMqttMessage V) (now : ℤ) (g : GatewayServer) (k : Str)
    → lookup k (update_device_view parsed now g).devices
      ≡ (if str_eq parsed.device_id k then some (refreshed parsed now g) else lookup k g.devices)
unfolding update_device_view
lookup-update_device_view parsed now g k =
    lookup-assign parsed.device_id k (refreshed parsed now g) g.devices

-- The entries stand in key order, each under its device's name, which is its client's too, and was
-- reached through the gateway's broker.
pub record IsView (g : GatewayServer) : Type 0 where
  pub sorted : IsSorted g.devices
  pub keyed :
      (k : Str) (r : ConnectedDeviceRecord)
      → lookup k g.devices ≡ some r
      → (r.device_id ≡ k) × (r.client_id ≡ k) × (r.remote_addr ≡ g.broker_uri)

known_seen :
    {V : Type 0} (parsed : ParsedMqttMessage V) (now : ℤ) (g : GatewayServer) (k : Str)
    (old : ConnectedDeviceRecord)
    → IsView g
    → lookup k g.devices ≡ some old
    → parsed.device_id ≡ k
    → seen_device g.broker_uri parsed.device_id now old
      ≡ record old { connected_at = if is_empty k then now else old.connected_at }
unfolding seen_device
known_seen parsed now g k old v h same =
    let (id, client, address) = v.keyed k old h in ground (arith, id, client, address, same)

-- In a view, a message leaves every device's name, client and address as they were. It sets the last
-- heartbeat of its own device to its timestamp if it is a heartbeat with a positive one, to now if it
-- is another heartbeat or none had been noted, and else leaves it; and it leaves the time at which the
-- device connected, but for a device whose name is empty, which connects anew with each of its
-- messages. Every other device keeps its record.
pub update_device_view_known :
    {V : Type 0} (parsed : ParsedMqttMessage V) (now : ℤ) (g : GatewayServer) (k : Str)
    (old : ConnectedDeviceRecord)
    → IsView g
    → lookup k g.devices ≡ some old
    → lookup k (update_device_view parsed now g).devices ≡ (
        if str_eq parsed.device_id k
        then some (record old {
          connected_at = if is_empty k then now else old.connected_at;
          last_heartbeat_at =
              if str_eq parsed.message_type (lit "heartbeat")
              then if is_positive parsed.timestamp then parsed.timestamp else now
              else if is_zero old.last_heartbeat_at
              then now
              else old.last_heartbeat_at;
        })
        else some old)
unfolding beat
update_device_view_known parsed now g k old v h = elim (Bool-cases (str_eq parsed.device_id k)) [
  | inl same ↦
      let is_k : parsed.device_id ≡ k = (str_eq_iff parsed.device_id k).0 same in
      lookup-update_device_view parsed now g k
      ∙ ground (arith, same, is_k, h, known_seen parsed now g k old v h is_k)
  | inr other ↦ lookup-update_device_view parsed now g k ∙ ground (arith, other, h)
]

refreshed-keyed :
    {V : Type 0} (parsed : ParsedMqttMessage V) (now : ℤ) (g : GatewayServer)
    → IsView g
    → let r = refreshed parsed now g in
      (r.device_id ≡ parsed.device_id)
      × (r.client_id ≡ parsed.device_id)
      × (r.remote_addr ≡ g.broker_uri)
unfolding seen_device beat
refreshed-keyed parsed now g v = elim (Option-cases (lookup parsed.device_id g.devices)) [
  | inl absent ↦ ground arith
  | inr (r, found) ↦ ground (arith, v.keyed parsed.device_id r found)
]

update_device_view-keyed :
    {V : Type 0} (parsed : ParsedMqttMessage V) (now : ℤ) (g : GatewayServer) (k : Str)
    (r : ConnectedDeviceRecord)
    → IsView g
    → lookup k (update_device_view parsed now g).devices ≡ some r
    → (r.device_id ≡ k) × (r.client_id ≡ k) × (r.remote_addr ≡ g.broker_uri)
update_device_view-keyed parsed now g k r v h = elim (Bool-cases (str_eq parsed.device_id k)) [
  | inl same ↦
      let (id, client, address) = refreshed-keyed parsed now g v in
      let is_k : parsed.device_id ≡ k = (str_eq_iff parsed.device_id k).0 same in
      let both : some (refreshed parsed now g) ≡ some r =
        sym
          (ap (λ (b : Bool). if b then some (refreshed parsed now g) else lookup k g.devices) same)
        ∙ sym (lookup-update_device_view parsed now g k)
        ∙ h in
      let is_r : refreshed parsed now g ≡ r = cc in rw (← is_r) (id ∙ is_k, client ∙ is_k, address)
  | inr other ↦ v.keyed k r (
      sym (ap (λ (b : Bool). if b then some (refreshed parsed now g) else lookup k g.devices) other)
      ∙ sym (lookup-update_device_view parsed now g k)
      ∙ h)
]

update_device_view-IsView :
    {V : Type 0} (parsed : ParsedMqttMessage V) (now : ℤ) (g : GatewayServer)
    → IsView g
    → IsView (update_device_view parsed now g)
update_device_view-IsView parsed now g v = record {
  sorted = unfold update_device_view in assign-IsSorted parsed.device_id _ g.devices v.sorted;
  keyed = λ k r h. unfold update_device_view in update_device_view-keyed parsed now g k r v h;
}

mark-IsView :
    (count : ForwardingCounter → ForwardingCounter) (t : Str) (now : ℤ) (g : GatewayServer)
    → IsView g
    → IsView (mark count t now g)
unfolding mark
mark-IsView count t now g v = record { sorted = v.sorted; keyed = v.keyed }

module _ {V D F : Type 0} (j : Json V D) (forward : Forward V F) where
  settle-IsView :
      (parsed : ParsedMqttMessage V) (now : ℤ) (g : GatewayServer)
      (outcome : Outcome (Reply (Unit {0})) × F)
      → IsView g
      → IsView (settle j forward parsed now g outcome).server
  unfolding settle mark_forwarded mark_failed
  settle-IsView parsed now g (thrown e, f) v = v
  settle-IsView parsed now g (returned (accepted u), f) v =
      mark-IsView _ parsed.message_type now g v
  settle-IsView parsed now g (returned (rejected e), f) v =
      mark-IsView _ parsed.message_type now g v

  handle_parsed-IsView :
      (t : Str) (clock : Clock) (g : GatewayServer) (f : F)
      (outcome : Outcome (Option (ParsedMqttMessage V)))
      → IsView g
      → IsView (handle_parsed j forward t clock g f outcome).server
  unfolding handle_parsed mark_dropped
  handle_parsed-IsView t clock g f (thrown e) v = v
  handle_parsed-IsView t clock g f (returned none) v = mark-IsView _ t clock.done_at g v
  handle_parsed-IsView t clock g f (returned (some parsed)) v =
      settle-IsView parsed clock.done_at (update_device_view parsed clock.viewed_at g)
        (forward parsed f) (update_device_view-IsView parsed clock.viewed_at g v)

  -- Every message, also one that is dropped, fails or throws, keeps the view so.
  pub handle_mqtt_message-IsView :
      (clock : Clock) (message : MqttMessage) (g : GatewayServer) (f : F)
      → IsView g
      → IsView (handle_mqtt_message j forward clock message g f).server
  unfolding handle_mqtt_message mark_received
  handle_mqtt_message-IsView clock message g f v =
      handle_parsed-IsView _ clock _ f (parse_payload j message.topic message.payload)
        (mark-IsView _ _ clock.received_at g v)
