-- ===== src/Gateway/Accounting.antt =====
-- The gateway's forwarding counters: every message that is received is forwarded, dropped or failed,
-- unless an exception leaves the handler.
use device_ops.Prelude.{
  ◌+◌, ◌%◌, ◌^◌, ℤ, ◌≡◌, refl, ap, ◌∙◌, Bool, false, Option, none, some, List, [], ◌∷◌, inl, inr,
  if◌then◌else◌, arith,
}
use device_ops.Str.{Str, lit, str_eq, str_eq_iff}
use device_ops.StdMap.{lookup, index_or, index_or-assign}
use device_ops.Json.{Json, IsJson}
use device_ops.Odb.Transaction.{Outcome-cases, Outcome, returned, thrown, Reply, accepted, rejected}
use device_ops.Gateway.Topic.{split_topic, message_type_from_topic, type_of_parts}
use device_ops.Gateway.{
  GatewayServer, ForwardingCounter, zero_counter, Clock, MqttMessage, ParsedMqttMessage, Forward,
  mark, mark_received, mark_forwarded, mark_dropped, mark_failed, update_device_view, parse_payload,
  parse_parts, check_root, read_parsed, has_member, handle_mqtt_message, handle_parsed, settle,
}

-- The counter of a message type, zero for one that has not been seen.
unfoldable pub counter : Str → GatewayServer → ForwardingCounter
counter k g = index_or zero_counter k g.stats

counter-mark :
    (count : ForwardingCounter → ForwardingCounter) (t k : Str) (now : ℤ) (g : GatewayServer)
    → counter k (mark count t now g)
      ≡ (if str_eq t k then record (count (counter t g)) { updated_at = now } else counter k g)
unfolding mark counter
counter-mark count t k now g =
    index_or-assign zero_counter t k (record (count (counter t g)) { updated_at = now }) g.stats

abbrev pub IsBalanced : GatewayServer → Type 0
IsBalanced g =
    (k : Str)
    → (counter k g).received
      ≡ ((counter k g).forwarded + (counter k g).dropped + (counter k g).failed) % 2 ^ 64

-- One message of type `t` is counted as received and not yet as anything else.
abbrev Owes : Str → GatewayServer → Type 0
Owes t g =
    (k : Str)
    → (counter k g).received
      ≡ ((counter k g).forwarded
          + (counter k g).dropped
          + (counter k g).failed
          + (if str_eq t k then 1 else 0))
        % 2 ^ 64

mark_received-Owes :
    (t : Str) (now : ℤ) (g : GatewayServer) → IsBalanced g → Owes t (mark_received t now g)
unfolding mark_received
mark_received-Owes t now g b k = rw counter-mark (ground (arith, b k, str_eq_iff t k))

mark_forwarded-IsBalanced :
    (t : Str) (now : ℤ) (g : GatewayServer) → Owes t g → IsBalanced (mark_forwarded t now g)
unfolding mark_forwarded
mark_forwarded-IsBalanced t now g b k = rw counter-mark (ground (arith, b k, b t, str_eq_iff t k))

mark_dropped-IsBalanced :
    (t : Str) (now : ℤ) (g : GatewayServer) → Owes t g → IsBalanced (mark_dropped t now g)
unfolding mark_dropped
mark_dropped-IsBalanced t now g b k = rw counter-mark (ground (arith, b k, b t, str_eq_iff t k))

mark_failed-IsBalanced :
    (t : Str) (now : ℤ) (g : GatewayServer) → Owes t g → IsBalanced (mark_failed t now g)
unfolding mark_failed
mark_failed-IsBalanced t now g b k = rw counter-mark (ground (arith, b k, b t, str_eq_iff t k))

empty-IsBalanced : (g : GatewayServer) → g.stats ≡ [] → IsBalanced g
unfolding counter lookup
empty-IsBalanced g e k = rw e

module _ {V D : Type 0} (j : Json V D) where
  check_root-type :
      (id type : Str) (root : V) (parsed : ParsedMqttMessage V)
      → check_root j id type root ≡ returned (some parsed)
      → parsed.message_type ≡ type
  unfolding check_root read_parsed
  check_root-type id type root parsed h = ground arith

  parse_parts-type :
      (parts : List Str) (payload : Str) (parsed : ParsedMqttMessage V)
      → parse_parts j parts payload ≡ returned (some parsed)
      → parsed.message_type ≡ type_of_parts parts
  unfolding parse_parts type_of_parts
  parse_parts-type [] payload parsed h = cc
  parse_parts-type (a ∷ []) payload parsed h = cc
  parse_parts-type (a ∷ id ∷ []) payload parsed h = cc
  parse_parts-type (a ∷ id ∷ type ∷ []) payload parsed h = elim (Outcome-cases (j.parse payload)) [
    | inl (e, p) ↦ absurd (ground (arith, p))
    | inr (none, p) ↦ absurd (ground (arith, p))
    | inr (some root, p) ↦ ground (arith, p, check_root-type id type root parsed)
  ]
  parse_parts-type (a ∷ id ∷ type ∷ b ∷ rest) payload parsed h = cc

  -- A message that parses has the type that its topic names.
  parse_payload-type :
      (topic payload : Str) (parsed : ParsedMqttMessage V)
      → parse_payload j topic payload ≡ returned (some parsed)
      → parsed.message_type ≡ message_type_from_topic topic
  unfolding parse_payload message_type_from_topic
  parse_payload-type topic payload parsed h = parse_parts-type (split_topic topic) payload parsed h

module _ {V D F : Type 0} (j : Json V D) (forward : Forward V F) where
  settle-IsBalanced :
      (parsed : ParsedMqttMessage V) (now : ℤ) (g : GatewayServer)
      (outcome : Outcome (Reply (Unit {0})) × F)
      → Owes parsed.message_type g
      → (settle j forward parsed now g outcome).escaped ≡ none
      → IsBalanced (settle j forward parsed now g outcome).server
  unfolding settle
  settle-IsBalanced parsed now g (thrown e, f) b h = cc
  settle-IsBalanced parsed now g (returned (accepted u), f) b h =
      mark_forwarded-IsBalanced parsed.message_type now g b
  settle-IsBalanced parsed now g (returned (rejected e), f) b h =
      mark_failed-IsBalanced parsed.message_type now g b

  handle_parsed-IsBalanced :
      (t : Str) (clock : Clock) (g : GatewayServer) (f : F)
      (outcome : Outcome (Option (ParsedMqttMessage V)))
      → ((parsed : ParsedMqttMessage V)
          → outcome ≡ returned (some parsed)
          → parsed.message_type ≡ t)
      → Owes t g
      → (handle_parsed j forward t clock g f outcome).escaped ≡ none
      → IsBalanced (handle_parsed j forward t clock g f outcome).server
  unfolding handle_parsed
  handle_parsed-IsBalanced t clock g f (thrown e) same b h = cc
  handle_parsed-IsBalanced t clock g f (returned none) same b h =
      mark_dropped-IsBalanced t clock.done_at g b
  handle_parsed-IsBalanced t clock g f (returned (some parsed)) same b h =
      settle-IsBalanced parsed clock.done_at (update_device_view parsed clock.viewed_at g)
        (forward parsed f) (unfold update_device_view counter in rw (same parsed refl) b) h

  -- For every message type the received messages are, up to the wrap of the 64-bit counters, those
  -- forwarded, dropped and failed together; and a message that no exception takes out of the
  -- handler keeps that so, whatever its topic and payload and whatever the services answer.
  pub handle_mqtt_message-IsBalanced :
      (clock : Clock) (message : MqttMessage) (g : GatewayServer) (f : F)
      → IsBalanced g
      → (handle_mqtt_message j forward clock message g f).escaped ≡ none
      → IsBalanced (handle_mqtt_message j forward clock message g f).server
  unfolding handle_mqtt_message
  handle_mqtt_message-IsBalanced clock message g f b h =
      let t = message_type_from_topic message.topic in
      handle_parsed-IsBalanced t clock (mark_received t clock.received_at g) f
        (parse_payload j message.topic message.payload)
        (parse_payload-type j message.topic message.payload)
        (mark_received-Owes t clock.received_at g b) h

  -- What a gateway comes to from another by messages whose handling no exception cuts short.
  pub data Serves (g : GatewayServer) (f : F) : GatewayServer → F → Type 0 where
    idle : Serves g f g f
    next :
        {g' : GatewayServer} {f' : F} (clock : Clock) (message : MqttMessage)
        → Serves g f g' f'
        → (handle_mqtt_message j forward clock message g' f').escaped ≡ none
        → Serves g f
            (handle_mqtt_message j forward clock message g' f').server
            (handle_mqtt_message j forward clock message g' f').downstream

  Serves-IsBalanced :
      {g : GatewayServer} {f : F} {g' : GatewayServer} {f' : F}
      → Serves g f g' f'
      → IsBalanced g
      → IsBalanced g'
  Serves-IsBalanced idle b = b
  Serves-IsBalanced (next clock message s h) b =
      handle_mqtt_message-IsBalanced clock message _ _ (Serves-IsBalanced s b) h

  -- So it holds in every state that a gateway with no counters reaches by such messages.
  pub fresh-Serves-IsBalanced :
      {g : GatewayServer} {f : F} {g' : GatewayServer} {f' : F}
      → g.stats ≡ []
      → Serves g f g' f'
      → IsBalanced g'
  fresh-Serves-IsBalanced {g} fresh s = Serves-IsBalanced s (empty-IsBalanced g fresh)

  device_type : (id type : Str) → type_of_parts (lit "device" ∷ id ∷ type ∷ []) ≡ type
  unfolding type_of_parts str_eq
  device_type id type = refl

  parse_parts_throws :
      (id type payload : Str) (root : V) (e : Str)
      → j.parse payload ≡ returned (some root)
      → j.is_member root (lit "message_id") ≡ thrown e
      → parse_parts j (lit "device" ∷ id ∷ type ∷ []) payload ≡ thrown e
  unfolding parse_parts check_root has_member str_eq
  parse_parts_throws id type payload root e p h = ground arith

  thrown_after :
      (type : Str) (clock : Clock) (g : GatewayServer) (f : F) (t e : Str)
      (outcome : Outcome (Option (ParsedMqttMessage V)))
      → t ≡ type
      → outcome ≡ thrown e
      → let after =
          handle_parsed j forward t clock (mark_received t clock.received_at g) f outcome in
        ((e : Str) × (after.escaped ≡ some e))
        × (after.server ≡ mark_received type clock.received_at g)
        × (after.downstream ≡ f)
  unfolding handle_parsed
  thrown_after type clock g f t e outcome s h = rw (s, h) ((e, refl), refl, refl)

  -- On a topic of three parts, the first of them "device", a payload that is JSON but neither an object
  -- nor null throws in isMember, and the exception leaves the handler: the message stays counted as
  -- received and as nothing else.
  pub handle_mqtt_message_escapes :
      (is_null : V → Bool) (laws : IsJson j is_null) (clock : Clock) (id type : Str) (root : V)
      (message : MqttMessage) (g : GatewayServer) (f : F)
      → split_topic message.topic ≡ lit "device" ∷ id ∷ type ∷ []
      → j.parse message.payload ≡ returned (some root)
      → j.is_object root ≡ false
      → is_null root ≡ false
      → let after = handle_mqtt_message j forward clock message g f in
        ((e : Str) × (after.escaped ≡ some e))
        × (after.server ≡ mark_received type clock.received_at g)
        × (after.downstream ≡ f)
  unfolding handle_mqtt_message parse_payload message_type_from_topic
  handle_mqtt_message_escapes is_null laws clock id type root message g f t p o n =
      let (e, throws) = laws.is_member_throws root (lit "message_id") o n in
      thrown_after type clock g f (type_of_parts (split_topic message.topic)) e
        (parse_parts j (split_topic message.topic) message.payload)
        (ap type_of_parts t ∙ device_type id type)
        (ap (λ (parts : List Str). parse_parts j parts message.payload) t
          ∙ parse_parts_throws id type message.payload root e p throws)
