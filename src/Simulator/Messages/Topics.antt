-- ===== src/Simulator/Messages/Topics.antt =====
-- The simulator's topics as the gateway reads them.
use device_ops.Prelude.{◌≡◌, refl, ap, ◌==◌, Bool, true, not, ◌&&◌, All, List, [], ◌∷◌, arith}
use device_ops.Str.{Str, lit, str_eq}
use device_ops.Gateway.Topic.{
  split_topic, message_type_from_topic, type_of_parts, NoSlash, split_topic-join,
}
use device_ops.Simulator.{SimulatorConfig}
use device_ops.Simulator.Messages.{topic}

-- The message types that the simulator publishes.
abbrev pub message_types : List Str
message_types = lit "register" ∷ lit "telemetry" ∷ lit "heartbeat" ∷ lit "alarm" ∷ lit "log" ∷ []

plain_text : Str → Bool
plain_text [] = true
plain_text (c ∷ s) = not (c == b'/') && plain_text s

plain_text-NoSlash : (s : Str) → plain_text s ≡ true → NoSlash s
unfolding plain_text
plain_text-NoSlash [] h = tt
plain_text-NoSlash (c ∷ s) h = (ground arith, plain_text-NoSlash s (ground arith))

split_topic-topic :
    (config : SimulatorConfig) (message_type : Str)
    → NoSlash config.device_id
    → NoSlash message_type
    → split_topic (topic config message_type) ≡ lit "device" ∷ config.device_id ∷ message_type ∷ []
unfolding topic
split_topic-topic config message_type plain plain_type =
    split_topic-join (lit "device") (config.device_id ∷ message_type ∷ [])
      (plain_text-NoSlash (lit "device") (unfold plain_text in refl)) (plain, (plain_type, tt))

message_type_from_topic-topic :
    (config : SimulatorConfig) (message_type : Str)
    → NoSlash config.device_id
    → NoSlash message_type
    → message_type_from_topic (topic config message_type) ≡ message_type
unfolding message_type_from_topic type_of_parts str_eq
message_type_from_topic-topic config message_type plain plain_type =
    ap type_of_parts (split_topic-topic config message_type plain plain_type)

-- If the device id has no slash, the gateway reads the parts of each topic that the simulator
-- publishes to as "device", that id and the message type, and so takes it for a message of that type.
pub topic-IsRead :
    (config : SimulatorConfig)
    → NoSlash config.device_id
    → All
        (λ message_type.
          (split_topic (topic config message_type)
            ≡ lit "device" ∷ config.device_id ∷ message_type ∷ [])
          × (message_type_from_topic (topic config message_type) ≡ message_type))
        message_types
unfolding plain_text
topic-IsRead config plain = (
  read (lit "register") refl,
  (
    read (lit "telemetry") refl,
    (read (lit "heartbeat") refl, (read (lit "alarm") refl, (read (lit "log") refl, tt))),
  ),
)
  where
    read :
        (message_type : Str)
        → plain_text message_type ≡ true
        → (split_topic (topic config message_type)
            ≡ lit "device" ∷ config.device_id ∷ message_type ∷ [])
          × (message_type_from_topic (topic config message_type) ≡ message_type)
    read message_type p =
        let plain_type = plain_text-NoSlash message_type p in
        (
          split_topic-topic config message_type plain plain_type,
          message_type_from_topic-topic config message_type plain plain_type,
        )
