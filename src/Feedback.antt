-- ===== src/Feedback.antt =====
-- The feedback listener: feedback/queue.go, feedback/constants.go, feedback/broker.go.
pub mod Tokens
pub mod Routing
pub mod Groups
pub mod Query
pub mod Buffer
pub mod EndToEnd
use pusher.Base.{
  ℕ, suc, ◌++◌, Bool, true, false, ◌&&◌, ◌||◌, List, [], ◌∷◌, Option, none, some, Text, codes, ◌≟◌,
  if◌then◌else◌,
}
use pusher.Value.{Value}
use pusher.Value.Decode.{FieldDecoder, Decoded, same_key, to_text, unmarshal}
use pusher.Apns.Reasons.{
  Reason, bad_device_token, unregistered, topic_disallowed, device_token_not_for_topic,
}

abbrev pub apns_platform : Text
apns_platform = codes "apns"

abbrev pub gcm_platform : Text
gcm_platform = codes "gcm"

-- KafkaMessage of feedback/queue.go, a QueueMessage.
pub record QueueMessage : Type 0 where
  pub game : Text
  pub platform : Text
  pub value : Option Value

pub record InvalidToken : Type 0 where
  pub token : Text
  pub game : Text
  pub platform : Text

-- What routeAPNSMessage reads of a decoded response.
pub record ApnsFeedback : Type 0 where
  pub reason : Text
  pub device_token : Text

-- What routeGCMMessage reads of a decoded gcm.CCSMessage.
pub record GcmFeedback : Type 0 where
  pub from : Text
  pub error : Text

-- The strings of apns2's reasons, read back, and the decoding of go-gcm's CCSMessage.
pub record Libraries : Type 0 where
  pub reason_of : Text → Reason
  pub decode_ccs_message : Option Value → GcmFeedback

-- The Broker's configuration; `pending_messages_wg` tells if the wait group is there.
pub record Broker : Type 0 where
  pub invalid_token_enabled : Bool
  pub pending_messages_wg : Bool

-- The two fields of structs.ResponseWithMetadata that are read. A value of the wrong type in any
-- field is only logged, and leaves that field as it was.
unfoldable pub apns_feedback_field : FieldDecoder ApnsFeedback
apns_feedback_field k v r =
    if same_key k (codes "Reason")
    then (let (t, good) = to_text r.reason v in (record r { reason = t }, good))
    else if same_key k (codes "DeviceToken")
    then (let (t, good) = to_text r.device_token v in (record r { device_token = t }, good))
    else (r, true)

abbrev pub no_feedback : ApnsFeedback
no_feedback = record { reason = []; device_token = [] }

unfoldable pub decode_apns_feedback : Option Value → ApnsFeedback
unfolding apns_feedback_field
decode_apns_feedback value = (unmarshal apns_feedback_field no_feedback value).0

-- The `case` of routeAPNSMessage.
abbrev pub is_invalid_token : Reason → Bool
is_invalid_token bad_device_token = true
is_invalid_token unregistered = true
is_invalid_token topic_disallowed = true
is_invalid_token device_token_not_for_topic = true
is_invalid_token _ = false

-- routeAPNSMessage: what it puts on the channel of invalid tokens.
unfoldable pub route_apns_message : Libraries → Broker → ApnsFeedback → Text → List InvalidToken
route_apns_message lib b msg game =
    if is_invalid_token (lib.reason_of msg.reason) && b.invalid_token_enabled
    then record { token = msg.device_token; game = game; platform = apns_platform } ∷ []
    else []

unfoldable pub route_gcm_message : Broker → GcmFeedback → Text → List InvalidToken
route_gcm_message b msg game =
    if (msg.error ≟ codes "DEVICE_UNREGISTERED" || msg.error ≟ codes "BAD_REGISTRATION")
      && b.invalid_token_enabled
    then record { token = msg.from; game = game; platform = gcm_platform } ∷ []
    else []

-- One message of processMessages: the tokens it puts out, and whether the wait group is told.
unfoldable pub process_message : Libraries → Broker → QueueMessage → List InvalidToken × Bool
process_message lib b msg = (
  (if msg.platform ≟ apns_platform
      then route_apns_message lib b (decode_apns_feedback msg.value) msg.game
      else if msg.platform ≟ gcm_platform
      then route_gcm_message b (lib.decode_ccs_message msg.value) msg.game
      else []),
  b.pending_messages_wg,
)

-- The messages of the channel in turn: the tokens put out, and how often the wait group is told.
unfoldable pub process_messages : Libraries → Broker → List QueueMessage → List InvalidToken × ℕ
process_messages lib b [] = ([], 0)
process_messages lib b (msg ∷ rest) =
    let (tokens, confirmed) = process_message lib b msg in
    let (more, n) = process_messages lib b rest in (tokens ++ more, if confirmed then suc n else n)
