-- ===== src/Apns.antt =====
-- extensions/apns/apns_message_handler.go: the message handler of APNS, up to the push.
pub mod Messages
pub mod Metadata
pub mod Outcome
pub mod Reasons
pub mod Responses
pub mod Retry
pub mod Settles
use pusher.Base.{
  ℕ, suc, ◌+◌, Bool, true, false, ◌&&◌, List, [], ◌∷◌, ◌++◌, Option, none, some, Text, codes, ◌≟◌,
  ltb, if◌then◌else◌, not,
}
use pusher.Value.{
  Value, nil, str, obj, int64, Fields, end, field, value_at, get, put, is_nil, fields_of,
}
use pusher.Value.Decode.{
  ℤ, pos, negsuc, Decoded, FieldDecoder, same_key, to_text, to_int, to_map, unmarshal,
}
use pusher.Effects.{
  Effect, push, Report, stats, wait_group_done, Services, stats_reporter_duplicate_message_detected,
  stats_reporter_notification_rate_limit_reached, stats_reporter_handle_notification_sent,
  stats_reporter_report_send_notification_latency,
}

-- interfaces.KafkaMessage; the value is the document that the bytes are, if they are one.
pub record KafkaMessage : Type 0 where
  pub game : Text
  pub platform : Text
  pub topic : Text
  pub value : Option Value

-- pusherAPNSKafkaMessage
pub record PusherApnsKafkaMessage : Type 0 where
  pub apns_id : Text
  pub device_token : Text
  pub payload : Value
  pub metadata : Option Fields
  pub push_expiry : ℤ
  pub collapse_id : Text

-- structs.ApnsNotification, with the fields of apns2.Notification that the program sets.
pub record ApnsNotification : Type 0 where
  pub topic : Text
  pub device_token : Text
  pub payload : Text
  pub apns_id : Text
  pub collapse_id : Text
  pub metadata : Option Fields
  pub send_attempts : ℕ

-- APNSMessageHandler: what is set once. `pending_messages_wg` tells if the wait group is there.
pub record ApnsMessageHandler : Type 0 where
  pub app_name : Text
  pub apns_topic : Text
  pub stats_reporters : List ℕ
  pub feedback_reporters : List ℕ
  pub pending_messages_wg : Bool
  pub max_retry_attempts : ℕ

-- What a call reads from outside: the clock, the host, a fresh UUID, and `json.Marshal` where its
-- bytes are used as they are. `elapsed` is `time.Since(before)` where the deferred call is set up.
pub record Env : Type 0 where
  pub make_timestamp : ℕ
  pub now_unix : ℕ
  pub hostname : Option Text
  pub new_uuid : Text
  pub elapsed : ℕ
  pub marshal : Value → Option Text

abbrev pub zero_message : PusherApnsKafkaMessage
zero_message = record {
  apns_id = [];
  device_token = [];
  payload = nil;
  metadata = none;
  push_expiry = pos 0;
  collapse_id = [];
}

-- The fields of the struct by their JSON names.
unfoldable pub message_field : FieldDecoder PusherApnsKafkaMessage
message_field k v n =
    if same_key k (codes "ApnsID")
    then (let (t, good) = to_text n.apns_id v in (record n { apns_id = t }, good))
    else if same_key k (codes "DeviceToken")
    then (let (t, good) = to_text n.device_token v in (record n { device_token = t }, good))
    else if same_key k (codes "Payload")
    then (record n { payload = v }, true)
    else if same_key k (codes "metadata")
    then (let (m, good) = to_map n.metadata v in (record n { metadata = m }, good))
    else if same_key k (codes "push_expiry")
    then (let (i, good) = to_int n.push_expiry v in (record n { push_expiry = i }, good))
    else if same_key k (codes "collapse_id")
    then (let (t, good) = to_text n.collapse_id v in (record n { collapse_id = t }, good))
    else (n, true)

-- `for k, v := range metadata { if m[k] == nil { m[k] = v } }`
unfoldable pub fill_missing : Fields → Fields → Fields
fill_missing m end = m
fill_missing m (field k v rest) = fill_missing (if is_nil (value_at k m) then put k v m else m) rest

-- `m, ok := p["M"].(map[string]interface{})`, and the loop where it is one.
abbrev pub add_to_m : Fields → Fields → Option Fields → Fields
add_to_m p metadata none = p
add_to_m p metadata (some m) = put (codes "M") (obj (fill_missing m metadata)) p

unfoldable pub with_m : Fields → Fields
with_m p = if is_nil (value_at (codes "M") p) then put (codes "M") (obj end) p else p

-- addMetadataToPayload, on the payload and metadata that are there.
abbrev pub add_to_payload : Fields → Value → Value
add_to_payload metadata nil =
    let p = with_m end in obj (add_to_m p metadata (fields_of (value_at (codes "M") p)))
add_to_payload metadata (obj payload) =
    let p = with_m payload in obj (add_to_m p metadata (fields_of (value_at (codes "M") p)))
add_to_payload metadata other = other

abbrev pub payload_with : Option Fields → Value → Value
payload_with none payload = payload
payload_with (some metadata) payload = add_to_payload metadata payload

unfoldable pub add_metadata_to_payload : PusherApnsKafkaMessage → PusherApnsKafkaMessage
unfolding with_m
add_metadata_to_payload n = record n { payload = payload_with n.metadata n.payload }

abbrev or_empty : Option Fields → Fields
or_empty none = end
or_empty (some m) = m

abbrev put_hostname : Option Text → Fields → Fields
put_hostname none m = m
put_hostname (some h) m = put (codes "hostname") (str h) m

-- What the handler notes in the metadata of a message, for the feedback.
unfoldable pub tracked : ApnsMessageHandler → Env → PusherApnsKafkaMessage → Fields
tracked a env n =
    let m = put (codes "game") (str a.app_name) (or_empty n.metadata) in
    let m' = put (codes "deviceToken") (str n.device_token) m in
    put (codes "timestamp") (int64 env.now_unix) (put_hostname env.hostname m')

abbrev pub keep_if {ℓ} : {A : Type ℓ} → Bool → A → Option A
keep_if true a = some a
keep_if false a = none

unfoldable pub parse_kafka_message :
    ApnsMessageHandler → Env → KafkaMessage → Option PusherApnsKafkaMessage
unfolding message_field
parse_kafka_message a env message =
    let (decoded, good) = unmarshal message_field zero_message message.value in
    let n = add_metadata_to_payload decoded in
    keep_if good (record n { metadata = some (tracked a env n); apns_id = env.new_uuid })

abbrev pub aps_content : Env → Option Value → Option Text
aps_content env none = none
aps_content env (some aps) = env.marshal aps

abbrev pub payload_content : Env → Value → Option Text
payload_content env (obj payload) = aps_content env (get (codes "aps") payload)
payload_content env (str payload) = some payload
payload_content env _ = none

-- `none` is each of the error returns.
unfoldable pub create_dedup_content_from_payload : Env → PusherApnsKafkaMessage → Option Text
create_dedup_content_from_payload env n = payload_content env n.payload

-- `PushExpiry > 0 && PushExpiry < MakeTimestamp()`
unfoldable pub is_expired : ℤ → ℕ → Bool
is_expired (pos n) now = ltb 0 n && ltb n now
is_expired (negsuc n) now = false

abbrev pub notification_of :
    ApnsMessageHandler → PusherApnsKafkaMessage → Option Text → Option ApnsNotification
notification_of a n none = none
notification_of a n (some payload) = some (record {
  topic = a.apns_topic;
  device_token = n.device_token;
  payload = payload;
  apns_id = n.apns_id;
  collapse_id = n.collapse_id;
  metadata = n.metadata;
  send_attempts = 0;
})

unfoldable pub build_and_validate_notification :
    ApnsMessageHandler → Env → PusherApnsKafkaMessage → Option ApnsNotification
unfolding is_expired
build_and_validate_notification a env n =
    if is_expired n.push_expiry env.make_timestamp
    then none
    else notification_of a n (env.marshal n.payload)

-- The latency is reported last, by the deferred call.
unfoldable pub send_notification :
    ApnsMessageHandler → ℕ → ApnsNotification → List (Effect ApnsNotification)
send_notification a elapsed n =
    push (record n { send_attempts = n.send_attempts + 1 })
    ∷ stats (
        stats_reporter_report_send_notification_latency a.stats_reporters elapsed a.app_name
          (codes "apns") (codes "client" ∷ codes "apns" ∷ []))
