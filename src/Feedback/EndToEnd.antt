-- ===== src/Feedback/EndToEnd.antt =====
-- A token's way from an answer of APNS to the database: handleAPNSResponse, the Kafka topic of the
-- feedback, and the broker of the feedback listener.
use pusher.Base.{
  ◌⊎◌, ◌≟◌, inl, Text, codes, true, false, List, [], ◌∷◌, Option, none, some, ◌≡◌, inr, refl, sym,
  ◌∙◌, ◌&&◌, Option-cases, if◌then◌else◌, Bool-cases, map_option-some,
}
use mathlib.Core.List.{append-nil}
use pusher.Value.{Value, Fields, end, field}
use pusher.Topic.Parse.{IsPlatform, parse-feedback_topic, is_game}
use pusher.Apns.Reasons.{
  Reason, deletes_token, no_reason, payload_empty, payload_too_large, missing_device_token,
  bad_device_token, too_many_requests, bad_message_id, bad_expiration_date, bad_priority, bad_topic,
  bad_certificate, bad_certificate_environment, forbidden, missing_topic, topic_disallowed,
  unregistered, device_token_not_for_topic, duplicate_headers, bad_path, method_not_allowed,
  idle_timeout, shutdown, internal_server_error, service_unavailable, expired_provider_token,
  invalid_provider_token, missing_provider_token, other,
}
use pusher.Apns.Responses.{
  ResponseWithMetadata, Apns2, encode_response, failed_response, take_metadata, mark_token,
  metadata_field, response_fields,
}
use pusher.Value.Decode.{decode_fields, unmarshal, to_text, lower}
use pusher.Feedback.{
  is_invalid_token, gcm_platform, route_gcm_message, ApnsFeedback, QueueMessage, InvalidToken,
  Libraries, Broker, decode_apns_feedback, apns_feedback_field, route_apns_message, process_message,
  process_messages, apns_platform,
}
use pusher.Consumer.{KafkaConsumer, received, receive_message, queue_message, send_feedback}

-- What the broker reads of a response's fields behind its device token.
unread :
    (m : Option Fields) (n : Value) (f : ApnsFeedback)
    → (decode_fields apns_feedback_field
        (metadata_field m (field (codes "Notification") n end))
        (f, true)).0
      ≡ f
unfolding decode_fields apns_feedback_field lower
unread none n f = refl
unread (some end) n f = refl
unread (some (field k v m)) n f = refl

-- The fields that the broker reads are those of the response, whatever its metadata.
decode-response_fields :
    (apns2 : Apns2) (r : ResponseWithMetadata) (v : Value)
    → decode_apns_feedback (some (response_fields apns2 r v))
      ≡ record { reason = apns2.reason_text r.reason; device_token = r.device_token }
unfolding decode_apns_feedback unmarshal decode_fields apns_feedback_field lower to_text
decode-response_fields apns2 r v = unread r.metadata v _

failed_response-same :
    (apns2 : Apns2) (r : ResponseWithMetadata)
    → ((failed_response apns2 r).reason ≡ r.reason)
      × ((failed_response apns2 r).device_token ≡ r.device_token)
unfolding failed_response take_metadata mark_token
failed_response-same apns2 r = elim (Bool-cases (deletes_token r.reason)) [
  | inl e ↦ rw e (elim (Option-cases r.notification.metadata) [
    | inl m ↦ rw m (refl, refl)
    | inr (fields, m) ↦ rw m (refl, refl)
  ])
  | inr e ↦ rw e (refl, refl)
]

-- The broker takes a token for the same reasons as the handler of APNS marks it for.
is_invalid_token-deletes_token : (r : Reason) → is_invalid_token r ≡ deletes_token r
is_invalid_token-deletes_token no_reason = refl
is_invalid_token-deletes_token payload_empty = refl
is_invalid_token-deletes_token payload_too_large = refl
is_invalid_token-deletes_token missing_device_token = refl
is_invalid_token-deletes_token bad_device_token = refl
is_invalid_token-deletes_token too_many_requests = refl
is_invalid_token-deletes_token bad_message_id = refl
is_invalid_token-deletes_token bad_expiration_date = refl
is_invalid_token-deletes_token bad_priority = refl
is_invalid_token-deletes_token bad_topic = refl
is_invalid_token-deletes_token bad_certificate = refl
is_invalid_token-deletes_token bad_certificate_environment = refl
is_invalid_token-deletes_token forbidden = refl
is_invalid_token-deletes_token missing_topic = refl
is_invalid_token-deletes_token topic_disallowed = refl
is_invalid_token-deletes_token unregistered = refl
is_invalid_token-deletes_token device_token_not_for_topic = refl
is_invalid_token-deletes_token duplicate_headers = refl
is_invalid_token-deletes_token bad_path = refl
is_invalid_token-deletes_token method_not_allowed = refl
is_invalid_token-deletes_token idle_timeout = refl
is_invalid_token-deletes_token shutdown = refl
is_invalid_token-deletes_token internal_server_error = refl
is_invalid_token-deletes_token service_unavailable = refl
is_invalid_token-deletes_token expired_provider_token = refl
is_invalid_token-deletes_token invalid_provider_token = refl
is_invalid_token-deletes_token missing_provider_token = refl
is_invalid_token-deletes_token (other t) = refl

-- The consumer of the feedback listener, before its first message.
abbrev pub fresh_consumer : KafkaConsumer QueueMessage
fresh_consumer = record { pending = some 0; msg_chan = [] }

module _ (apns2 : Apns2) (lib : Libraries) (b : Broker) where
  -- The tokens that the broker puts out for a failed response.
  abbrev pub tokens_of : Text → ResponseWithMetadata → List InvalidToken
  tokens_of game r =
      if deletes_token r.reason && b.invalid_token_enabled
      then record { token = r.device_token; game = game; platform = apns_platform } ∷ []
      else []

  process_response :
      (game : Text) (r : ResponseWithMetadata) {v : Value}
      → lib.reason_of (apns2.reason_text r.reason) ≡ r.reason
      → encode_response apns2 (failed_response apns2 r) ≡ some v
      → (process_message lib b (record { game = game; platform = apns_platform; value = some v })).0
        ≡ tokens_of game r
  unfolding process_message route_apns_message encode_response
  process_response game r back e =
      let r' = failed_response apns2 r in
      let (same_reason, same_token) = failed_response-same apns2 r in
      let (n, _, whole) =
        map_option-some (response_fields apns2 r') (apns2.encode_notification r'.notification) e in
      rw (
        sym whole,
        decode-response_fields apns2 r' n,
        same_reason,
        same_token,
        back,
        is_invalid_token-deletes_token r.reason,
      )

  -- Where the reasons' texts are read back as the reasons they come from, the game has a name
  -- that the topic expression matches, and the response can be encoded: the feedback of a
  -- failed push is produced to a topic that the feedback listener's consumer, at its first
  -- message, puts on its channel, and of this the broker puts out the response's device token
  -- for the game and APNS, exactly if the reason is one of those for which the handler marks the
  -- token to be deleted, and the broker takes invalid tokens.
  pub failed_push_reaches_broker :
      (game : Text) (r : ResponseWithMetadata) {v : Value}
      → lib.reason_of (apns2.reason_text r.reason) ≡ r.reason
      → is_game false game ≡ true
      → encode_response apns2 (failed_response apns2 r) ≡ some v
      → let (topic, value) = send_feedback game apns_platform v in
        (q : KafkaConsumer QueueMessage) × (receive_message queue_message topic value fresh_consumer
          ≡ received q)
        × ((process_messages lib b q.msg_chan).0 ≡ tokens_of game r)
  unfolding send_feedback receive_message process_messages
  failed_push_reaches_broker game r {v} back named e = (
    record {
      pending = some 1;
      msg_chan = record { game = game; platform = apns_platform; value = some v } ∷ [];
    },
    rw (parse-feedback_topic game apns_platform named (inr (inl refl))) refl,
    append-nil _ ∙ process_response game r back e,
  )

-- What the broker makes of the feedback of a Firebase message: it has no case for `ios`.
abbrev pub firebase_tokens : Libraries → Broker → Text → Text → Value → List InvalidToken
firebase_tokens lib b game platform v =
    if platform ≟ gcm_platform
    then route_gcm_message b (lib.decode_ccs_message (some v)) game
    else []

firebase_message :
    (lib : Libraries) (b : Broker) (game platform : Text) (v : Value)
    → (platform ≡ gcm_platform) ⊎ (platform ≡ codes "ios")
    → (process_message lib b (record { game = game; platform = platform; value = some v })).0
      ≡ firebase_tokens lib b game platform v
unfolding process_message
firebase_message lib b game platform v (inl e) = rw e refl
firebase_message lib b game platform v (inr e) = rw e refl

-- Feedback of the Firebase handler, for a game with a name that the topic expression matches: it is
-- produced to a topic that the feedback listener's consumer, at its first message, puts on its
-- channel. For the platform `gcm` the broker routes what it decodes of it; for `ios` it puts out no
-- token, whatever the feedback says.
pub firebase_feedback_lem :
    (lib : Libraries) (b : Broker) (game platform : Text) (v : Value)
    → is_game false game ≡ true
    → (platform ≡ gcm_platform) ⊎ (platform ≡ codes "ios")
    → let (topic, value) = send_feedback game platform v in
      (q : KafkaConsumer QueueMessage) × (receive_message queue_message topic value fresh_consumer
        ≡ received q)
      × ((process_messages lib b q.msg_chan).0 ≡ firebase_tokens lib b game platform v)
unfolding send_feedback receive_message process_messages
firebase_feedback_lem lib b game platform v named known = (
  record {
    pending = some 1;
    msg_chan = record { game = game; platform = platform; value = some v } ∷ [];
  },
  rw (parse-feedback_topic game platform named (of_firebase known)) refl,
  append-nil _ ∙ firebase_message lib b game platform v known,
)
  where
    of_firebase : (platform ≡ gcm_platform) ⊎ (platform ≡ codes "ios") → IsPlatform platform
    of_firebase (inl e) = inl e
    of_firebase (inr e) = inr (inr e)
