-- ===== src/Apns/Reasons.antt =====
-- extensions/apns/apns_message_handler.go: the reasons that APNS gives, and their keys.
use pusher.Base.{Bool, true, false, Text, codes, ◌≡◌, refl, [], ◌∷◌, switch}

-- `Reason` of an apns2 response. A constructor stands for the string constant of apns2 that it is
-- named after, `no_reason` for the empty string of a success, `other` for any other string.
pub data Reason : Type 0 where
  no_reason : Reason
  payload_empty payload_too_large missing_device_token bad_device_token too_many_requests : Reason
  bad_message_id bad_expiration_date bad_priority bad_topic bad_certificate : Reason
  bad_certificate_environment forbidden missing_topic topic_disallowed unregistered : Reason
  device_token_not_for_topic duplicate_headers bad_path method_not_allowed idle_timeout : Reason
  shutdown internal_server_error service_unavailable expired_provider_token : Reason
  invalid_provider_token missing_provider_token : Reason
  other : Text → Reason

unfoldable pub map_error_reason : Reason → Text
map_error_reason payload_empty = codes "payload-empty"
map_error_reason payload_too_large = codes "payload-too-large"
map_error_reason missing_device_token = codes "missing-device-token"
map_error_reason bad_device_token = codes "bad-device-token"
map_error_reason too_many_requests = codes "too-many-requests"
map_error_reason bad_message_id = codes "bad-message-id"
map_error_reason bad_expiration_date = codes "bad-expiration-date"
map_error_reason bad_priority = codes "bad-priority"
map_error_reason bad_topic = codes "bad-topic"
map_error_reason bad_certificate = codes "bad-certificate"
map_error_reason bad_certificate_environment = codes "bad-certificate-environment"
map_error_reason forbidden = codes "forbidden"
map_error_reason missing_topic = codes "missing-topic"
map_error_reason topic_disallowed = codes "topic-disallowed"
map_error_reason unregistered = codes "unregistered"
map_error_reason device_token_not_for_topic = codes "device-token-not-for-topic"
map_error_reason duplicate_headers = codes "duplicate-headers"
map_error_reason bad_path = codes "bad-path"
map_error_reason method_not_allowed = codes "method-not-allowed"
map_error_reason idle_timeout = codes "idle-timeout"
map_error_reason shutdown = codes "shutdown"
map_error_reason internal_server_error = codes "internal-server-error"
map_error_reason service_unavailable = codes "service-unavailable"
map_error_reason expired_provider_token = codes "expired-provider-token"
map_error_reason invalid_provider_token = codes "invalid-provider-token"
map_error_reason missing_provider_token = codes "missing-provider-token"
map_error_reason _ = codes "unexpected"

-- The reasons for which a token is to be deleted: the `case` of handleAPNSResponse.
abbrev pub deletes_token : Reason → Bool
deletes_token bad_device_token = true
deletes_token unregistered = true
deletes_token topic_disallowed = true
deletes_token device_token_not_for_topic = true
deletes_token _ = false

abbrev pub is_too_many_requests : Reason → Bool
is_too_many_requests too_many_requests = true
is_too_many_requests _ = false

abbrev pub is_success : Reason → Bool
is_success no_reason = true
is_success _ = false

-- A reason that the switch has a case for.
abbrev pub is_known : Reason → Bool
is_known no_reason = false
is_known (other t) = false
is_known _ = true

-- The keys again, read the other way.
abbrev pub key_reason : Text → Reason
key_reason t =
    switch t
      ((codes "payload-empty", payload_empty)
        ∷ (codes "payload-too-large", payload_too_large)
        ∷ (codes "missing-device-token", missing_device_token)
        ∷ (codes "bad-device-token", bad_device_token)
        ∷ (codes "too-many-requests", too_many_requests)
        ∷ (codes "bad-message-id", bad_message_id)
        ∷ (codes "bad-expiration-date", bad_expiration_date)
        ∷ (codes "bad-priority", bad_priority)
        ∷ (codes "bad-topic", bad_topic)
        ∷ (codes "bad-certificate", bad_certificate)
        ∷ (codes "bad-certificate-environment", bad_certificate_environment)
        ∷ (codes "forbidden", forbidden)
        ∷ (codes "missing-topic", missing_topic)
        ∷ (codes "topic-disallowed", topic_disallowed)
        ∷ (codes "unregistered", unregistered)
        ∷ (codes "device-token-not-for-topic", device_token_not_for_topic)
        ∷ (codes "duplicate-headers", duplicate_headers)
        ∷ (codes "bad-path", bad_path)
        ∷ (codes "method-not-allowed", method_not_allowed)
        ∷ (codes "idle-timeout", idle_timeout)
        ∷ (codes "shutdown", shutdown)
        ∷ (codes "internal-server-error", internal_server_error)
        ∷ (codes "service-unavailable", service_unavailable)
        ∷ (codes "expired-provider-token", expired_provider_token)
        ∷ (codes "invalid-provider-token", invalid_provider_token)
        ∷ (codes "missing-provider-token", missing_provider_token)
        ∷ [])
      no_reason

-- The key of a reason with a case of its own is read back as that reason, so no two of them share
-- a key.
key_reason-map_error_reason : (r : Reason) → is_known r ≡ true → key_reason (map_error_reason r) ≡ r
unfolding map_error_reason
key_reason-map_error_reason no_reason h = cc
key_reason-map_error_reason (other t) h = cc
key_reason-map_error_reason _ h = refl
