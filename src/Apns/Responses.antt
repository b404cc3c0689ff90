-- ===== src/Apns/Responses.antt =====
-- The answers of APNS: structs/apns_response.go, handleAPNSResponse of
-- extensions/apns/apns_message_handler.go and the body of pushWorker of
-- extensions/apns/apns_push_queue.go.
use pusher.Base.{
  ℕ, Bool, true, ◌&&◌, List, ◌++◌, Option, none, some, Text, codes, ltb, if◌then◌else◌, map_option,
}
use pusher.Value.{Value, nil, bool, int64, str, obj, Fields, end, field, value_at, put, delete}
use pusher.Effects.{
  PushError, new_push_error, Effect, stats, wait_group_done, send_to_feedback_reporters,
  stats_reporter_handle_notification_success, stats_reporter_handle_notification_failure,
}
use pusher.Apns.{ApnsNotification, ApnsMessageHandler, send_notification}
use pusher.Apns.Messages.{apns}
use pusher.Apns.Reasons.{Reason, map_error_reason, deletes_token, is_too_many_requests, is_success}

pub record ResponseWithMetadata : Type 0 where
  pub sent : Bool
  pub status_code : ℕ
  pub reason : Reason
  pub apns_id : Text
  pub err : Option PushError
  pub device_token : Text
  pub timestamp : ℕ
  pub metadata : Option Fields
  pub notification : ApnsNotification

-- What pushWorker reads of an apns2.Response, `sent` being the result of `Sent()`.
pub record ApnsResponse : Type 0 where
  pub status_code : ℕ
  pub reason : Reason
  pub apns_id : Text
  pub sent : Bool

-- pushWorker, for one notification: no response, no message on the response channel.
unfoldable pub push_worker : Option ApnsResponse → ApnsNotification → Option ResponseWithMetadata
push_worker none n = none
push_worker (some r) n = some (record {
  sent = r.sent;
  status_code = r.status_code;
  reason = r.reason;
  apns_id = r.apns_id;
  err = none;
  device_token = n.device_token;
  timestamp = 0;
  metadata = none;
  notification = n;
})

-- What the JSON of a response takes from apns2: the text of a reason, and the notification's own
-- `MarshalJSON`, which may fail.
pub record Apns2 : Type 0 where
  pub reason_text : Reason → Text
  pub encode_notification : ApnsNotification → Option Value

abbrev pub encode_err : Option PushError → Value
encode_err none = nil
encode_err (some e) =
    obj (field (codes "Key") (str e.key) (field (codes "Description") (str e.description) end))

-- `json:"metadata,omitempty"`
abbrev pub metadata_field : Option Fields → Fields → Fields
metadata_field none rest = rest
metadata_field (some end) rest = rest
metadata_field (some m) rest = field (codes "metadata") (obj m) rest

abbrev pub response_fields : Apns2 → ResponseWithMetadata → Value → Value
response_fields lib r n = obj (
    field (codes "Sent") (bool r.sent) (
      field (codes "StatusCode") (int64 r.status_code) (
        field (codes "Reason") (str (lib.reason_text r.reason)) (
          field (codes "ApnsID") (str r.apns_id) (
            field (codes "Err") (encode_err r.err) (
              field (codes "DeviceToken") (str r.device_token) (
                field (codes "timestamp") (int64 r.timestamp)
                  (metadata_field r.metadata (field (codes "Notification") n end)))))))))

-- `json.Marshal` of a response.
unfoldable pub encode_response : Apns2 → ResponseWithMetadata → Option Value
encode_response lib r = map_option (response_fields lib r) (lib.encode_notification r.notification)

abbrev int64_or : ℕ → Value → ℕ
int64_or old (int64 t) = t
int64_or old _ = old

abbrev timestamp_of : ℕ → Option Fields → ℕ
timestamp_of old none = old
timestamp_of old (some m) = int64_or old (value_at (codes "timestamp") m)

abbrev delete_timestamp : Option Fields → Option Fields
delete_timestamp none = none
delete_timestamp (some m) = some (delete (codes "timestamp") m)

-- The response takes the metadata of its notification: one map, which both then show.
unfoldable pub take_metadata : ResponseWithMetadata → ResponseWithMetadata
take_metadata r =
    let m = delete_timestamp r.notification.metadata in
    record r {
      metadata = m;
      timestamp = timestamp_of r.timestamp r.notification.metadata;
      notification = record r.notification { metadata = m };
    }

-- `responseWithMetadata.Metadata["deleteToken"] = true`. A nil map is made anew, and then the
-- notification does not share it.
abbrev put_delete_token : Option Fields → ResponseWithMetadata → ResponseWithMetadata
put_delete_token none r = record r { metadata = some (field (codes "deleteToken") (bool true) end) }
put_delete_token (some m) r =
    let m' = some (put (codes "deleteToken") (bool true) m) in
    record r { metadata = m'; notification = record r.notification { metadata = m' } }

unfoldable pub mark_token : ResponseWithMetadata → ResponseWithMetadata
mark_token r = if deletes_token r.reason then put_delete_token r.metadata r else r

abbrev pub push_error_of : Apns2 → Reason → PushError
push_error_of lib r = new_push_error (map_error_reason r) (lib.reason_text r)

-- The feedback of a failure.
unfoldable pub failed_response : Apns2 → ResponseWithMetadata → ResponseWithMetadata
unfolding take_metadata mark_token
failed_response lib r =
    mark_token (record (take_metadata r) { err = some (push_error_of lib r.reason) })

module _ (lib : Apns2) (a : ApnsMessageHandler) (elapsed : ℕ) where
  unfoldable pub handle_failure : ResponseWithMetadata → List (Effect ApnsNotification)
  handle_failure r =
      stats (
        stats_reporter_handle_notification_failure a.stats_reporters a.app_name apns
          (push_error_of lib r.reason))
      ++ send_to_feedback_reporters a.feedback_reporters
          (encode_response lib (failed_response lib r)) a.app_name apns

  unfoldable pub handle_final : ResponseWithMetadata → List (Effect ApnsNotification)
  handle_final r =
      wait_group_done a.pending_messages_wg
      ++ (if is_success r.reason
          then stats (stats_reporter_handle_notification_success a.stats_reporters a.app_name apns)
          else handle_failure r)

  abbrev pub is_retried : ResponseWithMetadata → Bool
  is_retried r =
      is_too_many_requests r.reason && ltb r.notification.send_attempts a.max_retry_attempts

  unfoldable pub handle_apns_response : ResponseWithMetadata → List (Effect ApnsNotification)
  handle_apns_response r =
      if is_retried r then send_notification a elapsed r.notification else handle_final r
