-- ===== src/Fcm/Handler.antt =====
-- HandleMessages of extensions/firebase/message_handler.go, up to the hand-over to sendPush.
use pusher.Base.{
  ℕ, Bool, true, false, List, [], ◌∷◌, ◌++◌, Option, none, some, Text, codes, if◌then◌else◌,
}
use pusher.Value.{Value, str, obj, Fields, end, field}
use pusher.Value.Decode.{unmarshal}
use pusher.Effects.{
  report, Effect, push, stats, wait_group_done, Services, notification_rate_limit_reached,
  report_send_notification_latency, stats_reporter_duplicate_message_detected,
}
use pusher.Apns.{KafkaMessage, fill_missing, is_expired, keep_if}
use pusher.Fcm.{Notification, Message, KafkaFcmMessage, zero_fcm_message, fcm_message_field}

-- messageHandler: what is set once.
pub record MessageHandler : Type 0 where
  pub app : Text
  pub stats_reporters : List ℕ
  pub feedback_reporters : List ℕ
  pub pending_messages_wait_group : Bool
  pub concurrent_workers : ℕ

-- What a call reads from outside, as for APNS.
pub record Env : Type 0 where
  pub make_timestamp : ℕ
  pub elapsed : ℕ
  pub marshal : Value → Option Text

-- A call of sendPush.
pub record Job : Type 0 where
  pub message : Message
  pub topic : Text

-- A string field with `omitempty`.
abbrev pub put_text : Text → Text → Fields → Fields
put_text k [] rest = rest
put_text k (c ∷ t) rest = field k (str (c ∷ t)) rest

-- The JSON of a notification, in the order of the struct.
unfoldable pub encode_notification : Notification → Value
encode_notification n = obj (
    put_text (codes "title") n.title (
      put_text (codes "body") n.body (
        put_text (codes "sound") n.sound (
          put_text (codes "click_action") n.click_action (
            put_text (codes "body_loc_key") n.body_loc_key (
              put_text (codes "body_loc_args") n.body_loc_args (
                put_text (codes "title_loc_key") n.title_loc_key (
                  put_text (codes "title_loc_args") n.title_loc_args (
                    put_text (codes "image_url") n.image_url (
                      put_text (codes "icon") n.icon (
                        put_text (codes "tag") n.tag (
                          put_text (codes "color") n.color
                            (put_text (codes "badge") n.badge end)))))))))))))

abbrev put_data : Option Fields → Fields → Fields
put_data none rest = rest
put_data (some d) rest = field (codes "data") (obj d) rest

abbrev put_notification : Option Notification → Fields → Fields
put_notification none rest = rest
put_notification (some n) rest = field (codes "notification") (encode_notification n) rest

unfoldable pub create_dedup_content_from_payload : Env → KafkaFcmMessage → Option Text
create_dedup_content_from_payload env km =
    env.marshal (obj (put_data km.message.payload (put_notification km.message.notification end)))

abbrev pub platform_or_gcm : Text → Text
platform_or_gcm [] = codes "gcm"
platform_or_gcm (c ∷ t) = c ∷ t

unfoldable pub parse_message : KafkaMessage → Option KafkaFcmMessage
parse_message msg =
    let (km, good) = unmarshal fcm_message_field zero_fcm_message msg.value in
    keep_if good
      (record km { message = record km.message { platform = platform_or_gcm msg.platform } })

abbrev or_empty : Option Fields → Fields
or_empty none = end
or_empty (some m) = m

abbrev pub with_metadata : Option Fields → Message → Message
with_metadata none m = m
with_metadata (some metadata) m = record m {
  payload = some (fill_missing (or_empty m.payload) metadata);
}

module _ {S : Type 0} (sv : Services S) (h : MessageHandler) (env : Env) where
  abbrev pub report_duplicate : Text → Bool → List (Effect Job)
  report_duplicate platform true = []
  report_duplicate platform false =
      stats (stats_reporter_duplicate_message_detected h.stats_reporters h.app platform)

  abbrev pub dedup_with : Message → Option Text → S → List (Effect Job) × S
  dedup_with m none s = ([], s)
  dedup_with m (some content) s =
      let (unique, s') = sv.is_unique m.to content h.app m.platform s in
      (report_duplicate m.platform unique, s')

  unfoldable pub check_duplicate : KafkaFcmMessage → S → List (Effect Job) × S
  check_duplicate km s = dedup_with km.message (create_dedup_content_from_payload env km) s

  -- reportRateLimitReached
  unfoldable pub report_rate_limit_reached : Text → Text → List (Effect Job)
  report_rate_limit_reached game platform =
      stats (report h.stats_reporters (notification_rate_limit_reached game platform))

  -- reportLatency
  unfoldable pub report_latency : ℕ → Text → List (Effect Job)
  report_latency latency platform = stats (
      report h.stats_reporters (
        report_send_notification_latency latency h.app platform
          (codes "client" ∷ codes "fcm" ∷ [])))

  abbrev pub send_allowed : KafkaMessage → KafkaFcmMessage → Bool → List (Effect Job)
  send_allowed msg km true =
      push (record { message = with_metadata km.metadata km.message; topic = msg.topic })
      ∷ report_latency env.elapsed km.message.platform
  send_allowed msg km false =
      report_rate_limit_reached msg.game km.message.platform
      ++ wait_group_done h.pending_messages_wait_group

  abbrev pub handle_current : KafkaMessage → KafkaFcmMessage → S → List (Effect Job) × S
  handle_current msg km s =
      let (noted, s₁) = check_duplicate km s in
      let (allowed, reports, s₂) = sv.allow km.message.to msg.game km.message.platform s₁ in
      (noted ++ (stats reports ++ send_allowed msg km allowed), s₂)

  abbrev pub handle_parsed : KafkaMessage → Option KafkaFcmMessage → S → List (Effect Job) × S
  handle_parsed msg none s = (wait_group_done h.pending_messages_wait_group, s)
  handle_parsed msg (some km) s =
      if is_expired km.push_expiry env.make_timestamp
      then (wait_group_done h.pending_messages_wait_group, s)
      else handle_current msg km s

  unfoldable pub handle_messages : KafkaMessage → S → List (Effect Job) × S
  handle_messages msg s = handle_parsed msg (parse_message msg) s
