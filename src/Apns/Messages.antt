-- ===== src/Apns/Messages.antt =====
-- HandleMessages of extensions/apns/apns_message_handler.go: parse, note a duplicate, ask the rate
-- limiter, validate, push. A duplicate does not stop the message.
use pusher.Base.{Bool, true, false, List, [], ◌++◌, Option, none, some, Text, codes}
use pusher.Effects.{
  Effect, stats, wait_group_done, Services, stats_reporter_duplicate_message_detected,
  stats_reporter_notification_rate_limit_reached, stats_reporter_handle_notification_sent,
}
use pusher.Apns.{
  KafkaMessage, PusherApnsKafkaMessage, ApnsNotification, ApnsMessageHandler, Env,
  parse_kafka_message, create_dedup_content_from_payload, build_and_validate_notification,
  send_notification,
}

abbrev pub apns : Text
apns = codes "apns"

module _ {S : Type 0} (sv : Services S) (a : ApnsMessageHandler) (env : Env) where
  abbrev pub report_duplicate : Bool → List (Effect ApnsNotification)
  report_duplicate true = []
  report_duplicate false =
      stats (stats_reporter_duplicate_message_detected a.stats_reporters a.app_name apns)

  abbrev pub dedup_with : Text → Option Text → S → List (Effect ApnsNotification) × S
  dedup_with device none s = ([], s)
  dedup_with device (some msg) s =
      let (unique, s') = sv.is_unique device msg a.app_name apns s in (report_duplicate unique, s')

  unfoldable pub check_duplicate : PusherApnsKafkaMessage → S → List (Effect ApnsNotification) × S
  check_duplicate n s = dedup_with n.device_token (create_dedup_content_from_payload env n) s

  abbrev pub send_valid : Text → Option ApnsNotification → List (Effect ApnsNotification)
  send_valid topic none = wait_group_done a.pending_messages_wg
  send_valid topic (some n) =
      send_notification a env.elapsed n
      ++ stats (stats_reporter_handle_notification_sent a.stats_reporters a.app_name apns topic)

  abbrev pub send_allowed : Text → PusherApnsKafkaMessage → Bool → List (Effect ApnsNotification)
  send_allowed topic n true = send_valid topic (build_and_validate_notification a env n)
  send_allowed topic n false =
      stats (stats_reporter_notification_rate_limit_reached a.stats_reporters a.app_name apns)
      ++ wait_group_done a.pending_messages_wg

  abbrev pub handle_parsed :
      Text → Option PusherApnsKafkaMessage → S → List (Effect ApnsNotification) × S
  handle_parsed topic none s = (wait_group_done a.pending_messages_wg, s)
  handle_parsed topic (some n) s =
      let (noted, s₁) = check_duplicate n s in
      let (allowed, reports, s₂) = sv.allow n.device_token a.app_name apns s₁ in
      (noted ++ (stats reports ++ send_allowed topic n allowed), s₂)

  unfoldable pub handle_messages : KafkaMessage → S → List (Effect ApnsNotification) × S
  unfolding check_duplicate
  handle_messages message s = handle_parsed message.topic (parse_kafka_message a env message) s
