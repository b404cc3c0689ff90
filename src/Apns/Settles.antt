-- ===== src/Apns/Settles.antt =====
-- Every message that HandleMessages takes is either pushed once or released once.
use pusher.Base.{
  ℕ, ◌+◌, Bool, true, false, [], ◌∷◌, ◌++◌, Option, none, some, ◌≡◌, refl, Text, codes, arith,
}
use pusher.Effects.{pushed, Services, stats, dones, pushes, settled}
use pusher.Effects.Count.{
  quiet, only_pushed, pushes-wait_group_done, settled-append, settled-stats,
  settled-wait_group_done,
}
use pusher.Apns.{
  KafkaMessage, PusherApnsKafkaMessage, ApnsNotification, ApnsMessageHandler, Env,
  parse_kafka_message, build_and_validate_notification, send_notification,
  create_dedup_content_from_payload,
}
use pusher.Apns.Messages.{
  report_duplicate, dedup_with, check_duplicate, send_valid, send_allowed, handle_parsed,
  handle_messages,
}

abbrev N : Type 0
N = ApnsNotification

pub send_notification-settled :
    (a : ApnsMessageHandler) (n : ApnsNotification) (elapsed : ℕ)
    → (settled (send_notification a elapsed n) ≡ 1)
      × (pushed (send_notification a elapsed n)
          ≡ record n { send_attempts = n.send_attempts + 1 } ∷ [])
unfolding send_notification
send_notification-settled a n elapsed = (simp quiet, simp only_pushed)

module _ {S : Type 0} (sv : Services S) (a : ApnsMessageHandler) (env : Env)
    (tracked : a.pending_messages_wg ≡ true) where
  report_duplicate-settled : (b : Bool) → settled (report_duplicate sv a env b) ≡ 0
  report_duplicate-settled true = refl
  report_duplicate-settled false = settled-stats N _

  dedup_with-settled :
      (device : Text) (content : Option Text) (s : S)
      → settled (dedup_with sv a env device content s).0 ≡ 0
  dedup_with-settled device none s = refl
  dedup_with-settled device (some msg) s = report_duplicate-settled _

  check_duplicate-settled :
      (n : PusherApnsKafkaMessage) (s : S) → settled (check_duplicate sv a env n s).0 ≡ 0
  unfolding check_duplicate
  check_duplicate-settled n s =
      dedup_with-settled n.device_token (create_dedup_content_from_payload env n) s

  send_valid-settled :
      (topic : Text) (n : Option ApnsNotification) → settled (send_valid sv a env topic n) ≡ 1
  send_valid-settled topic none = settled-wait_group_done N _ tracked
  send_valid-settled topic (some n) =
      let (once, _) = send_notification-settled a n env.elapsed in simp quiet (omega arith)

  send_allowed-settled :
      (topic : Text) (n : PusherApnsKafkaMessage) (allowed : Bool)
      → settled (send_allowed sv a env topic n allowed) ≡ 1
  send_allowed-settled topic n true =
      send_valid-settled topic (build_and_validate_notification a env n)
  send_allowed-settled topic n false =
      let once = settled-wait_group_done N _ tracked in
      simp quiet (omega (arith, pushes-wait_group_done N a.pending_messages_wg))

  handle_parsed-settled :
      (topic : Text) (n : Option PusherApnsKafkaMessage) (s : S)
      → settled (handle_parsed sv a env topic n s).0 ≡ 1
  handle_parsed-settled topic none s = settled-wait_group_done N _ tracked
  handle_parsed-settled topic (some n) s =
      let (noted, s₁) = check_duplicate sv a env n s in
      let (allowed, reports, s₂) = sv.allow n.device_token a.app_name (codes "apns") s₁ in
      let quiet_check : settled noted ≡ 0 = check_duplicate-settled n s in
      let once : settled (send_allowed sv a env topic n allowed) ≡ 1 =
        send_allowed-settled topic n allowed in
      omega (
        arith,
        settled-append noted (stats reports ++ send_allowed sv a env topic n allowed),
        settled-append (stats {P = N} reports) (send_allowed sv a env topic n allowed),
        settled-stats N reports,
      )

  -- Whatever the message, the services' answers and the clock: with a wait group, HandleMessages
  -- either pushes one notification and leaves the wait group alone, or pushes none and calls Done once.
  pub handle_messages-settles :
      (message : KafkaMessage) (s : S)
      → dones (handle_messages sv a env message s).0 + pushes (handle_messages sv a env message s).0
        ≡ 1
  unfolding handle_messages
  handle_messages-settles message s =
      handle_parsed-settled message.topic (parse_kafka_message a env message) s
