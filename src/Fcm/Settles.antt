-- ===== src/Fcm/Settles.antt =====
-- Every message that HandleMessages takes is either handed to sendPush once or released once.
use pusher.Base.{
  ◌+◌, Bool, true, false, ◌++◌, Option, none, some, ◌≡◌, refl, inl, inr, Bool-cases, Text, arith,
}
use pusher.Effects.{Services, stats, wait_group_done, dones, pushes, settled}
use pusher.Effects.Count.{
  quiet, dones-append, pushes-append, pushes-wait_group_done, settled-append, settled-stats,
  settled-wait_group_done,
}
use pusher.Apns.{KafkaMessage, is_expired}
use pusher.Fcm.{Message, KafkaFcmMessage}
use pusher.Fcm.Handler.{
  MessageHandler, Env, Job, report_duplicate, dedup_with, check_duplicate, report_latency,
  report_rate_limit_reached, send_allowed, handle_current, handle_parsed, handle_messages,
  parse_message, create_dedup_content_from_payload,
}
use pusher.Fcm.Responses.{
  Response, SendError, notification_ack, notification_failure, handle_error, handle_response,
}

module _ {S : Type 0} (sv : Services S) (h : MessageHandler) (env : Env)
    (counted : h.pending_messages_wait_group ≡ true) where
  dedup_with-settled :
      (m : Message) (content : Option Text) (s : S)
      → settled (dedup_with sv h env m content s).0 ≡ 0
  dedup_with-settled m none s = refl
  dedup_with-settled m (some content) s = reported (sv.is_unique m.to content h.app m.platform s).0
    where
      reported : (b : Bool) → settled (report_duplicate sv h env m.platform b) ≡ 0
      reported true = refl
      reported false = settled-stats Job _

  check_duplicate-settled :
      (km : KafkaFcmMessage) (s : S) → settled (check_duplicate sv h env km s).0 ≡ 0
  unfolding check_duplicate
  check_duplicate-settled km s =
      dedup_with-settled km.message (create_dedup_content_from_payload env km) s

  send_allowed-settled :
      (msg : KafkaMessage) (km : KafkaFcmMessage) (allowed : Bool)
      → settled (send_allowed sv h env msg km allowed) ≡ 1
  unfolding report_latency report_rate_limit_reached
  send_allowed-settled msg km true = simp quiet
  send_allowed-settled msg km false =
      let once = settled-wait_group_done Job _ counted in
      simp quiet (omega (arith, pushes-wait_group_done Job h.pending_messages_wait_group))

  handle_current-settled :
      (msg : KafkaMessage) (km : KafkaFcmMessage) (s : S)
      → settled (handle_current sv h env msg km s).0 ≡ 1
  handle_current-settled msg km s =
      let (noted, s₁) = check_duplicate sv h env km s in
      let (allowed, reports, s₂) = sv.allow km.message.to msg.game km.message.platform s₁ in
      let sends = send_allowed sv h env msg km allowed in
      let calm : settled noted ≡ 0 = check_duplicate-settled km s in
      let once : settled sends ≡ 1 = send_allowed-settled msg km allowed in
      omega (
        arith,
        settled-append noted (stats reports ++ sends),
        settled-append (stats {P = Job} reports) sends,
        settled-stats Job reports,
      )

  handle_parsed-settled :
      (msg : KafkaMessage) (km : Option KafkaFcmMessage) (s : S)
      → settled (handle_parsed sv h env msg km s).0 ≡ 1
  handle_parsed-settled msg none s = settled-wait_group_done Job _ counted
  handle_parsed-settled msg (some km) s =
      elim (Bool-cases (is_expired km.push_expiry env.make_timestamp)) [
        | inl e ↦ rw e (settled-wait_group_done Job _ counted)
        | inr e ↦ rw e (handle_current-settled msg km s)
      ]

  -- Whatever the message, the services' answers and the clock: with a wait group, HandleMessages
  -- either hands the message to sendPush once and leaves the wait group alone, or does not send it
  -- and calls Done once.
  pub fcm_handle_messages-settles :
      (msg : KafkaMessage) (s : S)
      → dones (handle_messages sv h env msg s).0 + pushes (handle_messages sv h env msg s).0 ≡ 1
  unfolding handle_messages
  fcm_handle_messages-settles msg s = handle_parsed-settled msg (parse_message msg) s

error-quiet :
    (h : MessageHandler) (m : Message) (e : Option SendError)
    → (dones (handle_error h m e) ≡ 0) × (pushes (handle_error h m e) ≡ 0)
unfolding notification_ack notification_failure
error-quiet h m none = (simp quiet, simp quiet)
error-quiet h m (some e) = (simp quiet, simp quiet)

-- A response, good or bad, releases the wait group once and sends nothing again.
pub handle_response-settles :
    (h : MessageHandler) (r : Response)
    → h.pending_messages_wait_group ≡ true
    → (dones (handle_response h r) ≡ 1) × (pushes (handle_response h r) ≡ 0)
unfolding handle_response
handle_response-settles h r counted =
    let (d, p) = error-quiet h r.msg r.error in
    let once = settled-wait_group_done Job _ counted in
    let calm = pushes-wait_group_done Job h.pending_messages_wait_group in
    (
      omega (
        arith,
        dones-append (handle_error h r.msg r.error) (wait_group_done h.pending_messages_wait_group),
      ),
      omega (
        arith,
        pushes-append (handle_error h r.msg r.error)
            (wait_group_done h.pending_messages_wait_group),
      ),
    )
