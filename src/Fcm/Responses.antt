-- ===== src/Fcm/Responses.antt =====
-- What happens to a message after HandleMessages, in extensions/firebase/message_handler.go: the
-- goroutine of sendPush, and the response handlers.
use pusher.Base.{ℕ, List, ◌++◌, Option, none, some, Text, codes}
use pusher.Value.{Value, obj, end}
use pusher.Effects.{
  PushError, new_push_error, Report, report, Effect, stats, wait_group_done,
  handle_notification_sent, handle_notification_success, handle_notification_failure,
  report_firebase_latency, send_feedback_to_all,
}
use pusher.Fcm.{Message}
use pusher.Fcm.Handler.{MessageHandler, Job, put_text}

-- An `error`: a PushError, or any other with its text.
pub data SendError : Type 0 where
  push_error : PushError → SendError
  plain : Text → SendError

-- What the goroutine of sendPush puts on the response channel.
pub record Response : Type 0 where
  pub msg : Message
  pub error : Option SendError

unfoldable pub translate_to_push_error : SendError → PushError
translate_to_push_error (push_error e) = e
translate_to_push_error (plain text) = new_push_error (codes "unknown") text

-- The JSON of a FeedbackResponse.
unfoldable pub feedback_response : Text → Text → Text → Value
feedback_response from error description = obj (
    put_text (codes "from") from
      (put_text (codes "error") error (put_text (codes "error_description") description end)))

module _ (h : MessageHandler) where
  unfoldable pub report_firebase : ℕ → List Report
  report_firebase latency = report h.stats_reporters (report_firebase_latency latency h.app)

  unfoldable pub notification_sent : Text → Text → List Report
  notification_sent topic platform =
      report h.stats_reporters (handle_notification_sent h.app platform topic)

  unfoldable pub notification_ack : Text → List (Effect Job)
  notification_ack platform =
      stats (report h.stats_reporters (handle_notification_success h.app platform))

  unfoldable pub notification_failure : Message → Text → SendError → List (Effect Job)
  notification_failure message platform err =
      let e = translate_to_push_error err in
      stats (report h.stats_reporters (handle_notification_failure h.app platform e))
      ++ send_feedback_to_all h.feedback_reporters h.app platform
          (feedback_response message.to e.key e.description)

  -- The goroutine of sendPush: the client's answer goes to the response channel.
  unfoldable pub send_push : (Message → Option SendError) → ℕ → Job → List Report × Response
  send_push client latency j = (
    report_firebase latency ++ notification_sent j.topic j.message.platform,
    record { msg = j.message; error = client j.message },
  )

  abbrev pub handle_error : Message → Option SendError → List (Effect Job)
  handle_error m none = notification_ack m.platform
  handle_error m (some e) = notification_failure m m.platform e

  -- One round of the loop of HandleResponses.
  unfoldable pub handle_response : Response → List (Effect Job)
  handle_response r = handle_error r.msg r.error ++ wait_group_done h.pending_messages_wait_group
