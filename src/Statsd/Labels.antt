-- ===== src/Statsd/Labels.antt =====
-- Which reports StatsD can send.
use pusher.Base.{
  ℕ, Bool, true, false, List, [], ◌∷◌, ◌++◌, Option, none, some, ◌≡◌, inl, inr, refl, Text, codes,
  is_some, All, All-append, Bool-cases,
}
use pusher.Effects.{
  Report, StatCall, Effect, stat, feedback, push, done, stats, report, wait_group_done, Services,
  stats_reporter_notification_rate_limit_failed, stats_reporter_duplicate_message_detected,
  stats_reporter_notification_rate_limit_reached, stats_reporter_handle_notification_sent,
  stats_reporter_report_send_notification_latency,
}
use pusher.Apns.{
  KafkaMessage, ApnsNotification, ApnsMessageHandler, Env, send_notification,
  create_dedup_content_from_payload, PusherApnsKafkaMessage, build_and_validate_notification,
  parse_kafka_message,
}
use pusher.Apns.Messages.{
  handle_messages, apns, report_duplicate, dedup_with, check_duplicate, send_valid, send_allowed,
  handle_parsed,
}
use pusher.Redis.{Redis, GetReply, value, missing, get_failed}
use pusher.RateLimiter.{RateLimiter, report_failed, if_failed, allow_current, allow_reply, allow}
use pusher.Value.Decode.{ℤ, int_leb, parse_int}
use pusher.Statsd.{add_labels, send, tag}

abbrev pub is_even : {A : Type 0} → List A → Bool
is_even [] = true
is_even (a ∷ []) = false
is_even (a ∷ b ∷ l) = is_even l

add_labels-is_even : (tags labels : List Text) → is_some (add_labels tags labels) ≡ is_even labels
unfolding add_labels
add_labels-is_even tags [] = refl
add_labels-is_even tags (l ∷ []) = refl
add_labels-is_even tags (l ∷ v ∷ labels) = add_labels-is_even (tags ++ tag l v ∷ []) labels

-- A report that StatsD sends without a panic, on any host.
abbrev pub IsSent : Report → Type 0
IsSent (reporter, call) = (hostname : Text) → is_some (send hostname call) ≡ true

abbrev pub EffectIsSent : {P : Type 0} → Effect P → Type 0
EffectIsSent (stat r) = IsSent r
EffectIsSent (feedback reporter game platform v) = Unit
EffectIsSent (push x) = Unit
EffectIsSent done = Unit

abbrev N : Type 0
N = ApnsNotification

abbrev Sent : Effect N → Type 0
Sent = EffectIsSent

stats-IsSent : (rs : List Report) → All IsSent rs → All Sent (stats rs)
stats-IsSent [] h = tt
stats-IsSent (r ∷ rs) h = (h.0, stats-IsSent rs h.1)

report-IsSent :
    (rs : List ℕ) (c : StatCall)
    → ((hostname : Text) → is_some (send hostname c) ≡ true)
    → All IsSent (report rs c)
unfolding report
report-IsSent [] c h = tt
report-IsSent (r ∷ rs) c h = (h, report-IsSent rs c h)

reported :
    (rs : List ℕ) (c : StatCall)
    → ((hostname : Text) → is_some (send hostname c) ≡ true)
    → All Sent (stats (report rs c))
reported rs c h = stats-IsSent (report rs c) (report-IsSent rs c h)

wait_group_done-Sent : (b : Bool) → All Sent (wait_group_done b)
unfolding wait_group_done
wait_group_done-Sent true = (tt, tt)
wait_group_done-Sent false = tt

module _ {S : Type 0} (sv : Services S) (a : ApnsMessageHandler) (env : Env)
    (sends : (device game platform : Text) (s : S)
      → All IsSent (sv.allow device game platform s).1) where
  report_duplicate-Sent : (b : Bool) → All Sent (report_duplicate sv a env b)
  unfolding stats_reporter_duplicate_message_detected send
  report_duplicate-Sent true = tt
  report_duplicate-Sent false = reported a.stats_reporters _ (λ hostname. refl)

  dedup_with-Sent :
      (device : Text) (content : Option Text) (s : S)
      → All Sent (dedup_with sv a env device content s).0
  dedup_with-Sent device none s = tt
  dedup_with-Sent device (some msg) s = report_duplicate-Sent _

  check_duplicate-Sent :
      (n : PusherApnsKafkaMessage) (s : S) → All Sent (check_duplicate sv a env n s).0
  unfolding check_duplicate
  check_duplicate-Sent n s =
      dedup_with-Sent n.device_token (create_dedup_content_from_payload env n) s

  send_valid-Sent : (topic : Text) (n : Option N) → All Sent (send_valid sv a env topic n)
  unfolding send_notification stats_reporter_handle_notification_sent
      stats_reporter_report_send_notification_latency send
  send_valid-Sent topic none = wait_group_done-Sent _
  send_valid-Sent topic (some n) = (
    tt,
    All-append Sent _ _ (reported a.stats_reporters _ (λ hostname. refl))
        (reported a.stats_reporters _ (λ hostname. refl)),
  )

  send_allowed-Sent :
      (topic : Text) (n : PusherApnsKafkaMessage) (allowed : Bool)
      → All Sent (send_allowed sv a env topic n allowed)
  unfolding stats_reporter_notification_rate_limit_reached send
  send_allowed-Sent topic n true = send_valid-Sent topic (build_and_validate_notification a env n)
  send_allowed-Sent topic n false =
      All-append Sent _ _ (reported a.stats_reporters _ (λ hostname. refl)) (wait_group_done-Sent _)

  handle_parsed-Sent :
      (topic : Text) (n : Option PusherApnsKafkaMessage) (s : S)
      → All Sent (handle_parsed sv a env topic n s).0
  handle_parsed-Sent topic none s = wait_group_done-Sent _
  handle_parsed-Sent topic (some n) s =
      let s₁ = (check_duplicate sv a env n s).1 in
      All-append Sent _ _ (check_duplicate-Sent n s) (
        All-append Sent _ _ (stats-IsSent _ (sends n.device_token a.app_name apns s₁))
          (send_allowed-Sent topic n _))

  -- If StatsD sends all reports of the rate limiter without a panic, it sends all that
  -- HandleMessages of APNS reports without a panic, whatever the message.
  pub handle_messages-EffectIsSent :
      (message : KafkaMessage) (s : S) → All EffectIsSent (handle_messages sv a env message s).0
  unfolding handle_messages
  handle_messages-EffectIsSent message s =
      handle_parsed-Sent message.topic (parse_kafka_message a env message) s

module _ {S : Type 0} (r : Redis S) (limiter : RateLimiter) where
  failed-IsSent : (game platform : Text) → All IsSent (report_failed r limiter game platform)
  unfolding stats_reporter_notification_rate_limit_failed send
  failed-IsSent game platform = report-IsSent limiter.stats_reporters _ (λ hostname. refl)

  if_failed-IsSent :
      (b : Bool) (rs : List Report) → All IsSent rs → All IsSent (if_failed r limiter b rs)
  if_failed-IsSent true rs h = h
  if_failed-IsSent false rs h = tt

  allow_current-IsSent :
      (key game platform : Text) (current : Option ℤ) (s : S)
      → All IsSent (allow_current r limiter key game platform current s).1
  allow_current-IsSent key game platform none s = failed-IsSent game platform
  allow_current-IsSent key game platform (some current) s =
      elim (Bool-cases (int_leb limiter.rpm_limit current)) [
        | inl e ↦ rw e tt
        | inr e ↦ rw e (if_failed-IsSent _ _ (failed-IsSent game platform))
      ]

  allow_reply-IsSent :
      (key game platform : Text) (reply : GetReply) (s : S)
      → All IsSent (allow_reply r limiter key game platform reply s).1
  allow_reply-IsSent key game platform get_failed s = failed-IsSent game platform
  allow_reply-IsSent key game platform missing s =
      allow_current-IsSent key game platform (parse_int (codes "0")) s
  allow_reply-IsSent key game platform (value t) s =
      allow_current-IsSent key game platform (parse_int t) s

  -- The rate limiter's own reports do not make StatsD panic.
  pub allow-IsSent :
      (minute : ℕ) (device game platform : Text) (s : S)
      → All IsSent (allow r limiter minute device game platform s).1
  unfolding allow
  allow-IsSent minute device game platform s = allow_reply-IsSent _ game platform (r.get _ s) s
