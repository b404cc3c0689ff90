-- ===== src/Statsd.antt =====
-- extensions/datadog_statsd.go: the metrics that the StatsD reporter sends.
pub mod Labels
use pusher.Base.{ℕ, List, [], ◌∷◌, ◌++◌, Option, none, some, Text, codes, map_option}
use pusher.Value.Decode.{ℤ}
use pusher.Effects.{
  PushError, StatCall, handle_notification_sent, handle_notification_success,
  handle_notification_failure, notification_rate_limit_reached, notification_rate_limit_failed,
  initialize_failure, report_send_notification_latency, report_firebase_latency,
  report_metric_count, report_metric_gauge,
}

-- A call of the StatsD client, always at rate 1, with the metric's tags. The values of gauges are
-- whole numbers in the program.
pub data Metric : Type 0 where
  incr : Text → List Text → Metric
  gauge : Text → ℕ → List Text → Metric
  timing : Text → ℕ → List Text → Metric
  count : Text → ℤ → List Text → Metric

-- `fmt.Sprintf("%s:%s", name, value)`
unfoldable pub tag : Text → Text → Text
tag name value = name ++ (codes ":" ++ value)

abbrev pub platform_and_game : Text → Text → List Text
platform_and_game platform game = tag (codes "platform") platform ∷ tag (codes "game") game ∷ []

-- The loop over the labels by twos; an odd number of labels is read out of range and panics: `none`.
unfoldable pub add_labels : List Text → List Text → Option (List Text)
add_labels tags [] = some tags
add_labels tags (l ∷ []) = none
add_labels tags (l ∷ v ∷ labels) = add_labels (tags ++ tag l v ∷ []) labels

-- `if v != "" { tags = append(tags, ...) }`
abbrev pub tag_if_set : Text → Text → List Text
tag_if_set name [] = []
tag_if_set name (c ∷ t) = tag name (c ∷ t) ∷ []

unfoldable pub metric_tags : Text → Text → Text → List Text
metric_tags hostname game platform =
    tag (codes "hostname") hostname
    ∷ (tag_if_set (codes "game") game ++ tag_if_set (codes "platform") platform)

-- The methods of StatsD, with the host's name where they ask for it. `none` is a panic.
unfoldable pub send : Text → StatCall → Option Metric
unfolding add_labels metric_tags
send hostname (handle_notification_sent game platform topic) =
    some (incr (codes "sent") (platform_and_game platform game ++ tag (codes "topic") topic ∷ []))
send hostname (handle_notification_success game platform) =
    some (incr (codes "ack") (platform_and_game platform game))
send hostname (handle_notification_failure game platform e) =
    some
      (incr (codes "failed") (platform_and_game platform game ++ tag (codes "reason") e.key ∷ []))
send hostname (notification_rate_limit_reached game platform) =
    some (incr (codes "rate_limit_reached") (platform_and_game platform game))
send hostname (notification_rate_limit_failed game platform) =
    some (incr (codes "rate_limit_failed") (platform_and_game platform game))
send hostname (initialize_failure game platform) =
    some (incr (codes "initialize_failure") (platform_and_game platform game))
send hostname (report_send_notification_latency latency game platform labels) =
    map_option (timing (codes "send_notification_latency") latency)
      (add_labels (platform_and_game platform game) labels)
send hostname (report_firebase_latency latency game) =
    map_option (timing (codes "firebase_latency") latency)
      (add_labels (tag (codes "game") game ∷ []) [])
send hostname (report_metric_count metric value game platform) =
    some (count metric value (metric_tags hostname game platform))
send hostname (report_metric_gauge metric value game platform) =
    some (gauge metric value (metric_tags hostname game platform))

-- ReportGoStats; the pause of the collector is not sent.
unfoldable pub report_go_stats : Text → ℕ → ℕ → ℕ → ℕ → ℕ → List Metric
report_go_stats hostname routines allocated objects next_gc pause =
    let tags = tag (codes "hostname") hostname ∷ [] in
    gauge (codes "num_goroutine") routines tags
    ∷ gauge (codes "allocated_not_freed") allocated tags
    ∷ gauge (codes "heap_objects") objects tags
    ∷ gauge (codes "next_gc_bytes") next_gc tags
    ∷ []
