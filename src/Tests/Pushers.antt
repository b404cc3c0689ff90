-- ===== src/Tests/Pushers.antt =====
-- Pushers made from a configuration of two lists.
use pusher.Base.{some, none, Bool, true, false, ◌||◌, List, [], ◌∷◌, ◌≡◌, refl, Text, codes}
use pusher.Value.Decode.{ℤ, pos}
use pusher.Config.{get_gcm_apps_array, get_apns_apps_array, trim_right, trim_left}
use pusher.Topic.{single_topic, massive_topic}
use pusher.Pusher.{apns_topics, contains}
use pusher.Pusher.Topics.{is_app_topic}
use pusher.Settings.{text, texts}
use pusher.Settings.Kafka.{ConsumerConfig, ProducerConfig, new_kafka_producer, new_kafka_consumer}
use pusher.Settings.Pushers.{
  Built, built, rejected, panicked, exited, PusherSettings, ApnsApp, FirebaseApp, new_apns_pusher,
  new_gcm_pusher, configured_pusher, then_with, stats_end, or_report, handlers_for, new_apns_app,
  new_firebase_app,
}
use pusher.Settings.Reporters.{configured_reporters}
use pusher.Settings.Queues.{new_apns_message_handler}
use pusher.Settings.Services.{new_message_handler}
use pusher.Settings.Serving.{Serves, new_apns_pusher-Serves, new_gcm_pusher-Serves}
use pusher.Settings.Reaching.{Reaches, app_message-Reaches}
use pusher.Tests.Settings.{Pairs, lists, room}

-- Two apps; the second has no credentials in `one_missing`.
abbrev common : Pairs
common =
    (codes "stats.reporters", texts (codes "statsd" ∷ []))
    ∷ (codes "feedback.reporters", texts (codes "kafka" ∷ []))
    ∷ (codes "queue.topics", texts (codes "push-chess_apns-single" ∷ codes "other" ∷ []))
    ∷ (codes "gcm.firebaseCredentials.chess", text (codes "{}"))
    ∷ []

abbrev one_missing : Pairs × Pairs
one_missing = (common, [])

abbrev settings : Pairs × Pairs
settings = ((codes "gcm.firebaseCredentials.go", text (codes "{}")) ∷ common, [])

abbrev no_pusher : {H : Type 0} → PusherSettings H
no_pusher = record {
  graceful_shutdown_timeout = pos 0;
  stats_reporters = [];
  feedback_reporters = [];
  queue = record {
    topics = [];
    brokers = [];
    consumer_group = [];
    offset_reset_strategy = [];
    channel_size = pos 0;
    fetch_min_bytes = pos 0;
    fetch_wait_max_ms = pos 0;
    session_timeout = pos 0;
    has_wait_group = false;
  };
  topics = [];
  message_handler = [];
}

abbrev pusher_of : {H V : Type 0} → Built (PusherSettings H) × V → PusherSettings H
pusher_of (built p, v) = p
pusher_of (rejected reports, v) = no_pusher
pusher_of (panicked, v) = no_pusher
pusher_of (exited, v) = no_pusher

abbrev buffers : Text → ℤ → Bool × Bool
buffers host buflen = (true, false)

abbrev produces : ProducerConfig → Bool
produces c = true

abbrev consumes : ConsumerConfig → Bool
consumes c = true

abbrev no_games : Text → List (Text × ℤ)
no_games t = []

abbrev always : Text → Bool
always t = true

abbrev apps : Text
apps = codes "chess, go"

abbrev apns_run : Built (PusherSettings ApnsApp) × (Pairs × Pairs)
apns_run =
    new_apns_pusher lists room buffers false produces consumes no_games always always false apps
      settings

abbrev gcm_run : (Pairs × Pairs) → Built (PusherSettings FirebaseApp) × (Pairs × Pairs)
gcm_run v =
    new_gcm_pusher lists room buffers false produces consumes no_games always always apps (pos 4) v

apns_pusher_topics :
    (pusher_of apns_run).topics
    ≡ codes "push-chess_apns-single"
      ∷ codes "other"
      ∷ codes "push-chess_apns-massive"
      ∷ codes "push-go_apns-single"
      ∷ codes "push-go_apns-massive"
      ∷ []
unfolding new_apns_pusher configured_pusher then_with stats_end configured_reporters or_report
    new_kafka_producer new_kafka_consumer handlers_for get_apns_apps_array new_apns_app
    new_apns_message_handler apns_topics single_topic massive_topic trim_right trim_left
apns_pusher_topics = refl

-- Without credentials the process ends.
gcm_pusher_exits : (gcm_run one_missing).0 ≡ exited
unfolding new_gcm_pusher configured_pusher then_with stats_end configured_reporters or_report
    new_kafka_producer new_kafka_consumer handlers_for get_gcm_apps_array new_firebase_app
    trim_right trim_left new_message_handler
gcm_pusher_exits = refl

new_apns_pusher-Serves_example :
    Serves (get_apns_apps_array apps) (is_app_topic (codes "apns")) (pusher_of apns_run)
unfolding new_apns_pusher configured_pusher then_with stats_end configured_reporters or_report
    new_kafka_producer new_kafka_consumer handlers_for get_apns_apps_array new_apns_app
    new_apns_message_handler
new_apns_pusher-Serves_example =
    new_apns_pusher-Serves lists room buffers false produces consumes no_games always always false
      apps settings {v' = apns_run.1} refl

new_gcm_pusher-Serves_example :
    Serves
      (get_gcm_apps_array apps)
      (λ app t. is_app_topic (codes "gcm") app t || is_app_topic (codes "ios") app t)
      (pusher_of (gcm_run settings))
unfolding new_gcm_pusher configured_pusher then_with stats_end configured_reporters or_report
    new_kafka_producer new_kafka_consumer handlers_for get_gcm_apps_array new_firebase_app
    trim_right trim_left new_message_handler
new_gcm_pusher-Serves_example =
    new_gcm_pusher-Serves lists room buffers false produces consumes no_games always always apps
      (pos 4) settings {v' = (gcm_run settings).1} refl

-- A message on a topic that the consumer was not configured with.
app_message-Reaches_example :
    Reaches
      (pusher_of apns_run)
      (codes "chess")
      (codes "push-chess_apns-massive")
      none
      (record { pending = some 3; msg_chan = [] })
unfolding new_apns_pusher configured_pusher then_with stats_end configured_reporters or_report
    new_kafka_producer new_kafka_consumer handlers_for get_apns_apps_array new_apns_app
    new_apns_message_handler massive_topic single_topic trim_right trim_left pusher.Topic.goes_on
    contains
app_message-Reaches_example =
    app_message-Reaches lists room buffers false produces consumes no_games always always false apps
      settings {v' = apns_run.1} (codes "chess") (codes "push-chess_apns-massive") none
      (record { pending = some 3; msg_chan = [] }) refl refl refl refl
