-- ===== src/Settings/Pushers.antt =====
-- The two pushers from the configuration: NewAPNSPusher of pusher/apns.go, NewGCMPusher of pusher/gcm.go,
-- and the defaults and reporters of pusher/pusher.go and pusher/reporters.go.
use pusher.Base.{ℕ, suc, Bool, false, List, [], ◌∷◌, ◌++◌, Text, codes, ◌≟◌, if◌then◌else◌}
use pusher.Value.Decode.{ℤ, pos}
use pusher.Effects.{Report, report, initialize_failure}
use pusher.RateLimiter.{RateLimiter}
use pusher.Dedup.{Dedup}
use pusher.Config.{get_gcm_apps_array, get_apns_apps_array}
use pusher.Pusher.{Handlers, apns_topics, gcm_topics}
use pusher.Settings.{
  Setting, number, texts, Viper, get_string, get_int, get_duration, get_string_slice, set_defaults,
  Made, made, failed, panics, Element,
}
use pusher.Settings.Kafka.{
  ConsumerSettings, ConsumerConfig, ProducerSettings, ProducerConfig, new_kafka_consumer,
  new_kafka_producer,
}
use pusher.Settings.Queues.{HandlerSettings, new_apns_message_handler}
use pusher.Settings.Reporters.{
  StatsdSettings, ReportersEnd, initialized, refused, client_panics, configured_reporters,
}
use pusher.Settings.Services.{
  RedisOptions, FirebaseSettings, new_rate_limiter, new_dedup, new_message_handler,
}

-- How the construction of a pusher ends: with it; with an error, after what was reported; with a panic;
-- or with the end of the process, by `Fatalf`.
pub data Built (A : Type 0) : Type 0 where
  built : A → Built A
  rejected : List Report → Built A
  panicked exited : Built A

-- The rest of a construction, with what its first part gave.
unfoldable pub then_with : {A B V : Type 0} → Built A × V → (A → V → Built B × V) → Built B × V
then_with (built a, v) rest = rest a v
then_with (rejected reports, v) rest = (rejected reports, v)
then_with (panicked, v) rest = (panicked, v)
then_with (exited, v) rest = (exited, v)

-- The error of a part, after what is reported of it.
unfoldable pub or_report : {A V : Type 0} → List Report → Made A × V → Built A × V
or_report reports (made a, v) = (built a, v)
or_report reports (failed, v) = (rejected reports, v)
or_report reports (panics, v) = (panicked, v)

unfoldable pub stats_end : {V : Type 0} → ReportersEnd × V → Built (List StatsdSettings) × V
stats_end (initialized rs, v) = (built rs, v)
stats_end (refused, v) = (rejected [], v)
stats_end (client_panics, v) = (panicked, v)

-- The reporters by their places.
unfoldable pub places : ℕ → List StatsdSettings → List ℕ
places n [] = []
places n (r ∷ rs) = n ∷ places (suc n) rs

-- What NewAPNSMessageHandler is given for an app, and what it makes of it.
pub record ApnsApp : Type 0 where
  pub auth_key_path : Text
  pub key_id : Text
  pub team_id : Text
  pub apns_topic : Text
  pub settings : HandlerSettings
  pub rate_limiter : RedisOptions × RateLimiter
  pub dedup_ttl : ℤ
  pub dedup : RedisOptions × Dedup

pub record FirebaseApp : Type 0 where
  pub credentials : Text
  pub settings : FirebaseSettings
  pub rate_limiter : RedisOptions × RateLimiter
  pub dedup_ttl : ℤ
  pub dedup : RedisOptions × Dedup

pub record PusherSettings (H : Type 0) : Type 0 where
  pub graceful_shutdown_timeout : ℤ
  pub stats_reporters : List StatsdSettings
  pub feedback_reporters : List ProducerSettings
  pub queue : ConsumerSettings
  pub topics : List Text
  pub message_handler : Handlers H

abbrev pub pusher_defaults : List (Text × Setting)
pusher_defaults =
    (codes "gracefulShutdownTimeout", number (pos 10)) ∷ (codes "stats.reporters", texts []) ∷ []

-- The loops over the apps, with the handlers so far.
unfoldable pub handlers_for :
    {H V : Type 0} → (Text → V → Built H × V) → List Text → Handlers H → V → Built (Handlers H) × V
handlers_for new_app [] m v = (built m, v)
handlers_for new_app (app ∷ apps) m v =
    then_with (new_app app v) (λ h v'. handlers_for new_app apps ((app, h) ∷ m) v')

-- `len(a.MessageHandler) == 0`
abbrev pub some_app : {H V : Type 0} → Handlers H → V → Built (Handlers H) × V
some_app [] v = (rejected [], v)
some_app (h ∷ m) v = (built (h ∷ m), v)

-- What the constructors call outside: viper, the room of the runtime for channels, StatsD, the clients of Kafka, the decoding of the games of
-- the deduplication, the loading of the key of APNS at a path, and `client.NewFirebaseClient`.
module _ {V : Type 0} (vp : Viper V) (room : Element → ℕ → Bool)
    (new_buffered : Text → ℤ → Bool × Bool) (statsd_given : Bool)
    (new_producer : ProducerConfig → Bool) (new_consumer : ConsumerConfig → Bool)
    (decode_games : Text → List (Text × ℤ)) (key_loads firebase_starts : Text → Bool) where
  -- The loop of configureFeedbackReporters, with the reporters so far; only "kafka" has an initializer.
  unfoldable pub feedback_from :
      List Text → List ProducerSettings → V → Built (List ProducerSettings) × V
  feedback_from [] rs v = (built rs, v)
  feedback_from (name ∷ names) rs v =
      let rest =
        then_with (or_report [] (new_kafka_producer vp new_producer false v))
          (λ r v'. feedback_from names (rs ++ r ∷ []) v') in
      if name ≟ codes "kafka" then rest else (rejected [], v)

  unfoldable pub configured_feedback : V → Built (List ProducerSettings) × V
  unfolding feedback_from
  configured_feedback v = feedback_from (get_string_slice vp (codes "feedback.reporters") v) [] v

  -- Both pushers up to their handlers; `add_topics` adds those of the apps.
  unfoldable pub configured_pusher :
      {H : Type 0}
      → (List Text → List Text)
      → (List ℕ → V → Built (Handlers H) × V)
      → V
      → Built (PusherSettings H) × V
  unfolding set_defaults configured_feedback
  configured_pusher add_topics create_handlers v =
      let v0 = set_defaults vp pusher_defaults v in
      then_with (stats_end (configured_reporters vp new_buffered statsd_given v0)) (λ stats v1.
        then_with (configured_feedback v1) (λ feedback v2.
          then_with (or_report [] (new_kafka_consumer vp room new_consumer false v2)) (λ q v3.
            then_with (create_handlers (places 0 stats) v3) (λ handlers v4. (
              built (record {
                graceful_shutdown_timeout = get_int vp (codes "gracefulShutdownTimeout") v0;
                stats_reporters = stats;
                feedback_reporters = feedback;
                queue = q;
                topics = add_topics q.topics;
                message_handler = handlers;
              }),
              v4,
            )))))

  -- The value of `"apns.certs." + app + "." + name`.
  abbrev cert : Text → Text → V → Text
  cert app name v = get_string vp (codes "apns.certs." ++ (app ++ (codes "." ++ name))) v

  -- The handler of an app in configure of the APNSPusher, where `queue_given` tells if the caller has a
  -- push queue.
  unfoldable pub new_apns_app : Bool → List ℕ → Text → V → Built ApnsApp × V
  new_apns_app queue_given stats_reporters app v =
      let path = cert app (codes "authKeyPath") v in
      then_with
        (or_report (report stats_reporters (initialize_failure app (codes "apns")))
          (new_apns_message_handler vp room queue_given (key_loads path) v))
        (λ h v'. (
          built (record {
            auth_key_path = path;
            key_id = cert app (codes "keyID") v;
            team_id = cert app (codes "teamID") v;
            apns_topic = cert app (codes "topic") v;
            settings = h;
            rate_limiter =
                new_rate_limiter vp (get_int vp (codes "apns.rateLimit.rpm") v) stats_reporters v;
            dedup_ttl = get_duration vp (codes "apns.dedup.ttl") v;
            dedup = new_dedup vp decode_games v;
          }),
          v',
        ))

  -- The handler of an app in createMessageHandlerForApps of the GCMPusher.
  unfoldable pub new_firebase_app : ℤ → List ℕ → Text → V → Built FirebaseApp × V
  new_firebase_app concurrent_workers stats_reporters app v =
      let credentials = get_string vp (codes "gcm.firebaseCredentials." ++ app) v in
      if credentials ≟ []
      then (exited, v)
      else if firebase_starts credentials
      then then_with (or_report [] (new_message_handler room concurrent_workers, v)) (λ h v'. (
        built (record {
          credentials = credentials;
          settings = h;
          rate_limiter =
              new_rate_limiter vp (get_int vp (codes "gcm.rateLimit.rpm") v) stats_reporters v;
          dedup_ttl = get_duration vp (codes "gcm.dedup.ttl") v;
          dedup = new_dedup vp decode_games v;
        }),
        v',
      ))
      else (rejected [], v)

  -- NewAPNSPusher, with the apps as the configuration gives them.
  unfoldable pub new_apns_pusher : Bool → Text → V → Built (PusherSettings ApnsApp) × V
  new_apns_pusher queue_given apps v =
      let names = get_apns_apps_array apps in
      configured_pusher (apns_topics names)
        (λ stats v'.
          then_with (handlers_for (new_apns_app queue_given stats) names [] v')
            (λ handlers v''. some_app handlers v''))
        v

  -- NewGCMPusher, with the apps and the number of workers as the configuration gives them.
  unfoldable pub new_gcm_pusher : Text → ℤ → V → Built (PusherSettings FirebaseApp) × V
  new_gcm_pusher apps concurrent_workers v =
      let names = get_gcm_apps_array apps in
      configured_pusher (gcm_topics names)
        (λ stats v'. handlers_for (new_firebase_app concurrent_workers stats) names [] v') v
