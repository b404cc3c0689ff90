-- ===== src/Settings/Reaching.antt =====
-- From the configuration of a pusher to the handler of a message that its consumer reads.
use pusher.Base.{
  ℕ, Bool, true, List, [], ◌∷◌, ◌++◌, Option, ◌≡◌, inl, inr, refl, sym, false, some, Text, codes,
  ◌≟◌, ≟-eq, subst, is_some, Bool-cases, arith,
}
use pusher.Value.{Value}
use pusher.Value.Decode.{ℤ}
use pusher.Topic.{get_game_and_platform_from_topic, single_topic, massive_topic}
use pusher.Topic.Parse.{is_game, parse-push_topic}
use pusher.Apns.{KafkaMessage}
use pusher.Consumer.{KafkaConsumer, add_one, received, receive_message, kafka_message}
use pusher.Config.{get_apns_apps_array}
use pusher.Pusher.{contains, handler_of}
use pusher.Pusher.Topics.{any_app, is_app_topic}
use pusher.Settings.{Viper, Element}
use pusher.Settings.Kafka.{ProducerConfig, ConsumerConfig}
use pusher.Settings.Pushers.{built, PusherSettings, ApnsApp, new_apns_pusher}
use pusher.Settings.Serving.{new_apns_pusher-Serves}

any_app-contains :
    (p : Text → Bool) (app : Text) (apps : List Text)
    → contains app apps ≡ true
    → p app ≡ true
    → any_app p apps ≡ true
unfolding contains
any_app-contains p app [] e h = e
any_app-contains p app (a ∷ apps) e h = elim (Bool-cases (a ≟ app)) [
  | inl same ↦ let here = subst (λ (x : Text). p x ≡ true) (sym (≟-eq a app same)) h in ground arith
  | inr other ↦ ground (arith, any_app-contains p app apps (rw other at e) h)
]

-- Both topics of an app are read as it.
parse-app_topic :
    (app topic : Text)
    → is_game false app ≡ true
    → is_app_topic (codes "apns") app topic ≡ true
    → get_game_and_platform_from_topic topic ≡ some (record { platform = codes "apns"; game = app })
parse-app_topic app topic named e =
    let (single, massive) = parse-push_topic app (codes "apns") named (inr (inl refl)) in
    let Read = λ (t : Text).
      get_game_and_platform_from_topic t ≡ some (record { platform = codes "apns"; game = app }) in
    elim (Bool-cases (single_topic app (codes "apns") ≟ topic)) [
      | inl same ↦ subst Read (≟-eq _ _ same) single
      | inr other ↦
          subst Read (≟-eq (massive_topic app (codes "apns")) topic (ground arith)) massive
    ]

-- What a message on a topic of an app meets: a subscription, a consumer that counts it and puts it on its
-- channel as a message of the app's game, and a handler for this game.
pub record Reaches (p : PusherSettings ApnsApp) (app topic : Text) (value : Option Value)
    (q : KafkaConsumer KafkaMessage) : Type 0 where
  pub subscribed : contains topic p.topics ≡ true
  pub on_channel :
      receive_message kafka_message topic value q
      ≡ received (record {
        pending = add_one q.pending;
        msg_chan =
            q.msg_chan
            ++ record { game = app; platform = codes "apns"; topic = topic; value = value } ∷ [];
      })
  pub handled : is_some (handler_of app p.message_handler) ≡ true

module _ {V : Type 0} (vp : Viper V) (room : Element → ℕ → Bool)
    (new_buffered : Text → ℤ → Bool × Bool) (statsd_given : Bool)
    (new_producer : ProducerConfig → Bool) (new_consumer : ConsumerConfig → Bool)
    (decode_games : Text → List (Text × ℤ)) (key_loads firebase_starts : Text → Bool) where
  -- For a pusher that NewAPNSPusher gives, and an app of its configuration with a name that the topic
  -- expression matches: whatever else the consumer is configured with, the pusher subscribes to the
  -- single and to the massive topic of the app; a message read from either is counted, if there is a wait
  -- group, and put on the channel as one of the app's game and of APNS; and the pusher has a handler for
  -- this game.
  pub app_message-Reaches :
      (queue_given : Bool) (apps : Text) (v : V) {p : PusherSettings ApnsApp} {v' : V}
      (app topic : Text) (value : Option Value) (q : KafkaConsumer KafkaMessage)
      → new_apns_pusher vp room new_buffered statsd_given new_producer new_consumer decode_games
          key_loads firebase_starts queue_given apps v
        ≡ (built p, v')
      → contains app (get_apns_apps_array apps) ≡ true
      → is_game false app ≡ true
      → is_app_topic (codes "apns") app topic ≡ true
      → Reaches p app topic value q
  unfolding receive_message
  app_message-Reaches queue_given apps v {p} app topic value q e among named of_app =
      let names = get_apns_apps_array apps in
      let serves =
        new_apns_pusher-Serves vp room new_buffered statsd_given new_producer new_consumer
          decode_games key_loads firebase_starts queue_given apps v e in
      let asked : any_app (λ a. is_app_topic (codes "apns") a topic) names ≡ true =
        any_app-contains (λ a. is_app_topic (codes "apns") a topic) app names among of_app in
      record {
        subscribed = ground (arith, serves.consumes topic, asked);
        on_channel = rw (parse-app_topic app topic named of_app) refl;
        handled = rw (serves.handles app) among;
      }
