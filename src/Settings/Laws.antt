-- ===== src/Settings/Laws.antt =====
-- Explicit settings take effect, and the defaults where there is none, through all constructors.
use pusher.Base.{
  ℕ, Bool, true, false, List, [], ◌∷◌, ◌++◌, Option, some, ◌≡◌, ◌∙◌, refl, ap, Text, codes,
}
use pusher.Value.Decode.{ℤ, pos}
use pusher.Settings.{
  Setting, text, number, flag, texts, Viper, Documented, apart, set_defaults, Made, made, failed,
  panics, Element, apns_client, apns_notification, apns_response, pushed_message, queued_message,
  make_chan,
}
use pusher.Settings.Reads.{
  setting, default_among, apart-set_defaults, get-set_defaults, set_defaults-append,
}
use pusher.Settings.Kafka.{
  ConsumerSettings, ConsumerConfig, consumer_defaults, feedback_consumer_defaults, consumer_from,
  feedback_consumer_from, configure_consumer, new_kafka_consumer, new_feedback_consumer,
  producer_defaults, producer_from,
}
use pusher.Settings.Queues.{
  PushQueue, HandlerSettings, handler_defaults, queue_defaults, queue_from, configure_queue,
  handler_from, with_queue, new_apns_message_handler,
}

module _ {V : Type 0} (vp : Viper V) (room : Element → ℕ → Bool) where
  abbrev queue_of :
      Option Setting → Option Setting → Option Setting → Option Setting → Made PushQueue
  queue_of pool pushes responses workers = make_chan room apns_client (vp.to_int pool) (
      make_chan room apns_notification (vp.to_int pushes) (
        make_chan room apns_response (vp.to_int responses) (
          made (record {
            connection_pool_size = vp.to_int pool;
            push_queue_size = vp.to_int pushes;
            response_channel_size = vp.to_int responses;
            concurrent_workers = vp.to_int workers;
          }))))

  abbrev handler_of :
      Option Setting
      → Option Setting
      → Option Setting
      → Option Setting
      → Option PushQueue
      → HandlerSettings
  handler_of logs cleaning retry attempts queue = record {
    log_stats_interval = vp.to_int logs;
    cache_cleaning_interval = vp.to_int cleaning;
    retry_interval = vp.to_duration retry;
    max_retry_attempts = vp.to_uint attempts;
    push_queue = queue;
  }

  -- The push queue and the handler of an app, by what is read for each key, with a default.
  module _ (read : Text → Setting → Option Setting) where
    abbrev pub queue_by : Made PushQueue
    queue_by =
        queue_of (read (codes "apns.connectionPoolSize") (number (pos 1)))
          (read (codes "apns.pushQueueSize") (number (pos 100)))
          (read (codes "apns.responseChannelSize") (number (pos 100)))
          (read (codes "apns.concurrentWorkers") (number (pos 10)))

    abbrev pub handler_by : Option PushQueue → HandlerSettings
    handler_by =
        handler_of (read (codes "apns.logStatsInterval") (number (pos 5000)))
          (read (codes "feedback.cache.cleaningInterval") (number (pos 300000)))
          (read (codes "apns.retry.interval") (text (codes "1s")))
          (read (codes "apns.retry.maxRetryAttempts") (number (pos 3)))

    abbrev pub with_queue_by : Made PushQueue → Made HandlerSettings
    with_queue_by (made q) = made (handler_by (some q))
    with_queue_by failed = failed
    with_queue_by panics = panics

-- The settings of a Kafka consumer, by what is read for each name of a key, with a default.
module _ {V : Type 0} (vp : Viper V) where
  abbrev consumer_of :
      Option Setting
      → Option Setting
      → Option Setting
      → Option Setting
      → Option Setting
      → Option Setting
      → Option Setting
      → Option Setting
      → Option Setting
      → ConsumerSettings
  consumer_of topics brokers group strategy size bytes wait session all = record {
    topics = vp.to_string_slice topics;
    brokers = vp.to_string brokers;
    consumer_group = vp.to_string group;
    offset_reset_strategy = vp.to_string strategy;
    channel_size = vp.to_int size;
    fetch_min_bytes = vp.to_int bytes;
    fetch_wait_max_ms = vp.to_int wait;
    session_timeout = vp.to_int session;
    has_wait_group = vp.to_bool all;
  }

  abbrev pub consumer_by : Text → (Text → Setting → Option Setting) → ConsumerSettings
  consumer_by prefix read =
      consumer_of (read (prefix ++ codes "topics") (texts (codes "com.games.test" ∷ [])))
        (read (prefix ++ codes "brokers") (text (codes "localhost:9092")))
        (read (prefix ++ codes "group") (text (codes "test")))
        (read (prefix ++ codes "offsetResetStrategy") (text (codes "latest")))
        (read (prefix ++ codes "channelSize") (number (pos 100)))
        (read (prefix ++ codes "fetch.min.bytes") (number (pos 1)))
        (read (prefix ++ codes "fetch.wait.max.ms") (number (pos 100)))
        (read (prefix ++ codes "sessionTimeout") (number (pos 6000)))
        (read (prefix ++ codes "handleAllMessagesBeforeExiting") (flag true))

module _ {V : Type 0} (vp : Viper V) (is_set : Text → V → Bool) (viper : Documented vp is_set)
    (room : Element → ℕ → Bool) where
  -- A read after two rounds of defaults.
  read_after :
      (k : Text) (ds es : List (Text × Setting)) (v : V) (d : Setting)
      → default_among k (ds ++ es) ≡ some d
      → vp.get k (set_defaults vp es (set_defaults vp ds v)) ≡ setting vp is_set v k d
  read_after k ds es v d e =
      ap (vp.get k) (set_defaults-append vp is_set viper ds es v)
      ∙ get-set_defaults vp is_set viper k (ds ++ es) v d e

  queue_from-queue_by :
      (v : V)
      → queue_from vp room (set_defaults vp queue_defaults (set_defaults vp handler_defaults v))
        ≡ queue_by vp room (setting vp is_set v)
  unfolding queue_from apart pusher.Value.Decode.lower
  queue_from-queue_by v =
      let key = λ (k : Text). read_after k handler_defaults queue_defaults v in
      λ i.
        queue_of vp room (key (codes "apns.connectionPoolSize") (number (pos 1)) refl i)
          (key (codes "apns.pushQueueSize") (number (pos 100)) refl i)
          (key (codes "apns.responseChannelSize") (number (pos 100)) refl i)
          (key (codes "apns.concurrentWorkers") (number (pos 10)) refl i)

  handler_from-handler_by :
      (v : V) (q : Option PushQueue)
      → handler_from vp room (set_defaults vp handler_defaults v) q
        ≡ handler_by vp room (setting vp is_set v) q
  unfolding apart pusher.Value.Decode.lower
  handler_from-handler_by v q =
      let key = λ (k : Text). get-set_defaults vp is_set viper k handler_defaults v in
      λ i.
        handler_of vp room (key (codes "apns.logStatsInterval") (number (pos 5000)) refl i)
          (key (codes "feedback.cache.cleaningInterval") (number (pos 300000)) refl i)
          (key (codes "apns.retry.interval") (text (codes "1s")) refl i)
          (key (codes "apns.retry.maxRetryAttempts") (number (pos 3)) refl i) q

  with_queue-with_queue_by :
      (v w : V) (q : Made PushQueue)
      → (with_queue vp room (set_defaults vp handler_defaults v) (q, w)).0
        ≡ with_queue_by vp room (setting vp is_set v) q
  with_queue-with_queue_by v w (made q) = ap made (handler_from-handler_by v (some q))
  with_queue-with_queue_by v w failed = refl
  with_queue-with_queue_by v w panics = refl

  -- With viper as documented: NewAPNSMessageHandler, with the key of APNS loaded and a queue of its own,
  -- gives each setting of the handler and of its push queue the value that is set for its key, and the
  -- default of the program where none is set, whatever defaults were there before; it panics exactly where
  -- one of the three sizes of channels is negative or more than the runtime has room for.
  pub new_apns_message_handler_lem :
      (v : V)
      → (new_apns_message_handler vp room false true v).0
        ≡ with_queue_by vp room (setting vp is_set v) (queue_by vp room (setting vp is_set v))
  unfolding new_apns_message_handler configure_queue
  new_apns_message_handler_lem v =
      with_queue-with_queue_by v
        (set_defaults vp queue_defaults (set_defaults vp handler_defaults v))
        (queue_from vp room (set_defaults vp queue_defaults (set_defaults vp handler_defaults v)))
      ∙ ap (with_queue_by vp room (setting vp is_set v)) (queue_from-queue_by v)

  consumer_from-consumer_by :
      (v : V)
      → consumer_from vp (set_defaults vp consumer_defaults v)
        ≡ consumer_by vp (codes "queue.") (setting vp is_set v)
  unfolding consumer_from apart pusher.Value.Decode.lower
  consumer_from-consumer_by v =
      let key =
        λ (k : Text). get-set_defaults vp is_set viper (codes "queue." ++ k) consumer_defaults v in
      λ i.
        consumer_of vp (key (codes "topics") (texts (codes "com.games.test" ∷ [])) refl i)
          (key (codes "brokers") (text (codes "localhost:9092")) refl i)
          (key (codes "group") (text (codes "test")) refl i)
          (key (codes "offsetResetStrategy") (text (codes "latest")) refl i)
          (key (codes "channelSize") (number (pos 100)) refl i)
          (key (codes "fetch.min.bytes") (number (pos 1)) refl i)
          (key (codes "fetch.wait.max.ms") (number (pos 100)) refl i)
          (key (codes "sessionTimeout") (number (pos 6000)) refl i)
          (key (codes "handleAllMessagesBeforeExiting") (flag true) refl i)

  feedback_consumer_from-consumer_by :
      (v : V)
      → feedback_consumer_from vp (set_defaults vp feedback_consumer_defaults v)
        ≡ consumer_by vp (codes "feedbackListeners.queue.") (setting vp is_set v)
  unfolding feedback_consumer_from apart pusher.Value.Decode.lower
  feedback_consumer_from-consumer_by v =
      let key = λ (k : Text).
        get-set_defaults vp is_set viper (codes "feedbackListeners.queue." ++ k)
          feedback_consumer_defaults v in
      λ i.
        consumer_of vp (key (codes "topics") (texts (codes "com.games.test" ∷ [])) refl i)
          (key (codes "brokers") (text (codes "localhost:9092")) refl i)
          (key (codes "group") (text (codes "test")) refl i)
          (key (codes "offsetResetStrategy") (text (codes "latest")) refl i)
          (key (codes "channelSize") (number (pos 100)) refl i)
          (key (codes "fetch.min.bytes") (number (pos 1)) refl i)
          (key (codes "fetch.wait.max.ms") (number (pos 100)) refl i)
          (key (codes "sessionTimeout") (number (pos 6000)) refl i)
          (key (codes "handleAllMessagesBeforeExiting") (flag true) refl i)

  -- With viper as documented: the consumer of pushes and the one of feedback are configured alike, each by
  -- the keys under its own prefix, with the value that is set for a key and the program's default where none
  -- is set; so a wait group is made exactly where handleAllMessagesBeforeExiting says so.
  pub new_consumers_lem :
      (new_consumer : ConsumerConfig → Bool) (client_given : Bool) (v : V)
      → ((new_kafka_consumer vp room new_consumer client_given v).0
          ≡ configure_consumer vp room new_consumer pushed_message client_given
              (consumer_by vp (codes "queue.") (setting vp is_set v)))
        × ((new_feedback_consumer vp room new_consumer client_given v).0
            ≡ configure_consumer vp room new_consumer queued_message client_given
                (consumer_by vp (codes "feedbackListeners.queue.") (setting vp is_set v)))
  unfolding new_kafka_consumer new_feedback_consumer
  new_consumers_lem new_consumer client_given v = (
    ap (configure_consumer vp room new_consumer pushed_message client_given)
        (consumer_from-consumer_by v),
    ap (configure_consumer vp room new_consumer queued_message client_given)
        (feedback_consumer_from-consumer_by v),
  )

  -- With viper as documented: the default that NewKafkaProducer sets for its topic has no effect; the topic
  -- is what the configuration had for "feedback.kafka.topics" before, set or not.
  pub producer_topic_lem :
      (v : V)
      → (producer_from vp (set_defaults vp producer_defaults v)).topic
        ≡ vp.to_string (vp.get (codes "feedback.kafka.topics") v)
  unfolding producer_from apart pusher.Value.Decode.lower
  producer_topic_lem v =
      ap vp.to_string (
        apart-set_defaults vp is_set viper (codes "feedback.kafka.topics") producer_defaults v refl)
