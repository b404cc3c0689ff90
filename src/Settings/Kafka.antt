-- ===== src/Settings/Kafka.antt =====
-- The Kafka consumers of extensions/kafka_consumer.go and feedback/kafka_consumer.go, and the producer of
-- extensions/kafka_producer.go, from the configuration.
use pusher.Base.{ℕ, Bool, true, List, [], ◌∷◌, Text, codes, if◌then◌else◌}
use pusher.Value.Decode.{ℤ, pos}
use pusher.Settings.{
  Setting, text, number, flag, texts, Viper, get_string, get_int, get_bool, get_string_slice,
  set_defaults, Made, Element, pushed_message, queued_message, make_chan, when_ok,
}

-- What configure sets in a KafkaConsumer; `has_wait_group` tells if it has made a wait group.
pub record ConsumerSettings : Type 0 where
  pub topics : List Text
  pub brokers : Text
  pub consumer_group : Text
  pub offset_reset_strategy : Text
  pub channel_size : ℤ
  pub fetch_min_bytes : ℤ
  pub fetch_wait_max_ms : ℤ
  pub session_timeout : ℤ
  pub has_wait_group : Bool

-- The kafka.ConfigMap that a consumer is made with.
pub record ConsumerConfig : Type 0 where
  pub bootstrap_servers : Text
  pub group_id : Text
  pub fetch_min_bytes : ℤ
  pub fetch_wait_max_ms : ℤ
  pub session_timeout_ms : ℤ
  pub enable_auto_commit : Bool
  pub auto_offset_reset : Text

abbrev pub consumer_config : ConsumerSettings → ConsumerConfig
consumer_config q = record {
  bootstrap_servers = q.brokers;
  group_id = q.consumer_group;
  fetch_min_bytes = q.fetch_min_bytes;
  fetch_wait_max_ms = q.fetch_wait_max_ms;
  session_timeout_ms = q.session_timeout;
  enable_auto_commit = true;
  auto_offset_reset = q.offset_reset_strategy;
}

abbrev pub consumer_defaults : List (Text × Setting)
consumer_defaults =
    (codes "queue.topics", texts (codes "com.games.test" ∷ []))
    ∷ (codes "queue.brokers", text (codes "localhost:9092"))
    ∷ (codes "queue.channelSize", number (pos 100))
    ∷ (codes "queue.fetch.min.bytes", number (pos 1))
    ∷ (codes "queue.fetch.wait.max.ms", number (pos 100))
    ∷ (codes "queue.group", text (codes "test"))
    ∷ (codes "queue.sessionTimeout", number (pos 6000))
    ∷ (codes "queue.offsetResetStrategy", text (codes "latest"))
    ∷ (codes "queue.handleAllMessagesBeforeExiting", flag true)
    ∷ []

abbrev pub feedback_consumer_defaults : List (Text × Setting)
feedback_consumer_defaults =
    (codes "feedbackListeners.queue.topics", texts (codes "com.games.test" ∷ []))
    ∷ (codes "feedbackListeners.queue.brokers", text (codes "localhost:9092"))
    ∷ (codes "feedbackListeners.queue.channelSize", number (pos 100))
    ∷ (codes "feedbackListeners.queue.fetch.min.bytes", number (pos 1))
    ∷ (codes "feedbackListeners.queue.fetch.wait.max.ms", number (pos 100))
    ∷ (codes "feedbackListeners.queue.group", text (codes "test"))
    ∷ (codes "feedbackListeners.queue.sessionTimeout", number (pos 6000))
    ∷ (codes "feedbackListeners.queue.offsetResetStrategy", text (codes "latest"))
    ∷ (codes "feedbackListeners.queue.handleAllMessagesBeforeExiting", flag true)
    ∷ []

-- What configure sets in a KafkaProducer.
pub record ProducerSettings : Type 0 where
  pub brokers : Text
  pub topic : Text
  pub batch_size : ℤ
  pub linger_ms : ℤ

-- The kafka.ConfigMap that a producer is made with.
pub record ProducerConfig : Type 0 where
  pub queue_buffering_max_kbytes : ℤ
  pub linger_ms : ℤ
  pub bootstrap_servers : Text

abbrev pub producer_defaults : List (Text × Setting)
producer_defaults =
    (codes "feedback.kafka.topic", text (codes "com.games.test.feedbacks"))
    ∷ (codes "feedback.kafka.brokers", text (codes "localhost:9941"))
    ∷ (codes "feedback.kafka.linger.ms", number (pos 0))
    ∷ (codes "feedback.kafka.batch.size", number (pos 1048576))
    ∷ []

module _ {V : Type 0} (vp : Viper V) where
  unfoldable pub consumer_from : V → ConsumerSettings
  consumer_from v = record {
    topics = get_string_slice vp (codes "queue.topics") v;
    brokers = get_string vp (codes "queue.brokers") v;
    consumer_group = get_string vp (codes "queue.group") v;
    offset_reset_strategy = get_string vp (codes "queue.offsetResetStrategy") v;
    channel_size = get_int vp (codes "queue.channelSize") v;
    fetch_min_bytes = get_int vp (codes "queue.fetch.min.bytes") v;
    fetch_wait_max_ms = get_int vp (codes "queue.fetch.wait.max.ms") v;
    session_timeout = get_int vp (codes "queue.sessionTimeout") v;
    has_wait_group = get_bool vp (codes "queue.handleAllMessagesBeforeExiting") v;
  }

  unfoldable pub feedback_consumer_from : V → ConsumerSettings
  feedback_consumer_from v = record {
    topics = get_string_slice vp (codes "feedbackListeners.queue.topics") v;
    brokers = get_string vp (codes "feedbackListeners.queue.brokers") v;
    consumer_group = get_string vp (codes "feedbackListeners.queue.group") v;
    offset_reset_strategy = get_string vp (codes "feedbackListeners.queue.offsetResetStrategy") v;
    channel_size = get_int vp (codes "feedbackListeners.queue.channelSize") v;
    fetch_min_bytes = get_int vp (codes "feedbackListeners.queue.fetch.min.bytes") v;
    fetch_wait_max_ms = get_int vp (codes "feedbackListeners.queue.fetch.wait.max.ms") v;
    session_timeout = get_int vp (codes "feedbackListeners.queue.sessionTimeout") v;
    has_wait_group = get_bool vp (codes "feedbackListeners.queue.handleAllMessagesBeforeExiting") v;
  }

  -- NewKafkaConsumer, with the client of the caller or one that `kafka.NewConsumer` makes.
  module _ (room : Element → ℕ → Bool) (new_consumer : ConsumerConfig → Bool) where
    -- configureConsumer, after the message channel is made, of the elements of the consumer.
    unfoldable pub configure_consumer : Element → Bool → ConsumerSettings → Made ConsumerSettings
    configure_consumer element client_given q =
        make_chan room element q.channel_size
          (when_ok (if client_given then true else new_consumer (consumer_config q)) q)

    unfoldable pub new_kafka_consumer : Bool → V → Made ConsumerSettings × V
    unfolding set_defaults consumer_from configure_consumer
    new_kafka_consumer client_given v =
        let v' = set_defaults vp consumer_defaults v in
        (configure_consumer pushed_message client_given (consumer_from v'), v')

    unfoldable pub new_feedback_consumer : Bool → V → Made ConsumerSettings × V
    unfolding set_defaults feedback_consumer_from configure_consumer
    new_feedback_consumer client_given v =
        let v' = set_defaults vp feedback_consumer_defaults v in
        (configure_consumer queued_message client_given (feedback_consumer_from v'), v')

  -- configure of the KafkaProducer: the default is for "topic", the key that is read is "topics".
  unfoldable pub producer_from : V → ProducerSettings
  producer_from v = record {
    brokers = get_string vp (codes "feedback.kafka.brokers") v;
    topic = get_string vp (codes "feedback.kafka.topics") v;
    batch_size = get_int vp (codes "feedback.kafka.batch.size") v;
    linger_ms = get_int vp (codes "feedback.kafka.linger.ms") v;
  }

  abbrev pub producer_config : ProducerSettings → ProducerConfig
  producer_config q = record {
    queue_buffering_max_kbytes = q.batch_size;
    linger_ms = q.linger_ms;
    bootstrap_servers = q.brokers;
  }

  -- NewKafkaProducer.
  unfoldable pub new_kafka_producer : (ProducerConfig → Bool) → Bool → V → Made ProducerSettings × V
  unfolding set_defaults producer_from
  new_kafka_producer new_producer client_given v =
      let v' = set_defaults vp producer_defaults v in
      let q = producer_from v' in
      (when_ok (if client_given then true else new_producer (producer_config q)) q, v')
