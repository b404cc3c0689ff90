-- ===== src/Settings/Listening.antt =====
-- The feedback listener from the configuration: NewListener of feedback/listener.go, NewBroker of
-- feedback/broker.go, NewInvalidTokenHandler of feedback/invalid_token.go and NewPGClient of
-- extensions/pg.go.
use pusher.Base.{ℕ, Bool, true, false, List, [], ◌∷◌, ◌++◌, Text, codes}
use pusher.Value.Decode.{ℤ, pos}
use pusher.Settings.{
  Setting, text, number, flag, Viper, address, get_string, get_int, get_bool, set_defaults, Made,
  made, failed, panics, Element, invalid_token, buffered_token, make_chan, when_ok,
}
use pusher.Settings.Reporters.{
  ReportersEnd, initialized, refused, client_panics, configured_reporters,
}
use pusher.Settings.Kafka.{ConsumerSettings, ConsumerConfig, new_feedback_consumer}

pub record BrokerSettings : Type 0 where
  pub invalid_token_enabled : Bool
  pub invalid_token_chan_size : ℤ
  pub has_wait_group : Bool

-- pg.Options; `tls` tells if a TLS configuration is there.
pub record PgOptions : Type 0 where
  pub addr : Text
  pub user : Text
  pub password : Text
  pub database : Text
  pub pool_size : ℤ
  pub max_retries : ℤ
  pub tls : Bool

-- The time between flushes in milliseconds.
pub record InvalidTokenSettings : Type 0 where
  pub flush_time : ℤ
  pub buffer_size : ℤ
  pub pg : PgOptions

-- The time between flushes of statistics and the timeout are in seconds.
pub record ListenerSettings : Type 0 where
  pub graceful_shutdown_timeout : ℤ
  pub stats_flush_time : ℤ
  pub queue : ConsumerSettings
  pub broker : BrokerSettings
  pub invalid_token_handler : InvalidTokenSettings

abbrev pub broker_defaults : List (Text × Setting)
broker_defaults =
    (codes "feedbackListeners.broker.invalidTokenChan.size", number (pos 1000))
    ∷ (codes "feedbackListeners.broker.invalidTokenEnabled", flag true)
    ∷ []

abbrev pub invalid_token_defaults : List (Text × Setting)
invalid_token_defaults =
    (codes "feedbackListeners.invalidToken.flush.time.ms", number (pos 5000))
    ∷ (codes "feedbackListeners.invalidToken.buffer.size", number (pos 1000))
    ∷ []

abbrev pub listener_defaults : List (Text × Setting)
listener_defaults =
    (codes "feedbackListeners.gracefulShutdownTimeout", number (pos 1))
    ∷ (codes "stats.flush.s", number (pos 5))
    ∷ (codes "pprof.enabled", flag false)
    ∷ (codes "pprof.host", text (codes "127.0.0.1"))
    ∷ (codes "pprof.port", number (pos 8081))
    ∷ []

module _ {V : Type 0} (vp : Viper V) (room : Element → ℕ → Bool) where
  abbrev pub broker_from : Bool → V → BrokerSettings
  broker_from has_wait_group v = record {
    invalid_token_enabled = get_bool vp (codes "feedbackListeners.broker.invalidTokenEnabled") v;
    invalid_token_chan_size = get_int vp (codes "feedbackListeners.broker.invalidTokenChan.size") v;
    has_wait_group = has_wait_group;
  }

  -- NewBroker
  unfoldable pub new_broker : Bool → V → Made BrokerSettings × V
  unfolding set_defaults
  new_broker has_wait_group v =
      let v' = set_defaults vp broker_defaults v in
      let b = broker_from has_wait_group v' in
      (make_chan room invalid_token b.invalid_token_chan_size (made b), v')

  -- Connect
  unfoldable pub pg_options : Text → V → PgOptions
  unfolding address
  pg_options prefix v = record {
    addr =
        address (get_string vp (prefix ++ codes ".host") v)
          (get_int vp (prefix ++ codes ".port") v);
    user = get_string vp (prefix ++ codes ".user") v;
    password = get_string vp (prefix ++ codes ".pass") v;
    database = get_string vp (prefix ++ codes ".database") v;
    pool_size = get_int vp (prefix ++ codes ".poolSize") v;
    max_retries = get_int vp (prefix ++ codes ".maxRetries") v;
    tls = get_bool vp (prefix ++ codes ".sslmode") v;
  }

  -- NewPGClient; `connects` is the outcome of WaitForConnection, by its options and timeout.
  unfoldable pub new_pg_client : (PgOptions → ℤ → Bool) → Text → V → Made PgOptions
  unfolding pg_options
  new_pg_client connects prefix v =
      let options = pg_options prefix v in
      when_ok (connects options (get_int vp (prefix ++ codes ".connectionTimeout") v)) options

  abbrev pub handler_with : V → Made PgOptions → Made InvalidTokenSettings
  handler_with v (made pg) = made (record {
    flush_time = get_int vp (codes "feedbackListeners.invalidToken.flush.time.ms") v;
    buffer_size = get_int vp (codes "feedbackListeners.invalidToken.buffer.size") v;
    pg = pg;
  })
  handler_with v failed = failed
  handler_with v panics = panics

  -- NewInvalidTokenHandler; `make` of the buffer comes before the database.
  unfoldable pub new_invalid_token_handler :
      (PgOptions → ℤ → Bool) → V → Made InvalidTokenSettings × V
  unfolding set_defaults new_pg_client
  new_invalid_token_handler connects v =
      let v' = set_defaults vp invalid_token_defaults v in
      (
        make_chan room buffered_token
            (get_int vp (codes "feedbackListeners.invalidToken.buffer.size") v')
            (handler_with v'
              (new_pg_client connects (codes "feedbackListeners.invalidToken.pg") v')),
        v',
      )

  module _ (new_consumer : ConsumerConfig → Bool) (connects : PgOptions → ℤ → Bool) where
    abbrev with_handler :
        ℤ
        → ℤ
        → ConsumerSettings
        → BrokerSettings
        → Made InvalidTokenSettings × V
        → Made ListenerSettings × V
    with_handler timeout flush q b (made h, v) = (
      made (record {
        graceful_shutdown_timeout = timeout;
        stats_flush_time = flush;
        queue = q;
        broker = b;
        invalid_token_handler = h;
      }),
      v,
    )
    with_handler timeout flush q b (failed, v) = (failed, v)
    with_handler timeout flush q b (panics, v) = (panics, v)

    abbrev with_broker :
        ℤ → ℤ → ConsumerSettings → Made BrokerSettings × V → Made ListenerSettings × V
    with_broker timeout flush q (made b, v) =
        with_handler timeout flush q b (new_invalid_token_handler connects v)
    with_broker timeout flush q (failed, v) = (failed, v)
    with_broker timeout flush q (panics, v) = (panics, v)

    abbrev with_queue : ℤ → ℤ → Made ConsumerSettings × V → Made ListenerSettings × V
    with_queue timeout flush (made q, v) =
        with_broker timeout flush q (new_broker q.has_wait_group v)
    with_queue timeout flush (failed, v) = (failed, v)
    with_queue timeout flush (panics, v) = (panics, v)

    abbrev with_reporters : ℤ → ReportersEnd × V → Made ListenerSettings × V
    with_reporters timeout (initialized names, v) =
        with_queue timeout (get_int vp (codes "stats.flush.s") v)
          (new_feedback_consumer vp room new_consumer false v)
    with_reporters timeout (refused, v) = (failed, v)
    with_reporters timeout (client_panics, v) = (panics, v)

    -- NewListener: the client of the consumer is nil, so that `kafka.NewConsumer` makes one.
    unfoldable pub new_listener : (Text → ℤ → Bool × Bool) → Bool → V → Made ListenerSettings × V
    unfolding set_defaults new_broker new_invalid_token_handler
    new_listener new_buffered client_given v =
        let v' = set_defaults vp listener_defaults v in
        with_reporters (get_int vp (codes "feedbackListeners.gracefulShutdownTimeout") v')
          (configured_reporters vp new_buffered client_given v')
