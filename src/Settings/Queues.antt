-- ===== src/Settings/Queues.antt =====
-- The APNS handler and its push queue: NewAPNSMessageHandler, configure and loadConfigurationDefaults of
-- extensions/apns/apns_message_handler.go, Configure of extensions/apns/apns_push_queue.go.
use pusher.Base.{ℕ, Bool, List, [], ◌∷◌, Option, none, some, Text, codes, if◌then◌else◌}
use pusher.Value.Decode.{ℤ, pos}
use pusher.Settings.{
  Setting, text, number, Viper, get_int, get_uint, get_duration, set_defaults, Made, made, failed,
  panics, Element, apns_client, apns_notification, apns_response, make_chan,
}

-- The capacities and counts of an APNSPushQueue that is configured.
pub record PushQueue : Type 0 where
  pub connection_pool_size : ℤ
  pub push_queue_size : ℤ
  pub response_channel_size : ℤ
  pub concurrent_workers : ℤ

-- What configure sets in an APNSMessageHandler; the interval between logs in milliseconds.
pub record HandlerSettings : Type 0 where
  pub log_stats_interval : ℤ
  pub cache_cleaning_interval : ℤ
  pub retry_interval : ℤ
  pub max_retry_attempts : ℕ
  pub push_queue : Option PushQueue

abbrev pub handler_defaults : List (Text × Setting)
handler_defaults =
    (codes "apns.concurrentWorkers", number (pos 10))
    ∷ (codes "apns.logStatsInterval", number (pos 5000))
    ∷ (codes "feedback.cache.cleaningInterval", number (pos 300000))
    ∷ (codes "apns.retry.interval", text (codes "1s"))
    ∷ (codes "apns.retry.maxRetryAttempts", number (pos 3))
    ∷ []

abbrev pub queue_defaults : List (Text × Setting)
queue_defaults =
    (codes "apns.connectionPoolSize", number (pos 1))
    ∷ (codes "apns.pushQueueSize", number (pos 100))
    ∷ (codes "apns.responseChannelSize", number (pos 100))
    ∷ []

module _ {V : Type 0} (vp : Viper V) (room : Element → ℕ → Bool) where
  -- The three channels are made in this order, and the workers are started.
  unfoldable pub queue_from : V → Made PushQueue
  queue_from v =
      let pool = get_int vp (codes "apns.connectionPoolSize") v in
      let pushes = get_int vp (codes "apns.pushQueueSize") v in
      let responses = get_int vp (codes "apns.responseChannelSize") v in
      make_chan room apns_client pool (
        make_chan room apns_notification pushes (
          make_chan room apns_response responses (
            made (record {
              connection_pool_size = pool;
              push_queue_size = pushes;
              response_channel_size = responses;
              concurrent_workers = get_int vp (codes "apns.concurrentWorkers") v;
            }))))

  -- Configure; `key_loads` is the outcome of configureCertificate.
  unfoldable pub configure_queue : Bool → V → Made PushQueue × V
  unfolding set_defaults queue_from
  configure_queue key_loads v =
      let v' = set_defaults vp queue_defaults v in
      if key_loads then (queue_from v', v') else (failed, v)

  abbrev pub handler_from : V → Option PushQueue → HandlerSettings
  handler_from v queue = record {
    log_stats_interval = get_int vp (codes "apns.logStatsInterval") v;
    cache_cleaning_interval = get_int vp (codes "feedback.cache.cleaningInterval") v;
    retry_interval = get_duration vp (codes "apns.retry.interval") v;
    max_retry_attempts = get_uint vp (codes "apns.retry.maxRetryAttempts") v;
    push_queue = queue;
  }

  abbrev pub with_queue : V → Made PushQueue × V → Made HandlerSettings × V
  with_queue v (made q, v') = (made (handler_from v (some q)), v')
  with_queue v (failed, v') = (failed, v')
  with_queue v (panics, v') = (panics, v')

  -- NewAPNSMessageHandler; a queue of the caller's is used as it is.
  unfoldable pub new_apns_message_handler : Bool → Bool → V → Made HandlerSettings × V
  unfolding set_defaults configure_queue
  new_apns_message_handler queue_given key_loads v =
      let v' = set_defaults vp handler_defaults v in
      if queue_given
      then (made (handler_from v' none), v')
      else with_queue v' (configure_queue key_loads v')
