-- ===== src/Settings/Services.antt =====
-- The clients of Redis and the Firebase handler, from the configuration: NewRateLimiter of
-- extensions/rate_limiter.go, NewDedup of extensions/dedup_messages.go, NewMessageHandler of
-- extensions/firebase/message_handler.go.
use pusher.Base.{ℕ, Bool, not, List, Text, codes}
use pusher.Value.Decode.{ℤ, pos}
use pusher.RateLimiter.{RateLimiter}
use pusher.Dedup.{Dedup}
use pusher.Settings.{
  Viper, address, get_string, get_int, get_bool, Made, made, Element, lease, firebase_response,
  make_chan,
}

-- redis.Options; `tls` tells if a TLS configuration is there.
pub record RedisOptions : Type 0 where
  pub addr : Text
  pub password : Text
  pub db : ℕ
  pub tls : Bool

-- The database of the deduplication.
abbrev pub dedup_redis_db : ℕ
dedup_redis_db = 1

-- What NewMessageHandler makes of its number of workers; the interval in seconds. `free` counts what the
-- loop puts on sendPushConcurrencyControl.
pub record FirebaseSettings : Type 0 where
  pub status_log_interval : ℕ
  pub concurrent_response_handlers : ℤ
  pub concurrency_control_size : ℤ
  pub free : ℕ
  pub responses_channel_size : ℤ

module _ {V : Type 0} (vp : Viper V) where
  -- NewRateLimiter
  unfoldable pub new_rate_limiter : ℤ → List ℕ → V → RedisOptions × RateLimiter
  unfolding address
  new_rate_limiter limit reporters v = (
    record {
      addr =
          address (get_string vp (codes "rateLimiter.redis.host") v)
            (get_int vp (codes "rateLimiter.redis.port") v);
      password = get_string vp (codes "rateLimiter.redis.password") v;
      db = 0;
      tls = not (get_bool vp (codes "rateLimiter.tls.disabled") v);
    },
    record { rpm_limit = limit; stats_reporters = reporters },
  )

  -- NewDedup; `decode_games` is the map that `json.Unmarshal` of the games leaves.
  unfoldable pub new_dedup : (Text → List (Text × ℤ)) → V → RedisOptions × Dedup
  unfolding address
  new_dedup decode_games v = (
    record {
      addr =
          address (get_string vp (codes "dedup.redis.host") v)
            (get_int vp (codes "dedup.redis.port") v);
      password = get_string vp (codes "dedup.redis.password") v;
      db = dedup_redis_db;
      tls = not (get_bool vp (codes "dedup.tls.disabled") v);
    },
    record { game_percentages = decode_games (get_string vp (codes "dedup.games") v) },
  )

-- How often the loop from 0 below `n` runs.
abbrev pub rounds_of : ℤ → ℕ
rounds_of (pos n) = n
rounds_of _ = 0

-- NewMessageHandler: the channel of leases, and the one of responses.
unfoldable pub new_message_handler : (Element → ℕ → Bool) → ℤ → Made FirebaseSettings
new_message_handler room concurrent_workers = make_chan room lease concurrent_workers (
    make_chan room firebase_response concurrent_workers (
      made (record {
        status_log_interval = 5;
        concurrent_response_handlers = concurrent_workers;
        concurrency_control_size = concurrent_workers;
        free = rounds_of concurrent_workers;
        responses_channel_size = concurrent_workers;
      })))
