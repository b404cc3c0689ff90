-- ===== src/Tests/Data.antt =====
-- Handlers, services and messages that the examples share.
use pusher.Base.{
  ℕ, zero, suc, Bool, true, false, ◌||◌, List, [], ◌∷◌, Option, none, some, Text, codes, ◌≟◌,
  if◌then◌else◌,
}
use pusher.Value.{Value, nil, str, obj, Fields, end, field}
use pusher.Value.Decode.{pos}
use pusher.Effects.{Services}
use pusher.Redis.{Redis, GetReply, value, missing, status, exists}
use pusher.RateLimiter.{RateLimiter}
use pusher.Dedup.{Dedup, redis_services}
use pusher.Apns.{KafkaMessage, ApnsNotification, ApnsMessageHandler, Env}
use pusher.Apns.Reasons.{Reason, unregistered, other, map_error_reason}
use pusher.Apns.Responses.{ApnsResponse, Apns2, ResponseWithMetadata}

-- A server that knows which keys were written, and counts up to two.
abbrev pub seen : Text → List Text → Bool
seen k [] = false
seen k (j ∷ s) = j ≟ k || seen k s

abbrev pub two : ℕ → ℕ
two zero = 0
two (suc zero) = 1
two (suc (suc n)) = 2

abbrev pub raw_count : Text → List Text → ℕ
raw_count k [] = 0
raw_count k (j ∷ s) = let n = raw_count k s in if j ≟ k then suc n else n

abbrev pub count : Text → List Text → ℕ
count k s = two (raw_count k s)

abbrev pub reply_of : ℕ → GetReply
reply_of zero = missing
reply_of (suc zero) = value (codes "1")
reply_of (suc (suc n)) = value (codes "2")

abbrev pub incr : ℕ → Text → List Text → Bool × List Text
incr (suc (suc n)) k s = (true, s)
incr _ k s = (false, k ∷ s)

abbrev pub memory : Redis (List Text)
memory = record {
  get = λ k s. reply_of (raw_count k s);
  set_nx = λ k s. if seen k s then (exists, s) else (status (codes "OK"), k ∷ s);
  incr_and_expire = λ k s. incr (raw_count k s) k s;
}

abbrev pub limiter : RateLimiter
limiter = record { rpm_limit = pos 2; stats_reporters = 0 ∷ [] }

abbrev pub dedup : Dedup
dedup = record { game_percentages = (codes "mygame", pos 100) ∷ [] }

abbrev pub services : Services (List Text)
services = redis_services memory dedup limiter 7

abbrev pub apns_handler : ApnsMessageHandler
apns_handler = record {
  app_name = codes "mygame";
  apns_topic = codes "com.example.mygame";
  stats_reporters = 0 ∷ [];
  feedback_reporters = 0 ∷ [];
  pending_messages_wg = true;
  max_retry_attempts = 2;
}

-- Bytes for a value, enough to tell the values of the examples apart.
abbrev pub marshal : Value → Option Text
marshal nil = some (codes "null")
marshal (str t) = some t
marshal (obj m) = some (codes "{...}")
marshal _ = none

abbrev pub env : Env
env = record {
  make_timestamp = 1000;
  now_unix = 1;
  hostname = some (codes "host");
  new_uuid = codes "uuid";
  elapsed = 3;
  marshal = marshal;
}

abbrev pub metadata : Fields
metadata = field (codes "job") (str (codes "daily")) end

abbrev pub m_entry : Fields
m_entry = field (codes "title") (str (codes "hello")) end

abbrev pub payload : Fields
payload = field (codes "M") (obj m_entry) (field (codes "aps") (str (codes "alert")) end)

abbrev pub apns_message : KafkaMessage
apns_message = record {
  game = codes "mygame";
  platform = codes "apns";
  topic = codes "push-mygame_apns-single";
  value = some (
      obj (
        field (codes "DeviceToken") (str (codes "device"))
          (field (codes "Payload") (obj payload) (field (codes "metadata") (obj metadata) end))));
}

abbrev pub notification : ApnsNotification
notification = record {
  topic = codes "com.example.mygame";
  device_token = codes "device";
  payload = codes "{...}";
  apns_id = codes "uuid";
  collapse_id = [];
  metadata = some metadata;
  send_attempts = 1;
}

abbrev pub answer : Reason → ApnsResponse
answer r = record { status_code = 429; reason = r; apns_id = codes "uuid"; sent = false }

abbrev pub failure : ResponseWithMetadata
failure = record {
  sent = false;
  status_code = 410;
  reason = unregistered;
  apns_id = codes "uuid";
  err = none;
  device_token = codes "device";
  timestamp = 0;
  metadata = none;
  notification = notification;
}

-- Reasons written by their keys, and any notification as a string.
abbrev text_of : Reason → Text
text_of (other t) = t
text_of r = map_error_reason r

abbrev pub apns2 : Apns2
apns2 = record { reason_text = text_of; encode_notification = λ n. some (str n.payload) }
