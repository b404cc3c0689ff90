-- ===== src/RateLimiter.antt =====
-- extensions/rate_limiter.go: at most so many messages of a device in a minute.
pub mod Laws
use pusher.Base.{
  ℕ, Bool, true, false, List, [], ◌++◌, Option, none, some, Text, codes, if◌then◌else◌,
}
use pusher.Value.Decode.{ℤ, int_leb, parse_int, format_uint}
use pusher.Effects.{Report, stats_reporter_notification_rate_limit_failed}
use pusher.Redis.{Redis, GetReply, value, missing, get_failed}

pub record RateLimiter : Type 0 where
  pub rpm_limit : ℤ
  pub stats_reporters : List ℕ

-- `fmt.Sprintf("%s:%d", device, time.Now().Minute())`
unfoldable pub device_key : Text → ℕ → Text
device_key device minute = device ++ (codes ":" ++ format_uint minute)

module _ {S : Type 0} (r : Redis S) (limiter : RateLimiter) where
  abbrev pub report_failed : Text → Text → List Report
  report_failed game platform =
      stats_reporter_notification_rate_limit_failed limiter.stats_reporters game platform

  abbrev pub if_failed : Bool → List Report → List Report
  if_failed true reports = reports
  if_failed false reports = []

  -- The value that is read is a number: refuse at the limit, otherwise count the message.
  abbrev pub allow_current : Text → Text → Text → Option ℤ → S → Bool × List Report × S
  allow_current key game platform none s = (true, report_failed game platform, s)
  allow_current key game platform (some current) s =
      if int_leb limiter.rpm_limit current
      then (false, [], s)
      else (let (failed, s') = r.incr_and_expire key s in
          (true, if_failed failed (report_failed game platform), s'))

  abbrev pub allow_reply : Text → Text → Text → GetReply → S → Bool × List Report × S
  allow_reply key game platform get_failed s = (true, report_failed game platform, s)
  allow_reply key game platform missing s =
      allow_current key game platform (parse_int (codes "0")) s
  allow_reply key game platform (value t) s = allow_current key game platform (parse_int t) s

  unfoldable pub allow : ℕ → Text → Text → Text → S → Bool × List Report × S
  allow minute device game platform s =
      let key = device_key device minute in allow_reply key game platform (r.get key s) s
