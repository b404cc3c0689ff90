-- ===== src/Dedup.antt =====
-- extensions/dedup_messages.go: whether a message to a device was seen before, for a sample of the
-- devices of a game.
pub mod Laws
use Prim.Native.Nat.{bit_xor}
use pusher.Base.{
  ℕ, ◌*◌, ◌/◌, ◌%◌, ◌^◌, Bool, true, false, ◌&&◌, not, List, [], ◌∷◌, ◌++◌, Text, codes, ◌≟◌, leb,
  ltb, ◌==◌, if◌then◌else◌,
}
use pusher.Value.Decode.{ℤ, pos, negsuc, format_uint}
use pusher.Effects.{Services}
use pusher.Redis.{Redis, SetReply, status, exists, set_failed}
use pusher.RateLimiter.{RateLimiter, allow}

pub record Dedup : Type 0 where
  pub game_percentages : List (Text × ℤ)

-- `d.gamePercentages[game]`
unfoldable pub percentage_of : Text → List (Text × ℤ) → ℤ
percentage_of game [] = pos 0
percentage_of game ((g, p) ∷ m) = if g ≟ game then p else percentage_of game m

-- `hash/fnv`, New64a: the hash goes on from `h` over the bytes.
unfoldable pub fnv_write : ℕ → Text → ℕ
fnv_write h [] = h
fnv_write h (b ∷ t) = fnv_write ((bit_xor h b * 1099511628211) % 2 ^ 64) t

abbrev pub fnv_offset : ℕ
fnv_offset = 14695981039346656037

unfoldable pub key_for : Text → Text → Text
unfolding fnv_write
key_for device msg =
    format_uint (fnv_write (fnv_write (fnv_write fnv_offset device) (codes "|")) msg)

-- The percentile of a device: the top 16 bits of its hash, modulo 100.
unfoldable pub sample_percentile : Text → ℕ
unfolding fnv_write
sample_percentile device = (fnv_write fnv_offset device / 2 ^ 48) % 100

-- Whether a device is checked at a percentage: the two tests before Redis is asked.
unfoldable pub is_sampled : ℤ → Text → Bool
is_sampled (pos p) device =
    if p == 0 then false else if ltb p 100 then not (leb p (sample_percentile device)) else true
is_sampled (negsuc p) device = true

-- A failure does not stand in the way of a message.
abbrev pub unique_reply : SetReply → Bool
unique_reply (status t) = t ≟ codes "OK"
unique_reply exists = false
unique_reply set_failed = true

module _ {S : Type 0} (r : Redis S) (d : Dedup) where
  abbrev pub ask_redis : Text → S → Bool × S
  ask_redis key s = let (reply, s') = r.set_nx key s in (unique_reply reply, s')

  unfoldable pub is_unique : Text → Text → Text → Text → S → Bool × S
  is_unique device msg game platform s =
      if is_sampled (percentage_of game d.game_percentages) device
      then ask_redis (key_for device msg) s
      else (true, s)

-- What the message handlers are given: both services over one Redis, in a given minute.
abbrev pub redis_services : {S : Type 0} → Redis S → Dedup → RateLimiter → ℕ → Services S
redis_services r d limiter minute = record {
  is_unique = is_unique r d;
  allow = allow r limiter minute;
}
