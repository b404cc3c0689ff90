-- ===== src/Redis.antt =====
-- The Redis server and its client, which the rate limiter and the deduplication use: parameters of
-- the model, with the documented behaviour of the commands as laws.
use pusher.Base.{ℕ, ◌+◌, ◌≤◌, ◌<◌, Bool, false, some, ◌≡◌, ◌⊎◌, Text, ◌≟◌, if◌then◌else◌}
use pusher.Value.Decode.{pos, parse_int}

-- `GET`: a value, `redis.Nil`, or another error.
pub data GetReply : Type 0 where
  value : Text → GetReply
  missing get_failed : GetReply

-- `SET key v NX`: the status text, `redis.Nil` where the key is there, or another error.
pub data SetReply : Type 0 where
  status : Text → SetReply
  exists set_failed : SetReply

-- The commands over a server state `S`. `incr_and_expire` is the pipelined transaction of `INCR` and
-- `EXPIRE`, with `true` for an error.
pub record Redis (S : Type 0) : Type 0 where
  pub get : Text → S → GetReply
  pub set_nx : Text → S → SetReply × S
  pub incr_and_expire : Text → S → Bool × S

-- A server that answers: `count` is what the counters hold while their keys live, and `top` the
-- largest number that a counter holds.
pub record Counts {S : Type 0} (r : Redis S) (count : Text → S → ℕ) (top : ℕ) : Type 0 where
  pub count_le : (k : Text) (s : S) → count k s ≤ top
  pub get_count :
      (k : Text) (s : S)
      → ((r.get k s ≡ missing) × (count k s ≡ 0))
        ⊎ ((t : Text) × (r.get k s ≡ value t) × (parse_int t ≡ some (pos (count k s))))
  pub incr_works : (k : Text) (s : S) → count k s < top → (r.incr_and_expire k s).0 ≡ false
  pub incr_counts :
      (k j : Text) (s : S)
      → count k s < top
      → count j (r.incr_and_expire k s).1 ≡ (if k ≟ j then count j s + 1 else count j s)
