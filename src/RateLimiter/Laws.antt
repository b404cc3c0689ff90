-- ===== src/RateLimiter/Laws.antt =====
-- How many messages the rate limiter lets through.
use Prim.Native.Nat.{min}
use pusher.Base.{
  ℕ, zero, suc, ◌+◌, ◌-◌, ◌<◌, ◌≤◌, [], some, ◌≡◌, inl, inr, refl, ◌∙◌, Text, ≟_refl, leb,
  if◌then◌else◌, arith, not, Bool-cases,
}
use pusher.Value.Decode.{pos, parse_int}
use pusher.Redis.{Redis, Counts}
use pusher.RateLimiter.{RateLimiter, device_key, allow_current, allow}

module _ {S : Type 0} (r : Redis S) (count : Text → S → ℕ) (top : ℕ) (works : Counts r count top)
    (limiter : RateLimiter) (limit : ℕ) (limited : limiter.rpm_limit ≡ pos limit)
    (fits : limit ≤ top) (minute : ℕ) (device game platform : Text) where
  abbrev key : Text
  key = device_key device minute

  allow_current_lem :
      (s : S)
      → allow r limiter minute device game platform s
        ≡ allow_current r limiter key game platform (some (pos (count key s))) s
  unfolding allow
  allow_current_lem s = elim (works.get_count key s) [
    | inl (e, z) ↦ rw (e, z) (unfold parse_int in refl)
    | inr (t, e, p) ↦ rw (e, p)
  ]

  -- With a Redis that answers, and a limit that its counters can hold: the message is let
  -- through exactly while fewer than the limit are counted for the device in this minute, it is
  -- counted exactly if it is let through, and no failure is reported.
  allow_counts :
      (s : S)
      → ((allow r limiter minute device game platform s).0 ≡ not (leb limit (count key s)))
        × (count key (allow r limiter minute device game platform s).2
            ≡ (if leb limit (count key s) then count key s else count key s + 1))
        × ((allow r limiter minute device game platform s).1 ≡ [])
  allow_counts s = elim (Bool-cases (leb limit (count key s))) [
    | inl e ↦ rw (allow_current_lem s, limited, e) (refl, refl, refl)
    | inr e ↦
        let below : count key s < top = ground (arith, e, fits) in
        rw (allow_current_lem s, limited, e)
          (
            refl,
            works.incr_counts key key s below ∙ rw (≟_refl key),
            rw (works.incr_works key s below),
          )
  ]

  -- So many messages of the device one after the other, within the minute: how many are let through.
  unfoldable pub passed : ℕ → S → ℕ
  passed zero s = 0
  passed (suc n) s =
      let answer = allow r limiter minute device game platform s in
      let rest = passed n answer.2 in if answer.0 then suc rest else rest

  -- With a Redis that answers, and a limit that its counters can hold: of any number of
  -- messages of a device within the minute, one after the other, exactly as many pass as are
  -- left of the limit.
  pub passed_lem : (n : ℕ) (s : S) → passed n s ≡ min n (limit - count key s)
  unfolding passed
  passed_lem zero s = omega arith
  passed_lem (suc n) s =
      let (answer, counted, _) = allow_counts s in
      let rest = passed_lem n (allow r limiter minute device game platform s).2 in
      elim (Bool-cases (leb limit (count key s))) [
        | inl e ↦ rw (answer, e) (ground (arith, rest, counted, e))
        | inr e ↦ rw (answer, e) (ground (arith, rest, counted, e))
      ]
