-- ===== src/Tests/Services.antt =====
-- The rate limiter and the deduplication, with a server in memory.
use Prim.Native.Nat.{min}
use pusher.Base.{
  ℕ, zero, suc, ◌+◌, ◌-◌, ◌≤◌, ◌<◌, Bool, true, false, List, [], ◌∷◌, some, ◌≡◌, ◌⊎◌, ◌∙◌, inl, inr,
  refl, Text, codes, ◌≟◌, ≟-eq, if◌then◌else◌, arith, Bool-cases, subst, ap,
}
use pusher.Value.Decode.{pos, parse_int}
use pusher.Redis.{Counts, value, missing}
use pusher.RateLimiter.{device_key}
use pusher.RateLimiter.Laws.{passed, passed_lem}
use pusher.Dedup.{is_sampled, percentage_of, is_unique}
use pusher.Dedup.Laws.{Remembers, Check, after, repetition_not_unique}
use pusher.Tests.Data.{memory, limiter, dedup, seen, two, raw_count, count, reply_of, incr}

two_le : (n : ℕ) → two n ≤ 2
two_le zero = omega arith
two_le (suc zero) = omega arith
two_le (suc (suc n)) = omega arith

replies :
    (n : ℕ)
    → ((reply_of n ≡ missing) × (two n ≡ 0))
      ⊎ ((t : Text) × (reply_of n ≡ value t) × (parse_int t ≡ some (pos (two n))))
unfolding parse_int
replies zero = inl (refl, refl)
replies (suc zero) = inr (codes "1", refl, refl)
replies (suc (suc n)) = inr (codes "2", refl, refl)

counted : (k : Text) (s : List Text) (n : ℕ) → two n < 2 → (incr n k s ≡ (false, k ∷ s)) × (n < 2)
counted k s zero h = (refl, omega arith)
counted k s (suc zero) h = (refl, omega arith)
counted k s (suc (suc n)) h = absurd (omega arith)

two-suc :
    (b : Bool) (n : ℕ)
    → (b ≡ true → n < 2)
    → two (if b then suc n else n) ≡ (if b then two n + 1 else two n)
two-suc false n h = refl
two-suc true zero h = refl
two-suc true (suc zero) h = refl
two-suc true (suc (suc n)) h = absurd (omega (arith, h refl))

counts :
    (k j : Text) (s : List Text)
    → count k s < 2
    → count j (memory.incr_and_expire k s).1 ≡ (if k ≟ j then count j s + 1 else count j s)
counts k j s h =
    let (e, below) = counted k s (raw_count k s) h in
    ap (λ (x : Bool × List Text). count j x.1) e
    ∙ two-suc (k ≟ j) (raw_count j s)
        (λ y. subst (λ (x : Text). raw_count x s < 2) (≟-eq k j y) below)

memory-Counts : Counts memory count 2
memory-Counts = record {
  count_le = λ k s. two_le (raw_count k s);
  get_count = λ k s. replies (raw_count k s);
  incr_works = λ k s h. ap (λ x. x.0) (counted k s (raw_count k s) h).0;
  incr_counts = counts;
}

sees :
    (k j : Text) (s : List Text) → seen j (memory.set_nx k s).1 ≡ (if k ≟ j then true else seen j s)
sees k j s = elim (Bool-cases (seen k s)) [
  | inl e ↦ rw e (elim (Bool-cases (k ≟ j)) [
    | inl y ↦ rw y (subst (λ (x : Text). seen x s ≡ true) (≟-eq k j y) e)
    | inr n ↦ rw n refl
  ])
  | inr e ↦ rw e (ground arith)
]

memory-Remembers : Remembers memory seen
memory-Remembers = record {
  set_new = λ k s h. rw h refl;
  set_old = λ k s h. rw h refl;
  set_sees = sees;
}

abbrev the_key : Text
the_key = device_key (codes "device") 7

passed_lem_example :
    passed memory count 2 memory-Counts limiter 2 refl
      (omega arith)
      7
      (codes "device")
      (codes "mygame")
      (codes "apns")
      5
      []
    ≡ min 5 (2 - count the_key [])
passed_lem_example =
    passed_lem memory count 2 memory-Counts limiter 2 refl (omega arith) 7 (codes "device")
      (codes "mygame") (codes "apns") 5 []

device_is_sampled :
    is_sampled (percentage_of (codes "mygame") dedup.game_percentages) (codes "device") ≡ true
unfolding is_sampled percentage_of
device_is_sampled = refl

abbrev check_one : Check
check_one = record {
  device = codes "device";
  msg = codes "{}";
  game = codes "mygame";
  platform = codes "apns";
}

abbrev check_two : Check
check_two = record check_one { device = codes "another" }

repetition_not_unique_example :
    (is_unique memory dedup (codes "device") (codes "{}") (codes "mygame") (codes "apns") (
      after memory seen memory-Remembers dedup
        (check_two ∷ [])
        (is_unique memory dedup
          (codes "device")
          (codes "{}")
          (codes "mygame")
          (codes "apns")
          []).1)).0
    ≡ false
repetition_not_unique_example =
    repetition_not_unique memory seen memory-Remembers dedup check_one (check_two ∷ []) []
      device_is_sampled
