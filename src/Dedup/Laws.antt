-- ===== src/Dedup/Laws.antt =====
-- When a message counts as seen before.
use pusher.Base.{
  ℕ, ◌≤◌, Bool, true, false, List, [], ◌∷◌, ◌≡◌, inl, inr, ◌∙◌, Text, codes, ◌≟◌, ≟_refl,
  Bool-cases, if◌then◌else◌, not, arith,
}
use pusher.Value.Decode.{pos}
use pusher.Redis.{Redis, status, exists}
use pusher.Dedup.{Dedup, percentage_of, key_for, sample_percentile, is_sampled, is_unique}

-- A server that answers `SET key v NX`: `seen` says which keys are there.
pub record Remembers {S : Type 0} (r : Redis S) (seen : Text → S → Bool) : Type 0 where
  pub set_new : (k : Text) (s : S) → seen k s ≡ false → (r.set_nx k s).0 ≡ status (codes "OK")
  pub set_old : (k : Text) (s : S) → seen k s ≡ true → (r.set_nx k s).0 ≡ exists
  pub set_sees : (k j : Text) (s : S) → seen j (r.set_nx k s).1 ≡ (if k ≟ j then true else seen j s)

-- A device that is sampled at a percentage, which is not negative, is sampled at every higher
-- one.
is_sampled_mono :
    (p q : ℕ) (device : Text)
    → p ≤ q
    → is_sampled (pos p) device ≡ true
    → is_sampled (pos q) device ≡ true
unfolding is_sampled
is_sampled_mono p q device le h = ground (arith, sample_percentile device)

module _ {S : Type 0} (r : Redis S) (seen : Text → S → Bool) (works : Remembers r seen) (d : Dedup)
    (device msg game platform : Text) where
  abbrev key : Text
  key = key_for device msg

  abbrev sampled : Bool
  sampled = is_sampled (percentage_of game d.game_percentages) device

  -- With a Redis that remembers the keys that are set: a message is a duplicate exactly if its
  -- device is sampled for the game and its key is remembered.
  is_unique_iff :
      (s : S)
      → (is_unique r d device msg game platform s).0 ≡ (if sampled then not (seen key s) else true)
  unfolding is_unique
  is_unique_iff s = elim (Bool-cases sampled) [
    | inl e ↦ rw e (elim (Bool-cases (seen key s)) [
      | inl o ↦ rw (works.set_old key s o, o)
      | inr o ↦ rw (works.set_new key s o, o)
    ])
    | inr e ↦ rw e
  ]

  remembers :
      (s : S) → sampled ≡ true → seen key (is_unique r d device msg game platform s).1 ≡ true
  unfolding is_unique
  remembers s h = rw h (works.set_sees key key s ∙ rw (≟_refl key))

-- The arguments of one check.
pub record Check : Type 0 where
  pub device : Text
  pub msg : Text
  pub game : Text
  pub platform : Text

module _ {S : Type 0} (r : Redis S) (seen : Text → S → Bool) (works : Remembers r seen)
    (d : Dedup) where
  -- The state after a series of checks.
  unfoldable pub after : List Check → S → S
  after [] s = s
  after (c ∷ cs) s = after cs (is_unique r d c.device c.msg c.game c.platform s).1

  keeps_one :
      (c : Check) (k : Text) (s : S)
      → seen k s ≡ true
      → seen k (is_unique r d c.device c.msg c.game c.platform s).1 ≡ true
  unfolding is_unique
  keeps_one c k s h =
      elim (Bool-cases (is_sampled (percentage_of c.game d.game_percentages) c.device)) [
        | inl e ↦ rw e (
            works.set_sees (key_for c.device c.msg) k s
            ∙ ground (arith, h, Bool-cases (key_for c.device c.msg ≟ k)))
        | inr e ↦ rw e h
      ]

  keeps : (cs : List Check) (k : Text) (s : S) → seen k s ≡ true → seen k (after cs s) ≡ true
  unfolding after
  keeps [] k s h = h
  keeps (c ∷ cs) k s h = keeps cs k _ (keeps_one c k s h)

  -- With a Redis that remembers the keys that are set: once a message of a sampled device was
  -- checked, its repetition is a duplicate, whatever other messages are checked in between.
  pub repetition_not_unique :
      (c : Check) (between : List Check) (s : S)
      → is_sampled (percentage_of c.game d.game_percentages) c.device ≡ true
      → (is_unique r d c.device c.msg c.game c.platform
          (after between (is_unique r d c.device c.msg c.game c.platform s).1)).0
        ≡ false
  repetition_not_unique c between s h =
      is_unique_iff r seen works d c.device c.msg c.game c.platform _
      ∙ rw (
        h,
        keeps between (key_for c.device c.msg) _
            (remembers r seen works d c.device c.msg c.game c.platform s h),
      )
