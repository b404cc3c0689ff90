-- ===== src/Settings/Reads.antt =====
-- What a key reads after defaults: its explicit value, or else its default.
use pusher.Base.{
  Bool, true, false, ◌&&◌, List, [], ◌∷◌, ◌++◌, Option, none, some, ◌≡◌, ◌∙◌, refl, Text, ◌≟◌, ≟-eq,
  if◌then◌else◌, Bool-cases, inl, inr, subst, arith,
}
use pusher.Settings.{Setting, Viper, Documented, apart, set_defaults}

-- The default of a key in a list, where no later one is for a setting that meets it.
abbrev pub all_apart : Text → List (Text × Setting) → Bool
all_apart k [] = true
all_apart k ((j, s) ∷ ds) = apart k j && all_apart k ds

abbrev pub default_among : Text → List (Text × Setting) → Option Setting
default_among k [] = none
default_among k ((j, s) ∷ ds) =
    let rest = default_among k ds in
    if apart k j then rest else if k ≟ j && all_apart k ds then some s else none

module _ {V : Type 0} (vp : Viper V) (is_set : Text → V → Bool) where
  -- The reference: the explicit value of a key, or else the default.
  abbrev pub setting : V → Text → Setting → Option Setting
  setting v k d = if is_set k v then vp.get k v else some d

  module _ (viper : Documented vp is_set) where
    open viper use {same_is_set, explicit_wins, default_taken, others_kept}

    is_set-set_defaults :
        (k : Text) (ds : List (Text × Setting)) (v : V)
        → is_set k (set_defaults vp ds v) ≡ is_set k v
    unfolding set_defaults
    is_set-set_defaults k [] v = refl
    is_set-set_defaults k ((j, s) ∷ ds) v =
        is_set-set_defaults k ds (vp.set_default j s v) ∙ same_is_set k j s v

    explicit-set_defaults :
        (k : Text) (ds : List (Text × Setting)) (v : V)
        → is_set k v ≡ true
        → vp.get k (set_defaults vp ds v) ≡ vp.get k v
    unfolding set_defaults
    explicit-set_defaults k [] v e = refl
    explicit-set_defaults k ((j, s) ∷ ds) v e =
        explicit-set_defaults k ds (vp.set_default j s v) (same_is_set k j s v ∙ e)
        ∙ explicit_wins k j s v e

    pub apart-set_defaults :
        (k : Text) (ds : List (Text × Setting)) (v : V)
        → all_apart k ds ≡ true
        → vp.get k (set_defaults vp ds v) ≡ vp.get k v
    unfolding set_defaults
    apart-set_defaults k [] v e = refl
    apart-set_defaults k ((j, s) ∷ ds) v e =
        apart-set_defaults k ds (vp.set_default j s v) (ground arith)
        ∙ others_kept k j s v (ground arith)

    default-set_defaults :
        (k : Text) (ds : List (Text × Setting)) (v : V) {d : Setting}
        → is_set k v ≡ false
        → default_among k ds ≡ some d
        → vp.get k (set_defaults vp ds v) ≡ some d
    unfolding set_defaults
    default-set_defaults k [] v e f = cc
    default-set_defaults k ((j, s) ∷ ds) v {d} e f = elim (Bool-cases (apart k j)) [
      | inl far ↦
          default-set_defaults k ds (vp.set_default j s v) (same_is_set k j s v ∙ e) (ground arith)
      | inr near ↦
          let same : k ≡ j = ≟-eq k j (ground arith) in
          let one : some s ≡ some d = ground arith in
          apart-set_defaults k ds (vp.set_default j s v) (ground arith)
          ∙ subst (λ (i : Text). vp.get k (vp.set_default i s v) ≡ some s) same
              (default_taken k s v e)
          ∙ one
    ]

    -- A key with a default reads as the reference says, whatever other defaults there are.
    pub get-set_defaults :
        (k : Text) (ds : List (Text × Setting)) (v : V) (d : Setting)
        → default_among k ds ≡ some d
        → vp.get k (set_defaults vp ds v) ≡ setting v k d
    get-set_defaults k ds v d f = elim (Bool-cases (is_set k v)) [
      | inl e ↦ rw e (explicit-set_defaults k ds v e)
      | inr e ↦ rw e (default-set_defaults k ds v e f)
    ]

    pub set_defaults-append :
        (ds es : List (Text × Setting)) (v : V)
        → set_defaults vp es (set_defaults vp ds v) ≡ set_defaults vp (ds ++ es) v
    unfolding set_defaults
    set_defaults-append [] es v = refl
    set_defaults-append ((j, s) ∷ ds) es v = set_defaults-append ds es (vp.set_default j s v)
