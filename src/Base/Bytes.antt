-- ===== src/Base/Bytes.antt =====
-- Go strings as lists of bytes, with their comparison.
use Prim.Native.Nat.{ℕ, compare, Ordering}
use Prim.Native.Char.{code}
use Prim.Native.String.{String}
use mathlib.Core.Path.{◌≡◌, refl}
use mathlib.Core.Logic.{◌↔◌}
use mathlib.Core.Bool.{Bool, true, false, ◌&&◌}
use mathlib.Core.Option.{Option, none, some}
use mathlib.Core.List.{List, [], ◌∷◌, ◌++◌}
use native.Mathlib.Omega.{arith}

abbrev pub Text : Type 0
Text = List ℕ

-- The bytes of an ASCII literal.
abbrev pub codes : String → Text
codes String.[] = []
codes (String.◌∷◌ c s) = code c ∷ codes s

abbrev byte_eq : ℕ → ℕ → Bool
byte_eq a b = elim (compare a b) [ Ordering.eq ↦ true | _ ↦ false ]

infix 50 ◌≟◌
abbrev pub ◌≟◌ : Text → Text → Bool
[] ≟ [] = true
[] ≟ (b ∷ t) = false
(a ∷ s) ≟ [] = false
(a ∷ s) ≟ (b ∷ t) = byte_eq a b && s ≟ t

pub ≟-eq : (s t : Text) → (s ≟ t) ≡ true → s ≡ t
≟-eq [] [] h = refl
≟-eq [] (b ∷ t) h = cc
≟-eq (a ∷ s) [] h = cc
≟-eq (a ∷ s) (b ∷ t) h = ground (arith, ≟-eq s t)

pub ≟_refl : (s : Text) → (s ≟ s) ≡ true
≟_refl [] = refl
≟_refl (a ∷ s) = ground (arith, ≟_refl s)

pub ≟_iff : (s t : Text) → ((s ≟ t) ≡ true) ↔ (s ≡ t)
≟_iff s t = (≟-eq s t, λ e. subst_eq s t e)
  where
    subst_eq : (s t : Text) → s ≡ t → (s ≟ t) ≡ true
    subst_eq s t e = rw (← e) (≟_refl s)

-- `strings.HasPrefix(t, p)`, with what is left of `t`.
abbrev pub strip_prefix : Text → Text → Option Text
strip_prefix [] t = some t
strip_prefix (p ∷ ps) [] = none
strip_prefix (p ∷ ps) (c ∷ t) = elim (byte_eq p c) [ true ↦ strip_prefix ps t | false ↦ none ]

pub strip_prefix-append : (p t : Text) → strip_prefix p (p ++ t) ≡ some t
strip_prefix-append [] t = refl
strip_prefix-append (p ∷ ps) t = ground (arith, strip_prefix-append ps t)

pub strip_prefix_sound : (p t r : Text) → strip_prefix p t ≡ some r → t ≡ p ++ r
strip_prefix_sound [] t r h = ground arith
strip_prefix_sound (p ∷ ps) [] r h = cc
strip_prefix_sound (p ∷ ps) (c ∷ t) r h = ground (arith, strip_prefix_sound ps t r)

-- A switch over texts: the value of the first case that is equal.
abbrev pub switch {ℓ} : {A : Type ℓ} → Text → List (Text × A) → A → A
switch t [] d = d
switch t ((k, a) ∷ cases) d = elim (t ≟ k) [ true ↦ a | false ↦ switch t cases d ]
