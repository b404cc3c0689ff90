-- ===== src/Pipeline/Invariant.antt =====
-- What holds after every schedule.
use pusher.Base.{List, [], ◌∷◌}
use pusher.Effects.{Services}
use pusher.Apns.{ApnsMessageHandler}
use pusher.Apns.Responses.{Apns2}
use pusher.Pipeline.{Sizes, System, Outcome, went, blocked, panicked, Event, step, run}

-- An outcome that is no panic, with a state of which `P` holds where the goroutine went on.
abbrev pub Ensures : {S : Type 0} → (System S → Type 0) → Outcome S → Type 0
Ensures P (went s) = P s
Ensures P blocked = Unit
Ensures P panicked = ⊥

module _ {S : Type 0} (sv : Services S) (a : ApnsMessageHandler) (lib : Apns2) (z : Sizes)
    (P : System S → Type 0) where
  Ensures-next :
      (es : List Event) (o : Outcome S)
      → ((t : System S) → P t → Ensures P (run sv a lib z es t))
      → Ensures P o
      → Ensures P
          (elim o [ blocked ↦ blocked | panicked ↦ panicked | went t ↦ run sv a lib z es t ])
  Ensures-next es (went t) rest h = rest t h
  Ensures-next es blocked rest h = tt
  Ensures-next es panicked rest h = h

  -- What every step keeps holds at the end of every schedule.
  pub run_invariant :
      ((e : Event) (s : System S) → P s → Ensures P (step sv a lib z e s))
      → (es : List Event) (s : System S) → P s
      → Ensures P (run sv a lib z es s)
  unfolding run
  run_invariant keeps [] s h = h
  run_invariant keeps (e ∷ es) s h =
      Ensures-next es (step sv a lib z e s) (λ t k. run_invariant keeps es t k) (keeps e s h)

-- The same, with nothing said of a panic.
abbrev pub After : {S : Type 0} → (System S → Type 0) → Outcome S → Type 0
After P (went s) = P s
After P blocked = Unit
After P panicked = Unit

pub Ensures-After :
    {S : Type 0} (P Q : System S → Type 0) (o : Outcome S)
    → Ensures P o
    → After Q o
    → Ensures (λ s. P s × Q s) o
Ensures-After P Q (went s) p q = (p, q)
Ensures-After P Q blocked p q = tt
Ensures-After P Q panicked p q = p

pub Ensures-map :
    {S : Type 0} (P Q : System S → Type 0) (o : Outcome S)
    → ((s : System S) → P s → Q s)
    → Ensures P o
    → Ensures Q o
Ensures-map P Q (went s) f p = f s p
Ensures-map P Q blocked f p = tt
Ensures-map P Q panicked f p = p

pub After-map :
    {S : Type 0} (P Q : System S → Type 0) (o : Outcome S)
    → ((s : System S) → P s → Q s)
    → After P o
    → After Q o
After-map P Q (went s) f p = f s p
After-map P Q blocked f p = tt
After-map P Q panicked f p = tt
