-- ===== src/Listener/Invariant.antt =====
-- What holds after every schedule of the listener.
use pusher.Base.{List, [], ◌∷◌}
use pusher.Feedback.{Broker, Libraries}
use pusher.Listener.{
  Sizes, Listener, negative_counter, send_on_closed, Outcome, went, blocked, panicked, Event, step,
  run,
}

-- A wait group that is not below zero, with a state of which `P` holds where the goroutine went on.
abbrev pub Ensures : (Listener → Type 0) → Outcome → Type 0
Ensures P (went l) = P l
Ensures P blocked = Unit
Ensures P (panicked negative_counter) = ⊥
Ensures P (panicked send_on_closed) = Unit

-- The same, with no panic at all.
abbrev pub Safely : (Listener → Type 0) → Outcome → Type 0
Safely P (went l) = P l
Safely P blocked = Unit
Safely P (panicked p) = ⊥

module _ (lib : Libraries) (b : Broker) (z : Sizes) (P : Listener → Type 0) where
  Ensures-next :
      (es : List Event) (o : Outcome)
      → ((t : Listener) → P t → Ensures P (run lib b z es t))
      → Ensures P o
      → Ensures P
          (elim o [ blocked ↦ blocked | panicked p ↦ panicked p | went t ↦ run lib b z es t ])
  Ensures-next es (went t) rest h = rest t h
  Ensures-next es blocked rest h = tt
  Ensures-next es (panicked negative_counter) rest h = h
  Ensures-next es (panicked send_on_closed) rest h = tt

  -- What every step keeps holds at the end of every schedule.
  pub run_invariant :
      ((e : Event) (l : Listener) → P l → Ensures P (step lib b z e l))
      → (es : List Event) (l : Listener) → P l
      → Ensures P (run lib b z es l)
  unfolding run
  run_invariant keeps [] l h = h
  run_invariant keeps (e ∷ es) l h =
      Ensures-next es (step lib b z e l) (λ t k. run_invariant keeps es t k) (keeps e l h)
