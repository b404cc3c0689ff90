-- ===== src/Firebase/Rest.antt =====
-- A Firebase pusher always comes to rest.
use pusher.Base.{
  zero_or_pos, ℕ, zero, suc, ◌<◌, true, List, [], ◌∷◌, Option, none, some, ◌≡◌, subst, sym, inl,
  inr, refl, length, total, arith,
}
use pusher.Effects.{Services}
use pusher.Apns.{KafkaMessage}
use pusher.Fcm.Handler.{MessageHandler, Env}
use pusher.Firebase.Load.{
  held, is_busy, has_lease, in_flight, of_act, of_sender, twice, seven, of_reading, load, added,
}
use pusher.Firebase.{
  Act, release, send, Sender, calling, delivering, returning, gone, System, Outcome, went, blocked,
  panicked, Event, step, run,
}
use pusher.Firebase.Sound.{IsSound, Keeps, step-Keeps}
use pusher.Firebase.Progress.{GoesOn, progress}

senders_done :
    (ss : List Sender) → total of_sender ss ≡ 0 → (total is_busy ss ≡ 0) × (total has_lease ss ≡ 0)
senders_done [] e = (refl, refl)
senders_done (gone ∷ ss) e =
    let (a, b) = senders_done ss (omega arith) in (omega (arith, a), omega (arith, b))
senders_done (calling j ∷ ss) e = absurd (omega arith)
senders_done (delivering r ∷ ss) e = absurd (omega arith)
senders_done (returning ∷ ss) e = absurd (omega arith)

acts_done : (todo : List Act) → total of_act todo ≡ 0 → length todo ≡ 0
acts_done [] e = refl
acts_done (release ∷ todo) e = absurd (omega arith)
acts_done (send j ∷ todo) e = absurd (omega arith)

nothing_left :
    {A : Type 0} (xs : List A)
    → (total seven xs ≡ 0 → length xs ≡ 0) × (total twice xs ≡ 0 → length xs ≡ 0)
nothing_left [] = (λ e. refl, λ e. refl)
nothing_left (x ∷ xs) = (λ e. absurd (omega arith), λ e. absurd (omega arith))

not_reading : (o : Option KafkaMessage) → of_reading o ≡ 0 → held o ≡ 0
not_reading none e = refl
not_reading (some m) e = absurd (omega arith)

abbrev pub Reaches : {S : Type 0} → (System S → Type 0) → Outcome S → Type 0
Reaches P (went t) = P t
Reaches P blocked = ⊥
Reaches P panicked = ⊥

module _ {S : Type 0} (sv : Services S) (h : MessageHandler) (messages : ℕ) where
  -- Nothing is in flight, the wait group counts the messages of other games, and every lease is free.
  abbrev pub AtRest : System S → Type 0
  AtRest s = (in_flight s ≡ 0) × (s.pending ≡ s.unrouted) × (s.free ≡ h.concurrent_workers)

  abbrev pub Rests : System S → Type 0
  Rests s = (es : List Event) × (total added es ≡ 0) × Reaches AtRest (run sv h messages es s)

  no_load-AtRest : (s : System S) → IsSound h.concurrent_workers s → load s ≡ 0 → AtRest s
  no_load-AtRest s k l =
      let (busy, leases) = senders_done s.senders (omega arith) in
      let calm : in_flight s ≡ 0 = omega (
        arith,
        busy,
        acts_done s.router (omega arith),
        (nothing_left s.msg_chan).0 (omega arith),
        (nothing_left s.response_chan).1 (omega arith),
        not_reading s.reading (omega arith),
      ) in
      (calm, omega (arith, k.balanced, calm), omega (arith, k.leases, leases))

  continue :
      (e : Event) (s : System S) (o : Outcome S)
      → added e ≡ 0
      → step sv h messages e s ≡ o
      → GoesOn o
      → Reaches Rests o
      → Rests s
  unfolding run
  continue e s (went t) calm eq go (es, none_read, reached) = (
    e ∷ es,
    omega arith,
    subst
        (λ (o : Outcome S).
          Reaches AtRest
            (elim o [ blocked ↦ blocked | panicked ↦ panicked | went t ↦ run sv h messages es t ]))
        (sym eq) reached,
  )
  continue e s blocked calm eq go r = absurd go
  continue e s panicked calm eq go r = absurd go

  module _ (env : Env) (counted : h.pending_messages_wait_group ≡ true) (has_room : 0 < messages)
      (has_worker : 0 < h.concurrent_workers) where
    reaches :
        (e : Event) (s : System S) (o : Outcome S)
        → added e ≡ 0
        → GoesOn o
        → Keeps sv h messages counted e s o
        → ((t : System S) → load t < load s → IsSound h.concurrent_workers t → Rests t)
        → Reaches Rests o
    reaches e s (went t) calm go k ih = ih t (omega (arith, k.1)) k.0
    reaches e s blocked calm go k ih = absurd go
    reaches e s panicked calm go k ih = absurd go

    rest_step :
        (s : System S)
        → IsSound h.concurrent_workers s
        → ((t : System S) → load t < load s → IsSound h.concurrent_workers t → Rests t)
        → Rests s
    unfolding run
    rest_step s k ih = elim (zero_or_pos (load s)) [
      | inl none_left ↦ ([], refl, no_load-AtRest s k none_left)
      | inr some_left ↦
          let (e, silent, go) = progress sv h messages env has_room has_worker s k some_left in
          continue e s (step sv h messages e s) silent refl go (
            reaches e s (step sv h messages e s) silent go (step-Keeps sv h messages counted e s k)
              ih)
    ]

    rest_within : (n : ℕ) (s : System S) → load s < n → IsSound h.concurrent_workers s → Rests s
    rest_within zero s l k = absurd (omega arith)
    rest_within (suc n) s l k = rest_step s k (λ t less. rest_within n t (omega arith))

    -- With a wait group, a channel that holds a message and at least one worker, from every sound state, the
    -- goroutines of a Firebase pusher can go on without another message until nothing is in flight, every
    -- lease is free and the wait group counts only the messages of other games.
    pub firebase_comes_to_rest : (s : System S) → IsSound h.concurrent_workers s → Rests s
    firebase_comes_to_rest s k = rest_within (suc (load s)) s (omega arith) k
